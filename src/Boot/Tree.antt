-- ===== src/Boot/Tree.antt =====
-- The device tree in bios/main.c: `get_cells_size`, `tz_res_mem`, `tz_res_uart` with its two tests,
-- `tz_add_optee_node`, the `setprop_..` wrappers, `call_kernel`, and the two entry points. The
-- functions of libfdt work on a memory at the address of the tree and are parameters; a negative
-- result is `none`. `fdt_getprop` gives the bytes of the property, and their number is its length.
-- `tz_res_uart` goes over the nodes: the fuel is the number of nodes it may visit.
pub mod Compatible
pub mod Reserve
pub mod Shared
use Prim.Native.String.{String}
use bios_qemu_tz_arm.Prelude.{
  ℕ, zero, suc, ◌+◌, ◌-◌, ◌*◌, ◌%◌, ◌^◌, Bool, true, false, ◌&&◌, not, Option, none, some, List, [],
  ◌∷◌, ◌==◌, ltb, length, take, drop, if◌then◌else◌,
}
use bios_qemu_tz_arm.Run.{Run, ok, hang, fault, out_of_fuel, check, ◌>>=◌, ◌>>◌}
use bios_qemu_tz_arm.Platform.{Flavor, dtb_start, dtb_max_size, uart1_base}
use bios_qemu_tz_arm.Cells.{get_val, load, fdt32_to_cpu}
use bios_qemu_tz_arm.ResMem.{tz_res_mem_check_avail, tz_res_mem_carve}
use bios_qemu_tz_arm.Memory.{Memory}
use bios_qemu_tz_arm.Boot.Images.{
  Linker, OpenInto, need, Handover, NsImages, open_fdt, load_secure, copy_ns_images,
}

-- libfdt: the arguments after the tree's address are those of the C functions.
pub record Libfdt : Type 0 where
  pub open_into : OpenInto
  pub subnode_offset : ℕ → ℕ → String → Memory → Option ℕ
  pub path_offset : ℕ → String → Memory → Option ℕ
  pub next_node : ℕ → ℕ → Memory → Option ℕ
  pub getprop : ℕ → ℕ → String → Memory → Option (List ℕ)
  pub setprop : ℕ → ℕ → String → List ℕ → Memory → Option Memory
  pub setprop_string : ℕ → ℕ → String → String → Memory → Option Memory
  pub setprop_cell : ℕ → ℕ → String → ℕ → Memory → Option Memory
  pub add_subnode : ℕ → ℕ → String → Memory → Option (ℕ × Memory)
  pub del_node : ℕ → ℕ → Memory → Option Memory
  pub pack : ℕ → Memory → Option Memory

-- "arm,pl011", with its NUL
abbrev pub pl011 : List ℕ
pl011 = b'a' ∷ b'r' ∷ b'm' ∷ b',' ∷ b'p' ∷ b'l' ∷ b'0' ∷ b'1' ∷ b'1' ∷ 0 ∷ []

-- `strcmp(s, t) == 0`, and a read behind the end of either is a fault.
unfoldable pub str_equal : List ℕ → List ℕ → Run Bool
str_equal [] t = fault
str_equal (c ∷ s) [] = fault
str_equal (c ∷ s) (d ∷ t) =
    if not (c == d) then ok false else if c == 0 then ok true else str_equal s t

unfoldable pub str_length : List ℕ → Run ℕ
str_length [] = fault
str_length (c ∷ s) = if c == 0 then ok 0 else (do n ← str_length s; ok (suc n))

-- `while (plen > 0)`, where `prop` is what is left of the property: each round takes a byte or more.
unfoldable pub compatible_loop : ℕ → List ℕ → List ℕ → Run Bool
compatible_loop zero prop compat = out_of_fuel
compatible_loop (suc fuel) [] compat = ok false
compatible_loop (suc fuel) (c ∷ prop) compat = do
  same ← str_equal (c ∷ prop) compat
  elim same [
    | true ↦ ok true
    | false ↦ do l ← str_length (c ∷ prop); compatible_loop fuel (drop (l + 1) (c ∷ prop)) compat
  ]

module _ (lib : Libfdt) where
  unfoldable pub get_cells_size : ℕ → ℕ → String → Memory → Run ℕ
  get_cells_size fdt offs cell_name mem = elim (lib.getprop fdt offs cell_name mem) [
    | none ↦ hang
    | some cell ↦ do
      check (not (length cell == 4))
      v ← load 4 cell 0
      let cells_size = fdt32_to_cpu v
      check (not (cells_size == 1) && not (cells_size == 2))
      ok cells_size
  ]

  -- `stack` is what the array `data` holds before, of which as many bytes are taken as it has.
  unfoldable pub tz_res_mem : Flavor → List ℕ → ℕ → Memory → Run Memory
  tz_res_mem p stack fdt mem = do
    offs ← need (lib.subnode_offset fdt 0 "memory" mem)
    prop ← need (lib.getprop fdt offs "reg" mem)
    addr_size ← get_cells_size fdt 0 "#address-cells" mem
    len_size ← get_cells_size fdt 0 "#size-cells" mem
    tz_res_mem_check_avail p prop (length prop) addr_size len_size
    let dlen = length prop + (addr_size + len_size) * 4
    (content, used) ←
        tz_res_mem_carve p prop (length prop) addr_size len_size (take dlen stack) dlen
    need (lib.setprop fdt offs "reg" (take used content) mem)

  unfoldable pub node_is_compatible : ℕ → ℕ → List ℕ → Memory → Run Bool
  node_is_compatible fdt offs compat mem = elim (lib.getprop fdt offs "compatible" mem) [
    | none ↦ ok false
    | some prop ↦ compatible_loop (suc (length prop)) prop compat
  ]

  unfoldable pub has_reg_base : ℕ → ℕ → ℕ → ℕ → Memory → Run Bool
  has_reg_base fdt offs addr_size base mem = elim (lib.getprop fdt offs "reg" mem) [
    | none ↦ ok false
    | some prop ↦ do (prop_base, poffs) ← get_val prop 0 addr_size; ok (prop_base % 2 ^ 32 == base)
  ]

  -- while (true)
  unfoldable pub uart_loop : Flavor → ℕ → ℕ → ℕ → ℕ → Memory → Run Memory
  uart_loop p addr_size zero fdt offs mem = out_of_fuel
  uart_loop p addr_size (suc fuel) fdt offs mem = elim (lib.next_node fdt offs mem) [
    | none ↦ ok mem
    | some node ↦ do
      compatible ← node_is_compatible fdt node pl011 mem
      elim compatible [
        | false ↦ uart_loop p addr_size fuel fdt node mem
        | true ↦ do
          based ← has_reg_base fdt node addr_size (uart1_base p) mem
          elim based [
            | false ↦ uart_loop p addr_size fuel fdt node mem
            | true ↦ need (lib.del_node fdt node mem)
          ]
      ]
  ]

  unfoldable pub tz_res_uart : Flavor → ℕ → ℕ → Memory → Run Memory
  tz_res_uart p fuel fdt mem = do
    addr_size ← get_cells_size fdt 0 "#address-cells" mem
    uart_loop p addr_size fuel fdt 0 mem

  unfoldable pub tz_add_optee_node : ℕ → Memory → Run Memory
  tz_add_optee_node fdt mem = do
    root ← need (lib.path_offset fdt "/" mem)
    (firmware, mem1) ← need (lib.add_subnode fdt root "firmware" mem)
    (optee, mem2) ← need (lib.add_subnode fdt firmware "optee" mem1)
    mem3 ← need (lib.setprop_string fdt optee "compatible" "linaro,optee-tz" mem2)
    need (lib.setprop_string fdt optee "method" "smc" mem3)

  -- What the argument and the static variables hold at the end, and the address of the tree.
  unfoldable pub main_init_sec :
      Flavor → Linker → List ℕ → ℕ → Memory → Run ((Handover × NsImages) × Memory)
  main_init_sec p link stack fuel mem = do
    (fdt, mem1) ←
        open_fdt link lib.open_into (dtb_start p) link.nsec_dtb_start link.nsec_dtb_end mem
    mem2 ← tz_res_mem p stack fdt mem1
    mem3 ← tz_res_uart p fuel fdt mem2
    mem4 ← tz_add_optee_node fdt mem3
    mem5 ← need (lib.pack fdt mem4)
    (handover, mem6) ← load_secure link p mem5
    (images, mem7) ← copy_ns_images link lib.open_into p mem6
    ok ((handover, images), mem7)

  unfoldable pub setprop_cell : ℕ → String → String → ℕ → Memory → Run Memory
  setprop_cell fdt node_path property val mem = do
    offs ← need (lib.path_offset fdt node_path mem)
    need (lib.setprop_cell fdt offs property val mem)

  unfoldable pub setprop_string : ℕ → String → String → String → Memory → Run Memory
  setprop_string fdt node_path property string mem = do
    offs ← need (lib.path_offset fdt node_path mem)
    need (lib.setprop_string fdt offs property string mem)

  -- The call of the kernel at the end: its address, r0, r1 and r2.
  unfoldable pub call_kernel : String → ℕ → ℕ → ℕ → ℕ → Memory → Run ((ℕ × ℕ × ℕ × ℕ) × Memory)
  call_kernel cmdline entry dtb initrd initrd_end mem = do
    mem1 ← need (lib.open_into dtb dtb dtb_max_size mem)
    mem2 ← setprop_cell dtb "/chosen" "linux,initrd-start" initrd mem1
    mem3 ← setprop_cell dtb "/chosen" "linux,initrd-end" initrd_end mem2
    mem4 ← setprop_string dtb "/chosen" "bootargs" cmdline mem3
    mem5 ← need (lib.pack dtb mem4)
    ok ((entry, 0, 2272, dtb), mem5)

  unfoldable pub main_init_ns : String → NsImages → Memory → Run ((ℕ × ℕ × ℕ × ℕ) × Memory)
  main_init_ns cmdline images =
      call_kernel cmdline images.kernel_entry images.dtb_addr images.rootfs_start images.rootfs_end
