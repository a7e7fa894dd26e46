-- ===== src/Boot/Examples.antt =====
-- A flash with a small secure image at address 0 and a kernel and a root file system behind it, and a
-- libfdt that copies nothing.
use Prim.Native.String.{String, len}
use bios_qemu_tz_arm.Prelude.{
  ℕ, ◌≡◌, ◌==◌, ◌⊎◌, refl, arith, inl, inr, none, some, Option, get_or, List, [], ◌∷◌, length,
  replicate, if◌then◌else◌,
}
use bios_qemu_tz_arm.Run.{ok, hang}
use bios_qemu_tz_arm.Platform.{virt, vexpress}
use bios_qemu_tz_arm.Memory.{Memory, load32, store32}
use bios_qemu_tz_arm.Boot.Images.{
  Linker, OpenInto, read_header, load_secure, copy_ns_images, unreloc,
}
use bios_qemu_tz_arm.Boot.Layout.{Opens, Placed, copy_ns_images-Placed}
use bios_qemu_tz_arm.Boot.Secure.{IsValid, Fits, Loaded, load_secure_hangs, load_secure-Loaded}
use bios_qemu_tz_arm.Cells.{fdt32_to_cpu, load, get_val}
use bios_qemu_tz_arm.ResMem.{Region, print_regions, next_region, tz_res_end}
use bios_qemu_tz_arm.ResMem.Regions.{IsMemory}
use bios_qemu_tz_arm.ResMem.Avail.{AllCovered, SomeUncovered}
use bios_qemu_tz_arm.Boot.Tree.{Libfdt, pl011, get_cells_size, tz_res_mem, tz_res_uart}
use bios_qemu_tz_arm.Boot.Tree.Shared.{
  Node, Describes, pl011_text, first_shared, removed, tz_res_uart-first,
}
use bios_qemu_tz_arm.Boot.Tree.Reserve.{Tree, Reduced, tz_res_mem-Reduced}
use bios_qemu_tz_arm.Boot.Tree.Compatible.{IsText, AllTexts, stringlist}

abbrev pub link : Linker
link = record {
  text_start = 0;
  secure_blob_start = 0;
  secure_blob_end = 36;
  nsec_blob_start = 36;
  nsec_blob_end = 40;
  nsec_dtb_start = 40;
  nsec_dtb_end = 40;
  nsec_rootfs_start = 40;
  nsec_rootfs_end = 42;
}

-- The header: the magic number, version 1, four bytes to load at 0x7DF00000, and four paged ones.
abbrev pub flash_bytes : List ℕ
flash_bytes =
    0x4f ∷ 0x50 ∷ 0x54 ∷ 0x45 ∷ 1 ∷ 0 ∷ 0 ∷ 0 ∷ 4 ∷ 0 ∷ 0 ∷ 0 ∷ 0 ∷ 0 ∷ 0 ∷ 0 ∷ 0 ∷ 0 ∷ 0xF0 ∷ 0x7D
    ∷ 0 ∷ 0 ∷ 0 ∷ 0 ∷ 4 ∷ 0 ∷ 0 ∷ 0 ∷ 1 ∷ 2 ∷ 3 ∷ 4 ∷ 5 ∷ 6 ∷ 7 ∷ 8 ∷ 11 ∷ 12 ∷ 13 ∷ 14 ∷ 21 ∷ 22
    ∷ []

abbrev pub machine : Memory
machine i = get_or flash_bytes i 0

abbrev pub same_place : OpenInto
same_place src dst size mem = some mem

abbrev pub same_place-Opens : (src size : ℕ) → Opens same_place src size
same_place-Opens src size = record {
  IsTree = λ mem. Unit {0};
  local = λ mem mem' h same. tt;
  succeeds = λ dst mem h room. (mem, refl, λ i far. refl);
}

copy_ns_images-Placed_example :
    Placed virt link machine (copy_ns_images link same_place virt machine)
copy_ns_images-Placed_example =
    copy_ns_images-Placed virt link same_place machine (same_place-Opens 0x40000000 0x10000) tt
      (unfold unreloc in omega arith) (unfold unreloc in omega arith) (omega arith)

pub valid : IsValid virt link machine
unfolding read_header load32 unreloc
valid = record {
  has_header = omega arith;
  positive = omega arith;
  magic = refl;
  version = refl;
  low_address = refl;
}

pub fits : Fits virt link machine
unfolding read_header load32 unreloc
fits = record {
  text_word = omega arith;
  start_word = omega arith;
  end_word = omega arith;
  in_flash = omega arith;
  parts = omega arith;
  above = omega arith;
  room = omega arith;
}

load_secure-Loaded_example : Loaded virt link machine (load_secure link virt machine)
load_secure-Loaded_example = load_secure-Loaded virt link machine valid fits

-- The flash is empty: there is no magic number.
load_secure_hangs_example : load_secure link virt (λ i. 0) ≡ hang
load_secure_hangs_example =
    load_secure_hangs virt link (λ i. 0) (inr (inl (unfold read_header load32 in omega arith)))

-- A tree with one memory node, at offset 4: 1 GiB at 0x80000000, in one cell each.
abbrev one_node : List ℕ
one_node = 0x80 ∷ 0 ∷ 0 ∷ 0 ∷ 0x40 ∷ 0 ∷ 0 ∷ 0 ∷ []

abbrev tree_lib : Libfdt
tree_lib = record {
  open_into = same_place;
  subnode_offset = λ fdt offs name mem. some 4;
  path_offset = λ fdt path mem. none;
  next_node = λ fdt offs mem. none;
  getprop = λ fdt offs name mem. some (if offs == 0 then 0 ∷ 0 ∷ 0 ∷ 1 ∷ [] else one_node);
  setprop = λ fdt offs name content mem. some (store32 fdt (length content) mem);
  setprop_string = λ fdt offs name value mem. none;
  setprop_cell = λ fdt offs name value mem. none;
  add_subnode = λ fdt offs name mem. none;
  del_node = λ fdt offs mem. none;
  pack = λ fdt mem. none;
}

abbrev node_ram : Region
node_ram = record { start = 0x80000000; len = 0x40000000 }

one_node-IsMemory : IsMemory one_node 8 1 1
one_node-IsMemory = record {
  addr_cells = inl refl;
  len_cells = inl refl;
  is_length = omega arith;
  entries = 1;
  whole = refl;
  fits = omega arith;
}

tree : Tree tree_lib 4096 machine
unfolding get_cells_size print_regions next_region get_val load fdt32_to_cpu
tree = record {
  offs = 4;
  prop = one_node;
  addr_size = 1;
  len_size = 1;
  regs = node_ram ∷ [];
  node = refl;
  reg = refl;
  addr = refl;
  len = refl;
  memory = one_node-IsMemory;
  printed = refl;
  disjoint = ((λ x i c. c), tt);
  small = omega arith;
  writes = λ content short. (store32 4096 (length content) machine, refl);
}

tz_res_mem-Reduced_example :
    (tz_res_mem tree_lib vexpress (replicate 16 0) 4096 machine ≡ hang)
      × SomeUncovered (node_ram ∷ []) 0xBDF00000 (tz_res_end vexpress)
    ⊎ AllCovered (node_ram ∷ []) 0xBDF00000 (tz_res_end vexpress)
      × Reduced tree_lib vexpress 4096 machine tree
          (tz_res_mem tree_lib vexpress (replicate 16 0) 4096 machine)
unfolding tree
tz_res_mem-Reduced_example =
    tz_res_mem-Reduced tree_lib vexpress (replicate 16 0) 4096 machine tree (omega arith)
      (omega arith)

-- Two nodes: one at offset 4 with no "compatible" property, and a PL011 at offset 8.
abbrev uart_reg : List ℕ
uart_reg = 0x1c ∷ 0x0a ∷ 0 ∷ 0 ∷ 0 ∷ 0 ∷ 0x10 ∷ 0 ∷ []

abbrev uart_prop : ℕ → String → Option (List ℕ)
uart_prop offs name =
    if offs == 0
    then some (0 ∷ 0 ∷ 0 ∷ 1 ∷ [])
    else if offs == 4
    then none
    else if len name == 3
    then some uart_reg
    else some pl011

abbrev uart_lib : Libfdt
uart_lib = record tree_lib {
  next_node = λ fdt offs mem. if offs == 0 then some 4 else if offs == 4 then some 8 else none;
  getprop = λ fdt offs name mem. uart_prop offs name;
  del_node = λ fdt offs mem. some (store32 fdt offs mem);
}

abbrev other_node : Node
other_node = record { place = 4; compatible = []; base = none }

abbrev uart_node : Node
uart_node = record { place = 8; compatible = pl011_text ∷ []; base = some 0x1c0a0000 }

Describes-other : Describes uart_lib 4096 1 machine other_node
unfolding AllTexts
Describes-other = record { texts = tt; strings = inl (refl, refl); reg = inl (refl, refl) }

Describes-uart : Describes uart_lib 4096 1 machine uart_node
unfolding AllTexts IsText stringlist get_val load fdt32_to_cpu
Describes-uart = record {
  texts = ground arith;
  strings = inr refl;
  reg = inr (uart_reg, 0x1c0a0000, 4, refl, refl, refl);
}

uart_cells : get_cells_size uart_lib 4096 0 "#address-cells" machine ≡ ok 1
unfolding get_cells_size load fdt32_to_cpu
uart_cells = refl

tz_res_uart-first_example :
    tz_res_uart uart_lib vexpress 3 4096 machine
    ≡ removed uart_lib 4096 1 machine (first_shared 0x1c0a0000 (other_node ∷ uart_node ∷ []))
tz_res_uart-first_example =
    tz_res_uart-first uart_lib 4096 1 machine vexpress 3 (other_node ∷ uart_node ∷ []) uart_cells
      (refl, Describes-other, (refl, Describes-uart, refl)) (omega arith)
