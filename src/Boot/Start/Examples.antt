-- ===== src/Boot/Start/Examples.antt =====
-- A boot of the board virt from the flash of Boot/Examples, with a libfdt that keeps the properties of
-- "/chosen" in the memory at the tree: 1 GiB of RAM and the secure UART.
use Prim.Native.String.{String, len}
use mathlib.Core.Option.{some-injective}
use bios_qemu_tz_arm.Prelude.{
  ℕ, ◌+◌, ◌==◌, refl, sym, ap, ◌∙◌, arith, inl, inr, none, some, Option, List, [], ◌∷◌, length,
  replicate, if◌then◌else◌,
}
use bios_qemu_tz_arm.Platform.{virt}
use bios_qemu_tz_arm.Memory.{Memory, store8, store32}
use bios_qemu_tz_arm.Memory.Words.{store32_outside, store8_other}
use bios_qemu_tz_arm.Cells.{fdt32_to_cpu, load, get_val}
use bios_qemu_tz_arm.ResMem.{Region, print_regions, next_region, tz_res_end}
use bios_qemu_tz_arm.ResMem.Regions.{IsMemory}
use bios_qemu_tz_arm.ResMem.Avail.{AllCovered}
use bios_qemu_tz_arm.Boot.Images.{unreloc}
use bios_qemu_tz_arm.Boot.Tree.{Libfdt, pl011, get_cells_size}
use bios_qemu_tz_arm.Boot.Tree.Compatible.{IsText, AllTexts, stringlist}
use bios_qemu_tz_arm.Boot.Tree.Shared.{Node, Describes, pl011_text}
use bios_qemu_tz_arm.Boot.Tree.Reserve.{Tree}
use bios_qemu_tz_arm.Boot.Examples.{link, machine, same_place, same_place-Opens, valid, fits}
use bios_qemu_tz_arm.Boot.Start.Edits.{Editor, Nodes}
use bios_qemu_tz_arm.Boot.Start.Whole.{Bootable}

abbrev ram : List ℕ
ram = 0x40 ∷ 0 ∷ 0 ∷ 0 ∷ 0x40 ∷ 0 ∷ 0 ∷ 0 ∷ []

abbrev uart_reg : List ℕ
uart_reg = 0x09 ∷ 0x04 ∷ 0 ∷ 0 ∷ 0 ∷ 0 ∷ 0x10 ∷ 0 ∷ []

abbrev pub bytes_at : ℕ → Memory → List ℕ
bytes_at a mem = mem a ∷ mem (a + 1) ∷ mem (a + 2) ∷ mem (a + 3) ∷ []

-- The memory node is at offset 4, the UART at 8.
abbrev node_prop : ℕ → String → Option (List ℕ)
node_prop offs name =
    if offs == 0
    then some (0 ∷ 0 ∷ 0 ∷ 1 ∷ [])
    else if offs == 4
    then (if len name == 3 then some ram else none)
    else if len name == 3
    then some uart_reg
    else some pl011

-- A string that is as long as it was stored.
abbrev pub text_of_length : ℕ → List ℕ
text_of_length n = replicate n 63

-- The properties of "/chosen" are told apart by the lengths of their names.
abbrev any_prop : ℕ → ℕ → String → Memory → Option (List ℕ)
any_prop fdt offs name mem =
    if len name == 18
    then some (bytes_at (fdt + 16) mem)
    else if len name == 16
    then some (bytes_at (fdt + 32) mem)
    else if len name == 8
    then some (text_of_length (mem (fdt + 64)))
    else node_prop offs name

abbrev pub lib : Libfdt
lib = record {
  open_into = same_place;
  subnode_offset = λ fdt offs name mem. some 4;
  path_offset = λ fdt path mem. some 12;
  next_node = λ fdt offs mem. if offs == 0 then some 4 else if offs == 4 then some 8 else none;
  getprop = λ fdt offs name mem. any_prop fdt offs name mem;
  setprop = λ fdt offs name content mem. some (store32 fdt (length content) mem);
  setprop_string = λ fdt offs name value mem. some (store8 (fdt + 64) (len value) mem);
  setprop_cell = λ fdt offs name v mem.
      some (store32 (fdt + (if len name == 18 then 16 else 32)) (fdt32_to_cpu v) mem);
  add_subnode = λ fdt offs name mem. some (12, mem);
  del_node = λ fdt offs mem. some (store32 fdt offs mem);
  pack = λ fdt mem. some mem;
}

editor : (fdt : ℕ) → Editor lib fdt
editor fdt = record {
  Holds = λ n mem. Unit;
  IsNode = λ offs mem. Unit;
  IsInner = λ offs mem. Unit;
  IsFree = λ offs name mem. Unit;
  Lacks = λ name mem. Unit;
  IsPacked = λ mem. Unit;
  root = λ n mem h. (12, refl, tt, λ name h. tt);
  starts = λ n mem h. tt;
  next = λ n offs node mem h is e. (tt, tt);
  deletes = λ n offs mem h h'. (
    store32 fdt offs mem,
    refl,
    tt,
    λ name h. h,
    λ i far. store32_outside fdt offs mem i (ground arith),
  );
  adds = λ n offs name mem short h h' free. (12, mem, refl, tt, λ other. tt, tt, λ i far. refl);
  strings = λ n offs name value mem short short' h h'. (
    store8 (fdt + 64) (len value) mem,
    refl,
    tt,
    tt,
    λ i far. store8_other (fdt + 64) (len value) mem i (ground arith),
  );
  packs = λ n mem h. (mem, refl, tt, λ i far. refl);
}

abbrev memory_node : Node
memory_node = record { place = 4; compatible = []; base = some 0x40000000 }

abbrev uart_node : Node
uart_node = record { place = 8; compatible = pl011_text ∷ []; base = some 0x09040000 }

module _ (fdt : ℕ) (mem : Memory) where
  Describes-memory : Describes lib fdt 1 mem memory_node
  unfolding AllTexts get_val load fdt32_to_cpu
  Describes-memory = record {
    texts = tt;
    strings = inl (refl, refl);
    reg = inr (ram, 0x40000000, 4, refl, refl, refl);
  }

  Describes-uart : Describes lib fdt 1 mem uart_node
  unfolding AllTexts IsText stringlist get_val load fdt32_to_cpu
  Describes-uart = record {
    texts = ground arith;
    strings = inr refl;
    reg = inr (uart_reg, 0x09040000, 4, refl, refl, refl);
  }

  nodes : Nodes lib fdt 3 mem
  unfolding get_cells_size load fdt32_to_cpu
  nodes = record {
    addr_size = 1;
    nodes = memory_node ∷ uart_node ∷ [];
    cells = refl;
    chain = (refl, Describes-memory, (refl, Describes-uart, refl));
    few = omega arith;
  }

abbrev ram_region : Region
ram_region = record { start = 0x40000000; len = 0x40000000 }

ram-IsMemory : IsMemory ram 8 1 1
ram-IsMemory = record {
  addr_cells = inl refl;
  len_cells = inl refl;
  is_length = omega arith;
  entries = 1;
  whole = refl;
  fits = omega arith;
}

tree : Tree lib 0x40000000 machine
unfolding get_cells_size print_regions next_region get_val load fdt32_to_cpu
tree = record {
  offs = 4;
  prop = ram;
  addr_size = 1;
  len_size = 1;
  regs = ram_region ∷ [];
  node = refl;
  reg = refl;
  addr = refl;
  len = refl;
  memory = ram-IsMemory;
  printed = refl;
  disjoint = ((λ x i c. c), tt);
  small = omega arith;
  writes = λ content short. (store32 0x40000000 (length content) machine, refl);
}

all_covered : AllCovered (ram_region ∷ []) 0x7DF00000 (tz_res_end virt)
all_covered x lo hi = inl (omega arith, omega arith)

pub stack : List ℕ
stack = replicate 16 0

pub bootable : Bootable virt link lib stack 3 machine
unfolding stack editor tree
bootable = record {
  opens = same_place-Opens 0x40000000 0x10000;
  is_tree = tt;
  reopens = same_place-Opens 0x40000000 0x10000;
  opened = machine;
  is_opened = refl;
  dtb_fits = omega arith;
  tree = tree;
  covered = all_covered;
  room = omega arith;
  short = omega arith;
  editor = editor 0x40000000;
  rewritten = λ content mem' short e. (
    tt,
    tt,
    nodes 0x40000000 mem',
    λ i far.
        sym (ap (λ m. m i) (some-injective (store32 0x40000000 (length content) machine) mem' e))
        ∙ store32_outside 0x40000000 (length content) machine i (ground arith),
  );
  packed_is_tree = λ packed h. tt;
  valid = valid;
  fits = fits;
  kernel_flash = unfold unreloc in omega arith;
  rootfs_flash = unfold unreloc in omega arith;
  small = omega arith;
}
