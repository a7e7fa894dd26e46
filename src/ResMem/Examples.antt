-- ===== src/ResMem/Examples.antt =====
-- The memory nodes of the tests: one block over all of the RAM, one block over a part of it, and two
-- cells to a number.
use bios_qemu_tz_arm.Prelude.{ℕ, ◌≡◌, ◌↔◌, inl, inr, refl, arith, List, [], ◌∷◌, map, replicate}
use bios_qemu_tz_arm.Run.{ok, hang}
use bios_qemu_tz_arm.Platform.{vexpress, virt}
use bios_qemu_tz_arm.Cells.{fdt32_to_cpu, fdt64_to_cpu, load, get_val}
use bios_qemu_tz_arm.ResMem.{
  Region, print_regions, next_region, tz_res_end, tz_res_mem_check_avail, account, scan,
  search_loop, tz_res_mem_carve,
}
use bios_qemu_tz_arm.ResMem.Regions.{IsMemory}
use bios_qemu_tz_arm.ResMem.Avail.{Covered, Decided, check_avail_decides}
use bios_qemu_tz_arm.ResMem.Carve.{Carves, all_pieces, cast32, carve-Carves}
use bios_qemu_tz_arm.ResMem.Carve.Exact.{IsSecure, CarvesTo, carve-IsSecure, carve_exact}
use bios_qemu_tz_arm.ResMem.Carve.Outside.{stretched, carve_loses_below, carve_stretches_above}

-- 1 GiB at 0x80000000, in one cell each.
abbrev all_ram : List ℕ
all_ram = 0x80 ∷ 0 ∷ 0 ∷ 0 ∷ 0x40 ∷ 0 ∷ 0 ∷ 0 ∷ []

abbrev ram : Region
ram = record { start = 0x80000000; len = 0x40000000 }

all_ram-IsMemory : IsMemory all_ram 8 1 1
all_ram-IsMemory = record {
  addr_cells = inl refl;
  len_cells = inl refl;
  is_length = omega arith;
  entries = 1;
  whole = refl;
  fits = omega arith;
}

printed_ram : print_regions all_ram 8 1 1 9 0 ≡ ok (ram ∷ [])
unfolding print_regions next_region get_val load fdt32_to_cpu
printed_ram = refl

check_avail_decides_example :
    Decided
      (ram ∷ [])
      0xBDF00000
      (tz_res_end vexpress)
      (tz_res_mem_check_avail vexpress all_ram 8 1 1)
check_avail_decides_example =
    check_avail_decides vexpress all_ram 8 1 1 (ram ∷ []) all_ram-IsMemory printed_ram

-- The RAM of the other board is not where the secure memory of this one is.
check_avail_runs :
    (tz_res_mem_check_avail vexpress all_ram 8 1 1 ≡ ok tt)
    × (tz_res_mem_check_avail virt all_ram 8 1 1 ≡ hang)
unfolding tz_res_mem_check_avail search_loop scan account print_regions next_region get_val load
    fdt32_to_cpu
check_avail_runs = (refl, refl)

abbrev stack : List ℕ
stack = replicate 16 0

carve-Carves_example :
    Carves 1 1 16
      (map cast32 (all_pieces vexpress (ram ∷ [])))
      (tz_res_mem_carve vexpress all_ram 8 1 1 stack 16)
carve-Carves_example =
    carve-Carves vexpress all_ram 8 1 1 (ram ∷ []) stack all_ram-IsMemory printed_ram
      ((λ x i c. c), tt) refl (omega arith)

carve-IsSecure_example :
    CarvesTo 1 1 16
      (λ out. (x : ℕ) → Covered x out → IsSecure vexpress x → ⊥)
      (tz_res_mem_carve vexpress all_ram 8 1 1 stack 16)
carve-IsSecure_example =
    carve-IsSecure vexpress all_ram 8 1 1 (ram ∷ []) stack all_ram-IsMemory printed_ram
      ((λ x i c. c), tt) refl (omega arith) (omega arith)

carve_exact_example :
    CarvesTo 1 1 16
      (λ out. (x : ℕ) → Covered x out ↔ (Covered x (ram ∷ []) × (IsSecure vexpress x → ⊥)))
      (tz_res_mem_carve vexpress all_ram 8 1 1 stack 16)
carve_exact_example =
    carve_exact vexpress all_ram 8 1 1 (ram ∷ []) stack all_ram-IsMemory printed_ram
      ((λ x i c. c), tt) refl (omega arith) (omega arith) (omega arith)

-- 256 MiB at 0xD0000000, above the secure memory.
abbrev high_ram : List ℕ
high_ram = 0xD0 ∷ 0 ∷ 0 ∷ 0 ∷ 0x10 ∷ 0 ∷ 0 ∷ 0 ∷ []

abbrev high : Region
high = record { start = 0xD0000000; len = 0x10000000 }

high_ram-IsMemory : IsMemory high_ram 8 1 1
high_ram-IsMemory = record {
  addr_cells = inl refl;
  len_cells = inl refl;
  is_length = omega arith;
  entries = 1;
  whole = refl;
  fits = omega arith;
}

printed_high : print_regions high_ram 8 1 1 9 0 ≡ ok (high ∷ [])
unfolding print_regions next_region get_val load fdt32_to_cpu
printed_high = refl

carve_stretches_above_example :
    CarvesTo 1 1 16
      (λ out. out ≡ stretched vexpress high ∷ [])
      (tz_res_mem_carve vexpress high_ram 8 1 1 stack 16)
carve_stretches_above_example =
    carve_stretches_above vexpress high_ram 8 1 1 (high ∷ []) stack high_ram-IsMemory printed_high
      ((λ x i c. c), tt) refl (omega arith) (omega arith)

-- 512 MiB at 0x80000000, in two cells each.
abbrev low_ram : List ℕ
low_ram = 0 ∷ 0 ∷ 0 ∷ 0 ∷ 0x80 ∷ 0 ∷ 0 ∷ 0 ∷ 0 ∷ 0 ∷ 0 ∷ 0 ∷ 0x20 ∷ 0 ∷ 0 ∷ 0 ∷ []

abbrev low : Region
low = record { start = 0x80000000; len = 0x20000000 }

low_ram-IsMemory : IsMemory low_ram 16 2 2
low_ram-IsMemory = record {
  addr_cells = inr refl;
  len_cells = inr refl;
  is_length = omega arith;
  entries = 1;
  whole = refl;
  fits = omega arith;
}

printed_low : print_regions low_ram 16 2 2 17 0 ≡ ok (low ∷ [])
unfolding print_regions next_region get_val load fdt64_to_cpu
printed_low = refl

carve_loses_below_example :
    CarvesTo 2 2 32 (λ out. out ≡ []) (tz_res_mem_carve vexpress low_ram 16 2 2 (replicate 32 0) 32)
carve_loses_below_example =
    carve_loses_below vexpress low_ram 16 2 2 (low ∷ []) (replicate 32 0) low_ram-IsMemory
      printed_low ((λ x i c. c), tt) refl (omega arith) (omega arith)
