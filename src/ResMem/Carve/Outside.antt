-- ===== src/ResMem/Carve/Outside.antt =====
-- Regions that do not meet the secure memory: the carving does not keep them as they are.
use bios_qemu_tz_arm.Prelude.{
  ℕ, ◌+◌, ◌-◌, ◌≤◌, ◌<◌, ◌≡◌, suc, refl, arith, List, [], ◌∷◌, map, length,
}
use mathlib.Core.List.{map-append}
use bios_qemu_tz_arm.Run.{ok}
use bios_qemu_tz_arm.Platform.{Flavor, vexpress, virt, tz_res_mem_start}
use bios_qemu_tz_arm.Cells.RoundTrip.{IsLength}
use bios_qemu_tz_arm.ResMem.{Region, tz_res_end, print_regions, tz_res_mem_carve}
use bios_qemu_tz_arm.ResMem.Regions.{entry_size, IsMemory}
use bios_qemu_tz_arm.ResMem.Carve.{pieces, all_pieces, cast32, Disjoint}
use bios_qemu_tz_arm.ResMem.Carve.Exact.{All, Fits32, CarvesTo, carve-CarvesTo}

-- The region ends where the secure memory starts, or before.
abbrev pub IsBelow : Flavor → Region → Type 0
IsBelow p r = r.start + r.len ≤ tz_res_mem_start p

-- The region starts behind the secure memory and a gap.
abbrev pub IsAbove : Flavor → Region → Type 0
IsAbove p r = (tz_res_end p < r.start) × (0 < r.len) × Fits32 r

-- From the end of the secure memory to the end of the region.
abbrev pub stretched : Flavor → Region → Region
stretched p r = record { start = tz_res_end p; len = r.start + r.len - tz_res_end p }

pieces_below : (p : Flavor) (r : Region) → IsBelow p r → pieces p r ≡ []
unfolding pieces
pieces_below vexpress r h = ground arith
pieces_below virt r h = ground arith

pieces_above :
    (p : Flavor) (r : Region) → IsAbove p r → map cast32 (pieces p r) ≡ stretched p r ∷ []
unfolding pieces
pieces_above vexpress r h = ground arith
pieces_above virt r h = ground arith

all_pieces_below :
    (p : Flavor) (regs : List Region) → All (IsBelow p) regs → map cast32 (all_pieces p regs) ≡ []
unfolding all_pieces
all_pieces_below p [] h = refl
all_pieces_below p (r ∷ rest) h = rw (pieces_below p r h.0) (all_pieces_below p rest h.1)

all_pieces_above :
    (p : Flavor) (regs : List Region)
    → All (IsAbove p) regs
    → map cast32 (all_pieces p regs) ≡ map (stretched p) regs
unfolding all_pieces
all_pieces_above p [] h = refl
all_pieces_above p (r ∷ rest) h = rw (map-append, pieces_above p r h.0, all_pieces_above p rest h.1)

module _ (p : Flavor) (prop : List ℕ) (plen addr_size len_size : ℕ) (regs : List Region)
    (buf : List ℕ) (m : IsMemory prop plen addr_size len_size)
    (printed : print_regions prop plen addr_size len_size (suc plen) 0 ≡ ok regs)
    (apart : Disjoint regs) (size : length buf ≡ plen + entry_size addr_size len_size)
    (small : IsLength (length buf)) where
  -- Regions that all lie below the secure memory are lost: the property that the carving returns is
  -- empty.
  pub carve_loses_below :
      All (IsBelow p) regs
      → CarvesTo addr_size len_size
          (length buf)
          (λ out. out ≡ [])
          (tz_res_mem_carve p prop plen addr_size len_size buf (length buf))
  carve_loses_below h =
      carve-CarvesTo p prop plen addr_size len_size regs buf m printed apart size small _
        (all_pieces_below p regs h)

  -- Regions that all lie above the secure memory are stretched down to its end, over a gap that no
  -- region listed.
  pub carve_stretches_above :
      All (IsAbove p) regs
      → CarvesTo addr_size len_size
          (length buf)
          (λ out. out ≡ map (stretched p) regs)
          (tz_res_mem_carve p prop plen addr_size len_size buf (length buf))
  carve_stretches_above h =
      carve-CarvesTo p prop plen addr_size len_size regs buf m printed apart size small _
        (all_pieces_above p regs h)
