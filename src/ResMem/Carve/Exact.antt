-- ===== src/ResMem/Carve/Exact.antt =====
-- What the carved memory property means: which addresses the non-secure world is told of.
use bios_qemu_tz_arm.Prelude.{
  ℕ, suc, ◌+◌, ◌*◌, ◌^◌, ◌≤◌, ◌<◌, ◌≡◌, ◌⊎◌, ◌↔◌, inl, inr, arith, List, [], ◌∷◌, ◌++◌, map, length,
}
use mathlib.Core.List.{map-append}
use bios_qemu_tz_arm.Run.{Run, ok}
use bios_qemu_tz_arm.Platform.{Flavor, vexpress, virt, tz_res_mem_start}
use bios_qemu_tz_arm.Cells.RoundTrip.{IsLength}
use bios_qemu_tz_arm.ResMem.{Region, tz_res_end, print_regions, tz_res_mem_carve}
use bios_qemu_tz_arm.ResMem.Regions.{entry_size, IsMemory}
use bios_qemu_tz_arm.ResMem.Avail.{IsIn, Covered}
use bios_qemu_tz_arm.ResMem.Carve.{pieces, all_pieces, cast32, Disjoint, carve-Carves}

-- The address belongs to the secure memory.
abbrev pub IsSecure : Flavor → ℕ → Type 0
IsSecure p x = (tz_res_mem_start p ≤ x) × (x < tz_res_end p)

-- The region lies in the 32-bit address space.
abbrev pub Fits32 : Region → Type 0
Fits32 r = r.start + r.len ≤ 2 ^ 32

-- The region has an address of the secure memory.
abbrev pub Meets : Flavor → Region → Type 0
Meets p r = (r.start < tz_res_end p) × (tz_res_mem_start p < r.start + r.len)

abbrev pub All : (Region → Type 0) → List Region → Type 0
All P [] = Unit
All P (r ∷ rest) = P r × All P rest

pieces_secure :
    (p : Flavor) (r : Region) (x : ℕ)
    → Fits32 r
    → Covered x (map cast32 (pieces p r))
    → IsSecure p x
    → ⊥
unfolding pieces
pieces_secure vexpress r x h c s = ground arith
pieces_secure virt r x h c s = ground arith

Covered-append :
    (x : ℕ) (rs ss : List Region) → Covered x (rs ++ ss) ↔ (Covered x rs ⊎ Covered x ss)
Covered-append x [] ss = ground arith
Covered-append x (r ∷ rs) ss = ground (arith, Covered-append x rs ss)

pieces_exact :
    (p : Flavor) (r : Region) (x : ℕ)
    → Fits32 r
    → Meets p r
    → Covered x (map cast32 (pieces p r)) ↔ (IsIn x r × (IsSecure p x → ⊥))
unfolding pieces
pieces_exact vexpress r x h m = ground arith
pieces_exact virt r x h m = ground arith

all_pieces_secure :
    (p : Flavor) (regs : List Region) (x : ℕ)
    → All Fits32 regs
    → Covered x (map cast32 (all_pieces p regs))
    → IsSecure p x
    → ⊥
unfolding all_pieces
all_pieces_secure p [] x h c s = c
all_pieces_secure p (r ∷ rest) x h c s =
    elim ((Covered-append x (map cast32 (pieces p r)) _).0 (rw map-append at c)) [
      | inl here ↦ pieces_secure p r x h.0 here s
      | inr there ↦ all_pieces_secure p rest x h.1 there s
    ]

all_pieces_exact :
    (p : Flavor) (regs : List Region) (x : ℕ)
    → All Fits32 regs
    → All (Meets p) regs
    → Covered x (map cast32 (all_pieces p regs)) ↔ (Covered x regs × (IsSecure p x → ⊥))
unfolding all_pieces
all_pieces_exact p [] x h m = ground arith
all_pieces_exact p (r ∷ rest) x h m = rw map-append (
    ground (
      arith,
      Covered-append x (map cast32 (pieces p r)) (map cast32 (all_pieces p rest)),
      pieces_exact p r x h.0 m.0,
      all_pieces_exact p rest x h.1 m.1,
    ))

-- The carving returns a buffer and a length within its `cap` bytes, from which the printing loop reads the regions `out`, as
-- many as fit the length, and `P` holds of them.
pub record CarvesTo (addr_size len_size cap : ℕ) (P : List Region → Type 0)
    (result : Run (List ℕ × ℕ)) : Type 0 where
  pub buf : List ℕ
  pub dlen : ℕ
  pub out : List Region
  pub returns : result ≡ ok (buf, dlen)
  pub inside : dlen ≤ cap
  pub size : length out * entry_size addr_size len_size ≡ dlen
  pub holds : print_regions buf dlen addr_size len_size (suc dlen) 0 ≡ ok out
  pub meaning : P out

module _ (p : Flavor) (prop : List ℕ) (plen addr_size len_size : ℕ) (regs : List Region)
    (buf : List ℕ) (m : IsMemory prop plen addr_size len_size)
    (printed : print_regions prop plen addr_size len_size (suc plen) 0 ≡ ok regs)
    (apart : Disjoint regs) (size : length buf ≡ plen + entry_size addr_size len_size)
    (small : IsLength (length buf)) where
  pub carve-CarvesTo :
      (P : List Region → Type 0)
      → P (map cast32 (all_pieces p regs))
      → CarvesTo addr_size len_size
          (length buf)
          P
          (tz_res_mem_carve p prop plen addr_size len_size buf (length buf))
  carve-CarvesTo P h =
      let c = carve-Carves p prop plen addr_size len_size regs buf m printed apart size small in
      record {
        buf = c.buf;
        dlen = c.dlen;
        out = map cast32 (all_pieces p regs);
        returns = c.returns;
        inside = c.inside;
        size = c.size;
        holds = c.holds;
        meaning = h;
      }

  -- Whatever disjoint regions of the 32-bit address space the memory node lists, the carving returns
  -- a memory property that tells of no address of the secure memory.
  pub carve-IsSecure :
      All Fits32 regs
      → CarvesTo addr_size len_size
          (length buf)
          (λ out. (x : ℕ) → Covered x out → IsSecure p x → ⊥)
          (tz_res_mem_carve p prop plen addr_size len_size buf (length buf))
  carve-IsSecure fits = carve-CarvesTo _ (λ x c s. all_pieces_secure p regs x fits c s)

  -- If each of the regions also meets the secure memory, then the property that the carving returns
  -- tells of exactly the addresses that the node listed and that are not secure.
  pub carve_exact :
      All Fits32 regs
      → All (Meets p) regs
      → CarvesTo addr_size len_size
          (length buf)
          (λ out. (x : ℕ) → Covered x out ↔ (Covered x regs × (IsSecure p x → ⊥)))
          (tz_res_mem_carve p prop plen addr_size len_size buf (length buf))
  carve_exact fits meet = carve-CarvesTo _ (λ x. all_pieces_exact p regs x fits meet)
