-- ===== src/ResMem/Carve.antt =====
-- The carving of the secure memory out of the memory property: what `tz_res_mem_carve` writes, as a
-- list of regions.
mod Output
pub mod Exact
pub mod Outside
use bios_qemu_tz_arm.Prelude.{
  ℕ, zero, suc, ◌+◌, ◌-◌, ◌*◌, ◌%◌, ◌^◌, ◌≤◌, ◌<◌, ◌≡◌, ◌⊎◌, inl, inr, refl, ap, arith, List, [],
  ◌∷◌, ◌++◌, map, length, length-append, length-map, ltb, ◌==◌, ◌&&◌, if◌then◌else◌, Bool-cases,
}
use mathlib.Core.List.{append-nil, append_assoc, map-append}
use bios_qemu_tz_arm.Run.{Run, ok, check, >>=-ok, ◌>>=◌, ◌>>◌}
use bios_qemu_tz_arm.Platform.{Flavor, vexpress, virt, tz_res_mem_start, tz_res_mem_size}
use bios_qemu_tz_arm.Cells.RoundTrip.{IsCellSize, IsLength}
use bios_qemu_tz_arm.ResMem.{
  Region, add64, tz_res_end, print_regions, put_region, carve_region, carve_loop, tz_res_mem_carve,
}
use bios_qemu_tz_arm.ResMem.Regions.{
  Decodes, decoded, entry, entry_size, IsMemory, Listing, IsMemory-Listing, print_regions-Decodes,
  le-mul-entry_size,
}
use bios_qemu_tz_arm.ResMem.Avail.{IsIn, Covered}
use Output.{Written, Writes, put_region-Writes}
pub use Output.{cast32}

-- The parts of one region that are written, before the cast to 32 bits.
pub pieces : Flavor → Region → List Region
pieces p r =
    let end = add64 r.start r.len in
    let front : Region = record { start = r.start; len = tz_res_mem_start p - r.start } in
    let back : Region = record { start = tz_res_end p; len = end - tz_res_end p } in
    if (tz_res_mem_start p == r.start) && (tz_res_mem_size == r.len)
    then []
    else if ltb r.start (tz_res_mem_start p) && ltb (tz_res_end p) end
    then front ∷ back ∷ []
    else if ltb r.start (tz_res_mem_start p) && ltb (tz_res_mem_start p) end
    then front ∷ []
    else if ltb (tz_res_end p) end
    then back ∷ []
    else []

pub all_pieces : Flavor → List Region → List Region
all_pieces p [] = []
all_pieces p (r ∷ rest) = pieces p r ++ all_pieces p rest

-- No address lies in two regions.
abbrev pub Disjoint : List Region → Type 0
Disjoint [] = Unit
Disjoint (r ∷ rest) = ((x : ℕ) → IsIn x r → Covered x rest → ⊥) × Disjoint rest

-- Only a region that holds the first address of the secure memory can be split.
length-pieces :
    (p : Flavor) (r : Region)
    → (length (pieces p r) ≤ 1) ⊎ (IsIn (tz_res_mem_start p) r × (length (pieces p r) ≤ 2))
unfolding pieces
length-pieces vexpress r = ground arith
length-pieces virt r = ground arith

length-all_pieces_uncovered :
    (p : Flavor) (regs : List Region)
    → (Covered (tz_res_mem_start p) regs → ⊥)
    → length (all_pieces p regs) ≤ length regs
unfolding all_pieces
length-all_pieces_uncovered p [] h = omega arith
length-all_pieces_uncovered p (r ∷ rest) h = ground (
  arith,
  length-append (pieces p r) (all_pieces p rest),
  length-pieces p r,
  length-all_pieces_uncovered p rest (λ c. h (inr c)),
  λ (i : IsIn (tz_res_mem_start p) r). h (inl i),
)

pub length-all_pieces :
    (p : Flavor) (regs : List Region) → Disjoint regs → length (all_pieces p regs) ≤ length regs + 1
unfolding all_pieces
length-all_pieces p [] d = omega arith
length-all_pieces p (r ∷ rest) d = elim (length-pieces p r) [
  | inl one ↦
      omega
        (arith, one, length-append (pieces p r) (all_pieces p rest), length-all_pieces p rest d.1)
  | inr (i, two) ↦ omega (
    arith,
    two,
    length-append (pieces p r) (all_pieces p rest),
    length-all_pieces_uncovered p rest (d.0 (tz_res_mem_start p) i),
  )
]

-- The regions of a list written one after the other.
put_all : ℕ → ℕ → List Region → List ℕ × ℕ → Run (List ℕ × ℕ)
put_all addr_size len_size [] out = ok out
put_all addr_size len_size (r ∷ rest) out = do
  out' ← put_region addr_size len_size out r.start r.len
  put_all addr_size len_size rest out'

carve_region-put_all :
    (p : Flavor) (addr_size len_size : ℕ) (r : Region) (out : List ℕ × ℕ)
    → carve_region p addr_size len_size r out ≡ put_all addr_size len_size (pieces p r) out
unfolding carve_region pieces put_all
carve_region-put_all p addr_size len_size r out = ground (
  arith,
  >>=-ok (put_region addr_size len_size out r.start (tz_res_mem_start p - r.start)),
  >>=-ok (put_region addr_size len_size out (tz_res_end p) (add64 r.start r.len - tz_res_end p)),
)

room_mono : (k n size cap : ℕ) → k ≤ n → n * size ≤ cap → k * size ≤ cap
room_mono k n size cap h room = grind arith

-- `room` regions fit the buffer.
module _ (p : Flavor) (addr_size len_size cap room : ℕ) (ca : IsCellSize addr_size)
    (cl : IsCellSize len_size) (small : IsLength cap)
    (fits : room * entry_size addr_size len_size ≤ cap) where
  put_all-Writes :
      (rs regs : List Region) (out : List ℕ × ℕ)
      → Written addr_size len_size cap regs out
      → length regs + length rs ≤ room
      → Writes addr_size len_size cap (regs ++ map cast32 rs) (put_all addr_size len_size rs out)
  unfolding put_all
  put_all-Writes [] regs out w h = rw append-nil (record { out = out; returns = refl; written = w })
  put_all-Writes (r ∷ rs) regs out w h =
      let first =
        put_region-Writes addr_size len_size cap ca cl small regs out r w (
          room_mono (length regs + 1) room (entry_size addr_size len_size) cap (omega arith)
            fits) in
      let rest =
        put_all-Writes rs (regs ++ cast32 r ∷ []) first.out first.written
          (omega (arith, length-append regs (cast32 r ∷ []))) in
      rw first.returns (rw append_assoc at rest)

  carve_loop-Writes :
      (prop : List ℕ) (plen fuel : ℕ) {poffs : ℕ} {rs : List Region} (regs : List Region)
      (out : List ℕ × ℕ)
      → Decodes prop plen addr_size len_size poffs rs
      → length rs < fuel
      → Written addr_size len_size cap regs out
      → length regs + length (all_pieces p rs) ≤ room
      → Writes addr_size len_size cap
          (regs ++ map cast32 (all_pieces p rs))
          (carve_loop p addr_size len_size prop plen fuel poffs out)
  unfolding carve_loop all_pieces
  carve_loop-Writes prop plen zero regs out d short w h = absurd (omega arith)
  carve_loop-Writes prop plen (suc fuel) {poffs} regs out (decoded stop) short w h = record {
    out = out;
    returns = ground arith;
    written = rw append-nil w;
  }
  carve_loop-Writes prop plen (suc fuel) {poffs} regs out (entry offs' r {rest} more moved reads d)
        short w h =
      let counts = length-append (pieces p r) (all_pieces p rest) in
      let here = put_all-Writes (pieces p r) regs out w (omega (arith, counts)) in
      let next =
        carve_loop-Writes prop plen fuel (regs ++ map cast32 (pieces p r)) here.out d (omega arith)
          here.written
          (omega (
            arith,
            counts,
            length-append regs (map cast32 (pieces p r)),
            length-map (pieces p r) cast32,
          )) in
      record {
        out = next.out;
        returns = ground (
          arith,
          reads,
          here.returns,
          carve_region-put_all p addr_size len_size r out,
          next.returns,
        );
        written = rw map-append (rw append_assoc at next.written);
      }

-- What the carving returns: the buffer of `cap` bytes and its new length, which hold these regions.
pub record Carves (addr_size len_size cap : ℕ) (regs : List Region) (result : Run (List ℕ × ℕ))
    : Type 0 where
  pub buf : List ℕ
  pub dlen : ℕ
  pub returns : result ≡ ok (buf, dlen)
  pub inside : dlen ≤ cap
  pub size : length regs * entry_size addr_size len_size ≡ dlen
  pub holds : print_regions buf dlen addr_size len_size (suc dlen) 0 ≡ ok regs

-- On a property of whole entries that lists disjoint regions, with a buffer one entry longer, as
-- `tz_res_mem` passes it, `tz_res_mem_carve` returns. It writes the pieces of each region in order,
-- with the numbers cut to 32 bits, and sets the length to what it wrote.
pub carve-Carves :
    (p : Flavor) (prop : List ℕ) (plen addr_size len_size : ℕ) (regs : List Region) (buf : List ℕ)
    → IsMemory prop plen addr_size len_size
    → print_regions prop plen addr_size len_size (suc plen) 0 ≡ ok regs
    → Disjoint regs
    → length buf ≡ plen + entry_size addr_size len_size
    → IsLength (length buf)
    → Carves addr_size len_size
        (length buf)
        (map cast32 (all_pieces p regs))
        (tz_res_mem_carve p prop plen addr_size len_size buf (length buf))
unfolding tz_res_mem_carve
carve-Carves p prop plen addr_size len_size regs buf m printed apart size small =
    let l = IsMemory-Listing prop plen addr_size len_size m in
    let same : l.regions ≡ regs = cc (l.printed, printed) in
    let here : Decodes prop plen addr_size len_size 0 regs = rw same at l.decodes in
    let short : length regs < suc plen = rw same at l.short in
    let count : length regs ≡ m.entries = rw same at l.count in
    let w =
      carve_loop-Writes p addr_size len_size (length buf) (length regs + 1) m.addr_cells m.len_cells
        small (rw count (omega (arith, m.whole))) prop plen (suc plen) [] (buf, 0) here short
        (record { same_length = refl; whole = omega arith; decodes = decoded (omega arith) })
        (omega (arith, length-all_pieces p regs apart)) in
    let wrote = map cast32 (all_pieces p regs) in
    let few : length wrote ≤ length regs + 1 = rw length-map (length-all_pieces p regs apart) in
    let inside : w.out.1 ≤ length buf = omega (
      arith,
      w.written.whole,
      room_mono (length wrote) (length regs + 1) (entry_size addr_size len_size) (length buf) few
          (rw count (omega (arith, m.whole))),
    ) in
    let holds : print_regions w.out.0 w.out.1 addr_size len_size (suc w.out.1) 0 ≡ ok wrote =
      print_regions-Decodes w.out.0 w.out.1 addr_size len_size (suc w.out.1) w.written.decodes (
        omega (
          arith,
          w.written.whole,
          le-mul-entry_size (length wrote) addr_size len_size m.addr_cells m.len_cells,
        )) in
    record {
      buf = w.out.0;
      dlen = w.out.1;
      returns = ground (arith, printed, w.returns, inside, holds);
      inside = inside;
      size = w.written.whole;
      holds = holds;
    }
