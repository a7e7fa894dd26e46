-- ===== src/ResMem/Regions.antt =====
-- The regions that a memory property holds, and the loops of bios/main.c that read it as walks over
-- those regions.
use bios_qemu_tz_arm.Prelude.{
  ℕ, zero, suc, ◌+◌, ◌*◌, ◌≤◌, ◌<◌, ◌≡◌, inl, inr, refl, ap, sym, ◌∙◌, arith, List, [], ◌∷◌, ◌++◌,
  length, get_elem?,
}
use bios_qemu_tz_arm.Run.{ok}
use bios_qemu_tz_arm.Cells.RoundTrip.{IsCellSize, IsLength, get_val_total, get_val-congr}
use bios_qemu_tz_arm.ResMem.{Region, next_region, print_regions}

-- The size of one entry in bytes.
abbrev pub entry_size : ℕ → ℕ → ℕ
entry_size addr_size len_size = 4 * addr_size + 4 * len_size

-- From the offset on, up to `plen`, the property holds exactly these regions.
pub data Decodes (prop : List ℕ) (plen addr_size len_size : ℕ) : ℕ → List Region → Type 0 where
  decoded : {offs : ℕ} → plen ≤ offs → Decodes prop plen addr_size len_size offs []
  entry :
      {offs : ℕ} (offs' : ℕ) (r : Region) {rest : List Region}
      → offs < plen
      → offs' ≡ offs + entry_size addr_size len_size
      → next_region prop addr_size len_size offs ≡ ok (r, offs')
      → Decodes prop plen addr_size len_size offs' rest
      → Decodes prop plen addr_size len_size offs (r ∷ rest)

-- A property of whole entries, at cell sizes that `get_cells_size` lets through.
pub record IsMemory (prop : List ℕ) (plen addr_size len_size : ℕ) : Type 0 where
  pub addr_cells : IsCellSize addr_size
  pub len_cells : IsCellSize len_size
  pub is_length : IsLength (length prop)
  pub entries : ℕ
  pub whole : entries * entry_size addr_size len_size ≡ plen
  pub fits : plen ≤ length prop

-- What one read of an entry gives.
pub record Entry (prop : List ℕ) (addr_size len_size offs : ℕ) : Type 0 where
  pub region : Region
  pub returns :
      next_region prop addr_size len_size offs ≡ ok (region, offs + entry_size addr_size len_size)

module _ (prop : List ℕ) (plen addr_size len_size : ℕ)
    (m : IsMemory prop plen addr_size len_size) where
  pub next_region-Entry :
      (offs : ℕ)
      → offs + entry_size addr_size len_size ≤ length prop
      → Entry prop addr_size len_size offs
  unfolding next_region
  next_region-Entry offs h =
      let (start, _, e) =
        get_val_total prop offs addr_size m.addr_cells m.is_length (omega arith) in
      let (len, _, e') =
        get_val_total prop (offs + 4 * addr_size) len_size m.len_cells m.is_length (omega arith) in
      record { region = record { start = start; len = len }; returns = ground (arith, e, e') }

  decode_from :
      (n offs : ℕ)
      → offs + n * entry_size addr_size len_size ≡ plen
      → (regs : List Region) × Decodes prop plen addr_size len_size offs regs × (length regs ≡ n)
  decode_from zero offs h = ([], decoded (omega arith), refl)
  decode_from (suc n) offs h =
      let next : offs + entry_size addr_size len_size + n * entry_size addr_size len_size ≡ plen =
        omega arith in
      let e = next_region-Entry offs (omega (arith, m.fits)) in
      let (regs, d, l) = decode_from n (offs + entry_size addr_size len_size) next in
      (e.region ∷ regs, entry _ e.region (omega arith) refl e.returns d, ap suc l)

-- The loops that print read the regions.
pub print_regions-Decodes :
    (prop : List ℕ) (plen addr_size len_size fuel : ℕ) {offs : ℕ} {regs : List Region}
    → Decodes prop plen addr_size len_size offs regs
    → length regs < fuel
    → print_regions prop plen addr_size len_size fuel offs ≡ ok regs
unfolding print_regions
print_regions-Decodes prop plen addr_size len_size zero d h = absurd (omega arith)
print_regions-Decodes prop plen addr_size len_size (suc fuel) (decoded stop) h = ground arith
print_regions-Decodes prop plen addr_size len_size (suc fuel) (entry offs' r more moved e d) h =
    ground (arith, e, print_regions-Decodes prop plen addr_size len_size fuel d (omega arith))

-- The regions of a property of whole entries, with what the loops need of their number.
pub record Listing (prop : List ℕ) (plen addr_size len_size entries : ℕ) : Type 0 where
  pub regions : List Region
  pub decodes : Decodes prop plen addr_size len_size 0 regions
  pub count : length regions ≡ entries
  pub short : length regions < suc plen
  pub printed : print_regions prop plen addr_size len_size (suc plen) 0 ≡ ok regions

pub le-mul-entry_size :
    (k addr_size len_size : ℕ)
    → IsCellSize addr_size
    → IsCellSize len_size
    → k ≤ k * entry_size addr_size len_size
le-mul-entry_size k addr_size len_size (inl e) (inl f) = rw (e, f) (omega arith)
le-mul-entry_size k addr_size len_size (inl e) (inr f) = rw (e, f) (omega arith)
le-mul-entry_size k addr_size len_size (inr e) (inl f) = rw (e, f) (omega arith)
le-mul-entry_size k addr_size len_size (inr e) (inr f) = rw (e, f) (omega arith)

pub IsMemory-Listing :
    (prop : List ℕ) (plen addr_size len_size : ℕ) (m : IsMemory prop plen addr_size len_size)
    → Listing prop plen addr_size len_size m.entries
IsMemory-Listing prop plen addr_size len_size m =
    let (regs, d, l) =
      decode_from prop plen addr_size len_size m m.entries 0 (omega (arith, m.whole)) in
    let short : length regs < suc plen =
      omega
        (arith, m.whole, le-mul-entry_size m.entries addr_size len_size m.addr_cells m.len_cells) in
    record {
      regions = regs;
      decodes = d;
      count = l;
      short = short;
      printed = print_regions-Decodes prop plen addr_size len_size (suc plen) d short;
    }

-- A read of an entry sees its bytes only.
next_region-congr :
    (xs ys : List ℕ) (addr_size len_size offs hi : ℕ)
    → IsCellSize addr_size
    → IsCellSize len_size
    → IsLength (length ys)
    → hi ≤ length ys
    → offs + entry_size addr_size len_size ≤ hi
    → ((i : ℕ) → i < hi → get_elem? xs i ≡ get_elem? ys i)
    → next_region xs addr_size len_size offs ≡ next_region ys addr_size len_size offs
unfolding next_region
next_region-congr xs ys addr_size len_size offs hi ca cl l fits h same =
    let (v, _, e) = get_val_total ys offs addr_size ca l (omega arith) in
    ground (
      arith,
      e,
      get_val-congr xs ys offs addr_size hi ca (omega arith) same,
      get_val-congr xs ys (offs + 4 * addr_size) len_size hi cl (omega arith) same,
    )

-- A buffer with the same bytes below `lo` holds the same regions there, and an entry at `lo` is one
-- more region.
module _ (xs ys : List ℕ) (addr_size len_size lo hi : ℕ) (ca : IsCellSize addr_size)
    (cl : IsCellSize len_size) (l : IsLength (length ys)) (fits : lo ≤ length ys)
    (same : (i : ℕ) → i < lo → get_elem? xs i ≡ get_elem? ys i) where
  pub Decodes-snoc :
      (k : ℕ) {offs : ℕ} {regs : List Region} (r : Region)
      → offs + k * entry_size addr_size len_size ≡ lo
      → hi ≡ lo + entry_size addr_size len_size
      → next_region ys addr_size len_size lo ≡ ok (r, hi)
      → Decodes xs lo addr_size len_size offs regs
      → Decodes ys hi addr_size len_size offs (regs ++ r ∷ [])
  Decodes-snoc zero {offs} r w grows e (decoded stop) =
      let at_end : offs ≡ lo = omega arith in
      entry hi r (omega (arith, ca)) (omega arith) (rw at_end e) (decoded (omega arith))
  Decodes-snoc zero r w grows e (entry offs' r' more moved e' d) = absurd (omega arith)
  Decodes-snoc (suc k) r w grows e (decoded stop) = absurd (omega (arith, ca))
  Decodes-snoc (suc k) {offs} r w grows e (entry offs' r' more moved e' d) =
      entry offs' r' (omega arith) moved
        (sym (next_region-congr xs ys addr_size len_size offs lo ca cl l fits (omega arith) same)
          ∙ e')
        (Decodes-snoc k r (omega arith) grows e d)
