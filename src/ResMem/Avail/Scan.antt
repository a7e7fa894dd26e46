-- ===== src/ResMem/Avail/Scan.antt =====
-- One scan over the memory blocks, as a walk over the regions.
use bios_qemu_tz_arm.Prelude.{
  ℕ, zero, suc, ◌≤◌, ◌<◌, ◌≡◌, ◌⊎◌, inl, inr, refl, arith, List, [], ◌∷◌, length, ◌==◌, Bool-cases,
  if◌then◌else◌,
}
use bios_qemu_tz_arm.Run.{ok}
use bios_qemu_tz_arm.ResMem.{Region, Verdict, mem_avail, looking, add64, account, scan}
use bios_qemu_tz_arm.ResMem.Regions.{Decodes, decoded, entry}

-- The address lies in the block, whose end is computed as the program does.
abbrev pub IsIn : ℕ → Region → Type 0
IsIn x r = (r.start ≤ x) × (x < add64 r.start r.len)

-- The address lies in one of the blocks.
abbrev pub Covered : ℕ → List Region → Type 0
Covered x [] = ⊥
Covered x (r ∷ rest) = IsIn x r ⊎ Covered x rest

pub scan_regions : List Region → ℕ → ℕ → Verdict
scan_regions [] res_start res_end = looking res_start res_end
scan_regions (r ∷ rest) res_start res_end =
    if res_start == res_end
    then looking res_start res_end
    else elim (account r.start (add64 r.start r.len) res_start res_end) [
      | mem_avail ↦ mem_avail
      | looking res_start' res_end' ↦ scan_regions rest res_start' res_end'
    ]

pub Verdict-cases : (v : Verdict) → (v ≡ mem_avail) ⊎ ((s : ℕ) × (e : ℕ) × (v ≡ looking s e))
Verdict-cases mem_avail = inl refl
Verdict-cases (looking s e) = inr (s, e, refl)

pub scan-Decodes :
    (prop : List ℕ) (plen addr_size len_size fuel : ℕ) {offs : ℕ} (res_start res_end : ℕ)
    {regs : List Region}
    → Decodes prop plen addr_size len_size offs regs
    → length regs < fuel
    → scan prop plen addr_size len_size fuel offs res_start res_end
      ≡ ok (scan_regions regs res_start res_end)
unfolding scan scan_regions
scan-Decodes prop plen addr_size len_size zero s e d h = absurd (omega arith)
scan-Decodes prop plen addr_size len_size (suc fuel) s e (decoded stop) h = ground arith
scan-Decodes prop plen addr_size len_size (suc fuel) s e (entry offs' r more moved reads d) h =
    elim (Verdict-cases (account r.start (add64 r.start r.len) s e)) [
      | inl found ↦ ground (arith, reads, found)
      | inr (s', e', left) ↦
          ground (
            arith,
            reads,
            left,
            scan-Decodes prop plen addr_size len_size fuel s' e' d (omega arith),
          )
    ]

-- A scan leaves a smaller range behind, and takes off it only what the blocks cover.
pub record Narrowed (regs : List Region) (s e s' e' : ℕ) : Type 0 where
  pub above : s ≤ s'
  pub below : e' ≤ e
  pub ordered : s' ≤ e'
  pub accounted : (x : ℕ) → s ≤ x → x < e → Covered x regs ⊎ ((s' ≤ x) × (x < e'))

-- The step over one block.
account_looking :
    (r : Region) (s e : ℕ) {s' e' : ℕ}
    → s ≤ e
    → account r.start (add64 r.start r.len) s e ≡ looking s' e'
    → (s ≤ s') × (e' ≤ e) × (s' ≤ e') × ((x : ℕ) → s ≤ x → x < e → IsIn x r ⊎ ((s' ≤ x) × (x < e')))
unfolding account
account_looking r s e h eq = (ground arith, ground arith, ground arith, λ x p q. ground arith)

account_avail :
    (r : Region) (s e x : ℕ)
    → account r.start (add64 r.start r.len) s e ≡ mem_avail
    → s ≤ x
    → x < e
    → IsIn x r
unfolding account
account_avail r s e x eq p q = ground arith

-- A block that holds the first address of the range narrows it.
account_stays :
    (r : Region) (s e : ℕ)
    → s < e
    → account r.start (add64 r.start r.len) s e ≡ looking s e
    → ¬ IsIn s r
unfolding account
account_stays r s e h eq p = ground arith

pub scan_regions-Narrowed :
    (regs : List Region) (s e s' e' : ℕ)
    → s ≤ e
    → scan_regions regs s e ≡ looking s' e'
    → Narrowed regs s e s' e'
unfolding scan_regions
scan_regions-Narrowed [] s e s' e' h eq = record {
  above = ground arith;
  below = ground arith;
  ordered = ground arith;
  accounted = λ x p q. ground arith;
}
scan_regions-Narrowed (r ∷ rest) s e s' e' h eq = elim (Bool-cases (s == e)) [
  | inl done ↦ record {
    above = ground arith;
    below = ground arith;
    ordered = ground arith;
    accounted = λ x p q. ground arith;
  }
  | inr open' ↦ elim (Verdict-cases (account r.start (add64 r.start r.len) s e)) [
    | inl found ↦ ground (arith, found)
    | inr (t, f, left) ↦
        let (a, b, c, k) = account_looking r s e h left in
        let ih = scan_regions-Narrowed rest t f s' e' c (ground (arith, left)) in
        record {
          above = omega (arith, ih.above);
          below = omega (arith, ih.below);
          ordered = ih.ordered;
          accounted = λ x p q. ground (arith, k x, ih.accounted x);
        }
  ]
]

pub scan_regions_avail :
    (regs : List Region) (s e x : ℕ)
    → s ≤ e
    → scan_regions regs s e ≡ mem_avail
    → s ≤ x
    → x < e
    → Covered x regs
unfolding scan_regions
scan_regions_avail [] s e x h eq p q = cc
scan_regions_avail (r ∷ rest) s e x h eq p q =
    elim (Verdict-cases (account r.start (add64 r.start r.len) s e)) [
      | inl found ↦ inl (account_avail r s e x found p q)
      | inr (t, f, left) ↦
          let (a, b, c, k) = account_looking r s e h left in
          ground (arith, k x, scan_regions_avail rest t f x c)
    ]

-- If a scan changes nothing, no block holds the first address of the range.
pub scan_regions_stuck :
    (regs : List Region) (s e : ℕ) → s < e → scan_regions regs s e ≡ looking s e → ¬ Covered s regs
unfolding scan_regions
scan_regions_stuck [] s e h eq c = c
scan_regions_stuck (r ∷ rest) s e h eq c =
    elim (Verdict-cases (account r.start (add64 r.start r.len) s e)) [
      | inl found ↦ ground (arith, found)
      | inr (t, f, left) ↦
          let (a, b, o, k) = account_looking r s e (omega arith) left in
          let n = scan_regions-Narrowed rest t f s e o (ground (arith, left)) in
          let same : (t ≡ s) × (f ≡ e) = omega (arith, n.above, n.below) in
          elim c [
            | inl here ↦ account_stays r s e h (rw (left, same.0, same.1)) here
            | inr there ↦ scan_regions_stuck rest s e h (ground (arith, left)) there
          ]
    ]
