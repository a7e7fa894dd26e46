-- ===== src/ResMem/Avail.antt =====
-- The availability check of bios/main.c decides whether the memory blocks cover the secure memory.
mod Scan
use bios_qemu_tz_arm.Prelude.{
  ℕ, zero, suc, ◌+◌, ◌-◌, ◌≤◌, ◌<◌, ◌≡◌, ◌≢◌, ◌⊎◌, inl, inr, refl, sym, ◌∙◌, arith, List, [], ◌∷◌,
  length, ltb, ◌==◌, true, false, not, ◌||◌, Bool-cases, if◌then◌else◌,
}
use bios_qemu_tz_arm.Run.{Run, ok, hang, out_of_fuel, ◌>>=◌}
use bios_qemu_tz_arm.Platform.{Flavor, vexpress, virt, tz_res_mem_start, tz_res_mem_size}
use bios_qemu_tz_arm.ResMem.{
  Region, Verdict, mem_avail, looking, tz_res_end, print_regions, search_loop,
  tz_res_mem_check_avail,
}
use bios_qemu_tz_arm.ResMem.Regions.{Decodes, IsMemory, Listing, IsMemory-Listing}
pub use Scan.{IsIn, Covered}
use Scan.{
  Verdict-cases, scan_regions_stuck, scan_regions, scan-Decodes, Narrowed, scan_regions-Narrowed,
  scan_regions_avail,
}

-- Every address of the range lies in a block.
abbrev pub AllCovered : List Region → ℕ → ℕ → Type 0
AllCovered regs lo hi = (x : ℕ) → lo ≤ x → x < hi → Covered x regs

-- Some address of the range lies in no block.
abbrev pub SomeUncovered : List Region → ℕ → ℕ → Type 0
SomeUncovered regs lo hi = (x : ℕ) × (lo ≤ x) × (x < hi) × ¬ Covered x regs

-- The two ways in which the check ends.
abbrev pub Decided : List Region → ℕ → ℕ → Run (Unit {0}) → Type 0
Decided regs lo hi result =
    (result ≡ ok tt) × AllCovered regs lo hi ⊎ (result ≡ hang) × SomeUncovered regs lo hi

module _ (prop : List ℕ) (plen addr_size len_size : ℕ) (regs : List Region) (lo hi : ℕ)
    (d : Decodes prop plen addr_size len_size 0 regs) (short : length regs < suc plen) where
  -- The rest of one round, on what its scan has left.
  module _ (fuel s e s' e' : ℕ) (o : s ≤ e) (a : lo ≤ s) (b : e ≤ hi)
      (k : (x : ℕ) → lo ≤ x → x < hi → Covered x regs ⊎ ((s ≤ x) × (x < e)))
      (left : scan_regions regs s e ≡ looking s' e') where
    round : search_loop prop plen addr_size len_size (suc fuel) s e ≡ (
        if s' == e' then ok tt else elim (not (s == s') || not (e == e')) [
          | true ↦ search_loop prop plen addr_size len_size fuel s' e'
          | false ↦ hang
        ])
    unfolding search_loop
    round = rw (scan-Decodes prop plen addr_size len_size (suc plen) s e d short, left)

    still_accounted : (x : ℕ) → lo ≤ x → x < hi → Covered x regs ⊎ ((s' ≤ x) × (x < e'))
    still_accounted x p q = elim (k x p q) [
      | inl c ↦ inl c
      | inr (u, v) ↦ (scan_regions-Narrowed regs s e s' e' o left).accounted x u v
    ]

    nothing_left : s' ≡ e' → AllCovered regs lo hi
    nothing_left same x p q = ground (arith, still_accounted x p q)

    stuck : s' ≢ e' → s ≡ s' → e ≡ e' → SomeUncovered regs lo hi
    stuck apart same_s same_e =
        let range : s < e = omega arith in
        (s, a, omega arith, scan_regions_stuck regs s e range (cc))

  search_loop-Decided :
      (fuel s e : ℕ)
      → s ≤ e
      → lo ≤ s
      → e ≤ hi
      → e < fuel + s
      → ((x : ℕ) → lo ≤ x → x < hi → Covered x regs ⊎ ((s ≤ x) × (x < e)))
      → Decided regs lo hi (search_loop prop plen addr_size len_size fuel s e)
  search_loop-Decided zero s e o a b f k = absurd (omega arith)
  search_loop-Decided (suc fuel) s e o a b f k = elim (Verdict-cases (scan_regions regs s e)) [
    | inl found ↦ inl (
      unfold search_loop in
          rw (scan-Decodes prop plen addr_size len_size (suc plen) s e d short, found),
      λ x p q. elim (k x p q) [
        | inl c ↦ c
        | inr (u, v) ↦ scan_regions_avail regs s e x o found u v
      ],
    )
    | inr (s', e', left) ↦
        let n = scan_regions-Narrowed regs s e s' e' o left in
        rw (round fuel s e s' e' o a b k left) (elim (Bool-cases (s' == e')) [
          | inl done ↦ rw done (inl (refl, nothing_left fuel s e s' e' o a b k left (ground arith)))
          | inr range ↦ rw range (elim (Bool-cases (not (s == s') || not (e == e'))) [
            | inl moved ↦ rw moved (
                search_loop-Decided fuel s' e' n.ordered (omega (arith, n.above))
                  (omega (arith, n.below)) (ground (arith, n.above, n.below))
                  (still_accounted fuel s e s' e' o a b k left))
            | inr unmoved ↦ rw unmoved (
                inr (
                  refl,
                  stuck fuel s e s' e' o a b k left (ground arith) (ground arith) (ground arith),
                ))
          ])
        ])
  ]

range_ordered : (p : Flavor) → tz_res_mem_start p ≤ tz_res_end p
range_ordered vexpress = omega arith
range_ordered virt = omega arith

enough_fuel : (p : Flavor) → tz_res_end p < suc tz_res_mem_size + tz_res_mem_start p
enough_fuel vexpress = omega arith
enough_fuel virt = omega arith

-- On a property of whole entries, whose loop prints the blocks `regs`, `tz_res_mem_check_avail`
-- either returns, and then every address of the secure memory lies in one of the blocks, or stops in
-- the failed CHECK, and then some address of the secure memory lies in none. It does not fault, and
-- its loops end.
pub check_avail_decides :
    (p : Flavor) (prop : List ℕ) (plen addr_size len_size : ℕ) (regs : List Region)
    → IsMemory prop plen addr_size len_size
    → print_regions prop plen addr_size len_size (suc plen) 0 ≡ ok regs
    → Decided regs
        (tz_res_mem_start p)
        (tz_res_end p)
        (tz_res_mem_check_avail p prop plen addr_size len_size)
unfolding tz_res_mem_check_avail
check_avail_decides p prop plen addr_size len_size regs m printed =
    let l = IsMemory-Listing prop plen addr_size len_size m in
    let same : l.regions ≡ regs = cc (l.printed, printed) in
    rw (printed, ← same)
      (search_loop-Decided prop plen addr_size len_size l.regions (tz_res_mem_start p)
        (tz_res_end p) l.decodes l.short (suc tz_res_mem_size) (tz_res_mem_start p) (tz_res_end p)
        (range_ordered p) (omega arith) (omega arith) (enough_fuel p) (λ x u v. inr (u, v)))
