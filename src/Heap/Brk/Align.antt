-- ===== src/Heap/Brk/Align.antt =====
-- `memalign` counts the bits of the alignment that are set.
use Prim.Native.Nat.{bit_and}
use native.Mathlib.Nat.{pow-suc, pow-le-pow_right, one-le-pow, div-div-eq-div-mul}
use bios_qemu_tz_arm.Prelude.{
  ℕ, zero, suc, ◌+◌, ◌*◌, ◌/◌, ◌%◌, ◌^◌, ◌≤◌, ◌<◌, ◌≡◌, ◌≢◌, ◌⊎◌, inl, inr, refl, sym, ap, ◌∙◌,
  Bool, true, false, ◌||◌, ◌==◌, if◌then◌else◌, arith, Bool-cases,
}
use bios_qemu_tz_arm.Prelude.Bits.{bit_and_bit}
use bios_qemu_tz_arm.Run.{ok}
use bios_qemu_tz_arm.Heap.Brk.{count_ones, Dlmalloc, memalign}

-- The bits that are set among the lowest `n`.
unfoldable pub ones : ℕ → ℕ → ℕ
ones zero a = 0
ones (suc n) a = a % 2 + ones n (a / 2)

ones_zero : (n a : ℕ) → a < 2 ^ n → ones n a ≡ 0 → a ≡ 0
unfolding ones
ones_zero zero a h e = omega arith
ones_zero (suc n) a h e =
    omega (arith, ones_zero n (a / 2) (omega (arith, pow-suc 2 n)) (omega (arith, e)))

ones_one : (n a : ℕ) → a < 2 ^ n → ones n a ≡ 1 → (k : ℕ) × (k < n) × (a ≡ 2 ^ k)
unfolding ones
ones_one zero a h e = absurd (omega (arith, e))
ones_one (suc n) a h e = elim (Bool-cases (a % 2 == 0)) [
  | inl even ↦
      let r = ones_one n (a / 2) (omega (arith, pow-suc 2 n)) (ground (arith, e)) in
      (suc r.0, omega (arith, r.1), ground (arith, pow-suc 2 r.0, r.2))
  | inr odd ↦
      let z = ones_zero n (a / 2) (omega (arith, pow-suc 2 n)) (ground (arith, e)) in
      (0, omega arith, ground (arith, z))
]

ones-nothing : (n : ℕ) → ones n 0 ≡ 0
unfolding ones
ones-nothing zero = refl
ones-nothing (suc n) = omega (arith, ones-nothing n)

ones-power : (n k : ℕ) → k < n → ones n (2 ^ k) ≡ 1
unfolding ones
ones-power zero k h = absurd (omega arith)
ones-power (suc n) zero h = omega (arith, ones-nothing n)
ones-power (suc n) (suc k) h =
    let e : 2 ^ suc k ≡ 2 * 2 ^ k = omega (arith, pow-suc 2 k) in
    let d : 2 ^ suc k / 2 ≡ 2 ^ k = omega (arith, e) in
    rw d (omega (arith, e, ones-power n k (omega arith)))

count_ones_end : (fuel a j : ℕ) → count_ones (suc fuel) a 0 j ≡ ok j
unfolding count_ones
count_ones_end fuel a j = refl

count_ones_step :
    (fuel a i j : ℕ)
    → (i == 0) ≡ false
    → count_ones (suc fuel) a i j
      ≡ count_ones fuel a (i * 2 % 2 ^ 32) (if bit_and a i == 0 then j else j + 1)
unfolding count_ones
count_ones_step fuel a i j e = rw (e, count_ones) refl

count_ones-ones :
    (n k a j : ℕ)
    → k + n ≡ 32
    → count_ones (suc n) a (2 ^ k % 2 ^ 32) j ≡ ok (j + ones n (a / 2 ^ k))
unfolding ones
count_ones-ones zero k a j h =
    let e : k ≡ 32 = omega arith in rw e (count_ones_end 0 a j ∙ ap ok (omega arith))
count_ones-ones (suc n) k a j h =
    let le : 2 ^ k ≤ 2 ^ 31 = pow-le-pow_right (omega arith) {i = k} {j = 31} (omega arith) in
    let pos = one-le-pow k 2 (omega arith) in
    let i : 2 ^ k % 2 ^ 32 ≡ 2 ^ k = omega arith in
    let next : 2 ^ k * 2 % 2 ^ 32 ≡ 2 ^ suc k % 2 ^ 32 =
      ap (λ (x : ℕ). x % 2 ^ 32) (sym (pow-suc 2 k)) in
    let half : a / 2 ^ k / 2 ≡ a / 2 ^ suc k =
      div-div-eq-div-mul a (2 ^ k) 2 ∙ ap (λ (x : ℕ). a / x) (sym (pow-suc 2 k)) in
    let j' = if a / 2 ^ k % 2 * 2 ^ k == 0 then j else j + 1 in
    let bit : j' ≡ j + a / 2 ^ k % 2 = elim (Bool-cases (a / 2 ^ k % 2 == 0)) [
      | inl z ↦ let d : a / 2 ^ k % 2 ≡ 0 = ground arith in rw d (ground arith)
      | inr z ↦ let d : a / 2 ^ k % 2 ≡ 1 = ground arith in rw d (ground arith)
    ] in
    let rest = count_ones-ones n (suc k) a (j + a / 2 ^ k % 2) (omega arith) in
    rw (i, count_ones_step (suc n) a (2 ^ k) j (ground arith), bit_and_bit k a, bit, next)
      (rest ∙ ap ok (omega (arith, ap (ones n) half)))

count_ones_lem : (a : ℕ) → count_ones 33 a 1 0 ≡ ok (ones 32 a)
count_ones_lem a =
    let whole : a / 2 ^ 0 ≡ a = omega arith in
    rw whole at (count_ones-ones 32 0 a 0 refl) ∙ ap ok (omega arith)

Nat-split : (k n : ℕ) → k < suc n → (k < n) ⊎ (k ≡ n)
Nat-split k n h = ground arith

-- The number is 2 ^ k for a `k` below `n`.
unfoldable pub is_power : ℕ → ℕ → Bool
is_power zero a = false
is_power (suc n) a = (a == 2 ^ n) || is_power n a

is_power-cases :
    (n a : ℕ)
    → ((is_power n a ≡ true) × (k : ℕ) × (k < n) × (a ≡ 2 ^ k))
      ⊎ ((is_power n a ≡ false) × ((k : ℕ) → k < n → a ≢ 2 ^ k))
unfolding is_power
is_power-cases zero a = inr (refl, λ k h. absurd (omega arith))
is_power-cases (suc n) a = elim (Bool-cases (a == 2 ^ n)) [
  | inl e ↦ inl (rw e refl, n, omega arith, ground arith)
  | inr e ↦ elim (is_power-cases n a) [
    | inl (t, k, h, p) ↦ inl (rw (e, t) refl, k, omega arith, p)
    | inr (f, none) ↦ inr (
      rw (e, f) refl,
      λ k h p. elim (Nat-split k n h) [
        | inl below ↦ none k below p
        | inr same ↦ absurd (ground (arith, e, p, ap (λ j. 2 ^ j) same))
      ],
    )
  ]
]

module _ {S : Type 0} (dl : Dlmalloc S) where
  -- `memalign` passes an alignment on to dlmalloc if it is a power of 2. By any other alignment it
  -- returns NULL and leaves dlmalloc alone. It always returns.
  pub memalign_lem :
      (a l : ℕ) (s : S)
      → a < 2 ^ 32
      → memalign dl a l s ≡ ok (if is_power 32 a then dl.dlmemalign a l s else (0, s))
  unfolding memalign
  memalign_lem a l s h =
      let c = count_ones_lem a in
      elim (is_power-cases 32 a) [
        | inl (t, k, hk, e) ↦ rw (t, c, ap (ones 32) e, ones-power 32 k hk) refl
        | inr (f, no_power) ↦ elim (Bool-cases (ones 32 a == 1)) [
          | inl e ↦ let (k, hk, p) = ones_one 32 a h (ground arith) in absurd (no_power k hk p)
          | inr e ↦ rw (f, c, e) refl
        ]
      ]
