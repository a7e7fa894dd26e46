-- ===== src/Divmod/Loops.antt =====
-- The two loops of the division, by their invariants.
use native.Mathlib.Nat.{pow-suc, one-le-pow, div-add-mod, mod-lt, div-eq_of_lt, mod-eq_of_lt}
use bios_qemu_tz_arm.Prelude.{
  ℕ, zero, suc, ◌+◌, ◌-◌, ◌*◌, ◌/◌, ◌%◌, ◌^◌, ◌≤◌, ◌<◌, ◌≡◌, refl, ap, arith, true, false,
  Bool-cases, inl, inr, leb, ltb, ◌==◌,
}
use bios_qemu_tz_arm.Run.{Run, ok}
use bios_qemu_tz_arm.Divmod.{word, align, subtract}

-- The divisor `d` moved up by `k` bits, to the top of the word, with the bit `k` of the quotient.
pub record Aligned (top d : ℕ) (result : Run (ℕ × ℕ)) : Type 0 where
  pub k : ℕ
  pub returns : result ≡ ok (2 ^ k, 2 ^ k * d)
  pub at_top : 2 ^ top ≤ 2 ^ k * d
  pub in_word : 2 ^ k * d < word top
  pub small : k ≤ top

le-mul_pos : (a d : ℕ) → 0 < d → a ≤ a * d
le-mul_pos a d h = grind arith

-- A power of two in the word has an exponent in the word.
exponent-le : (top k : ℕ) → 2 ^ k < word top → k ≤ top
exponent-le top zero h = omega arith
exponent-le zero (suc k) h = absurd (omega (arith, pow-suc 2 k, one-le-pow k 2))
exponent-le (suc top) (suc k) h =
    omega (arith, exponent-le top k (omega (arith, pow-suc 2 k, pow-suc 2 (suc top))))

-- The test of the highest bits.
lt_of_no_quotient : (x m : ℕ) → 0 < m → (x / m == 0) ≡ true → x < m
lt_of_no_quotient x m h e = ground (arith, div-add-mod x m, mod-lt x h)

le_of_quotient : (x m : ℕ) → (x / m == 0) ≡ false → m ≤ x
le_of_quotient x m e = elim (Bool-cases (leb m x)) [
  | inl le ↦ ground arith
  | inr lt ↦ ground (arith, div-eq_of_lt {n = x} {m = m} (ground arith))
]

module _ (top d : ℕ) (pos : 0 < d) where
  pub align-Aligned :
      (fuel k : ℕ)
      → k + fuel ≡ suc (suc top)
      → 2 ^ k * d < word top
      → Aligned top d (align top fuel (2 ^ k) (2 ^ k * d))
  unfolding align
  align-Aligned zero k e h =
      absurd (omega (arith, exponent-le top k (omega (arith, le-mul_pos (2 ^ k) d pos))))
  align-Aligned (suc fuel) k e h = elim (Bool-cases (2 ^ k * d / 2 ^ top == 0)) [
    | inl low ↦
        let room : 2 ^ k * d < 2 ^ top =
          lt_of_no_quotient (2 ^ k * d) (2 ^ top) (one-le-pow top 2 (omega arith)) low in
        let double : 2 ^ suc k * d ≡ 2 * (2 ^ k * d) = rw pow-suc (omega arith) in
        let wide : word top ≡ 2 * 2 ^ top = rw pow-suc (omega arith) in
        let double_p : 2 ^ k * d * 2 % word top ≡ 2 ^ suc k * d =
          rw (mod-eq_of_lt {n = 2 ^ k * d * 2} {m = word top} (omega arith)) (omega arith) in
        let double_i : 2 ^ k * 2 % word top ≡ 2 ^ suc k =
          rw (mod-eq_of_lt {n = 2 ^ k * 2} {m = word top} (omega (arith, le-mul_pos (2 ^ k) d pos)))
            (rw pow-suc (omega arith)) in
        rw (low, double_p, double_i) (align-Aligned fuel (suc k) (omega arith) (omega arith))
    | inr high ↦ rw high (record {
      k = k;
      returns = refl;
      at_top = le_of_quotient (2 ^ k * d) (2 ^ top) high;
      in_word = h;
      small = exponent-le top k (omega (arith, le-mul_pos (2 ^ k) d pos));
    })
  ]

-- What the subtractions leave.
pub record Divided (n d : ℕ) (result : Run (ℕ × ℕ)) : Type 0 where
  pub quot : ℕ
  pub rem : ℕ
  pub returns : result ≡ ok (rem, quot)
  pub divides : n ≡ quot * d + rem
  pub small : rem < d

module _ (top N d : ℕ) (pos : 0 < d) (in_word : N < word top) where
  -- The bit that a round writes does not leave the word.
  bit_zero : (x n q : ℕ) → 0 < x → N ≡ q * (2 * x) + n → q * 2 % word top ≡ q * 2
  bit_zero x n q h e = mod-eq_of_lt (omega (arith, le-mul_pos (q * 2) x h))

  bit_one :
      (x n q : ℕ)
      → 0 < x
      → x ≤ n
      → N ≡ q * (2 * x) + n
      → (q * 2 % word top + 1) % word top ≡ q * 2 + 1
  bit_one x n q h le e =
      rw (bit_zero x n q h e) (mod-eq_of_lt (omega (arith, le-mul_pos (q * 2 + 1) x h)))

  -- With the bit `j` of the quotient to come, `q` holds the bits above it, and `n` is what is left.
  pub subtract-Divided :
      (j fuel n x i q : ℕ)
      → x ≡ 2 ^ j * d
      → i ≡ 2 ^ j
      → suc (suc j) ≤ fuel
      → N ≡ q * (2 * x) + n
      → n < 2 * x
      → Divided N d (subtract top fuel n x i q)
  unfolding subtract
  subtract-Divided zero zero n x i q ex ei f e h = absurd (omega arith)
  subtract-Divided zero (suc zero) n x i q ex ei f e h = absurd (omega arith)
  subtract-Divided zero (suc (suc fuel)) n x i q ex ei f e h =
      let same : x ≡ d = omega arith in
      let prod : q * x ≡ q * d = ap (λ (z : ℕ). q * z) same in
      elim (Bool-cases (leb x n)) [
        | inl le ↦ record {
          quot = q * 2 + 1;
          rem = n - x;
          returns = ground (arith, bit_one x n q);
          divides = ground arith;
          small = omega arith;
        }
        | inr lt ↦ record {
          quot = q * 2;
          rem = n;
          returns = ground (arith, bit_zero x n q);
          divides = omega arith;
          small = ground arith;
        }
      ]
  subtract-Divided (suc j) zero n x i q ex ei f e h = absurd (omega arith)
  subtract-Divided (suc j) (suc fuel) n x i q ex ei f e h =
      let t = 2 ^ j * d in
      let twice_i : i ≡ 2 * 2 ^ j = rw ei (rw pow-suc (omega arith)) in
      let twice_x : x ≡ 2 * t = rw ex (rw pow-suc (omega arith)) in
      let prod : q * x ≡ q * (2 * t) = ap (λ (z : ℕ). q * z) twice_x in
      let half_x : x / 2 ≡ t = omega arith in
      let half_i : i / 2 ≡ 2 ^ j = omega arith in
      let going : ltb 0 i ≡ true = ground (arith, one-le-pow j 2) in
      let some_x : 0 < x = omega arith in
      elim (Bool-cases (leb x n)) [
        | inl le ↦
            let le' : x ≤ n = ground arith in
            rw (going, le, bit_one x n q some_x le' e)
              (subtract-Divided j fuel (n - x) (x / 2) (i / 2) (q * 2 + 1) half_x half_i
                (omega arith) (rw half_x (omega arith)) (omega arith))
        | inr lt ↦
            rw (going, lt, bit_zero x n q some_x e)
              (subtract-Divided j fuel n (x / 2) (i / 2) (q * 2) half_x half_i (omega arith)
                (rw half_x (omega arith)) (ground arith))
      ]
