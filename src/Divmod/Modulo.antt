-- ===== src/Divmod/Modulo.antt =====
-- `__aeabi_imod`: its loop that looks for a power of two ends at 0 and at powers of two only.
use native.Mathlib.Nat.{pow-suc, one-le-pow, pow-le-pow_right}
use bios_qemu_tz_arm.Prelude.{
  ℕ, zero, suc, ◌+◌, ◌*◌, ◌%◌, ◌^◌, ◌≤◌, ◌<◌, ◌≡◌, ◌⊎◌, inl, inr, refl, arith, true, false,
  Bool-cases, ◌==◌,
}
use bios_qemu_tz_arm.Run.{ok, out_of_fuel}
use bios_qemu_tz_arm.Divmod.{shift_right, count_bits, aeabi_imod}

-- With one bit left in a positive denominator the loop finds its number.
count_bits_power :
    (k fuel i j : ℕ) → k + 2 ≤ fuel → 2 ^ k < 2 ^ 31 → count_bits fuel i j 0 (2 ^ k) ≡ ok (i + k, 1)
unfolding count_bits
count_bits_power zero zero i j f h = absurd (omega arith)
count_bits_power zero (suc zero) i j f h = absurd (omega arith)
count_bits_power zero (suc (suc fuel)) i j f h = ground arith
count_bits_power (suc k) zero i j f h = absurd (omega arith)
count_bits_power (suc k) (suc fuel) i j f h =
    let twice : 2 ^ suc k ≡ 2 * 2 ^ k = rw pow-suc (omega arith) in
    let half : shift_right (2 ^ suc k) 1 ≡ 2 ^ k = ground arith in
    ground (
      arith,
      twice,
      half,
      one-le-pow k 2,
      count_bits_power k fuel (i + 1) j (omega arith) (omega arith),
    )

-- Two bits were set: the test `h > 1` holds for ever.
count_bits_two : (fuel i j h s : ℕ) → 1 < h → count_bits fuel i j h s ≡ out_of_fuel
unfolding count_bits
count_bits_two zero i j h s p = refl
count_bits_two (suc fuel) i j h s p = ground (
  arith,
  count_bits_two fuel (i + 1) i (h + 1) (shift_right s 1) (omega arith),
  count_bits_two fuel (i + 1) j h (shift_right s 1) p,
)

-- A negative word stays negative: it is shifted down to -1.
count_bits_negative : (fuel i j h s : ℕ) → 2 ^ 31 ≤ s → count_bits fuel i j h s ≡ out_of_fuel
unfolding count_bits
count_bits_negative zero i j h s p = refl
count_bits_negative (suc fuel) i j h s p =
    let still : 2 ^ 31 ≤ shift_right s 1 = ground arith in
    ground (
      arith,
      count_bits_negative fuel (i + 1) i (h + 1) (shift_right s 1) still,
      count_bits_negative fuel (i + 1) j h (shift_right s 1) still,
    )

-- One bit was set, and another is to come.
count_bits_one : (fuel i j s : ℕ) → 0 < s → count_bits fuel i j 1 s ≡ out_of_fuel
unfolding count_bits
count_bits_one zero i j s p = refl
count_bits_one (suc fuel) i j s p = elim (Bool-cases (s % 2 == 1)) [
  | inl odd ↦ ground (arith, odd, count_bits_two fuel (i + 1) i 2 (shift_right s 1) (omega arith))
  | inr even ↦
      let more : 0 < shift_right s 1 = ground arith in
      ground (arith, even, count_bits_one fuel (i + 1) j (shift_right s 1) more)
]

-- No bit was set, and two are to come.
count_bits_none :
    (k a fuel i j s : ℕ)
    → 0 < a
    → s ≡ (2 * a + 1) * 2 ^ k
    → s < 2 ^ 31
    → count_bits fuel i j 0 s ≡ out_of_fuel
unfolding count_bits
count_bits_none k a zero i j s pos e h = refl
count_bits_none zero a (suc fuel) i j s pos e h =
    let rest : shift_right s 1 ≡ a = ground arith in
    let odd : (s % 2 == 1) ≡ true = ground arith in
    let more : (s == 0) ≡ false = ground arith in
    rw (more, odd, rest) (count_bits_one fuel (i + 1) i a pos)
count_bits_none (suc k) a (suc fuel) i j s pos e h =
    let t = (2 * a + 1) * 2 ^ k in
    let twice : s ≡ 2 * t = rw (e, pow-suc) (omega arith) in
    let some_t : 0 < t = grind (arith, one-le-pow k 2 (omega arith)) in
    let rest : shift_right s 1 ≡ t = ground arith in
    let even : (s % 2 == 1) ≡ false = ground arith in
    let more : (s == 0) ≡ false = ground arith in
    rw (more, even, rest) (count_bits_none k a fuel (i + 1) j t pos refl (omega arith))

-- By a positive power of two `__aeabi_imod` returns the numerator shifted right by its exponent,
-- which is the quotient rounded down and not the remainder.
pub aeabi_imod_power :
    (fuel n k : ℕ) → k < 31 → 33 ≤ fuel → aeabi_imod fuel n (2 ^ k) ≡ ok (shift_right n k)
unfolding aeabi_imod
aeabi_imod_power fuel n k h f =
    let le : 2 ^ k ≤ 2 ^ 30 = pow-le-pow_right (omega arith) {i = k} {j = 30} (omega arith) in
    rw (count_bits_power k fuel 0 0 (omega arith) (omega arith)) (ground arith)

-- By a negative number, or a positive number that is no power of two, `__aeabi_imod` does not return,
-- however many rounds its loop is given.
pub aeabi_imod_diverges :
    (fuel n d : ℕ)
    → (2 ^ 31 ≤ d) ⊎ ((k : ℕ) × (a : ℕ) × (0 < a) × (d ≡ (2 * a + 1) * 2 ^ k) × (d < 2 ^ 31))
    → aeabi_imod fuel n d ≡ out_of_fuel
unfolding aeabi_imod
aeabi_imod_diverges fuel n d (inl negative) = rw (count_bits_negative fuel 0 0 0 d negative)
aeabi_imod_diverges fuel n d (inr (k, a, pos, e, h)) = rw (count_bits_none k a fuel 0 0 d pos e h)
