-- ===== src/Divmod/Signed.antt =====
-- Signed division: `__aeabi_idiv`, `__aeabi_idivmod` and `__l_divmod`.
use native.Mathlib.Nat.{
  mod_self, zero-div, pow-suc, one-le-pow, div-one, mod-lt, mod-eq_of_lt, div-add-mod,
}
use mathlib.Core.Bool.{xor}
use bios_qemu_tz_arm.Prelude.{
  ℕ, zero, suc, ◌-◌, ◌*◌, ◌/◌, ◌%◌, ◌^◌, ◌≤◌, ◌<◌, ◌≡◌, ap, refl, arith, Bool, true, false, ◌&&◌,
  ◌||◌, not, if◌then◌else◌, ◌==◌, inl, inr, ◌⊎◌, ◌∙◌,
}
use bios_qemu_tz_arm.Run.{ok, Returns}
use bios_qemu_tz_arm.Divmod.{
  word, negate, is_negative, is_positive, magnitude, signs, divide_signs, divide_signed, aeabi_idiv,
  aeabi_idivmod, l_divmod,
}
use bios_qemu_tz_arm.Divmod.Unsigned.{divide_pos}

-- Division towards zero, of words read as signed numbers: the sizes are those of the division of the
-- sizes, the quotient is negative if the signs differ and it is not 0, and the remainder has the sign
-- of the numerator if it is not 0.
pub record Truncates (top n d q r : ℕ) : Type 0 where
  pub quot_size : magnitude top q ≡ magnitude top n / magnitude top d
  pub rem_size : magnitude top r ≡ magnitude top n % magnitude top d
  pub quot_sign : is_negative top q ≡ (not (q == 0) && xor (is_negative top n) (is_negative top d))
  pub rem_sign : is_negative top r ≡ (not (r == 0) && is_negative top n)

-- A quotient has at most the size of the numerator, and that size only by 1.
quotient_size : (a b h : ℕ) → 0 < b → a ≤ h → 0 < h → (a / b < h) ⊎ ((b ≡ 1) × (a ≡ h))
quotient_size a zero h pos le some_h = absurd (omega arith)
quotient_size a (suc zero) h pos le some_h = ground (arith, div-one a)
quotient_size a (suc (suc b)) h pos le some_h = inl (omega (arith, halved))
  where
    halved : a / suc (suc b) * 2 ≤ a
    halved = omega (arith, div-add-mod a (suc (suc b)), grow (a / suc (suc b)) b)
      where
        grow : (x y : ℕ) → x * 2 ≤ suc (suc y) * x
        grow x y = grind arith

either : (a b : Bool) → (a && not b || not a && b) ≡ xor a b
unfolding xor
either true true = refl
either true false = refl
either false true = refl
either false false = refl

module _ (top : ℕ) where
  wide : (word top ≡ 2 * 2 ^ top) × (0 < 2 ^ top)
  wide = (rw pow-suc (omega arith), one-le-pow top 2 (omega arith))

  negate_pos : (x : ℕ) → 0 < x → x ≤ word top → negate top x ≡ word top - x
  negate_pos x h le = mod-eq_of_lt (omega arith)

  negate_zero : negate top 0 ≡ 0
  negate_zero = ground (arith, mod_self (word top))

  magnitude_bounds :
      (x : ℕ)
      → x < word top
      → (magnitude top x ≤ 2 ^ top) × (magnitude top x < word top) × (0 < x → 0 < magnitude top x)
  magnitude_bounds x h = ground (arith, wide, negate_pos x)

  -- A magnitude that is given a sign.
  abbrev signed_word : Bool → ℕ → ℕ
  signed_word s x = if s then negate top x else x

  divide_signed_lem :
      (n d : ℕ)
      → n < word top
      → 0 < d
      → d < word top
      → divide_signed top n d
        ≡ ok (record {
          q = signed_word (signs top n d).q_n (magnitude top n / magnitude top d);
          r = signed_word (is_negative top n) (magnitude top n % magnitude top d);
          q_n = (signs top n d).q_n;
          r_n = is_negative top n;
        })
  unfolding divide_signed divide_signs
  divide_signed_lem n d hn pos hd =
      let bn = magnitude_bounds n hn in
      let bd = magnitude_bounds d hd in
      rw (divide_pos top (magnitude top n) (magnitude top d) (signs top n d) (bd.2 pos) bn.1 bd.1)
        (ground arith)

  -- A sign and a size up to the largest make a word with that size, and with that sign if it is not 0.
  signed_word_lem :
      (s : Bool) (x : ℕ)
      → (x < 2 ^ top) ⊎ (s ≡ true) × (x ≡ 2 ^ top)
      → (magnitude top (signed_word s x) ≡ x)
        × (is_negative top (signed_word s x) ≡ (not (signed_word s x == 0) && s))
  signed_word_lem true zero h = ground (arith, negate_zero, wide)
  signed_word_lem true (suc x) h =
      let value : signed_word true (suc x) ≡ word top - suc x =
        negate_pos (suc x) (omega arith) (omega (arith, wide)) in
      rw value (ground (arith, wide, negate_pos (word top - suc x)))
  signed_word_lem false x h = ground (arith, wide)

  -- A quotient of the largest size is negative, or the division overflows.
  largest :
      (n d : ℕ)
      → n < word top
      → 0 < d
      → d < word top
      → ¬ ((n ≡ 2 ^ top) × (d ≡ word top - 1))
      → (magnitude top n / magnitude top d < 2 ^ top)
        ⊎ ((magnitude top d ≡ 1) × (magnitude top n ≡ 2 ^ top))
      → (magnitude top n / magnitude top d < 2 ^ top)
        ⊎ ((signs top n d).q_n ≡ true) × (magnitude top n / magnitude top d ≡ 2 ^ top)
  largest n d hn pos hd fits (inl small) = inl small
  largest n d hn pos hd fits (inr (one, all)) = inr (
    ground (arith, one, all, wide, negate_pos n, negate_pos d),
    rw (one, all) (div-one (2 ^ top)),
  )

  positive_iff : (x : ℕ) → 0 < x → is_positive top x ≡ not (is_negative top x)
  positive_iff x h = ground arith

  -- The flag that the code sets tells whether the signs differ, unless the quotient is 0.
  signs_differ :
      (n d : ℕ)
      → 0 < d
      → (not (signed_word (signs top n d).q_n (magnitude top n / magnitude top d) == 0)
          && (signs top n d).q_n)
        ≡ (not (signed_word (signs top n d).q_n (magnitude top n / magnitude top d) == 0)
            && xor (is_negative top n) (is_negative top d))
  signs_differ zero d pos = ground (arith, wide, zero-div (magnitude top d))
  signs_differ (suc n) d pos =
      let same : (signs top (suc n) d).q_n ≡ xor (is_negative top (suc n)) (is_negative top d) =
        rw (positive_iff (suc n) (omega arith), positive_iff d pos)
          (either (is_negative top (suc n)) (is_negative top d)) in
      ap
        (λ b.
          not (signed_word (signs top (suc n) d).q_n (magnitude top (suc n) / magnitude top d) == 0)
          && b)
        same

  Truncates-signed_word :
      (n d : ℕ)
      → n < word top
      → 0 < d
      → d < word top
      → ¬ ((n ≡ 2 ^ top) × (d ≡ word top - 1))
      → Truncates top n d
          (signed_word (signs top n d).q_n (magnitude top n / magnitude top d))
          (signed_word (is_negative top n) (magnitude top n % magnitude top d))
  Truncates-signed_word n d hn pos hd fits =
      let bn = magnitude_bounds n hn in
      let bd = magnitude_bounds d hd in
      let small =
        quotient_size (magnitude top n) (magnitude top d) (2 ^ top) (bd.2 pos) bn.0 wide.1 in
      let full = largest n d hn pos hd fits small in
      let quot = signed_word_lem (signs top n d).q_n (magnitude top n / magnitude top d) full in
      let rem =
        signed_word_lem (is_negative top n) (magnitude top n % magnitude top d)
          (inl (omega (arith, mod-lt (magnitude top n) (bd.2 pos), bd.0))) in
      record {
        quot_size = quot.0;
        rem_size = rem.0;
        quot_sign = quot.1 ∙ signs_differ n d pos;
        rem_sign = rem.1;
      }

-- A pair of words that divides towards zero.
abbrev pub TruncatesPair : ℕ → ℕ → ℕ → ℕ × ℕ → Type 0
TruncatesPair top n d (q, r) = Truncates top n d q r

-- By a signed word that is not 0, and unless the quotient overflows, which is INT_MIN / -1,
-- `__aeabi_idivmod` returns a quotient and a remainder of division towards zero, and `__aeabi_idiv` a
-- quotient of the same size.
pub aeabi_idivmod-Truncates :
    (n d : ℕ)
    → n < 2 ^ 32
    → 0 < d
    → d < 2 ^ 32
    → ¬ ((n ≡ 2 ^ 31) × (d ≡ 2 ^ 32 - 1))
    → Returns (TruncatesPair 31 n d) (aeabi_idivmod n d)
      × Returns (λ q. magnitude 31 q ≡ magnitude 31 n / magnitude 31 d) (aeabi_idiv n d)
unfolding aeabi_idivmod aeabi_idiv
aeabi_idivmod-Truncates n d hn pos hd fits =
    let e = divide_signed_lem 31 n d hn pos hd in
    let t = Truncates-signed_word 31 n d hn pos hd fits in (rw e t, rw e t.quot_size)

-- The same of `__l_divmod`, which serves 64-bit words.
pub l_divmod-Truncates :
    (n d : ℕ)
    → n < 2 ^ 64
    → 0 < d
    → d < 2 ^ 64
    → ¬ ((n ≡ 2 ^ 63) × (d ≡ 2 ^ 64 - 1))
    → Returns (TruncatesPair 63 n d) (l_divmod (n, d))
unfolding l_divmod
l_divmod-Truncates n d hn pos hd fits =
    rw (divide_signed_lem 63 n d hn pos hd) (Truncates-signed_word 63 n d hn pos hd fits)
