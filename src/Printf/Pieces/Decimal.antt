-- ===== src/Printf/Pieces/Decimal.antt =====
-- Decimal numerals in a format: their first digit, and that `parse_int` of `kprintf` reads them back.
use native.Mathlib.Nat.{pow-suc}
use bios_qemu_tz_arm.Prelude.{
  ℕ, zero, suc, ◌+◌, ◌-◌, ◌*◌, ◌/◌, ◌%◌, ◌^◌, ◌≤◌, ◌<◌, ◌≡◌, refl, sym, ap, ◌∙◌, true, false,
  Bool-cases, inl, inr, List, [], ◌∷◌, ◌++◌, ltb, arith,
}
use bios_qemu_tz_arm.Run.{ok}
use bios_qemu_tz_arm.Printf.Digits.Value.{digit_value, read_number}
use bios_qemu_tz_arm.Printf.Args.{is_digit}
use bios_qemu_tz_arm.Printf.Directive.{parse_int}
use bios_qemu_tz_arm.Printf.Values.{digit, numeral, decimal}
use bios_qemu_tz_arm.Printf.Pieces.{IsWidth}

abbrev pub IsDigit : ℕ → Type 0
IsDigit c = (48 ≤ c) × (c ≤ 57)

abbrev pub AreDigits : List ℕ → Type 0
AreDigits [] = Unit {0}
AreDigits (c ∷ s) = IsDigit c × AreDigits s

AreDigits-append : (s : List ℕ) (c : ℕ) → AreDigits s → IsDigit c → AreDigits (s ++ c ∷ [])
AreDigits-append [] c h hc = (hc, tt)
AreDigits-append (d ∷ s) c h hc = (h.0, AreDigits-append s c h.1 hc)

-- A decimal numeral of a positive number starts with no 0.
pub record Leading (text : List ℕ) : Type 0 where
  pub first : ℕ
  pub others : List ℕ
  pub splits : text ≡ first ∷ others
  pub positive : 49 ≤ first
  pub small : first ≤ 57
  pub digits : AreDigits others

numeral-small : (fuel u : ℕ) → u < 10 → numeral digit 10 (suc fuel) u ≡ (48 + u) ∷ []
unfolding numeral
numeral-small fuel u h =
    let e : ltb u 10 ≡ true = ground arith in
    let first : digit u ≡ 48 + u = ground arith in rw (numeral, e) (ap (λ c. c ∷ []) first)

numeral-large :
    (fuel u : ℕ)
    → 10 ≤ u
    → numeral digit 10 (suc fuel) u ≡ numeral digit 10 fuel (u / 10) ++ digit (u % 10) ∷ []
unfolding numeral
numeral-large fuel u h = let e : ltb u 10 ≡ false = ground arith in rw (numeral, e) refl

one_digit-Leading : (fuel u : ℕ) → 0 < u → u < 10 → Leading (numeral digit 10 (suc fuel) u)
one_digit-Leading fuel u low high = record {
  first = 48 + u;
  others = [];
  splits = numeral-small fuel u high;
  positive = omega arith;
  small = omega arith;
  digits = tt;
}

numeral-Leading : (fuel u : ℕ) → 0 < u → u < 10 ^ suc fuel → Leading (numeral digit 10 (suc fuel) u)
numeral-Leading zero u low high = one_digit-Leading zero u low (omega arith)
numeral-Leading (suc fuel) u low high = elim (Bool-cases (ltb u 10)) [
  | inl e ↦ one_digit-Leading (suc fuel) u low (ground arith)
  | inr e ↦
      let ih =
        numeral-Leading fuel (u / 10) (ground arith) (omega (arith, pow-suc 10 (suc fuel))) in
      record {
        first = ih.first;
        others = ih.others ++ digit (u % 10) ∷ [];
        splits =
            numeral-large (suc fuel) u (ground arith)
            ∙ ap (λ s. s ++ digit (u % 10) ∷ []) ih.splits;
        positive = ih.positive;
        small = ih.small;
        digits = AreDigits-append ih.others (digit (u % 10)) ih.digits (ground arith);
      }
]

pub decimal-Leading : (w : ℕ) → IsWidth w → Leading (decimal w)
decimal-Leading w h = numeral-Leading 21 w h.0 (omega (arith, h.1))

read_number-last :
    (base acc : ℕ) (s : List ℕ) (c : ℕ)
    → read_number base acc (s ++ c ∷ []) ≡ read_number base acc s * base + digit_value c
unfolding read_number
read_number-last base acc [] c = refl
read_number-last base acc (d ∷ s) c = read_number-last base (acc * base + digit_value d) s c

digit-value : (d : ℕ) → d < 10 → digit_value (digit d) ≡ d
unfolding digit_value
digit-value d h = ground arith

digit_value-small : (u : ℕ) → u < 10 → 0 * 10 + digit_value (48 + u) ≡ u
unfolding digit_value
digit_value-small u h = ground arith

pub read_number-numeral :
    (fuel u : ℕ) → u < 10 ^ suc fuel → read_number 10 0 (numeral digit 10 (suc fuel) u) ≡ u
unfolding read_number
read_number-numeral zero u h =
    rw (numeral-small zero u (omega arith)) (digit_value-small u (omega arith))
read_number-numeral (suc fuel) u h = elim (Bool-cases (ltb u 10)) [
  | inl e ↦ rw (numeral-small (suc fuel) u (ground arith)) (digit_value-small u (ground arith))
  | inr e ↦
      let low = digit-value (u % 10) (omega arith) in
      rw
        (
          numeral-large (suc fuel) u (ground arith),
          read_number-last 10 0 (numeral digit 10 (suc fuel) (u / 10)) (digit (u % 10)),
          read_number-numeral fuel (u / 10) (omega (arith, pow-suc 10 (suc fuel))),
          low,
        )
        (omega arith)
]

read_number-grows : (acc : ℕ) (s : List ℕ) → acc ≤ read_number 10 acc s
unfolding read_number
read_number-grows acc [] = omega arith
read_number-grows acc (c ∷ s) = omega (arith, read_number-grows (acc * 10 + digit_value c) s)

digit_value-IsDigit : (n c : ℕ) → IsDigit c → 10 * n + (c - 48) ≡ n * 10 + digit_value c
unfolding digit_value
digit_value-IsDigit n c h = ground arith

parse_int-stops :
    (n c : ℕ) (rest : List ℕ) → is_digit c ≡ false → parse_int n c rest ≡ ok (n, c, rest)
unfolding parse_int
parse_int-stops n c [] h = rw (parse_int, h) refl
parse_int-stops n c (d ∷ rest) h = rw (parse_int, h) refl

-- The digits up to another character, which is taken as well.
pub parse_int-digits :
    (n d : ℕ) (ds : List ℕ) (c : ℕ) (rest : List ℕ)
    → AreDigits (d ∷ ds)
    → is_digit c ≡ false
    → read_number 10 n (d ∷ ds) < 2 ^ 31
    → parse_int n d (ds ++ c ∷ rest) ≡ ok (read_number 10 n (d ∷ ds), c, rest)
unfolding parse_int read_number
parse_int-digits n d [] c rest h stop room =
    let e : is_digit d ≡ true = ground (arith, h.0) in
    let v = digit_value-IsDigit n d h.0 in
    let fits : ltb (n * 10 + digit_value d) (2 ^ 31) ≡ true = ground (arith, room) in
    rw (parse_int, e, v, fits, parse_int-stops (n * 10 + digit_value d) c rest stop) refl
parse_int-digits n d (d' ∷ ds) c rest h stop room =
    let e : is_digit d ≡ true = ground (arith, h.0) in
    let v = digit_value-IsDigit n d h.0 in
    let grows = read_number-grows (n * 10 + digit_value d) (d' ∷ ds) in
    let fits : ltb (n * 10 + digit_value d) (2 ^ 31) ≡ true = ground (arith, room, grows) in
    rw (parse_int, e, v, fits, parse_int-digits (n * 10 + digit_value d) d' ds c rest h.1 stop room)
      refl

-- A decimal numeral as its first character and the others.
pub record Split (w : ℕ) : Type 0 where
  pub first : ℕ
  pub others : List ℕ
  pub splits : decimal w ≡ first ∷ others
  pub digits : AreDigits (first ∷ others)

abbrev pub Leading-Split : (w : ℕ) → Leading (decimal w) → Split w
Leading-Split w lead = record {
  first = lead.first;
  others = lead.others;
  splits = lead.splits;
  digits = ((omega (arith, lead.positive), lead.small), lead.digits);
}

pub decimal-Split : (w : ℕ) → w < 2 ^ 31 → Split w
unfolding numeral
decimal-Split zero h = record {
  first = 48;
  others = [];
  splits = refl;
  digits = ((omega arith, omega arith), tt);
}
decimal-Split (suc w) h = Leading-Split (suc w) (decimal-Leading (suc w) (omega arith, h))

-- A decimal numeral is read back.
pub parse_int-Split :
    (w : ℕ) (split : Split w) (c : ℕ) (rest : List ℕ)
    → w < 2 ^ 31
    → is_digit c ≡ false
    → parse_int 0 split.first (split.others ++ c ∷ rest) ≡ ok (w, c, rest)
parse_int-Split w split c rest h stop =
    let value : read_number 10 0 (split.first ∷ split.others) ≡ w =
      ap (read_number 10 0) (sym split.splits) ∙ read_number-numeral 21 w (omega (arith, h)) in
    parse_int-digits 0 split.first split.others c rest split.digits stop (omega (arith, value, h))
    ∙ ap (λ n. ok (n, c, rest)) value
