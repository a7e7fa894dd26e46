-- ===== src/Printf/Digits/Value.antt =====
-- The digits read back as the number, and they fit the array.
use native.Mathlib.Nat.{pow-suc}
use bios_qemu_tz_arm.Prelude.{
  ℕ, zero, suc, ◌+◌, ◌-◌, ◌*◌, ◌/◌, ◌%◌, ◌^◌, ◌≤◌, ◌<◌, ◌≡◌, refl, ap, ◌∙◌, Bool, true, false, not,
  Bool-cases, inl, inr, List, [], ◌∷◌, ◌&&◌, ◌==◌, ltb, leb, length, get_or, if◌then◌else◌, arith,
  Bits.bit_and_low,
}
use bios_qemu_tz_arm.Run.{Run, ok, ◌>>=◌}
use bios_qemu_tz_arm.Printf.Digits.{
  Base, oct, dec, hex, kprintf_bufsize, hexdigits, upper_hexdigits, to_char, push, oct_loop,
  dec_loop, hex_loop, octal_zero, digits,
}

abbrev pub radix : Base → ℕ
radix oct = 8
radix dec = 10
radix hex = 16

-- The value of a digit, in either case.
unfoldable pub digit_value : ℕ → ℕ
digit_value c = if ltb c 58 then c - 48 else if ltb c 71 then c - 55 else c - 87

-- The number that a text denotes, read from the left as `strtoul` does.
unfoldable pub read_number : ℕ → ℕ → List ℕ → ℕ
read_number base acc [] = acc
read_number base acc (c ∷ text) = read_number base (acc * base + digit_value c) text

-- The run returns a text of at most so many digits that denotes the number.
pub record Denotes (base u limit : ℕ) (cp : List ℕ) (result : Run (List ℕ)) : Type 0 where
  pub text : List ℕ
  pub returns : result ≡ ok text
  pub denotes : read_number base 0 text ≡ read_number base u cp
  pub short : length text ≤ length cp + limit

pub push-ok : (c : ℕ) (cp : List ℕ) → length cp < kprintf_bufsize → push c cp ≡ ok (c ∷ cp)
unfolding push
push-ok c cp h = ground arith

-- The first digit, and a digit behind others.
Denotes-first :
    (base c : ℕ) {u : ℕ} (cp : List ℕ)
    → digit_value c ≡ u
    → (n : ℕ) → Denotes base u (suc n) cp (ok (c ∷ cp))
unfolding read_number
Denotes-first base c cp h n = record {
  text = c ∷ cp;
  returns = refl;
  denotes = ap (λ v. read_number base v cp) (omega (arith, h));
  short = omega arith;
}

Denotes-next :
    (base c q u n : ℕ) (cp : List ℕ) {r : Run (List ℕ)}
    → q * base + digit_value c ≡ u
    → Denotes base q n (c ∷ cp) r
    → Denotes base u (suc n) cp r
unfolding read_number
Denotes-next base c q u n cp e d = record {
  text = d.text;
  returns = d.returns;
  denotes = d.denotes ∙ ap (λ v. read_number base v cp) e;
  short = omega (arith, d.short);
}

to_char-value : (d : ℕ) → d < 10 → digit_value (to_char d) ≡ d
unfolding digit_value
to_char-value d h = ground arith

dec-Denotes :
    (fuel u : ℕ) (cp : List ℕ)
    → u < 10 ^ suc fuel
    → length cp + suc fuel ≤ kprintf_bufsize
    → Denotes 10 u (suc fuel) cp (dec_loop (suc fuel) u cp)
unfolding dec_loop
dec-Denotes zero u cp h room =
    let e : leb 10 u ≡ false = ground arith in
    rw (e, dec_loop, push-ok (to_char u) cp (omega arith))
      (Denotes-first 10 (to_char u) cp (to_char-value u (omega arith)) 0)
dec-Denotes (suc fuel) u cp h room = elim (Bool-cases (leb 10 u)) [
  | inr e ↦
      rw (e, dec_loop, push-ok (to_char u) cp (omega arith))
        (Denotes-first 10 (to_char u) cp (to_char-value u (ground arith)) (suc fuel))
  | inl e ↦
      let d = to_char-value (u % 10) (omega arith) in
      rw (e, dec_loop, push-ok (to_char (u % 10)) cp (omega arith))
        (Denotes-next 10 (to_char (u % 10)) (u / 10) u (suc fuel) cp (omega (arith, d)) (
          dec-Denotes fuel (u / 10) (to_char (u % 10) ∷ cp) (omega (arith, pow-suc 10 (suc fuel)))
            (omega arith)))
]

oct-Denotes :
    (fuel u : ℕ) (cp : List ℕ)
    → u < 8 ^ suc fuel
    → length cp + suc fuel ≤ kprintf_bufsize
    → Denotes 8 u (suc fuel) cp (oct_loop (suc fuel) u cp)
unfolding oct_loop
oct-Denotes zero u cp h room =
    let d = to_char-value (u % 8) (omega arith) in
    let e : (u / 8 == 0) ≡ true = ground arith in
    rw (oct_loop, bit_and_low 3 u, push-ok (to_char (u % 8)) cp (omega arith), e)
      (Denotes-first 8 (to_char (u % 8)) cp (omega (arith, d)) 0)
oct-Denotes (suc fuel) u cp h room =
    let d = to_char-value (u % 8) (omega arith) in
    let c = to_char (u % 8) in
    elim (Bool-cases (u / 8 == 0)) [
      | inl e ↦
          rw (oct_loop, bit_and_low 3 u, push-ok c cp (omega arith), e)
            (Denotes-first 8 c cp (ground (arith, d)) (suc fuel))
      | inr e ↦
          rw (oct_loop, bit_and_low 3 u, push-ok c cp (omega arith), e)
            (Denotes-next 8 c (u / 8) u (suc fuel) cp (omega (arith, d)) (
              oct-Denotes fuel (u / 8) (c ∷ cp) (omega (arith, pow-suc 8 (suc fuel)))
                (omega arith)))
    ]

abbrev pub IsHexTable : List ℕ → Type 0
IsHexTable xdigs = (d : ℕ) → d < 16 → digit_value (get_or xdigs d 0) ≡ d

pub lower-IsHexTable : IsHexTable hexdigits
unfolding digit_value
lower-IsHexTable d h = ground arith

pub upper-IsHexTable : IsHexTable upper_hexdigits
unfolding digit_value
upper-IsHexTable d h = ground arith

module _ (xdigs : List ℕ) (table : IsHexTable xdigs) where
  hex-Denotes :
      (fuel u : ℕ) (cp : List ℕ)
      → u < 16 ^ suc fuel
      → length cp + suc fuel ≤ kprintf_bufsize
      → Denotes 16 u (suc fuel) cp (hex_loop xdigs (suc fuel) u cp)
  unfolding hex_loop
  hex-Denotes zero u cp h room =
      let d = table (u % 16) (omega arith) in
      let e : (u / 16 == 0) ≡ true = ground arith in
      rw (hex_loop, bit_and_low 4 u, push-ok (get_or xdigs (u % 16) 0) cp (omega arith), e)
        (Denotes-first 16 (get_or xdigs (u % 16) 0) cp (omega (arith, d)) 0)
  hex-Denotes (suc fuel) u cp h room =
      let d = table (u % 16) (omega arith) in
      let c = get_or xdigs (u % 16) 0 in
      elim (Bool-cases (u / 16 == 0)) [
        | inl e ↦
            rw (hex_loop, bit_and_low 4 u, push-ok c cp (omega arith), e)
              (Denotes-first 16 c cp (ground (arith, d)) (suc fuel))
        | inr e ↦
            rw (hex_loop, bit_and_low 4 u, push-ok c cp (omega arith), e)
              (Denotes-next 16 c (u / 16) u (suc fuel) cp (omega (arith, d)) (
                hex-Denotes fuel (u / 16) (c ∷ cp) (omega (arith, pow-suc 16 (suc fuel)))
                  (omega arith)))
      ]

-- A leading 0 does not change the number.
octal_zero-Denotes :
    (alt : Bool) (u : ℕ) (r : Run (List ℕ))
    → Denotes 8 u 22 [] r
    → Denotes 8 u 23 [] (r >>= octal_zero alt)
unfolding octal_zero push
octal_zero-Denotes alt u r d = elim (Bool-cases (alt && not (get_or d.text 0 0 == 48))) [
  | inl e ↦
      let room : ltb (length d.text) kprintf_bufsize ≡ true = ground (arith, d.short) in
      record {
        text = 48 ∷ d.text;
        returns = rw (d.returns, octal_zero, e, push, room) refl;
        denotes = unfold read_number digit_value in d.denotes;
        short = omega (arith, d.short);
      }
  | inr e ↦ record {
    text = d.text;
    returns = rw (d.returns, octal_zero, e) refl;
    denotes = d.denotes;
    short = omega (arith, d.short);
  }
]

Denotes-more : (base u : ℕ) (r : Run (List ℕ)) → Denotes base u 22 [] r → Denotes base u 23 [] r
Denotes-more base u r d = record {
  text = d.text;
  returns = d.returns;
  denotes = d.denotes;
  short = omega (arith, d.short);
}

-- The digits of a 64-bit number never leave the array, and read in their base from the left they give
-- the number back, in each base, with the leading 0 of `#` or without, and with either table of
-- hexadecimal digits.
pub digits-Denotes :
    (base : Base) (xdigs : List ℕ) (alt : Bool) (u : ℕ)
    → IsHexTable xdigs
    → u < 2 ^ 64
    → Denotes (radix base) u kprintf_bufsize [] (digits base xdigs alt u)
unfolding digits
digits-Denotes oct xdigs alt u table h =
    octal_zero-Denotes alt u (oct_loop 22 u []) (oct-Denotes 21 u [] (omega arith) (omega arith))
digits-Denotes dec xdigs alt u table h =
    Denotes-more 10 u (dec_loop 22 u []) (dec-Denotes 21 u [] (omega arith) (omega arith))
digits-Denotes hex xdigs alt u table h =
    Denotes-more 16 u (hex_loop xdigs 22 u [])
      (hex-Denotes xdigs table 21 u [] (omega arith) (omega arith))
