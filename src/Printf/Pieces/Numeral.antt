-- ===== src/Printf/Pieces/Numeral.antt =====
-- `digits` of `kprintf` writes the numeral.
use native.Mathlib.Nat.{pow-suc}
use mathlib.Core.List.{append_assoc, append-nil}
use bios_qemu_tz_arm.Prelude.{
  ℕ, zero, suc, ◌+◌, ◌/◌, ◌%◌, ◌^◌, ◌≤◌, ◌<◌, ◌≡◌, refl, ap, ◌∙◌, true, false, Bool, Bool-cases,
  inl, inr, List, [], ◌∷◌, ◌++◌, ◌==◌, ltb, leb, length, get_or, arith, Bits.bit_and_low,
}
use bios_qemu_tz_arm.Run.{ok, ◌>>=◌}
use bios_qemu_tz_arm.Printf.Digits.{
  oct, dec, hex, kprintf_bufsize, hexdigits, upper_hexdigits, to_char, dec_loop, oct_loop, hex_loop,
  octal_zero, digits,
}
use bios_qemu_tz_arm.Printf.Digits.Value.{push-ok}
use bios_qemu_tz_arm.Printf.Values.{
  digit, upper_digit, numeral, decimal, octal_digits, hexadecimal, upper_hexadecimal,
}

to_char-digit : (d : ℕ) → d < 10 → to_char d ≡ digit d
to_char-digit d h = ground arith

hexdigits-digit : (d : ℕ) → d < 16 → get_or hexdigits d 0 ≡ digit d
hexdigits-digit d h = ground arith

upper_hexdigits-digit : (d : ℕ) → d < 16 → get_or upper_hexdigits d 0 ≡ upper_digit d
upper_hexdigits-digit d h = ground arith

dec_loop-numeral :
    (fuel u : ℕ) (cp : List ℕ)
    → u < 10 ^ suc fuel
    → length cp + suc fuel ≤ kprintf_bufsize
    → dec_loop (suc fuel) u cp ≡ ok (numeral digit 10 (suc fuel) u ++ cp)
unfolding dec_loop numeral
dec_loop-numeral zero u cp h room =
    let e : leb 10 u ≡ false = ground arith in
    let e' : ltb u 10 ≡ true = ground arith in
    rw
      (
        e,
        e',
        dec_loop,
        numeral,
        push-ok (to_char u) cp (omega arith),
        to_char-digit u (omega arith),
      )
      refl
dec_loop-numeral (suc fuel) u cp h room = elim (Bool-cases (ltb u 10)) [
  | inl e ↦
      let e' : leb 10 u ≡ false = ground arith in
      rw
        (
          e,
          e',
          dec_loop,
          numeral,
          push-ok (to_char u) cp (omega arith),
          to_char-digit u (ground arith),
        )
        refl
  | inr e ↦
      let e' : leb 10 u ≡ true = ground arith in
      rw
        (
          e,
          e',
          dec_loop,
          numeral,
          push-ok (to_char (u % 10)) cp (omega arith),
          to_char-digit (u % 10) (omega arith),
          dec_loop-numeral fuel (u / 10) (digit (u % 10) ∷ cp)
              (omega (arith, pow-suc 10 (suc fuel))) (omega arith),
          append_assoc (numeral digit 10 (suc fuel) (u / 10)) (digit (u % 10) ∷ []) cp,
        )
        refl
]

module _ (xdigs : List ℕ) (dig : ℕ → ℕ) (table : (d : ℕ) → d < 16 → get_or xdigs d 0 ≡ dig d) where
  hex_loop-numeral :
      (fuel u : ℕ) (cp : List ℕ)
      → u < 16 ^ suc fuel
      → length cp + suc fuel ≤ kprintf_bufsize
      → hex_loop xdigs (suc fuel) u cp ≡ ok (numeral dig 16 (suc fuel) u ++ cp)
  unfolding hex_loop numeral
  hex_loop-numeral zero u cp h room =
      let e : (u / 16 == 0) ≡ true = ground arith in
      let e' : ltb u 16 ≡ true = ground arith in
      let small : u % 16 ≡ u = omega arith in
      rw
        (
          e,
          e',
          hex_loop,
          numeral,
          bit_and_low 4 u,
          push-ok (get_or xdigs (u % 16) 0) cp (omega arith),
          table (u % 16) (omega arith),
          small,
        )
        refl
  hex_loop-numeral (suc fuel) u cp h room = elim (Bool-cases (ltb u 16)) [
    | inl e ↦
        let small : u % 16 ≡ u = ground arith in
        let e' : (u / 16 == 0) ≡ true = ground arith in
        rw
          (
            e,
            e',
            hex_loop,
            numeral,
            bit_and_low 4 u,
            push-ok (get_or xdigs (u % 16) 0) cp (omega arith),
            table (u % 16) (omega arith),
            small,
          )
          refl
    | inr e ↦
        let e' : (u / 16 == 0) ≡ false = ground arith in
        rw
          (
            e,
            e',
            hex_loop,
            numeral,
            bit_and_low 4 u,
            push-ok (get_or xdigs (u % 16) 0) cp (omega arith),
            table (u % 16) (omega arith),
            hex_loop-numeral fuel (u / 16) (dig (u % 16) ∷ cp)
                (omega (arith, pow-suc 16 (suc fuel))) (omega arith),
            append_assoc (numeral dig 16 (suc fuel) (u / 16)) (dig (u % 16) ∷ []) cp,
          )
          refl
  ]

oct_loop-numeral :
    (fuel u : ℕ) (cp : List ℕ)
    → u < 8 ^ suc fuel
    → length cp + suc fuel ≤ kprintf_bufsize
    → oct_loop (suc fuel) u cp ≡ ok (numeral digit 8 (suc fuel) u ++ cp)
unfolding oct_loop numeral
oct_loop-numeral zero u cp h room =
    let e : (u / 8 == 0) ≡ true = ground arith in
    let e' : ltb u 8 ≡ true = ground arith in
    let small : u % 8 ≡ u = omega arith in
    rw
      (
        e,
        e',
        oct_loop,
        numeral,
        bit_and_low 3 u,
        push-ok (to_char (u % 8)) cp (omega arith),
        to_char-digit (u % 8) (omega arith),
        small,
      )
      refl
oct_loop-numeral (suc fuel) u cp h room = elim (Bool-cases (ltb u 8)) [
  | inl e ↦
      let small : u % 8 ≡ u = ground arith in
      let e' : (u / 8 == 0) ≡ true = ground arith in
      rw
        (
          e,
          e',
          oct_loop,
          numeral,
          bit_and_low 3 u,
          push-ok (to_char (u % 8)) cp (omega arith),
          to_char-digit (u % 8) (omega arith),
          small,
        )
        refl
  | inr e ↦
      let e' : (u / 8 == 0) ≡ false = ground arith in
      rw
        (
          e,
          e',
          oct_loop,
          numeral,
          bit_and_low 3 u,
          push-ok (to_char (u % 8)) cp (omega arith),
          to_char-digit (u % 8) (omega arith),
          oct_loop-numeral fuel (u / 8) (digit (u % 8) ∷ cp) (omega (arith, pow-suc 8 (suc fuel)))
              (omega arith),
          append_assoc (numeral digit 8 (suc fuel) (u / 8)) (digit (u % 8) ∷ []) cp,
        )
        refl
]

pub digits-decimal : (alt : Bool) (u : ℕ) → u < 2 ^ 64 → digits dec [] alt u ≡ ok (decimal u)
unfolding digits
digits-decimal alt u h =
    dec_loop-numeral 21 u [] (omega arith) (omega arith) ∙ ap ok (append-nil (decimal u))

pub digits-hexadecimal :
    (alt : Bool) (u : ℕ) → u < 2 ^ 64 → digits hex hexdigits alt u ≡ ok (hexadecimal u)
unfolding digits
digits-hexadecimal alt u h =
    hex_loop-numeral hexdigits digit hexdigits-digit 21 u [] (omega arith) (omega arith)
    ∙ ap ok (append-nil (hexadecimal u))

pub digits-upper :
    (alt : Bool) (u : ℕ) → u < 2 ^ 64 → digits hex upper_hexdigits alt u ≡ ok (upper_hexadecimal u)
unfolding digits
digits-upper alt u h =
    hex_loop-numeral upper_hexdigits upper_digit upper_hexdigits-digit 21 u [] (omega arith)
      (omega arith)
    ∙ ap ok (append-nil (upper_hexadecimal u))

pub digits-octal : (u : ℕ) → u < 2 ^ 64 → digits oct [] false u ≡ ok (octal_digits u)
unfolding digits octal_zero
digits-octal u h =
    ap (λ run. run >>= octal_zero false)
      (oct_loop-numeral 21 u [] (omega arith) (omega arith) ∙ ap ok (append-nil (octal_digits u)))
