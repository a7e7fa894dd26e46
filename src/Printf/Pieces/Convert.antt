-- ===== src/Printf/Pieces/Convert.antt =====
-- The conversion of a value, from behind its width to the field that is printed.
use bios_qemu_tz_arm.Prelude.{
  ℕ, suc, ◌+◌, ◌-◌, ◌%◌, ◌^◌, ◌≡◌, ◌*◌, ◌≤◌, ◌<◌, refl, Bool, true, false, not, Bool-cases, some,
  ◌∷◌, ◌∙◌, ◌==◌, inl, inr, none, List, ◌++◌, ltb, leb, if◌then◌else◌, arith,
}
use bios_qemu_tz_arm.Run.{ok}
use bios_qemu_tz_arm.Printf.Args.{
  word, Flags, Arg, no_flags, Conv, arg_word, arg_dword, arg_bytes, sarg, uarg, extend,
}
use bios_qemu_tz_arm.Printf.Fields.{
  field, strlen, string, number, nosign, hex_number, signed_number, convert,
}
use bios_qemu_tz_arm.Printf.Directive.{long_flag, switch, directive}
use bios_qemu_tz_arm.Printf.Values.{
  Value, limited, least, null, percent, signed, plus, short, signed_quad, unsigned, unsigned_quad,
  char, octal, upper, size, quad, pointer, letters, values, IsValue, decimal,
}
use bios_qemu_tz_arm.Printf.Pieces.Numeral.{
  digits-decimal, digits-octal, digits-upper, digits-hexadecimal,
}
use bios_qemu_tz_arm.Printf.Pieces.Decimal.{decimal-Split}
use bios_qemu_tz_arm.Printf.Pieces.Shape.{conv_of, least_field, number_field, field_of, with_rounds}
use bios_qemu_tz_arm.Printf.Pieces.Limit.{strlen-ok, directive-point, directive-limited}

-- A signed number below twice `half`, as `extend` widens it to 64 bits.
signed_number-field :
    (flags : Flags) (width sign half v u : ℕ)
    → v < 2 * half
    → 2 * half ≤ 2 ^ 64
    → u ≡ (if ltb v half then v else 2 ^ 64 - 2 * half + v)
    → let conv : Conv = record { flags = flags; width = width; prec = none; sign = sign } in
      signed_number conv 100 u
      ≡ ok (
          field (
            number_field
              (record conv { sign = if not (ltb v half) then 45 else sign })
              100
              (decimal (if ltb v half then v else 2 * half - v))))
unfolding signed_number number
signed_number-field flags width sign half v u low high h = elim (Bool-cases (ltb v half)) [
  | inl e ↦
      let e' : leb (2 ^ 63) v ≡ false = ground arith in
      rw (h, e, e', digits-decimal flags.alt v (ground arith)) refl
  | inr e ↦
      let e' : leb (2 ^ 63) (2 ^ 64 - 2 * half + v) ≡ true = ground arith in
      let m : (2 ^ 64 - (2 ^ 64 - 2 * half + v)) % 2 ^ 64 ≡ 2 * half - v = ground arith in
      rw (h, e, e', m, digits-decimal flags.alt (2 * half - v) (omega arith)) refl
]

-- A signed number with a precision.
signed_number-least :
    (flags : Flags) (width sign n w : ℕ)
    → let conv : Conv = record { flags = flags; width = width; prec = some n; sign = sign } in
      signed_number conv 100 (extend 32 (w % 2 ^ 32)) ≡ ok (field (least_field conv n w))
unfolding signed_number number
signed_number-least flags width sign n w =
    let v = w % 2 ^ 32 in
    elim (Bool-cases (ltb v (2 ^ 31))) [
      | inr e ↦
          let e' : leb (2 ^ 63) (2 ^ 64 - 2 ^ 32 + v) ≡ true = ground arith in
          let m : (2 ^ 64 - (2 ^ 64 - 2 ^ 32 + v)) % 2 ^ 64 ≡ 2 ^ 32 - v = ground arith in
          let some_left : (2 ^ 32 - v == 0) ≡ false = ground arith in
          let nonzero : (v == 0) ≡ false = ground arith in
          rw (e, e', m, some_left, nonzero, digits-decimal flags.alt (2 ^ 32 - v) (omega arith))
            refl
      | inl e ↦
          let e' : leb (2 ^ 63) v ≡ false = ground arith in
          elim (Bool-cases (v == 0)) [
            | inr e2 ↦ rw (e, e', e2, digits-decimal flags.alt v (omega arith)) refl
            | inl e2 ↦ elim (Bool-cases (n == 0)) [
              | inl e3 ↦ rw (e, e', e2, e3) refl
              | inr e3 ↦ rw (e, e', e2, e3, digits-decimal flags.alt v (omega arith)) refl
            ]
          ]
    ]

directive-least :
    (fuel ret : ℕ) (lj zp : Bool) (w n u : ℕ) (rest : List ℕ) (more : List Arg)
    → directive (suc fuel) ret 100 (record (conv_of lj zp w) { prec = some n }) rest (word u ∷ more)
      ≡ ok (field (least_field (conv_of lj zp w) n u), rest, more)
unfolding directive switch convert sarg arg_word
directive-least fuel ret lj zp w n u rest more =
    rw (signed_number-least (conv_of lj zp w).flags w 0 n u) refl

-- The conversion of a value takes its argument, and comes to its field.
pub directive-Value :
    (fuel ret : ℕ) (lj zp : Bool) (w : ℕ) (v : Value) (rest : List ℕ) (more : List Arg)
    → IsValue v
    → directive
        (suc (with_rounds (letters v).1 fuel))
        ret
        (letters v).0
        (conv_of lj zp w)
        ((letters v).1 ++ rest)
        (values v ++ more)
      ≡ ok (field (field_of (conv_of lj zp w) v), rest, more)
unfolding directive switch convert long_flag arg_word arg_dword arg_bytes uarg sarg string number
    nosign hex_number signed_number
directive-Value fuel ret lj zp w (Value.string s behind) rest more h =
    rw (strlen-ok s behind h) refl
directive-Value fuel ret lj zp w (limited n s behind) rest more (h, lim) =
    directive-limited fuel ret lj zp w n s behind rest more h lim
directive-Value fuel ret lj zp w (least n u) rest more h =
    directive-point fuel ret (conv_of lj zp w) n h 100 rest (word u ∷ more) refl
    ∙ directive-least (suc (with_rounds (decimal-Split n h).others fuel)) ret lj zp w n u rest more
directive-Value fuel ret lj zp w null rest more h = unfold strlen in refl
directive-Value fuel ret lj zp w percent rest more h = refl
directive-Value fuel ret lj zp w (signed n) rest more h =
    let v = n % 2 ^ 32 in
    rw
      (signed_number-field (conv_of lj zp w).flags w 0 (2 ^ 31) v (extend 32 v) (omega arith)
        (omega arith) refl)
      refl
directive-Value fuel ret lj zp w (plus n) rest more h =
    let v = n % 2 ^ 32 in
    rw
      (signed_number-field (conv_of lj zp w).flags w 43 (2 ^ 31) v (extend 32 v) (omega arith)
        (omega arith) refl)
      refl
directive-Value fuel ret lj zp w (short n) rest more h =
    let v = n % 2 ^ 16 in
    let e : n % 2 ^ 32 % 2 ^ 16 ≡ v = omega arith in
    rw
      (
        e,
        signed_number-field (record no_flags { ladjust = lj; zeropad = zp; shortint = true }) w 0
            (2 ^ 15) v (extend 16 v) (omega arith) (omega arith) refl,
      )
      refl
directive-Value fuel ret lj zp w (signed_quad n) rest more h =
    let v = n % 2 ^ 64 in
    rw
      (signed_number-field (record no_flags { ladjust = lj; zeropad = zp; quadint = true }) w 0
        (2 ^ 63) v v (omega arith) (omega arith) (ground arith))
      refl
directive-Value fuel ret lj zp w (unsigned_quad n) rest more h =
    rw (digits-decimal false (n % 2 ^ 64) (omega arith)) refl
directive-Value fuel ret lj zp w (octal n) rest more h =
    rw (digits-octal (n % 2 ^ 32) (omega arith)) refl
directive-Value fuel ret lj zp w (upper n) rest more h =
    rw (digits-upper false (n % 2 ^ 32) (omega arith)) refl
directive-Value fuel ret lj zp w (unsigned n) rest more h =
    rw (digits-decimal false (n % 2 ^ 32) (omega arith)) refl
directive-Value fuel ret lj zp w (char n) rest more h =
    let e : n % 2 ^ 32 % 256 ≡ n % 256 = omega arith in rw e refl
directive-Value fuel ret lj zp w (Value.hex n) rest more h =
    rw (digits-hexadecimal false (n % 2 ^ 32) (omega arith)) refl
directive-Value fuel ret lj zp w (size n) rest more h =
    rw (digits-hexadecimal true (n % 2 ^ 32) (omega arith)) refl
directive-Value fuel ret lj zp w (quad n) rest more h =
    rw (digits-hexadecimal false (n % 2 ^ 64) (omega arith)) refl
directive-Value fuel ret lj zp w (pointer n) rest more h =
    rw (digits-hexadecimal false (n % 2 ^ 32) (omega arith)) refl
