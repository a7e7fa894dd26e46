-- ===== src/Printf/Pieces/Limit.antt =====
-- The strings of `%s`, up to their NUL or to the precision.
use mathlib.Core.List.{append_assoc}
use bios_qemu_tz_arm.Prelude.{
  ℕ, zero, suc, ap, ◌∙◌, ◌^◌, ◌≡◌, ◌<◌, refl, Bool, false, inl, inr, some, List, [], ◌∷◌, ◌++◌,
  ◌==◌, arith,
}
use bios_qemu_tz_arm.Run.{ok}
use bios_qemu_tz_arm.Printf.Args.{is_digit, Arg, bytes, Conv, arg_bytes}
use bios_qemu_tz_arm.Printf.Fields.{strnlen, field, strlen, string, convert}
use bios_qemu_tz_arm.Printf.Directive.{precision, reswitch, switch, directive}
use bios_qemu_tz_arm.Printf.Values.{IsLimited, has_nul, decimal}
use bios_qemu_tz_arm.Printf.Pieces.Decimal.{Split, decimal-Split, parse_int-Split}
use bios_qemu_tz_arm.Printf.Pieces.Shape.{conv_of, text_field, with_rounds}

pub strlen-ok : (s behind : List ℕ) → has_nul s ≡ false → strlen (s ++ 0 ∷ behind) ≡ ok s
unfolding strlen
strlen-ok [] behind h = refl
strlen-ok (c ∷ s) behind h =
    let e : (c == 0) ≡ false = ground (arith, h) in
    rw (strlen, e, strlen-ok s behind (ground (arith, h))) refl

strnlen-ok : (n : ℕ) (s behind : List ℕ) → IsLimited n s behind → strnlen n (s ++ behind) ≡ ok s
unfolding strnlen
strnlen-ok zero [] behind h = refl
strnlen-ok (suc n) [] behind (h, inl e) = absurd (omega (arith, e))
strnlen-ok (suc n) [] behind (h, inr (below, more, e)) = rw (e, strnlen) refl
strnlen-ok zero (c ∷ s) behind (h, inl e) = absurd (omega (arith, e))
strnlen-ok zero (c ∷ s) behind (h, inr (below, more, e)) = absurd (omega (arith, below))
strnlen-ok (suc n) (c ∷ s) behind (h, ends) =
    let e : (c == 0) ≡ false = ground (arith, h) in
    let none_behind : has_nul s ≡ false = ground (arith, h) in
    let ends' : IsLimited n s behind = (
      none_behind,
      elim ends [
        | inl full ↦ inl (omega (arith, full))
        | inr (below, more, at_nul) ↦ inr (omega (arith, below), more, at_nul)
      ],
    ) in
    rw (strnlen, e, strnlen-ok n s behind ends') refl

-- The precision of a string, from the `.` on.
switch-precision :
    (ret : ℕ) (conv : Conv) (n : ℕ) (split : Split n) (c : ℕ) (rest : List ℕ) (args : List Arg)
    → n < 2 ^ 31
    → is_digit c ≡ false
    → switch ret 46 conv (split.first ∷ (split.others ++ c ∷ rest)) args
      ≡ ok (reswitch c (record conv { prec = some n }) rest args)
unfolding switch precision
switch-precision ret conv n split c rest args h stop =
    let no_star : (split.first == 42) ≡ false = ground (arith, split.digits.0) in
    rw (no_star, parse_int-Split n split c rest h stop) refl

with_rounds-last :
    (s : List ℕ) (c fuel : ℕ) → with_rounds (s ++ c ∷ []) fuel ≡ suc (with_rounds s fuel)
with_rounds-last [] c fuel = refl
with_rounds-last (d ∷ s) c fuel = ap suc (with_rounds-last s c fuel)

directive-precision :
    (fuel ret : ℕ) (conv : Conv) (n : ℕ) (split : Split n) (c : ℕ) (rest : List ℕ) (args : List Arg)
    → n < 2 ^ 31
    → is_digit c ≡ false
    → directive (suc fuel) ret 46 conv (split.first ∷ (split.others ++ c ∷ rest)) args
      ≡ directive fuel ret c (record conv { prec = some n }) rest args
unfolding directive
directive-precision fuel ret conv n split c rest args h stop =
    rw (switch-precision ret conv n split c rest args h stop) refl

-- A conversion with a precision, from the `.` to the character behind the number.
pub directive-point :
    (fuel ret : ℕ) (conv : Conv) (n : ℕ) (h : n < 2 ^ 31) (c : ℕ) (rest : List ℕ) (args : List Arg)
    → is_digit c ≡ false
    → directive
        (suc (with_rounds (decimal n ++ c ∷ []) fuel))
        ret
        46
        conv
        ((decimal n ++ c ∷ []) ++ rest)
        args
      ≡ directive
          (suc (suc (with_rounds (decimal-Split n h).others fuel)))
          ret
          c
          (record conv { prec = some n })
          rest
          args
directive-point fuel ret conv n h c rest args stop =
    let split = decimal-Split n h in
    ap
      (λ text.
        directive (suc (with_rounds (text ++ c ∷ []) fuel)) ret 46 conv ((text ++ c ∷ []) ++ rest)
          args)
      split.splits
    ∙ ap
        (λ n'.
          directive (suc (suc n')) ret 46 conv (split.first ∷ ((split.others ++ c ∷ []) ++ rest))
            args)
        (with_rounds-last split.others c fuel)
    ∙ ap
        (λ fmt.
          directive (suc (suc (suc (with_rounds split.others fuel)))) ret 46 conv
            (split.first ∷ fmt) args)
        (append_assoc split.others (c ∷ []) rest)
    ∙ directive-precision (suc (suc (with_rounds split.others fuel))) ret conv n split c rest args h
        stop

directive-cut :
    (fuel ret : ℕ) (conv : Conv) (n : ℕ) (s behind rest : List ℕ) (more : List Arg)
    → IsLimited n s behind
    → directive
        (suc fuel)
        ret
        115
        (record conv { prec = some n; sign = 0 })
        rest
        (bytes (some (s ++ behind)) ∷ more)
      ≡ ok (field (text_field (record conv { prec = some n; sign = 0 }) 115 s), rest, more)
unfolding directive switch convert arg_bytes string
directive-cut fuel ret conv n s behind rest more h = rw (strnlen-ok n s behind h) refl

pub directive-limited :
    (fuel ret : ℕ) (lj zp : Bool) (w n : ℕ) (s behind rest : List ℕ) (more : List Arg)
    → n < 2 ^ 31
    → IsLimited n s behind
    → directive
        (suc (with_rounds (decimal n ++ 115 ∷ []) fuel))
        ret
        46
        (conv_of lj zp w)
        ((decimal n ++ 115 ∷ []) ++ rest)
        (bytes (some (s ++ behind)) ∷ more)
      ≡ ok (field (text_field (record (conv_of lj zp w) { prec = some n }) 115 s), rest, more)
directive-limited fuel ret lj zp w n s behind rest more h lim =
    directive-point fuel ret (conv_of lj zp w) n h 115 rest (bytes (some (s ++ behind)) ∷ more) refl
    ∙ directive-cut (suc (with_rounds (decimal-Split n h).others fuel)) ret (conv_of lj zp w) n s
        behind rest more lim
