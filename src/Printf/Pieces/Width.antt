-- ===== src/Printf/Pieces/Width.antt =====
-- A conversion of `kprintf` from behind the `%`: the padding, and the value behind it.
use bios_qemu_tz_arm.Prelude.{
  ℕ, suc, ◌+◌, ◌≤◌, ◌≡◌, refl, sym, ap, ◌∙◌, Bool, true, false, List, [], ◌∷◌, ◌++◌, ◌==◌, length,
  arith,
}
use bios_qemu_tz_arm.Run.{Run, ok}
use bios_qemu_tz_arm.Printf.Args.{Arg, Conv, fresh, next_char, is_digit}
use bios_qemu_tz_arm.Printf.Fields.{Outcome, field}
use bios_qemu_tz_arm.Printf.Directive.{reswitch, parse_int, switch, directive}
use bios_qemu_tz_arm.Printf.Values.{
  Value, null, limited, least, percent, plus, short, signed_quad, unsigned_quad, octal, upper,
  signed, unsigned, char, hex, size, quad, pointer, letters, values, IsValue,
}
use bios_qemu_tz_arm.Printf.Pieces.{
  Padding, unpadded, blanks, left, zeros, IsPadding, IsWidth, padding_letters,
}
use bios_qemu_tz_arm.Printf.Pieces.Decimal.{Leading-Split, decimal-Leading, parse_int-Split}
use bios_qemu_tz_arm.Printf.Pieces.Shape.{conv_of, field_of, with_rounds}
use bios_qemu_tz_arm.Printf.Pieces.Convert.{directive-Value}
use bios_qemu_tz_arm.Printf.Pieces.Padded.{padding_conv}

-- A width in the switch.
switch-width :
    (ret d : ℕ) (conv : Conv) (fmt : List ℕ) (args : List Arg) (w c : ℕ) (rest : List ℕ)
    → 49 ≤ d
    → d ≤ 57
    → parse_int 0 d fmt ≡ ok (w, c, rest)
    → switch ret d conv fmt args ≡ ok (reswitch c (record conv { width = w }) rest args)
unfolding switch
switch-width ret d conv fmt args w c rest low high e =
    let e1 : (d == 32) ≡ false = ground arith in
    let e2 : (d == 35) ≡ false = ground arith in
    let e3 : (d == 42) ≡ false = ground arith in
    let e4 : (d == 45) ≡ false = ground arith in
    let e5 : (d == 43) ≡ false = ground arith in
    let e6 : (d == 46) ≡ false = ground arith in
    let e7 : (d == 48) ≡ false = ground arith in
    let e8 : is_digit d ≡ true = ground arith in rw (switch, e1, e2, e3, e4, e5, e6, e7, e8, e) refl

directive-width :
    (fuel ret : ℕ) (conv : Conv) (w : ℕ) (h : IsWidth w) (c : ℕ) (rest : List ℕ) (args : List Arg)
    → is_digit c ≡ false
    → let lead = decimal-Leading w h in
      directive (suc fuel) ret lead.first conv (lead.others ++ c ∷ rest) args
      ≡ directive fuel ret c (record conv { width = w }) rest args
unfolding directive
directive-width fuel ret conv w h c rest args stop =
    let lead = decimal-Leading w h in
    rw
      (switch-width ret lead.first conv (lead.others ++ c ∷ rest) args w c rest lead.positive
        lead.small (parse_int-Split w (Leading-Split w lead) c rest h.1 stop))
      refl

letters-first : (v : Value) → is_digit (letters v).0 ≡ false
letters-first (Value.string s behind) = refl
letters-first (limited n s behind) = refl
letters-first (least n w) = refl
letters-first null = refl
letters-first percent = refl
letters-first (plus w) = refl
letters-first (short w) = refl
letters-first (signed_quad w) = refl
letters-first (unsigned_quad w) = refl
letters-first (octal w) = refl
letters-first (upper w) = refl
letters-first (signed w) = refl
letters-first (unsigned w) = refl
letters-first (char w) = refl
letters-first (hex w) = refl
letters-first (size w) = refl
letters-first (quad w) = refl
letters-first (pointer w) = refl

with_rounds-length : (s rest : List ℕ) → length (s ++ rest) ≡ with_rounds s (length rest)
with_rounds-length [] rest = refl
with_rounds-length (c ∷ s) rest = ap suc (with_rounds-length s rest)

with_rounds-suc : (s : List ℕ) (n : ℕ) → with_rounds s (suc n) ≡ suc (with_rounds s n)
with_rounds-suc [] n = refl
with_rounds-suc (c ∷ s) n = ap suc (with_rounds-suc s n)

-- The rounds that a width leaves for what stands behind it.
rounds_behind :
    (others : List ℕ) (c : ℕ) (s rest : List ℕ)
    → length (others ++ c ∷ (s ++ rest)) ≡ suc (with_rounds s (length others + length rest))
rounds_behind [] c s rest = ap suc (with_rounds-length s rest ∙ ap (with_rounds s) (omega arith))
rounds_behind (d ∷ others) c s rest =
    let moved : suc (length others + length rest) ≡ suc (length others) + length rest =
      omega arith in
    ap suc (
      rounds_behind others c s rest
      ∙ sym (with_rounds-suc s (length others + length rest))
      ∙ ap (with_rounds s) moved)

-- A conversion from its width on.
directive-from_width :
    (ret : ℕ) (lj zp : Bool) (w : ℕ) (h : IsWidth w) (v : Value) (rest : List ℕ) (more : List Arg)
    → IsValue v
    → let fmt = (decimal-Leading w h).others ++ (letters v).0 ∷ ((letters v).1 ++ rest) in
      directive
        (suc (suc (length fmt)))
        ret
        (decimal-Leading w h).first
        (conv_of lj zp 0)
        fmt
        (values v ++ more)
      ≡ ok (field (field_of (conv_of lj zp w) v), rest, more)
directive-from_width ret lj zp w h v rest more hv =
    let lead = decimal-Leading w h in
    let (c, s) = letters v in
    let fmt = lead.others ++ c ∷ (s ++ rest) in
    let left = length lead.others + length rest in
    ap (λ n. directive (suc (suc n)) ret lead.first (conv_of lj zp 0) fmt (values v ++ more))
      (rounds_behind lead.others c s rest ∙ sym (with_rounds-suc s left))
    ∙ directive-width (suc (with_rounds s (suc left))) ret (conv_of lj zp 0) w h c (s ++ rest)
        (values v ++ more) (letters-first v)
    ∙ directive-Value (suc left) ret lj zp w v rest more hv

-- The flags `-` and `0`.
directive-minus :
    (n ret c : ℕ) (fmt : List ℕ) (args : List Arg)
    → directive (suc n) ret 45 fresh (c ∷ fmt) args
      ≡ directive n ret c (conv_of true false 0) fmt args
unfolding directive switch
directive-minus n ret c fmt args = refl

directive-zero :
    (n ret c : ℕ) (fmt : List ℕ) (args : List Arg)
    → directive (suc n) ret 48 fresh (c ∷ fmt) args
      ≡ directive n ret c (conv_of false true 0) fmt args
unfolding directive switch
directive-zero n ret c fmt args = refl

-- The letters of a conversion, with more of the format behind them.
abbrev pub behind_percent : Padding → Value → List ℕ → List ℕ
behind_percent padding v rest = padding_letters padding ++ (letters v).0 ∷ ((letters v).1 ++ rest)

-- A run of the conversion that starts with the first character of a text.
abbrev pub run_directive : ℕ → List ℕ → List Arg → Run (Outcome × List ℕ × List Arg)
run_directive ret text args =
    let (ch, fmt) = next_char text in directive (suc (length text)) ret ch fresh fmt args

-- A conversion from behind the `%` on takes as many characters and comes to its field.
pub directive-converted :
    (ret : ℕ) (padding : Padding) (v : Value) (rest : List ℕ) (more : List Arg)
    → IsPadding padding
    → IsValue v
    → run_directive ret (behind_percent padding v rest) (values v ++ more)
      ≡ ok (field (field_of (padding_conv padding) v), rest, more)
directive-converted ret unpadded v rest more hp hv =
    ap (λ n. directive (suc n) ret (letters v).0 fresh ((letters v).1 ++ rest) (values v ++ more))
      (ap suc (with_rounds-length (letters v).1 rest)
        ∙ sym (with_rounds-suc (letters v).1 (length rest)))
    ∙ directive-Value (suc (length rest)) ret false false 0 v rest more hv
directive-converted ret (blanks w) v rest more hp hv =
    let lead = decimal-Leading w hp in
    let (c, s) = letters v in
    ap (λ text. run_directive ret (text ++ c ∷ (s ++ rest)) (values v ++ more)) lead.splits
    ∙ directive-from_width ret false false w hp v rest more hv
directive-converted ret (left w) v rest more hp hv =
    let lead = decimal-Leading w hp in
    let (c, s) = letters v in
    let fmt = lead.others ++ c ∷ (s ++ rest) in
    ap (λ text. run_directive ret (45 ∷ text ++ c ∷ (s ++ rest)) (values v ++ more)) lead.splits
    ∙ directive-minus (suc (suc (length fmt))) ret lead.first fmt (values v ++ more)
    ∙ directive-from_width ret true false w hp v rest more hv
directive-converted ret (zeros w) v rest more hp hv =
    let lead = decimal-Leading w hp in
    let (c, s) = letters v in
    let fmt = lead.others ++ c ∷ (s ++ rest) in
    ap (λ text. run_directive ret (48 ∷ text ++ c ∷ (s ++ rest)) (values v ++ more)) lead.splits
    ∙ directive-zero (suc (suc (length fmt))) ret lead.first fmt (values v ++ more)
    ∙ directive-from_width ret false true w hp v rest more hv
