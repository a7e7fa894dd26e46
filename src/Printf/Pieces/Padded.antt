-- ===== src/Printf/Pieces/Padded.antt =====
-- The padding of `kprintf` on any field: for any sink, the characters of the
-- padded text, in their order.
use bios_qemu_tz_arm.Prelude.{
  ℕ, zero, suc, ◌+◌, ◌-◌, ◌≡◌, ◌^◌, ◌<◌, refl, sym, ap, ◌∙◌, ◌&&◌, Bool, true, false, not,
  Bool-cases, inl, inr, List, [], ◌∷◌, ◌++◌, ◌==◌, ltb, length, length-append, replicate,
  length-replicate, if◌then◌else◌, arith,
}
use bios_qemu_tz_arm.Run.{ok}
use bios_qemu_tz_arm.Printf.Args.{Conv}
use bios_qemu_tz_arm.Printf.Fields.{Field}
use bios_qemu_tz_arm.Printf.Format.{
  Printed, or_zero, expanded, real_size, put_n, put_text, put_field, put_result,
}
use bios_qemu_tz_arm.Printf.Values.{
  Value, null, limited, least, percent, signed, plus, short, signed_quad, unsigned_quad, octal,
  upper, unsigned, char, hex, size, quad, pointer, prefix, body,
}
use bios_qemu_tz_arm.Printf.Pieces.{
  Padding, unpadded, blanks, left, zeros, keeps_zeros, effective, padded,
}
use bios_qemu_tz_arm.Printf.Pieces.Shape.{conv_of, field_of}

abbrev pub padding_conv : Padding → Conv
padding_conv unpadded = conv_of false false 0
padding_conv (blanks w) = conv_of false false w
padding_conv (left w) = conv_of true false w
padding_conv (zeros w) = conv_of false true w

-- What stands in front of the text.
abbrev front : Field → List ℕ
front f =
    if not (f.conv.sign == 0)
    then f.conv.sign ∷ []
    else if f.conv.flags.hexprefix
    then 48 ∷ f.ch ∷ []
    else []

-- The text, filled up by the two flags.
abbrev filled : Bool → Bool → ℕ → List ℕ → List ℕ → List ℕ
filled true zeropad w pre text = (pre ++ text) ++ replicate (w - length (pre ++ text)) 32
filled false true w pre text = pre ++ replicate (w - length (pre ++ text)) 48 ++ text
filled false false w pre text = replicate (w - length (pre ++ text)) 32 ++ pre ++ text

-- The text, with the zeros of its precision.
abbrev shown : Field → List ℕ
shown f = replicate (or_zero f.dprec - length f.text) 48 ++ f.text

expanded-front : (f : Field) → expanded f ≡ length (front f ++ shown f)
unfolding expanded
expanded-front f =
    let size =
      length-append (replicate (or_zero f.dprec - length f.text) 48) f.text
      ∙ ap (λ n. n + length f.text) (length-replicate (or_zero f.dprec - length f.text) 48) in
    elim (Bool-cases (f.conv.sign == 0)) [
      | inr z ↦ rw (expanded, z) (ground (arith, size))
      | inl z ↦ elim (Bool-cases f.conv.flags.hexprefix) [
        | inl x ↦ rw (expanded, z, x) (ground (arith, size))
        | inr x ↦ rw (expanded, z, x) (ground (arith, size))
      ]
    ]

-- What the field of a value has in front of its text.
front-Value : (lj zp : Bool) (w : ℕ) (v : Value) → front (field_of (conv_of lj zp w) v) ≡ prefix v
front-Value lj zp w (Value.string s behind) = refl
front-Value lj zp w (limited n s behind) = refl
front-Value lj zp w (least n u) = ground arith
front-Value lj zp w null = refl
front-Value lj zp w (signed n) = ground arith
front-Value lj zp w percent = refl
front-Value lj zp w (plus n) = ground arith
front-Value lj zp w (short n) = ground arith
front-Value lj zp w (signed_quad n) = ground arith
front-Value lj zp w (unsigned n) = refl
front-Value lj zp w (unsigned_quad n) = refl
front-Value lj zp w (octal n) = refl
front-Value lj zp w (upper n) = refl
front-Value lj zp w (char n) = refl
front-Value lj zp w (hex n) = refl
front-Value lj zp w (size n) = ground arith
front-Value lj zp w (quad n) = refl
front-Value lj zp w (pointer n) = refl

no_zeros : (text : List ℕ) → replicate (0 - length text) 48 ++ text ≡ text
no_zeros text = let e : 0 - length text ≡ 0 = omega arith in rw e refl

&&-true : (b : Bool) → b && true ≡ b
&&-true true = refl
&&-true false = refl

&&-false : (b : Bool) → b && false ≡ false
&&-false true = refl
&&-false false = refl

-- The rest of the field, on all the values.
abbrev IsFieldOf : Bool → Bool → ℕ → Value → Field → Type 0
IsFieldOf lj zp w v f =
    (shown f ≡ body v)
    × (f.conv.flags.ladjust ≡ lj)
    × (f.conv.flags.zeropad ≡ zp && keeps_zeros v)
    × (f.conv.width ≡ w)

field_of-IsFieldOf :
    (lj zp : Bool) (w : ℕ) (v : Value) → IsFieldOf lj zp w v (field_of (conv_of lj zp w) v)
field_of-IsFieldOf lj zp w (Value.string s behind) =
    (no_zeros (body (Value.string s behind)), refl, sym (&&-true zp), refl)
field_of-IsFieldOf lj zp w (limited n s behind) =
    (no_zeros (body (limited n s behind)), refl, sym (&&-true zp), refl)
field_of-IsFieldOf lj zp w (least n u) = (refl, refl, sym (&&-false zp), refl)
field_of-IsFieldOf lj zp w null = (no_zeros (body null), refl, sym (&&-true zp), refl)
field_of-IsFieldOf lj zp w percent = (no_zeros (body percent), refl, sym (&&-true zp), refl)
field_of-IsFieldOf lj zp w (plus n) = (no_zeros (body (plus n)), refl, sym (&&-true zp), refl)
field_of-IsFieldOf lj zp w (short n) = (no_zeros (body (short n)), refl, sym (&&-true zp), refl)
field_of-IsFieldOf lj zp w (signed_quad n) =
    (no_zeros (body (signed_quad n)), refl, sym (&&-true zp), refl)
field_of-IsFieldOf lj zp w (unsigned_quad n) =
    (no_zeros (body (unsigned_quad n)), refl, sym (&&-true zp), refl)
field_of-IsFieldOf lj zp w (octal n) = (no_zeros (body (octal n)), refl, sym (&&-true zp), refl)
field_of-IsFieldOf lj zp w (upper n) = (no_zeros (body (upper n)), refl, sym (&&-true zp), refl)
field_of-IsFieldOf lj zp w (signed n) = (no_zeros (body (signed n)), refl, sym (&&-true zp), refl)
field_of-IsFieldOf lj zp w (unsigned n) =
    (no_zeros (body (unsigned n)), refl, sym (&&-true zp), refl)
field_of-IsFieldOf lj zp w (char n) = (no_zeros (body (char n)), refl, sym (&&-true zp), refl)
field_of-IsFieldOf lj zp w (hex n) = (no_zeros (body (hex n)), refl, sym (&&-true zp), refl)
field_of-IsFieldOf lj zp w (size n) = (no_zeros (body (size n)), refl, sym (&&-true zp), refl)
field_of-IsFieldOf lj zp w (quad n) = (no_zeros (body (quad n)), refl, sym (&&-true zp), refl)
field_of-IsFieldOf lj zp w (pointer n) = (no_zeros (body (pointer n)), refl, sym (&&-true zp), refl)

length-filled :
    (lj zp : Bool) (w : ℕ) (pre text : List ℕ)
    → (if ltb (length (pre ++ text)) w then w else length (pre ++ text))
      ≡ length (filled lj zp w pre text)
length-filled true zp w pre text = simp (length-append, length-replicate) (ground arith)
length-filled false true w pre text = simp (length-append, length-replicate) (ground arith)
length-filled false false w pre text = simp (length-append, length-replicate) (ground arith)

module _ {S : Type 0} (put : ℕ → S → S) where
  pub put_text-append :
      (text more : List ℕ) (s : S)
      → put_text put (text ++ more) s ≡ put_text put more (put_text put text s)
  unfolding put_text
  put_text-append [] more s = refl
  put_text-append (c ∷ text) more s = put_text-append text more (put c s)

  put_n-replicate : (n c : ℕ) (s : S) → put_n put n c s ≡ put_text put (replicate n c) s
  unfolding put_n put_text
  put_n-replicate zero c s = refl
  put_n-replicate (suc n) c s = put_n-replicate n c (put c s)

  put_front :
      (f : Field) (s : S)
      → (if not (f.conv.sign == 0)
          then put f.conv.sign s
          else if f.conv.flags.hexprefix
          then put f.ch (put 48 s)
          else s)
        ≡ put_text put (front f) s
  unfolding put_text
  put_front f s = ground arith

  put_field-filled :
      (f : Field) (s : S)
      → put_field put f s
        ≡ put_text put
            (filled f.conv.flags.ladjust f.conv.flags.zeropad f.conv.width (front f) (shown f))
            s
  unfolding put_field put_n
  put_field-filled f s = elim (Bool-cases f.conv.flags.ladjust) [
    | inl l ↦ rw (expanded-front f, l, put_front f s) (simp (put_n-replicate, put_text-append))
    | inr l ↦ elim (Bool-cases f.conv.flags.zeropad) [
      | inl z ↦ rw (expanded-front f, l, z, put_front f s) (simp (put_n-replicate, put_text-append))
      | inr z ↦
          let pad = f.conv.width - length (front f ++ shown f) in
          rw (expanded-front f, l, z, put_front f (put_n put pad 32 s))
            (simp (put_n-replicate, put_text-append))
    ]
  ]

  -- A field that fits.
  put_result-room :
      (f : Field) (p : Printed S) (width : ℕ)
      → width ≡ (if ltb (expanded f) f.conv.width then f.conv.width else expanded f)
      → p.ret + width < 2 ^ 31
      → put_result put f p ≡ ok (record p { sink = put_field put f p.sink; ret = p.ret + width })
  unfolding put_result real_size
  put_result-room f p width is room =
      let whole =
        expanded-front f
        ∙ length-append (front f) (shown f)
        ∙ ap (λ n. length (front f) + n)
            (length-append (replicate (or_zero f.dprec - length f.text) 48) f.text) in
      let fits : ltb (length f.text) (2 ^ 31) ≡ true = ground (arith, whole, is, room) in
      let fits' : ltb (expanded f) (2 ^ 31) ≡ true = ground (arith, is, room) in
      let fits'' : ltb (p.ret + width) (2 ^ 31) ≡ true = ground (arith, room) in
      rw (fits, fits', sym is, fits'') refl

  put_result-filled :
      (lj zp : Bool) (w : ℕ) (v : Value) (p : Printed S)
      → p.ret + length (filled lj (zp && keeps_zeros v) w (prefix v) (body v)) < 2 ^ 31
      → put_result put (field_of (conv_of lj zp w) v) p
        ≡ ok (record p {
          sink = put_text put (filled lj (zp && keeps_zeros v) w (prefix v) (body v)) p.sink;
          ret = p.ret + length (filled lj (zp && keeps_zeros v) w (prefix v) (body v));
        })
  put_result-filled lj zp w v p room =
      let f = field_of (conv_of lj zp w) v in
      let (same_text, same_lj, same_zp, same_width) = field_of-IsFieldOf lj zp w v in
      let width = length (filled lj (zp && keeps_zeros v) w (prefix v) (body v)) in
      let is : width ≡ (if ltb (expanded f) f.conv.width then f.conv.width else expanded f) =
        rw (expanded-front f, front-Value lj zp w v, same_text, same_width)
          (sym (length-filled lj (zp && keeps_zeros v) w (prefix v) (body v))) in
      put_result-room f p width is room
      ∙ (rw
          (
            put_field-filled f p.sink,
            front-Value lj zp w v,
            same_text,
            same_lj,
            same_zp,
            same_width,
          )
          refl)

  -- The field of a value in the sink, and `ret` with its width.
  pub put_result-Value :
      (padding : Padding) (v : Value) (p : Printed S)
      → p.ret + length (padded (effective padding v) (prefix v) (body v)) < 2 ^ 31
      → put_result put (field_of (padding_conv padding) v) p
        ≡ ok (record p {
          sink = put_text put (padded (effective padding v) (prefix v) (body v)) p.sink;
          ret = p.ret + length (padded (effective padding v) (prefix v) (body v));
        })
  put_result-Value unpadded v p room =
      let e : 0 - length (prefix v ++ body v) ≡ 0 = omega arith in
      rw e at (put_result-filled false false 0 v p (rw e room))
  put_result-Value (blanks w) v p room = put_result-filled false false w v p room
  put_result-Value (left w) v p room = put_result-filled true false w v p room
  put_result-Value (zeros w) v p room = elim (Bool-cases (keeps_zeros v)) [
    | inl e ↦ rw e (rw e at (put_result-filled false true w v p (rw e (rw e at room))))
    | inr e ↦ rw e (rw e at (put_result-filled false true w v p (rw e (rw e at room))))
  ]
