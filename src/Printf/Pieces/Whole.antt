-- ===== src/Printf/Pieces/Whole.antt =====
-- `kprintf` on the format of a sequence of pieces: it prints their texts.
use mathlib.Core.List.{append_assoc}
use bios_qemu_tz_arm.Prelude.{
  ℕ, zero, suc, ◌+◌, ◌<◌, ◌^◌, ltb, true, ◌≡◌, ◌≢◌, refl, ap, ◌∙◌, false, List, [], ◌∷◌, ◌++◌, ◌==◌,
  length, length-append, arith,
}
use bios_qemu_tz_arm.Run.{ok, ◌>>=◌}
use bios_qemu_tz_arm.Printf.Args.{Arg}
use bios_qemu_tz_arm.Printf.Format.{Printed, put_text, conclude, format_loop, kprintf}
use bios_qemu_tz_arm.Printf.Values.{Value, IsValue, letters, prefix, body, values}
use bios_qemu_tz_arm.Printf.Pieces.{
  Padding, Piece, plain, converted, format, arguments, text, ArePieces, IsPadding, padding_letters,
  padded, effective, piece_format,
}
use bios_qemu_tz_arm.Printf.Pieces.Padded.{put_text-append, put_result-Value}
use bios_qemu_tz_arm.Printf.Pieces.Width.{behind_percent, run_directive, directive-converted}

format-converted :
    (padding : Padding) (v : Value) (pieces : List Piece)
    → format (converted padding v ∷ pieces) ≡ 37 ∷ behind_percent padding v (format pieces)
unfolding format
format-converted padding v pieces =
    ap (λ fmt. 37 ∷ fmt)
      (append_assoc (padding_letters padding) ((letters v).0 ∷ (letters v).1) (format pieces))

-- The text behind a printed one.
abbrev advance_by : {S : Type 0} → (ℕ → S → S) → List ℕ → Printed S → Printed S
advance_by put text p = record p { sink = put_text put text p.sink; ret = p.ret + length text }

module _ {S : Type 0} (put : ℕ → S → S) where
  advance_by-append :
      (text more : List ℕ) (p : Printed S)
      → advance_by put more (advance_by put text p) ≡ advance_by put (text ++ more) p
  advance_by-append text more p =
      let e : p.ret + length text + length more ≡ p.ret + length (text ++ more) =
        omega (arith, length-append text more) in
      rw (e, put_text-append put text more p.sink) refl

  format_loop-percent :
      (fuel : ℕ) (fmt : List ℕ) (args : List Arg) (p : Printed S)
      → format_loop put (suc fuel) (37 ∷ fmt) args p
        ≡ (run_directive p.ret fmt args >>= conclude put (format_loop put fuel) p)
  unfolding format_loop
  format_loop-percent fuel fmt args p = refl

  format_loop-converted :
      (fuel : ℕ) (padding : Padding) (v : Value) (rest : List ℕ) (more : List Arg) (p : Printed S)
      → IsPadding padding
      → IsValue v
      → p.ret + length (padded (effective padding v) (prefix v) (body v)) < 2 ^ 31
      → format_loop put (suc fuel) (37 ∷ behind_percent padding v rest) (values v ++ more) p
        ≡ format_loop put fuel rest more
            (advance_by put (padded (effective padding v) (prefix v) (body v)) p)
  unfolding conclude
  format_loop-converted fuel padding v rest more p hp hv room =
      format_loop-percent fuel (behind_percent padding v rest) (values v ++ more) p
      ∙ ap (λ run. run >>= conclude put (format_loop put fuel) p)
          (directive-converted p.ret padding v rest more hp hv)
      ∙ ap (λ run. run >>= format_loop put fuel rest more) (put_result-Value put padding v p room)

  format_loop-plain :
      (fuel c : ℕ) (rest : List ℕ) (args : List Arg) (p : Printed S)
      → c ≢ 0
      → c ≢ 37
      → p.ret + 1 < 2 ^ 31
      → format_loop put (suc fuel) (c ∷ rest) args p
        ≡ format_loop put fuel rest args (advance_by put (c ∷ []) p)
  unfolding format_loop put_text
  format_loop-plain fuel c rest args p h h' room =
      let fits : ltb (p.ret + 1) (2 ^ 31) ≡ true = ground (arith, room) in
      let e : (c == 0) ≡ false = ground (arith, h) in
      let e' : (c == 37) ≡ false = ground (arith, h') in rw (format_loop, e, e', fits) refl

  format_loop-end :
      (fuel : ℕ) (args : List Arg) (p : Printed S)
      → format_loop put (suc fuel) [] args p ≡ ok (advance_by put [] p)
  unfolding format_loop put_text
  format_loop-end fuel args p = let e : p.ret + 0 ≡ p.ret = omega arith in rw e refl

  format_loop-Pieces :
      (fuel : ℕ) (pieces : List Piece) (p : Printed S)
      → length (format pieces) < fuel
      → p.ret + length (text pieces) < 2 ^ 31
      → ArePieces pieces
      → format_loop put fuel (format pieces) (arguments pieces) p
        ≡ ok (advance_by put (text pieces) p)
  unfolding format arguments text
  format_loop-Pieces zero pieces p room fits h = absurd (omega arith)
  format_loop-Pieces (suc fuel) [] p room fits h = format_loop-end fuel (arguments []) p
  format_loop-Pieces (suc fuel) (plain c ∷ pieces) p room fits ((h, h'), rest) =
      format_loop-plain fuel c (format pieces) (arguments pieces) p h h' (omega (arith, fits))
      ∙ format_loop-Pieces fuel pieces (advance_by put (c ∷ []) p) (omega arith)
          (omega (arith, fits)) rest
      ∙ ap ok (advance_by-append (c ∷ []) (text pieces) p)
  format_loop-Pieces (suc fuel) (converted padding v ∷ pieces) p room fits ((hp, hv), rest) =
      let own = padded (effective padding v) (prefix v) (body v) in
      ap (λ fmt. format_loop put (suc fuel) fmt (values v ++ arguments pieces) p)
        (format-converted padding v pieces)
      ∙ format_loop-converted fuel padding v (format pieces) (arguments pieces) p hp hv
          (omega (arith, fits, length-append own (text pieces)))
      ∙ format_loop-Pieces fuel pieces (advance_by put own p)
          (omega (arith, room, length-append (piece_format (converted padding v)) (format pieces)))
          (omega (arith, fits, length-append own (text pieces))) rest
      ∙ ap ok (advance_by-append own (text pieces) p)

  -- Take a sequence of pieces: characters other than the NUL and `%`, and conversions `%s` and `%d` with or
  -- without a precision, `%%`, `%+d`, `%hd`, `%lld`, `%u`, `%llu`, `%c`, `%o`, `%x`, `%X`, `%#zx`, `%llx` and
  -- `%p`, with no padding or with a width that is a positive `int`, of blanks in front or behind or of
  -- zeros; a precision is an `int`. A string is NULL, or it ends with a NUL, or its precision ends it. The whole text is shorter than 2 ^ 31 characters. For any sink, `kprintf` on
  -- the format and the arguments of the pieces returns: it has put the texts of the pieces to the sink,
  -- character by character in their order, its result is their length, and nothing was stored.
  pub kprintf-Pieces :
      (pieces : List Piece) (s : S)
      → ArePieces pieces
      → length (text pieces) < 2 ^ 31
      → kprintf put (format pieces) (arguments pieces) s
        ≡ ok (record {
          sink = put_text put (text pieces) s;
          ret = length (text pieces);
          stored = [];
        })
  unfolding kprintf
  kprintf-Pieces pieces s h fits =
      let start : Printed S = record { sink = s; ret = 0; stored = [] } in
      let e : 0 + length (text pieces) ≡ length (text pieces) = omega arith in
      format_loop-Pieces (suc (length (format pieces))) pieces start (omega arith)
        (omega (arith, fits)) h
      ∙ (rw e refl)
