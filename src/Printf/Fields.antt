-- ===== src/Printf/Fields.antt =====
-- The cases of the switch of `kprintf` in libutils/isoc/snprintf.c that end a conversion: they take an
-- argument and come to the text that is to be padded.
use bios_qemu_tz_arm.Prelude.{
  ℕ, zero, suc, ◌-◌, ◌%◌, ◌^◌, Bool, true, false, ◌&&◌, ◌||◌, not, Option, none, some, List, [],
  ◌∷◌, ◌==◌, leb, if◌then◌else◌,
}
use bios_qemu_tz_arm.Run.{Run, ok, fault, ◌>>=◌}
use bios_qemu_tz_arm.Printf.Digits.{Base, oct, dec, hex, hexdigits, upper_hexdigits, digits}
use bios_qemu_tz_arm.Printf.Args.{Arg, Conv, Flags, arg_bytes, arg_target, arg_word, sarg, uarg}

-- What is to be printed: the text at `cp`, with `dprec` and the last `ch`.
pub record Field : Type 0 where
  pub conv : Conv
  pub dprec : Option ℕ
  pub ch : ℕ
  pub text : List ℕ

-- A value of so many bits stored through a pointer by `%n`.
pub record Stored : Type 0 where
  pub pointer : ℕ
  pub bits : ℕ
  pub value : ℕ

-- How the switch ends: `break`, `continue` behind a store, or `goto done`.
pub data Outcome : Type 0 where
  field : Field → Outcome
  store : Stored → Outcome
  done : Outcome

-- The label `number`.
unfoldable pub number : Conv → Base → List ℕ → ℕ → ℕ → Run Outcome
number conv base xdigs ch u = do
  let flags : Flags = elim conv.prec [
    | none ↦ conv.flags
    | some p ↦ record conv.flags { zeropad = false }
  ]
  let visible : Bool = elim conv.prec [ none ↦ true | some p ↦ not (u == 0) || not (p == 0) ]
  text ← if visible then digits base xdigs conv.flags.alt u else ok []
  ok (
      field
        (record { conv = record conv { flags = flags }; dprec = conv.prec; ch = ch; text = text }))

-- The label `nosign`.
unfoldable pub nosign : Conv → Base → List ℕ → ℕ → ℕ → Run Outcome
nosign conv = number (record conv { sign = 0 })

-- The cases 'X' and 'x', from the label `hex` on.
unfoldable pub hex_number : Conv → List ℕ → ℕ → ℕ → Run Outcome
hex_number conv xdigs ch u =
    let flags = conv.flags in
    nosign
      (record conv {
        flags = record flags { hexprefix = flags.hexprefix || (flags.alt && not (u == 0)) };
      })
      hex xdigs ch u

-- The case 'd'.
unfoldable pub signed_number : Conv → ℕ → ℕ → Run Outcome
signed_number conv ch u =
    if leb (2 ^ 63) u
    then number (record conv { sign = 45 }) dec [] ch ((2 ^ 64 - u) % 2 ^ 64)
    else number conv dec [] ch u

-- The characters before the first NUL; to look for it behind the end of the object is a fault.
unfoldable pub strlen : List ℕ → Run (List ℕ)
strlen [] = fault
strlen (c ∷ s) = if c == 0 then ok [] else (do rest ← strlen s; ok (c ∷ rest))

-- The same within the first `n` characters, as by `memchr`.
unfoldable pub strnlen : ℕ → List ℕ → Run (List ℕ)
strnlen zero s = ok []
strnlen (suc n) [] = fault
strnlen (suc n) (c ∷ s) = if c == 0 then ok [] else (do rest ← strnlen n s; ok (c ∷ rest))

-- "(null)"
abbrev pub null_text : List ℕ
null_text = 40 ∷ 110 ∷ 117 ∷ 108 ∷ 108 ∷ 41 ∷ 0 ∷ []

-- The case 's'.
unfoldable pub string : Conv → ℕ → Option (List ℕ) → Run Outcome
string conv ch cp = do
  let s : List ℕ = elim cp [ none ↦ null_text | some s ↦ s ]
  text ← elim conv.prec [ none ↦ strlen s | some p ↦ strnlen p s ]
  ok (field (record { conv = record conv { sign = 0 }; dprec = some 0; ch = ch; text = text }))

-- The case 'c', and the default.
abbrev pub character : Conv → ℕ → ℕ → Outcome
character conv ch c =
    field (record { conv = record conv { sign = 0 }; dprec = some 0; ch = ch; text = c % 256 ∷ [] })

-- The case 'n'.
unfoldable pub store_count : Flags → ℕ → ℕ → Stored
store_count flags pointer ret =
    let bits =
      if flags.maxint
      then 64
      else if flags.ptrint || flags.sizeint
      then 32
      else if flags.quadint
      then 64
      else if flags.longint
      then 32
      else if flags.shortint
      then 16
      else 32 in
    record { pointer = pointer; bits = bits; value = ret % 2 ^ bits }

-- The cases that end the conversion.
unfoldable pub convert : ℕ → ℕ → Conv → List Arg → Run (Outcome × List Arg)
convert ret ch conv args =
    let long : Conv = record conv { flags = record conv.flags { longint = true } } in
    if ch == 99
    then (do (w, args') ← arg_word args; ok (character conv ch w, args'))
    else if ch == 68
    then (do (u, args') ← sarg long.flags args; out ← signed_number long ch u; ok (out, args'))
    else if (ch == 100) || (ch == 105)
    then (do (u, args') ← sarg conv.flags args; out ← signed_number conv ch u; ok (out, args'))
    else if ch == 110
    then (do (p, args') ← arg_target args; ok (store (store_count conv.flags p ret), args'))
    else if ch == 79
    then (do (u, args') ← uarg long.flags args; out ← nosign long oct [] ch u; ok (out, args'))
    else if ch == 111
    then (do (u, args') ← uarg conv.flags args; out ← nosign conv oct [] ch u; ok (out, args'))
    else if ch == 112
    then (do
      (u, args') ← arg_word args
      let prefixed : Conv = record conv { flags = record conv.flags { hexprefix = true } }
      out ← nosign prefixed hex hexdigits 120 u
      ok (out, args'))
    else if ch == 115
    then (do (s, args') ← arg_bytes args; out ← string conv ch s; ok (out, args'))
    else if ch == 85
    then (do (u, args') ← uarg long.flags args; out ← nosign long dec [] ch u; ok (out, args'))
    else if ch == 117
    then (do (u, args') ← uarg conv.flags args; out ← nosign conv dec [] ch u; ok (out, args'))
    else if ch == 88
    then (do
      (u, args') ← uarg conv.flags args
      out ← hex_number conv upper_hexdigits ch u
      ok (out, args'))
    else if ch == 120
    then (do
      (u, args') ← uarg conv.flags args
      out ← hex_number conv hexdigits ch u
      ok (out, args'))
    else if ch == 0
    then ok (done, args)
    else ok (character conv ch ch, args)
