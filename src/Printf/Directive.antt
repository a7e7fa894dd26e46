-- ===== src/Printf/Directive.antt =====
-- A conversion of the format: from behind the `%` to the text that is to be padded. This is the part
-- of `kprintf` in libutils/isoc/snprintf.c from the label `rflag` to the end of the `switch (ch)`; Fields
-- has the cases that end it. An `int` that overflows is a fault: C leaves it undefined. Each round of
-- the loop takes a character of the format, so one more than its length is enough.
use bios_qemu_tz_arm.Prelude.{
  ℕ, zero, suc, ◌+◌, ◌-◌, ◌*◌, ◌^◌, true, false, none, some, List, [], ◌∷◌, ◌==◌, ltb,
  if◌then◌else◌,
}
use bios_qemu_tz_arm.Run.{Run, ok, out_of_fuel, ◌>>=◌}
use bios_qemu_tz_arm.Printf.Args.{Arg, Conv, Flags, arg_word, int, is_digit, next_char}
use bios_qemu_tz_arm.Printf.Fields.{Outcome, convert}

-- n = 10 * n + to_digit(ch), as long as `ch` is a digit. The result has the first other character.
unfoldable pub parse_int : ℕ → ℕ → List ℕ → Run (ℕ × ℕ × List ℕ)
parse_int n ch [] =
    if is_digit ch then (do n' ← int (10 * n + (ch - 48)); ok (n', 0, [])) else ok (n, ch, [])
parse_int n ch (ch' ∷ fmt) = elim (is_digit ch) [
  | true ↦ do n' ← int (10 * n + (ch - 48)); parse_int n' ch' fmt
  | false ↦ ok (n, ch, ch' ∷ fmt)
]

-- Where the switch goes: `goto rflag`, `goto reswitch`, or out of it.
pub data Step : Type 0 where
  rflag : Conv → List ℕ → List Arg → Step
  reswitch : ℕ → Conv → List ℕ → List Arg → Step
  leave : Outcome → List ℕ → List Arg → Step

-- The case '*'. A negative width is its amount and `-`.
unfoldable pub star_width : Conv → List ℕ → List Arg → Run Step
star_width conv fmt args = do
  (w, args') ← arg_word args
  elim (ltb w (2 ^ 31)) [
    | true ↦ ok (rflag (record conv { width = w }) fmt args')
    | false ↦ do
      width ← int (2 ^ 32 - w)
      let left : Flags = record conv.flags { ladjust = true }
      ok (rflag (record conv { width = width; flags = left }) fmt args')
  ]

-- The case '.'
unfoldable pub precision : Conv → List ℕ → List Arg → Run Step
precision conv fmt args =
    let (ch, fmt') = next_char fmt in
    if ch == 42
    then (do
      (w, args') ← arg_word args
      ok (rflag (record conv { prec = if ltb w (2 ^ 31) then some w else none }) fmt' args'))
    else do
      (n, ch', fmt'') ← parse_int 0 ch fmt'
      ok (reswitch ch' (record conv { prec = some n }) fmt'' args)

-- The case 'l', which looks at one more character.
unfoldable pub long_flag : Conv → List ℕ → List Arg → Step
long_flag conv fmt args =
    let (ch, fmt') = next_char fmt in
    if ch == 108
    then rflag (record conv { flags = record conv.flags { quadint = true } }) fmt' args
    else rflag (record conv { flags = record conv.flags { longint = true } }) fmt args

-- switch (ch)
unfoldable pub switch : ℕ → ℕ → Conv → List ℕ → List Arg → Run Step
switch ret ch conv fmt args =
    let flags = conv.flags in
    let with_flags : Flags → Run Step =
      λ flags'. ok (rflag (record conv { flags = flags' }) fmt args) in
    if ch == 32
    then ok (rflag (if conv.sign == 0 then record conv { sign = 32 } else conv) fmt args)
    else if ch == 35
    then with_flags (record flags { alt = true })
    else if ch == 42
    then star_width conv fmt args
    else if ch == 45
    then with_flags (record flags { ladjust = true })
    else if ch == 43
    then ok (rflag (record conv { sign = 43 }) fmt args)
    else if ch == 46
    then precision conv fmt args
    else if ch == 48
    then with_flags (record flags { zeropad = true })
    else if is_digit ch
    then (do
      (n, ch', fmt') ← parse_int 0 ch fmt
      ok (reswitch ch' (record conv { width = n }) fmt' args))
    else if ch == 104
    then with_flags (record flags { shortint = true })
    else if ch == 106
    then with_flags (record flags { maxint = true })
    else if ch == 108
    then ok (long_flag conv fmt args)
    else if ch == 113
    then with_flags (record flags { quadint = true })
    else if ch == 116
    then with_flags (record flags { ptrint = true })
    else if ch == 122
    then with_flags (record flags { sizeint = true })
    else do (out, args') ← convert ret ch conv args; ok (leave out fmt args')

-- From the label `reswitch` on.
unfoldable pub directive : ℕ → ℕ → ℕ → Conv → List ℕ → List Arg → Run (Outcome × List ℕ × List Arg)
directive zero ret ch conv fmt args = out_of_fuel
directive (suc fuel) ret ch conv fmt args = do
  step ← switch ret ch conv fmt args
  elim step [
    | rflag conv' fmt' args' ↦
        let (ch', fmt'') = next_char fmt' in directive fuel ret ch' conv' fmt'' args'
    | reswitch ch' conv' fmt' args' ↦ directive fuel ret ch' conv' fmt' args'
    | leave out fmt' args' ↦ ok (out, fmt', args')
  ]
