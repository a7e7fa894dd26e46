-- ===== src/Printf/Args.antt =====
-- The arguments of `kprintf` in libutils/isoc/snprintf.c and the state of a conversion. An argument of
-- another type than the conversion asks for is a fault: C leaves it undefined. On the 32-bit machine
-- `int`, `long`, `size_t` and a pointer are one word.
use bios_qemu_tz_arm.Prelude.{
  ℕ, ◌+◌, ◌-◌, ◌%◌, ◌^◌, Bool, false, ◌&&◌, ◌||◌, Option, none, List, [], ◌∷◌, ltb, leb,
  if◌then◌else◌,
}
use bios_qemu_tz_arm.Run.{Run, ok, fault, ◌>>=◌}

-- An argument: a word, a double word, a pointer to bytes or NULL, or a pointer to store to.
pub data Arg : Type 0 where
  word dword target : ℕ → Arg
  bytes : Option (List ℕ) → Arg

-- The bits of `flags`. LONGDBL and FPT are never set.
pub record Flags : Type 0 where
  pub alt : Bool
  pub hexprefix : Bool
  pub ladjust : Bool
  pub longint : Bool
  pub quadint : Bool
  pub shortint : Bool
  pub maxint : Bool
  pub ptrint : Bool
  pub sizeint : Bool
  pub zeropad : Bool

abbrev pub no_flags : Flags
no_flags = record {
  alt = false;
  hexprefix = false;
  ladjust = false;
  longint = false;
  quadint = false;
  shortint = false;
  maxint = false;
  ptrint = false;
  sizeint = false;
  zeropad = false;
}

-- `prec` is `none` for -1, and `sign` is 0 for no sign.
pub record Conv : Type 0 where
  pub flags : Flags
  pub width : ℕ
  pub prec : Option ℕ
  pub sign : ℕ

abbrev pub fresh : Conv
fresh = record { flags = no_flags; width = 0; prec = none; sign = 0 }

-- `*fmt++`, where the end of the list is the NUL.
abbrev pub next_char : List ℕ → ℕ × List ℕ
next_char [] = (0, [])
next_char (c ∷ rest) = (c, rest)

abbrev pub is_digit : ℕ → Bool
is_digit c = leb 48 c && leb c 57

-- `n` as an `int`
abbrev pub int : ℕ → Run ℕ
int n = if ltb n (2 ^ 31) then ok n else fault

unfoldable pub arg_word : List Arg → Run (ℕ × List Arg)
arg_word (word w ∷ args) = ok (w % 2 ^ 32, args)
arg_word args = fault

unfoldable pub arg_dword : List Arg → Run (ℕ × List Arg)
arg_dword (dword w ∷ args) = ok (w % 2 ^ 64, args)
arg_dword args = fault

unfoldable pub arg_bytes : List Arg → Run (Option (List ℕ) × List Arg)
arg_bytes (bytes b ∷ args) = ok (b, args)
arg_bytes args = fault

unfoldable pub arg_target : List Arg → Run (ℕ × List Arg)
arg_target (target p ∷ args) = ok (p, args)
arg_target args = fault

-- The conversion of a signed number of so many bits to `uint64_t`.
abbrev pub extend : ℕ → ℕ → ℕ
extend bits v = if ltb v (2 ^ (bits - 1)) then v else 2 ^ 64 - 2 ^ bits + v

unfoldable pub sarg : Flags → List Arg → Run (ℕ × List Arg)
sarg flags args =
    if flags.maxint
    then arg_dword args
    else if flags.ptrint || flags.sizeint
    then (do (w, args') ← arg_word args; ok (extend 32 w, args'))
    else if flags.quadint
    then arg_dword args
    else if flags.longint
    then (do (w, args') ← arg_word args; ok (extend 32 w, args'))
    else if flags.shortint
    then (do (w, args') ← arg_word args; ok (extend 16 (w % 2 ^ 16), args'))
    else do (w, args') ← arg_word args; ok (extend 32 w, args')

unfoldable pub uarg : Flags → List Arg → Run (ℕ × List Arg)
uarg flags args =
    if flags.maxint
    then arg_dword args
    else if flags.ptrint || flags.sizeint
    then arg_word args
    else if flags.quadint
    then arg_dword args
    else if flags.longint
    then arg_word args
    else if flags.shortint
    then (do (w, args') ← arg_word args; ok (w % 2 ^ 16, args'))
    else arg_word args
