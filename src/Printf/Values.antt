-- ===== src/Printf/Values.antt =====
-- What the conversions of `kprintf` in libutils/isoc/snprintf.c stand for, apart from its code: the
-- letters of a conversion, its argument, and its text with the sign or the base in front. Among them are
-- the conversions of the messages in bios/main.c.
use bios_qemu_tz_arm.Prelude.{
  ℕ, zero, suc, ◌+◌, ◌-◌, ◌/◌, ◌%◌, ◌^◌, ◌<◌, ◌≡◌, ◌⊎◌, Bool, true, false, not, ◌&&◌, ◌||◌, none,
  some, List, [], ◌∷◌, ◌++◌, ◌==◌, ltb, length, replicate, codes, if◌then◌else◌,
}
use bios_qemu_tz_arm.Printf.Args.{Arg, word, dword, bytes}

-- The digits below 16, in either case.
abbrev pub digit : ℕ → ℕ
digit d = if ltb d 10 then 48 + d else 87 + d

abbrev pub upper_digit : ℕ → ℕ
upper_digit d = if ltb d 10 then 48 + d else 55 + d

-- A number in a base, the most significant digit first, without leading zeros.
unfoldable pub numeral : (ℕ → ℕ) → ℕ → ℕ → ℕ → List ℕ
numeral dig base zero u = []
numeral dig base (suc fuel) u = elim (ltb u base) [
  | true ↦ dig u ∷ []
  | false ↦ numeral dig base fuel (u / base) ++ dig (u % base) ∷ []
]

-- The numerals of 64 bits.
abbrev pub decimal : ℕ → List ℕ
decimal u = numeral digit 10 22 u

abbrev pub octal_digits : ℕ → List ℕ
octal_digits u = numeral digit 8 22 u

abbrev pub hexadecimal : ℕ → List ℕ
hexadecimal u = numeral digit 16 22 u

abbrev pub upper_hexadecimal : ℕ → List ℕ
upper_hexadecimal u = numeral upper_digit 16 22 u

-- A signed number of so many bits: its sign, and its amount.
abbrev pub is_negative : ℕ → ℕ → Bool
is_negative bits w = not (ltb (w % 2 ^ bits) (2 ^ (bits - 1)))

abbrev pub amount : ℕ → ℕ → ℕ
amount bits w = let v = w % 2 ^ bits in if ltb v (2 ^ (bits - 1)) then v else 2 ^ bits - v

-- A conversion and its argument: `%s` with a text and what lies behind its NUL, `%.Ns` with the number
-- N, the text and what lies behind it, `%.Nd` with N and the number, `%s` with NULL, `%%`,
-- `%d`, `%+d`, `%hd`, `%lld`, `%u`, `%llu`, `%c`, `%o`, `%x`, `%X`, `%#zx`, `%llx` and `%p`.
pub data Value : Type 0 where
  string : List ℕ → List ℕ → Value
  limited : ℕ → List ℕ → List ℕ → Value
  least : ℕ → ℕ → Value
  null percent : Value
  signed plus short signed_quad unsigned unsigned_quad char octal hex upper size quad pointer :
      ℕ → Value

-- The letters of a conversion behind its width.
abbrev pub letters : Value → ℕ × List ℕ
letters (string s behind) = (115, [])
letters (limited n s behind) = (46, decimal n ++ 115 ∷ [])
letters (least n w) = (46, decimal n ++ 100 ∷ [])
letters null = (115, [])
letters percent = (37, [])
letters (signed w) = (100, [])
letters (plus w) = (43, 100 ∷ [])
letters (short w) = (104, 100 ∷ [])
letters (signed_quad w) = (108, 108 ∷ 100 ∷ [])
letters (unsigned w) = (117, [])
letters (unsigned_quad w) = (108, 108 ∷ 117 ∷ [])
letters (char w) = (99, [])
letters (octal w) = (111, [])
letters (hex w) = (120, [])
letters (upper w) = (88, [])
letters (size w) = (35, 122 ∷ 120 ∷ [])
letters (quad w) = (108, 108 ∷ 120 ∷ [])
letters (pointer w) = (112, [])

abbrev pub values : Value → List Arg
values (string s behind) = bytes (some (s ++ 0 ∷ behind)) ∷ []
values (limited n s behind) = bytes (some (s ++ behind)) ∷ []
values (least n w) = word w ∷ []
values null = bytes none ∷ []
values percent = []
values (signed w) = word w ∷ []
values (plus w) = word w ∷ []
values (short w) = word w ∷ []
values (signed_quad w) = dword w ∷ []
values (unsigned w) = word w ∷ []
values (unsigned_quad w) = dword w ∷ []
values (char w) = word w ∷ []
values (octal w) = word w ∷ []
values (hex w) = word w ∷ []
values (upper w) = word w ∷ []
values (size w) = word w ∷ []
values (quad w) = dword w ∷ []
values (pointer w) = word w ∷ []

-- The sign or the base in front of the digits.
abbrev pub prefix : Value → List ℕ
prefix (signed w) = if is_negative 32 w then 45 ∷ [] else []
prefix (least n w) = if is_negative 32 w then 45 ∷ [] else []
prefix (plus w) = if is_negative 32 w then 45 ∷ [] else 43 ∷ []
prefix (short w) = if is_negative 16 w then 45 ∷ [] else []
prefix (signed_quad w) = if is_negative 64 w then 45 ∷ [] else []
prefix (size w) = if w % 2 ^ 32 == 0 then [] else 48 ∷ 120 ∷ []
prefix (pointer w) = 48 ∷ 120 ∷ []
prefix value = []

-- The digits of a number with a precision. Of 0 there are none if the precision is 0.
abbrev pub least_digits : ℕ → ℕ → List ℕ
least_digits n w = if (w % 2 ^ 32 == 0) && (n == 0) then [] else decimal (amount 32 w)

abbrev pub body : Value → List ℕ
body (string s behind) = s
body (limited n s behind) = s
body (least n w) = replicate (n - length (least_digits n w)) 48 ++ least_digits n w
body null = codes "(null)"
body percent = 37 ∷ []
body (signed w) = decimal (amount 32 w)
body (plus w) = decimal (amount 32 w)
body (short w) = decimal (amount 16 w)
body (signed_quad w) = decimal (amount 64 w)
body (unsigned w) = decimal (w % 2 ^ 32)
body (unsigned_quad w) = decimal (w % 2 ^ 64)
body (char w) = w % 256 ∷ []
body (octal w) = octal_digits (w % 2 ^ 32)
body (hex w) = hexadecimal (w % 2 ^ 32)
body (upper w) = upper_hexadecimal (w % 2 ^ 32)
body (size w) = hexadecimal (w % 2 ^ 32)
body (quad w) = hexadecimal (w % 2 ^ 64)
body (pointer w) = hexadecimal (w % 2 ^ 32)

abbrev pub has_nul : List ℕ → Bool
has_nul [] = false
has_nul (c ∷ s) = c == 0 || has_nul s

-- The first `n` characters of an object, or those before its NUL if that comes earlier.
abbrev pub IsLimited : ℕ → List ℕ → List ℕ → Type 0
IsLimited n s behind =
    (has_nul s ≡ false)
    × ((length s ≡ n) ⊎ ((length s < n) × (more : List ℕ) × (behind ≡ 0 ∷ more)))

abbrev pub IsValue : Value → Type 0
IsValue (string s behind) = has_nul s ≡ false
IsValue (least n w) = n < 2 ^ 31
IsValue (limited n s behind) = (n < 2 ^ 31) × IsLimited n s behind
IsValue value = Unit {0}
