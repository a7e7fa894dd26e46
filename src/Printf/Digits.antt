-- ===== src/Printf/Digits.antt =====
-- The digits of a number: the `switch (base)` of `kprintf` in libutils/isoc/snprintf.c. The digits are
-- written from the end of the array `bf` towards its start, so the text is built from its end. A
-- write below the start of the array is a fault. Twenty-two digits serve 64 bits in every base.
pub mod Value
use Prim.Native.Nat.{bit_and}
use bios_qemu_tz_arm.Prelude.{
  ℕ, zero, suc, ◌+◌, ◌*◌, ◌/◌, ◌%◌, ◌^◌, Bool, true, false, ◌&&◌, not, List, [], ◌∷◌, ◌==◌, ltb,
  leb, length, get_or, if◌then◌else◌,
}
use bios_qemu_tz_arm.Run.{Run, ok, fault, out_of_fuel, ◌>>=◌}

-- The space for 64 bits in octal and a leading 0.
abbrev pub kprintf_bufsize : ℕ
kprintf_bufsize = 8 * 8 / 3 + 2

pub data Base : Type 0 where
  oct dec hex : Base

-- "0123456789abcdef" and "0123456789ABCDEF"
abbrev pub hexdigits : List ℕ
hexdigits = 48 ∷ 49 ∷ 50 ∷ 51 ∷ 52 ∷ 53 ∷ 54 ∷ 55 ∷ 56 ∷ 57 ∷ 97 ∷ 98 ∷ 99 ∷ 100 ∷ 101 ∷ 102 ∷ []

abbrev pub upper_hexdigits : List ℕ
upper_hexdigits = 48 ∷ 49 ∷ 50 ∷ 51 ∷ 52 ∷ 53 ∷ 54 ∷ 55 ∷ 56 ∷ 57 ∷ 65 ∷ 66 ∷ 67 ∷ 68 ∷ 69 ∷ 70 ∷ []

abbrev pub to_char : ℕ → ℕ
to_char n = n + 48

-- *--cp = c
unfoldable pub push : ℕ → List ℕ → Run (List ℕ)
push c cp = if ltb (length cp) kprintf_bufsize then ok (c ∷ cp) else fault

unfoldable pub oct_loop : ℕ → ℕ → List ℕ → Run (List ℕ)
oct_loop zero u cp = out_of_fuel
oct_loop (suc fuel) u cp = do
  cp' ← push (to_char (bit_and u 7)) cp
  elim (u / 2 ^ 3 == 0) [ true ↦ ok cp' | false ↦ oct_loop fuel (u / 2 ^ 3) cp' ]

unfoldable pub dec_loop : ℕ → ℕ → List ℕ → Run (List ℕ)
dec_loop zero u cp = out_of_fuel
dec_loop (suc fuel) u cp = elim (leb 10 u) [
  | true ↦ do cp' ← push (to_char (u % 10)) cp; dec_loop fuel (u / 10) cp'
  | false ↦ push (to_char u) cp
]

unfoldable pub hex_loop : List ℕ → ℕ → ℕ → List ℕ → Run (List ℕ)
hex_loop xdigs zero u cp = out_of_fuel
hex_loop xdigs (suc fuel) u cp = do
  cp' ← push (get_or xdigs (bit_and u 15) 0) cp
  elim (u / 2 ^ 4 == 0) [ true ↦ ok cp' | false ↦ hex_loop xdigs fuel (u / 2 ^ 4) cp' ]

-- `if (flags & ALT && *cp != '0') *--cp = '0';`
unfoldable pub octal_zero : Bool → List ℕ → Run (List ℕ)
octal_zero alt cp = if alt && not (get_or cp 0 0 == 48) then push 48 cp else ok cp

unfoldable pub digits : Base → List ℕ → Bool → ℕ → Run (List ℕ)
digits oct xdigs alt u = do cp ← oct_loop 22 u []; octal_zero alt cp
digits dec xdigs alt u = dec_loop 22 u []
digits hex xdigs alt u = hex_loop xdigs 22 u []
