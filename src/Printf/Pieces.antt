-- ===== src/Printf/Pieces.antt =====
-- What a format stands for, apart from the code of `kprintf` in libutils/isoc/snprintf.c: a format is a
-- sequence of pieces, characters and padded values, and each piece is written to the format, takes its
-- arguments and has its text. Numeral is about the digits, Decimal about the numbers in the format,
-- Shape, Limit and Convert about one conversion, Padded about the padding, Width about a width, Whole
-- about the loop.
pub mod Numeral
pub mod Decimal
pub mod Shape
pub mod Limit
pub mod Convert
pub mod Padded
pub mod Width
pub mod Whole
mod Examples
use bios_qemu_tz_arm.Prelude.{
  ℕ, zero, suc, ◌+◌, ◌-◌, ◌*◌, ◌/◌, ◌%◌, ◌^◌, ◌<◌, ◌≢◌, ◌≡◌, ◌⊎◌, Bool, true, false, not, ◌&&◌,
  ◌||◌, Option, none, some, List, [], ◌∷◌, ◌++◌, ◌==◌, ltb, length, replicate, codes, if◌then◌else◌,
}
use bios_qemu_tz_arm.Printf.Args.{Arg, word, dword, bytes}
use bios_qemu_tz_arm.Printf.Values.{
  IsLimited, IsValue, Value, amount, body, char, decimal, digit, has_nul, hex, hexadecimal,
  is_negative, least, least_digits, letters, numeral, octal, octal_digits, percent, plus, pointer,
  prefix, quad, short, signed, signed_quad, size, string, unsigned, unsigned_quad, upper,
  upper_digit, upper_hexadecimal, values,
}

-- The padding of a conversion: none, blanks in front, blanks behind, or zeros, up to a width.
pub data Padding : Type 0 where
  unpadded : Padding
  blanks left zeros : ℕ → Padding

pub data Piece : Type 0 where
  plain : ℕ → Piece
  converted : Padding → Value → Piece

abbrev pub padding_letters : Padding → List ℕ
padding_letters unpadded = []
padding_letters (blanks w) = decimal w
padding_letters (left w) = 45 ∷ decimal w
padding_letters (zeros w) = 48 ∷ decimal w

-- The text, filled up to the width.
abbrev pub padded : Padding → List ℕ → List ℕ → List ℕ
padded unpadded pre text = pre ++ text
padded (blanks w) pre text = replicate (w - length (pre ++ text)) 32 ++ pre ++ text
padded (left w) pre text = (pre ++ text) ++ replicate (w - length (pre ++ text)) 32
padded (zeros w) pre text = pre ++ replicate (w - length (pre ++ text)) 48 ++ text

-- A precision takes the zeros of the width away.
abbrev pub keeps_zeros : Value → Bool
keeps_zeros (least n w) = false
keeps_zeros value = true

abbrev pub effective : Padding → Value → Padding
effective (zeros w) value = if keeps_zeros value then zeros w else blanks w
effective padding value = padding

-- What a piece is in the format, among the arguments, and in the output.
abbrev pub piece_format : Piece → List ℕ
piece_format (plain c) = c ∷ []
piece_format (converted padding value) =
    let (first, rest) = letters value in 37 ∷ padding_letters padding ++ first ∷ rest

abbrev pub piece_arguments : Piece → List Arg
piece_arguments (plain c) = []
piece_arguments (converted padding value) = values value

abbrev pub piece_text : Piece → List ℕ
piece_text (plain c) = c ∷ []
piece_text (converted padding value) = padded (effective padding value) (prefix value) (body value)

unfoldable pub format : List Piece → List ℕ
format [] = []
format (piece ∷ pieces) = piece_format piece ++ format pieces

unfoldable pub arguments : List Piece → List Arg
arguments [] = []
arguments (piece ∷ pieces) = piece_arguments piece ++ arguments pieces

unfoldable pub text : List Piece → List ℕ
text [] = []
text (piece ∷ pieces) = piece_text piece ++ text pieces

-- A width is a positive `int`.
abbrev pub IsWidth : ℕ → Type 0
IsWidth w = (0 < w) × (w < 2 ^ 31)

abbrev pub IsPadding : Padding → Type 0
IsPadding unpadded = Unit {0}
IsPadding (blanks w) = IsWidth w
IsPadding (left w) = IsWidth w
IsPadding (zeros w) = IsWidth w

-- A character of the format is neither the NUL nor `%`.
abbrev pub IsPiece : Piece → Type 0
IsPiece (plain c) = (c ≢ 0) × (c ≢ 37)
IsPiece (converted padding value) = IsPadding padding × IsValue value

abbrev pub ArePieces : List Piece → Type 0
ArePieces [] = Unit {0}
ArePieces (piece ∷ pieces) = IsPiece piece × ArePieces pieces
