-- ===== src/Printf/Pieces/Shape.antt =====
-- The fields that the values of Pieces come to, and the rounds that their letters take.
use bios_qemu_tz_arm.Prelude.{
  false, ℕ, suc, ◌%◌, ◌^◌, Bool, true, not, none, some, List, [], ◌∷◌, ◌==◌, if◌then◌else◌,
}
use bios_qemu_tz_arm.Printf.Args.{no_flags, Conv}
use bios_qemu_tz_arm.Printf.Fields.{Field}
use bios_qemu_tz_arm.Printf.Values.{
  Value, limited, least, least_digits, null, percent, signed, plus, short, signed_quad, unsigned,
  unsigned_quad, char, octal, upper, size, quad, pointer, body, is_negative, amount, decimal,
}

-- The state behind the width.
abbrev pub conv_of : Bool → Bool → ℕ → Conv
conv_of ladjust zeropad width = record {
  flags = record no_flags { ladjust = ladjust; zeropad = zeropad };
  width = width;
  prec = none;
  sign = 0;
}

-- The field of a value, by the sign, the flags and the text.
abbrev pub number_field : Conv → ℕ → List ℕ → Field
number_field conv ch text = record { conv = conv; dprec = none; ch = ch; text = text }

abbrev pub text_field : Conv → ℕ → List ℕ → Field
text_field conv ch text = record { conv = conv; dprec = some 0; ch = ch; text = text }

-- A signed number of so many bits has the sign `-`, or the one it had.
abbrev pub signed_field : Conv → ℕ → ℕ → Field
signed_field conv bits w =
    number_field (record conv { sign = if is_negative bits w then 45 else conv.sign }) 100
      (decimal (amount bits w))

abbrev pub with_quad : Conv → Conv
with_quad conv = record conv { flags = record conv.flags { quadint = true } }

-- A signed number with a precision.
abbrev pub least_field : Conv → ℕ → ℕ → Field
least_field conv n w = record {
  conv = record conv {
    flags = record conv.flags { zeropad = false };
    prec = some n;
    sign = if is_negative 32 w then 45 else conv.sign;
  };
  dprec = some n;
  ch = 100;
  text = least_digits n w;
}

abbrev pub field_of : Conv → Value → Field
field_of conv (Value.string s behind) = text_field conv 115 s
field_of conv (limited n s behind) = text_field (record conv { prec = some n }) 115 s
field_of conv (least n w) = least_field conv n w
field_of conv null = text_field conv 115 (body null)
field_of conv percent = text_field conv 37 (body percent)
field_of conv (signed w) = signed_field conv 32 w
field_of conv (plus w) = signed_field (record conv { sign = 43 }) 32 w
field_of conv (short w) =
    signed_field (record conv { flags = record conv.flags { shortint = true } }) 16 w
field_of conv (signed_quad w) = signed_field (with_quad conv) 64 w
field_of conv (unsigned w) = number_field conv 117 (body (unsigned w))
field_of conv (unsigned_quad w) = number_field (with_quad conv) 117 (body (unsigned_quad w))
field_of conv (char w) = text_field conv 99 (body (char w))
field_of conv (octal w) = number_field conv 111 (body (octal w))
field_of conv (Value.hex w) = number_field conv 120 (body (Value.hex w))
field_of conv (upper w) = number_field conv 88 (body (upper w))
field_of conv (size w) =
    number_field
      (record conv {
        flags = record conv.flags { alt = true; sizeint = true; hexprefix = not (w % 2 ^ 32 == 0) };
      })
      120 (body (size w))
field_of conv (quad w) = number_field (with_quad conv) 120 (body (quad w))
field_of conv (pointer w) =
    number_field (record conv { flags = record conv.flags { hexprefix = true } }) 120
      (body (pointer w))

-- A round for each of some characters, and more rounds.
abbrev pub with_rounds : List ℕ → ℕ → ℕ
with_rounds [] fuel = fuel
with_rounds (c ∷ s) fuel = suc (with_rounds s fuel)
