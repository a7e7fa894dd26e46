-- ===== src/Printf/Examples.antt =====
-- The texts of `msg` in bios/main.c as formats: "%#zx" and "0x%" PRIx64, and the padded conversions.
use bios_qemu_tz_arm.Prelude.{ℕ, ◌-◌, ◌^◌, ◌≡◌, refl, arith, true, some, List, [], ◌∷◌}
use bios_qemu_tz_arm.Run.{ok}
use bios_qemu_tz_arm.Printf.Digits.{
  hex, hexdigits, digits, dec_loop, hex_loop, push, kprintf_bufsize,
}
use bios_qemu_tz_arm.Printf.Digits.Value.{Denotes, digits-Denotes, lower-IsHexTable}
use bios_qemu_tz_arm.Printf.Args.{Arg, word, arg_word, sarg, uarg}
use bios_qemu_tz_arm.Printf.Fields.{convert, number, nosign, hex_number, signed_number}
use bios_qemu_tz_arm.Printf.Directive.{switch, directive, parse_int}
use bios_qemu_tz_arm.Printf.Format.{
  Printed, kprintf, format_loop, conclude, put_result, put_field, put_n, put_text, expanded,
  real_size, vsnprintf,
}
use bios_qemu_tz_arm.Printf.Format.Sink.{text_sink}
use bios_qemu_tz_arm.Printf.Format.Bounded.{Truncated, vsnprintf-Truncated}

digits-Denotes_example :
    Denotes 16 0xbdf00000 kprintf_bufsize [] (digits hex hexdigits true 0xbdf00000)
digits-Denotes_example = digits-Denotes hex hexdigits true 0xbdf00000 lower-IsHexTable (omega arith)

-- "%#zx|%-4d|%05i"
abbrev pub fmt : List ℕ
fmt = 37 ∷ 35 ∷ 122 ∷ 120 ∷ 124 ∷ 37 ∷ 45 ∷ 52 ∷ 100 ∷ 124 ∷ 37 ∷ 48 ∷ 53 ∷ 105 ∷ []

-- 0xab, 7 and -42
abbrev pub args : List Arg
args = word 0xab ∷ word 7 ∷ word (2 ^ 32 - 42) ∷ []

-- "0xab|7   |-0042", the last character first
abbrev pub printed : Printed (List ℕ)
printed = record {
  sink = 50 ∷ 52 ∷ 48 ∷ 48 ∷ 45 ∷ 124 ∷ 32 ∷ 32 ∷ 32 ∷ 55 ∷ 124 ∷ 98 ∷ 97 ∷ 120 ∷ 48 ∷ [];
  ret = 15;
  stored = [];
}

pub prints : kprintf text_sink fmt args [] ≡ ok printed
unfolding kprintf format_loop conclude put_result put_field put_n put_text expanded real_size
    directive switch convert parse_int arg_word sarg uarg number nosign hex_number signed_number
    digits dec_loop hex_loop push
prints = refl

vsnprintf-Truncated_example :
    Truncated 8 (λ i. 255) printed.sink (vsnprintf (some (λ i. 255)) 8 fmt args)
vsnprintf-Truncated_example = vsnprintf-Truncated fmt args printed 8 (λ i. 255) prints refl
