-- ===== src/Divmod/Examples.antt =====
-- Tests of the division.
use bios_qemu_tz_arm.Prelude.{◌/◌, ◌≡◌, inr, refl, arith}
use bios_qemu_tz_arm.Run.{ok, out_of_fuel, Returns}
use bios_qemu_tz_arm.Divmod.{
  align, subtract, divide, divide_signs, divide_signed, aeabi_uidiv, aeabi_uimod, aeabi_uidivmod,
  aeabi_idiv, aeabi_idivmod, aeabi_imod, count_bits, magnitude, ul_divmod, l_divmod,
}
use bios_qemu_tz_arm.Divmod.Unsigned.{aeabi_uidivmod_lem, ul_divmod_lem}
use bios_qemu_tz_arm.Divmod.Signed.{TruncatesPair, aeabi_idivmod-Truncates, l_divmod-Truncates}
use bios_qemu_tz_arm.Divmod.Modulo.{aeabi_imod_power, aeabi_imod_diverges}

aeabi_uidivmod_lem_example :
    (aeabi_uidivmod 0xffff_fff0 7 ≡ ok (0x2492_4922, 2))
    × (aeabi_uidiv 0xffff_fff0 7 ≡ ok 0x2492_4922)
    × (aeabi_uimod 0xffff_fff0 7 ≡ ok 2)
aeabi_uidivmod_lem_example = aeabi_uidivmod_lem 0xffff_fff0 7 (omega arith) (omega arith)

ul_divmod_lem_example : ul_divmod (0x1_0000_0000_0000, 10) ≡ ok (28147497671065, 6)
ul_divmod_lem_example = ul_divmod_lem 0x1_0000_0000_0000 10 (omega arith) (omega arith)

-- -7 by 2
aeabi_idivmod-Truncates_example :
    Returns (TruncatesPair 31 0xffff_fff9 2) (aeabi_idivmod 0xffff_fff9 2)
    × Returns
        (λ q. magnitude 31 q ≡ magnitude 31 0xffff_fff9 / magnitude 31 2)
        (aeabi_idiv 0xffff_fff9 2)
aeabi_idivmod-Truncates_example =
    aeabi_idivmod-Truncates 0xffff_fff9 2 (omega arith) (omega arith) (omega arith) (omega arith)

l_divmod-Truncates_example :
    Returns (TruncatesPair 63 7 0xffff_ffff_ffff_fffe) (l_divmod (7, 0xffff_ffff_ffff_fffe))
l_divmod-Truncates_example =
    l_divmod-Truncates 7 0xffff_ffff_ffff_fffe (omega arith) (omega arith) (omega arith)
      (omega arith)

-- 7 % 4 is 3, and the function returns 7 >> 2.
aeabi_imod_power_example : aeabi_imod 33 7 4 ≡ ok 1
aeabi_imod_power_example = aeabi_imod_power 33 7 2 (omega arith) (omega arith)

aeabi_imod_diverges_example : aeabi_imod 1000 7 6 ≡ out_of_fuel
aeabi_imod_diverges_example =
    aeabi_imod_diverges 1000 7 6 (inr (1, 1, omega arith, omega arith, omega arith))

divmod_runs :
    (aeabi_idivmod 0xffff_fff9 2 ≡ ok (0xffff_fffd, 0xffff_ffff))
    × (aeabi_uidivmod 7 0 ≡ ok (0, 0xffff_ffff))
    × (aeabi_imod 40 7 0 ≡ ok 0xffff_ffff)
unfolding aeabi_idivmod aeabi_uidivmod aeabi_imod count_bits divide_signed divide_signs divide align
    subtract
divmod_runs = (refl, refl, refl)
