-- ===== src/Divmod/Unsigned.antt =====
-- Unsigned division: `__aeabi_uidiv`, `__aeabi_uimod`, `__aeabi_uidivmod` and `__ul_divmod`.
use native.Mathlib.Nat.{pow-suc}
use bios_qemu_tz_arm.Prelude.{
  ℕ, zero, suc, ◌-◌, ◌*◌, ◌/◌, ◌%◌, ◌^◌, ◌<◌, ◌≡◌, refl, arith, false, if◌then◌else◌, ◌==◌,
}
use bios_qemu_tz_arm.Prelude.Quotients.{mod_unique, div_unique}
use bios_qemu_tz_arm.Run.{ok}
use bios_qemu_tz_arm.Divmod.{
  Qr, init_qr, word, align, divide, divide_signs, aeabi_uidiv, aeabi_uimod, aeabi_uidivmod,
  ul_divmod,
}
use bios_qemu_tz_arm.Divmod.Loops.{align-Aligned, subtract-Divided}

module _ (top : ℕ) where
  -- The loops compute the quotient and the remainder.
  pub divide_pos :
      (n d : ℕ) (qr : Qr)
      → 0 < d
      → n < word top
      → d < word top
      → divide top n d qr ≡ ok (record qr { q = n / d; r = n % d })
  unfolding divide
  divide_pos n d qr pos hn hd =
      let a = align-Aligned top d pos (suc (suc top)) 0 (omega arith) (omega arith) in
      let s =
        subtract-Divided top n d pos hn a.k (suc (suc top)) n (2 ^ a.k * d) (2 ^ a.k) 0 refl refl
          (omega (arith, a.small)) (omega arith) (omega (arith, a.at_top, pow-suc 2 top)) in
      let quot : n / d ≡ s.quot = div_unique d s.quot s.rem n (omega (arith, s.divides)) s.small in
      let rem : n % d ≡ s.rem = mod_unique d s.quot s.rem n (omega (arith, s.divides)) s.small in
      let starts : align top (suc (suc top)) 1 d ≡ ok (2 ^ a.k, 2 ^ a.k * d) =
        let one : 2 ^ 0 * d ≡ d = omega arith in rw one at a.returns in
      ground (arith, starts, s.returns, quot, rem)

  pub divide_zero : (n : ℕ) (qr : Qr) → divide top n 0 qr ≡ ok (record qr { r = word top - 1 })
  unfolding divide
  divide_zero n qr = refl

-- Whatever the two words are, the three unsigned functions return. The quotient and the remainder are
-- those of the numbers, and by 0 they are 0 and the largest word.
pub aeabi_uidivmod_lem :
    (n d : ℕ)
    → n < 2 ^ 32
    → d < 2 ^ 32
    → (aeabi_uidivmod n d ≡ ok (if d == 0 then (0, 2 ^ 32 - 1) else (n / d, n % d)))
      × (aeabi_uidiv n d ≡ ok (if d == 0 then 0 else n / d))
      × (aeabi_uimod n d ≡ ok (if d == 0 then 2 ^ 32 - 1 else n % d))
unfolding aeabi_uidivmod aeabi_uidiv aeabi_uimod divide_signs
aeabi_uidivmod_lem n zero hn hd = rw divide_zero (refl, refl, refl)
aeabi_uidivmod_lem n (suc d) hn hd =
    rw (divide_pos 31 n (suc d) (init_qr false false) (omega arith) hn hd)
      (ground arith, ground arith, ground arith)

-- The same of `__ul_divmod`, which serves 64-bit words.
pub ul_divmod_lem :
    (n d : ℕ)
    → n < 2 ^ 64
    → d < 2 ^ 64
    → ul_divmod (n, d) ≡ ok (if d == 0 then (0, 2 ^ 64 - 1) else (n / d, n % d))
unfolding ul_divmod divide_signs
ul_divmod_lem n zero hn hd = rw divide_zero refl
ul_divmod_lem n (suc d) hn hd =
    rw (divide_pos 63 n (suc d) (init_qr false false) (omega arith) hn hd) (ground arith)
