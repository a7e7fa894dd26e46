-- ===== src/Prelude/Quotients.antt =====
-- Quotient and remainder by a variable divisor: what determines them.
use native.Mathlib.Nat.{
  mul-add-mod_self_left, mod-eq_of_lt, mul-add-div, div-eq_of_lt, div-add-mod, mod-lt, pow-suc,
  one-le-pow,
}
use bios_qemu_tz_arm.Prelude.{ℕ, suc, ◌+◌, ◌*◌, ◌/◌, ◌%◌, ◌^◌, ◌<◌, ◌≡◌, ap, arith}

pub mod_unique : (m q s x : ℕ) → x ≡ m * q + s → s < m → x % m ≡ s
mod_unique m q s x e h = rw (e, mul-add-mod_self_left) (mod-eq_of_lt h)

pub div_unique : (m q s x : ℕ) → x ≡ m * q + s → s < m → x / m ≡ q
div_unique m q s x e h =
    let pos : 0 < m = omega arith in rw e (omega (arith, mul-add-div pos q s, div-eq_of_lt h))

-- The remainder by `256 ^ suc n`: the lowest byte, and the remainder of the others.
pub mod-bytes : (n v : ℕ) → v % 256 ^ suc n ≡ v % 256 + v / 256 % 256 ^ n * 256
mod-bytes n v =
    let p = 256 ^ n in
    let pos : 0 < p = omega (arith, one-le-pow n 256) in
    let u = v / 256 in
    mod_unique (256 ^ suc n) (u / p) (v % 256 + u % p * 256) v
      (omega (arith, pow-suc 256 n, div-add-mod u p, ap (λ (t : ℕ). t * (u / p)) (pow-suc 256 n)))
      (omega (arith, pow-suc 256 n, mod-lt u pos))
