-- ===== src/Prelude/Bits.antt =====
-- `&` and `|` of C on unsigned words, as arithmetic: a low mask is a remainder, a single bit is a
-- digit, and disjoint fields add up. The native operations are defined by recursion on the binary
-- digits, with fuel; the equations of one digit come first.
use Prim.Native.Nat.{
  min, max, bit_and, bit_or, bit_xor, digits, differ, bit_and-bitwise, bit_or-bitwise,
  bit_xor-bitwise,
}
use native.Mathlib.Nat.{pow-suc, one-le-pow}
use bios_qemu_tz_arm.Prelude.{
  ℕ, zero, suc, ◌+◌, ◌-◌, ◌*◌, ◌/◌, ◌%◌, ◌^◌, ◌≤◌, ◌<◌, ◌≡◌, refl, sym, ap, ◌∙◌, arith,
}

-- Any fuel that is at least the first word gives the same digits.
enough_digits :
    (z : ℕ → ℕ) (f : ℕ → ℕ → ℕ) (a b n : ℕ) (m : ℕ)
    → a ≤ n
    → a ≤ m
    → digits z f n a b ≡ digits z f m a b
enough_digits z f zero b zero zero p q = refl
enough_digits z f zero b zero (suc m) p q = refl
enough_digits z f zero b (suc n) zero p q = refl
enough_digits z f zero b (suc n) (suc m) p q = refl
enough_digits z f (suc a) b zero m p q = absurd (omega arith)
enough_digits z f (suc a) b (suc n) zero p q = absurd (omega arith)
enough_digits z f (suc a) b (suc n) (suc m) p q =
    rw (enough_digits z f (suc a / 2) (b / 2) n m (omega arith) (omega arith))

-- The equations of the lowest digit.
pub bit_or_digit : (a b : ℕ) → bit_or a b ≡ bit_or (a / 2) (b / 2) * 2 + max (a % 2) (b % 2)
bit_or_digit zero b = omega (arith, bit_or-bitwise 0 b, bit_or-bitwise 0 (b / 2))
bit_or_digit (suc a) b = omega (
  arith,
  bit_or-bitwise (suc a) b,
  bit_or-bitwise (suc a / 2) (b / 2),
  enough_digits (λ y. y) max (suc a / 2) (b / 2) a (suc a / 2) (omega arith) (omega arith),
)

pub bit_and_digit : (a b : ℕ) → bit_and a b ≡ bit_and (a / 2) (b / 2) * 2 + min (a % 2) (b % 2)
bit_and_digit zero b = omega (arith, bit_and-bitwise 0 b, bit_and-bitwise 0 (b / 2))
bit_and_digit (suc a) b = omega (
  arith,
  bit_and-bitwise (suc a) b,
  bit_and-bitwise (suc a / 2) (b / 2),
  enough_digits (λ y. 0) min (suc a / 2) (b / 2) a (suc a / 2) (omega arith) (omega arith),
)

differ_bit : (b : ℕ) → b ≡ b / 2 * 2 + differ 0 (b % 2)
differ_bit b = omega arith

bit_xor_digit : (a b : ℕ) → bit_xor a b ≡ bit_xor (a / 2) (b / 2) * 2 + differ (a % 2) (b % 2)
bit_xor_digit zero b =
    bit_xor-bitwise 0 b
    ∙ differ_bit b
    ∙ ap (λ t. t * 2 + differ 0 (b % 2)) (sym (bit_xor-bitwise 0 (b / 2)))
bit_xor_digit (suc a) b =
    bit_xor-bitwise (suc a) b
    ∙ ap (λ t. t * 2 + differ (suc a % 2) (b % 2))
        (enough_digits (λ y. y) differ (suc a / 2) (b / 2) a (suc a / 2) (omega arith) (omega arith)
          ∙ sym (bit_xor-bitwise (suc a / 2) (b / 2)))

or_nothing : (k a : ℕ) → a < 2 ^ k → bit_or a 0 ≡ a
or_nothing zero zero h = refl
or_nothing zero (suc a) h = absurd (omega arith)
or_nothing (suc k) a h =
    omega (arith, bit_or_digit a 0, or_nothing k (a / 2) (omega (arith, pow-suc 2 k)))

and_nothing : (k a : ℕ) → a < 2 ^ k → bit_and a 0 ≡ 0
and_nothing zero zero h = refl
and_nothing zero (suc a) h = absurd (omega arith)
and_nothing (suc k) a h =
    omega (arith, bit_and_digit a 0, and_nothing k (a / 2) (omega (arith, pow-suc 2 k)))

-- Every number is below some power of two.
lt-pow_self : (a : ℕ) → a < 2 ^ a
lt-pow_self zero = omega arith
lt-pow_self (suc a) = omega (arith, lt-pow_self a, pow-suc 2 a)

double_field : (q k : ℕ) → q * 2 ^ suc k ≡ 2 * (q * 2 ^ k)
double_field q k = omega (arith, ap (λ (t : ℕ). q * t) (pow-suc 2 k))

-- `(q << k) | r` is a sum if `r` has `k` bits.
pub bit_or_add : (k q r : ℕ) → r < 2 ^ k → bit_or (q * 2 ^ k) r ≡ q * 2 ^ k + r
bit_or_add zero q zero h = ground (arith, or_nothing q q (lt-pow_self q))
bit_or_add zero q (suc r) h = absurd (omega arith)
bit_or_add (suc k) q r h = ground (
  arith,
  bit_or_digit (q * 2 ^ suc k) r,
  double_field q k,
  bit_or_add k q (r / 2) (omega (arith, pow-suc 2 k)),
)

split_mask : (k q r : ℕ) → r < 2 ^ k → bit_and (q * 2 ^ k + r) (2 ^ k - 1) ≡ r
split_mask zero q zero h = ground (arith, and_nothing q q (lt-pow_self q))
split_mask zero q (suc r) h = absurd (omega arith)
split_mask (suc k) q r h = ground (
  arith,
  bit_and_digit (q * 2 ^ suc k + r) (2 ^ suc k - 1),
  double_field q k,
  pow-suc 2 k,
  split_mask k q (r / 2) (omega (arith, pow-suc 2 k)),
)

-- A mask of the `k` low bits takes the remainder.
pub bit_and_low : (k a : ℕ) → bit_and a (2 ^ k - 1) ≡ a % 2 ^ k
bit_and_low k a = ground (arith, one-le-pow k 2, split_mask k (a / 2 ^ k) (a % 2 ^ k))

split_bit : (k q r : ℕ) → r < 2 ^ k → bit_and (q * 2 ^ k + r) (2 ^ k) ≡ q % 2 * 2 ^ k
split_bit zero q zero h =
    ground (arith, bit_and_digit q 1, and_nothing (q / 2) (q / 2) (lt-pow_self (q / 2)))
split_bit zero q (suc r) h = absurd (omega arith)
split_bit (suc k) q r h = ground (
  arith,
  bit_and_digit (q * 2 ^ suc k + r) (2 ^ suc k),
  double_field q k,
  double_field (q % 2) k,
  pow-suc 2 k,
  split_bit k q (r / 2) (omega (arith, pow-suc 2 k)),
)

-- A mask of the one bit `k` takes that digit.
pub bit_and_bit : (k a : ℕ) → bit_and a (2 ^ k) ≡ a / 2 ^ k % 2 * 2 ^ k
bit_and_bit k a = ground (arith, one-le-pow k 2, split_bit k (a / 2 ^ k) (a % 2 ^ k))

differ-zero : (x y : ℕ) → differ x y ≡ 0 → x ≡ y
differ-zero zero y e = sym e
differ-zero (suc x) zero e = absurd (omega (arith, e))
differ-zero (suc x) (suc y) e = ap suc (differ-zero x y e)

differ_self : (x : ℕ) → differ x x ≡ 0
differ_self zero = refl
differ_self (suc x) = differ_self x

xor-zero : (k a b : ℕ) → a < 2 ^ k → bit_xor a b ≡ 0 → a ≡ b
xor-zero zero zero b h e = sym (sym (bit_xor-bitwise 0 b) ∙ e)
xor-zero zero (suc a) b h e = absurd (omega arith)
xor-zero (suc k) a b h e =
    let rest =
      xor-zero k (a / 2) (b / 2) (omega (arith, pow-suc 2 k))
        (omega (arith, e, bit_xor_digit a b)) in
    let last = differ-zero (a % 2) (b % 2) (omega (arith, e, bit_xor_digit a b)) in
    omega (arith, rest, last)

-- An exclusive or is 0 for equal numbers only.
pub bit_xor-zero : (a b : ℕ) → bit_xor a b ≡ 0 → a ≡ b
bit_xor-zero a b = xor-zero a a b (lt-pow_self a)

xor_self : (k a : ℕ) → a < 2 ^ k → bit_xor a a ≡ 0
xor_self zero zero h = refl
xor_self zero (suc a) h = absurd (omega arith)
xor_self (suc k) a h =
    omega (
      arith,
      bit_xor_digit a a,
      differ_self (a % 2),
      xor_self k (a / 2) (omega (arith, pow-suc 2 k)),
    )

pub bit_xor_self : (a : ℕ) → bit_xor a a ≡ 0
bit_xor_self a = xor_self a a (lt-pow_self a)

or-zero : (k a b : ℕ) → a < 2 ^ k → bit_or a b ≡ 0 → (a ≡ 0) × (b ≡ 0)
or-zero zero zero b h e = (refl, sym (bit_or-bitwise 0 b) ∙ e)
or-zero zero (suc a) b h e = absurd (omega arith)
or-zero (suc k) a b h e =
    let (x, y) =
      or-zero k (a / 2) (b / 2) (omega (arith, pow-suc 2 k)) (omega (arith, e, bit_or_digit a b)) in
    (omega (arith, x, e, bit_or_digit a b), omega (arith, y, e, bit_or_digit a b))

-- An or is 0 for zeros only.
pub bit_or-zero : (a b : ℕ) → bit_or a b ≡ 0 → (a ≡ 0) × (b ≡ 0)
bit_or-zero a b = or-zero a a b (lt-pow_self a)
