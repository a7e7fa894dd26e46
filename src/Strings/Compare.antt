-- ===== src/Strings/Compare.antt =====
-- `buf_compare_ct` returns 0 for equal buffers only.
use Prim.Native.Nat.{bit_or, bit_xor}
use bios_qemu_tz_arm.Prelude.{ℕ, zero, suc, ◌+◌, ◌<◌, ◌≡◌, ◌↔◌, refl, ap, ◌∙◌, arith}
use bios_qemu_tz_arm.Prelude.Bits.{bit_xor-zero, bit_xor_self, bit_or-zero}
use bios_qemu_tz_arm.Memory.{Memory}
use bios_qemu_tz_arm.Strings.{compare_loop, buf_compare_ct}

-- The two buffers hold the same bytes.
abbrev pub Agree : Memory → ℕ → ℕ → ℕ → Type 0
Agree mem s1 s2 n = (i : ℕ) → i < n → mem (s1 + i) ≡ mem (s2 + i)

first_byte : (mem : Memory) (c1 c2 n : ℕ) → Agree mem c1 c2 (suc n) → mem c1 ≡ mem c2
first_byte mem c1 c2 n h =
    let z1 : c1 ≡ c1 + 0 = omega arith in
    let z2 : c2 + 0 ≡ c2 = omega arith in ap mem z1 ∙ h 0 (omega arith) ∙ ap mem z2

later_bytes : (mem : Memory) (c1 c2 n : ℕ) → Agree mem c1 c2 (suc n) → Agree mem (c1 + 1) (c2 + 1) n
later_bytes mem c1 c2 n h i lt =
    let e1 : c1 + 1 + i ≡ c1 + suc i = omega arith in
    let e2 : c2 + suc i ≡ c2 + 1 + i = omega arith in
    ap mem e1 ∙ h (suc i) (omega arith) ∙ ap mem e2

all_bytes :
    (mem : Memory) (c1 c2 n : ℕ)
    → mem c1 ≡ mem c2
    → Agree mem (c1 + 1) (c2 + 1) n
    → Agree mem c1 c2 (suc n)
all_bytes mem c1 c2 n f h zero lt =
    let z1 : c1 + 0 ≡ c1 = omega arith in
    let z2 : c2 ≡ c2 + 0 = omega arith in ap mem z1 ∙ f ∙ ap mem z2
all_bytes mem c1 c2 n f h (suc i) lt =
    let e1 : c1 + suc i ≡ c1 + 1 + i = omega arith in
    let e2 : c2 + 1 + i ≡ c2 + suc i = omega arith in ap mem e1 ∙ h i (omega arith) ∙ ap mem e2

compare-zero :
    (n c1 c2 res : ℕ) (mem : Memory)
    → compare_loop n c1 c2 res mem ≡ 0
    → (res ≡ 0) × Agree mem c1 c2 n
unfolding compare_loop
compare-zero zero c1 c2 res mem e = (e, λ i h. absurd (omega arith))
compare-zero (suc n) c1 c2 res mem e =
    let (r, rest) =
      compare-zero n (c1 + 1) (c2 + 1) (bit_or res (bit_xor (mem c1) (mem c2))) mem e in
    let (z, x) = bit_or-zero res (bit_xor (mem c1) (mem c2)) r in
    (z, all_bytes mem c1 c2 n (bit_xor-zero (mem c1) (mem c2) x) rest)

compare-Agree : (n c1 c2 : ℕ) (mem : Memory) → Agree mem c1 c2 n → compare_loop n c1 c2 0 mem ≡ 0
unfolding compare_loop
compare-Agree zero c1 c2 mem h = refl
compare-Agree (suc n) c1 c2 mem h =
    let x : bit_xor (mem c1) (mem c2) ≡ 0 =
      ap (λ b. bit_xor b (mem c2)) (first_byte mem c1 c2 n h) ∙ bit_xor_self (mem c2) in
    rw x (compare-Agree n (c1 + 1) (c2 + 1) mem (later_bytes mem c1 c2 n h))

-- The result is 0 exactly if the buffers hold the same bytes.
pub buf_compare_ct-Agree :
    (s1 s2 n : ℕ) (mem : Memory) → (buf_compare_ct s1 s2 n mem ≡ 0) ↔ Agree mem s1 s2 n
unfolding buf_compare_ct
buf_compare_ct-Agree s1 s2 n mem =
    ((λ e. (compare-zero n s1 s2 0 mem e).1), (λ h. compare-Agree n s1 s2 mem h))
