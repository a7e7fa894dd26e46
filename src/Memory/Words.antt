-- ===== src/Memory/Words.antt =====
-- What a word, a byte or a block that is stored changes.
use bios_qemu_tz_arm.Prelude.{
  ℕ, ◌+◌, ◌-◌, ◌*◌, ◌/◌, ◌%◌, ◌^◌, ◌≤◌, ◌<◌, ◌≡◌, ◌≢◌, ◌⊎◌, refl, true, ◌&&◌, ltb, leb, arith,
}
use bios_qemu_tz_arm.Memory.{Memory, memcpy, memset, store8, load32, store32}

-- Two blocks, by their addresses and sizes, have no byte in common.
abbrev pub Apart : ℕ → ℕ → ℕ → ℕ → Type 0
Apart a n b k = (a + n ≤ b) ⊎ (b + k ≤ a)

pub memcpy_inside :
    (dst src l : ℕ) (mem : Memory) (i : ℕ) → i < l → memcpy dst src l mem (dst + i) ≡ mem (src + i)
unfolding memcpy
memcpy_inside dst src l mem i h =
    let e : dst + i - dst ≡ i = omega arith in
    let inside : (leb dst (dst + i) && ltb (dst + i) (dst + l)) ≡ true = ground arith in
    rw (inside, e) refl

pub memcpy_outside :
    (dst src l : ℕ) (mem : Memory) (i : ℕ)
    → (i < dst) ⊎ (dst + l ≤ i)
    → memcpy dst src l mem i ≡ mem i
unfolding memcpy
memcpy_outside dst src l mem i h = ground arith

pub memset_inside :
    (dst c l : ℕ) (mem : Memory) (i : ℕ) → dst ≤ i → i < dst + l → memset dst c l mem i ≡ c
unfolding memset
memset_inside dst c l mem i h h' = ground arith

pub memset_outside :
    (dst c l : ℕ) (mem : Memory) (i : ℕ) → (i < dst) ⊎ (dst + l ≤ i) → memset dst c l mem i ≡ mem i
unfolding memset
memset_outside dst c l mem i h = ground arith

pub store8_self : (a c : ℕ) (mem : Memory) → store8 a c mem a ≡ c
unfolding store8
store8_self a c mem = ground arith

pub store8_other : (a c : ℕ) (mem : Memory) (i : ℕ) → i ≢ a → store8 a c mem i ≡ mem i
unfolding store8
store8_other a c mem i h = ground arith

pub store32_outside :
    (a v : ℕ) (mem : Memory) (i : ℕ) → (i < a) ⊎ (a + 4 ≤ i) → store32 a v mem i ≡ mem i
unfolding store32
store32_outside a v mem i h = ground arith

store32_inside :
    (a v : ℕ) (mem : Memory) (k : ℕ) → k < 4 → store32 a v mem (a + k) ≡ v / 2 ^ (8 * k) % 2 ^ 8
unfolding store32
store32_inside a v mem k h =
    let e : a + k - a ≡ k = omega arith in
    let inside : (leb a (a + k) && ltb (a + k) (a + 4)) ≡ true = ground arith in rw (inside, e) refl

pub load32-store32 : (a v : ℕ) (mem : Memory) → v < 2 ^ 32 → load32 (store32 a v mem) a ≡ v
unfolding load32
load32-store32 a v mem h =
    let z : a + 0 ≡ a = omega arith in
    let b0 = rw z at (store32_inside a v mem 0 (omega arith)) in
    omega (
      arith,
      b0,
      store32_inside a v mem 1 (omega arith),
      store32_inside a v mem 2 (omega arith),
      store32_inside a v mem 3 (omega arith),
    )

-- A word that no byte of has changed.
pub load32-congr :
    (m m' : Memory) (a : ℕ) → ((i : ℕ) → a ≤ i → i < a + 4 → m i ≡ m' i) → load32 m a ≡ load32 m' a
unfolding load32
load32-congr m m' a h = omega (
  arith,
  h a (omega arith) (omega arith),
  h (a + 1) (omega arith) (omega arith),
  h (a + 2) (omega arith) (omega arith),
  h (a + 3) (omega arith) (omega arith),
)

pub load32-store32-Apart :
    (a v : ℕ) (mem : Memory) (b : ℕ) → Apart a 4 b 4 → load32 (store32 a v mem) b ≡ load32 mem b
load32-store32-Apart a v mem b h =
    load32-congr (store32 a v mem) mem b (λ i lo hi. store32_outside a v mem i (ground arith))

pub load32-store8-Apart :
    (a c : ℕ) (mem : Memory) (b : ℕ) → Apart a 1 b 4 → load32 (store8 a c mem) b ≡ load32 mem b
load32-store8-Apart a c mem b h =
    load32-congr (store8 a c mem) mem b (λ i lo hi. store8_other a c mem i (ground arith))

pub load32-memset-Apart :
    (a c l : ℕ) (mem : Memory) (b : ℕ) → Apart a l b 4 → load32 (memset a c l mem) b ≡ load32 mem b
load32-memset-Apart a c l mem b h =
    load32-congr (memset a c l mem) mem b (λ i lo hi. memset_outside a c l mem i (ground arith))
