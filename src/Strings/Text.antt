-- ===== src/Strings/Text.antt =====
-- Strings in the memory, and copies of them.
use bios_qemu_tz_arm.Prelude.{
  ℕ, suc, ◌+◌, ◌-◌, ◌≤◌, ◌<◌, ◌≡◌, ◌≢◌, ◌⊎◌, inl, inr, sym, ap, ◌∙◌, true, false, ◌==◌, arith,
  Bool-cases,
}
use bios_qemu_tz_arm.Memory.{Memory, memcpy, store8}
use bios_qemu_tz_arm.Memory.Words.{Apart, store8_other, memcpy_outside}

-- A string of that many bytes before its NUL.
pub record IsString (mem : Memory) (s l : ℕ) : Type 0 where
  pub bytes : (i : ℕ) → i < l → mem (s + i) ≢ 0
  pub end : mem (s + l) ≡ 0

pub IsString-tail : (mem : Memory) (s l : ℕ) → IsString mem s (suc l) → IsString mem (s + 1) l
IsString-tail mem s l str =
    let e : s + 1 + l ≡ s + suc l = omega arith in
    record {
      bytes = λ i h z.
          let e' : s + 1 + i ≡ s + suc i = omega arith in
          str.bytes (suc i) (omega arith) (ap mem (sym e') ∙ z);
      end = ap mem e ∙ str.end;
    }

-- A string that no byte of has changed.
pub IsString-congr :
    (m m' : Memory) (s l : ℕ)
    → ((i : ℕ) → s ≤ i → i ≤ s + l → m' i ≡ m i)
    → IsString m s l
    → IsString m' s l
IsString-congr m m' s l same str = record {
  bytes = λ i h z. str.bytes i h (sym (same (s + i) (omega arith) (omega arith)) ∙ z);
  end = same (s + l) (omega arith) (omega arith) ∙ str.end;
}

-- `memcpy` a byte at a time, and of nothing.
memcpy-suc_at :
    (d s k : ℕ) (mem : Memory) (i : ℕ)
    → Apart d (suc k) s (suc k)
    → memcpy (d + 1) (s + 1) k (store8 d (mem s) mem) i ≡ memcpy d s (suc k) mem i
unfolding memcpy store8
memcpy-suc_at d s k mem i away =
    let first : s + (d - d) ≡ s = omega arith in
    elim (Bool-cases (i == d)) [
      | inl e ↦
          let same : i ≡ d = ground arith in
          ground (arith, ap mem first, ap (λ j. mem (s + (j - d))) same)
      | inr e ↦
          let there : s + 1 + (i - (d + 1)) ≡ s + suc (i - d - 1) = omega arith in
          ground (arith, ap mem there)
    ]

pub memcpy-suc :
    (d s k : ℕ) (mem : Memory)
    → Apart d (suc k) s (suc k)
    → memcpy (d + 1) (s + 1) k (store8 d (mem s) mem) ≡ memcpy d s (suc k) mem
memcpy-suc d s k mem away = λ j i. memcpy-suc_at d s k mem i away j

pub memcpy-zero : (d s : ℕ) (mem : Memory) → memcpy d s 0 mem ≡ mem
memcpy-zero d s mem = λ j i. memcpy_outside d s 0 mem i (ground arith) j

-- A string outside the destination stays a string when a byte is copied.
pub IsString-store8 :
    (mem : Memory) (d c s l : ℕ)
    → (d < s) ⊎ (s + l < d)
    → IsString mem s l
    → IsString (store8 d c mem) s l
IsString-store8 mem d c s l away =
    IsString-congr mem (store8 d c mem) s l (λ i lo hi. store8_other d c mem i (ground arith))

-- A byte of a string is its NUL only at the end.
pub at_end : (mem : Memory) (s : ℕ) → IsString mem s 0 → (mem s == 0) ≡ true
at_end mem s str = let z : s + 0 ≡ s = omega arith in ground (arith, ap mem (sym z) ∙ str.end)

pub before_end : (mem : Memory) (s l : ℕ) → IsString mem s (suc l) → (mem s == 0) ≡ false
before_end mem s l str =
    let z : s + 0 ≡ s = omega arith in ground (arith, ap mem z, str.bytes 0 (omega arith))

-- `k` bytes of a string and a NUL behind them.
abbrev pub terminated : ℕ → ℕ → ℕ → Memory → Memory
terminated dst src k mem = store8 (dst + k) 0 (memcpy dst src k mem)

-- A NUL that is copied is a NUL that is stored.
memcpy-nul_at :
    (d s l : ℕ) (mem : Memory) (i : ℕ)
    → mem (s + l) ≡ 0
    → memcpy d s (suc l) mem i ≡ terminated d s l mem i
unfolding memcpy store8
memcpy-nul_at d s l mem i z = elim (Bool-cases (i == d + l)) [
  | inl e ↦ let same : i - d ≡ l = ground arith in ground (arith, ap (λ k. mem (s + k)) same, z)
  | inr e ↦ ground arith
]

pub memcpy-nul :
    (d s l : ℕ) (mem : Memory) → mem (s + l) ≡ 0 → memcpy d s (suc l) mem ≡ terminated d s l mem
memcpy-nul d s l mem z = λ j i. memcpy-nul_at d s l mem i z j

pub IsString-drop :
    (mem : Memory) (s l k : ℕ) → k ≤ l → IsString mem s l → IsString mem (s + k) (l - k)
IsString-drop mem s l k h str = record {
  bytes = λ i lt z.
      let e : s + k + i ≡ s + (k + i) = omega arith in
      str.bytes (k + i) (omega arith) (ap mem (sym e) ∙ z);
  end = let e : s + k + (l - k) ≡ s + l = omega arith in ap mem e ∙ str.end;
}
