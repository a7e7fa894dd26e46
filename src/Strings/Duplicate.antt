-- ===== src/Strings/Duplicate.antt =====
-- `strdup` and `strndup` return a copy of the string, over any `malloc` that keeps the string.
use bios_qemu_tz_arm.Prelude.{
  ℕ, suc, ◌+◌, ◌-◌, ◌%◌, ◌^◌, ◌≤◌, ◌<◌, ◌≡◌, ◌≢◌, refl, sym, ap, ◌∙◌, false, ◌==◌, arith,
}
use bios_qemu_tz_arm.Memory.{Memory, memcpy}
use bios_qemu_tz_arm.Memory.Words.{store8_self, store8_other, memcpy_inside}
use bios_qemu_tz_arm.Strings.{Malloc, strdup, strndup}
use bios_qemu_tz_arm.Strings.Text.{IsString, terminated, memcpy-nul}

-- At `p` stands a string of the first `k` bytes at `s` in the memory `old`.
abbrev pub IsCopy : Memory → ℕ → Memory → ℕ → ℕ → Type 0
IsCopy mem p old s k = IsString mem p k × ((i : ℕ) → i < k → mem (p + i) ≡ old (s + i))

terminated-IsCopy :
    (old mem : Memory) (p s l k : ℕ)
    → IsString old s l
    → k ≤ l
    → ((i : ℕ) → s ≤ i → i ≤ s + l → mem i ≡ old i)
    → IsCopy (terminated p s k mem) p old s k
terminated-IsCopy old mem p s l k str h same =
    let at_byte : (i : ℕ) → i < k → terminated p s k mem (p + i) ≡ old (s + i) = λ i lt.
      store8_other (p + k) 0 (memcpy p s k mem) (p + i) (omega arith)
      ∙ memcpy_inside p s k mem i lt
      ∙ same (s + i) (omega arith) (omega arith) in
    (
      record {
        bytes = λ i lt z. str.bytes i (omega arith) (sym (at_byte i lt) ∙ z);
        end = store8_self (p + k) 0 (memcpy p s k mem);
      },
      at_byte,
    )

module _ {S : Type 0} (malloc : Malloc S) (s l : ℕ) (heap : S) (mem : Memory)
    (str : IsString mem s l) (p k : ℕ) (heap1 : S) (mem1 : Memory) (small : k + 1 < 2 ^ 32)
    (got : malloc (k + 1) heap mem ≡ (p, heap1, mem1)) (nonzero : p ≢ 0)
    (same : (i : ℕ) → s ≤ i → i ≤ s + l → mem1 i ≡ mem i) where
  strndup_is :
      (strnlen : ℕ → ℕ → Memory → ℕ) (n : ℕ)
      → strnlen s n mem ≡ k
      → strndup malloc strnlen s n heap mem ≡ (p, heap1, terminated p s k mem1)
  unfolding strndup
  strndup_is strnlen n len =
      let w : (k + 1) % 2 ^ 32 ≡ k + 1 = omega arith in
      let t : (p == 0) ≡ false = ground (arith, nonzero) in
      let a : p + (k + 1) - 1 ≡ p + k = omega arith in
      let b : k + 1 - 1 ≡ k = omega arith in rw (len, w, got, t, a, b) refl

  strdup_is :
      (strlen : ℕ → Memory → ℕ)
      → strlen s mem ≡ l
      → k ≡ l
      → strdup malloc strlen s heap mem ≡ (p, heap1, terminated p s k mem1)
  unfolding strdup
  strdup_is strlen len e =
      let w : (k + 1) % 2 ^ 32 ≡ k + 1 = omega arith in
      let t : (p == 0) ≡ false = ground (arith, nonzero) in
      let n : k + 1 ≡ suc k = omega arith in
      let z : mem1 (s + k) ≡ 0 =
        ap (λ j. mem1 (s + j)) e ∙ same (s + l) (omega arith) (omega arith) ∙ str.end in
      rw (len ∙ sym e, w, got, t, n, memcpy-nul p s k mem1 z) refl

  -- With `malloc` granting a block and keeping the string, and a `strnlen` that counts no more bytes than
  -- it has, `strndup` returns the block, and it holds a string of the bytes counted.
  strndup-IsCopy :
      (strnlen : ℕ → ℕ → Memory → ℕ) (n : ℕ)
      → strnlen s n mem ≡ k
      → k ≤ l
      → ((strndup malloc strnlen s n heap mem).0 ≡ p)
        × IsCopy (strndup malloc strnlen s n heap mem).2 p mem s k
  strndup-IsCopy strnlen n len h =
      rw (strndup_is strnlen n len) (refl, terminated-IsCopy mem mem1 p s l k str h same)

  -- With `malloc` granting a block and keeping the string, `strdup` returns it, and it holds the whole
  -- string.
  strdup-IsCopy :
      (strlen : ℕ → Memory → ℕ)
      → strlen s mem ≡ l
      → k ≡ l
      → ((strdup malloc strlen s heap mem).0 ≡ p)
        × IsCopy (strdup malloc strlen s heap mem).2 p mem s k
  strdup-IsCopy strlen len e =
      rw (strdup_is strlen len e)
        (refl, terminated-IsCopy mem mem1 p s l k str (omega (arith, e)) same)
