-- ===== src/Strings/Copy.antt =====
-- `strlcpy` is `memcpy` of as much as fits, with a NUL behind it.
use bios_qemu_tz_arm.Prelude.{
  ℕ, zero, suc, ◌+◌, ◌-◌, ◌≤◌, ◌<◌, ◌≡◌, inl, inr, refl, sym, ap, ◌∙◌, true, false, ◌==◌, ltb,
  if◌then◌else◌, arith, Bool-cases,
}
use bios_qemu_tz_arm.Run.{ok}
use bios_qemu_tz_arm.Memory.{Memory, memcpy, store8}
use bios_qemu_tz_arm.Memory.Words.{Apart, store8_other, memcpy_outside}
use bios_qemu_tz_arm.Strings.{copy_loop, skip_loop, finish_copy, strlcpy}
use bios_qemu_tz_arm.Strings.Text.{
  IsString, IsString-congr, IsString-drop, IsString-store8, IsString-tail, at_end, before_end,
  memcpy-nul, memcpy-suc, memcpy-zero, terminated,
}

skip_loop_lem :
    (fuel s l : ℕ) (mem : Memory)
    → IsString mem s l
    → l < fuel
    → skip_loop fuel s mem ≡ ok (s + l + 1)
unfolding skip_loop
skip_loop_lem zero s l mem str h = absurd (omega arith)
skip_loop_lem (suc fuel) s zero mem str h =
    let z : s + 0 ≡ s = omega arith in
    let t : (mem s == 0) ≡ true = ground (arith, ap mem (sym z) ∙ str.end) in
    rw (skip_loop, z, t) refl
skip_loop_lem (suc fuel) s (suc l) mem str h =
    let z : s + 0 ≡ s = omega arith in
    let nz = str.bytes 0 (omega arith) in
    let t : (mem s == 0) ≡ false = ground (arith, ap mem z, nz) in
    let e : s + 1 + l + 1 ≡ s + suc l + 1 = omega arith in
    let r = skip_loop_lem fuel (s + 1) l mem (IsString-tail mem s l str) (omega arith) in
    rw (skip_loop, t, r, e) refl

copy_loop-nul :
    (n d s : ℕ) (mem : Memory)
    → (mem s == 0) ≡ true
    → copy_loop (suc n) d s mem ≡ (d + 1, s + 1, suc n, store8 d (mem s) mem)
unfolding copy_loop
copy_loop-nul n d s mem t = rw (copy_loop, t) refl

copy_loop-byte :
    (n d s : ℕ) (mem : Memory)
    → (mem s == 0) ≡ false
    → copy_loop (suc n) d s mem ≡ copy_loop n (d + 1) (s + 1) (store8 d (mem s) mem)
unfolding copy_loop
copy_loop-byte n d s mem t = rw (copy_loop, t) refl

-- Equal parts give an equal state of the loop.
loop_state :
    {d d' s s' n n' : ℕ} {m m' : Memory}
    → d ≡ d'
    → s ≡ s'
    → n ≡ n'
    → m ≡ m'
    → ◌≡◌ {A = ℕ × ℕ × ℕ × Memory} (d, s, n, m) (d', s', n', m')
loop_state p q r t = λ i. (p i, q i, r i, t i)

-- The loop copies the whole string with its NUL, or `n` bytes.
copy_loop-all :
    (n d s l : ℕ) (mem : Memory)
    → IsString mem s l
    → l < n
    → Apart d (suc l) s (suc l)
    → copy_loop n d s mem ≡ (d + l + 1, s + l + 1, n - l, memcpy d s (suc l) mem)
copy_loop-all zero d s l mem str h away = absurd (omega arith)
copy_loop-all (suc n) d s zero mem str h away =
    copy_loop-nul n d s mem (at_end mem s str)
    ∙ loop_state (omega arith) (omega arith) (omega arith)
        (sym (memcpy-zero (d + 1) (s + 1) (store8 d (mem s) mem)) ∙ memcpy-suc d s 0 mem away)
copy_loop-all (suc n) d s (suc l) mem str h away =
    let c = mem s in
    copy_loop-byte n d s mem (before_end mem s l str)
    ∙ copy_loop-all n (d + 1) (s + 1) l (store8 d c mem)
        (IsString-store8 mem d c (s + 1) l (ground arith) (IsString-tail mem s l str)) (omega arith)
        (ground arith)
    ∙ loop_state (omega arith) (omega arith) (omega arith) (memcpy-suc d s (suc l) mem away)

copy_loop-part :
    (n d s l : ℕ) (mem : Memory)
    → IsString mem s l
    → n ≤ l
    → Apart d n s (suc l)
    → copy_loop n d s mem ≡ (d + n, s + n, 0, memcpy d s n mem)
unfolding copy_loop
copy_loop-part zero d s l mem str h away =
    loop_state (omega arith) (omega arith) refl (sym (memcpy-zero d s mem))
copy_loop-part (suc n) d s zero mem str h away = absurd (omega arith)
copy_loop-part (suc n) d s (suc l) mem str h away =
    let c = mem s in
    copy_loop-byte n d s mem (before_end mem s l str)
    ∙ copy_loop-part n (d + 1) (s + 1) l (store8 d c mem)
        (IsString-store8 mem d c (s + 1) l (ground arith) (IsString-tail mem s l str)) (omega arith)
        (ground arith)
    ∙ loop_state (omega arith) (omega arith) refl (memcpy-suc d s n mem (ground arith))

module _ (fuel dst src siz l : ℕ) (mem : Memory) (str : IsString mem src l) (enough : l < fuel)
    (away : Apart dst siz src (suc l)) where
  strlcpy_fits : l < siz - 1 → strlcpy fuel dst src siz mem ≡ ok (l, terminated dst src l mem)
  unfolding strlcpy finish_copy
  strlcpy_fits h =
      let r = copy_loop-all (siz - 1) dst src l mem str h (ground arith) in
      let t : (siz - 1 - l == 0) ≡ false = ground arith in
      let n : src + l + 1 - src - 1 ≡ l = omega arith in
      ap (finish_copy fuel src siz) r
      ∙ rw (finish_copy, t, n, memcpy-nul dst src l mem str.end) refl

  strlcpy_cut :
      0 < siz
      → siz - 1 ≤ l
      → strlcpy fuel dst src siz mem ≡ ok (l, terminated dst src (siz - 1) mem)
  unfolding strlcpy finish_copy
  strlcpy_cut pos h =
      let r = copy_loop-part (siz - 1) dst src l mem str h (ground arith) in
      let t : (siz == 0) ≡ false = ground arith in
      let after = terminated dst src (siz - 1) mem in
      let same : (i : ℕ) → src ≤ i → i ≤ src + l → after i ≡ mem i = λ i lo hi.
        store8_other (dst + (siz - 1)) 0 (memcpy dst src (siz - 1) mem) i (ground arith)
        ∙ memcpy_outside dst src (siz - 1) mem i (ground arith) in
      let skipped =
        skip_loop_lem fuel (src + (siz - 1)) (l - (siz - 1)) after
          (IsString-drop after src l (siz - 1) h (IsString-congr mem after src l same str))
          (omega arith) in
      let n : src + (siz - 1) + (l - (siz - 1)) + 1 - src - 1 ≡ l = omega arith in
      ap (finish_copy fuel src siz) r ∙ rw (t, skipped, n) refl

strlcpy_none :
    (fuel dst src l : ℕ) (mem : Memory)
    → IsString mem src l
    → l < fuel
    → strlcpy fuel dst src 0 mem ≡ ok (l, mem)
unfolding strlcpy copy_loop finish_copy
strlcpy_none fuel dst src l mem str h =
    let n : src + l + 1 - src - 1 ≡ l = omega arith in
    rw (skip_loop_lem fuel src l mem str h, n) refl

-- The smaller of two numbers.
abbrev pub lesser : ℕ → ℕ → ℕ
lesser m n = if ltb m n then m else n

-- For a string that does not overlap the destination, `strlcpy` returns its length and has copied as
-- many of its bytes as fit before a NUL, and nothing else is changed; with no room, nothing is. The fuel
-- is one more than the length of the string.
pub strlcpy_lem :
    (fuel dst src siz l : ℕ) (mem : Memory)
    → IsString mem src l
    → l < fuel
    → Apart dst siz src (suc l)
    → strlcpy fuel dst src siz mem
      ≡ ok (l, if siz == 0 then mem else terminated dst src (lesser l (siz - 1)) mem)
strlcpy_lem fuel dst src zero l mem str h away = strlcpy_none fuel dst src l mem str h
strlcpy_lem fuel dst src (suc n) l mem str h away =
    let t : (suc n == 0) ≡ false = ground arith in
    elim (Bool-cases (ltb l (suc n - 1))) [
      | inl e ↦ rw (t, e) (strlcpy_fits fuel dst src (suc n) l mem str h away (ground arith))
      | inr e ↦
          rw (t, e) (strlcpy_cut fuel dst src (suc n) l mem str h away (omega arith) (ground arith))
    ]
