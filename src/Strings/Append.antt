-- ===== src/Strings/Append.antt =====
-- `strlcat` is `memcpy` to the end of the first string of as much as fits, with a NUL behind it.
use bios_qemu_tz_arm.Prelude.{
  ℕ, zero, suc, ◌+◌, ◌-◌, ◌<◌, ◌≡◌, ◌≢◌, refl, sym, ap, ◌∙◌, true, false, ◌==◌, arith,
}
use bios_qemu_tz_arm.Run.{Run, ok}
use bios_qemu_tz_arm.Memory.{Memory, memcpy, store8}
use bios_qemu_tz_arm.Memory.Words.{Apart}
use bios_qemu_tz_arm.Strings.{find_end, append_loop, finish_append, strlcat}
use bios_qemu_tz_arm.Strings.Text.{
  IsString, IsString-tail, IsString-store8, at_end, before_end, memcpy-zero, memcpy-suc, terminated,
}
use bios_qemu_tz_arm.Strings.Copy.{lesser}

find_end_lem : (n d m : ℕ) (mem : Memory) → IsString mem d m → m < n → find_end n d mem ≡ d + m
unfolding find_end
find_end_lem zero d m mem str h = absurd (omega arith)
find_end_lem (suc n) d zero mem str h = rw (find_end, at_end mem d str) (omega arith)
find_end_lem (suc n) d (suc m) mem str h =
    rw (find_end, before_end mem d m str)
      (find_end_lem n (d + 1) m mem (IsString-tail mem d m str) (omega arith) ∙ omega arith)

find_end-full :
    (n d : ℕ) (mem : Memory) → ((i : ℕ) → i < n → mem (d + i) ≢ 0) → find_end n d mem ≡ d + n
unfolding find_end
find_end-full zero d mem none = omega arith
find_end-full (suc n) d mem none =
    let z : d + 0 ≡ d = omega arith in
    let t : (mem d == 0) ≡ false = ground (arith, ap mem z, none 0 (omega arith)) in
    let rest : (i : ℕ) → i < n → mem (d + 1 + i) ≢ 0 = λ i h e.
      let s : d + 1 + i ≡ d + suc i = omega arith in
      none (suc i) (omega arith) (ap mem (sym s) ∙ e) in
    rw (find_end, t) (find_end-full n (d + 1) mem rest ∙ omega arith)

append-nul :
    (fuel n d s : ℕ) (mem : Memory)
    → (mem s == 0) ≡ true
    → append_loop (suc fuel) n d s mem ≡ ok (d, s, mem)
unfolding append_loop
append-nul fuel n d s mem t = rw (append_loop, t) refl

append-skip :
    (fuel d s : ℕ) (mem : Memory)
    → (mem s == 0) ≡ false
    → append_loop (suc fuel) 1 d s mem ≡ append_loop fuel 1 d (s + 1) mem
unfolding append_loop
append-skip fuel d s mem t = rw (append_loop, t) refl

append-byte :
    (fuel n d s : ℕ) (mem : Memory)
    → (mem s == 0) ≡ false
    → append_loop (suc fuel) (suc (suc n)) d s mem
      ≡ append_loop fuel (suc n) (d + 1) (s + 1) (store8 d (mem s) mem)
unfolding append_loop
append-byte fuel n d s mem t =
    let o : (suc (suc n) == 1) ≡ false = ground arith in
    let p : suc (suc n) - 1 ≡ suc n = omega arith in rw (append_loop, t, o, p) refl

append_state :
    {d d' s s' : ℕ} {m m' : Memory}
    → d ≡ d'
    → s ≡ s'
    → m ≡ m'
    → ◌≡◌ {A = Run (ℕ × ℕ × Memory)} (ok (d, s, m)) (ok (d', s', m'))
append_state p q t = λ i. ok (p i, q i, t i)

append-full :
    (fuel d s l : ℕ) (mem : Memory)
    → IsString mem s l
    → l < fuel
    → append_loop fuel 1 d s mem ≡ ok (d, s + l, mem)
append-full zero d s l mem str h = absurd (omega arith)
append-full (suc fuel) d s zero mem str h =
    append-nul fuel 1 d s mem (at_end mem s str) ∙ append_state refl (omega arith) refl
append-full (suc fuel) d s (suc l) mem str h =
    append-skip fuel d s mem (before_end mem s l str)
    ∙ append-full fuel d (s + 1) l mem (IsString-tail mem s l str) (omega arith)
    ∙ append_state refl (omega arith) refl

append_loop_lem :
    (fuel n d s l : ℕ) (mem : Memory)
    → IsString mem s l
    → l < fuel
    → Apart d (suc n) s (suc l)
    → append_loop fuel (suc n) d s mem ≡ ok (d + lesser l n, s + l, memcpy d s (lesser l n) mem)
append_loop_lem zero n d s l mem str h away = absurd (omega arith)
append_loop_lem (suc fuel) n d s zero mem str h away =
    let k : lesser 0 n ≡ 0 = ground arith in
    rw k (
      append-nul fuel (suc n) d s mem (at_end mem s str)
      ∙ append_state (omega arith) (omega arith) (sym (memcpy-zero d s mem)))
append_loop_lem (suc fuel) zero d s (suc l) mem str h away =
    let k : lesser (suc l) 0 ≡ 0 = ground arith in
    rw k (
      append-full (suc fuel) d s (suc l) mem str h
      ∙ append_state (omega arith) refl (sym (memcpy-zero d s mem)))
append_loop_lem (suc fuel) (suc n) d s (suc l) mem str h away =
    let c = mem s in
    let k : lesser (suc l) (suc n) ≡ suc (lesser l n) = ground arith in
    rw k (
      append-byte fuel n d s mem (before_end mem s l str)
      ∙ append_loop_lem fuel n (d + 1) (s + 1) l (store8 d c mem)
          (IsString-store8 mem d c (s + 1) l (ground arith) (IsString-tail mem s l str))
          (omega arith) (ground arith)
      ∙ append_state (omega arith) (omega arith) (memcpy-suc d s (lesser l n) mem (ground arith)))

-- Let the destination hold a string shorter than its size, and the source a string that does not
-- overlap it. Then `strlcat` returns the sum of both lengths and has copied as many bytes of the source
-- as fit before a NUL to the end of the destination, and nothing else is changed.
pub strlcat_lem :
    (strlen : ℕ → Memory → ℕ) (fuel dst src siz m l : ℕ) (mem : Memory)
    → IsString mem dst m
    → IsString mem src l
    → m < siz
    → l < fuel
    → Apart dst siz src (suc l)
    → strlcat strlen fuel dst src siz mem
      ≡ ok (m + l, terminated (dst + m) src (lesser l (siz - m - 1)) mem)
unfolding strlcat finish_append
strlcat_lem strlen fuel dst src siz m l mem to from room enough away =
    let len : dst + m - dst ≡ m = omega arith in
    let t : (siz - m == 0) ≡ false = ground arith in
    let n : siz - m ≡ suc (siz - m - 1) = omega arith in
    let copied : append_loop fuel (siz - m) (dst + m) src mem
        ≡ ok (
          dst + m + lesser l (siz - m - 1),
          src + l,
          memcpy (dst + m) src (lesser l (siz - m - 1)) mem,
        ) =
      ap (λ k. append_loop fuel k (dst + m) src mem) n
      ∙ append_loop_lem fuel (siz - m - 1) (dst + m) src l mem from enough (ground arith) in
    let gone : m + (src + l - src) ≡ m + l = omega arith in
    ap (finish_append strlen fuel dst src siz mem) (find_end_lem siz dst m mem to room)
    ∙ rw (finish_append, len, t, len, copied, gone) refl
