-- ===== src/Heap/Debug/Check.antt =====
-- What the loops over the queue find: the tests of the links pass in every queue, so that the marks
-- decide.
use bios_qemu_tz_arm.Prelude.{
  ℕ, zero, suc, ◌+◌, ◌<◌, ◌≡◌, ◌≢◌, ◌⊎◌, inl, inr, refl, ap, ◌∙◌, Bool, true, false, not, List, [],
  ◌∷◌, ◌==◌, ◌&&◌, if◌then◌else◌, length, arith,
}
use bios_qemu_tz_arm.Run.{Run, ok, hang}
use bios_qemu_tz_arm.Memory.{Memory, load32}
use bios_qemu_tz_arm.Heap.Queue.{tailq_first, tailq_next, tailq_prev}
use bios_qemu_tz_arm.Heap.Queue.Seg.{Seg, All}
use bios_qemu_tz_arm.Heap.Queue.Insert.{IsQueue}
use bios_qemu_tz_arm.Heap.Debug.{
  mdbg_check_buf_end, mdbg_check_buf, check_loop, Heap, Allocator, mdbg_check,
}

-- What TAILQ_PREV finds for an element whose pointer is at `link`.
abbrev Before : Memory → ℕ → Type 0
Before m link = (load32 m (load32 m (link + 4)) ≡ 0) ⊎ (load32 m (load32 m (link + 4)) ≡ link)

next_test :
    (m : Memory) (link e y : ℕ)
    → load32 m link ≡ e
    → load32 m (e + 4) ≡ link
    → (y ≡ 0) ⊎ (load32 m (y + 4) ≡ e)
    → (not (y == 0) && not (tailq_prev y m == e)) ≡ false
unfolding tailq_prev
next_test m link e y at back (inl z) = rw z refl
next_test m link e y at back (inr b) =
    let t : tailq_prev y m ≡ e =
      ap (λ p. load32 m (load32 m (p + 4))) b ∙ ap (load32 m) back ∙ at in
    ground (arith, t)

prev_test :
    (m : Memory) (link e : ℕ)
    → Before m link
    → load32 m link ≡ e
    → load32 m (e + 4) ≡ link
    → (not (tailq_prev e m == 0) && not (tailq_next (tailq_prev e m) m == e)) ≡ false
unfolding tailq_prev tailq_next
prev_test m link e (inl z) at back =
    let t : tailq_prev e m ≡ 0 = ap (λ p. load32 m (load32 m (p + 4))) back ∙ z in ground (arith, t)
prev_test m link e (inr b) at back =
    let t : tailq_prev e m ≡ link = ap (λ p. load32 m (load32 m (p + 4))) back ∙ b in
    let n : load32 m (tailq_prev e m) ≡ e = ap (load32 m) t ∙ at in ground (arith, n)

check_buf-links :
    (m : Memory) (link e y : ℕ)
    → Before m link
    → load32 m link ≡ e
    → load32 m (e + 4) ≡ link
    → e ≢ 0
    → load32 m e ≡ y
    → (y ≡ 0) ⊎ (load32 m (y + 4) ≡ e)
    → mdbg_check_buf e m ≡ mdbg_check_buf_end e m
unfolding mdbg_check_buf tailq_next
check_buf-links m link e y b at back nz next after =
    let t : (e == 0) ≡ false = ground (arith, nz) in
    rw (t, next, next_test m link e y at back after, prev_test m link e b at back) refl

-- The elements of a queue pass the test of the links.
abbrev pub Sound : Memory → List ℕ → Type 0
Sound m xs = All (λ e. mdbg_check_buf e m ≡ mdbg_check_buf_end e m) xs

Sound-Seg :
    (m : Memory) (link end : ℕ) (xs : List ℕ)
    → Before m link
    → Seg m link end xs
    → load32 m end ≡ 0
    → Sound m xs
Sound-Seg m link end [] b s z = tt
Sound-Seg m link end (e ∷ []) b (at, back, nz, s) z =
    (check_buf-links m link e 0 b at back nz (ap (load32 m) s ∙ z) (inl refl), tt)
Sound-Seg m link end (e ∷ y ∷ ys) b (at, back, nz, (next, after, s, ss)) z = (
  check_buf-links m link e y b at back nz next (inr after),
  Sound-Seg m e end (y ∷ ys) (inr (ap (load32 m) back ∙ at)) (next, after, s, ss) z,
)

pub Sound-IsQueue : (m : Memory) (head : ℕ) (xs : List ℕ) → IsQueue m head xs → Sound m xs
Sound-IsQueue m head xs q =
    Sound-Seg m head q.last xs (inl (ap (load32 m) q.tail ∙ q.ends)) q.seg q.ends

-- Every buffer of the list ends with its mark.
unfoldable pub intact : List ℕ → Memory → Bool
intact [] mem = true
intact (e ∷ es) mem = mdbg_check_buf_end e mem && intact es mem

check_step :
    (m : Memory) (fuel e : ℕ)
    → (e == 0) ≡ false
    → check_loop (suc fuel) e m
      ≡ elim (mdbg_check_buf e m) [ true ↦ check_loop fuel (tailq_next e m) m | false ↦ hang ]
unfolding check_loop
check_step m fuel e h = rw (check_loop, h) refl

check_end : (m : Memory) (fuel : ℕ) → check_loop (suc fuel) 0 m ≡ ok tt
unfolding check_loop
check_end m fuel = refl

check_branch :
    (clean rest : Bool) (next : Run (Unit {0}))
    → next ≡ (if rest then ok tt else hang)
    → elim clean [ true ↦ next | false ↦ hang ] ≡ (if clean && rest then ok tt else hang)
check_branch true rest next e = e
check_branch false rest next e = refl

check-Seg :
    (m : Memory) (fuel link end : ℕ) (xs : List ℕ)
    → Seg m link end xs
    → load32 m end ≡ 0
    → Sound m xs
    → length xs < fuel
    → check_loop fuel (load32 m link) m ≡ (if intact xs m then ok tt else hang)
unfolding intact tailq_next
check-Seg m zero link end xs s z ok_s h = absurd (omega arith)
check-Seg m (suc fuel) link end [] s z ok_s h = rw (s, z) (check_end m fuel)
check-Seg m (suc fuel) link end (x ∷ xs) (at, back, nz, s) z (ok_x, ok_s) h =
    rw (at, check_step m fuel x (ground (arith, nz)), ok_x)
      (check_branch (mdbg_check_buf_end x m) (intact xs m) (check_loop fuel (load32 m x) m)
        (check-Seg m fuel x end xs s z ok_s (omega arith)))

module _ {S : Type 0} (a : Allocator S) (mdbg_head : ℕ) (fuel : ℕ) (h : Heap S) (xs : List ℕ)
    (q : IsQueue h.mem mdbg_head xs) (enough : length xs < fuel) where
  -- On a queue with fewer buffers than rounds, `mdbg_check` returns if every buffer ends with its mark,
  -- and stops the machine if some buffer does not.
  pub mdbg_check-intact : mdbg_check a mdbg_head fuel h ≡ (if intact xs h.mem then ok tt else hang)
  unfolding mdbg_check tailq_first
  mdbg_check-intact =
      check-Seg h.mem fuel mdbg_head q.last xs q.seg q.ends (Sound-IsQueue h.mem mdbg_head xs q)
        enough
