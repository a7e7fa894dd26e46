-- ===== src/Heap/Debug/Frame.antt =====
-- Which bytes the operations on the queue and on a header change, and what reads only others.
use bios_qemu_tz_arm.Prelude.{
  ℕ, ◌+◌, ◌-◌, ◌/◌, ◌%◌, ◌^◌, ◌≤◌, ◌<◌, ◌≡◌, ◌≢◌, ◌⊎◌, inr, sym, ap, ◌∙◌, Bool, List, [], ◌∷◌, ◌++◌,
  if◌then◌else◌, arith,
}
use bios_qemu_tz_arm.Memory.{Memory, store8, load32, store32}
use bios_qemu_tz_arm.Memory.Words.{
  store8_self, store8_other, store32_outside, load32-store32, load32-store32-Apart,
  load32-store8-Apart, load32-congr,
}
use bios_qemu_tz_arm.Heap.Queue.{tailq_insert_tail, tailq_remove}
use bios_qemu_tz_arm.Heap.Queue.Seg.{Seg, All, All-split, Links, Seg-end, Seg-split}
use bios_qemu_tz_arm.Heap.Queue.Insert.{Word, IsQueue, insert_is}
use bios_qemu_tz_arm.Heap.Queue.Remove.{Sep-split, remove-end, remove-inside}
use bios_qemu_tz_arm.Heap.Debug.{fill_elem, mark, mark_at}

-- The two memories agree on a block.
abbrev pub Same : Memory → Memory → ℕ → ℕ → Type 0
Same m m' a n = (i : ℕ) → a ≤ i → i < a + n → m i ≡ m' i

-- The byte is outside a link.
abbrev pub Beside : ℕ → ℕ → Type 0
Beside i x = (i < x) ⊎ (x + 8 ≤ i)

pub Seg-congr :
    (m m' : Memory) (link end : ℕ) (xs : List ℕ)
    → Same m m' link 8
    → All (λ x. Same m m' x 8) xs
    → Seg m link end xs
    → Seg m' link end xs
Seg-congr m m' link end [] h hs s = s
Seg-congr m m' link end (x ∷ xs) h (hx, hs) (s, s', nz, ss) = (
  sym (load32-congr m m' link (λ i lo hi. h i lo (omega arith))) ∙ s,
  sym (load32-congr m m' (x + 4) (λ i lo hi. hx i (omega arith) (omega arith))) ∙ s',
  nz,
  Seg-congr m m' x end xs hx hs ss,
)

-- A queue stays if no link changes.
pub IsQueue-congr :
    (m m' : Memory) (head : ℕ) (xs : List ℕ)
    → All (λ x. Same m m' x 8) (head ∷ xs)
    → IsQueue m head xs
    → IsQueue m' head xs
IsQueue-congr m m' head xs (h, hs) q =
    let l = Seg-end (λ x. Same m m' x 8) m head q.last xs q.seg h hs in
    record {
      last = q.last;
      tail =
          sym (load32-congr m m' (head + 4) (λ i lo hi. h i (omega arith) (omega arith))) ∙ q.tail;
      seg = Seg-congr m m' head q.last xs h hs q.seg;
      ends = sym (load32-congr m m' q.last (λ i lo hi. l i lo (omega arith))) ∙ q.ends;
      sep = q.sep;
      words = q.words;
    }

-- A queue operation changes links only.
module _ (m : Memory) (head : ℕ) (i : ℕ) where
  pub insert-Beside :
      (e : ℕ) (xs : List ℕ)
      → IsQueue m head xs
      → e ≢ 0
      → Word e
      → All (Links e) (head ∷ xs)
      → All (Beside i) (e ∷ head ∷ xs)
      → tailq_insert_tail head e m i ≡ m i
  insert-Beside e xs q nz w away (he, (hh, hs)) =
      let l : Beside i q.last = Seg-end (Beside i) m head q.last xs q.seg hh hs in
      let m1 = store32 e 0 m in
      let m2 = store32 (e + 4) q.last m1 in
      let m3 = store32 q.last e m2 in
      rw (insert_is m head e xs q nz w away) (
        store32_outside (head + 4) e m3 i (ground (arith, hh))
        ∙ store32_outside q.last e m2 i (ground (arith, l))
        ∙ store32_outside (e + 4) q.last m1 i (ground (arith, he))
        ∙ store32_outside e 0 m i (ground (arith, he)))

  pub remove-Beside :
      (e : ℕ) (xs ys : List ℕ)
      → IsQueue m head (xs ++ e ∷ ys)
      → All (Beside i) (head ∷ (xs ++ e ∷ ys))
      → tailq_remove head e m i ≡ m i
  remove-Beside e xs [] q h =
      let (p, s, (at_p, back, nz, end)) = Seg-split m head q.last xs (e ∷ []) q.seg in
      let (hx, he) = All-split (Beside i) (head ∷ xs) (e ∷ []) h in
      let (_, _, across) = Sep-split (head ∷ xs) (e ∷ []) q.sep in
      let hp : Beside i p = Seg-end (Beside i) m head p xs s hx.0 hx.1 in
      rw
        (
          remove-end m head e p (ap (load32 m) end ∙ q.ends) back (ground (arith, across.0.0)),
          store32_outside p 0 (store32 (head + 4) p m) i (ground (arith, hp)),
        )
        (store32_outside (head + 4) p m i (ground (arith, hx.0)))
  remove-Beside e xs (y ∷ ys) q h =
      let (p, s, (at_p, back, nz, (at_e, back_y, nz_y, rest))) =
        Seg-split m head q.last xs (e ∷ y ∷ ys) q.seg in
      let (hx, he) = All-split (Beside i) (head ∷ xs) (e ∷ y ∷ ys) h in
      let (_, sep, _) = Sep-split (head ∷ xs) (e ∷ y ∷ ys) q.sep in
      let hp : Beside i p = Seg-end (Beside i) m head p xs s hx.0 hx.1 in
      rw
        (
          remove-inside m head e p y at_e nz_y back (ground (arith, sep.0.0)),
          store32_outside p y (store32 (y + 4) p m) i (ground (arith, hp)),
        )
        (store32_outside (y + 4) p m i (ground (arith, he.1.0)))

module _ (cp n fname lineno : ℕ) (bufimode : Bool) (m : Memory) (big : 21 ≤ n)
    (fits : cp + n ≤ 2 ^ 32) where
  abbrev filled : Memory
  filled = fill_elem cp n fname lineno bufimode m

  fill-mark_at : mark_at cp n ≡ cp + n - 1
  fill-mark_at = omega arith

  -- The stores of `fill_elem` before its last.
  abbrev m2 : Memory
  m2 = store32 (cp + 12) fname (store32 (cp + 8) n m)

  abbrev m3 : Memory
  m3 = store8 (cp + 17) (lineno / 2 ^ 8 % 2 ^ 8) (store8 (cp + 16) (lineno % 2 ^ 8) m2)

  abbrev m4 : Memory
  m4 = store8 (cp + 18) (if bufimode then 1 else 0) m3

  pub fill-outside : (i : ℕ) → (i < cp + 8) ⊎ (cp + n ≤ i) → filled i ≡ m i
  unfolding fill_elem
  fill-outside i h =
      store8_other (mark_at cp n) (mark cp) m4 i (ground arith)
      ∙ store8_other (cp + 18) (if bufimode then 1 else 0) m3 i (ground arith)
      ∙ store8_other (cp + 17) (lineno / 2 ^ 8 % 2 ^ 8) (store8 (cp + 16) (lineno % 2 ^ 8) m2) i
          (ground arith)
      ∙ store8_other (cp + 16) (lineno % 2 ^ 8) m2 i (ground arith)
      ∙ store32_outside (cp + 12) fname (store32 (cp + 8) n m) i (ground arith)
      ∙ store32_outside (cp + 8) n m i (ground arith)

  pub fill-len : n < 2 ^ 32 → load32 filled (cp + 8) ≡ n
  unfolding fill_elem
  fill-len small =
      load32-store8-Apart (mark_at cp n) (mark cp) m4 (cp + 8) (inr (omega arith))
      ∙ load32-store8-Apart (cp + 18) (if bufimode then 1 else 0) m3 (cp + 8) (inr (omega arith))
      ∙ load32-store8-Apart (cp + 17) (lineno / 2 ^ 8 % 2 ^ 8)
          (store8 (cp + 16) (lineno % 2 ^ 8) m2) (cp + 8) (inr (omega arith))
      ∙ load32-store8-Apart (cp + 16) (lineno % 2 ^ 8) m2 (cp + 8) (inr (omega arith))
      ∙ load32-store32-Apart (cp + 12) fname (store32 (cp + 8) n m) (cp + 8) (inr (omega arith))
      ∙ load32-store32 (cp + 8) n m (omega arith)

  pub fill-mark : filled (mark_at cp n) ≡ mark cp
  unfolding fill_elem
  fill-mark = store8_self _ _ _
