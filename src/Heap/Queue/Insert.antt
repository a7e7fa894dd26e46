-- ===== src/Heap/Queue/Insert.antt =====
-- A tail queue as the list of its elements, and TAILQ_INSERT_TAIL.
use bios_qemu_tz_arm.Prelude.{
  ℕ, ◌+◌, ◌^◌, ◌≤◌, ◌≡◌, ◌≢◌, inl, inr, refl, ◌∙◌, List, [], ◌∷◌, ◌++◌, arith,
}
use bios_qemu_tz_arm.Memory.{Memory, load32, store32}
use bios_qemu_tz_arm.Memory.Words.{Apart, load32-store32, load32-store32-Apart}
use bios_qemu_tz_arm.Heap.Queue.{tailq_init, tailq_insert_tail}
use bios_qemu_tz_arm.Heap.Queue.Seg.{
  Seg, All, All-append, All-map, Links, Sep, Seg-store32, Reads-outside, Reads-end, Seg-end,
  Seg-append,
}

-- The links of the head and of the elements are words of the memory.
abbrev pub Word : ℕ → Type 0
Word x = x + 8 ≤ 2 ^ 32

-- The queue at `head` holds these elements in this order.
pub record IsQueue (m : Memory) (head : ℕ) (xs : List ℕ) : Type 0 where
  pub last : ℕ
  pub tail : load32 m (head + 4) ≡ last
  pub seg : Seg m head last xs
  pub ends : load32 m last ≡ 0
  pub sep : Sep (head ∷ xs)
  pub words : All Word (head ∷ xs)

pub tailq_init-IsQueue : (head : ℕ) (m : Memory) → Word head → IsQueue (tailq_init head m) head []
unfolding tailq_init
tailq_init-IsQueue head m w = record {
  last = head;
  tail = load32-store32 (head + 4) head (store32 head 0 m) (omega arith);
  seg = refl;
  ends =
      load32-store32-Apart (head + 4) head (store32 head 0 m) head (inr (omega arith))
      ∙ load32-store32 head 0 m (omega arith);
  sep = (tt, tt);
  words = (w, tt);
}

Sep-snoc : (e : ℕ) (xs : List ℕ) → Sep xs → All (Links e) xs → Sep (xs ++ e ∷ [])
Sep-snoc e [] s h = (tt, tt)
Sep-snoc e (x ∷ xs) (s, ss) (h, hs) =
    (All-append (Links x) xs (e ∷ []) s (ground arith, tt), Sep-snoc e xs ss hs)

module _ (m : Memory) (head e : ℕ) (xs : List ℕ) (q : IsQueue m head xs) where
  abbrev m1 : Memory
  m1 = store32 e 0 m

  abbrev m2 : Memory
  m2 = store32 (e + 4) q.last m1

  abbrev m3 : Memory
  m3 = store32 q.last e m2

  abbrev m4 : Memory
  m4 = store32 (head + 4) e m3

  module _ (nz : e ≢ 0) (w : Word e) (away : All (Links e) (head ∷ xs)) where
    last-away : Links e q.last
    last-away = Seg-end (Links e) m head q.last xs q.seg away.0 away.1

    last-Word : Word q.last
    last-Word = Seg-end Word m head q.last xs q.seg q.words.0 q.words.1

    last-tail : Apart q.last 4 (head + 4) 4
    last-tail =
        Seg-end (λ x. Apart x 4 (head + 4) 4) m head q.last xs q.seg (inl (omega arith))
          (All-map {P = Links head} {Q = λ x. Apart x 4 (head + 4) 4} xs (λ x l. ground arith)
            q.sep.0)

    tail2 : load32 m2 (head + 4) ≡ q.last
    tail2 =
        load32-store32-Apart (e + 4) q.last m1 (head + 4) (ground (arith, away.0))
        ∙ load32-store32-Apart e 0 m (head + 4) (ground (arith, away.0))
        ∙ q.tail

    tail1 : load32 m1 (head + 4) ≡ q.last
    tail1 = load32-store32-Apart e 0 m (head + 4) (ground (arith, away.0)) ∙ q.tail

    pub insert_is : tailq_insert_tail head e m ≡ m4
    unfolding tailq_insert_tail
    insert_is = rw (tail1, tail2) refl

    old-Seg : Seg m4 head q.last xs
    old-Seg =
        let s1 =
          Seg-store32 e 0 m head q.last xs
            (Reads-outside e head xs (ground (arith, away.0))
              (All-map {P = Links e} {Q = λ x. Apart e 4 x 8} xs (λ x l. ground arith) away.1))
            q.seg in
        let s2 =
          Seg-store32 (e + 4) q.last m1 head q.last xs
            (Reads-outside (e + 4) head xs (ground (arith, away.0)) (
              All-map {P = Links e} {Q = λ x. Apart (e + 4) 4 x 8} xs (λ x l. ground arith) away.1))
            s1 in
        let s3 =
          Seg-store32 q.last e m2 head q.last xs (Reads-end m head q.last xs q.seg q.sep) s2 in
        Seg-store32 (head + 4) e m3 head q.last xs
          (Reads-outside (head + 4) head xs (inr (omega arith)) (
            All-map {P = Links head} {Q = λ x. Apart (head + 4) 4 x 8} xs (λ x l. ground arith)
              q.sep.0))
          s3

    -- The element stands at the end of the queue behind `TAILQ_INSERT_TAIL`.
    pub tailq_insert_tail-IsQueue : IsQueue (tailq_insert_tail head e m) head (xs ++ e ∷ [])
    tailq_insert_tail-IsQueue = rw insert_is (record {
      last = e;
      tail = load32-store32 (head + 4) e m3 (omega arith);
      seg = Seg-append m4 head q.last e xs (e ∷ []) old-Seg (
        load32-store32-Apart (head + 4) e m3 q.last (ground (arith, last-tail))
            ∙ load32-store32 q.last e m2 (omega arith),
        load32-store32-Apart (head + 4) e m3 (e + 4) (ground (arith, away.0))
            ∙ load32-store32-Apart q.last e m2 (e + 4) (ground (arith, last-away))
            ∙ load32-store32 (e + 4) q.last m1 (omega (arith, last-Word)),
        nz,
        refl,
      );
      ends =
          load32-store32-Apart (head + 4) e m3 e (ground (arith, away.0))
          ∙ load32-store32-Apart q.last e m2 e (ground (arith, last-away))
          ∙ load32-store32-Apart (e + 4) q.last m1 e (inr (omega arith))
          ∙ load32-store32 e 0 m (omega arith);
      sep = Sep-snoc e (head ∷ xs) q.sep away;
      words = All-append Word (head ∷ xs) (e ∷ []) q.words (w, tt);
    })
