-- ===== src/Heap/Queue/Remove.antt =====
-- TAILQ_REMOVE takes its element out of the list.
use bios_qemu_tz_arm.Prelude.{
  ℕ, ◌+◌, ◌≡◌, ◌≢◌, ◌⊎◌, inl, inr, refl, ap, ◌∙◌, false, List, [], ◌∷◌, ◌++◌, ◌==◌, arith,
}
use bios_qemu_tz_arm.Memory.{Memory, load32, store32}
use bios_qemu_tz_arm.Memory.Words.{Apart, load32-store32, load32-store32-Apart}
use bios_qemu_tz_arm.Heap.Queue.{tailq_remove}
use bios_qemu_tz_arm.Heap.Queue.Seg.{
  All, All-append, All-split, All-map, Links, Sep, Seg-store32, Reads-outside, Reads-end, Seg-end,
  Seg-append, Seg-split,
}
use bios_qemu_tz_arm.Heap.Queue.Insert.{Word, IsQueue}

-- The elements before a piece are apart from each other and from the piece, and so is the piece.
pub Sep-split : (xs ys : List ℕ) → Sep (xs ++ ys) → Sep xs × Sep ys × All (λ x. All (Links x) ys) xs
Sep-split [] ys s = (tt, s, tt)
Sep-split (x ∷ xs) ys (s, ss) =
    let (a, b, c) = Sep-split xs ys ss in
    let (d, e) = All-split (Links x) xs ys s in ((d, a), b, (e, c))

Sep-join : (xs ys : List ℕ) → Sep xs → Sep ys → All (λ x. All (Links x) ys) xs → Sep (xs ++ ys)
Sep-join [] ys a b c = b
Sep-join (x ∷ xs) ys (s, a) b (c, cs) = (All-append (Links x) xs ys s c, Sep-join xs ys a b cs)

All-tail :
    (e : ℕ) (xs ys : List ℕ) → All (λ x. All (Links x) (e ∷ ys)) xs → All (λ x. All (Links x) ys) xs
All-tail e xs ys =
    All-map {P = λ x. All (Links x) (e ∷ ys)} {Q = λ x. All (Links x) ys} xs (λ x h. h.1)

-- The conclusion for a queue with the elements `xs`, `e` and `ys`.
abbrev Removed : Memory → ℕ → ℕ → List ℕ → List ℕ → Type 0
Removed m head e xs ys = IsQueue (tailq_remove head e m) head (xs ++ ys)

-- What `TAILQ_REMOVE` writes for the last element.
pub remove-end :
    (m : Memory) (head e p : ℕ)
    → load32 m e ≡ 0
    → load32 m (e + 4) ≡ p
    → Apart (head + 4) 4 e 8
    → tailq_remove head e m ≡ store32 p 0 (store32 (head + 4) p m)
unfolding tailq_remove
remove-end m head e p next prev away =
    rw
      (
        next,
        prev,
        load32-store32-Apart (head + 4) p m (e + 4) (ground (arith, away)) ∙ prev,
        load32-store32-Apart (head + 4) p m e (ground (arith, away)) ∙ next,
      )
      refl

-- What it writes for an element with another behind it.
pub remove-inside :
    (m : Memory) (head e p y : ℕ)
    → load32 m e ≡ y
    → y ≢ 0
    → load32 m (e + 4) ≡ p
    → Apart (y + 4) 4 e 8
    → tailq_remove head e m ≡ store32 p y (store32 (y + 4) p m)
unfolding tailq_remove
remove-inside m head e p y next nz prev away =
    let test : (y == 0) ≡ false = ground (arith, nz) in
    rw
      (
        next,
        test,
        prev,
        load32-store32-Apart (y + 4) p m (e + 4) (ground (arith, away)) ∙ prev,
        load32-store32-Apart (y + 4) p m e (ground (arith, away)) ∙ next,
      )
      refl

-- `e` is the last element.
remove_last :
    (m : Memory) (head e : ℕ) (xs : List ℕ) → IsQueue m head (xs ++ e ∷ []) → Removed m head e xs []
remove_last m head e xs q =
    let (p, s, (at_p, back, nz, end)) = Seg-split m head q.last xs (e ∷ []) q.seg in
    let (sep, sep_e, across) = Sep-split (head ∷ xs) (e ∷ []) q.sep in
    let (words, word_e) = All-split Word (head ∷ xs) (e ∷ []) q.words in
    let m1 = store32 (head + 4) p m in
    let m2 = store32 p 0 m1 in
    let next : load32 m e ≡ 0 = ap (load32 m) end ∙ q.ends in
    let p_word : Word p = Seg-end Word m head p xs s words.0 words.1 in
    let p_tail : Apart p 4 (head + 4) 4 =
      Seg-end (λ x. Apart x 4 (head + 4) 4) m head p xs s (inl (omega arith))
        (All-map {P = Links head} {Q = λ x. Apart x 4 (head + 4) 4} xs (λ x l. ground arith)
          sep.0) in
    let seg1 =
      Seg-store32 (head + 4) p m head p xs
        (Reads-outside (head + 4) head xs (inr (omega arith)) (
          All-map {P = Links head} {Q = λ x. Apart (head + 4) 4 x 8} xs (λ x l. ground arith)
            sep.0))
        s in
    let is : tailq_remove head e m ≡ m2 =
      remove-end m head e p next back (ground (arith, across.0.0)) in
    let whole : Sep (head ∷ (xs ++ [])) =
      Sep-join (head ∷ xs) [] sep tt (All-tail e (head ∷ xs) [] across) in
    rw is (record {
      last = p;
      tail =
          load32-store32-Apart p 0 m1 (head + 4) p_tail
          ∙ load32-store32 (head + 4) p m (omega (arith, p_word));
      seg =
          Seg-append m2 head p p xs []
            (Seg-store32 p 0 m1 head p xs (Reads-end m head p xs s sep) seg1) refl;
      ends = load32-store32 p 0 m1 (omega arith);
      sep = whole;
      words = All-append Word (head ∷ xs) [] words tt;
    })

-- `e` has the element `y` behind it.
remove_inner :
    (m : Memory) (head e y : ℕ) (xs ys : List ℕ)
    → IsQueue m head (xs ++ e ∷ y ∷ ys)
    → Removed m head e xs (y ∷ ys)
remove_inner m head e y xs ys q =
    let (p, s, (at_p, back, nz, (at_e, back_y, nz_y, rest))) =
      Seg-split m head q.last xs (e ∷ y ∷ ys) q.seg in
    let (sep, (sep_e, (sep_y, sep_ys)), across) = Sep-split (head ∷ xs) (e ∷ y ∷ ys) q.sep in
    let (words, (word_e, (word_y, word_ys))) = All-split Word (head ∷ xs) (e ∷ y ∷ ys) q.words in
    let m1 = store32 (y + 4) p m in
    let m2 = store32 p y m1 in
    let p_word : Word p = Seg-end Word m head p xs s words.0 words.1 in
    let p_away : All (Links p) (e ∷ y ∷ ys) =
      Seg-end (λ x. All (Links x) (e ∷ y ∷ ys)) m head p xs s across.0 across.1 in
    let is : tailq_remove head e m ≡ m2 =
      remove-inside m head e p y at_e nz_y back (ground (arith, sep_e.0)) in
    let seg1 =
      Seg-store32 (y + 4) p m head p xs
        (Reads-outside (y + 4) head xs (ground (arith, across.0.1.0)) (
          All-map {P = λ x. All (Links x) (e ∷ y ∷ ys)} {Q = λ x. Apart (y + 4) 4 x 8} xs
            (λ x l. ground (arith, l.1.0)) across.1))
        s in
    let rest1 =
      Seg-store32 (y + 4) p m y q.last ys
        (Reads-outside (y + 4) y ys (inr (omega arith))
          (All-map {P = Links y} {Q = λ x. Apart (y + 4) 4 x 8} ys (λ x l. ground arith) sep_y))
        rest in
    let rest2 =
      Seg-store32 p y m1 y q.last ys
        (Reads-outside p y ys (ground (arith, p_away.1.0))
          (All-map {P = Links p} {Q = λ x. Apart p 4 x 8} ys (λ x l. ground arith) p_away.1.1))
        rest1 in
    let l_y : (q.last ≡ y) ⊎ Links y q.last =
      Seg-end (λ x. (x ≡ y) ⊎ Links y x) m y q.last ys rest (inl refl)
        (All-map {P = Links y} {Q = λ x. (x ≡ y) ⊎ Links y x} ys (λ x l. inr l) sep_y) in
    let l_p : Links p q.last = Seg-end (Links p) m y q.last ys rest p_away.1.0 p_away.1.1 in
    let l_head : Links head q.last =
      Seg-end (Links head) m y q.last ys rest across.0.1.0 across.0.1.1 in
    let p_tail : Apart p 4 (head + 4) 4 =
      Seg-end (λ x. Apart x 4 (head + 4) 4) m head p xs s (inl (omega arith))
        (All-map {P = Links head} {Q = λ x. Apart x 4 (head + 4) 4} xs (λ x l. ground arith)
          sep.0) in
    rw is (record {
      last = q.last;
      tail =
          load32-store32-Apart p y m1 (head + 4) p_tail
          ∙ load32-store32-Apart (y + 4) p m (head + 4) (ground (arith, across.0.1.0))
          ∙ q.tail;
      seg =
          Seg-append m2 head p q.last xs (y ∷ ys)
            (Seg-store32 p y m1 head p xs (Reads-end m head p xs s sep) seg1)
            (
              load32-store32 p y m1 (omega (arith, word_y)),
              load32-store32-Apart p y m1 (y + 4) (ground (arith, p_away.1.0))
                  ∙ load32-store32 (y + 4) p m (omega (arith, p_word)),
              nz_y,
              rest2,
            );
      ends =
          load32-store32-Apart p y m1 q.last (ground (arith, l_p))
          ∙ load32-store32-Apart (y + 4) p m q.last (ground (arith, l_y))
          ∙ q.ends;
      sep =
          Sep-join (head ∷ xs) (y ∷ ys) sep (sep_y, sep_ys)
            (All-tail e (head ∷ xs) (y ∷ ys) across);
      words = All-append Word (head ∷ xs) (y ∷ ys) words (word_y, word_ys);
    })

-- `TAILQ_REMOVE` of any element of a queue leaves the queue of the others, in their order.
pub tailq_remove-IsQueue :
    (m : Memory) (head e : ℕ) (xs ys : List ℕ)
    → IsQueue m head (xs ++ e ∷ ys)
    → IsQueue (tailq_remove head e m) head (xs ++ ys)
tailq_remove-IsQueue m head e xs [] q = remove_last m head e xs q
tailq_remove-IsQueue m head e xs (y ∷ ys) q = remove_inner m head e y xs ys q
