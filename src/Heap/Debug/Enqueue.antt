-- ===== src/Heap/Debug/Enqueue.antt =====
-- A new block on the queue of `mdbg_buf_alloc`: TAILQ_INSERT_TAIL and the stores into its header.
use bios_qemu_tz_arm.Prelude.{
  ℕ, ◌+◌, ◌%◌, ◌^◌, ◌≤◌, ◌<◌, ◌≡◌, ◌≢◌, ◌⊎◌, inl, sym, ◌∙◌, Bool, List, [], ◌∷◌, ◌++◌, arith,
}
use bios_qemu_tz_arm.Memory.{Memory}
use bios_qemu_tz_arm.Memory.Words.{Apart}
use bios_qemu_tz_arm.Heap.Queue.{tailq_insert_tail}
use bios_qemu_tz_arm.Heap.Queue.Seg.{All, All-append, Links}
use bios_qemu_tz_arm.Heap.Queue.Insert.{IsQueue, tailq_insert_tail-IsQueue}
use bios_qemu_tz_arm.Heap.Debug.{len_of, fill_elem, mdbg_check_buf_end}
use bios_qemu_tz_arm.Heap.Debug.Frame.{
  Same, Beside, IsQueue-congr, insert-Beside, fill-outside, fill-len, fill-mark,
}
use bios_qemu_tz_arm.Heap.Debug.Invariant.{
  IsBuf, IsHeap, Kept, Kept-len, Wide, All-zip, bufs-congr, wide-congr, IsHeap-congr, data-Beside,
  Wides-snoc,
}

-- A block of `n` bytes at `cp` for a new buffer, in a heap with these buffers.
pub record Fresh (m : Memory) (head : ℕ) (es : List ℕ) (cp n : ℕ) : Type 0 where
  pub nonzero : cp ≢ 0
  pub aligned : cp % 4 ≡ 0
  pub fits : cp + n ≤ 2 ^ 32
  pub away_head : Apart head 8 cp n
  pub away : All (λ e. Apart e (len_of m e) cp n) es

-- A step of the allocator below writes to no block in use, nor to the head of the queue.
pub record Quiet (m m' : Memory) (head : ℕ) (es : List ℕ) : Type 0 where
  pub on_head : Same m m' head 8
  pub on_bufs : All (λ e. Same m m' e (len_of m e)) es

pub Quiet-IsHeap :
    (m m' : Memory) (head : ℕ) (es : List ℕ)
    → Quiet m m' head es
    → IsHeap m head es
    → IsHeap m' head es
Quiet-IsHeap m m' head es s h =
    IsHeap-congr m m' head es h
      (
        s.on_head,
        All-zip {P = λ e. Same m m' e (len_of m e)} {Q = IsBuf m head} {R = λ e. Same m m' e 8} es
            (λ e f b i lo hi. f i lo (omega (arith, b.big))) s.on_bufs h.bufs,
      )
      (All-zip {P = λ e. Same m m' e (len_of m e)} {Q = IsBuf m head} {R = Kept m m'} es
        (λ e f b i p. f i (ground (arith, b.big)) (ground (arith, b.big))) s.on_bufs h.bufs)

-- The data of the buffers and what stands before it, up to the link, are as they were.
abbrev pub Preserves : Memory → Memory → List ℕ → Type 0
Preserves m m' es = All (λ e. (i : ℕ) → e + 8 ≤ i → i < e + len_of m e → m' i ≡ m i) es

Preserves-Kept :
    (m m' : Memory) (head : ℕ) (es : List ℕ)
    → All (IsBuf m head) es
    → Preserves m m' es
    → All (Kept m m') es
Preserves-Kept m m' head es b k =
    All-zip {P = IsBuf m head} {Q = λ e. (i : ℕ) → e + 8 ≤ i → i < e + len_of m e → m' i ≡ m i}
      {R = Kept m m'} es
      (λ e b same i p. sym (same i (ground (arith, b.big)) (ground (arith, b.big)))) b k

module _ (m : Memory) (head : ℕ) (es : List ℕ) (h : IsHeap m head es) (cp n : ℕ) (big : 21 ≤ n)
    (small : n < 2 ^ 32) (f : Fresh m head es cp n) (fname lineno : ℕ) (bufimode : Bool) where
  abbrev queued : Memory
  queued = tailq_insert_tail head cp m

  abbrev filled : Memory
  filled = fill_elem cp n fname lineno bufimode queued

  Links-away : All (Links cp) (head ∷ es)
  Links-away = (
    ground (arith, f.away_head),
    All-zip {P = λ e. Apart e (len_of m e) cp n} {Q = IsBuf m head} {R = Links cp} es
        (λ e a b. ground (arith, a, b.big)) f.away h.bufs,
  )

  IsQueue-after : IsQueue queued head (es ++ cp ∷ [])
  IsQueue-after =
      tailq_insert_tail-IsQueue m head cp es h.queue f.nonzero (omega (arith, f.fits)) Links-away

  fill_links : All (λ x. Same queued filled x 8) (head ∷ (es ++ cp ∷ []))
  fill_links =
      let out : (i : ℕ) → (i < cp + 8) ⊎ (cp + n ≤ i) → queued i ≡ filled i =
        λ i o. sym (fill-outside cp n fname lineno bufimode queued big f.fits i o) in
      (
        (λ i lo hi. out i (ground (arith, f.away_head))),
        All-append (λ x. Same queued filled x 8) es (cp ∷ [])
            (All-zip {P = λ e. Apart e (len_of m e) cp n} {Q = IsBuf m head}
              {R = λ x. Same queued filled x 8} es
              (λ e a b i lo hi. out i (ground (arith, a, b.big))) f.away h.bufs)
            ((λ i lo hi. out i (inl (omega arith))), tt),
      )

  -- Behind its link no buffer in use has changed.
  pub filled-Preserves : Preserves m filled es
  filled-Preserves =
      All-zip {P = λ e. Apart e (len_of m e) cp n}
        {Q = λ e. (i : ℕ) → e + 8 ≤ i → i < e + len_of m e → All (Beside i) (head ∷ es)}
        {R = λ e. (i : ℕ) → e + 8 ≤ i → i < e + len_of m e → filled i ≡ m i} es
        (λ e a d i lo hi.
          fill-outside cp n fname lineno bufimode queued big f.fits i (ground (arith, a))
          ∙ insert-Beside m head i cp es h.queue f.nonzero (omega (arith, f.fits)) Links-away
              (ground (arith, a), d i lo hi))
        f.away (data-Beside m head es h.bufs h.wide)

  kept : All (Kept m filled) es
  kept = Preserves-Kept m filled head es h.bufs filled-Preserves

  len_new : len_of filled cp ≡ n
  len_new = fill-len cp n fname lineno bufimode queued big f.fits small

  new-IsBuf : IsBuf filled head cp
  unfolding mdbg_check_buf_end
  new-IsBuf = record {
    big = omega (arith, len_new);
    fits = omega (arith, len_new, f.fits);
    aligned = f.aligned;
    marked = rw (len_new, fill-mark cp n fname lineno bufimode queued big f.fits) (ground arith);
    away = rw len_new f.away_head;
  }

  -- The new buffer stands behind the others.
  pub queue_and_fill-IsHeap : IsHeap filled head (es ++ cp ∷ [])
  queue_and_fill-IsHeap = record {
    queue = IsQueue-congr queued filled head (es ++ cp ∷ []) fill_links IsQueue-after;
    bufs =
        All-append (IsBuf filled head) es (cp ∷ []) (bufs-congr m filled head es h.bufs kept)
          (new-IsBuf, tt);
    wide = Wides-snoc filled cp es (wide-congr m filled head es h.wide kept) (
        All-zip {P = λ e. Apart e (len_of m e) cp n} {Q = Kept m filled} {R = λ x. Wide filled x cp}
          es (λ e a k. rw (len_new, Kept-len m filled e k) a) f.away kept);
  }
