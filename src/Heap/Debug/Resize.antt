-- ===== src/Heap/Debug/Resize.antt =====
-- `mdbg_realloc`: what the buffer holds behind the call.
use mathlib.Core.List.{append_assoc}
use bios_qemu_tz_arm.Prelude.{
  ℕ, ◌+◌, ◌-◌, ◌%◌, ◌^◌, ◌≤◌, ◌<◌, ◌≡◌, ◌≢◌, ◌⊎◌, inl, inr, refl, sym, ap, ◌∙◌, true, false, not,
  ◌||◌, List, [], ◌∷◌, ◌++◌, ◌==◌, ltb, Bool-cases, if◌then◌else◌, arith,
}
use bios_qemu_tz_arm.Run.{Run, ok, ◌>>=◌, Returns}
use bios_qemu_tz_arm.Memory.{memcpy}
use bios_qemu_tz_arm.Memory.Words.{load32-congr, memcpy_inside}
use bios_qemu_tz_arm.Heap.Debug.{
  Allocator, Heap, elem_size, before, len_of, mdbg_malloc, mdbg_free, mdbg_realloc,
}
use bios_qemu_tz_arm.Heap.Debug.Invariant.{Wide, IsBuf, IsHeap, All-remove}
use bios_qemu_tz_arm.Heap.Debug.Alloc.{Promise, Allocated, mdbg_malloc-IsHeap}
use bios_qemu_tz_arm.Heap.Debug.Enqueue.{Preserves}
use bios_qemu_tz_arm.Heap.Debug.Free.{Releases, mdbg_free-IsHeap}
use bios_qemu_tz_arm.Heap.Debug.Copied.{
  returned, returned_is, All-last, Wides-last, copied-outside, copied-IsHeap, copied-Preserves,
  copied-len,
}
use bios_qemu_tz_arm.Heap.Debug.Contents.{
  Preserves-trans, mdbg_malloc-Preserves, mdbg_free-Preserves,
}

module _ {S : Type 0} (a : Allocator S) (head e : ℕ) (xs ys : List ℕ) (h : Heap S) where
  abbrev all_bufs : List ℕ
  all_bufs = xs ++ e ∷ ys

  -- The size that the buffer has.
  abbrev osize : ℕ
  osize = len_of h.mem e - 21

  -- A new buffer has the contents of the old one, as much of it as fits, and 0x55 behind them; the old one
  -- is off the queue, and the others are as they were.
  pub record Moved (size buf : ℕ) (h' : Heap S) : Type 0 where
    pub new : ℕ
    pub at : buf ≡ new + 20
    pub elsewhere : new ≢ e
    pub sound : IsHeap h'.mem head ((xs ++ ys) ++ new ∷ [])
    pub len : len_of h'.mem new ≡ size + 21
    pub kept : (i : ℕ) → i < size → i < osize → h'.mem (buf + i) ≡ h.mem (e + 20 + i)
    pub filled : (i : ℕ) → i < size → osize ≤ i → h'.mem (buf + i) ≡ 0x55
    pub others : Preserves h.mem h'.mem (xs ++ ys)

  -- The same size gives the same buffer. Otherwise there was no room, and no buffer has changed, or
  -- the buffer was moved.
  abbrev pub Resized : ℕ → ℕ × Heap S → Type 0
  Resized size (buf, h') =
      ((size ≡ osize) × (buf ≡ e + 20) × (h' ≡ h))
      ⊎ (((size ≢ osize)
            × (buf ≡ 0)
            × IsHeap h'.mem head all_bufs
            × Preserves h.mem h'.mem all_bufs)
          ⊎ ((size ≢ osize) × Moved size buf h'))

  module _ (sound : IsHeap h.mem head all_bufs) (fname lineno size : ℕ) (some_bytes : 0 < size)
      (small : size + 21 < 2 ^ 32) (p : Promise a head (size + 21) all_bufs h)
      (releases : (new : ℕ) (h' : Heap S)
        → IsHeap h'.mem head (xs ++ e ∷ (ys ++ new ∷ []))
        → Releases a head e xs (ys ++ new ∷ []) h') where
    -- The end of the call, for a buffer of `n` bytes: the copy and the release.
    abbrev finish : ℕ → ℕ × Heap S → Run (ℕ × Heap S)
    finish n (buf, h1) = elim (buf == 0) [
      | true ↦ ok (0, h1)
      | false ↦ do
        let k = if ltb size n then size else n
        h2 ← mdbg_free a head (e + 20) (record h1 { mem = memcpy buf (e + 20) k h1.mem })
        ok (buf, h2)
    ]

    -- `mdbg_realloc` behind its tests.
    abbrev behind : ℕ → Run (ℕ × Heap S)
    behind n = elim (size == n) [
      | true ↦ ok (e + 20, h)
      | false ↦ mdbg_malloc a head fname lineno size h >>= finish n
    ]

    realloc-behind : mdbg_realloc a head fname lineno (e + 20) size h ≡ behind osize
    unfolding mdbg_realloc
    realloc-behind =
        let (b, bs) = All-remove (IsBuf h.mem head) e xs ys sound.bufs in
        let header : before (e + 20) elem_size ≡ e = omega (arith, b.big, b.fits) in
        let fine : (size == 0 || not ((e + 20) % 4 == 0)) ≡ false = ground (arith, b.aligned) in
        let t : (e + 20 == 0) ≡ false = ground arith in
        let o : before (len_of h.mem e) (elem_size + 1) ≡ osize = omega (arith, b.big, b.fits) in
        rw (fine, t) (ap behind (ap (λ cp. before (len_of h.mem cp) (elem_size + 1)) header ∙ o))

    module _ (new : ℕ) (h1 : Heap S) (sound1 : IsHeap h1.mem head (all_bufs ++ new ∷ []))
        (len1 : len_of h1.mem new ≡ size + 21)
        (fill1 : (i : ℕ) → i < size → h1.mem (new + 20 + i) ≡ 0x55)
        (keeps1 : Preserves h.mem h1.mem all_bufs) where
      -- How much is copied.
      abbrev k : ℕ
      k = if ltb size osize then size else osize

      abbrev h1' : Heap S
      h1' = record h1 { mem = memcpy (new + 20) (e + 20) k h1.mem }

      elsewhere : new ≢ e
      elsewhere same =
          let (away, _) =
            All-remove (λ x. Wide h1.mem x new) e xs ys
              (Wides-last h1.mem new all_bufs sound1.wide) in
          let (_, bs) = All-last (IsBuf h1.mem head) new all_bufs sound1.bufs in
          let (b, _) = All-remove (IsBuf h1.mem head) e xs ys bs in
          ground (arith, away, len1, b.big)

      k_small : k + 21 ≤ len_of h1.mem new
      k_small = ground (arith, len1)

      again : IsHeap h1'.mem head (xs ++ e ∷ (ys ++ new ∷ []))
      again =
          rw (sym (append_assoc xs (e ∷ ys) (new ∷ [])))
            (copied-IsHeap h1.mem head new (e + 20) k all_bufs sound1 k_small)

      -- Up to the release.
      copied_keeps : Preserves h.mem h1'.mem all_bufs
      copied_keeps =
          Preserves-trans h.mem h1.mem h1'.mem head all_bufs sound.bufs keeps1
            (copied-Preserves h1.mem head new (e + 20) k all_bufs sound1 k_small)

      from_old : (i : ℕ) → i < osize → h1.mem (e + 20 + i) ≡ h.mem (e + 20 + i)
      from_old i lt =
          let (b, bs) = All-remove (IsBuf h.mem head) e xs ys sound.bufs in
          let (same, rest) =
            All-remove (λ x. (i : ℕ) → x + 8 ≤ i → i < x + len_of h.mem x → h1.mem i ≡ h.mem i) e xs
              ys keeps1 in
          same (e + 20 + i) (omega arith) (omega (arith, b.big))

      released :
          (h2 : Heap S)
          → IsHeap h2.mem head (xs ++ (ys ++ new ∷ []))
          → Preserves h1'.mem h2.mem (xs ++ (ys ++ new ∷ []))
          → Moved size (new + 20) h2
      released h2 sound2 keeps2 =
          let assoc = append_assoc xs ys (new ∷ []) in
          let (last, rest) =
            All-last (λ x. (i : ℕ) → x + 8 ≤ i → i < x + len_of h1'.mem x → h2.mem i ≡ h1'.mem i)
              new (xs ++ ys) (rw assoc keeps2) in
          let (_, bs) = All-remove (IsBuf h.mem head) e xs ys sound.bufs in
          let (_, before) =
            All-remove (λ x. (i : ℕ) → x + 8 ≤ i → i < x + len_of h.mem x → h1'.mem i ≡ h.mem i) e
              xs ys copied_keeps in
          let l : len_of h1'.mem new ≡ size + 21 =
            copied-len h1.mem head new (e + 20) k all_bufs sound1 k_small ∙ len1 in
          record {
            new = new;
            at = refl;
            elsewhere = elsewhere;
            sound = rw assoc sound2;
            len =
                load32-congr h2.mem h1'.mem (new + 8) (λ i lo hi. last i lo (omega (arith, l))) ∙ l;
            kept = λ i lt lt'.
                last (new + 20 + i) (omega arith) (omega (arith, l))
                ∙ memcpy_inside (new + 20) (e + 20) k h1.mem i (ground arith)
                ∙ from_old i lt';
            filled = λ i lt ge.
                last (new + 20 + i) (omega arith) (omega (arith, l))
                ∙ copied-outside h1.mem head new (e + 20) k all_bufs sound1 k_small (new + 20 + i)
                    (inr (ground arith))
                ∙ fill1 i lt;
            others = Preserves-trans h.mem h1'.mem h2.mem head (xs ++ ys) bs before rest;
          }

      moved : Returns (Moved size (new + 20)) (mdbg_free a head (e + 20) h1')
      moved =
          let quiet = releases new h1' again in
          let (h2, r, sound2) =
            returned (λ h2. IsHeap h2.mem head (xs ++ (ys ++ new ∷ [])))
              (mdbg_free a head (e + 20) h1')
              (mdbg_free-IsHeap a head e xs (ys ++ new ∷ []) h1' again quiet) in
          let keeps2 =
            returned_is (λ h2. Preserves h1'.mem h2.mem (xs ++ (ys ++ new ∷ [])))
              (mdbg_free a head (e + 20) h1') h2 r
              (mdbg_free-Preserves a head e xs (ys ++ new ∷ []) h1' again quiet) in
          rw r (released h2 sound2 keeps2)

    finish-Resized :
        (buf : ℕ) (h1 : Heap S)
        → size ≢ osize
        → Allocated head all_bufs size 0x55 (buf, h1)
        → Preserves h.mem h1.mem all_bufs
        → Returns (Resized size) (finish osize (buf, h1))
    finish-Resized buf h1 other (inl (null, sound1)) keeps1 =
        let t : (buf == 0) ≡ true = ground arith in
        rw (finish, t) (inr (inl (other, refl, sound1, keeps1)))
    finish-Resized buf h1 other (inr (new, place, sound1, len1, fill1)) keeps1 =
        let t : (buf == 0) ≡ false = ground (arith, place) in
        let (h2, r, m) =
          returned (Moved size (new + 20))
            (mdbg_free a head (e + 20) (record h1 {
              mem = memcpy (new + 20) (e + 20) (if ltb size osize then size else osize) h1.mem;
            }))
            (moved new h1 sound1 len1 (λ i lt. ap (λ b. h1.mem (b + i)) (sym place) ∙ fill1 i lt)
              keeps1) in
        rw (finish, t, place, r) (inr (inr (other, m)))

    -- Take a sound heap in which `e` is the header of a buffer, a size that is not 0 and does not wrap
    -- around, and an allocator below that keeps its promises. Then `mdbg_realloc` returns. With the
    -- size that the buffer has it gives the buffer, and nothing has changed. Otherwise it gives null,
    -- and all buffers are as they were, or it gives a new buffer of that size, which holds what the old one
    -- held, as much of it as fits, and 0x55 behind it; then the old buffer is off the queue, the new one
    -- stands behind the others, and the contents of the others have not changed.
    pub mdbg_realloc-Resized :
        Returns (Resized size) (mdbg_realloc a head fname lineno (e + 20) size h)
    mdbg_realloc-Resized = rw realloc-behind (elim (Bool-cases (size == osize)) [
      | inl same ↦ rw (behind, same) (inl (ground arith, refl, refl))
      | inr other ↦
          let result =
            returned (Allocated head all_bufs size 0x55) (mdbg_malloc a head fname lineno size h)
              (mdbg_malloc-IsHeap a head h all_bufs sound fname lineno size some_bytes small p) in
          let ((buf, h1), r, allocated) = result in
          let keeps =
            returned_is (λ (buf, h1). Preserves h.mem h1.mem all_bufs)
              (mdbg_malloc a head fname lineno size h) (buf, h1) r
              (mdbg_malloc-Preserves a head h all_bufs sound fname lineno size some_bytes small
                p) in
          rw (behind, other, r) (finish-Resized buf h1 (ground arith) allocated keeps)
    ])
