-- ===== src/Heap/Debug/Contents.antt =====
-- `mdbg_malloc` and `mdbg_free` leave the contents of the other buffers.
use bios_qemu_tz_arm.Prelude.{
  ℕ, ◌+◌, ◌%◌, ◌^◌, ◌≤◌, ◌<◌, ◌≡◌, inl, inr, sym, ◌∙◌, true, false, List, ◌∷◌, ◌++◌, ◌==◌, arith,
}
use bios_qemu_tz_arm.Run.{Returns}
use bios_qemu_tz_arm.Memory.{Memory, memset}
use bios_qemu_tz_arm.Memory.Words.{Apart, load32-congr, memset_outside}
use bios_qemu_tz_arm.Heap.Queue.Seg.{All}
use bios_qemu_tz_arm.Heap.Debug.{Allocator, Heap, len_of, mdbg_malloc, mdbg_free}
use bios_qemu_tz_arm.Heap.Debug.Frame.{Same}
use bios_qemu_tz_arm.Heap.Debug.Invariant.{IsBuf, IsHeap, Wide, All-zip, All-remove, Wides-others}
use bios_qemu_tz_arm.Heap.Debug.Alloc
use bios_qemu_tz_arm.Heap.Debug.Alloc.{Promise, zero-cases}
use bios_qemu_tz_arm.Heap.Debug.Enqueue.{Quiet, Preserves, filled-Preserves}
use bios_qemu_tz_arm.Heap.Debug.Free.{
  Releases, wiped_by, unlinked_by, stays, outside, free-behind, sound_at, remove_and_wipe-IsHeap,
}

module _ (m m' m'' : Memory) (head : ℕ) (es : List ℕ) (b : All (IsBuf m head) es) where
  -- The length stands among the bytes that are kept.
  lengths : Preserves m m' es → All (λ e. len_of m' e ≡ len_of m e) es
  lengths k =
      All-zip {P = IsBuf m head} {Q = λ e. (i : ℕ) → e + 8 ≤ i → i < e + len_of m e → m' i ≡ m i}
        {R = λ e. len_of m' e ≡ len_of m e} es
        (λ e b same. load32-congr m' m (e + 8) (λ i lo hi. same i lo (omega (arith, b.big)))) b k

  pub Preserves-trans : Preserves m m' es → Preserves m' m'' es → Preserves m m'' es
  Preserves-trans k k' =
      All-zip {P = λ e. (i : ℕ) → e + 8 ≤ i → i < e + len_of m e → m' i ≡ m i}
        {Q = λ e. (i : ℕ) → e + 8 ≤ i → i < e + len_of m e → m'' i ≡ m' i}
        {R = λ e. (i : ℕ) → e + 8 ≤ i → i < e + len_of m e → m'' i ≡ m i} es
        (λ e same same' i lo hi. same' i lo hi ∙ same i lo hi) k
        (All-zip {P = λ e. len_of m' e ≡ len_of m e}
          {Q = λ e. (i : ℕ) → e + 8 ≤ i → i < e + len_of m' e → m'' i ≡ m' i}
          {R = λ e. (i : ℕ) → e + 8 ≤ i → i < e + len_of m e → m'' i ≡ m' i} es
          (λ e l same i lo hi. same i lo (omega (arith, l))) (lengths k) k')

Quiet-Preserves :
    (m m' : Memory) (head : ℕ) (es : List ℕ)
    → Quiet m m' head es
    → All (IsBuf m head) es
    → Preserves m m' es
Quiet-Preserves m m' head es q b =
    All-zip {P = λ e. Same m m' e (len_of m e)} {Q = IsBuf m head}
      {R = λ e. (i : ℕ) → e + 8 ≤ i → i < e + len_of m e → m' i ≡ m i} es
      (λ e same b i lo hi. sym (same i (omega arith) hi)) q.on_bufs b

module _ {S : Type 0} (a : Allocator S) (head : ℕ) (h : Heap S) (es : List ℕ)
    (sound : IsHeap h.mem head es) (fname lineno nbytes : ℕ) (some_bytes : 0 < nbytes)
    (small : nbytes + 21 < 2 ^ 32) (p : Promise a head (nbytes + 21) es h) where
  pub mdbg_malloc-Preserves :
      Returns (λ (buf, h1). Preserves h.mem h1.mem es) (mdbg_malloc a head fname lineno nbytes h)
  unfolding mdbg_malloc
  mdbg_malloc-Preserves =
      let cp = Alloc.cp a head h es sound fname lineno nbytes some_bytes small p in
      let mem = Alloc.mem a head h es sound fname lineno nbytes some_bytes small p in
      let after = Alloc.after a head h es sound fname lineno nbytes some_bytes small p in
      let below = Alloc.sound_below a head h es sound fname lineno nbytes some_bytes small p in
      let quiet = Quiet-Preserves h.mem mem head es p.quiet sound.bufs in
      elim (zero-cases cp) [
        | inl z ↦
            rw (Alloc.buf_alloc-none a head h es sound fname lineno nbytes some_bytes small p z)
              quiet
        | inr nz ↦
            let t : (cp + 20 == 0) ≡ false = ground arith in
            let f = p.fresh nz in
            let filled =
              filled-Preserves mem head es below cp (nbytes + 21) (omega arith) small f fname lineno
                h.bufimode in
            rw (Alloc.buf_alloc-some a head h es sound fname lineno nbytes some_bytes small p nz, t)
              (Preserves-trans h.mem mem (memset (cp + 20) 0x55 nbytes after) head es sound.bufs
                quiet
                (All-zip {P = λ e. Apart e (len_of mem e) cp (nbytes + 21)}
                  {Q = λ e. (i : ℕ) → e + 8 ≤ i → i < e + len_of mem e → after i ≡ mem i}
                  {R = λ e.
                    (i : ℕ)
                    → e + 8 ≤ i
                    → i < e + len_of mem e
                    → memset (cp + 20) 0x55 nbytes after i ≡ mem i}
                  es
                  (λ e away same i lo hi.
                    memset_outside (cp + 20) 0x55 nbytes after i (ground (arith, away))
                    ∙ same i lo hi)
                  f.away filled))
      ]

module _ (m : Memory) (head e : ℕ) (xs ys : List ℕ) (sound : IsHeap m head (xs ++ e ∷ ys)) where
  wiped-Preserves : Preserves m (wiped_by m head e) (xs ++ ys)
  wiped-Preserves =
      let (b, bs) = All-remove (IsBuf m head) e xs ys sound.bufs in
      let (_, kept) =
        All-remove (λ x. (i : ℕ) → x + 8 ≤ i → i < x + len_of m x → unlinked_by m head e i ≡ m i) e
          xs ys (stays m head e xs ys sound) in
      All-zip {P = Wide m e}
        {Q = λ x. (i : ℕ) → x + 8 ≤ i → i < x + len_of m x → unlinked_by m head e i ≡ m i}
        {R = λ x. (i : ℕ) → x + 8 ≤ i → i < x + len_of m x → wiped_by m head e i ≡ m i} (xs ++ ys)
        (λ x away same i lo hi.
          sym (outside m head e xs ys sound i (ground (arith, away))) ∙ same i lo hi)
        (Wides-others m e xs ys sound.wide) kept

module _ {S : Type 0} (a : Allocator S) (head e : ℕ) (xs ys : List ℕ) (h : Heap S)
    (sound : IsHeap h.mem head (xs ++ e ∷ ys)) (quiet : Releases a head e xs ys h) where
  pub mdbg_free-Preserves :
      Returns (λ h'. Preserves h.mem h'.mem (xs ++ ys)) (mdbg_free a head (e + 20) h)
  mdbg_free-Preserves =
      let wiped = wiped_by h.mem head e in
      let released = (a.release e h.inner wiped).1 in
      let (b, bs) = All-remove (IsBuf h.mem head) e xs ys sound.bufs in
      let al : (e % 4 == 0) ≡ true = ground (arith, b.aligned) in
      let after = remove_and_wipe-IsHeap h.mem head e xs ys sound in
      rw
        (
          free-behind a head e xs ys h (omega (arith, b.big, b.fits)),
          al,
          sound_at a head e xs ys h sound.queue ∙ b.marked,
        )
        (Preserves-trans h.mem wiped released head (xs ++ ys) bs
          (wiped-Preserves h.mem head e xs ys sound)
          (Quiet-Preserves wiped released head (xs ++ ys) quiet after.bufs))
