-- ===== src/Heap/Debug/Alloc.antt =====
-- `mdbg_buf_alloc`, and `mdbg_malloc` and `mdbg_calloc` on top of it.
use bios_qemu_tz_arm.Prelude.{
  ℕ, zero, suc, ◌+◌, ◌*◌, ◌%◌, ◌^◌, ◌<◌, ◌≡◌, ◌≢◌, ◌⊎◌, inl, inr, refl, sym, ap, ◌∙◌, true, false,
  List, [], ◌∷◌, ◌++◌, ◌==◌, arith,
}
use bios_qemu_tz_arm.Run.{Run, ok, Returns}
use bios_qemu_tz_arm.Memory.{Memory, memset}
use bios_qemu_tz_arm.Memory.Words.{load32-memset-Apart, memset_inside, memset_outside}
use bios_qemu_tz_arm.Heap.Queue.{tailq_insert_tail}
use bios_qemu_tz_arm.Heap.Debug.{
  Allocator, Heap, elem_size, len_of, fill_elem, mdbg_buf_alloc, mdbg_malloc, mdbg_calloc,
}
use bios_qemu_tz_arm.Heap.Debug.Frame.{fill-len}
use bios_qemu_tz_arm.Heap.Debug.Enqueue.{Fresh, Quiet, Quiet-IsHeap, queue_and_fill-IsHeap}
use bios_qemu_tz_arm.Heap.Debug.Invariant.{IsHeap, write-IsHeap}

pub zero-cases : (n : ℕ) → (n ≡ 0) ⊎ (n ≢ 0)
zero-cases zero = inl refl
zero-cases (suc n) = inr (omega arith)

-- What the allocator below promises of one call.
pub record Promise {S : Type 0} (a : Allocator S) (head n : ℕ) (es : List ℕ) (h : Heap S)
    : Type 0 where
  pub quiet : Quiet h.mem (a.alloc n h.inner h.mem).2 head es
  pub fresh :
      (a.alloc n h.inner h.mem).0 ≢ 0
      → Fresh (a.alloc n h.inner h.mem).2 head es (a.alloc n h.inner h.mem).0 n

-- What a call for `nbytes` bytes, filled with `c`, returns in a heap with these buffers: null, or a
-- new buffer.
abbrev pub Allocated : {S : Type 0} → ℕ → List ℕ → ℕ → ℕ → ℕ × Heap S → Type 0
Allocated head es nbytes c (buf, h) =
    ((buf ≡ 0) × IsHeap h.mem head es)
    ⊎ ((e : ℕ) × (buf ≡ e + 20)
        × IsHeap h.mem head (es ++ e ∷ [])
        × (len_of h.mem e ≡ nbytes + 21)
        × ((i : ℕ) → i < nbytes → h.mem (buf + i) ≡ c))

module _ {S : Type 0} (a : Allocator S) (head : ℕ) (h : Heap S) (es : List ℕ)
    (sound : IsHeap h.mem head es) (fname lineno nbytes : ℕ) (some_bytes : 0 < nbytes)
    (small : nbytes + 21 < 2 ^ 32) (p : Promise a head (nbytes + 21) es h) where
  abbrev pub cp : ℕ
  cp = (a.alloc (nbytes + 21) h.inner h.mem).0

  abbrev pub inner : S
  inner = (a.alloc (nbytes + 21) h.inner h.mem).1

  abbrev pub mem : Memory
  mem = (a.alloc (nbytes + 21) h.inner h.mem).2

  abbrev pub after : Memory
  after = fill_elem cp (nbytes + 21) fname lineno h.bufimode (tailq_insert_tail head cp mem)

  pub sound_below : IsHeap mem head es
  sound_below = Quiet-IsHeap h.mem mem head es p.quiet sound

  -- The call behind its assertion, for a block of `n` bytes.
  abbrev behind : ℕ → Run (ℕ × Heap S)
  behind n =
      let (cp, inner, mem) = a.alloc n h.inner h.mem in
      elim (cp == 0) [
        | true ↦ ok (0, record h { inner = inner; mem = mem })
        | false ↦
            let filled = fill_elem cp n fname lineno h.bufimode (tailq_insert_tail head cp mem) in
            ok ((cp + elem_size) % 2 ^ 32, record h { inner = inner; mem = filled })
      ]

  buf_alloc-behind : mdbg_buf_alloc a head fname lineno nbytes h ≡ behind (nbytes + 21)
  unfolding mdbg_buf_alloc
  buf_alloc-behind =
      let t : (nbytes == 0) ≡ false = ground arith in
      let n : (nbytes + elem_size + 1) % 2 ^ 32 ≡ nbytes + 21 = omega arith in rw t (ap behind n)

  pub buf_alloc-none :
      cp ≡ 0
      → mdbg_buf_alloc a head fname lineno nbytes h ≡ ok (0, record h { inner = inner; mem = mem })
  buf_alloc-none z =
      let c : (cp == 0) ≡ true = ground (arith, z) in buf_alloc-behind ∙ rw (behind, c) refl

  pub buf_alloc-some :
      cp ≢ 0
      → mdbg_buf_alloc a head fname lineno nbytes h
        ≡ ok (cp + 20, record h { inner = inner; mem = after })
  buf_alloc-some nz =
      let c : (cp == 0) ≡ false = ground (arith, nz) in
      let f = p.fresh nz in
      let b : (cp + elem_size) % 2 ^ 32 ≡ cp + 20 = omega (arith, f.fits) in
      buf_alloc-behind ∙ rw (behind, c, b) refl

  Allocated-none :
      (c : ℕ) → cp ≡ 0 → Allocated head es nbytes c (0, record h { inner = inner; mem = mem })
  Allocated-none c z = inl (refl, sound_below)

  Allocated-some :
      (c : ℕ)
      → cp ≢ 0
      → Allocated head es nbytes c
          (cp + 20, record h { inner = inner; mem = memset (cp + 20) c nbytes after })
  Allocated-some c nz =
      let f = p.fresh nz in
      let filled = memset (cp + 20) c nbytes after in
      let sound' =
        queue_and_fill-IsHeap mem head es sound_below cp (nbytes + 21) (omega arith) small f fname
          lineno h.bufimode in
      let l : len_of after cp ≡ nbytes + 21 =
        fill-len cp (nbytes + 21) fname lineno h.bufimode (tailq_insert_tail head cp mem)
          (omega arith) f.fits small in
      let l' : len_of filled cp ≡ len_of after cp =
        load32-memset-Apart (cp + 20) c nbytes after (cp + 8) (inr (omega arith)) in
      inr (
        cp,
        refl,
        write-IsHeap after filled head cp es [] sound'
            (λ i o. sym (memset_outside (cp + 20) c nbytes after i (ground (arith, l)))),
        l' ∙ l,
        (λ i lt. memset_inside (cp + 20) c nbytes after (cp + 20 + i) (omega arith) (omega arith)),
      )

  -- In a sound heap, with at least one byte asked for, a size that does not wrap around and an allocator
  -- below that keeps its promise, the call returns null and leaves the buffers as they were, or it
  -- returns a buffer of that size, each byte 0x55, that stands behind the others on the queue.
  pub mdbg_malloc-IsHeap :
      Returns (Allocated head es nbytes 0x55) (mdbg_malloc a head fname lineno nbytes h)
  unfolding mdbg_malloc
  mdbg_malloc-IsHeap = elim (zero-cases cp) [
    | inl z ↦ rw (buf_alloc-none z) (Allocated-none 0x55 z)
    | inr nz ↦
        let t : (cp + 20 == 0) ≡ false = ground arith in
        rw (buf_alloc-some nz, t) (Allocated-some 0x55 nz)
  ]

  -- If the product does not wrap, the call is one for that many bytes, each of them 0.
  pub mdbg_calloc-IsHeap :
      (nelem elsize : ℕ)
      → nelem * elsize ≡ nbytes
      → Returns (Allocated head es nbytes 0) (mdbg_calloc a head fname lineno nelem elsize h)
  unfolding mdbg_calloc
  mdbg_calloc-IsHeap nelem elsize e =
      let l : nelem * elsize % 2 ^ 32 ≡ nbytes = omega (arith, e) in
      elim (zero-cases cp) [
        | inl z ↦ rw (l, buf_alloc-none z) (Allocated-none 0 z)
        | inr nz ↦
            let t : (cp + 20 == 0) ≡ false = ground arith in
            rw (l, buf_alloc-some nz, t) (Allocated-some 0 nz)
      ]
