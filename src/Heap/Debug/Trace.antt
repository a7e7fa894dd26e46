-- ===== src/Heap/Debug/Trace.antt =====
-- Sequences of calls of the allocator with ENABLE_MDBG, and of writes to the buffers.
use bios_qemu_tz_arm.Prelude.{
  ℕ, zero, suc, ◌+◌, ◌-◌, ◌*◌, ◌^◌, ◌≤◌, ◌<◌, ◌≡◌, ◌⊎◌, inl, inr, refl, sym, Bool, true, List, [],
  ◌∷◌, ◌++◌, length, arith, ◌||◌, ◌==◌, if◌then◌else◌, false,
}
use mathlib.Core.Path.{subst}
use bios_qemu_tz_arm.Run.{Run, ok, Returns}
use bios_qemu_tz_arm.Memory.{Memory}
use bios_qemu_tz_arm.Heap.Queue.{tailq_init}
use bios_qemu_tz_arm.Heap.Queue.Seg.{All}
use bios_qemu_tz_arm.Heap.Queue.Insert.{Word, tailq_init-IsQueue}
use bios_qemu_tz_arm.Heap.Debug.{
  Allocator, Heap, MdbgMode, len_of, mdbg_set_mode, mdbg_malloc, mdbg_calloc, mdbg_free,
  mdbg_realloc, mdbg_check,
}
use bios_qemu_tz_arm.Heap.Debug.Invariant.{IsBuf, IsHeap, write-IsHeap}
use bios_qemu_tz_arm.Heap.Debug.Alloc.{Promise, Allocated, mdbg_malloc-IsHeap, mdbg_calloc-IsHeap}
use bios_qemu_tz_arm.Heap.Debug.Free.{Releases, mdbg_free-IsHeap}
use bios_qemu_tz_arm.Heap.Debug.Resize.{Resized, mdbg_realloc-Resized}
use bios_qemu_tz_arm.Heap.Debug.Check.{intact, mdbg_check-intact}

-- The result of a call that returns it.
at_result {ℓ} : {A : Type ℓ} (P : A → Type 0) (r : Run A) (x : A) → Returns P r → r ≡ ok x → P x
at_result P r x p e = subst (Returns P) e p

-- The buffers behind a call that returns `buf`.
abbrev grown : List ℕ → ℕ → List ℕ
grown es zero = es
grown es (suc n) = es ++ (suc n - 20) ∷ []

grown-IsHeap :
    {S : Type 0} (head : ℕ) (es : List ℕ) (nbytes c buf : ℕ) (h : Heap S)
    → Allocated head es nbytes c (buf, h)
    → IsHeap h.mem head (grown es buf)
grown-IsHeap head es nbytes c zero h (inl (z, s)) = s
grown-IsHeap head es nbytes c zero h (inr (e, z, _, _, _)) = absurd (omega (arith, z))
grown-IsHeap head es nbytes c (suc n) h (inl (z, s)) = absurd (omega (arith, z))
grown-IsHeap head es nbytes c (suc n) h (inr (e, z, s, _, _)) =
    let d : suc n - 20 ≡ e = omega (arith, z) in rw d s

-- The buffers behind a call of `mdbg_realloc` for `e` that returns `buf`.
abbrev resized : List ℕ → ℕ → List ℕ → ℕ → List ℕ
resized xs e ys buf =
    if buf == 0 || buf == e + 20 then xs ++ e ∷ ys else (xs ++ ys) ++ (buf - 20) ∷ []

resized-IsHeap :
    {S : Type 0} (a : Allocator S) (head e : ℕ) (xs ys : List ℕ) (h : Heap S) (size buf : ℕ)
    (h' : Heap S)
    → IsHeap h.mem head (xs ++ e ∷ ys)
    → Resized a head e xs ys h size (buf, h')
    → IsHeap h'.mem head (resized xs e ys buf)
resized-IsHeap a head e xs ys h size buf h' sound (inl (_, place, same)) =
    let t : (buf == 0 || buf == e + 20) ≡ true = ground (arith, place) in rw (t, same) sound
resized-IsHeap a head e xs ys h size buf h' sound (inr (inl (_, null, sound', _))) =
    let t : (buf == 0 || buf == e + 20) ≡ true = ground (arith, null) in rw t sound'
resized-IsHeap a head e xs ys h size buf h' sound (inr (inr (_, m))) =
    let t : (buf == 0 || buf == e + 20) ≡ false = ground (arith, m.at, m.elsewhere) in
    let d : buf - 20 ≡ m.new = omega (arith, m.at) in rw (t, d) m.sound

IsBuf-intact : (m : Memory) (head : ℕ) (es : List ℕ) → All (IsBuf m head) es → intact es m ≡ true
unfolding intact
IsBuf-intact m head [] b = refl
IsBuf-intact m head (e ∷ es) (b, bs) = rw (b.marked, IsBuf-intact m head es bs) refl

module _ {S : Type 0} (a : Allocator S) (head : ℕ) where
  -- One call that returns, or one write, in a heap with these buffers. A size is not 0, and does not wrap
  -- around with the header and the mark.
  pub data Step (h : Heap S) (es : List ℕ) : Heap S → List ℕ → Type 0 where
    malloc :
        (fname lineno nbytes buf : ℕ) (h' : Heap S)
        → 0 < nbytes
        → nbytes + 21 < 2 ^ 32
        → Promise a head (nbytes + 21) es h
        → mdbg_malloc a head fname lineno nbytes h ≡ ok (buf, h')
        → Step h es h' (grown es buf)
    calloc :
        (fname lineno nelem elsize buf : ℕ) (h' : Heap S)
        → 0 < nelem * elsize
        → nelem * elsize + 21 < 2 ^ 32
        → Promise a head (nelem * elsize + 21) es h
        → mdbg_calloc a head fname lineno nelem elsize h ≡ ok (buf, h')
        → Step h es h' (grown es buf)
    free :
        (e : ℕ) (xs ys : List ℕ) (h' : Heap S)
        → es ≡ xs ++ e ∷ ys
        → Releases a head e xs ys h
        → mdbg_free a head (e + 20) h ≡ ok h'
        → Step h es h' (xs ++ ys)
    realloc :
        (fname lineno size e buf : ℕ) (xs ys : List ℕ) (h' : Heap S)
        → es ≡ xs ++ e ∷ ys
        → 0 < size
        → size + 21 < 2 ^ 32
        → Promise a head (size + 21) es h
        → ((new : ℕ) (h1 : Heap S)
            → IsHeap h1.mem head (xs ++ e ∷ (ys ++ new ∷ []))
            → Releases a head e xs (ys ++ new ∷ []) h1)
        → mdbg_realloc a head fname lineno (e + 20) size h ≡ ok (buf, h')
        → Step h es h' (resized xs e ys buf)
    write :
        (e : ℕ) (xs ys : List ℕ) (mem : Memory)
        → es ≡ xs ++ e ∷ ys
        → ((i : ℕ) → (i < e + 20) ⊎ (e + len_of h.mem e ≤ suc i) → h.mem i ≡ mem i)
        → Step h es (record h { mem = mem }) es
    set_mode :
        (mode : MdbgMode) → Step h es (record h { bufimode = (mdbg_set_mode mode h.bufimode).0 }) es

  -- Heaps that calls and writes lead to, from the empty queue.
  pub data Reach : Heap S → List ℕ → Type 0 where
    start :
        (inner : S) (mem : Memory) (bufimode : Bool)
        → Word head
        → Reach (record { inner = inner; mem = tailq_init head mem; bufimode = bufimode }) []
    next :
        {h : Heap S} {es : List ℕ} (h' : Heap S) (es' : List ℕ)
        → Reach h es
        → Step h es h' es'
        → Reach h' es'

  Step-IsHeap :
      {h h' : Heap S} {es es' : List ℕ}
      → Step h es h' es'
      → IsHeap h.mem head es
      → IsHeap h'.mem head es'
  Step-IsHeap {h} {h'} {es} {es'} (malloc fname lineno nbytes buf _ pos small p e) sound =
      grown-IsHeap head es nbytes 0x55 buf h' (
        at_result (Allocated head es nbytes 0x55) (mdbg_malloc a head fname lineno nbytes h)
          (buf, h') (mdbg_malloc-IsHeap a head h es sound fname lineno nbytes pos small p) e)
  Step-IsHeap {h} {h'} {es} {es'} (calloc fname lineno nelem elsize buf _ pos small p e) sound =
      let nbytes = nelem * elsize in
      grown-IsHeap head es nbytes 0 buf h' (
        at_result (Allocated head es nbytes 0) (mdbg_calloc a head fname lineno nelem elsize h)
          (buf, h')
          (mdbg_calloc-IsHeap a head h es sound fname lineno nbytes pos small p nelem elsize refl)
          e)
  Step-IsHeap {h} {h'} {es} {es'} (free e xs ys _ is quiet r) sound =
      at_result (λ h1. IsHeap h1.mem head (xs ++ ys)) (mdbg_free a head (e + 20) h) h'
        (mdbg_free-IsHeap a head e xs ys h (subst (IsHeap h.mem head) is sound) quiet) r
  Step-IsHeap {h} {h'} {es} {es'} (realloc fname lineno size e buf xs ys _ is pos small p q r)
        sound =
      let sound' = subst (IsHeap h.mem head) is sound in
      resized-IsHeap a head e xs ys h size buf h' sound' (
        at_result (Resized a head e xs ys h size) (mdbg_realloc a head fname lineno (e + 20) size h)
          (buf, h')
          (mdbg_realloc-Resized a head e xs ys h sound' fname lineno size pos small
            (subst (λ es. Promise a head (size + 21) es h) is p) q)
          r)
  Step-IsHeap {h} {h'} {es} {es'} (write e xs ys mem is same) sound =
      subst (IsHeap mem head) (sym is)
        (write-IsHeap h.mem mem head e xs ys (subst (IsHeap h.mem head) is sound) same)
  Step-IsHeap (set_mode mode) sound = sound

  -- From the empty queue, calls that return and writes to the data of buffers keep the heap sound, as long as
  -- the allocator below keeps its promises, and as long as every size that is asked for, a product of sizes as
  -- the number that it is, is not 0 and stays below 2 ^ 32 with the 21 bytes of the header and the mark.
  pub Reach-IsHeap : {h : Heap S} {es : List ℕ} → Reach h es → IsHeap h.mem head es
  Reach-IsHeap (start inner mem bufimode w) = record {
    queue = tailq_init-IsQueue head mem w;
    bufs = tt;
    wide = tt;
  }
  Reach-IsHeap (next h' es' r s) = Step-IsHeap s (Reach-IsHeap r)

  -- In every heap that calls that return and writes to the data of buffers lead to from the empty queue,
  -- `mdbg_check` returns, as long as the allocator below keeps its promises, and as long as every size that
  -- is asked for, a product of sizes as the number that it is, is not 0 and stays below 2 ^ 32 with the
  -- 21 bytes of the header and the mark.
  pub mdbg_check-Reach :
      {h : Heap S} {es : List ℕ} (fuel : ℕ)
      → Reach h es
      → length es < fuel
      → mdbg_check a head fuel h ≡ ok tt
  mdbg_check-Reach {h} {es} fuel r enough =
      let sound = Reach-IsHeap r in
      rw
        (
          mdbg_check-intact a head fuel h es sound.queue enough,
          IsBuf-intact h.mem head es sound.bufs,
        )
        refl
