-- ===== src/Heap/Examples.antt =====
-- The theorems on the heap at concrete inputs.
use Prim.Native.Nat.{bit_xor}
use bios_qemu_tz_arm.Prelude.{
  ◌==◌, ◌%◌, ℕ, ◌+◌, ◌-◌, ◌*◌, ◌/◌, ◌^◌, ◌≡◌, inl, refl, false, List, [], ◌∷◌, arith,
}
use bios_qemu_tz_arm.Run.{Run, ok, hang, fault, out_of_fuel, Returns}
use bios_qemu_tz_arm.Memory.{Memory, memset, store8, store32, load32}
use bios_qemu_tz_arm.Heap.Queue.{
  tailq_init, tailq_insert_tail, tailq_remove, tailq_first, tailq_next, tailq_prev, tailq_foreach,
}
use bios_qemu_tz_arm.Heap.Queue.Insert.{IsQueue}
use bios_qemu_tz_arm.Heap.Queue.Remove.{tailq_remove-IsQueue}
use bios_qemu_tz_arm.Heap.Queue.Walk.{tailq_foreach-elements}
use bios_qemu_tz_arm.Heap.Basic
use bios_qemu_tz_arm.Heap.Basic.Blocks
use bios_qemu_tz_arm.Heap.Basic.Wraps.{malloc_starts_over}
use bios_qemu_tz_arm.Heap.Brk.{Dlmalloc, sbrk, malloc_init, memalign}
use bios_qemu_tz_arm.Heap.Brk.Area
use bios_qemu_tz_arm.Heap.Brk.Area.{IsArea, IsSound, sbrk_lem, Reach-IsSound}
use bios_qemu_tz_arm.Heap.Brk.Align.{is_power, memalign_lem}
use bios_qemu_tz_arm.Heap.Debug.{
  clobbered, Allocator, Heap, fill_elem, mark, mdbg_buf_alloc, mdbg_malloc, mdbg_free, mdbg_check,
  mdbg_realloc, mdbg_dump, len_of, mdbg_check_buf, mdbg_check_buf_end,
}
use bios_qemu_tz_arm.Heap.Debug.Invariant.{IsHeap}
use bios_qemu_tz_arm.Heap.Debug.Alloc.{Promise}
use bios_qemu_tz_arm.Heap.Debug.Free.{Releases, wiped_by, mdbg_free-clobbered}
use bios_qemu_tz_arm.Heap.Debug.Frame.{Same}
use bios_qemu_tz_arm.Heap.Queue.Seg.{All}
use bios_qemu_tz_arm.Heap.Debug.Dump.{Allocation, Describes, line_on, lines_on, mdbg_dump-reports}
use bios_qemu_tz_arm.Heap.Debug.Resize.{Resized, mdbg_realloc-Resized}
use bios_qemu_tz_arm.Heap.Debug.Trace.{
  malloc, free, Reach, start, next, Reach-IsHeap, mdbg_check-Reach,
}

-- An allocator that hands out one block behind the other.
abbrev bump : Allocator ℕ
bump = record { alloc = λ n s mem. (s, s + (n + 7) / 8 * 8, mem); release = λ p s mem. (s, mem) }

abbrev head : ℕ
head = 4096

abbrev h0 : Heap ℕ
h0 = record { inner = 65536; mem = tailq_init head (λ i. 0); bufimode = false }

abbrev heap_of : Run (ℕ × Heap ℕ) → Heap ℕ
heap_of (ok (buf, h)) = h
heap_of hang = h0
heap_of fault = h0
heap_of out_of_fuel = h0

abbrev freed_of : Run (Heap ℕ) → Heap ℕ
freed_of (ok h) = h
freed_of hang = h0
freed_of fault = h0
freed_of out_of_fuel = h0

abbrev h1 : Heap ℕ
h1 = heap_of (mdbg_malloc bump head 0 7 3 h0)

abbrev h2 : Heap ℕ
h2 = freed_of (mdbg_free bump head 65556 h1)

promise0 : Promise bump head 24 [] h0
promise0 = record {
  quiet = record { on_head = λ i lo hi. refl; on_bufs = tt };
  fresh = λ nz. record {
    nonzero = nz;
    aligned = refl;
    fits = omega arith;
    away_head = inl (omega arith);
    away = tt;
  };
}

reach0 : Reach bump head h0 []
reach0 = start 65536 (λ i. 0) false (omega arith)

h1_is : mdbg_malloc bump head 0 7 3 h0 ≡ ok (65556, h1)
unfolding mdbg_malloc mdbg_buf_alloc
h1_is = refl

reach1 : Reach bump head h1 (65536 ∷ [])
reach1 =
    next h1 (65536 ∷ []) reach0 (malloc 0 7 3 65556 h1 (omega arith) (omega arith) promise0 h1_is)

h2_is : mdbg_free bump head 65556 h1 ≡ ok h2
unfolding mdbg_malloc mdbg_buf_alloc mdbg_free mdbg_check_buf mdbg_check_buf_end tailq_next
    tailq_prev tailq_insert_tail tailq_init tailq_remove fill_elem mark memset store8 store32 load32
h2_is = refl

quiet1 : Releases bump head 65536 [] [] h1
quiet1 = record { on_head = λ i lo hi. refl; on_bufs = tt }

reach2 : Reach bump head h2 []
reach2 = next h2 [] reach1 (free 65536 [] [] h2 refl quiet1 h2_is)

Reach-IsHeap_example : IsHeap h2.mem head []
Reach-IsHeap_example = Reach-IsHeap bump head reach2

mdbg_check-Reach_example : mdbg_check bump head 2 h1 ≡ ok tt
mdbg_check-Reach_example = mdbg_check-Reach bump head 2 reach1 (omega arith)

sound1 : IsHeap h1.mem head (65536 ∷ [])
sound1 = Reach-IsHeap bump head reach1

promise1 : Promise bump head 31 (65536 ∷ []) h1
unfolding mdbg_malloc mdbg_buf_alloc tailq_insert_tail tailq_init fill_elem mark memset store8
    store32 load32
promise1 = record {
  quiet = record { on_head = λ i lo hi. refl; on_bufs = ((λ i lo hi. refl), tt) };
  fresh = λ nz. record {
    nonzero = nz;
    aligned = refl;
    fits = omega arith;
    away_head = inl (omega arith);
    away = (inl (omega arith), tt);
  };
}

All-refl : (m : Memory) (es : List ℕ) → All (λ e. Same m m e (len_of m e)) es
All-refl m [] = tt
All-refl m (e ∷ es) = ((λ i lo hi. refl), All-refl m es)

releases1 : (new : ℕ) (h : Heap ℕ) → Releases bump head 65536 [] (new ∷ []) h
releases1 new h = record {
  on_head = λ i lo hi. refl;
  on_bufs = All-refl (wiped_by h.mem head 65536) (new ∷ []);
}

-- From three bytes to ten.
mdbg_realloc-Resized_example :
    Returns (Resized bump head 65536 [] [] h1 10) (mdbg_realloc bump head 0 8 65556 10 h1)
mdbg_realloc-Resized_example =
    mdbg_realloc-Resized bump head 65536 [] [] h1 sound1 0 8 10 (omega arith) (omega arith) promise1
      (λ new h s. releases1 new h)

-- The heap with the mark of its buffer overwritten.
abbrev broken : Heap ℕ
broken = record h1 { mem = store8 65559 0 h1.mem }

broken-IsQueue : IsQueue broken.mem head (65536 ∷ [])
unfolding mdbg_malloc mdbg_buf_alloc tailq_insert_tail tailq_init fill_elem mark memset store8
    store32 load32
broken-IsQueue = record {
  last = 65536;
  tail = refl;
  seg = (refl, refl, λ e. omega arith, refl);
  ends = refl;
  sep = ((inl (omega arith), tt), (tt, tt));
  words = (omega arith, (omega arith, tt));
}

broken_end :
    (broken.mem (65536 + load32 broken.mem 65544 - 1) == bit_xor (65536 % 256) 0xC5) ≡ false
unfolding mdbg_malloc mdbg_buf_alloc tailq_insert_tail tailq_init fill_elem mark memset store8
    store32 load32
broken_end = refl

broken_len : load32 broken.mem 65544 ≡ 24
unfolding mdbg_malloc mdbg_buf_alloc tailq_insert_tail tailq_init fill_elem mark memset store8
    store32 load32
broken_len = refl

mdbg_free-clobbered_example : mdbg_free bump head 65556 broken ≡ hang
mdbg_free-clobbered_example =
    mdbg_free-clobbered bump head 65536 [] [] broken broken-IsQueue (omega (arith, broken_len))
      (omega (arith, broken_len)) (ground (arith, broken_end))

-- Three bytes from line 7 without a file, whose mark is overwritten.
abbrev broken_allocation : Allocation
broken_allocation = record {
  place = 65536;
  nbytes = 3;
  file = 0;
  line = 7;
  to_ignore = false;
  intact = false;
}

broken-Describes : Describes broken.mem broken_allocation
unfolding mdbg_malloc mdbg_buf_alloc tailq_insert_tail tailq_init fill_elem mark memset store8
    store32 load32
broken-Describes = record {
  fits = omega arith;
  len = refl;
  fname = refl;
  low = refl;
  high = refl;
  flag = refl;
  end = refl;
}

mdbg_dump-reports_example :
    mdbg_dump bump head 2 1 broken ≡ ok (line_on 1 clobbered broken_allocation ∷ [])
unfolding lines_on
mdbg_dump-reports_example =
    mdbg_dump-reports bump head 2 1 broken (broken_allocation ∷ []) broken-IsQueue
      (broken-Describes, tt) (omega arith)

tailq_remove-IsQueue_example : IsQueue (tailq_remove head 65536 broken.mem) head []
tailq_remove-IsQueue_example = tailq_remove-IsQueue broken.mem head 65536 [] [] broken-IsQueue

tailq_foreach-elements_example :
    tailq_foreach 2 (tailq_first head broken.mem) broken.mem ≡ ok (65536 ∷ [])
tailq_foreach-elements_example =
    tailq_foreach-elements broken.mem head 2 (65536 ∷ []) broken-IsQueue (omega arith)

malloc_and_free-IsHeap_example :
    Blocks.IsHeap 4096 (Blocks.after_malloc 4096 5 (Blocks.after_malloc 4096 9 (Blocks.start 4096)))
unfolding Basic.malloc Basic.basic_malloc
malloc_and_free-IsHeap_example = Blocks.malloc_and_free-IsHeap 4096 (omega arith) (omega arith) (
    Blocks.next (Blocks.next Blocks.here (Blocks.allocates 9 (omega arith)))
      (Blocks.allocates 5 (omega arith)))

malloc_starts_over_example :
    (Basic.malloc 4096 (2 ^ 32 - 64) 64 ≡ (4160, 0)) × ((Basic.malloc 4096 8 0).0 ≡ 4096)
malloc_starts_over_example =
    malloc_starts_over 4096 (omega arith) 64 8 (omega arith) (omega arith) refl (omega arith)
      (omega arith)

abbrev s0 : Area.State
s0 = record { dla = (malloc_init 4096 4096 (λ i. 7)).0; mem = (malloc_init 4096 4096 (λ i. 7)).1 }

abbrev s1 : Area.State
s1 = record { dla = (sbrk 512 s0.dla s0.mem).1; mem = (sbrk 512 s0.dla s0.mem).2 }

Reach-IsSound_example : IsSound (record {
  dla = (sbrk (2 ^ 32 - 256) s1.dla s1.mem).1;
  mem = (sbrk (2 ^ 32 - 256) s1.dla s1.mem).2;
})
Reach-IsSound_example =
    Reach-IsSound 4096 4096 (λ i. 7) (omega arith) (omega arith)
      (Area.next (Area.next Area.here (Area.breaks 512 (omega arith)))
        (Area.breaks (2 ^ 32 - 256) (omega arith)))

-- Functions that take note of their calls.
abbrev noting : Dlmalloc ℕ
noting = record {
  dlmalloc = λ size s. (64, s + 1);
  dlfree = λ p s. s;
  dlcalloc = λ n size s. (64, s + 1);
  dlrealloc = λ p size s. (64, s + 1);
  dlmemalign = λ a size s. (a, s + 1);
  dlvalloc = λ size s. (64, s + 1);
  dlpvalloc = λ size s. (64, s + 1);
}

memalign_lem_example : memalign noting 64 5 0 ≡ ok (64, 1)
unfolding is_power
memalign_lem_example = memalign_lem noting 64 5 0 (omega arith)
