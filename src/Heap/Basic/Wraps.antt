-- ===== src/Heap/Basic/Wraps.antt =====
-- What `basic_malloc` and `calloc` do where a sum or a product wraps around or the heap is full.
use bios_qemu_tz_arm.Prelude.{
  ℕ, ◌+◌, ◌-◌, ◌*◌, ◌/◌, ◌%◌, ◌^◌, ◌≤◌, ◌<◌, ◌≡◌, refl, ◌==◌, false, ltb, arith,
}
use bios_qemu_tz_arm.Memory.{Memory, memset}
use bios_qemu_tz_arm.Heap.Basic.{heapsize, rounded, basic_malloc, malloc, calloc}

module _ (heap_address : ℕ) (fits : heap_address + heapsize < 2 ^ 32) where
  -- A heap that a call has overrun stays so: a later `malloc` returns NULL, however small its size is,
  -- as long as the sum with the offset does not wrap around.
  pub malloc_stays_exhausted :
      (size offset : ℕ)
      → heapsize < offset
      → offset + size + 7 < 2 ^ 32
      → ((malloc heap_address size offset).0 ≡ 0) × (heapsize < (malloc heap_address size offset).1)
  unfolding malloc basic_malloc
  malloc_stays_exhausted size offset h h' =
      let e : (offset + rounded size) % 2 ^ 32 ≡ offset + 8 * ((size + 7) / 8) = omega arith in
      rw e (ground arith, ground arith)

  -- After any blocks, a size that fills the word with the offset is granted, with a pointer that is not
  -- NULL, and sets the offset back to 0. The next block then starts where the first one did.
  pub malloc_starts_over :
      (offset size : ℕ)
      → 0 < heap_address
      → 0 < offset
      → offset % 8 ≡ 0
      → offset ≤ heapsize
      → size + 7 < heapsize
      → (malloc heap_address (2 ^ 32 - offset) offset ≡ (heap_address + offset, 0))
        × ((malloc heap_address size 0).0 ≡ heap_address)
  unfolding malloc basic_malloc
  malloc_starts_over offset size pos h a h' s =
      let e : (offset + rounded (2 ^ 32 - offset)) % 2 ^ 32 ≡ 0 = omega arith in
      let e' : (0 + rounded size) % 2 ^ 32 ≡ 8 * ((size + 7) / 8) = omega arith in
      (rw e (ground arith), rw e' (ground arith))

  -- `calloc` of a number of elements whose sizes wrap around to a small block returns that block.
  pub calloc_wraps :
      (nmemb size l offset : ℕ) (mem : Memory)
      → nmemb * size ≡ 2 ^ 32 + l
      → l + 7 < 2 ^ 32
      → 0 < heap_address
      → offset + 8 * ((l + 7) / 8) ≤ heapsize
      → calloc heap_address nmemb size offset mem ≡ (
        heap_address + offset,
        offset + 8 * ((l + 7) / 8),
        memset (heap_address + offset) 0 l mem,
      )
  unfolding calloc malloc basic_malloc
  calloc_wraps nmemb size l offset mem e small pos room =
      let e1 : nmemb * size % 2 ^ 32 ≡ l = omega arith in
      let e2 : (offset + rounded l) % 2 ^ 32 ≡ offset + 8 * ((l + 7) / 8) = omega arith in
      let e3 : (heap_address + offset) % 2 ^ 32 ≡ heap_address + offset = omega arith in
      let e4 : ltb heapsize (offset + 8 * ((l + 7) / 8)) ≡ false = ground arith in
      let e5 : (heap_address + offset == 0) ≡ false = ground arith in rw (e1, e2, e3, e4, e5) refl
