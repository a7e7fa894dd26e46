-- ===== src/Heap/Basic.antt =====
-- `basic_malloc`, `basic_free`, and `malloc`, `free`, `calloc` and `realloc` of the configuration
-- TEE_USE_BASIC_MALLOC in libutils/isoc/malloc_wrapper.c. The state is `_heap_offset`, a 32-bit word;
-- `heap_address` is where the linker puts the array `_heap_address`. A pointer is 0 for NULL.
pub mod Blocks
pub mod Wraps
use bios_qemu_tz_arm.Prelude.{ℕ, ◌+◌, ◌-◌, ◌*◌, ◌/◌, ◌%◌, ◌^◌, not, ◌==◌, ltb, if◌then◌else◌}
use bios_qemu_tz_arm.Run.{Run, hang}
use bios_qemu_tz_arm.Memory.{Memory, memset}

abbrev pub heapsize : ℕ
heapsize = 1024 * 1024

-- `align * ((size + (align - 1)) / align)`, in words
abbrev pub rounded : ℕ → ℕ
rounded size = 8 * ((size + 7) % 2 ^ 32 / 8) % 2 ^ 32

module _ (heap_address : ℕ) where
  -- The pointer and the new offset.
  unfoldable pub basic_malloc : ℕ → ℕ → ℕ × ℕ
  basic_malloc size heap_offset =
      let pt = (heap_address + heap_offset) % 2 ^ 32 in
      let offset = (heap_offset + rounded size) % 2 ^ 32 in
      if ltb heapsize offset then (0, offset) else (pt, offset)

  unfoldable pub basic_free : ℕ → ℕ → ℕ
  basic_free p heap_offset = heap_offset

  unfoldable pub malloc : ℕ → ℕ → ℕ × ℕ
  malloc size heap_offset = basic_malloc size heap_offset

  unfoldable pub free : ℕ → ℕ → ℕ
  free ptr heap_offset = basic_free ptr heap_offset

  unfoldable pub calloc : ℕ → ℕ → ℕ → Memory → ℕ × ℕ × Memory
  calloc nmemb size heap_offset mem =
      let l = nmemb * size % 2 ^ 32 in
      let (p, offset) = malloc l heap_offset in
      (p, offset, if not (p == 0) then memset p 0 l mem else mem)

  -- `assert(0)`
  unfoldable pub realloc : ℕ → ℕ → ℕ → Run (ℕ × ℕ)
  realloc ptr size heap_offset = hang
