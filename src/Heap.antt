-- ===== src/Heap.antt =====
-- The heap of libutils/isoc/malloc_wrapper.c: Basic is the allocator of TEE_USE_BASIC_MALLOC, Brk gives
-- memory to dlmalloc and guards its `memalign`, Debug is the allocator of ENABLE_MDBG over either, and
-- Queue is the tail queue of libutils/isoc/include/sys/queue.h that holds its buffers. dlmalloc is a
-- copy of another project and stands as a parameter.
pub mod Basic
pub mod Brk
pub mod Queue
pub mod Debug
mod Examples
