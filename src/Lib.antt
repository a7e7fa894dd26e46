-- ===== src/Lib.antt =====
-- BIOS for QEMU with TrustZone (bios_qemu_tz_arm): the first boot stage of an ARM machine.
--
-- The program starts in secure state, edits the device tree, loads the secure and the non-secure
-- images and starts both. This library models the C code that the repository wrote for itself; libfdt,
-- the newlib string functions and dlmalloc are copies of other projects and are not modelled.
--
-- Prelude (with Tests, Lists, Texts, Order, Bits, Quotients): shared names and lemmas, no code.
-- Run: how a run of the code ends. CHECK of bios/main.c is `check`, its endless loop is `hang`.
-- Platform: bios/platform_config.h.
-- Cells (with Bytes, RoundTrip): `get_val` and `put_val` of bios/main.c on the bytes of a property,
--   and the byte order of libfdt/include/libfdt_env.h.
-- ResMem: `tz_res_mem_check_avail` and `tz_res_mem_carve` of bios/main.c. Regions has the regions that
--   a property lists, Avail the check, Carve the carving, as lists of regions, Carve/Exact and
--   Carve/Outside what they mean as sets of addresses.
-- Divmod: libutils/isoc/arch/arm32/aeabi_divmod.c and aeabi_ldivmod.c. Loops has the two loops of the
--   division, Unsigned, Signed and Modulo the functions that the compiler calls.
-- Uart: drivers/uart.c, include/io.h and the body of the loop of `msg`. Poll has the polling loops,
--   Send what the port is given.
-- Printf: libutils/isoc/snprintf.c. Digits has the digits of a number, Args the arguments, Fields the
--   ends of a conversion and Directive the way to them, Format the padding, the loop over the format and
--   `vsnprintf`; Format/Sink and Format/Bounded relate the bounded buffer to the whole text. Values is
--   what a conversion stands for, Pieces what a format does, as a sequence of characters and
--   conversions: Pieces/Numeral has the digits, Decimal the numbers in the format, Shape, Limit and
--   Convert a conversion, Padded the padding, Width a width in the format, Whole the loop.
-- Msg: `msg_init` and `msg` of bios/main.c, from the format to the serial port. Line has what is sent.
--   Calls has the calls of `msg`, that of `check` among them, Messages the pieces that they stand for, and
--   Messages/Sent what each of them puts on the line.
-- Memory (with Words): the bytes of the memory, for the parts that share pointers.
-- Heap: libutils/isoc/malloc_wrapper.c. Basic is the allocator of TEE_USE_BASIC_MALLOC, with Blocks on
--   the blocks that it hands out and Wraps on its overflows; Brk is `sbrk` and the wrappers of
--   TEE_USE_DLMALLOC, with Area on the area of `sbrk` and Align on `memalign`; Queue (Seg, Insert,
--   Remove, Walk) has the tail queues of libutils/isoc/include/sys/queue.h; Debug is the allocator of
--   ENABLE_MDBG, with Frame, Invariant, Enqueue, Alloc, Free, Check and Trace on its queue of buffers,
--   Contents, Copied and Resize on what the buffers hold, and Dump on what `mdbg_dump` prints.
-- Strings: libutils/ext/strlcpy.c, strlcat.c and buf_compare_ct.c, libutils/isoc/strdup.c, strndup.c
--   and stack_check.c. Text has strings in the memory, Copy is about `strlcpy`, Append `strlcat`, Compare `buf_compare_ct`, Duplicate
--   `strdup` and `strndup`.
-- Boot: the rest of bios/main.c. Images copies the images, with Layout and Secure on where they lie;
--   Tree edits the device tree, with Tree/Reserve on `tz_res_mem` as a whole, Tree/Shared on the node
--   that `tz_res_uart` takes out and Tree/Compatible on lists of strings. Start is about the two entry
--   points as a whole: Start/Edits has what libfdt documents of its edits, Start/Sources where
--   `main_init_sec` starts from, Start/Whole `main_init_sec` and Start/Kernel `main_init_ns` behind it.
--
-- Numbers are natural numbers with the wrap-around written out. In bios/main.c a buffer is the list of
-- its bytes and a pointer into it an offset; an access outside is `fault`. Memory, Heap and Strings
-- have the bytes of the whole memory, by their addresses. A loop takes fuel: the loops over a property one
-- more than its length, since each round moves on by an entry; the search for the secure memory one
-- more than its size, since each round takes an address off the range; the division one round for each
-- bit and one for the last test; a loop over a queue one more than it has elements, a loop over a string
-- one more than its length. An `int` of `kprintf` that overflows is `fault`.
--
-- Not modelled: where the runs of bios/main.c send their messages, which are modelled one by one and
-- change no state but the port's; the stores of `%n` to the memory, which `vsnprintf` gives to its caller;
-- the assembly and the linker script, and
-- libutils/isoc/qsort.c and libutils/ext/include/bitstring.h, which come from BSD and are not used.
pub mod Prelude
pub mod Run
pub mod Platform
pub mod Cells
pub mod ResMem
pub mod Divmod
pub mod Strings
pub mod Uart
pub mod Printf
pub mod Boot
pub mod Msg
pub mod Memory
pub mod Heap
