-- ===== src/Cells.antt =====
-- The numbers of a device-tree property: `get_val` and `put_val` of bios/main.c, on the bytes of a
-- buffer, and the byte order of libfdt/include/libfdt_env.h that they go through.
-- A `size_t` offset is 32 bits wide, and a pointer is a buffer with an offset into it.
pub mod Bytes
pub mod RoundTrip
mod Examples
use bios_qemu_tz_arm.Prelude.{
  ℕ, zero, suc, ◌+◌, ◌*◌, ◌/◌, ◌%◌, ◌^◌, List, [], ◌∷◌, get_elem?, set, length, ltb, ◌==◌,
  if◌then◌else◌, Option, none, some,
}
use bios_qemu_tz_arm.Run.{Run, ok, fault, or_fault, ◌>>=◌}
use Prim.Native.Nat.{bit_or}

-- Byte `n` of a word in the memory of the little-endian machine: `EXTRACT_BYTE`.
unfoldable pub extract_byte : ℕ → ℕ → ℕ
extract_byte x n = x / 2 ^ (8 * n) % 256

-- `CPU_TO_FDT32`, which serves both directions.
unfoldable pub fdt32_to_cpu : ℕ → ℕ
unfolding extract_byte
fdt32_to_cpu x =
    bit_or
      (bit_or (bit_or (extract_byte x 0 * 2 ^ 24) (extract_byte x 1 * 2 ^ 16))
        (extract_byte x 2 * 2 ^ 8))
      (extract_byte x 3)

-- `CPU_TO_FDT64`
unfoldable pub fdt64_to_cpu : ℕ → ℕ
unfolding extract_byte
fdt64_to_cpu x =
    let a = bit_or (extract_byte x 0 * 2 ^ 56) (extract_byte x 1 * 2 ^ 48) in
    let b = bit_or a (extract_byte x 2 * 2 ^ 40) in
    let c = bit_or b (extract_byte x 3 * 2 ^ 32) in
    let d = bit_or c (extract_byte x 4 * 2 ^ 24) in
    let e = bit_or d (extract_byte x 5 * 2 ^ 16) in
    let f = bit_or e (extract_byte x 6 * 2 ^ 8) in bit_or f (extract_byte x 7)

unfoldable pub cpu_to_fdt32 : ℕ → ℕ
cpu_to_fdt32 = fdt32_to_cpu

unfoldable pub cpu_to_fdt64 : ℕ → ℕ
cpu_to_fdt64 = fdt64_to_cpu

-- `memcpy(&v, addr, n)` into a word: the byte at the lowest address is the least significant.
unfoldable pub load : ℕ → List ℕ → ℕ → Run ℕ
load zero buf offs = ok 0
load (suc n) buf offs = do
  b ← or_fault (get_elem? buf offs)
  rest ← load n buf (suc offs)
  ok (b + rest * 256)

-- `memcpy(addr, &v, n)` from a word. A byte outside the buffer is a fault.
unfoldable pub store : ℕ → List ℕ → ℕ → ℕ → Run (List ℕ)
store zero buf offs v = ok buf
store (suc n) buf offs v =
    if ltb offs (length buf) then store n (set buf offs (v % 256)) (suc offs) (v / 256) else fault

-- `*offs += cell_size * sizeof(uint32_t)`
unfoldable pub advance : ℕ → ℕ → ℕ
advance offs cell_size = (offs + cell_size * 4 % 2 ^ 32) % 2 ^ 32

-- The value at the offset, and the offset behind it.
unfoldable pub get_val : List ℕ → ℕ → ℕ → Run (ℕ × ℕ)
unfolding advance
get_val prop offs cell_size =
    if cell_size == 1
    then (do v ← load 4 prop offs; ok (fdt32_to_cpu v, advance offs cell_size))
    else (do v ← load 8 prop offs; ok (fdt64_to_cpu v, advance offs cell_size))

-- The buffer with the value, and the offset behind it. The cast to `uint32_t` is in both branches.
unfoldable pub put_val : List ℕ → ℕ → ℕ → ℕ → Run (List ℕ × ℕ)
unfolding advance
put_val prop offs cell_size val =
    if cell_size == 1
    then (do
      prop' ← store 4 prop offs (cpu_to_fdt32 (val % 2 ^ 32))
      ok (prop', advance offs cell_size))
    else do
      prop' ← store 8 prop offs (cpu_to_fdt64 (val % 2 ^ 32))
      ok (prop', advance offs cell_size)
