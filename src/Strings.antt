-- ===== src/Strings.antt =====
-- The string functions of libutils/ext (strlcpy.c, strlcat.c, buf_compare_ct.c) and of libutils/isoc
-- (strdup.c, strndup.c), on the bytes of the memory. `strlen`, `strnlen` and `malloc` are parameters.
-- Pointers are addresses that do not wrap around. A loop that runs to the end of a string takes fuel:
-- one more than the length of the string is enough. `__stack_chk_fail` is libutils/isoc/stack_check.c.
pub mod Text
pub mod Copy
pub mod Append
pub mod Compare
pub mod Duplicate
mod Examples
use Prim.Native.Nat.{bit_or, bit_xor}
use bios_qemu_tz_arm.Prelude.{
  ℕ, zero, suc, ◌+◌, ◌-◌, ◌%◌, ◌^◌, true, false, not, ◌==◌, ltb, if◌then◌else◌,
}
use bios_qemu_tz_arm.Run.{Run, ok, hang, out_of_fuel, ◌>>=◌}
use bios_qemu_tz_arm.Memory.{Memory, memcpy, store8}

-- The loop of `strlcpy` that copies, where `n` is not 0: `d`, `s` and `n` behind it, and the memory.
unfoldable pub copy_loop : ℕ → ℕ → ℕ → Memory → ℕ × ℕ × ℕ × Memory
copy_loop zero d s mem = (d, s, 0, mem)
copy_loop (suc n) d s mem =
    let c = mem s in
    let mem1 = store8 d c mem in
    elim (c == 0) [ true ↦ (d + 1, s + 1, suc n, mem1) | false ↦ copy_loop n (d + 1) (s + 1) mem1 ]

-- while (*s++);
unfoldable pub skip_loop : ℕ → ℕ → Memory → Run ℕ
skip_loop zero s mem = out_of_fuel
skip_loop (suc fuel) s mem = elim (mem s == 0) [
  | true ↦ ok (s + 1)
  | false ↦ skip_loop fuel (s + 1) mem
]

-- What `strlcpy` does behind that loop.
unfoldable pub finish_copy : ℕ → ℕ → ℕ → ℕ × ℕ × ℕ × Memory → Run (ℕ × Memory)
finish_copy fuel src siz (d, s, n, mem) = elim (n == 0) [
  | true ↦ do
    let mem1 = if not (siz == 0) then store8 d 0 mem else mem
    s1 ← skip_loop fuel s mem1
    ok (s1 - src - 1, mem1)
  | false ↦ ok (s - src - 1, mem)
]

-- `siz - 1` is the `--n` of the test, which is not made for `siz` 0.
unfoldable pub strlcpy : ℕ → ℕ → ℕ → ℕ → Memory → Run (ℕ × Memory)
strlcpy fuel dst src siz mem = finish_copy fuel src siz (copy_loop (siz - 1) dst src mem)

-- while (n-- != 0 && *d != '\0') d++;
unfoldable pub find_end : ℕ → ℕ → Memory → ℕ
find_end zero d mem = d
find_end (suc n) d mem = elim (mem d == 0) [ true ↦ d | false ↦ find_end n (d + 1) mem ]

-- The loop of `strlcat` that copies: `d` and `s` behind it, and the memory.
unfoldable pub append_loop : ℕ → ℕ → ℕ → ℕ → Memory → Run (ℕ × ℕ × Memory)
append_loop zero n d s mem = out_of_fuel
append_loop (suc fuel) n d s mem = elim (mem s == 0) [
  | true ↦ ok (d, s, mem)
  | false ↦ elim (n == 1) [
    | true ↦ append_loop fuel n d (s + 1) mem
    | false ↦ append_loop fuel (n - 1) (d + 1) (s + 1) (store8 d (mem s) mem)
  ]
]

-- What `strlcat` does behind the search for the end, at `d`.
unfoldable pub finish_append : (ℕ → Memory → ℕ) → ℕ → ℕ → ℕ → ℕ → Memory → ℕ → Run (ℕ × Memory)
finish_append strlen fuel dst src siz mem d =
    let dlen = d - dst in
    let n = siz - dlen in
    elim (n == 0) [
      | true ↦ ok (dlen + strlen src mem, mem)
      | false ↦ do
        (d1, s, mem1) ← append_loop fuel n d src mem
        ok (dlen + (s - src), store8 d1 0 mem1)
    ]

unfoldable pub strlcat : (ℕ → Memory → ℕ) → ℕ → ℕ → ℕ → ℕ → Memory → Run (ℕ × Memory)
strlcat strlen fuel dst src siz mem =
    finish_append strlen fuel dst src siz mem (find_end siz dst mem)

-- while (n--) { res |= (*c1 ^ *c2); c1++; c2++; }
unfoldable pub compare_loop : ℕ → ℕ → ℕ → ℕ → Memory → ℕ
compare_loop zero c1 c2 res mem = res
compare_loop (suc n) c1 c2 res mem =
    compare_loop n (c1 + 1) (c2 + 1) (bit_or res (bit_xor (mem c1) (mem c2))) mem

unfoldable pub buf_compare_ct : ℕ → ℕ → ℕ → Memory → ℕ
buf_compare_ct s1 s2 n mem = compare_loop n s1 s2 0 mem

-- `malloc` on the state of the allocator and the memory.
abbrev pub Malloc : Type 0 → Type 0
Malloc S = ℕ → S → Memory → ℕ × S × Memory

module _ {S : Type 0} (malloc : Malloc S) where
  unfoldable pub strdup : (ℕ → Memory → ℕ) → ℕ → S → Memory → ℕ × S × Memory
  strdup strlen s heap mem =
      let l = (strlen s mem + 1) % 2 ^ 32 in
      let (p, heap1, mem1) = malloc l heap mem in
      (p, heap1, if not (p == 0) then memcpy p s l mem1 else mem1)

  unfoldable pub strndup : (ℕ → ℕ → Memory → ℕ) → ℕ → ℕ → S → Memory → ℕ × S × Memory
  strndup strnlen s n heap mem =
      let l = (strnlen s n mem + 1) % 2 ^ 32 in
      let (p, heap1, mem1) = malloc l heap mem in
      (p, heap1, if not (p == 0) then store8 (p + l - 1) 0 (memcpy p s (l - 1) mem1) else mem1)

-- while (1);
unfoldable pub stack_chk_fail : Run (Unit {0})
stack_chk_fail = hang
