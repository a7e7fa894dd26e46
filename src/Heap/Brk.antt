-- ===== src/Heap/Brk.antt =====
-- The configuration TEE_USE_DLMALLOC of libutils/isoc/malloc_wrapper.c: `sbrk` and its area,
-- `dlmalloc_init` behind `malloc_init`, and the wrappers of dlmalloc, whose functions are parameters
-- over its state. A `ptrdiff_t` is a 32-bit word, negative from 2 ^ 31 on. `valloc` and `pvalloc` fail
-- their assertion for any size but 0.
pub mod Area
pub mod Align
use Prim.Native.Nat.{bit_and}
use bios_qemu_tz_arm.Prelude.{
  ℕ, zero, suc, ◌+◌, ◌-◌, ◌*◌, ◌%◌, ◌^◌, true, false, ◌||◌, not, ◌==◌, ltb, leb, if◌then◌else◌,
}
use bios_qemu_tz_arm.Run.{Run, ok, out_of_fuel, check, ◌>>=◌, ◌>>◌}
use bios_qemu_tz_arm.Memory.{Memory, memset}

-- (void *)-1
abbrev pub failed : ℕ
failed = 2 ^ 32 - 1

-- struct dlmalloc_area
pub record DlmallocArea : Type 0 where
  pub start : ℕ
  pub end : ℕ
  pub brk : ℕ

-- `static struct dlmalloc_area dla`
abbrev pub initial : DlmallocArea
initial = record { start = failed; end = 0; brk = 0 }

unfoldable pub sbrk : ℕ → DlmallocArea → Memory → ℕ × DlmallocArea × Memory
sbrk size dla mem =
    let brk = (dla.brk + size) % 2 ^ 32 in
    if (dla.start == failed) || ltb brk dla.start || ltb dla.end brk then (failed, dla, mem) else (
      dla.brk,
      record dla { brk = brk },
      if leb (2 ^ 31) size then memset brk 0 (2 ^ 32 - size) mem else mem,
    )

unfoldable pub dlmalloc_init : ℕ → ℕ → Memory → DlmallocArea × Memory
dlmalloc_init start size mem =
    (record { start = start; end = (start + size) % 2 ^ 32; brk = start }, memset start 0 size mem)

unfoldable pub malloc_init : ℕ → ℕ → Memory → DlmallocArea × Memory
malloc_init = dlmalloc_init

-- for (i = 1, j = 0; i; i <<= 1) if (i & a) j++;
unfoldable pub count_ones : ℕ → ℕ → ℕ → ℕ → Run ℕ
count_ones zero a i j = out_of_fuel
count_ones (suc fuel) a i j = elim (i == 0) [
  | true ↦ ok j
  | false ↦ count_ones fuel a (i * 2 % 2 ^ 32) (if bit_and a i == 0 then j else j + 1)
]

-- The functions of dlmalloc, each with its result and the new state.
pub record Dlmalloc (S : Type 0) : Type 0 where
  pub dlmalloc : ℕ → S → ℕ × S
  pub dlfree : ℕ → S → S
  pub dlcalloc : ℕ → ℕ → S → ℕ × S
  pub dlrealloc : ℕ → ℕ → S → ℕ × S
  pub dlmemalign : ℕ → ℕ → S → ℕ × S
  pub dlvalloc : ℕ → S → ℕ × S
  pub dlpvalloc : ℕ → S → ℕ × S

module _ {S : Type 0} (dl : Dlmalloc S) where
  -- The loop of 32 rounds and the last test take 33 rounds of fuel.
  unfoldable pub memalign : ℕ → ℕ → S → Run (ℕ × S)
  memalign a l s = do
    j ← count_ones 33 a 1 0
    ok (if not (j == 1) then (0, s) else dl.dlmemalign a l s)

  unfoldable pub valloc : ℕ → S → Run (ℕ × S)
  valloc l s = do check (not (l == 0)); ok (dl.dlvalloc l s)

  unfoldable pub pvalloc : ℕ → S → Run (ℕ × S)
  pvalloc l s = do check (not (l == 0)); ok (dl.dlpvalloc l s)
