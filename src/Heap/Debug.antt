-- ===== src/Heap/Debug.antt =====
-- The allocator of ENABLE_MDBG in libutils/isoc/malloc_wrapper.c: each buffer stands behind a header
-- that is queued in `mdbg_head`, and ends with a mark. EFFECTIVE_MALLOC and EFFECTIVE_FREE are a
-- parameter. An assertion that fails is taken to stop the machine: `_assert_break`, which it calls, is
-- not in the repository. `struct mdbg_elem` is 20 bytes: the link, `len` at 8, `fname` at 12, `line` at
-- 16 and `ignore` at 18. What `mdbg_dump` prints is the list of its lines, as `Report`.
-- A loop over the queue takes fuel: one more than the number of buffers is enough.
pub mod Frame
pub mod Invariant
pub mod Enqueue
pub mod Alloc
pub mod Free
pub mod Check
pub mod Trace
pub mod Dump
pub mod Contents
pub mod Copied
pub mod Resize
use Prim.Native.Nat.{bit_xor}
use bios_qemu_tz_arm.Prelude.{
  ℕ, zero, suc, ◌+◌, ◌-◌, ◌*◌, ◌/◌, ◌%◌, ◌^◌, Bool, true, false, ◌&&◌, ◌||◌, not, Option, none,
  some, List, [], ◌∷◌, ◌==◌, ltb, if◌then◌else◌,
}
use bios_qemu_tz_arm.Run.{Run, ok, hang, out_of_fuel, check, ◌>>=◌, ◌>>◌}
use bios_qemu_tz_arm.Memory.{Memory, memcpy, memset, store8, load32, store32}
use bios_qemu_tz_arm.Heap.Queue.{
  tailq_insert_tail, tailq_remove, tailq_first, tailq_next, tailq_prev,
}

-- EFFECTIVE_MALLOC and EFFECTIVE_FREE, on the state of the allocator and the memory.
pub record Allocator (S : Type 0) : Type 0 where
  pub alloc : ℕ → S → Memory → ℕ × S × Memory
  pub release : ℕ → S → Memory → S × Memory

-- sizeof(struct mdbg_elem)
abbrev pub elem_size : ℕ
elem_size = 20

-- A difference of words.
abbrev pub before : ℕ → ℕ → ℕ
before p n = (p + (2 ^ 32 - n)) % 2 ^ 32

-- `e->len`
abbrev pub len_of : Memory → ℕ → ℕ
len_of mem e = load32 mem (e + 8)

-- (((uintptr_t)cp) & 0xFF) ^ 0xC5
unfoldable pub mark : ℕ → ℕ
mark cp = bit_xor (cp % 256) 0xC5

-- The place of the mark in a block of that many bytes.
abbrev pub mark_at : ℕ → ℕ → ℕ
mark_at cp nbytes = (cp + nbytes - 1) % 2 ^ 32

-- The fields behind the link, and the mark at the end.
unfoldable pub fill_elem : ℕ → ℕ → ℕ → ℕ → Bool → Memory → Memory
fill_elem cp nbytes fname lineno bufimode mem =
    let m1 = store32 (cp + 8) nbytes mem in
    let m2 = store32 (cp + 12) fname m1 in
    let m3 = store8 (cp + 17) (lineno / 2 ^ 8 % 2 ^ 8) (store8 (cp + 16) (lineno % 2 ^ 8) m2) in
    let m4 = store8 (cp + 18) (if bufimode then 1 else 0) m3 in
    store8 (mark_at cp nbytes) (mark cp) m4

unfoldable pub mdbg_check_buf_end : ℕ → Memory → Bool
mdbg_check_buf_end e mem = mem (mark_at e (len_of mem e)) == mark e

unfoldable pub mdbg_check_buf : ℕ → Memory → Bool
mdbg_check_buf ap mem =
    let next = tailq_next ap mem in
    let prev = tailq_prev ap mem in
    if ap == 0
    then false
    else if not (next == 0) && not (tailq_prev next mem == ap)
    then false
    else if not (prev == 0) && not (tailq_next prev mem == ap)
    then false
    else mdbg_check_buf_end ap mem

pub data MdbgMode : Type 0 where
  mdbg_mode_static mdbg_mode_dynamic : MdbgMode

-- `bufimode` behind the call, and the result.
unfoldable pub mdbg_set_mode : MdbgMode → Bool → Bool × MdbgMode
mdbg_set_mode mode bufimode = (
  elim mode [ mdbg_mode_static ↦ true | mdbg_mode_dynamic ↦ false ],
  if bufimode then mdbg_mode_static else mdbg_mode_dynamic,
)

-- The loop of `mdbg_check`. A buffer that is clobbered is printed and fails the assertion.
unfoldable pub check_loop : ℕ → ℕ → Memory → Run (Unit {0})
check_loop zero e mem = out_of_fuel
check_loop (suc fuel) e mem = elim (e == 0) [
  | true ↦ ok tt
  | false ↦ elim (mdbg_check_buf e mem) [
    | true ↦ check_loop fuel (tailq_next e mem) mem
    | false ↦ hang
  ]
]

-- "Clobbered", "Ignore" and "Orphaned"
pub data Status : Type 0 where
  clobbered ignored orphaned : Status

-- A line of `mdbg_print_buf`: without a file name it prints "unknown". With the content come the
-- place and the size of what is printed of it.
pub record Report : Type 0 where
  pub stat : Status
  pub memsize : ℕ
  pub fname : Option ℕ
  pub line : ℕ
  pub content : Option (ℕ × ℕ)

unfoldable pub mdbg_print_buf : ℕ → Status → ℕ → Memory → Report
mdbg_print_buf bufdump stat e mem =
    let memsize = before (len_of mem e) (elem_size + 1) in
    let fname = load32 mem (e + 12) in
    record {
      stat = stat;
      memsize = memsize;
      fname = if fname == 0 then none else some fname;
      line = mem (e + 16) + mem (e + 17) * 2 ^ 8;
      content = if ltb 1 bufdump then some ((e + elem_size) % 2 ^ 32, memsize) else none;
    }

-- `e->ignore`
unfoldable pub ignore : ℕ → Memory → Bool
ignore e mem = not (mem (e + 18) == 0)

-- The loop of `mdbg_dump` with MDBG_PRINT_LEAKS, which stops behind a clobbered buffer.
unfoldable pub dump_loop : ℕ → ℕ → ℕ → Memory → Run (List Report)
dump_loop zero bufdump e mem = out_of_fuel
dump_loop (suc fuel) bufdump e mem = elim (e == 0) [
  | true ↦ ok []
  | false ↦ elim (mdbg_check_buf e mem) [
    | false ↦ ok (mdbg_print_buf bufdump clobbered e mem ∷ [])
    | true ↦ do
      rest ← dump_loop fuel bufdump (tailq_next e mem) mem
      let stat : Status = if ignore e mem then ignored else orphaned
      ok (
          if ltb 0 bufdump || not (ignore e mem)
          then mdbg_print_buf bufdump stat e mem ∷ rest
          else rest)
  ]
]

-- The state of the allocator, the memory and `bufimode`.
pub record Heap (S : Type 0) : Type 0 where
  pub inner : S
  pub mem : Memory
  pub bufimode : Bool

module _ {S : Type 0} (a : Allocator S) (mdbg_head : ℕ) where
  unfoldable pub mdbg_buf_alloc : ℕ → ℕ → ℕ → Heap S → Run (ℕ × Heap S)
  mdbg_buf_alloc fname lineno nbytes h = do
    check (nbytes == 0)
    let n = (nbytes + elem_size + 1) % 2 ^ 32
    let (cp, inner, mem) = a.alloc n h.inner h.mem
    elim (cp == 0) [
      | true ↦ ok (0, record h { inner = inner; mem = mem })
      | false ↦ do
        let queued = tailq_insert_tail mdbg_head cp mem
        let filled = fill_elem cp n fname lineno h.bufimode queued
        ok ((cp + elem_size) % 2 ^ 32, record h { inner = inner; mem = filled })
    ]

  unfoldable pub mdbg_free : ℕ → Heap S → Run (Heap S)
  mdbg_free fp h = if fp == 0 then ok h else do
    let cp = before fp elem_size
    check (not (cp % 4 == 0))
    check (not (mdbg_check_buf cp h.mem))
    let m1 = tailq_remove mdbg_head cp h.mem
    let m2 = memset cp 0xAA (len_of m1 cp) m1
    let (inner, mem) = a.release cp h.inner m2
    ok (record h { inner = inner; mem = mem })

  unfoldable pub mdbg_malloc : ℕ → ℕ → ℕ → Heap S → Run (ℕ × Heap S)
  mdbg_malloc fname lineno nbytes h = do
    (buf, h1) ← mdbg_buf_alloc fname lineno nbytes h
    if buf == 0 then ok (0, h1) else ok (buf, record h1 { mem = memset buf 0x55 nbytes h1.mem })

  unfoldable pub mdbg_calloc : ℕ → ℕ → ℕ → ℕ → Heap S → Run (ℕ × Heap S)
  mdbg_calloc fname lineno nelem elsize h = do
    let l = nelem * elsize % 2 ^ 32
    (buf, h1) ← mdbg_buf_alloc fname lineno l h
    if buf == 0 then ok (0, h1) else ok (buf, record h1 { mem = memset buf 0 l h1.mem })

  unfoldable pub mdbg_realloc : ℕ → ℕ → ℕ → ℕ → Heap S → Run (ℕ × Heap S)
  mdbg_realloc fname lineno ptr size h = do
    check (size == 0 || not (ptr % 4 == 0))
    elim (ptr == 0) [
      | true ↦ mdbg_malloc fname lineno size h
      | false ↦ do
        let osize = before (len_of h.mem (before ptr elem_size)) (elem_size + 1)
        elim (size == osize) [
          | true ↦ ok (ptr, h)
          | false ↦ do
            (buf, h1) ← mdbg_malloc fname lineno size h
            elim (buf == 0) [
              | true ↦ ok (0, h1)
              | false ↦ do
                let n = if ltb size osize then size else osize
                h2 ← mdbg_free ptr (record h1 { mem = memcpy buf ptr n h1.mem })
                ok (buf, h2)
            ]
        ]
    ]

  unfoldable pub mdbg_check : ℕ → Heap S → Run (Unit {0})
  mdbg_check fuel h = check_loop fuel (tailq_first mdbg_head h.mem) h.mem

  unfoldable pub mdbg_dump : ℕ → ℕ → Heap S → Run (List Report)
  mdbg_dump fuel bufdump h = dump_loop fuel bufdump (tailq_first mdbg_head h.mem) h.mem
