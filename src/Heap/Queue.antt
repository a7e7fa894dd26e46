-- ===== src/Heap/Queue.antt =====
-- The tail queues of libutils/isoc/include/sys/queue.h, as far as libutils/isoc/malloc_wrapper.c uses
-- them, on the words of the memory. An element's `field` stands at its start, so `tqe_next` is the word
-- at the element and `tqe_prev`, the address of the pointer to it, the word behind; the head has
-- `tqh_first` and `tqh_last` in the same places. QUEUEDEBUG is not defined.
pub mod Seg
pub mod Insert
pub mod Remove
pub mod Walk
use bios_qemu_tz_arm.Prelude.{
  ℕ, zero, suc, ◌+◌, Bool, true, false, not, List, [], ◌∷◌, ◌==◌, if◌then◌else◌,
}
use bios_qemu_tz_arm.Run.{Run, ok, out_of_fuel, ◌>>=◌}
use bios_qemu_tz_arm.Memory.{Memory, load32, store32}

-- TAILQ_HEAD_INITIALIZER and TAILQ_INIT
unfoldable pub tailq_init : ℕ → Memory → Memory
tailq_init head mem = store32 (head + 4) head (store32 head 0 mem)

unfoldable pub tailq_insert_tail : ℕ → ℕ → Memory → Memory
tailq_insert_tail head elm mem =
    let m1 = store32 elm 0 mem in
    let m2 = store32 (elm + 4) (load32 m1 (head + 4)) m1 in
    let m3 = store32 (load32 m2 (head + 4)) elm m2 in store32 (head + 4) elm m3

unfoldable pub tailq_remove : ℕ → ℕ → Memory → Memory
tailq_remove head elm mem =
    let next = load32 mem elm in
    let prev = load32 mem (elm + 4) in
    let m1 = if not (next == 0) then store32 (next + 4) prev mem else store32 (head + 4) prev mem in
    store32 (load32 m1 (elm + 4)) (load32 m1 elm) m1

unfoldable pub tailq_first : ℕ → Memory → ℕ
tailq_first head mem = load32 mem head

unfoldable pub tailq_next : ℕ → Memory → ℕ
tailq_next elm mem = load32 mem elm

-- The pointer to the element stands in its neighbour or the head, at the same place as `tqh_first`, so
-- the word behind it points to the pointer to the neighbour.
unfoldable pub tailq_prev : ℕ → Memory → ℕ
tailq_prev elm mem = load32 mem (load32 mem (load32 mem (elm + 4) + 4))

-- TAILQ_FOREACH: the elements in order.
unfoldable pub tailq_foreach : ℕ → ℕ → Memory → Run (List ℕ)
tailq_foreach zero var mem = out_of_fuel
tailq_foreach (suc fuel) var mem = elim (var == 0) [
  | true ↦ ok []
  | false ↦ do rest ← tailq_foreach fuel (tailq_next var mem) mem; ok (var ∷ rest)
]
