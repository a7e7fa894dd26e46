-- ===== src/Heap/Queue/Walk.antt =====
-- What TAILQ_FOREACH, TAILQ_NEXT and TAILQ_PREV read of a queue.
use bios_qemu_tz_arm.Prelude.{
  ℕ, zero, suc, ◌<◌, ◌≡◌, refl, false, List, [], ◌∷◌, ◌==◌, length, arith,
}
use bios_qemu_tz_arm.Run.{ok, ◌>>=◌}
use bios_qemu_tz_arm.Memory.{Memory, load32}
use bios_qemu_tz_arm.Heap.Queue.{tailq_first, tailq_next, tailq_foreach}
use bios_qemu_tz_arm.Heap.Queue.Seg.{Seg}
use bios_qemu_tz_arm.Heap.Queue.Insert.{IsQueue}

foreach_end : (m : Memory) (fuel : ℕ) → tailq_foreach (suc fuel) 0 m ≡ ok []
unfolding tailq_foreach
foreach_end m fuel = refl

foreach_step :
    (m : Memory) (fuel x : ℕ)
    → (x == 0) ≡ false
    → tailq_foreach (suc fuel) x m ≡ (tailq_foreach fuel (load32 m x) m >>= λ rest. ok (x ∷ rest))
unfolding tailq_foreach tailq_next
foreach_step m fuel x e = rw (e, tailq_foreach) refl

foreach-Seg :
    (m : Memory) (fuel link end : ℕ) (xs : List ℕ)
    → Seg m link end xs
    → load32 m end ≡ 0
    → length xs < fuel
    → tailq_foreach fuel (load32 m link) m ≡ ok xs
foreach-Seg m zero link end xs s z h = absurd (omega arith)
foreach-Seg m (suc fuel) link end [] s z h = rw (s, z) (foreach_end m fuel)
foreach-Seg m (suc fuel) link end (x ∷ xs) (s, s', nz, ss) z h =
    rw
      (
        s,
        foreach_step m fuel x (ground (arith, nz)),
        foreach-Seg m fuel x end xs ss z (omega arith),
      )
      refl

-- With one round more than the queue has elements, the loop returns and visits them in order.
pub tailq_foreach-elements :
    (m : Memory) (head fuel : ℕ) (xs : List ℕ)
    → IsQueue m head xs
    → length xs < fuel
    → tailq_foreach fuel (tailq_first head m) m ≡ ok xs
unfolding tailq_first
tailq_foreach-elements m head fuel xs q h = foreach-Seg m fuel head q.last xs q.seg q.ends h
