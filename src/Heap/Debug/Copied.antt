-- ===== src/Heap/Debug/Copied.antt =====
-- A copy into the last buffer of the heap, as `mdbg_realloc` makes it.
use bios_qemu_tz_arm.Prelude.{
  ℕ, ◌+◌, ◌≤◌, ◌<◌, ◌≡◌, ◌⊎◌, inl, refl, sym, List, [], ◌∷◌, ◌++◌, arith,
}
use bios_qemu_tz_arm.Run.{Run, ok, hang, fault, out_of_fuel, Returns}
use bios_qemu_tz_arm.Memory.{Memory, memcpy}
use bios_qemu_tz_arm.Memory.Words.{load32-congr, memcpy_outside}
use bios_qemu_tz_arm.Heap.Queue.Seg.{All}
use bios_qemu_tz_arm.Heap.Debug.{len_of}
use bios_qemu_tz_arm.Heap.Debug.Invariant.{IsBuf, IsHeap, Wide, Wides, All-zip, write-IsHeap}
use bios_qemu_tz_arm.Heap.Debug.Enqueue.{Preserves}

-- A run that returns.
pub returned : {A : Type 0} (P : A → Type 0) (r : Run A) → Returns P r → (x : A) × (r ≡ ok x) × P x
returned P (ok x) h = (x, refl, h)
returned P hang h = absurd h
returned P fault h = absurd h
returned P out_of_fuel h = absurd h

pub returned_is : {A : Type 0} (P : A → Type 0) (r : Run A) (x : A) → r ≡ ok x → Returns P r → P x
returned_is P r x e h = rw e at h

-- What holds of every element of a list with a last one.
pub All-last : (P : ℕ → Type 0) (e : ℕ) (es : List ℕ) → All P (es ++ e ∷ []) → P e × All P es
All-last P e [] (h, hs) = (h, tt)
All-last P e (x ∷ es) (h, hs) = let (last, rest) = All-last P e es hs in (last, (h, rest))

pub Wides-last :
    (m : Memory) (e : ℕ) (es : List ℕ) → Wides m (es ++ e ∷ []) → All (λ x. Wide m x e) es
Wides-last m e [] w = tt
Wides-last m e (x ∷ es) (w, ws) = ((All-last (Wide m x) e es w).0, Wides-last m e es ws)

-- A copy into the data of the last buffer.
module _ (m : Memory) (head e src n : ℕ) (es : List ℕ) (sound : IsHeap m head (es ++ e ∷ []))
    (room : n + 21 ≤ len_of m e) where
  abbrev pub copied : Memory
  copied = memcpy (e + 20) src n m

  pub copied-outside : (i : ℕ) → (i < e + 20) ⊎ (e + 20 + n ≤ i) → copied i ≡ m i
  copied-outside i h = memcpy_outside (e + 20) src n m i h

  pub copied-IsHeap : IsHeap copied head (es ++ e ∷ [])
  copied-IsHeap =
      write-IsHeap m copied head e es [] sound (λ i h. sym (copied-outside i (ground arith)))

  pub copied-Preserves : Preserves m copied es
  copied-Preserves =
      let (b, bs) = All-last (IsBuf m head) e es sound.bufs in
      All-zip {P = λ x. Wide m x e} {Q = IsBuf m head}
        {R = λ x. (i : ℕ) → x + 8 ≤ i → i < x + len_of m x → copied i ≡ m i} es
        (λ x away c i lo hi. copied-outside i (ground (arith, away))) (Wides-last m e es sound.wide)
        bs

  pub copied-len : len_of copied e ≡ len_of m e
  copied-len = load32-congr copied m (e + 8) (λ i lo hi. copied-outside i (inl (omega arith)))
