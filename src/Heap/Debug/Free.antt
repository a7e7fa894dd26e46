-- ===== src/Heap/Debug/Free.antt =====
-- `mdbg_free` of a buffer in use, and of one whose end is overwritten.
use Prim.Native.Nat.{bit_xor}
use bios_qemu_tz_arm.Prelude.{
  ◌-◌, ◌≢◌, false, ℕ, ◌+◌, ◌%◌, ◌^◌, ◌≤◌, ◌<◌, ◌≡◌, ◌⊎◌, inl, inr, refl, sym, ap, ◌∙◌, true, false,
  not, List, ◌∷◌, ◌++◌, ◌==◌, Bool-cases, arith,
}
use bios_qemu_tz_arm.Run.{Run, ok, hang, check, ◌>>◌, Returns}
use bios_qemu_tz_arm.Memory.{Memory, memset, load32}
use bios_qemu_tz_arm.Memory.Words.{load32-congr, memset_outside}
use bios_qemu_tz_arm.Heap.Queue.{tailq_remove}
use bios_qemu_tz_arm.Heap.Queue.Seg.{All, All-map}
use bios_qemu_tz_arm.Heap.Queue.Insert.{IsQueue}
use bios_qemu_tz_arm.Heap.Queue.Remove.{tailq_remove-IsQueue}
use bios_qemu_tz_arm.Heap.Debug.{
  Allocator, Heap, elem_size, before, mark, mark_at, len_of, mdbg_check_buf, mdbg_check_buf_end,
  mdbg_free,
}
use bios_qemu_tz_arm.Heap.Debug.Frame.{Same, Beside, IsQueue-congr, remove-Beside}
use bios_qemu_tz_arm.Heap.Debug.Check.{Sound-IsQueue}
use bios_qemu_tz_arm.Heap.Debug.Invariant.{
  IsBuf, IsHeap, Kept, Wide, All-zip, All-remove, Wides-others, Wides-remove, bufs-congr,
  wide-congr, data-Beside,
}
use bios_qemu_tz_arm.Heap.Debug.Enqueue.{Quiet, Quiet-IsHeap}

-- The memory behind TAILQ_REMOVE, and behind the wipe.
abbrev pub unlinked_by : Memory → ℕ → ℕ → Memory
unlinked_by m head e = tailq_remove head e m

abbrev pub wiped_by : Memory → ℕ → ℕ → Memory
wiped_by m head e = memset e 0xAA (len_of (unlinked_by m head e) e) (unlinked_by m head e)

module _ (m : Memory) (head e : ℕ) (xs ys : List ℕ) (h : IsHeap m head (xs ++ e ∷ ys)) where
  abbrev unlinked : Memory
  unlinked = unlinked_by m head e

  abbrev wiped : Memory
  wiped = wiped_by m head e

  -- A byte of a buffer behind its link stays when the queue changes.
  pub stays : All (λ x. (i : ℕ) → x + 8 ≤ i → i < x + len_of m x → unlinked i ≡ m i) (xs ++ e ∷ ys)
  stays =
      All-map
        {P = λ x. (i : ℕ) → x + 8 ≤ i → i < x + len_of m x → All (Beside i) (head ∷ (xs ++ e ∷ ys))}
        {Q = λ x. (i : ℕ) → x + 8 ≤ i → i < x + len_of m x → unlinked i ≡ m i} (xs ++ e ∷ ys)
        (λ x d i lo hi. remove-Beside m head i e xs ys h.queue (d i lo hi))
        (data-Beside m head (xs ++ e ∷ ys) h.bufs h.wide)

  len_stays : len_of unlinked e ≡ len_of m e
  len_stays =
      let (s, _) =
        All-remove (λ x. (i : ℕ) → x + 8 ≤ i → i < x + len_of m x → unlinked i ≡ m i) e xs ys
          stays in
      let (b, _) = All-remove (IsBuf m head) e xs ys h.bufs in
      load32-congr unlinked m (e + 8) (λ i lo hi. s i lo (omega (arith, b.big)))

  pub outside : (i : ℕ) → (i < e) ⊎ (e + len_of m e ≤ i) → unlinked i ≡ wiped i
  outside i o =
      sym (memset_outside e 0xAA (len_of unlinked e) unlinked i (ground (arith, len_stays)))

  -- Behind the removal and the wipe, the others are as they were.
  pub remove_and_wipe-IsHeap : IsHeap wiped head (xs ++ ys)
  remove_and_wipe-IsHeap =
      let (b, bs) = All-remove (IsBuf m head) e xs ys h.bufs in
      let w = Wides-others m e xs ys h.wide in
      let (_, s) =
        All-remove (λ x. (i : ℕ) → x + 8 ≤ i → i < x + len_of m x → unlinked i ≡ m i) e xs ys
          stays in
      let both =
        All-zip {P = Wide m e} {Q = IsBuf m head} {R = λ x. Wide m e x × IsBuf m head x} (xs ++ ys)
          (λ x a c. (a, c)) w bs in
      let kept : All (Kept m wiped) (xs ++ ys) =
        All-zip {P = λ x. Wide m e x × IsBuf m head x}
          {Q = λ x. (i : ℕ) → x + 8 ≤ i → i < x + len_of m x → unlinked i ≡ m i} {R = Kept m wiped}
          (xs ++ ys)
          (λ x (a, c) f i p.
            sym (f i (ground (arith, c.big)) (ground (arith, c.big)))
            ∙ outside i (ground (arith, a, c.big)))
          both s in
      let links : All (λ x. Same unlinked wiped x 8) (xs ++ ys) =
        All-map {P = λ x. Wide m e x × IsBuf m head x} {Q = λ x. Same unlinked wiped x 8} (xs ++ ys)
          (λ x (a, c) i lo hi. outside i (ground (arith, a, c.big))) both in
      record {
        queue =
            IsQueue-congr unlinked wiped head (xs ++ ys)
              ((λ i lo hi. outside i (ground (arith, b.away))), links)
              (tailq_remove-IsQueue m head e xs ys h.queue);
        bufs = bufs-congr m wiped head (xs ++ ys) bs kept;
        wide = wide-congr m wiped head (xs ++ ys) (Wides-remove m e xs ys h.wide) kept;
      }

module _ {S : Type 0} (a : Allocator S) (head e : ℕ) (xs ys : List ℕ) (h : Heap S) where
  -- `mdbg_free` behind its test for null, for the header `cp`.
  abbrev pub behind : ℕ → Run (Heap S)
  behind cp = do
    check (not (cp % 4 == 0))
    check (not (mdbg_check_buf cp h.mem))
    let m1 = tailq_remove head cp h.mem
    let (inner, mem) = a.release cp h.inner (memset cp 0xAA (len_of m1 cp) m1)
    ok (record h { inner = inner; mem = mem })

  pub free-behind : e < 2 ^ 32 → mdbg_free a head (e + 20) h ≡ behind e
  unfolding mdbg_free
  free-behind w =
      let t : (e + 20 == 0) ≡ false = ground arith in
      let c : before (e + 20) elem_size ≡ e = omega arith in rw t (ap behind c)

  pub sound_at :
      IsQueue h.mem head (xs ++ e ∷ ys) → mdbg_check_buf e h.mem ≡ mdbg_check_buf_end e h.mem
  sound_at q =
      (All-remove (λ x. mdbg_check_buf x h.mem ≡ mdbg_check_buf_end x h.mem) e xs ys
        (Sound-IsQueue h.mem head (xs ++ e ∷ ys) q)).0

  end_differs :
      0 < load32 h.mem (e + 8)
      → e + load32 h.mem (e + 8) ≤ 2 ^ 32
      → h.mem (e + load32 h.mem (e + 8) - 1) ≢ bit_xor (e % 256) 0xC5
      → mdbg_check_buf_end e h.mem ≡ false
  unfolding mdbg_check_buf_end mark
  end_differs low high bad =
      let len = load32 h.mem (e + 8) in
      let at : mark_at e len ≡ e + len - 1 = omega (arith, low, high) in rw at (ground (arith, bad))

  -- What the allocator below promises of the release: it writes to no other buffer.
  abbrev pub Releases : Type 0
  Releases =
      let (_, mem) = a.release e h.inner (wiped_by h.mem head e) in
      Quiet (wiped_by h.mem head e) mem head (xs ++ ys)

  -- In a sound heap, with a release below that writes to no other buffer, `mdbg_free` of a buffer in use
  -- returns, and leaves the queue of the others in their order, with
  -- their lengths and marks.
  pub mdbg_free-IsHeap :
      IsHeap h.mem head (xs ++ e ∷ ys)
      → Releases
      → Returns (λ h'. IsHeap h'.mem head (xs ++ ys)) (mdbg_free a head (e + 20) h)
  mdbg_free-IsHeap sound quiet =
      let (b, _) = All-remove (IsBuf h.mem head) e xs ys sound.bufs in
      let al : (e % 4 == 0) ≡ true = ground (arith, b.aligned) in
      rw (free-behind (omega (arith, b.big, b.fits)), al, sound_at sound.queue ∙ b.marked)
        (Quiet-IsHeap (wiped_by h.mem head e) (a.release e h.inner (wiped_by h.mem head e)).1 head
          (xs ++ ys) quiet (remove_and_wipe-IsHeap h.mem head e xs ys sound))

  -- The machine stops at the release of a buffer on the queue that ends in the address space and whose last
  -- byte is not the low byte of its address, with the bits of 0xC5 inverted.
  pub mdbg_free-clobbered :
      IsQueue h.mem head (xs ++ e ∷ ys)
      → 0 < load32 h.mem (e + 8)
      → e + load32 h.mem (e + 8) ≤ 2 ^ 32
      → h.mem (e + load32 h.mem (e + 8) - 1) ≢ bit_xor (e % 256) 0xC5
      → mdbg_free a head (e + 20) h ≡ hang
  mdbg_free-clobbered q low high bad =
      rw (free-behind (omega (arith, low, high))) (elim (Bool-cases (e % 4 == 0)) [
        | inl al ↦ rw (behind, al, sound_at q ∙ end_differs low high bad) refl
        | inr off ↦ rw (behind, off) refl
      ])
