-- ===== src/Heap/Debug/Dump.antt =====
-- What `mdbg_dump` prints of a queue.
use Prim.Native.Nat.{bit_xor}
use bios_qemu_tz_arm.Prelude.{
  map, length-map, none, some, ◌+◌, ◌*◌, ◌/◌, ◌%◌, ◌^◌, ◌≤◌, ℕ, zero, suc, ◌<◌, ◌≡◌, refl, ap, ◌∙◌,
  Bool, true, false, not, ◌||◌, List, [], ◌∷◌, ◌==◌, ltb, length, if◌then◌else◌, Bool-cases, inl,
  inr, arith,
}
use bios_qemu_tz_arm.Run.{Run, ok, ◌>>=◌}
use bios_qemu_tz_arm.Memory.{Memory, load32}
use bios_qemu_tz_arm.Heap.Queue.{tailq_first, tailq_next}
use bios_qemu_tz_arm.Heap.Queue.Seg.{Seg}
use bios_qemu_tz_arm.Heap.Queue.Insert.{IsQueue}
use bios_qemu_tz_arm.Heap.Debug.{
  Allocator, Heap, Status, before, elem_size, mark, mark_at, clobbered, ignored, orphaned, Report,
  ignore, mdbg_check_buf, mdbg_check_buf_end, mdbg_print_buf, dump_loop, mdbg_dump,
}
use bios_qemu_tz_arm.Heap.Debug.Check.{Sound, Sound-IsQueue}

-- What the loop gives for a list of buffers.
unfoldable reports : ℕ → List ℕ → Memory → List Report
reports bufdump [] mem = []
reports bufdump (e ∷ es) mem =
    let rest = reports bufdump es mem in
    let line : Report = mdbg_print_buf bufdump (if ignore e mem then ignored else orphaned) e mem in
    if not (mdbg_check_buf_end e mem)
    then mdbg_print_buf bufdump clobbered e mem ∷ []
    else if ltb 0 bufdump || not (ignore e mem)
    then line ∷ rest
    else rest

-- One round of the loop, for the result of the test and that of the other rounds.
abbrev round : ℕ → ℕ → Memory → Bool → Run (List Report) → Run (List Report)
round bufdump e mem clean next = elim clean [
  | false ↦ ok (mdbg_print_buf bufdump clobbered e mem ∷ [])
  | true ↦ do
    rest ← next
    let stat : Status = if ignore e mem then ignored else orphaned
    ok (
        if ltb 0 bufdump || not (ignore e mem)
        then mdbg_print_buf bufdump stat e mem ∷ rest
        else rest)
]

dump_step :
    (m : Memory) (bufdump fuel e : ℕ)
    → (e == 0) ≡ false
    → dump_loop (suc fuel) bufdump e m
      ≡ round bufdump e m (mdbg_check_buf e m) (dump_loop fuel bufdump (tailq_next e m) m)
unfolding dump_loop
dump_step m bufdump fuel e t = rw (dump_loop, t) refl

dump_end : (m : Memory) (bufdump fuel : ℕ) → dump_loop (suc fuel) bufdump 0 m ≡ ok []
unfolding dump_loop
dump_end m bufdump fuel = refl

round-reports :
    (bufdump e : ℕ) (es : List ℕ) (m : Memory)
    → round bufdump e m (mdbg_check_buf_end e m) (ok (reports bufdump es m))
      ≡ ok (reports bufdump (e ∷ es) m)
unfolding reports
round-reports bufdump e es m = elim (Bool-cases (mdbg_check_buf_end e m)) [
  | inl fine ↦ rw (round, reports, fine) refl
  | inr bad ↦ rw (round, reports, bad) refl
]

dump-Seg :
    (m : Memory) (bufdump fuel link end : ℕ) (xs : List ℕ)
    → Seg m link end xs
    → load32 m end ≡ 0
    → Sound m xs
    → length xs < fuel
    → dump_loop fuel bufdump (load32 m link) m ≡ ok (reports bufdump xs m)
unfolding tailq_next reports
dump-Seg m bufdump zero link end xs s z ok_s h = absurd (omega arith)
dump-Seg m bufdump (suc fuel) link end [] s z ok_s h = rw (s, z) (dump_end m bufdump fuel)
dump-Seg m bufdump (suc fuel) link end (x ∷ xs) (at, back, nz, s) z (ok_x, ok_s) h =
    rw (at, dump_step m bufdump fuel x (ground (arith, nz)), ok_x)
      (ap (round bufdump x m (mdbg_check_buf_end x m))
          (dump-Seg m bufdump fuel x end xs s z ok_s (omega arith))
        ∙ round-reports bufdump x xs m)

-- What a buffer was allocated as: so many bytes, by a line of a file (0 is no name), to be ignored or not;
-- and whether its mark is as it was then.
pub record Allocation : Type 0 where
  pub place : ℕ
  pub nbytes : ℕ
  pub file : ℕ
  pub line : ℕ
  pub to_ignore : Bool
  pub intact : Bool

-- The header and the byte behind the data say so.
pub record Describes (mem : Memory) (al : Allocation) : Type 0 where
  pub fits : al.place + al.nbytes + 21 ≤ 2 ^ 32
  pub len : load32 mem (al.place + 8) ≡ al.nbytes + 21
  pub fname : load32 mem (al.place + 12) ≡ al.file
  pub low : mem (al.place + 16) ≡ al.line % 2 ^ 8
  pub high : mem (al.place + 17) ≡ al.line / 2 ^ 8
  pub flag : mem (al.place + 18) ≡ (if al.to_ignore then 1 else 0)
  pub end : (mem (al.place + 20 + al.nbytes) == bit_xor (al.place % 256) 0xC5) ≡ al.intact

abbrev pub AllDescribed : Memory → List Allocation → Type 0
AllDescribed mem [] = Unit {0}
AllDescribed mem (al ∷ als) = Describes mem al × AllDescribed mem als

-- The line on an allocation, with the place of the data and their number from the second level on.
abbrev pub line_on : ℕ → Status → Allocation → Report
line_on bufdump stat al = record {
  stat = stat;
  memsize = al.nbytes;
  fname = if al.file == 0 then none else some al.file;
  line = al.line;
  content = if ltb 1 bufdump then some (al.place + 20, al.nbytes) else none;
}

-- The lines on a list of allocations.
unfoldable pub lines_on : ℕ → List Allocation → List Report
lines_on bufdump [] = []
lines_on bufdump (al ∷ als) = elim al.intact [
  | false ↦ line_on bufdump clobbered al ∷ []
  | true ↦ elim al.to_ignore [
    | false ↦ line_on bufdump orphaned al ∷ lines_on bufdump als
    | true ↦ elim (bufdump == 0) [
      | true ↦ lines_on bufdump als
      | false ↦ line_on bufdump ignored al ∷ lines_on bufdump als
    ]
  ]
]

print_buf-line_on :
    (bufdump : ℕ) (stat : Status) (m : Memory) (al : Allocation)
    → Describes m al
    → mdbg_print_buf bufdump stat al.place m ≡ line_on bufdump stat al
unfolding mdbg_print_buf
print_buf-line_on bufdump stat m al d =
    let size : before (al.nbytes + 21) 21 ≡ al.nbytes = omega (arith, d.fits) in
    let line : al.line % 2 ^ 8 + al.line / 2 ^ 8 * 2 ^ 8 ≡ al.line = omega arith in
    let begins : (al.place + elem_size) % 2 ^ 32 ≡ al.place + 20 = omega (arith, d.fits) in
    rw (d.len, d.fname, d.low, d.high, size, line, begins) refl

end-intact :
    (m : Memory) (al : Allocation) → Describes m al → mdbg_check_buf_end al.place m ≡ al.intact
unfolding mdbg_check_buf_end mark
end-intact m al d =
    let at : mark_at al.place (al.nbytes + 21) ≡ al.place + 20 + al.nbytes =
      omega (arith, d.fits) in
    rw (d.len, at) d.end

ignore-flag : (m : Memory) (al : Allocation) → Describes m al → ignore al.place m ≡ al.to_ignore
unfolding ignore
ignore-flag m al d = ground (arith, d.flag)

reports-lines_on :
    (bufdump : ℕ) (m : Memory) (als : List Allocation)
    → AllDescribed m als
    → reports bufdump (map (λ al. al.place) als) m ≡ lines_on bufdump als
unfolding reports lines_on
reports-lines_on bufdump m [] d = refl
reports-lines_on bufdump m (al ∷ als) (d, ds) =
    let rest = reports-lines_on bufdump m als ds in
    let print = λ (stat : Status). print_buf-line_on bufdump stat m al d in
    let end = end-intact m al d in
    let flag = ignore-flag m al d in
    elim (Bool-cases al.intact) [
      | inr bad ↦ rw (end, bad, reports, lines_on, print clobbered) refl
      | inl fine ↦ elim (Bool-cases al.to_ignore) [
        | inr shown ↦
            let always : (ltb 0 bufdump || true) ≡ true = ground arith in
            rw (end, flag, fine, shown, reports, lines_on, always, print orphaned, rest) refl
        | inl hidden ↦ elim (Bool-cases (bufdump == 0)) [
          | inl quiet ↦
              let none_shown : (ltb 0 bufdump || false) ≡ false = ground (arith, quiet) in
              rw (end, flag, fine, hidden, quiet, reports, lines_on, none_shown, rest) refl
          | inr all ↦
              let shown : (ltb 0 bufdump || false) ≡ true = ground (arith, all) in
              rw (end, flag, fine, hidden, all, reports, lines_on, shown, print ignored, rest) refl
        ]
      ]
    ]

module _ {S : Type 0} (a : Allocator S) (mdbg_head fuel bufdump : ℕ) (h : Heap S)
    (als : List Allocation) (q : IsQueue h.mem mdbg_head (map (λ al. al.place) als))
    (described : AllDescribed h.mem als) (enough : length als < fuel) where
  -- On a queue of buffers whose headers describe how they were allocated, fewer than there are rounds,
  -- `mdbg_dump` returns. It prints, in the order of the queue, the number of bytes that was asked for, the
  -- file and the line of each buffer that is not to be ignored, or of every buffer if it is asked to, and ends
  -- behind the first buffer whose mark is overwritten, which it prints as clobbered.
  pub mdbg_dump-reports : mdbg_dump a mdbg_head fuel bufdump h ≡ ok (lines_on bufdump als)
  unfolding mdbg_dump tailq_first
  mdbg_dump-reports =
      dump-Seg h.mem bufdump fuel mdbg_head q.last (map (λ al. al.place) als) q.seg q.ends
        (Sound-IsQueue h.mem mdbg_head (map (λ al. al.place) als) q)
        (omega (arith, enough, length-map als (λ al. al.place)))
      ∙ ap ok (reports-lines_on bufdump h.mem als described)
