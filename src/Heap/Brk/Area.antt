-- ===== src/Heap/Brk/Area.antt =====
-- The area that `sbrk` gives out: its bounds, and that what it gives out is clear.
use bios_qemu_tz_arm.Prelude.{
  ℕ, ◌+◌, ◌-◌, ◌%◌, ◌^◌, ◌≤◌, ◌<◌, ◌≡◌, inl, inr, refl, ◌∙◌, Bool, true, false, ◌||◌, ◌==◌, ltb,
  leb, if◌then◌else◌, arith, Bool-cases,
}
use bios_qemu_tz_arm.Memory.{Memory, memset, store8}
use bios_qemu_tz_arm.Memory.Words.{memset_inside, memset_outside, store8_other}
use bios_qemu_tz_arm.Heap.Brk.{failed, DlmallocArea, sbrk, dlmalloc_init, malloc_init}

-- The break lies in the area, which is smaller than 2 GiB and does not wrap around.
pub record IsArea (dla : DlmallocArea) : Type 0 where
  pub low : dla.start ≤ dla.brk
  pub high : dla.brk ≤ dla.end
  pub word : dla.end < 2 ^ 32
  pub set_up : dla.start < failed
  pub small : dla.end < dla.start + 2 ^ 31

-- What is not given out is clear.
abbrev pub IsClear : DlmallocArea → Memory → Type 0
IsClear dla mem = (i : ℕ) → dla.brk ≤ i → i < dla.end → mem i ≡ 0

module _ (dla : DlmallocArea) (mem : Memory) (inv : IsArea dla) where
  refused : ℕ → Bool
  refused brk = (dla.start == failed) || ltb brk dla.start || ltb dla.end brk

  sbrk_up :
      (size : ℕ)
      → size < 2 ^ 31
      → sbrk size dla mem ≡ (
          if leb (dla.brk + size) dla.end
          then (dla.brk, record dla { brk = dla.brk + size }, mem)
          else (failed, dla, mem))
  unfolding sbrk refused
  sbrk_up size h =
      let up : leb (2 ^ 31) size ≡ false = ground arith in
      elim (Bool-cases (leb (dla.brk + size) dla.end)) [
        | inl e ↦
            let m : (dla.brk + size) % 2 ^ 32 ≡ dla.brk + size = ground arith in
            let r : refused (dla.brk + size) ≡ false = ground arith in rw (m, r, e, up) refl
        | inr e ↦
            let r : refused ((dla.brk + size) % 2 ^ 32) ≡ true = ground arith in rw (r, e) refl
      ]

  sbrk_down :
      (size : ℕ)
      → 0 < size
      → size ≤ 2 ^ 31
      → sbrk (2 ^ 32 - size) dla mem ≡ (
          if leb (dla.start + size) dla.brk
          then (dla.brk, record dla { brk = dla.brk - size }, memset (dla.brk - size) 0 size mem)
          else (failed, dla, mem))
  unfolding sbrk refused
  sbrk_down size pos h =
      let down : leb (2 ^ 31) (2 ^ 32 - size) ≡ true = ground arith in
      let back : 2 ^ 32 - (2 ^ 32 - size) ≡ size = omega arith in
      elim (Bool-cases (leb (dla.start + size) dla.brk)) [
        | inl e ↦
            let m : (dla.brk + (2 ^ 32 - size)) % 2 ^ 32 ≡ dla.brk - size = ground arith in
            let r : refused (dla.brk - size) ≡ false = ground arith in rw (m, r, e, down, back) refl
        | inr e ↦
            let r : refused ((dla.brk + (2 ^ 32 - size)) % 2 ^ 32) ≡ true = ground arith in
            rw (r, e) refl
      ]

  -- A size that is not negative moves the break up, if it stays in the area. A negative one moves it
  -- down and clears the memory above it. Otherwise the result is -1 and nothing changes.
  pub sbrk_lem :
      (size : ℕ)
      → size < 2 ^ 32
      → sbrk size dla mem ≡ (
          if ltb size (2 ^ 31)
          then (if leb (dla.brk + size) dla.end
              then (dla.brk, record dla { brk = dla.brk + size }, mem)
              else (failed, dla, mem))
          else (let down = 2 ^ 32 - size in
              if leb (dla.start + down) dla.brk
              then (
                dla.brk,
                record dla { brk = dla.brk - down },
                memset (dla.brk - down) 0 down mem,
              )
              else (failed, dla, mem)))
  sbrk_lem size w = elim (Bool-cases (ltb size (2 ^ 31))) [
    | inl up ↦ rw up (sbrk_up size (ground arith))
    | inr down ↦
        let back : 2 ^ 32 - (2 ^ 32 - size) ≡ size = omega arith in
        rw down (rw back at (sbrk_down (2 ^ 32 - size) (omega arith) (ground arith)))
  ]

-- The area and the memory.
pub record State : Type 0 where
  pub dla : DlmallocArea
  pub mem : Memory

-- A call of `sbrk`, or a byte that the user stores in what was given out.
pub data Step (s : State) : State → Type 0 where
  breaks :
      (size : ℕ)
      → size < 2 ^ 32
      → Step s (record { dla = (sbrk size s.dla s.mem).1; mem = (sbrk size s.dla s.mem).2 })
  stores : (a c : ℕ) → a < s.dla.brk → Step s (record s { mem = store8 a c s.mem })

pub data Reach (s : State) : State → Type 0 where
  here : Reach s s
  next : {t u : State} → Reach s t → Step t u → Reach s u

pub record IsSound (s : State) : Type 0 where
  pub area : IsArea s.dla
  pub clear : IsClear s.dla s.mem

module _ (s : State) (inv : IsSound s) where
  abbrev broken : ℕ × DlmallocArea × Memory → State
  broken r = record { dla = r.1; mem = r.2 }

  broken_up :
      (size : ℕ)
      → IsSound (
          broken (
            if leb (s.dla.brk + size) s.dla.end
            then (s.dla.brk, record s.dla { brk = s.dla.brk + size }, s.mem)
            else (failed, s.dla, s.mem)))
  broken_up size = elim (Bool-cases (leb (s.dla.brk + size) s.dla.end)) [
    | inl e ↦ rw e (record {
      area = record {
        low = omega (arith, inv.area);
        high = ground arith;
        word = inv.area.word;
        set_up = inv.area.set_up;
        small = inv.area.small;
      };
      clear = λ i lo hi. inv.clear i (omega arith) hi;
    })
    | inr e ↦ rw e inv
  ]

  broken_down :
      (size : ℕ)
      → IsSound (
          broken (
            if leb (s.dla.start + size) s.dla.brk
            then (
              s.dla.brk,
              record s.dla { brk = s.dla.brk - size },
              memset (s.dla.brk - size) 0 size s.mem,
            )
            else (failed, s.dla, s.mem)))
  broken_down size = elim (Bool-cases (leb (s.dla.start + size) s.dla.brk)) [
    | inl e ↦ rw e (record {
      area = record {
        low = ground arith;
        high = omega (arith, inv.area);
        word = inv.area.word;
        set_up = inv.area.set_up;
        small = inv.area.small;
      };
      clear = λ i lo hi. elim (Bool-cases (ltb i s.dla.brk)) [
        | inl below ↦ memset_inside (s.dla.brk - size) 0 size s.mem i lo (ground arith)
        | inr above ↦
            memset_outside (s.dla.brk - size) 0 size s.mem i (inr (ground arith))
            ∙ inv.clear i (ground arith) hi
      ];
    })
    | inr e ↦ rw e inv
  ]

Step-IsSound : {s t : State} → Step s t → IsSound s → IsSound t
Step-IsSound {s} (breaks size h) inv = elim (Bool-cases (ltb size (2 ^ 31))) [
  | inl up ↦ rw (sbrk_lem s.dla s.mem inv.area size h, up) (broken_up s inv size)
  | inr down ↦ rw (sbrk_lem s.dla s.mem inv.area size h, down) (broken_down s inv (2 ^ 32 - size))
]
Step-IsSound {s} (stores a c h) inv = record {
  area = inv.area;
  clear = λ i lo hi. store8_other a c s.mem i (omega arith) ∙ inv.clear i lo hi;
}

-- Let `malloc_init` set up an area below 2 GiB that does not wrap around. However `sbrk` is then called
-- and whatever is stored below the break, the break stays in the area, and the area from the break on
-- is clear, so that `sbrk` gives out clear memory only.
pub Reach-IsSound :
    (start size : ℕ) (mem : Memory) {s : State}
    → start + size < failed
    → size < 2 ^ 31
    → Reach
        (record { dla = (malloc_init start size mem).0; mem = (malloc_init start size mem).1 })
        s
    → IsSound s
unfolding malloc_init dlmalloc_init
Reach-IsSound start size mem h h' here =
    let e : (start + size) % 2 ^ 32 ≡ start + size = omega arith in
    rw e (record {
      area = record {
        low = omega arith;
        high = omega arith;
        word = omega arith;
        set_up = omega arith;
        small = omega arith;
      };
      clear = λ i lo hi. memset_inside start 0 size mem i lo hi;
    })
Reach-IsSound start size mem h h' (next r st) =
    Step-IsSound st (Reach-IsSound start size mem h h' r)
