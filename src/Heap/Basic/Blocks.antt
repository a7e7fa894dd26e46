-- ===== src/Heap/Basic/Blocks.antt =====
-- The blocks that `malloc` hands out, over any sequence of calls.
use bios_qemu_tz_arm.Prelude.{
  ℕ, ◌+◌, ◌*◌, ◌/◌, ◌%◌, ◌^◌, ◌≤◌, ◌<◌, ◌≡◌, refl, List, [], ◌∷◌, ◌==◌, ltb, if◌then◌else◌, arith,
  Bool-cases, inl, inr, false,
}
use bios_qemu_tz_arm.Memory.Words.{Apart}
use bios_qemu_tz_arm.Heap.Basic.{heapsize, rounded, basic_malloc, malloc, free, basic_free}

pub record Block : Type 0 where
  pub place : ℕ
  pub size : ℕ

-- The offset, and the blocks that were handed out, the last one first.
pub record State : Type 0 where
  pub offset : ℕ
  pub blocks : List Block

module _ (heap_address : ℕ) where
  -- The state behind `malloc(size)`: a block, if the result is not NULL.
  abbrev pub after_malloc : ℕ → State → State
  after_malloc size s =
      let (p, offset) = malloc heap_address size s.offset in
      record {
        offset = offset;
        blocks = if p == 0 then s.blocks else record { place = p; size = size } ∷ s.blocks;
      }

  -- Calls of `malloc` whose sum with the offset does not wrap, and of `free`.
  pub data Step (s : State) : State → Type 0 where
    allocates : (size : ℕ) → s.offset + size + 7 < 2 ^ 32 → Step s (after_malloc size s)
    frees : (ptr : ℕ) → Step s (record s { offset = free heap_address ptr s.offset })

  pub data Reach (s : State) : State → Type 0 where
    here : Reach s s
    next : {t u : State} → Reach s t → Step t u → Reach s u

  -- The block lies in the heap below the offset.
  pub record Within (offset : ℕ) (b : Block) : Type 0 where
    pub above : heap_address ≤ b.place
    pub below : b.place + b.size ≤ heap_address + offset
    pub in_heap : b.place + b.size ≤ heap_address + heapsize

  abbrev pub AllWithin : ℕ → List Block → Type 0
  AllWithin offset [] = Unit {0}
  AllWithin offset (b ∷ bs) = Within offset b × AllWithin offset bs

  abbrev pub ApartFrom : Block → List Block → Type 0
  ApartFrom b [] = Unit {0}
  ApartFrom b (c ∷ bs) = Apart b.place b.size c.place c.size × ApartFrom b bs

  abbrev pub Disjoint : List Block → Type 0
  Disjoint [] = Unit {0}
  Disjoint (b ∷ bs) = ApartFrom b bs × Disjoint bs

  -- The invariant of the heap.
  pub record IsHeap (s : State) : Type 0 where
    pub aligned : s.offset % 8 ≡ 0
    pub word : s.offset < 2 ^ 32
    pub within : AllWithin s.offset s.blocks
    pub disjoint : Disjoint s.blocks

  AllWithin-mono : (n m : ℕ) (bs : List Block) → n ≤ m → AllWithin n bs → AllWithin m bs
  AllWithin-mono n m [] h w = tt
  AllWithin-mono n m (b ∷ bs) h (w, ws) = (
    record { above = w.above; below = omega (arith, w.below); in_heap = w.in_heap },
    AllWithin-mono n m bs h ws,
  )

  -- A block from the offset on is apart from those below.
  ApartFrom-new :
      (n size : ℕ) (bs : List Block)
      → AllWithin n bs
      → ApartFrom (record { place = heap_address + n; size = size }) bs
  ApartFrom-new n size [] w = tt
  ApartFrom-new n size (b ∷ bs) (w, ws) = (inr (omega (arith, w.below)), ApartFrom-new n size bs ws)

  -- `malloc` without wrap-around.
  malloc-in_room :
      (size offset : ℕ)
      → heap_address + heapsize < 2 ^ 32
      → offset + size + 7 < 2 ^ 32
      → malloc heap_address size offset ≡ (
        if ltb heapsize (offset + 8 * ((size + 7) / 8)) then 0 else heap_address + offset,
        offset + 8 * ((size + 7) / 8),
      )
  unfolding malloc basic_malloc
  malloc-in_room size offset h h' =
      let e : (offset + rounded size) % 2 ^ 32 ≡ offset + 8 * ((size + 7) / 8) = omega arith in
      rw e (ground arith)

  Step-IsHeap :
      {s t : State}
      → 0 < heap_address
      → heap_address + heapsize < 2 ^ 32
      → Step s t
      → IsHeap s
      → IsHeap t
  Step-IsHeap {s} pos fits (allocates size h) inv =
      let n = s.offset + 8 * ((size + 7) / 8) in
      let more = AllWithin-mono s.offset n s.blocks (omega arith) inv.within in
      elim (Bool-cases (ltb heapsize n)) [
        | inl full ↦
            rw (malloc-in_room size s.offset fits h, full)
              (record {
                aligned = omega (arith, inv.aligned);
                word = omega arith;
                within = more;
                disjoint = inv.disjoint;
              })
        | inr room ↦
            let there : (heap_address + s.offset == 0) ≡ false = ground arith in
            rw (malloc-in_room size s.offset fits h, room, there)
              (record {
                aligned = omega (arith, inv.aligned);
                word = omega arith;
                within = (
                  record { above = omega arith; below = omega arith; in_heap = ground arith },
                  more,
                );
                disjoint = (ApartFrom-new s.offset size s.blocks inv.within, inv.disjoint);
              })
      ]
  Step-IsHeap pos fits (frees ptr) inv = unfold free basic_free in inv

  abbrev pub start : State
  start = record { offset = 0; blocks = [] }

  -- Let the heap lie above address 0 and end below 2 ^ 32. However `malloc` and `free` are called, as
  -- long as no sum with the offset wraps around, the blocks
  -- that were handed out lie in the heap, below the offset, and no two of them share a byte.
  pub malloc_and_free-IsHeap :
      {s : State} → 0 < heap_address → heap_address + heapsize < 2 ^ 32 → Reach start s → IsHeap s
  malloc_and_free-IsHeap pos fits here = record {
    aligned = refl;
    word = omega arith;
    within = tt;
    disjoint = tt;
  }
  malloc_and_free-IsHeap pos fits (next r st) =
      Step-IsHeap pos fits st (malloc_and_free-IsHeap pos fits r)
