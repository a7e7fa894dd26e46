-- ===== src/Heap/Debug/Invariant.antt =====
-- The heap with ENABLE_MDBG between two calls: which memory belongs to whom.
use bios_qemu_tz_arm.Prelude.{
  ℕ, suc, ◌+◌, ◌-◌, ◌%◌, ◌^◌, ◌≤◌, ◌<◌, ◌≡◌, ◌⊎◌, inl, inr, sym, true, List, [], ◌∷◌, ◌++◌, arith,
}
use bios_qemu_tz_arm.Memory.{Memory}
use bios_qemu_tz_arm.Memory.Words.{Apart, load32-congr}
use bios_qemu_tz_arm.Heap.Queue.Seg.{All, All-append}
use bios_qemu_tz_arm.Heap.Queue.Insert.{IsQueue}
use bios_qemu_tz_arm.Heap.Debug.{mdbg_check_buf_end, mark_at, len_of}
use bios_qemu_tz_arm.Heap.Debug.Frame.{Same, Beside, IsQueue-congr}

-- A buffer: its block holds the header, a byte of data and the mark, and not the head of the queue.
pub record IsBuf (m : Memory) (head e : ℕ) : Type 0 where
  pub big : 21 ≤ len_of m e
  pub fits : e + len_of m e ≤ 2 ^ 32
  pub aligned : e % 4 ≡ 0
  pub marked : mdbg_check_buf_end e m ≡ true
  pub away : Apart head 8 e (len_of m e)

abbrev pub Wide : Memory → ℕ → ℕ → Type 0
Wide m e e' = Apart e (len_of m e) e' (len_of m e')

-- No two blocks overlap.
abbrev pub Wides : Memory → List ℕ → Type 0
Wides m [] = Unit {0}
Wides m (e ∷ es) = All (Wide m e) es × Wides m es

-- The headers of the buffers in use stand in the queue, in the order of the calls.
pub record IsHeap (m : Memory) (head : ℕ) (es : List ℕ) : Type 0 where
  pub queue : IsQueue m head es
  pub bufs : All (IsBuf m head) es
  pub wide : Wides m es

pub All-zip :
    {P Q R : ℕ → Type 0} (es : List ℕ)
    → ((e : ℕ) → P e → Q e → R e)
    → All P es
    → All Q es
    → All R es
All-zip [] f p q = tt
All-zip (e ∷ es) f (p, ps) (q, qs) = (f e p q, All-zip es f ps qs)

-- The length and the mark of the buffer stay.
abbrev pub Kept : Memory → Memory → ℕ → Type 0
Kept m m' e = (i : ℕ) → ((e + 8 ≤ i) × (i < e + 12)) ⊎ (i ≡ e + len_of m e - 1) → m i ≡ m' i

pub Kept-len : (m m' : Memory) (e : ℕ) → Kept m m' e → len_of m' e ≡ len_of m e
Kept-len m m' e k = sym (load32-congr m m' (e + 8) (λ i lo hi. k i (inl (lo, omega arith))))

IsBuf-congr : (m m' : Memory) (head e : ℕ) → IsBuf m head e → Kept m m' e → IsBuf m' head e
unfolding mdbg_check_buf_end
IsBuf-congr m m' head e b k =
    let l = Kept-len m m' e k in
    let at : mark_at e (len_of m e) ≡ e + len_of m e - 1 = omega (arith, b.big, b.fits) in
    record {
      big = rw l b.big;
      fits = rw l b.fits;
      aligned = b.aligned;
      marked = rw (l, sym (k (mark_at e (len_of m e)) (inr at))) b.marked;
      away = rw l b.away;
    }

Wides-congr : (m m' : Memory) (es : List ℕ) → Wides m es → All (Kept m m') es → Wides m' es
Wides-congr m m' [] w k = tt
Wides-congr m m' (e ∷ es) (w, ws) (k, ks) = (
  All-zip {P = Wide m e} {Q = Kept m m'} {R = Wide m' e} es
      (λ y a k'. rw (Kept-len m m' e k, Kept-len m m' y k') a) w ks,
  Wides-congr m m' es ws ks,
)

module _ (m m' : Memory) (head : ℕ) (es : List ℕ) where
  pub bufs-congr : All (IsBuf m head) es → All (Kept m m') es → All (IsBuf m' head) es
  bufs-congr b k =
      All-zip {P = IsBuf m head} {Q = Kept m m'} {R = IsBuf m' head} es
        (λ e x y. IsBuf-congr m m' head e x y) b k

  pub wide-congr : Wides m es → All (Kept m m') es → Wides m' es
  wide-congr w k = Wides-congr m m' es w k

  -- The heap stays if the links, the lengths and the marks do.
  pub IsHeap-congr :
      IsHeap m head es
      → All (λ x. Same m m' x 8) (head ∷ es)
      → All (Kept m m') es
      → IsHeap m' head es
  IsHeap-congr h l k = record {
    queue = IsQueue-congr m m' head es l h.queue;
    bufs = bufs-congr h.bufs k;
    wide = wide-congr h.wide k;
  }

-- A byte of a buffer behind its link is in no link.
pub data-Beside :
    (m : Memory) (head : ℕ) (es : List ℕ)
    → All (IsBuf m head) es
    → Wides m es
    → All (λ e. (i : ℕ) → e + 8 ≤ i → i < e + len_of m e → All (Beside i) (head ∷ es)) es
data-Beside m head [] b w = tt
data-Beside m head (x ∷ es) (b, bs) (w, ws) = (
  (λ i lo hi. (
    ground (arith, b.away),
    (
      ground arith,
      All-zip {P = Wide m x} {Q = IsBuf m head} {R = Beside i} es
          (λ y a c. ground (arith, a, c.big)) w bs,
    ),
  )),
  All-zip {P = Wide m x}
      {Q = λ e. (i : ℕ) → e + 8 ≤ i → i < e + len_of m e → All (Beside i) (head ∷ es)}
      {R = λ e. (i : ℕ) → e + 8 ≤ i → i < e + len_of m e → All (Beside i) (head ∷ x ∷ es)} es
      (λ y a f i lo hi. let (hh, hs) = f i lo hi in (hh, (ground (arith, a, b.big), hs))) w
      (data-Beside m head es bs ws),
)

-- One element among others.
pub All-insert :
    (P : ℕ → Type 0) (e : ℕ) (xs ys : List ℕ) → P e → All P (xs ++ ys) → All P (xs ++ e ∷ ys)
All-insert P e [] ys h hs = (h, hs)
All-insert P e (x ∷ xs) ys h (hx, hs) = (hx, All-insert P e xs ys h hs)

pub All-remove :
    (P : ℕ → Type 0) (e : ℕ) (xs ys : List ℕ) → All P (xs ++ e ∷ ys) → P e × All P (xs ++ ys)
All-remove P e [] ys h = h
All-remove P e (x ∷ xs) ys (hx, hs) = let (h, hs') = All-remove P e xs ys hs in (h, (hx, hs'))

pub Wides-others :
    (m : Memory) (e : ℕ) (xs ys : List ℕ) → Wides m (xs ++ e ∷ ys) → All (Wide m e) (xs ++ ys)
Wides-others m e [] ys (w, ws) = w
Wides-others m e (x ∷ xs) ys (w, ws) =
    let (here, _) = All-remove (Wide m x) e xs ys w in
    (ground (arith, here), Wides-others m e xs ys ws)

pub Wides-remove :
    (m : Memory) (e : ℕ) (xs ys : List ℕ) → Wides m (xs ++ e ∷ ys) → Wides m (xs ++ ys)
Wides-remove m e [] ys (w, ws) = ws
Wides-remove m e (x ∷ xs) ys (w, ws) =
    let (_, rest) = All-remove (Wide m x) e xs ys w in (rest, Wides-remove m e xs ys ws)

pub Wides-snoc :
    (m : Memory) (e : ℕ) (es : List ℕ)
    → Wides m es
    → All (λ x. Wide m x e) es
    → Wides m (es ++ e ∷ [])
Wides-snoc m e [] w h = (tt, tt)
Wides-snoc m e (x ∷ es) (w, ws) (h, hs) =
    (All-append (Wide m x) es (e ∷ []) w (h, tt), Wides-snoc m e es ws hs)

-- A write to the data of a buffer leaves the heap sound.
pub write-IsHeap :
    (m m' : Memory) (head e : ℕ) (xs ys : List ℕ)
    → IsHeap m head (xs ++ e ∷ ys)
    → ((i : ℕ) → (i < e + 20) ⊎ (e + len_of m e ≤ suc i) → m i ≡ m' i)
    → IsHeap m' head (xs ++ e ∷ ys)
write-IsHeap m m' head e xs ys h same =
    let (b, bs) = All-remove (IsBuf m head) e xs ys h.bufs in
    let w = Wides-others m e xs ys h.wide in
    let links : All (λ x. Same m m' x 8) (xs ++ ys) =
      All-zip {P = Wide m e} {Q = IsBuf m head} {R = λ x. Same m m' x 8} (xs ++ ys)
        (λ x a c i lo hi. same i (ground (arith, a, c.big))) w bs in
    let kept : All (Kept m m') (xs ++ ys) =
      All-zip {P = Wide m e} {Q = IsBuf m head} {R = Kept m m'} (xs ++ ys)
        (λ x a c i p. same i (ground (arith, a, c.big))) w bs in
    IsHeap-congr m m' head (xs ++ e ∷ ys) h
      (
        (λ i lo hi. same i (ground (arith, b.away))),
        All-insert (λ x. Same m m' x 8) e xs ys (λ i lo hi. same i (inl (omega arith))) links,
      )
      (All-insert (Kept m m') e xs ys (λ i p. same i (ground arith)) kept)
