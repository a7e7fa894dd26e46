-- ===== src/Heap/Queue/Seg.antt =====
-- The chain of pointers of a tail queue, piece by piece.
use bios_qemu_tz_arm.Prelude.{
  ℕ, ◌+◌, ◌≡◌, ◌≢◌, ◌⊎◌, inl, inr, refl, sym, ◌∙◌, List, [], ◌∷◌, ◌++◌, arith,
}
use mathlib.Core.Path.{subst}
use bios_qemu_tz_arm.Memory.{Memory, load32, store32}
use bios_qemu_tz_arm.Memory.Words.{Apart, load32-store32-Apart}

-- The pointer at `link` leads through these elements to the pointer at `end`, and each element knows
-- the place of the pointer to it.
abbrev pub Seg : Memory → ℕ → ℕ → List ℕ → Type 0
Seg m link end [] = link ≡ end
Seg m link end (x ∷ xs) = (load32 m link ≡ x) × (load32 m (x + 4) ≡ link) × (x ≢ 0) × Seg m x end xs

abbrev pub All : (ℕ → Type 0) → List ℕ → Type 0
All P [] = Unit {0}
All P (x ∷ xs) = P x × All P xs

pub All-append : (P : ℕ → Type 0) (xs ys : List ℕ) → All P xs → All P ys → All P (xs ++ ys)
All-append P [] ys h h' = h'
All-append P (x ∷ xs) ys (h, hs) h' = (h, All-append P xs ys hs h')

pub All-split : (P : ℕ → Type 0) (xs ys : List ℕ) → All P (xs ++ ys) → All P xs × All P ys
All-split P [] ys h = (tt, h)
All-split P (x ∷ xs) ys (h, hs) = let (a, b) = All-split P xs ys hs in ((h, a), b)

pub All-map : {P Q : ℕ → Type 0} (xs : List ℕ) → ((x : ℕ) → P x → Q x) → All P xs → All Q xs
All-map [] f h = tt
All-map (x ∷ xs) f (h, hs) = (f x h, All-map xs f hs)

-- The links of elements, of eight bytes each, do not overlap.
abbrev pub Links : ℕ → ℕ → Type 0
Links x y = Apart x 8 y 8

abbrev pub Sep : List ℕ → Type 0
Sep [] = Unit {0}
Sep (x ∷ xs) = All (Links x) xs × Sep xs

-- What `Seg` reads.
abbrev pub Reads : (ℕ → Type 0) → ℕ → List ℕ → Type 0
Reads P link [] = Unit {0}
Reads P link (x ∷ xs) = P link × P (x + 4) × Reads P x xs

pub Seg-store32 :
    (a v : ℕ) (m : Memory) (link end : ℕ) (xs : List ℕ)
    → Reads (λ b. Apart a 4 b 4) link xs
    → Seg m link end xs
    → Seg (store32 a v m) link end xs
Seg-store32 a v m link end [] r s = s
Seg-store32 a v m link end (x ∷ xs) (r, r', rs) (s, s', nz, ss) = (
  load32-store32-Apart a v m link r ∙ s,
  load32-store32-Apart a v m (x + 4) r' ∙ s',
  nz,
  Seg-store32 a v m x end xs rs ss,
)

-- A word outside the elements.
pub Reads-outside :
    (a link : ℕ) (xs : List ℕ)
    → Apart a 4 link 4
    → All (λ x. Apart a 4 x 8) xs
    → Reads (λ b. Apart a 4 b 4) link xs
Reads-outside a link [] h hs = tt
Reads-outside a link (x ∷ xs) h (hx, hs) = (h, ground arith, Reads-outside a x xs (ground arith) hs)

-- What holds of the first place and of every element holds of the end.
pub Seg-end :
    (P : ℕ → Type 0) (m : Memory) (link end : ℕ) (xs : List ℕ)
    → Seg m link end xs
    → P link
    → All P xs
    → P end
Seg-end P m link end [] s h hs = subst P (s) h
Seg-end P m link end (x ∷ xs) (_, _, _, s) h (hx, hs) = Seg-end P m x end xs s hx hs

-- `Seg` does not read the pointer at its end.
pub Reads-end :
    (m : Memory) (link end : ℕ) (xs : List ℕ)
    → Seg m link end xs
    → Sep (link ∷ xs)
    → Reads (λ b. Apart end 4 b 4) link xs
Reads-end m link end [] s sep = tt
Reads-end m link end (x ∷ xs) (s, s', nz, ss) ((h, hs), sep) =
    let away : Links link end = Seg-end (Links link) m x end xs ss h hs in
    let near : (end ≡ x) ⊎ Links x end =
      Seg-end (λ e. (e ≡ x) ⊎ Links x e) m x end xs ss (inl refl)
        (All-map {P = Links x} {Q = λ e. (e ≡ x) ⊎ Links x e} xs (λ y l. inr l) sep.0) in
    (ground arith, ground arith, Reads-end m x end xs ss sep)

pub Seg-append :
    (m : Memory) (link mid end : ℕ) (xs ys : List ℕ)
    → Seg m link mid xs
    → Seg m mid end ys
    → Seg m link end (xs ++ ys)
Seg-append m link mid end [] ys s t = subst (λ l. Seg m l end ys) (sym s) t
Seg-append m link mid end (x ∷ xs) ys (s, s', nz, ss) t =
    (s, s', nz, Seg-append m x mid end xs ys ss t)

pub Seg-split :
    (m : Memory) (link end : ℕ) (xs ys : List ℕ)
    → Seg m link end (xs ++ ys)
    → (mid : ℕ) × Seg m link mid xs × Seg m mid end ys
Seg-split m link end [] ys s = (link, refl, s)
Seg-split m link end (x ∷ xs) ys (s, s', nz, ss) =
    let (mid, a, b) = Seg-split m x end xs ys ss in (mid, (s, s', nz, a), b)
