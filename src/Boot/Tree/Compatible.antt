-- ===== src/Boot/Tree/Compatible.antt =====
-- What the list of strings in a "compatible" property says: `node_is_compatible` of bios/main.c.
use bios_qemu_tz_arm.Prelude.{
  ℕ, zero, suc, ◌+◌, ◌<◌, ◌≡◌, ◌≢◌, refl, Bool, true, false, ◌||◌, Bool-cases, inl, inr, List, [],
  ◌∷◌, ◌++◌, ◌==◌, length, drop, length-append, if◌then◌else◌, arith,
}
use bios_qemu_tz_arm.Run.{ok}
use bios_qemu_tz_arm.Boot.Tree.{str_equal, str_length, compatible_loop}

-- A string of bytes that are not NUL.
unfoldable pub IsText : List ℕ → Type 0
IsText [] = Unit {0}
IsText (c ∷ s) = (c ≢ 0) × IsText s

unfoldable pub AllTexts : List (List ℕ) → Type 0
AllTexts [] = Unit {0}
AllTexts (s ∷ ss) = IsText s × AllTexts ss

-- The bytes of a property that lists these strings.
unfoldable pub stringlist : List (List ℕ) → List ℕ
stringlist [] = []
stringlist (s ∷ ss) = s ++ 0 ∷ stringlist ss

unfoldable pub same_text : List ℕ → List ℕ → Bool
same_text [] [] = true
same_text [] (d ∷ t) = false
same_text (c ∷ s) [] = false
same_text (c ∷ s) (d ∷ t) = if c == d then same_text s t else false

unfoldable pub lists : List (List ℕ) → List ℕ → Bool
lists [] t = false
lists (s ∷ ss) t = same_text s t || lists ss t

str_equal-same_text :
    (s t rest : List ℕ)
    → IsText s
    → IsText t
    → str_equal (s ++ 0 ∷ rest) (t ++ 0 ∷ []) ≡ ok (same_text s t)
unfolding str_equal same_text IsText
str_equal-same_text [] [] rest hs ht = refl
str_equal-same_text [] (d ∷ t) rest hs ht = ground (arith, ht.0)
str_equal-same_text (c ∷ s) [] rest hs ht = ground (arith, hs.0)
str_equal-same_text (c ∷ s) (d ∷ t) rest hs ht =
    ground (arith, hs.0, ht.0, str_equal-same_text s t rest hs.1 ht.1)

str_length-length : (s rest : List ℕ) → IsText s → str_length (s ++ 0 ∷ rest) ≡ ok (length s)
unfolding str_length IsText
str_length-length [] rest hs = refl
str_length-length (c ∷ s) rest hs = ground (arith, hs.0, str_length-length s rest hs.1)

drop-length : (s rest : List ℕ) → drop (length s + 1) (s ++ 0 ∷ rest) ≡ rest
drop-length [] rest = refl
drop-length (c ∷ s) rest =
    let e : suc (length s) + 1 ≡ suc (length s + 1) = omega arith in rw e (drop-length s rest)

-- Take a "compatible" property that lists strings without a NUL in them, each with its NUL behind it.
-- With one round more than the property has bytes, the loop returns whether one of the strings is the
-- one that is looked for; it never reads behind the property.
pub compatible_loop-lists :
    (fuel : ℕ) (ss : List (List ℕ)) (t : List ℕ)
    → AllTexts ss
    → IsText t
    → length (stringlist ss) < fuel
    → compatible_loop fuel (stringlist ss) (t ++ 0 ∷ []) ≡ ok (lists ss t)
unfolding compatible_loop stringlist lists AllTexts
compatible_loop-lists zero ss t hs ht h = absurd (omega arith)
compatible_loop-lists (suc fuel) [] t hs ht h = refl
compatible_loop-lists (suc fuel) ([] ∷ ss) t hs ht h =
    let rest = compatible_loop-lists fuel ss t hs.1 ht (omega (arith, h)) in
    elim (Bool-cases (same_text [] t)) [
      | inl e ↦ rw (str_equal-same_text [] t (stringlist ss) hs.0 ht, e) refl
      | inr e ↦
          rw
            (
              str_equal-same_text [] t (stringlist ss) hs.0 ht,
              e,
              str_length-length [] (stringlist ss) hs.0,
              drop-length [] (stringlist ss),
            )
            rest
    ]
compatible_loop-lists (suc fuel) ((c ∷ s) ∷ ss) t hs ht h =
    let rest =
      compatible_loop-lists fuel ss t hs.1 ht
        (omega (arith, h, length-append s (0 ∷ stringlist ss))) in
    elim (Bool-cases (same_text (c ∷ s) t)) [
      | inl e ↦ rw (str_equal-same_text (c ∷ s) t (stringlist ss) hs.0 ht, e) refl
      | inr e ↦
          rw
            (
              str_equal-same_text (c ∷ s) t (stringlist ss) hs.0 ht,
              e,
              str_length-length (c ∷ s) (stringlist ss) hs.0,
              drop-length (c ∷ s) (stringlist ss),
            )
            rest
    ]
