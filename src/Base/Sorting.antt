-- ===== src/Base/Sorting.antt =====
-- `ORDER BY`, `sort.Slice`: insertion of each row before the first that it may stand before, so
-- that rows which the order does not tell apart keep their places.
use Prim.Native.Nat.{ℕ, zero, suc}
use mathlib.Core.Path.{◌≡◌, refl, ap, ◌∙◌}
use mathlib.Core.Logic.{inl, inr}
use mathlib.Core.Bool.{Bool, true, false}
use mathlib.Core.List.{List, [], ◌∷◌}
use native.Mathlib.Omega.{arith}
use cuckoo.Base.Tests.{if◌then◌else◌, Bool-cases}
use cuckoo.Base.Lists.{length, take, drop}
use cuckoo.Base.Predicates.{All, All-mono, All-drop}

module _ {ℓ} {A : Type ℓ} (le : A → A → Bool) where
  unfoldable pub insert_by : A → List A → List A
  insert_by a [] = a ∷ []
  insert_by a (x ∷ xs) = let later = insert_by a xs in if le a x then a ∷ x ∷ xs else x ∷ later

  unfoldable pub sort_by : List A → List A
  unfolding insert_by
  sort_by [] = []
  sort_by (x ∷ xs) = insert_by x (sort_by xs)

  pub length-insert_by : (a : A) (xs : List A) → length (insert_by a xs) ≡ suc (length xs)
  unfolding insert_by
  length-insert_by a [] = refl
  length-insert_by a (x ∷ xs) = ground (arith, length-insert_by a xs)

  pub length-sort_by : (xs : List A) → length (sort_by xs) ≡ length xs
  unfolding sort_by
  length-sort_by [] = refl
  length-sort_by (x ∷ xs) = length-insert_by x (sort_by xs) ∙ ap suc (length-sort_by xs)

  pub sort_by-single : (x : A) → sort_by (x ∷ []) ≡ x ∷ []
  unfolding sort_by insert_by
  sort_by-single x = refl

  -- Every row is in order with all that stand behind it.
  abbrev pub IsSorted : List A → Type 0
  IsSorted [] = Unit {0}
  IsSorted (x ∷ xs) = All (λ y. le x y ≡ true) xs × IsSorted xs

module _ {ℓ κ} {A : Type ℓ} (le : A → A → Bool) (P : A → Type κ) where
  pub All-insert_by : (a : A) (xs : List A) → P a → All P xs → All P (insert_by le a xs)
  unfolding insert_by
  All-insert_by a [] pa h = (pa, tt)
  All-insert_by a (x ∷ xs) pa h = elim (Bool-cases (le a x)) [
    | inl e ↦ rw e (pa, h)
    | inr e ↦ rw e (h.0, All-insert_by a xs pa h.1)
  ]

  pub All-sort_by : (xs : List A) → All P xs → All P (sort_by le xs)
  unfolding sort_by
  All-sort_by [] h = tt
  All-sort_by (x ∷ xs) h = All-insert_by x (sort_by le xs) h.0 (All-sort_by xs h.1)

  pub All-of_insert_by : (a : A) (xs : List A) → All P (insert_by le a xs) → P a × All P xs
  unfolding insert_by
  All-of_insert_by a [] h = (h.0, tt)
  All-of_insert_by a (x ∷ xs) h = elim (Bool-cases (le a x)) [
    | inl e ↦ rw e at h
    | inr e ↦
        let split = rw e at h in
        let (pa, rest) = All-of_insert_by a xs split.1 in (pa, (split.0, rest))
  ]

  pub All-of_sort_by : (xs : List A) → All P (sort_by le xs) → All P xs
  unfolding sort_by
  All-of_sort_by [] h = tt
  All-of_sort_by (x ∷ xs) h =
      let (px, rest) = All-of_insert_by x (sort_by le xs) h in (px, All-of_sort_by xs rest)

-- Where the order is total and transitive, what comes out is sorted.
module _ {ℓ} {A : Type ℓ} (le : A → A → Bool) (total : (x y : A) → le x y ≡ false → le y x ≡ true)
    (trans : (x y z : A) → le x y ≡ true → le y z ≡ true → le x z ≡ true) where
  insert_by-IsSorted : (a : A) (xs : List A) → IsSorted le xs → IsSorted le (insert_by le a xs)
  unfolding insert_by
  insert_by-IsSorted a [] h = (tt, tt)
  insert_by-IsSorted a (x ∷ xs) h = elim (Bool-cases (le a x)) [
    | inl e ↦
        rw e (
          (e, All-mono (λ y. le x y ≡ true) (λ y. le a y ≡ true) (λ y f. trans a x y e f) xs h.0),
          h,
        )
    | inr e ↦
        rw e (
          All-insert_by le (λ y. le x y ≡ true) a xs (total a x e) h.0,
          insert_by-IsSorted a xs h.1,
        )
  ]

  pub sort_by-IsSorted : (xs : List A) → IsSorted le (sort_by le xs)
  unfolding sort_by
  sort_by-IsSorted [] = tt
  sort_by-IsSorted (x ∷ xs) = insert_by-IsSorted x (sort_by le xs) (sort_by-IsSorted xs)

-- `LIMIT n`: what was taken stands before what was not.
pub take-before-drop {ℓ} :
    {A : Type ℓ} (le : A → A → Bool) (n : ℕ) (xs : List A)
    → IsSorted le xs
    → All (λ x. All (λ y. le x y ≡ true) (drop n xs)) (take n xs)
take-before-drop le zero xs h = tt
take-before-drop le (suc n) [] h = tt
take-before-drop le (suc n) (x ∷ xs) h =
    (All-drop (λ y. le x y ≡ true) n xs h.0, take-before-drop le n xs h.1)
