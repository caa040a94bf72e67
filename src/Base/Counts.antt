-- ===== src/Base/Counts.antt =====
-- How many rows pass a test, through an `UPDATE`.
use Prim.Native.Nat.{◌+◌, ◌≤◌}
use mathlib.Core.Path.{◌≡◌, refl, ap, subst, sym, ◌∙◌}
use mathlib.Core.Logic.{inl, inr}
use mathlib.Core.Bool.{Bool, true, false}
use mathlib.Core.Option.{Option, none, some}
use mathlib.Core.List.{List, [], ◌∷◌}
use native.Mathlib.Omega.{arith}
use cuckoo.Base.Tests.{Bool-cases, if◌then◌else◌}
use cuckoo.Base.Lists.{count, update, find?, any}
use cuckoo.Base.Predicates.{All}

module _ {ℓ} {A : Type ℓ} (q p : A → Bool) (f : A → A) where
  pub count-update :
      ((x : A) → q (f x) ≡ q x) → (xs : List A) → count q (update p f xs) ≡ count q xs
  count-update same [] = refl
  count-update same (x ∷ xs) = ground (arith, same x, count-update same xs)

  -- No row passes the test only after the write.
  pub count-update-le :
      (P : A → Type 0)
      → ((x : A) → p x ≡ true → P x → q (f x) ≡ true → q x ≡ true)
      → (xs : List A) → All P xs
      → count q (update p f xs) ≤ count q xs
  count-update-le P back [] h = omega arith
  count-update-le P back (x ∷ xs) h = ground (arith, back x, h.0, count-update-le P back xs h.1)

  -- At most the rows that are written pass the test anew.
  pub count-update-plus : (xs : List A) → count q (update p f xs) ≤ count q xs + count p xs
  count-update-plus [] = omega arith
  count-update-plus (x ∷ xs) = ground (arith, count-update-plus xs)

module _ {ℓ} {A : Type ℓ} (q : A → Bool) where
  -- What a look-up misses is not there.
  pub find?-none : (xs : List A) → find? q xs ≡ none → count q xs ≡ 0
  find?-none [] h = refl
  find?-none (x ∷ xs) h = ground (arith, find?-none xs)

  -- A narrower test is passed no more often.
  pub count_mono :
      (r : A → Bool) → ((x : A) → r x ≡ true → q x ≡ true) → (xs : List A) → count r xs ≤ count q xs
  count_mono r sub [] = omega arith
  count_mono r sub (x ∷ xs) = ground (arith, sub x, count_mono r sub xs)

-- Of rows that do not pass the test, anything holds that their passing it would imply.
All-of_count {ℓ κ} :
    {A : Type ℓ} (R : A → Type κ) (q : A → Bool) (xs : List A)
    → count q xs ≡ 0
    → All (λ x. q x ≡ true → R x) xs
All-of_count R q [] h = tt
All-of_count R q (x ∷ xs) h = elim (Bool-cases (q x)) [
  | inl e ↦ absurd (ground arith)
  | inr e ↦ ((λ t. cc), All-of_count R q xs (ground arith))
]

-- What holds of the row that a look-up finds holds of every row that it could have found, where
-- there is one at most.
pub find?-only {ℓ κ} :
    {A : Type ℓ} (R : A → Type κ) (q : A → Bool) (xs : List A) {a : A}
    → find? q xs ≡ some a
    → count q xs ≤ 1
    → R a
    → All (λ x. q x ≡ true → R x) xs
find?-only R q [] h one r = tt
find?-only R q (x ∷ xs) h one r = elim (Bool-cases (q x)) [
  | inl e ↦ ((λ _. subst R (ground arith) r), All-of_count R q xs (ground arith))
  | inr e ↦ ((λ t. cc), find?-only R q xs (ground arith) (ground arith) r)
]

-- A write that no row passes the test of changes nothing.
pub update-nowhere {ℓ} :
    {A : Type ℓ} (p : A → Bool) (f : A → A) (xs : List A) → count p xs ≡ 0 → update p f xs ≡ xs
update-nowhere p f [] h = refl
update-nowhere p f (x ∷ xs) h = elim (Bool-cases (p x)) [
  | inl e ↦ absurd (ground arith)
  | inr e ↦ rw e (ap (◌∷◌ x) (update-nowhere p f xs (ground arith)))
]

some-injective {ℓ} : {A : Type ℓ} {x y : A} → some x ≡ some y → x ≡ y
some-injective h = cc

-- A look-up through a write that keeps its test.
pub find?-update {ℓ} :
    {A : Type ℓ} (q p : A → Bool) (f : A → A)
    → ((x : A) → q (f x) ≡ q x)
    → (xs : List A) {a : A} → find? q xs ≡ some a
    → find? q (update p f xs) ≡ some (if p a then f a else a)
find?-update q p f same [] h = cc
find?-update {A = A} q p f same (x ∷ xs) {a} h = elim (Bool-cases (q x)) [
  | inl e ↦
      ap pick (written (p x) ∙ e)
      ∙ ap (λ y. some (if p y then f y else y)) (some-injective (ap first (sym e) ∙ h))
  | inr e ↦ ap pick (written (p x) ∙ e) ∙ find?-update q p f same xs (ap first (sym e) ∙ h)
]
  where
    pick : Bool → Option A
    pick b = if b then some (if p x then f x else x) else find? q (update p f xs)

    first : Bool → Option A
    first b = if b then some x else find? q xs

    written : (b : Bool) → q (if b then f x else x) ≡ q x
    written true = same x
    written false = refl

-- A look-up that finds a row which is then written finds what was written.
pub find?-written {ℓ} :
    {A : Type ℓ} (q p : A → Bool) (f : A → A)
    → ((x : A) → q (f x) ≡ q x)
    → (xs : List A) {a : A} → p a ≡ true
    → find? q xs ≡ some a
    → find? q (update p f xs) ≡ some (f a)
find?-written q p f same xs {a} hit h =
    find?-update q p f same xs h ∙ ap (λ b. some (if b then f a else a)) hit

pub any-of_find? {ℓ} :
    {A : Type ℓ} (q r : A → Bool) (xs : List A) {a : A}
    → find? q xs ≡ some a
    → r a ≡ true
    → any r xs ≡ true
any-of_find? q r [] h t = cc
any-of_find? q r (x ∷ xs) h t = elim (Bool-cases (q x)) [
  | inl e ↦ ground (arith, t)
  | inr e ↦ ground (arith, any-of_find? q r xs (ground arith) t)
]
