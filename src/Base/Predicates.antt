-- ===== src/Base/Predicates.antt =====
-- Predicates on lists by recursion, which compute to tuples.
use Prim.Native.Nat.{zero, suc, ℕ}
use mathlib.Core.Path.{◌≡◌}
use mathlib.Core.Logic.{◌≢◌, inl, inr}
use mathlib.Core.Bool.{Bool, true, false}
use mathlib.Core.List.{List, [], ◌∷◌, ◌++◌, map}
use cuckoo.Base.Lists.{filter, update, take, drop}
use cuckoo.Base.Tests.{Bool-cases}

abbrev pub All {ℓ κ} : {A : Type ℓ} → (A → Type κ) → List A → Type κ
All P [] = Unit
All P (x ∷ xs) = P x × All P xs

-- Two lists of one length, related place by place.
abbrev pub All₂ {ℓ κ} : {A : Type ℓ} {B : Type κ} → (A → B → Type 0) → List A → List B → Type 0
All₂ R [] [] = Unit {0}
All₂ R [] (y ∷ ys) = ⊥
All₂ R (x ∷ xs) [] = ⊥
All₂ R (x ∷ xs) (y ∷ ys) = R x y × All₂ R xs ys

-- No element is `a`, and no two are the same.
abbrev pub Avoids {ℓ} : {A : Type ℓ} → A → List A → Type ℓ
Avoids a = All (λ x. x ≢ a)

abbrev pub Distinct {ℓ} : {A : Type ℓ} → List A → Type ℓ
Distinct [] = Unit
Distinct (x ∷ xs) = Avoids x xs × Distinct xs

module _ {ℓ κ} {A : Type ℓ} (P : A → Type κ) where
  pub All-append : (xs ys : List A) → All P xs → All P ys → All P (xs ++ ys)
  All-append [] ys hx hy = hy
  All-append (x ∷ xs) ys hx hy = (hx.0, All-append xs ys hx.1 hy)

  pub All-append_left : (xs ys : List A) → All P (xs ++ ys) → All P xs
  All-append_left [] ys h = tt
  All-append_left (x ∷ xs) ys h = (h.0, All-append_left xs ys h.1)

  pub All-append_right : (xs ys : List A) → All P (xs ++ ys) → All P ys
  All-append_right [] ys h = h
  All-append_right (x ∷ xs) ys h = All-append_right xs ys h.1

  pub All-filter : (p : A → Bool) (xs : List A) → All P xs → All P (filter p xs)
  All-filter p [] h = tt
  All-filter p (x ∷ xs) h = elim (Bool-cases (p x)) [
    | inl e ↦ rw e (h.0, All-filter p xs h.1)
    | inr e ↦ rw e (All-filter p xs h.1)
  ]

  pub All-take : (n : ℕ) (xs : List A) → All P xs → All P (take n xs)
  All-take zero xs h = tt
  All-take (suc n) [] h = tt
  All-take (suc n) (x ∷ xs) h = (h.0, All-take n xs h.1)

  pub All-drop : (n : ℕ) (xs : List A) → All P xs → All P (drop n xs)
  All-drop zero xs h = h
  All-drop (suc n) [] h = tt
  All-drop (suc n) (x ∷ xs) h = All-drop n xs h.1

  pub All-of_forall : ((x : A) → P x) → (xs : List A) → All P xs
  All-of_forall h [] = tt
  All-of_forall h (x ∷ xs) = (h x, All-of_forall h xs)

  -- An `UPDATE` keeps what every changed row keeps.
  pub All-update :
      (p : A → Bool) (f : A → A) (xs : List A)
      → ((x : A) → p x ≡ true → P x → P (f x))
      → All P xs
      → All P (update p f xs)
  All-update p f [] keep h = tt
  All-update p f (x ∷ xs) keep h = elim (Bool-cases (p x)) [
    | inl e ↦ rw e (keep x e h.0, All-update p f xs keep h.1)
    | inr e ↦ rw e (h.0, All-update p f xs keep h.1)
  ]

pub All-map {ℓ κ ι} :
    {A : Type ℓ} {B : Type ι} (P : A → Type κ) (Q : B → Type κ) (f : A → B)
    → ((x : A) → P x → Q (f x))
    → (xs : List A) → All P xs
    → All Q (map f xs)
All-map P Q f h [] a = tt
All-map P Q f h (x ∷ xs) a = (h x a.0, All-map P Q f h xs a.1)

pub All-both {ℓ κ ι} :
    {A : Type ℓ} (P : A → Type κ) (Q : A → Type ι) (xs : List A)
    → All P xs
    → All Q xs
    → All (λ x. P x × Q x) xs
All-both P Q [] p q = tt
All-both P Q (x ∷ xs) p q = ((p.0, q.0), All-both P Q xs p.1 q.1)

pub All-mono {ℓ κ ι} :
    {A : Type ℓ} (P : A → Type κ) (Q : A → Type ι)
    → ((x : A) → P x → Q x)
    → (xs : List A) → All P xs
    → All Q xs
All-mono P Q h [] a = tt
All-mono P Q h (x ∷ xs) a = (h x a.0, All-mono P Q h xs a.1)

-- What an `UPDATE` does, row by row.
pub All₂-update {ℓ} :
    {A : Type ℓ} (R : A → A → Type 0) (p : A → Bool) (f : A → A)
    → ((x : A) → p x ≡ true → R x (f x))
    → ((x : A) → p x ≡ false → R x x)
    → (xs : List A) → All₂ R xs (update p f xs)
All₂-update R p f hit miss [] = tt
All₂-update R p f hit miss (x ∷ xs) = elim (Bool-cases (p x)) [
  | inl e ↦ rw e (hit x e, All₂-update R p f hit miss xs)
  | inr e ↦ rw e (miss x e, All₂-update R p f hit miss xs)
]

pub All₂-refl {ℓ} :
    {A : Type ℓ} (R : A → A → Type 0) → ((x : A) → R x x) → (xs : List A) → All₂ R xs xs
All₂-refl R h [] = tt
All₂-refl R h (x ∷ xs) = (h x, All₂-refl R h xs)

pub All₂-trans {ℓ} :
    {A : Type ℓ} (R : A → A → Type 0)
    → ((x y z : A) → R x y → R y z → R x z)
    → (xs ys zs : List A) → All₂ R xs ys
    → All₂ R ys zs
    → All₂ R xs zs
All₂-trans R t [] [] [] a b = tt
All₂-trans R t [] [] (z ∷ zs) a b = b
All₂-trans R t [] (y ∷ ys) zs a b = absurd a
All₂-trans R t (x ∷ xs) [] zs a b = absurd a
All₂-trans R t (x ∷ xs) (y ∷ ys) [] a b = b
All₂-trans R t (x ∷ xs) (y ∷ ys) (z ∷ zs) a b = (t x y z a.0 b.0, All₂-trans R t xs ys zs a.1 b.1)

pub All-swap {ℓ} :
    {A : Type ℓ} (R : A → A → Type 0) (left front : List A)
    → All (λ c. All (R c) left) front
    → All (λ d. All (λ c. R c d) front) left
All-swap R [] front h = tt
All-swap R (d ∷ left) front h = (
  All-mono (λ c. All (R c) (d ∷ left)) (λ c. R c d) (λ c both. both.0) front h,
  All-swap R left front
      (All-mono (λ c. All (R c) (d ∷ left)) (λ c. All (R c) left) (λ c both. both.1) front h),
)

-- What holds of all that a test lets through holds of each that passes it.
pub All-of_filter {ℓ} :
    {A : Type ℓ} (P : A → Type 0) (p : A → Bool) (xs : List A)
    → All P (filter p xs)
    → All (λ x. p x ≡ true → P x) xs
All-of_filter P p [] h = tt
All-of_filter P p (x ∷ xs) h = elim (Bool-cases (p x)) [
  | inl e ↦ let both = rw e at h in ((λ _. both.0), All-of_filter P p xs both.1)
  | inr e ↦ ((λ f. cc), All-of_filter P p xs (rw e at h))
]
