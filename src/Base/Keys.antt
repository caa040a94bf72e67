-- ===== src/Base/Keys.antt =====
-- `id IN (...)` over keys, and how many rows of a keyed table it can name.
use Prim.Native.Nat.{ℕ, ◌+◌, ◌≤◌}
use mathlib.Core.Path.{◌≡◌, refl, subst}
use mathlib.Core.Logic.{inl, inr}
use mathlib.Core.Bool.{Bool}
use mathlib.Core.List.{List, [], ◌∷◌}
use native.Mathlib.Omega.{arith}
use cuckoo.Base.Tests.{◌==◌, ==→eq, Bool-cases}
use cuckoo.Base.Lists.{length, filter, count, any}
use cuckoo.Base.Predicates.{Avoids, Distinct}

abbrev pub is_in : ℕ → List ℕ → Bool
is_in i keys = any (λ j. i == j) keys

-- Those of a list of keys that stand among `keys`.
abbrev pub inside : List ℕ → List ℕ → List ℕ
inside keys = filter (λ i. is_in i keys)

inside-cons :
    (k : ℕ) (keys is : List ℕ)
    → length (inside (k ∷ keys) is) ≤ count (λ i. i == k) is + length (inside keys is)
inside-cons k keys [] = omega arith
inside-cons k keys (i ∷ is) = ground (arith, inside-cons k keys is)

inside-nil : (is : List ℕ) → length (inside [] is) ≡ 0
inside-nil [] = refl
inside-nil (i ∷ is) = inside-nil is

count-avoided : (k : ℕ) (is : List ℕ) → Avoids k is → count (λ i. i == k) is ≡ 0
count-avoided k [] h = refl
count-avoided k (i ∷ is) h = ground (arith, h.0, count-avoided k is h.1)

pub count-Distinct : (k : ℕ) (is : List ℕ) → Distinct is → count (λ i. i == k) is ≤ 1
count-Distinct k [] h = omega arith
count-Distinct k (i ∷ is) h = elim (Bool-cases (i == k)) [
  | inl e ↦ rw e (omega (arith, count-avoided k is (subst (λ j. Avoids j is) (==→eq _ _ e) h.0)))
  | inr e ↦ rw e (count-Distinct k is h.1)
]

pub length-inside : (keys is : List ℕ) → Distinct is → length (inside keys is) ≤ length keys
length-inside [] is h = omega (arith, inside-nil is)
length-inside (k ∷ keys) is h =
    omega (arith, inside-cons k keys is, count-Distinct k is h, length-inside keys is h)
