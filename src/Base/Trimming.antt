-- ===== src/Base/Trimming.antt =====
-- Laws of the text functions: `TrimSpace` has nothing left to trim, and equality of texts is `≡`.
use Prim.Native.Nat.{ℕ}
use mathlib.Core.Path.{◌≡◌, refl, ap, ◌∙◌}
use mathlib.Core.Logic.{inl, inr}
use mathlib.Core.Bool.{Bool, true, false, ◌||◌}
use mathlib.Core.List.{List, [], ◌∷◌}
use native.Mathlib.Omega.{arith}
use cuckoo.Base.Tests.{Bool-cases}
use cuckoo.Base.Predicates.{Avoids}
use cuckoo.Base.Text.{Text, text_eq, contains, is_space, trim_left, trim_right, trim_space}

-- The first element is no space.
abbrev StartsInk : Text → Type 0
StartsInk [] = Unit
StartsInk (c ∷ s) = is_space c ≡ false

trim_left-StartsInk : (s : Text) → StartsInk (trim_left s)
unfolding trim_left
trim_left-StartsInk [] = tt
trim_left-StartsInk (c ∷ s) = elim (Bool-cases (is_space c)) [
  | inl e ↦ rw (e) (trim_left-StartsInk s)
  | inr e ↦ rw (e) e
]

trim_left-of_StartsInk : (s : Text) → StartsInk s → trim_left s ≡ s
unfolding trim_left
trim_left-of_StartsInk [] h = refl
trim_left-of_StartsInk (c ∷ s) h = rw h

trim_right-cons_ink :
    (c : ℕ) (s : Text) → is_space c ≡ false → trim_right (c ∷ s) ≡ c ∷ trim_right s
unfolding trim_right
trim_right-cons_ink c s h = ground arith

trim_right-StartsInk : (s : Text) → StartsInk s → StartsInk (trim_right s)
trim_right-StartsInk [] h = unfold trim_right in tt
trim_right-StartsInk (c ∷ s) h = rw (trim_right-cons_ink c s h) h

trim_right_cons : (c d : ℕ) (s r : Text) → trim_right s ≡ d ∷ r → trim_right (c ∷ s) ≡ c ∷ d ∷ r
unfolding trim_right
trim_right_cons c d s r h = ground arith

trim_right-cons_case :
    (c : ℕ) (t s : Text)
    → trim_right s ≡ t
    → trim_right t ≡ t
    → trim_right (trim_right (c ∷ s)) ≡ trim_right (c ∷ s)
unfolding trim_right
trim_right-cons_case c [] s e ih = elim (Bool-cases (is_space c)) [
  | inl space ↦ rw (e, trim_right) (rw (space) refl)
  | inr ink ↦ rw (e, trim_right) (rw (ink, trim_right) (rw ink))
]
trim_right-cons_case c (d ∷ r) s e ih =
    rw (trim_right_cons c d s r e) (trim_right_cons c d (d ∷ r) r ih)

trim_right_idem : (s : Text) → trim_right (trim_right s) ≡ trim_right s
trim_right_idem [] = unfold trim_right in refl
trim_right_idem (c ∷ s) = trim_right-cons_case c (trim_right s) s refl (trim_right_idem s)

pub trim_space_idem : (s : Text) → trim_space (trim_space s) ≡ trim_space s
unfolding trim_space
trim_space_idem s =
    ap trim_right
      (trim_left-of_StartsInk (trim_space s) (trim_right-StartsInk _ (trim_left-StartsInk s)))
    ∙ trim_right_idem (trim_left s)

pub text_eq→eq : (s t : Text) → text_eq s t ≡ true → s ≡ t
text_eq→eq [] [] h = refl
text_eq→eq [] (y ∷ t) h = cc
text_eq→eq (x ∷ s) [] h = cc
text_eq→eq (x ∷ s) (y ∷ t) h = ground (arith, text_eq→eq s t)

pub text_eq_refl : (s : Text) → text_eq s s ≡ true
text_eq_refl [] = refl
text_eq_refl (x ∷ s) = ground (arith, text_eq_refl s)

pub eq→text_eq : (s t : Text) → s ≡ t → text_eq s t ≡ true
eq→text_eq s t h = rw (← h) (text_eq_refl s)

pub or_false_left : (a b : Bool) → (a || b) ≡ false → a ≡ false
or_false_left a b h = ground arith

pub or_false_right : (a b : Bool) → (a || b) ≡ false → b ≡ false
or_false_right a b h = ground arith

-- A text that the look-up does not find differs from all in the list.
pub contains-Avoids : (xs : List Text) (t : Text) → contains xs t ≡ false → Avoids t xs
contains-Avoids [] t h = tt
contains-Avoids (x ∷ xs) t h = (
  λ e. cc (eq→text_eq x t e, or_false_left (text_eq x t) (contains xs t) h),
  contains-Avoids xs t (or_false_right (text_eq x t) (contains xs t) h),
)
