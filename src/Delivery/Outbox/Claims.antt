-- ===== src/Delivery/Outbox/Claims.antt =====
-- What a claim leases. The identifiers are the table's primary key.
use cuckoo.Base.{
  ℕ, ◌≡◌, sym, ap, ◌∙◌, ◌≢◌, inl, inr, Bool, true, some, List, [], ◌∷◌, map, arith, ◌==◌, ==→eq,
  Bool-cases, filter, find?, take, All, Distinct, Avoids, All-filter, All-take, All-mono, All-both,
}
use mathlib.Core.Option.{some-injective}
use cuckoo.Base.Sorting.{sort_by, All-sort_by}
use cuckoo.Base.Keys.{is_in}
use cuckoo.Delivery.Outbox.{Delivery, picked}

abbrev pub ids : List Delivery → List ℕ
ids = map (λ d. d.id)

abbrev pub IsKeyed : List Delivery → Type 0
IsKeyed rows = Distinct (ids rows)

abbrev pub has_id : ℕ → Delivery → Bool
has_id i d = d.id == i

-- A row that the key finds: in a keyed table every row is found under its own key.
abbrev pub IsFound : List Delivery → Delivery → Type 0
IsFound rows d = find? (has_id d.id) rows ≡ some d

find-cons_ne :
    (i : ℕ) (d : Delivery) (rows : List Delivery)
    → d.id ≢ i
    → find? (has_id i) (d ∷ rows) ≡ find? (has_id i) rows
find-cons_ne i d rows ne = ground arith

IsFound-later :
    (d : Delivery) (all rows : List Delivery)
    → Avoids d.id (ids rows)
    → All (IsFound all) rows
    → All (IsFound (d ∷ all)) rows
IsFound-later d all [] avoid h = tt
IsFound-later d all (r ∷ rows) avoid h =
    (find-cons_ne r.id d all (λ e. avoid.0 (sym e)) ∙ h.0, IsFound-later d all rows avoid.1 h.1)

pub keyed-IsFound : (rows : List Delivery) → IsKeyed rows → All (IsFound rows) rows
keyed-IsFound [] h = tt
keyed-IsFound (d ∷ rows) h = (ground arith, IsFound-later d rows rows h.0 (keyed-IsFound rows h.1))

-- A key in a list of keys belongs to a row of the list.
is_in-ids :
    (P : Delivery → Type 0) (i : ℕ) (rows : List Delivery)
    → All P rows
    → is_in i (ids rows) ≡ true
    → (d : Delivery) × (d.id ≡ i) × P d
is_in-ids P i [] h e = cc
is_in-ids P i (d ∷ rows) h e = elim (Bool-cases (i == d.id)) [
  | inl here ↦ (d, sym (==→eq _ _ here), h.0)
  | inr later ↦ is_in-ids P i rows h.1 (rw later at e)
]

-- A row whose key is picked passed the test of the inner SELECT.
abbrev pub PickedIsEligible : (Delivery → Bool) → List ℕ → Delivery → Type 0
PickedIsEligible eligible keys d = is_in d.id keys ≡ true → eligible d ≡ true

filter-eligible :
    (p : Delivery → Bool) (rows : List Delivery) → All (λ d. p d ≡ true) (filter p rows)
filter-eligible p [] = tt
filter-eligible p (d ∷ rows) = elim (Bool-cases (p d)) [
  | inl e ↦ rw e (e, filter-eligible p rows)
  | inr e ↦ rw e (filter-eligible p rows)
]

module _ (eligible : Delivery → Bool) (before : Delivery → Delivery → Bool) (n : ℕ)
    (rows : List Delivery) (keyed : IsKeyed rows) where
  abbrev Source : Delivery → Type 0
  Source d = IsFound rows d × (eligible d ≡ true)

  sources : All Source (take n (sort_by before (filter eligible rows)))
  sources = All-take Source n _ (
      All-sort_by before Source (filter eligible rows) (
        All-both (IsFound rows) (λ d. eligible d ≡ true) (filter eligible rows)
          (All-filter (IsFound rows) eligible rows (keyed-IsFound rows keyed))
          (filter-eligible eligible rows)))

  picked_row :
      (d : Delivery) → IsFound rows d → PickedIsEligible eligible (picked eligible before n rows) d
  unfolding picked
  picked_row d found e =
      let (s, same, from) = is_in-ids Source d.id _ sources e in
      let eq : s ≡ d =
        some-injective _ _ (sym from.0 ∙ ap (λ i. find? (has_id i) rows) same ∙ found) in
      rw eq at from.1

  pub picked-eligible : All (PickedIsEligible eligible (picked eligible before n rows)) rows
  picked-eligible =
      All-mono (IsFound rows) (PickedIsEligible eligible (picked eligible before n rows)) picked_row
        rows (keyed-IsFound rows keyed)
