-- ===== src/Conversations/Schedules/Reads.antt =====
-- What is read of a schedule under its identifier, through the writes.
use cuckoo.Base.{
  ◌⊎◌, ℕ, ◌≡◌, refl, sym, ap, subst, ◌∙◌, inl, inr, Bool, true, false, none, some, List, [], ◌∷◌,
  arith, ◌==◌, ==→eq, Bool-cases, update, is_none, if◌then◌else◌,
}
use cuckoo.Base.Counts.{find?-update}
use cuckoo.Conversations.Desk.{Schedule, get_schedule}
use cuckoo.Conversations.Agenda.{is_live}

-- The row that is read under the identifier passes the test.
abbrev pub Reads : (Schedule → Bool) → ℕ → List Schedule → Type 0
Reads p i rows = (s : Schedule) × (get_schedule i rows ≡ some s) × (p s ≡ true)

pub update-Reads :
    (p q : Schedule → Bool) (f : Schedule → Schedule) (i : ℕ) (rows : List Schedule)
    → ((s : Schedule) → (f s).id ≡ s.id)
    → ((s : Schedule) → get_schedule i rows ≡ some s → q s ≡ true → p s ≡ true → p (f s) ≡ true)
    → Reads p i rows
    → Reads p i (update q f rows)
unfolding get_schedule
update-Reads p q f i rows same keep (s, found, h) = (
  if q s then f s else s,
  find?-update (λ r. r.id == i) q f (λ r. ap (λ k. k == i) (same r)) rows found,
  still (Bool-cases (q s)),
)
  where
    still : (q s ≡ true) ⊎ (q s ≡ false) → p (if q s then f s else s) ≡ true
    still (inl e) = rw e (keep s found e h)
    still (inr e) = rw e h

pub made-Reads :
    (p : Schedule → Bool) (i : ℕ) (row : Schedule) (rows : List Schedule)
    → get_schedule row.id rows ≡ none
    → Reads p i rows
    → Reads p i (row ∷ rows)
unfolding get_schedule
made-Reads p i row rows new (s, found, h) = elim (Bool-cases (row.id == i)) [
  | inl e ↦
      let none_there : get_schedule i rows ≡ none =
        subst (λ k. get_schedule k rows ≡ none) (==→eq row.id i e) new in
      absurd cc
  | inr e ↦ (s, rw e found, h)
]

pub some-injective : {a b : Schedule} → some a ≡ some b → a ≡ b
some-injective e = cc

pub found_id :
    (i : ℕ) (rows : List Schedule) (s : Schedule)
    → get_schedule i rows ≡ some s
    → (s.id == i) ≡ true
unfolding get_schedule
found_id i [] s h = cc
found_id i (r ∷ rows) s h = elim (Bool-cases (r.id == i)) [
  | inl e ↦
      let k : some r ≡ some s = rw e at h in subst (λ x. (x.id == i) ≡ true) (some-injective k) e
  | inr e ↦ found_id i rows s (rw e at h)
]

-- A live row that is read under one identifier is the one that is read under its own.
pub one_row :
    (i j : ℕ) (rows : List Schedule) (r s : Schedule)
    → get_schedule i rows ≡ some r
    → is_live j r ≡ true
    → get_schedule j rows ≡ some s
    → s ≡ r
one_row i j rows r s found live first =
    let mine : (r.id == i) ≡ true = found_id i rows r found in
    let same : i ≡ j = ground arith in
    some-injective (sym first ∙ subst (λ k. get_schedule k rows ≡ some r) same found)

-- A live row that was written is read as it was written.
pub written-Reads :
    (p : Schedule → Bool) (f : Schedule → Schedule) (i : ℕ) (rows : List Schedule) (s : Schedule)
    → get_schedule i rows ≡ some s
    → is_none s.deleted_at ≡ true
    → ((r : Schedule) → (f r).id ≡ r.id)
    → p (f s) ≡ true
    → Reads p i (update (is_live i) f rows)
unfolding get_schedule
written-Reads p f i rows s found live same h =
    let mine : is_live i s ≡ true = rw (found_id i rows s found, live) refl in
    (
      f s,
      find?-update (λ r. r.id == i) (is_live i) f (λ r. ap (λ k. k == i) (same r)) rows found
          ∙ rw mine refl,
      h,
    )
