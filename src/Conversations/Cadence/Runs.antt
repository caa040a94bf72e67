-- ===== src/Conversations/Cadence/Runs.antt =====
-- A schedule that repeats runs again.
use cuckoo.Base.{
  ℕ, zero, suc, ◌+◌, ◌-◌, ◌%◌, ◌≤◌, ◌<◌, ◌≡◌, refl, subst, inl, inr, Bool, true, false, ◌&&◌, ◌||◌,
  not, some, List, [], ◌∷◌, arith, ◌==◌, ltb, leb, ==→eq, lt→ltb, if◌then◌else◌, Bool-cases, length,
  any, get_elem?,
}
use cuckoo.Base.Text.{Text, codes, text_eq}
use cuckoo.Domain.Errors.{ok, >>=-eq-ok, ok-injective, refuse_if->>}
use cuckoo.Conversations.Cadence.{
  Cadence, Clock, normalized, normalized_days, normalized_date, allows, at, next, next_from,
  weekdays, given_days, unique_lower, names_day, invalid_cadence, repeat_once, repeat_weekly,
  repeat_weekdays, named_by, is_repeat,
}

-- On every local day the zone has the clock time, and it is after what was two local days before. Days
-- are counted from a Sunday.
pub record IsRegular (clock : Clock) (c : Cadence) : Type 0 where
  pub later : (t day : ℕ) → suc (clock.day_of c.timezone t) < day → t < at clock c day
  pub in_week : (day : ℕ) → clock.weekday c.timezone (at clock c day) ≡ day % 7

abbrev pub is_due : Clock → Cadence → ℕ → ℕ → Bool
is_due clock c t day =
    ltb t (at clock c day) && allows c (clock.weekday c.timezone (at clock c day))

-- The first of the days that is due.
pub IsFirst : Clock → Cadence → ℕ → ℕ → ℕ → Type 0
IsFirst clock c t from day =
    (from ≤ day)
    × (is_due clock c t day ≡ true)
    × ((e : ℕ) → from ≤ e → e < day → is_due clock c t e ≡ false)

module _ (clock : Clock) (c : Cadence) (t : ℕ) where
  next_from-IsFirst :
      (left day k : ℕ)
      → k < left
      → is_due clock c t (day + k) ≡ true
      → (d : ℕ) × (next_from clock c t day left ≡ some (at clock c d))
        × (d ≤ day + k)
        × IsFirst clock c t day d
  unfolding next_from IsFirst
  next_from-IsFirst zero day k h due = absurd (omega arith)
  next_from-IsFirst (suc left) day zero h due =
      let here : is_due clock c t day ≡ true =
        subst (λ x. is_due clock c t x ≡ true) (let same : day + 0 ≡ day = omega arith in same)
          due in
      (day, rw here refl, omega arith, (omega arith, here, λ f g l. absurd (omega arith)))
  next_from-IsFirst (suc left) day (suc k) h due = elim (Bool-cases (is_due clock c t day)) [
    | inl e ↦ (day, rw e refl, omega arith, (omega arith, e, λ f g l. absurd (omega arith)))
    | inr e ↦
        let same : day + suc k ≡ (day + 1) + k = omega arith in
        let (d, found, low, (high, at_d, before)) =
          next_from-IsFirst left (day + 1) k (omega arith)
            (subst (λ x. is_due clock c t x ≡ true) same due) in
        (d, rw e found, omega arith, (omega arith, at_d, λ f g l. not_before day d f e before g l))
  ]
    where
      not_before :
          (day d f : ℕ)
          → is_due clock c t day ≡ false
          → ((e : ℕ) → day + 1 ≤ e → e < d → is_due clock c t e ≡ false)
          → day ≤ f
          → f < d
          → is_due clock c t f ≡ false
      not_before day d f e before g l = elim (Bool-cases (day == f)) [
        | inl same ↦ subst (λ x. is_due clock c t x ≡ false) (==→eq day f same) e
        | inr other ↦ before f (ground arith) l
      ]

-- Seven days from the one after next hold every day of the week.
reach_weekday : (day j : ℕ) → j < 7 → (k : ℕ) × (1 < k) × (k < 9) × ((day + k) % 7 ≡ j)
reach_weekday day j h = elim (Bool-cases (leb ((day + 2) % 7) j)) [
  | inl e ↦ (2 + (j - (day + 2) % 7), ground arith, ground arith, ground arith)
  | inr e ↦ (2 + (j + 7 - (day + 2) % 7), ground arith, ground arith, ground arith)
]

-- The weekdays that pass a test each.
chosen : Bool → Bool → Bool → Bool → Bool → Bool → Bool → List Text
chosen a b c d e f g =
    let days = (if g then codes "sat" ∷ [] else []) in
    let days = (if f then codes "fri" ∷ days else days) in
    let days = (if e then codes "thu" ∷ days else days) in
    let days = (if d then codes "wed" ∷ days else days) in
    let days = (if c then codes "tue" ∷ days else days) in
    let days = (if b then codes "mon" ∷ days else days) in if a then codes "sun" ∷ days else days

some_chosen :
    (a b c d e f g : Bool)
    → (length (chosen a b c d e f g) == 0) ≡ false
    → (j : ℕ) × (j < 7) × (named_by (chosen a b c d e f g) (get_elem? weekdays j) ≡ true)
unfolding chosen
some_chosen true b c d e f g h = (0, omega arith, refl)
some_chosen false true c d e f g h = (1, omega arith, refl)
some_chosen false false true d e f g h = (2, omega arith, refl)
some_chosen false false false true e f g h = (3, omega arith, refl)
some_chosen false false false false true f g h = (4, omega arith, refl)
some_chosen false false false false false true g h = (5, omega arith, refl)
some_chosen false false false false false false true h = (6, omega arith, refl)
some_chosen false false false false false false false h = cc

some_given :
    (days : List Text)
    → (length (given_days days) == 0) ≡ false
    → (j : ℕ) × (j < 7) × (named_by (given_days days) (get_elem? weekdays j) ≡ true)
unfolding given_days chosen
some_given days h =
    some_chosen (any (names_day (codes "sun")) days) (any (names_day (codes "mon")) days)
      (any (names_day (codes "tue")) days) (any (names_day (codes "wed")) days)
      (any (names_day (codes "thu")) days) (any (names_day (codes "fri")) days)
      (any (names_day (codes "sat")) days) h

-- What a cadence that was accepted is.
record IsNormal (clock : Clock) (raw c : Cadence) : Type 0 where
  days : normalized_days raw ≡ ok c.days
  repeat : c.repeat ≡ raw.repeat
  known : clock.knows c.timezone ≡ true

normalized-IsNormal :
    (clock : Clock) (raw c : Cadence) → normalized clock raw ≡ ok c → IsNormal clock raw c
unfolding normalized
normalized-IsNormal clock raw c h =
    let (_, h1) = refuse_if->> (not (is_repeat raw.repeat)) invalid_cadence _ h in
    let (_, h2) = refuse_if->> _ invalid_cadence _ h1 in
    let (zone, h3) =
      refuse_if->> (text_eq raw.timezone [] || not (clock.knows raw.timezone)) invalid_cadence _
        h2 in
    let (days, e, h4) = >>=-eq-ok (normalized_days raw) _ h3 in
    let (date, _, h5) = >>=-eq-ok (normalized_date raw) _ h4 in
    let there : clock.knows raw.timezone ≡ true = ground arith in
    subst (λ x. IsNormal clock raw x) (ok-injective h5)
      (record { days = e; repeat = refl; known = there })

weekly_days :
    (raw : Cadence) (days : List Text)
    → text_eq raw.repeat repeat_weekly ≡ true
    → normalized_days raw ≡ ok days
    → (j : ℕ) × (j < 7) × (named_by days (get_elem? weekdays j) ≡ true)
unfolding normalized_days
weekly_days raw days e h =
    let out = given_days raw.days in
    let (kept, k) =
      refuse_if->> (length out == 0 || not (length out == length (unique_lower raw.days)))
        invalid_cadence (ok out) (let k : _ ≡ ok days = rw e at h in k) in
    let some_day : (length (given_days raw.days) == 0) ≡ false = ground arith in
    subst (λ x. (j : ℕ) × (j < 7) × (named_by x (get_elem? weekdays j) ≡ true)) (ok-injective k)
      (some_given raw.days some_day)

some_allowed :
    (clock : Clock) (raw c : Cadence)
    → IsNormal clock raw c
    → (j : ℕ) × (j < 7) × (allows c j ≡ true)
unfolding allows
some_allowed clock raw c n = elim (Bool-cases (text_eq c.repeat repeat_weekdays)) [
  | inl e ↦ (1, omega arith, rw e refl)
  | inr e ↦ elim (Bool-cases (text_eq c.repeat repeat_weekly)) [
    | inr f ↦ (0, omega arith, rw (e, f) refl)
    | inl f ↦
        let weekly : text_eq raw.repeat repeat_weekly ≡ true = rw n.repeat at f in
        let (j, low, named) = weekly_days raw c.days weekly n.days in (j, low, rw (e, f) named)
  ]
]

-- A normalized cadence that repeats, in a zone that has its clock time on every day, has a next
-- run: the first one due after the time, nine days ahead of it at most with its own day counted.
pub next_lem :
    (clock : Clock) (raw c : Cadence) (t : ℕ)
    → normalized clock raw ≡ ok c
    → text_eq raw.repeat repeat_once ≡ false
    → IsRegular clock c
    → (day : ℕ) × (next clock c t ≡ some (at clock c day))
      × (day ≤ clock.day_of c.timezone t + 8)
      × IsFirst clock c t (clock.day_of c.timezone t) day
unfolding next
next_lem clock raw c t h repeats regular =
    let n = normalized-IsNormal clock raw c h in
    let today = clock.day_of c.timezone t in
    let (j, low, allowed) = some_allowed clock raw c n in
    let (k, far, near, lands) = reach_weekday today j low in
    let after : ltb t (at clock c (today + k)) ≡ true =
      lt→ltb t (at clock c (today + k)) (regular.later t (today + k) (omega arith)) in
    let right : allows c (clock.weekday c.timezone (at clock c (today + k))) ≡ true =
      rw (regular.in_week (today + k), lands) allowed in
    let (d, found, close, first) =
      next_from-IsFirst clock c t 9 today k near (rw (after, right) refl) in
    let many : text_eq c.repeat repeat_once ≡ false = rw n.repeat repeats in
    (d, rw (n.known, many) found, omega arith, first)
