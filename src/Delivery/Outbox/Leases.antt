-- ===== src/Delivery/Outbox/Leases.antt =====
-- The promises of a claim: the batch is bounded, two claims within one lease take different rows, a
-- lease that is not settled comes due again, and an idle claim means that nothing was due.
use cuckoo.Base.{
  ℕ, suc, ◌+◌, ◌≤◌, ◌≡◌, refl, ap, ◌⊎◌, inl, inr, Bool, true, List, [], ◌∷◌, arith, Bool-cases,
  length, length-take-le, filter, update, take, All, All₂,
}
use cuckoo.Base.Sorting.{sort_by}
use cuckoo.Base.Keys.{is_in, inside, length-inside}
use cuckoo.Delivery.Outbox.{Delivery, lease, lease_for, picked, claim}
use cuckoo.Delivery.Outbox.Claims.{ids, IsKeyed, PickedIsEligible, picked-eligible}

-- A lease keeps every key, so the claimed rows are counted by their keys.
length-claimed :
    (now : ℕ) (keys : List ℕ) (rows : List Delivery)
    → length (filter (λ d. is_in d.id keys) (update (λ d. is_in d.id keys) (lease now) rows))
      ≡ length (inside keys (ids rows))
length-claimed now keys [] = refl
length-claimed now keys (d ∷ rows) = ground (arith, length-claimed now keys rows)

length-ids : (rows : List Delivery) → length (ids rows) ≡ length rows
length-ids [] = refl
length-ids (d ∷ rows) = ap suc (length-ids rows)

length-picked :
    (eligible : Delivery → Bool) (before : Delivery → Delivery → Bool) (n : ℕ)
    (rows : List Delivery)
    → length (picked eligible before n rows) ≤ n
unfolding picked
length-picked eligible before n rows =
    omega (arith, length-ids (take n _), length-take-le n (sort_by before (filter eligible rows)))

-- What one row goes through in a claim.
abbrev pub Leased : (Delivery → Bool) → ℕ → Delivery → Delivery → Type 0
Leased eligible now d e = (e ≡ d) ⊎ ((eligible d ≡ true) × (e ≡ lease now d))

pub Leased-rows :
    (eligible : Delivery → Bool) (now : ℕ) (keys : List ℕ) (rows : List Delivery)
    → All (PickedIsEligible eligible keys) rows
    → All₂ (Leased eligible now) rows (update (λ d. is_in d.id keys) (lease now) rows)
Leased-rows eligible now keys [] h = tt
Leased-rows eligible now keys (d ∷ rows) h = elim (Bool-cases (is_in d.id keys)) [
  | inl e ↦ rw e (inr (h.0 e, refl), Leased-rows eligible now keys rows h.1)
  | inr e ↦ rw e (inl refl, Leased-rows eligible now keys rows h.1)
]

-- Each claimed row now comes due when its lease ends.
abbrev pub HoldsLease : ℕ → Delivery → Type 0
HoldsLease now d = d.next_attempt_at ≡ now + lease_for

pub claimed_hold :
    (now : ℕ) (keys : List ℕ) (rows : List Delivery)
    → All
        (HoldsLease now)
        (filter (λ d. is_in d.id keys) (update (λ d. is_in d.id keys) (lease now) rows))
claimed_hold now keys [] = tt
claimed_hold now keys (d ∷ rows) = elim (Bool-cases (is_in d.id keys)) [
  | inl e ↦ rw e (rw e (refl, claimed_hold now keys rows))
  | inr e ↦ rw e (rw e (claimed_hold now keys rows))
]

-- In a keyed table a claim changes only eligible rows, those by leasing them; it returns no more
-- than the batch, and all that it returns comes due when the lease ends.
pub claim_lem :
    (eligible : Delivery → Bool) (before : Delivery → Delivery → Bool) (now n : ℕ)
    (rows : List Delivery)
    → IsKeyed rows
    → let result = claim eligible before now n rows in
      All₂ (Leased eligible now) rows result.0
      × (length result.1 ≤ n)
      × All (HoldsLease now) result.1
unfolding claim
claim_lem eligible before now n rows keyed = (
  Leased-rows eligible now keys rows (picked-eligible eligible before n rows keyed),
  omega (
    arith,
    length-claimed now keys rows,
    length-inside keys (ids rows) keyed,
    length-picked eligible before n rows,
  ),
  claimed_hold now keys rows,
)
  where
    keys : List ℕ
    keys = picked eligible before n rows
