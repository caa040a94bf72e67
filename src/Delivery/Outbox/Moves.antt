-- ===== src/Delivery/Outbox/Moves.antt =====
-- How a row may change: what it is about never does, its attempts only grow, and once it is
-- delivered or failed it is never written again.
use cuckoo.Base.{
  subst, Bool-cases, ℕ, ◌≤◌, ◌≡◌, refl, inl, inr, Bool, true, false, ◌&&◌, List, [], ◌∷◌, arith,
  update, All₂, All₂-update, All₂-refl, All₂-trans,
}
use cuckoo.Base.Text.{Text}
use cuckoo.Agents.Bindings.{Binding}
use cuckoo.Delivery.Outbox.{
  Delivery, is_pending, lease, deliver, fail_with, retry_at, is_open, is_own, is_expired,
  is_unbound, claim, ack_delivery, mark_delivered, schedule_retry, mark_failed,
  fail_expired_deliveries, fail_unbound_deliveries,
}
use cuckoo.Delivery.Outbox.Claims.{ids, IsKeyed}
use cuckoo.Delivery.Outbox.Leases.{Leased, claim_lem}

pub record Advances (d e : Delivery) : Type 0 where
  pub same_id : e.id ≡ d.id
  pub same_agent : e.agent_id ≡ d.agent_id
  pub same_message : e.message_id ≡ d.message_id
  pub same_event : e.event_type ≡ d.event_type
  pub same_payload : e.payload ≡ d.payload
  pub same_creation : e.created_at ≡ d.created_at
  pub tried : d.attempts ≤ e.attempts
  pub settled : is_pending d.status ≡ false → e ≡ d

pub Advances-refl : (d : Delivery) → Advances d d
Advances-refl d = ground arith

pub Advances-trans : (d e f : Delivery) → Advances d e → Advances e f → Advances d f
Advances-trans d e f p q = ground arith

pub was_pending :
    (d e : Delivery) → Advances d e → is_pending e.status ≡ true → is_pending d.status ≡ true
was_pending d e a p = elim (Bool-cases (is_pending d.status)) [
  | inl h ↦ h
  | inr h ↦ subst (λ r. is_pending r.status ≡ true) (a.settled h) p
]

-- The four writes that the code knows, on a row that is pending.
lease-Advances : (now : ℕ) (d : Delivery) → is_pending d.status ≡ true → Advances d (lease now d)
lease-Advances now d p = ground arith

deliver-Advances :
    (now : ℕ) (d : Delivery) → is_pending d.status ≡ true → Advances d (deliver now d)
deliver-Advances now d p = ground arith

fail-Advances :
    (reason : Text) (d : Delivery) → is_pending d.status ≡ true → Advances d (fail_with reason d)
fail-Advances reason d p = ground arith

retry-Advances :
    (t : ℕ) (reason : Text) (d : Delivery)
    → is_pending d.status ≡ true
    → Advances d (retry_at t reason d)
retry-Advances t reason d p = ground arith

and_right : (a b : Bool) → (a && b) ≡ true → b ≡ true
and_right a b h = ground arith

and_left : (a b : Bool) → (a && b) ≡ true → a ≡ true
and_left a b h = ground arith

abbrev pub Advance : List Delivery → List Delivery → Type 0
Advance = All₂ Advances

pub Advance-refl : (rows : List Delivery) → Advance rows rows
Advance-refl = All₂-refl Advances Advances-refl

pub Advance-trans :
    (one two three : List Delivery) → Advance one two → Advance two three → Advance one three
Advance-trans = All₂-trans Advances Advances-trans

-- An UPDATE whose WHERE asks for a pending row.
updated :
    (p : Delivery → Bool) (f : Delivery → Delivery) (rows : List Delivery)
    → ((d : Delivery) → p d ≡ true → is_pending d.status ≡ true)
    → ((d : Delivery) → is_pending d.status ≡ true → Advances d (f d))
    → Advance rows (update p f rows)
updated p f rows live step =
    All₂-update Advances p f (λ d e. step d (live d e)) (λ d _. Advances-refl d) rows

open_pending : (i : ℕ) (d : Delivery) → is_open i d ≡ true → is_pending d.status ≡ true
open_pending i d h = and_right _ _ h

pub mark_delivered-Advance :
    (now i : ℕ) (rows : List Delivery) → Advance rows (mark_delivered now i rows)
unfolding mark_delivered
mark_delivered-Advance now i rows =
    updated (is_open i) (deliver now) rows (open_pending i) (deliver-Advances now)

pub mark_failed-Advance :
    (i : ℕ) (reason : Text) (rows : List Delivery) → Advance rows (mark_failed i reason rows)
unfolding mark_failed
mark_failed-Advance i reason rows =
    updated (is_open i) (fail_with reason) rows (open_pending i) (fail-Advances reason)

pub schedule_retry-Advance :
    (i t : ℕ) (reason : Text) (rows : List Delivery) → Advance rows (schedule_retry i t reason rows)
unfolding schedule_retry
schedule_retry-Advance i t reason rows =
    updated (is_open i) (retry_at t reason) rows (open_pending i) (retry-Advances t reason)

pub ack_delivery-Advance :
    (now i agent : ℕ) (rows : List Delivery) → Advance rows (ack_delivery now i agent rows).0
unfolding ack_delivery
ack_delivery-Advance now i agent rows =
    updated (is_own i agent) (deliver now) rows (λ d h. ground arith) (deliver-Advances now)

pub fail_expired-Advance :
    (now : ℕ) (rows : List Delivery) → Advance rows (fail_expired_deliveries now rows).0
unfolding fail_expired_deliveries
fail_expired-Advance now rows =
    updated (is_expired now) _ rows (λ d h. and_left _ _ h) (fail-Advances _)

pub fail_unbound-Advance :
    (bs : List Binding) (rows : List Delivery) → Advance rows (fail_unbound_deliveries bs rows).0
unfolding fail_unbound_deliveries
fail_unbound-Advance bs rows =
    updated (is_unbound bs) _ rows (λ d h. and_left _ _ h) (fail-Advances _)

All₂-mono {ℓ} :
    {A : Type ℓ} (R S : A → A → Type 0)
    → ((x y : A) → R x y → S x y)
    → (xs ys : List A) → All₂ R xs ys
    → All₂ S xs ys
All₂-mono R S h [] [] a = tt
All₂-mono R S h [] (y ∷ ys) a = a
All₂-mono R S h (x ∷ xs) [] a = a
All₂-mono R S h (x ∷ xs) (y ∷ ys) a = (h x y a.0, All₂-mono R S h xs ys a.1)

-- A claim of rows that are pending.
pub claim-Advance :
    (eligible : Delivery → Bool) (before : Delivery → Delivery → Bool) (now n : ℕ)
    (rows : List Delivery)
    → IsKeyed rows
    → ((d : Delivery) → eligible d ≡ true → is_pending d.status ≡ true)
    → Advance rows (claim eligible before now n rows).0
claim-Advance eligible before now n rows keyed live =
    All₂-mono (Leased eligible now) Advances step rows _
      (claim_lem eligible before now n rows keyed).0
  where
    step : (d e : Delivery) → Leased eligible now d e → Advances d e
    step d e (inl same) = rw same (Advances-refl d)
    step d e (inr (chosen, leased)) = rw leased (lease-Advances now d (live d chosen))

-- A change of rows keeps the keys.
pub Advance-ids : (rows after : List Delivery) → Advance rows after → ids after ≡ ids rows
Advance-ids [] [] h = refl
Advance-ids [] (e ∷ after) h = absurd h
Advance-ids (d ∷ rows) [] h = absurd h
Advance-ids (d ∷ rows) (e ∷ after) h = cc (h.0.same_id, Advance-ids rows after h.1)
