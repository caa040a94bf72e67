-- ===== src/Delivery/Worker/Fit.antt =====
-- A pass attempts no row that has run out of its day or has no webhook, whatever others write between its
-- statements.
use cuckoo.Base.{
  ℕ, ◌+◌, ◌*◌, ◌≤◌, ◌≡◌, inl, inr, Bool, true, not, List, [], ◌∷◌, arith, Bool-cases, All, All-both,
  All-filter, filter, update,
}
use cuckoo.Base.Keys.{is_in}
use cuckoo.Agents.Bindings.{Binding}
use cuckoo.Delivery.Schedule.{hour}
use cuckoo.Delivery.Outbox.{
  Delivery, is_pending, lease, is_expired, has_webhook, picked, claim, claim_due_webhook_deliveries,
  webhook_eligible, due_before, fail_expired_deliveries, create_delivery, is_finished, is_about,
  delete_finished_deliveries, delete_with_messages,
}
use cuckoo.Delivery.Outbox.Writes.{
  All-of_All₂, Writes, done, next, changed, created, swept, forgotten, expired, unbound,
  Change-Advance, Write-IsKeyed, Writes-IsKeyed,
}
use cuckoo.Delivery.Outbox.Claims.{IsKeyed, PickedIsEligible, picked-eligible}
use cuckoo.Delivery.Outbox.Moves.{Advances, was_pending, Advance}
use cuckoo.Delivery.Worker.{
  Clocks, fail_expired, fail_unbound, before_claim, claim_due, Tables, batch_size, claim_batch,
}

-- What is created was not a day old at a time.
abbrev pub AreRecent :
    ℕ → {drawn : List ℕ} {rows after : List Delivery} → Writes drawn rows after → Type 0
AreRecent old done = Unit {0}
AreRecent old (next (changed c) ws) = AreRecent old ws
AreRecent old
      (next (created now i message conversation agent event payload status error new unused) ws) =
    (old ≤ now + 24 * hour) × AreRecent old ws
AreRecent old (next (swept before) ws) = AreRecent old ws
AreRecent old (next (forgotten messages) ws) = AreRecent old ws

-- Fit to be sent: inside its day at one time, and bound to a webhook.
abbrev pub IsFit : ℕ → List Binding → Delivery → Type 0
IsFit now bs d = (now ≤ d.created_at + 24 * hour) × (has_webhook bs d.agent_id ≡ true)

abbrev IsFresh : ℕ → Delivery → Type 0
IsFresh now d = is_pending d.status ≡ true → now ≤ d.created_at + 24 * hour

fail_expired-IsFresh :
    (now : ℕ) (rows : List Delivery) → All (IsFresh now) (fail_expired_deliveries now rows).0
unfolding fail_expired_deliveries
fail_expired-IsFresh now [] = tt
fail_expired-IsFresh now (d ∷ rows) = elim (Bool-cases (is_expired now d)) [
  | inl e ↦ rw e ((λ p. cc), fail_expired-IsFresh now rows)
  | inr e ↦ rw e ((λ p. ground arith), fail_expired-IsFresh now rows)
]

Advance-IsFresh :
    (now : ℕ) (rows after : List Delivery)
    → Advance rows after
    → All (IsFresh now) rows
    → All (IsFresh now) after
Advance-IsFresh now rows after =
    All-of_All₂ Advances (IsFresh now) (IsFresh now)
      (λ d e a h p. omega (arith, a.same_creation, h (was_pending d e a p))) rows after

Writes-IsFresh :
    (old : ℕ) (drawn : List ℕ) {rows after : List Delivery} (ws : Writes drawn rows after)
    → IsKeyed rows
    → AreRecent old ws
    → All (IsFresh old) rows
    → All (IsFresh old) after
unfolding create_delivery delete_finished_deliveries delete_with_messages
Writes-IsFresh old drawn done keyed recent h = h
Writes-IsFresh old drawn (next (changed {rows} {after} c) ws) keyed recent h =
    Writes-IsFresh old drawn ws (Write-IsKeyed drawn (changed c) keyed) recent
      (Advance-IsFresh old rows after (Change-Advance c keyed) h)
Writes-IsFresh old drawn
      (next
        (created {rows} now j message conversation agent event payload status error new unused)
        ws)
      keyed recent h =
    Writes-IsFresh old drawn ws
      (Write-IsKeyed drawn
        (created {rows = rows} now j message conversation agent event payload status error new
          unused)
        keyed)
      recent.1 ((λ p. recent.0), h)
Writes-IsFresh old drawn (next (swept {rows} before) ws) keyed recent h =
    Writes-IsFresh old drawn ws (Write-IsKeyed drawn (swept {rows = rows} before) keyed) recent
      (All-filter (IsFresh old) (λ d. not (is_finished before d)) rows h)
Writes-IsFresh old drawn (next (forgotten {rows} messages) ws) keyed recent h =
    Writes-IsFresh old drawn ws (Write-IsKeyed drawn (forgotten {rows = rows} messages) keyed)
      recent (All-filter (IsFresh old) (λ d. not (is_about messages d)) rows h)

claim-IsFit :
    (locked : ℕ → Bool) (old now : ℕ) (bs : List Binding) (keys : List ℕ) (rows : List Delivery)
    → All (λ d. IsFresh old d × PickedIsEligible (webhook_eligible locked now bs) keys d) rows
    → All
        (IsFit old bs)
        (filter (λ d. is_in d.id keys) (update (λ d. is_in d.id keys) (lease now) rows))
claim-IsFit locked old now bs keys [] h = tt
claim-IsFit locked old now bs keys (d ∷ rows) h = elim (Bool-cases (is_in d.id keys)) [
  | inl e ↦ rw e (rw e (fit (h.0.1 e), claim-IsFit locked old now bs keys rows h.1))
  | inr e ↦ rw e (rw e (claim-IsFit locked old now bs keys rows h.1))
]
  where
    fit : webhook_eligible locked now bs d ≡ true → IsFit old bs (lease now d)
    fit e = (h.0.0 (ground arith), ground arith)

-- Keyed, and what is pending was inside its day.
abbrev IsReady : ℕ → List Delivery → Type 0
IsReady old rows = IsKeyed rows × All (IsFresh old) rows

Writes-IsReady :
    (old : ℕ) (drawn : List ℕ) {rows after : List Delivery} (ws : Writes drawn rows after)
    → AreRecent old ws
    → IsReady old rows
    → IsReady old after
Writes-IsReady old drawn ws recent (keyed, h) =
    (Writes-IsKeyed drawn ws keyed, Writes-IsFresh old drawn ws keyed recent h)

fail_expired-IsReady :
    (k : Clocks) (t : Tables)
    → IsKeyed t.deliveries
    → IsReady k.expiring (fail_expired k.expiring t).deliveries
unfolding fail_expired
fail_expired-IsReady k t keyed = (
  Write-IsKeyed [] (changed (expired {rows = t.deliveries} k.expiring)) keyed,
  fail_expired-IsFresh k.expiring t.deliveries,
)

fail_unbound-IsReady :
    (old : ℕ) (t : Tables) → IsReady old t.deliveries → IsReady old (fail_unbound t).deliveries
unfolding fail_unbound
fail_unbound-IsReady old t h =
    Writes-IsReady old [] (next (changed (unbound {rows = t.deliveries} t.bindings)) done) tt h

-- Whatever a pass over a keyed table claims was inside its day when the pass failed what had
-- expired, and its agent has a live webhook when it is claimed, whatever queries write the table
-- between the statements of the pass, if new rows have fresh identifiers and are not themselves a
-- day older than the first statement.
pub claim_batch-IsFit :
    (locked : ℕ → Bool) (k : Clocks) (t : Tables) (drawn later_drawn : List ℕ)
    → IsKeyed t.deliveries
    → (first : Writes drawn
        (fail_expired k.expiring t).deliveries
        (k.then_written (fail_expired k.expiring t)).deliveries)
    → AreRecent k.expiring first
    → (second : Writes later_drawn
        (fail_unbound (k.then_written (fail_expired k.expiring t))).deliveries
        (k.next_written (fail_unbound (k.then_written (fail_expired k.expiring t)))).deliveries)
    → AreRecent k.expiring second
    → All (IsFit k.expiring (before_claim k t).bindings) (claim_batch locked k t).1
unfolding before_claim claim_batch claim_due claim_due_webhook_deliveries claim
claim_batch-IsFit locked k t drawn later_drawn keyed first early second late =
    let u = before_claim k t in
    let eligible = webhook_eligible locked k.claiming u.bindings in
    let ready : IsReady k.expiring u.deliveries =
      Writes-IsReady k.expiring later_drawn second late (
        fail_unbound-IsReady k.expiring (k.then_written (fail_expired k.expiring t))
          (Writes-IsReady k.expiring drawn first early (fail_expired-IsReady k t keyed))) in
    claim-IsFit locked k.expiring k.claiming u.bindings
      (picked eligible due_before batch_size u.deliveries) u.deliveries
      (All-both _ _ u.deliveries ready.1
        (picked-eligible eligible due_before batch_size u.deliveries ready.0))
