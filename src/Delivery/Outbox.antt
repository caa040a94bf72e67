-- ===== src/Delivery/Outbox.antt =====
-- The table message_deliveries and its queries, store/gen/deliveries.sql.go, with what store/gen/retention.sql.go
-- deletes of it: the outbox. A row is one
-- event owed to one agent. `now` is the transaction's clock, and the rows that another transaction
-- has locked (`SKIP LOCKED`) are an argument. `RETURNING` gives the rows in the table's order.
pub mod Claims
pub mod Leases
pub mod Fairness
pub mod Passed
pub mod Returns
pub mod Moves
pub mod Writes
pub mod Histories
pub mod Paging
use cuckoo.Base.{
  ℕ, ◌+◌, ◌*◌, Bool, true, false, ◌&&◌, ◌||◌, not, Option, none, some, List, [], ◌∷◌, map, ◌==◌,
  ltb, leb, is_none, if◌then◌else◌, filter, update, count, any, find?, take,
}
use cuckoo.Base.Text.{Text, codes}
use cuckoo.Base.Keys.{is_in}
use cuckoo.Base.Sorting.{sort_by}
use cuckoo.Agents.Bindings.{Binding, is_webhook, is_socket}
use cuckoo.Delivery.Schedule.{second, hour}

pub data Status : Type 0 where
  pending delivered failed : Status

-- The words of the column `event_type`; `other` is any word that the hub has no name for.
pub data EventType : Type 0 where
  message_created conversation_joined conversation_left stop_requested : EventType
  schedule_requested schedule_updated schedule_deleted : EventType
  other : Text → EventType

pub record Delivery : Type 0 where
  pub id : ℕ
  pub message_id : Option ℕ
  pub conversation_id : ℕ
  pub agent_id : ℕ
  pub event_type : EventType
  pub payload : Text
  pub status : Status
  pub attempts : ℕ
  pub next_attempt_at : ℕ
  pub last_error : Option Text
  pub delivered_at : Option ℕ
  pub created_at : ℕ

abbrev pub is_pending : Status → Bool
is_pending pending = true
is_pending _ = false

-- `CreateDelivery`; the columns that it does not name take their defaults.
abbrev pub new_delivery :
    ℕ → ℕ → Option ℕ → ℕ → ℕ → EventType → Text → Status → Option Text → Delivery
new_delivery now i message conversation agent event payload status error = record {
  id = i;
  message_id = message;
  conversation_id = conversation;
  agent_id = agent;
  event_type = event;
  payload = payload;
  status = status;
  attempts = 0;
  next_attempt_at = now;
  last_error = error;
  delivered_at = none;
  created_at = now;
}

unfoldable pub create_delivery : Delivery → List Delivery → List Delivery
create_delivery d rows = d ∷ rows

-- EXISTS (SELECT 1 FROM agent_bindings b WHERE ...)
unfoldable pub has_webhook : List Binding → ℕ → Bool
has_webhook bs agent =
    any (λ b. b.agent_id == agent && is_none b.revoked_at && is_webhook b.mode) bs

pub has_socket : List Binding → ℕ → Bool
has_socket bs agent = any (λ b. b.agent_id == agent && is_none b.revoked_at && is_socket b.mode) bs

pub has_binding : List Binding → ℕ → Bool
has_binding bs agent = any (λ b. b.agent_id == agent && is_none b.revoked_at) bs

-- status = 'pending' AND next_attempt_at <= now()
abbrev pub is_due : ℕ → Delivery → Bool
is_due now d = is_pending d.status && leb d.next_attempt_at now

abbrev pub lease_for : ℕ
lease_for = 30 * second

abbrev pub lease : ℕ → Delivery → Delivery
lease now d = record d { attempts = d.attempts + 1; next_attempt_at = now + lease_for }

-- The rows that the inner SELECT picks, and their identifiers.
pub picked_rows :
    (Delivery → Bool) → (Delivery → Delivery → Bool) → ℕ → List Delivery → List Delivery
picked_rows eligible before n rows = take n (sort_by before (filter eligible rows))

unfoldable pub picked :
    (Delivery → Bool) → (Delivery → Delivery → Bool) → ℕ → List Delivery → List ℕ
unfolding picked_rows
picked eligible before n rows = map (λ d. d.id) (picked_rows eligible before n rows)

-- The rows after, and those that were leased.
unfoldable pub claim :
    (Delivery → Bool)
    → (Delivery → Delivery → Bool)
    → ℕ
    → ℕ
    → List Delivery
    → List Delivery × List Delivery
claim eligible before now n rows =
    let ids = picked eligible before n rows in
    let after = update (λ d. is_in d.id ids) (lease now) rows in
    (after, filter (λ d. is_in d.id ids) after)

abbrev pub webhook_eligible : (ℕ → Bool) → ℕ → List Binding → Delivery → Bool
webhook_eligible locked now bs d = is_due now d && has_webhook bs d.agent_id && not (locked d.id)

-- ORDER BY due.next_attempt_at
abbrev pub due_before : Delivery → Delivery → Bool
due_before c d = leb c.next_attempt_at d.next_attempt_at

-- ORDER BY due.id
abbrev pub id_before : Delivery → Delivery → Bool
id_before c d = leb c.id d.id

unfoldable pub claim_due_webhook_deliveries :
    (ℕ → Bool) → ℕ → ℕ → List Binding → List Delivery → List Delivery × List Delivery
unfolding claim picked
claim_due_webhook_deliveries locked now n bs rows =
    claim (webhook_eligible locked now bs) due_before now n rows

abbrev pub socket_eligible : (ℕ → Bool) → ℕ → ℕ → List Binding → Delivery → Bool
socket_eligible locked now agent bs d =
    d.agent_id == agent && is_due now d && has_socket bs d.agent_id && not (locked d.id)

pub claim_due_socket_deliveries :
    (ℕ → Bool) → ℕ → ℕ → ℕ → List Binding → List Delivery → List Delivery × List Delivery
unfolding claim picked
claim_due_socket_deliveries locked now agent n bs rows =
    claim (socket_eligible locked now agent bs) id_before now n rows

-- id = $1 AND status = 'pending'
abbrev pub is_open : ℕ → Delivery → Bool
is_open i d = d.id == i && is_pending d.status

abbrev pub deliver : ℕ → Delivery → Delivery
deliver now d = record d { status = delivered; delivered_at = some now; last_error = none }

abbrev pub fail_with : Text → Delivery → Delivery
fail_with reason d = record d { status = failed; last_error = some reason }

abbrev pub retry_at : ℕ → Text → Delivery → Delivery
retry_at t reason d = record d { next_attempt_at = t; last_error = some reason }

-- id = $1 AND agent_id = $2 AND status = 'pending'
abbrev pub is_own : ℕ → ℕ → Delivery → Bool
is_own i agent d = d.id == i && d.agent_id == agent && is_pending d.status

-- `RETURNING message_id`, of the row that was changed, if one was.
abbrev pub returned : Option Delivery → Option (Option ℕ)
returned none = none
returned (some d) = some d.message_id

-- The rows after, and what was returned.
unfoldable pub ack_delivery : ℕ → ℕ → ℕ → List Delivery → List Delivery × Option (Option ℕ)
ack_delivery now i agent rows =
    (update (is_own i agent) (deliver now) rows, returned (find? (is_own i agent) rows))

unfoldable pub mark_delivered : ℕ → ℕ → List Delivery → List Delivery
mark_delivered now i = update (is_open i) (deliver now)

unfoldable pub schedule_retry : ℕ → ℕ → Text → List Delivery → List Delivery
schedule_retry i t reason = update (is_open i) (retry_at t reason)

unfoldable pub mark_failed : ℕ → Text → List Delivery → List Delivery
mark_failed i reason = update (is_open i) (fail_with reason)

-- `GetDelivery`
abbrev pub get_delivery : ℕ → List Delivery → Option Delivery
get_delivery i = find? (λ d. d.id == i)

-- status = 'pending' AND created_at < now() - interval '24 hours'
abbrev pub is_expired : ℕ → Delivery → Bool
is_expired now d = is_pending d.status && ltb (d.created_at + 24 * hour) now

unfoldable pub fail_expired_deliveries : ℕ → List Delivery → List Delivery × ℕ
fail_expired_deliveries now rows =
    (update (is_expired now) (fail_with (codes "expired")) rows, count (is_expired now) rows)

abbrev pub is_unbound : List Binding → Delivery → Bool
is_unbound bs d = is_pending d.status && not (has_binding bs d.agent_id)

pub fail_unbound_deliveries : List Binding → List Delivery → List Delivery × ℕ
fail_unbound_deliveries bs rows =
    (update (is_unbound bs) (fail_with (codes "no_binding")) rows, count (is_unbound bs) rows)

-- agent_id = $1 AND ($2 IS NULL OR id > $2)
abbrev pub is_since : ℕ → Option ℕ → Delivery → Bool
is_since agent since d = d.agent_id == agent && elim since [ none ↦ true | some s ↦ ltb s d.id ]

pub list_deliveries_since : ℕ → Option ℕ → ℕ → List Delivery → List Delivery
list_deliveries_since agent since n rows =
    take n (sort_by id_before (filter (is_since agent since) rows))

-- status <> 'pending' AND COALESCE(delivered_at, created_at) < $1
abbrev pub is_finished : ℕ → Delivery → Bool
is_finished before d =
    not (is_pending d.status)
    && ltb (elim d.delivered_at [ none ↦ d.created_at | some t ↦ t ]) before

unfoldable pub delete_finished_deliveries : ℕ → List Delivery → List Delivery
delete_finished_deliveries before rows = filter (λ d. not (is_finished before d)) rows

abbrev pub is_about : List ℕ → Delivery → Bool
is_about messages d = elim d.message_id [ none ↦ false | some m ↦ is_in m messages ]

-- What `DeleteMessagesByIDs` takes with it: ON DELETE CASCADE.
unfoldable pub delete_with_messages : List ℕ → List Delivery → List Delivery
delete_with_messages messages rows = filter (λ d. not (is_about messages d)) rows
