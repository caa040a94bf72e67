-- ===== src/Delivery/Examples.antt =====
-- An agent with a webhook, another with a socket, and three events owed to them.
use cuckoo.Base.{
  if◌then◌else◌, ℕ, ◌+◌, ◌*◌, ◌≤◌, ◌<◌, ◌≡◌, ◌≢◌, refl, ◌⊎◌, inl, inr, Bool, true, false, Option,
  none, some, List, [], ◌∷◌, arith, All, All₂, length, min, count, map,
}
use cuckoo.Base.Keys.{is_in}
use cuckoo.Base.Text.{Text, codes}
use cuckoo.Domain.Errors.{Result, ok}
use cuckoo.Delivery.Outbox.Returns.{pending_returns}
use cuckoo.Agents.Bindings.{Binding, webhook, socket, new_binding}
use cuckoo.Delivery.Schedule.{next_attempt, next_attempt_lem, second, hour, retry_for}
use cuckoo.Delivery.Outbox.{
  delete_finished_deliveries, is_pending, claim_due_webhook_deliveries, create_delivery,
  schedule_retry, schedule_retry, Delivery, new_delivery, pending, message_created,
  conversation_joined, is_due, lease_for, picked, picked_rows, claim, webhook_eligible, due_before,
  id_before,
}
use cuckoo.Delivery.Outbox.Claims.{IsKeyed, ids}
use cuckoo.Delivery.Outbox.Fairness.{is_retried, claim_exclusive}
use cuckoo.Delivery.Outbox.Moves.{Advance, Advance-refl}
use cuckoo.Base.Sorting.{IsSorted}
use cuckoo.Delivery.Outbox.{
  deliver, is_since, list_deliveries_since, get_delivery, fail_expired_deliveries,
}
use cuckoo.Delivery.Outbox.Histories.{settled_for_good, deletes_any}
use cuckoo.Delivery.Outbox.Writes.{
  Writes, done, next, changed, created, swept, acknowledged, expired, retried, claimed_webhooks,
}
use cuckoo.Delivery.Outbox.Paging.{list_deliveries_since_lem}
use cuckoo.Delivery.Outbox.{ack_delivery, fail_with}
use cuckoo.Delivery.Worker.{
  before_claim, Clocks, Tables, Attempt, claim_batch, record_attempt, run_once,
}
use cuckoo.Delivery.Worker.Settles.{Settled, record_attempt-Settled}
use cuckoo.Delivery.Worker.Passes.{run_once-Advance}
use cuckoo.Delivery.Worker.Fit.{IsFit, claim_batch-IsFit}
use cuckoo.Delivery.Service.{World, Envelope, new_message, envelopes, ack}

abbrev bindings : List Binding
bindings =
    new_binding 7 30 webhook (some (codes "https://a.example/hook")) 99
    ∷ new_binding 8 31 socket none 98
    ∷ []

abbrev hello : Delivery
hello = new_delivery 0 1 (some 90) 20 30 message_created [] pending none

abbrev joined_row : Delivery
joined_row = new_delivery 0 2 none 20 30 conversation_joined (codes "{}") pending none

abbrev other_row : Delivery
other_row = new_delivery 3 3 (some 91) 21 31 message_created [] pending none

abbrev rows : List Delivery
rows = hello ∷ joined_row ∷ other_row ∷ []

abbrev tables : Tables
tables = record { deliveries = rows; bindings = bindings }

rows-IsKeyed : IsKeyed rows
rows-IsKeyed = ground arith

abbrev unlocked : ℕ → Bool
unlocked i = false

claimed_two :
    (claim (webhook_eligible unlocked 5 bindings) due_before 5 20 rows).1
    ≡ (record hello { attempts = 1; next_attempt_at = 5 + lease_for })
      ∷ (record joined_row { attempts = 1; next_attempt_at = 5 + lease_for })
      ∷ []
unfolding claim picked cuckoo.Base.Sorting.sort_by cuckoo.Delivery.Outbox.has_webhook
claimed_two = refl

abbrev both_claimed : List Delivery
both_claimed = (claim (webhook_eligible unlocked 5 bindings) due_before 5 20 rows).0

first_claimed :
    is_in 1 (ids (claim (webhook_eligible unlocked 5 bindings) due_before 5 20 rows).1) ≡ true
unfolding claim picked cuckoo.Base.Sorting.sort_by cuckoo.Delivery.Outbox.has_webhook
first_claimed = refl

abbrev retried_rows : List Delivery
retried_rows = schedule_retry 1 (6 + second) [] both_claimed

claimed_again :
    is_in 1 (
      ids
        (claim
          (webhook_eligible unlocked (9 * second) bindings)
          due_before
          (9 * second)
          20
          retried_rows).1)
    ≡ true
unfolding claim picked cuckoo.Base.Sorting.sort_by cuckoo.Delivery.Outbox.has_webhook schedule_retry
claimed_again = refl

abbrev one_retry : Writes (ids rows) both_claimed retried_rows
one_retry = next (changed (retried 1 (6 + second) [])) done

-- Claimed, refused and put off by a second, and claimed again nine seconds after the first claim.
claim_exclusive_example : is_retried 1 one_retry ≡ true
claim_exclusive_example =
    claim_exclusive (webhook_eligible unlocked 5 bindings)
      (webhook_eligible unlocked (9 * second) bindings) due_before due_before 5 (9 * second) 20 20 1
      rows retried_rows rows-IsKeyed (λ d e. ground arith) (omega arith) one_retry first_claimed
      claimed_again

-- One event is made, claimed, and put off after a refusal.
abbrev made : List Delivery
made = create_delivery (new_delivery 0 1 (some 90) 20 30 message_created [] pending none) []

abbrev made_claimed : List Delivery
made_claimed = (claim_due_webhook_deliveries unlocked 5 20 bindings made).0

planned_retry : next_attempt 1 0 6 ≡ some (6 + second)
unfolding next_attempt cuckoo.Delivery.Schedule.delay_after
planned_retry = refl

abbrev life : Writes [] [] (schedule_retry 1 (6 + second) [] made_claimed)
life = next (created 0 1 (some 90) 20 30 message_created [] pending none refl refl) (
    next (changed (claimed_webhooks unlocked 5 20 bindings))
      (next (changed (retried 1 (6 + second) [])) done))

pending_returns_example :
    All
      (λ d. is_pending d.status ≡ true → is_due (6 + hour) d ≡ true)
      (schedule_retry 1 (6 + second) [] made_claimed)
pending_returns_example =
    pending_returns 6 [] (schedule_retry 1 (6 + second) [] made_claimed) life
      ((omega arith), ((omega arith), ((1, 0, 6, planned_retry, (omega arith)), tt)))

abbrev refused : Attempt
refused = record {
  delivery = hello;
  endpoint = some (record { binding_id = 7; mode = webhook; webhook_url = []; signing_key = 99 });
  error = some (codes "backend returned 500");
}

record_attempt-Settled_example :
    All₂ (Settled 10 refused) rows (record_attempt 10 refused tables).0.deliveries
record_attempt-Settled_example = record_attempt-Settled 10 refused tables

abbrev keys_only : List Delivery → Result (List ℕ)
keys_only ds = ok (map (λ d. d.id) ds)

-- Nothing else is written between the statements of a pass.
abbrev clocks : Clocks
clocks = record { expiring = 5; claiming = 6; then_written = λ u. u; next_written = λ u. u }

run_once-Advance_example :
    Advance rows (run_once unlocked keys_only (λ ep e. none) (λ u. u) clocks 10 tables).0.deliveries
run_once-Advance_example =
    run_once-Advance unlocked keys_only (λ ep e. none) (λ u. u) clocks 10 tables rows-IsKeyed
      (λ u. Advance-refl u.deliveries) (λ u. Advance-refl u.deliveries)
      (λ u. Advance-refl u.deliveries)

abbrev welcome : Delivery
welcome = new_delivery 6 5 (some 92) 20 30 message_created [] pending none

-- An event is made between the first two statements of the pass, and one is acknowledged after.
abbrev busy_clocks : Clocks
busy_clocks = record {
  expiring = 5;
  claiming = 7;
  then_written = λ u. record u { deliveries = create_delivery welcome u.deliveries };
  next_written = λ u. record u { deliveries = (ack_delivery 6 1 30 u.deliveries).0 };
}

claim_batch-IsFit_example :
    All
      (IsFit 5 (before_claim busy_clocks tables).bindings)
      (claim_batch unlocked busy_clocks tables).1
unfolding before_claim cuckoo.Delivery.Worker.fail_expired cuckoo.Delivery.Worker.fail_unbound
    fail_expired_deliveries
claim_batch-IsFit_example =
    claim_batch-IsFit unlocked busy_clocks tables [] [] rows-IsKeyed
      (next (created 6 5 (some 92) 20 30 message_created [] pending none refl refl) done)
      ((omega arith), tt) (next (changed (acknowledged 6 1 30)) done) tt

next_attempt_lem_example :
    ((t : ℕ)
      → next_attempt 2 0 hour ≡ some t
      → (hour + second ≤ t) × (t ≤ hour + hour) × (t ≤ 0 + retry_for))
    × (next_attempt 2 0 hour ≡ none → 0 + 23 * hour < hour)
    × ((later t u : ℕ)
        → 2 ≤ later
        → next_attempt 2 0 hour ≡ some t
        → next_attempt later 0 hour ≡ some u
        → t ≤ u)
next_attempt_lem_example = next_attempt_lem 2 0 hour

-- Messages and conversations that are their own keys, and payloads that are their own meaning.
abbrev world : World
world = record {
  Message = ℕ;
  Conversation = ℕ;
  Joined = Text;
  Left = Text;
  Stop = Text;
  Schedule = Text;
  message = λ i. some i;
  conversation = λ i. some i;
  joined = λ t. some t;
  left = λ t. some t;
  stop = λ t. some t;
  schedule = λ t. some t;
}

abbrev hello_envelope : Envelope world
hello_envelope = record {
  id = 1;
  created_at = 0;
  agent_id = 30;
  conversation = 20;
  content = new_message 90;
}

hello_read : envelopes world (hello ∷ []) ≡ ok (hello_envelope ∷ [])
unfolding envelopes cuckoo.Delivery.Service.envelope_of
hello_read = refl

hello_acked : (ack 10 30 1 rows).1 ≡ true
unfolding ack cuckoo.Delivery.Outbox.ack_delivery
hello_acked = refl

list_deliveries_since_lem_example :
    let page = list_deliveries_since 30 none 1 rows in
    (length page ≡ min 1 (count (is_since 30 none) rows))
    × IsKeyed page
    × All (λ c. get_delivery c.id rows ≡ some c) page
    × IsSorted id_before page
    × All (λ c. is_since 30 none c ≡ true) page
    × All
        (λ d.
          is_since 30 none d ≡ true → (is_in d.id (ids page) ≡ true) ⊎ All (λ c. c.id ≤ d.id) page)
        rows
list_deliveries_since_lem_example = list_deliveries_since_lem 30 none 1 rows rows-IsKeyed

abbrev hello_done : Delivery
hello_done = deliver 10 hello

abbrev done_rows : List Delivery
done_rows = hello_done ∷ joined_row ∷ other_row ∷ []

abbrev swept_rows : List Delivery
swept_rows =
    delete_finished_deliveries hour
      (fail_expired_deliveries (25 * hour) (ack_delivery 12 1 30 done_rows).0).0

-- Acknowledged again, then the day passes, and the sweep deletes what ended in the first hour.
abbrev ending : Writes (ids done_rows) done_rows swept_rows
ending =
    next (changed (acknowledged 12 1 30))
      (next (changed (expired (25 * hour))) (next (swept hour) done))

settled_for_good_example :
    get_delivery 1 swept_rows ≡ (if deletes_any ending hello_done then none else some hello_done)
settled_for_good_example =
    settled_for_good 1 hello_done done_rows swept_rows (ground arith) refl refl ending
