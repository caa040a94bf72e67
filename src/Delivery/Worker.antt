-- ===== src/Delivery/Worker.antt =====
-- delivery/worker.go: one pass of the webhook worker. The database work before the calls and after
-- them are two functions of the tables: between them, while no connection is held, others may write.
-- The texts are bytes here, since `truncate` cuts bytes.
pub mod Settles
pub mod Passes
pub mod Fit
use cuckoo.Base.{
  ℕ, Bool, true, false, Option, none, some, List, [], ◌∷◌, ◌++◌, map, leb, if◌then◌else◌, length,
  take,
}
use cuckoo.Base.Text.{Text, codes}
use cuckoo.Domain.Errors.{Result, ok, err}
use cuckoo.Agents.Bindings.{
  Binding, Endpoint, Mode, webhook, socket, News, active_endpoint, record_delivery_success,
  record_delivery_failure,
}
use cuckoo.Delivery.Schedule.{next_attempt}
use cuckoo.Delivery.Outbox.{
  Delivery, claim_due_webhook_deliveries, mark_delivered, mark_failed, schedule_retry,
  fail_expired_deliveries, fail_unbound_deliveries,
}

abbrev pub batch_size : ℕ
batch_size = 20

abbrev pub last_error_max_len : ℕ
last_error_max_len = 500

-- s[:n] where it is longer.
pub truncate : Text → ℕ → Text
truncate s n = if leb (length s) n then s else take n s

-- What the pass writes to.
pub record Tables : Type 0 where
  pub deliveries : List Delivery
  pub bindings : List Binding

-- What the pass tells others: the message whose tick mark moved, and a binding's new status.
pub record Notices : Type 0 where
  pub tick : Option ℕ
  pub news : News

-- One delivery's journey through a pass. `endpoint` is `none` when the agent has no live binding;
-- `error` is what the call answered, `none` for an acknowledgement.
pub record Attempt : Type 0 where
  pub delivery : Delivery
  pub endpoint : Option Endpoint
  pub error : Option Text

-- `sendAll`, one attempt: only a webhook is called. What the backend answers is the caller's.
pub send_one :
    {Envelope : Type 0}
    → (Endpoint → Envelope → Option Text)
    → Delivery
    → Envelope
    → Option Endpoint
    → Attempt
send_one post d e none = record { delivery = d; endpoint = none; error = none }
send_one post d e (some ep) = record {
  delivery = d;
  endpoint = some ep;
  error = elim ep.mode [ webhook ↦ post ep e | socket ↦ none ];
}

-- `markFailed` with `tickChanged`.
settle_failed : Delivery → Text → Tables → Tables × Notices
settle_failed d reason t = (
  record t { deliveries = mark_failed d.id (truncate reason last_error_max_len) t.deliveries },
  record { tick = d.message_id; news = none },
)

settle_delivered : ℕ → Delivery → Endpoint → Tables → Tables × Notices
settle_delivered now d ep t =
    let (bindings', news) = record_delivery_success now ep.binding_id t.bindings in
    (
      record t { deliveries = mark_delivered now d.id t.deliveries; bindings = bindings' },
      record { tick = d.message_id; news = news },
    )

-- What is done with the row after a refused call: try again, or give up.
settle_refused : ℕ → Delivery → Text → Tables → Tables × Notices
unfolding settle_failed
settle_refused now d reason t = elim (next_attempt d.attempts d.created_at now) [
  | none ↦ settle_failed d (codes "exhausted: " ++ reason) t
  | some next ↦ (
    record t { deliveries = schedule_retry d.id next reason t.deliveries },
    record { tick = none; news = none },
  )
]

settle_called : ℕ → Delivery → Endpoint → Option Text → Tables → Tables × Notices
unfolding settle_delivered settle_refused
settle_called now d ep none t = settle_delivered now d ep t
settle_called now d ep (some error) t =
    let (bindings', news) = record_delivery_failure now ep.binding_id t.bindings in
    let (t', notices) =
      settle_refused now d (truncate error last_error_max_len)
        (record t { bindings = bindings' }) in
    (t', record notices { news = news })

settle_at : ℕ → Delivery → Endpoint → Mode → Option Text → Tables → Tables × Notices
unfolding settle_called
settle_at now d ep webhook error t = settle_called now d ep error t
settle_at now d ep socket error t = (t, record { tick = none; news = none })

-- `record`, the outcome of one attempt.
settle_with : ℕ → Delivery → Option Endpoint → Option Text → Tables → Tables × Notices
unfolding settle_at settle_failed
settle_with now d none error t = settle_failed d (codes "no_binding") t
settle_with now d (some ep) error t = settle_at now d ep ep.mode error t

pub record_attempt : ℕ → Attempt → Tables → Tables × Notices
unfolding settle_with
record_attempt now a t = settle_with now a.delivery a.endpoint a.error t

pub record_all : ℕ → List Attempt → Tables → Tables × List Notices
record_all now [] t = (t, [])
record_all now (a ∷ rest) t =
    let (t', n) = record_attempt now a t in let (t'', ns) = record_all now rest t' in (t'', n ∷ ns)

-- The clocks of the three statements before the calls, and what other transactions write in between: after
-- the old rows have failed, and after the unbound ones have.
pub record Clocks : Type 0 where
  pub expiring : ℕ
  pub claiming : ℕ
  pub then_written : Tables → Tables
  pub next_written : Tables → Tables

-- `FailExpiredDeliveries` and `FailUnboundDeliveries`, each a statement of its own.
unfoldable pub fail_expired : ℕ → Tables → Tables
fail_expired now t = record t { deliveries = (fail_expired_deliveries now t.deliveries).0 }

unfoldable pub fail_unbound : Tables → Tables
fail_unbound t = record t { deliveries = (fail_unbound_deliveries t.bindings t.deliveries).0 }

-- The tables when the batch is claimed.
unfoldable pub before_claim : Clocks → Tables → Tables
before_claim k t = k.next_written (fail_unbound (k.then_written (fail_expired k.expiring t)))

pub claim_due : (ℕ → Bool) → ℕ → Tables → Tables × List Delivery
claim_due locked now t =
    let (after, claimed) =
      claim_due_webhook_deliveries locked now batch_size t.bindings t.deliveries in
    (record t { deliveries = after }, claimed)

-- The writes before the calls: what can no longer be delivered fails, and a batch is claimed.
pub claim_batch : (ℕ → Bool) → Clocks → Tables → Tables × List Delivery
unfolding before_claim fail_expired fail_unbound claim_due
claim_batch locked k t = claim_due locked k.claiming (before_claim k t)

-- Where each goes, read once per attempt, and what each answered. There is an envelope for each.
pub send_all :
    {Envelope : Type 0}
    → (Endpoint → Envelope → Option Text)
    → List Binding
    → List Delivery
    → List Envelope
    → List Attempt
unfolding send_one
send_all post bs [] es = []
send_all post bs (d ∷ ds) [] = []
send_all post bs (d ∷ ds) (e ∷ es) =
    send_one post d e (active_endpoint d.agent_id bs) ∷ send_all post bs ds es

-- After the envelopes: the calls, then the outcomes. `meanwhile` is what other transactions write
-- during the calls, and `later` is the clock when the outcomes are recorded.
send_and_record :
    {Envelope : Type 0}
    → (Endpoint → Envelope → Option Text)
    → (Tables → Tables)
    → ℕ
    → List Delivery
    → Result (List Envelope)
    → Tables
    → Tables × Result ℕ
unfolding send_all
send_and_record post meanwhile later claimed (err e) t = (t, err e)
send_and_record post meanwhile later claimed (ok envelopes) t =
    let attempts = send_all post t.bindings claimed envelopes in
    ((record_all later attempts (meanwhile t)).0, ok (length attempts))

-- An empty claim ends the pass at once. `render` is the service's `envelopes`; where it fails the
-- pass ends, and what was claimed stays leased.
run_claimed :
    {Envelope : Type 0}
    → (List Delivery → Result (List Envelope))
    → (Endpoint → Envelope → Option Text)
    → (Tables → Tables)
    → ℕ
    → List Delivery
    → Tables
    → Tables × Result ℕ
unfolding send_and_record
run_claimed render post meanwhile later [] t = (t, ok 0)
run_claimed render post meanwhile later (d ∷ ds) t =
    send_and_record post meanwhile later (d ∷ ds) (render (d ∷ ds)) t

-- `RunOnce`: how many were attempted.
pub run_once :
    {Envelope : Type 0}
    → (ℕ → Bool)
    → (List Delivery → Result (List Envelope))
    → (Endpoint → Envelope → Option Text)
    → (Tables → Tables)
    → Clocks
    → ℕ
    → Tables
    → Tables × Result ℕ
unfolding run_claimed
run_once locked render post meanwhile k later t =
    let (t', claimed) = claim_batch locked k t in run_claimed render post meanwhile later claimed t'
