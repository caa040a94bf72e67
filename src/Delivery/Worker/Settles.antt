-- ===== src/Delivery/Worker/Settles.antt =====
-- What one attempt leaves behind.
use cuckoo.Base.{
  false, Bool-cases, ℕ, ◌+◌, ◌*◌, ◌<◌, All₂, All₂-update, All₂-refl, ◌≤◌, ◌≡◌, refl, ◌⊎◌, inl, inr,
  true, Option, none, some, List, [], ◌∷◌, arith, Option-cases, length, length-take-le, update,
  ◌++◌,
}
use cuckoo.Base.Text.{codes, codes, Text}
use cuckoo.Agents.Bindings.{Endpoint, Mode, webhook, socket}
use cuckoo.Delivery.Schedule.{next_attempt, next_attempt_lem, second, hour, retry_for}
use cuckoo.Delivery.Outbox.{
  Delivery, is_open, deliver, fail_with, retry_at, mark_delivered, mark_failed, schedule_retry,
}
use cuckoo.Delivery.Outbox.Moves.{
  Advance, Advance-refl, Advance-trans, mark_delivered-Advance, mark_failed-Advance,
  schedule_retry-Advance,
}
use cuckoo.Delivery.Worker.{
  Tables, Attempt, truncate, last_error_max_len, record_attempt, record_all, settle_with, settle_at,
  settle_called, settle_delivered, settle_refused, settle_failed,
}

length-truncate : (s : Text) (n : ℕ) → length (truncate s n) ≤ n
unfolding truncate
length-truncate s n = ground (arith, length-take-le n s)

settle_refused-Advance :
    (now : ℕ) (d : Delivery) (reason : Text) (t : Tables)
    → Advance t.deliveries (settle_refused now d reason t).0.deliveries
unfolding settle_refused
settle_refused-Advance now d reason t =
    elim (Option-cases (next_attempt d.attempts d.created_at now)) [
      | inl e ↦ rw (e, settle_refused) (mark_failed-Advance d.id _ t.deliveries)
      | inr (next, e) ↦
          rw (e, settle_refused) (schedule_retry-Advance d.id next reason t.deliveries)
    ]

settle_at-Advance :
    (now : ℕ) (d : Delivery) (ep : Endpoint) (m : Mode) (error : Option Text) (t : Tables)
    → Advance t.deliveries (settle_at now d ep m error t).0.deliveries
settle_at-Advance now d ep socket error t = unfold settle_at in Advance-refl t.deliveries
settle_at-Advance now d ep webhook none t =
    unfold settle_at settle_called settle_delivered in mark_delivered-Advance now d.id t.deliveries
settle_at-Advance now d ep webhook (some error) t =
    unfold settle_at in settle_refused-Advance now d _ _

pub record_attempt-Advance :
    (now : ℕ) (a : Attempt) (t : Tables)
    → Advance t.deliveries (record_attempt now a t).0.deliveries
unfolding record_attempt
record_attempt-Advance now a t = go a.endpoint
  where
    go :
        (o : Option Endpoint)
        → Advance t.deliveries (settle_with now a.delivery o a.error t).0.deliveries
    go none = mark_failed-Advance a.delivery.id _ t.deliveries
    go (some ep) = settle_at-Advance now a.delivery ep ep.mode a.error t

pub record_all-Advance :
    (now : ℕ) (attempts : List Attempt) (t : Tables)
    → Advance t.deliveries (record_all now attempts t).0.deliveries
unfolding record_all
record_all-Advance now [] t = Advance-refl t.deliveries
record_all-Advance now (a ∷ rest) t =
    Advance-trans t.deliveries _ _ (record_attempt-Advance now a t)
      (record_all-Advance now rest (record_attempt now a t).0)

-- The attempt called a webhook, which answered so.
abbrev pub Called : Attempt → Option Text → Type 0
Called a error = (ep : Endpoint) × (a.endpoint ≡ some ep) × (ep.mode ≡ webhook) × (a.error ≡ error)

-- The reason that a row has when no retry is left.
abbrev pub exhausted : Text → Text
exhausted error =
    truncate (codes "exhausted: " ++ truncate error last_error_max_len) last_error_max_len

-- How an attempt leaves the row that it is about. A call that was answered delivers it now; one
-- that was refused comes due at the time that the schedule gives, between a second and an hour away and inside
-- the event's day, or, where the schedule gives none, fails the row in its last hour; an agent with no backend
-- fails it, and a socket is not called. A reason is never over long.
pub data Outcome (now : ℕ) (a : Attempt) (d e : Delivery) : Type 0 where
  answered : Called a none → e ≡ deliver now d → Outcome now a d e
  again :
      (t : ℕ) (error : Text)
      → Called a (some error)
      → next_attempt a.delivery.attempts a.delivery.created_at now ≡ some t
      → e ≡ retry_at t (truncate error last_error_max_len) d
      → now + second ≤ t
      → t ≤ now + hour
      → t ≤ a.delivery.created_at + retry_for
      → length (truncate error last_error_max_len) ≤ last_error_max_len
      → Outcome now a d e
  gave_up :
      (error : Text)
      → Called a (some error)
      → next_attempt a.delivery.attempts a.delivery.created_at now ≡ none
      → e ≡ fail_with (exhausted error) d
      → a.delivery.created_at + 23 * hour < now
      → length (exhausted error) ≤ last_error_max_len
      → Outcome now a d e
  unbound :
      a.endpoint ≡ none
      → e ≡ fail_with (truncate (codes "no_binding") last_error_max_len) d
      → Outcome now a d e
  not_called : (ep : Endpoint) → a.endpoint ≡ some ep → ep.mode ≡ socket → e ≡ d → Outcome now a d e

-- A row that is pending under the attempt's key has an outcome; every other row is as it was.
abbrev pub Settled : ℕ → Attempt → Delivery → Delivery → Type 0
Settled now a d e =
    ((is_open a.delivery.id d ≡ false) × (e ≡ d))
    ⊎ ((is_open a.delivery.id d ≡ true) × Outcome now a d e)

Settled-by :
    (now : ℕ) (a : Attempt) (f : Delivery → Delivery)
    → ((d : Delivery) → Outcome now a d (f d))
    → (rows : List Delivery) → All₂ (Settled now a) rows (update (is_open a.delivery.id) f rows)
Settled-by now a f h rows =
    All₂-update (Settled now a) (is_open a.delivery.id) f (λ d e. inr (e, h d))
      (λ d e. inl (e, refl)) rows

refused_settles :
    (now : ℕ) (a : Attempt) (error : Text) (t : Tables)
    → Called a (some error)
    → All₂
        (Settled now a)
        t.deliveries
        (settle_refused now a.delivery (truncate error last_error_max_len) t).0.deliveries
unfolding settle_refused mark_failed schedule_retry
refused_settles now a error t called =
    let lem = next_attempt_lem a.delivery.attempts a.delivery.created_at now in
    elim (Option-cases (next_attempt a.delivery.attempts a.delivery.created_at now)) [
      | inl e ↦
          rw (e, settle_refused)
            (Settled-by now a _
              (λ d. gave_up error called e refl (lem.1 e) (length-truncate _ last_error_max_len))
              t.deliveries)
      | inr (next, e) ↦
          let window = lem.0 next e in
          rw (e, settle_refused)
            (Settled-by now a _
              (λ d.
                again next error called e refl window.0 window.1 window.2
                  (length-truncate error last_error_max_len))
              t.deliveries)
    ]

not_called_settles :
    (now : ℕ) (a : Attempt) (ep : Endpoint)
    → a.endpoint ≡ some ep
    → ep.mode ≡ socket
    → (rows : List Delivery) → All₂ (Settled now a) rows rows
not_called_settles now a ep at mode rows =
    All₂-refl (Settled now a)
      (λ d. elim (Bool-cases (is_open a.delivery.id d)) [
        | inl e ↦ inr (e, not_called ep at mode refl)
        | inr e ↦ inl (e, refl)
      ])
      rows

called_settles :
    (now : ℕ) (a : Attempt) (ep : Endpoint) (error : Option Text) (m : Mode) (t : Tables)
    → a.endpoint ≡ some ep
    → ep.mode ≡ m
    → a.error ≡ error
    → All₂ (Settled now a) t.deliveries (settle_at now a.delivery ep m error t).0.deliveries
unfolding settle_at settle_called settle_delivered mark_delivered
called_settles now a ep error socket t at mode e = not_called_settles now a ep at mode t.deliveries
called_settles now a ep none webhook t at mode e =
    Settled-by now a (deliver now) (λ d. answered (ep, at, mode, e) refl) t.deliveries
called_settles now a ep (some error) webhook t at mode e =
    refused_settles now a error (record t { bindings = _ }) (ep, at, mode, e)

settle_with-Settled :
    (now : ℕ) (a : Attempt) (o : Option Endpoint) (t : Tables)
    → a.endpoint ≡ o
    → All₂ (Settled now a) t.deliveries (settle_with now a.delivery o a.error t).0.deliveries
unfolding settle_with settle_failed mark_failed
settle_with-Settled now a none t e = Settled-by now a _ (λ d. unbound e refl) t.deliveries
settle_with-Settled now a (some ep) t e = called_settles now a ep a.error ep.mode t e refl refl

-- One attempt changes only the pending rows under its key, and each as the attempt went: delivered
-- if the webhook was called and answered; if it was called and refused, due again at the time that
-- the schedule gives, inside the event's day and a second to an hour away, under the reason cut to
-- its limit, or failed as exhausted, under a reason inside the limit, where the schedule gives no
-- time, in the event's last hour; failed as not bound if the agent has no backend; and as it was
-- if its backend takes no calls.
pub record_attempt-Settled :
    (now : ℕ) (a : Attempt) (t : Tables)
    → All₂ (Settled now a) t.deliveries (record_attempt now a t).0.deliveries
unfolding record_attempt
record_attempt-Settled now a t = settle_with-Settled now a a.endpoint t refl
