-- ===== src/Delivery/Worker/Passes.antt =====
-- One whole pass: it moves every row forwards only, if what others write meanwhile does.
use cuckoo.Base.{ℕ, sym, subst, Bool, Option, List, [], ◌∷◌, arith, Distinct}
use cuckoo.Base.Text.{Text}
use cuckoo.Domain.Errors.{Result, ok, err}
use cuckoo.Agents.Bindings.{Endpoint}
use cuckoo.Delivery.Outbox.{Delivery, claim_due_webhook_deliveries, webhook_eligible, due_before}
use cuckoo.Delivery.Outbox.Claims.{IsKeyed}
use cuckoo.Delivery.Outbox.Moves.{
  Advance, Advance-refl, Advance-trans, Advance-ids, claim-Advance, fail_expired-Advance,
  fail_unbound-Advance,
}
use cuckoo.Delivery.Worker.{
  Clocks, fail_expired, fail_unbound, before_claim, claim_due, Tables, batch_size, claim_batch,
  send_all, send_and_record, run_claimed, run_once,
}
use cuckoo.Delivery.Worker.Settles.{record_all-Advance}

-- Others move rows forwards only.
abbrev pub Forwards : (Tables → Tables) → Type 0
Forwards f = (u : Tables) → Advance u.deliveries (f u).deliveries

before_claim-Advance :
    (k : Clocks) (t : Tables)
    → Forwards k.then_written
    → Forwards k.next_written
    → Advance t.deliveries (before_claim k t).deliveries
unfolding before_claim fail_expired fail_unbound
before_claim-Advance k t first second =
    let kept = fail_expired k.expiring t in
    let others = k.then_written kept in
    let bound = fail_unbound others in
    Advance-trans t.deliveries kept.deliveries _ (fail_expired-Advance k.expiring t.deliveries) (
      Advance-trans kept.deliveries others.deliveries _ (first kept) (
        Advance-trans others.deliveries bound.deliveries _
          (fail_unbound-Advance others.bindings others.deliveries) (second bound)))

before_claim-IsKeyed :
    (k : Clocks) (t : Tables)
    → IsKeyed t.deliveries
    → Forwards k.then_written
    → Forwards k.next_written
    → IsKeyed (before_claim k t).deliveries
before_claim-IsKeyed k t keyed first second =
    subst Distinct
      (sym (
        Advance-ids t.deliveries (before_claim k t).deliveries
          (before_claim-Advance k t first second)))
      keyed

claim_batch-Advance :
    (locked : ℕ → Bool) (k : Clocks) (t : Tables)
    → IsKeyed t.deliveries
    → Forwards k.then_written
    → Forwards k.next_written
    → Advance t.deliveries (claim_batch locked k t).0.deliveries
unfolding claim_batch claim_due claim_due_webhook_deliveries
claim_batch-Advance locked k t keyed first second =
    let u = before_claim k t in
    Advance-trans t.deliveries u.deliveries _ (before_claim-Advance k t first second) (
      claim-Advance (webhook_eligible locked k.claiming u.bindings) due_before k.claiming batch_size
        u.deliveries (before_claim-IsKeyed k t keyed first second) (λ d e. ground arith))

sent_Advance :
    {Envelope : Type 0} (post : Endpoint → Envelope → Option Text) (meanwhile : Tables → Tables)
    (later : ℕ) (claimed : List Delivery) (r : Result (List Envelope)) (t : Tables)
    → ((u : Tables) → Advance u.deliveries (meanwhile u).deliveries)
    → Advance t.deliveries (send_and_record post meanwhile later claimed r t).0.deliveries
unfolding send_and_record
sent_Advance post meanwhile later claimed (err e) t others = Advance-refl t.deliveries
sent_Advance post meanwhile later claimed (ok envelopes) t others =
    Advance-trans t.deliveries _ _ (others t)
      (record_all-Advance later (send_all post t.bindings claimed envelopes) (meanwhile t))

claimed_Advance :
    {Envelope : Type 0} (render : List Delivery → Result (List Envelope))
    (post : Endpoint → Envelope → Option Text) (meanwhile : Tables → Tables) (later : ℕ)
    (claimed : List Delivery) (t : Tables)
    → ((u : Tables) → Advance u.deliveries (meanwhile u).deliveries)
    → Advance t.deliveries (run_claimed render post meanwhile later claimed t).0.deliveries
claimed_Advance render post meanwhile later [] t others =
    unfold run_claimed in Advance-refl t.deliveries
claimed_Advance render post meanwhile later (d ∷ ds) t others =
    unfold run_claimed in sent_Advance post meanwhile later (d ∷ ds) (render (d ∷ ds)) t others

-- A pass of the webhook worker over a keyed table moves every row forwards only, if what others
-- write between its statements and during its calls moves them forwards: a settled row is as it
-- was, attempts never fall, and no row is lost or made up.
pub run_once-Advance :
    {Envelope : Type 0} (locked : ℕ → Bool) (render : List Delivery → Result (List Envelope))
    (post : Endpoint → Envelope → Option Text) (meanwhile : Tables → Tables) (k : Clocks)
    (later : ℕ) (t : Tables)
    → IsKeyed t.deliveries
    → ((u : Tables) → Advance u.deliveries (k.then_written u).deliveries)
    → ((u : Tables) → Advance u.deliveries (k.next_written u).deliveries)
    → ((u : Tables) → Advance u.deliveries (meanwhile u).deliveries)
    → Advance t.deliveries (run_once locked render post meanwhile k later t).0.deliveries
unfolding run_once
run_once-Advance locked render post meanwhile k later t keyed first second others =
    let (t', claimed) = claim_batch locked k t in
    Advance-trans t.deliveries t'.deliveries _ (claim_batch-Advance locked k t keyed first second)
      (claimed_Advance render post meanwhile later claimed t' others)
