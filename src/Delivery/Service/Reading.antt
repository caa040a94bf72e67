-- ===== src/Delivery/Service/Reading.antt =====
-- Reading the outbox: an envelope for each delivery in its order, and acknowledgements that count once.
use cuckoo.Base.{
  ℕ, subst, ◌≡◌, refl, ◌≢◌, inl, inr, Bool, false, Option, none, some, List, [], ◌∷◌, arith,
  Option-cases, All, All₂, find?, update,
}
use cuckoo.Domain.Errors.{ok, ok-injective, >>=-eq-ok}
use cuckoo.Delivery.Outbox.{Delivery, is_own, deliver, ack_delivery}
use cuckoo.Delivery.Service.{World, Envelope, envelopes, envelope_of, envelope_in, content_of, ack}

-- The envelope is of that event, for that agent.
pub record Renders (w : World) (d : Delivery) (e : Envelope w) : Type 0 where
  pub same_id : e.id ≡ d.id
  pub same_agent : e.agent_id ≡ d.agent_id
  pub same_time : e.created_at ≡ d.created_at
  pub same_conversation : w.conversation d.conversation_id ≡ some e.conversation
  pub same_content : content_of w d.event_type d.message_id d.payload ≡ ok e.content

envelope_in-Renders :
    (w : World) (d : Delivery) (o : Option w.Conversation) (e : Envelope w)
    → w.conversation d.conversation_id ≡ o
    → envelope_in w d o ≡ ok e
    → Renders w d e
unfolding envelope_in envelope_of
envelope_in-Renders w d none e q h = cc
envelope_in-Renders w d (some conv) e q h =
    let (c, read, made) = >>=-eq-ok (content_of w d.event_type d.message_id d.payload) _ h in
    subst (Renders w d) (ok-injective made) (record {
      same_id = refl;
      same_agent = refl;
      same_time = refl;
      same_conversation = q;
      same_content = read;
    })

-- A batch that is rendered has an envelope for each delivery in the same order, with its key,
-- agent, time, conversation and content.
envelopes-Renders :
    (w : World) (ds : List Delivery) (es : List (Envelope w))
    → envelopes w ds ≡ ok es
    → All₂ (Renders w) ds es
unfolding envelopes
envelopes-Renders w [] es h = subst (All₂ (Renders w) []) (ok-injective h) tt
envelopes-Renders w (d ∷ ds) es h =
    let (e, one, rest) = >>=-eq-ok (envelope_in w d (w.conversation d.conversation_id)) _ h in
    let (more, read, all) = >>=-eq-ok (envelopes w ds) _ rest in
    subst (All₂ (Renders w) (d ∷ ds)) (ok-injective all)
      (envelope_in-Renders w d _ e refl one, envelopes-Renders w ds more read)

own_again :
    (now event agent : ℕ) (rows : List Delivery)
    → find? (is_own event agent) (update (is_own event agent) (deliver now) rows) ≡ none
own_again now event agent [] = refl
own_again now event agent (d ∷ rows) = ground (arith, own_again now event agent rows)

update_again :
    (p : Delivery → Bool) (f : Delivery → Delivery) (rows : List Delivery)
    → find? p rows ≡ none
    → update p f rows ≡ rows
update_again p f [] h = refl
update_again p f (d ∷ rows) h = ground (arith, update_again p f rows)

not_own :
    (event agent : ℕ) (rows : List Delivery)
    → All (λ d. d.id ≡ event → d.agent_id ≢ agent) rows
    → find? (is_own event agent) rows ≡ none
not_own event agent [] h = refl
not_own event agent (d ∷ rows) h = ground (arith, h.0, not_own event agent rows h.1)

unacked :
    (now event agent : ℕ) (rows : List Delivery)
    → find? (is_own event agent) rows ≡ none
    → ack now agent event rows ≡ (rows, false, none)
unfolding ack ack_delivery
unacked now event agent rows h = rw (h, ack, update_again (is_own event agent) (deliver now) rows h)

ack_rows :
    (now event agent : ℕ) (rows : List Delivery)
    → (ack now agent event rows).0 ≡ update (is_own event agent) (deliver now) rows
unfolding ack ack_delivery
ack_rows now event agent rows = elim (Option-cases (find? (is_own event agent) rows)) [
  | inl e ↦ rw (e, ack)
  | inr (d, e) ↦ rw (e, ack)
]

-- An acknowledgement counts once: made again, at any time, it changes nothing and reports nothing.
ack_once :
    (now later event agent : ℕ) (rows : List Delivery)
    → let after = (ack now agent event rows).0 in ack later agent event after ≡ (after, false, none)
ack_once now later event agent rows =
    unacked later event agent _
      (rw (ack_rows now event agent rows) (own_again now event agent rows))

-- An agent that acknowledges an event which is not its own changes nothing and is told nothing.
ack_foreign :
    (now event agent : ℕ) (rows : List Delivery)
    → All (λ d. d.id ≡ event → d.agent_id ≢ agent) rows
    → ack now agent event rows ≡ (rows, false, none)
ack_foreign now event agent rows h = unacked now event agent rows (not_own event agent rows h)
