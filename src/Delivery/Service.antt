-- ===== src/Delivery/Service.antt =====
-- delivery/delivery.go: the outbox as the agent protocol reads it. Messages, conversations and the
-- decoded payloads belong to other packages: their types and the look-ups are parameters.
pub mod Reading
use cuckoo.Base.{
  ℕ, Bool, true, false, ◌||◌, Option, none, some, List, [], ◌∷◌, map, ltb, ◌==◌, if◌then◌else◌,
  length,
}
use cuckoo.Base.Text.{Text}
use cuckoo.Base.Sorting.{sort_by}
use cuckoo.Domain.Errors.{Result, ok, err, internal_error, invalid_field, ◌>>=◌}
use cuckoo.Agents.Bindings.{Binding}
use cuckoo.Delivery.Outbox.{
  Delivery, EventType, message_created, conversation_joined, conversation_left, stop_requested,
  schedule_requested, schedule_updated, schedule_deleted, other, id_before, list_deliveries_since,
  claim_due_socket_deliveries, ack_delivery,
}

abbrev pub default_page_size : ℕ
default_page_size = 50

abbrev pub max_page_size : ℕ
max_page_size = 100

abbrev pub socket_batch : ℕ
socket_batch = 100

-- What the other packages are to this one: the rows of messages and conversations by their keys, and
-- `json.Unmarshal` of each payload, which may fail.
pub record World : Type 1 where
  pub Message : Type 0
  pub Conversation : Type 0
  pub Joined : Type 0
  pub Left : Type 0
  pub Stop : Type 0
  pub Schedule : Type 0
  pub message : ℕ → Option Message
  pub conversation : ℕ → Option Conversation
  pub joined : Text → Option Joined
  pub left : Text → Option Left
  pub stop : Text → Option Stop
  pub schedule : Text → Option Schedule

module _ (w : World) where
  open w use {Message, Conversation, Joined, Left, Stop, Schedule}

  -- What an envelope says: one constructor for each `events.New...` that the code calls.
  pub data Content : Type 0 where
    new_message : Message → Content
    joined_content : Joined → Content
    left_content : Left → Content
    stop_content : Stop → Content
    schedule_content : EventType → Schedule → Content

  pub record Envelope : Type 0 where
    pub id : ℕ
    pub created_at : ℕ
    pub agent_id : ℕ
    pub conversation : Conversation
    pub content : Content

  -- `json.Unmarshal(d.Payload, &p)`, and the envelope around what was read.
  decoded : {P : Type 0} → (Text → Option P) → (P → Content) → Text → Result Content
  decoded read wrap payload = elim (read payload) [
    | none ↦ err internal_error
    | some p ↦ ok (wrap p)
  ]

  -- byMessage[*d.MessageID]
  message_content : Option ℕ → Result Content
  message_content none = err internal_error
  message_content (some i) = elim (w.message i) [
    | none ↦ err internal_error
    | some m ↦ ok (new_message m)
  ]

  -- The `switch` of `envelopeOf`.
  pub content_of : EventType → Option ℕ → Text → Result Content
  unfolding decoded message_content
  content_of message_created i payload = message_content i
  content_of conversation_joined i payload = decoded w.joined joined_content payload
  content_of conversation_left i payload = decoded w.left left_content payload
  content_of stop_requested i payload = decoded w.stop stop_content payload
  content_of schedule_requested i payload =
      decoded w.schedule (schedule_content schedule_requested) payload
  content_of schedule_updated i payload =
      decoded w.schedule (schedule_content schedule_updated) payload
  content_of schedule_deleted i payload =
      decoded w.schedule (schedule_content schedule_deleted) payload
  content_of (other t) i payload = err internal_error

  unfoldable pub envelope_of : Delivery → Conversation → Result Envelope
  unfolding content_of
  envelope_of d conv = content_of d.event_type d.message_id d.payload >>= λ c. ok (record {
    id = d.id;
    created_at = d.created_at;
    agent_id = d.agent_id;
    conversation = conv;
    content = c;
  })

  -- byConversation[d.ConversationID]
  envelope_in : Delivery → Option Conversation → Result Envelope
  unfolding envelope_of
  envelope_in d none = err internal_error
  envelope_in d (some conv) = envelope_of d conv

  unfoldable pub envelopes : List Delivery → Result (List Envelope)
  unfolding envelope_in
  envelopes [] = ok []
  envelopes (d ∷ ds) =
      let rest = envelopes ds in
      envelope_in d (w.conversation d.conversation_id) >>= λ e. rest >>= λ es. ok (e ∷ es)

  -- The limit that a caller may ask for: 0 is the default, and out of range is refused.
  page_limit : ℕ → Result ℕ
  page_limit limit =
      if limit == 0
      then ok default_page_size
      else if ltb limit 1 || ltb max_page_size limit
      then err (invalid_field "limit" "invalid_limit")
      else ok limit

  pub list_events : ℕ → Option ℕ → ℕ → List Delivery → Result (List Envelope)
  unfolding page_limit
  list_events agent since limit rows =
      page_limit limit >>= λ n. envelopes (list_deliveries_since agent since n rows)

  -- The rows after, the envelopes in the order of their keys, and whether more may wait.
  unfoldable pub claim_for_socket :
      (ℕ → Bool)
      → ℕ
      → ℕ
      → List Binding
      → List Delivery
      → List Delivery × Result (List Envelope) × Bool
  claim_for_socket locked now agent bs rows =
      let (after, claimed) = claim_due_socket_deliveries locked now agent socket_batch bs rows in
      (after, envelopes (sort_by id_before claimed), length claimed == socket_batch)

abbrev acked : List Delivery → Option (Option ℕ) → List Delivery × Bool × Option ℕ
acked after none = (after, false, none)
acked after (some message) = (after, true, message)

-- `Ack`: the rows after, whether the event was pending for the agent, and the message whose tick mark
-- is announced.
unfoldable pub ack : ℕ → ℕ → ℕ → List Delivery → List Delivery × Bool × Option ℕ
ack now agent event rows =
    let (after, message) = ack_delivery now event agent rows in acked after message
