-- ===== src/Conversations/Sending.antt =====
-- conversations/messages.go and deliveries.go: a message that is sent whole, from the checks to the outbox. The
-- answer of the rate limiter and the signature are arguments. Calls run one at a time, so that no two
-- of them race for one key. An answer is the message as it is stored: its delivery status, its quote and
-- the title of its schedule, which are only read to show it, are left out, and so are the notices to
-- devices.
pub mod Retries
pub mod Audience
pub mod Files
mod Examples
use cuckoo.Base.{
  ℕ, Bool, true, false, ◌&&◌, not, Option, none, some, List, [], ◌∷◌, ◌++◌, map, ◌==◌, ltb,
  if◌then◌else◌, any,
}
use cuckoo.Base.Text.{Text}
use cuckoo.Domain.Errors.{
  Error, Result, ok, err, not_found_error, forbidden_error, rate_limited_error, ◌>>=◌, ◌>>◌,
  refuse_if,
}
use cuckoo.Agents.Bindings.{Binding}
use cuckoo.Delivery.Outbox.{Delivery, message_created, new_delivery, create_delivery}
use cuckoo.Conversations.Membership.{
  user, agent, user_in, agent_in, is_bound, first_status, first_error,
}
use cuckoo.Conversations.Messages.Buttons.{Url}
use cuckoo.Conversations.Attachments.{Sender, claim_attachments}
use cuckoo.Pairing.Contacts.{ensure_open}
use cuckoo.Conversations.Desk.{
  Message, SendInput, Desk, create_message, list_agent_participants, mark_schedule_ran, complete,
}
use cuckoo.Conversations.Composing.{find_by_key, record_tap, Prepared, prepare, is_agent}

-- The message that the key names already.
unfoldable pub earlier : Sender → ℕ → Option Text → List Message → Result (Option Message)
unfolding find_by_key
earlier sender room none rows = ok none
earlier sender room (some key) rows = find_by_key sender room key rows

-- One agent of the conversation: told of the message, unless it is the sender. The outbox after, and
-- the agent where something is pending for it.
tell_agent :
    Bool → ℕ → (ℕ → ℕ) → List Binding → Message → ℕ → List Delivery → List Delivery × List ℕ
unfolding create_delivery
tell_agent true now fresh bs msg a rows = (rows, [])
tell_agent false now fresh bs msg a rows = (
  create_delivery
      (new_delivery now (fresh a) (some msg.id) msg.conversation_id a message_created []
        (first_status (is_bound bs a)) (first_error (is_bound bs a)))
      rows,
  if is_bound bs a then a ∷ [] else [],
)

-- msg.Sender.Kind == ParticipantAgent && msg.Sender.ID == agentID
abbrev pub is_own_agent : Message → ℕ → Bool
is_own_agent msg a = is_agent msg.sender.kind && msg.sender.id == a

pub fan_out_to :
    ℕ → (ℕ → ℕ) → List Binding → Message → List ℕ → List Delivery → List Delivery × List ℕ
unfolding tell_agent
fan_out_to now fresh bs msg [] rows = (rows, [])
fan_out_to now fresh bs msg (a ∷ agents) rows =
    let one = tell_agent (is_own_agent msg a) now fresh bs msg a rows in
    let rest = fan_out_to now fresh bs msg agents one.0 in (rest.0, one.1 ++ rest.1)

-- `fanOut`. An event's identifier is fresh for each agent.
unfoldable pub fan_out : ℕ → (ℕ → ℕ) → Message → Desk → List Delivery × List ℕ
unfolding fan_out_to list_agent_participants
fan_out now fresh msg desk =
    fan_out_to now fresh desk.bindings msg
      (list_agent_participants msg.conversation_id desk.rooms.participants) desk.deliveries

-- What a send draws: the time, and fresh identifiers.
pub record SendDraw : Type 0 where
  pub now : ℕ
  pub message_id : ℕ
  pub event_id : ℕ → ℕ

-- What a send leaves, whom it nudges, and the message with whether it was created.
pub record Sent : Type 0 where
  pub desk : Desk
  pub nudged : List ℕ
  pub answer : Result (Message × Bool)

abbrev pub not_sent : Desk → Error → Sent
not_sent desk e = record { desk = desk; nudged = []; answer = err e }

-- What `member` and `ensureOpen` let through.
unfoldable pub may_send : Bool → ℕ → Desk → Result (Unit {0})
may_send inside room desk =
    refuse_if (not (any (λ c. c.id == room) desk.rooms.conversations))
      (not_found_error "conversation_not_found")
    >> (refuse_if (not inside) (forbidden_error "not_participant")
        >> ensure_open room desk.rooms.participants desk.contacts)

module _ (sign : Message → Text) where
  -- A message is signed over what it will say.
  unsigned : SendDraw → Sender → ℕ → Option ℕ → Prepared → Message
  unsigned d sender room schedule p = record {
    id = d.message_id;
    conversation_id = room;
    sender = sender;
    body = p.body;
    created_at = d.now;
    idempotency_key = p.key;
    status = complete;
    truncated = false;
    reply_to_message_id = p.reply_to;
    signature = [];
    stopped = false;
    schedule_id = schedule;
  }

  pub draft : SendDraw → Sender → ℕ → Option ℕ → Prepared → Message
  unfolding unsigned
  draft d sender room schedule p = record (unsigned d sender room schedule p) {
    signature = sign (unsigned d sender room schedule p);
  }

  -- The transaction: an error undoes all of it.
  commit : SendDraw → Sender → Prepared → Message → Desk → Result Sent
  unfolding create_message record_tap claim_attachments fan_out
  commit d sender p msg desk =
      claim_attachments sender msg.id (map (λ a. a.media_id) p.body.attachments) desk.media
      >>= λ media.
          let told = fan_out d.now d.event_id msg desk in
          ok (record {
            desk = record desk {
              messages = record_tap p.tapped (create_message msg desk.messages);
              media = media;
              schedules = mark_schedule_ran d.now msg.schedule_id desk.schedules;
              deliveries = told.0;
            };
            nudged = told.1;
            answer = ok (msg, true);
          })

  unfoldable pub committed : Desk → Result Sent → Sent
  committed desk (err e) = not_sent desk e
  committed desk (ok s) = s

  -- `wait` is how long the rate limiter asks the sender to wait.
  paced : Bool → SendDraw → Sender → ℕ → Option ℕ → ℕ → Prepared → Desk → Sent
  unfolding draft commit committed
  paced true d sender room schedule wait p desk =
      not_sent desk (rate_limited_error "rate_limited" wait)
  paced false d sender room schedule wait p desk =
      committed desk (commit d sender p (draft d sender room schedule p) desk)

  -- A retry is answered before the rate limit is consulted.
  limited : SendDraw → Sender → ℕ → Option ℕ → ℕ → Prepared → Result (Option Message) → Desk → Sent
  unfolding paced
  limited d sender room schedule wait p (err e) desk = not_sent desk e
  limited d sender room schedule wait p (ok (some m)) desk = record {
    desk = desk;
    nudged = [];
    answer = ok (m, false);
  }
  limited d sender room schedule wait p (ok none) desk =
      paced (ltb 0 wait) d sender room schedule wait p desk

  send_prepared : SendDraw → Sender → ℕ → Option ℕ → ℕ → Result Prepared → Desk → Sent
  unfolding limited earlier
  send_prepared d sender room schedule wait (err e) desk = not_sent desk e
  send_prepared d sender room schedule wait (ok p) desk =
      limited d sender room schedule wait p (earlier sender room p.key desk.messages) desk

  -- `send`: `create`, of a message that is not streamed. `wait` is the limiter's answer.
  pub send : (Text → Option Url) → SendDraw → ℕ → Sender → ℕ → SendInput → Desk → Sent
  unfolding send_prepared prepare
  send parse d wait sender room input desk =
      send_prepared d sender room input.schedule_id wait (prepare parse sender room input desk) desk

  unfoldable pub send_if :
      Result (Unit {0}) → (Text → Option Url) → SendDraw → ℕ → Sender → ℕ → SendInput → Desk → Sent
  unfolding send
  send_if (err e) parse d wait sender room input desk = not_sent desk e
  send_if (ok _) parse d wait sender room input desk = send parse d wait sender room input desk

  unfoldable pub send_as_user : (Text → Option Url) → SendDraw → ℕ → ℕ → ℕ → SendInput → Desk → Sent
  unfolding send_if may_send
  send_as_user parse d wait person room input desk =
      send_if (may_send (user_in person room desk.rooms.participants) room desk) parse d wait
        (record { kind = user; id = person }) room input desk

  unfoldable pub send_as_agent :
      (Text → Option Url) → SendDraw → ℕ → ℕ → ℕ → SendInput → Desk → Sent
  unfolding send_if may_send
  send_as_agent parse d wait bot room input desk =
      send_if (may_send (agent_in bot room desk.rooms.participants) room desk) parse d wait
        (record { kind = agent; id = bot }) room input desk
