-- ===== src/Conversations/Desk.antt =====
-- The tables that a send reads and writes (conversations/conversations.go, store/gen/models.go), with the queries
-- of store/gen/messages.sql.go, conversations.sql.go and schedules.sql.go. A body is kept decoded.
use cuckoo.Base.{
  ℕ, Bool, false, ◌&&◌, ◌||◌, Option, none, some, List, [], ◌∷◌, ◌==◌, ltb, leb, is_some, find?,
  update, filter,
}
use cuckoo.Base.Sorting.{sort_by}
use cuckoo.Base.Text.{Text, text_eq}
use cuckoo.Agents.Bindings.{Binding}
use cuckoo.Delivery.Outbox.{Delivery}
use cuckoo.Conversations.Membership.{Rooms, Participant, ParticipantKind}
use cuckoo.Conversations.Cadence.{Cadence}
use cuckoo.Conversations.Messages.Buttons.{Button}
use cuckoo.Conversations.Attachments.{Sender, Medium, Attachment, same_kind}
use cuckoo.Pairing.Contacts.{Contact}

pub data MessageStatus : Type 0 where
  streaming complete : MessageStatus

-- Which button, on which message.
pub record Action : Type 0 where
  pub button_id : Text
  pub source_message_id : ℕ

pub record Body : Type 0 where
  pub text : Text
  pub attachments : List Attachment
  pub buttons : List (List Button)
  pub quick_replies : List Text
  pub action : Option Action
  pub selected_button_id : Text

-- The row; the sender's kind says which of the two columns holds its id.
pub record Message : Type 0 where
  pub id : ℕ
  pub conversation_id : ℕ
  pub sender : Sender
  pub body : Body
  pub created_at : ℕ
  pub idempotency_key : Option Text
  pub status : MessageStatus
  pub truncated : Bool
  pub reply_to_message_id : Option ℕ
  pub signature : Text
  pub stopped : Bool
  pub schedule_id : Option ℕ

pub record SendInput : Type 0 where
  pub text : Text
  pub attachments : List ℕ
  pub idempotency_key : Text
  pub reply_to : Option ℕ
  pub buttons : List (List Button)
  pub quick_replies : List Text
  pub action : Option Action
  pub schedule_id : Option ℕ

pub data ScheduleStatus : Type 0 where
  pending active paused : ScheduleStatus

pub record Schedule : Type 0 where
  pub id : ℕ
  pub agent_id : ℕ
  pub conversation_id : ℕ
  pub title : Text
  pub instruction : Text
  pub cadence : Cadence
  pub status : ScheduleStatus
  pub created_by : ParticipantKind
  pub last_run_at : Option ℕ
  pub created_at : ℕ
  pub updated_at : ℕ
  pub deleted_at : Option ℕ

-- The tables that a send reads and writes.
pub record Desk : Type 0 where
  pub rooms : Rooms
  pub contacts : List Contact
  pub bindings : List Binding
  pub messages : List Message
  pub media : List Medium
  pub schedules : List Schedule
  pub deliveries : List Delivery

unfoldable pub get_message : ℕ → List Message → Option Message
get_message i = find? (λ m. m.id == i)

abbrev pub has_key : Text → Option Text → Bool
has_key key none = false
has_key key (some k) = text_eq k key

-- sender_user_id = $1 AND idempotency_key = $2, or the same for an agent.
abbrev pub is_keyed_by : Sender → Text → Message → Bool
is_keyed_by sender key m =
    same_kind m.sender.kind sender.kind && m.sender.id == sender.id && has_key key m.idempotency_key

unfoldable pub get_message_by_key : Sender → Text → List Message → Option Message
get_message_by_key sender key = find? (is_keyed_by sender key)

unfoldable pub create_message : Message → List Message → List Message
create_message m rows = m ∷ rows

abbrev pub with_body : Body → Message → Message
with_body body m = record m { body = body }

unfoldable pub update_message_body : ℕ → Body → List Message → List Message
update_message_body i body = update (λ m. m.id == i) (with_body body)

-- Null is filtered out before.
abbrev pub agent_key : Option ℕ → ℕ
agent_key none = 0
agent_key (some a) = a

-- ORDER BY joined_at, agent_id
abbrev pub joined_before : Participant → Participant → Bool
joined_before p q =
    ltb p.joined_at q.joined_at
    || (p.joined_at == q.joined_at && leb (agent_key p.agent_id) (agent_key q.agent_id))

abbrev pub agents_of : List Participant → List ℕ
agents_of [] = []
agents_of (p ∷ rows) =
    let rest = agents_of rows in elim p.agent_id [ none ↦ rest | some a ↦ a ∷ rest ]

unfoldable pub list_agent_participants : ℕ → List Participant → List ℕ
list_agent_participants room rows =
    agents_of
      (sort_by joined_before (filter (λ p. p.conversation_id == room && is_some p.agent_id) rows))

unfoldable pub get_schedule : ℕ → List Schedule → Option Schedule
get_schedule i = find? (λ s. s.id == i)

abbrev pub ran_at : ℕ → Schedule → Schedule
ran_at now s = record s { last_run_at = some now }

-- `ranSchedule`: what it writes. Its error would only be logged.
unfoldable pub mark_schedule_ran : ℕ → Option ℕ → List Schedule → List Schedule
mark_schedule_ran now none rows = rows
mark_schedule_ran now (some i) rows = update (λ s. s.id == i) (ran_at now) rows
