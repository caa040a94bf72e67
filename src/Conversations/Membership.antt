-- ===== src/Conversations/Membership.antt =====
-- conversations/membership.go, with `CreateDM` of conversations/service.go and the tables
-- conversations and participants of store/gen/conversations.sql.go: the chat between a person and an
-- agent, and the events that tell an agent of it. A payload is text that was already encoded.
pub mod Finding
use cuckoo.Base.{
  ℕ, Bool, true, false, ◌&&◌, Option, none, some, List, [], ◌∷◌, ◌==◌, leb, is_some, filter, any,
}
use cuckoo.Base.Text.{Text, codes}
use cuckoo.Base.Sorting.{sort_by}
use cuckoo.Agents.Bindings.{Binding, get_active_binding}
use cuckoo.Delivery.Outbox.{
  Delivery, EventType, Status, pending, failed, new_delivery, create_delivery,
}

pub data RoomKind : Type 0 where
  dm group : RoomKind

pub record Conversation : Type 0 where
  pub id : ℕ
  pub kind : RoomKind
  pub created_at : ℕ

pub data ParticipantKind : Type 0 where
  user agent : ParticipantKind

pub record Participant : Type 0 where
  pub conversation_id : ℕ
  pub kind : ParticipantKind
  pub user_id : Option ℕ
  pub agent_id : Option ℕ
  pub joined_at : ℕ
  pub cleared_before : Option ℕ
  pub read_up_to : Option ℕ

-- The two tables.
pub record Rooms : Type 0 where
  pub conversations : List Conversation
  pub participants : List Participant

abbrev pub is_dm : RoomKind → Bool
is_dm dm = true
is_dm group = false

-- `column = $1`, which null is not.
abbrev pub is_key : ℕ → Option ℕ → Bool
is_key i none = false
is_key i (some j) = j == i

pub create_conversation : Conversation → List Conversation → List Conversation
create_conversation c rows = c ∷ rows

pub add_participant : Participant → List Participant → List Participant
add_participant p rows = p ∷ rows

abbrev pub user_in : ℕ → ℕ → List Participant → Bool
user_in who room = any (λ p. p.conversation_id == room && is_key who p.user_id)

abbrev pub agent_in : ℕ → ℕ → List Participant → Bool
agent_in who room = any (λ p. p.conversation_id == room && is_key who p.agent_id)

abbrev pub is_dm_of : ℕ → ℕ → List Participant → Conversation → Bool
is_dm_of person bot members c =
    is_dm c.kind && user_in person c.id members && agent_in bot c.id members

-- ORDER BY c.id
abbrev pub room_before : Conversation → Conversation → Bool
room_before c d = leb c.id d.id

abbrev pub first_room : List Conversation → Option Conversation
first_room [] = none
first_room (c ∷ rows) = some c

pub find_dm : ℕ → ℕ → Rooms → Option Conversation
find_dm person bot rooms =
    first_room
      (sort_by room_before (filter (is_dm_of person bot rooms.participants) rooms.conversations))

abbrev pub new_participant : ℕ → ℕ → ParticipantKind → Option ℕ → Option ℕ → Participant
new_participant now room kind person bot = record {
  conversation_id = room;
  kind = kind;
  user_id = person;
  agent_id = bot;
  joined_at = now;
  cleared_before = none;
  read_up_to = none;
}

-- `CreateDM`: the tables after; the chat is `fresh`.
pub create_dm : ℕ → ℕ → ℕ → ℕ → Rooms → Rooms
unfolding create_conversation add_participant
create_dm now fresh person bot rooms = record {
  conversations =
      create_conversation (record { id = fresh; kind = dm; created_at = now }) rooms.conversations;
  participants =
      add_participant (new_participant now fresh agent none (some bot))
        (add_participant (new_participant now fresh user (some person) none) rooms.participants);
}

opened : ℕ → ℕ → ℕ → ℕ → Rooms → Option Conversation → Rooms × ℕ × Bool
unfolding create_dm
opened now fresh person bot rooms (some c) = (rooms, c.id, false)
opened now fresh person bot rooms none = (create_dm now fresh person bot rooms, fresh, true)

-- `FindOrCreateDM`: the tables after, the chat, and whether it was created.
unfoldable pub find_or_create_dm : ℕ → ℕ → ℕ → ℕ → Rooms → Rooms × ℕ × Bool
unfolding find_dm opened
find_or_create_dm now fresh person bot rooms =
    opened now fresh person bot rooms (find_dm person bot rooms)

-- The status and the error that a row starts with, where the agent has a backend and where not.
abbrev pub first_status : Bool → Status
first_status true = pending
first_status false = failed

abbrev pub first_error : Bool → Option Text
first_error true = none
first_error false = some (codes "no_binding")

abbrev pub is_bound : List Binding → ℕ → Bool
unfolding get_active_binding
is_bound bs bot = is_some (get_active_binding bot bs)

-- `Enqueue`: the outbox after, and whether anything is pending.
unfoldable pub enqueue :
    ℕ → ℕ → List Binding → ℕ → ℕ → EventType → Text → List Delivery → List Delivery × Bool
unfolding create_delivery
enqueue now fresh bs bot room event payload rows =
    let bound = is_bound bs bot in
    (
      create_delivery
          (new_delivery now fresh none room bot event payload (first_status bound)
            (first_error bound))
          rows,
      bound,
    )
