-- ===== src/Conversations/History.antt =====
-- conversations/history.go, read.go and hiding.go, with the queries that they make: the history of a
-- conversation as one of its people sees it, or one of its agents. A person stands once in a conversation.
pub mod Clearing
pub mod Marks
pub mod Pages
pub mod Turning
mod Examples
use cuckoo.Base.{
  ℕ, suc, Bool, true, false, ◌&&◌, ◌||◌, not, Option, none, some, List, [], ◌∷◌, ◌==◌, ltb, leb,
  is_some, if◌then◌else◌, any, count, filter, find?, length, map, min, take, update, ◌+◌,
}
use cuckoo.Base.Sorting.{sort_by}
use cuckoo.Domain.Errors.{
  Error, Result, ok, err, invalid_field, not_found_error, forbidden_error, ◌>>=◌, ◌>>◌, refuse_if,
}
use cuckoo.Agents.Registry.{or_fail}
use cuckoo.Conversations.Membership.{
  Rooms, Participant, Conversation, ParticipantKind, user, agent, is_key, user_in, agent_in,
}
use cuckoo.Conversations.Desk.{Message, get_message}

-- A row of message_hides.
pub record Hide : Type 0 where
  pub user_id : ℕ
  pub message_id : ℕ

pub record Archive : Type 0 where
  pub rooms : Rooms
  pub messages : List Message
  pub hides : List Hide

abbrev with_participants : List Participant → Archive → Archive
with_participants rows v = record v { rooms = record v.rooms { participants = rows } }

-- `$1 IS NULL OR id > $1`
abbrev pub is_after : Option ℕ → ℕ → Bool
is_after none i = true
is_after (some j) i = ltb j i

abbrev pub is_before : Option ℕ → ℕ → Bool
is_before none i = true
is_before (some j) i = ltb i j

abbrev pub is_hidden : ℕ → ℕ → List Hide → Bool
is_hidden who i = any (λ h. h.user_id == who && h.message_id == i)

abbrev pub is_row_of : ℕ → ℕ → Participant → Bool
is_row_of who room p = p.conversation_id == room && is_key who p.user_id

-- The join with participants, of a person's view.
pub is_visible : ℕ → ℕ → Archive → Message → Bool
is_visible who room v m =
    m.conversation_id == room
    && any (λ p. is_row_of who room p && is_after p.cleared_before m.id) v.rooms.participants
    && not (is_hidden who m.id v.hides)

abbrev pub newer : Message → Message → Bool
newer m n = leb n.id m.id

abbrev pub older : Message → Message → Bool
older m n = leb m.id n.id

pub list_messages_before : ℕ → ℕ → Option ℕ → ℕ → Archive → List Message
unfolding is_visible
list_messages_before who room before size v =
    take size
      (sort_by newer (filter (λ m. is_visible who room v m && is_before before m.id) v.messages))

pub list_messages_after : ℕ → ℕ → ℕ → ℕ → Archive → List Message
unfolding is_visible
list_messages_after who room after size v =
    take size (sort_by older (filter (λ m. is_visible who room v m && ltb after m.id) v.messages))

-- What was said since the agent joined.
abbrev pub is_open_to : ℕ → ℕ → List Participant → Message → Bool
is_open_to bot room rows m =
    m.conversation_id == room
    && any (λ p. p.conversation_id == room && is_key bot p.agent_id && leb p.joined_at m.created_at)
        rows

pub list_messages_before_for_agent : ℕ → ℕ → Option ℕ → ℕ → Archive → List Message
list_messages_before_for_agent bot room before size v = take size (
    sort_by newer (
      filter (λ m. is_open_to bot room v.rooms.participants m && is_before before m.id) v.messages))

-- m.sender_user_id IS DISTINCT FROM p.user_id
abbrev pub is_by_another : ℕ → Message → Bool
is_by_another who m = elim m.sender.kind [ user ↦ not (m.sender.id == who) | agent ↦ true ]

abbrev pub is_unread : ℕ → List Hide → Participant → Message → Bool
is_unread who hides p m =
    m.conversation_id == p.conversation_id
    && is_by_another who m
    && is_after p.read_up_to m.id
    && is_after p.cleared_before m.id
    && not (is_hidden who m.id hides)

-- How much of each of the conversations is not read: a hundred at most.
pub count_unread : ℕ → List ℕ → Archive → List (ℕ × ℕ)
count_unread who rooms v =
    map (λ p. (p.conversation_id, min 100 (count (is_unread who v.hides p) v.messages)))
      (filter (λ p. is_key who p.user_id && any (λ r. r == p.conversation_id) rooms)
        v.rooms.participants)

-- ORDER BY m.id DESC LIMIT 1
pub newest : ℕ → List Message → Option ℕ
newest room [] = none
newest room (m ∷ rows) =
    let rest = newest room rows in
    if m.conversation_id == room && is_after rest m.id then some m.id else rest

abbrev pub clear_up_to : Option ℕ → Participant → Participant
clear_up_to last p = record p { cleared_before = last }

pub clear_conversation : ℕ → ℕ → Archive → Archive
unfolding newest
clear_conversation who room v =
    with_participants
      (update (is_row_of who room) (clear_up_to (newest room v.messages)) v.rooms.participants) v

-- read_up_to IS NULL OR read_up_to < $1
abbrev pub is_behind : ℕ → Option ℕ → Bool
is_behind i none = true
is_behind i (some j) = ltb j i

abbrev pub read_to : ℕ → Participant → Participant
read_to i p = record p { read_up_to = some i }

-- `MarkRead`, the query: the rows after, and how many moved.
pub mark_rows : ℕ → ℕ → ℕ → List Participant → List Participant × ℕ
mark_rows who room i rows = (
  update (λ p. is_row_of who room p && is_behind i p.read_up_to) (read_to i) rows,
  count (λ p. is_row_of who room p && is_behind i p.read_up_to) rows,
)

-- ON CONFLICT DO NOTHING
pub hide_message : ℕ → ℕ → Archive → Archive
hide_message who i v =
    if is_hidden who i v.hides
    then v
    else record v { hides = record { user_id = who; message_id = i } ∷ v.hides }

-- The row of a conversation that the caller is in.
pub member : Bool → ℕ → Archive → Result Conversation
member inside room v =
    or_fail (not_found_error "conversation_not_found")
      (find? (λ c. c.id == room) v.rooms.conversations)
    >>= λ row. refuse_if (not inside) (forbidden_error "not_participant") >> ok row

abbrev pub message_not_found : Error
message_not_found = not_found_error "message_not_found"

-- A message of the conversation.
pub message_in : ℕ → ℕ → List Message → Result Message
unfolding get_message
message_in room i rows = or_fail message_not_found (get_message i rows) >>= λ m.
    refuse_if (not (m.conversation_id == room)) message_not_found >> ok m

-- `MarkRead`: what is left, and whether the person's other devices are told.
pub mark_read : ℕ → ℕ → ℕ → Archive → Result (Archive × Bool)
unfolding member message_in mark_rows
mark_read who room i v = member (user_in who room v.rooms.participants) room v >>= λ _.
    message_in room i v.messages >>= λ _.
    let (rows, moved) = mark_rows who room i v.rooms.participants in
    ok (with_participants rows v, ltb 0 moved)

-- `Clear`
pub clear : ℕ → ℕ → Archive → Result Archive
unfolding member clear_conversation
clear who room v = member (user_in who room v.rooms.participants) room v >>= λ _.
    ok (clear_conversation who room v)

-- `Hide`
pub hide : ℕ → ℕ → ℕ → Archive → Result Archive
unfolding member message_in hide_message
hide who room i v = member (user_in who room v.rooms.participants) room v >>= λ _.
    message_in room i v.messages >>= λ _. ok (hide_message who i v)
