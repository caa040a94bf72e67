-- ===== src/Conversations/History/Examples.antt =====
-- A chat of one person and one agent, with two messages.
use cuckoo.Base.Sorting.{sort_by}
use cuckoo.Conversations.History.Pages.{last_id}
use cuckoo.Conversations.History.Turning.{pages_join}
use cuckoo.Base.{ap, ◌++◌, ℕ, ◌≡◌, refl, true, false, none, some, [], ◌∷◌, arith}
use cuckoo.Domain.Errors.{ok}
use cuckoo.Conversations.Desk.{Message, complete}
use cuckoo.Conversations.Composing.{plain_body}
use cuckoo.Conversations.Membership.{Participant, dm, user, agent, new_participant}
use cuckoo.Conversations.History.{
  Archive, mark_read, clear, member, message_in, mark_rows, clear_conversation, newest, is_visible,
  list_messages_before, list_messages_after,
}
use cuckoo.Conversations.History.Marks.{mark_read_forward, read_both}
use cuckoo.Conversations.History.Clearing.{clear_lem}

abbrev message : ℕ → Message
message i = record {
  id = i;
  conversation_id = 40;
  sender = record { kind = agent; id = 7 };
  body = plain_body [] [];
  created_at = i;
  idempotency_key = none;
  status = complete;
  truncated = false;
  reply_to_message_id = none;
  signature = [];
  stopped = false;
  schedule_id = none;
}

abbrev reader : Participant
reader = new_participant 1 40 user (some 2) none

abbrev archive : Archive
archive = record {
  rooms = record {
    conversations = record { id = 40; kind = dm; created_at = 1 } ∷ [];
    participants = reader ∷ new_participant 1 40 agent none (some 7) ∷ [];
  };
  messages = message 11 ∷ message 12 ∷ [];
  hides = [];
}

abbrev read : Archive
read = record archive {
  rooms = record archive.rooms {
    participants =
        record reader { read_up_to = some 12 } ∷ new_participant 1 40 agent none (some 7) ∷ [];
  };
}

abbrev cleared : Archive
cleared = record archive {
  rooms = record archive.rooms {
    participants =
        record reader { cleared_before = some 12 } ∷ new_participant 1 40 agent none (some 7) ∷ [];
  };
}

first_in : message_in 40 11 archive.messages ≡ ok (message 11)
unfolding message_in
first_in = refl

was_read : mark_read 2 40 12 archive ≡ ok (read, true)
unfolding mark_read member message_in mark_rows
was_read = refl

was_cleared : clear 2 40 archive ≡ ok cleared
unfolding clear member clear_conversation newest
was_cleared = refl

mark_read_forward_example :
    (mark_read 2 40 11 read ≡ ok (read, false))
    × (read_both 2 40 12 11 archive ≡ read_both 2 40 11 12 archive)
mark_read_forward_example =
    mark_read_forward 2 40 12 11 archive read true (message 11) (omega arith) first_in was_read

clear_lem_example :
    (list_messages_before 2 40 none 50 cleared ≡ [])
    × (list_messages_after 2 40 0 50 cleared ≡ [])
    × (list_messages_before 3 40 none 50 cleared ≡ list_messages_before 3 40 none 50 archive)
    × (list_messages_after 3 40 0 50 cleared ≡ list_messages_after 3 40 0 50 archive)
clear_lem_example = clear_lem 2 40 3 40 none 0 50 archive cleared refl was_cleared

newest_shown : list_messages_before 2 40 none 1 archive ≡ message 12 ∷ []
unfolding list_messages_before is_visible sort_by
newest_shown = refl

pages_join_example :
    list_messages_before 2 40 none 1 archive ++ list_messages_before 2 40 (some 12) 5 archive
    ≡ list_messages_before 2 40 none 6 archive
pages_join_example =
    pages_join 2 40 1 5 12 none archive (((λ h. omega arith), tt), (tt, tt))
      (ap last_id newest_shown)
