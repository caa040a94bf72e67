-- ===== src/Conversations/Sending/Examples.antt =====
-- Sends on small tables.
use cuckoo.Base.{
  ℕ, ◌≡◌, refl, true, false, ◌&&◌, not, Option, none, some, [], ◌∷◌, count, filter, ◌+◌,
}
use cuckoo.Base.Sorting.{sort_by}
use cuckoo.Base.Text.{
  Text, codes, is_valid, trim_space, trim_right, trim_left, is_space, contains_rune,
}
use cuckoo.Domain.Errors.{ok}
use cuckoo.Conversations.Membership.{user_in, dm, user, Rooms, is_bound}
use cuckoo.Conversations.Messages.{validate_text, validate_idempotency_key, validate_caption}
use cuckoo.Conversations.Messages.Buttons.{Url}
use cuckoo.Conversations.Attachments.{
  claim_attachments, resolve_attachments, Medium, attachment_of, already_sent,
}
use cuckoo.Conversations.Desk.{
  list_agent_participants, get_message_by_key, create_message, Message, Desk, Body, complete,
}
use cuckoo.Conversations.Composing.{
  find_by_key, record_tap, check_schedule_tag, validate_reply_to, compose_body, plain_body, prepare,
}
use cuckoo.Conversations.Sending.{
  send_if, send_if, send_as_user, send_as_user, may_send, send_as_user, earlier, fan_out, committed,
  SendDraw, send, commit, not_sent, fan_out_to, is_own_agent, draft,
}
use cuckoo.Conversations.Sending.Retries.{words, person, send_again}
use cuckoo.Conversations.Sending.Files.{with_files, send_again-files}
use cuckoo.Conversations.Sending.Audience.{tells, places, fan_out_to_lem}

abbrev no_mark : Message → Text
no_mark m = []

abbrev no_links : Text → Option Url
no_links s = none

abbrev chat : Rooms
chat = record {
  conversations = record { id = 40; kind = dm; created_at = 1 } ∷ [];
  participants =
      record {
        conversation_id = 40;
        kind = user;
        user_id = some 2;
        agent_id = none;
        joined_at = 1;
        cleared_before = none;
        read_up_to = none;
      }
      ∷ [];
}

abbrev photo : Medium
photo = record {
  id = 70;
  owner_kind = user;
  owner_id = 2;
  kind = codes "image";
  mime_type = codes "image/png";
  byte_size = 10;
  file_name = codes "a.png";
  width = 1;
  height = 1;
  storage_key = [];
  thumb_key = none;
  message_id = none;
  created_at = 1;
  duration_ms = 0;
  waveform = [];
}

abbrev desk : Desk
desk = record {
  rooms = chat;
  contacts = [];
  bindings = [];
  messages = [];
  media = photo ∷ [];
  schedules = [];
  deliveries = [];
}

abbrev draw : SendDraw
draw = record { now = 5; message_id = 90; event_id = λ a. a }

abbrev later_draw : SendDraw
later_draw = record { now = 6; message_id = 91; event_id = λ a. a }

abbrev hi : Text
hi = codes "hi"

abbrev retry_key : Text
retry_key = codes "k"

-- The message that a send of a body makes.
abbrev sent_message : Body → Message
sent_message body = record {
  id = 90;
  conversation_id = 40;
  sender = person 2;
  body = body;
  created_at = 5;
  idempotency_key = some retry_key;
  status = complete;
  truncated = false;
  reply_to_message_id = none;
  signature = [];
  stopped = false;
  schedule_id = none;
}

key_taken : validate_idempotency_key retry_key ≡ ok (some retry_key)
unfolding validate_idempotency_key is_valid trim_space trim_right trim_left is_space contains_rune
key_taken = refl

user_sent :
    (send_as_user no_mark no_links draw 0 2 40 (words hi retry_key) desk).answer
    ≡ ok (sent_message (plain_body hi []), true)
unfolding cuckoo.Pairing.Contacts.ensure_open send_as_user send_if may_send send prepare
    compose_body resolve_attachments validate_caption validate_text validate_reply_to
    check_schedule_tag validate_idempotency_key is_valid trim_space trim_right trim_left is_space
    contains_rune draft commit committed claim_attachments fan_out create_message record_tap earlier
    find_by_key get_message_by_key list_agent_participants sort_by fan_out_to
user_sent = refl

-- The files have gone since, and another message has come.
abbrev changed_desk : Desk
changed_desk = record desk {
  media = [];
  messages =
      record (sent_message (plain_body hi [])) {
        id = 91;
        sender = person 3;
        idempotency_key = none;
      }
      ∷ sent_message (plain_body hi [])
      ∷ [];
}

still_open : may_send (user_in 2 40 changed_desk.rooms.participants) 40 changed_desk ≡ ok tt
unfolding may_send cuckoo.Pairing.Contacts.ensure_open
still_open = refl

still_there :
    get_message_by_key (person 2) retry_key changed_desk.messages
    ≡ get_message_by_key
        (person 2)
        retry_key
        (send_as_user no_mark no_links draw 0 2 40 (words hi retry_key) desk).desk.messages
unfolding cuckoo.Pairing.Contacts.ensure_open send_as_user send_if may_send send prepare
    compose_body resolve_attachments validate_caption validate_text validate_reply_to
    check_schedule_tag validate_idempotency_key is_valid trim_space trim_right trim_left is_space
    contains_rune draft commit committed claim_attachments fan_out create_message record_tap earlier
    find_by_key get_message_by_key list_agent_participants sort_by fan_out_to
still_there = refl

-- The limiter would make the sender wait, and is not asked.
send_again_example :
    send_as_user no_mark no_links later_draw 9 2 40 (words hi retry_key) changed_desk ≡ record {
      desk = changed_desk;
      nudged = [];
      answer = ok (sent_message (plain_body hi []), false);
    }
send_again_example =
    send_again no_mark no_links draw later_draw 0 9 2 40 hi retry_key retry_key desk changed_desk
      (sent_message (plain_body hi [])) true key_taken user_sent still_open still_there

file_sent :
    (send no_mark no_links draw 0 (person 2) 40 (with_files hi retry_key (70 ∷ [])) desk).answer
    ≡ ok (sent_message (plain_body hi (attachment_of photo ∷ [])), true)
unfolding send prepare compose_body resolve_attachments validate_caption validate_text
    validate_reply_to check_schedule_tag validate_idempotency_key is_valid trim_space trim_right
    trim_left is_space contains_rune draft commit committed claim_attachments fan_out create_message
    record_tap earlier find_by_key get_message_by_key list_agent_participants sort_by fan_out_to
file_sent = refl

send_again-files_example :
    send no_mark no_links later_draw 0
      (person 2)
      40
      (with_files hi retry_key (70 ∷ []))
      (send no_mark no_links draw 0 (person 2) 40 (with_files hi retry_key (70 ∷ [])) desk).desk
    ≡ not_sent
        (send no_mark no_links draw 0 (person 2) 40 (with_files hi retry_key (70 ∷ [])) desk).desk
        already_sent
send_again-files_example =
    send_again-files no_mark no_links draw later_draw 0 0 2 40 70 hi retry_key [] desk
      (sent_message (plain_body hi (attachment_of photo ∷ []))) file_sent

abbrev said : Message
said = sent_message (plain_body hi [])

fan_out_to_lem_example :
    ((b : ℕ)
      → count (tells said b) (fan_out_to 5 (λ a. a) [] said (7 ∷ 8 ∷ []) []).0
        ≡ places said b (7 ∷ 8 ∷ []) + count (tells said b) [])
    × ((fan_out_to 5 (λ a. a) [] said (7 ∷ 8 ∷ []) []).1
        ≡ filter (λ a. not (is_own_agent said a) && is_bound [] a) (7 ∷ 8 ∷ []))
fan_out_to_lem_example = fan_out_to_lem 5 (λ a. a) [] said (7 ∷ 8 ∷ []) []
