-- ===== src/Conversations/Streams/Examples.antt =====
-- A chat of a person and an agent that writes a reply.
use cuckoo.Base.{ℕ, ◌≡◌, ◌++◌, refl, true, false, ◌||◌, Option, none, some, [], ◌∷◌, arith}
use cuckoo.Base.Predicates.{All}
use cuckoo.Base.Sorting.{sort_by}
use cuckoo.Base.Text.{
  width, byte_len, trim_right, trim_left, trim_space, contains_rune, is_valid, Text, codes,
}
use cuckoo.Domain.Errors.{ok, err, conflict_error}
use cuckoo.Conversations.Membership.{Rooms, dm, user, agent, new_participant}
use cuckoo.Conversations.Desk.{Message, SendInput, get_message, streaming}
use cuckoo.Conversations.Composing.{validate_reply_to, check_schedule_tag, plain_body}
use cuckoo.Conversations.Sending.{earlier, may_send, SendDraw}
use cuckoo.Conversations.Streams.{open_buffer, append_to, append}
use cuckoo.Conversations.Streams.Writing.{
  begin, begin_new, begin_checked, append_result, append_if, Studio, start_stream, append_stream,
  check_delta,
}
use cuckoo.Conversations.Streams.Finishing.{
  ended_by_agent, ended_by_person, finish, clamp_text, is_cut,
}
use cuckoo.Conversations.Streams.Stopping.{
  list_streaming_in_conversation, end_each, announce_stop, Ended, is_open_in, stop, no_buttons,
}
use cuckoo.Conversations.Schedules.{in_chat}
use cuckoo.Conversations.Messages.{validate_idempotency_key}
use cuckoo.Pairing.Contacts.{ensure_open, is_conversation_blocked}
use cuckoo.Conversations.Streams.Quiet.{stop-closed}
use cuckoo.Conversations.Streams.Repeats.{finish-again, append-stopped}
use cuckoo.Conversations.Streams.Said.{started, extended, finish-said}

abbrev no_mark : Message → Text
no_mark m = []

abbrev no_reply : Option ℕ → Text
no_reply r = []

abbrev chat : Rooms
chat = record {
  conversations = record { id = 40; kind = dm; created_at = 1 } ∷ [];
  participants =
      new_participant 1 40 user (some 2) none ∷ new_participant 1 40 agent none (some 7) ∷ [];
}

abbrev quiet : Studio
quiet = record {
  desk = record {
    rooms = chat;
    contacts = [];
    bindings = [];
    messages = [];
    media = [];
    schedules = [];
    deliveries = [];
  };
  streams = record { buffers = []; active = [] };
}

abbrev blank : SendInput
blank = record {
  text = [];
  attachments = [];
  idempotency_key = [];
  reply_to = none;
  buttons = [];
  quick_replies = [];
  action = none;
  schedule_id = none;
}

abbrev draw : ℕ → SendDraw
draw now = record { now = now; message_id = 60; event_id = λ a. 500 }

abbrev reply : Message
reply = record {
  id = 60;
  conversation_id = 40;
  sender = record { kind = agent; id = 7 };
  body = plain_body [] [];
  created_at = 5;
  idempotency_key = none;
  status = streaming;
  truncated = false;
  reply_to_message_id = none;
  signature = [];
  stopped = false;
  schedule_id = none;
}

-- The studio while the reply is written, with the agent bound.
abbrev begun_studio : Studio
unfolding start_stream
begun_studio = (start_stream (draw 5) 0 7 40 blank quiet).studio

starting : (start_stream (draw 5) 0 7 40 blank quiet).answer ≡ ok (reply, true)
unfolding start_stream may_send in_chat ensure_open validate_idempotency_key check_schedule_tag
    validate_reply_to earlier begin_checked begin_new begin trim_space trim_left trim_right
    is_conversation_blocked
starting = refl

abbrev hello : Text
hello = codes "Hello"

adding : (append_stream 6 0 7 60 hello begun_studio).1 ≡ ok (2 ∷ [])
unfolding ensure_open sort_by start_stream append_stream append append_to append_if check_delta
    append_result begin_checked begin_new begin may_send validate_idempotency_key check_schedule_tag
    validate_reply_to earlier trim_space trim_left trim_right open_buffer is_valid contains_rune
    byte_len width
adding = refl

finish-said_example :
    (msg : Message) × ((finish no_mark
        (draw 9)
        7
        60
        no_buttons
        ended_by_agent
        (append_stream 6 0 7 60 hello begun_studio).0).answer
      ≡ ok msg)
    × (msg.body.text ≡ (clamp_text ([] ++ hello)).0)
    × (msg.truncated ≡ (is_cut ended_by_agent || (clamp_text ([] ++ hello)).1))
unfolding begun_studio
finish-said_example =
    finish-said no_mark (draw 9) 7 60 6 ([] ++ hello) no_buttons ended_by_agent
      (append_stream 6 0 7 60 hello begun_studio).0
      (extended 6 0 hello 5 [] begun_studio (2 ∷ [])
        (started (draw 5) 0 40 blank quiet reply starting refl) (ground arith) adding)
      (ground arith)

abbrev writing : Studio
writing = record quiet { desk = record quiet.desk { messages = reply ∷ [] } }

there : get_message 60 writing.desk.messages ≡ some reply
unfolding get_message
there = refl

finish-again_example :
    let f = finish no_mark (draw 8) 7 60 no_buttons ended_by_person writing in
    finish no_mark (draw 9) 7 60 no_buttons ended_by_agent f.studio
    ≡ record { studio = f.studio; nudged = []; answer = f.answer }
finish-again_example =
    finish-again no_mark (draw 8) (draw 9) 7 60 no_buttons no_buttons ended_by_person ended_by_agent
      reply writing there refl

valid : check_delta 0 hello ≡ ok tt
unfolding check_delta is_valid contains_rune
valid = refl

append-stopped_example :
    let f = finish no_mark (draw 8) 7 60 no_buttons ended_by_person writing in
    append_stream 9 0 7 60 hello f.studio ≡ (f.studio, err (conflict_error "stopped"))
append-stopped_example =
    append-stopped no_mark (draw 8) 7 60 9 0 no_buttons hello reply writing there refl valid

abbrev ended_now : Ended
unfolding announce_stop end_each list_streaming_in_conversation
ended_now =
    announce_stop no_mark no_reply (draw 9) 40
      (end_each no_mark draw (list_streaming_in_conversation 40 writing.desk.messages) writing)

stopping : stop no_mark no_reply draw (draw 9) 0 2 40 writing ≡ ok ended_now
unfolding stop in_chat ensure_open is_conversation_blocked ended_now
stopping = refl

stop-closed_example : All (λ m. is_open_in 40 m ≡ false) ended_now.studio.desk.messages
stop-closed_example = stop-closed no_mark no_reply draw (draw 9) 0 2 40 writing stopping

-- It was open before.
was_open : is_open_in 40 reply ≡ true
was_open = refl
