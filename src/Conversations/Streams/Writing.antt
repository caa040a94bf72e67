-- ===== src/Conversations/Streams/Writing.antt =====
-- conversations/streaming.go: a message that its agent writes piece by piece. The answers of the rate limiter and the
-- signature are arguments; notices to devices are left out, and so are the errors of Redis.
use cuckoo.Base.{
  ℕ, Bool, true, false, ◌&&◌, ◌||◌, not, Option, none, some, List, [], map, ◌==◌, ltb, leb,
  if◌then◌else◌, filter, is_some,
}
use cuckoo.Base.Sorting.{sort_by}
use cuckoo.Base.Text.{Text, text_eq, is_valid, contains_rune, trim_space}
use cuckoo.Domain.Errors.{
  Error, Result, ok, err, conflict_error, invalid_error, invalid_field, rate_limited_error, ◌>>=◌,
  ◌>>◌, refuse_if,
}
use cuckoo.Conversations.Membership.{Participant, agent, agent_in}
use cuckoo.Conversations.Messages.{validate_idempotency_key}
use cuckoo.Conversations.Desk.{
  Message, SendInput, Desk, create_message, get_message, mark_schedule_ran, streaming,
}
use cuckoo.Conversations.Composing.{
  validate_reply_to, check_schedule_tag, plain_body, has_any, is_agent,
}
use cuckoo.Conversations.Sending.{SendDraw, earlier, may_send}
use cuckoo.Conversations.Streams.{
  StreamStore, Appended, open_buffer, append, not_streaming, too_long, added,
}

-- 5 * time.Minute
abbrev pub stream_stuck_for : ℕ
stream_stuck_for = 300000000000

-- The tables, and the texts in Redis.
pub record Studio : Type 0 where
  pub desk : Desk
  pub streams : StreamStore

-- `composeBody`, of a stream.
compose_stream : SendInput → Result (Unit {0})
compose_stream input =
    refuse_if (not (text_eq (trim_space input.text) [])) (invalid_field "text" "stream_with_text")
    >> (refuse_if (has_any input.buttons || has_any input.quick_replies)
          (invalid_field "buttons" "stream_with_buttons")
        >> (refuse_if (is_some input.action) (invalid_field "action" "action_not_allowed")
            >> refuse_if (has_any input.attachments)
                (invalid_field "attachments" "stream_with_attachments")))

-- Null is filtered out before.
abbrev user_key : Option ℕ → ℕ
user_key none = 0
user_key (some u) = u

-- ORDER BY joined_at, user_id
abbrev person_before : Participant → Participant → Bool
person_before p q =
    ltb p.joined_at q.joined_at
    || (p.joined_at == q.joined_at && leb (user_key p.user_id) (user_key q.user_id))

abbrev list_user_participants : ℕ → List Participant → List ℕ
list_user_participants room rows =
    map (λ p. user_key p.user_id)
      (sort_by person_before (filter (λ p. p.conversation_id == room && is_some p.user_id) rows))

pub record Started : Type 0 where
  pub studio : Studio
  pub answer : Result (Message × Bool)

abbrev pub begun : SendDraw → ℕ → ℕ → Option Text → Option ℕ → Option ℕ → Message
begun d bot room key reply schedule = record {
  id = d.message_id;
  conversation_id = room;
  sender = record { kind = agent; id = bot };
  body = plain_body [] [];
  created_at = d.now;
  idempotency_key = key;
  status = streaming;
  truncated = false;
  reply_to_message_id = reply;
  signature = [];
  stopped = false;
  schedule_id = schedule;
}

-- The row, and then the buffer of `openStream`.
unfoldable pub begin : SendDraw → Message → Studio → Started
unfolding create_message mark_schedule_ran open_buffer
begin d msg st = record {
  studio = record {
    desk = record st.desk {
      messages = create_message msg st.desk.messages;
      schedules = mark_schedule_ran d.now msg.schedule_id st.desk.schedules;
    };
    streams =
        open_buffer d.now (record { agent_id = msg.sender.id; message_id = msg.id })
          msg.conversation_id
          (list_user_participants msg.conversation_id st.desk.rooms.participants) st.streams;
  };
  answer = ok (msg, true);
}

abbrev pub not_started : Studio → Error → Started
not_started st e = record { studio = st; answer = err e }

-- A retry is answered before the rate limit is consulted.
unfoldable pub begin_new : SendDraw → ℕ → Message → Result (Option Message) → Studio → Started
unfolding begin
begin_new d wait msg (err e) st = not_started st e
begin_new d wait msg (ok (some m)) st = record { studio = st; answer = ok (m, false) }
begin_new d wait msg (ok none) st =
    if ltb 0 wait then not_started st (rate_limited_error "rate_limited" wait) else begin d msg st

-- The checks, and the key and the reply that they leave.
unfoldable pub stream_checks : ℕ → ℕ → SendInput → Desk → Result (Option Text × Option ℕ)
unfolding may_send compose_stream validate_reply_to check_schedule_tag
stream_checks bot room input desk =
    may_send (agent_in bot room desk.rooms.participants) room desk >>= λ _.
    compose_stream input >>= λ _. validate_reply_to room input.reply_to desk.messages >>= λ reply.
    validate_idempotency_key input.idempotency_key >>= λ key.
    check_schedule_tag (record { kind = agent; id = bot }) room input.schedule_id desk.schedules
    >>= λ _. ok (key, reply)

unfoldable pub begin_checked :
    SendDraw → ℕ → ℕ → ℕ → Option ℕ → Result (Option Text × Option ℕ) → Studio → Started
unfolding begin_new earlier
begin_checked d wait bot room schedule (err e) st = not_started st e
begin_checked d wait bot room schedule (ok (key, reply)) st =
    begin_new d wait (begun d bot room key reply schedule)
      (earlier (record { kind = agent; id = bot }) room key st.desk.messages) st

-- `StartStream`
unfoldable pub start_stream : SendDraw → ℕ → ℕ → ℕ → SendInput → Studio → Started
unfolding begin_checked stream_checks
start_stream d wait bot room input st =
    begin_checked d wait bot room input.schedule_id (stream_checks bot room input st.desk) st

-- sender_agent_id = $1
abbrev pub is_own : ℕ → Message → Bool
is_own bot m = is_agent m.sender.kind && m.sender.id == bot

abbrev pub is_stopped_by : ℕ → Option Message → Bool
is_stopped_by bot none = false
is_stopped_by bot (some m) = m.stopped && is_own bot m

-- `whyNotStreaming`
unfoldable pub why_not_streaming : ℕ → ℕ → List Message → Error
unfolding get_message
why_not_streaming bot i rows =
    if is_stopped_by bot (get_message i rows)
    then conflict_error "stopped"
    else conflict_error "not_streaming"

unfoldable pub append_result : ℕ → ℕ → List Message → Appended → Result (List ℕ)
unfolding why_not_streaming
append_result bot i rows not_streaming = err (why_not_streaming bot i rows)
append_result bot i rows too_long = err (invalid_error "stream_too_long")
append_result bot i rows (added room users) = ok users

unfoldable pub check_delta : ℕ → Text → Result (Unit {0})
check_delta wait delta =
    refuse_if (text_eq delta []) (invalid_field "text" "invalid_text")
    >> (refuse_if (not (is_valid delta) || contains_rune 0 delta)
          (invalid_field "text" "invalid_text")
        >> refuse_if (ltb 0 wait) (rate_limited_error "rate_limited" wait))

unfoldable pub append_if : Result (Unit {0}) → ℕ → ℕ → ℕ → Text → Studio → Studio × Result (List ℕ)
unfolding append append_result
append_if (err e) now bot i delta st = (st, err e)
append_if (ok _) now bot i delta st =
    let made = append now (record { agent_id = bot; message_id = i }) delta st.streams in
    (record st { streams = made.0 }, append_result bot i st.desk.messages made.1)

-- `AppendStream`: its answer is the people who are told.
unfoldable pub append_stream : ℕ → ℕ → ℕ → ℕ → Text → Studio → Studio × Result (List ℕ)
unfolding append_if check_delta
append_stream now wait bot i delta st = append_if (check_delta wait delta) now bot i delta st
