-- ===== src/Conversations/Streams/Finishing.antt =====
-- conversations/streaming.go: how a message that is being written is finished, by its agent, by a person's stop or
-- by the hub. The signature is an argument; notices to devices are left out.
use cuckoo.Base.{
  ℕ, Bool, true, false, ◌&&◌, ◌||◌, Option, none, some, List, [], ◌==◌, leb, length, take,
  if◌then◌else◌, find?, update,
}
use cuckoo.Base.Text.{Text}
use cuckoo.Domain.Errors.{Error, Result, ok, err, not_found_error, ◌>>=◌}
use cuckoo.Conversations.Messages.{text_max_len, validate_quick_replies}
use cuckoo.Conversations.Messages.Buttons.{Url, Button, validate_buttons}
use cuckoo.Conversations.Desk.{MessageStatus, Body, Message, get_message, streaming, complete}
use cuckoo.Conversations.Composing.{plain_body, is_complete}
use cuckoo.Conversations.Sending.{SendDraw, fan_out}
use cuckoo.Conversations.Streams.{buffer_text, remove}
use cuckoo.Conversations.Streams.Writing.{Studio, is_own}

-- `ending`
pub data Ending : Type 0 where
  ended_by_agent ended_by_hub ended_by_person : Ending

-- `clampText`
abbrev pub clamp_text : Text → Text × Bool
clamp_text text =
    if leb (length text) text_max_len then (text, false) else (take text_max_len text, true)

-- end != endedByAgent
abbrev pub is_cut : Ending → Bool
is_cut ended_by_agent = false
is_cut ended_by_hub = true
is_cut ended_by_person = true

abbrev pub is_stop : Ending → Bool
is_stop ended_by_person = true
is_stop _ = false

abbrev pub is_streaming : MessageStatus → Bool
is_streaming streaming = true
is_streaming complete = false

-- The `WHERE` of a finish.
abbrev pub is_written_by : ℕ → ℕ → Message → Bool
is_written_by bot i m = m.id == i && (is_own bot m && is_streaming m.status)

pub record FinishInput : Type 0 where
  pub buttons : List (List Button)
  pub quick_replies : List Text

abbrev pub body_of : Text → FinishInput → Body
body_of text input = record (plain_body text []) {
  buttons = input.buttons;
  quick_replies = input.quick_replies;
}

-- `FinishMessage`
abbrev pub finish_message : Body → Bool → Bool → Message → Message
finish_message body cut stopped m = record m {
  body = body;
  status = complete;
  truncated = cut;
  stopped = stopped;
}

abbrev pub not_own_stream : Error
not_own_stream = not_found_error "stream_not_found"

-- `ownFinishedMessage`
unfoldable pub own_finished_message : ℕ → ℕ → List Message → Result Message
unfolding get_message
own_finished_message bot i rows = elim (get_message i rows) [
  | none ↦ err not_own_stream
  | some m ↦ if is_own bot m && is_complete m.status then ok m else err not_own_stream
]

pub record Finish : Type 0 where
  pub studio : Studio
  pub nudged : List ℕ
  pub answer : Result Message

module _ (sign : Message → Text) where
  -- The whole text is known only now, so the mark goes on now. A hub without a key signs with nothing, which is
  -- what the row of a stream holds.
  abbrev pub signed : Message → Message
  signed m = record m { signature = sign m }

  -- What the finish makes of a row that is still written.
  abbrev pub final : Text → FinishInput → Ending → Message → Message
  final text input end m = signed (
      finish_message (body_of (clamp_text text).0 input) (is_cut end || (clamp_text text).1)
        (is_stop end) m)

  unfoldable pub finish_found :
      SendDraw → ℕ → ℕ → FinishInput → Ending → Text → Option Message → Studio → Finish
  unfolding own_finished_message fan_out remove
  finish_found d bot i input end text none st = record {
    studio = st;
    nudged = [];
    answer = own_finished_message bot i st.desk.messages;
  }
  finish_found d bot i input end text (some m) st =
      let msg = final text input end m in
      let told = fan_out d.now d.event_id msg st.desk in
      record {
        studio = record {
          desk = record st.desk {
            messages = update (is_written_by bot i) (final text input end) st.desk.messages;
            deliveries = told.0;
          };
          streams = remove (record { agent_id = bot; message_id = i }) st.streams;
        };
        nudged = told.1;
        answer = ok msg;
      }

  -- `finishStream`
  unfoldable pub finish : SendDraw → ℕ → ℕ → FinishInput → Ending → Studio → Finish
  unfolding finish_found buffer_text
  finish d bot i input end st =
      finish_found d bot i input end
        (buffer_text d.now (record { agent_id = bot; message_id = i }) st.streams)
        (find? (is_written_by bot i) st.desk.messages) st

  finish_if : SendDraw → ℕ → ℕ → Result FinishInput → Studio → Finish
  unfolding finish
  finish_if d bot i (err e) st = record { studio = st; nudged = []; answer = err e }
  finish_if d bot i (ok input) st = finish d bot i input ended_by_agent st

  -- The checks of `FinishStream`
  unfoldable check_finish : (Text → Option Url) → FinishInput → Result FinishInput
  unfolding validate_buttons validate_quick_replies
  check_finish parse input = validate_buttons parse input.buttons >>= λ buttons.
      validate_quick_replies input.quick_replies >>= λ quick.
      ok (record { buttons = buttons; quick_replies = quick })

  -- `FinishStream`
  pub finish_stream : (Text → Option Url) → SendDraw → ℕ → ℕ → FinishInput → Studio → Finish
  unfolding finish_if check_finish
  finish_stream parse d bot i input st = finish_if d bot i (check_finish parse input) st
