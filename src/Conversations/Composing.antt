-- ===== src/Conversations/Composing.antt =====
-- conversations/messages.go and schedules_agent.go: the checks before a message is sent. A stream, which starts
-- empty, is left out.
use cuckoo.Base.{
  ℕ, Bool, true, false, ◌&&◌, ◌||◌, not, Option, none, some, List, [], ◌∷◌, ◌==◌, is_some,
  if◌then◌else◌, find?,
}
use cuckoo.Base.Text.{Text, text_eq, trim_space}
use cuckoo.Domain.Errors.{
  Error, Result, ok, err, invalid_field, not_found_error, conflict_error, ◌>>=◌, ◌>>◌, refuse_if,
}
use cuckoo.Agents.Registry.{or_fail}
use cuckoo.Conversations.Membership.{ParticipantKind, user, agent}
use cuckoo.Conversations.Messages.{
  validate_caption, validate_idempotency_key, validate_quick_replies,
}
use cuckoo.Conversations.Messages.Buttons.{Button, Url, validate_buttons}
use cuckoo.Conversations.Attachments.{Sender, Attachment, resolve_attachments}
use cuckoo.Conversations.Desk.{
  MessageStatus, Action, Body, Message, SendInput, ScheduleStatus, Schedule, Desk, get_message,
  get_message_by_key, update_message_body, get_schedule, streaming, complete, paused,
}

-- `findByKey`: the message that the sender made under the key, if there is one.
unfoldable pub find_by_key : Sender → ℕ → Text → List Message → Result (Option Message)
unfolding get_message_by_key
find_by_key sender room key rows = elim (get_message_by_key sender key rows) [
  | none ↦ ok none
  | some m ↦
      if m.conversation_id == room
      then ok (some m)
      else err (conflict_error "idempotency_key_reused")
]

abbrev pub invalid_action : Error
invalid_action = invalid_field "action" "invalid_action"

-- b.ID != "" && b.ID == a.ButtonID
abbrev pub is_tapped : Text → Button → Bool
is_tapped i b = not (text_eq b.id []) && text_eq b.id i

-- The first of the buttons that was tapped, row by row.
tapped_of : Text → List (List Button) → Option Button
tapped_of i [] = none
tapped_of i (row ∷ rows) =
    let rest = tapped_of i rows in elim (find? (is_tapped i) row) [ none ↦ rest | some b ↦ some b ]

abbrev pub is_complete : MessageStatus → Bool
is_complete complete = true
is_complete streaming = false

abbrev pub is_agent : ParticipantKind → Bool
is_agent agent = true
is_agent user = false

pub resolve_tap : ℕ → Action → List Message → Result (Message × Button)
unfolding tapped_of get_message
resolve_tap room a rows =
    or_fail invalid_action (get_message a.source_message_id rows) >>= λ source.
    refuse_if (not (source.conversation_id == room)) invalid_action
    >> (refuse_if (not (is_agent source.sender.kind) || not (is_complete source.status))
          invalid_action
        >> (or_fail invalid_action (tapped_of a.button_id source.body.buttons) >>= λ b.
            ok (source, b)))

-- `recordTap`: which button of the offering message was taken.
unfoldable pub record_tap : Option (Message × Text) → List Message → List Message
unfolding update_message_body
record_tap none rows = rows
record_tap (some (source, taken)) rows =
    update_message_body source.id (record source.body { selected_button_id = taken }) rows

-- `validateReplyTo`
unfoldable pub validate_reply_to : ℕ → Option ℕ → List Message → Result (Option ℕ)
unfolding get_message
validate_reply_to room none rows = ok none
validate_reply_to room (some i) rows =
    or_fail (invalid_field "reply_to" "invalid_reply_to") (get_message i rows) >>= λ m.
    if m.conversation_id == room
    then ok (some i)
    else err (invalid_field "reply_to" "invalid_reply_to")

abbrev pub plain_body : Text → List Attachment → Body
plain_body text files = record {
  text = text;
  attachments = files;
  buttons = [];
  quick_replies = [];
  action = none;
  selected_button_id = [];
}

-- `len(atts) > 0`
abbrev pub has_any {ℓ} : {A : Type ℓ} → List A → Bool
has_any [] = false
has_any (x ∷ xs) = true

abbrev pub schedule_not_found : Error
schedule_not_found = not_found_error "schedule_not_found"

abbrev pub is_paused : ScheduleStatus → Bool
is_paused paused = true
is_paused _ = false

-- `checkScheduleTag`
unfoldable pub check_schedule_tag : Sender → ℕ → Option ℕ → List Schedule → Result (Unit {0})
unfolding get_schedule
check_schedule_tag sender room none rows = ok tt
check_schedule_tag sender room (some i) rows =
    refuse_if (not (is_agent sender.kind)) (invalid_field "schedule_id" "invalid_schedule_id")
    >> (or_fail schedule_not_found (get_schedule i rows) >>= λ s.
        refuse_if (not (s.agent_id == sender.id) || not (s.conversation_id == room))
          schedule_not_found
        >> (refuse_if (is_some s.deleted_at) (conflict_error "schedule_deleted")
            >> refuse_if (is_paused s.status) (conflict_error "schedule_paused")))

-- What a body is composed to, and the tap that it came from.
abbrev pub Composed : Type 0
Composed = Body × Option (Message × Text)

-- A person's words, with files.
compose_words : Sender → SendInput → Desk → Result Composed
unfolding resolve_attachments validate_caption
compose_words sender input desk =
    resolve_attachments sender desk.media input.attachments >>= λ files.
    validate_caption input.text (has_any files) >>= λ text. ok (plain_body text files, none)

compose_tap : ℕ → SendInput → Action → Desk → Result Composed
unfolding resolve_tap
compose_tap room input a desk =
    refuse_if (not (text_eq (trim_space input.text) [])) (invalid_field "text" "invalid_action")
    >> (refuse_if (has_any input.attachments) (invalid_field "attachments" "invalid_action")
        >> (resolve_tap room a desk.messages >>= λ found. ok (
          record (plain_body found.1.label []) {
            action = some (record { button_id = found.1.id; source_message_id = found.0.id });
          },
          some (found.0, found.1.id),
        )))

compose_by_user : Sender → ℕ → SendInput → Option Action → Desk → Result Composed
unfolding compose_words compose_tap
compose_by_user sender room input none desk = compose_words sender input desk
compose_by_user sender room input (some a) desk = compose_tap room input a desk

compose_by_agent : (Text → Option Url) → Sender → SendInput → Desk → Result Composed
unfolding resolve_attachments validate_caption validate_buttons validate_quick_replies
compose_by_agent parse sender input desk =
    refuse_if (is_some input.action) (invalid_field "action" "action_not_allowed")
    >> (resolve_attachments sender desk.media input.attachments >>= λ files.
        validate_caption input.text (has_any files) >>= λ text.
        validate_buttons parse input.buttons >>= λ buttons.
        validate_quick_replies input.quick_replies >>= λ quick.
        ok (record (plain_body text files) { buttons = buttons; quick_replies = quick }, none))

-- `composeBody`, of a message that is not streamed.
unfoldable pub compose_body : (Text → Option Url) → Sender → ℕ → SendInput → Desk → Result Composed
unfolding compose_by_user compose_by_agent
compose_body parse sender room input desk =
    if is_agent sender.kind
    then compose_by_agent parse sender input desk
    else (refuse_if (has_any input.buttons || has_any input.quick_replies)
          (invalid_field "buttons" "buttons_not_allowed")
        >> compose_by_user sender room input input.action desk)

-- What passed the checks.
pub record Prepared : Type 0 where
  pub body : Body
  pub tapped : Option (Message × Text)
  pub reply_to : Option ℕ
  pub key : Option Text

-- The checks before the look-up of the key.
unfoldable pub prepare : (Text → Option Url) → Sender → ℕ → SendInput → Desk → Result Prepared
unfolding compose_body validate_reply_to check_schedule_tag
prepare parse sender room input desk = compose_body parse sender room input desk >>= λ composed.
    validate_reply_to room input.reply_to desk.messages >>= λ reply.
    validate_idempotency_key input.idempotency_key >>= λ key.
    check_schedule_tag sender room input.schedule_id desk.schedules >>= λ _.
    ok (record { body = composed.0; tapped = composed.1; reply_to = reply; key = key })
