-- ===== src/Conversations/Schedules.antt =====
-- conversations/schedules.go: the checks of what is asked for, and what a person does to a schedule. The event that tells an agent of it holds the schedule
-- encoded, by an argument. What people's devices are shown is left out.
pub mod Holding
pub mod Reading
pub mod Calls
pub mod Histories
pub mod Reads
pub mod Silence
pub mod Limit
mod Examples
use cuckoo.Conversations.Agenda.{
  ScheduleFields, coalesce, count_schedules, delete_schedule, end_at, ended, is_live, is_live_in,
  set_fields, update_schedule,
}
use cuckoo.Base.{
  ℕ, Bool, true, false, ◌&&◌, ◌||◌, not, Option, none, some, List, [], ◌∷◌, ◌++◌, ◌==◌, ltb, leb,
  is_none, is_some, if◌then◌else◌, find?, update, count, length, take, any,
}
use cuckoo.Base.Text.{Text, text_eq, is_valid, trim_space, contains_any, codes}
use cuckoo.Domain.Errors.{
  Error, Result, ok, err, invalid_field, not_found_error, forbidden_error, conflict_error,
  rate_limited_error, ◌>>=◌, ◌>>◌, refuse_if,
}
use cuckoo.Agents.Registry.{Agent, get_agent, or_fail}
use cuckoo.Delivery.Outbox.{EventType, schedule_requested, schedule_updated, schedule_deleted}
use cuckoo.Pairing.Contacts.{ensure_open}
use cuckoo.Conversations.Membership.{ParticipantKind, user, agent, user_in, enqueue}
use cuckoo.Conversations.Cadence.{Cadence, Clock, normalized, next, invalid_cadence}
use cuckoo.Conversations.Desk.{
  Desk, Schedule, ScheduleStatus, active, paused, get_schedule, list_agent_participants,
}
use cuckoo.Conversations.Composing.{schedule_not_found}

abbrev pub max_schedules : ℕ
max_schedules = 10

abbrev pub title_max : ℕ
title_max = 60

abbrev pub instruction_max : ℕ
instruction_max = 500

-- `validateInstruction`
pub validate_instruction : Text → Result Text
validate_instruction raw =
    let text = trim_space raw in
    refuse_if (text_eq text [] || not (is_valid text) || ltb instruction_max (length text))
      (invalid_field "instruction" "invalid_instruction")
    >> ok text

-- `validateTitle`
pub validate_title : Text → Result Text
validate_title raw =
    let title = trim_space raw in
    refuse_if
      (text_eq title [] || contains_any (codes "\n\r") title || ltb title_max (length title))
      (invalid_field "title" "invalid_title")
    >> ok title

-- What strings.Cut finds before the first line break.
abbrev pub first_line : Text → Text
first_line [] = []
first_line (c ∷ s) = let rest = first_line s in if c == 10 then [] else c ∷ rest

-- `titleFrom`
abbrev pub title_from : Text → Text
title_from instruction =
    let line = first_line instruction in
    if leb (length line) title_max then line else take 59 line ++ 0x2026 ∷ []

-- The two tests of `member`.
unfoldable pub in_chat : Bool → ℕ → Desk → Result (Unit {0})
in_chat inside room desk =
    refuse_if (not (any (λ c. c.id == room) desk.rooms.conversations))
      (not_found_error "conversation_not_found")
    >> refuse_if (not inside) (forbidden_error "not_participant")

-- `scheduleIn`
pub schedule_in : ℕ → ℕ → List Schedule → Result Schedule
unfolding get_schedule
schedule_in room i rows = or_fail schedule_not_found (get_schedule i rows) >>= λ s.
    refuse_if (not (s.conversation_id == room) || is_some s.deleted_at) schedule_not_found >> ok s

abbrev pub not_supported : Error
not_supported = conflict_error "schedules_not_supported"

-- The agent of a chat that has one.
abbrev only : List ℕ → Option ℕ
only [] = none
only (a ∷ []) = some a
only (a ∷ b ∷ more) = none

-- `schedulingAgent`
pub scheduling_agent : ℕ → List Agent → Desk → Result ℕ
unfolding list_agent_participants get_agent
scheduling_agent room agents desk =
    or_fail not_supported (only (list_agent_participants room desk.rooms.participants)) >>= λ a.
    or_fail not_supported (get_agent a agents) >>= λ row.
    refuse_if (not row.supports_schedules) not_supported >> ok row.id

-- `futureCadence`
pub future_cadence : Clock → ℕ → Cadence → Result Cadence
unfolding normalized next
future_cadence clock now raw =
    normalized clock raw >>= λ c. refuse_if (is_none (next clock c now)) invalid_cadence >> ok c

-- A field that may be missing, checked where it is there.
abbrev pub checked {ℓ} : {A : Type ℓ} → (A → Result A) → Option A → Result (Option A)
checked f none = ok none
checked f (some a) = f a >>= λ b. ok (some b)

-- What a call draws, and what it leaves: an error leaves everything as it was.
pub record ScheduleDraw : Type 0 where
  pub now : ℕ
  pub schedule_id : ℕ
  pub event_id : ℕ

pub record Wrote : Type 0 where
  pub desk : Desk
  pub schedule : Schedule
  pub nudged : List ℕ

abbrev pub with_schedules : List Schedule → Desk → Desk
with_schedules rows desk = record desk { schedules = rows }

pub record ScheduleRequest : Type 0 where
  pub instruction : Text
  pub cadence : Cadence

pub record ScheduleChange : Type 0 where
  pub pause : Option Bool
  pub instruction : Option Text
  pub cadence : Option Cadence

abbrev pub new_schedule :
    ScheduleDraw → ℕ → ℕ → Text → Text → Cadence → ScheduleStatus → ParticipantKind → Schedule
new_schedule d bot room title instruction cadence status by = record {
  id = d.schedule_id;
  agent_id = bot;
  conversation_id = room;
  title = title;
  instruction = instruction;
  cadence = cadence;
  status = status;
  created_by = by;
  last_run_at = none;
  created_at = d.now;
  updated_at = d.now;
  deleted_at = none;
}

-- The status after a person's change of what or when, and their word on the pause.
abbrev pub repaused : ScheduleStatus → Option Bool → ScheduleStatus
repaused s none = s
repaused s (some true) = paused
repaused paused (some false) = active
repaused s (some false) = s

abbrev pub same_status : ScheduleStatus → ScheduleStatus → Bool
same_status ScheduleStatus.pending ScheduleStatus.pending = true
same_status active active = true
same_status paused paused = true
same_status _ _ = false

abbrev pub title_of : Option Text → Option Text
title_of none = none
title_of (some t) = some (title_from t)

abbrev pub person_fields : Option Text → Option Cadence → ScheduleStatus → ScheduleFields
person_fields instruction cadence status = record {
  title = title_of instruction;
  instruction = instruction;
  cadence = cadence;
  status = some status;
}

module _ (encode : Schedule → Text) where
  -- The event of a schedule, in the transaction that wrote it.
  tell_agent : ScheduleDraw → EventType → Schedule → List Schedule → Desk → Wrote
  unfolding enqueue
  tell_agent d event s rows desk =
      let (deliveries, bound) =
        enqueue d.now d.event_id desk.bindings s.agent_id s.conversation_id event (encode s)
          desk.deliveries in
      record {
        desk = record desk { schedules = rows; deliveries = deliveries };
        schedule = s;
        nudged = if bound then s.agent_id ∷ [] else [];
      }

  -- `createSchedule`
  pub create_schedule : ScheduleDraw → Schedule → Bool → Desk → Result Wrote
  unfolding count_schedules tell_agent
  create_schedule d row tell desk =
      refuse_if (leb max_schedules (count_schedules row.conversation_id desk.schedules))
        (conflict_error "too_many_schedules")
      >> (if tell
          then ok (tell_agent d schedule_requested row (row ∷ desk.schedules) desk)
          else ok (record {
            desk = with_schedules (row ∷ desk.schedules) desk;
            schedule = row;
            nudged = [];
          }))

  -- `writeSchedule`
  pub write_schedule :
      ScheduleDraw → EventType → List Schedule × Option Schedule → Desk → Result Wrote
  unfolding tell_agent
  write_schedule d event written desk =
      or_fail schedule_not_found written.1 >>= λ s. ok (tell_agent d event s written.0 desk)

  module _ (clock : Clock) where
    -- `RequestSchedule`; `wait` is the limiter's answer.
    unfoldable pub request_schedule :
        ScheduleDraw → ℕ → ℕ → ℕ → ScheduleRequest → List Agent → Desk → Result Wrote
    unfolding in_chat ensure_open scheduling_agent validate_instruction future_cadence
        create_schedule
    request_schedule d wait who room input agents desk =
        in_chat (user_in who room desk.rooms.participants) room desk
        >> (ensure_open room desk.rooms.participants desk.contacts
            >> (scheduling_agent room agents desk >>= λ bot.
                validate_instruction input.instruction >>= λ instruction.
                future_cadence clock d.now input.cadence >>= λ cadence.
                refuse_if (ltb 0 wait) (rate_limited_error "rate_limited" wait)
                >> create_schedule d
                    (new_schedule d bot room (title_from instruction) instruction cadence
                      ScheduleStatus.pending user)
                    true desk))

    change_to :
        ScheduleDraw
        → ℕ
        → Schedule
        → Option Text
        → Option Cadence
        → Option Bool
        → Desk
        → Result Wrote
    unfolding update_schedule write_schedule
    change_to d i current instruction cadence pause desk =
        let changed = is_some instruction || is_some cadence in
        let status = repaused (if changed then ScheduleStatus.pending else current.status) pause in
        if not changed && same_status status current.status
        then ok (record { desk = desk; schedule = current; nudged = [] })
        else write_schedule d schedule_updated
            (update_schedule d.now i (person_fields instruction cadence status) desk.schedules) desk

    -- `UpdateSchedule`
    pub update_by_person : ScheduleDraw → ℕ → ℕ → ℕ → ScheduleChange → Desk → Result Wrote
    unfolding in_chat schedule_in validate_instruction future_cadence change_to
    update_by_person d who room i input desk =
        in_chat (user_in who room desk.rooms.participants) room desk
        >> (schedule_in room i desk.schedules >>= λ current.
            checked validate_instruction input.instruction >>= λ instruction.
            checked (future_cadence clock d.now) input.cadence >>= λ cadence.
            change_to d i current instruction cadence input.pause desk)

  -- `DeleteSchedule`
  pub delete_by_person : ScheduleDraw → ℕ → ℕ → ℕ → Desk → Result Wrote
  unfolding in_chat schedule_in delete_schedule write_schedule
  delete_by_person d who room i desk =
      in_chat (user_in who room desk.rooms.participants) room desk
      >> (schedule_in room i desk.schedules >>= λ _.
          write_schedule d schedule_deleted (delete_schedule d.now i desk.schedules) desk)
