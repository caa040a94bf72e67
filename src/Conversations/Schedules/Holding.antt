-- ===== src/Conversations/Schedules/Holding.antt =====
-- conversations/schedules_agent.go: what an agent does to the schedules that it holds.
use cuckoo.Base.{
  ℕ, Bool, false, ◌&&◌, not, Option, none, some, List, [], ◌==◌, is_none, if◌then◌else◌,
}
use cuckoo.Base.Text.{Text, text_eq, codes}
use cuckoo.Domain.Errors.{
  Result, ok, err, internal_error, invalid_error, invalid_field, forbidden_error, ◌>>=◌, ◌>>◌,
  refuse_if,
}
use cuckoo.Agents.Registry.{Agent, get_agent, or_fail}
use cuckoo.Pairing.Contacts.{ensure_open}
use cuckoo.Conversations.Membership.{agent, agent_in}
use cuckoo.Conversations.Cadence.{Cadence, Clock}
use cuckoo.Conversations.Desk.{Desk, Schedule, ScheduleStatus, active, paused}
use cuckoo.Conversations.Composing.{schedule_not_found}
use cuckoo.Conversations.Schedules.{
  ScheduleDraw, Wrote, in_chat, schedule_in, checked, validate_title, validate_instruction,
  future_cadence, create_schedule, new_schedule, with_schedules, not_supported,
}
use cuckoo.Conversations.Agenda.{ScheduleFields, update_schedule, delete_schedule}

pub record AgentSchedule : Type 0 where
  pub title : Text
  pub instruction : Text
  pub cadence : Cadence

pub record AgentScheduleChange : Type 0 where
  pub title : Option Text
  pub instruction : Option Text
  pub cadence : Option Cadence
  pub status : Option Text

-- `agentSchedule`
unfoldable pub agent_schedule : ℕ → ℕ → ℕ → Desk → Result Schedule
unfolding in_chat schedule_in
agent_schedule bot room i desk =
    in_chat (agent_in bot room desk.rooms.participants) room desk
    >> (schedule_in room i desk.schedules >>= λ s.
        refuse_if (not (s.agent_id == bot)) schedule_not_found >> ok s)

-- The status that an agent may ask for.
unfoldable pub agent_status : ScheduleStatus → Option Text → Result (Option ScheduleStatus)
agent_status current none = ok none
agent_status current (some word) =
    if text_eq word (codes "active")
    then elim current [ paused ↦ err (forbidden_error "paused_by_person") | _ ↦ ok (some active) ]
    else if text_eq word (codes "paused")
    then ok (some paused)
    else err (invalid_field "status" "invalid_status")

abbrev pub is_empty : ScheduleFields → Bool
is_empty f = is_none f.title && is_none f.instruction && is_none f.cadence && is_none f.status

-- The row that a query returned, with the rows after.
unfoldable pub stored : List Schedule × Option Schedule → Desk → Result Wrote
stored written desk = or_fail schedule_not_found written.1 >>= λ s.
    ok (record { desk = with_schedules written.0 desk; schedule = s; nudged = [] })

-- `DeleteScheduleAsAgent`
unfoldable pub delete_as_agent : ScheduleDraw → ℕ → ℕ → ℕ → Desk → Result Wrote
unfolding agent_schedule delete_schedule stored
delete_as_agent d bot room i desk =
    agent_schedule bot room i desk >>= λ _. stored (delete_schedule d.now i desk.schedules) desk

module _ (clock : Clock) where
  unfoldable pub change_fields :
      ScheduleDraw → AgentScheduleChange → ScheduleStatus → Result ScheduleFields
  unfolding validate_title validate_instruction future_cadence agent_status
  change_fields d input current = checked validate_title input.title >>= λ title.
      checked validate_instruction input.instruction >>= λ instruction.
      checked (future_cadence clock d.now) input.cadence >>= λ cadence.
      agent_status current input.status >>= λ status.
      ok (record { title = title; instruction = instruction; cadence = cadence; status = status })

  -- `UpdateScheduleAsAgent`
  unfoldable pub update_as_agent :
      ScheduleDraw → ℕ → ℕ → ℕ → AgentScheduleChange → Desk → Result Wrote
  unfolding agent_schedule change_fields update_schedule stored
  update_as_agent d bot room i input desk = agent_schedule bot room i desk >>= λ current.
      change_fields d input current.status >>= λ fields.
      refuse_if (is_empty fields) (invalid_error "no_changes")
      >> stored (update_schedule d.now i fields desk.schedules) desk

  module _ (encode : Schedule → Text) where
    -- `CreateScheduleAsAgent`
    unfoldable pub create_as_agent :
        ScheduleDraw → ℕ → ℕ → AgentSchedule → List Agent → Desk → Result Wrote
    unfolding in_chat ensure_open get_agent validate_title validate_instruction future_cadence
        create_schedule
    create_as_agent d bot room input agents desk =
        in_chat (agent_in bot room desk.rooms.participants) room desk
        >> (ensure_open room desk.rooms.participants desk.contacts
            >> (or_fail internal_error (get_agent bot agents) >>= λ row.
                refuse_if (not row.supports_schedules) not_supported
                >> (validate_title input.title >>= λ title.
                    validate_instruction input.instruction >>= λ instruction.
                    future_cadence clock d.now input.cadence >>= λ cadence.
                    create_schedule encode d
                      (new_schedule d bot room title instruction cadence active agent) false desk)))
