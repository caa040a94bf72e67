-- ===== src/Conversations/Schedules/Reading.antt =====
-- The lists of schedules, the next run and the missed one that a person is shown, and the move to another
-- time zone (conversations/schedules.go, schedules_agent.go).
use cuckoo.Base.{
  ℕ, ◌-◌, Bool, ◌&&◌, ◌||◌, not, Option, none, some, List, [], ◌∷◌, ◌++◌, ◌==◌, ltb, leb, is_none,
  is_some, filter, any, if◌then◌else◌,
}
use cuckoo.Base.Sorting.{sort_by}
use cuckoo.Base.Text.{Text, text_eq}
use cuckoo.Domain.Errors.{Result, ok, err, ◌>>=◌, ◌>>◌}
use cuckoo.Delivery.Outbox.{schedule_updated}
use cuckoo.Conversations.Membership.{Participant, user_in, agent_in, is_key}
use cuckoo.Conversations.Cadence.{Cadence, Clock, next, previous}
use cuckoo.Conversations.Desk.{Desk, Schedule, ScheduleStatus, active, paused}
use cuckoo.Conversations.Schedules.{ScheduleDraw, Wrote, in_chat, same_status, write_schedule}
use cuckoo.Conversations.Agenda.{ScheduleFields, is_live_in, update_schedule}

-- ORDER BY created_at, id
abbrev older : Schedule → Schedule → Bool
older s r = ltb s.created_at r.created_at || (s.created_at == r.created_at && leb s.id r.id)

pub list_rows : ℕ → List Schedule → List Schedule
list_rows room rows = sort_by older (filter (is_live_in room) rows)

-- `ListSchedules`
pub list_schedules : ℕ → ℕ → Desk → Result (List Schedule)
unfolding in_chat list_rows
list_schedules who room desk =
    in_chat (user_in who room desk.rooms.participants) room desk
    >> ok (list_rows room desk.schedules)

-- `ListSchedulesForAgent`
pub list_schedules_for_agent : ℕ → ℕ → Desk → Result (List Schedule)
unfolding in_chat list_rows
list_schedules_for_agent bot room desk =
    in_chat (agent_in bot room desk.rooms.participants) room desk
    >> ok (filter (λ s. s.agent_id == bot) (list_rows room desk.schedules))

-- 10 * time.Minute
abbrev miss_grace : ℕ
miss_grace = 600000000000

abbrev a_minute : ℕ
a_minute = 60000000000

abbrev created_before : Schedule → Schedule → Bool
created_before s r = leb s.created_at r.created_at

pub list_person_schedules_in_zone : ℕ → Text → List Participant → List Schedule → List Schedule
list_person_schedules_in_zone who zone members rows = sort_by created_before (
    filter
      (λ s.
        is_none s.deleted_at
        && text_eq s.cadence.timezone zone
        && any (λ p. p.conversation_id == s.conversation_id && is_key who p.user_id) members)
      rows)

abbrev moved_to : Text → Cadence → Cadence
moved_to zone c = record c { timezone = zone }

abbrev moved_status : ScheduleStatus → ScheduleStatus
moved_status paused = paused
moved_status _ = ScheduleStatus.pending

abbrev pub moved_fields : Text → Schedule → ScheduleFields
moved_fields zone s = record {
  title = none;
  instruction = none;
  cadence = some (moved_to zone s.cadence);
  status = some (moved_status s.status);
}

-- One turn of the loop of `MoveSchedules`: an error ends it, after what was written.
unfoldable pub moved_then :
    Desk → Result Wrote → (Desk → Desk × Result (List ℕ)) → Desk × Result (List ℕ)
moved_then desk (err e) rest = (desk, err e)
moved_then desk (ok w) rest =
    let (after, nudged) = rest w.desk in (after, nudged >>= λ more. ok (w.nudged ++ more))

module _ (encode : Schedule → Text) where
  -- The loop of `MoveSchedules`, with what each call draws.
  unfoldable pub move_all :
      (ℕ → ScheduleDraw) → Text → List Schedule → Desk → Desk × Result (List ℕ)
  unfolding update_schedule write_schedule moved_then
  move_all draw zone [] desk = (desk, ok [])
  move_all draw zone (s ∷ rows) desk =
      moved_then desk
        (write_schedule encode (draw s.id) schedule_updated
          (update_schedule (draw s.id).now s.id (moved_fields zone s) desk.schedules) desk)
        (move_all draw zone rows)

  -- `MoveSchedules`
  unfoldable pub move_schedules :
      (ℕ → ScheduleDraw) → ℕ → Text → Text → Desk → Desk × Result (List ℕ)
  unfolding list_person_schedules_in_zone move_all
  move_schedules draw who old new desk =
      if text_eq old new
      then (desk, ok [])
      else move_all draw new
          (list_person_schedules_in_zone who old desk.rooms.participants desk.schedules) desk

module _ (clock : Clock) where
  -- `NextRun`
  pub next_run : ℕ → Schedule → Option ℕ
  unfolding next
  next_run now s =
      if same_status s.status paused || is_some s.deleted_at then none else next clock s.cadence now

  missed_due : Schedule → Option ℕ → Option ℕ
  missed_due s none = none
  missed_due s (some due) = if ltb due s.created_at then none else elim s.last_run_at [
    | none ↦ some due
    | some ran ↦ if ltb ran (due - a_minute) then some due else none
  ]

  -- `MissedAt`
  pub missed_at : ℕ → Schedule → Option ℕ
  unfolding previous missed_due
  missed_at now s =
      if not (same_status s.status active) || is_some s.deleted_at
      then none
      else missed_due s (previous clock s.cadence (now - miss_grace))
