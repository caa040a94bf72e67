-- ===== src/Conversations/Schedules/Histories.antt =====
-- Histories of the calls on schedules, with all that is done elsewhere between them.
use cuckoo.Base.{
  Bool-cases, ℕ, ◌≡◌, refl, sym, subst, inl, inr, false, Option, none, some, List, [], ◌∷◌, ◌==◌,
  leb, update,
}
use cuckoo.Base.Text.{Text, text_eq}
use cuckoo.Domain.Errors.{Result, ok, err}
use cuckoo.Agents.Registry.{Agent}
use cuckoo.Delivery.Outbox.{schedule_updated}
use cuckoo.Conversations.Cadence.{Clock}
use cuckoo.Conversations.Desk.{Desk, Schedule, get_schedule, ran_at, mark_schedule_ran}
use cuckoo.Conversations.Schedules.{
  ScheduleDraw, ScheduleRequest, ScheduleChange, Wrote, max_schedules, write_schedule,
  request_schedule, update_by_person, delete_by_person, with_schedules,
}
use cuckoo.Conversations.Agenda.{
  ScheduleFields, is_live, set_fields, end_at, count_schedules, update_schedule,
}
use cuckoo.Conversations.Schedules.Holding.{
  AgentSchedule, AgentScheduleChange, create_as_agent, update_as_agent, delete_as_agent,
}
use cuckoo.Conversations.Schedules.Reading.{
  moved_then, move_all, move_schedules, moved_fields, list_person_schedules_in_zone,
}
use cuckoo.Conversations.Schedules.Calls.{
  delete_by_person-found, delete_as_agent-rows, request_schedule-IsMade, write_schedule-rows,
  create_as_agent-IsMade, IsMade, update_by_person-IsChanged, update_as_agent-rows,
}

-- What a write may do to the table. An identifier that is made is one that no row has.
pub data Write : List Schedule → List Schedule → Type 0 where
  kept : (rows : List Schedule) → Write rows rows
  made :
      (row : Schedule) (rows : List Schedule)
      → get_schedule row.id rows ≡ none
      → leb max_schedules (count_schedules row.conversation_id rows) ≡ false
      → Write rows (row ∷ rows)
  changed :
      (now i : ℕ) (f : ScheduleFields) (rows : List Schedule)
      → Write rows (update (is_live i) (set_fields now f) rows)
  ended : (now i : ℕ) (rows : List Schedule) → Write rows (update (is_live i) (end_at now) rows)
  ran : (now i : ℕ) (rows : List Schedule) → Write rows (update (λ s. s.id == i) (ran_at now) rows)

-- What an agent does, its sends for a schedule included. An identifier that is drawn is new.
pub data AgentCall (clock : Clock) (encode : Schedule → Text) : Desk → Desk → Type 0 where
  create :
      (d : ScheduleDraw) (bot room : ℕ) (input : AgentSchedule) (agents : List Agent) (desk : Desk)
      (w : Wrote)
      → get_schedule d.schedule_id desk.schedules ≡ none
      → create_as_agent clock encode d bot room input agents desk ≡ ok w
      → AgentCall clock encode desk w.desk
  change :
      (d : ScheduleDraw) (bot room i : ℕ) (input : AgentScheduleChange) (desk : Desk) (w : Wrote)
      → update_as_agent clock d bot room i input desk ≡ ok w
      → AgentCall clock encode desk w.desk
  delete :
      (d : ScheduleDraw) (bot room i : ℕ) (desk : Desk) (w : Wrote)
      → delete_as_agent d bot room i desk ≡ ok w
      → AgentCall clock encode desk w.desk
  speak :
      (now i : ℕ) (desk : Desk)
      → AgentCall clock encode desk
          (with_schedules (mark_schedule_ran now (some i) desk.schedules) desk)
  elsewhere :
      (desk after : Desk) → after.schedules ≡ desk.schedules → AgentCall clock encode desk after

-- What people do.
pub data PersonCall (clock : Clock) (encode : Schedule → Text) : Desk → Desk → Type 0 where
  request :
      (d : ScheduleDraw) (wait who room : ℕ) (input : ScheduleRequest) (agents : List Agent)
      (desk : Desk) (w : Wrote)
      → get_schedule d.schedule_id desk.schedules ≡ none
      → request_schedule encode clock d wait who room input agents desk ≡ ok w
      → PersonCall clock encode desk w.desk
  change :
      (d : ScheduleDraw) (who room i : ℕ) (input : ScheduleChange) (desk : Desk) (w : Wrote)
      → update_by_person encode clock d who room i input desk ≡ ok w
      → PersonCall clock encode desk w.desk
  delete :
      (d : ScheduleDraw) (who room i : ℕ) (desk : Desk) (w : Wrote)
      → delete_by_person encode d who room i desk ≡ ok w
      → PersonCall clock encode desk w.desk
  move :
      (draw : ℕ → ScheduleDraw) (who : ℕ) (old new : Text) (desk : Desk)
      → PersonCall clock encode desk (move_schedules encode draw who old new desk).0

-- Calls of agents, one after the other.
pub data AgentHistory (clock : Clock) (encode : Schedule → Text) : Desk → Desk → Type 0 where
  done : (desk : Desk) → AgentHistory clock encode desk desk
  next_call :
      {a b c : Desk}
      → AgentCall clock encode a b
      → AgentHistory clock encode b c
      → AgentHistory clock encode a c

-- Calls of anyone.
pub data History (clock : Clock) (encode : Schedule → Text) : Desk → Desk → Type 0 where
  done : (desk : Desk) → History clock encode desk desk
  by_agent :
      {a b c : Desk}
      → AgentCall clock encode a b
      → History clock encode b c
      → History clock encode a c
  by_person :
      {a b c : Desk}
      → PersonCall clock encode a b
      → History clock encode b c
      → History clock encode a c

module _ (P : List Schedule → Type 0) (keeps : (a b : List Schedule) → Write a b → P a → P b) where
  made-keeps :
      (d : ScheduleDraw) (a b : List Schedule)
      → get_schedule d.schedule_id a ≡ none
      → IsMade d a b
      → P a
      → P b
  made-keeps d a b new (row, same, room, e) h =
      subst P (sym e) (keeps a (row ∷ a) (made row a (rw same new) room) h)

  pub AgentCall-keeps :
      {clock : Clock} {encode : Schedule → Text} {a b : Desk}
      → AgentCall clock encode a b
      → P a.schedules
      → P b.schedules
  unfolding mark_schedule_ran
  AgentCall-keeps (create d bot room input agents desk w new e) h =
      made-keeps d desk.schedules w.desk.schedules new
        (create_as_agent-IsMade _ _ d bot room input agents desk e) h
  AgentCall-keeps {encode = encode} (change d bot room i input desk w e) h =
      let (s, f, _, _, same) = update_as_agent-rows encode _ d bot room i input desk e in
      subst P (sym same) (keeps _ _ (changed d.now i f desk.schedules) h)
  AgentCall-keeps (delete d bot room i desk w e) h =
      subst P (sym (delete_as_agent-rows d bot room i desk e))
        (keeps _ _ (ended d.now i desk.schedules) h)
  AgentCall-keeps (speak now i desk) h = keeps _ _ (ran now i desk.schedules) h
  AgentCall-keeps (elsewhere desk after same) h = subst P (sym same) h

  moved_then-keeps :
      (desk : Desk) (r : Result Wrote) (rest : Desk → Desk × Result (List ℕ))
      → P desk.schedules
      → ((w : Wrote) → r ≡ ok w → P w.desk.schedules)
      → ((d : Desk) → P d.schedules → P (rest d).0.schedules)
      → P (moved_then desk r rest).0.schedules
  unfolding moved_then
  moved_then-keeps desk (err e) rest h written after = h
  moved_then-keeps desk (ok w) rest h written after = after w.desk (written w refl)

  move_all-keeps :
      (encode : Schedule → Text) (draw : ℕ → ScheduleDraw) (zone : Text) (rows : List Schedule)
      (desk : Desk)
      → P desk.schedules
      → P (move_all encode draw zone rows desk).0.schedules
  unfolding move_all update_schedule
  move_all-keeps encode draw zone [] desk h = h
  move_all-keeps encode draw zone (s ∷ rows) desk h =
      moved_then-keeps desk (write_schedule encode (draw s.id) schedule_updated after desk)
        (move_all encode draw zone rows) h
        (λ w k.
          subst P
            (sym (write_schedule-rows encode (draw s.id) schedule_updated after.0 after.1 desk k))
            (keeps _ _ (changed (draw s.id).now s.id (moved_fields zone s) desk.schedules) h))
        (λ d. move_all-keeps encode draw zone rows d)
    where
      after : List Schedule × Option Schedule
      after = update_schedule (draw s.id).now s.id (moved_fields zone s) desk.schedules

  pub PersonCall-keeps :
      {clock : Clock} {encode : Schedule → Text} {a b : Desk}
      → PersonCall clock encode a b
      → P a.schedules
      → P b.schedules
  unfolding move_schedules
  PersonCall-keeps (request d wait who room input agents desk w new e) h =
      made-keeps d desk.schedules w.desk.schedules new
        (request_schedule-IsMade _ _ d wait who room input agents desk e) h
  PersonCall-keeps (change d who room i input desk w e) h =
      let (s, _, _, how) = update_by_person-IsChanged _ _ d who room i input desk e in
      elim how [
        | inl (same, _) ↦ subst P (sym same) h
        | inr (f, _, _, same) ↦ subst P (sym same) (keeps _ _ (changed d.now i f desk.schedules) h)
      ]
  PersonCall-keeps (delete d who room i desk w e) h =
      let (_, _, _, same) = delete_by_person-found _ d who room i desk e in
      subst P (sym same) (keeps _ _ (ended d.now i desk.schedules) h)
  PersonCall-keeps {encode = encode} (move draw who old new desk) h =
      elim (Bool-cases (text_eq old new)) [
        | inl e ↦ rw e h
        | inr e ↦ rw e (
            move_all-keeps encode draw new
              (list_person_schedules_in_zone who old desk.rooms.participants desk.schedules) desk h)
      ]

  pub History-keeps :
      {clock : Clock} {encode : Schedule → Text} {a b : Desk}
      → History clock encode a b
      → P a.schedules
      → P b.schedules
  History-keeps (done desk) h = h
  History-keeps (by_agent call rest) h = History-keeps rest (AgentCall-keeps call h)
  History-keeps (by_person call rest) h = History-keeps rest (PersonCall-keeps call h)
