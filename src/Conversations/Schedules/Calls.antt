-- ===== src/Conversations/Schedules/Calls.antt =====
-- What each call on schedules does to their table, and histories of the calls.
use cuckoo.Base.{
  ℕ, ◌≡◌, refl, sym, ap, subst, Bool, true, false, ◌||◌, not, Option, none, some, List, [], ◌∷◌,
  arith, inl, inr, ◌⊎◌, Bool-cases, ◌==◌, ltb, leb, is_none, is_some, update,
}
use cuckoo.Base.Text.{Text}
use cuckoo.Domain.Errors.{
  internal_error, invalid_error, ok, >>=-eq-ok, ok-injective, refuse_if->>, refuse_if,
  conflict_error,
}
use cuckoo.Agents.Registry.{get_agent, Agent, or_fail, or_fail-ok}
use cuckoo.Conversations.Membership.{user_in, agent_in}
use cuckoo.Conversations.Cadence.{Clock, Cadence}
use cuckoo.Conversations.Desk.{ScheduleStatus, get_schedule, Desk, Schedule}
use cuckoo.Conversations.Schedules.{
  not_supported, person_fields, schedule_updated, validate_title, same_status, rate_limited_error,
  future_cadence, validate_instruction, scheduling_agent, repaused, ensure_open, schedule_deleted,
  schedule_not_found, user_in, EventType, ScheduleDraw, ScheduleRequest, ScheduleChange, Wrote,
  max_schedules, create_schedule, write_schedule, tell_agent, request_schedule, update_by_person,
  delete_by_person, change_to, in_chat, schedule_in, checked,
}
use cuckoo.Conversations.Agenda.{
  ScheduleFields, is_live, set_fields, end_at, count_schedules, update_schedule, delete_schedule,
}
use cuckoo.Conversations.Schedules.Holding.{
  is_empty, agent_status, AgentSchedule, AgentScheduleChange, create_as_agent, update_as_agent,
  delete_as_agent, stored, agent_schedule, change_fields,
}

-- A row of the call's own identifier, in a chat that has room for it, stands before the others.
abbrev pub IsMade : ScheduleDraw → List Schedule → List Schedule → Type 0
IsMade d rows after =
    (row : Schedule) × (row.id ≡ d.schedule_id)
    × (leb max_schedules (count_schedules row.conversation_id rows) ≡ false)
    × (after ≡ row ∷ rows)

pub schedule_in-found :
    (room i : ℕ) (rows : List Schedule) (s : Schedule)
    → schedule_in room i rows ≡ ok s
    → (get_schedule i rows ≡ some s) × (is_none s.deleted_at ≡ true)
unfolding schedule_in
schedule_in-found room i rows s h =
    let (r, found, k) = >>=-eq-ok (or_fail schedule_not_found (get_schedule i rows)) _ h in
    let (live, last) =
      refuse_if->> (not (r.conversation_id == room) || is_some r.deleted_at) schedule_not_found _
        k in
    let kept : is_none r.deleted_at ≡ true = none_of r.deleted_at (ground arith) in
    subst (λ x. (get_schedule i rows ≡ some x) × (is_none x.deleted_at ≡ true)) (ok-injective last)
      (or_fail-ok schedule_not_found (get_schedule i rows) found, kept)
  where
    none_of : (o : Option ℕ) → is_some o ≡ false → is_none o ≡ true
    none_of none e = refl
    none_of (some x) e = cc

module _ (encode : Schedule → Text) where
  create_schedule-IsMade :
      (d : ScheduleDraw) (row : Schedule) (tell : Bool) (desk : Desk) {w : Wrote}
      → row.id ≡ d.schedule_id
      → create_schedule encode d row tell desk ≡ ok w
      → IsMade d desk.schedules w.desk.schedules
  unfolding create_schedule tell_agent
  create_schedule-IsMade d row true desk same h =
      let (room, k) =
        refuse_if->> (leb max_schedules (count_schedules row.conversation_id desk.schedules))
          (conflict_error "too_many_schedules") _ h in
      (row, same, room, ap (λ x. x.desk.schedules) (sym (ok-injective k)))
  create_schedule-IsMade d row false desk same h =
      let (room, k) =
        refuse_if->> (leb max_schedules (count_schedules row.conversation_id desk.schedules))
          (conflict_error "too_many_schedules") _ h in
      (row, same, room, ap (λ x. x.desk.schedules) (sym (ok-injective k)))

  pub write_schedule-rows :
      (d : ScheduleDraw) (event : EventType) (rows : List Schedule) (one : Option Schedule)
      (desk : Desk) {w : Wrote}
      → write_schedule encode d event (rows, one) desk ≡ ok w
      → w.desk.schedules ≡ rows
  unfolding write_schedule tell_agent
  write_schedule-rows d event rows one desk h =
      let (s, _, k) = >>=-eq-ok (or_fail schedule_not_found one) _ h in
      ap (λ x. x.desk.schedules) (sym (ok-injective k))

  pub delete_by_person-found :
      (d : ScheduleDraw) (who room i : ℕ) (desk : Desk) {w : Wrote}
      → delete_by_person encode d who room i desk ≡ ok w
      → (s : Schedule) × (get_schedule i desk.schedules ≡ some s)
        × (is_none s.deleted_at ≡ true)
        × (w.desk.schedules ≡ update (is_live i) (end_at d.now) desk.schedules)
  unfolding delete_by_person delete_schedule
  delete_by_person-found d who room i desk h =
      let (_, _, h1) =
        >>=-eq-ok (in_chat (user_in who room desk.rooms.participants) room desk) _ h in
      let (s, found, h2) = >>=-eq-ok (schedule_in room i desk.schedules) _ h1 in
      let (first, live) = schedule_in-found room i desk.schedules s found in
      (s, first, live, write_schedule-rows d schedule_deleted _ _ desk h2)

  module _ (clock : Clock) where
    pub request_schedule-IsMade :
        (d : ScheduleDraw) (wait who room : ℕ) (input : ScheduleRequest) (agents : List Agent)
        (desk : Desk) {w : Wrote}
        → request_schedule encode clock d wait who room input agents desk ≡ ok w
        → IsMade d desk.schedules w.desk.schedules
    unfolding request_schedule
    request_schedule-IsMade d wait who room input agents desk h =
        let (_, _, h1) =
          >>=-eq-ok (in_chat (user_in who room desk.rooms.participants) room desk) _ h in
        let (_, _, h2) = >>=-eq-ok (ensure_open room desk.rooms.participants desk.contacts) _ h1 in
        let (bot, _, h3) = >>=-eq-ok (scheduling_agent room agents desk) _ h2 in
        let (what, _, h4) = >>=-eq-ok (validate_instruction input.instruction) _ h3 in
        let (cadence, _, h5) = >>=-eq-ok (future_cadence clock d.now input.cadence) _ h4 in
        let (_, _, h6) =
          >>=-eq-ok (refuse_if (ltb 0 wait) (rate_limited_error "rate_limited" wait)) _ h5 in
        create_schedule-IsMade d _ true desk refl h6

    pub create_as_agent-IsMade :
        (d : ScheduleDraw) (bot room : ℕ) (input : AgentSchedule) (agents : List Agent)
        (desk : Desk) {w : Wrote}
        → create_as_agent clock encode d bot room input agents desk ≡ ok w
        → IsMade d desk.schedules w.desk.schedules
    unfolding create_as_agent
    create_as_agent-IsMade d bot room input agents desk h =
        let (_, _, h1) =
          >>=-eq-ok (in_chat (agent_in bot room desk.rooms.participants) room desk) _ h in
        let (_, _, h2) = >>=-eq-ok (ensure_open room desk.rooms.participants desk.contacts) _ h1 in
        let (row, _, h3) = >>=-eq-ok (or_fail internal_error (get_agent bot agents)) _ h2 in
        let (_, _, h4) = >>=-eq-ok (refuse_if (not row.supports_schedules) not_supported) _ h3 in
        let (title, _, h5) = >>=-eq-ok (validate_title input.title) _ h4 in
        let (what, _, h6) = >>=-eq-ok (validate_instruction input.instruction) _ h5 in
        let (cadence, _, h7) = >>=-eq-ok (future_cadence clock d.now input.cadence) _ h6 in
        create_schedule-IsMade d _ false desk refl h7

held_first :
    (bot room i : ℕ) (desk : Desk) (s : Schedule)
    → agent_schedule bot room i desk ≡ ok s
    → get_schedule i desk.schedules ≡ some s
unfolding agent_schedule
held_first bot room i desk s h =
    let (_, _, h1) =
      >>=-eq-ok (in_chat (agent_in bot room desk.rooms.participants) room desk) _ h in
    let (r, found, h2) = >>=-eq-ok (schedule_in room i desk.schedules) _ h1 in
    let (_, h3) = refuse_if->> (not (r.agent_id == bot)) schedule_not_found _ h2 in
    subst (λ x. get_schedule i desk.schedules ≡ some x) (ok-injective h3)
      (schedule_in-found room i desk.schedules r found).0

fields_status :
    (clock : Clock) (d : ScheduleDraw) (input : AgentScheduleChange) (current : ScheduleStatus)
    (f : ScheduleFields)
    → change_fields clock d input current ≡ ok f
    → agent_status current input.status ≡ ok f.status
unfolding change_fields
fields_status clock d input current f h =
    let (_, _, h1) = >>=-eq-ok (checked validate_title input.title) _ h in
    let (_, _, h2) = >>=-eq-ok (checked validate_instruction input.instruction) _ h1 in
    let (_, _, h3) = >>=-eq-ok (checked (future_cadence clock d.now) input.cadence) _ h2 in
    let (b, asked, h4) = >>=-eq-ok (agent_status current input.status) _ h3 in
    subst (λ x. agent_status current input.status ≡ ok x.status) (ok-injective h4) asked

stored-rows :
    (rows : List Schedule) (one : Option Schedule) (desk : Desk) {w : Wrote}
    → stored (rows, one) desk ≡ ok w
    → w.desk.schedules ≡ rows
unfolding stored
stored-rows rows one desk h =
    let (_, _, k) = >>=-eq-ok (or_fail schedule_not_found one) _ h in
    ap (λ x. x.desk.schedules) (sym (ok-injective k))

pub delete_as_agent-rows :
    (d : ScheduleDraw) (bot room i : ℕ) (desk : Desk) {w : Wrote}
    → delete_as_agent d bot room i desk ≡ ok w
    → w.desk.schedules ≡ update (is_live i) (end_at d.now) desk.schedules
unfolding delete_as_agent delete_schedule
delete_as_agent-rows d bot room i desk h =
    let (_, _, h1) = >>=-eq-ok (agent_schedule bot room i desk) _ h in
    stored-rows (delete_schedule d.now i desk.schedules).0
      (delete_schedule d.now i desk.schedules).1 desk h1

-- A person's update: of a live row, whose status is kept or written.
abbrev pub IsChanged : ScheduleDraw → ℕ → Option Bool → List Schedule → List Schedule → Type 0
IsChanged d i pause rows after =
    (s : Schedule) × (get_schedule i rows ≡ some s)
    × (is_none s.deleted_at ≡ true)
    × (((after ≡ rows) × (same_status (repaused s.status pause) s.status ≡ true))
        ⊎ ((f : ScheduleFields) × (b : ScheduleStatus) × (f.status ≡ some (repaused b pause))
            × (after ≡ update (is_live i) (set_fields d.now f) rows)))

module _ (encode : Schedule → Text) (clock : Clock) where
  change_to-rows :
      (d : ScheduleDraw) (i : ℕ) (s : Schedule) (instruction : Option Text)
      (cadence : Option Cadence) (pause : Option Bool) (desk : Desk) {w : Wrote} (is_new : Bool)
      → (is_some instruction || is_some cadence) ≡ is_new
      → change_to encode clock d i s instruction cadence pause desk ≡ ok w
      → ((w.desk.schedules ≡ desk.schedules)
          × (same_status (repaused s.status pause) s.status ≡ true))
        ⊎ ((f : ScheduleFields) × (b : ScheduleStatus) × (f.status ≡ some (repaused b pause))
            × (w.desk.schedules ≡ update (is_live i) (set_fields d.now f) desk.schedules))
  unfolding change_to update_schedule
  change_to-rows d i s instruction cadence pause desk {w = w} true e h =
      let f = person_fields instruction cadence (repaused ScheduleStatus.pending pause) in
      let k : write_schedule encode d schedule_updated (update_schedule d.now i f desk.schedules)
            desk
          ≡ ok w =
        rw e at h in
      inr
        (f, ScheduleStatus.pending, refl, write_schedule-rows encode d schedule_updated _ _ desk k)
  change_to-rows d i s instruction cadence pause desk {w = w} false e h =
      elim (Bool-cases (same_status (repaused s.status pause) s.status)) [
        | inl g ↦
            let k : ok (record { desk = desk; schedule = s; nudged = [] }) ≡ ok w =
              rw (e, g) at h in
            inl (ap (λ x. x.desk.schedules) (sym (ok-injective k)), g)
        | inr g ↦
            let f = person_fields instruction cadence (repaused s.status pause) in
            let k : write_schedule encode d schedule_updated
                  (update_schedule d.now i f desk.schedules) desk
                ≡ ok w =
              rw (e, g) at h in
            inr (f, s.status, refl, write_schedule-rows encode d schedule_updated _ _ desk k)
      ]

  pub update_by_person-IsChanged :
      (d : ScheduleDraw) (who room i : ℕ) (input : ScheduleChange) (desk : Desk) {w : Wrote}
      → update_by_person encode clock d who room i input desk ≡ ok w
      → IsChanged d i input.pause desk.schedules w.desk.schedules
  unfolding update_by_person
  update_by_person-IsChanged d who room i input desk h =
      let (_, _, h1) =
        >>=-eq-ok (in_chat (user_in who room desk.rooms.participants) room desk) _ h in
      let (s, found, h2) = >>=-eq-ok (schedule_in room i desk.schedules) _ h1 in
      let (instruction, _, h3) = >>=-eq-ok (checked validate_instruction input.instruction) _ h2 in
      let (cadence, _, h4) = >>=-eq-ok (checked (future_cadence clock d.now) input.cadence) _ h3 in
      let (first, live) = schedule_in-found room i desk.schedules s found in
      (s, first, live, change_to-rows d i s instruction cadence input.pause desk _ refl h4)

  -- An agent's update: of a live row, to a status that it may ask for.
  pub update_as_agent-rows :
      (d : ScheduleDraw) (bot room i : ℕ) (input : AgentScheduleChange) (desk : Desk) {w : Wrote}
      → update_as_agent clock d bot room i input desk ≡ ok w
      → (s : Schedule) × (f : ScheduleFields) × (get_schedule i desk.schedules ≡ some s)
        × (agent_status s.status input.status ≡ ok f.status)
        × (w.desk.schedules ≡ update (is_live i) (set_fields d.now f) desk.schedules)
  unfolding update_as_agent update_schedule
  update_as_agent-rows d bot room i input desk h =
      let (s, held, h1) = >>=-eq-ok (agent_schedule bot room i desk) _ h in
      let (f, fields, h2) = >>=-eq-ok (change_fields clock d input s.status) _ h1 in
      let (_, _, h3) = >>=-eq-ok (refuse_if (is_empty f) (invalid_error "no_changes")) _ h2 in
      (
        s,
        f,
        held_first bot room i desk s held,
        fields_status clock d input s.status f fields,
        stored-rows (update_schedule d.now i f desk.schedules).0
            (update_schedule d.now i f desk.schedules).1 desk h3,
      )
