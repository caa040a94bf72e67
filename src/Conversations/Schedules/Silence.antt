-- ===== src/Conversations/Schedules/Silence.antt =====
-- A schedule that the person ended or paused no longer speaks.
use cuckoo.Base.{
  ◌≢◌, ℕ, ◌≡◌, refl, sym, subst, ◌∙◌, inl, inr, Bool, true, false, ◌||◌, not, Option, none, some,
  List, ◌==◌, Bool-cases, is_some,
}
use cuckoo.Base.Text.{Text, text_eq, codes}
use cuckoo.Domain.Errors.{
  Error, ok, err, refuse_if, >>=-eq-ok, refuse_if->>, ok-injective, invalid_field, conflict_error,
  forbidden_error,
}
use cuckoo.Agents.Registry.{or_fail, or_fail-ok}
use cuckoo.Conversations.Attachments.{Sender}
use cuckoo.Conversations.Cadence.{Clock}
use cuckoo.Conversations.Desk.{
  Desk, Schedule, ScheduleStatus, active, paused, get_schedule, ran_at, mark_schedule_ran,
}
use cuckoo.Conversations.Composing.{check_schedule_tag, is_paused, is_agent, schedule_not_found}
use cuckoo.Conversations.Schedules.{
  ScheduleDraw, ScheduleChange, Wrote, same_status, repaused, update_by_person, delete_by_person,
}
use cuckoo.Conversations.Agenda.{ScheduleFields, is_live, set_fields, end_at, coalesce}
use cuckoo.Conversations.Schedules.Holding.{agent_status}
use cuckoo.Conversations.Schedules.Calls.{
  delete_by_person-found, update_by_person-IsChanged, update_as_agent-rows, create_as_agent-IsMade,
  delete_as_agent-rows,
}
use cuckoo.Conversations.Schedules.Histories.{
  Write, kept, made, changed, ended, ran, AgentCall, create, change, delete, speak, elsewhere,
  AgentHistory, done, next_call, History, History-keeps,
}
use cuckoo.Conversations.Schedules.Reads.{
  Reads, update-Reads, made-Reads, one_row, written-Reads, some-injective,
}

abbrev is_gone : Schedule → Bool
is_gone s = is_some s.deleted_at

abbrev is_quiet : Schedule → Bool
is_quiet s = is_some s.deleted_at || same_status s.status paused

Write-Reads-is_gone :
    (i : ℕ) (a b : List Schedule) → Write a b → Reads is_gone i a → Reads is_gone i b
Write-Reads-is_gone i a b (kept rows) h = h
Write-Reads-is_gone i a b (made row rows new room) h = made-Reads is_gone i row rows new h
Write-Reads-is_gone i a b (changed now j f rows) h =
    update-Reads is_gone (is_live j) (set_fields now f) i rows (λ s. refl) (λ s _ _ g. g) h
Write-Reads-is_gone i a b (ended now j rows) h =
    update-Reads is_gone (is_live j) (end_at now) i rows (λ s. refl) (λ s _ _ g. refl) h
Write-Reads-is_gone i a b (ran now j rows) h =
    update-Reads is_gone (λ s. s.id == j) (ran_at now) i rows (λ s. refl) (λ s _ _ g. g) h

paused_refused :
    (status : ScheduleStatus) (e : Error)
    → same_status status paused ≡ true
    → refuse_if (is_paused status) e ≡ ok tt
    → ⊥
paused_refused ScheduleStatus.pending e h k = cc
paused_refused active e h k = cc
paused_refused paused e h k = cc

refused-quiet :
    (p : Schedule → Bool)
    → ((s : Schedule) → p s ≡ true → is_quiet s ≡ true)
    → (sender : Sender) (room i : ℕ) (rows : List Schedule) → Reads p i rows
    → check_schedule_tag sender room (some i) rows ≡ ok tt
    → ⊥
unfolding check_schedule_tag
refused-quiet p quiet sender room i rows (s, found, h) k =
    let (_, _, k1) =
      >>=-eq-ok
        (refuse_if (not (is_agent sender.kind)) (invalid_field "schedule_id" "invalid_schedule_id"))
        _ k in
    let (r, read, k2) = >>=-eq-ok (or_fail schedule_not_found (get_schedule i rows)) _ k1 in
    let first = or_fail-ok schedule_not_found (get_schedule i rows) read in
    let same : s ≡ r = some-injective (sym found ∙ first) in
    let hushed : is_quiet r ≡ true = subst (λ x. is_quiet x ≡ true) same (quiet s h) in
    let (_, _, k3) =
      >>=-eq-ok
        (refuse_if (not (r.agent_id == sender.id) || not (r.conversation_id == room))
          schedule_not_found)
        _ k2 in
    let (live, k4) = refuse_if->> (is_some r.deleted_at) (conflict_error "schedule_deleted") _ k3 in
    paused_refused r.status (conflict_error "schedule_paused") (rw live at hushed) k4

-- An agent may not ask for a paused schedule to be active.
agent_status-paused :
    (status : ScheduleStatus) (asked : Option Text) (result : Option ScheduleStatus)
    → same_status status paused ≡ true
    → agent_status status asked ≡ ok result
    → same_status (coalesce result status) paused ≡ true
unfolding agent_status
agent_status-paused ScheduleStatus.pending asked result h k = cc
agent_status-paused active asked result h k = cc
agent_status-paused paused none result h k = rw (← ok-injective k) refl
agent_status-paused paused (some word) result h k =
    elim (Bool-cases (text_eq word (codes "active"))) [
      | inl e ↦
          let refused : err (forbidden_error "paused_by_person") ≡ ok result = rw e at k in
          absurd cc
      | inr e ↦ elim (Bool-cases (text_eq word (codes "paused"))) [
        | inl f ↦
            let one : ok (some paused) ≡ ok result = rw (e, f) at k in rw (← ok-injective one) refl
        | inr f ↦
            let refused : err (invalid_field "status" "invalid_status") ≡ ok result =
              rw (e, f) at k in
            absurd cc
      ]
    ]

set_fields-is_quiet :
    (now : ℕ) (f : ScheduleFields) (s : Schedule)
    → (same_status s.status paused ≡ true → same_status (coalesce f.status s.status) paused ≡ true)
    → is_quiet s ≡ true
    → is_quiet (set_fields now f s) ≡ true
set_fields-is_quiet now f s keep h = elim (Bool-cases (is_some s.deleted_at)) [
  | inl e ↦ rw e refl
  | inr e ↦ rw e (keep (rw e at h))
]

or_true : (b : Bool) → (b || true) ≡ true
or_true true = refl
or_true false = refl

already_paused :
    (gone : Option ℕ) (status : ScheduleStatus) (pause : Option Bool)
    → pause ≡ some true
    → same_status (repaused status pause) status ≡ true
    → (is_some gone || same_status status paused) ≡ true
already_paused gone status pause asked h =
    let k : same_status (repaused status (some true)) status ≡ true = rw asked at h in
    by_status status k
  where
    by_status :
        (t : ScheduleStatus)
        → same_status paused t ≡ true
        → (is_some gone || same_status t paused) ≡ true
    by_status ScheduleStatus.pending k = cc
    by_status active k = cc
    by_status paused k = or_true (is_some gone)

now_paused :
    (gone : Option ℕ) (written : Option ScheduleStatus) (b old : ScheduleStatus)
    (pause : Option Bool)
    → pause ≡ some true
    → written ≡ some (repaused b pause)
    → (is_some gone || same_status (coalesce written old) paused) ≡ true
now_paused gone written b old pause asked h = rw (h, asked) (or_true (is_some gone))

module _ (clock : Clock) (encode : Schedule → Text) where
  AgentCall-Reads-is_quiet :
      (i : ℕ) (a b : Desk)
      → AgentCall clock encode a b
      → Reads is_quiet i a.schedules
      → Reads is_quiet i b.schedules
  unfolding mark_schedule_ran
  AgentCall-Reads-is_quiet i a b (create d bot room input agents desk w new e) h =
      let (row, same, _, after) =
        create_as_agent-IsMade encode clock d bot room input agents desk e in
      subst (Reads is_quiet i) (sym after) (
        made-Reads is_quiet i row desk.schedules
          (subst (λ k. get_schedule k desk.schedules ≡ none) (sym same) new) h)
  AgentCall-Reads-is_quiet i a b (change d bot room j input desk w e) h =
      let (s, f, first, asked, after) =
        update_as_agent-rows encode clock d bot room j input desk e in
      subst (Reads is_quiet i) (sym after) (
        update-Reads is_quiet (is_live j) (set_fields d.now f) i desk.schedules (λ r. refl)
          (λ r found live quiet.
            set_fields-is_quiet d.now f r
              (λ hushed.
                let same : s ≡ r = one_row i j desk.schedules r s found live first in
                agent_status-paused r.status input.status f.status hushed
                  (subst (λ x. agent_status x.status input.status ≡ ok f.status) same asked))
              quiet)
          h)
  AgentCall-Reads-is_quiet i a b (delete d bot room j desk w e) h =
      subst (Reads is_quiet i) (sym (delete_as_agent-rows d bot room j desk e)) (
        update-Reads is_quiet (is_live j) (end_at d.now) i desk.schedules (λ s. refl)
          (λ s _ _ g. refl) h)
  AgentCall-Reads-is_quiet i a b (speak now j desk) h =
      update-Reads is_quiet (λ s. s.id == j) (ran_at now) i desk.schedules (λ s. refl)
        (λ s _ _ g. g) h
  AgentCall-Reads-is_quiet i a b (elsewhere desk after same) h =
      subst (Reads is_quiet i) (sym same) h

  AgentHistory-Reads-is_quiet :
      (i : ℕ) (a b : Desk)
      → AgentHistory clock encode a b
      → Reads is_quiet i a.schedules
      → Reads is_quiet i b.schedules
  AgentHistory-Reads-is_quiet i a b (done desk) h = h
  AgentHistory-Reads-is_quiet i a b (next_call {a = x} {b = y} {c = z} call rest) h =
      AgentHistory-Reads-is_quiet i y z rest (AgentCall-Reads-is_quiet i x y call h)

  -- Once a person has deleted a schedule, no message may be tagged with it, whatever agents,
  -- people and the rest of the service do to the tables after, one call at a time and each under
  -- fresh identifiers.
  pub delete_by_person-silent :
      (d : ScheduleDraw) (who room i : ℕ) (desk : Desk) (w : Wrote) (after : Desk) (sender : Sender)
      (place : ℕ)
      → delete_by_person encode d who room i desk ≡ ok w
      → History clock encode w.desk after
      → check_schedule_tag sender place (some i) after.schedules ≢ ok tt
  delete_by_person-silent d who room i desk w after sender place h rest =
      let (s, first, live, same) = delete_by_person-found encode d who room i desk h in
      refused-quiet is_gone (λ r e. rw e refl) sender place i after.schedules
        (History-keeps (Reads is_gone i) (Write-Reads-is_gone i) rest (
          subst (Reads is_gone i) (sym same)
            (written-Reads is_gone (end_at d.now) i desk.schedules s first live (λ r. refl) refl)))

  -- Once a person has paused a schedule, no message may be tagged with it, whatever agents do
  -- after and whatever is done elsewhere, one call at a time, as long as no person touches
  -- schedules.
  pub pause_by_person-silent :
      (d : ScheduleDraw) (who room i : ℕ) (input : ScheduleChange) (desk : Desk) (w : Wrote)
      (after : Desk) (sender : Sender) (place : ℕ)
      → input.pause ≡ some true
      → update_by_person encode clock d who room i input desk ≡ ok w
      → AgentHistory clock encode w.desk after
      → check_schedule_tag sender place (some i) after.schedules ≢ ok tt
  pause_by_person-silent d who room i input desk w after sender place asked h rest =
      let (s, first, live, how) =
        update_by_person-IsChanged encode clock d who room i input desk h in
      refused-quiet is_quiet (λ r e. e) sender place i after.schedules
        (AgentHistory-Reads-is_quiet i w.desk after rest (elim how [
          | inl (same, still) ↦
              subst (Reads is_quiet i) (sym same)
                (s, first, already_paused s.deleted_at s.status input.pause asked still)
          | inr (f, b, status, same) ↦ subst (Reads is_quiet i) (sym same) (
              written-Reads is_quiet (set_fields d.now f) i desk.schedules s first live (λ r. refl)
                (now_paused s.deleted_at f.status b s.status input.pause asked status))
        ]))
