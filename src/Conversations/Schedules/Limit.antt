-- ===== src/Conversations/Schedules/Limit.antt =====
-- A chat holds ten schedules at most.
use cuckoo.Base.{ℕ, ◌≤◌, refl, List, arith, ◌==◌, All-of_forall}
use cuckoo.Base.Counts.{count-update, count-update-le}
use cuckoo.Base.Text.{Text}
use cuckoo.Conversations.Cadence.{Clock}
use cuckoo.Conversations.Desk.{Desk, Schedule, ran_at}
use cuckoo.Conversations.Schedules.{max_schedules}
use cuckoo.Conversations.Agenda.{is_live, is_live_in, set_fields, end_at, count_schedules}
use cuckoo.Conversations.Schedules.Histories.{
  Write, kept, made, changed, ended, ran, History, History-keeps,
}

abbrev IsWithin : List Schedule → Type 0
IsWithin rows = (room : ℕ) → count_schedules room rows ≤ max_schedules

Write-IsWithin : (a b : List Schedule) → Write a b → IsWithin a → IsWithin b
unfolding count_schedules
Write-IsWithin a b (kept rows) h room = h room
Write-IsWithin a b (made row rows new free) h room = ground (arith, h room, free)
Write-IsWithin a b (changed now i f rows) h room =
    omega (
      arith,
      h room,
      count-update (is_live_in room) (is_live i) (set_fields now f) (λ s. refl) rows,
    )
Write-IsWithin a b (ended now i rows) h room = omega (
  arith,
  h room,
  count-update-le (is_live_in room) (is_live i) (end_at now) (λ s. Unit {0})
      (λ s e u live. ground arith) rows (All-of_forall (λ s. Unit {0}) (λ s. tt) rows),
)
Write-IsWithin a b (ran now i rows) h room =
    omega
      (arith, h room, count-update (is_live_in room) (λ s. s.id == i) (ran_at now) (λ s. refl) rows)

-- In tables whose conversations have ten live schedules at most, each still has ten at most after
-- any history of calls of agents and people, one call at a time.
pub History-count :
    (clock : Clock) (encode : Schedule → Text) (desk after : Desk) (room : ℕ)
    → ((place : ℕ) → count_schedules place desk.schedules ≤ max_schedules)
    → History clock encode desk after
    → count_schedules room after.schedules ≤ max_schedules
History-count clock encode desk after room h calls =
    History-keeps IsWithin Write-IsWithin calls h room
