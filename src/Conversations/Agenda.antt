-- ===== src/Conversations/Agenda.antt =====
-- store/gen/schedules.sql.go: the table of schedules.
use cuckoo.Base.{ℕ, Bool, ◌&&◌, Option, none, some, List, ◌==◌, is_none, find?, update, count}
use cuckoo.Base.Text.{Text}
use cuckoo.Conversations.Cadence.{Cadence}
use cuckoo.Conversations.Desk.{Schedule, ScheduleStatus}

-- The fields that an update may leave.
pub record ScheduleFields : Type 0 where
  pub title : Option Text
  pub instruction : Option Text
  pub cadence : Option Cadence
  pub status : Option ScheduleStatus

abbrev pub coalesce {ℓ} : {A : Type ℓ} → Option A → A → A
coalesce none old = old
coalesce (some new) old = new

-- id = $1 AND deleted_at IS NULL
abbrev pub is_live : ℕ → Schedule → Bool
is_live i s = s.id == i && is_none s.deleted_at

abbrev pub set_fields : ℕ → ScheduleFields → Schedule → Schedule
set_fields now f s = record s {
  title = coalesce f.title s.title;
  instruction = coalesce f.instruction s.instruction;
  cadence = coalesce f.cadence s.cadence;
  status = coalesce f.status s.status;
  updated_at = now;
}

abbrev pub end_at : ℕ → Schedule → Schedule
end_at now s = record s { deleted_at = some now; updated_at = now }

abbrev pub is_live_in : ℕ → Schedule → Bool
is_live_in room s = s.conversation_id == room && is_none s.deleted_at

unfoldable pub count_schedules : ℕ → List Schedule → ℕ
count_schedules room = count (is_live_in room)

-- The rows after, and the row that was changed.
unfoldable pub update_schedule :
    ℕ → ℕ → ScheduleFields → List Schedule → List Schedule × Option Schedule
update_schedule now i f rows =
    let after = update (is_live i) (set_fields now f) rows in (after, find? (is_live i) after)

abbrev pub ended : ℕ → Option Schedule → Option Schedule
ended now none = none
ended now (some s) = some (end_at now s)

unfoldable pub delete_schedule : ℕ → ℕ → List Schedule → List Schedule × Option Schedule
delete_schedule now i rows =
    (update (is_live i) (end_at now) rows, ended now (find? (is_live i) rows))
