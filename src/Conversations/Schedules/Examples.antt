-- ===== src/Conversations/Schedules/Examples.antt =====
-- A chat of a person and an agent with one schedule: it is paused, ended, and read.
use cuckoo.Base.{ℕ, ◌≡◌, ◌≢◌, ◌≤◌, refl, true, none, some, [], ◌∷◌, arith}
use cuckoo.Base.Text.{Text, codes}
use cuckoo.Domain.Errors.{ok}
use cuckoo.Conversations.Attachments.{Sender}
use cuckoo.Conversations.Membership.{Rooms, dm, user, agent, new_participant, enqueue}
use cuckoo.Delivery.Outbox.{create_delivery}
use cuckoo.Conversations.Cadence.{Clock}
use cuckoo.Conversations.Desk.{Desk, Schedule, active, paused, get_schedule, mark_schedule_ran}
use cuckoo.Conversations.Composing.{check_schedule_tag}
use cuckoo.Conversations.Schedules.{
  schedule_deleted, schedule_updated, ScheduleDraw, ScheduleChange, Wrote, in_chat, schedule_in,
  update_by_person, delete_by_person, change_to, write_schedule, tell_agent, max_schedules,
  with_schedules, person_fields,
}
use cuckoo.Conversations.Agenda.{
  update_schedule, delete_schedule, count_schedules, end_at, set_fields,
}
use cuckoo.Conversations.Schedules.Histories.{done, next_call, by_agent, speak}
use cuckoo.Conversations.Schedules.Silence.{delete_by_person-silent, pause_by_person-silent}
use cuckoo.Conversations.Schedules.Limit.{History-count}

abbrev still_clock : Clock
still_clock = record {
  knows = λ z. true;
  day_of = λ z t. t;
  weekday = λ z t. 0;
  moment = λ z day hour minute. day;
  day_number = λ y m d. d;
}

abbrev no_words : Schedule → Text
no_words s = []

abbrev daily : Schedule
daily = record {
  id = 90;
  agent_id = 7;
  conversation_id = 40;
  title = codes "news";
  instruction = codes "news";
  cadence = record {
    repeat = codes "daily";
    time = codes "07:00";
    days = [];
    date = [];
    timezone = codes "UTC";
  };
  status = active;
  created_by = user;
  last_run_at = none;
  created_at = 1;
  updated_at = 1;
  deleted_at = none;
}

abbrev chat : Rooms
chat = record {
  conversations = record { id = 40; kind = dm; created_at = 1 } ∷ [];
  participants =
      new_participant 1 40 user (some 2) none ∷ new_participant 1 40 agent none (some 7) ∷ [];
}

abbrev start : Desk
start = record {
  rooms = chat;
  contacts = [];
  bindings = [];
  messages = [];
  media = [];
  schedules = daily ∷ [];
  deliveries = [];
}

abbrev draw : ScheduleDraw
draw = record { now = 5; schedule_id = 91; event_id = 500 }

abbrev pause : ScheduleChange
pause = record { pause = some true; instruction = none; cadence = none }

abbrev bot : Sender
bot = record { kind = agent; id = 7 }

abbrev was_paused : Wrote
unfolding tell_agent update_schedule enqueue create_delivery
was_paused =
    tell_agent no_words draw schedule_updated (set_fields 5 (person_fields none none paused) daily)
      (update_schedule 5 90 (person_fields none none paused) start.schedules).0 start

abbrev was_ended : Wrote
unfolding tell_agent delete_schedule enqueue create_delivery
was_ended =
    tell_agent no_words draw schedule_deleted (end_at 5 daily)
      (delete_schedule 5 90 start.schedules).0 start

pausing : update_by_person no_words still_clock draw 2 40 90 pause start ≡ ok was_paused
unfolding update_by_person in_chat schedule_in get_schedule change_to update_schedule write_schedule
    tell_agent enqueue create_delivery was_paused
pausing = refl

ending : delete_by_person no_words draw 2 40 90 start ≡ ok was_ended
unfolding delete_by_person in_chat schedule_in get_schedule delete_schedule write_schedule
    tell_agent enqueue create_delivery was_ended
ending = refl

pause_by_person-silent_example :
    check_schedule_tag bot 40 (some 90) (mark_schedule_ran 6 (some 90) was_paused.desk.schedules)
    ≢ ok tt
pause_by_person-silent_example =
    pause_by_person-silent still_clock no_words draw 2 40 90 pause start was_paused
      (with_schedules (mark_schedule_ran 6 (some 90) was_paused.desk.schedules) was_paused.desk) bot
      40 refl pausing (next_call (speak 6 90 was_paused.desk) (done _))

delete_by_person-silent_example :
    check_schedule_tag bot 40 (some 90) (mark_schedule_ran 6 (some 90) was_ended.desk.schedules)
    ≢ ok tt
delete_by_person-silent_example =
    delete_by_person-silent still_clock no_words draw 2 40 90 start was_ended
      (with_schedules (mark_schedule_ran 6 (some 90) was_ended.desk.schedules) was_ended.desk) bot
      40 ending (by_agent (speak 6 90 was_ended.desk) (done _))

start_within : (place : ℕ) → count_schedules place start.schedules ≤ max_schedules
unfolding count_schedules
start_within place = ground arith

History-count_example :
    count_schedules 40 (mark_schedule_ran 6 (some 90) start.schedules) ≤ max_schedules
History-count_example =
    History-count still_clock no_words start
      (with_schedules (mark_schedule_ran 6 (some 90) start.schedules) start) 40 start_within
      (by_agent (speak 6 90 start) (done _))
