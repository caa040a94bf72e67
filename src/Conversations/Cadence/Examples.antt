-- ===== src/Conversations/Cadence/Examples.antt =====
-- A clock of days of a thousand minutes, and a schedule of Mondays.
use cuckoo.Base.{ℕ, ◌+◌, ◌*◌, ◌/◌, ◌%◌, ◌≤◌, ◌≡◌, refl, true, some, [], ◌∷◌, arith}
use cuckoo.Base.Text.{codes, trim_space, trim_left, trim_right, is_space, byte_len, width}
use cuckoo.Domain.Errors.{ok}
use cuckoo.Conversations.Cadence.{
  Cadence, Clock, normalized, at, next, parse_clock, hour_digits, two_digits, after,
  normalized_days, normalized_date, given_days, unique_lower, unique_from,
}
use cuckoo.Conversations.Cadence.Runs.{IsRegular, IsFirst, next_lem}

abbrev clock : Clock
clock = record {
  knows = λ z. true;
  day_of = λ z t. t / 1440;
  weekday = λ z t. (t / 1440) % 7;
  moment = λ z day hour minute. day * 1440 + (hour * 60 + minute);
  day_number = λ y m d. d;
}

abbrev asked : Cadence
asked = record {
  repeat = codes "weekly";
  time = codes "07:30";
  days = codes " Mon" ∷ [];
  date = [];
  timezone = codes "UTC";
}

abbrev mondays : Cadence
mondays = record {
  repeat = codes "weekly";
  time = codes "07:30";
  days = codes "mon" ∷ [];
  date = [];
  timezone = codes "UTC";
}

accepted : normalized clock asked ≡ ok mondays
unfolding normalized parse_clock hour_digits two_digits after normalized_days normalized_date
    given_days unique_lower unique_from trim_space trim_left trim_right is_space byte_len width
accepted = refl

mondays-IsRegular : IsRegular clock mondays
unfolding at parse_clock hour_digits two_digits after
mondays-IsRegular = record { later = λ t day h. omega arith; in_week = λ day. omega arith }

next_lem_example :
    (day : ℕ) × (next clock mondays 20000 ≡ some (at clock mondays day))
    × (day ≤ 20000 / 1440 + 8)
    × IsFirst clock mondays 20000 (20000 / 1440) day
next_lem_example = next_lem clock asked mondays 20000 accepted refl mondays-IsRegular
