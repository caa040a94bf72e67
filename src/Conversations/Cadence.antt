-- ===== src/Conversations/Cadence.antt =====
-- conversations/cadence.go: when a schedule runs. What package time knows of the zones of the world is an
-- argument, `Clock`: the local day and the weekday of an instant, and the instant of a clock time on a
-- local day. Days are counted from one long past, so that going back a few days never leaves ℕ.
pub mod Runs
mod Examples
use cuckoo.Base.{
  ℕ, zero, suc, ◌+◌, ◌-◌, ◌*◌, ◌%◌, Bool, true, false, ◌&&◌, ◌||◌, not, Option, none, some, List,
  [], ◌∷◌, ◌==◌, ltb, leb, is_none, is_some, if◌then◌else◌, length, filter, any, map, get_elem?,
}
use cuckoo.Base.Text.{Text, codes, text_eq, contains, byte_len, trim_space}
use cuckoo.Domain.Errors.{Error, Result, ok, err, invalid_field, ◌>>=◌, ◌>>◌, refuse_if}

pub record Cadence : Type 0 where
  pub repeat : Text
  pub time : Text
  pub days : List Text
  pub date : Text
  pub timezone : Text

abbrev pub repeat_once : Text
repeat_once = codes "once"

abbrev pub repeat_daily : Text
repeat_daily = codes "daily"

abbrev pub repeat_weekdays : Text
repeat_weekdays = codes "weekdays"

abbrev pub repeat_weekly : Text
repeat_weekly = codes "weekly"

abbrev pub weekdays : List Text
weekdays =
    codes "sun"
    ∷ codes "mon"
    ∷ codes "tue"
    ∷ codes "wed"
    ∷ codes "thu"
    ∷ codes "fri"
    ∷ codes "sat"
    ∷ []

abbrev pub invalid_cadence : Error
invalid_cadence = invalid_field "cadence" "invalid_cadence"

abbrev is_digit : ℕ → Bool
is_digit c = leb 48 c && leb c 57

-- Two digits, and what follows them.
two_digits : Text → Option (ℕ × Text)
two_digits [] = none
two_digits (a ∷ []) = none
two_digits (a ∷ b ∷ s) =
    if is_digit a && is_digit b then some ((a - 48) * 10 + (b - 48), s) else none

-- The hour, of one digit or two.
hour_digits : Text → Option (ℕ × Text)
unfolding two_digits
hour_digits [] = none
hour_digits (a ∷ s) = elim (two_digits (a ∷ s)) [
  | some r ↦ some r
  | none ↦ if is_digit a then some (a - 48, s) else none
]

-- The rest after a separator.
after : ℕ → Text → Option Text
after c [] = none
after c (d ∷ s) = if d == c then some s else none

abbrev pub or_none {ℓ κ} : {A : Type ℓ} {B : Type κ} → Option A → (A → Option B) → Option B
or_none none f = none
or_none (some a) f = f a

-- time.Parse("15:04", s)
pub parse_clock : Text → Option (ℕ × ℕ)
unfolding hour_digits two_digits after
parse_clock s = or_none (hour_digits s) (λ (hour, s1). or_none (after 58 s1) (λ s2.
    or_none (two_digits s2) (λ (minute, s3).
      if leb 24 hour || leb 60 minute || not (text_eq s3 []) then none else some (hour, minute))))

abbrev is_leap : ℕ → Bool
is_leap y = y % 4 == 0 && (not (y % 100 == 0) || y % 400 == 0)

days_in : ℕ → ℕ → ℕ
days_in m y =
    if m == 2
    then (if is_leap y then 29 else 28)
    else if m == 4 || m == 6 || m == 9 || m == 11
    then 30
    else 31

-- time.Parse("2006-01-02", s)
pub parse_date : Text → Option (ℕ × ℕ × ℕ)
unfolding two_digits after days_in
parse_date s = or_none (two_digits s) (λ (high, s1). or_none (two_digits s1) (λ (low, s2).
    or_none (after 45 s2) (λ s3. or_none (two_digits s3) (λ (month, s4).
      or_none (after 45 s4) (λ s5. or_none (two_digits s5) (λ (day, s6).
        let year = high * 100 + low in
        if month == 0
          || ltb 12 month
          || day == 0
          || ltb (days_in month year) day
          || not (text_eq s6 [])
        then none
        else some (year, month, day)))))))

-- The letter that a code point folds to, as strings.EqualFold reads it against a lower-case letter.
abbrev folded : ℕ → ℕ
folded c =
    if leb 65 c && leb c 90
    then c + 32
    else if c == 0x17f
    then 115
    else if c == 0x212a
    then 107
    else c

-- strings.EqualFold(strings.TrimSpace(given), d)
abbrev pub names_day : Text → Text → Bool
names_day d given = text_eq (map folded (trim_space given)) d

-- strings.ToLower, of the letters that it takes to letters of a weekday.
abbrev lower : ℕ → ℕ
lower c =
    if leb 65 c && leb c 90
    then c + 32
    else if c == 0x130
    then 105
    else if c == 0x212a
    then 107
    else c

-- The loop of `uniqueLower`, from what it has so far.
unique_from : List Text → List Text → List Text
unique_from out [] = out
unique_from out (d ∷ days) =
    let name = map lower (trim_space d) in
    let kept = unique_from out days in
    let added = unique_from (name ∷ out) days in if contains out name then kept else added

pub unique_lower : List Text → List Text
unfolding unique_from
unique_lower days = unique_from [] days

-- The weekdays that are given, each once, in week order.
pub given_days : List Text → List Text
given_days days = filter (λ d. any (names_day d) days) weekdays

abbrev is_repeat : Text → Bool
is_repeat r =
    text_eq r repeat_once
    || text_eq r repeat_daily
    || text_eq r repeat_weekdays
    || text_eq r repeat_weekly

-- What the zones of the world say.
pub record Clock : Type 0 where
  pub knows : Text → Bool
  pub day_of : Text → ℕ → ℕ
  pub weekday : Text → ℕ → ℕ
  pub moment : Text → ℕ → ℕ → ℕ → ℕ
  pub day_number : ℕ → ℕ → ℕ → ℕ

normalized_days : Cadence → Result (List Text)
unfolding given_days unique_lower
normalized_days c =
    if text_eq c.repeat repeat_weekly
    then (let out = given_days c.days in
        refuse_if (length out == 0 || not (length out == length (unique_lower c.days)))
          invalid_cadence
        >> ok out)
    else (refuse_if (ltb 0 (length c.days)) invalid_cadence >> ok [])

normalized_date : Cadence → Result Text
unfolding parse_date
normalized_date c =
    if text_eq c.repeat repeat_once
    then (refuse_if (is_none (parse_date c.date)) invalid_cadence >> ok c.date)
    else (refuse_if (not (text_eq c.date [])) invalid_cadence >> ok [])

abbrev pub named_by : List Text → Option Text → Bool
named_by days none = false
named_by days (some d) = contains days d

-- `allows`, of a day of the week.
pub allows : Cadence → ℕ → Bool
allows c day =
    if text_eq c.repeat repeat_weekdays
    then leb 1 day && leb day 5
    else if text_eq c.repeat repeat_weekly
    then named_by c.days (get_elem? weekdays day)
    else true

abbrev kept_if : (ℕ → Bool) → Option ℕ → Option ℕ
kept_if p none = none
kept_if p (some t) = if p t then some t else none

module _ (clock : Clock) where
  -- `normalized`
  unfoldable pub normalized : Cadence → Result Cadence
  unfolding parse_clock normalized_days normalized_date
  normalized c =
      refuse_if (not (is_repeat c.repeat)) invalid_cadence
      >> (refuse_if (is_none (parse_clock c.time) || not (byte_len c.time == 5)) invalid_cadence
          >> (refuse_if (text_eq c.timezone [] || not (clock.knows c.timezone)) invalid_cadence
              >> (normalized_days c >>= λ days. normalized_date c >>= λ date. ok (record {
                repeat = c.repeat;
                time = c.time;
                days = days;
                date = date;
                timezone = c.timezone;
              }))))

  -- The hour and the minute; midnight where they cannot be read.
  abbrev clock_of : Option (ℕ × ℕ) → ℕ × ℕ
  clock_of none = (0, 0)
  clock_of (some t) = t

  -- `at`, on a local day.
  pub at : Cadence → ℕ → ℕ
  unfolding parse_clock
  at c day =
      let (hour, minute) = clock_of (parse_clock c.time) in clock.moment c.timezone day hour minute

  -- `once`
  pub once : Cadence → Option ℕ
  unfolding parse_date at
  once c =
      or_none (parse_date c.date)
        (λ (year, month, day). some (at c (clock.day_number year month day)))

  -- The loop of `Next`, with the days left to try.
  pub next_from : Cadence → ℕ → ℕ → ℕ → Option ℕ
  unfolding at allows
  next_from c t day zero = none
  next_from c t day (suc left) =
      let later = next_from c t (day + 1) left in
      if ltb t (at c day) && allows c (clock.weekday c.timezone (at c day))
      then some (at c day)
      else later

  -- `Next`
  unfoldable pub next : Cadence → ℕ → Option ℕ
  unfolding once next_from
  next c t =
      if not (clock.knows c.timezone)
      then none
      else if text_eq c.repeat repeat_once
      then kept_if (ltb t) (once c)
      else next_from c t (clock.day_of c.timezone t) 9

  -- The loop of `Previous`.
  pub previous_from : Cadence → ℕ → ℕ → ℕ → Option ℕ
  unfolding at allows
  previous_from c t day zero = none
  previous_from c t day (suc left) =
      let earlier = previous_from c t (day - 1) left in
      if leb (at c day) t && allows c (clock.weekday c.timezone (at c day))
      then some (at c day)
      else earlier

  -- `Previous`
  unfoldable pub previous : Cadence → ℕ → Option ℕ
  unfolding once previous_from
  previous c t =
      if not (clock.knows c.timezone)
      then none
      else if text_eq c.repeat repeat_once
      then kept_if (λ r. leb r t) (once c)
      else previous_from c t (clock.day_of c.timezone t) 9
