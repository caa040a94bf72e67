-- ===== src/Delivery/Schedule.antt =====
-- delivery/schedule.go: when a failed attempt is made again. Times are nanoseconds.
use cuckoo.Base.{
  ℕ, zero, suc, ◌+◌, ◌-◌, ◌*◌, ◌≤◌, ◌<◌, ◌≡◌, refl, Option, none, some, List, [], ◌∷◌, arith, ltb,
  leb, if◌then◌else◌, length, get_elem?,
}

abbrev pub second : ℕ
second = 1_000_000_000

abbrev pub minute : ℕ
minute = 60 * second

abbrev pub hour : ℕ
hour = 60 * minute

abbrev pub retry_delays : List ℕ
retry_delays =
    (1 * second) ∷ (5 * second) ∷ (30 * second) ∷ (2 * minute) ∷ (10 * minute) ∷ (1 * hour) ∷ []

abbrev pub retry_for : ℕ
retry_for = 24 * hour

-- `retryDelays[i]`; the code never indexes out of range.
delay_at : ℕ → ℕ
delay_at i = elim (get_elem? retry_delays i) [ none ↦ 0 | some d ↦ d ]

unfoldable pub delay_after : ℕ → ℕ
unfolding delay_at
delay_after attempt =
    let attempt' = if ltb attempt 1 then 1 else attempt in
    if leb attempt' (length retry_delays)
    then delay_at (attempt' - 1)
    else delay_at (length retry_delays - 1)

-- `none` where the day allowed for retries has run out.
unfoldable pub next_attempt : ℕ → ℕ → ℕ → Option ℕ
next_attempt attempt created_at now =
    let next = now + delay_after attempt in
    if ltb (created_at + retry_for) next then none else some next

-- The list as a table of steps, which arithmetic reads.
delay_table :
    (attempt : ℕ)
    → delay_after attempt ≡ (
        if leb attempt 1
        then 1 * second
        else if leb attempt 2
        then 5 * second
        else if leb attempt 3
        then 30 * second
        else if leb attempt 4
        then 2 * minute
        else if leb attempt 5
        then 10 * minute
        else hour)
unfolding delay_after
delay_table zero = refl
delay_table (suc zero) = refl
delay_table (suc (suc zero)) = refl
delay_table (suc (suc (suc zero))) = refl
delay_table (suc (suc (suc (suc zero)))) = refl
delay_table (suc (suc (suc (suc (suc zero))))) = refl
delay_table (suc (suc (suc (suc (suc (suc zero)))))) = refl
delay_table (suc (suc (suc (suc (suc (suc (suc n))))))) = ground arith

delay_after_bounds : (attempt : ℕ) → (second ≤ delay_after attempt) × (delay_after attempt ≤ hour)
delay_after_bounds attempt = rw (delay_table attempt) (ground arith)

-- The waits never shrink.
delay_after_mono : (a b : ℕ) → a ≤ b → delay_after a ≤ delay_after b
delay_after_mono a b h = rw (delay_table a, delay_table b) (ground arith)

-- A retry is a second to an hour away and inside the event's day; none is refused in the first
-- twenty-three hours; and the waits do not shrink from one attempt to a later one.
pub next_attempt_lem :
    (attempt created_at now : ℕ)
    → ((t : ℕ)
        → next_attempt attempt created_at now ≡ some t
        → (now + second ≤ t) × (t ≤ now + hour) × (t ≤ created_at + retry_for))
      × (next_attempt attempt created_at now ≡ none → created_at + 23 * hour < now)
      × ((later t u : ℕ)
          → attempt ≤ later
          → next_attempt attempt created_at now ≡ some t
          → next_attempt later created_at now ≡ some u
          → t ≤ u)
unfolding next_attempt
next_attempt_lem attempt created_at now = (
  λ t h. ground (arith, delay_after_bounds attempt),
  λ h. ground (arith, delay_after_bounds attempt),
  λ later t u le h k. ground (arith, delay_after_mono attempt later le),
)
