-- ===== src/Delivery/Outbox/Returns.antt =====
-- No event that is owed is put off for long.
use cuckoo.Base.{
  ℕ, ◌+◌, ◌≤◌, ◌≡◌, inl, inr, true, not, some, List, [], arith, All, All-filter, All-mono,
}
use cuckoo.Delivery.Schedule.{next_attempt, next_attempt_lem, hour}
use cuckoo.Delivery.Outbox.{
  Delivery, is_pending, is_due, is_finished, is_about, create_delivery, delete_finished_deliveries,
  delete_with_messages,
}
use cuckoo.Delivery.Outbox.Claims.{IsKeyed}
use cuckoo.Delivery.Outbox.Moves.{Advances, was_pending}
use cuckoo.Delivery.Outbox.Writes.{
  Change, Writes, done, next, changed, created, swept, forgotten, claimed_webhooks, claimed_socket,
  acknowledged, marked_delivered, retried, marked_failed, expired, unbound, Times, All-of_All₂,
  Change-step, Write-IsKeyed,
}

-- A change at a time or before it. A retry is as the schedule gives it.
abbrev pub IsBy : ℕ → {rows after : List Delivery} → Change rows after → Type 0
IsBy last (claimed_webhooks locked now n bs) = now ≤ last
IsBy last (claimed_socket locked now agent n bs) = now ≤ last
IsBy last (retried i t reason) =
    (attempts : ℕ) × (created_at : ℕ) × (now : ℕ) × (next_attempt attempts created_at now ≡ some t)
    × (now ≤ last)
IsBy last (acknowledged now i agent) = Unit {0}
IsBy last (marked_delivered now i) = Unit {0}
IsBy last (marked_failed i reason) = Unit {0}
IsBy last (expired now) = Unit {0}
IsBy last (unbound bs) = Unit {0}

abbrev pub AreBy :
    ℕ → {drawn : List ℕ} {rows after : List Delivery} → Writes drawn rows after → Type 0
AreBy last done = Unit {0}
AreBy last (next (changed c) ws) = IsBy last c × AreBy last ws
AreBy last
      (next (created now i message conversation agent event payload status error new unused) ws) =
    (now ≤ last) × AreBy last ws
AreBy last (next (swept before) ws) = AreBy last ws
AreBy last (next (forgotten messages) ws) = AreBy last ws

abbrev Soon : ℕ → Delivery → Type 0
Soon last d = is_pending d.status ≡ true → d.next_attempt_at ≤ last + hour

Times-Soon :
    (last : ℕ) {rows after : List Delivery} (c : Change rows after) (d e : Delivery)
    → IsBy last c
    → Times c d e
    → d.next_attempt_at ≤ last + hour
    → e.next_attempt_at ≤ last + hour
Times-Soon last c d e by (inl same) h = omega (arith, same)
Times-Soon last (claimed_webhooks locked now n bs) d e by (inr (early, set)) h =
    omega (arith, set, by)
Times-Soon last (claimed_socket locked now agent n bs) d e by (inr (early, set)) h =
    omega (arith, set, by)
Times-Soon last (retried i t reason) d e by (inr (hit, set)) h =
    let (attempts, created_at, now, planned, early) = by in
    let window = (next_attempt_lem attempts created_at now).0 t planned in
    omega (arith, set, early, window.1)
Times-Soon last (acknowledged now i agent) d e by (inr f) h = absurd f
Times-Soon last (marked_delivered now i) d e by (inr f) h = absurd f
Times-Soon last (marked_failed i reason) d e by (inr f) h = absurd f
Times-Soon last (expired now) d e by (inr f) h = absurd f
Times-Soon last (unbound bs) d e by (inr f) h = absurd f

Change-Soon :
    (last : ℕ) {rows after : List Delivery} (c : Change rows after)
    → IsKeyed rows
    → IsBy last c
    → All (Soon last) rows
    → All (Soon last) after
Change-Soon last {rows} {after} c keyed by h =
    All-of_All₂ (λ d e. Advances d e × Times c d e) (Soon last) (Soon last)
      (λ d e s w p. Times-Soon last c d e by s.1 (w (was_pending d e s.0 p))) rows after
      (Change-step c keyed) h

Writes-Soon :
    (last : ℕ) (drawn : List ℕ) {rows after : List Delivery} (ws : Writes drawn rows after)
    → IsKeyed rows
    → AreBy last ws
    → All (Soon last) rows
    → All (Soon last) after
unfolding create_delivery delete_finished_deliveries delete_with_messages
Writes-Soon last drawn done keyed by h = h
Writes-Soon last drawn (next (changed c) ws) keyed by h =
    Writes-Soon last drawn ws (Write-IsKeyed drawn (changed c) keyed) by.1
      (Change-Soon last c keyed by.0 h)
Writes-Soon last drawn
      (next
        (created {rows} now j message conversation agent event payload status error new unused)
        ws)
      keyed by h =
    Writes-Soon last drawn ws
      (Write-IsKeyed drawn
        (created {rows = rows} now j message conversation agent event payload status error new
          unused)
        keyed)
      by.1 ((λ p. omega (arith, by.0)), h)
Writes-Soon last drawn (next (swept {rows} before) ws) keyed by h =
    Writes-Soon last drawn ws (Write-IsKeyed drawn (swept {rows = rows} before) keyed) by
      (All-filter (Soon last) (λ d. not (is_finished before d)) rows h)
Writes-Soon last drawn (next (forgotten {rows} messages) ws) keyed by h =
    Writes-Soon last drawn ws (Write-IsKeyed drawn (forgotten {rows = rows} messages) keyed) by
      (All-filter (Soon last) (λ d. not (is_about messages d)) rows h)

-- In any table that the queries that write it lead to from the empty one, in whatever order, new
-- rows having fresh identifiers, claims and new rows being at a time or before it and retries when
-- the schedule gives them at such a time, every row that is still pending is due within an hour of
-- that time.
pub pending_returns :
    (last : ℕ) (drawn : List ℕ) (rows : List Delivery) (ws : Writes drawn [] rows)
    → AreBy last ws
    → All (λ d. is_pending d.status ≡ true → is_due (last + hour) d ≡ true) rows
pending_returns last drawn rows ws by =
    All-mono (Soon last) (λ d. is_pending d.status ≡ true → is_due (last + hour) d ≡ true)
      (λ d h p. ground (arith, h p)) rows (Writes-Soon last drawn ws tt by tt)
