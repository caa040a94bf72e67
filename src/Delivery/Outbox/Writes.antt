-- ===== src/Delivery/Outbox/Writes.antt =====
-- Every order of the writes on the table, by any of the queries that write it.
use cuckoo.Base.{
  ℕ, ◌+◌, ◌≤◌, ◌≡◌, refl, sym, subst, ap, ◌⊎◌, inl, inr, Bool, true, false, not, Option, List, [],
  ◌∷◌, arith, filter, update, Bool-cases, Distinct, Avoids, All, All₂, All₂-update,
}
use cuckoo.Base.Keys.{is_in}
use cuckoo.Base.Text.{Text}
use cuckoo.Agents.Bindings.{Binding}
use cuckoo.Delivery.Outbox.{
  Delivery, Status, EventType, new_delivery, create_delivery, lease_for, deliver, fail_with,
  retry_at, is_open, is_own, is_expired, is_unbound, is_due, claim_due_webhook_deliveries,
  claim_due_socket_deliveries, webhook_eligible, socket_eligible, due_before, id_before,
  ack_delivery, mark_delivered, schedule_retry, mark_failed, fail_expired_deliveries,
  fail_unbound_deliveries, is_finished, is_about, delete_finished_deliveries, delete_with_messages,
}
use cuckoo.Delivery.Outbox.Claims.{ids, IsKeyed}
use cuckoo.Delivery.Outbox.Leases.{Leased, claim_lem}
use cuckoo.Delivery.Outbox.Moves.{
  Advance, Advances, Advance-ids, claim-Advance, ack_delivery-Advance, mark_delivered-Advance,
  mark_failed-Advance, schedule_retry-Advance, fail_expired-Advance, fail_unbound-Advance,
}

-- A query that changes rows.
pub data Change : List Delivery → List Delivery → Type 0 where
  claimed_webhooks :
      {rows : List Delivery} (locked : ℕ → Bool) (now n : ℕ) (bs : List Binding)
      → Change rows (claim_due_webhook_deliveries locked now n bs rows).0
  claimed_socket :
      {rows : List Delivery} (locked : ℕ → Bool) (now agent n : ℕ) (bs : List Binding)
      → Change rows (claim_due_socket_deliveries locked now agent n bs rows).0
  acknowledged :
      {rows : List Delivery} (now i agent : ℕ) → Change rows (ack_delivery now i agent rows).0
  marked_delivered : {rows : List Delivery} (now i : ℕ) → Change rows (mark_delivered now i rows)
  retried :
      {rows : List Delivery} (i t : ℕ) (reason : Text)
      → Change rows (schedule_retry i t reason rows)
  marked_failed :
      {rows : List Delivery} (i : ℕ) (reason : Text) → Change rows (mark_failed i reason rows)
  expired : {rows : List Delivery} (now : ℕ) → Change rows (fail_expired_deliveries now rows).0
  unbound :
      {rows : List Delivery} (bs : List Binding) → Change rows (fail_unbound_deliveries bs rows).0

-- One write on the table. An identifier is drawn once: a created row's is none of those that were drawn
-- before, `drawn`, and none that a row has.
pub data Write (drawn : List ℕ) : List Delivery → List Delivery → Type 0 where
  changed : {rows after : List Delivery} → Change rows after → Write drawn rows after
  created :
      {rows : List Delivery} (now i : ℕ) (message : Option ℕ) (conversation agent : ℕ)
      (event : EventType) (payload : Text) (status : Status) (error : Option Text)
      → is_in i drawn ≡ false
      → is_in i (ids rows) ≡ false
      → Write drawn rows (
          create_delivery
            (new_delivery now i message conversation agent event payload status error)
            rows)
  swept :
      {rows : List Delivery} (before : ℕ)
      → Write drawn rows (delete_finished_deliveries before rows)
  forgotten :
      {rows : List Delivery} (messages : List ℕ)
      → Write drawn rows (delete_with_messages messages rows)

pub data Writes (drawn : List ℕ) : List Delivery → List Delivery → Type 0 where
  done : {rows : List Delivery} → Writes drawn rows rows
  next :
      {rows mid after : List Delivery}
      → Write drawn rows mid
      → Writes drawn mid after
      → Writes drawn rows after

-- What a change may set the time of the next attempt to: a claim leases a due row, and a retry is of its row.
abbrev pub Sets : {rows after : List Delivery} → Change rows after → Delivery → ℕ → Type 0
Sets (claimed_webhooks locked now n bs) d t = (d.next_attempt_at ≤ now) × (t ≡ now + lease_for)
Sets (claimed_socket locked now agent n bs) d t = (d.next_attempt_at ≤ now) × (t ≡ now + lease_for)
Sets (retried i at reason) d t = (d.id ≡ i) × (t ≡ at)
Sets (acknowledged now i agent) d t = ⊥
Sets (marked_delivered now i) d t = ⊥
Sets (marked_failed i reason) d t = ⊥
Sets (expired now) d t = ⊥
Sets (unbound bs) d t = ⊥

-- What a change does to the time of one row.
abbrev pub Times : {rows after : List Delivery} → Change rows after → Delivery → Delivery → Type 0
Times c d e = (e.next_attempt_at ≡ d.next_attempt_at) ⊎ Sets c d e.next_attempt_at

All₂-map :
    (R S : Delivery → Delivery → Type 0)
    → ((d e : Delivery) → R d e → S d e)
    → (xs ys : List Delivery) → All₂ R xs ys
    → All₂ S xs ys
All₂-map R S f [] [] h = tt
All₂-map R S f [] (y ∷ ys) h = absurd h
All₂-map R S f (x ∷ xs) [] h = absurd h
All₂-map R S f (x ∷ xs) (y ∷ ys) (a, h) = (f x y a, All₂-map R S f xs ys h)

-- What holds of every row before holds of every row after, if it does row by row.
pub All-of_All₂ :
    (R : Delivery → Delivery → Type 0) (P Q : Delivery → Type 0)
    → ((d e : Delivery) → R d e → P d → Q e)
    → (xs ys : List Delivery) → All₂ R xs ys
    → All P xs
    → All Q ys
All-of_All₂ R P Q f [] [] h p = tt
All-of_All₂ R P Q f [] (y ∷ ys) h p = absurd h
All-of_All₂ R P Q f (x ∷ xs) [] h p = absurd h
All-of_All₂ R P Q f (x ∷ xs) (y ∷ ys) (a, h) (b, p) = (f x y a b, All-of_All₂ R P Q f xs ys h p)

kept-Times :
    (p : Delivery → Bool) (f : Delivery → Delivery) {rows after : List Delivery}
    (c : Change rows after)
    → ((d : Delivery) → (f d).next_attempt_at ≡ d.next_attempt_at)
    → (some_rows : List Delivery) → All₂ (Times c) some_rows (update p f some_rows)
kept-Times p f c same rows = All₂-update (Times c) p f (λ d _. inl (same d)) (λ d _. inl refl) rows

Leased-Times :
    (eligible : Delivery → Bool) (now : ℕ) (d e : Delivery)
    → ((r : Delivery) → eligible r ≡ true → is_due now r ≡ true)
    → Leased eligible now d e
    → (e.next_attempt_at ≡ d.next_attempt_at)
      ⊎ ((d.next_attempt_at ≤ now) × (e.next_attempt_at ≡ now + lease_for))
Leased-Times eligible now d e due (inl same) = inl (ap (λ r. r.next_attempt_at) same)
Leased-Times eligible now d e due (inr (chosen, leased)) =
    inr ((ground (arith, due d chosen)), ap (λ r. r.next_attempt_at) leased)

Change-Times :
    {rows after : List Delivery} (c : Change rows after) → IsKeyed rows → All₂ (Times c) rows after
unfolding claim_due_webhook_deliveries claim_due_socket_deliveries ack_delivery mark_delivered
    schedule_retry mark_failed fail_expired_deliveries fail_unbound_deliveries
Change-Times (claimed_webhooks {rows} locked now n bs) keyed =
    All₂-map _ _
      (λ d e. Leased-Times (webhook_eligible locked now bs) now d e (λ r h. ground arith)) rows _
      (claim_lem (webhook_eligible locked now bs) due_before now n rows keyed).0
Change-Times (claimed_socket {rows} locked now agent n bs) keyed =
    All₂-map _ _
      (λ d e. Leased-Times (socket_eligible locked now agent bs) now d e (λ r h. ground arith)) rows
      _ (claim_lem (socket_eligible locked now agent bs) id_before now n rows keyed).0
Change-Times (acknowledged {rows} now i agent) keyed =
    kept-Times (is_own i agent) (deliver now) (acknowledged {rows = rows} now i agent) (λ d. refl)
      rows
Change-Times (marked_delivered {rows} now i) keyed =
    kept-Times (is_open i) (deliver now) (marked_delivered {rows = rows} now i) (λ d. refl) rows
Change-Times (retried {rows} i t reason) keyed =
    All₂-update (Times (retried {rows = rows} i t reason)) (is_open i) (retry_at t reason)
      (λ d h. inr (ground arith, refl)) (λ d _. inl refl) rows
Change-Times (marked_failed {rows} i reason) keyed =
    kept-Times (is_open i) (fail_with reason) (marked_failed {rows = rows} i reason) (λ d. refl)
      rows
Change-Times (expired {rows} now) keyed =
    kept-Times (is_expired now) (fail_with _) (expired {rows = rows} now) (λ d. refl) rows
Change-Times (unbound {rows} bs) keyed =
    kept-Times (is_unbound bs) (fail_with _) (unbound {rows = rows} bs) (λ d. refl) rows

pub Change-Advance :
    {rows after : List Delivery} → Change rows after → IsKeyed rows → Advance rows after
unfolding claim_due_webhook_deliveries claim_due_socket_deliveries
Change-Advance (claimed_webhooks {rows} locked now n bs) keyed =
    claim-Advance (webhook_eligible locked now bs) due_before now n rows keyed (λ c e. ground arith)
Change-Advance (claimed_socket {rows} locked now agent n bs) keyed =
    claim-Advance (socket_eligible locked now agent bs) id_before now n rows keyed
      (λ c e. ground arith)
Change-Advance (acknowledged {rows} now j agent) keyed = ack_delivery-Advance now j agent rows
Change-Advance (marked_delivered {rows} now j) keyed = mark_delivered-Advance now j rows
Change-Advance (retried {rows} j t reason) keyed = schedule_retry-Advance j t reason rows
Change-Advance (marked_failed {rows} j reason) keyed = mark_failed-Advance j reason rows
Change-Advance (expired {rows} now) keyed = fail_expired-Advance now rows
Change-Advance (unbound {rows} bs) keyed = fail_unbound-Advance bs rows

both :
    (R S : Delivery → Delivery → Type 0) (xs ys : List Delivery)
    → All₂ R xs ys
    → All₂ S xs ys
    → All₂ (λ d e. R d e × S d e) xs ys
both R S [] [] h k = tt
both R S [] (y ∷ ys) h k = absurd h
both R S (x ∷ xs) [] h k = absurd h
both R S (x ∷ xs) (y ∷ ys) (a, h) (b, k) = ((a, b), both R S xs ys h k)

-- What a change does to each row.
pub Change-step :
    {rows after : List Delivery} (c : Change rows after)
    → IsKeyed rows
    → All₂ (λ d e. Advances d e × Times c d e) rows after
Change-step {rows} {after} c keyed =
    both Advances (Times c) rows after (Change-Advance c keyed) (Change-Times c keyed)

fresh-Avoids : (i : ℕ) (rows : List Delivery) → is_in i (ids rows) ≡ false → Avoids i (ids rows)
fresh-Avoids i [] h = tt
fresh-Avoids i (d ∷ rows) h = (ground arith, fresh-Avoids i rows (ground arith))

Avoids-filter :
    (p : Delivery → Bool) (i : ℕ) (rows : List Delivery)
    → Avoids i (ids rows)
    → Avoids i (ids (filter p rows))
Avoids-filter p i [] h = tt
Avoids-filter p i (d ∷ rows) h = elim (Bool-cases (p d)) [
  | inl e ↦ rw e (h.0, Avoids-filter p i rows h.1)
  | inr e ↦ rw e (Avoids-filter p i rows h.1)
]

pub filter-IsKeyed :
    (p : Delivery → Bool) (rows : List Delivery) → IsKeyed rows → IsKeyed (filter p rows)
filter-IsKeyed p [] h = tt
filter-IsKeyed p (d ∷ rows) h = elim (Bool-cases (p d)) [
  | inl e ↦ rw e (Avoids-filter p d.id rows h.0, filter-IsKeyed p rows h.1)
  | inr e ↦ rw e (filter-IsKeyed p rows h.1)
]

pub Write-IsKeyed :
    (drawn : List ℕ) {rows after : List Delivery}
    → Write drawn rows after
    → IsKeyed rows
    → IsKeyed after
unfolding create_delivery delete_finished_deliveries delete_with_messages
Write-IsKeyed drawn (changed {rows} {after} c) keyed =
    subst Distinct (sym (Advance-ids rows after (Change-Advance c keyed))) keyed
Write-IsKeyed drawn
      (created {rows} now i message conversation agent event payload status error new unused)
      keyed =
    (fresh-Avoids i rows unused, keyed)
Write-IsKeyed drawn (swept {rows} before) keyed =
    filter-IsKeyed (λ d. not (is_finished before d)) rows keyed
Write-IsKeyed drawn (forgotten {rows} messages) keyed =
    filter-IsKeyed (λ d. not (is_about messages d)) rows keyed

pub Writes-IsKeyed :
    (drawn : List ℕ) {rows after : List Delivery}
    → Writes drawn rows after
    → IsKeyed rows
    → IsKeyed after
Writes-IsKeyed drawn done keyed = keyed
Writes-IsKeyed drawn (next w ws) keyed = Writes-IsKeyed drawn ws (Write-IsKeyed drawn w keyed)
