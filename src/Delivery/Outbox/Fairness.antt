-- ===== src/Delivery/Outbox/Fairness.antt =====
-- Two claims within one lease: a row comes back only after a retry.
use cuckoo.Base.{
  ◌∙◌, ◌||◌, not, All-filter, ℕ, ◌+◌, ◌≤◌, ◌<◌, ◌≡◌, refl, sym, subst, inl, inr, Bool, true, false,
  List, [], ◌∷◌, arith, ◌==◌, ==→eq, Bool-cases, filter, update, All, Distinct, All-mono,
}
use cuckoo.Base.Keys.{is_in}
use cuckoo.Delivery.Outbox.{
  is_pending, is_finished, is_about, create_delivery, delete_finished_deliveries,
  delete_with_messages, Delivery, lease, lease_for, picked, claim, is_due,
}
use cuckoo.Delivery.Outbox.Claims.{ids, IsKeyed, PickedIsEligible, picked-eligible}
use cuckoo.Delivery.Outbox.Leases.{HoldsLease}
use cuckoo.Delivery.Outbox.Moves.{was_pending, Advances}
use cuckoo.Delivery.Outbox.Writes.{
  Change, Writes, done, next, changed, created, swept, forgotten, claimed_webhooks, claimed_socket,
  acknowledged, marked_delivered, retried, marked_failed, expired, unbound, Times, All-of_All₂,
  Change-step, Write-IsKeyed, Writes-IsKeyed,
}

ids-lease :
    (p : Delivery → Bool) (now : ℕ) (rows : List Delivery)
    → ids (update p (lease now) rows) ≡ ids rows
ids-lease p now [] = refl
ids-lease p now (d ∷ rows) = ground (arith, ids-lease p now rows)

-- A key among those claimed is a key that was picked.
claimed-keys :
    (keys : List ℕ) (i : ℕ) (rows : List Delivery)
    → is_in i (ids (filter (λ d. is_in d.id keys) rows)) ≡ true
    → is_in i keys ≡ true
claimed-keys keys i [] h = cc
claimed-keys keys i (d ∷ rows) h = elim (Bool-cases (is_in d.id keys)) [
  | inl e ↦ elim (Bool-cases (i == d.id)) [
    | inl same ↦ rw (==→eq _ _ same) e
    | inr later ↦ claimed-keys keys i rows (ground arith)
  ]
  | inr e ↦ claimed-keys keys i rows (rw e at h)
]

-- In the table after a claim, every row under a picked key holds the lease.
rows_hold :
    (now : ℕ) (keys : List ℕ) (rows : List Delivery)
    → All
        (λ d. is_in d.id keys ≡ true → HoldsLease now d)
        (update (λ d. is_in d.id keys) (lease now) rows)
rows_hold now keys [] = tt
rows_hold now keys (d ∷ rows) = elim (Bool-cases (is_in d.id keys)) [
  | inl e ↦ rw e ((λ _. refl), rows_hold now keys rows)
  | inr e ↦ rw e ((λ p. cc), rows_hold now keys rows)
]

-- Whether a write moves the row of the key to another time by hand.
abbrev pub reschedules : {rows after : List Delivery} → Change rows after → ℕ → Bool
reschedules (retried i t reason) j = i == j
reschedules (claimed_webhooks locked now n bs) j = false
reschedules (claimed_socket locked now agent n bs) j = false
reschedules (acknowledged now i agent) j = false
reschedules (marked_delivered now i) j = false
reschedules (marked_failed i reason) j = false
reschedules (expired now) j = false
reschedules (unbound bs) j = false

abbrev pub is_retried :
    {drawn : List ℕ} {rows after : List Delivery} → ℕ → Writes drawn rows after → Bool
is_retried j done = false
is_retried j (next (changed c) ws) = reschedules c j || is_retried j ws
is_retried j
      (next (created now i message conversation agent event payload status error new unused) ws) =
    is_retried j ws
is_retried j (next (swept before) ws) = is_retried j ws
is_retried j (next (forgotten messages) ws) = is_retried j ws

-- The row of the key, while it is pending, waits for a time.
abbrev Waits : ℕ → ℕ → Delivery → Type 0
Waits until i d = d.id ≡ i → is_pending d.status ≡ true → until ≤ d.next_attempt_at

Times-later :
    {rows after : List Delivery} (c : Change rows after) (i : ℕ) (d e : Delivery)
    → reschedules c i ≡ false
    → d.id ≡ i
    → Times c d e
    → d.next_attempt_at ≤ e.next_attempt_at
Times-later c i d e calm is_it (inl same) = omega (arith, same)
Times-later (retried j t reason) i d e calm is_it (inr (hit, set)) =
    absurd (ground (arith, calm, is_it, hit))
Times-later (claimed_webhooks locked now n bs) i d e calm is_it (inr (early, set)) =
    omega (arith, early, set)
Times-later (claimed_socket locked now agent n bs) i d e calm is_it (inr (early, set)) =
    omega (arith, early, set)
Times-later (acknowledged now j agent) i d e calm is_it (inr f) = absurd f
Times-later (marked_delivered now j) i d e calm is_it (inr f) = absurd f
Times-later (marked_failed j reason) i d e calm is_it (inr f) = absurd f
Times-later (expired now) i d e calm is_it (inr f) = absurd f
Times-later (unbound bs) i d e calm is_it (inr f) = absurd f

Change-Waits :
    (until i : ℕ) {rows after : List Delivery} (c : Change rows after)
    → IsKeyed rows
    → reschedules c i ≡ false
    → All (Waits until i) rows
    → All (Waits until i) after
Change-Waits until i {rows} {after} c keyed calm h =
    All-of_All₂ (λ d e. Advances d e × Times c d e) (Waits until i) (Waits until i) step rows after
      (Change-step c keyed) h
  where
    step : (d e : Delivery) → Advances d e × Times c d e → Waits until i d → Waits until i e
    step d e (a, t) w is_it p =
        let mine : d.id ≡ i = sym a.same_id ∙ is_it in
        omega (arith, w mine (was_pending d e a p), Times-later c i d e calm mine t)

Writes-Waits :
    (until i : ℕ) (drawn : List ℕ) {rows after : List Delivery} (ws : Writes drawn rows after)
    → IsKeyed rows
    → is_in i drawn ≡ true
    → is_retried i ws ≡ false
    → All (Waits until i) rows
    → All (Waits until i) after
unfolding create_delivery delete_finished_deliveries delete_with_messages
Writes-Waits until i drawn done keyed old calm h = h
Writes-Waits until i drawn (next (changed c) ws) keyed old calm h =
    Writes-Waits until i drawn ws (Write-IsKeyed drawn (changed c) keyed) old (ground (arith, calm))
      (Change-Waits until i c keyed (ground (arith, calm)) h)
Writes-Waits until i drawn
      (next
        (created {rows} now j message conversation agent event payload status error new unused)
        ws)
      keyed old calm h =
    Writes-Waits until i drawn ws
      (Write-IsKeyed drawn
        (created {rows = rows} now j message conversation agent event payload status error new
          unused)
        keyed)
      old calm ((λ same p. absurd (met same)), h)
  where
    met : j ≡ i → ⊥
    met same = let clash : is_in i drawn ≡ false = subst (λ k. is_in k drawn ≡ false) same new in cc
Writes-Waits until i drawn (next (swept {rows} before) ws) keyed old calm h =
    Writes-Waits until i drawn ws (Write-IsKeyed drawn (swept {rows = rows} before) keyed) old calm
      (All-filter (Waits until i) (λ d. not (is_finished before d)) rows h)
Writes-Waits until i drawn (next (forgotten {rows} messages) ws) keyed old calm h =
    Writes-Waits until i drawn ws (Write-IsKeyed drawn (forgotten {rows = rows} messages) keyed) old
      calm (All-filter (Waits until i) (λ d. not (is_about messages d)) rows h)

claim-Waits :
    (eligible : Delivery → Bool) (before : Delivery → Delivery → Bool) (now n i : ℕ)
    (rows : List Delivery)
    → is_in i (ids (claim eligible before now n rows).1) ≡ true
    → All (Waits (now + lease_for) i) (claim eligible before now n rows).0
unfolding claim
claim-Waits eligible before now n i rows taken =
    All-mono (λ d. is_in d.id keys ≡ true → HoldsLease now d) _ waits after
      (rows_hold now keys rows)
  where
    keys : List ℕ
    keys = picked eligible before n rows

    after : List Delivery
    after = update (λ d. is_in d.id keys) (lease now) rows

    waits :
        (d : Delivery) → (is_in d.id keys ≡ true → HoldsLease now d) → Waits (now + lease_for) i d
    waits d holds same p =
        let mine = subst (λ k. is_in k keys ≡ true) (sym same) (claimed-keys keys i after taken) in
        omega (arith, holds mine)

claim-ids :
    (eligible : Delivery → Bool) (before : Delivery → Delivery → Bool) (now n : ℕ)
    (rows : List Delivery)
    → ids (claim eligible before now n rows).0 ≡ ids rows
unfolding claim
claim-ids eligible before now n rows = ids-lease _ now rows

filter_known :
    (p : Delivery → Bool) (i : ℕ) (rows : List Delivery)
    → is_in i (ids (filter p rows)) ≡ true
    → is_in i (ids rows) ≡ true
filter_known p i [] h = cc
filter_known p i (d ∷ rows) h = elim (Bool-cases (p d)) [
  | inl e ↦ elim (Bool-cases (i == d.id)) [
    | inl same ↦ rw same refl
    | inr later ↦ rw later (filter_known p i rows (ground arith))
  ]
  | inr e ↦ ground (arith, filter_known p i rows (rw e at h))
]

claimed_known :
    (eligible : Delivery → Bool) (before : Delivery → Delivery → Bool) (now n i : ℕ)
    (rows : List Delivery)
    → is_in i (ids (claim eligible before now n rows).1) ≡ true
    → is_in i (ids rows) ≡ true
unfolding claim
claimed_known eligible before now n i rows h =
    subst (λ is. is_in i is ≡ true) (ids-lease _ now rows)
      (filter_known (λ d. is_in d.id (picked eligible before n rows)) i _ h)

-- What a claim of due rows returns was due: no row that waits for later.
claimed_due :
    (eligible : Delivery → Bool) (before : Delivery → Delivery → Bool) (t n until i : ℕ)
    (rows : List Delivery)
    → IsKeyed rows
    → ((d : Delivery) → eligible d ≡ true → is_due t d ≡ true)
    → t < until
    → All (Waits until i) rows
    → is_in i (ids (claim eligible before t n rows).1) ≡ false
unfolding claim
claimed_due eligible before t n until i rows keyed due early waits =
    go rows (picked-eligible eligible before n rows keyed) waits
  where
    keys : List ℕ
    keys = picked eligible before n rows

    go :
        (rest : List Delivery)
        → All (PickedIsEligible eligible keys) rest
        → All (Waits until i) rest
        → is_in i
            (ids (filter (λ d. is_in d.id keys) (update (λ d. is_in d.id keys) (lease t) rest)))
          ≡ false
    go [] h w = refl
    go (d ∷ rest) h w = elim (Bool-cases (is_in d.id keys)) [
      | inl e ↦ rw e (rw e (rw (other d (due d (h.0 e)) w.0) (go rest h.1 w.1)))
      | inr e ↦ rw e (rw e (go rest h.1 w.1))
    ]
      where
        other : (d : Delivery) → is_due t d ≡ true → Waits until i d → (i == d.id) ≡ false
        other d ready wait = elim (Bool-cases (i == d.id)) [
          | inl same ↦ absurd (ground (arith, wait (sym (==→eq _ _ same))))
          | inr differs ↦ differs
        ]

-- In a keyed table, a row that a claim returns again before the lease of an earlier claim of it
-- ends was rescheduled by a retry in between, whatever queries wrote the table between the two
-- claims and in whatever order, if the later claim is of due rows and new rows have fresh
-- identifiers.
pub claim_exclusive :
    (first second : Delivery → Bool) (before₁ before₂ : Delivery → Delivery → Bool)
    (now t n m i : ℕ) (rows mid : List Delivery)
    → IsKeyed rows
    → ((d : Delivery) → second d ≡ true → is_due t d ≡ true)
    → t < now + lease_for
    → (ws : Writes (ids rows) (claim first before₁ now n rows).0 mid)
    → is_in i (ids (claim first before₁ now n rows).1) ≡ true
    → is_in i (ids (claim second before₂ t m mid).1) ≡ true
    → is_retried i ws ≡ true
claim_exclusive first second before₁ before₂ now t n m i rows mid keyed due early ws one two =
    elim (Bool-cases (is_retried i ws)) [
      | inl e ↦ e
      | inr calm ↦
          let start : IsKeyed (claim first before₁ now n rows).0 =
            subst Distinct (sym (claim-ids first before₁ now n rows)) keyed in
          let free =
            claimed_due second before₂ t m (now + lease_for) i mid
              (Writes-IsKeyed (ids rows) ws start) due early
              (Writes-Waits (now + lease_for) i (ids rows) ws start
                (claimed_known first before₁ now n i rows one) calm
                (claim-Waits first before₁ now n i rows one)) in
          absurd cc
    ]
