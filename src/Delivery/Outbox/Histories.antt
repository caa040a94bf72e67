-- ===== src/Delivery/Outbox/Histories.antt =====
-- What has been settled stays as it is until retention deletes it.
use cuckoo.Base.{
  ℕ, ◌≡◌, refl, subst, ap, ◌∙◌, inl, inr, Bool, true, false, ◌||◌, not, none, some, List, [], ◌∷◌,
  arith, ◌==◌, ==→eq, Bool-cases, if◌then◌else◌, filter, Avoids,
}
use cuckoo.Base.Keys.{is_in}
use cuckoo.Delivery.Outbox.{
  Delivery, create_delivery, is_pending, get_delivery, is_finished, is_about,
  delete_finished_deliveries, delete_with_messages,
}
use cuckoo.Delivery.Outbox.Claims.{ids, IsKeyed}
use cuckoo.Delivery.Outbox.Moves.{Advance}
use cuckoo.Delivery.Outbox.Writes.{
  Write, Writes, done, next, changed, created, swept, forgotten, Change-Advance, Write-IsKeyed,
}

-- Whether a write deletes the row: a sweep of finished rows, or of the message that it is about.
abbrev pub deletes :
    {drawn : List ℕ} {rows after : List Delivery} → Write drawn rows after → Delivery → Bool
deletes (swept before) d = is_finished before d
deletes (forgotten messages) d = is_about messages d
deletes (changed c) d = false
deletes (created now i message conversation agent event payload status error new unused) d = false

abbrev pub deletes_any :
    {drawn : List ℕ} {rows after : List Delivery} → Writes drawn rows after → Delivery → Bool
deletes_any done d = false
deletes_any (next w ws) d = deletes w d || deletes_any ws d

advanced-get :
    (i : ℕ) (d : Delivery) (rows after : List Delivery)
    → is_pending d.status ≡ false
    → Advance rows after
    → get_delivery i rows ≡ some d
    → get_delivery i after ≡ some d
advanced-get i d [] [] p h e = e
advanced-get i d [] (b ∷ after) p h e = absurd h
advanced-get i d (a ∷ rows) [] p h e = absurd h
advanced-get i d (a ∷ rows) (b ∷ after) p (one, rest) e = elim (Bool-cases (a.id == i)) [
  | inl same ↦
      let found : some a ≡ some d = rw same at e in ground (arith, one.settled, one.same_id)
  | inr differs ↦
      let later : get_delivery i rows ≡ some d = rw differs at e in
      ground (arith, one.same_id, advanced-get i d rows after p rest later)
]

advanced-get_none :
    (i : ℕ) (rows after : List Delivery)
    → Advance rows after
    → get_delivery i rows ≡ none
    → get_delivery i after ≡ none
advanced-get_none i [] [] h e = e
advanced-get_none i [] (b ∷ after) h e = absurd h
advanced-get_none i (a ∷ rows) [] h e = absurd h
advanced-get_none i (a ∷ rows) (b ∷ after) (one, rest) e = elim (Bool-cases (a.id == i)) [
  | inl same ↦ let found : some a ≡ none = rw same at e in cc
  | inr differs ↦
      let later : get_delivery i rows ≡ none = rw differs at e in
      ground (arith, one.same_id, advanced-get_none i rows after rest later)
]

get-known :
    (i : ℕ) (d : Delivery) (rows : List Delivery)
    → get_delivery i rows ≡ some d
    → is_in i (ids rows) ≡ true
get-known i d [] h = cc
get-known i d (a ∷ rows) h = ground (arith, get-known i d rows)

avoided-get : (i : ℕ) (rows : List Delivery) → Avoids i (ids rows) → get_delivery i rows ≡ none
avoided-get i [] h = refl
avoided-get i (a ∷ rows) h = ground (arith, h.0, avoided-get i rows h.1)

kept-get_none :
    (p : Delivery → Bool) (i : ℕ) (rows : List Delivery)
    → get_delivery i rows ≡ none
    → get_delivery i (filter p rows) ≡ none
kept-get_none p i [] h = refl
kept-get_none p i (a ∷ rows) h = elim (Bool-cases (a.id == i)) [
  | inl same ↦ let found : some a ≡ none = rw same at h in absurd cc
  | inr differs ↦
      let later : get_delivery i rows ≡ none = rw differs at h in
      elim (Bool-cases (p a)) [
        | inl e ↦ rw e (rw differs (kept-get_none p i rows later))
        | inr e ↦ rw e (kept-get_none p i rows later)
      ]
]

-- In a keyed table, a deletion takes the row that is read, or leaves it.
kept-get :
    (gone : Delivery → Bool) (i : ℕ) (d : Delivery) (rows : List Delivery)
    → IsKeyed rows
    → get_delivery i rows ≡ some d
    → get_delivery i (filter (λ c. not (gone c)) rows) ≡ (if gone d then none else some d)
kept-get gone i d [] keyed h = cc
kept-get gone i d (a ∷ rows) keyed h = elim (Bool-cases (a.id == i)) [
  | inl same ↦
      let found : some a ≡ some d = rw same at h in
      let here : get_delivery i rows ≡ none =
        avoided-get i rows (subst (λ k. Avoids k (ids rows)) (==→eq _ _ same) keyed.0) in
      subst
        (λ c.
          get_delivery i (filter (λ r. not (gone r)) (a ∷ rows))
          ≡ (if gone c then none else some c))
        (some-injective found)
        (elim (Bool-cases (gone a)) [
          | inl e ↦ rw e (kept-get_none (λ r. not (gone r)) i rows here)
          | inr e ↦ rw e (rw same refl)
        ])
  | inr differs ↦
      let later : get_delivery i rows ≡ some d = rw differs at h in
      elim (Bool-cases (gone a)) [
        | inl e ↦ rw e (kept-get gone i d rows keyed.1 later)
        | inr e ↦ rw e (rw differs (kept-get gone i d rows keyed.1 later))
      ]
]
  where
    some-injective : {b c : Delivery} → some b ≡ some c → b ≡ c
    some-injective e = cc

Write-get_none :
    (drawn : List ℕ) (i : ℕ) {rows after : List Delivery}
    → Write drawn rows after
    → IsKeyed rows
    → is_in i drawn ≡ true
    → get_delivery i rows ≡ none
    → get_delivery i after ≡ none
unfolding create_delivery delete_finished_deliveries delete_with_messages
Write-get_none drawn i (changed {rows} {after} c) keyed old e =
    advanced-get_none i rows after (Change-Advance c keyed) e
Write-get_none drawn i
      (created {rows} now j message conversation agent event payload status error new unused) keyed
      old e =
    ground (arith, other)
  where
    other : (j == i) ≡ false
    other = elim (Bool-cases (j == i)) [
      | inl same ↦
          let met : is_in i drawn ≡ false =
            subst (λ k. is_in k drawn ≡ false) (==→eq j i same) new in
          absurd cc
      | inr differs ↦ differs
    ]
Write-get_none drawn i (swept {rows} before) keyed old e =
    kept-get_none (λ d. not (is_finished before d)) i rows e
Write-get_none drawn i (forgotten {rows} messages) keyed old e =
    kept-get_none (λ d. not (is_about messages d)) i rows e

Write-get :
    (drawn : List ℕ) (i : ℕ) (d : Delivery) {rows after : List Delivery}
    (w : Write drawn rows after)
    → IsKeyed rows
    → is_pending d.status ≡ false
    → get_delivery i rows ≡ some d
    → get_delivery i after ≡ (if deletes w d then none else some d)
unfolding create_delivery delete_finished_deliveries delete_with_messages
Write-get drawn i d (changed {rows} {after} c) keyed p e =
    advanced-get i d rows after p (Change-Advance c keyed) e
Write-get drawn i d
      (created {rows} now j message conversation agent event payload status error new unused) keyed
      p e =
    ground (arith, unused, get-known i d rows e)
Write-get drawn i d (swept {rows} before) keyed p e = kept-get (is_finished before) i d rows keyed e
Write-get drawn i d (forgotten {rows} messages) keyed p e =
    kept-get (is_about messages) i d rows keyed e

Writes-get_none :
    (drawn : List ℕ) (i : ℕ) {rows after : List Delivery}
    → Writes drawn rows after
    → IsKeyed rows
    → is_in i drawn ≡ true
    → get_delivery i rows ≡ none
    → get_delivery i after ≡ none
Writes-get_none drawn i done keyed old e = e
Writes-get_none drawn i (next w ws) keyed old e =
    Writes-get_none drawn i ws (Write-IsKeyed drawn w keyed) old
      (Write-get_none drawn i w keyed old e)

Writes-get :
    (drawn : List ℕ) (i : ℕ) (d : Delivery) {rows after : List Delivery}
    (ws : Writes drawn rows after)
    → IsKeyed rows
    → is_in i drawn ≡ true
    → is_pending d.status ≡ false
    → get_delivery i rows ≡ some d
    → get_delivery i after ≡ (if deletes_any ws d then none else some d)
Writes-get drawn i d done keyed old p e = e
Writes-get drawn i d (next w ws) keyed old p e = elim (Bool-cases (deletes w d)) [
  | inl gone ↦
      let lost = Write-get drawn i d w keyed p e ∙ ap (λ b. if b then none else some d) gone in
      rw gone (Writes-get_none drawn i ws (Write-IsKeyed drawn w keyed) old lost)
  | inr stays ↦
      let kept = Write-get drawn i d w keyed p e ∙ ap (λ b. if b then none else some d) stays in
      rw stays (Writes-get drawn i d ws (Write-IsKeyed drawn w keyed) old p kept)
]

-- In a keyed table, a row that was delivered or has failed is read back unchanged after any
-- sequence of the queries that write the table, new rows having fresh identifiers, unless one of
-- them deletes it, as the sweep of rows that ended before a time or with the message that it is
-- about; then nothing is read under its key.
pub settled_for_good :
    (i : ℕ) (d : Delivery) (rows after : List Delivery)
    → IsKeyed rows
    → get_delivery i rows ≡ some d
    → is_pending d.status ≡ false
    → (ws : Writes (ids rows) rows after)
    → get_delivery i after ≡ (if deletes_any ws d then none else some d)
settled_for_good i d rows after keyed e p ws =
    Writes-get (ids rows) i d ws keyed (get-known i d rows e) p e
