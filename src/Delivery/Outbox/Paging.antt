-- ===== src/Delivery/Outbox/Paging.antt =====
-- Reading the events of an agent page by page: a page is in the order of the keys, and asking for what
-- comes after its last key passes over nothing.
use cuckoo.Base.{
  ◌≢◌, sym, inl, Avoids, some, inr, All-filter, ℕ, zero, suc, Bool-cases, ◌≤◌, ◌≡◌, ◌⊎◌, inl, inr,
  Bool, true, Option, List, [], ◌∷◌, arith, length, filter, count, take, All, min, leb→le, All-mono,
  All-take, All-of_filter, length-take,
}
use cuckoo.Base.Keys.{is_in}
use cuckoo.Base.Sorting.{
  insert_by, All-insert_by, sort_by, IsSorted, sort_by-IsSorted, length-sort_by, All-sort_by,
}
use cuckoo.Delivery.Outbox.{
  get_delivery, Delivery, id_before, is_since, list_deliveries_since, picked, picked_rows,
}
use cuckoo.Delivery.Outbox.Claims.{ids, IsKeyed, keyed-IsFound}
use cuckoo.Delivery.Outbox.Writes.{filter-IsKeyed}
use cuckoo.Delivery.Outbox.Passed.{passed_over, length-filter}

IsSorted-take :
    (before : Delivery → Delivery → Bool) (n : ℕ) (rows : List Delivery)
    → IsSorted before rows
    → IsSorted before (take n rows)
IsSorted-take before zero rows h = tt
IsSorted-take before (suc n) [] h = tt
IsSorted-take before (suc n) (d ∷ rows) h =
    (All-take (λ c. before d c ≡ true) n rows h.0, IsSorted-take before n rows h.1)

filter-passes : (p : Delivery → Bool) (rows : List Delivery) → All (λ c. p c ≡ true) (filter p rows)
filter-passes p [] = tt
filter-passes p (d ∷ rows) = elim (Bool-cases (p d)) [
  | inl e ↦ rw e (e, filter-passes p rows)
  | inr e ↦ rw e (filter-passes p rows)
]

Avoids-All : (i : ℕ) (rows : List Delivery) → Avoids i (ids rows) → All (λ d. d.id ≢ i) rows
Avoids-All i [] h = tt
Avoids-All i (d ∷ rows) h = (h.0, Avoids-All i rows h.1)

All-Avoids : (i : ℕ) (rows : List Delivery) → All (λ d. d.id ≢ i) rows → Avoids i (ids rows)
All-Avoids i [] h = tt
All-Avoids i (d ∷ rows) h = (h.0, All-Avoids i rows h.1)

insert_by-IsKeyed :
    (before : Delivery → Delivery → Bool) (d : Delivery) (rows : List Delivery)
    → Avoids d.id (ids rows)
    → IsKeyed rows
    → IsKeyed (insert_by before d rows)
unfolding insert_by
insert_by-IsKeyed before d [] new keyed = (tt, tt)
insert_by-IsKeyed before d (c ∷ rows) new keyed = elim (Bool-cases (before d c)) [
  | inl e ↦ rw e (new, keyed)
  | inr e ↦ rw e (
    All-Avoids c.id (insert_by before d rows) (
        All-insert_by before (λ r. r.id ≢ c.id) d rows (λ same. new.0 (sym same))
          (Avoids-All c.id rows keyed.0)),
    insert_by-IsKeyed before d rows new.1 keyed.1,
  )
]

sort_by-IsKeyed :
    (before : Delivery → Delivery → Bool) (rows : List Delivery)
    → IsKeyed rows
    → IsKeyed (sort_by before rows)
unfolding sort_by
sort_by-IsKeyed before [] keyed = tt
sort_by-IsKeyed before (d ∷ rows) keyed =
    insert_by-IsKeyed before d (sort_by before rows)
      (All-Avoids d.id (sort_by before rows)
        (All-sort_by before (λ r. r.id ≢ d.id) rows (Avoids-All d.id rows keyed.0)))
      (sort_by-IsKeyed before rows keyed.1)

take-IsKeyed : (n : ℕ) (rows : List Delivery) → IsKeyed rows → IsKeyed (take n rows)
take-IsKeyed zero rows keyed = tt
take-IsKeyed (suc n) [] keyed = tt
take-IsKeyed (suc n) (d ∷ rows) keyed = (
  All-Avoids d.id (take n rows) (All-take (λ r. r.id ≢ d.id) n rows (Avoids-All d.id rows keyed.0)),
  take-IsKeyed n rows keyed.1,
)

-- Of an agent's events after a key in a keyed table, a page holds as many as its limit allows:
-- rows of the table, no two under one identifier, in the order of their identifiers and nothing
-- else; one that is not in the page comes after every one that is.
pub list_deliveries_since_lem :
    (agent : ℕ) (since : Option ℕ) (n : ℕ) (rows : List Delivery)
    → IsKeyed rows
    → let page = list_deliveries_since agent since n rows in
      (length page ≡ min n (count (is_since agent since) rows))
      × IsKeyed page
      × All (λ c. get_delivery c.id rows ≡ some c) page
      × IsSorted id_before page
      × All (λ c. is_since agent since c ≡ true) page
      × All
          (λ d.
            is_since agent since d ≡ true
            → (is_in d.id (ids page) ≡ true) ⊎ All (λ c. c.id ≤ d.id) page)
          rows
unfolding list_deliveries_since picked picked_rows
list_deliveries_since_lem agent since n rows keyed = (
  omega (
    arith,
    length-take n queue,
    length-sort_by id_before (filter since_then rows),
    length-filter since_then rows,
  ),
  take-IsKeyed n queue
      (sort_by-IsKeyed id_before (filter since_then rows) (filter-IsKeyed since_then rows keyed)),
  All-take _ n queue (
      All-sort_by id_before _ (filter since_then rows)
        (All-filter _ since_then rows (keyed-IsFound rows keyed))),
  IsSorted-take id_before n queue sorted,
  All-take _ n queue
      (All-sort_by id_before _ (filter since_then rows) (filter-passes since_then rows)),
  All-of_filter _ since_then rows (
      All-mono _ _ later (filter since_then rows) (passed_over since_then id_before n rows sorted)),
)
  where
    since_then : Delivery → Bool
    since_then = is_since agent since

    queue : List Delivery
    queue = sort_by id_before (filter since_then rows)

    sorted : IsSorted id_before queue
    sorted =
        sort_by-IsSorted id_before (λ c d h. ground arith) (λ c d e h k. ground arith)
          (filter since_then rows)

    later :
        (d : Delivery)
        → (is_in d.id (picked since_then id_before n rows) ≡ true)
          ⊎ All (λ c. id_before c d ≡ true) (take n queue)
        → (is_in d.id (ids (take n queue)) ≡ true) ⊎ All (λ c. c.id ≤ d.id) (take n queue)
    later d (inl e) = inl e
    later d (inr h) = inr (All-mono _ _ (λ c e. leb→le _ _ e) (take n queue) h)
