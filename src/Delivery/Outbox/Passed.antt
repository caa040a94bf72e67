-- ===== src/Delivery/Outbox/Passed.antt =====
-- Which rows a query with an order and a limit leaves out.
use cuckoo.Base.{
  ℕ, ◌≤◌, ◌≡◌, refl, subst, ◌⊎◌, inl, inr, Bool, true, List, [], ◌∷◌, arith, length, filter, take,
  drop, All, All-mono, All-swap, All-of_filter, min, count, leb→le, length-take, All-append,
  take-append-drop,
}
use cuckoo.Base.Sorting.{
  sort_by, IsSorted, sort_by-IsSorted, length-sort_by, All-of_sort_by, take-before-drop,
}
use cuckoo.Agents.Bindings.{Binding}
use cuckoo.Base.Keys.{is_in}
use cuckoo.Delivery.Outbox.{Delivery, picked_rows, picked, webhook_eligible, due_before}
use cuckoo.Delivery.Outbox.Claims.{ids}

-- What the inner SELECT leaves out stands behind all that it picks.
pub passed_over :
    (eligible : Delivery → Bool) (before : Delivery → Delivery → Bool) (n : ℕ)
    (rows : List Delivery)
    → IsSorted before (sort_by before (filter eligible rows))
    → All
        (λ d.
          (is_in d.id (picked eligible before n rows) ≡ true)
          ⊎ All (λ c. before c d ≡ true) (take n (sort_by before (filter eligible rows))))
        (filter eligible rows)
unfolding picked
passed_over eligible before n rows sorted = All-of_sort_by before _ (filter eligible rows) (
    subst (All Q) (take-append-drop n queue) (
      All-append Q (take n queue) (drop n queue) (chosen (take n queue) (λ d e. inl e)) (
        All-mono _ Q (λ d h. inr h) (drop n queue)
          (All-swap (λ c d. before c d ≡ true) (drop n queue) (take n queue)
            (take-before-drop before n queue sorted)))))
  where
    queue : List Delivery
    queue = sort_by before (filter eligible rows)

    Q : Delivery → Type 0
    Q d = (is_in d.id (ids (take n queue)) ≡ true) ⊎ All (λ c. before c d ≡ true) (take n queue)

    chosen :
        (some_rows : List Delivery)
        → ((d : Delivery) → is_in d.id (ids some_rows) ≡ true → Q d)
        → All Q some_rows
    chosen [] h = tt
    chosen (d ∷ rest) h = (h d (ground arith), chosen rest (λ c e. h c (ground arith)))

pub length-filter {ℓ} :
    {A : Type ℓ} (p : A → Bool) (xs : List A) → length (filter p xs) ≡ count p xs
length-filter p [] = refl
length-filter p (x ∷ xs) = ground (arith, length-filter p xs)

-- The webhook worker's claim picks as many of the eligible rows as the batch allows, and an
-- eligible row that it passes over was due no earlier than any that it picks.
claim_oldest_first :
    (locked : ℕ → Bool) (now n : ℕ) (bs : List Binding) (rows : List Delivery)
    → let eligible = webhook_eligible locked now bs in
      (length (picked_rows eligible due_before n rows) ≡ min n (count eligible rows))
      × All
          (λ d.
            eligible d ≡ true
            → (is_in d.id (picked eligible due_before n rows) ≡ true)
              ⊎ All
                  (λ c. c.next_attempt_at ≤ d.next_attempt_at)
                  (picked_rows eligible due_before n rows))
          rows
unfolding picked_rows
claim_oldest_first locked now n bs rows = (
  omega (
    arith,
    length-take n queue,
    length-sort_by due_before (filter eligible rows),
    length-filter eligible rows,
  ),
  All-of_filter _ eligible rows (
      All-mono _ _ earlier (filter eligible rows) (
        passed_over eligible due_before n rows (
          sort_by-IsSorted due_before (λ c d h. ground arith) (λ c d e h k. ground arith)
            (filter eligible rows)))),
)
  where
    eligible : Delivery → Bool
    eligible = webhook_eligible locked now bs

    queue : List Delivery
    queue = sort_by due_before (filter eligible rows)

    earlier :
        (d : Delivery)
        → (is_in d.id (picked eligible due_before n rows) ≡ true)
          ⊎ All (λ c. due_before c d ≡ true) (take n queue)
        → (is_in d.id (picked eligible due_before n rows) ≡ true)
          ⊎ All (λ c. c.next_attempt_at ≤ d.next_attempt_at) (take n queue)
    earlier d (inl e) = inl e
    earlier d (inr h) = inr (All-mono _ _ (λ c e. leb→le _ _ e) (take n queue) h)
