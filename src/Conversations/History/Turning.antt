-- ===== src/Conversations/History/Turning.antt =====
-- Reading back page by page: what a page and the page after it hold together.
use cuckoo.Base.{
  ℕ, zero, suc, ◌+◌, ◌≡◌, refl, sym, ap, ◌∙◌, Bool, true, false, ◌&&◌, Option, none, some, List, [],
  ◌∷◌, ◌++◌, map, arith, inl, inr, Bool-cases, ltb, ==→eq, ◌==◌, if◌then◌else◌, filter, take, drop,
  All, All-mono, All-filter, All-take, subst, Distinct, Avoids,
}
use cuckoo.Base.Sorting.{sort_by, insert_by, IsSorted, All-insert_by, All-sort_by, sort_by-IsSorted}
use cuckoo.Conversations.Desk.{Message}
use cuckoo.Conversations.History.{Archive, newer, is_visible, is_before, list_messages_before}
use cuckoo.Conversations.History.Pages.{last_id}
use cuckoo.Conversations.History.Clearing.{filter_same}

-- Every message is newer than all that stand behind it.
IsStrict : List Message → Type 0
IsStrict = IsSorted (λ m n. ltb n.id m.id)

older_still : (a m n : Message) → newer a m ≡ true → newer m n ≡ true → newer a n ≡ true
older_still a m n e f = ground arith

module _ (p : Message → Bool) where
  insert_front :
      (a : Message) (rows : List Message)
      → All (λ m. newer a m ≡ true) rows
      → insert_by newer a rows ≡ a ∷ rows
  unfolding insert_by
  insert_front a [] h = refl
  insert_front a (m ∷ rows) h = rw h.0 refl

  filter-insert_by :
      (a : Message) (rows : List Message)
      → IsSorted newer rows
      → filter p (insert_by newer a rows)
        ≡ (if p a then insert_by newer a (filter p rows) else filter p rows)
  unfolding insert_by
  filter-insert_by a [] h = refl
  filter-insert_by a (m ∷ rows) h = elim (Bool-cases (newer a m)) [
    | inl e ↦ rw e (
        ap (λ r. if p a then r else filter p (m ∷ rows))
          (sym (
            insert_front a (filter p (m ∷ rows)) (
              All-filter _ p (m ∷ rows)
                (e, All-mono _ _ (λ n f. older_still a m n e f) rows h.0)))))
    | inr e ↦
        let later : _ ≡ _ = filter-insert_by a rows h.1 in
        elim (Bool-cases (p m)) [
          | inr f ↦ rw (e, f) later
          | inl f ↦ elim (Bool-cases (p a)) [
            | inl g ↦ rw (e, f, g, e) (ap (◌∷◌ m) (later ∙ rw g refl))
            | inr g ↦ rw (e, f, g) (ap (◌∷◌ m) (later ∙ rw g refl))
          ]
        ]
  ]

  filter-sort_by :
      (rows : List Message) → filter p (sort_by newer rows) ≡ sort_by newer (filter p rows)
  unfolding sort_by
  filter-sort_by [] = refl
  filter-sort_by (m ∷ rows) =
      filter-insert_by m (sort_by newer rows)
        (sort_by-IsSorted newer (λ m n h. ground arith) (λ m n o h k. ground arith) rows)
      ∙ elim (Bool-cases (p m)) [
        | inl e ↦ rw e (ap (insert_by newer m) (filter-sort_by rows))
        | inr e ↦ rw e (filter-sort_by rows)
      ]

  filter-IsStrict : (rows : List Message) → IsStrict rows → IsStrict (filter p rows)
  unfolding IsStrict
  filter-IsStrict [] h = tt
  filter-IsStrict (m ∷ rows) h = elim (Bool-cases (p m)) [
    | inl e ↦ rw e (All-filter _ p rows h.0, filter-IsStrict rows h.1)
    | inr e ↦ rw e (filter-IsStrict rows h.1)
  ]

  filter-and :
      (q : Message → Bool) (rows : List Message)
      → filter (λ m. p m && q m) rows ≡ filter q (filter p rows)
  filter-and q [] = refl
  filter-and q (m ∷ rows) = elim (Bool-cases (p m)) [
    | inl e ↦ rw e (ap (λ r. if q m then m ∷ r else r) (filter-and q rows))
    | inr e ↦ rw e (filter-and q rows)
  ]

last_id-All :
    (b c : ℕ) (rows : List Message)
    → All (λ m. ltb m.id b ≡ true) rows
    → last_id rows ≡ some c
    → ltb c b ≡ true
last_id-All b c [] h e = cc
last_id-All b c (m ∷ []) h e = ground (arith, h.0)
last_id-All b c (m ∷ n ∷ rows) h e = last_id-All b c (n ∷ rows) h.1 e

filter-All :
    (c : ℕ) (rows : List Message)
    → All (λ m. ltb m.id c ≡ true) rows
    → filter (λ m. ltb m.id c) rows ≡ rows
filter-All c [] h = refl
filter-All c (m ∷ rows) h = rw h.0 (ap (◌∷◌ m) (filter-All c rows h.1))

take-nil : (n : ℕ) → take {A = Message} n [] ≡ []
take-nil zero = refl
take-nil (suc n) = refl

take-plus :
    (n s : ℕ) (rows : List Message) → take n rows ++ take s (drop n rows) ≡ take (n + s) rows
take-plus zero s rows = ap (λ k. take k rows) (let same : s ≡ 0 + s = omega arith in same)
take-plus (suc n) s [] = take-nil s ∙ sym (take-nil (suc n + s))
take-plus (suc n) s (m ∷ rows) =
    ap (◌∷◌ m) (take-plus n s rows)
    ∙ ap (λ k. take k (m ∷ rows)) (let same : suc (n + s) ≡ suc n + s = omega arith in same)

rest-drop :
    (n c : ℕ) (rows : List Message)
    → IsStrict rows
    → last_id (take n rows) ≡ some c
    → filter (λ m. ltb m.id c) rows ≡ drop n rows
unfolding IsStrict
rest-drop zero c rows h e = cc
rest-drop (suc n) c [] h e = cc
rest-drop (suc zero) c (m ∷ rows) h e =
    let only : some m.id ≡ some c = e in
    let same : m.id ≡ c = cc in
    let last : ltb m.id c ≡ false = ground arith in
    rw last (filter-All c rows (subst (λ b. All (λ n. ltb n.id b ≡ true) rows) same h.0))
rest-drop (suc (suc n)) c (m ∷ []) h e =
    let only : some m.id ≡ some c = e in
    let same : m.id ≡ c = cc in let last : ltb m.id c ≡ false = ground arith in rw last refl
rest-drop (suc (suc n)) c (m ∷ k ∷ rows) h e =
    let below = last_id-All m.id c (k ∷ take n rows) (All-take _ (suc n) (k ∷ rows) h.0) e in
    let not_last : ltb m.id c ≡ false = ground arith in
    rw not_last (rest-drop (suc n) c (k ∷ rows) h.1 e)

avoided :
    (i : ℕ) (rows : List Message)
    → Avoids i (map (λ m. m.id) rows)
    → All (λ m. (m.id == i) ≡ false) rows
avoided i [] h = tt
avoided i (m ∷ rows) h = elim (Bool-cases (m.id == i)) [
  | inl e ↦ absurd (h.0 (==→eq m.id i e))
  | inr e ↦ (e, avoided i rows h.1)
]

ltb_trans : (i j k : ℕ) → ltb i j ≡ true → ltb j k ≡ true → ltb i k ≡ true
ltb_trans i j k h g = ground arith

insert_by-IsStrict :
    (a : Message) (rows : List Message)
    → All (λ m. (m.id == a.id) ≡ false) rows
    → IsStrict rows
    → IsStrict (insert_by newer a rows)
unfolding insert_by IsStrict
insert_by-IsStrict a [] f h = (tt, tt)
insert_by-IsStrict a (m ∷ rows) f h = elim (Bool-cases (newer a m)) [
  | inl e ↦
      let less : ltb m.id a.id ≡ true = ground (arith, f.0) in
      rw e ((less, All-mono _ _ (λ n g. ltb_trans n.id m.id a.id g less) rows h.0), h)
  | inr e ↦
      let less : ltb a.id m.id ≡ true = ground arith in
      rw e (
        All-insert_by newer (λ n. ltb n.id m.id ≡ true) a rows less h.0,
        insert_by-IsStrict a rows f.1 h.1,
      )
]

sort_by-IsStrict :
    (rows : List Message) → Distinct (map (λ m. m.id) rows) → IsStrict (sort_by newer rows)
unfolding sort_by IsStrict
sort_by-IsStrict [] h = tt
sort_by-IsStrict (m ∷ rows) h =
    insert_by-IsStrict m (sort_by newer rows)
      (All-sort_by newer (λ n. (n.id == m.id) ≡ false) rows (avoided m.id rows h.0))
      (sort_by-IsStrict rows h.1)

filter-passes : (p : Message → Bool) (rows : List Message) → All (λ m. p m ≡ true) (filter p rows)
filter-passes p [] = tt
filter-passes p (m ∷ rows) = elim (Bool-cases (p m)) [
  | inl e ↦ rw e (e, filter-passes p rows)
  | inr e ↦ rw e (filter-passes p rows)
]

still_before :
    (seen : Bool) (before : Option ℕ) (c i : ℕ)
    → is_before before c ≡ true
    → (seen && ltb i c) ≡ ((seen && is_before before i) && ltb i c)
still_before false before c i h = refl
still_before true none c i h = refl
still_before true (some b) c i h = ground arith

module _ (who room : ℕ) (before : Option ℕ) (v : Archive) where
  shown : Message → Bool
  shown m = is_visible who room v m && is_before before m.id

  whole : List Message
  whole = sort_by newer (filter shown v.messages)

  cursor-is_before :
      (place : Option ℕ) (n c : ℕ)
      → place ≡ before
      → last_id (take n whole) ≡ some c
      → is_before place c ≡ true
  unfolding whole shown
  cursor-is_before none n c f e = refl
  cursor-is_before (some b) n c f e =
      last_id-All b c (take n whole)
        (All-take _ n whole (
          All-mono _ _ within whole
            (All-sort_by newer _ (filter shown v.messages) (filter-passes shown v.messages))))
        e
    where
      within : (m : Message) → shown m ≡ true → ltb m.id b ≡ true
      within m h =
          let k = subst (λ x. (is_visible who room v m && is_before x m.id) ≡ true) (sym f) h in
          ground arith

  next-drop :
      (n c : ℕ)
      → Distinct (map (λ m. m.id) v.messages)
      → last_id (take n whole) ≡ some c
      → sort_by newer (filter (λ m. is_visible who room v m && ltb m.id c) v.messages)
        ≡ drop n whole
  unfolding whole shown
  next-drop n c keyed e =
      sym (filter-sort_by (λ m. is_visible who room v m && ltb m.id c) v.messages)
      ∙ filter_same (λ m. is_visible who room v m && ltb m.id c) (λ m. shown m && ltb m.id c)
          (λ m.
            still_before (is_visible who room v m) before c m.id
              (cursor-is_before before n c refl e))
          (sort_by newer v.messages)
      ∙ filter-and shown (λ m. ltb m.id c) (sort_by newer v.messages)
      ∙ ap (filter (λ m. ltb m.id c)) (filter-sort_by shown v.messages)
      ∙ rest-drop n c whole strict e
    where
      strict : IsStrict whole
      strict =
          subst IsStrict (filter-sort_by shown v.messages)
            (filter-IsStrict shown (sort_by newer v.messages) (sort_by-IsStrict v.messages keyed))

-- In a keyed table, a page of a conversation's history that is not empty and the page that is
-- asked for before its last message are, one after the other, the page that both sizes together
-- would have given: reading back passes over nothing and shows nothing twice.
pub pages_join :
    (who room n size c : ℕ) (before : Option ℕ) (v : Archive)
    → Distinct (map (λ m. m.id) v.messages)
    → last_id (list_messages_before who room before n v) ≡ some c
    → list_messages_before who room before n v ++ list_messages_before who room (some c) size v
      ≡ list_messages_before who room before (n + size) v
unfolding list_messages_before whole shown
pages_join who room n size c before v keyed e =
    ap (λ rows. take n (whole who room before v) ++ take size rows)
      (next-drop who room before v n c keyed e)
    ∙ take-plus n size (whole who room before v)
