-- ===== src/Conversations/Membership/Finding.antt =====
-- The chat of a person and an agent is found again.
use cuckoo.Base.{
  sym, subst, if◌then◌else◌, suc, length, ℕ, ◌≡◌, refl, ap, ◌∙◌, Bool, true, false, none, some,
  List, [], ◌∷◌, map, arith, inl, inr, filter, ==_refl, Avoids, Option-cases,
}
use cuckoo.Base.Sorting.{sort_by-single, length-sort_by, sort_by}
use cuckoo.Conversations.Membership.{
  opened, dm, add_participant, create_conversation, Conversation, Participant, Rooms, is_dm_of,
  find_dm, create_dm, first_room, room_before, find_or_create_dm,
}

abbrev pub room_ids : List Conversation → List ℕ
room_ids = map (λ c. c.id)

-- Members of a chat that is not there yet make none of the others a chat of theirs.
others_as_before :
    (now fresh person bot : ℕ) (members : List Participant) (rows : List Conversation)
    → Avoids fresh (room_ids rows)
    → filter
        (is_dm_of person bot
          (create_dm now fresh person bot
            (record { conversations = []; participants = members })).participants)
        rows
      ≡ filter (is_dm_of person bot members) rows
unfolding create_dm
others_as_before now fresh person bot members [] h = refl
others_as_before now fresh person bot members (c ∷ rows) h =
    ground (arith, h.0, others_as_before now fresh person bot members rows h.1)

none_found : (rows : List Conversation) → first_room (sort_by room_before rows) ≡ none → rows ≡ []
none_found [] h = refl
none_found (c ∷ rows) h =
    absurd (some_first (sort_by room_before (c ∷ rows)) (length-sort_by room_before (c ∷ rows)) h)
  where
    some_first :
        (sorted : List Conversation)
        → length sorted ≡ suc (length rows)
        → first_room sorted ≡ none
        → ⊥
    some_first [] n h = omega arith
    some_first (d ∷ ds) n h = cc

created_found :
    (now fresh person bot : ℕ) (rooms : Rooms)
    → Avoids fresh (room_ids rooms.conversations)
    → find_dm person bot rooms ≡ none
    → find_dm person bot (create_dm now fresh person bot rooms)
      ≡ some (record { id = fresh; kind = dm; created_at = now })
unfolding find_dm create_dm create_conversation add_participant
created_found now fresh person bot rooms new h =
    ap (λ rows. first_room (sort_by room_before rows))
      (ap shown is_theirs
        ∙ ap (◌∷◌ added) (
            others_as_before now fresh person bot rooms.participants rooms.conversations new
            ∙ none_found (filter (is_dm_of person bot rooms.participants) rooms.conversations) h))
    ∙ ap first_room (sort_by-single room_before added)
  where
    is_theirs :
        is_dm_of person bot
          (create_dm now fresh person bot rooms).participants
          (record { id = fresh; kind = dm; created_at = now })
        ≡ true
    is_theirs = ground (arith, ==_refl fresh, ==_refl person, ==_refl bot)

    added : Conversation
    added = record { id = fresh; kind = dm; created_at = now }

    shown : Bool → List Conversation
    shown b =
        if b
        then added
          ∷ filter (is_dm_of person bot (create_dm now fresh person bot rooms).participants)
              rooms.conversations
        else filter (is_dm_of person bot (create_dm now fresh person bot rooms).participants)
            rooms.conversations

-- Opening the chat of a person and an agent again finds it, and opens no other, if the new chat's
-- identifier was fresh.
find_or_create_dm_twice :
    (now later fresh other person bot : ℕ) (rooms : Rooms)
    → Avoids fresh (room_ids rooms.conversations)
    → find_or_create_dm later other person bot (find_or_create_dm now fresh person bot rooms).0 ≡ (
      (find_or_create_dm now fresh person bot rooms).0,
      (find_or_create_dm now fresh person bot rooms).1,
      false,
    )
unfolding find_or_create_dm opened
find_or_create_dm_twice now later fresh other person bot rooms new =
    elim (Option-cases (find_dm person bot rooms)) [
      | inl e ↦ subst again (sym (ap (opened now fresh person bot rooms) e)) (
          ap (opened later other person bot (create_dm now fresh person bot rooms))
            (created_found now fresh person bot rooms new e))
      | inr (c, e) ↦
          subst again (sym (ap (opened now fresh person bot rooms) e))
            (ap (opened later other person bot rooms) e)
    ]
  where
    again : Rooms × ℕ × Bool → Type 0
    again r = find_or_create_dm later other person bot r.0 ≡ (r.0, r.1, false)
