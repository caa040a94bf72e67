-- ===== src/Conversations/History/Clearing.antt =====
-- What is out of a person's sight once they have cleared a conversation.
use cuckoo.Base.{
  zero, suc, subst, ℕ, ◌≡◌, refl, sym, ap, ◌∙◌, Bool, true, false, ◌&&◌, ◌||◌, not, Option, none,
  some, List, [], ◌∷◌, arith, inl, inr, Bool-cases, ltb, ◌==◌, if◌then◌else◌, update, any, filter,
  take, All, All-mono,
}
use cuckoo.Base.Sorting.{sort_by}
use cuckoo.Domain.Errors.{ok, >>=-eq-ok, ok-injective}
use cuckoo.Conversations.Desk.{Message}
use cuckoo.Conversations.Membership.{Participant, is_key, user_in}
use cuckoo.Conversations.History.{
  Archive, is_row_of, is_visible, is_after, is_before, newest, clear_up_to, clear_conversation,
  clear, member, list_messages_before, list_messages_after, is_hidden, newer, older,
}

-- No message of the conversation comes after a key.
IsCovered : ℕ → Option ℕ → Message → Type 0
IsCovered room last m = (m.conversation_id == room) ≡ true → is_after last m.id ≡ false

later_covers :
    (room : ℕ) (last : Option ℕ) (i : ℕ)
    → is_after last i ≡ true
    → (m : Message) → IsCovered room last m
    → IsCovered room (some i) m
unfolding IsCovered
later_covers room none i h m f g = let k = f g in cc
later_covers room (some j) i h m f g = let k = f g in ground arith

newest-eq :
    (room : ℕ) (m : Message) (rows : List Message) (takes : Bool)
    → (m.conversation_id == room && is_after (newest room rows) m.id) ≡ takes
    → newest room (m ∷ rows) ≡ (if takes then some m.id else newest room rows)
unfolding newest
newest-eq room m rows takes h = rw h refl

newest_covers : (room : ℕ) (rows : List Message) → All (IsCovered room (newest room rows)) rows
unfolding IsCovered
newest_covers room [] = tt
newest_covers room (m ∷ rows) =
    elim (Bool-cases (m.conversation_id == room && is_after (newest room rows) m.id)) [
      | inl e ↦
          let known : is_after (newest room rows) m.id ≡ true = ground arith in
          subst (λ last. All (IsCovered room last) (m ∷ rows)) (sym (newest-eq room m rows true e))
            (
              (λ g. ground arith),
              All-mono _ _ (later_covers room (newest room rows) m.id known) rows
                  (newest_covers room rows),
            )
      | inr e ↦
          subst (λ last. All (IsCovered room last) (m ∷ rows)) (sym (newest-eq room m rows false e))
            ((λ g. ground arith), newest_covers room rows)
    ]

no_row :
    (who room : ℕ) (last : Option ℕ) (i : ℕ) (rows : List Participant)
    → is_after last i ≡ false
    → any
        (λ p. is_row_of who room p && is_after p.cleared_before i)
        (update (is_row_of who room) (clear_up_to last) rows)
      ≡ false
no_row who room last i [] h = refl
no_row who room last i (p ∷ rows) h = elim (Bool-cases (is_row_of who room p)) [
  | inl e ↦ rw e (rw (e, h) (no_row who room last i rows h))
  | inr e ↦ rw e (rw e (no_row who room last i rows h))
]

not_theirs :
    (place : ℕ) (holder : Option ℕ) (who room viewer other : ℕ)
    → (viewer == who && other == room) ≡ false
    → (place == room && is_key who holder) ≡ true
    → (place == other && is_key viewer holder) ≡ false
not_theirs place none who room viewer other h e = ground arith
not_theirs place (some j) who room viewer other h e = ground arith

other_rows :
    (who room viewer other : ℕ) (last : Option ℕ) (i : ℕ) (rows : List Participant)
    → (viewer == who && other == room) ≡ false
    → any
        (λ p. is_row_of viewer other p && is_after p.cleared_before i)
        (update (is_row_of who room) (clear_up_to last) rows)
      ≡ any (λ p. is_row_of viewer other p && is_after p.cleared_before i) rows
other_rows who room viewer other last i [] h = refl
other_rows who room viewer other last i (p ∷ rows) h = elim (Bool-cases (is_row_of who room p)) [
  | inr e ↦ rw e (
      ap (λ b. (is_row_of viewer other p && is_after p.cleared_before i) || b)
        (other_rows who room viewer other last i rows h))
  | inl e ↦
      let theirs : is_row_of viewer other p ≡ false =
        not_theirs (p.conversation_id) p.user_id who room viewer other h e in
      rw e (rw theirs (other_rows who room viewer other last i rows h))
]

filter_none :
    (p : Message → Bool) (rows : List Message) → All (λ m. p m ≡ false) rows → filter p rows ≡ []
filter_none p [] h = refl
filter_none p (m ∷ rows) h = rw h.0 (filter_none p rows h.1)

pub filter_same :
    (p q : Message → Bool)
    → ((m : Message) → p m ≡ q m)
    → (rows : List Message) → filter p rows ≡ filter q rows
filter_same p q h [] = refl
filter_same p q h (m ∷ rows) =
    rw (h m) (ap (λ r. if q m then m ∷ r else r) (filter_same p q h rows))

cleared_unseen :
    (who room : ℕ) (v : Archive)
    → All (λ m. is_visible who room (clear_conversation who room v) m ≡ false) v.messages
unfolding clear_conversation is_visible IsCovered
cleared_unseen who room v = All-mono _ _ unseen v.messages (newest_covers room v.messages)
  where
    unseen :
        (m : Message)
        → IsCovered room (newest room v.messages) m
        → is_visible who room (clear_conversation who room v) m ≡ false
    unseen m f = elim (Bool-cases (m.conversation_id == room)) [
      | inr e ↦ rw e refl
      | inl e ↦
          rw (e, no_row who room (newest room v.messages) m.id v.rooms.participants (f e)) refl
    ]

others_see :
    (who room viewer other : ℕ) (v : Archive)
    → (viewer == who && other == room) ≡ false
    → (m : Message)
    → is_visible viewer other (clear_conversation who room v) m ≡ is_visible viewer other v m
unfolding clear_conversation is_visible
others_see who room viewer other v h m =
    ap (λ b. m.conversation_id == other && b && not (is_hidden viewer m.id v.hides))
      (other_rows who room viewer other (newest room v.messages) m.id v.rooms.participants h)

none_taken : (size : ℕ) (le : Message → Message → Bool) → take size (sort_by le []) ≡ []
unfolding sort_by
none_taken zero le = refl
none_taken (suc n) le = refl

-- Once a person has cleared a conversation, its history is empty for them, from any place and
-- either way, and every other history of a person that is read is as it was.
pub clear_lem :
    (who room viewer other : ℕ) (before : Option ℕ) (after size : ℕ) (v w : Archive)
    → (viewer == who && other == room) ≡ false
    → clear who room v ≡ ok w
    → (list_messages_before who room before size w ≡ [])
      × (list_messages_after who room after size w ≡ [])
      × (list_messages_before viewer other before size w
          ≡ list_messages_before viewer other before size v)
      × (list_messages_after viewer other after size w
          ≡ list_messages_after viewer other after size v)
unfolding clear list_messages_before list_messages_after
clear_lem who room viewer other before after size v w h k =
    let (c, _, k1) = >>=-eq-ok (member (user_in who room v.rooms.participants) room v) _ k in
    subst (λ x. Shown x) (ok-injective k1)
      (
        empty newer (λ m. is_before before m.id),
        empty older (λ m. ltb after m.id),
        same newer (λ m. is_before before m.id),
        same older (λ m. ltb after m.id),
      )
  where
    Shown : Archive → Type 0
    Shown x =
        (list_messages_before who room before size x ≡ [])
        × (list_messages_after who room after size x ≡ [])
        × (list_messages_before viewer other before size x
            ≡ list_messages_before viewer other before size v)
        × (list_messages_after viewer other after size x
            ≡ list_messages_after viewer other after size v)

    empty :
        (le : Message → Message → Bool) (p : Message → Bool)
        → take size (
            sort_by le (
              filter
                (λ m. is_visible who room (clear_conversation who room v) m && p m)
                v.messages))
          ≡ []
    empty le p =
        ap (λ rows. take size (sort_by le rows))
          (filter_none (λ m. is_visible who room (clear_conversation who room v) m && p m)
            v.messages (All-mono _ _ (λ m e. rw e refl) v.messages (cleared_unseen who room v)))
        ∙ none_taken size le

    same :
        (le : Message → Message → Bool) (p : Message → Bool)
        → take size (
            sort_by le (
              filter
                (λ m. is_visible viewer other (clear_conversation who room v) m && p m)
                v.messages))
          ≡ take size (sort_by le (filter (λ m. is_visible viewer other v m && p m) v.messages))
    same le p =
        ap (λ rows. take size (sort_by le rows))
          (filter_same _ _ (λ m. ap (λ b. b && p m) (others_see who room viewer other v h m))
            v.messages)
