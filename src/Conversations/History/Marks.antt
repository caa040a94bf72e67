-- ===== src/Conversations/History/Marks.antt =====
-- How far a person has read.
use cuckoo.Agents.Registry.{or_fail}
use cuckoo.Base.Counts.{update-nowhere}
use cuckoo.Base.{
  subst, count, ◌≤◌, ℕ, ◌≡◌, refl, sym, ap, ◌∙◌, Bool, true, false, ◌&&◌, not, Option, none, some,
  List, [], ◌∷◌, arith, inl, inr, Bool-cases, ltb, ◌==◌, if◌then◌else◌, map, ◌||◌, ◌⊎◌,
}
use cuckoo.Domain.Errors.{>>=-eq-ok, ok-injective, Error, Result, ok, err, ◌>>=◌, ◌>>◌, refuse_if}
use cuckoo.Conversations.Membership.{Participant, Conversation, user_in, is_key}
use cuckoo.Conversations.Desk.{Message, get_message}
use cuckoo.Conversations.History.{
  Archive, with_participants, is_row_of, is_behind, read_to, mark_rows, mark_read, member,
  message_in, message_not_found,
}

-- Where a mark leaves a row that is the person's, or is not.
moved : Bool → ℕ → Option ℕ → Option ℕ
moved mine i read = if mine && is_behind i read then some i else read

moved_swap :
    (mine : Bool) (i j : ℕ) (read : Option ℕ)
    → moved mine i (moved mine j read) ≡ moved mine j (moved mine i read)
unfolding moved
moved_swap false i j read = refl
moved_swap true i j none = both (Bool-cases (ltb i j)) (Bool-cases (ltb j i))
  where
    both :
        (ltb i j ≡ true) ⊎ (ltb i j ≡ false)
        → (ltb j i ≡ true) ⊎ (ltb j i ≡ false)
        → (if ltb j i then some i else some j) ≡ (if ltb i j then some j else some i)
    both a b = grind arith
moved_swap true i j (some r) = grind arith

-- A row that is marked.
marked : ℕ → ℕ → ℕ → Participant → Participant
marked who room i p = record p { read_up_to = moved (is_row_of who room p) i p.read_up_to }

mark_rows-marked :
    (who room i : ℕ) (rows : List Participant)
    → (mark_rows who room i rows).0 ≡ map (marked who room i) rows
unfolding mark_rows marked moved
mark_rows-marked who room i [] = refl
mark_rows-marked who room i (p ∷ rows) =
    elim (Bool-cases (is_row_of who room p && is_behind i p.read_up_to)) [
      | inl e ↦ rw e (ap (◌∷◌ (read_to i p)) (mark_rows-marked who room i rows))
      | inr e ↦ rw e (ap (◌∷◌ p) (mark_rows-marked who room i rows))
    ]

marked_swap :
    (who room i j : ℕ) (rows : List Participant)
    → map (marked who room i) (map (marked who room j) rows)
      ≡ map (marked who room j) (map (marked who room i) rows)
unfolding marked
marked_swap who room i j [] = refl
marked_swap who room i j (p ∷ rows) =
    ap (λ r. record p { read_up_to = r } ∷ map (marked who room i) (map (marked who room j) rows))
      (moved_swap (is_row_of who room p) i j p.read_up_to)
    ∙ ap
        (◌∷◌ (record p {
          read_up_to = moved (is_row_of who room p) j (moved (is_row_of who room p) i p.read_up_to);
        }))
        (marked_swap who room i j rows)

user_in-marked :
    (who room i other : ℕ) (rows : List Participant)
    → user_in who other (map (marked who room i) rows) ≡ user_in who other rows
unfolding marked
user_in-marked who room i other [] = refl
user_in-marked who room i other (p ∷ rows) =
    ap (λ b. (p.conversation_id == other && is_key who p.user_id) || b)
      (user_in-marked who room i other rows)

-- The archive that one mark leaves.
seen_to : ℕ → ℕ → ℕ → Archive → Archive
seen_to who room i v = with_participants (mark_rows who room i v.rooms.participants).0 v

checked : ℕ → ℕ → Archive → Result Conversation
checked who room v = member (user_in who room v.rooms.participants) room v

checked-seen_to :
    (who room i : ℕ) (v : Archive) → checked who room (seen_to who room i v) ≡ checked who room v
unfolding checked seen_to member
checked-seen_to who room i v =
    ap (λ inside. member inside room v)
      (ap (user_in who room) (mark_rows-marked who room i v.rooms.participants)
        ∙ user_in-marked who room i room v.rooms.participants)

seen_to_swap :
    (who room i j : ℕ) (v : Archive)
    → seen_to who room i (seen_to who room j v) ≡ seen_to who room j (seen_to who room i v)
unfolding seen_to
seen_to_swap who room i j v =
    ap (λ rows. with_participants rows v)
      (twice i j ∙ marked_swap who room i j v.rooms.participants ∙ sym (twice j i))
  where
    twice :
        (a b : ℕ)
        → (mark_rows who room a (mark_rows who room b v.rooms.participants).0).0
          ≡ map (marked who room a) (map (marked who room b) v.rooms.participants)
    twice a b =
        mark_rows-marked who room a (mark_rows who room b v.rooms.participants).0
        ∙ ap (map (marked who room a)) (mark_rows-marked who room b v.rooms.participants)

-- What a person reads on one device and then on another.
abbrev pub read_both : ℕ → ℕ → ℕ → ℕ → Archive → Result Archive
read_both who room i j v =
    mark_read who room i v >>= λ one. mark_read who room j one.0 >>= λ two. ok two.0

read_both-eq :
    (who room i j : ℕ) (v : Archive) (a : Result Conversation) (x y : Result Message)
    → checked who room v ≡ a
    → message_in room i v.messages ≡ x
    → message_in room j v.messages ≡ y
    → read_both who room i j v
      ≡ (a >>= λ _. x >>= λ _. y >>= λ _. ok (seen_to who room j (seen_to who room i v)))
unfolding mark_read checked seen_to
read_both-eq who room i j v (err e) x y f g h = rw f refl
read_both-eq who room i j v (ok c) (err e) y f g h = rw (f, g) refl
read_both-eq who room i j v (ok c) (ok m) (err e) f g h =
    rw (f, g) (rw (checked-seen_to who room i v, f, h) refl)
read_both-eq who room i j v (ok c) (ok m) (ok n) f g h =
    rw (f, g) (rw (checked-seen_to who room i v, f, h) refl)

message_in-not_found :
    (room : ℕ) (found : Option Message) (e : Error)
    → (or_fail message_not_found found >>= λ m.
        refuse_if (not (m.conversation_id == room)) message_not_found >> ok m)
      ≡ err e
    → e ≡ message_not_found
message_in-not_found room none e h = cc
message_in-not_found room (some m) failure h = elim (Bool-cases (m.conversation_id == room)) [
  | inl e ↦ let k : ok m ≡ err _ = rw e at h in cc
  | inr e ↦ let k : err message_not_found ≡ err _ = rw e at h in cc
]

-- Two checks with one error may be made in either order.
checks_swap :
    (failure : Error) (x y : Result Message) (w : Archive)
    → ((e : Error) → x ≡ err e → e ≡ failure)
    → ((e : Error) → y ≡ err e → e ≡ failure)
    → (x >>= λ _. y >>= λ _. ok w) ≡ (y >>= λ _. x >>= λ _. ok w)
checks_swap failure (err e) (err d) w f g = ap err (f e refl ∙ sym (g d refl))
checks_swap failure (err e) (ok n) w f g = refl
checks_swap failure (ok m) (err d) w f g = refl
checks_swap failure (ok m) (ok n) w f g = refl

read_both_swap :
    (who room i j : ℕ) (v : Archive) → read_both who room i j v ≡ read_both who room j i v
unfolding message_in
read_both_swap who room i j v =
    read_both-eq who room i j v (checked who room v) (message_in room i v.messages)
      (message_in room j v.messages) refl refl refl
    ∙ after_member (checked who room v)
    ∙ sym (
        read_both-eq who room j i v (checked who room v) (message_in room j v.messages)
          (message_in room i v.messages) refl refl refl)
  where
    after_member :
        (a : Result Conversation)
        → (a >>= λ _. message_in room i v.messages >>= λ _.
            message_in room j v.messages >>= λ _. ok (seen_to who room j (seen_to who room i v)))
          ≡ (a >>= λ _. message_in room j v.messages >>= λ _.
              message_in room i v.messages >>= λ _. ok (seen_to who room i (seen_to who room j v)))
    after_member (err e) = refl
    after_member (ok c) = rw (seen_to_swap who room j i v) (
        checks_swap message_not_found (message_in room i v.messages) (message_in room j v.messages)
          (seen_to who room i (seen_to who room j v))
          (message_in-not_found room (get_message i v.messages))
          (message_in-not_found room (get_message j v.messages)))

less_behind :
    (mine : Bool) (i j : ℕ) (read : Option ℕ)
    → j ≤ i
    → (mine && is_behind i read) ≡ false
    → (mine && is_behind j read) ≡ false
less_behind false i j read h e = refl
less_behind true i j none h e = cc
less_behind true i j (some r) h e = ground arith

none_behind :
    (who room i j : ℕ) (rows : List Participant)
    → j ≤ i
    → count (λ p. is_row_of who room p && is_behind j p.read_up_to) (mark_rows who room i rows).0
      ≡ 0
unfolding mark_rows
none_behind who room i j [] h = refl
none_behind who room i j (p ∷ rows) h =
    elim (Bool-cases (is_row_of who room p && is_behind i p.read_up_to)) [
      | inl e ↦
          let not_less : (is_row_of who room p && ltb i j) ≡ false = ground arith in
          rw e (rw not_less (none_behind who room i j rows h))
      | inr e ↦ rw e (
          rw (less_behind (is_row_of who room p) i j p.read_up_to h e)
            (none_behind who room i j rows h))
    ]

marked_nowhere :
    (who room i j : ℕ) (rows : List Participant)
    → j ≤ i
    → mark_rows who room j (mark_rows who room i rows).0 ≡ ((mark_rows who room i rows).0, 0)
unfolding mark_rows
marked_nowhere who room i j rows h =
    rw
      (
        update-nowhere (λ p. is_row_of who room p && is_behind j p.read_up_to) (read_to j)
            (mark_rows who room i rows).0 (none_behind who room i j rows h),
        none_behind who room i j rows h,
      )
      refl

mark_read_again :
    (who room i j : ℕ) (v : Archive) (c : Conversation) (m : Message)
    → j ≤ i
    → checked who room v ≡ ok c
    → message_in room j v.messages ≡ ok m
    → mark_read who room j (seen_to who room i v) ≡ ok (seen_to who room i v, false)
unfolding mark_read seen_to checked
mark_read_again who room i j v c m h f g =
    rw (checked-seen_to who room i v, f, g)
      (ap (λ r. ok (with_participants r.0 v, ltb 0 r.1))
        (marked_nowhere who room i j v.rooms.participants h))

-- A person who has marked a conversation read to a message changes nothing, and their other
-- devices are told nothing, by marking it read to a message of it that is not later; and two
-- devices that mark it leave the same in either order.
pub mark_read_forward :
    (who room i j : ℕ) (v w : Archive) (told : Bool) (m : Message)
    → j ≤ i
    → message_in room j v.messages ≡ ok m
    → mark_read who room i v ≡ ok (w, told)
    → (mark_read who room j w ≡ ok (w, false))
      × (read_both who room i j v ≡ read_both who room j i v)
unfolding mark_read seen_to checked
mark_read_forward who room i j v w told m h g k =
    let (c, f, k1) = >>=-eq-ok (checked who room v) _ k in
    let (n, _, k2) = >>=-eq-ok (message_in room i v.messages) _ k1 in
    let left : seen_to who room i v ≡ w = ap (λ r. r.0) (ok-injective k2) in
    (
      subst (λ x. mark_read who room j x ≡ ok (x, false)) left
          (mark_read_again who room i j v c m h f g),
      read_both_swap who room i j v,
    )
