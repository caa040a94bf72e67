-- ===== src/Conversations/Sending/Retries.antt =====
-- A person's send that is made again under its key.
use cuckoo.Base.{
  map, ℕ, ◌≡◌, refl, sym, ap, ◌∙◌, Bool, true, false, ◌&&◌, Option, none, some, List, [], ◌∷◌,
  arith, ltb, ◌==◌, ==_refl, find?, if◌then◌else◌,
}
use cuckoo.Base.Text.{Text, text_eq}
use cuckoo.Domain.Errors.{conflict_error, Result, ok, err, >>=-eq-ok, ok-injective, ◌>>=◌}
use cuckoo.Conversations.Membership.{user, user_in}
use cuckoo.Conversations.Messages.{validate_idempotency_key, validate_caption}
use cuckoo.Conversations.Messages.Buttons.{Url}
use cuckoo.Conversations.Attachments.{claim_attachments, same_kind, resolve_attachments, Sender}
use cuckoo.Conversations.Desk.{
  has_key, create_message, Message, Desk, SendInput, is_keyed_by, get_message_by_key,
}
use cuckoo.Conversations.Composing.{
  record_tap, check_schedule_tag, validate_reply_to, compose_body, Prepared, prepare, find_by_key,
}
use cuckoo.Conversations.Sending.{
  unsigned, Sent, SendDraw, draft, commit, committed, limited, send_prepared, paced, send, earlier,
  send_if, send_as_user, may_send,
}

-- Words, under a key.
abbrev pub words : Text → Text → SendInput
words text key = record {
  text = text;
  attachments = [];
  idempotency_key = key;
  reply_to = none;
  buttons = [];
  quick_replies = [];
  action = none;
  schedule_id = none;
}

abbrev pub person : ℕ → Sender
person i = record { kind = user; id = i }

-- The checks of words read none of the tables.
prepare-words :
    (parse : Text → Option Url) (i room : ℕ) (text key : Text) (desk other : Desk)
    → prepare parse (person i) room (words text key) desk
      ≡ prepare parse (person i) room (words text key) other
unfolding prepare compose_body resolve_attachments validate_reply_to check_schedule_tag
prepare-words parse i room text key desk other = refl

-- What words are prepared to.
words-prepared :
    (parse : Text → Option Url) (i room : ℕ) (text key : Text) (desk : Desk) {p : Prepared}
    → prepare parse (person i) room (words text key) desk ≡ ok p
    → (p.tapped ≡ none) × (validate_idempotency_key key ≡ ok p.key)
unfolding prepare compose_body resolve_attachments validate_reply_to check_schedule_tag
words-prepared parse i room text key desk h =
    let (composed, made, rest) = >>=-eq-ok (validate_caption text false >>= λ t. ok _) _ h in
    let (k, valid, same) = >>=-eq-ok (validate_idempotency_key key) _ rest in
    let (t, _, worded) = >>=-eq-ok (validate_caption text false) _ made in
    let stored = ok-injective same in
    (
      sym (ap (λ q. q.tapped) stored) ∙ sym (ap (λ c. c.1) (ok-injective worded)),
      valid ∙ ap ok (ap (λ q. q.key) stored),
    )

text_eq_refl : (s : Text) → text_eq s s ≡ true
text_eq_refl [] = refl
text_eq_refl (c ∷ s) = ground (arith, ==_refl c, text_eq_refl s)

-- The message at the head of the table is the one that its key names.
found_first :
    (i room : ℕ) (k : Text) (m : Message) (rows : List Message)
    → m.sender ≡ person i
    → m.conversation_id ≡ room
    → m.idempotency_key ≡ some k
    → find_by_key (person i) room k (m ∷ rows) ≡ ok (some m)
unfolding find_by_key get_message_by_key
found_first i room k m rows by here keyed =
    ap answered (ap (λ b. if b then some m else find? (is_keyed_by (person i) k) rows) hit)
    ∙ ap (λ b. if b then ok (some m) else err (conflict_error "idempotency_key_reused"))
        (ap (λ r. r == room) here ∙ ==_refl room)
  where
    hit : is_keyed_by (person i) k m ≡ true
    hit =
        ap (λ s. same_kind s.kind user && s.id == i && has_key k m.idempotency_key) by
        ∙ ap (λ o. i == i && has_key k o) keyed
        ∙ ground (arith, ==_refl i, text_eq_refl k)

    answered : Option Message → Result (Option Message)
    answered o = elim o [
      | none ↦ ok none
      | some n ↦
          if n.conversation_id == room
          then ok (some n)
          else err (conflict_error "idempotency_key_reused")
    ]

module _ (sign : Message → Text) where
  pub committed-ok :
      (desk : Desk) (r : Result Sent) {a : Message × Bool}
      → (committed sign desk r).answer ≡ ok a
      → (s : Sent) × (r ≡ ok s) × (committed sign desk r ≡ s)
  unfolding committed
  committed-ok desk (err e) h = cc
  committed-ok desk (ok s) h = (s, refl, refl)

  -- What a message that was created left.
  commit-found :
      (d : SendDraw) (i room : ℕ) (p : Prepared) (k : Text) (desk : Desk) {s : Sent} {m : Message}
      {is_new : Bool}
      → p.tapped ≡ none
      → p.key ≡ some k
      → commit sign d (person i) p (draft sign d (person i) room none p) desk ≡ ok s
      → s.answer ≡ ok (m, is_new)
      → find_by_key (person i) room k s.desk.messages ≡ ok (some m)
  unfolding commit record_tap create_message draft unsigned
  commit-found d i room p k desk {s} {m} words keyed made answered =
      let (media, _, same) =
        >>=-eq-ok
          (claim_attachments (person i) d.message_id (map (λ a. a.media_id) p.body.attachments)
            desk.media)
          _ made in
      let stored = ok-injective same in
      let here = ap (λ a. a.0) (ok-injective (ap (λ x. x.answer) stored ∙ answered)) in
      sym (ap (λ x. find_by_key (person i) room k x.desk.messages) stored)
      ∙ ap
          (λ t.
            find_by_key (person i) room k
              (record_tap t (draft sign d (person i) room none p ∷ desk.messages)))
          words
      ∙ found_first i room k (draft sign d (person i) room none p) desk.messages refl refl keyed
      ∙ ap (λ x. ok (some x)) here

  paced-found :
      (late : Bool) (d : SendDraw) (i room wait : ℕ) (p : Prepared) (k : Text) (desk : Desk)
      {m : Message} {is_new : Bool}
      → p.tapped ≡ none
      → p.key ≡ some k
      → (paced sign late d (person i) room none wait p desk).answer ≡ ok (m, is_new)
      → find_by_key
          (person i)
          room
          k
          (paced sign late d (person i) room none wait p desk).desk.messages
        ≡ ok (some m)
  unfolding paced
  paced-found true d i room wait p k desk words keyed h = cc
  paced-found false d i room wait p k desk {m} words keyed h =
      let (s, made, same) =
        committed-ok desk (commit sign d (person i) p (draft sign d (person i) room none p) desk)
          h in
      ap (λ x. find_by_key (person i) room k x.desk.messages) same
      ∙ commit-found d i room p k desk words keyed made (sym (ap (λ x. x.answer) same) ∙ h)

  -- What a send of words that answered left: the key names the message that it answered.
  limited-found :
      (d : SendDraw) (i room wait : ℕ) (p : Prepared) (k : Text) (r : Result (Option Message))
      (desk : Desk) {m : Message} {is_new : Bool}
      → p.tapped ≡ none
      → p.key ≡ some k
      → earlier (person i) room p.key desk.messages ≡ r
      → (limited sign d (person i) room none wait p r desk).answer ≡ ok (m, is_new)
      → find_by_key
          (person i)
          room
          k
          (limited sign d (person i) room none wait p r desk).desk.messages
        ≡ ok (some m)
  unfolding limited earlier
  limited-found d i room wait p k (err e) desk words keyed was h = cc
  limited-found d i room wait p k (ok (some n)) desk words keyed was h =
      ap (λ o. earlier (person i) room o desk.messages) (sym keyed)
      ∙ was
      ∙ ap (λ a. ok (some a.0)) (ok-injective h)
  limited-found d i room wait p k (ok none) desk words keyed was h =
      paced-found (ltb 0 wait) d i room wait p k desk words keyed h

  -- Made again, with what was prepared and a key that names a message: that message is the answer.
  send_prepared-again :
      (e : SendDraw) (i room wait : ℕ) (p : Prepared) (k : Text) (desk : Desk) (m : Message)
      → p.key ≡ some k
      → find_by_key (person i) room k desk.messages ≡ ok (some m)
      → send_prepared sign e (person i) room none wait (ok p) desk
        ≡ record { desk = desk; nudged = []; answer = ok (m, false) }
  unfolding send_prepared limited earlier
  send_prepared-again e i room wait p k desk m keyed found =
      ap (λ r. limited sign e (person i) room none wait p r desk)
        (ap (λ o. earlier (person i) room o desk.messages) keyed ∙ found)

  again_as :
      (parse : Text → Option Url) (d e : SendDraw) (wait later i room : ℕ) (text key k : Text)
      (desk other : Desk) (r : Result Prepared) {m : Message} {is_new : Bool}
      → validate_idempotency_key key ≡ ok (some k)
      → prepare parse (person i) room (words text key) desk ≡ r
      → (send_prepared sign d (person i) room none wait r desk).answer ≡ ok (m, is_new)
      → get_message_by_key (person i) k other.messages
        ≡ get_message_by_key
            (person i)
            k
            (send_prepared sign d (person i) room none wait r desk).desk.messages
      → send sign parse e later (person i) room (words text key) other
        ≡ record { desk = other; nudged = []; answer = ok (m, false) }
  unfolding send send_prepared find_by_key
  again_as parse d e wait later i room text key k desk other (err f) valid made h still = cc
  again_as parse d e wait later i room text key k desk other (ok p) {m} valid made h still =
      let (tapped, keyed) = words-prepared parse i room text key desk made in
      let named = ok-injective (sym keyed ∙ valid) in
      ap (λ r. send_prepared sign e (person i) room none later r other)
        (prepare-words parse i room text key other desk ∙ made)
      ∙ send_prepared-again e i room later p k other m named (
          ap found_as still
          ∙ limited-found d i room wait p k (earlier (person i) room p.key desk.messages) desk
              tapped named refl h)
    where
      found_as : Option Message → Result (Option Message)
      found_as o = elim o [
        | none ↦ ok none
        | some n ↦
            if n.conversation_id == room
            then ok (some n)
            else err (conflict_error "idempotency_key_reused")
      ]

  send_if-again :
      (parse : Text → Option Url) (d e : SendDraw) (wait later i room : ℕ) (text key k : Text)
      (desk other : Desk) (r : Result (Unit {0})) {m : Message} {is_new : Bool}
      → validate_idempotency_key key ≡ ok (some k)
      → (send_if sign r parse d wait (person i) room (words text key) desk).answer ≡ ok (m, is_new)
      → get_message_by_key (person i) k other.messages
        ≡ get_message_by_key
            (person i)
            k
            (send_if sign r parse d wait (person i) room (words text key) desk).desk.messages
      → send sign parse e later (person i) room (words text key) other
        ≡ record { desk = other; nudged = []; answer = ok (m, false) }
  unfolding send_if send
  send_if-again parse d e wait later i room text key k desk other (err f) valid h still = cc
  send_if-again parse d e wait later i room text key k desk other (ok _) valid h still =
      again_as parse d e wait later i room text key k desk other
        (prepare parse (person i) room (words text key) desk) valid refl h still

  -- A person's words that were sent under an accepted key, and are sent again under it over any
  -- tables in which the person may send in the chat and the key still names what it named right
  -- after the first send, are answered with the message that they were answered with before, as
  -- one that was not created, whatever the limiter asks; nothing is written and nobody is nudged.
  pub send_again :
      (parse : Text → Option Url) (d e : SendDraw) (wait later i room : ℕ) (text key k : Text)
      (desk other : Desk) (m : Message) (is_new : Bool)
      → validate_idempotency_key key ≡ ok (some k)
      → (send_as_user sign parse d wait i room (words text key) desk).answer ≡ ok (m, is_new)
      → may_send (user_in i room other.rooms.participants) room other ≡ ok tt
      → get_message_by_key (person i) k other.messages
        ≡ get_message_by_key
            (person i)
            k
            (send_as_user sign parse d wait i room (words text key) desk).desk.messages
      → send_as_user sign parse e later i room (words text key) other
        ≡ record { desk = other; nudged = []; answer = ok (m, false) }
  unfolding send_as_user send_if
  send_again parse d e wait later i room text key k desk other m is_new valid h open_room still =
      ap (λ r. send_if sign r parse e later (person i) room (words text key) other) open_room
      ∙ send_if-again parse d e wait later i room text key k desk other
          (may_send (user_in i room desk.rooms.participants) room desk) valid h still
