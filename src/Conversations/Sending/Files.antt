-- ===== src/Conversations/Sending/Files.antt =====
-- A person's send of files that is made again.
use cuckoo.Base.{
  ℕ, ◌≡◌, refl, sym, subst, ap, ◌∙◌, Bool, true, false, not, Option, none, some, List, [], ◌∷◌, map,
  arith, ltb, ◌==◌, ==→eq, find?, find?-test, if◌then◌else◌, length, count, is_some,
}
use cuckoo.Base.Counts.{find?-written}
use cuckoo.Base.Text.{Text}
use cuckoo.Domain.Errors.{
  invalid_field, Error, Result, ok, err, >>=-eq-ok, ok-injective, refuse_if->>, ◌>>=◌, ◌>>◌,
  refuse_if,
}
use cuckoo.Conversations.Attachments.{
  attach, Sender, Medium, Attachment, attach_all, resolve_attachments, claim_attachments,
  is_claimable, hang_on, is_owned_by, unknown_attachment, already_sent, attachment_of, has_twice,
  attachments_max,
}
use cuckoo.Conversations.Messages.{validate_caption, validate_idempotency_key}
use cuckoo.Conversations.Messages.Buttons.{Url}
use cuckoo.Conversations.Desk.{Message, Desk, SendInput}
use cuckoo.Conversations.Composing.{
  Composed, Prepared, prepare, plain_body, has_any, compose_body, validate_reply_to,
  check_schedule_tag,
}
use cuckoo.Conversations.Sending.{
  Sent, SendDraw, draft, unsigned, commit, paced, limited, send_prepared, send, earlier, not_sent,
}
use cuckoo.Conversations.Sending.Retries.{words, person, committed-ok}

-- A file that can be attached is the sender's, and on no message.
attach-ok :
    (sender : Sender) (o : Option Medium) {a : Attachment}
    → attach sender o ≡ ok a
    → (m : Medium) × (o ≡ some m)
      × (is_owned_by sender m ≡ true)
      × (is_some m.message_id ≡ false)
      × (a.media_id ≡ m.id)
unfolding attach
attach-ok sender none h = cc
attach-ok sender (some m) h =
    let (owned, rest) = refuse_if->> (not (is_owned_by sender m)) _ _ h in
    let (fresh, same) = refuse_if->> (is_some m.message_id) _ _ rest in
    (m, refl, ground arith, fresh, ap (λ x. x.media_id) (sym (ok-injective same)))

-- The identifiers that are attached are those that were asked for.
attach_all-ids :
    (sender : Sender) (media : List Medium) (ids : List ℕ) {files : List Attachment}
    → attach_all sender media ids ≡ ok files
    → map (λ a. a.media_id) files ≡ ids
unfolding attach_all
attach_all-ids sender media [] h = ap (map (λ a. a.media_id)) (sym (ok-injective h))
attach_all-ids sender media (i ∷ ids) h =
    let (one, first, more) = >>=-eq-ok (attach sender (find? (λ m. m.id == i) media)) _ h in
    let (rest, later, same) = >>=-eq-ok (attach_all sender media ids) _ more in
    let (m, found, _, _, by) = attach-ok sender _ first in
    ap (map (λ a. a.media_id)) (sym (ok-injective same))
    ∙ ap (◌∷◌ one.media_id) (attach_all-ids sender media ids later)
    ∙ ap (λ j. j ∷ ids) (by ∙ ==→eq m.id i (find?-test (λ x. x.id == i) media m found))

-- What was attached once cannot be attached again.
resolve-again :
    (sender : Sender) (message i : ℕ) (ids : List ℕ) (media after : List Medium)
    {files : List Attachment}
    → resolve_attachments sender media (i ∷ ids) ≡ ok files
    → claim_attachments sender message (map (λ a. a.media_id) files) media ≡ ok after
    → resolve_attachments sender after (i ∷ ids) ≡ err already_sent
unfolding resolve_attachments claim_attachments attach_all attach
resolve-again sender message i ids media after {files} asked claimed =
    let (short, rest) = refuse_if->> (ltb attachments_max (length (i ∷ ids))) _ _ asked in
    let (once, all) = refuse_if->> (has_twice (i ∷ ids)) _ _ rest in
    let (one, first, _) = >>=-eq-ok (attach sender (find? (λ m. m.id == i) media)) _ all in
    let (m, found, owned, fresh, _) = attach-ok sender _ first in
    let mine =
      subst (λ js. claim_attachments sender message js media ≡ ok after)
        (attach_all-ids sender media (i ∷ ids) all) claimed in
    let (_, hung) =
      if-err-count (count (is_claimable sender (i ∷ ids)) media == length (i ∷ ids)) _ mine in
    ap
      (λ b.
        refuse_if b too_many
        >> (refuse_if (has_twice (i ∷ ids)) twice >> attach_all sender after (i ∷ ids)))
      short
    ∙ ap (λ b. refuse_if b twice >> attach_all sender after (i ∷ ids)) once
    ∙ ap (λ o. attach sender o >>= λ x. attach_all sender after ids >>= λ xs. ok (x ∷ xs))
        (ap (find? (λ x. x.id == i)) (sym hung)
          ∙ find?-written (λ x. x.id == i) (is_claimable sender (i ∷ ids)) (hang_on message)
              (λ _. refl) media
              (ground (arith, owned, fresh, find?-test (λ x. x.id == i) media m found)) found)
    ∙ ap
        (λ b.
          (refuse_if (not b) unknown_attachment
            >> (refuse_if true already_sent >> ok (attachment_of (hang_on message m))))
          >>= λ x. attach_all sender after ids >>= λ xs. ok (x ∷ xs))
        owned
  where
    too_many : Error
    too_many = invalid_field "attachments" "too_many_attachments"

    twice : Error
    twice = invalid_field "attachments" "invalid_attachment"

    if-err-count :
        (b : Bool) (rows : List Medium)
        → (if b then ok rows else err unknown_attachment) ≡ ok after
        → (b ≡ true) × (rows ≡ after)
    if-err-count true rows h = (refl, ok-injective h)
    if-err-count false rows h = cc

-- Words and files, under a key.
abbrev pub with_files : Text → Text → List ℕ → SendInput
with_files text key ids = record (words text key) { attachments = ids }

-- Files that are refused refuse the message.
prepare-refused :
    (parse : Text → Option Url) (i room : ℕ) (text key : Text) (ids : List ℕ) (desk : Desk)
    (e : Error)
    → resolve_attachments (person i) desk.media ids ≡ err e
    → prepare parse (person i) room (with_files text key ids) desk ≡ err e
unfolding prepare compose_body validate_reply_to check_schedule_tag
prepare-refused parse i room text key ids desk e h = ap go h
  where
    worded : List Attachment → Result Composed
    worded files = validate_caption text (has_any files) >>= λ t. ok (plain_body t files, none)

    go : Result (List Attachment) → Result Prepared
    go r = (r >>= worded) >>= λ composed. validate_idempotency_key key >>= λ k.
        ok (record { body = composed.0; tapped = composed.1; reply_to = none; key = k })

prepare-files :
    (parse : Text → Option Url) (i room : ℕ) (text key : Text) (ids : List ℕ) (desk : Desk)
    {p : Prepared}
    → prepare parse (person i) room (with_files text key ids) desk ≡ ok p
    → resolve_attachments (person i) desk.media ids ≡ ok p.body.attachments
unfolding prepare compose_body validate_reply_to check_schedule_tag
prepare-files parse i room text key ids desk h =
    let (composed, made, rest) =
      >>=-eq-ok
        (resolve_attachments (person i) desk.media ids >>= λ files.
          validate_caption text (has_any files) >>= λ t. ok (plain_body t files, none))
        _ h in
    let (files, asked, worded) = >>=-eq-ok (resolve_attachments (person i) desk.media ids) _ made in
    let (t, _, whole) = >>=-eq-ok (validate_caption text (has_any files)) _ worded in
    let (k, _, same) = >>=-eq-ok (validate_idempotency_key key) _ rest in
    asked
    ∙ ap (λ c. ok c.0.attachments) (ok-injective whole)
    ∙ ap (λ q. ok q.body.attachments) (ok-injective same)

module _ (sign : Message → Text) where
  commit-claims :
      (d : SendDraw) (i room : ℕ) (p : Prepared) (desk : Desk) {s : Sent}
      → commit sign d (person i) p (draft sign d (person i) room none p) desk ≡ ok s
      → claim_attachments
          (person i)
          d.message_id
          (map (λ a. a.media_id) p.body.attachments)
          desk.media
        ≡ ok s.desk.media
  unfolding commit draft unsigned
  commit-claims d i room p desk made =
      let (media, claimed, same) =
        >>=-eq-ok
          (claim_attachments (person i) d.message_id (map (λ a. a.media_id) p.body.attachments)
            desk.media)
          _ made in
      claimed ∙ ap (λ s. ok s.desk.media) (ok-injective same)

  paced-claims :
      (late : Bool) (d : SendDraw) (i room wait : ℕ) (p : Prepared) (desk : Desk)
      {a : Message × Bool}
      → (paced sign late d (person i) room none wait p desk).answer ≡ ok a
      → claim_attachments
          (person i)
          d.message_id
          (map (λ x. x.media_id) p.body.attachments)
          desk.media
        ≡ ok (paced sign late d (person i) room none wait p desk).desk.media
  unfolding paced
  paced-claims true d i room wait p desk h = cc
  paced-claims false d i room wait p desk h =
      let (s, made, same) =
        committed-ok sign desk
          (commit sign d (person i) p (draft sign d (person i) room none p) desk) h in
      commit-claims d i room p desk made ∙ ap (λ x. ok x.desk.media) (sym same)

  limited-claims :
      (d : SendDraw) (i room wait : ℕ) (p : Prepared) (r : Result (Option Message)) (desk : Desk)
      {m : Message}
      → (limited sign d (person i) room none wait p r desk).answer ≡ ok (m, true)
      → claim_attachments
          (person i)
          d.message_id
          (map (λ x. x.media_id) p.body.attachments)
          desk.media
        ≡ ok (limited sign d (person i) room none wait p r desk).desk.media
  unfolding limited
  limited-claims d i room wait p (err e) desk h = cc
  limited-claims d i room wait p (ok (some n)) desk h = cc
  limited-claims d i room wait p (ok none) desk h = paced-claims (ltb 0 wait) d i room wait p desk h

  refused_as :
      (parse : Text → Option Url) (d e : SendDraw) (wait later i room file : ℕ) (text key : Text)
      (ids : List ℕ) (desk : Desk) (r : Result Prepared) {m : Message}
      → prepare parse (person i) room (with_files text key (file ∷ ids)) desk ≡ r
      → (send_prepared sign d (person i) room none wait r desk).answer ≡ ok (m, true)
      → send sign parse e later
          (person i)
          room
          (with_files text key (file ∷ ids))
          (send_prepared sign d (person i) room none wait r desk).desk
        ≡ not_sent (send_prepared sign d (person i) room none wait r desk).desk already_sent
  unfolding send send_prepared
  refused_as parse d e wait later i room file text key ids desk (err f) made h = cc
  refused_as parse d e wait later i room file text key ids desk (ok p) made h =
      ap (λ r. send_prepared sign e (person i) room none later r after)
        (prepare-refused parse i room text key (file ∷ ids) after already_sent (
          resolve-again (person i) d.message_id file ids desk.media after.media
            (prepare-files parse i room text key (file ∷ ids) desk made)
            (limited-claims d i room wait p (earlier (person i) room p.key desk.messages) desk h)))
    where
      after : Desk
      after = (send_prepared sign d (person i) room none wait (ok p) desk).desk

  -- A person's send with files that created a message is refused with attachment_already_sent when
  -- it is made again, under the same key or none, and writes nothing.
  pub send_again-files :
      (parse : Text → Option Url) (d e : SendDraw) (wait later i room file : ℕ) (text key : Text)
      (ids : List ℕ) (desk : Desk) (m : Message)
      → (send sign parse d wait (person i) room (with_files text key (file ∷ ids)) desk).answer
        ≡ ok (m, true)
      → send sign parse e later
          (person i)
          room
          (with_files text key (file ∷ ids))
          (send sign parse d wait (person i) room (with_files text key (file ∷ ids)) desk).desk
        ≡ not_sent
            (send sign parse d wait (person i) room (with_files text key (file ∷ ids)) desk).desk
            already_sent
  unfolding send
  send_again-files parse d e wait later i room file text key ids desk m h =
      refused_as parse d e wait later i room file text key ids desk
        (prepare parse (person i) room (with_files text key (file ∷ ids)) desk) refl h
