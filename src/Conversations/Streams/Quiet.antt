-- ===== src/Conversations/Streams/Quiet.antt =====
-- A stop leaves no reply that is being written.
use cuckoo.Base.{
  ℕ, ◌≡◌, refl, sym, subst, inl, inr, true, false, Option, none, some, List, [], ◌∷◌, map, ==_refl,
  ltb, find?, filter, update, any, arith, Bool-cases,
}
use cuckoo.Base.Sorting.{sort_by, All-of_sort_by}
use cuckoo.Base.Predicates.{All, All-mono, All-of_filter}
use cuckoo.Base.Counts.{find?-none, update-nowhere}
use cuckoo.Base.Text.{Text}
use cuckoo.Domain.Errors.{Result, ok, err, ◌>>◌, refuse_if, rate_limited_error, ok-injective}
use cuckoo.Conversations.Desk.{Message}
use cuckoo.Pairing.Contacts.{ensure_open}
use cuckoo.Conversations.Schedules.{in_chat}
use cuckoo.Conversations.Membership.{user_in}
use cuckoo.Conversations.Sending.{SendDraw}
use cuckoo.Conversations.Streams.{StreamRef, same_ref, buffer_text}
use cuckoo.Conversations.Streams.Writing.{Studio}
use cuckoo.Conversations.Streams.Finishing.{
  finish_found, finish, final, ended_by_person, is_written_by,
}
use cuckoo.Conversations.Streams.Stopping.{
  by_id, announce_stop, keep_stopped, Ended, is_open_in, ref_of, list_streaming_in_conversation,
  no_buttons, end_each, stop,
}

-- A reply that is still written in the conversation is in the list.
abbrev IsListed : ℕ → List StreamRef → Message → Type 0
IsListed room refs m = is_open_in room m ≡ true → any (same_ref (ref_of m)) refs ≡ true

All-there : (xs : List Message) → All (λ m. any (same_ref (ref_of m)) (map ref_of xs) ≡ true) xs
All-there [] = tt
All-there (x ∷ xs) = (
  grind (arith, ==_refl x.sender.id, ==_refl x.id),
  All-mono _ _ (λ m h. grind (arith, h)) xs (All-there xs),
)

list-IsListed :
    (room : ℕ) (rows : List Message)
    → All (IsListed room (list_streaming_in_conversation room rows)) rows
unfolding list_streaming_in_conversation
list-IsListed room rows = All-of_filter _ (is_open_in room) rows (
    All-of_sort_by by_id _ (filter (is_open_in room) rows)
      (All-there (sort_by by_id (filter (is_open_in room) rows))))

-- What is still written under another name is in the rest of the list.
IsListed-else :
    (room : ℕ) (ref : StreamRef) (refs : List StreamRef) (m : Message)
    → is_written_by ref.agent_id ref.message_id m ≡ false
    → IsListed room (ref ∷ refs) m
    → IsListed room refs m
IsListed-else room ref refs m other h = λ o. grind (arith, h o)

-- What stands behind a check that was passed.
passed {ι} :
    {W : Type ι} (check : Result (Unit {0})) (rest : Result W) {w : W}
    → (check >> rest) ≡ ok w
    → rest ≡ ok w
passed (err e) rest h = cc
passed (ok _) rest h = h

unlisted-closed : (room : ℕ) (m : Message) → IsListed room [] m → is_open_in room m ≡ false
unlisted-closed room m g = elim (Bool-cases (is_open_in room m)) [
  | inl e ↦ absurd (ground (arith, g e))
  | inr e ↦ e
]

module _ (sign : Message → Text) where
  update-IsListed :
      (d : SendDraw) (room : ℕ) (ref : StreamRef) (refs : List StreamRef) (text : Text)
      (rows : List Message)
      → All (IsListed room (ref ∷ refs)) rows
      → All (IsListed room refs) (
          update
            (is_written_by ref.agent_id ref.message_id)
            (final sign text no_buttons ended_by_person)
            rows)
  update-IsListed d room ref refs text [] h = tt
  update-IsListed d room ref refs text (m ∷ rows) h =
      elim (Bool-cases (is_written_by ref.agent_id ref.message_id m)) [
        | inl e ↦
            rw e ((λ o. absurd (grind (arith, o))), update-IsListed d room ref refs text rows h.1)
        | inr e ↦
            rw e
              (IsListed-else room ref refs m e h.0, update-IsListed d room ref refs text rows h.1)
      ]

  finish_found-IsListed :
      (d : SendDraw) (room : ℕ) (ref : StreamRef) (refs : List StreamRef) (text : Text)
      (found : Option Message) (st : Studio)
      → find? (is_written_by ref.agent_id ref.message_id) st.desk.messages ≡ found
      → All (IsListed room (ref ∷ refs)) st.desk.messages
      → All
          (IsListed room refs)
          (finish_found sign d ref.agent_id ref.message_id no_buttons ended_by_person text found
            st).studio.desk.messages
  unfolding finish_found
  finish_found-IsListed d room ref refs text none st e h =
      subst (All (IsListed room refs))
        (update-nowhere (is_written_by ref.agent_id ref.message_id)
          (final sign text no_buttons ended_by_person) st.desk.messages
          (find?-none (is_written_by ref.agent_id ref.message_id) st.desk.messages e))
        (update-IsListed d room ref refs text st.desk.messages h)
  finish_found-IsListed d room ref refs text (some m) st e h =
      update-IsListed d room ref refs text st.desk.messages h

  keep_stopped-studio :
      (ref : StreamRef) (a : Result Message) (r : Ended)
      → (keep_stopped sign ref a r).studio ≡ r.studio
  unfolding keep_stopped
  keep_stopped-studio ref (err e) r = refl
  keep_stopped-studio ref (ok msg) r = elim (Bool-cases msg.stopped) [
    | inl e ↦ rw e refl
    | inr e ↦ rw e refl
  ]

  end_each-IsListed :
      (draws : ℕ → SendDraw) (room : ℕ) (refs : List StreamRef) (st : Studio)
      → All (IsListed room refs) st.desk.messages
      → All (IsListed room []) (end_each sign draws refs st).studio.desk.messages
  unfolding end_each finish
  end_each-IsListed draws room [] st h = h
  end_each-IsListed draws room (ref ∷ refs) st h =
      let f =
        finish sign (draws ref.message_id) ref.agent_id ref.message_id no_buttons ended_by_person
          st in
      subst (λ s. All (IsListed room []) s.desk.messages) (sym (keep_stopped-studio ref f.answer _))
        (end_each-IsListed draws room refs f.studio (
          finish_found-IsListed (draws ref.message_id) room ref refs
            (buffer_text (draws ref.message_id).now ref st.streams) _ st refl h))

  -- After a stop that is not refused, no agent is writing a message in the conversation any more,
  -- however many were and whatever identifiers they had.
  pub stop-closed :
      (encode : Option ℕ → Text) (draws : ℕ → SendDraw) (d : SendDraw) (wait who room : ℕ)
      (st : Studio) {r : Ended}
      → stop sign encode draws d wait who room st ≡ ok r
      → All (λ m. is_open_in room m ≡ false) r.studio.desk.messages
  unfolding stop announce_stop
  stop-closed encode draws d wait who room st {r} h =
      let in_time =
        passed (ensure_open room st.desk.rooms.participants st.desk.contacts) _
          (passed (in_chat (user_in who room st.desk.rooms.participants) room st.desk) _ h) in
      let over =
        ok-injective
          (passed (refuse_if (ltb 0 wait) (rate_limited_error "rate_limited" wait)) _ in_time) in
      All-mono (IsListed room []) (λ m. is_open_in room m ≡ false) (unlisted-closed room)
        r.studio.desk.messages
        (subst (λ s. All (IsListed room []) s.studio.desk.messages) over
          (end_each-IsListed draws room (list_streaming_in_conversation room st.desk.messages) st
            (list-IsListed room st.desk.messages)))
