-- ===== src/Conversations/Streams/Repeats.antt =====
-- A stream that is finished again, and a stream that has ended.
use cuckoo.Base.{
  filter, ℕ, ◌≡◌, refl, sym, ap, subst, ◌∙◌, inl, inr, Bool, true, false, ◌&&◌, not, Option, none,
  some, List, [], ◌∷◌, ◌==◌, if◌then◌else◌, find?, update, arith, Bool-cases,
}
use cuckoo.Base.Counts.{find?-written}
use cuckoo.Base.Text.{Text}
use cuckoo.Domain.Errors.{Error, Result, ok, err, not_found_error, conflict_error}
use cuckoo.Conversations.Desk.{Message, get_message}
use cuckoo.Conversations.Composing.{is_complete}
use cuckoo.Conversations.Sending.{SendDraw}
use cuckoo.Conversations.Streams.{
  StreamRef, StreamStore, Buffer, buffer_text, append, append_to, remove, same_ref, is_there,
  not_streaming,
}
use cuckoo.Conversations.Streams.Writing.{
  append_if, append_result, check_delta, why_not_streaming, is_stopped_by, append_stream, Studio,
  is_own,
}
use cuckoo.Conversations.Streams.Finishing.{
  ended_by_person, FinishInput, Ending, finish, finish_found, final, is_written_by,
  own_finished_message,
}

-- The first row of a test that passes a narrower one is the first of that.
find?-narrower {ℓ} :
    {A : Type ℓ} (q r : A → Bool) (xs : List A) {a : A}
    → ((x : A) → r x ≡ true → q x ≡ true)
    → find? q xs ≡ some a
    → r a ≡ true
    → find? r xs ≡ some a
find?-narrower q r [] sub h t = cc
find?-narrower q r (x ∷ xs) {a} sub h t = elim (Bool-cases (q x)) [
  | inl e ↦ subst (λ o. find? r (x ∷ xs) ≡ o) h (both e)
  | inr e ↦ grind (arith, sub x, find?-narrower q r xs sub)
]
  where
    both : q x ≡ true → find? r (x ∷ xs) ≡ find? q (x ∷ xs)
    both e = grind (arith, h, t)

-- A write whose rows no longer pass its test leaves none that does.
find?-written_out {ℓ} :
    {A : Type ℓ} (p : A → Bool) (f : A → A)
    → ((x : A) → p (f x) ≡ false)
    → (xs : List A) → find? p (update p f xs) ≡ none
find?-written_out p f out [] = refl
find?-written_out p f out (x ∷ xs) = elim (Bool-cases (p x)) [
  | inl e ↦ rw (e, out x) (find?-written_out p f out xs)
  | inr e ↦ rw (e, e) (find?-written_out p f out xs)
]

module _ (sign : Message → Text) where
  final-closed :
      (bot i : ℕ) (text : Text) (input : FinishInput) (by : Ending) (m : Message)
      → is_written_by bot i (final sign text input by m) ≡ false
  final-closed bot i text input by m = grind arith

  finished_answer :
      (bot i : ℕ) (text : Text) (input : FinishInput) (by : Ending) (rows : List Message)
      {m : Message}
      → get_message i rows ≡ some m
      → is_written_by bot i m ≡ true
      → own_finished_message bot i (update (is_written_by bot i) (final sign text input by) rows)
        ≡ ok (final sign text input by m)
  unfolding own_finished_message get_message
  finished_answer bot i text input by rows {m} there own =
      ap answer (
        find?-written (λ n. n.id == i) (is_written_by bot i) (final sign text input by) (λ n. refl)
          rows own there)
      ∙ ap
          (λ t.
            if t then ok (final sign text input by m) else err (not_found_error "stream_not_found"))
          mine
    where
      answer : Option Message → Result Message
      answer o = elim o [
        | none ↦ err (not_found_error "stream_not_found")
        | some n ↦
            if is_own bot n && is_complete n.status
            then ok n
            else err (not_found_error "stream_not_found")
      ]

      mine : (is_own bot m && true) ≡ true
      mine = grind (arith, own)

  finish_found-again :
      (d e : SendDraw) (bot i : ℕ) (input other : FinishInput) (by then_by : Ending)
      (text after : Text) (m : Message) (st : Studio)
      → get_message i st.desk.messages ≡ some m
      → is_written_by bot i m ≡ true
      → let f = finish_found sign d bot i input by text (some m) st in
        finish_found sign e bot i other then_by after
          (find? (is_written_by bot i) f.studio.desk.messages)
          f.studio
        ≡ record { studio = f.studio; nudged = []; answer = f.answer }
  unfolding finish_found
  finish_found-again d e bot i input other by then_by text after m st there own =
      let f = finish_found sign d bot i input by text (some m) st in
      ap (λ o. finish_found sign e bot i other then_by after o f.studio)
        (find?-written_out (is_written_by bot i) (final sign text input by)
          (final-closed bot i text input by) st.desk.messages)
      ∙ ap (λ a. record { studio = f.studio; nudged = []; answer = a })
          (finished_answer bot i text input by st.desk.messages there own)

  written_id : (bot i : ℕ) (m : Message) → is_written_by bot i m ≡ true → (m.id == i) ≡ true
  written_id bot i m h = grind arith

  -- Finishing a message again, whoever ended it first and whoever ends it now, answers the message
  -- as it was finished, writes nothing and tells nobody, if it was the agent's, still written, and
  -- the one that is read under its identifier.
  pub finish-again :
      (d e : SendDraw) (bot i : ℕ) (input other : FinishInput) (by then_by : Ending) (m : Message)
      (st : Studio)
      → get_message i st.desk.messages ≡ some m
      → is_written_by bot i m ≡ true
      → let f = finish sign d bot i input by st in
        finish sign e bot i other then_by f.studio
        ≡ record { studio = f.studio; nudged = []; answer = f.answer }
  unfolding finish get_message
  finish-again d e bot i input other by then_by m st there own =
      subst
        (λ o.
          let f = finish_found sign d bot i input by (buffer_text d.now ref st.streams) o st in
          finish sign e bot i other then_by f.studio
          ≡ record { studio = f.studio; nudged = []; answer = f.answer })
        (sym (
          find?-narrower (λ n. n.id == i) (is_written_by bot i) st.desk.messages (written_id bot i)
            there own))
        (finish_found-again d e bot i input other by then_by (buffer_text d.now ref st.streams)
          (buffer_text e.now ref
            (finish_found sign d bot i input by (buffer_text d.now ref st.streams) (some m)
              st).studio.streams)
          m st there own)
    where
      ref : StreamRef
      ref = record { agent_id = bot; message_id = i }

  -- No buffer is there under a name that was removed.
  removed :
      (now : ℕ) (ref : StreamRef) (bs : List Buffer)
      → find? (is_there now ref) (filter (λ b. not (same_ref b.ref ref)) bs) ≡ none
  removed now ref [] = refl
  removed now ref (b ∷ bs) = elim (Bool-cases (same_ref b.ref ref)) [
    | inl e ↦ grind (arith, e, removed now ref bs)
    | inr e ↦ grind (arith, e, removed now ref bs)
  ]

  append-removed :
      (now : ℕ) (ref : StreamRef) (delta : Text) (s : StreamStore)
      → append now ref delta (remove ref s) ≡ (remove ref s, not_streaming)
  unfolding append append_to remove
  append-removed now ref delta s =
      ap (λ o. append_to now ref delta o (remove ref s)) (removed now ref s.buffers)

  stopped_reason :
      (bot i : ℕ) (text : Text) (input : FinishInput) (rows : List Message) {m : Message}
      → get_message i rows ≡ some m
      → is_written_by bot i m ≡ true
      → why_not_streaming bot i
          (update (is_written_by bot i) (final sign text input ended_by_person) rows)
        ≡ conflict_error "stopped"
  unfolding why_not_streaming get_message
  stopped_reason bot i text input rows {m} there own =
      ap reason (
        find?-written (λ n. n.id == i) (is_written_by bot i) (final sign text input ended_by_person)
          (λ n. refl) rows own there)
      ∙ ap (λ t. if t then conflict_error "stopped" else conflict_error "not_streaming") mine
    where
      reason : Option Message → Error
      reason o =
          if is_stopped_by bot o then conflict_error "stopped" else conflict_error "not_streaming"

      mine : (true && is_own bot m) ≡ true
      mine = grind (arith, own)

  append-stopped_found :
      (d : SendDraw) (bot i now : ℕ) (input : FinishInput) (text delta : Text) (m : Message)
      (st : Studio)
      → get_message i st.desk.messages ≡ some m
      → is_written_by bot i m ≡ true
      → let f = finish_found sign d bot i input ended_by_person text (some m) st in
        append_if (ok tt) now bot i delta f.studio ≡ (f.studio, err (conflict_error "stopped"))
  unfolding finish_found append_if append_result
  append-stopped_found d bot i now input text delta m st there own =
      let f = finish_found sign d bot i input ended_by_person text (some m) st in
      ap (λ a. (record f.studio { streams = a.0 }, append_result bot i f.studio.desk.messages a.1))
        (append-removed now (record { agent_id = bot; message_id = i }) delta st.streams)
      ∙ ap (λ r. (f.studio, err r)) (stopped_reason bot i text input st.desk.messages there own)

  -- After the finish of a person's stop, an accepted piece of text from the agent is refused with
  -- stopped and changes nothing, if the message was the agent's, still written, and the one that
  -- is read under its identifier.
  pub append-stopped :
      (d : SendDraw) (bot i now wait : ℕ) (input : FinishInput) (delta : Text) (m : Message)
      (st : Studio)
      → get_message i st.desk.messages ≡ some m
      → is_written_by bot i m ≡ true
      → check_delta wait delta ≡ ok tt
      → let f = finish sign d bot i input ended_by_person st in
        append_stream now wait bot i delta f.studio ≡ (f.studio, err (conflict_error "stopped"))
  unfolding finish append_stream get_message
  append-stopped d bot i now wait input delta m st there own valid =
      let said = buffer_text d.now (record { agent_id = bot; message_id = i }) st.streams in
      subst
        (λ o.
          let f = finish_found sign d bot i input ended_by_person said o st in
          append_if (check_delta wait delta) now bot i delta f.studio
          ≡ (f.studio, err (conflict_error "stopped")))
        (sym (
          find?-narrower (λ n. n.id == i) (is_written_by bot i) st.desk.messages (written_id bot i)
            there own))
        (subst
          (λ c.
            let f = finish_found sign d bot i input ended_by_person said (some m) st in
            append_if c now bot i delta f.studio ≡ (f.studio, err (conflict_error "stopped")))
          (sym valid) (append-stopped_found d bot i now input said delta m st there own))
