-- ===== src/Conversations/Streams/Said.antt =====
-- A message that is started, written piece by piece and finished says the pieces one after the other.
use cuckoo.Base.{
  ℕ, ◌≡◌, ◌<◌, refl, sym, ap, subst, ◌∙◌, inl, inr, Bool, true, false, ◌||◌, Option, none, some,
  List, [], ◌++◌, ◌+◌, ==_refl, ltb, if◌then◌else◌, find?, arith, Bool-cases,
}
use cuckoo.Base.Text.{Text}
use cuckoo.Domain.Errors.{Result, ok, err, ok-injective, rate_limited_error}
use cuckoo.Conversations.Desk.{Message, SendInput, create_message}
use cuckoo.Conversations.Sending.{SendDraw}
use cuckoo.Conversations.Streams.{is_there, buffer_text, buffered, stream_ttl, open_buffer}
use cuckoo.Conversations.Streams.Writing.{
  begun, check_delta, Studio, Started, append_stream, start_stream, begin, begin_new, begin_checked,
}
use cuckoo.Conversations.Streams.Finishing.{
  FinishInput, Ending, finish, finish_found, clamp_text, is_written_by, is_cut,
}
use cuckoo.Conversations.Streams.Words.{open_buffer-Holds, Holds, append_if-Holds, append_if-rows}

-- The row is still written, and the buffer, as long as it lives, holds the words.
pub record IsWriting (bot i last : ℕ) (words : Text) (st : Studio) : Type 0 where
  pub row : (m : Message) × (find? (is_written_by bot i) st.desk.messages ≡ some m)
  pub buffer :
      (t : ℕ)
      → t < last + stream_ttl
      → Holds t (record { agent_id = bot; message_id = i }) words st.streams

begin-IsWriting :
    (d : SendDraw) (bot room : ℕ) (key : Option Text) (reply schedule : Option ℕ) (st : Studio)
    → IsWriting bot d.message_id d.now [] (begin d (begun d bot room key reply schedule) st).studio
unfolding begin create_message open_buffer
begin-IsWriting d bot room key reply schedule st = record {
  row = (
    begun d bot room key reply schedule,
    ap
        (λ t.
          if t
          then some (begun d bot room key reply schedule)
          else find? (is_written_by bot d.message_id) st.desk.messages)
        own,
  );
  buffer = λ t live.
      open_buffer-Holds d.now t (record { agent_id = bot; message_id = d.message_id }) room _
        st.streams live;
}
  where
    own : is_written_by bot d.message_id (begun d bot room key reply schedule) ≡ true
    own = grind (arith, ==_refl d.message_id, ==_refl bot)

same_id : {a b : Message × Bool} → ok a ≡ ok b → a.0.id ≡ b.0.id
same_id h = ap (λ c. c.0.id) (ok-injective h)

begin_new-IsWriting :
    (d : SendDraw) (wait bot room : ℕ) (key : Option Text) (reply schedule : Option ℕ)
    (found : Result (Option Message)) (st : Studio) {m : Message}
    → (begin_new d wait (begun d bot room key reply schedule) found st).answer ≡ ok (m, true)
    → IsWriting bot m.id d.now []
        (begin_new d wait (begun d bot room key reply schedule) found st).studio
unfolding begin_new begin
begin_new-IsWriting d wait bot room key reply schedule (err e) st h = absurd cc
begin_new-IsWriting d wait bot room key reply schedule (ok (some n)) st h = absurd cc
begin_new-IsWriting d wait bot room key reply schedule (ok none) st {m} h =
    elim (Bool-cases (ltb 0 wait)) [
      | inl e ↦ absurd (refused (sym (ap (λ t. (pick t).answer) e) ∙ h))
      | inr e ↦
          subst (λ t. IsWriting bot m.id d.now [] (pick t).studio) (sym e)
            (subst (λ n. IsWriting bot n d.now [] (pick false).studio)
              (same_id (sym (ap (λ t. (pick t).answer) e) ∙ h))
              (begin-IsWriting d bot room key reply schedule st))
    ]
  where
    pick : Bool → Started
    pick t =
        if t
        then record { studio = st; answer = err (rate_limited_error "rate_limited" wait) }
        else begin d (begun d bot room key reply schedule) st

    refused :
        ◌≡◌ {A = Result (Message × Bool)}
          (err (rate_limited_error "rate_limited" wait))
          (ok (m, true))
        → ⊥
    refused f = cc

begin_checked-IsWriting :
    (d : SendDraw) (wait bot room : ℕ) (schedule : Option ℕ)
    (checks : Result (Option Text × Option ℕ)) (st : Studio) {m : Message}
    → (begin_checked d wait bot room schedule checks st).answer ≡ ok (m, true)
    → IsWriting bot m.id d.now [] (begin_checked d wait bot room schedule checks st).studio
unfolding begin_checked
begin_checked-IsWriting d wait bot room schedule (err e) st h = absurd cc
begin_checked-IsWriting d wait bot room schedule (ok (key, reply)) st h =
    begin_new-IsWriting d wait bot room key reply schedule _ st h

start_stream-IsWriting :
    (d : SendDraw) (wait bot room : ℕ) (input : SendInput) (st : Studio) {m : Message}
    → (start_stream d wait bot room input st).answer ≡ ok (m, true)
    → IsWriting bot m.id d.now [] (start_stream d wait bot room input st).studio
unfolding start_stream
start_stream-IsWriting d wait bot room input st h =
    begin_checked-IsWriting d wait bot room input.schedule_id _ st h

-- An agent's message that was started, then extended, each time before its buffer expired; between
-- two calls anything happens that leaves its row and its buffer alone.
pub data Written (bot i : ℕ) : ℕ → Text → Studio → Type 0 where
  started :
      (d : SendDraw) (wait room : ℕ) (input : SendInput) (st : Studio) (m : Message)
      → (start_stream d wait bot room input st).answer ≡ ok (m, true)
      → m.id ≡ i
      → Written bot i d.now [] (start_stream d wait bot room input st).studio
  extended :
      (now wait : ℕ) (delta : Text) (last : ℕ) (words : Text) (st : Studio) (users : List ℕ)
      → Written bot i last words st
      → now < last + stream_ttl
      → (append_stream now wait bot i delta st).1 ≡ ok users
      → Written bot i now (words ++ delta) (append_stream now wait bot i delta st).0
  meanwhile :
      (last : ℕ) (words : Text) (st other : Studio)
      → Written bot i last words st
      → find? (is_written_by bot i) other.desk.messages
        ≡ find? (is_written_by bot i) st.desk.messages
      → ((t : ℕ)
          → find? (is_there t (record { agent_id = bot; message_id = i })) other.streams.buffers
            ≡ find? (is_there t (record { agent_id = bot; message_id = i })) st.streams.buffers)
      → Written bot i last words other

Written-IsWriting :
    (bot i last : ℕ) (words : Text) (st : Studio)
    → Written bot i last words st
    → IsWriting bot i last words st
unfolding append_stream
Written-IsWriting bot i last words st (started d wait room input before m h same) =
    subst (λ n. IsWriting bot n d.now [] (start_stream d wait bot room input before).studio) same
      (start_stream-IsWriting d wait bot room input before h)
Written-IsWriting bot i last words st (extended now wait delta earlier said before users w live h) =
    let held = Written-IsWriting bot i earlier said before w in
    record {
      row = (
        held.row.0,
        ap (λ desk. find? (is_written_by bot i) desk.messages)
              (append_if-rows (check_delta wait delta) now bot i delta before)
            ∙ held.row.1,
      );
      buffer = λ t later.
          append_if-Holds (check_delta wait delta) now t bot i delta said before
            (held.buffer now live) h later;
    }
Written-IsWriting bot i last words st (meanwhile at_last said before other w rows buffers) =
    let held = Written-IsWriting bot i last words before w in
    record {
      row = (held.row.0, rows ∙ held.row.1);
      buffer = λ t live. let (b, found, text) = held.buffer t live in (b, buffers t ∙ found, text);
    }

finish_found-said :
    (sign : Message → Text) (d : SendDraw) (bot i : ℕ) (input : FinishInput) (end : Ending)
    (text : Text) (m : Message) (found : Option Message) (st : Studio)
    → found ≡ some m
    → (msg : Message) × ((finish_found sign d bot i input end text found st).answer ≡ ok msg)
      × (msg.body.text ≡ (clamp_text text).0)
      × (msg.truncated ≡ (is_cut end || (clamp_text text).1))
unfolding finish_found
finish_found-said sign d bot i input end text m none st e = absurd cc
finish_found-said sign d bot i input end text m (some n) st e = (_, refl, refl, refl)

-- A message that an agent started and wrote in pieces, each accepted before its buffer expired and
-- with anything in between that leaves its row and its buffer alone, finishes, before the buffer
-- expires and whoever ends it, with the pieces one after the other as its text, cut at the limit
-- of a text; it is marked truncated exactly where that cut something or not the agent ended it.
pub finish-said :
    (sign : Message → Text) (d : SendDraw) (bot i last : ℕ) (words : Text) (input : FinishInput)
    (end : Ending) (st : Studio)
    → Written bot i last words st
    → d.now < last + stream_ttl
    → (msg : Message) × ((finish sign d bot i input end st).answer ≡ ok msg)
      × (msg.body.text ≡ (clamp_text words).0)
      × (msg.truncated ≡ (is_cut end || (clamp_text words).1))
unfolding finish buffer_text
finish-said sign d bot i last words input end st w live =
    let held = Written-IsWriting bot i last words st w in
    let (b, found, text) = held.buffer d.now live in
    subst
      (λ t.
        (msg : Message) × ((finish sign d bot i input end st).answer ≡ ok msg)
        × (msg.body.text ≡ (clamp_text t).0)
        × (msg.truncated ≡ (is_cut end || (clamp_text t).1)))
      (ap buffered found ∙ text)
      (finish_found-said sign d bot i input end _ held.row.0 _ st held.row.1)
