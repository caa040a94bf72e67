-- ===== src/Conversations/Streams/Words.antt =====
-- What an agent writes piece by piece is what its message says.
use cuckoo.Base.{
  find?-test, ℕ, ◌≡◌, ◌<◌, refl, sym, ap, subst, ◌∙◌, inl, inr, Bool, true, not, some, List, [],
  ◌∷◌, ◌++◌, ◌+◌, ==_refl, ltb, if◌then◌else◌, find?, filter, arith, Bool-cases,
}
use cuckoo.Base.Text.{Text, byte_len}
use cuckoo.Domain.Errors.{Result, ok, err, ok-injective}
use cuckoo.Conversations.Desk.{Message}
use cuckoo.Conversations.Streams.{
  open_buffer, milli, set_active, extended, set_buffer, StreamRef, StreamStore, Buffer, Appended,
  same_ref, is_there, append, append_to, added, not_streaming, too_long, stream_ttl,
  stream_max_bytes,
}
use cuckoo.Conversations.Streams.Writing.{append_if, append_result, Studio}

-- The stream of the reference, alive at a time, holds the words.
abbrev pub Holds : ℕ → StreamRef → Text → StreamStore → Type 0
Holds t ref words s = (b : Buffer) × (find? (is_there t ref) s.buffers ≡ some b) × (b.text ≡ words)

extended-found :
    (now later : ℕ) (ref : StreamRef) (delta : Text) (b : Buffer) (rest : List Buffer)
    → is_there now ref b ≡ true
    → later < now + stream_ttl
    → find? (is_there later ref) (extended now delta b ∷ rest) ≡ some (extended now delta b)
extended-found now later ref delta b rest here live =
    ap (λ t. if t then some (extended now delta b) else find? (is_there later ref) rest) there
  where
    there : is_there later ref (extended now delta b) ≡ true
    there = grind (arith, here)

refused : {room : ℕ} {users : List ℕ} → too_long ≡ added room users → ⊥
refused f = cc

-- The buffer after an append that was accepted, while it lasts.
append_to-Holds :
    (now later : ℕ) (ref : StreamRef) (delta : Text) (b : Buffer) (s : StreamStore) {room : ℕ}
    {users : List ℕ}
    → is_there now ref b ≡ true
    → (append_to now ref delta (some b) s).1 ≡ added room users
    → later < now + stream_ttl
    → Holds later ref (b.text ++ delta) (append_to now ref delta (some b) s).0
unfolding append_to
append_to-Holds now later ref delta b s here e live =
    elim (Bool-cases (ltb stream_max_bytes (byte_len b.text + byte_len delta))) [
      | inl over ↦ absurd (refused (sym (ap (λ t. (pick t).1) over) ∙ e))
      | inr fits ↦
          subst (λ t. Holds later ref (b.text ++ delta) (pick t).0) (sym fits)
            (extended now delta b, extended-found now later ref delta b _ here live, refl)
    ]
  where
    pick : Bool → StreamStore × Appended
    pick t = if t then (s, too_long) else (
      record {
        buffers = set_buffer (extended now delta b) s.buffers;
        active = set_active ref (milli now) s.active;
      },
      added b.conversation_id b.users,
    )

append-Holds :
    (now later : ℕ) (ref : StreamRef) (delta words : Text) (s : StreamStore) {room : ℕ}
    {users : List ℕ}
    → Holds now ref words s
    → (append now ref delta s).1 ≡ added room users
    → later < now + stream_ttl
    → Holds later ref (words ++ delta) (append now ref delta s).0
unfolding append
append-Holds now later ref delta words s {room} {users} (b, found, said) e live =
    subst (λ o. Holds later ref (words ++ delta) (append_to now ref delta o s).0) (sym found)
      (subst (λ w. Holds later ref (w ++ delta) (append_to now ref delta (some b) s).0) said
        (append_to-Holds now later ref delta b s (find?-test (is_there now ref) s.buffers b found)
          (subst (λ o. (append_to now ref delta o s).1 ≡ added room users) found e) live))

append_result-added :
    (bot i : ℕ) (rows : List Message) (a : Appended) {users : List ℕ}
    → append_result bot i rows a ≡ ok users
    → (room : ℕ) × (a ≡ added room users)
unfolding append_result
append_result-added bot i rows not_streaming h = absurd cc
append_result-added bot i rows too_long h = absurd cc
append_result-added bot i rows (added room who) h = (room, ap (added room) (ok-injective h))

pub append_if-Holds :
    (check : Result (Unit {0})) (now later bot i : ℕ) (delta words : Text) (st : Studio)
    {users : List ℕ}
    → Holds now (record { agent_id = bot; message_id = i }) words st.streams
    → (append_if check now bot i delta st).1 ≡ ok users
    → later < now + stream_ttl
    → Holds later
        (record { agent_id = bot; message_id = i })
        (words ++ delta)
        (append_if check now bot i delta st).0.streams
unfolding append_if
append_if-Holds (err e) now later bot i delta words st held h live = absurd cc
append_if-Holds (ok _) now later bot i delta words st held h live =
    let (room, said) = append_result-added bot i st.desk.messages _ h in
    append-Holds now later (record { agent_id = bot; message_id = i }) delta words st.streams held
      said live

pub append_if-rows :
    (check : Result (Unit {0})) (now bot i : ℕ) (delta : Text) (st : Studio)
    → (append_if check now bot i delta st).0.desk ≡ st.desk
unfolding append_if
append_if-rows (err e) now bot i delta st = refl
append_if-rows (ok _) now bot i delta st = refl

pub open_buffer-Holds :
    (now later : ℕ) (ref : StreamRef) (room : ℕ) (users : List ℕ) (s : StreamStore)
    → later < now + stream_ttl
    → Holds later ref [] (open_buffer now ref room users s)
unfolding open_buffer
open_buffer-Holds now later ref room users s live = (
  new,
  ap
      (λ t.
        if t
        then some new
        else find? (is_there later ref) (filter (λ c. not (same_ref c.ref ref)) s.buffers))
      there,
  refl,
)
  where
    new : Buffer
    new = record {
      ref = ref;
      text = [];
      conversation_id = room;
      users = users;
      expires_at = now + stream_ttl;
    }

    there : is_there later ref new ≡ true
    there = grind (arith, ==_refl ref.agent_id, ==_refl ref.message_id)
