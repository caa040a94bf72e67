-- ===== src/Conversations/Streams.antt =====
-- conversations/streams.go: the text of the messages that are being written, as it stands in Redis, one
-- hash for each and one sorted set of their last activity. A key that has expired is not there.
pub mod Writing
pub mod Finishing
pub mod Stopping
pub mod Quiet
pub mod Repeats
pub mod Words
pub mod Said
mod Examples
use cuckoo.Base.{
  ◌/◌, ℕ, ◌+◌, ◌-◌, ◌*◌, Bool, true, false, ◌&&◌, ◌||◌, not, Option, none, some, List, [], ◌∷◌,
  ◌++◌, ◌==◌, ltb, leb, if◌then◌else◌, find?, filter, map, take,
}
use cuckoo.Base.Sorting.{sort_by}
use cuckoo.Base.Text.{Text, byte_len}
use cuckoo.Conversations.Messages.{text_max_len}

-- textMaxLen * 4
abbrev pub stream_max_bytes : ℕ
stream_max_bytes = 32000

-- 10 * time.Minute
abbrev pub stream_ttl : ℕ
stream_ttl = 600000000000

pub record StreamRef : Type 0 where
  pub agent_id : ℕ
  pub message_id : ℕ

abbrev pub same_ref : StreamRef → StreamRef → Bool
same_ref r s = r.agent_id == s.agent_id && r.message_id == s.message_id

pub record Buffer : Type 0 where
  pub ref : StreamRef
  pub text : Text
  pub conversation_id : ℕ
  pub users : List ℕ
  pub expires_at : ℕ

pub record StreamStore : Type 0 where
  pub buffers : List Buffer
  pub active : List (StreamRef × ℕ)

-- EXISTS
abbrev pub is_there : ℕ → StreamRef → Buffer → Bool
is_there now ref b = same_ref b.ref ref && ltb now b.expires_at

abbrev pub set_buffer : Buffer → List Buffer → List Buffer
set_buffer b bs = b ∷ filter (λ c. not (same_ref c.ref b.ref)) bs

-- UnixMilli
abbrev pub milli : ℕ → ℕ
milli t = t / 1000000

-- ZADD
abbrev pub set_active : StreamRef → ℕ → List (StreamRef × ℕ) → List (StreamRef × ℕ)
set_active ref score rows = (ref, score) ∷ filter (λ a. not (same_ref a.0 ref)) rows

-- `open`
pub open_buffer : ℕ → StreamRef → ℕ → List ℕ → StreamStore → StreamStore
open_buffer now ref room users s = record {
  buffers =
      set_buffer
        (record {
          ref = ref;
          text = [];
          conversation_id = room;
          users = users;
          expires_at = now + stream_ttl;
        })
        s.buffers;
  active = set_active ref (milli now) s.active;
}

pub data Appended : Type 0 where
  not_streaming too_long : Appended
  added : ℕ → List ℕ → Appended

abbrev pub extended : ℕ → Text → Buffer → Buffer
extended now delta b = record b { text = b.text ++ delta; expires_at = now + stream_ttl }

pub append_to : ℕ → StreamRef → Text → Option Buffer → StreamStore → StreamStore × Appended
append_to now ref delta none s = (s, not_streaming)
append_to now ref delta (some b) s =
    if ltb stream_max_bytes (byte_len b.text + byte_len delta) then (s, too_long) else (
      record {
        buffers = set_buffer (extended now delta b) s.buffers;
        active = set_active ref (milli now) s.active;
      },
      added b.conversation_id b.users,
    )

-- `append`, with its script.
pub append : ℕ → StreamRef → Text → StreamStore → StreamStore × Appended
unfolding append_to
append now ref delta s = append_to now ref delta (find? (is_there now ref) s.buffers) s

abbrev pub buffered : Option Buffer → Text
buffered none = []
buffered (some b) = b.text

-- `text`: empty where there is no stream.
pub buffer_text : ℕ → StreamRef → StreamStore → Text
buffer_text now ref s = buffered (find? (is_there now ref) s.buffers)

-- `remove`
unfoldable pub remove : StreamRef → StreamStore → StreamStore
remove ref s = record {
  buffers = filter (λ b. not (same_ref b.ref ref)) s.buffers;
  active = filter (λ a. not (same_ref a.0 ref)) s.active;
}

-- By score, then by name.
abbrev quieter : StreamRef × ℕ → StreamRef × ℕ → Bool
quieter a b =
    ltb a.1 b.1
    || (a.1 == b.1
        && (ltb a.0.agent_id b.0.agent_id
            || (a.0.agent_id == b.0.agent_id && leb a.0.message_id b.0.message_id)))

-- `idle`
pub idle : ℕ → ℕ → StreamStore → List StreamRef
idle now idle_for s =
    map (λ a. a.0)
      (take 100 (sort_by quieter (filter (λ a. leb a.1 (milli (now - idle_for))) s.active)))
