-- ===== src/Conversations/History/Pages.antt =====
-- conversations/history.go: a page of history, with the cursor to go on from.
use cuckoo.Base.{
  ℕ, ◌&&◌, ◌||◌, Option, none, some, List, [], ◌∷◌, ◌==◌, ltb, is_some, length, take, ◌+◌,
  if◌then◌else◌,
}
use cuckoo.Domain.Errors.{Result, ok, err, invalid_field, ◌>>=◌, ◌>>◌, refuse_if}
use cuckoo.Conversations.Desk.{Message}
use cuckoo.Conversations.Membership.{Conversation, user_in, agent_in}
use cuckoo.Conversations.History.{
  Archive, member, list_messages_before, list_messages_after, list_messages_before_for_agent,
}

abbrev default_page_size : ℕ
default_page_size = 50

abbrev max_page_size : ℕ
max_page_size = 100

page_size : ℕ → Result ℕ
page_size limit =
    if limit == 0
    then ok default_page_size
    else if ltb limit 1 || ltb max_page_size limit
    then err (invalid_field "limit" "invalid_limit")
    else ok limit

pub record Page : Type 0 where
  pub messages : List Message
  pub next_before : Option ℕ
  pub next_after : Option ℕ
  pub conversation_started : ℕ

pub record ListMessagesInput : Type 0 where
  pub before : Option ℕ
  pub after : Option ℕ
  pub limit : ℕ

-- The key of the last message.
abbrev pub last_id : List Message → Option ℕ
last_id [] = none
last_id (m ∷ []) = some m.id
last_id (m ∷ n ∷ rows) = last_id (n ∷ rows)

-- `pageOf`: the page, and the cursor, whichever way the rows run.
pub page_of : ℕ → List Message → List Message × Option ℕ
page_of limit rows =
    (take limit rows, if ltb limit (length rows) then last_id (take limit rows) else none)

page_after : ℕ → ℕ → ℕ → ℕ → Conversation → Archive → Page
unfolding page_of
page_after who room after limit c v =
    let (rows, cursor) = page_of limit (list_messages_after who room after (limit + 1) v) in
    record {
      messages = rows;
      next_before = none;
      next_after = cursor;
      conversation_started = c.created_at;
    }

page_before : ℕ → ℕ → Option ℕ → ℕ → Conversation → Archive → Page
unfolding page_of
page_before who room before limit c v =
    let (rows, cursor) = page_of limit (list_messages_before who room before (limit + 1) v) in
    record {
      messages = rows;
      next_before = cursor;
      next_after = none;
      conversation_started = c.created_at;
    }

page_from : ℕ → ℕ → Option ℕ → Option ℕ → ℕ → Conversation → Archive → Page
unfolding page_before page_after
page_from who room before none limit c v = page_before who room before limit c v
page_from who room before (some after) limit c v = page_after who room after limit c v

-- `ListMessages`
pub list_messages : ℕ → ℕ → ListMessagesInput → Archive → Result Page
unfolding page_size page_from
list_messages who room input v = member (user_in who room v.rooms.participants) room v >>= λ c.
    page_size input.limit >>= λ limit.
    refuse_if (is_some input.before && is_some input.after) (invalid_field "after" "invalid_cursor")
    >> ok (page_from who room input.before input.after limit c v)

-- `ListMessagesForAgent`
pub list_messages_for_agent : ℕ → ℕ → ListMessagesInput → Archive → Result Page
unfolding page_size page_of
list_messages_for_agent bot room input v =
    member (agent_in bot room v.rooms.participants) room v >>= λ _.
    page_size input.limit >>= λ limit.
    let (rows, cursor) =
      page_of limit (list_messages_before_for_agent bot room input.before (limit + 1) v) in
    ok (record {
      messages = rows;
      next_before = cursor;
      next_after = none;
      conversation_started = 0;
    })
