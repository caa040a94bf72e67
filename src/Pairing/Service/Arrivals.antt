-- ===== src/Pairing/Service/Arrivals.antt =====
-- Coming back to an agent, by whichever door.
use cuckoo.Base.{
  find?-test, ℕ, ◌≡◌, refl, sym, subst, ap, ◌∙◌, Bool, true, false, Option, none, some, List, [],
  arith, is_some, if◌then◌else◌, any, ◌==◌, ==_refl,
}
use cuckoo.Base.Counts.{find?-written}
use cuckoo.Base.Text.{Text}
use cuckoo.Domain.Errors.{Result, ok, err, internal_error, >>=-eq-ok, ok-injective}
use cuckoo.Pairing.Tokens.{PairToken, lookup}
use cuckoo.Pairing.Contacts.{
  Contact, get_contact, is_between, restore_contact, clear_contact_blocked, create_contact,
  new_contact, is_gone, is_blocked, bring_back, reopen,
}
use cuckoo.Pairing.Service.{
  spend, find_or_create_dm, Hub, Draw, Arrival, Joined, Accepted, Reply, tell, back_in, rejoin_if,
  rejoin, admit, enter_as, enter, replied, reread, join, accept_as, accept, by_code,
}

-- The person has the agent, through this chat: the row was not removed and nobody is blocked.
pub record IsPresent (caller agent room : ℕ) (rows : List Contact) : Type 0 where
  pub row : Contact
  pub found : get_contact caller agent rows ≡ some row
  pub kept : row.removed_at ≡ none
  pub free : row.blocked_at ≡ none
  pub through : row.dm_conversation_id ≡ room

-- Of two times, the person has neither left the agent nor blocked it, nor come back to another chat.
pub record StillThere (was is : Contact) : Type 0 where
  pub kept : is.removed_at ≡ was.removed_at
  pub free : is.blocked_at ≡ was.blocked_at
  pub through : is.dm_conversation_id ≡ was.dm_conversation_id

restored :
    (caller agent : ℕ) (rows : List Contact) (c : Contact) (gone : Bool)
    → is_some c.removed_at ≡ gone
    → get_contact caller agent rows ≡ some c
    → get_contact caller agent (back_in gone caller agent rows)
      ≡ some (if gone then bring_back c else c)
unfolding back_in restore_contact get_contact
restored caller agent rows c true g h =
    find?-written (is_between caller agent) (is_gone caller agent) bring_back (λ _. refl) rows
      (ground (arith, g, find?-test (is_between caller agent) rows c h)) h
restored caller agent rows c false g h = h

restored_row :
    (c : Contact) (gone : Bool)
    → is_some c.removed_at ≡ gone
    → ((if gone then bring_back c else c).removed_at ≡ none)
      × ((if gone then bring_back c else c).blocked_at ≡ c.blocked_at)
      × ((if gone then bring_back c else c).dm_conversation_id ≡ c.dm_conversation_id)
restored_row c true g = (refl, refl, refl)
restored_row c false g = (ground arith, refl, refl)

reopened :
    (caller agent : ℕ) (rows : List Contact) (c : Contact)
    → is_some c.blocked_at ≡ true
    → get_contact caller agent rows ≡ some c
    → get_contact caller agent (clear_contact_blocked caller agent rows) ≡ some (reopen c)
unfolding clear_contact_blocked get_contact
reopened caller agent rows c g h =
    find?-written (is_between caller agent) (is_blocked caller agent) reopen (λ _. refl) rows
      (ground (arith, g, find?-test (is_between caller agent) rows c h)) h

reread-ok :
    (room : ℕ) (is_new : Bool) (h : Hub) {a : Accepted}
    → reread room is_new h ≡ ok a
    → (any (λ c. c.id == room) h.rooms.conversations ≡ true) × (room ≡ a.conversation_id)
unfolding reread
reread-ok room is_new h = through (any (λ c. c.id == room) h.rooms.conversations)
  where
    through :
        (b : Bool) {a : Accepted}
        → (if b
            then ok (record { conversation_id = room; is_new = is_new })
            else err internal_error)
          ≡ ok a
        → (b ≡ true) × (room ≡ a.conversation_id)
    through true e = (refl, ap (λ x. x.conversation_id) (ok-injective e))
    through false e = cc

-- What a call that answered left.
replied-ok :
    (agent : ℕ) (h : Hub) (came : Result Joined) {a : Accepted}
    → (replied agent h came).answer ≡ ok a
    → (j : Joined) × (came ≡ ok j)
      × ((replied agent h came).hub ≡ j.hub)
      × (any (λ c. c.id == j.conversation_id) j.hub.rooms.conversations ≡ true)
      × (j.conversation_id ≡ a.conversation_id)
unfolding replied
replied-ok agent h (err e) r = cc
replied-ok agent h (ok j) r =
    let (e, same) = reread-ok j.conversation_id j.is_new j.hub r in (j, refl, refl, e, same)

module _ (encode_joined : Option ℕ → Option Text → Text) (encode_left : Text → Text) where
  rejoin_if-IsPresent :
      (shut : Bool) (d : Draw) (caller agent room : ℕ) (rows : List Contact) (h : Hub) (c : Contact)
      → get_contact caller agent rows ≡ some c
      → c.removed_at ≡ none
      → is_some c.blocked_at ≡ shut
      → c.dm_conversation_id ≡ room
      → IsPresent caller agent
          (rejoin_if encode_joined encode_left shut d caller agent room rows h).conversation_id
          (rejoin_if encode_joined encode_left shut d caller agent room rows h).hub.contacts
  unfolding rejoin_if tell
  rejoin_if-IsPresent true d caller agent room rows h c got kept blocked by = record {
    row = reopen c;
    found = reopened caller agent rows c blocked got;
    kept = kept;
    free = refl;
    through = by;
  }
  rejoin_if-IsPresent false d caller agent room rows h c got kept blocked by = record {
    row = c;
    found = got;
    kept = kept;
    free = ground arith;
    through = by;
  }

  enter_as-IsPresent :
      (d : Draw) (caller : ℕ) (a : Arrival) (found : Option Contact) (h : Hub) {j : Joined}
      → get_contact caller a.agent_id h.contacts ≡ found
      → enter_as encode_joined encode_left d caller a found h ≡ ok j
      → IsPresent caller a.agent_id j.conversation_id j.hub.contacts
  unfolding enter_as rejoin admit tell create_contact get_contact
  enter_as-IsPresent d caller a none h {j} new came =
      let (tokens, spent, rest) = >>=-eq-ok (spend d.now a.token_id h.pair_tokens) _ came in
      subst (λ k. IsPresent caller a.agent_id k.conversation_id k.hub.contacts) (ok-injective rest)
        (record {
          row = new_contact d.now caller a.agent_id room a.added_via a.token_id;
          found = ground (arith, ==_refl caller, ==_refl a.agent_id);
          kept = refl;
          free = refl;
          through = refl;
        })
    where
      room : ℕ
      room = (find_or_create_dm d.now d.room_id caller a.agent_id h.rooms).1
  enter_as-IsPresent d caller a (some c) h {j} old came =
      let (kept, blocked, through) = restored_row c (is_some c.removed_at) refl in
      subst (λ k. IsPresent caller a.agent_id k.conversation_id k.hub.contacts) (ok-injective came)
        (rejoin_if-IsPresent (is_some c.blocked_at) d caller a.agent_id c.dm_conversation_id
          (back_in (is_some c.removed_at) caller a.agent_id h.contacts) h
          (if is_some c.removed_at then bring_back c else c)
          (restored caller a.agent_id h.contacts c (is_some c.removed_at) refl old) kept
          (ap is_some blocked) through)

  -- Someone who has the agent: nothing changes, and nobody is told.
  join-IsPresent :
      (d : Draw) (caller room : ℕ) (a : Arrival) (h : Hub)
      → IsPresent caller a.agent_id room h.contacts
      → any (λ c. c.id == room) h.rooms.conversations ≡ true
      → join encode_joined encode_left d caller a h ≡ record {
        hub = h;
        nudged = [];
        answer = ok (record { conversation_id = room; is_new = false });
      }
  unfolding join enter enter_as replied reread rejoin back_in rejoin_if
  join-IsPresent d caller room a h p open_room =
      ap (λ o. replied a.agent_id h (enter_as encode_joined encode_left d caller a o h)) p.found
      ∙ ap (λ b. back b p.row.removed_at p.row.dm_conversation_id) p.free
      ∙ ap (λ g. back none g p.row.dm_conversation_id) p.kept
      ∙ ap (back none none) p.through
      ∙ ap answered open_room
    where
      back : Option ℕ → Option ℕ → ℕ → Reply Accepted
      back blocked gone m = replied a.agent_id h (
          ok (
            rejoin_if encode_joined encode_left (is_some blocked) d caller a.agent_id m
              (back_in (is_some gone) caller a.agent_id h.contacts) h))

      answered : Bool → Reply Accepted
      answered b = record {
        hub = h;
        nudged = [];
        answer =
            if b
            then ok (record { conversation_id = room; is_new = false })
            else err internal_error;
      }

  -- Someone who came to an agent and has it still comes again, by any door: the same chat, and nothing else.
  join_again :
      (d e : Draw) (caller : ℕ) (a b : Arrival) (h later : Hub) (first : Accepted)
      (was is : Contact)
      → a.agent_id ≡ b.agent_id
      → (join encode_joined encode_left d caller a h).answer ≡ ok first
      → get_contact caller a.agent_id (join encode_joined encode_left d caller a h).hub.contacts
        ≡ some was
      → get_contact caller b.agent_id later.contacts ≡ some is
      → StillThere was is
      → any (λ c. c.id == first.conversation_id) later.rooms.conversations ≡ true
      → join encode_joined encode_left e caller b later ≡ record {
        hub = later;
        nudged = [];
        answer = ok (record { conversation_id = first.conversation_id; is_new = false });
      }
  unfolding join enter
  join_again d e caller a b h later first was is same came left_as now_as still open_room =
      let (j, entered, left, _, through) = replied-ok a.agent_id h entering came in
      let p =
        enter_as-IsPresent d caller a (get_contact caller a.agent_id h.contacts) h refl entered in
      let row =
        same_row (
          sym (p.found)
          ∙ ap (λ g. get_contact caller a.agent_id g.contacts) (sym left)
          ∙ left_as) in
      join-IsPresent e caller first.conversation_id b later
        (record {
          row = is;
          found = now_as;
          kept = still.kept ∙ sym (ap (λ c. c.removed_at) row) ∙ p.kept;
          free = still.free ∙ sym (ap (λ c. c.blocked_at) row) ∙ p.free;
          through = still.through ∙ sym (ap (λ c. c.dm_conversation_id) row) ∙ p.through ∙ through;
        })
        open_room
    where
      entering : Result Joined
      entering =
          enter_as encode_joined encode_left d caller a (get_contact caller a.agent_id h.contacts) h

      same_row : {x y : Contact} → some x ≡ some y → x ≡ y
      same_row e = cc

  accept-by_code :
      (hash : Text → ℕ) (d : Draw) (caller : ℕ) (code : Text) (h : Hub) (t : PairToken)
      → lookup hash d.now code h.agents h.pair_tokens ≡ ok t
      → accept encode_joined encode_left hash d caller code h
        ≡ join encode_joined encode_left d caller (by_code t) h
  unfolding accept accept_as
  accept-by_code hash d caller code h t looked =
      ap (λ l. accept_as encode_joined encode_left d caller l h) looked

  -- Accepting a link for an agent that the person came to by a link before finds the same chat,
  -- writes nothing, spends no use and tells nobody, over any later tables in which the link is
  -- good, the chat is there, and the person's row for the agent has the chat and the marks of
  -- removal and of blocking that the first acceptance left it with.
  pub accept_again :
      (hash : Text → ℕ) (d e : Draw) (caller : ℕ) (code other : Text) (h later : Hub)
      (t u : PairToken) (first : Accepted) (was is : Contact)
      → lookup hash d.now code h.agents h.pair_tokens ≡ ok t
      → (accept encode_joined encode_left hash d caller code h).answer ≡ ok first
      → get_contact caller t.agent_id
          (accept encode_joined encode_left hash d caller code h).hub.contacts
        ≡ some was
      → lookup hash e.now other later.agents later.pair_tokens ≡ ok u
      → t.agent_id ≡ u.agent_id
      → get_contact caller u.agent_id later.contacts ≡ some is
      → StillThere was is
      → any (λ c. c.id == first.conversation_id) later.rooms.conversations ≡ true
      → accept encode_joined encode_left hash e caller other later ≡ record {
        hub = later;
        nudged = [];
        answer = ok (record { conversation_id = first.conversation_id; is_new = false });
      }
  accept_again hash d e caller code other h later t u first was is looked came left_as again same
        now_as still open_room =
      accept-by_code hash e caller other later u again
      ∙ join_again d e caller (by_code t) (by_code u) h later first was is same
          (ap (λ r. r.answer) (sym arrived) ∙ came)
          (ap (λ r. get_contact caller t.agent_id r.hub.contacts) (sym arrived) ∙ left_as) now_as
          still open_room
    where
      arrived :
          accept encode_joined encode_left hash d caller code h
          ≡ join encode_joined encode_left d caller (by_code t) h
      arrived = accept-by_code hash d caller code h t looked
