-- ===== src/Pairing/Service.antt =====
-- pairing/service.go and pairing/welcome.go: how a person comes to an agent, blocks it and is back. A
-- call sees all the tables that it writes, in one transaction: an error changes none of them.
-- `json.Marshal` of the two payloads is an argument.
pub mod Steps
pub mod Settings
pub mod Histories
pub mod Arrivals
pub mod Blocks
pub mod Closed
mod Examples
use cuckoo.Base.{
  ℕ, Bool, true, false, Option, none, some, List, [], ◌∷◌, ◌==◌, is_some, is_none, if◌then◌else◌,
  any,
}
use cuckoo.Base.Text.{Text, codes}
use cuckoo.Domain.Errors.{Error, Result, ok, err, internal_error, not_found_error, ◌>>=◌}
use cuckoo.Agents.Bindings.{Binding}
use cuckoo.Agents.Registry.{Agent, get, get_agent_by_handle, or_fail}
use cuckoo.Delivery.Outbox.{Delivery, EventType, conversation_joined, conversation_left}
use cuckoo.Conversations.Membership.{Rooms, find_or_create_dm, enqueue}
use cuckoo.Pairing.Tokens.{PairToken, lookup, use_pair_token, token_spent}
use cuckoo.Pairing.Contacts.{
  Contact, Door, pair_token, hub, catalogue, new_contact, create_contact, get_contact,
  restore_contact, clear_contact_blocked, set_contact_blocked, not_a_contact,
}

pub record Hub : Type 0 where
  pub agents : List Agent
  pub bindings : List Binding
  pub pair_tokens : List PairToken
  pub contacts : List Contact
  pub rooms : Rooms
  pub deliveries : List Delivery

-- What a call draws: the time, and the fresh identifiers of a chat and of an event.
pub record Draw : Type 0 where
  pub now : ℕ
  pub room_id : ℕ
  pub event_id : ℕ

-- How somebody came to an agent.
pub record Arrival : Type 0 where
  pub agent_id : ℕ
  pub token_id : Option ℕ
  pub payload : Option Text
  pub added_via : Door

-- What the transaction of `join` leaves.
pub record Joined : Type 0 where
  pub hub : Hub
  pub conversation_id : ℕ
  pub is_new : Bool
  pub pending : Bool

pub record Accepted : Type 0 where
  pub conversation_id : ℕ
  pub is_new : Bool

-- What a call leaves, whom it nudges, and what it returns.
pub record Reply (A : Type 0) : Type 0 where
  pub hub : Hub
  pub nudged : List ℕ
  pub answer : Result A

abbrev pub refused : {A : Type 0} → Hub → Error → Reply A
refused h e = record { hub = h; nudged = []; answer = err e }

-- An event for an agent, and whether it is pending.
pub tell : Draw → ℕ → ℕ → EventType → Text → Hub → Hub × Bool
unfolding enqueue
tell d agent room event payload h =
    let told = enqueue d.now d.event_id h.bindings agent room event payload h.deliveries in
    (record h { deliveries = told.0 }, told.1)

-- A code gives up a use; the catalogue has none to spend.
pub spend : ℕ → Option ℕ → List PairToken → Result (List PairToken)
unfolding use_pair_token
spend now none rows = ok rows
spend now (some i) rows = use_pair_token now i rows >>= λ used. or_fail token_spent used

-- `if pending { Nudge(agent) }`
abbrev pub nudge_if : Bool → ℕ → List ℕ
nudge_if true agent = agent ∷ []
nudge_if false agent = []

-- `GetConversations` of one conversation, after the transaction.
reread : ℕ → Bool → Hub → Result Accepted
reread room is_new h =
    if any (λ c. c.id == room) h.rooms.conversations
    then ok (record { conversation_id = room; is_new = is_new })
    else err internal_error

-- The rows, with the person's own restored where it was removed.
pub back_in : Bool → ℕ → ℕ → List Contact → List Contact
unfolding restore_contact
back_in true caller agent rows = restore_contact caller agent rows
back_in false caller agent rows = rows

replied : ℕ → Hub → Result Joined → Reply Accepted
unfolding reread
replied agent h (err e) = refused h e
replied agent h (ok j) = record {
  hub = j.hub;
  nudged = nudge_if j.pending agent;
  answer = reread j.conversation_id j.is_new j.hub;
}

abbrev pub by_code : PairToken → Arrival
by_code t = record {
  agent_id = t.agent_id;
  token_id = some t.id;
  payload = t.payload;
  added_via = pair_token;
}

abbrev pub from_shelf : ℕ → Arrival
from_shelf agent = record {
  agent_id = agent;
  token_id = none;
  payload = none;
  added_via = catalogue;
}

-- The agent, where it is on offer.
pub on_offer : ℕ → List Agent → Result Agent
on_offer agent agents =
    get agent agents >>= λ a. if a.listed then ok a else err (not_found_error "agent_not_listed")

module _ (encode_joined : Option ℕ → Option Text → Text) (encode_left : Text → Text) where
  -- Someone who had blocked the agent is unblocked, and the agent is told.
  pub rejoin_if : Bool → Draw → ℕ → ℕ → ℕ → List Contact → Hub → Joined
  unfolding tell clear_contact_blocked
  rejoin_if true d caller agent room rows h =
      let told =
        tell d agent room conversation_joined (encode_joined none none)
          (record h { contacts = clear_contact_blocked caller agent rows }) in
      record { hub = told.0; conversation_id = room; is_new = false; pending = told.1 }
  rejoin_if false d caller agent room rows h = record {
    hub = record h { contacts = rows };
    conversation_id = room;
    is_new = false;
    pending = false;
  }

  -- The person has a row for the agent.
  pub rejoin : Draw → ℕ → ℕ → Contact → Hub → Joined
  unfolding back_in rejoin_if
  rejoin d caller agent existing h =
      rejoin_if (is_some existing.blocked_at) d caller agent existing.dm_conversation_id
        (back_in (is_some existing.removed_at) caller agent h.contacts) h

  -- The person is new to the agent, and what had to be spent was.
  pub admit : Draw → ℕ → Arrival → List PairToken → Hub → Joined
  unfolding tell find_or_create_dm create_contact
  admit d caller arrival tokens h =
      let found = find_or_create_dm d.now d.room_id caller arrival.agent_id h.rooms in
      let row =
        new_contact d.now caller arrival.agent_id found.1 arrival.added_via arrival.token_id in
      let told =
        tell d arrival.agent_id found.1 conversation_joined
          (encode_joined arrival.token_id arrival.payload)
          (record h {
            pair_tokens = tokens;
            rooms = found.0;
            contacts = create_contact row h.contacts;
          }) in
      record { hub = told.0; conversation_id = found.1; is_new = true; pending = told.1 }

  enter_as : Draw → ℕ → Arrival → Option Contact → Hub → Result Joined
  unfolding spend
  enter_as d caller arrival (some existing) h = ok (rejoin d caller arrival.agent_id existing h)
  enter_as d caller arrival none h =
      spend d.now arrival.token_id h.pair_tokens >>= λ tokens. ok (admit d caller arrival tokens h)

  -- The transaction of `join`.
  pub enter : Draw → ℕ → Arrival → Hub → Result Joined
  unfolding enter_as
  enter d caller arrival h =
      enter_as d caller arrival (get_contact caller arrival.agent_id h.contacts) h

  pub join : Draw → ℕ → Arrival → Hub → Reply Accepted
  unfolding enter replied
  join d caller arrival h = replied arrival.agent_id h (enter d caller arrival h)

  accept_as : Draw → ℕ → Result PairToken → Hub → Reply Accepted
  unfolding join
  accept_as d caller (err e) h = refused h e
  accept_as d caller (ok t) h = join d caller (by_code t) h

  pub accept : (Text → ℕ) → Draw → ℕ → Text → Hub → Reply Accepted
  unfolding accept_as
  accept hash d caller code h = accept_as d caller (lookup hash d.now code h.agents h.pair_tokens) h

  add_as : Draw → ℕ → ℕ → Result Agent → Hub → Reply Accepted
  unfolding join
  add_as d caller agent (err e) h = refused h e
  add_as d caller agent (ok a) h = join d caller (from_shelf agent) h

  pub add_from_catalogue : Draw → ℕ → ℕ → Hub → Reply Accepted
  unfolding add_as on_offer
  add_from_catalogue d caller agent h = add_as d caller agent (on_offer agent h.agents) h

  -- A change of the contacts, of which the agent is told.
  pub move : Draw → ℕ → ℕ → EventType → Text → List Contact → Hub → Reply (Unit {0})
  unfolding tell
  move d agent room event payload rows h =
      let told = tell d agent room event payload (record h { contacts = rows }) in
      record { hub = told.0; nudged = nudge_if told.1 agent; answer = ok tt }

  block_as : Draw → ℕ → ℕ → Option Contact → Hub → Reply (Unit {0})
  unfolding move set_contact_blocked
  block_as d caller agent none h = refused h not_a_contact
  block_as d caller agent (some c) h =
      if is_some c.blocked_at
      then record { hub = h; nudged = []; answer = ok tt }
      else move d agent c.dm_conversation_id conversation_left (encode_left (codes "user_blocked"))
          (set_contact_blocked d.now caller agent h.contacts) h

  pub block : Draw → ℕ → ℕ → Hub → Reply (Unit {0})
  unfolding block_as
  block d caller agent h = block_as d caller agent (get_contact caller agent h.contacts) h

  unblock_as : Draw → ℕ → ℕ → Option Contact → Hub → Reply (Unit {0})
  unfolding move clear_contact_blocked
  unblock_as d caller agent none h = refused h not_a_contact
  unblock_as d caller agent (some c) h =
      if is_none c.blocked_at
      then record { hub = h; nudged = []; answer = ok tt }
      else move d agent c.dm_conversation_id conversation_joined (encode_joined none none)
          (clear_contact_blocked caller agent h.contacts) h

  pub unblock : Draw → ℕ → ℕ → Hub → Reply (Unit {0})
  unfolding unblock_as
  unblock d caller agent h = unblock_as d caller agent (get_contact caller agent h.contacts) h

  abbrev from_hub : ℕ → Arrival
  from_hub agent = record { agent_id = agent; token_id = none; payload = none; added_via = hub }

  welcome_as : Draw → ℕ → ℕ → Option Contact → Hub → Reply (Unit {0})
  unfolding admit
  welcome_as d person agent (some c) h = refused h internal_error
  welcome_as d person agent none h =
      let j = admit d person (from_hub agent) h.pair_tokens h in
      record { hub = j.hub; nudged = nudge_if j.pending agent; answer = ok tt }

  welcome_by : Draw → ℕ → Option Agent → Hub → Reply (Unit {0})
  unfolding welcome_as
  welcome_by d person none h = record { hub = h; nudged = []; answer = ok tt }
  welcome_by d person (some a) h = welcome_as d person a.id (get_contact person a.id h.contacts) h

  -- `Welcomer`, where a handle is configured. A second row for the agent would break the table's key.
  pub welcome : Draw → Text → ℕ → Hub → Reply (Unit {0})
  unfolding get_agent_by_handle welcome_by
  welcome d handle person h = welcome_by d person (get_agent_by_handle handle h.agents) h
