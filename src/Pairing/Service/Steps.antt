-- ===== src/Pairing/Service/Steps.antt =====
-- Every history of the calls that write codes and contacts, one call after the other.
use cuckoo.Base.{
  ℕ, ◌≡◌, refl, subst, ap, ◌∙◌, is_none, Bool, true, false, Option, none, some, List, ◌∷◌, inl, inr,
  Bool-cases, update, is_some,
}
use cuckoo.Base.Counts.{count-update}
use cuckoo.Base.Text.{Text}
use cuckoo.Domain.Errors.{Result, ok, err, >>=-eq-ok, ok-injective}
use cuckoo.Agents.Registry.{Agent, or_fail-ok}
use cuckoo.Conversations.Membership.{find_or_create_dm}
use cuckoo.Pairing.Tokens.{PairToken, use_pair_token, token_spent}
use cuckoo.Pairing.Tokens.Uses.{
  carries, IsCounted, IsCounted-contacts, use_pair_token-IsCounted, uncarried-IsCounted,
}
use cuckoo.Pairing.Contacts.{
  Contact, get_contact, restore_contact, clear_contact_blocked, set_contact_blocked, create_contact,
  new_contact, is_gone, bring_back, is_blocked, reopen, is_unblocked, shut,
}
use cuckoo.Pairing.Contacts.Lists.{
  IsTidy, restore_contact-IsTidy, clear_contact_blocked-IsTidy, set_contact_blocked-IsTidy,
  create_contact-IsTidy,
}
use cuckoo.Pairing.Service.{
  Hub, Draw, Arrival, Joined, tell, spend, back_in, rejoin_if, rejoin, admit, enter_as, enter,
  replied, join, accept, add_from_catalogue, move, block_as, block, unblock_as, unblock, welcome,
  by_code, from_shelf, accept_as, add_as, welcome_as, welcome_by, from_hub,
}

-- The contacts are tidy, and the uses of every code are the contacts that came by it.
abbrev pub IsSound : List Contact → List PairToken → Type 0
IsSound contacts tokens = IsTidy contacts × IsCounted contacts tokens

abbrev pub IsSoundHub : Hub → Type 0
IsSoundHub h = IsSound h.contacts h.pair_tokens

restore-IsSound :
    (caller agent : ℕ) (rows : List Contact) (tokens : List PairToken)
    → IsSound rows tokens
    → IsSound (restore_contact caller agent rows) tokens
unfolding restore_contact
restore-IsSound caller agent rows tokens s = (
  restore_contact-IsTidy caller agent rows s.0,
  IsCounted-contacts rows (update (is_gone caller agent) bring_back rows) tokens
      (λ i. count-update (carries i) (is_gone caller agent) bring_back (λ _. refl) rows) s.1,
)

reopen-IsSound :
    (caller agent : ℕ) (rows : List Contact) (tokens : List PairToken)
    → IsSound rows tokens
    → IsSound (clear_contact_blocked caller agent rows) tokens
unfolding clear_contact_blocked
reopen-IsSound caller agent rows tokens s = (
  clear_contact_blocked-IsTidy caller agent rows s.0,
  IsCounted-contacts rows (update (is_blocked caller agent) reopen rows) tokens
      (λ i. count-update (carries i) (is_blocked caller agent) reopen (λ _. refl) rows) s.1,
)

shut-IsSound :
    (now caller agent : ℕ) (rows : List Contact) (tokens : List PairToken)
    → IsSound rows tokens
    → IsSound (set_contact_blocked now caller agent rows) tokens
unfolding set_contact_blocked
shut-IsSound now caller agent rows tokens s = (
  set_contact_blocked-IsTidy now caller agent rows s.0,
  IsCounted-contacts rows (update (is_unblocked caller agent) (shut now) rows) tokens
      (λ i. count-update (carries i) (is_unblocked caller agent) (shut now) (λ _. refl) rows) s.1,
)

module _ (encode_joined : Option ℕ → Option Text → Text) (encode_left : Text → Text) where
  back_in-IsSound :
      (gone : Bool) (caller agent : ℕ) (rows : List Contact) (tokens : List PairToken)
      → IsSound rows tokens
      → IsSound (back_in gone caller agent rows) tokens
  unfolding back_in
  back_in-IsSound true caller agent rows tokens s = restore-IsSound caller agent rows tokens s
  back_in-IsSound false caller agent rows tokens s = s

  rejoin_if-IsSound :
      (shut : Bool) (d : Draw) (caller agent room : ℕ) (rows : List Contact) (h : Hub)
      → IsSound rows h.pair_tokens
      → IsSoundHub (rejoin_if encode_joined encode_left shut d caller agent room rows h).hub
  unfolding rejoin_if tell
  rejoin_if-IsSound true d caller agent room rows h s =
      reopen-IsSound caller agent rows h.pair_tokens s
  rejoin_if-IsSound false d caller agent room rows h s = s

  -- A use is spent for the contact that it makes; the catalogue has none to spend.
  spend-IsCounted :
      (now : ℕ) (token : Option ℕ) (c : Contact) (contacts : List Contact)
      (rows after : List PairToken)
      → c.pair_token_id ≡ token
      → IsCounted contacts rows
      → spend now token rows ≡ ok after
      → IsCounted (c ∷ contacts) after
  unfolding spend
  spend-IsCounted now none c contacts rows after by s h =
      subst (IsCounted (c ∷ contacts)) (ok-injective h) (uncarried-IsCounted c contacts rows by s)
  spend-IsCounted now (some i) c contacts rows after by s h =
      let (used, given, rest) = >>=-eq-ok (use_pair_token now i rows) _ h in
      use_pair_token-IsCounted now i c contacts rows after by s
        (given ∙ ap ok (or_fail-ok token_spent used rest))

  admit-IsSound :
      (d : Draw) (caller : ℕ) (a : Arrival) (tokens : List PairToken) (h : Hub)
      → get_contact caller a.agent_id h.contacts ≡ none
      → spend d.now a.token_id h.pair_tokens ≡ ok tokens
      → IsSoundHub h
      → IsSoundHub (admit encode_joined encode_left d caller a tokens h).hub
  unfolding admit tell create_contact
  admit-IsSound d caller a tokens h new spent s = (
    create_contact-IsTidy d.now caller a.agent_id room a.added_via a.token_id h.contacts new s.0,
    spend-IsCounted d.now a.token_id
        (new_contact d.now caller a.agent_id room a.added_via a.token_id) h.contacts h.pair_tokens
        tokens refl s.1 spent,
  )
    where
      room : ℕ
      room = (find_or_create_dm d.now d.room_id caller a.agent_id h.rooms).1

  enter_as-IsSound :
      (d : Draw) (caller : ℕ) (a : Arrival) (found : Option Contact) (h : Hub) (j : Joined)
      → get_contact caller a.agent_id h.contacts ≡ found
      → enter_as encode_joined encode_left d caller a found h ≡ ok j
      → IsSoundHub h
      → IsSoundHub j.hub
  unfolding enter_as rejoin
  enter_as-IsSound d caller a none h j new came s =
      let (tokens, spent, rest) = >>=-eq-ok (spend d.now a.token_id h.pair_tokens) _ came in
      subst (λ k. IsSoundHub k.hub) (ok-injective rest)
        (admit-IsSound d caller a tokens h new spent s)
  enter_as-IsSound d caller a (some c) h j old came s =
      subst (λ k. IsSoundHub k.hub) (ok-injective came)
        (rejoin_if-IsSound (is_some c.blocked_at) d caller a.agent_id c.dm_conversation_id _ h
          (back_in-IsSound (is_some c.removed_at) caller a.agent_id h.contacts h.pair_tokens s))

  replied-IsSound :
      (agent : ℕ) (h : Hub) (came : Result Joined)
      → ((j : Joined) → came ≡ ok j → IsSoundHub j.hub)
      → IsSoundHub h
      → IsSoundHub (replied agent h came).hub
  unfolding replied
  replied-IsSound agent h (err e) keep s = s
  replied-IsSound agent h (ok j) keep s = keep j refl

  pub join-IsSound :
      (d : Draw) (caller : ℕ) (a : Arrival) (h : Hub)
      → IsSoundHub h
      → IsSoundHub (join encode_joined encode_left d caller a h).hub
  unfolding join enter
  join-IsSound d caller a h s =
      replied-IsSound a.agent_id h _ (λ j came. enter_as-IsSound d caller a _ h j refl came s) s

  accept_as-IsSound :
      (d : Draw) (caller : ℕ) (t : Result PairToken) (h : Hub)
      → IsSoundHub h
      → IsSoundHub (accept_as encode_joined encode_left d caller t h).hub
  unfolding accept_as
  accept_as-IsSound d caller (err e) h s = s
  accept_as-IsSound d caller (ok t) h s = join-IsSound d caller (by_code t) h s

  add_as-IsSound :
      (d : Draw) (caller agent : ℕ) (a : Result Agent) (h : Hub)
      → IsSoundHub h
      → IsSoundHub (add_as encode_joined encode_left d caller agent a h).hub
  unfolding add_as
  add_as-IsSound d caller agent (err e) h s = s
  add_as-IsSound d caller agent (ok a) h s = join-IsSound d caller (from_shelf agent) h s

  welcome_as-IsSound :
      (d : Draw) (person agent : ℕ) (found : Option Contact) (h : Hub)
      → get_contact person agent h.contacts ≡ found
      → IsSoundHub h
      → IsSoundHub (welcome_as encode_joined encode_left d person agent found h).hub
  unfolding welcome_as spend
  welcome_as-IsSound d person agent (some c) h e s = s
  welcome_as-IsSound d person agent none h e s =
      admit-IsSound d person (from_hub encode_joined encode_left agent) h.pair_tokens h e refl s

  welcome_by-IsSound :
      (d : Draw) (person : ℕ) (a : Option Agent) (h : Hub)
      → IsSoundHub h
      → IsSoundHub (welcome_by encode_joined encode_left d person a h).hub
  unfolding welcome_by
  welcome_by-IsSound d person none h s = s
  welcome_by-IsSound d person (some a) h s = welcome_as-IsSound d person a.id _ h refl s

  block_as-IsSound :
      (d : Draw) (caller agent : ℕ) (found : Option Contact) (h : Hub)
      → IsSoundHub h
      → IsSoundHub (block_as encode_joined encode_left d caller agent found h).hub
  unfolding block_as move tell
  block_as-IsSound d caller agent none h s = s
  block_as-IsSound d caller agent (some c) h s = elim (Bool-cases (is_some c.blocked_at)) [
    | inl e ↦ rw e s
    | inr e ↦ rw e (shut-IsSound d.now caller agent h.contacts h.pair_tokens s)
  ]

  unblock_as-IsSound :
      (d : Draw) (caller agent : ℕ) (found : Option Contact) (h : Hub)
      → IsSoundHub h
      → IsSoundHub (unblock_as encode_joined encode_left d caller agent found h).hub
  unfolding unblock_as move tell
  unblock_as-IsSound d caller agent none h s = s
  unblock_as-IsSound d caller agent (some c) h s = elim (Bool-cases (is_none c.blocked_at)) [
    | inl e ↦ rw e s
    | inr e ↦ rw e (reopen-IsSound caller agent h.contacts h.pair_tokens s)
  ]

  pub add_from_catalogue-IsSound :
      (d : Draw) (caller agent : ℕ) (h : Hub)
      → IsSoundHub h
      → IsSoundHub (add_from_catalogue encode_joined encode_left d caller agent h).hub
  unfolding add_from_catalogue
  add_from_catalogue-IsSound d caller agent h = add_as-IsSound d caller agent _ h

  pub accept-IsSound :
      (hash : Text → ℕ) (d : Draw) (caller : ℕ) (code : Text) (h : Hub)
      → IsSoundHub h
      → IsSoundHub (accept encode_joined encode_left hash d caller code h).hub
  unfolding accept
  accept-IsSound hash d caller code h = accept_as-IsSound d caller _ h

  pub welcome-IsSound :
      (d : Draw) (handle : Text) (person : ℕ) (h : Hub)
      → IsSoundHub h
      → IsSoundHub (welcome encode_joined encode_left d handle person h).hub
  unfolding welcome
  welcome-IsSound d handle person h = welcome_by-IsSound d person _ h

  pub block-IsSound :
      (d : Draw) (caller agent : ℕ) (h : Hub)
      → IsSoundHub h
      → IsSoundHub (block encode_joined encode_left d caller agent h).hub
  unfolding block
  block-IsSound d caller agent h = block_as-IsSound d caller agent _ h

  pub unblock-IsSound :
      (d : Draw) (caller agent : ℕ) (h : Hub)
      → IsSoundHub h
      → IsSoundHub (unblock encode_joined encode_left d caller agent h).hub
  unfolding unblock
  unblock-IsSound d caller agent h = unblock_as-IsSound d caller agent _ h
