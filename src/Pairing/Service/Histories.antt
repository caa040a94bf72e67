-- ===== src/Pairing/Service/Histories.antt =====
-- Every history of the calls that write codes and contacts, one call after the other, from tables
-- without any. What other parts of the hub write is any change of the other tables.
use cuckoo.Base.{ℕ, ◌≡◌, Bool, Option, none, List, [], count, Avoids, All}
use cuckoo.Base.Text.{Text}
use cuckoo.Domain.Errors.{ok}
use cuckoo.Agents.Bindings.{Binding}
use cuckoo.Agents.Registry.{Agent}
use cuckoo.Delivery.Outbox.{Delivery}
use cuckoo.Conversations.Membership.{Rooms}
use cuckoo.Pairing.Tokens.{PairToken, TokenInput, create_token, revoke_token}
use cuckoo.Pairing.Tokens.Uses.{
  carries, token_ids, IsTallied, create_token-IsCounted, revoke_token-IsCounted,
}
use cuckoo.Pairing.Contacts.{
  Contact, owner, get_contact, set_muted, set_pinned, set_archived, remove, remove_all_contacts,
  create_contact, new_contact,
}
use cuckoo.Pairing.Contacts.Lists.{IsTidy, nil-IsTidy}
use cuckoo.Pairing.Service.{Hub, Draw, accept, add_from_catalogue, block, unblock, welcome}
use cuckoo.Pairing.Service.Settings.{
  set_muted-IsSound, set_archived-IsSound, set_pinned-IsSound, remove-IsSound, remove_all-IsSound,
  own-IsSound,
}
use cuckoo.Pairing.Service.Steps.{
  IsSoundHub, accept-IsSound, add_from_catalogue-IsSound, welcome-IsSound, block-IsSound,
  unblock-IsSound,
}

module _ (encode_joined : Option ℕ → Option Text → Text) (encode_left : Text → Text) where
  -- One call. `made` is the contact that an agent's owner is given with the agent, and `elsewhere` what
  -- other parts write.
  pub data Step : Hub → Hub → Type 0 where
    minted :
        {h : Hub} (json_valid : Text → Bool) (now i hash caller agent : ℕ) (input : TokenInput)
        (after : List PairToken)
        → Avoids i (token_ids h.pair_tokens)
        → count (carries i) h.contacts ≡ 0
        → create_token json_valid now i hash caller agent input h.agents h.pair_tokens ≡ ok after
        → Step h (record h { pair_tokens = after })
    withdrawn :
        {h : Hub} (now caller agent i : ℕ) (after : List PairToken)
        → revoke_token now caller agent i h.agents h.pair_tokens ≡ ok after
        → Step h (record h { pair_tokens = after })
    accepted :
        {h : Hub} (hash : Text → ℕ) (d : Draw) (caller : ℕ) (code : Text)
        → Step h (accept encode_joined encode_left hash d caller code h).hub
    added :
        {h : Hub} (d : Draw) (caller agent : ℕ)
        → Step h (add_from_catalogue encode_joined encode_left d caller agent h).hub
    welcomed :
        {h : Hub} (d : Draw) (handle : Text) (person : ℕ)
        → Step h (welcome encode_joined encode_left d handle person h).hub
    blocked :
        {h : Hub} (d : Draw) (caller agent : ℕ)
        → Step h (block encode_joined encode_left d caller agent h).hub
    unblocked :
        {h : Hub} (d : Draw) (caller agent : ℕ)
        → Step h (unblock encode_joined encode_left d caller agent h).hub
    muted :
        {h : Hub} (now caller agent : ℕ) (t : Option ℕ) (after : List Contact)
        → set_muted now caller agent t h.contacts ≡ ok after
        → Step h (record h { contacts = after })
    pinned :
        {h : Hub} (now caller agent : ℕ) (on : Bool) (after : List Contact)
        → set_pinned now caller agent on h.contacts ≡ ok after
        → Step h (record h { contacts = after })
    archived :
        {h : Hub} (now caller agent : ℕ) (on : Bool) (after : List Contact)
        → set_archived now caller agent on h.contacts ≡ ok after
        → Step h (record h { contacts = after })
    removed :
        {h : Hub} (now caller agent : ℕ) (after : List Contact)
        → remove now caller agent h.contacts ≡ ok after
        → Step h (record h { contacts = after })
    left :
        {h : Hub} (now caller : ℕ)
        → Step h (record h { contacts = remove_all_contacts now caller h.contacts })
    made :
        {h : Hub} (now caller agent room : ℕ)
        → get_contact caller agent h.contacts ≡ none
        → Step h (record h {
          contacts = create_contact (new_contact now caller agent room owner none) h.contacts;
        })
    elsewhere :
        {h : Hub} (agents : List Agent) (bindings : List Binding) (rooms : Rooms)
        (deliveries : List Delivery)
        → Step h (record h {
          agents = agents;
          bindings = bindings;
          rooms = rooms;
          deliveries = deliveries;
        })

  pub data Reachable : Hub → Type 0 where
    started :
        (agents : List Agent) (bindings : List Binding) (rooms : Rooms) (deliveries : List Delivery)
        → Reachable (record {
          agents = agents;
          bindings = bindings;
          pair_tokens = [];
          contacts = [];
          rooms = rooms;
          deliveries = deliveries;
        })
    then_step : {h after : Hub} → Reachable h → Step h after → Reachable after

  step-IsSound : {h after : Hub} → Step h after → IsSoundHub h → IsSoundHub after
  step-IsSound {h} (minted json_valid now i hash caller agent input after fresh none_yet e) s = (
    s.0,
    create_token-IsCounted json_valid now i hash caller agent input h.agents h.contacts
        h.pair_tokens after fresh none_yet s.1 e,
  )
  step-IsSound {h} (withdrawn now caller agent i after e) s =
      (s.0, revoke_token-IsCounted now caller agent i h.agents h.contacts h.pair_tokens after s.1 e)
  step-IsSound {h} (accepted hash d caller code) s =
      accept-IsSound encode_joined encode_left hash d caller code h s
  step-IsSound {h} (added d caller agent) s =
      add_from_catalogue-IsSound encode_joined encode_left d caller agent h s
  step-IsSound {h} (welcomed d handle person) s =
      welcome-IsSound encode_joined encode_left d handle person h s
  step-IsSound {h} (blocked d caller agent) s =
      block-IsSound encode_joined encode_left d caller agent h s
  step-IsSound {h} (unblocked d caller agent) s =
      unblock-IsSound encode_joined encode_left d caller agent h s
  step-IsSound {h} (muted now caller agent t after e) s =
      set_muted-IsSound now caller agent t h.contacts after h.pair_tokens s e
  step-IsSound {h} (pinned now caller agent on after e) s =
      set_pinned-IsSound now caller agent on h.contacts after h.pair_tokens s e
  step-IsSound {h} (archived now caller agent on after e) s =
      set_archived-IsSound now caller agent on h.contacts after h.pair_tokens s e
  step-IsSound {h} (removed now caller agent after e) s =
      remove-IsSound now caller agent h.contacts after h.pair_tokens s e
  step-IsSound {h} (left now caller) s = remove_all-IsSound now caller h.contacts h.pair_tokens s
  step-IsSound {h} (made now caller agent room e) s =
      own-IsSound now caller agent room h.contacts h.pair_tokens e s
  step-IsSound {h} (elsewhere agents bindings rooms deliveries) s = s

  Reachable-IsSound : {h : Hub} → Reachable h → IsSoundHub h
  Reachable-IsSound (started agents bindings rooms deliveries) = (nil-IsTidy, (tt, tt))
  Reachable-IsSound (then_step r s) = step-IsSound s (Reachable-IsSound r)

  -- In every state that the calls of pairing reach, one after the other, the uses of each code are
  -- the contacts that came by it, and no more than it has.
  pub Reachable-uses : {h : Hub} → Reachable h → All (IsTallied h.contacts) h.pair_tokens
  Reachable-uses r = (Reachable-IsSound r).1.1

  -- In every state that the calls of pairing reach, one after the other, a person has one row for
  -- an agent at most and ten pinned chats at most, and a row that was removed is not pinned.
  pub Reachable-contacts : {h : Hub} → Reachable h → IsTidy h.contacts
  Reachable-contacts r = (Reachable-IsSound r).0
