-- ===== src/Pairing/Cards.antt =====
-- `Resolve`, `Catalogue` and the card of pairing/service.go: what a person sees of an agent before
-- adding it. Nothing is written.
use cuckoo.Base.{
  ℕ, Bool, true, false, ◌&&◌, ◌||◌, not, Option, none, some, List, [], ◌∷◌, ◌==◌, ltb, is_some,
  if◌then◌else◌,
}
use cuckoo.Base.Text.{Text}
use cuckoo.Domain.Errors.{Result, ok, err, ◌>>=◌, ◌>>◌, refuse_if}
use cuckoo.Agents.Bindings.{Binding, Status, get_active_binding}
use cuckoo.Agents.Registry.{Agent, get, list_catalogue}
use cuckoo.Users.{User, find_user}
use cuckoo.Pairing.Tokens.{lookup, spent, token_spent}
use cuckoo.Pairing.Contacts.{Contact, get_contact}
use cuckoo.Pairing.Service.{Hub}

abbrev pub catalogue_max : ℕ
catalogue_max = 100

pub record Card : Type 0 where
  pub agent : Agent
  pub owner_name : Text
  pub status : Option Status
  pub already_added : Bool
  pub conversation_id : Option ℕ
  pub blocked : Bool

-- The health of the binding, or none with no backend connected.
abbrev pub health : Option Binding → Option Status
health none = none
health (some b) = some b.status

abbrev pub blank_card : Agent → Text → Option Status → Card
blank_card a name s = record {
  agent = a;
  owner_name = name;
  status = s;
  already_added = false;
  conversation_id = none;
  blocked = false;
}

-- A contact that the person removed reads as not added.
abbrev pub with_contact : Option Contact → Card → Card
with_contact none card = card
with_contact (some c) card = if is_some c.removed_at then card else record card {
  already_added = true;
  conversation_id = some c.dm_conversation_id;
  blocked = is_some c.blocked_at;
}

-- A caller without an account is `none`.
abbrev pub contact_of : Option ℕ → ℕ → List Contact → Option Contact
contact_of none agent rows = none
contact_of (some caller) agent rows = get_contact caller agent rows

pub card : Option ℕ → ℕ → List User → Hub → Result Card
card caller agent users h = get agent h.agents >>= λ a. find_user a.owner_user_id users >>= λ owner.
    ok (
      with_contact (contact_of caller agent h.contacts)
        (blank_card a owner.display_name (health (get_active_binding agent h.bindings))))

pub resolve : (Text → ℕ) → ℕ → Option ℕ → Text → List User → Hub → Result Card
unfolding card
resolve hash now caller code users h = lookup hash now code h.agents h.pair_tokens >>= λ t.
    card caller t.agent_id users h >>= λ shown.
    refuse_if (not shown.already_added && spent t) token_spent >> ok shown

-- The cards that can be shown, in order.
pub cards : Option ℕ → List Agent → List User → Hub → List Card
unfolding card
cards caller [] users h = []
cards caller (a ∷ rows) users h =
    let rest = cards caller rows users h in
    elim (card caller a.id users h) [ err _ ↦ rest | ok shown ↦ shown ∷ rest ]

pub catalogue_limit : ℕ → ℕ
catalogue_limit n = if n == 0 || ltb catalogue_max n then catalogue_max else n

-- `Catalogue`
pub catalogue : Option ℕ → ℕ → List User → Hub → List Card
unfolding cards catalogue_limit
catalogue caller limit users h =
    cards caller (list_catalogue (catalogue_limit limit) h.agents) users h
