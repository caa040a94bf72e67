-- ===== src/Pairing/Service/Examples.antt =====
-- Runs of the calls of pairing on small tables.
use cuckoo.Base.{
  ◌==◌, any, any, ℕ, ◌≡◌, refl, Bool, true, false, Option, none, some, List, [], ◌∷◌, All,
}
use cuckoo.Base.Sorting.{sort_by}
use cuckoo.Base.Text.{byte_len, width, Text, codes}
use cuckoo.Domain.Errors.{not_found_error, ok, err, conflict_error}
use cuckoo.Domain.Ids.{has_prefix}
use cuckoo.Agents.Registry.{Agent}
use cuckoo.Conversations.Membership.{agent_in, user_in, Rooms}
use cuckoo.Pairing.Tokens.{lookup, PairToken, TokenInput, new_token, create_token}
use cuckoo.Pairing.Tokens.Uses.{IsTallied}
use cuckoo.Pairing.Contacts.{
  pair_token, Contact, catalogue, contact, get_contact, new_contact, remove, is_removable,
  is_owners, not_a_contact,
}
use cuckoo.Pairing.Contacts.Lists.{IsTidy}
use cuckoo.Pairing.Contacts.Removal.{remove_lem}
use cuckoo.Pairing.Service.{spend, tell, admit, enter, join, Hub, Draw, accept, block, unblock}
use cuckoo.Pairing.Service.Histories.{
  Reachable, started, then_step, minted, accepted, Reachable-uses, Reachable-contacts,
}
use cuckoo.Conversations.Desk.{Desk}
use cuckoo.Pairing.Service.Arrivals.{accept_again, StillThere}
use cuckoo.Pairing.Service.Closed.{block-closes, StartsNothing}
use cuckoo.Pairing.Service.Blocks.{block-unblock, event_of}
use cuckoo.Delivery.Outbox.{conversation_joined, conversation_left}

abbrev joined_text : Option ℕ → Option Text → Text
joined_text none p = codes "{}"
joined_text (some i) p = i ∷ []

abbrev left_text : Text → Text
left_text reason = reason

abbrev shop : Agent
shop = record {
  id = 7;
  owner_user_id = 1;
  handle = codes "shop";
  display_name = codes "Shop";
  description = [];
  created_at = 0;
  updated_at = 0;
  deleted_at = none;
  avatar_media_id = none;
  starters = [];
  private = false;
  listed = true;
  supports_schedules = false;
}

abbrev empty_rooms : Rooms
empty_rooms = record { conversations = []; participants = [] }

abbrev start_hub : Hub
start_hub = record {
  agents = shop ∷ [];
  bindings = [];
  pair_tokens = [];
  contacts = [];
  rooms = empty_rooms;
  deliveries = [];
}

abbrev once : TokenInput
once = record { payload = codes "{}"; max_uses = some 1; expires_in = none }

abbrev any_json : Text → Bool
any_json s = true

-- The code `pair_x`, whose hash is 99.
abbrev hash_of : Text → ℕ
hash_of s = 99

abbrev code : Text
code = codes "pair_x"

abbrev poster : PairToken
poster = new_token 10 20 99 7 (some (codes "{}")) (some 1) 1 none

abbrev with_code : Hub
with_code = record start_hub { pair_tokens = poster ∷ [] }

poster_made : create_token any_json 10 20 99 1 7 once (shop ∷ []) [] ≡ ok (poster ∷ [])
unfolding create_token byte_len width
poster_made = refl

abbrev first_draw : Draw
first_draw = record { now = 30; room_id = 40; event_id = 50 }

abbrev second_draw : Draw
second_draw = record { now = 31; room_id = 41; event_id = 51 }

abbrev after_first : Hub
after_first = (accept joined_text left_text hash_of first_draw 2 code with_code).hub

reach_first : Reachable joined_text left_text after_first
reach_first =
    then_step
      (then_step (started (shop ∷ []) [] empty_rooms [])
        (minted any_json 10 20 99 1 7 once (poster ∷ []) tt refl poster_made))
      (accepted hash_of first_draw 2 code)

Reachable-uses_example : All (IsTallied after_first.contacts) after_first.pair_tokens
Reachable-uses_example = Reachable-uses joined_text left_text reach_first

Reachable-contacts_example : IsTidy after_first.contacts
Reachable-contacts_example = Reachable-contacts joined_text left_text reach_first

-- The code has given up its only use: the second person is refused.
second_refused :
    (accept joined_text left_text hash_of second_draw 3 code after_first).answer
    ≡ err (not_found_error "token_spent")
unfolding sort_by accept join enter admit tell spend lookup has_prefix get_contact
second_refused = refl

first_let_in :
    (accept joined_text left_text hash_of first_draw 2 code with_code).answer
    ≡ ok (record { conversation_id = 40; is_new = true })
unfolding sort_by accept join enter admit tell spend lookup has_prefix get_contact
first_let_in = refl

first_looked : lookup hash_of 30 code (shop ∷ []) (poster ∷ []) ≡ ok poster
unfolding lookup has_prefix
first_looked = refl

abbrev spent_poster : PairToken
spent_poster = record poster { use_count = 1 }

again_looked : lookup hash_of 31 code after_first.agents after_first.pair_tokens ≡ ok spent_poster
unfolding sort_by accept join enter admit tell spend lookup has_prefix get_contact
again_looked = refl

abbrev row : Contact
row = new_contact 30 2 7 40 pair_token (some 20)

row_found : get_contact 2 7 after_first.contacts ≡ some row
unfolding sort_by accept join enter admit tell spend lookup has_prefix get_contact
row_found = refl

abbrev unchanged : StillThere row row
unchanged = record { kept = refl; free = refl; through = refl }

room_there : any (λ c. c.id == 40) after_first.rooms.conversations ≡ true
unfolding sort_by accept join enter admit tell spend lookup has_prefix get_contact
room_there = refl

-- An event has been settled in between.
abbrev after_settled : Hub
after_settled = record after_first { deliveries = [] }

accept_again_example :
    accept joined_text left_text hash_of second_draw 2 code after_settled ≡ record {
      hub = after_settled;
      nudged = [];
      answer = ok (record { conversation_id = 40; is_new = false });
    }
accept_again_example =
    accept_again joined_text left_text hash_of first_draw second_draw 2 code code with_code
      after_settled poster spent_poster (record { conversation_id = 40; is_new = true }) row row
      first_looked first_let_in row_found again_looked refl row_found unchanged room_there

block-unblock_example :
    (unblock joined_text left_text second_draw 2 7
      (block joined_text left_text first_draw 2 7 after_first).hub).hub
    ≡ record after_first {
      deliveries =
          event_of second_draw 7 40 conversation_joined (joined_text none none) after_first
          ∷ event_of first_draw 7 40 conversation_left
              (left_text (codes "user_blocked"))
              after_first
          ∷ after_first.deliveries;
    }
block-unblock_example =
    block-unblock joined_text left_text first_draw second_draw 2 7 after_first row
      Reachable-contacts_example row_found refl

person_there : user_in 2 40 after_first.rooms.participants ≡ true
unfolding sort_by accept join enter admit tell spend lookup has_prefix get_contact
person_there = refl

agent_there : agent_in 7 40 after_first.rooms.participants ≡ true
unfolding sort_by accept join enter admit tell spend lookup has_prefix get_contact
agent_there = refl

abbrev open_desk : Desk
open_desk = record {
  rooms = after_first.rooms;
  contacts = after_first.contacts;
  bindings = [];
  messages = [];
  media = [];
  schedules = [];
  deliveries = [];
}

block-closes_example : StartsNothing 2 7 40 (record open_desk {
  contacts = (block joined_text left_text first_draw 2 7 after_first).hub.contacts;
})
block-closes_example =
    block-closes joined_text left_text first_draw 2 7 after_first row open_desk row_found room_there
      person_there agent_there

row_kept : contact 2 7 after_first.contacts ≡ ok row
unfolding sort_by accept join enter admit tell spend lookup has_prefix get_contact contact
row_kept = refl

remove_lem_example :
    (is_owners pair_token ≡ true
      → remove 60 2 7 after_first.contacts ≡ err (conflict_error "own_agent"))
    × (is_removable pair_token ≡ true
        → (after : List Contact) × (remove 60 2 7 after_first.contacts ≡ ok after)
          × (contact 2 7 after ≡ err not_a_contact))
    × (pair_token ≡ catalogue → remove 60 2 7 after_first.contacts ≡ ok after_first.contacts)
remove_lem_example = remove_lem 60 2 7 after_first.contacts row Reachable-contacts_example row_kept

-- Someone who took the agent from the catalogue cannot be rid of it: nothing says so.
abbrev from_catalogue : List Contact
from_catalogue = new_contact 30 2 7 40 catalogue none ∷ []

catalogue_stays : remove 60 2 7 from_catalogue ≡ ok from_catalogue
unfolding remove
catalogue_stays = refl
