-- ===== src/Pairing/Contacts.antt =====
-- The table contacts and its queries, store/gen/pairing.sql.go, and pairing/settings.go: what a person
-- decides about an agent in their list. Times are nanoseconds, and one `now` serves a call.
pub mod Lists
pub mod Pins
pub mod Removal
use cuckoo.Base.{
  ℕ, Bool, true, false, ◌&&◌, ◌||◌, Option, none, some, List, ◌∷◌, ◌==◌, ltb, leb, is_none, is_some,
  if◌then◌else◌, find?, update, any, count, filter,
}
use cuckoo.Base.Sorting.{sort_by}
use cuckoo.Domain.Errors.{
  Error, Result, ok, err, invalid_field, forbidden_error, not_found_error, conflict_error, ◌>>=◌,
  ◌>>◌, refuse_if,
}
use cuckoo.Agents.Registry.{or_fail}
use cuckoo.Conversations.Membership.{Participant, user_in, agent_in}

abbrev pub pins_max : ℕ
pins_max = 10

-- The words that the column `added_via` may hold.
pub data Door : Type 0 where
  owner pair_token hub catalogue : Door

pub record Contact : Type 0 where
  pub user_id : ℕ
  pub agent_id : ℕ
  pub dm_conversation_id : ℕ
  pub added_via : Door
  pub pair_token_id : Option ℕ
  pub blocked_at : Option ℕ
  pub created_at : ℕ
  pub muted_until : Option ℕ
  pub pinned_at : Option ℕ
  pub archived_at : Option ℕ
  pub removed_at : Option ℕ

-- `CreateContact`; the columns that it does not name take their defaults.
abbrev pub new_contact : ℕ → ℕ → ℕ → ℕ → Door → Option ℕ → Contact
new_contact now user agent room door token = record {
  user_id = user;
  agent_id = agent;
  dm_conversation_id = room;
  added_via = door;
  pair_token_id = token;
  blocked_at = none;
  created_at = now;
  muted_until = none;
  pinned_at = none;
  archived_at = none;
  removed_at = none;
}

unfoldable pub create_contact : Contact → List Contact → List Contact
create_contact c rows = c ∷ rows

-- user_id = $1 AND agent_id = $2
abbrev pub is_between : ℕ → ℕ → Contact → Bool
is_between user agent c = c.user_id == user && c.agent_id == agent

unfoldable pub get_contact : ℕ → ℕ → List Contact → Option Contact
get_contact user agent = find? (is_between user agent)

-- AND removed_at IS NULL
abbrev pub is_listed : ℕ → ℕ → Contact → Bool
is_listed user agent c = is_between user agent c && is_none c.removed_at

-- AND removed_at IS NOT NULL
abbrev pub is_gone : ℕ → ℕ → Contact → Bool
is_gone user agent c = is_between user agent c && is_some c.removed_at

abbrev pub bring_back : Contact → Contact
bring_back c = record c { removed_at = none }

unfoldable pub restore_contact : ℕ → ℕ → List Contact → List Contact
restore_contact user agent = update (is_gone user agent) bring_back

-- AND blocked_at IS NOT NULL
abbrev pub is_blocked : ℕ → ℕ → Contact → Bool
is_blocked user agent c = is_between user agent c && is_some c.blocked_at

abbrev pub reopen : Contact → Contact
reopen c = record c { blocked_at = none }

unfoldable pub clear_contact_blocked : ℕ → ℕ → List Contact → List Contact
clear_contact_blocked user agent = update (is_blocked user agent) reopen

-- AND blocked_at IS NULL
abbrev pub is_unblocked : ℕ → ℕ → Contact → Bool
is_unblocked user agent c = is_between user agent c && is_none c.blocked_at

abbrev pub shut : ℕ → Contact → Contact
shut now c = record c { blocked_at = some now }

unfoldable pub set_contact_blocked : ℕ → ℕ → ℕ → List Contact → List Contact
set_contact_blocked now user agent = update (is_unblocked user agent) (shut now)

abbrev pub mute_until : Option ℕ → Contact → Contact
mute_until t c = record c { muted_until = t }

unfoldable pub set_contact_muted : ℕ → ℕ → Option ℕ → List Contact → List Contact
set_contact_muted user agent t = update (is_listed user agent) (mute_until t)

-- CASE WHEN $3 THEN COALESCE(at, now()) ELSE NULL END
abbrev pub mark_at : ℕ → Bool → Option ℕ → Option ℕ
mark_at now false t = none
mark_at now true none = some now
mark_at now true (some t) = some t

abbrev pub pin : ℕ → Bool → Contact → Contact
pin now on c = record c { pinned_at = mark_at now on c.pinned_at }

unfoldable pub set_contact_pinned : ℕ → ℕ → ℕ → Bool → List Contact → List Contact
set_contact_pinned now user agent on = update (is_listed user agent) (pin now on)

abbrev pub archive : ℕ → Bool → Contact → Contact
archive now on c = record c { archived_at = mark_at now on c.archived_at }

unfoldable pub set_contact_archived : ℕ → ℕ → ℕ → Bool → List Contact → List Contact
set_contact_archived now user agent on = update (is_listed user agent) (archive now on)

-- added_via IN ('pair_token', 'hub')
abbrev pub is_removable : Door → Bool
is_removable owner = false
is_removable pair_token = true
is_removable hub = true
is_removable catalogue = false

abbrev pub take_out : ℕ → Contact → Contact
take_out now c = record c {
  muted_until = none;
  pinned_at = none;
  archived_at = none;
  removed_at = some now;
}

unfoldable pub remove_contact : ℕ → ℕ → ℕ → List Contact → List Contact
remove_contact now user agent =
    update (λ c. is_listed user agent c && is_removable c.added_via) (take_out now)

unfoldable pub remove_all_contacts : ℕ → ℕ → List Contact → List Contact
remove_all_contacts now user =
    update (λ c. c.user_id == user && is_none c.removed_at) (take_out now)

-- user_id = $1 AND pinned_at IS NOT NULL AND removed_at IS NULL
abbrev pub is_pin_of : ℕ → Contact → Bool
is_pin_of user c = c.user_id == user && is_some c.pinned_at && is_none c.removed_at

pub count_pinned_contacts : ℕ → List Contact → ℕ
count_pinned_contacts user = count (is_pin_of user)

-- ORDER BY c.created_at DESC, c.agent_id
abbrev pub contact_newer : Contact → Contact → Bool
contact_newer c d =
    ltb d.created_at c.created_at || (c.created_at == d.created_at && leb c.agent_id d.agent_id)

-- What `ListContacts` reads of the table itself.
pub list_contacts : ℕ → List Contact → List Contact
list_contacts user rows =
    sort_by contact_newer (filter (λ c. c.user_id == user && is_none c.removed_at) rows)

-- Someone in the conversation has blocked an agent in it.
unfoldable pub is_conversation_blocked : ℕ → List Participant → List Contact → Bool
is_conversation_blocked room members = any (λ c.
    is_some c.blocked_at && user_in c.user_id room members && agent_in c.agent_id room members)

-- `ensureOpen` of conversations/membership.go
unfoldable pub ensure_open : ℕ → List Participant → List Contact → Result (Unit {0})
unfolding is_conversation_blocked
ensure_open room members rows =
    refuse_if (is_conversation_blocked room members rows) (forbidden_error "blocked")

abbrev pub not_a_contact : Error
not_a_contact = not_found_error "not_a_contact"

-- `contact`: the row, where it was not removed.
unfoldable pub contact : ℕ → ℕ → List Contact → Result Contact
unfolding get_contact
contact user agent rows = or_fail not_a_contact (get_contact user agent rows) >>= λ c.
    if is_some c.removed_at then err not_a_contact else ok c

-- until != nil && !until.After(now)
abbrev pub is_over : ℕ → Option ℕ → Bool
is_over now none = false
is_over now (some t) = leb t now

pub set_muted : ℕ → ℕ → ℕ → Option ℕ → List Contact → Result (List Contact)
unfolding contact set_contact_muted
set_muted now user agent t rows = contact user agent rows >>= λ _.
    refuse_if (is_over now t) (invalid_field "muted_until" "invalid_muted_until")
    >> ok (set_contact_muted user agent t rows)

pub set_pinned : ℕ → ℕ → ℕ → Bool → List Contact → Result (List Contact)
unfolding contact set_contact_pinned count_pinned_contacts
set_pinned now user agent on rows = contact user agent rows >>= λ c.
    refuse_if (on && is_none c.pinned_at && leb pins_max (count_pinned_contacts user rows))
      (conflict_error "too_many_pins")
    >> ok (set_contact_pinned now user agent on rows)

pub set_archived : ℕ → ℕ → ℕ → Bool → List Contact → Result (List Contact)
unfolding contact set_contact_archived
set_archived now user agent on rows =
    contact user agent rows >>= λ _. ok (set_contact_archived now user agent on rows)

-- c.AddedVia == "owner"
abbrev pub is_owners : Door → Bool
is_owners owner = true
is_owners _ = false

unfoldable pub remove : ℕ → ℕ → ℕ → List Contact → Result (List Contact)
unfolding contact remove_contact
remove now user agent rows = contact user agent rows >>= λ c.
    refuse_if (is_owners c.added_via) (conflict_error "own_agent")
    >> ok (remove_contact now user agent rows)
