-- ===== src/Pairing/Service/Settings.antt =====
-- The calls of pairing/settings.go, and the contact that an owner is given, keep the two tables sound.
use cuckoo.Base.{
  ℕ, ◌≡◌, refl, sym, subst, ap, is_none, ◌==◌, ◌&&◌, Bool, Option, none, List, update,
}
use cuckoo.Base.Counts.{count-update}
use cuckoo.Domain.Errors.{ok}
use cuckoo.Conversations.Membership.{is_key}
use cuckoo.Pairing.Tokens.{PairToken}
use cuckoo.Pairing.Tokens.Uses.{carries, IsCounted-contacts, uncarried-IsCounted}
use cuckoo.Pairing.Contacts.{
  owner, set_contact_muted, set_contact_archived, set_contact_pinned, remove_contact, is_listed,
  mute_until, archive, pin, take_out, is_removable, Contact, get_contact, set_muted, set_pinned,
  set_archived, remove, remove_all_contacts, create_contact, new_contact,
}
use cuckoo.Pairing.Contacts.Lists.{
  IsTidy, create_contact-IsTidy, remove_all_contacts-IsTidy, set_contact_muted-IsTidy,
  set_contact_archived-IsTidy, remove_contact-IsTidy,
}
use cuckoo.Pairing.Contacts.Pins.{
  set_muted-eq-ok, set_archived-eq-ok, set_pinned-eq-ok, remove-eq-ok, set_pinned-IsTidy,
}
use cuckoo.Pairing.Service.Steps.{IsSound}

-- A write that a call of pairing/settings.go makes keeps the codes of the contacts.
written-IsSound :
    (p : Contact → Bool) (f : Contact → Contact) (rows : List Contact) (tokens : List PairToken)
    → ((c : Contact) → (f c).pair_token_id ≡ c.pair_token_id)
    → IsTidy (update p f rows)
    → IsSound rows tokens
    → IsSound (update p f rows) tokens
written-IsSound p f rows tokens same tidy s = (
  tidy,
  IsCounted-contacts rows (update p f rows) tokens
      (λ i. count-update (carries i) p f (λ c. ap (is_key i) (same c)) rows) s.1,
)

pub set_muted-IsSound :
    (now user agent : ℕ) (t : Option ℕ) (rows after : List Contact) (tokens : List PairToken)
    → IsSound rows tokens
    → set_muted now user agent t rows ≡ ok after
    → IsSound after tokens
unfolding set_contact_muted
set_muted-IsSound now user agent t rows after tokens s h =
    subst (λ r. IsSound r tokens) (set_muted-eq-ok now user agent t rows h)
      (written-IsSound (is_listed user agent) (mute_until t) rows tokens (λ _. refl)
        (set_contact_muted-IsTidy user agent t rows s.0) s)

pub set_archived-IsSound :
    (now user agent : ℕ) (on : Bool) (rows after : List Contact) (tokens : List PairToken)
    → IsSound rows tokens
    → set_archived now user agent on rows ≡ ok after
    → IsSound after tokens
unfolding set_contact_archived
set_archived-IsSound now user agent on rows after tokens s h =
    subst (λ r. IsSound r tokens) (set_archived-eq-ok now user agent on rows h)
      (written-IsSound (is_listed user agent) (archive now on) rows tokens (λ _. refl)
        (set_contact_archived-IsTidy now user agent on rows s.0) s)

pub set_pinned-IsSound :
    (now user agent : ℕ) (on : Bool) (rows after : List Contact) (tokens : List PairToken)
    → IsSound rows tokens
    → set_pinned now user agent on rows ≡ ok after
    → IsSound after tokens
unfolding set_contact_pinned
set_pinned-IsSound now user agent on rows after tokens s h =
    let same = set_pinned-eq-ok now user agent on rows h in
    subst (λ r. IsSound r tokens) same
      (written-IsSound (is_listed user agent) (pin now on) rows tokens (λ _. refl)
        (subst IsTidy (sym same) (set_pinned-IsTidy now user agent on rows after s.0 h)) s)

pub remove-IsSound :
    (now user agent : ℕ) (rows after : List Contact) (tokens : List PairToken)
    → IsSound rows tokens
    → remove now user agent rows ≡ ok after
    → IsSound after tokens
unfolding remove_contact
remove-IsSound now user agent rows after tokens s h =
    subst (λ r. IsSound r tokens) (remove-eq-ok now user agent rows h)
      (written-IsSound (λ c. is_listed user agent c && is_removable c.added_via) (take_out now) rows
        tokens (λ _. refl) (remove_contact-IsTidy now user agent rows s.0) s)

pub remove_all-IsSound :
    (now user : ℕ) (rows : List Contact) (tokens : List PairToken)
    → IsSound rows tokens
    → IsSound (remove_all_contacts now user rows) tokens
unfolding remove_all_contacts
remove_all-IsSound now user rows tokens s =
    written-IsSound (λ c. c.user_id == user && is_none c.removed_at) (take_out now) rows tokens
      (λ _. refl) (remove_all_contacts-IsTidy now user rows s.0) s

-- The contact that an agent's owner is given with it.
pub own-IsSound :
    (now user agent room : ℕ) (rows : List Contact) (tokens : List PairToken)
    → get_contact user agent rows ≡ none
    → IsSound rows tokens
    → IsSound (create_contact (new_contact now user agent room owner none) rows) tokens
unfolding create_contact
own-IsSound now user agent room rows tokens new s = (
  create_contact-IsTidy now user agent room owner none rows new s.0,
  uncarried-IsCounted (new_contact now user agent room owner none) rows tokens refl s.1,
)
