-- ===== src/Pairing/Contacts/Removal.antt =====
-- What `Remove` does, by the door that the agent came through.
use cuckoo.Base.{
  ℕ, ◌≡◌, refl, ap, ◌∙◌, Bool, true, false, ◌&&◌, some, List, [], ◌∷◌, arith, is_some, update,
  find?-test, All, if◌then◌else◌,
}
use cuckoo.Base.Counts.{find?-only, find?-written}
use cuckoo.Domain.Errors.{Result, ok, err, conflict_error, ◌>>=◌, ◌>>◌, refuse_if}
use cuckoo.Agents.Registry.{or_fail}
use cuckoo.Pairing.Contacts.{
  Contact, Door, owner, pair_token, hub, catalogue, contact, get_contact, is_between, is_listed,
  is_owners, is_removable, not_a_contact, remove, remove_contact, take_out,
}
use cuckoo.Pairing.Contacts.Pins.{contact-found}
use cuckoo.Pairing.Contacts.Lists.{IsTidy}

-- A write for rows that no row of the person's is.
kept_as_it_was :
    (now user agent : ℕ) (rows : List Contact)
    → All (λ c. is_between user agent c ≡ true → is_removable c.added_via ≡ false) rows
    → update (λ c. is_listed user agent c && is_removable c.added_via) (take_out now) rows ≡ rows
kept_as_it_was now user agent [] h = refl
kept_as_it_was now user agent (c ∷ rows) h =
    ground (arith, h.0, kept_as_it_was now user agent rows h.1)

remove-found :
    (now user agent : ℕ) (rows : List Contact) (c : Contact)
    → contact user agent rows ≡ ok c
    → remove now user agent rows ≡ (
        refuse_if (is_owners c.added_via) (conflict_error "own_agent")
        >> ok (remove_contact now user agent rows))
unfolding remove
remove-found now user agent rows c found =
    ap
      (λ r. r >>= λ x.
        refuse_if (is_owners x.added_via) (conflict_error "own_agent")
        >> ok (remove_contact now user agent rows))
      found

-- In tidy contacts, an agent that was handed out, by a code or by the hub, leaves the list and
-- then reads as not there; an owner's own is refused; and one from the catalogue stays, with no
-- error.
pub remove_lem :
    (now user agent : ℕ) (rows : List Contact) (c : Contact)
    → IsTidy rows
    → contact user agent rows ≡ ok c
    → (is_owners c.added_via ≡ true → remove now user agent rows ≡ err (conflict_error "own_agent"))
      × (is_removable c.added_via ≡ true
          → (after : List Contact) × (remove now user agent rows ≡ ok after)
            × (contact user agent after ≡ err not_a_contact))
      × (c.added_via ≡ catalogue → remove now user agent rows ≡ ok rows)
unfolding remove_contact contact get_contact
remove_lem now user agent rows c tidy found = (
  (λ own. remove-found now user agent rows c found ∙ ap after_check own),
  (λ out. (
    remove_contact now user agent rows,
    remove-found now user agent rows c found ∙ ap after_check (handed_out c.added_via out),
    ap
        (λ o.
          or_fail not_a_contact o >>= λ x. if is_some x.removed_at then err not_a_contact else ok x)
        (find?-written (is_between user agent)
          (λ x. is_listed user agent x && is_removable x.added_via) (take_out now) (λ _. refl) rows
          (ground (arith, out, row.1, find?-test (is_between user agent) rows c row.0)) row.0),
  )),
  (λ shelf.
      remove-found now user agent rows c found
      ∙ ap
          (λ v.
            refuse_if (is_owners v) (conflict_error "own_agent")
            >> ok (remove_contact now user agent rows))
          shelf
      ∙ ap ok (
          kept_as_it_was now user agent rows (
            find?-only (λ x. is_removable x.added_via ≡ false) (is_between user agent) rows row.0
              (tidy.single user agent) (ap is_removable shelf)))),
)
  where
    row : (get_contact user agent rows ≡ some c) × (is_some c.removed_at ≡ false)
    row = contact-found user agent rows found

    after_check : Bool → Result (List Contact)
    after_check b =
        refuse_if b (conflict_error "own_agent") >> ok (remove_contact now user agent rows)

    handed_out : (v : Door) → is_removable v ≡ true → is_owners v ≡ false
    handed_out owner h = cc
    handed_out pair_token h = refl
    handed_out hub h = refl
    handed_out catalogue h = refl
