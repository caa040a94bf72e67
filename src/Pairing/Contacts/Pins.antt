-- ===== src/Pairing/Contacts/Pins.antt =====
-- The calls of pairing/settings.go keep the table contacts tidy: ten pins a person, among them.
use cuckoo.Base.{
  ℕ, ◌≤◌, ◌<◌, ◌≡◌, ◌∙◌, ap, refl, sym, subst, Bool, true, false, ◌&&◌, Option, some, List, arith,
  inl, inr, update, count, is_some, is_none, ==→eq, All, All-update, ◌==◌, leb, Bool-cases,
}
use cuckoo.Base.Counts.{count-update, count-update-le, count-update-plus, count_mono, find?-only}
use cuckoo.Domain.Errors.{ok, >>=-eq-ok, if-err-ok, ok-injective, refuse_if->>}
use cuckoo.Agents.Registry.{or_fail, or_fail-ok}
use cuckoo.Pairing.Contacts.{
  remove_contact, set_contact_archived, set_contact_muted, Contact, pins_max, is_between, is_listed,
  is_pin_of, pin, set_contact_pinned, set_pinned, not_a_contact, count_pinned_contacts, get_contact,
  contact, set_muted, set_archived, remove, is_over, is_owners,
}
use cuckoo.Pairing.Contacts.Lists.{IsTidy, IsUnpinned}

-- At most one row is written, and it is the person's own.
pins_grow :
    (now user agent who : ℕ) (on : Bool) (rows : List Contact)
    → IsTidy rows
    → count_pinned_contacts user rows < pins_max
    → count_pinned_contacts who (set_contact_pinned now user agent on rows) ≤ pins_max
unfolding count_pinned_contacts set_contact_pinned
pins_grow now user agent who on rows t room = elim (Bool-cases (who == user)) [
  | inl e ↦
      subst (λ i. count (is_pin_of i) (update (is_listed user agent) (pin now on) rows) ≤ pins_max)
        (sym (==→eq who user e))
        (omega (
          arith,
          room,
          t.single user agent,
          count-update-plus (is_pin_of user) (is_listed user agent) (pin now on) rows,
          count_mono (is_between user agent) (is_listed user agent) (λ c p. ground arith) rows,
        ))
  | inr e ↦ omega (
    arith,
    t.pins who,
    count-update-le (is_pin_of who) (is_listed user agent) (pin now on) IsUnpinned
        (λ c p u h. ground arith) rows t.unpinned,
  )
]

-- A row that is pinned already is pinned no more than before.
pins_stay :
    (now user agent who : ℕ) (on : Bool) (rows : List Contact)
    → All (λ c. is_between user agent c ≡ true → (on && is_none c.pinned_at) ≡ false) rows
    → count_pinned_contacts who (set_contact_pinned now user agent on rows)
      ≤ count_pinned_contacts who rows
unfolding count_pinned_contacts set_contact_pinned
pins_stay now user agent who on rows pinned =
    count-update-le (is_pin_of who) (is_listed user agent) (pin now on)
      (λ c. is_between user agent c ≡ true → (on && is_none c.pinned_at) ≡ false)
      (λ c p u h. ground (arith, u)) rows pinned

pinned-IsTidy :
    (now user agent : ℕ) (on : Bool) (rows : List Contact)
    → IsTidy rows
    → ((who : ℕ) → count_pinned_contacts who (set_contact_pinned now user agent on rows) ≤ pins_max)
    → IsTidy (set_contact_pinned now user agent on rows)
unfolding set_contact_pinned
pinned-IsTidy now user agent on rows t pins = record {
  single = λ u a. omega (
    arith,
    t.single u a,
    count-update (is_between u a) (is_listed user agent) (pin now on) (λ _. refl) rows,
  );
  unpinned =
      All-update IsUnpinned (is_listed user agent) (pin now on) rows (λ c p u. ground arith)
        t.unpinned;
  pins = pins;
}

-- What `contact` found: the person's row, which was not removed.
pub contact-found :
    (user agent : ℕ) (rows : List Contact) {c : Contact}
    → contact user agent rows ≡ ok c
    → (get_contact user agent rows ≡ some c) × (is_some c.removed_at ≡ false)
unfolding contact
contact-found user agent rows {c} h =
    let (d, got, rest) = >>=-eq-ok (or_fail not_a_contact (get_contact user agent rows)) _ h in
    let (kept, same) = if-err-ok (is_some d.removed_at) not_a_contact d rest in
    (
      or_fail-ok not_a_contact _ got ∙ ap some same,
      subst (λ e. is_some e.removed_at ≡ false) same kept,
    )

-- Pinning keeps ten pins a person.
pub set_pinned-IsTidy :
    (now user agent : ℕ) (on : Bool) (rows after : List Contact)
    → IsTidy rows
    → set_pinned now user agent on rows ≡ ok after
    → IsTidy after
unfolding set_pinned contact get_contact
set_pinned-IsTidy now user agent on rows after t h =
    let (c, found, rest) = >>=-eq-ok (contact user agent rows) _ h in
    let (free, stored) =
      refuse_if->> (on && is_none c.pinned_at && leb pins_max (count_pinned_contacts user rows)) _ _
        rest in
    subst IsTidy (ok-injective stored) (
      pinned-IsTidy now user agent on rows t (λ who. elim (Bool-cases (on && is_none c.pinned_at)) [
        | inl e ↦ pins_grow now user agent who on rows t (ground arith)
        | inr e ↦ omega (
          arith,
          t.pins who,
          pins_stay now user agent who on rows (
              find?-only (λ d. (on && is_none d.pinned_at) ≡ false) (is_between user agent) rows
                (contact-found user agent rows found).0 (t.single user agent) e),
        )
      ]))

-- What the calls of settings that succeed write.
pub set_muted-eq-ok :
    (now user agent : ℕ) (t : Option ℕ) (rows : List Contact) {after : List Contact}
    → set_muted now user agent t rows ≡ ok after
    → set_contact_muted user agent t rows ≡ after
unfolding set_muted
set_muted-eq-ok now user agent t rows h =
    let (_, _, rest) = >>=-eq-ok (contact user agent rows) _ h in
    ok-injective (refuse_if->> (is_over now t) _ _ rest).1

pub set_archived-eq-ok :
    (now user agent : ℕ) (on : Bool) (rows : List Contact) {after : List Contact}
    → set_archived now user agent on rows ≡ ok after
    → set_contact_archived now user agent on rows ≡ after
unfolding set_archived
set_archived-eq-ok now user agent on rows h =
    ok-injective (>>=-eq-ok (contact user agent rows) _ h).2

pub set_pinned-eq-ok :
    (now user agent : ℕ) (on : Bool) (rows : List Contact) {after : List Contact}
    → set_pinned now user agent on rows ≡ ok after
    → set_contact_pinned now user agent on rows ≡ after
unfolding set_pinned
set_pinned-eq-ok now user agent on rows h =
    let (c, _, rest) = >>=-eq-ok (contact user agent rows) _ h in
    ok-injective
      (refuse_if->> (on && is_none c.pinned_at && leb pins_max (count_pinned_contacts user rows)) _
        _ rest).1

pub remove-eq-ok :
    (now user agent : ℕ) (rows : List Contact) {after : List Contact}
    → remove now user agent rows ≡ ok after
    → remove_contact now user agent rows ≡ after
unfolding remove
remove-eq-ok now user agent rows h =
    let (c, _, rest) = >>=-eq-ok (contact user agent rows) _ h in
    ok-injective (refuse_if->> (is_owners c.added_via) _ _ rest).1
