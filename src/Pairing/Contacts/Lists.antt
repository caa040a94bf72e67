-- ===== src/Pairing/Contacts/Lists.antt =====
-- What every call keeps of the table contacts.
use cuckoo.Base.{
  [], ℕ, ◌≤◌, ◌≡◌, refl, subst, Bool, true, false, ◌&&◌, Option, none, List, arith, inl, inr,
  update, count, find?, is_some, All, All-update, Bool-cases,
}
use cuckoo.Base.Counts.{count-update, count-update-le, find?-none}
use cuckoo.Pairing.Contacts.{
  Contact, Door, pins_max, is_between, is_listed, is_gone, is_pin_of, bring_back, take_out,
  restore_contact, remove_contact, remove_all_contacts, count_pinned_contacts, get_contact,
  create_contact, new_contact, clear_contact_blocked, set_contact_blocked, set_contact_muted,
  set_contact_archived, is_blocked, is_unblocked, reopen, shut, mute_until, archive,
}

abbrev pub IsUnpinned : Contact → Type 0
IsUnpinned c = (is_some c.removed_at && is_some c.pinned_at) ≡ false

-- One row between a person and an agent at most, a removed row is not pinned, and ten pins a person.
pub record IsTidy (rows : List Contact) : Type 0 where
  pub single : (user agent : ℕ) → count (is_between user agent) rows ≤ 1
  pub unpinned : All IsUnpinned rows
  pub pins : (user : ℕ) → count_pinned_contacts user rows ≤ pins_max

pub nil-IsTidy : IsTidy []
unfolding count_pinned_contacts
nil-IsTidy = record { single = λ _ _. omega arith; unpinned = tt; pins = λ _. omega arith }

-- A write that keeps who a row is between, and pins nothing.
pub update-IsTidy :
    (p : Contact → Bool) (f : Contact → Contact)
    → ((user agent : ℕ) (c : Contact) → is_between user agent (f c) ≡ is_between user agent c)
    → ((c : Contact) → p c ≡ true → IsUnpinned c → IsUnpinned (f c))
    → ((user : ℕ) (c : Contact)
        → p c ≡ true
        → IsUnpinned c
        → is_pin_of user (f c) ≡ true
        → is_pin_of user c ≡ true)
    → (rows : List Contact) → IsTidy rows
    → IsTidy (update p f rows)
unfolding count_pinned_contacts
update-IsTidy p f between clean back rows t = record {
  single = λ user agent. omega (
    arith,
    count-update (is_between user agent) p f (between user agent) rows,
    t.single user agent,
  );
  unpinned = All-update IsUnpinned p f rows clean t.unpinned;
  pins = λ user. omega (
    arith,
    count-update-le (is_pin_of user) p f IsUnpinned (back user) rows t.unpinned,
    t.pins user,
  );
}

pub restore_contact-IsTidy :
    (user agent : ℕ) (rows : List Contact) → IsTidy rows → IsTidy (restore_contact user agent rows)
unfolding restore_contact
restore_contact-IsTidy user agent =
    update-IsTidy (is_gone user agent) bring_back (λ _ _ _. refl) (λ c p u. ground arith)
      (λ who c p u h. ground arith)

pub clear_contact_blocked-IsTidy :
    (user agent : ℕ) (rows : List Contact)
    → IsTidy rows
    → IsTidy (clear_contact_blocked user agent rows)
unfolding clear_contact_blocked
clear_contact_blocked-IsTidy user agent =
    update-IsTidy (is_blocked user agent) reopen (λ _ _ _. refl) (λ c p u. u) (λ who c p u h. h)

pub set_contact_blocked-IsTidy :
    (now user agent : ℕ) (rows : List Contact)
    → IsTidy rows
    → IsTidy (set_contact_blocked now user agent rows)
unfolding set_contact_blocked
set_contact_blocked-IsTidy now user agent =
    update-IsTidy (is_unblocked user agent) (shut now) (λ _ _ _. refl) (λ c p u. u)
      (λ who c p u h. h)

pub set_contact_muted-IsTidy :
    (user agent : ℕ) (t : Option ℕ) (rows : List Contact)
    → IsTidy rows
    → IsTidy (set_contact_muted user agent t rows)
unfolding set_contact_muted
set_contact_muted-IsTidy user agent t =
    update-IsTidy (is_listed user agent) (mute_until t) (λ _ _ _. refl) (λ c p u. u)
      (λ who c p u h. h)

pub set_contact_archived-IsTidy :
    (now user agent : ℕ) (on : Bool) (rows : List Contact)
    → IsTidy rows
    → IsTidy (set_contact_archived now user agent on rows)
unfolding set_contact_archived
set_contact_archived-IsTidy now user agent on =
    update-IsTidy (is_listed user agent) (archive now on) (λ _ _ _. refl) (λ c p u. u)
      (λ who c p u h. h)

-- Rows that are taken out.
take_out-IsTidy :
    (now : ℕ) (p : Contact → Bool) (rows : List Contact)
    → IsTidy rows
    → IsTidy (update p (take_out now) rows)
take_out-IsTidy now p =
    update-IsTidy p (take_out now) (λ _ _ _. refl) (λ c q u. refl) (λ who c q u h. ground arith)

pub remove_contact-IsTidy :
    (now user agent : ℕ) (rows : List Contact)
    → IsTidy rows
    → IsTidy (remove_contact now user agent rows)
unfolding remove_contact
remove_contact-IsTidy now user agent = take_out-IsTidy now _

pub remove_all_contacts-IsTidy :
    (now user : ℕ) (rows : List Contact) → IsTidy rows → IsTidy (remove_all_contacts now user rows)
unfolding remove_all_contacts
remove_all_contacts-IsTidy now user = take_out-IsTidy now _

pub create_contact-IsTidy :
    (now user agent room : ℕ) (door : Door) (token : Option ℕ) (rows : List Contact)
    → get_contact user agent rows ≡ none
    → IsTidy rows
    → IsTidy (create_contact (new_contact now user agent room door token) rows)
unfolding create_contact get_contact count_pinned_contacts
create_contact-IsTidy now user agent room door token rows new t = record {
  single = λ u a. elim (Bool-cases (is_between u a (new_contact now user agent room door token))) [
    | inl e ↦ rw e (omega (arith, alone u a e))
    | inr e ↦ rw e (t.single u a)
  ];
  unpinned = (refl, t.unpinned);
  pins = λ who. ground (arith, t.pins who);
}
  where
    alone :
        (u a : ℕ)
        → is_between u a (new_contact now user agent room door token) ≡ true
        → count (is_between u a) rows ≡ 0
    alone u a e = find?-none (is_between u a) rows (
        subst (λ i. find? (is_between i a) rows ≡ none) (ground arith)
          (subst (λ j. find? (is_between user j) rows ≡ none) (ground arith) new))
