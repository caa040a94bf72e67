-- ===== src/Pairing/Service/Blocks.antt =====
-- Blocking an agent and being back.
use cuckoo.Base.{
  ℕ, ◌≡◌, refl, ap, ◌∙◌, Bool, true, false, ◌&&◌, Option, none, some, List, [], ◌∷◌, arith, inl,
  inr, Bool-cases, is_some, is_none, if◌then◌else◌, any, update, All, find?-test,
}
use cuckoo.Base.Counts.{any-of_find?, find?-written, find?-only}
use cuckoo.Base.Text.{Text, codes}
use cuckoo.Domain.Errors.{ok, err, forbidden_error, refuse_if}
use cuckoo.Delivery.Outbox.{
  create_delivery, EventType, Delivery, conversation_joined, conversation_left, new_delivery,
}
use cuckoo.Conversations.Membership.{
  Participant, user_in, agent_in, enqueue, is_bound, first_status, first_error,
}
use cuckoo.Pairing.Contacts.{
  Contact, get_contact, is_between, set_contact_blocked, clear_contact_blocked, is_unblocked,
  is_blocked, shut, reopen, ensure_open, is_conversation_blocked,
}
use cuckoo.Pairing.Contacts.Lists.{IsTidy}
use cuckoo.Pairing.Service.{
  Hub, Draw, Reply, tell, nudge_if, move, block_as, block, unblock_as, unblock,
}

-- The rows under a key that was not blocked, shut and opened again.
shut-reopen :
    (now caller agent : ℕ) (rows : List Contact)
    → All (λ c. is_between caller agent c ≡ true → is_some c.blocked_at ≡ false) rows
    → update (is_blocked caller agent) reopen (update (is_unblocked caller agent) (shut now) rows)
      ≡ rows
shut-reopen now caller agent [] h = refl
shut-reopen now caller agent (c ∷ rows) h =
    ground (arith, h.0, shut-reopen now caller agent rows h.1)

-- The event that an agent is told of a person's coming or going.
abbrev pub event_of : Draw → ℕ → ℕ → EventType → Text → Hub → Delivery
event_of d agent room event payload h =
    new_delivery d.now d.event_id none room agent event payload
      (first_status (is_bound h.bindings agent)) (first_error (is_bound h.bindings agent))

module _ (encode_joined : Option ℕ → Option Text → Text) (encode_left : Text → Text) where
  block-shuts :
      (d : Draw) (caller agent : ℕ) (h : Hub) (c : Contact)
      → get_contact caller agent h.contacts ≡ some c
      → is_some c.blocked_at ≡ false
      → block encode_joined encode_left d caller agent h ≡ record {
        hub = record h {
          contacts = set_contact_blocked d.now caller agent h.contacts;
          deliveries =
              event_of d agent c.dm_conversation_id conversation_left
                (encode_left (codes "user_blocked"))
                h
              ∷ h.deliveries;
        };
        nudged = nudge_if (is_bound h.bindings agent) agent;
        answer = ok tt;
      }
  unfolding block block_as move tell enqueue create_delivery
  block-shuts d caller agent h c found free =
      ap (λ o. block_as encode_joined encode_left d caller agent o h) found ∙ ap shutting free
    where
      shutting : Bool → Reply (Unit {0})
      shutting b =
          if b
          then record { hub = h; nudged = []; answer = ok tt }
          else move encode_joined encode_left d agent c.dm_conversation_id conversation_left
              (encode_left (codes "user_blocked"))
              (set_contact_blocked d.now caller agent h.contacts) h

  unblock-opens :
      (d : Draw) (caller agent : ℕ) (h : Hub) (c : Contact)
      → get_contact caller agent h.contacts ≡ some c
      → is_none c.blocked_at ≡ false
      → unblock encode_joined encode_left d caller agent h ≡ record {
        hub = record h {
          contacts = clear_contact_blocked caller agent h.contacts;
          deliveries =
              event_of d agent c.dm_conversation_id conversation_joined (encode_joined none none) h
              ∷ h.deliveries;
        };
        nudged = nudge_if (is_bound h.bindings agent) agent;
        answer = ok tt;
      }
  unfolding unblock unblock_as move tell enqueue create_delivery
  unblock-opens d caller agent h c found shut_now =
      ap (λ o. unblock_as encode_joined encode_left d caller agent o h) found ∙ ap opening shut_now
    where
      opening : Bool → Reply (Unit {0})
      opening b =
          if b
          then record { hub = h; nudged = []; answer = ok tt }
          else move encode_joined encode_left d agent c.dm_conversation_id conversation_joined
              (encode_joined none none) (clear_contact_blocked caller agent h.contacts) h

  -- In tidy contacts, blocking an agent that was not blocked and being back leaves every table as
  -- it was, but for two events that tell the agent that the person left and then that they joined.
  pub block-unblock :
      (d e : Draw) (caller agent : ℕ) (h : Hub) (c : Contact)
      → IsTidy h.contacts
      → get_contact caller agent h.contacts ≡ some c
      → is_some c.blocked_at ≡ false
      → (unblock encode_joined encode_left e caller agent
          (block encode_joined encode_left d caller agent h).hub).hub
        ≡ record h {
          deliveries =
              event_of e agent c.dm_conversation_id conversation_joined (encode_joined none none) h
              ∷ event_of d agent c.dm_conversation_id conversation_left
                  (encode_left (codes "user_blocked"))
                  h
              ∷ h.deliveries;
        }
  unfolding set_contact_blocked clear_contact_blocked get_contact
  block-unblock d e caller agent h c tidy found free =
      ap (λ r. (unblock encode_joined encode_left e caller agent r.hub).hub)
        (block-shuts d caller agent h c found free)
      ∙ ap (λ r. r.hub)
          (unblock-opens e caller agent gone (shut d.now c)
            (find?-written (is_between caller agent) (is_unblocked caller agent) (shut d.now)
              (λ _. refl) h.contacts
              (ground (arith, free, find?-test (is_between caller agent) h.contacts c found)) found)
            refl)
      ∙ ap
          (λ rows. record h {
            contacts = rows;
            deliveries =
                event_of e agent c.dm_conversation_id conversation_joined (encode_joined none none)
                  h
                ∷ gone.deliveries;
          })
          (shut-reopen d.now caller agent h.contacts (
            find?-only (λ x. is_some x.blocked_at ≡ false) (is_between caller agent) h.contacts
              found (tidy.single caller agent) free))
    where
      gone : Hub
      gone = record h {
        contacts = set_contact_blocked d.now caller agent h.contacts;
        deliveries =
            event_of d agent c.dm_conversation_id conversation_left
              (encode_left (codes "user_blocked")) h
            ∷ h.deliveries;
      }

  block-again :
      (d : Draw) (caller agent : ℕ) (h : Hub) (c : Contact)
      → get_contact caller agent h.contacts ≡ some c
      → is_some c.blocked_at ≡ true
      → (block encode_joined encode_left d caller agent h).hub ≡ h
  unfolding block block_as
  block-again d caller agent h c found again =
      ap (λ o. (block_as encode_joined encode_left d caller agent o h).hub) found
      ∙ ap shutting again
    where
      shutting : Bool → Hub
      shutting b =
          (if b
            then record { hub = h; nudged = []; answer = ok tt }
            else move encode_joined encode_left d agent c.dm_conversation_id conversation_left
                (encode_left (codes "user_blocked"))
                (set_contact_blocked d.now caller agent h.contacts) h).hub

  -- Once a person has blocked an agent, nothing can be moved in their chat, if both are in it.
  pub block-ensure_open :
      (d : Draw) (caller agent : ℕ) (h : Hub) (c : Contact) (members : List Participant)
      → get_contact caller agent h.contacts ≡ some c
      → user_in c.user_id c.dm_conversation_id members ≡ true
      → agent_in c.agent_id c.dm_conversation_id members ≡ true
      → ensure_open c.dm_conversation_id members
          (block encode_joined encode_left d caller agent h).hub.contacts
        ≡ err (forbidden_error "blocked")
  unfolding ensure_open is_conversation_blocked set_contact_blocked get_contact
  block-ensure_open d caller agent h c members found user_there agent_there =
      ap (λ b. refuse_if b (forbidden_error "blocked"))
        (elim (Bool-cases (is_some c.blocked_at)) [
          | inl e ↦
              ap (λ g. any closes g.contacts) (block-again d caller agent h c found e)
              ∙ any-of_find? (is_between caller agent) closes h.contacts found
                  (ground (arith, e, user_there, agent_there))
          | inr e ↦
              ap (λ r. any closes r.hub.contacts) (block-shuts d caller agent h c found e)
              ∙ any-of_find? (is_between caller agent) closes
                  (update (is_unblocked caller agent) (shut d.now) h.contacts)
                  (find?-written (is_between caller agent) (is_unblocked caller agent) (shut d.now)
                    (λ _. refl) h.contacts
                    (ground (arith, e, find?-test (is_between caller agent) h.contacts c found))
                    found)
                  (ground (arith, user_there, agent_there))
        ])
    where
      closes : Contact → Bool
      closes x =
          is_some x.blocked_at
          && user_in x.user_id c.dm_conversation_id members
          && agent_in x.agent_id c.dm_conversation_id members
