-- ===== src/Conversations/Sending/Audience.antt =====
-- Who is told of a message.
use cuckoo.Base.{
  ℕ, ◌+◌, ◌≡◌, refl, ap, ◌∙◌, Bool, true, false, ◌&&◌, not, List, [], ◌∷◌, ◌++◌, arith, inl, inr,
  Bool-cases, ◌==◌, ==_refl, filter, count, if◌then◌else◌,
}
use cuckoo.Agents.Bindings.{Binding}
use cuckoo.Delivery.Outbox.{Delivery, create_delivery}
use cuckoo.Conversations.Membership.{is_key, is_bound}
use cuckoo.Conversations.Desk.{Message}
use cuckoo.Conversations.Sending.{create_delivery, is_own_agent, tell_agent, fan_out_to}

-- The row tells the agent of the message.
abbrev pub tells : Message → ℕ → Delivery → Bool
tells msg a d = d.agent_id == a && is_key msg.id d.message_id

one_told :
    (own : Bool) (now : ℕ) (fresh : ℕ → ℕ) (bs : List Binding) (msg : Message) (a b : ℕ)
    (rows : List Delivery)
    → count (tells msg b) (tell_agent own now fresh bs msg a rows).0
      ≡ (if own then 0 else if a == b then 1 else 0) + count (tells msg b) rows
unfolding tell_agent create_delivery
one_told true now fresh bs msg a b rows = omega arith
one_told false now fresh bs msg a b rows = ground (arith, ==_refl msg.id)

one_nudged :
    (own : Bool) (now : ℕ) (fresh : ℕ → ℕ) (bs : List Binding) (msg : Message) (a : ℕ)
    (rows : List Delivery) (rest : List ℕ)
    → (tell_agent own now fresh bs msg a rows).1 ++ rest
      ≡ (if not own && is_bound bs a then a ∷ rest else rest)
unfolding tell_agent
one_nudged true now fresh bs msg a rows rest = refl
one_nudged false now fresh bs msg a rows rest = elim (Bool-cases (is_bound bs a)) [
  | inl e ↦ rw e refl
  | inr e ↦ rw e refl
]

-- The places where an agent stands among those that are told.
abbrev pub places : Message → ℕ → List ℕ → ℕ
places msg b agents = count (λ a. not (is_own_agent msg a) && a == b) agents

-- Each agent listed, other than one that sends the message itself, gets as many rows about it as
-- it is listed, and no other agent gets any; those that are nudged are exactly those with a live
-- binding, in the order of the list.
pub fan_out_to_lem :
    (now : ℕ) (fresh : ℕ → ℕ) (bs : List Binding) (msg : Message) (agents : List ℕ)
    (rows : List Delivery)
    → ((b : ℕ)
        → count (tells msg b) (fan_out_to now fresh bs msg agents rows).0
          ≡ places msg b agents + count (tells msg b) rows)
      × ((fan_out_to now fresh bs msg agents rows).1
          ≡ filter (λ a. not (is_own_agent msg a) && is_bound bs a) agents)
unfolding fan_out_to
fan_out_to_lem now fresh bs msg [] rows = ((λ b. omega arith), refl)
fan_out_to_lem now fresh bs msg (a ∷ agents) rows =
    let after = (tell_agent (is_own_agent msg a) now fresh bs msg a rows).0 in
    let rest = fan_out_to_lem now fresh bs msg agents after in
    (
      (λ b. ground (arith, rest.0 b, one_told (is_own_agent msg a) now fresh bs msg a b rows)),
      one_nudged (is_own_agent msg a) now fresh bs msg a rows _
          ∙ ap (λ r. if not (is_own_agent msg a) && is_bound bs a then a ∷ r else r) rest.1,
    )
