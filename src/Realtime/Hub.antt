-- ===== src/Realtime/Hub.antt =====
-- realtime/hub.go. What runs under the hub's lock is one function of the state; a connection's `Close`
-- and the hub's are two steps, since others run between the lock and the signal. A send on a closed
-- channel panics: `none`. The set of a person's connections is walked in the list's order.
pub mod Safety
mod Examples
use cuckoo.Base.{
  ℕ, suc, zero, ◌+◌, Bool, true, false, ◌&&◌, not, Option, none, some, List, [], ◌∷◌, ◌++◌, map,
  ◌==◌, ltb, if◌then◌else◌, length, filter, update, count,
}

abbrev pub subscription_buffer : ℕ
subscription_buffer = 64

-- An event by its number, with whom it names.
pub record Event : Type 0 where
  pub number : ℕ
  pub recipients : List ℕ

-- `sending` until its channel is closed, and `attached` while the hub lists it.
pub record Subscription : Type 0 where
  pub id : ℕ
  pub user_id : ℕ
  pub buffer : List ℕ
  pub sending : Bool
  pub attached : Bool

-- `signals` are the connections whose channel is still to be closed: `signal` was reached, or will be.
pub record Hub : Type 0 where
  pub subs : List Subscription
  pub closed : Bool
  pub signals : List ℕ

abbrev pub new_hub : Hub
new_hub = record { subs = []; closed = false; signals = [] }

-- `Subscribe`
pub subscribe : ℕ → ℕ → Hub → Hub
subscribe i user h = record h {
  subs = record { id = i; user_id = user; buffer = []; sending = true; attached = true } ∷ h.subs;
}

-- On a closed channel, on one with room, and on one without.
offer_by : Bool → Bool → ℕ → Subscription → Option (Subscription × Bool)
offer_by false room ev s = none
offer_by true true ev s = some (record s { buffer = s.buffer ++ (ev ∷ []) }, false)
offer_by true false ev s = some (s, true)

-- The `select`: the connection, and whether it could not take the event.
pub offer : ℕ → Subscription → Option (Subscription × Bool)
unfolding offer_by
offer ev s = offer_by s.sending (ltb (length s.buffer) subscription_buffer) ev s

slower : Bool → Option (Subscription × Bool) → Option (Subscription × Bool)
slower b none = none
slower b (some (s, slow)) = some (s, if b then true else slow)

offered_again :
    (Subscription → Option (Subscription × Bool))
    → Option (Subscription × Bool)
    → Option (Subscription × Bool)
unfolding slower
offered_again again none = none
offered_again again (some (s, slow)) = slower slow (again s)

-- Once for each time that the event names the person.
pub offers : ℕ → ℕ → Subscription → Option (Subscription × Bool)
unfolding offered_again
offers zero ev s = some (s, false)
offers (suc n) ev s = offered_again (offers n ev) (offer ev s)

abbrev pub named : Event → Subscription → ℕ
named ev s = if s.attached then count (λ u. u == s.user_id) ev.recipients else 0

joined_offers :
    Option (Subscription × Bool)
    → Option (List Subscription × List ℕ)
    → Option (List Subscription × List ℕ)
joined_offers none rest = none
joined_offers (some one) none = none
joined_offers (some (s, slow)) (some (ss, slows)) =
    some (s ∷ ss, if slow then s.id ∷ slows else slows)

pub dispatch_to : Event → List Subscription → Option (List Subscription × List ℕ)
unfolding joined_offers
dispatch_to ev [] = some ([], [])
dispatch_to ev (s ∷ ss) = joined_offers (offers (named ev s) ev.number s) (dispatch_to ev ss)

dispatched : Hub → Option (List Subscription × List ℕ) → Option (Hub × List ℕ)
dispatched h none = none
dispatched h (some (ss, slow)) = some (record h { subs = ss }, slow)

-- `Dispatch`, to the end of its lock: the hub after, and the connections that it will close.
pub dispatch : Event → Hub → Option (Hub × List ℕ)
unfolding dispatched
dispatch ev h = if h.closed then some (h, []) else dispatched h (dispatch_to ev h.subs)

abbrev pub detached : Subscription → Subscription
detached s = record s { attached = false }

-- `Subscription.Close` up to the end of `detach`; its `signal` is to come.
pub detach : ℕ → Hub → Hub
detach i h = record h { subs = update (λ s. s.id == i) detached h.subs; signals = i ∷ h.signals }

abbrev pub ended : Subscription → Subscription
ended s = record s { sending = false }

-- `signal`, which closes the channel once.
pub signal : ℕ → Hub → Hub
signal i h = record h { subs = update (λ s. s.id == i) ended h.subs }

-- `Hub.Close` to the end of its lock: the signals of all that are attached are to come.
pub close : Hub → Hub
close h = record h {
  closed = true;
  signals = map (λ s. s.id) (filter (λ s. s.attached) h.subs) ++ h.signals;
}

-- A connection takes the event that has waited longest.
abbrev taken : Subscription → Subscription
taken s = record s { buffer = elim s.buffer [ [] ↦ [] | ev ∷ rest ↦ rest ] }

pub receive : ℕ → Hub → Hub
receive i h = record h { subs = update (λ s. s.id == i) taken h.subs }
