-- ===== src/Realtime/Hub/Safety.antt =====
-- Over every interleaving of the hub's steps: no event is sent on a closed channel, and no connection
-- holds more than its buffer.
use cuckoo.Base.{
  ℕ, suc, zero, ◌≤◌, ◌≡◌, refl, sym, ◌∙◌, ap, subst, inl, inr, Bool, true, false, some, List, [],
  ◌∷◌, map, arith, ◌==◌, ltb, Bool-cases, if◌then◌else◌, length, length-append, update, All,
  All-mono,
}
use cuckoo.Base.Keys.{is_in}
use cuckoo.Realtime.Hub.{
  Event, Subscription, Hub, new_hub, subscribe, offer, offer_by, slower, offered_again, offers,
  named, joined_offers, dispatch_to, dispatched, dispatch, detached, detach, ended, signal, close,
  taken, receive, subscription_buffer,
}

-- One step of one of those that share the hub. A connection's id is its address, which no other has;
-- a signal follows its `detach` or the hub's `Close`.
pub data Step : Hub → Hub → Type 0 where
  subscribed :
      {h : Hub} (i user : ℕ)
      → is_in i (map (λ s. s.id) h.subs) ≡ false
      → is_in i h.signals ≡ false
      → Step h (subscribe i user h)
  sent :
      {h after : Hub} (ev : Event) (slow : List ℕ)
      → dispatch ev h ≡ some (after, slow)
      → Step h after
  left : {h : Hub} (i : ℕ) → Step h (detach i h)
  signalled : {h : Hub} (i : ℕ) → is_in i h.signals ≡ true → Step h (signal i h)
  closed_down : {h : Hub} → Step h (close h)
  received : {h : Hub} (i : ℕ) → Step h (receive i h)

pub data Reachable : Hub → Type 0 where
  started : Reachable new_hub
  then_step : {h after : Hub} → Reachable h → Step h after → Reachable after

-- While the hub is open, whoever is attached has an open channel and no signal to come.
abbrev IsGuarded : Hub → Subscription → Type 0
IsGuarded h s =
    (h.closed ≡ false → s.attached ≡ true → (s.sending ≡ true) × (is_in s.id h.signals ≡ false))
    × (length s.buffer ≤ subscription_buffer)

abbrev IsSafe : Hub → Type 0
IsSafe h = All (IsGuarded h) h.subs

some-injective {ℓ} : {A : Type ℓ} {x y : A} → some x ≡ some y → x ≡ y
some-injective f = cc

-- What an offer leaves: the same connection, as good as it was.
abbrev Keeps : Hub → Subscription → Subscription × Bool → Type 0
Keeps h s r = IsGuarded h r.0 × (r.0.id ≡ s.id) × (r.0.sending ≡ s.sending)

offer_by-Keeps :
    (h : Hub) (a b : Bool) (ev : ℕ) (s : Subscription) (r : Subscription × Bool)
    → ltb (length s.buffer) subscription_buffer ≡ b
    → IsGuarded h s
    → offer_by a b ev s ≡ some r
    → Keeps h s r
unfolding offer_by
offer_by-Keeps h false b ev s r size g e = cc
offer_by-Keeps h true true ev s r size (guard, few) e =
    subst (Keeps h s) (some-injective e)
      ((guard, ground (arith, length-append s.buffer (ev ∷ []))), refl, refl)
offer_by-Keeps h true false ev s r size g e = subst (Keeps h s) (some-injective e) (g, refl, refl)

offer_by-some :
    (a b : Bool) (ev : ℕ) (s : Subscription)
    → a ≡ true
    → (r : Subscription × Bool) × (offer_by a b ev s ≡ some r)
unfolding offer_by
offer_by-some false b ev s e = cc
offer_by-some true true ev s e = (_, refl)
offer_by-some true false ev s e = (_, refl)

-- Offers to an open channel are answered, and leave the connection as good as it was.
offers-Keeps :
    (h : Hub) (n ev : ℕ) (s : Subscription)
    → s.sending ≡ true
    → IsGuarded h s
    → (r : Subscription × Bool) × (offers n ev s ≡ some r) × Keeps h s r
unfolding offers offered_again slower offer
offers-Keeps h zero ev s flows g = ((s, false), refl, (g, refl, refl))
offers-Keeps h (suc n) ev s flows g =
    let (one, e) = offer_by-some s.sending (ltb (length s.buffer) subscription_buffer) ev s flows in
    let (good, same, still) =
      offer_by-Keeps h s.sending (ltb (length s.buffer) subscription_buffer) ev s one refl g e in
    let (two, f, (good', same', still')) = offers-Keeps h n ev one.0 (still ∙ flows) good in
    ((two.0, if one.1 then true else two.1), rw (e, f) refl, (good', same' ∙ same, still' ∙ still))

unnamed : (ev : Event) (s : Subscription) → s.attached ≡ false → named ev s ≡ 0
unnamed ev s off = rw off refl

named-Keeps :
    (h : Hub) (ev : Event) (s : Subscription)
    → h.closed ≡ false
    → IsGuarded h s
    → (r : Subscription × Bool) × (offers (named ev s) ev.number s ≡ some r) × Keeps h s r
unfolding offers
named-Keeps h ev s up g = elim (Bool-cases s.attached) [
  | inl on ↦ offers-Keeps h (named ev s) ev.number s (g.0 up on).0 g
  | inr off ↦ (
    (s, false),
    subst (λ n. offers n ev.number s ≡ some (s, false)) (sym (unnamed ev s off)) refl,
    (g, refl, refl),
  )
]

dispatch_to-All :
    (h : Hub) (ev : Event) (ss : List Subscription)
    → h.closed ≡ false
    → All (IsGuarded h) ss
    → (r : List Subscription × List ℕ) × (dispatch_to ev ss ≡ some r) × All (IsGuarded h) r.0
unfolding dispatch_to joined_offers
dispatch_to-All h ev [] up g = (([], []), refl, tt)
dispatch_to-All h ev (s ∷ ss) up (g, gs) =
    let (rest, f, good') = dispatch_to-All h ev ss up gs in
    let (one, e, (good, _, _)) = named-Keeps h ev s up g in
    ((one.0 ∷ rest.0, if one.1 then one.0.id ∷ rest.1 else rest.1), rw (e, f) refl, (good, good'))

if-true {ℓ} : {A : Type ℓ} (b : Bool) (x y : A) → b ≡ true → (if b then x else y) ≡ x
if-true true x y e = refl
if-true false x y e = cc

if-false {ℓ} : {A : Type ℓ} (b : Bool) (x y : A) → b ≡ false → (if b then x else y) ≡ y
if-false true x y e = cc
if-false false x y e = refl

-- A dispatch in a safe state does not panic, and leaves one.
dispatch-IsSafe :
    (h : Hub) (ev : Event) → IsSafe h → (r : Hub × List ℕ) × (dispatch ev h ≡ some r) × IsSafe r.0
unfolding dispatch dispatched
dispatch-IsSafe h ev safe = elim (Bool-cases h.closed) [
  | inl down ↦
      ((h, []), if-true h.closed (some (h, [])) (dispatched h (dispatch_to ev h.subs)) down, safe)
  | inr up ↦
      let (r, e, good) = dispatch_to-All h ev h.subs up safe in
      (
        (record h { subs = r.0 }, r.1),
        if-false h.closed (some (h, [])) (dispatched h (dispatch_to ev h.subs)) up
            ∙ ap (dispatched h) e,
        good,
      )
]

update-All {ℓ κ ι} :
    {A : Type ℓ} (P : A → Type κ) (Q : A → Type ι) (p : A → Bool) (f : A → A) (xs : List A)
    → ((x : A) → p x ≡ true → P x → Q (f x))
    → ((x : A) → p x ≡ false → P x → Q x)
    → All P xs
    → All Q (update p f xs)
update-All P Q p f [] hit miss h = tt
update-All P Q p f (x ∷ xs) hit miss h = elim (Bool-cases (p x)) [
  | inl e ↦ rw e (hit x e h.0, update-All P Q p f xs hit miss h.1)
  | inr e ↦ rw e (miss x e h.0, update-All P Q p f xs hit miss h.1)
]

subscribe-IsSafe :
    (h : Hub) (i user : ℕ) → is_in i h.signals ≡ false → IsSafe h → IsSafe (subscribe i user h)
unfolding subscribe
subscribe-IsSafe h i user unsignalled safe = (((λ _ _. (refl, unsignalled)), omega arith), safe)

detach-IsSafe : (h : Hub) (i : ℕ) → IsSafe h → IsSafe (detach i h)
unfolding detach
detach-IsSafe h i safe =
    update-All (IsGuarded h) (IsGuarded (detach i h)) (λ s. s.id == i) detached h.subs
      (λ s e g. ((λ up on. cc), g.1)) (λ s e g. ((λ up on. ground (arith, e, g.0 up on)), g.1)) safe

signal-IsSafe : (h : Hub) (i : ℕ) → is_in i h.signals ≡ true → IsSafe h → IsSafe (signal i h)
unfolding signal
signal-IsSafe h i due safe =
    update-All (IsGuarded h) (IsGuarded h) (λ s. s.id == i) ended h.subs
      (λ s e g. ((λ up on. ground (arith, e, due, g.0 up on)), g.1)) (λ s e g. g) safe

close-IsSafe : (h : Hub) → IsSafe h → IsSafe (close h)
unfolding close
close-IsSafe h safe =
    All-mono (IsGuarded h) (IsGuarded (close h)) (λ s g. ((λ up. cc), g.1)) h.subs safe

taken-few :
    (buffer : List ℕ)
    → length buffer ≤ subscription_buffer
    → length (elim buffer [ [] ↦ [] | ev ∷ rest ↦ rest ]) ≤ subscription_buffer
taken-few [] h = h
taken-few (ev ∷ rest) h = omega (arith, h)

receive-IsSafe : (h : Hub) (i : ℕ) → IsSafe h → IsSafe (receive i h)
unfolding receive
receive-IsSafe h i safe =
    update-All (IsGuarded h) (IsGuarded h) (λ s. s.id == i) taken h.subs
      (λ s e g. (g.0, taken-few s.buffer g.1)) (λ s e g. g) safe

Step-IsSafe : {h after : Hub} → Step h after → IsSafe h → IsSafe after
Step-IsSafe (subscribed {h} i user new unsignalled) safe =
    subscribe-IsSafe h i user unsignalled safe
Step-IsSafe (sent {h} {after} ev slow e) safe =
    let (r, f, good) = dispatch-IsSafe h ev safe in
    subst (λ q. IsSafe q.0) (some-injective (sym f ∙ e)) good
Step-IsSafe (left {h} i) safe = detach-IsSafe h i safe
Step-IsSafe (signalled {h} i due) safe = signal-IsSafe h i due safe
Step-IsSafe (closed_down {h}) safe = close-IsSafe h safe
Step-IsSafe (received {h} i) safe = receive-IsSafe h i safe

Reachable-IsSafe : {h : Hub} → Reachable h → IsSafe h
Reachable-IsSafe started = tt
Reachable-IsSafe (then_step r step) = Step-IsSafe step (Reachable-IsSafe r)

-- In every state that the interleaved steps of the hub and its connections reach, a dispatch sends
-- nothing on a closed channel, and no connection holds more than sixty-four events, before it or
-- after.
pub dispatch_safe :
    (h : Hub) (ev : Event)
    → Reachable h
    → All (λ s. length s.buffer ≤ subscription_buffer) h.subs
      × ((r : Hub × List ℕ) × (dispatch ev h ≡ some r)
          × All (λ s. length s.buffer ≤ subscription_buffer) r.0.subs)
dispatch_safe h ev reached =
    let (r, e, good) = dispatch-IsSafe h ev (Reachable-IsSafe reached) in
    (
      All-mono (IsGuarded h) _ (λ s g. g.1) h.subs (Reachable-IsSafe reached),
      (r, e, All-mono (IsGuarded r.0) _ (λ s g. g.1) r.0.subs good),
    )
