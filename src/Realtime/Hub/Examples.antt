-- ===== src/Realtime/Hub/Examples.antt =====
-- Two connections of one person, one of which leaves.
use cuckoo.Base.{ℕ, ◌≤◌, ◌≡◌, refl, some, List, [], ◌∷◌, length, All}
use cuckoo.Realtime.Hub.{Event, Hub, new_hub, subscribe, detach, dispatch, subscription_buffer}
use cuckoo.Realtime.Hub.Safety.{Reachable, started, then_step, subscribed, left, dispatch_safe}

abbrev hello : Event
hello = record { number = 5; recipients = 9 ∷ [] }

abbrev two : Hub
two = subscribe 2 9 (subscribe 1 9 new_hub)

abbrev one_left : Hub
one_left = detach 2 two

reached : Reachable one_left
unfolding subscribe
reached =
    then_step (then_step (then_step started (subscribed 1 9 refl refl)) (subscribed 2 9 refl refl))
      (left 2)

dispatch_safe_example :
    All (λ s. length s.buffer ≤ subscription_buffer) one_left.subs
    × ((r : Hub × List ℕ) × (dispatch hello one_left ≡ some r)
        × All (λ s. length s.buffer ≤ subscription_buffer) r.0.subs)
dispatch_safe_example = dispatch_safe one_left hello reached
