-- ===== src/Agents/Bindings/Examples.antt =====
-- Two agents: one with a webhook, one with a socket.
use cuckoo.Base.{
  ℕ, ◌+◌, ◌≤◌, ◌≡◌, ◌≢◌, refl, ◌⊎◌, inl, inr, ◌↔◌, true, Option, none, some, List, [], ◌∷◌, arith,
}
use cuckoo.Base.Text.{Text, codes}
use cuckoo.Domain.Errors.{Result, ok}
use cuckoo.Base.{find?}
use cuckoo.Agents.Bindings.{create_binding, is_live_row}
use cuckoo.Agents.Bindings.{
  Binding, webhook, socket, unreachable, word, new_binding, revoke, get_active_binding, set_binding,
  five_minutes,
}
use cuckoo.Agents.Bindings.Single.{IsSingle, set_binding-IsSingle}
use cuckoo.Agents.Bindings.Health.{
  Beat, answered, missed, closed, all_happened, streak, is_long, is_down, all_happened-unreachable,
}

abbrev old : Binding
old = new_binding 7 30 webhook (some (codes "https://a.example/hook")) 99

abbrev neighbour : Binding
neighbour = new_binding 8 31 socket none 98

abbrev fresh : Binding
fresh = new_binding 9 30 socket none 97

abbrev any_url : Text → Result Text
any_url u = ok u

both-IsSingle : IsSingle (old ∷ neighbour ∷ [])
both-IsSingle agent = ground arith

rebound :
    set_binding any_url 5 9 97 30 (word socket) [] (old ∷ neighbour ∷ [])
    ≡ ok (fresh ∷ revoke 5 old ∷ neighbour ∷ [], fresh)
unfolding set_binding cuckoo.Base.Text.trim_space cuckoo.Base.Text.trim_right
    cuckoo.Base.Text.trim_left
rebound = refl

set_binding-IsSingle_example :
    IsSingle (fresh ∷ revoke 5 old ∷ neighbour ∷ [])
    × (get_active_binding 30 (fresh ∷ revoke 5 old ∷ neighbour ∷ []) ≡ some fresh)
    × ((other : ℕ)
        → other ≢ 30
        → get_active_binding other (fresh ∷ revoke 5 old ∷ neighbour ∷ [])
          ≡ get_active_binding other (old ∷ neighbour ∷ []))
set_binding-IsSingle_example =
    set_binding-IsSingle any_url 5 9 97 30 (word socket) [] (old ∷ neighbour ∷ [])
      (fresh ∷ revoke 5 old ∷ neighbour ∷ []) fresh both-IsSingle rebound

abbrev history : List Beat
history = missed (10 + five_minutes) ∷ closed ∷ missed 10 ∷ answered 5 ∷ []

history_down : is_down history ≡ true
unfolding is_down streak is_long
history_down = refl

all_happened-unreachable_example :
    (b : Binding) × (find? (is_live_row 7) (
        all_happened history 7 (create_binding (new_binding 7 30 webhook none 99) (neighbour ∷ [])))
      ≡ some b)
    × (b.failure_streak_started_at ≡ streak history)
    × ((b.status ≡ unreachable) ↔ (is_down history ≡ true))
all_happened-unreachable_example =
    all_happened-unreachable 7 30 webhook none 99 history (neighbour ∷ [])
