-- ===== src/Agents/Bindings/Health.antt =====
-- When a binding counts as connected, idle or unreachable: its status, as the three calls keep it,
-- against what its history says.
use cuckoo.Base.{
  ℕ, ◌+◌, ◌≡◌, refl, ◌↔◌, Bool, true, false, ◌||◌, Option, none, some, List, [], ◌∷◌, arith, leb,
}
use cuckoo.Agents.Bindings.{
  Binding, Status, Mode, unreachable, new_binding, succeeded, failed, went_idle, is_connected,
  five_minutes, create_binding, is_live_row, record_delivery_success, record_delivery_failure,
  socket_closed,
}
use cuckoo.Base.{if◌then◌else◌, find?, ==_refl}
use cuckoo.Base.Text.{Text}

-- One event behind a live binding: the backend answered, it did not, or its socket went away.
pub data Beat : Type 0 where
  answered missed : ℕ → Beat
  closed : Beat

-- What the three calls write to the row of a live binding.
pub feel : Beat → Binding → Binding
feel (answered now) b = succeeded now b
feel (missed now) b = failed now b
feel closed b = if is_connected b.status then went_idle b else b

-- The newest event stands first.
pub lived : List Beat → Binding → Binding
unfolding feel
lived [] b = b
lived (e ∷ es) b = feel e (lived es b)

-- The history's own account. The first failure since the backend last answered:
unfoldable pub streak : List Beat → Option ℕ
streak [] = none
streak (answered now ∷ es) = none
streak (missed now ∷ es) = elim (streak es) [ none ↦ some now | some t ↦ some t ]
streak (closed ∷ es) = streak es

-- A failure at `now` came five minutes or more into the streak.
unfoldable pub is_long : ℕ → Option ℕ → Bool
is_long now none = false
is_long now (some t) = leb (t + five_minutes) now

-- Such a failure was seen, and no answer since.
unfoldable pub is_down : List Beat → Bool
unfolding is_long
is_down [] = false
is_down (answered now ∷ es) = false
is_down (missed now ∷ es) = is_long now (streak es) || is_down es
is_down (closed ∷ es) = is_down es

abbrev is_unreachable : Status → Bool
is_unreachable unreachable = true
is_unreachable _ = false

lived_lem :
    (i agent : ℕ) (m : Mode) (url : Option Text) (hash : ℕ) (es : List Beat)
    → ((lived es (new_binding i agent m url hash)).failure_streak_started_at ≡ streak es)
      × (is_unreachable (lived es (new_binding i agent m url hash)).status ≡ is_down es)
unfolding lived streak is_down
lived_lem i agent m url hash [] = (refl, refl)
lived_lem i agent m url hash (answered now ∷ es) = (refl, refl)
lived_lem i agent m url hash (missed now ∷ es) = ground (arith, lived_lem i agent m url hash es)
lived_lem i agent m url hash (closed ∷ es) = ground (arith, lived_lem i agent m url hash es)

lived-unreachable :
    (i agent : ℕ) (m : Mode) (url : Option Text) (hash : ℕ) (es : List Beat)
    → let b = lived es (new_binding i agent m url hash) in
      (b.failure_streak_started_at ≡ streak es) × ((b.status ≡ unreachable) ↔ (is_down es ≡ true))
lived-unreachable i agent m url hash es = (
  ground (arith, lived_lem i agent m url hash es),
  (
    (λ h. ground (arith, lived_lem i agent m url hash es)),
    (λ h. ground (arith, lived_lem i agent m url hash es)),
  ),
)

-- The calls of the service, on the table.
pub happened : Beat → ℕ → List Binding → List Binding
happened (answered now) i bs = (record_delivery_success now i bs).0
happened (missed now) i bs = (record_delivery_failure now i bs).0
happened closed i bs = (socket_closed i bs).0

pub all_happened : List Beat → ℕ → List Binding → List Binding
unfolding happened
all_happened [] i bs = bs
all_happened (e ∷ es) i bs = happened e i (all_happened es i bs)

is_live_row-feel : (e : Beat) (i : ℕ) (b : Binding) → is_live_row i (feel e b) ≡ is_live_row i b
unfolding feel
is_live_row-feel (answered now) i b = refl
is_live_row-feel (missed now) i b = refl
is_live_row-feel closed i b = ground arith

find-happened :
    (e : Beat) (i : ℕ) (b : Binding) (bs : List Binding)
    → find? (is_live_row i) bs ≡ some b
    → find? (is_live_row i) (happened e i bs) ≡ some (feel e b)
unfolding happened feel record_delivery_success record_delivery_failure socket_closed
find-happened (answered now) i b [] h = cc
find-happened (answered now) i b (c ∷ bs) h = ground (arith, find-happened (answered now) i b bs)
find-happened (missed now) i b [] h = cc
find-happened (missed now) i b (c ∷ bs) h = ground (arith, find-happened (missed now) i b bs)
find-happened closed i b [] h = cc
find-happened closed i b (c ∷ bs) h = ground (arith, find-happened closed i b bs)

find-all_happened :
    (es : List Beat) (i : ℕ) (b : Binding) (bs : List Binding)
    → find? (is_live_row i) bs ≡ some b
    → find? (is_live_row i) (all_happened es i bs) ≡ some (lived es b)
unfolding all_happened lived
find-all_happened [] i b bs h = h
find-all_happened (e ∷ es) i b bs h =
    find-happened e i (lived es b) (all_happened es i bs) (find-all_happened es i b bs h)

-- After any history of answers, failures and closed sockets on a binding that was just made, the
-- table holds its live row; its failure streak is the history's, and it is unreachable exactly
-- when the history holds a failure five minutes or more into an unbroken streak and no answer
-- since.
pub all_happened-unreachable :
    (i agent : ℕ) (m : Mode) (url : Option Text) (hash : ℕ) (es : List Beat) (bs : List Binding)
    → (b : Binding) × (find?
          (is_live_row i)
          (all_happened es i (create_binding (new_binding i agent m url hash) bs))
        ≡ some b)
      × (b.failure_streak_started_at ≡ streak es)
      × ((b.status ≡ unreachable) ↔ (is_down es ≡ true))
unfolding create_binding
all_happened-unreachable i agent m url hash es bs =
    let (since, down) = lived-unreachable i agent m url hash es in
    (
      lived es (new_binding i agent m url hash),
      find-all_happened es i (new_binding i agent m url hash) (new_binding i agent m url hash ∷ bs)
          (rw (==_refl i) refl),
      since,
      down,
    )
