-- ===== src/Agents/Bindings.antt =====
-- agents/bindings.go and endpoint.go, over the queries of store/gen/bindings.sql.go. The table is
-- the list of its rows; a query that cannot fail but by the database's own fault is total here.
-- Identifiers and times are numbers, `now` is an argument, and a secret is known by its hash.
pub mod Single
pub mod Health
mod Examples
use cuckoo.Base.{
  ℕ, ◌+◌, ◌≤◌, Bool, true, false, ◌&&◌, Option, none, some, List, [], ◌∷◌, ◌==◌, leb, is_none,
  if◌then◌else◌, find?, update, any, count,
}
use cuckoo.Base.Text.{Text, trim_space}
use cuckoo.Domain.Errors.{Result, ok, err, invalid_field, not_found_error, ◌>>=◌}

pub data Mode : Type 0 where
  webhook socket : Mode

pub data Status : Type 0 where
  connected idle unreachable : Status

pub record Binding : Type 0 where
  pub id : ℕ
  pub agent_id : ℕ
  pub mode : Mode
  pub webhook_url : Option Text
  pub secret_hash : ℕ
  pub status : Status
  pub last_seen_at : Option ℕ
  pub failure_streak_started_at : Option ℕ
  pub revoked_at : Option ℕ

abbrev pub is_webhook : Mode → Bool
is_webhook webhook = true
is_webhook socket = false

abbrev pub is_socket : Mode → Bool
is_socket webhook = false
is_socket socket = true

abbrev pub is_connected : Status → Bool
is_connected connected = true
is_connected _ = false

abbrev pub status_eq : Status → Status → Bool
status_eq connected connected = true
status_eq idle idle = true
status_eq unreachable unreachable = true
status_eq _ _ = false

-- agent_id = $1 AND revoked_at IS NULL
abbrev pub is_active_for : ℕ → Binding → Bool
is_active_for agent b = b.agent_id == agent && is_none b.revoked_at

-- id = $1 AND revoked_at IS NULL
abbrev pub is_live_row : ℕ → Binding → Bool
is_live_row i b = b.id == i && is_none b.revoked_at

unfoldable pub get_active_binding : ℕ → List Binding → Option Binding
get_active_binding agent = find? (is_active_for agent)

abbrev pub revoke : ℕ → Binding → Binding
revoke now b = record b { revoked_at = some now }

-- The rows after, and how many were changed.
pub revoke_active_binding : ℕ → ℕ → List Binding → List Binding × ℕ
revoke_active_binding now agent bs =
    (update (is_active_for agent) (revoke now) bs, count (is_active_for agent) bs)

-- A fresh row is idle, and lives until it is revoked.
abbrev pub new_binding : ℕ → ℕ → Mode → Option Text → ℕ → Binding
new_binding i agent m url hash = record {
  id = i;
  agent_id = agent;
  mode = m;
  webhook_url = url;
  secret_hash = hash;
  status = idle;
  last_seen_at = none;
  failure_streak_started_at = none;
  revoked_at = none;
}

pub create_binding : Binding → List Binding → List Binding
create_binding b bs = b ∷ bs

-- What `announce` is called with: the agent and its new status, or nothing.
abbrev pub News : Type 0
News = Option (ℕ × Status)

abbrev pub five_minutes : ℕ
five_minutes = 300_000_000_000

abbrev pub succeeded : ℕ → Binding → Binding
succeeded now b = record b {
  status = connected;
  last_seen_at = some now;
  failure_streak_started_at = none;
}

-- COALESCE(b.failure_streak_started_at, now())
abbrev pub streak_start : ℕ → Binding → ℕ
streak_start now b = elim b.failure_streak_started_at [ none ↦ now | some t ↦ t ]

abbrev pub failed : ℕ → Binding → Binding
failed now b =
    let start = streak_start now b in
    record b {
      failure_streak_started_at = some start;
      status = if leb (start + five_minutes) now then unreachable else b.status;
    }

-- What a changed row tells: its status, if that is not what it was.
abbrev pub news_of : (Binding → Binding) → Option Binding → News
news_of f none = none
news_of f (some b) =
    if status_eq b.status (f b).status then none else some (b.agent_id, (f b).status)

-- `RecordDeliverySuccess`; also `SocketConnected`.
unfoldable pub record_delivery_success : ℕ → ℕ → List Binding → List Binding × News
record_delivery_success now i bs =
    (update (is_live_row i) (succeeded now) bs, news_of (succeeded now) (find? (is_live_row i) bs))

unfoldable pub record_delivery_failure : ℕ → ℕ → List Binding → List Binding × News
record_delivery_failure now i bs =
    (update (is_live_row i) (failed now) bs, news_of (failed now) (find? (is_live_row i) bs))

-- id = $1 AND revoked_at IS NULL AND status = 'connected'
abbrev pub is_open_row : ℕ → Binding → Bool
is_open_row i b = is_live_row i b && is_connected b.status

abbrev pub went_idle : Binding → Binding
went_idle b = record b { status = idle }

-- `SocketClosed`: one that was connected is announced; any other row is left alone.
unfoldable pub socket_closed : ℕ → List Binding → List Binding × News
socket_closed i bs = (
  update (is_open_row i) went_idle bs,
  elim (find? (is_open_row i) bs) [ none ↦ none | some b ↦ some (b.agent_id, idle) ],
)

pub record Endpoint : Type 0 where
  pub binding_id : ℕ
  pub mode : Mode
  pub webhook_url : Text
  pub signing_key : ℕ

pub active_endpoint : ℕ → List Binding → Option Endpoint
unfolding get_active_binding
active_endpoint agent bs = elim (get_active_binding agent bs) [
  | none ↦ none
  | some b ↦ some (record {
    binding_id = b.id;
    mode = b.mode;
    webhook_url = elim b.webhook_url [ none ↦ [] | some u ↦ u ];
    signing_key = b.secret_hash;
  })
]

-- A caller names a mode in words; any word but these two is refused.
pub data ModeWord : Type 0 where
  word : Mode → ModeWord
  unknown : ModeWord

-- What `SetBinding` makes of the mode and the URL. `validate_url` is `validateWebhookURL`.
pub binding_target : (Text → Result Text) → ModeWord → Text → Result (Mode × Option Text)
binding_target validate_url (word socket) url = elim (trim_space url) [
  | [] ↦ ok (socket, none)
  | _ ∷ _ ↦ err (invalid_field "webhook_url" "invalid_webhook_url")
]
binding_target validate_url (word webhook) url = validate_url url >>= λ u. ok (webhook, some u)
binding_target validate_url unknown url = err (invalid_field "mode" "invalid_mode")

-- The announcement that ends this call and the next is left out.
-- `SetBinding`, once the caller is known to own the agent: in one transaction the binding that was
-- live is revoked and the new one made. `i` and `hash` are the fresh identifier and secret's hash.
pub set_binding :
    (Text → Result Text)
    → ℕ
    → ℕ
    → ℕ
    → ℕ
    → ModeWord
    → Text
    → List Binding
    → Result (List Binding × Binding)
unfolding binding_target revoke_active_binding create_binding
set_binding validate_url now i hash agent m url bs = binding_target validate_url m url >>= λ target.
    let b = new_binding i agent target.0 target.1 hash in
    ok (create_binding b (revoke_active_binding now agent bs).0, b)

-- `RevokeBinding`, once the caller is known to own the agent.
pub revoke_binding : ℕ → ℕ → List Binding → Result (List Binding)
unfolding revoke_active_binding
revoke_binding now agent bs =
    let (after, n) = revoke_active_binding now agent bs in
    if n == 0 then err (not_found_error "no_binding") else ok after
