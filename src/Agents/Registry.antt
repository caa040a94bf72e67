-- ===== src/Agents/Registry.antt =====
-- agents/service.go: whose an agent is, and its retirement, over the queries of
-- store/gen/agents.sql.go. A picture, the suggestions and a description are carried as they are.
use cuckoo.Base.{
  ℕ, ◌≡◌, ap, Bool, ◌&&◌, ◌||◌, ltb, leb, Option, none, some, List, ◌==◌, if◌then◌else◌, find?,
  update, count, is_none, filter, take,
}
use cuckoo.Base.Text.{Text, text_eq}
use cuckoo.Base.Sorting.{sort_by}
use cuckoo.Domain.Errors.{
  Error, Result, ok, err, not_found_error, forbidden_error, ◌>>=◌, ok-injective,
}
use cuckoo.Agents.Bindings.{Binding, revoke_active_binding}

pub record Agent : Type 0 where
  pub id : ℕ
  pub owner_user_id : ℕ
  pub handle : Text
  pub display_name : Text
  pub description : Text
  pub created_at : ℕ
  pub updated_at : ℕ
  pub deleted_at : Option ℕ
  pub avatar_media_id : Option ℕ
  pub starters : Text
  pub private : Bool
  pub listed : Bool
  pub supports_schedules : Bool

-- id = $1 AND deleted_at IS NULL
abbrev pub is_kept : ℕ → Agent → Bool
is_kept i a = a.id == i && is_none a.deleted_at

unfoldable pub get_agent : ℕ → List Agent → Option Agent
get_agent i = find? (is_kept i)

unfoldable pub get_agent_by_handle : Text → List Agent → Option Agent
get_agent_by_handle handle = find? (λ a. text_eq a.handle handle && is_none a.deleted_at)

-- ORDER BY created_at ASC, id ASC
abbrev pub older : Agent → Agent → Bool
older a b = ltb a.created_at b.created_at || (a.created_at == b.created_at && leb a.id b.id)

pub list_catalogue : ℕ → List Agent → List Agent
list_catalogue n rows = take n (sort_by older (filter (λ a. a.listed && is_none a.deleted_at) rows))

abbrev pub agent_not_found : Error
agent_not_found = not_found_error "agent_not_found"

abbrev pub not_owner : Error
not_owner = forbidden_error "not_owner"

-- A row, or the error of a query that found none.
abbrev pub or_fail {ℓ} : {A : Type ℓ} → Error → Option A → Result A
or_fail e none = err e
or_fail e (some a) = ok a

pub or_fail-ok {ℓ} :
    {A : Type ℓ} (e : Error) (o : Option A) {a : A} → or_fail e o ≡ ok a → o ≡ some a
or_fail-ok e none h = cc
or_fail-ok e (some a) h = ap some (ok-injective h)

-- `Get`
pub get : ℕ → List Agent → Result Agent
unfolding get_agent
get i rows = or_fail agent_not_found (get_agent i rows)

-- `GetOwned`
unfoldable pub get_owned : ℕ → ℕ → List Agent → Result Agent
unfolding get
get_owned caller i rows =
    get i rows >>= λ agent. if agent.owner_user_id == caller then ok agent else err not_owner

abbrev pub retire : ℕ → Agent → Agent
retire now a = record a { deleted_at = some now; updated_at = now }

-- The rows after, and how many were changed.
pub soft_delete_agent : ℕ → ℕ → List Agent → List Agent × ℕ
soft_delete_agent now i rows = (update (is_kept i) (retire now) rows, count (is_kept i) rows)

-- `Delete`: the agents and the bindings after.
pub delete : ℕ → ℕ → ℕ → List Agent → List Binding → Result (List Agent × List Binding)
unfolding get_owned soft_delete_agent
delete now caller i rows bs = get_owned caller i rows >>= λ _.
    let retired = soft_delete_agent now i rows in
    if retired.1 == 0
    then err agent_not_found
    else ok (retired.0, (revoke_active_binding now i bs).0)
