-- ===== src/Pairing/Tokens.antt =====
-- The table pair_tokens and its queries, store/gen/pairing.sql.go, and the calls of pairing/service.go
-- that an owner makes about codes. A code is known by its hash; `json.Valid` is an argument. Times are
-- nanoseconds, and one `now` serves a call.
pub mod Uses
pub mod Minted
use cuckoo.Base.{
  ℕ, ◌+◌, ◌-◌, ◌^◌, Bool, true, false, ◌&&◌, ◌||◌, not, Option, none, some, List, [], ◌∷◌, ◌++◌,
  ◌==◌, ltb, leb, is_none, is_some, if◌then◌else◌, find?, update, any, count, filter,
}
use cuckoo.Base.Text.{Text, codes, text_eq, byte_len}
use cuckoo.Base.Sorting.{sort_by}
use cuckoo.Domain.Errors.{
  Error, Result, ok, err, internal_error, invalid_field, forbidden_error, not_found_error, ◌>>=◌,
  ◌>>◌, refuse_if,
}
use cuckoo.Domain.Ids.{has_prefix}
use cuckoo.Agents.Registry.{Agent, get_owned, or_fail}

abbrev pub max_payload_bytes : ℕ
max_payload_bytes = 4096

abbrev pub kind_add_agent : Text
kind_add_agent = codes "add_agent"

pub record PairToken : Type 0 where
  pub id : ℕ
  pub token_hash : ℕ
  pub kind : Text
  pub agent_id : ℕ
  pub payload : Option Text
  pub max_uses : Option ℕ
  pub use_count : ℕ
  pub created_by_user_id : ℕ
  pub expires_at : Option ℕ
  pub created_at : ℕ
  pub revoked_at : Option ℕ

-- What an owner asks for.
pub record TokenInput : Type 0 where
  pub payload : Text
  pub max_uses : Option ℕ
  pub expires_in : Option ℕ

-- `CreatePairToken`; the columns that it does not name take their defaults.
abbrev pub new_token : ℕ → ℕ → ℕ → ℕ → Option Text → Option ℕ → ℕ → Option ℕ → PairToken
new_token now i hash agent payload uses caller expiry = record {
  id = i;
  token_hash = hash;
  kind = kind_add_agent;
  agent_id = agent;
  payload = payload;
  max_uses = uses;
  use_count = 0;
  created_by_user_id = caller;
  expires_at = expiry;
  created_at = now;
  revoked_at = none;
}

pub create_pair_token : PairToken → List PairToken → List PairToken
create_pair_token t rows = t ∷ rows

-- Empty and null are no payload.
check_payload : (Text → Bool) → Text → Result (Option Text)
check_payload json_valid payload =
    if text_eq payload [] || text_eq payload (codes "null") then ok none else do
      refuse_if (ltb max_payload_bytes (byte_len payload))
          (invalid_field "payload" "payload_too_large")
      refuse_if (not (json_valid payload)) (invalid_field "payload" "invalid_payload")
      ok (some payload)

check_max_uses : Option ℕ → Result (Option ℕ)
check_max_uses none = ok none
check_max_uses (some n) =
    if ltb n 1 || ltb 1_000_000 n
    then err (invalid_field "max_uses" "invalid_max_uses")
    else ok (some n)

-- A duration that is not positive is refused; as a natural number it is zero.
check_expiry : ℕ → Option ℕ → Result (Option ℕ)
check_expiry now none = ok none
check_expiry now (some d) =
    if d == 0 then err (invalid_field "expires_in" "invalid_expires_in") else ok (some (now + d))

abbrev pub agent_is_private : Error
agent_is_private = forbidden_error "agent_is_private"

-- `CreateToken`: the rows after. `i` is the fresh identifier and `hash` the fresh code's hash.
unfoldable pub create_token :
    (Text → Bool)
    → ℕ
    → ℕ
    → ℕ
    → ℕ
    → ℕ
    → TokenInput
    → List Agent
    → List PairToken
    → Result (List PairToken)
unfolding check_payload check_max_uses check_expiry get_owned create_pair_token
create_token json_valid now i hash caller agent_id input agents rows =
    get_owned caller agent_id agents >>= λ agent.
    refuse_if agent.private agent_is_private
    >> (check_payload json_valid input.payload >>= λ payload.
        check_max_uses input.max_uses >>= λ uses. check_expiry now input.expires_in >>= λ expiry.
        ok (create_pair_token (new_token now i hash agent_id payload uses caller expiry) rows))

-- ORDER BY created_at DESC, id DESC
abbrev pub token_newer : PairToken → PairToken → Bool
token_newer s t =
    ltb t.created_at s.created_at || (s.created_at == t.created_at && not (ltb s.id t.id))

pub list_pair_tokens_by_agent : ℕ → List PairToken → List PairToken
list_pair_tokens_by_agent agent rows = sort_by token_newer (filter (λ t. t.agent_id == agent) rows)

pub list_tokens : ℕ → ℕ → List Agent → List PairToken → Result (List PairToken)
unfolding get_owned list_pair_tokens_by_agent
list_tokens caller agent agents rows =
    get_owned caller agent agents >>= λ _. ok (list_pair_tokens_by_agent agent rows)

-- id = $1 AND agent_id = $2
abbrev pub is_token_of : ℕ → ℕ → PairToken → Bool
is_token_of i agent t = t.id == i && t.agent_id == agent

abbrev pub withdraw : ℕ → PairToken → PairToken
withdraw now t = record t { revoked_at = some now }

-- id = $1 AND agent_id = $2 AND revoked_at IS NULL
abbrev pub is_open_token : ℕ → ℕ → PairToken → Bool
is_open_token i agent t = is_token_of i agent t && is_none t.revoked_at

-- The rows after, and how many were changed.
pub revoke_pair_token : ℕ → ℕ → ℕ → List PairToken → List PairToken × ℕ
revoke_pair_token now i agent rows =
    (update (is_open_token i agent) (withdraw now) rows, count (is_open_token i agent) rows)

abbrev pub token_not_found : Error
token_not_found = not_found_error "token_not_found"

-- `RevokeToken`
pub revoke_token : ℕ → ℕ → ℕ → ℕ → List Agent → List PairToken → Result (List PairToken)
unfolding get_owned revoke_pair_token
revoke_token now caller agent i agents rows = get_owned caller agent agents >>= λ _.
    let revoked = revoke_pair_token now i agent rows in
    if revoked.1 == 0 then err token_not_found else ok revoked.0

pub get_pair_token : ℕ → ℕ → List PairToken → Option PairToken
get_pair_token i agent = find? (is_token_of i agent)

-- `Picture`: the link that a code lives at.
pub picture : (Text → ℕ) → Text → ℕ → ℕ → ℕ → Text → List Agent → List PairToken → Result Text
unfolding get_owned get_pair_token
picture hash public_url caller agent i code agents rows = get_owned caller agent agents >>= λ _.
    or_fail token_not_found (get_pair_token i agent rows) >>= λ row.
    if row.token_hash == hash code
    then ok (public_url ++ codes "/p/" ++ code)
    else err token_not_found

-- The join on agents finds the row whatever its `deleted_at`.
abbrev find_agent : ℕ → List Agent → Option Agent
find_agent i = find? (λ a. a.id == i)

-- The row with its agent's `deleted_at`; a code of no agent at all is not returned.
joined_row : List Agent → Option PairToken → Option (PairToken × Option ℕ)
joined_row agents none = none
joined_row agents (some t) = elim (find_agent t.agent_id agents) [
  | none ↦ none
  | some a ↦ some (t, a.deleted_at)
]

-- The column is unique, so that the first row is the only one.
pub get_pair_token_by_hash : ℕ → List Agent → List PairToken → Option (PairToken × Option ℕ)
unfolding joined_row
get_pair_token_by_hash hash agents rows = joined_row agents (find? (λ t. t.token_hash == hash) rows)

abbrev pub token_invalid : Error
token_invalid = not_found_error "invalid_token"

abbrev pub token_spent : Error
token_spent = not_found_error "token_spent"

abbrev pub is_past : ℕ → Option ℕ → Bool
is_past now none = false
is_past now (some t) = ltb t now

-- The `switch` of `lookup`.
still_good : ℕ → PairToken × Option ℕ → Result PairToken
still_good now (t, deleted) =
    if is_some deleted
    then err token_invalid
    else if is_some t.revoked_at
    then err (not_found_error "token_revoked")
    else if is_past now t.expires_at
    then err (not_found_error "token_expired")
    else ok t

abbrev pub code_prefix : Text
code_prefix = codes "pair_"

-- `lookup`
unfoldable pub lookup : (Text → ℕ) → ℕ → Text → List Agent → List PairToken → Result PairToken
unfolding still_good get_pair_token_by_hash
lookup hash now code agents rows =
    refuse_if (not (has_prefix code_prefix code)) token_invalid
    >> (or_fail token_invalid (get_pair_token_by_hash (hash code) agents rows) >>= λ row.
        still_good now row)

-- max_uses IS NULL OR use_count < max_uses
abbrev pub has_use : ℕ → Option ℕ → Bool
has_use n none = true
has_use n (some most) = ltb n most

-- row.MaxUses.Valid && row.UseCount >= row.MaxUses.Int32
abbrev pub is_used_up : ℕ → Option ℕ → Bool
is_used_up n none = false
is_used_up n (some most) = leb most n

pub spent : PairToken → Bool
spent t = is_used_up t.use_count t.max_uses

-- expires_at IS NULL OR expires_at > now()
abbrev pub is_unexpired : ℕ → Option ℕ → Bool
is_unexpired now none = true
is_unexpired now (some t) = ltb now t

abbrev pub can_use : ℕ → ℕ → PairToken → Bool
can_use now i t =
    t.id == i
    && is_none t.revoked_at
    && is_unexpired now t.expires_at
    && has_use t.use_count t.max_uses

abbrev pub use_once : PairToken → PairToken
use_once t = record t { use_count = t.use_count + 1 }

-- The column is a 32-bit integer: a sum past its range is a fault, and changes nothing.
abbrev pub at_limit : ℕ → ℕ → PairToken → Bool
at_limit now i t = can_use now i t && t.use_count == 2 ^ 31 - 1

-- The rows after, or none where no row was changed.
unfoldable pub use_pair_token : ℕ → ℕ → List PairToken → Result (Option (List PairToken))
use_pair_token now i rows =
    if any (at_limit now i) rows
    then err internal_error
    else if any (can_use now i) rows
    then ok (some (update (can_use now i) use_once rows))
    else ok none
