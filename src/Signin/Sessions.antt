-- ===== src/Signin/Sessions.antt =====
-- The table sessions, its queries in store/gen/signin.sql.go, and the calls of signin/service.go that
-- are about sessions alone. Times are nanoseconds and `now` is an argument; a token and its hash are
-- what `hash` makes of it.
pub mod Limit
pub mod Push
pub mod Access
mod Examples
use cuckoo.Base.{
  ℕ, ◌+◌, ◌*◌, Bool, true, false, ◌&&◌, ◌||◌, not, Option, none, some, List, [], ◌∷◌, map, ◌==◌,
  ltb, leb, is_none, if◌then◌else◌, filter, update, count, find?, drop,
}
use cuckoo.Base.Keys.{is_in}
use cuckoo.Base.Sorting.{sort_by}
use cuckoo.Base.Text.{Text, codes, text_eq, byte_len, trim_space}
use cuckoo.Domain.Errors.{
  Result, ok, err, invalid_field, unauthorized_error, not_found_error, Error, ◌>>=◌, ◌>>◌,
  refuse_if,
}
use cuckoo.Domain.Ids.{has_prefix}
use cuckoo.Delivery.Schedule.{hour}

abbrev pub session_ttl : ℕ
session_ttl = 90 * (24 * hour)

abbrev pub devices_max : ℕ
devices_max = 10

abbrev pub seen_interval : ℕ
seen_interval = hour

abbrev pub push_token_max : ℕ
push_token_max = 256

pub record Session : Type 0 where
  pub id : ℕ
  pub user_id : ℕ
  pub token_hash : ℕ
  pub device_name : Text
  pub expires_at : ℕ
  pub last_seen_at : Option ℕ
  pub created_at : ℕ
  pub revoked_at : Option ℕ
  pub push_token : Option Text
  pub push_platform : Text
  pub push_registered_at : Option ℕ

abbrev pub new_session : ℕ → ℕ → ℕ → ℕ → Text → Session
new_session now i user hash device = record {
  id = i;
  user_id = user;
  token_hash = hash;
  device_name = device;
  expires_at = now + session_ttl;
  last_seen_at = none;
  created_at = now;
  revoked_at = none;
  push_token = none;
  push_platform = [];
  push_registered_at = none;
}

pub create_session : Session → List Session → List Session
create_session s rows = s ∷ rows

abbrev pub end_session : ℕ → Session → Session
end_session now s = record s { revoked_at = some now }

-- revoked_at IS NULL AND expires_at > now()
abbrev pub is_live : ℕ → Session → Bool
is_live now s = is_none s.revoked_at && ltb now s.expires_at

abbrev pub is_live_of : ℕ → ℕ → Session → Bool
is_live_of now user s = s.user_id == user && is_live now s

-- COALESCE(last_seen_at, created_at)
abbrev pub used_at : Session → ℕ
used_at s = elim s.last_seen_at [ none ↦ s.created_at | some t ↦ t ]

-- ORDER BY COALESCE(last_seen_at, created_at) DESC, id DESC
abbrev pub fresher : Session → Session → Bool
fresher s t = ltb (used_at t) (used_at s) || (used_at s == used_at t && leb t.id s.id)

-- The sessions past the first `keep` of a person's live ones.
pub surplus : ℕ → ℕ → ℕ → List Session → List ℕ
surplus now user keep rows =
    map (λ s. s.id) (drop keep (sort_by fresher (filter (is_live_of now user) rows)))

pub revoke_oldest_user_sessions : ℕ → ℕ → ℕ → List Session → List Session
revoke_oldest_user_sessions now user keep rows =
    let gone = surplus now user keep rows in update (λ s. is_in s.id gone) (end_session now) rows

-- The session that signing in makes, and the limit on devices that it holds the person to.
pub open_session : ℕ → ℕ → ℕ → ℕ → Text → List Session → List Session
open_session now i user hash device rows =
    revoke_oldest_user_sessions now user devices_max
      (create_session (new_session now i user hash device) rows)

-- token_hash = $1 AND revoked_at IS NULL AND expires_at > now() AND u.deleted_at IS NULL
abbrev pub is_bearer : (ℕ → Bool) → ℕ → ℕ → Session → Bool
is_bearer deleted now hash s = s.token_hash == hash && is_live now s && not (deleted s.user_id)

pub authenticate_session : (ℕ → Bool) → ℕ → ℕ → List Session → Option Session
authenticate_session deleted now hash = find? (is_bearer deleted now hash)

abbrev pub see : ℕ → Session → Session
see now s = record s { last_seen_at = some now }

-- `touch`: a session that was seen within the hour is not written again.
pub touch : ℕ → ℕ → Option ℕ → List Session → List Session
touch now i none rows = update (λ s. s.id == i) (see now) rows
touch now i (some seen) rows =
    if ltb now (seen + seen_interval) then rows else update (λ s. s.id == i) (see now) rows

abbrev pub bad_token : Error
bad_token = unauthorized_error "invalid_credentials"

abbrev pub session_prefix : Text
session_prefix = codes "ses_tok_"

abbrev resolved : ℕ → Option Session → List Session → List Session × Result (ℕ × ℕ)
resolved now none rows = (rows, err bad_token)
resolved now (some s) rows = (touch now s.id s.last_seen_at rows, ok (s.user_id, s.id))

-- `ResolveToken`: the rows after, and the person and session that the token belongs to. The code
-- reads a token only for a live session of a live account.
pub resolve_token :
    (ℕ → Bool) → (Text → ℕ) → ℕ → Text → List Session → List Session × Result (ℕ × ℕ)
resolve_token deleted hash now token rows =
    if has_prefix session_prefix token
    then resolved now (authenticate_session deleted now (hash token) rows) rows
    else (rows, err bad_token)

-- id = $1 AND user_id = $2 AND revoked_at IS NULL
abbrev pub is_own_session : ℕ → ℕ → Session → Bool
is_own_session i user s = s.id == i && s.user_id == user && is_none s.revoked_at

-- `SignOutDevice`
pub sign_out_device : ℕ → ℕ → ℕ → List Session → Result (List Session)
sign_out_device now user i rows =
    if count (is_own_session i user) rows == 0
    then err (not_found_error "device_not_found")
    else ok (update (is_own_session i user) (end_session now) rows)

-- user_id = $1 AND id <> $2 AND revoked_at IS NULL
abbrev pub is_other_session : ℕ → ℕ → Session → Bool
is_other_session user keep s = s.user_id == user && not (s.id == keep) && is_none s.revoked_at

-- `SignOutOthers`: the rows after, and how many were ended.
pub sign_out_others : ℕ → ℕ → ℕ → List Session → List Session × ℕ
sign_out_others now user keep rows = (
  update (is_other_session user keep) (end_session now) rows,
  count (is_other_session user keep) rows,
)

-- `Logout`
pub logout : ℕ → ℕ → List Session → List Session
logout now i = update (λ s. s.id == i && is_none s.revoked_at) (end_session now)

abbrev has_token : Text → Session → Bool
has_token token s = elim s.push_token [ none ↦ false | some t ↦ text_eq t token ]

-- push_token = $1 AND id <> $2
abbrev pub holds_elsewhere : Text → ℕ → Session → Bool
holds_elsewhere token i s = has_token token s && not (s.id == i)

abbrev pub forget_push : Session → Session
forget_push s = record s { push_token = none; push_platform = []; push_registered_at = none }

abbrev pub keep_push : ℕ → Text → Text → Session → Session
keep_push now token platform s = record s {
  push_token = some token;
  push_platform = platform;
  push_registered_at = some now;
}

abbrev is_active_row : ℕ → Session → Bool
is_active_row i s = s.id == i && is_none s.revoked_at

abbrev is_platform : Text → Bool
is_platform p = text_eq p [] || text_eq p (codes "android") || text_eq p (codes "ios")

-- The transaction of `RegisterPush`. Where the second statement finds no row, both are undone.
register_push_rows : ℕ → ℕ → Text → Text → List Session → Result (List Session)
register_push_rows now i token platform rows =
    let released = update (holds_elsewhere token i) forget_push rows in
    if count (is_active_row i) released == 0
    then err bad_token
    else ok (update (is_active_row i) (keep_push now token platform) released)

pub register_push : ℕ → ℕ → Text → Text → List Session → Result (List Session)
unfolding register_push_rows
register_push now i raw platform rows =
    let token = trim_space raw in
    do
      refuse_if (text_eq token [] || ltb push_token_max (byte_len token))
          (invalid_field "token" "invalid_push_token")
      refuse_if (not (is_platform platform)) (invalid_field "platform" "invalid_platform")
      register_push_rows now i token platform rows
