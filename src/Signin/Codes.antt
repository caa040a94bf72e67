-- ===== src/Signin/Codes.antt =====
-- `Start` and `Verify` of signin/service.go, with signin/validate.go and the table sign_in_codes. The
-- accounts belong to other packages: `Accounts` is what is used of them, over a state of their own.
-- `strings.ToLower`, `mail.ParseAddress`, the hash and the random code are arguments.
pub mod Newest
pub mod Access
mod Examples
use cuckoo.Base.{
  ℕ, ◌+◌, ◌*◌, Bool, true, false, ◌&&◌, ◌||◌, not, Option, none, some, List, [], ◌∷◌, ◌==◌, ltb,
  leb, is_some, if◌then◌else◌, update, filter, find?, length, take,
}
use cuckoo.Base.Text.{
  Text, codes, text_eq, byte_len, is_valid, trim_space, contains_any, contains_rune,
}
use cuckoo.Domain.Errors.{
  Error, Result, ok, err, internal_error, invalid_field, unauthorized_error, rate_limited_error,
  ◌>>=◌, ◌>>◌, refuse_if,
}
use cuckoo.Delivery.Schedule.{minute}
use cuckoo.Signin.Sessions.{Session, open_session}

abbrev pub code_ttl : ℕ
code_ttl = 10 * minute

abbrev pub code_attempts_max : ℕ
code_attempts_max = 5

abbrev pub email_max_len : ℕ
email_max_len = 320

abbrev pub device_name_max_len : ℕ
device_name_max_len = 80

pub record SignInCode : Type 0 where
  pub id : ℕ
  pub email : Text
  pub code_hash : ℕ
  pub attempts : ℕ
  pub expires_at : ℕ
  pub used_at : Option ℕ
  pub created_at : ℕ

abbrev pub new_code : ℕ → ℕ → Text → ℕ → SignInCode
new_code now i email hash = record {
  id = i;
  email = email;
  code_hash = hash;
  attempts = 0;
  expires_at = now + code_ttl;
  used_at = none;
  created_at = now;
}

pub create_sign_in_code : SignInCode → List SignInCode → List SignInCode
create_sign_in_code c rows = c ∷ rows

-- ORDER BY created_at DESC, id DESC
abbrev pub newer : SignInCode → SignInCode → Bool
newer c d = ltb d.created_at c.created_at || (c.created_at == d.created_at && ltb d.id c.id)

-- LIMIT 1
abbrev pub newest : List SignInCode → Option SignInCode
newest [] = none
newest (c ∷ rows) = elim (newest rows) [
  | none ↦ some c
  | some d ↦ if newer d c then some d else some c
]

pub get_latest_sign_in_code : Text → List SignInCode → Option SignInCode
get_latest_sign_in_code email rows = newest (filter (λ c. text_eq c.email email) rows)

abbrev pub tried : SignInCode → SignInCode
tried c = record c { attempts = c.attempts + 1 }

abbrev pub used : ℕ → SignInCode → SignInCode
used now c = record c { used_at = some now }

pub count_sign_in_attempt : ℕ → List SignInCode → List SignInCode
count_sign_in_attempt i = update (λ c. c.id == i) tried

pub mark_sign_in_code_used : ℕ → ℕ → List SignInCode → List SignInCode
mark_sign_in_code_used now i = update (λ c. c.id == i) (used now)

abbrev pub invalid_email : Error
invalid_email = invalid_field "email" "invalid_email"

abbrev is_address : Option Text → Text → Bool
is_address none email = false
is_address (some address) email = text_eq address email && contains_rune b'@' email

pub normalize_email : (Text → Text) → (Text → Option Text) → Text → Result Text
normalize_email lower parse_address raw =
    let email = lower (trim_space raw) in
    do
      refuse_if (text_eq email [] || ltb email_max_len (byte_len email) || not (is_valid email))
          invalid_email
      refuse_if (not (is_address (parse_address email) email)) invalid_email
      ok email

pub validate_device_name : Text → Result Text
validate_device_name raw =
    let name = trim_space raw in
    do
      refuse_if
          (not (is_valid name)
            || contains_any (codes "\n\r\t") name
            || ltb device_name_max_len (length name))
          (invalid_field "device_name" "invalid_device_name")
      ok name

-- The text before the first "@", or all of it.
before_at : Text → Text
before_at [] = []
before_at (c ∷ s) = let rest = before_at s in if c == b'@' then [] else c ∷ rest

pub display_name_for : Text → Text
unfolding before_at
display_name_for email =
    let local = trim_space (before_at email) in
    if text_eq local []
    then codes "New user"
    else if ltb 80 (length local)
    then take 80 local
    else local

abbrev pub invalid_code : Error
invalid_code = unauthorized_error "invalid_code"

-- `Start`: the rows after. `wait` is the limiter's answer for an address, and `sent` the mailer's.
pub start :
    (Text → Text)
    → (Text → Option Text)
    → (Text → ℕ)
    → (ℕ → Text → ℕ)
    → (Text → Text → Bool)
    → ℕ
    → ℕ
    → Text
    → Text
    → List SignInCode
    → List SignInCode × Result (Unit {0})
start lower parse_address wait hash sent now i code raw rows =
    elim (normalize_email lower parse_address raw) [
      | err e ↦ (rows, err e)
      | ok email ↦
          if ltb 0 (wait email)
          then (rows, err (rate_limited_error "too_many_codes" (wait email)))
          else (
            create_sign_in_code (new_code now i email (hash i code)) rows,
            if sent email code then ok tt else err internal_error,
          )
    ]

-- Identities, users and the welcome.
pub record Accounts : Type 1 where
  pub State : Type 0
  pub identity : Text → State → Option ℕ
  pub create_user : Text → State → Result (State × ℕ)
  pub create_identity : ℕ → Text → State → State
  pub welcome : ℕ → State → Result State
  pub get_user : ℕ → State → Result (Unit {0})

module _ (a : Accounts) where
  open a use {State}

  pub record Store : Type 0 where
    pub sign_in_codes : List SignInCode
    pub sessions : List Session
    pub accounts : State

  -- The person, and whether the account is new.
  pub account_for : Text → State → Result (State × ℕ × Bool)
  account_for email st = elim (a.identity email st) [
    | some user ↦ ok (st, user, false)
    | none ↦ a.create_user (display_name_for email) st >>= λ made.
        ok (a.create_identity made.1 email made.0, made.1, true)
  ]

  welcomed : State × ℕ × Bool → Result State
  welcomed (st, user, is_new) = if is_new then a.welcome user st else ok st

  -- The transaction: an error undoes all of it. `fresh` is the session's id and `token` its token's hash.
  pub sign_in : ℕ → ℕ → ℕ → Text → Text → ℕ → Store → Result (Store × ℕ)
  unfolding welcomed
  sign_in now fresh token email device i s = account_for email s.accounts >>= λ found.
      welcomed found >>= λ st. a.get_user found.1 st >>= λ _. ok (
        record {
          sign_in_codes = mark_sign_in_code_used now i s.sign_in_codes;
          sessions = open_session now fresh found.1 token device s.sessions;
          accounts = st;
        },
        found.1,
      )

  -- What was counted stays when the transaction is undone.
  committed : Store → Result (Store × ℕ) → Store × Result ℕ
  committed s (err e) = (s, err e)
  committed s (ok done) = (done.0, ok done.1)

  -- The code is live: the attempt is counted first, and then the guess is read. Calls run one at a
  -- time, so that what the count returns is one more than what was looked up.
  check_code :
      (ℕ → Text → ℕ) → ℕ → ℕ → ℕ → Text → Text → Text → SignInCode → Store → Store × Result ℕ
  unfolding committed
  check_code hash now fresh token email device guess row s =
      let counted = record s { sign_in_codes = count_sign_in_attempt row.id s.sign_in_codes } in
      if ltb code_attempts_max (row.attempts + 1)
      then (counted, err invalid_code)
      else if not (hash row.id (trim_space guess) == row.code_hash)
      then (counted, err invalid_code)
      else committed counted (sign_in now fresh token email device row.id counted)

  check_latest :
      (ℕ → Text → ℕ) → ℕ → ℕ → ℕ → Text → Text → Text → Option SignInCode → Store → Store × Result ℕ
  unfolding check_code
  check_latest hash now fresh token email device guess none s = (s, err invalid_code)
  check_latest hash now fresh token email device guess (some row) s =
      if is_some row.used_at || ltb row.expires_at now
      then (s, err invalid_code)
      else check_code hash now fresh token email device guess row s

  -- `Verify`: the state after, and the person who is signed in. `email` and `device` are what the
  -- address and the device's name were normalized to, or why they were refused.
  verify_as :
      (ℕ → Text → ℕ) → ℕ → ℕ → ℕ → Text → Result Text → Result Text → Store → Store × Result ℕ
  unfolding check_latest
  verify_as hash now fresh token guess (err e) device s = (s, err e)
  verify_as hash now fresh token guess (ok email) (err e) s = (s, err e)
  verify_as hash now fresh token guess (ok email) (ok device) s =
      check_latest hash now fresh token email device guess
        (get_latest_sign_in_code email s.sign_in_codes) s

  pub verify :
      (Text → Text)
      → (Text → Option Text)
      → (ℕ → Text → ℕ)
      → ℕ
      → ℕ
      → ℕ
      → Text
      → Text
      → Text
      → Store
      → Store × Result ℕ
  unfolding verify_as
  verify lower parse_address hash now fresh token raw guess device s =
      verify_as hash now fresh token guess (normalize_email lower parse_address raw)
        (validate_device_name device) s
