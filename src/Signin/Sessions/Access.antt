-- ===== src/Signin/Sessions/Access.antt =====
-- What a session that was ended can still do, over every order of the calls on the table.
use cuckoo.Base.{
  ℕ, ◌+◌, ◌≡◌, ◌≢◌, refl, subst, inl, inr, Bool, true, false, ◌&&◌, ◌||◌, not, Option, none, some,
  List, [], ◌∷◌, arith, ◌==◌, ltb, is_none, update, find?, find?-test, All, All-update, Bool-cases,
  Option-cases,
}
use cuckoo.Base.Keys.{is_in}
use cuckoo.Base.Text.{Text, text_eq, byte_len, trim_space}
use cuckoo.Domain.Errors.{ok, >>=-eq-ok, refuse_if}
use cuckoo.Domain.Ids.{has_prefix}
use cuckoo.Signin.Sessions.{
  Session, create_session, new_session, end_session, revoke_oldest_user_sessions, open_session,
  touch, see, seen_interval, resolve_token, resolved, authenticate_session, is_bearer,
  session_prefix, sign_out_device, sign_out_others, logout, is_own_session, is_other_session,
  register_push, register_push_rows, holds_elsewhere, forget_push, keep_push, is_active_row,
  is_platform, push_token_max, surplus, devices_max,
}
use cuckoo.Signin.Sessions.Limit.{session_ids}

-- One call on the table. A new session's id is one that no row has.
pub data Call : List Session → List Session → Type 0 where
  opened :
      {rows : List Session} (now i user hash : ℕ) (device : Text)
      → is_in i (session_ids rows) ≡ false
      → Call rows (open_session now i user hash device rows)
  resolved_token :
      {rows : List Session} (deleted : ℕ → Bool) (hash : Text → ℕ) (now : ℕ) (token : Text)
      → Call rows (resolve_token deleted hash now token rows).0
  device_ended :
      {rows after : List Session} (now user i : ℕ)
      → sign_out_device now user i rows ≡ ok after
      → Call rows after
  others_ended :
      {rows : List Session} (now user keep : ℕ) → Call rows (sign_out_others now user keep rows).0
  logged_out : {rows : List Session} (now i : ℕ) → Call rows (logout now i rows)
  push_registered :
      {rows after : List Session} (now i : ℕ) (raw platform : Text)
      → register_push now i raw platform rows ≡ ok after
      → Call rows after

pub data Calls : List Session → List Session → Type 0 where
  done : {rows : List Session} → Calls rows rows
  next : {rows mid after : List Session} → Call rows mid → Calls mid after → Calls rows after

-- The row of the id, where there is one, was ended.
abbrev pub Closed : ℕ → Session → Type 0
Closed i s = s.id ≡ i → is_none s.revoked_at ≡ false

-- The id is in use, and its session was ended.
abbrev pub IsEnded : ℕ → List Session → Type 0
IsEnded i rows = All (Closed i) rows × (is_in i (session_ids rows) ≡ true)

-- A change that keeps the id and does not open a row.
Keeps : (Session → Session) → Type 0
Keeps f =
    (s : Session)
    → ((f s).id ≡ s.id) × (is_none s.revoked_at ≡ false → is_none (f s).revoked_at ≡ false)

ids-update :
    (p : Session → Bool) (f : Session → Session) (rows : List Session)
    → Keeps f
    → session_ids (update p f rows) ≡ session_ids rows
unfolding Keeps
ids-update p f [] keep = refl
ids-update p f (s ∷ rows) keep = ground (arith, (keep s).0, ids-update p f rows keep)

IsEnded-update :
    (i : ℕ) (p : Session → Bool) (f : Session → Session) (rows : List Session)
    → Keeps f
    → IsEnded i rows
    → IsEnded i (update p f rows)
unfolding Keeps
IsEnded-update i p f rows keep (closed, known) = (
  All-update (Closed i) p f rows (λ s _ c e. (keep s).1 (c (rw (← (keep s).0) e))) closed,
  rw (ids-update p f rows keep) known,
)

end_session-Keeps : (now : ℕ) → Keeps (end_session now)
unfolding Keeps
end_session-Keeps now s = (refl, λ _. refl)

see-Keeps : (now : ℕ) → Keeps (see now)
unfolding Keeps
see-Keeps now s = (refl, λ h. h)

forget_push-Keeps : Keeps forget_push
unfolding Keeps
forget_push-Keeps s = (refl, λ h. h)

keep_push-Keeps : (now : ℕ) (token platform : Text) → Keeps (keep_push now token platform)
unfolding Keeps
keep_push-Keeps now token platform s = (refl, λ h. h)

touch-IsEnded :
    (i now j : ℕ) (seen : Option ℕ) (rows : List Session)
    → IsEnded i rows
    → IsEnded i (touch now j seen rows)
unfolding touch
touch-IsEnded i now j none rows h = IsEnded-update i _ (see now) rows (see-Keeps now) h
touch-IsEnded i now j (some t) rows h = elim (Bool-cases (ltb now (t + seen_interval))) [
  | inl e ↦ rw e h
  | inr e ↦ rw e (IsEnded-update i _ (see now) rows (see-Keeps now) h)
]

resolve_token-IsEnded :
    (i : ℕ) (deleted : ℕ → Bool) (hash : Text → ℕ) (now : ℕ) (token : Text) (rows : List Session)
    → IsEnded i rows
    → IsEnded i (resolve_token deleted hash now token rows).0
unfolding resolve_token
resolve_token-IsEnded i deleted hash now token rows h =
    elim (Bool-cases (has_prefix session_prefix token)) [
      | inr e ↦ rw e h
      | inl e ↦ rw e (found (authenticate_session deleted now (hash token) rows))
    ]
  where
    found : (s : Option Session) → IsEnded i (resolved now s rows).0
    found none = h
    found (some s) = touch-IsEnded i now s.id s.last_seen_at rows h

open_session-IsEnded :
    (i now j user hash : ℕ) (device : Text) (rows : List Session)
    → is_in j (session_ids rows) ≡ false
    → IsEnded i rows
    → IsEnded i (open_session now j user hash device rows)
unfolding open_session revoke_oldest_user_sessions create_session
open_session-IsEnded i now j user hash device rows new (closed, known) =
    IsEnded-update i (λ s. is_in s.id (surplus now user devices_max all)) (end_session now) all
      (end_session-Keeps now) (((λ e. fresh e), closed), ground (arith, known))
  where
    all : List Session
    all = new_session now j user hash device ∷ rows

    fresh : j ≡ i → is_none (new_session now j user hash device).revoked_at ≡ false
    fresh e = ground (arith, known, new, e)

register_push-IsEnded :
    (i now j : ℕ) (raw platform : Text) (rows after : List Session)
    → register_push now j raw platform rows ≡ ok after
    → IsEnded i rows
    → IsEnded i after
unfolding register_push register_push_rows
register_push-IsEnded i now j raw platform rows after e h =
    let (_, _, checked) =
      >>=-eq-ok (refuse_if (text_eq token [] || ltb push_token_max (byte_len token)) _) _ e in
    let (_, _, stored) = >>=-eq-ok (refuse_if (not (is_platform platform)) _) _ checked in
    subst (IsEnded i) (placed_after stored) (
      IsEnded-update i (is_active_row j) _ released (keep_push-Keeps now token platform)
        (IsEnded-update i (holds_elsewhere token j) forget_push rows forget_push-Keeps h))
  where
    token : Text
    token = trim_space raw

    released : List Session
    released = update (holds_elsewhere token j) forget_push rows

    placed_after :
        register_push_rows now j token platform rows ≡ ok after
        → update (is_active_row j) (keep_push now token platform) released ≡ after
    placed_after e = unfold register_push_rows in ground arith

-- No call opens a session again.
Call-IsEnded :
    (i : ℕ) {rows after : List Session} → Call rows after → IsEnded i rows → IsEnded i after
unfolding sign_out_device sign_out_others logout
Call-IsEnded i (opened {rows} now j user hash device new) h =
    open_session-IsEnded i now j user hash device rows new h
Call-IsEnded i (resolved_token {rows} deleted hash now token) h =
    resolve_token-IsEnded i deleted hash now token rows h
Call-IsEnded i (device_ended {rows} {after} now user j e) h =
    subst (IsEnded i) (ended e)
      (IsEnded-update i (is_own_session j user) (end_session now) rows (end_session-Keeps now) h)
  where
    ended :
        sign_out_device now user j rows ≡ ok after
        → update (is_own_session j user) (end_session now) rows ≡ after
    ended e = ground arith
Call-IsEnded i (others_ended {rows} now user keep) h =
    IsEnded-update i (is_other_session user keep) (end_session now) rows (end_session-Keeps now) h
Call-IsEnded i (logged_out {rows} now j) h =
    IsEnded-update i (λ s. s.id == j && is_none s.revoked_at) (end_session now) rows
      (end_session-Keeps now) h
Call-IsEnded i (push_registered {rows} {after} now j raw platform e) h =
    register_push-IsEnded i now j raw platform rows after e h

Calls-IsEnded :
    (i : ℕ) {rows after : List Session} → Calls rows after → IsEnded i rows → IsEnded i after
Calls-IsEnded i done h = h
Calls-IsEnded i (next c cs) h = Calls-IsEnded i cs (Call-IsEnded i c h)

find?-All {ℓ κ} :
    {A : Type ℓ} (P : A → Type κ) (p : A → Bool) (xs : List A) (a : A)
    → All P xs
    → find? p xs ≡ some a
    → P a
find?-All P p [] a h e = cc
find?-All P p (x ∷ xs) a h e = elim (Bool-cases (p x)) [
  | inl t ↦ subst P (first (rw t at e)) h.0
  | inr t ↦ find?-All P p xs a h.1 (rw t at e)
]
  where
    first : some x ≡ some a → x ≡ a
    first e = cc

-- Once a session was ended, no later sequence of the calls on the sessions makes a token resolve
-- to it again.
pub resolve_token-never_ended :
    (i : ℕ) (rows after : List Session)
    → IsEnded i rows
    → Calls rows after
    → (deleted : ℕ → Bool) (hash : Text → ℕ) (now : ℕ) (token : Text) (user : ℕ)
    → (resolve_token deleted hash now token after).1 ≢ ok (user, i)
unfolding resolve_token authenticate_session
resolve_token-never_ended i rows after ended calls deleted hash now token user e =
    elim (Option-cases (find? (is_bearer deleted now (hash token)) after)) [
      | inl n ↦ ground arith
      | inr (s, f) ↦
          let live = find?-test (is_bearer deleted now (hash token)) after s f in
          let closed =
            find?-All (Closed i) (is_bearer deleted now (hash token)) after s
              (Calls-IsEnded i calls ended).0 f in
          ground arith
    ]
