-- ===== src/Signin/Sessions/Limit.antt =====
-- Signing in on one more device never leaves more than the limit signed in.
use cuckoo.Base.{
  ℕ, suc, ◌≤◌, ◌≡◌, refl, ap, subst, Bool, true, false, ◌||◌, List, [], ◌∷◌, ◌++◌, map, arith,
  length, filter, update, count, take, drop, All, All-append, All-of_filter, Distinct,
  length-take-le, take-append-drop, any,
}
use cuckoo.Base.Keys.{is_in, inside, length-inside}
use cuckoo.Base.Sorting.{sort_by, All-of_sort_by}
use cuckoo.Signin.Sessions.{
  Session, is_live_of, end_session, fresher, surplus, revoke_oldest_user_sessions,
}

abbrev pub session_ids : List Session → List ℕ
session_ids = map (λ s. s.id)

abbrev pub IsKeyed : List Session → Type 0
IsKeyed rows = Distinct (session_ids rows)

any-append {ℓ} :
    {A : Type ℓ} (p : A → Bool) (xs ys : List A) → any p (xs ++ ys) ≡ (any p xs || any p ys)
any-append p [] ys = refl
any-append p (x ∷ xs) ys = ground (arith, any-append p xs ys)

-- A row of either part of the order stands under a key of that part.
abbrev Kept : List ℕ → List ℕ → Session → Type 0
Kept kept gone s = is_in s.id gone ≡ false → is_in s.id kept ≡ true

own_keys :
    (rows : List Session) (P : Session → Type 0)
    → ((s : Session) → is_in s.id (session_ids rows) ≡ true → P s)
    → All P rows
own_keys [] P h = tt
own_keys (s ∷ rows) P h = (h s (ground arith), own_keys rows P (λ t e. h t (ground arith)))

Kept-rows :
    (n : ℕ) (queue : List Session)
    → All (Kept (session_ids (take n queue)) (session_ids (drop n queue))) queue
Kept-rows n queue = subst (All (Kept kept gone)) (take-append-drop n queue) (
    All-append (Kept kept gone) (take n queue) (drop n queue)
      (own_keys (take n queue) (Kept kept gone) (λ s e _. e))
      (own_keys (drop n queue) (Kept kept gone) (λ s e f. cc)))
  where
    kept : List ℕ
    kept = session_ids (take n queue)

    gone : List ℕ
    gone = session_ids (drop n queue)

-- Of the rows that a test picks, those that stay live are under the keys that were kept.
live_after :
    (now user : ℕ) (kept gone : List ℕ) (rows : List Session)
    → All (λ s. is_live_of now user s ≡ true → Kept kept gone s) rows
    → count (is_live_of now user) (update (λ s. is_in s.id gone) (end_session now) rows)
      ≤ length (inside kept (session_ids rows))
live_after now user kept gone [] h = omega arith
live_after now user kept gone (s ∷ rows) h =
    ground (arith, h.0, live_after now user kept gone rows h.1)

length-session_ids : (rows : List Session) → length (session_ids rows) ≡ length rows
length-session_ids [] = refl
length-session_ids (s ∷ rows) = ap suc (length-session_ids rows)

-- In a keyed table, a person held to a number of devices has at most that many live sessions,
-- whatever they had.
pub revoke_oldest-limit :
    (now user keep : ℕ) (rows : List Session)
    → IsKeyed rows
    → count (is_live_of now user) (revoke_oldest_user_sessions now user keep rows) ≤ keep
unfolding revoke_oldest_user_sessions surplus
revoke_oldest-limit now user keep rows keyed = omega (
  arith,
  live_after now user kept gone rows (
      All-of_filter (Kept kept gone) (is_live_of now user) rows (
        All-of_sort_by fresher (Kept kept gone) (filter (is_live_of now user) rows)
          (Kept-rows keep queue))),
  length-inside kept (session_ids rows) keyed,
  length-session_ids (take keep queue),
  length-take-le keep queue,
)
  where
    queue : List Session
    queue = sort_by fresher (filter (is_live_of now user) rows)

    kept : List ℕ
    kept = session_ids (take keep queue)

    gone : List ℕ
    gone = session_ids (drop keep queue)
