-- ===== src/Signin/Sessions/Push.antt =====
-- A notification address belongs to one session at most.
use cuckoo.Base.{
  ℕ, ◌≤◌, ◌≡◌, ◌⊎◌, inl, inr, true, false, ◌||◌, not, List, [], ◌∷◌, arith, ◌==◌, Bool-cases,
  update, count, ltb,
}
use cuckoo.Base.Keys.{count-Distinct}
use cuckoo.Base.Text.{Text, text_eq, trim_space, byte_len}
use cuckoo.Base.Trimming.{text_eq→eq}
use cuckoo.Domain.Errors.{ok, >>=-eq-ok, refuse_if}
use cuckoo.Signin.Sessions.{
  Session, has_token, holds_elsewhere, forget_push, keep_push, is_active_row, register_push,
  register_push_rows, is_platform, push_token_max,
}
use cuckoo.Signin.Sessions.Limit.{IsKeyed, session_ids}

abbrev pub IsPrivate : List Session → Type 0
IsPrivate rows = (token : Text) → count (has_token token) rows ≤ 1

-- Another address: it is held no more often than before.
others_fall :
    (now i : ℕ) (token other platform : Text) (rows : List Session)
    → text_eq token other ≡ false
    → count (has_token other) (
        update
          (is_active_row i)
          (keep_push now token platform)
          (update (holds_elsewhere token i) forget_push rows))
      ≤ count (has_token other) rows
others_fall now i token other platform [] h = omega arith
others_fall now i token other platform (s ∷ rows) h =
    ground (arith, others_fall now i token other platform rows h)

-- This address: only under the session's own key.
own_only :
    (now i : ℕ) (token platform : Text) (rows : List Session)
    → count (has_token token) (
        update
          (is_active_row i)
          (keep_push now token platform)
          (update (holds_elsewhere token i) forget_push rows))
      ≤ count (λ j. j == i) (session_ids rows)
own_only now i token platform [] = omega arith
own_only now i token platform (s ∷ rows) = ground (arith, own_only now i token platform rows)

-- In a keyed table, registering a notification address keeps every address with one session at
-- most.
pub register_push-IsPrivate :
    (now i : ℕ) (raw platform : Text) (rows after : List Session)
    → IsKeyed rows
    → IsPrivate rows
    → register_push now i raw platform rows ≡ ok after
    → IsPrivate after
unfolding register_push
register_push-IsPrivate now i raw platform rows after keyed one h other =
    let (_, _, checked) =
      >>=-eq-ok (refuse_if (text_eq token [] || ltb push_token_max (byte_len token)) _) _ h in
    let (_, _, stored) = >>=-eq-ok (refuse_if (not (is_platform platform)) _) _ checked in
    private (Bool-cases (text_eq token other)) (registered token stored)
  where
    token : Text
    token = trim_space raw

    placed : List Session
    placed =
        update (is_active_row i) (keep_push now token platform)
          (update (holds_elsewhere token i) forget_push rows)

    registered :
        (t : Text) → register_push_rows now i token platform rows ≡ ok after → placed ≡ after
    registered t e = unfold register_push_rows in ground arith

    private :
        (text_eq token other ≡ true) ⊎ (text_eq token other ≡ false)
        → placed ≡ after
        → count (has_token other) after ≤ 1
    private (inl same) e =
        rw (← e, ← text_eq→eq token other same)
          (omega
            (arith, own_only now i token platform rows, count-Distinct i (session_ids rows) keyed))
    private (inr differs) e =
        rw (← e) (omega (arith, others_fall now i token other platform rows differs, one other))
