-- ===== src/Signin/Sessions/Examples.antt =====
-- A person on two devices, and another on one.
use cuckoo.Base.{
  ℕ, ◌≤◌, ◌≡◌, ◌≢◌, refl, Bool, true, false, none, some, List, [], ◌∷◌, arith, ==→eq, count, update,
}
use cuckoo.Base.Text.{Text, codes}
use cuckoo.Domain.Errors.{ok}
use cuckoo.Signin.Sessions.{
  Session, new_session, end_session, keep_push, is_live_of, revoke_oldest_user_sessions,
  resolve_token, logout, register_push, register_push_rows, surplus,
}
use cuckoo.Signin.Sessions.Limit.{IsKeyed, revoke_oldest-limit}
use cuckoo.Signin.Sessions.Push.{IsPrivate, register_push-IsPrivate}
use cuckoo.Signin.Sessions.Access.{done, next, logged_out, IsEnded, resolve_token-never_ended}

abbrev phone : Session
phone = new_session 10 1 50 900 (codes "phone")

abbrev tablet : Session
tablet = new_session 20 2 50 901 (codes "tablet")

abbrev stranger : Session
stranger = new_session 30 3 51 902 (codes "other")

abbrev table : List Session
table = stranger ∷ tablet ∷ phone ∷ []

table-IsKeyed : IsKeyed table
table-IsKeyed = ground arith

table-IsPrivate : IsPrivate table
table-IsPrivate token = omega arith

revoke_oldest-limit_example :
    count (is_live_of 40 50) (revoke_oldest_user_sessions 40 50 1 table) ≤ 1
revoke_oldest-limit_example = revoke_oldest-limit 40 50 1 table table-IsKeyed

oldest_goes :
    revoke_oldest_user_sessions 40 50 1 table ≡ stranger ∷ tablet ∷ end_session 40 phone ∷ []
unfolding revoke_oldest_user_sessions surplus cuckoo.Base.Sorting.sort_by
oldest_goes = refl

abbrev registered_table : List Session
registered_table = stranger ∷ keep_push 40 (codes "tok") (codes "ios") tablet ∷ phone ∷ []

registered : register_push 40 2 (codes "tok ") (codes "ios") table ≡ ok registered_table
unfolding register_push register_push_rows cuckoo.Base.Text.trim_space cuckoo.Base.Text.trim_right
    cuckoo.Base.Text.trim_left cuckoo.Base.Text.is_space cuckoo.Base.Text.byte_len
    cuckoo.Base.Text.width
registered = refl

register_push-IsPrivate_example : IsPrivate registered_table
register_push-IsPrivate_example =
    register_push-IsPrivate 40 2 (codes "tok ") (codes "ios") table registered_table table-IsKeyed
      table-IsPrivate registered

abbrev ended_table : List Session
ended_table = stranger ∷ tablet ∷ end_session 40 phone ∷ []

phone-IsEnded : IsEnded 1 ended_table
phone-IsEnded = ground arith

abbrev no_one : ℕ → Bool
no_one user = false

abbrev hashed : Text → ℕ
hashed token = 900

resolve_token-never_ended_example :
    (resolve_token no_one hashed 60 (codes "ses_tok_x") (logout 50 2 ended_table)).1 ≢ ok (50, 1)
resolve_token-never_ended_example =
    resolve_token-never_ended 1 ended_table (logout 50 2 ended_table) phone-IsEnded
      (next (logged_out 50 2) done) no_one hashed 60 (codes "ses_tok_x") 50
