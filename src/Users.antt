-- ===== src/Users.antt =====
-- server/internal/users/users.go and the reading side of users/service.go, over the table users.
use cuckoo.Base.{ℕ, ◌&&◌, Option, List, ◌==◌, find?, is_none}
use cuckoo.Base.Text.{Text}
use cuckoo.Domain.Errors.{Error, Result, not_found_error}
use cuckoo.Agents.Registry.{or_fail}

pub record User : Type 0 where
  pub id : ℕ
  pub display_name : Text
  pub locale : Text
  pub created_at : ℕ
  pub updated_at : ℕ
  pub deleted_at : Option ℕ
  pub avatar_media_id : Option ℕ
  pub timezone : Text

pub get_user : ℕ → List User → Option User
get_user i = find? (λ u. u.id == i && is_none u.deleted_at)

abbrev pub user_not_found : Error
user_not_found = not_found_error "user_not_found"

-- `Get`
pub find_user : ℕ → List User → Result User
unfolding get_user
find_user i rows = or_fail user_not_found (get_user i rows)
