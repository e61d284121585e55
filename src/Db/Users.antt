-- ===== src/Db/Users.antt =====
-- The queries of internal/db/queries.sql.go on the users and roles tables.
use mathlib.Core.List.{reverse}
use web3_blitz.Base.{
  ℕ, ◌+◌, Bool, ◌&&◌, ◌||◌, not, Option, none, some, List, [], ◌∷◌, ◌++◌, map, String, ◌==◌, str_eq,
  select, find_row, has_row, update_where, if◌then◌else◌,
}
use web3_blitz.Db.Models.{User, Role, Permission, UserRole, Tables}

-- UNIQUE(username) and UNIQUE(email); a refused INSERT still uses up an id.
unfoldable pub create_user : String → String → String → Tables → Option User × Tables
create_user username email password t =
    let row : User = record {
      id = t.user_seq;
      level = 0;
      username = username;
      email = email;
      password = password;
    } in
    let t' = record t { user_seq = t.user_seq + 1 } in
    if has_row (λ u. str_eq u.username username || str_eq u.email email) t.users
    then (none, t')
    else (some row, record t' { users = t.users ++ row ∷ [] })

unfoldable pub get_user_by_email : String → Tables → Option User
get_user_by_email email t = find_row (λ u. str_eq u.email email) t.users

unfoldable pub get_user_by_id : ℕ → Tables → Option User
get_user_by_id id t = find_row (λ u. u.id == id) t.users

unfoldable get_user_by_username : String → Tables → Option User
get_user_by_username name t = find_row (λ u. str_eq u.username name) t.users

abbrev level_of : User → ℕ
level_of u = u.level

unfoldable pub get_user_level : ℕ → Tables → Option ℕ
get_user_level id t = elim (find_row (λ u. u.id == id) t.users) [
  | none ↦ none
  | some u ↦ some (level_of u)
]

unfoldable pub update_user_level : ℕ → ℕ → Tables → Option (Unit {0}) × Tables
update_user_level level id t = (
  some tt,
  record t { users = update_where (λ u. u.id == id) (λ u. record u { level = level }) t.users },
)

unfoldable pub update_user_password : String → ℕ → Tables → Option (Unit {0}) × Tables
update_user_password password id t = (
  some tt,
  record t {
    users = update_where (λ u. u.id == id) (λ u. record u { password = password }) t.users;
  },
)

-- The joins of permissions, role_permissions and user_roles: a permission is granted to a user
-- when one of the user's roles has it.
abbrev has_role : ℕ → ℕ → List UserRole → Bool
has_role user role rs = has_row (λ ur. ur.user_id == user && ur.role_id == role) rs

abbrev pub is_granted : ℕ → Tables → Permission → Bool
is_granted user t p =
    has_row (λ rp. rp.permission_id == p.id && has_role user rp.role_id t.user_roles)
      t.role_permissions

-- SELECT DISTINCT p.name: permissions.name is UNIQUE, so one row for each granted permission.
unfoldable pub get_user_permissions : ℕ → Tables → Option (List String)
get_user_permissions user t = some (map (λ p. p.name) (select (is_granted user t) t.permissions))

unfoldable get_role_by_name : String → Tables → Option Role
get_role_by_name name t = find_row (λ r. str_eq r.name name) t.roles

unfoldable get_user_roles : ℕ → Tables → Option (List Role)
get_user_roles user t = some (select (λ r. has_role user r.id t.user_roles) t.roles)

unfoldable get_role_permissions : ℕ → Tables → Option (List Permission)
get_role_permissions role t = some (
    select (λ p. has_row (λ rp. rp.role_id == role && rp.permission_id == p.id) t.role_permissions)
      t.permissions)

-- ON CONFLICT DO NOTHING; the foreign keys refuse an unknown user or role.
unfoldable assign_role_to_user : ℕ → ℕ → Tables → Option (Unit {0}) × Tables
assign_role_to_user user role t =
    let row : UserRole = record { user_id = user; role_id = role } in
    if has_row (λ u. u.id == user) t.users && has_row (λ r. r.id == role) t.roles
    then if has_role user role t.user_roles
      then (some tt, t)
      else (some tt, record t { user_roles = t.user_roles ++ row ∷ [] })
    else (none, t)

unfoldable remove_role_from_user : ℕ → ℕ → Tables → Option (Unit {0}) × Tables
remove_role_from_user user role t = (
  some tt,
  record t {
    user_roles = select (λ ur. not (ur.user_id == user && ur.role_id == role)) t.user_roles;
  },
)

pub record ListUsersRow : Type 0 where
  pub id : ℕ
  pub level : ℕ
  pub username : String

abbrev list_users_row : User → ListUsersRow
list_users_row u = record { id = u.id; level = u.level; username = u.username }

-- ORDER BY created_at DESC; the rows stand in the order of their creation.
pub list_users : Tables → Option (List ListUsersRow)
list_users t = some (map list_users_row (reverse t.users))
