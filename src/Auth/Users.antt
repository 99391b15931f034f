-- ===== src/Auth/Users.antt =====
-- apps/server/src/users/users.service.ts: roles and removal of accounts.
pub mod Admins
use nextpanel.Prelude.{
  ℕ, Bool, true, false, ◌&&◌, List, [], ◌∷◌, Option, none, some, leb, if◌then◌else◌, Text, text_eq,
  find, keep, any, not, count_where,
}
use nextpanel.Prelude.Exec.{ok, err, pure, throw, gets, modify, reject, ◌>>=◌, ◌>>◌}
use nextpanel.Auth.Model.{
  Role, admin, operator, viewer, User, Db, Auth, has_id, update_user, own_role, user_not_found,
  other_admin, own_account, last_admin,
}

abbrev pub is_admin : Role → Bool
is_admin admin = true
is_admin _ = false

abbrev pub admin_row : User → Bool
admin_row u = is_admin u.role

existing : Option User → Auth User
existing none = throw user_not_found
existing (some u) = pure u

abbrev pub set_role : Role → User → User
set_role role u = record u { role = role }

unfoldable pub update_role : Text → Role → Text → Auth Unit
unfolding existing update_user
update_role id role requester = do
  reject (text_eq id requester) own_role
  found ← gets (λ db. find (has_id id) db.users)
  u ← existing found
  reject (is_admin u.role) other_admin
  update_user id (set_role role)

-- the count is read only where an administrator is to go
is_last : Role → List User → Bool
unfolding count_where
is_last role users = if is_admin role then leb (count_where admin_row users) 1 else false

-- That other tables refer to the user, so that the database may refuse, is not modelled.
unfoldable pub remove : Text → Text → Auth Unit
unfolding existing is_last
remove id requester = do
  reject (text_eq id requester) own_account
  found ← gets (λ db. find (has_id id) db.users)
  u ← existing found
  last ← gets (λ db. is_last u.role db.users)
  reject last last_admin
  modify (λ db. record db { users = keep (λ v. not (has_id id v)) db.users })
