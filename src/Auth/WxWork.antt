-- ===== src/Auth/WxWork.antt =====
-- The WeChat Work accounts of apps/server/src/auth/auth.service.ts. The name and the id that WeChat
-- Work reports, and the id that the database draws, are arguments.
pub mod Names
pub mod Binding
use nextpanel.Prelude.{
  ℕ, zero, suc, ◌+◌, Bool, true, false, ◌&&◌, ◌||◌, List, [], ◌∷◌, ◌++◌, Option, none, some, ◌==◌,
  if◌then◌else◌, Text, text, text_eq, is_empty, find, any, not, decimal, length, is_some,
}
use nextpanel.Prelude.Exec.{ok, err, pure, throw, gets, reject, ◌>>=◌, ◌>>◌}
use nextpanel.Auth.Model.{
  operator, User, Db, Auth, has_id, has_username, has_wx_id, is_text, create_user, update_user,
  same_wx_id, wx_bound_elsewhere, wx_not_bound, wx_only_account, unique_violation,
}
use nextpanel.Auth.Login.{Claims, Session, issue_token}

-- `${wxWorkName}-${suffix}`
abbrev pub suffixed : Text → ℕ → Text
suffixed name n = name ++ b'-' ∷ decimal n

-- the loop that looks for a free suffix; `none` means that the fuel ran out
unfoldable pub free_suffix : ℕ → List User → Text → ℕ → Option ℕ
free_suffix zero users name suffix = none
free_suffix (suc fuel) users name suffix =
    let rest = free_suffix fuel users name (suffix + 1) in
    if any (has_username (suffixed name suffix)) users then rest else some suffix

abbrev named : Text → Option ℕ → Option Text
named name none = none
named name (some n) = some (suffixed name n)

-- One round for each user and one more is enough: see the module Names.
unfoldable pub free_name : List User → Text → Option Text
unfolding free_suffix
free_name users name =
    if any (has_username name) users
    then named name (free_suffix (length users + 1) users name 2)
    else some name

abbrev pub wx_user : Text → Text → Text → Text → User
wx_user id username wx_id wx_name = record {
  id = id;
  username = username;
  password_hash = [];
  token_version = 0;
  role = operator;
  wx_work_user_id = some wx_id;
  wx_work_name = some wx_name;
  login_attempts = 0;
  locked_until = none;
}

abbrev set_wx_name : Text → User → User
set_wx_name name u = record u { wx_work_name = some name }

known_user : Text → User → Auth User
known_user wx_name u =
    if is_text wx_name u.wx_work_name
    then pure u
    else (do update_user u.id (set_wx_name wx_name); pure u)

-- the fuel of `free_name` is enough, so the first case does not arise
unknown_user : Text → Text → Text → Option Text → Auth User
unknown_user id wx_id wx_name none = throw unique_violation
unknown_user id wx_id wx_name (some username) = create_user (wx_user id username wx_id wx_name)

wx_row : Text → Text → Text → Option User → Auth User
unfolding known_user unknown_user
wx_row id wx_id wx_name (some u) = known_user wx_name u
wx_row id wx_id wx_name none = do
  username ← gets (λ db. free_name db.users wx_name)
  unknown_user id wx_id wx_name username

unfoldable pub wx_login : (Claims → Text) → Text → Text → Text → Text → Auth Session
unfolding wx_row issue_token create_user update_user
wx_login sign id jti wx_id wx_name = do
  found ← gets (λ db. find (has_wx_id wx_id) db.users)
  u ← wx_row id wx_id wx_name found
  pure (issue_token sign jti u)

bound_elsewhere : Text → Option User → Bool
bound_elsewhere id none = false
bound_elsewhere id (some u) = not (text_eq u.id id)

abbrev pub set_wx : Option Text → Option Text → User → User
set_wx wx_id wx_name u = record u { wx_work_user_id = wx_id; wx_work_name = wx_name }

unfoldable pub wx_bind : Text → Text → Text → Auth Unit
unfolding bound_elsewhere update_user
wx_bind id wx_id wx_name = do
  existing ← gets (λ db. find (has_wx_id wx_id) db.users)
  reject (bound_elsewhere id existing) wx_bound_elsewhere
  update_user id (set_wx (some wx_id) (some wx_name))

-- `!!user?.wxWorkUserId`; an empty id counts as none
abbrev pub has_text : Option Text → Bool
has_text none = false
has_text (some t) = not (is_empty t)

abbrev pub is_bound : Option User → Bool
is_bound none = false
is_bound (some u) = has_text u.wx_work_user_id

abbrev has_password : Option User → Bool
has_password none = false
has_password (some u) = not (is_empty u.password_hash)

unfoldable pub wx_unbind : Text → Auth Unit
unfolding update_user
wx_unbind id = do
  found ← gets (λ db. find (has_id id) db.users)
  reject (not (is_bound found)) wx_not_bound
  reject (not (has_password found)) wx_only_account
  update_user id (set_wx none none)

abbrev name_of : Option User → Option Text
name_of none = none
name_of (some u) = u.wx_work_name

unfoldable pub wx_bind_status : Text → Auth (Bool × Option Text)
wx_bind_status id =
    gets (λ db. (is_bound (find (has_id id) db.users), name_of (find (has_id id) db.users)))
