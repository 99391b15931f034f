-- ===== src/Auth/Model.antt =====
-- The rows of apps/server/prisma/schema.prisma that the account services read and write, and the
-- exceptions that they throw. The database is the state, one list of rows for each table; a
-- query is read as Prisma documents it, and each awaited query is one step.
use nextpanel.Prelude.{
  update_where, ℕ, Bool, false, List, ◌∷◌, Option, none, some, if◌then◌else◌, Text, text_eq, any,
  ◌||◌,
}
use nextpanel.Prelude.Exec.{Exec, ok, err}

pub data Role : Type 0 where
  admin operator viewer : Role

pub record User : Type 0 where
  pub id : Text
  pub username : Text
  pub password_hash : Text
  pub token_version : ℕ
  pub role : Role
  pub wx_work_user_id : Option Text
  pub wx_work_name : Option Text
  pub login_attempts : ℕ
  pub locked_until : Option ℕ

pub record InviteCode : Type 0 where
  pub id : Text
  pub code : Text
  pub max_uses : ℕ
  pub used_count : ℕ
  pub created_by : Text

pub record RevokedToken : Type 0 where
  pub jti : Text
  pub expires_at : ℕ

pub data Purpose : Type 0 where
  login bind : Purpose

pub record OauthState : Type 0 where
  pub id : Text
  pub browser_hash : Text
  pub purpose : Purpose
  pub user_id : Option Text
  pub expires_at : ℕ

pub record Db : Type 0 where
  pub users : List User
  pub invites : List InviteCode
  pub revoked : List RevokedToken
  pub oauth_states : List OauthState

-- The exceptions, by their message; `unique_violation` and `record_missing` are Prisma's.
pub data AuthError : Type 0 where
  invalid_credentials : AuthError
  account_locked : (minutes : ℕ) → AuthError
  invite_exhausted username_taken : AuthError
  unauthorized session_expired wrong_password reauthenticate : AuthError
  wx_bound_elsewhere wx_not_bound wx_only_account : AuthError
  oauth_invalid oauth_expired : AuthError
  code_exists invite_not_found : AuthError
  own_role user_not_found other_admin own_account last_admin : AuthError
  unique_violation record_missing : AuthError

abbrev pub Auth : Type 0 → Type 0
Auth A = Exec Db AuthError A

-- the `where` clauses on the unique columns
abbrev pub has_id : Text → User → Bool
has_id id u = text_eq u.id id

abbrev pub has_username : Text → User → Bool
has_username name u = text_eq u.username name

abbrev pub is_text : Text → Option Text → Bool
is_text t none = false
is_text t (some s) = text_eq s t

abbrev pub has_wx_id : Text → User → Bool
has_wx_id id u = is_text id u.wx_work_user_id

abbrev pub same_wx_id : Option Text → User → Bool
same_wx_id none v = false
same_wx_id (some id) v = has_wx_id id v

-- the unique constraints of model User
abbrev pub clashes : User → User → Bool
clashes u v = has_id u.id v || has_username u.username v || same_wx_id u.wx_work_user_id v

-- `user.create`
unfoldable pub create_user : User → Auth User
create_user u db =
    if any (clashes u) db.users
    then (err unique_violation, db)
    else (ok u, record db { users = u ∷ db.users })

-- `user.update({ where: { id } })`, which throws if no row has the id
unfoldable pub update_user : Text → (User → User) → Auth Unit
unfolding update_where
update_user id f db =
    if any (has_id id) db.users
    then (ok tt, record db { users = update_where (has_id id) f db.users })
    else (err record_missing, db)
