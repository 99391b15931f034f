-- ===== src/Auth/Login.antt =====
-- `login` and `issueToken` of apps/server/src/auth/auth.service.ts. bcrypt's comparison and the
-- signing of tokens are parameters; the readings of the clock and the random id of the token are
-- arguments, `now` for the test of the lock and `later` for the reading that follows it.
pub mod Laws
pub mod Lockout
use nextpanel.Prelude.{
  ℕ, ◌+◌, ◌-◌, ◌*◌, ◌/◌, Bool, true, false, ◌||◌, Option, none, some, ltb, leb, if◌then◌else◌, Text,
  find, is_some,
}
use nextpanel.Prelude.Exec.{ok, err, pure, throw, gets, ◌>>=◌, ◌>>◌}
use nextpanel.Auth.Model.{
  User, Role, Db, Auth, invalid_credentials, account_locked, has_username, update_user,
}

abbrev pub max_login_attempts : ℕ
max_login_attempts = 10

abbrev pub lockout_minutes : ℕ
lockout_minutes = 15

pub record LoginDto : Type 0 where
  pub username : Text
  pub password : Text

-- What a token says: the claims `sub`, `role`, `jti` and `tokenVersion`.
pub record Claims : Type 0 where
  pub sub : Text
  pub role : Role
  pub jti : Text
  pub token_version : ℕ

pub record Session : Type 0 where
  pub access_token : Text
  pub id : Text
  pub username : Text
  pub role : Role

unfoldable pub is_locked : Option ℕ → ℕ → Bool
is_locked none now = false
is_locked (some until) now = ltb now until

-- Math.ceil((lockedUntil - Date.now()) / 60_000)
abbrev pub remaining_minutes : Option ℕ → ℕ → ℕ
remaining_minutes none at = 0
remaining_minutes (some until) at = (until - at + 59_999) / 60_000

abbrev pub reset_attempts : User → User
reset_attempts u = record u { login_attempts = 0; locked_until = none }

-- The update after a wrong password: its values are computed from the row that was read, `seen`.
unfoldable pub count_failure : ℕ → User → User → User
count_failure later seen row =
    let attempts = seen.login_attempts + 1 in
    if leb max_login_attempts attempts
    then record row { login_attempts = 0; locked_until = some (later + lockout_minutes * 60_000) }
    else record row { login_attempts = attempts }

module _ (sign : Claims → Text) where
  unfoldable pub issue_token : Text → User → Session
  issue_token jti u = record {
    access_token =
        sign (record { sub = u.id; role = u.role; jti = jti; token_version = u.token_version });
    id = u.id;
    username = u.username;
    role = u.role;
  }

  login_failed : ℕ → User → Auth Session
  login_failed later u = do update_user u.id (count_failure later u); throw invalid_credentials

  login_passed : Text → User → Auth Session
  login_passed jti u = do
    if ltb 0 u.login_attempts || is_some u.locked_until
        then update_user u.id reset_attempts
        else pure tt
    pure (issue_token jti u)

  module _ (matches : Text → Text → Bool) where
    login_known : LoginDto → ℕ → ℕ → Text → User → Auth Session
    login_known dto now later jti u =
        if is_locked u.locked_until now
        then throw (account_locked (remaining_minutes u.locked_until later))
        else if matches dto.password u.password_hash
        then login_passed jti u
        else login_failed later u

    -- An unknown name runs one comparison too, whose result is thrown away.
    login_found : LoginDto → ℕ → ℕ → Text → Option User → Auth Session
    login_found dto now later jti none = throw invalid_credentials
    login_found dto now later jti (some u) = login_known dto now later jti u

    unfoldable pub login : LoginDto → ℕ → ℕ → Text → Auth Session
    unfolding is_locked count_failure issue_token login_failed login_passed login_known login_found
    login dto now later jti = do
      found ← gets (λ db. find (has_username dto.username) db.users)
      login_found dto now later jti found
