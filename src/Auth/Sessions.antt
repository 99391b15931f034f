-- ===== src/Auth/Sessions.antt =====
-- Tokens after the login: logout, the change of a password and the revocation of other sessions of
-- apps/server/src/auth/auth.service.ts, `validate` of auth/jwt.strategy.ts, and
-- common/guards/roles.guard.ts. A reading of the clock, the hash of a new password and the random
-- id of a token are arguments; bcrypt's comparison and the signing are parameters.
pub mod Revocation
pub mod Passwords
use nextpanel.Prelude.{
  ℕ, ◌+◌, ◌-◌, ◌^◌, Bool, true, false, ◌&&◌, ◌||◌, List, [], ◌∷◌, Option, none, some, ltb, leb,
  ◌==◌, if◌then◌else◌, Text, text_eq, is_empty, find, keep, any, not, update_where, count_where,
}
use nextpanel.Prelude.Exec.{ok, err, pure, throw, gets, modify, reject, ◌>>=◌, ◌>>◌}
use nextpanel.Auth.Model.{
  Role, User, RevokedToken, Db, Auth, AuthError, unauthorized, session_expired, wrong_password,
  reauthenticate, has_id,
}
use nextpanel.Auth.Login.{Claims, Session, issue_token}

-- The claim `tokenVersion` of a payload: missing, a number that JavaScript holds exactly, or
-- anything else.
pub data VersionClaim : Type 0 where
  absent : VersionClaim
  whole : ℕ → VersionClaim
  other : VersionClaim

pub record Payload : Type 0 where
  pub sub : Text
  pub jti : Option Text
  pub exp : Option ℕ
  pub token_version : VersionClaim

-- what `validate` attaches to the request
pub record Principal : Type 0 where
  pub user : User
  pub jti : Option Text
  pub token_exp : Option ℕ

abbrev pub has_jti : Text → RevokedToken → Bool
has_jti jti t = text_eq t.jti jti

-- `upsert` with an empty update
unfoldable pub logout : Text → ℕ → Auth Unit
logout jti expires_at db =
    if any (has_jti jti) db.revoked
    then (ok tt, db)
    else (ok tt, record db { revoked = record { jti = jti; expires_at = expires_at } ∷ db.revoked })

unfoldable pub is_token_revoked : Text → Auth Bool
is_token_revoked jti = gets (λ db. any (has_jti jti) db.revoked)

-- `purgeExpiredTokens`
unfoldable pub purge_expired_tokens : ℕ → Auth Unit
purge_expired_tokens now =
    modify (λ db. record db { revoked = keep (λ t. not (ltb t.expires_at now)) db.revoked })

-- Number.isSafeInteger(v) && v >= 0
unfoldable pub claimed_version : VersionClaim → Option ℕ
claimed_version absent = some 0
claimed_version (whole n) = if leb n (2 ^ 53 - 1) then some n else none
claimed_version other = none

abbrev pub is_version : ℕ → Option ℕ → Bool
is_version v none = false
is_version v (some n) = n == v

-- `if (payload.jti) { … }`
check_jti : Option Text → Auth Unit
unfolding is_token_revoked
check_jti none = pure tt
check_jti (some jti) =
    if is_empty jti
    then pure tt
    else (do revoked ← is_token_revoked jti; reject revoked unauthorized)

check_version : Payload → Option User → Auth Principal
check_version p none = throw unauthorized
check_version p (some u) =
    if is_version u.token_version (claimed_version p.token_version)
    then pure (record { user = u; jti = p.jti; token_exp = p.exp })
    else throw session_expired

unfoldable pub validate : Payload → Auth Principal
unfolding check_jti check_version claimed_version
validate p = do
  check_jti p.jti
  found ← gets (λ db. find (has_id p.sub) db.users)
  check_version p found

pub record ChangePasswordDto : Type 0 where
  pub current_password : Text
  pub new_password : Text

-- `!user || user.tokenVersion !== tokenVersion`
current_row : ℕ → Option User → Auth User
current_row version none = throw unauthorized
current_row version (some u) = if u.token_version == version then pure u else throw unauthorized

-- the `where` of the guarded update: the row must be as it was read
abbrev pub unchanged : Text → User → ℕ → User → Bool
unchanged id seen version u =
    has_id id u && (text_eq u.password_hash seen.password_hash && u.token_version == version)

-- `updateMany` under that `where`; a count other than 1 is a session that another call ended
unfoldable pub guarded_update : Text → User → ℕ → (User → User) → Auth Unit
unfolding update_where count_where
guarded_update id seen version f db =
    let after = record db { users = update_where (unchanged id seen version) f db.users } in
    if count_where (unchanged id seen version) db.users == 1
    then (ok tt, after)
    else (err session_expired, after)

abbrev pub set_password : Text → User → User
set_password hash u = record u { password_hash = hash; token_version = u.token_version + 1 }

abbrev pub next_version : User → User
next_version u = record u { token_version = u.token_version + 1 }

module _ (matches : Text → Text → Bool) where
  unfoldable pub change_password : Text → ChangePasswordDto → ℕ → Text → Auth Unit
  unfolding current_row guarded_update
  change_password id dto version hash = do
    found ← gets (λ db. find (has_id id) db.users)
    u ← current_row version found
    reject (not (matches dto.current_password u.password_hash)) wrong_password
    guarded_update id u version (set_password hash)

  -- an account without a password is refused before any comparison
  abbrev confirms : Text → User → Bool
  confirms password u = not (is_empty u.password_hash) && matches password u.password_hash

  unfoldable pub revoke_other_sessions : (Claims → Text) → Text → Text → ℕ → Text → Auth Session
  unfolding current_row guarded_update issue_token
  revoke_other_sessions sign id password version jti = do
    found ← gets (λ db. find (has_id id) db.users)
    u ← current_row version found
    reject (not (confirms password u)) wrong_password
    guarded_update id u version next_version
    pure (issue_token sign jti (record u { token_version = version + 1 }))

  abbrev may_confirm : Text → Option User → Bool
  may_confirm password none = false
  may_confirm password (some u) = confirms password u

  unfoldable pub verify_password : Text → Text → Auth Unit
  verify_password id password = do
    found ← gets (λ db. find (has_id id) db.users)
    reject (not (may_confirm password found)) reauthenticate

-- `canActivate`: the roles that a handler asks for, if any, and the role of the request's user
unfoldable pub can_activate : (Role → Role → Bool) → Option (List Role) → Option Role → Bool
can_activate same none role = true
can_activate same (some []) role = true
can_activate same (some (r ∷ rs)) none = false
can_activate same (some (r ∷ rs)) (some role) = any (λ q. same q role) (r ∷ rs)
