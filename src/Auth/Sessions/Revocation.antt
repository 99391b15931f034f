-- ===== src/Auth/Sessions/Revocation.antt =====
-- Which tokens are refused after a logout, a change of password, or a revocation.
use mathlib.Core.Path.{subst}
use nextpanel.Prelude.{
  All, All_find, find_holds, is_some, find-update_where, any_of_find, ℕ, ◌+◌, ◌-◌, ◌^◌, ◌≤◌, ◌≡◌,
  ◌≢◌, refl, Bool, false, ◌||◌, [], Option, none, some, arith, Text, text_eq_iff, text_eq_refl,
  find, any, Bool-cases, Option-cases, inl, inr, ◌⊎◌, ltb, is_empty, find_of_key, Keyed, sym, ap,
}
use nextpanel.Prelude.Exec.{ok, err, Result}
use nextpanel.Auth.Model.{
  User, Db, AuthError, has_id, has_username, unauthorized, session_expired, update_user,
}
use nextpanel.Auth.Login.{Claims, Session, LoginDto, login, issue_token, reset_attempts}
use nextpanel.Auth.Login.Laws.{login_sound}
use nextpanel.Auth.Sessions.{
  whole, Payload, Principal, check_jti, has_jti, logout, purge_expired_tokens, claimed_version,
  is_version, validate, ChangePasswordDto, set_password, next_version, change_password,
  revoke_other_sessions,
}
use nextpanel.Auth.Sessions.Passwords.{change_password-row, revoke_other_sessions-row}

check_jti_cases :
    (jti : Option Text) (db : Db)
    → (check_jti jti db ≡ (ok tt, db)) ⊎ (check_jti jti db ≡ (err unauthorized, db))
unfolding check_jti
check_jti_cases none db = inl refl
check_jti_cases (some jti) db = elim (Bool-cases (is_empty jti)) [
  | inl empty ↦ inl (rw empty refl)
  | inr real ↦ elim (Bool-cases (any (has_jti jti) db.revoked)) [
    | inl gone ↦ inr (rw (real, gone) refl)
    | inr live ↦ inl (rw (real, live) refl)
  ]
]

-- `validate` refuses every payload whose version is not the row's.
validate-version :
    (p : Payload) (db : Db) (u : User)
    → find (has_id p.sub) db.users ≡ some u
    → is_version u.token_version (claimed_version p.token_version) ≡ false
    → (e : AuthError) × (validate p db ≡ (err e, db))
unfolding validate
validate-version p db u known differs = elim (check_jti_cases p.jti db) [
  | inl passed ↦ (session_expired, rw (validate, passed, known, differs) refl)
  | inr refused ↦ (unauthorized, rw (validate, refused) refl)
]

-- A token that the panel signed, as `validate` reads it.
abbrev pub payload_of : Claims → Option ℕ → Payload
payload_of c exp = record {
  sub = c.sub;
  jti = some c.jti;
  exp = exp;
  token_version = whole c.token_version;
}

abbrev pub claims_of : Text → User → Claims
claims_of jti u = record { sub = u.id; role = u.role; jti = jti; token_version = u.token_version }

validate-current :
    (c : Claims) (exp : Option ℕ) (db : Db) (u : User)
    → find (has_id c.sub) db.users ≡ some u
    → c.token_version ≡ u.token_version
    → c.token_version ≤ 2 ^ 53 - 1
    → any (has_jti c.jti) db.revoked ≡ false
    → validate (payload_of c exp) db
      ≡ (ok (record { user = u; jti = some c.jti; token_exp = exp }), db)
unfolding validate
validate-current c exp db u known same small live = ground (arith, known, same)

-- A token that was logged out stays refused by every purge up to its expiry.
pub logout-refused :
    (p : Payload) (jti : Text) (exp now : ℕ) (db : Db)
    → p.jti ≡ some jti
    → jti ≢ []
    → any (has_jti jti) db.revoked ≡ false
    → now ≤ exp
    → (validate p (logout jti exp db).1).0 ≡ err unauthorized
      × ((validate p (purge_expired_tokens now (logout jti exp db).1).1).0 ≡ err unauthorized)
unfolding validate logout purge_expired_tokens
logout-refused p jti exp now db mine real new early = ground (arith, text_eq_refl jti)

module _ (matches : Text → Text → Bool) (id : Text) (version : ℕ) (db : Db) (p : Payload)
    (mine : p.sub ≡ id) (old : claimed_version p.token_version ≢ some (version + 1)) where
  stale :
      (u : User) (after : Db)
      → u.token_version ≡ version + 1
      → find (has_id id) after.users ≡ some u
      → (e : AuthError) × (validate p after ≡ (err e, after))
  stale u after next known = validate-version p after u (rw mine known) (ground (arith, old))

  -- Once a password was changed, every token of the user whose version is not the new one is
  -- refused, those issued before and those without a version included.
  pub change_password_ends_sessions :
      (dto : ChangePasswordDto) (hash : Text)
      → (change_password matches id dto version hash db).0 ≡ ok tt
      → (e : AuthError) × (validate p (change_password matches id dto version hash db).1
          ≡ (err e, (change_password matches id dto version hash db).1))
  change_password_ends_sessions dto hash done =
      let (u, known, current, good, row) =
        change_password-row matches id version db dto hash done in
      stale (set_password hash u) (change_password matches id dto version hash db).1
        (ap (λ n. n + 1) current) row

  revoked_same :
      (sign : Claims → Text) (password jti : Text)
      → (revoke_other_sessions matches sign id password version jti db).1.revoked ≡ db.revoked
  unfolding revoke_other_sessions
  revoked_same sign password jti = elim (Option-cases (find (has_id id) db.users)) [
    | inl missing ↦ rw missing refl
    | inr (u, known) ↦ ground (arith, known)
  ]

  -- Revoking the other sessions refuses every token of another version, and the token that it
  -- returns is accepted, if its random id was not logged out before.
  pub revoke_keeps_one_session :
      (sign : Claims → Text) (password jti : Text) (s : Session) (exp : Option ℕ)
      → (revoke_other_sessions matches sign id password version jti db).0 ≡ ok s
      → any (has_jti jti) db.revoked ≡ false
      → version + 1 ≤ 2 ^ 53 - 1
      → ((e : AuthError) × (validate p
              (revoke_other_sessions matches sign id password version jti db).1
            ≡ (err e, (revoke_other_sessions matches sign id password version jti db).1)))
        × ((c : Claims) × (u : User) × (s.access_token ≡ sign c)
            × (c.sub ≡ id)
            × ((validate
                  (payload_of c exp)
                  (revoke_other_sessions matches sign id password version jti db).1).0
                ≡ ok (record { user = u; jti = some jti; token_exp = exp })))
  unfolding issue_token
  revoke_keeps_one_session sign password jti s exp done unused small =
      let (u, known, current, good, issued, row) =
        revoke_other_sessions-row matches id version db sign password jti s done in
      let same : u.id ≡ id = (text_eq_iff u.id id).0 (find_holds (has_id id) db.users u known) in
      let next : User = next_version u in
      let after : Db = (revoke_other_sessions matches sign id password version jti db).1 in
      (
        stale next after (ap (λ n. n + 1) current) row,
        (
          claims_of jti next,
          next,
          ap (λ (t : Session). t.access_token) issued,
          same,
          ap (λ (t : Result AuthError Principal × Db). t.0)
              (validate-current (claims_of jti next) exp after next
                (subst (λ k. find (has_id k) after.users ≡ some next) (sym same) row) refl
                (omega arith) (rw (revoked_same sign password jti) unused)),
        ),
      )

login-users-by-id :
    (sign : Claims → Text) (matches : Text → Text → Bool) (dto : LoginDto) (now later : ℕ)
    (jti : Text) (db : Db) (u : User) (s : Session)
    → find (has_id u.id) db.users ≡ some u
    → find (has_username dto.username) db.users ≡ some u
    → (login sign matches dto now later jti db).0 ≡ ok s
    → (v : User) × (find (has_id u.id) (login sign matches dto now later jti db).1.users ≡ some v)
      × (v.token_version ≡ u.token_version)
      × ((login sign matches dto now later jti db).1.revoked ≡ db.revoked)
unfolding login update_user
login-users-by-id sign matches dto now later jti db u s known named done =
    elim (Bool-cases (ltb 0 u.login_attempts || is_some u.locked_until)) [
      | inl marked ↦
          let there =
            any_of_find (has_username dto.username) (has_id u.id) db.users u named
              (text_eq_refl u.id) in
          let row =
            find-update_where (has_id u.id) (has_id u.id) reset_attempts db.users u (λ v. refl)
              known (text_eq_refl u.id) in
          (
            reset_attempts u,
            ground (arith, named, marked, there, row),
            refl,
            ground (arith, named, marked, there),
          )
      | inr clean ↦ (u, ground (arith, known, named), refl, ground (arith, named))
    ]

-- The token of a session that was just opened is accepted, if its random id was not logged out.
pub login-validate :
    (sign : Claims → Text) (matches : Text → Text → Bool) (dto : LoginDto) (now later : ℕ)
    (jti : Text) (db : Db) (s : Session) (exp : Option ℕ)
    → Keyed (λ (v : User). v.id) db.users
    → All (λ v. v.token_version ≤ 2 ^ 53 - 1) db.users
    → any (has_jti jti) db.revoked ≡ false
    → (login sign matches dto now later jti db).0 ≡ ok s
    → (c : Claims) × (v : User) × (s.access_token ≡ sign c)
      × ((validate (payload_of c exp) (login sign matches dto now later jti db).1).0
          ≡ ok (record { user = v; jti = some jti; token_exp = exp }))
unfolding issue_token
login-validate sign matches dto now later jti db s exp keyed small unused done =
    let (u, named, unlocked, good, issued) = login_sound sign matches dto now later jti db s done in
    let known =
      find_of_key (λ (v : User). v.id) (has_username dto.username) db.users u keyed named in
    let (v, row, same, revoked) =
      login-users-by-id sign matches dto now later jti db u s known named done in
    (
      claims_of jti u,
      v,
      ap (λ (t : Session). t.access_token) issued,
      ap (λ (t : Result AuthError Principal × Db). t.0)
          (validate-current (claims_of jti u) exp (login sign matches dto now later jti db).1 v row
            (sym same)
            (All_find (λ (w : User). w.token_version ≤ 2 ^ 53 - 1) (has_username dto.username)
              db.users u small named)
            (rw revoked unused)),
    )
