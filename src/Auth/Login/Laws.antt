-- ===== src/Auth/Login/Laws.antt =====
-- What one call of `login` does to the tables.
use nextpanel.Prelude.{
  update_where, find-update_where, any_of_find, ℕ, ◌≡◌, refl, Bool, true, false, List, [], ◌∷◌, map,
  none, some, arith, Text, text_eq_refl, find, any, Bool-cases, inl, inr, Option-cases, ltb,
  is_some, ◌||◌,
}
use nextpanel.Prelude.Exec.{ok, err}
use nextpanel.Auth.Model.{User, Db, has_id, has_username, update_user, invalid_credentials}
use nextpanel.Auth.Login.{
  LoginDto, Claims, Session, login, is_locked, issue_token, reset_attempts, count_failure,
}

module _ (sign : Claims → Text) (matches : Text → Text → Bool) (dto : LoginDto) (now later : ℕ)
    (jti : Text) (db : Db) (u : User)
    (known : find (has_username dto.username) db.users ≡ some u) where
  has_row : any (has_id u.id) db.users ≡ true
  has_row =
      any_of_find (has_username dto.username) (has_id u.id) db.users u known (text_eq_refl u.id)

  pub login_wrong :
      is_locked u.locked_until now ≡ false
      → matches dto.password u.password_hash ≡ false
      → login sign matches dto now later jti db ≡ (
        err invalid_credentials,
        record db { users = update_where (has_id u.id) (count_failure later u) db.users },
      )
  unfolding login update_user
  login_wrong unlocked bad = rw (known, unlocked, bad, has_row) refl

  pub login_right :
      is_locked u.locked_until now ≡ false
      → matches dto.password u.password_hash ≡ true
      → (users : List User) × (login sign matches dto now later jti db
          ≡ (ok (issue_token sign jti u), record db { users = users }))
        × (find (has_username dto.username) users ≡ some (reset_attempts u))
  unfolding login update_user
  login_right unlocked good = elim (Bool-cases (ltb 0 u.login_attempts || is_some u.locked_until)) [
    | inl marked ↦ (
      update_where (has_id u.id) reset_attempts db.users,
      rw (known, unlocked, good, marked, has_row) refl,
      find-update_where (has_username dto.username) (has_id u.id) reset_attempts db.users u
          (λ v. refl) known (text_eq_refl u.id),
    )
    | inr clean ↦ (db.users, rw (known, unlocked, good, clean) refl, ground (arith, known))
  ]

-- What `login` may never touch: all but the two columns of the lock.
abbrev pub without_lock : User → User
without_lock u = record u { login_attempts = 0; locked_until = none }

map-update_where :
    (p : User → Bool) (f : User → User) (us : List User)
    → ((u : User) → without_lock (f u) ≡ without_lock u)
    → map without_lock (update_where p f us) ≡ map without_lock us
unfolding update_where
map-update_where p f [] same = refl
map-update_where p f (u ∷ us) same = ground (arith, same u, map-update_where p f us same)

-- Two states that differ in the columns of the lock only.
pub record SameButLocks (a b : Db) : Type 0 where
  pub users : map without_lock a.users ≡ map without_lock b.users
  pub invites : a.invites ≡ b.invites
  pub revoked : a.revoked ≡ b.revoked
  pub oauth_states : a.oauth_states ≡ b.oauth_states

update_user-SameButLocks :
    (id : Text) (f : User → User) (db : Db)
    → ((u : User) → without_lock (f u) ≡ without_lock u)
    → SameButLocks (update_user id f db).1 db
unfolding update_user
update_user-SameButLocks id f db same = ground (arith, map-update_where (has_id id) f db.users same)

SameButLocks-refl : (db : Db) → SameButLocks db db
SameButLocks-refl db = ground arith

count_failure-without_lock :
    (later : ℕ) (seen u : User) → without_lock (count_failure later seen u) ≡ without_lock u
unfolding count_failure
count_failure-without_lock later seen u = ground arith

-- Whatever the call and its outcome, `login` rewrites nothing but the columns of the lock.
pub login-SameButLocks :
    (sign : Claims → Text) (matches : Text → Text → Bool) (dto : LoginDto) (now later : ℕ)
    (jti : Text) (db : Db)
    → SameButLocks (login sign matches dto now later jti db).1 db
unfolding login
login-SameButLocks sign matches dto now later jti db =
    elim (Option-cases (find (has_username dto.username) db.users)) [
      | inl missing ↦ rw missing (SameButLocks-refl db)
      | inr (u, known) ↦ ground (
        arith,
        known,
        SameButLocks-refl db,
        update_user-SameButLocks u.id (count_failure later u) db
            (count_failure-without_lock later u),
        update_user-SameButLocks u.id reset_attempts db (λ v. refl),
      )
    ]

-- A session is opened only for a row of that name which is not locked and whose hash the password
-- matches, and its token carries that row's id, role and version.
pub login_sound :
    (sign : Claims → Text) (matches : Text → Text → Bool) (dto : LoginDto) (now later : ℕ)
    (jti : Text) (db : Db) (s : Session)
    → (login sign matches dto now later jti db).0 ≡ ok s
    → (u : User) × (find (has_username dto.username) db.users ≡ some u)
      × (is_locked u.locked_until now ≡ false)
      × (matches dto.password u.password_hash ≡ true)
      × (s ≡ issue_token sign jti u)
unfolding login
login_sound sign matches dto now later jti db s h =
    elim (Option-cases (find (has_username dto.username) db.users)) [
      | inl missing ↦ ground (arith, missing, h)
      | inr (u, known) ↦
          (u, known, ground (arith, known), ground (arith, known), ground (arith, known))
    ]
