-- ===== src/Auth/Login/Lockout.antt =====
-- The lockout over a series of calls of `login`, one after another.
use nextpanel.Prelude.{
  find-update_where, text_eq_refl, ℕ, ◌+◌, ◌*◌, ◌≤◌, ◌<◌, ◌≡◌, refl, Bool, true, false, List, [],
  ◌∷◌, Option, some, arith, Text, find, All, length, ap, ◌∙◌,
}
use nextpanel.Prelude.Exec.{Result, ok, err}
use nextpanel.Auth.Model.{User, Db, AuthError, has_username, has_id, account_locked}
use nextpanel.Auth.Login.{
  LoginDto, Claims, Session, login, is_locked, issue_token, reset_attempts, count_failure,
  remaining_minutes,
}
use nextpanel.Auth.Login.Laws.{login_wrong, login_right}

-- One call: the request, the two readings of the clock, and the random id of the token.
pub record Attempt : Type 0 where
  pub dto : LoginDto
  pub now : ℕ
  pub later : ℕ
  pub jti : Text

-- the row that a name finds
abbrev pub row_of : Text → Db → Option User
row_of name db = find (has_username name) db.users

-- The row after the tenth failure in a row, whose last reading of the clock was `later`.
abbrev pub locked_at : ℕ → User → User
locked_at later u = record u { login_attempts = 0; locked_until = some (later + 15 * 60_000) }

module _ (sign : Claims → Text) (matches : Text → Text → Bool) where
  abbrev pub try : Attempt → Db → Result AuthError Session × Db
  try a db = login sign matches a.dto a.now a.later a.jti db

  unfoldable pub try_all : List Attempt → Db → Db
  try_all [] db = db
  try_all (a ∷ rest) db = try_all rest (try a db).1

  -- A call under the name with a password that does not match the row, at a time at which the row is
  -- not locked: it never was, or its lock has expired.
  abbrev pub IsWrong : Text → User → Attempt → Type 0
  IsWrong name u a =
      (a.dto.username ≡ name)
      × (matches a.dto.password u.password_hash ≡ false)
      × (is_locked u.locked_until a.now ≡ false)

  wrong_row :
      (a : Attempt) (name : Text) (db : Db) (u : User)
      → row_of name db ≡ some u
      → IsWrong name u a
      → row_of name (try a db).1 ≡ some (count_failure a.later u u)
  unfolding count_failure
  wrong_row a name db u known (named, bad, unlocked) =
      let known' : row_of a.dto.username db ≡ some u = rw named known in
      rw (← named, login_wrong sign matches a.dto a.now a.later a.jti db u known' unlocked bad)
        (find-update_where (has_username a.dto.username) (has_id u.id) (count_failure a.later u)
          db.users u (λ v. ground arith) known' (text_eq_refl u.id))

  counted :
      (later : ℕ) (u : User)
      → u.login_attempts + 1 < 10
      → count_failure later u u ≡ record u { login_attempts = u.login_attempts + 1 }
  unfolding count_failure
  counted later u few = ground arith

  -- Below the limit every failure is counted, and nothing is locked.
  failures_counted :
      (attempts : List Attempt) (name : Text) (db : Db) (u : User)
      → row_of name db ≡ some u
      → All (IsWrong name u) attempts
      → u.login_attempts + length attempts < 10
      → row_of name (try_all attempts db)
        ≡ some (record u { login_attempts = u.login_attempts + length attempts })
  unfolding try_all is_locked
  failures_counted [] name db u known wrong few = ground (arith, known)
  failures_counted (a ∷ rest) name db u known (bad, wrong) few =
      let next : User = record u { login_attempts = u.login_attempts + 1 } in
      let row : row_of name (try a db).1 ≡ some next =
        wrong_row a name db u known bad ∙ ap some (counted a.later u (omega arith)) in
      failures_counted rest name (try a db).1 next row wrong (omega arith)
      ∙ ap (λ n. some (record u { login_attempts = n })) (omega arith)

  full :
      (later : ℕ) (u : User)
      → 10 ≤ u.login_attempts + 1
      → count_failure later u u ≡ locked_at later u
  unfolding count_failure
  full later u many = ground arith

  refused :
      (b : Attempt) (name : Text) (db : Db) (u : User)
      → row_of name db ≡ some u
      → b.dto.username ≡ name
      → is_locked u.locked_until b.now ≡ true
      → try b db ≡ (err (account_locked (remaining_minutes u.locked_until b.later)), db)
  unfolding login
  refused b name db u known named locked = rw (named, known, locked) refl

  module _ (attempts : List Attempt) (a : Attempt) (name : Text) (db : Db) (u : User)
      (known : row_of name db ≡ some u) (wrong : All (IsWrong name u) attempts)
      (bad : IsWrong name u a) (ten : u.login_attempts + length attempts + 1 ≡ 10) where
    tenth_row : row_of name (try a (try_all attempts db)).1 ≡ some (locked_at a.later u)
    unfolding is_locked
    tenth_row =
        let seen : User = record u { login_attempts = u.login_attempts + length attempts } in
        wrong_row a name (try_all attempts db) seen
          (failures_counted attempts name db u known wrong (omega arith)) bad
        ∙ ap some (full a.later seen (omega arith))

    -- After ten failures in a row under one name, those that the row counts already among them, the
    -- row is locked for fifteen minutes: until then every call under the name, whatever its password,
    -- is refused and changes nothing. The failures come while the row is not locked; it may have a
    -- lock that has expired.
    pub tenth_failure_locks :
        (b : Attempt)
        → b.dto.username ≡ name
        → b.now < a.later + 15 * 60_000
        → (row_of name (try a (try_all attempts db)).1 ≡ some (locked_at a.later u))
          × (try b (try a (try_all attempts db)).1 ≡ (
            err (account_locked (remaining_minutes (some (a.later + 15 * 60_000)) b.later)),
            (try a (try_all attempts db)).1,
          ))
    unfolding is_locked
    tenth_failure_locks b named early = (
      tenth_row,
      refused b name (try a (try_all attempts db)).1 (locked_at a.later u) tenth_row named
          (ground arith),
    )

    -- Once the fifteen minutes are over the right password opens a session and clears the lock.
    pub lock_expires :
        (b : Attempt)
        → b.dto.username ≡ name
        → a.later + 15 * 60_000 ≤ b.now
        → matches b.dto.password u.password_hash ≡ true
        → ((try b (try a (try_all attempts db)).1).0
            ≡ ok (issue_token sign b.jti (locked_at a.later u)))
          × (row_of name (try b (try a (try_all attempts db)).1).1 ≡ some (reset_attempts u))
    unfolding is_locked
    lock_expires b named late good =
        let start : Db = (try a (try_all attempts db)).1 in
        let row : row_of b.dto.username start ≡ some (locked_at a.later u) = rw named tenth_row in
        let (users, done, cleared) =
          login_right sign matches b.dto b.now b.later b.jti start (locked_at a.later u) row
            (ground arith) good in
        (rw done refl, rw (← named, done) cleared)
