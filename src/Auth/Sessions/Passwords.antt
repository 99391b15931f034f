-- ===== src/Auth/Sessions/Passwords.antt =====
-- What the change of a password and the revocation of other sessions do to the user's row.
use nextpanel.Prelude.{
  find_holds, ℕ, ◌≡◌, refl, Bool, true, false, ◌&&◌, some, arith, Text, text_eq, ◌==◌, text_eq_refl,
  find, find-update_where, Option-cases, inl, inr, Keyed, any_of_key, count_where_none,
  update_where_none,
}
use nextpanel.Prelude.Exec.{ok, err}
use nextpanel.Auth.Model.{User, Db, has_id, session_expired}
use nextpanel.Auth.Login.{Claims, Session, issue_token}
use nextpanel.Auth.Sessions.{
  ChangePasswordDto, unchanged, set_password, next_version, guarded_update, change_password,
  revoke_other_sessions, confirms,
}

module _ (id : Text) (seen : User) (version : ℕ) (f : User → User) (db : Db) where
  -- A row that changed since it was read, in its hash or its version, is left as it is.
  pub guarded_update-stale :
      (u : User)
      → Keyed (λ (v : User). v.id) db.users
      → find (has_id id) db.users ≡ some u
      → (text_eq u.password_hash seen.password_hash && u.token_version == version) ≡ false
      → guarded_update id seen version f db ≡ (err session_expired, db)
  unfolding guarded_update
  guarded_update-stale u keyed known stale =
      let none_fits =
        any_of_key (λ (v : User). v.id) id
          (λ v. text_eq v.password_hash seen.password_hash && v.token_version == version) db.users u
          keyed known stale in
      rw
        (
          count_where_none (unchanged id seen version) db.users none_fits,
          update_where_none (unchanged id seen version) f db.users none_fits,
        )
        refl

  -- The fresh row is rewritten, whether the count confirms it or not.
  pub guarded_update-row :
      ((v : User) → (f v).id ≡ v.id)
      → find (has_id id) db.users ≡ some seen
      → seen.token_version ≡ version
      → find (has_id id) (guarded_update id seen version f db).1.users ≡ some (f seen)
  unfolding guarded_update
  guarded_update-row same known current =
      let mine : unchanged id seen version seen ≡ true =
        ground
          (arith, find_holds (has_id id) db.users seen known, text_eq_refl seen.password_hash) in
      let row =
        find-update_where (has_id id) (unchanged id seen version) f db.users seen
          (λ v. rw (same v) refl) known mine in
      ground (arith, row)

module _ (matches : Text → Text → Bool) (id : Text) (version : ℕ) (db : Db) where
  -- A password that was changed belonged to the row that had the caller's version; the row now has
  -- the new hash and the next version.
  pub change_password-row :
      (dto : ChangePasswordDto) (hash : Text)
      → (change_password matches id dto version hash db).0 ≡ ok tt
      → (u : User) × (find (has_id id) db.users ≡ some u)
        × (u.token_version ≡ version)
        × (matches dto.current_password u.password_hash ≡ true)
        × (find (has_id id) (change_password matches id dto version hash db).1.users
            ≡ some (set_password hash u))
  unfolding change_password
  change_password-row dto hash done = elim (Option-cases (find (has_id id) db.users)) [
    | inl missing ↦ ground (arith, missing, done)
    | inr (u, known) ↦ (
      u,
      known,
      ground (arith, known),
      ground (arith, known),
      ground
          (arith, known, guarded_update-row id u version (set_password hash) db (λ v. refl) known),
    )
  ]

  pub revoke_other_sessions-row :
      (sign : Claims → Text) (password jti : Text) (s : Session)
      → (revoke_other_sessions matches sign id password version jti db).0 ≡ ok s
      → (u : User) × (find (has_id id) db.users ≡ some u)
        × (u.token_version ≡ version)
        × (confirms matches password u ≡ true)
        × (s ≡ issue_token sign jti (next_version u))
        × (find (has_id id) (revoke_other_sessions matches sign id password version jti db).1.users
            ≡ some (next_version u))
  unfolding revoke_other_sessions
  revoke_other_sessions-row sign password jti s done =
      elim (Option-cases (find (has_id id) db.users)) [
        | inl missing ↦ ground (arith, missing, done)
        | inr (u, known) ↦ (
          u,
          known,
          ground (arith, known),
          ground (arith, known),
          ground (arith, known),
          ground (arith, known, guarded_update-row id u version next_version db (λ v. refl) known),
        )
      ]
