-- ===== src/Auth/WxWork/Binding.antt =====
-- Accounts made by WeChat Work: one for each id, and never left without a way to sign in.
use nextpanel.Prelude.{
  ◌≡◌, refl, false, none, some, arith, Text, text_eq_refl, find, any, find-update_where,
  any_of_find, find_holds, Bool-cases, Option-cases, inl, inr, ◌⊎◌, is_empty,
}
use nextpanel.Prelude.Exec.{ok}
use nextpanel.Auth.Model.{User, Db, has_id, has_username, has_wx_id, is_text}
use nextpanel.Auth.Login.{Claims, Session}
use nextpanel.Auth.WxWork.{wx_user, wx_login, wx_unbind, set_wx, set_wx_name}
use nextpanel.Auth.WxWork.Names.{free_name-free}

-- A login by WeChat Work ends with a row that has the WeChat Work id, under the id and the name
-- that the session names: an existing one where there was one, and else a new one, whose name no
-- other user had.
pub wx_login-row :
    (sign : Claims → Text) (id jti wx_id wx_name : Text) (db : Db) (s : Session)
    → (wx_login sign id jti wx_id wx_name db).0 ≡ ok s
    → (u : User) × (find (has_wx_id wx_id) (wx_login sign id jti wx_id wx_name db).1.users ≡ some u)
      × (u.id ≡ s.id)
      × (u.username ≡ s.username)
      × (((v : User) × (find (has_wx_id wx_id) db.users ≡ some v))
          ⊎ (any (has_username u.username) db.users ≡ false))
unfolding wx_login
wx_login-row sign id jti wx_id wx_name db s done =
    elim (Option-cases (find (has_wx_id wx_id) db.users)) [
      | inl missing ↦
          let (name, found, free) = free_name-free db.users wx_name in
          (
            wx_user id name wx_id wx_name,
            ground (arith, missing, found, done, text_eq_refl wx_id),
            ground (arith, missing, found, done),
            ground (arith, missing, found, done),
            inr free,
          )
      | inr (u, known) ↦ elim (Bool-cases (is_text wx_name u.wx_work_name)) [
        | inl same ↦ (
          u,
          ground (arith, known, same),
          ground (arith, known, same, done),
          ground (arith, known, same, done),
          inl (u, known),
        )
        | inr other ↦
            let there =
              any_of_find (has_wx_id wx_id) (has_id u.id) db.users u known (text_eq_refl u.id) in
            let row =
              find-update_where (has_wx_id wx_id) (has_id u.id) (set_wx_name wx_name) db.users u
                (λ v. refl) known (text_eq_refl u.id) in
            (
              set_wx_name wx_name u,
              ground (arith, known, other, there, row),
              ground (arith, known, other, there, done),
              ground (arith, known, other, there, done),
              inl (u, known),
            )
      ]
    ]

-- An account is unbound only where it keeps a password to sign in with, and is then unbound.
pub wx_unbind-row :
    (id : Text) (db : Db)
    → (wx_unbind id db).0 ≡ ok tt
    → (u : User) × (find (has_id id) db.users ≡ some u)
      × (is_empty u.password_hash ≡ false)
      × (find (has_id id) (wx_unbind id db).1.users ≡ some (set_wx none none u))
unfolding wx_unbind
wx_unbind-row id db done = elim (Option-cases (find (has_id id) db.users)) [
  | inl missing ↦ ground (arith, missing, done)
  | inr (u, known) ↦
      let mine = find_holds (has_id id) db.users u known in
      let there = any_of_find (has_id id) (has_id id) db.users u known mine in
      let row =
        find-update_where (has_id id) (has_id id) (set_wx none none) db.users u (λ v. refl) known
          mine in
      (u, known, ground (arith, known, done), ground (arith, known, done, there, row))
]
