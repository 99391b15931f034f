-- ===== src/Auth/Register/Race.antt =====
-- Registrations that overlap: the reads of both come before the transaction of either.
use nextpanel.Prelude.{
  ◌+◌, ◌<◌, ◌≡◌, refl, true, false, Text, any, find, some, arith, update_where, find-update_where,
  any_of_find, text_eq_refl, ◌∷◌,
}
use nextpanel.Prelude.Exec.{ok}
use nextpanel.Auth.Model.{InviteCode, Db, clashes}
use nextpanel.Auth.Register.{
  RegisterDto, has_code, is_invite, use_once, new_user, check_register, commit_register,
}

commit_done :
    (dto : RegisterDto) (id hash : Text) (i : InviteCode) (db : Db)
    → any (clashes (new_user dto id hash)) db.users ≡ false
    → any (is_invite i.id) db.invites ≡ true
    → commit_register dto id hash i db ≡ (
      ok (new_user dto id hash),
      record db {
        users = new_user dto id hash ∷ db.users;
        invites = update_where (is_invite i.id) use_once db.invites;
      },
    )
unfolding commit_register
commit_done dto id hash i db new there = rw (new, there) refl

module _ (first second : RegisterDto) (id id' hash hash' : Text) (i : InviteCode) (db : Db) where
  -- Where a code has one use left, two registrations that both passed the check of the code before
  -- either was written both succeed, and use the code twice: the number of uses is then beyond what
  -- the code allows. The user of the first clashes with no user of the table, and that of the second
  -- with none of them and not with the first, in name or identifier.
  pub overlap_overuses :
      (code : Text)
      → find (has_code code) db.invites ≡ some i
      → (check_register first db).0 ≡ ok i
      → (check_register second db).0 ≡ ok i
      → i.used_count + 1 ≡ i.max_uses
      → any (clashes (new_user first id hash)) db.users ≡ false
      → any (clashes (new_user second id' hash')) (new_user first id hash ∷ db.users) ≡ false
      → ((commit_register first id hash i db).0 ≡ ok (new_user first id hash))
        × ((commit_register second id' hash' i (commit_register first id hash i db).1).0
            ≡ ok (new_user second id' hash'))
        × (find
              (has_code code)
              (commit_register second id' hash' i (commit_register first id hash i db).1).1.invites
            ≡ some (use_once (use_once i)))
        × (i.max_uses < (use_once (use_once i)).used_count)
  overlap_overuses code known passed passed' last new new' =
      let p = has_code code in
      let q = is_invite i.id in
      let there = any_of_find p q db.invites i known (text_eq_refl i.id) in
      let next =
        find-update_where p q use_once db.invites i (λ j. refl) known (text_eq_refl i.id) in
      let there' =
        any_of_find p q (update_where q use_once db.invites) (use_once i) next
          (text_eq_refl i.id) in
      let middle : Db = record db {
        users = new_user first id hash ∷ db.users;
        invites = update_where q use_once db.invites;
      } in
      let done = commit_done first id hash i db new there in
      let done' = commit_done second id' hash' i middle new' there' in
      (
        rw done refl,
        rw (done, done') refl,
        rw (done, done')
            (find-update_where p q use_once (update_where q use_once db.invites) (use_once i)
              (λ j. refl) next (text_eq_refl i.id)),
        omega arith,
      )
