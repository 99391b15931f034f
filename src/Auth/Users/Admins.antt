-- ===== src/Auth/Users/Admins.antt =====
-- An administrator stays, whatever roles are changed and whichever accounts are removed.
use nextpanel.Prelude.{
  ◌+◌, ◌≤◌, ◌≡◌, refl, false, not, List, [], ◌∷◌, some, arith, Text, text_eq_iff, find, any, keep,
  update_where, count_where, update_where_none, has_key, Keyed, Option-cases, inl, inr,
  if◌then◌else◌,
}
use nextpanel.Auth.Model.{Role, User, Db, has_id}
use nextpanel.Auth.Users.{admin_row, set_role, update_role, remove}

abbrev pub user_id : User → Text
user_id u = u.id

any-set_role :
    (k id : Text) (role : Role) (us : List User)
    → any (has_key user_id k) (update_where (has_id id) (set_role role) us)
      ≡ any (has_key user_id k) us
unfolding update_where
any-set_role k id role [] = refl
any-set_role k id role (u ∷ us) = ground (arith, any-set_role k id role us)

set_role-Keyed :
    (id : Text) (role : Role) (us : List User)
    → Keyed user_id us
    → Keyed user_id (update_where (has_id id) (set_role role) us)
unfolding update_where
set_role-Keyed id role [] h = tt
set_role-Keyed id role (u ∷ us) h =
    ground (arith, set_role-Keyed id role us, any-set_role u.id id role us)

-- Rewriting a row that is no administrator's takes no administrator away.
count-set_role :
    (id : Text) (role : Role) (us : List User) (u : User)
    → Keyed user_id us
    → find (has_id id) us ≡ some u
    → admin_row u ≡ false
    → count_where admin_row us ≤ count_where admin_row (update_where (has_id id) (set_role role) us)
unfolding update_where count_where
count-set_role id role [] u keyed e h = cc
count-set_role id role (v ∷ us) u keyed e h = ground (
  arith,
  count-set_role id role us u,
  text_eq_iff v.id id,
  update_where_none (has_id id) (set_role role) us,
)

abbrev without : Text → List User → List User
without id us = keep (λ v. not (has_id id v)) us

any-without :
    (k id : Text) (us : List User)
    → any (has_key user_id k) us ≡ false
    → any (has_key user_id k) (without id us) ≡ false
any-without k id [] h = refl
any-without k id (u ∷ us) h = ground (arith, any-without k id us)

without-Keyed : (id : Text) (us : List User) → Keyed user_id us → Keyed user_id (without id us)
without-Keyed id [] h = tt
without-Keyed id (u ∷ us) h = ground (arith, without-Keyed id us, any-without u.id id us)

without-absent :
    (id : Text) (us : List User) → any (has_key user_id id) us ≡ false → without id us ≡ us
without-absent id [] h = refl
without-absent id (u ∷ us) h = ground (arith, without-absent id us)

-- Removing one row takes its administrator away, if it is one, and no other.
count-without :
    (id : Text) (us : List User) (u : User)
    → Keyed user_id us
    → find (has_id id) us ≡ some u
    → count_where admin_row us
      ≡ (if admin_row u then 1 else 0) + count_where admin_row (without id us)
unfolding count_where
count-without id [] u keyed e = cc
count-without id (v ∷ us) u keyed e =
    ground (arith, count-without id us u, text_eq_iff v.id id, without-absent id us)

pub record IsStaffed (us : List User) : Type 0 where
  pub keyed : Keyed user_id us
  pub staffed : 1 ≤ count_where admin_row us

update_role-IsStaffed :
    (id requester : Text) (role : Role) (db : Db)
    → IsStaffed db.users
    → IsStaffed (update_role id role requester db).1.users
unfolding update_role
update_role-IsStaffed id requester role db s = elim (Option-cases (find (has_id id) db.users)) [
  | inl missing ↦ ground (arith, missing, s)
  | inr (u, known) ↦ ground (
    arith,
    known,
    s,
    set_role-Keyed id role db.users s.keyed,
    count-set_role id role db.users u s.keyed known,
  )
]

remove-IsStaffed :
    (id requester : Text) (db : Db)
    → IsStaffed db.users
    → IsStaffed (remove id requester db).1.users
unfolding remove
remove-IsStaffed id requester db s = elim (Option-cases (find (has_id id) db.users)) [
  | inl missing ↦ ground (arith, missing, s)
  | inr (u, known) ↦ ground (
    arith,
    known,
    s,
    without-Keyed id db.users s.keyed,
    count-without id db.users u s.keyed known,
  )
]

-- A request of one account about another.
pub data Change : Type 0 where
  promote : (id : Text) → Role → (requester : Text) → Change
  drop : (id requester : Text) → Change

pub change_one : Change → Db → Db
change_one (promote id role requester) db = (update_role id role requester db).1
change_one (drop id requester) db = (remove id requester db).1

pub change_all : List Change → Db → Db
change_all [] db = db
change_all (c ∷ more) db = change_all more (change_one c db)

-- However many changes of roles and removals are asked for one after another, by whomever, the
-- table keeps an administrator.
pub change_all-IsStaffed :
    (changes : List Change) (db : Db) → IsStaffed db.users → IsStaffed (change_all changes db).users
unfolding change_all change_one
change_all-IsStaffed [] db s = s
change_all-IsStaffed (promote id role requester ∷ more) db s =
    change_all-IsStaffed more (update_role id role requester db).1
      (update_role-IsStaffed id requester role db s)
change_all-IsStaffed (drop id requester ∷ more) db s =
    change_all-IsStaffed more (remove id requester db).1 (remove-IsStaffed id requester db s)
