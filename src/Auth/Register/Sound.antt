-- ===== src/Auth/Register/Sound.antt =====
-- A table of invite codes that is in order, and that making and removing codes keep it so.
use nextpanel.Prelude.{
  ℕ, ◌≤◌, ◌≡◌, refl, false, not, List, [], ◌∷◌, map, Option, none, some, arith, Text, any, keep,
  All, take, Bool-cases, inl, inr, Option-cases,
}
use nextpanel.Auth.Model.{InviteCode, Db}
use nextpanel.Auth.Register.{
  CreateInviteCodesDto, is_invite, fresh_code, code_clash, insert_codes, create_many, create_custom,
  create_drawn, create_chosen, create_codes, remove_code,
}

abbrev pub Bounded : List InviteCode → Type 0
Bounded rows = All (λ i. i.used_count ≤ i.max_uses) rows

-- the ids are a primary key
abbrev pub Distinct : List InviteCode → Type 0
Distinct [] = Unit
Distinct (i ∷ rows) = (any (is_invite i.id) rows ≡ false) × Distinct rows

pub record IsSound (rows : List InviteCode) : Type 0 where
  pub bounded : Bounded rows
  pub distinct : Distinct rows

any_of_clash :
    (i : InviteCode) (rows : List InviteCode)
    → any (code_clash i) rows ≡ false
    → any (is_invite i.id) rows ≡ false
any_of_clash i [] h = refl
any_of_clash i (j ∷ rows) h = ground (arith, any_of_clash i rows)

insert_codes-IsSound :
    (new rows rows' : List InviteCode)
    → insert_codes new rows ≡ some rows'
    → All (λ i. i.used_count ≡ 0) new
    → IsSound rows
    → IsSound rows'
unfolding insert_codes
insert_codes-IsSound [] rows rows' e fresh s = ground arith
insert_codes-IsSound (i ∷ new) rows rows' e (unused, fresh) s =
    elim (Bool-cases (any (code_clash i) rows)) [
      | inl clash ↦ ground (arith, clash, e)
      | inr free ↦ insert_codes-IsSound new (i ∷ rows) rows' (ground arith) fresh (record {
        bounded = (omega arith, s.bounded);
        distinct = (any_of_clash i rows free, s.distinct);
      })
    ]

fresh-unused :
    (max_uses : ℕ) (admin : Text) (drawn : List (Text × Text))
    → All (λ i. i.used_count ≡ 0) (map (fresh_code max_uses admin) drawn)
fresh-unused max_uses admin [] = tt
fresh-unused max_uses admin (d ∷ drawn) = (refl, fresh-unused max_uses admin drawn)

create_many-IsSound :
    (new : List InviteCode) (db : Db)
    → All (λ i. i.used_count ≡ 0) new
    → IsSound db.invites
    → IsSound (create_many new db).1.invites
unfolding create_many
create_many-IsSound new db fresh s = elim (Option-cases (insert_codes new db.invites)) [
  | inl clash ↦ rw clash s
  | inr (rows, done) ↦ rw done (insert_codes-IsSound new db.invites rows done fresh s)
]

create_custom-IsSound :
    (max_uses : ℕ) (admin id code : Text) (db : Db)
    → IsSound db.invites
    → IsSound (create_custom max_uses admin id code db).1.invites
unfolding create_custom
create_custom-IsSound max_uses admin id code db s =
    let new : List InviteCode = fresh_code max_uses admin (id, code) ∷ [] in
    ground (arith, s, create_many-IsSound new db (refl, tt) s)

create_drawn-IsSound :
    (quantity max_uses : ℕ) (admin : Text) (drawn : List (Text × Text)) (db : Db)
    → IsSound db.invites
    → IsSound (create_drawn quantity max_uses admin drawn db).1.invites
unfolding create_drawn
create_drawn-IsSound quantity max_uses admin drawn db s = ground (
  arith,
  s,
  create_many-IsSound (map (fresh_code max_uses admin) (take quantity drawn)) db
      (fresh-unused max_uses admin (take quantity drawn)) s,
)

create_chosen-IsSound :
    (custom : Option Text) (dto : CreateInviteCodesDto) (admin id : Text)
    (drawn : List (Text × Text)) (db : Db)
    → IsSound db.invites
    → IsSound (create_chosen custom dto admin id drawn db).1.invites
unfolding create_chosen
create_chosen-IsSound none dto admin id drawn db s =
    create_drawn-IsSound dto.quantity dto.max_uses admin drawn db s
create_chosen-IsSound (some code) dto admin id drawn db s = ground (
  arith,
  create_drawn-IsSound dto.quantity dto.max_uses admin drawn db s,
  create_custom-IsSound dto.max_uses admin id code db s,
)

pub create_codes-IsSound :
    (dto : CreateInviteCodesDto) (admin id : Text) (drawn : List (Text × Text)) (db : Db)
    → IsSound db.invites
    → IsSound (create_codes dto admin id drawn db).1.invites
unfolding create_codes
create_codes-IsSound dto admin id drawn db s =
    create_chosen-IsSound dto.custom_code dto admin id drawn db s

any-keep :
    (id id' : Text) (rows : List InviteCode)
    → any (is_invite id) rows ≡ false
    → any (is_invite id) (keep (λ i. not (is_invite id' i)) rows) ≡ false
any-keep id id' [] h = refl
any-keep id id' (i ∷ rows) h = ground (arith, any-keep id id' rows)

keep-IsSound :
    (id : Text) (rows : List InviteCode)
    → IsSound rows
    → IsSound (keep (λ i. not (is_invite id i)) rows)
keep-IsSound id [] s = s
keep-IsSound id (i ∷ rows) s = ground (
  arith,
  keep-IsSound id rows (record { bounded = s.bounded.1; distinct = s.distinct.1 }),
  any-keep i.id id rows,
)

pub remove_code-IsSound :
    (id : Text) (db : Db) → IsSound db.invites → IsSound (remove_code id db).1.invites
unfolding remove_code
remove_code-IsSound id db s = ground (arith, keep-IsSound id db.invites s)
