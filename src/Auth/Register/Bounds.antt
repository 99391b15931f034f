-- ===== src/Auth/Register/Bounds.antt =====
-- Invite codes over any series of requests, served one after another.
use nextpanel.Prelude.{
  update_where, update_where_none, any_of_find, ◌<◌, ◌≡◌, refl, Bool, false, List, [], ◌∷◌, some,
  arith, Text, text_eq, text_eq_iff, text_eq_refl, find, any, leb, Bool-cases, inl, inr,
  Option-cases, ◌⊎◌,
}
use nextpanel.Prelude.Exec.{ok, err}
use nextpanel.Auth.Model.{
  InviteCode, AuthError, Db, has_username, clashes, invite_exhausted, username_taken,
  unique_violation,
}
use nextpanel.Auth.Register.{
  RegisterDto, CreateInviteCodesDto, has_code, is_invite, use_once, new_user, register,
  create_codes, remove_code,
}
use nextpanel.Auth.Register.Sound.{
  Bounded, Distinct, IsSound, create_codes-IsSound, remove_code-IsSound,
}

other_id :
    (id : Text) (p : InviteCode → Bool) (rows : List InviteCode) (i : InviteCode)
    → find p rows ≡ some i
    → any (is_invite id) rows ≡ false
    → text_eq id i.id ≡ false
other_id id p [] i e h = cc
other_id id p (j ∷ rows) i e h =
    ground (arith, other_id id p rows i, text_eq_iff i.id id, text_eq_iff id i.id)

use_once-Bounded :
    (p : InviteCode → Bool) (rows : List InviteCode) (i : InviteCode)
    → find p rows ≡ some i
    → i.used_count < i.max_uses
    → Distinct rows
    → Bounded rows
    → Bounded (update_where (is_invite i.id) use_once rows)
unfolding update_where
use_once-Bounded p [] i e room d b = tt
use_once-Bounded p (j ∷ rows) i e room d b = ground (
  arith,
  use_once-Bounded p rows i,
  other_id j.id p rows i,
  update_where_none (is_invite i.id) use_once rows,
  text_eq_refl j.id,
)

any-update_where :
    (id id' : Text) (rows : List InviteCode)
    → any (is_invite id) (update_where (is_invite id') use_once rows) ≡ any (is_invite id) rows
unfolding update_where
any-update_where id id' [] = refl
any-update_where id id' (i ∷ rows) = ground (arith, any-update_where id id' rows)

use_once-Distinct :
    (id : Text) (rows : List InviteCode)
    → Distinct rows
    → Distinct (update_where (is_invite id) use_once rows)
unfolding update_where
use_once-Distinct id [] d = tt
use_once-Distinct id (i ∷ rows) d =
    ground (arith, use_once-Distinct id rows, any-update_where i.id id rows)

-- A registration either changes nothing, or adds an operator under a name that was free and uses
-- the invite code once, which had a use left.
pub register_outcome :
    (hash : Text → Text) (dto : RegisterDto) (id : Text) (db : Db)
    → ((e : AuthError) × (register hash dto id db ≡ (err e, db)))
      ⊎ ((i : InviteCode) × (find (has_code dto.invite_code) db.invites ≡ some i)
          × (i.used_count < i.max_uses)
          × (any (has_username dto.username) db.users ≡ false)
          × (register hash dto id db ≡ (
            ok (new_user dto id (hash dto.password)),
            record db {
              users = new_user dto id (hash dto.password) ∷ db.users;
              invites = update_where (is_invite i.id) use_once db.invites;
            },
          )))
unfolding register
register_outcome hash dto id db = elim (Option-cases (find (has_code dto.invite_code) db.invites)) [
  | inl missing ↦ inl (invite_exhausted, rw missing refl)
  | inr (i, known) ↦ elim (Bool-cases (leb i.max_uses i.used_count)) [
    | inl spent ↦ inl (invite_exhausted, rw (known, spent) refl)
    | inr room ↦ elim (Bool-cases (any (has_username dto.username) db.users)) [
      | inl taken ↦ inl (username_taken, rw (known, room, taken) refl)
      | inr free ↦
          elim (Bool-cases (any (clashes (new_user dto id (hash dto.password))) db.users)) [
            | inl clash ↦ inl (unique_violation, rw (known, room, free, clash) refl)
            | inr new ↦ inr (
              i,
              known,
              ground arith,
              free,
              rw
                  (
                    known,
                    room,
                    free,
                    new,
                    any_of_find (has_code dto.invite_code) (is_invite i.id) db.invites i known
                        (text_eq_refl i.id),
                  )
                  refl,
            )
          ]
    ]
  ]
]

register-IsSound :
    (hash : Text → Text) (dto : RegisterDto) (id : Text) (db : Db)
    → IsSound db.invites
    → IsSound (register hash dto id db).1.invites
register-IsSound hash dto id db s = elim (register_outcome hash dto id db) [
  | inl (e, failed) ↦ rw failed s
  | inr (i, known, room, free, done) ↦ rw done (record {
    bounded =
        use_once-Bounded (has_code dto.invite_code) db.invites i known room s.distinct s.bounded;
    distinct = use_once-Distinct i.id db.invites s.distinct;
  })
]

-- The requests that write the table of invite codes.
pub data Request : Type 0 where
  sign_up : RegisterDto → (id : Text) → Request
  create : CreateInviteCodesDto → (admin id : Text) → (drawn : List (Text × Text)) → Request
  remove : (id : Text) → Request

module _ (hash : Text → Text) where
  pub serve_one : Request → Db → Db
  serve_one (sign_up dto id) db = (register hash dto id db).1
  serve_one (create dto admin id drawn) db = (create_codes dto admin id drawn db).1
  serve_one (remove id) db = (remove_code id db).1

  pub serve : List Request → Db → Db
  serve [] db = db
  serve (r ∷ more) db = serve more (serve_one r db)

  serve_one-IsSound :
      (r : Request) (db : Db) → IsSound db.invites → IsSound (serve_one r db).invites
  unfolding serve_one
  serve_one-IsSound (sign_up dto id) db s = register-IsSound hash dto id db s
  serve_one-IsSound (create dto admin id drawn) db s = create_codes-IsSound dto admin id drawn db s
  serve_one-IsSound (remove id) db s = remove_code-IsSound id db s

  -- However many registrations, creations and removals are served one after another, no invite
  -- code is used more often than it allows, and no two codes share an id.
  pub serve-IsSound :
      (requests : List Request) (db : Db) → IsSound db.invites → IsSound (serve requests db).invites
  unfolding serve
  serve-IsSound [] db s = s
  serve-IsSound (r ∷ more) db s = serve-IsSound more (serve_one r db) (serve_one-IsSound r db s)
