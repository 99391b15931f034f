-- ===== src/Auth/Register.antt =====
-- `register` of apps/server/src/auth/auth.service.ts and apps/server/src/invite-codes. The ids and
-- codes that the database draws and the hash of the password are arguments; the table of invite
-- codes is kept newest first. `register` is the check of what it read followed by the transaction,
-- and what other requests do in between is in the module Race.
pub mod Sound
pub mod Bounds
pub mod Race
use nextpanel.Prelude.{
  update_where, ℕ, ◌+◌, Bool, true, false, ◌||◌, List, [], ◌∷◌, ◌++◌, map, Option, none, some, leb,
  if◌then◌else◌, Text, text_eq, find, keep, any, take, not, is_empty,
}
use nextpanel.Prelude.Exec.{Result, ok, err, pure, throw, gets, modify, reject, ◌>>=◌, ◌>>◌}
use nextpanel.Auth.Model.{
  User, Role, operator, InviteCode, AuthError, Db, Auth, invite_exhausted, username_taken,
  code_exists, invite_not_found, unique_violation, record_missing, has_username, create_user,
}

pub record RegisterDto : Type 0 where
  pub username : Text
  pub password : Text
  pub invite_code : Text

abbrev pub has_code : Text → InviteCode → Bool
has_code code i = text_eq i.code code

abbrev pub is_invite : Text → InviteCode → Bool
is_invite id i = text_eq i.id id

-- `!invite || invite.usedCount >= invite.maxUses`
usable : Option InviteCode → Auth InviteCode
usable none = throw invite_exhausted
usable (some i) = if leb i.max_uses i.used_count then throw invite_exhausted else pure i

-- the reads of `register`, up to the hashing of the password
unfoldable pub check_register : RegisterDto → Auth InviteCode
unfolding usable
check_register dto = do
  found ← gets (λ db. find (has_code dto.invite_code) db.invites)
  invite ← usable found
  taken ← gets (λ db. any (has_username dto.username) db.users)
  reject taken username_taken
  pure invite

-- `$transaction([…])`: nothing of it stays if a step fails
abbrev atomic_result : {A : Type 0} → Result AuthError A × Db → Db → Result AuthError A × Db
atomic_result (ok a, after) db = (ok a, after)
atomic_result (err e, after) db = (err e, db)

abbrev pub use_once : InviteCode → InviteCode
use_once i = record i { used_count = i.used_count + 1 }

unfoldable pub increment_invite : Text → Auth Unit
unfolding update_where
increment_invite id db =
    if any (is_invite id) db.invites
    then (ok tt, record db { invites = update_where (is_invite id) use_once db.invites })
    else (err record_missing, db)

abbrev pub new_user : RegisterDto → Text → Text → User
new_user dto id hash = record {
  id = id;
  username = dto.username;
  password_hash = hash;
  token_version = 0;
  role = operator;
  wx_work_user_id = none;
  wx_work_name = none;
  login_attempts = 0;
  locked_until = none;
}

unfoldable pub commit_register : RegisterDto → Text → Text → InviteCode → Auth User
unfolding create_user increment_invite
commit_register dto id hash invite db =
    atomic_result
      ((do user ← create_user (new_user dto id hash); increment_invite invite.id; pure user) db) db

unfoldable pub register : (Text → Text) → RegisterDto → Text → Auth User
unfolding check_register commit_register
register hash dto id = do
  invite ← check_register dto
  commit_register dto id (hash dto.password) invite

pub record CreateInviteCodesDto : Type 0 where
  pub quantity : ℕ
  pub max_uses : ℕ
  pub custom_code : Option Text

-- an id and a code that the database draws
abbrev pub fresh_code : ℕ → Text → Text × Text → InviteCode
fresh_code max_uses admin (id, code) = record {
  id = id;
  code = code;
  max_uses = max_uses;
  used_count = 0;
  created_by = admin;
}

abbrev pub code_clash : InviteCode → InviteCode → Bool
code_clash i j = is_invite i.id j || has_code i.code j

-- inserts the rows one by one; a clash of ids or codes undoes all of them
unfoldable pub insert_codes : List InviteCode → List InviteCode → Option (List InviteCode)
insert_codes [] rows = some rows
insert_codes (i ∷ more) rows =
    if any (code_clash i) rows then none else insert_codes more (i ∷ rows)

abbrev stored : Option (List InviteCode) → Auth Unit
stored none db = (err unique_violation, db)
stored (some rows) db = (ok tt, record db { invites = rows })

create_many : List InviteCode → Auth Unit
unfolding insert_codes
create_many new db = stored (insert_codes new db.invites) db

create_custom : ℕ → Text → Text → Text → Auth (List InviteCode)
create_custom max_uses admin id code = do
  existing ← gets (λ db. any (has_code code) db.invites)
  reject existing code_exists
  create_many (fresh_code max_uses admin (id, code) ∷ [])
  pure (fresh_code max_uses admin (id, code) ∷ [])

create_drawn : ℕ → ℕ → Text → List (Text × Text) → Auth (List InviteCode)
create_drawn quantity max_uses admin drawn = do
  create_many (map (fresh_code max_uses admin) (take quantity drawn))
  gets (λ db. take quantity (keep (λ i. text_eq i.created_by admin) db.invites))

create_chosen :
    Option Text → CreateInviteCodesDto → Text → Text → List (Text × Text) → Auth (List InviteCode)
create_chosen none dto admin id drawn = create_drawn dto.quantity dto.max_uses admin drawn
create_chosen (some code) dto admin id drawn =
    if is_empty code
    then create_drawn dto.quantity dto.max_uses admin drawn
    else create_custom dto.max_uses admin id code

-- `create`; `drawn` has the ids and codes for at least `quantity` rows
unfoldable pub create_codes :
    CreateInviteCodesDto → Text → Text → List (Text × Text) → Auth (List InviteCode)
unfolding create_many create_custom create_drawn create_chosen
create_codes dto admin id drawn = create_chosen dto.custom_code dto admin id drawn

unfoldable pub remove_code : Text → Auth Unit
remove_code id = do
  known ← gets (λ db. any (is_invite id) db.invites)
  reject (not known) invite_not_found
  modify (λ db. record db { invites = keep (λ i. not (is_invite id i)) db.invites })
