-- ===== src/Auth/Tests.antt =====
-- The theorems on logins and registrations at small inputs, and the data that they share with those
-- on sessions.
mod Sessions
use nextpanel.Prelude.{
  is_empty, split, trim, starts_with, decimal, ℕ, ◌+◌, ◌*◌, ◌<◌, ◌≡◌, ◌↔◌, ◌⊎◌, refl, true, false,
  List, [], ◌∷◌, none, some, arith, Text, text, text_eq, find, any, count_where, update_where, ◌++◌,
}
use nextpanel.Prelude.Exec.{ok, err}
use nextpanel.Auth.Model.{
  admin, operator, User, InviteCode, bind, Db, AuthError, account_locked, unauthorized,
  session_expired, has_username, has_id, has_wx_id, update_user,
}
use nextpanel.Auth.Login
use nextpanel.Auth.Login.{
  LoginDto, Claims, Session, issue_token, is_locked, reset_attempts, remaining_minutes,
}
use nextpanel.Auth.Login.Laws.{SameButLocks, login-SameButLocks, login_sound}
use nextpanel.Auth.Login.Lockout.{
  Attempt, try, try_all, row_of, locked_at, tenth_failure_locks, lock_expires,
}
use nextpanel.Auth.Register.{
  RegisterDto, has_code, is_invite, use_once, new_user, check_register, commit_register, register,
}
use nextpanel.Auth.Register.Sound.{IsSound}
use nextpanel.Auth.Register.Bounds.{
  Request, sign_up, create, remove, serve, serve-IsSound, register_outcome,
}
use nextpanel.Auth.Register.Race.{overlap_overuses}
use nextpanel.Auth.Sessions.{
  ChangePasswordDto, Payload, absent, logout, purge_expired_tokens, validate, claimed_version,
  change_password, revoke_other_sessions, guarded_update, set_password,
}
use nextpanel.Auth.Sessions.Passwords.{guarded_update-stale}
use nextpanel.Auth.Sessions.Revocation.{
  payload_of, logout-refused, change_password_ends_sessions, revoke_keeps_one_session,
  login-validate,
}
use nextpanel.Auth.OauthStates.{issue, consume, browser_token, cookie_name, ttl_ms}
use nextpanel.Auth.OauthStates.Laws.{consume_once, consume-issue_iff}
use nextpanel.Auth.WxWork.{wx_login, wx_unbind, free_name, set_wx}
use nextpanel.Auth.WxWork.Names.{free_name-free}
use nextpanel.Auth.WxWork.Binding.{wx_login-row, wx_unbind-row}
use nextpanel.Auth.Users.Admins.{IsStaffed, Change, promote, drop, change_all, change_all-IsStaffed}

abbrev pub ann : User
ann = record {
  id = text "1";
  username = text "ann";
  password_hash = text "pw";
  token_version = 3;
  role = admin;
  wx_work_user_id = some (text "w");
  wx_work_name = some (text "Ann");
  login_attempts = 8;
  locked_until = none;
}

abbrev pub one_use : InviteCode
one_use = record {
  id = text "i";
  code = text "c";
  max_uses = 1;
  used_count = 0;
  created_by = text "1";
}

abbrev pub db : Db
db = record { users = ann ∷ []; invites = one_use ∷ []; revoked = []; oauth_states = [] }

abbrev pub sign : Claims → Text
sign c = c.jti

abbrev pub call : Text → ℕ → Attempt
call password at = record {
  dto = record { username = text "ann"; password = password };
  now = at;
  later = at;
  jti = text "t";
}

-- Her row after a lock that has expired.
abbrev late_ann : User
late_ann = record ann { locked_until = some 4 }

abbrev expired : Db
expired = record db { users = late_ann ∷ [] }

tenth_failure_locks_example :
    (row_of
        (text "ann")
        (try sign text_eq
          (call (text "no") 7)
          (try_all sign text_eq (call (text "na") 5 ∷ []) expired)).1
      ≡ some (locked_at 7 late_ann))
    × (try sign text_eq
          (call (text "pw") 9)
          (try sign text_eq
            (call (text "no") 7)
            (try_all sign text_eq (call (text "na") 5 ∷ []) expired)).1
        ≡ (
          err (account_locked (remaining_minutes (some (7 + 15 * 60_000)) 9)),
          (try sign text_eq
              (call (text "no") 7)
              (try_all sign text_eq (call (text "na") 5 ∷ []) expired)).1,
        ))
unfolding text_eq is_locked
tenth_failure_locks_example =
    tenth_failure_locks sign text_eq (call (text "na") 5 ∷ []) (call (text "no") 7) (text "ann")
      expired late_ann refl ((refl, refl, refl), tt) (refl, refl, refl) refl (call (text "pw") 9)
      refl (omega arith)

login_sound_example :
    (u : User) × (find (has_username (text "ann")) db.users ≡ some u)
    × (is_locked u.locked_until 1 ≡ false)
    × (text_eq (text "pw") u.password_hash ≡ true)
    × (issue_token sign (text "t") ann ≡ issue_token sign (text "t") u)
unfolding Login.login text_eq update_user
login_sound_example =
    login_sound sign text_eq (record { username = text "ann"; password = text "pw" }) 1 2 (text "t")
      db (issue_token sign (text "t") ann) refl

abbrev joining : Text → RegisterDto
joining name = record { username = name; password = text "secret"; invite_code = text "c" }

abbrev requests : List Request
requests =
    create (record { quantity = 1; max_uses = 2; custom_code = none }) (text "1") (text "x")
      ((text "j", text "d") ∷ [])
    ∷ sign_up (joining (text "bob")) (text "2")
    ∷ sign_up (joining (text "cal")) (text "3")
    ∷ remove (text "j")
    ∷ []

serve-IsSound_example : IsSound (serve (λ p. p) requests db).invites
serve-IsSound_example =
    serve-IsSound (λ p. p) requests db
      (record { bounded = (omega arith, tt); distinct = (refl, tt) })

register_outcome_example :
    ((e : AuthError) × (register (λ p. p) (joining (text "bob")) (text "2") db ≡ (err e, db)))
    ⊎ ((i : InviteCode) × (find (has_code (text "c")) db.invites ≡ some i)
        × (i.used_count < i.max_uses)
        × (any (has_username (text "bob")) db.users ≡ false)
        × (register (λ p. p) (joining (text "bob")) (text "2") db ≡ (
          ok (new_user (joining (text "bob")) (text "2") (text "secret")),
          record db {
            users = new_user (joining (text "bob")) (text "2") (text "secret") ∷ db.users;
            invites = update_where (is_invite i.id) use_once db.invites;
          },
        )))
register_outcome_example = register_outcome (λ p. p) (joining (text "bob")) (text "2") db

overlap_overuses_example :
    ((commit_register (joining (text "bob")) (text "2") (text "h") one_use db).0
      ≡ ok (new_user (joining (text "bob")) (text "2") (text "h")))
    × ((commit_register
          (joining (text "cal"))
          (text "3")
          (text "k")
          one_use
          (commit_register (joining (text "bob")) (text "2") (text "h") one_use db).1).0
        ≡ ok (new_user (joining (text "cal")) (text "3") (text "k")))
    × (find
          (has_code (text "c"))
          (commit_register
            (joining (text "cal"))
            (text "3")
            (text "k")
            one_use
            (commit_register (joining (text "bob")) (text "2") (text "h") one_use db).1).1.invites
        ≡ some (use_once (use_once one_use)))
    × (1 < (use_once (use_once one_use)).used_count)
unfolding text_eq check_register
overlap_overuses_example =
    overlap_overuses (joining (text "bob")) (joining (text "cal")) (text "2") (text "3") (text "h")
      (text "k") one_use db (text "c") refl refl refl refl refl refl
