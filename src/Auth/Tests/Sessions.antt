-- ===== src/Auth/Tests/Sessions.antt =====
-- The theorems on sessions, OAuth states, WeCom users and administrators at small inputs.
use nextpanel.Prelude.{
  split, trim, starts_with, decimal, ◌+◌, ◌<◌, ◌≡◌, ◌↔◌, refl, false, List, [], ◌∷◌, none, some,
  arith, Text, text, text_eq, any, count_where, ◌++◌,
}
use nextpanel.Prelude.Exec.{ok, err}
use nextpanel.Auth.Model.{admin, operator, User, bind, Db, AuthError, has_username}
use nextpanel.Auth.Login.{Claims}
use nextpanel.Auth.Sessions.{
  ChangePasswordDto, Payload, absent, validate, claimed_version, change_password,
  revoke_other_sessions,
}
use nextpanel.Auth.Sessions.Revocation.{
  payload_of, change_password_ends_sessions, revoke_keeps_one_session,
}
use nextpanel.Auth.OauthStates.{issue, consume, browser_token, cookie_name, ttl_ms}
use nextpanel.Auth.OauthStates.Laws.{consume_once, consume-issue_iff}
use nextpanel.Auth.WxWork.{free_name}
use nextpanel.Auth.WxWork.Names.{free_name-free}
use nextpanel.Auth.Users.Admins.{IsStaffed, Change, promote, drop, change_all, change_all-IsStaffed}
use nextpanel.Auth.Tests.{db, sign}

abbrev token : Payload
token = record { sub = text "1"; jti = some (text "t"); exp = some 99; token_version = absent }

abbrev passwords : ChangePasswordDto
passwords = record { current_password = text "pw"; new_password = text "xyzxyz" }

change_password_ends_sessions_example :
    (e : AuthError) × (validate token
        (change_password text_eq (text "1") passwords 3 (text "h") db).1
      ≡ (err e, (change_password text_eq (text "1") passwords 3 (text "h") db).1))
unfolding change_password text_eq claimed_version
change_password_ends_sessions_example =
    change_password_ends_sessions text_eq (text "1") 3 db token refl (λ e. cc e) passwords
      (text "h") refl

revoke_keeps_one_session_example :
    ((e : AuthError) × (validate token
          (revoke_other_sessions text_eq sign (text "1") (text "pw") 3 (text "n") db).1
        ≡ (err e, (revoke_other_sessions text_eq sign (text "1") (text "pw") 3 (text "n") db).1)))
    × ((c : Claims) × (u : User) × (text "n" ≡ sign c)
        × (c.sub ≡ text "1")
        × ((validate
              (payload_of c none)
              (revoke_other_sessions text_eq sign (text "1") (text "pw") 3 (text "n") db).1).0
            ≡ ok (record { user = u; jti = some (text "n"); token_exp = none })))
unfolding revoke_other_sessions text_eq claimed_version
revoke_keeps_one_session_example =
    revoke_keeps_one_session text_eq (text "1") 3 db token refl (λ e. cc e) sign (text "pw")
      (text "n")
      (record { access_token = text "n"; id = text "1"; username = text "ann"; role = admin }) none
      refl refl (omega arith)

abbrev state : Text
state = text "0123456789abcdef0123456789abcdef0123456789abcdef0123456789abcdef"

abbrev cookie : Text
cookie = text "fedcba9876543210fedcba9876543210fedcba9876543210fedcba9876543210"

abbrev header : Text
header = text "a=b; np_wxwork_bind=" ++ cookie

abbrev issued : Db
issued = (issue (λ t. t) bind (some (text "1")) state cookie 10 db).1

consume_once_example :
    (e : AuthError) × (consume
        (λ t. t)
        bind
        state
        header
        (some (text "1"))
        12
        (consume (λ t. t) bind state header (some (text "1")) 11 issued).1
      ≡ (err e, (consume (λ t. t) bind state header (some (text "1")) 11 issued).1))
unfolding consume issue browser_token text_eq count_where split trim starts_with
consume_once_example =
    consume_once (λ t. t) bind bind state header header (some (text "1")) (some (text "1")) 11 12
      issued (refl, tt) refl

consume-issue_iff_example :
    ((consume (λ t. t) bind state header (some (text "1")) 11 issued).0 ≡ ok tt) ↔ (
      (browser_token (cookie_name bind) header ≡ some cookie)
      × (bind ≡ bind)
      × (some (text "1") ≡ some (text "1"))
      × (11 < 10 + ttl_ms))
consume-issue_iff_example =
    consume-issue_iff (λ t. t) bind bind state cookie header (some (text "1")) (some (text "1")) 10
      11 db refl refl refl (λ t e. e)

free_name-free_example :
    (found : Text) × (free_name db.users (text "ann") ≡ some found)
    × (any (has_username found) db.users ≡ false)
free_name-free_example = free_name-free db.users (text "ann")

free_name_run : free_name db.users (text "ann") ≡ some (text "ann-2")
unfolding free_name text_eq decimal
free_name_run = refl

abbrev changes : List Change
changes = promote (text "1") operator (text "2") ∷ drop (text "1") (text "2") ∷ []

change_all-IsStaffed_example : IsStaffed (change_all changes db).users
unfolding count_where
change_all-IsStaffed_example =
    change_all-IsStaffed changes db (record { keyed = (refl, tt); staffed = omega arith })
