-- ===== src/Auth/OauthStates.antt =====
-- apps/server/src/auth/oauth-state.service.ts: the single-use state of a WeChat Work login. The
-- random bytes and the readings of the clock are arguments, SHA-256 is a parameter. Of the response
-- the cookie is modelled, by its value: `issue` returns it beside the state.
pub mod Laws
use nextpanel.Prelude.{
  ℕ, ◌+◌, ◌*◌, Bool, true, false, ◌&&◌, ◌||◌, List, [], ◌∷◌, ◌++◌, map, Option, none, some, ltb,
  leb, ◌==◌, if◌then◌else◌, Text, text, text_eq, find, keep, any, all, not, count_where, split,
  trim, starts_with, slice_from, length,
}
use mathlib.Core.Option
use nextpanel.Prelude.Exec.{Result, ok, err, pure, throw, gets, modify, reject, ◌>>=◌, ◌>>◌}
use nextpanel.Auth.Model.{
  Purpose, login, bind, OauthState, Db, Auth, oauth_invalid, oauth_expired, is_text,
}

abbrev pub ttl_ms : ℕ
ttl_ms = 5 * 60_000

-- /^[a-f0-9]{64}$/
abbrev pub is_hex_digit : ℕ → Bool
is_hex_digit c = (leb 97 c && leb c 102) || (leb 48 c && leb c 57)

abbrev pub is_token : Text → Bool
is_token t = length t == 64 && all is_hex_digit t

abbrev pub cookie_name : Purpose → Text
cookie_name login = text "np_wxwork_login"
cookie_name bind = text "np_wxwork_bind"

abbrev pub purpose_eq : Purpose → Purpose → Bool
purpose_eq login login = true
purpose_eq bind bind = true
purpose_eq _ _ = false

abbrev pub user_eq : Option Text → Option Text → Bool
user_eq none none = true
user_eq none (some u) = false
user_eq (some t) u = is_text t u

-- The value of the cookie: the first entry of the header that begins with `name=`.
unfoldable pub browser_token : Text → Text → Option Text
browser_token name header =
    Option.map (slice_from (length name + 1))
      (find (λ entry. starts_with entry (name ++ text "=")) (map trim (split b';' header)))

module _ (hash : Text → Text) where
  -- returns the state and the value of the cookie
  unfoldable pub issue : Purpose → Option Text → Text → Text → ℕ → Auth (Text × Text)
  issue purpose user state token now db = (
    ok (state, token),
    record db {
      oauth_states =
          record {
            id = hash state;
            browser_hash = hash token;
            purpose = purpose;
            user_id = user;
            expires_at = now + ttl_ms;
          }
          ∷ db.oauth_states;
    },
  )

  -- the `where` of `deleteMany`
  abbrev pub consumes : Purpose → Text → Text → Option Text → ℕ → OauthState → Bool
  consumes purpose state token user now row =
      text_eq row.id (hash state)
      && (text_eq row.browser_hash (hash token)
          && (purpose_eq row.purpose purpose
              && (user_eq user row.user_id && ltb now row.expires_at)))

  take_state : (OauthState → Bool) → Auth Unit
  unfolding count_where
  take_state fits db =
      let after = record db { oauth_states = keep (λ row. not (fits row)) db.oauth_states } in
      if count_where fits db.oauth_states == 1 then (ok tt, after) else (err oauth_expired, after)

  consume_token : Purpose → Text → Option Text → ℕ → Option Text → Auth Unit
  consume_token purpose state user now none = throw oauth_invalid
  consume_token purpose state user now (some token) = do
    reject (not (is_token state && is_token token)) oauth_invalid
    take_state (consumes purpose state token user now)

  -- `header` is the cookie header, or the empty text
  unfoldable pub consume : Purpose → Text → Text → Option Text → ℕ → Auth Unit
  unfolding take_state consume_token
  consume purpose state header user now =
      consume_token purpose state user now (browser_token (cookie_name purpose) header)

  unfoldable pub purge_expired : ℕ → Auth Unit
  purge_expired now = modify (λ db. record db {
    oauth_states = keep (λ row. not (leb row.expires_at now)) db.oauth_states;
  })
