-- ===== src/Auth/OauthStates/Laws.antt =====
-- A state is taken at most once, and only by the browser, purpose and user that it was issued for.
use nextpanel.Prelude.{
  ◌↔◌, ℕ, ◌+◌, ◌<◌, ◌≡◌, refl, Bool, true, false, ◌&&◌, not, List, [], ◌∷◌, Option, none, some,
  arith, Text, text_eq, text_eq_refl, text_eq_iff, keep, any, count_where, count_where_none,
  has_key, Keyed, Bool-cases, Option-cases, inl, inr, ltb,
}
use nextpanel.Prelude.Exec.{ok, err}
use nextpanel.Auth.Model.{
  Purpose, login, bind, OauthState, Db, AuthError, oauth_invalid, oauth_expired,
}
use nextpanel.Auth.OauthStates.{
  ttl_ms, is_token, cookie_name, purpose_eq, user_eq, browser_token, issue, consumes, consume,
}

abbrev pub state_id : OauthState → Text
state_id row = row.id

any-keep :
    (p q : OauthState → Bool) (rows : List OauthState)
    → any p rows ≡ false
    → any p (keep q rows) ≡ false
any-keep p q [] h = refl
any-keep p q (row ∷ rows) h = ground (arith, any-keep p q rows)

none_fits :
    (k : Text) (r : OauthState → Bool) (rows : List OauthState)
    → any (has_key state_id k) rows ≡ false
    → any (λ row. has_key state_id k row && r row) rows ≡ false
none_fits k r [] h = refl
none_fits k r (row ∷ rows) h = ground (arith, none_fits k r rows)

-- Once the one row under a key is taken out, the key is gone.
any-keep_taken :
    (k : Text) (r : OauthState → Bool) (rows : List OauthState)
    → Keyed state_id rows
    → count_where (λ row. has_key state_id k row && r row) rows ≡ 1
    → any (has_key state_id k) (keep (λ row. not (has_key state_id k row && r row)) rows) ≡ false
unfolding count_where
any-keep_taken k r [] keyed one = refl
any-keep_taken k r (row ∷ rows) keyed one = ground (
  arith,
  any-keep_taken k r rows,
  text_eq_iff row.id k,
  any-keep (has_key state_id k) (λ row. not (has_key state_id k row && r row)) rows,
  none_fits k r rows,
  count_where_none (λ row. has_key state_id k row && r row) rows,
)

keep-all :
    (p : OauthState → Bool) (rows : List OauthState)
    → any p rows ≡ false
    → keep (λ row. not (p row)) rows ≡ rows
keep-all p [] h = refl
keep-all p (row ∷ rows) h = ground (arith, keep-all p rows)

purpose_eq_iff : (a b : Purpose) → (purpose_eq a b ≡ true) ↔ (a ≡ b)
purpose_eq_iff login login = ground arith
purpose_eq_iff login bind = ground arith
purpose_eq_iff bind login = ground arith
purpose_eq_iff bind bind = ground arith

user_eq_iff : (a b : Option Text) → (user_eq a b ≡ true) ↔ (b ≡ a)
user_eq_iff none none = ground arith
user_eq_iff none (some t) = ground arith
user_eq_iff (some t) none = ground arith
user_eq_iff (some t) (some s) = ground (arith, text_eq_iff s t)

module _ (hash : Text → Text) where
  -- the conditions of `consumes` beside the id
  abbrev rest_fits : Purpose → Text → Option Text → ℕ → OauthState → Bool
  rest_fits purpose token user now row =
      text_eq row.browser_hash (hash token)
      && (purpose_eq row.purpose purpose && (user_eq user row.user_id && ltb now row.expires_at))

  consume_absent :
      (purpose : Purpose) (state header : Text) (user : Option Text) (now : ℕ) (db : Db)
      → any (has_key state_id (hash state)) db.oauth_states ≡ false
      → (e : AuthError) × (consume hash purpose state header user now db ≡ (err e, db))
  unfolding consume
  consume_absent purpose state header user now db gone =
      elim (Option-cases (browser_token (cookie_name purpose) header)) [
        | inl missing ↦ (oauth_invalid, rw missing refl)
        | inr (t, sent) ↦ elim (Bool-cases (is_token state && is_token t)) [
          | inl good ↦
              let none =
                none_fits (hash state) (rest_fits purpose t user now) db.oauth_states gone in
              (
                oauth_expired,
                rw
                    (
                      sent,
                      good,
                      count_where_none (consumes hash purpose state t user now) db.oauth_states
                          none,
                      keep-all (consumes hash purpose state t user now) db.oauth_states none,
                    )
                    refl,
              )
          | inr bad ↦ (oauth_invalid, rw (sent, bad) refl)
        ]
      ]

  consume_takes :
      (purpose : Purpose) (state header : Text) (user : Option Text) (now : ℕ) (db : Db)
      → Keyed state_id db.oauth_states
      → (consume hash purpose state header user now db).0 ≡ ok tt
      → any
          (has_key state_id (hash state))
          (consume hash purpose state header user now db).1.oauth_states
        ≡ false
  unfolding consume
  consume_takes purpose state header user now db keyed done =
      elim (Option-cases (browser_token (cookie_name purpose) header)) [
        | inl missing ↦ ground (arith, missing, done)
        | inr (t, sent) ↦ ground (
          arith,
          sent,
          done,
          any-keep_taken (hash state) (rest_fits purpose t user now) db.oauth_states keyed,
        )
      ]

  -- A state that was taken cannot be taken again, whoever sends it, with whatever cookie, for
  -- whatever purpose and at whatever time.
  pub consume_once :
      (purpose purpose' : Purpose) (state header header' : Text) (user user' : Option Text)
      (now now' : ℕ) (db : Db)
      → Keyed state_id db.oauth_states
      → (consume hash purpose state header user now db).0 ≡ ok tt
      → (e : AuthError) × (consume hash purpose' state header' user' now'
            (consume hash purpose state header user now db).1
          ≡ (err e, (consume hash purpose state header user now db).1))
  consume_once purpose purpose' state header header' user user' now now' db keyed done =
      consume_absent purpose' state header' user' now'
        (consume hash purpose state header user now db).1
        (consume_takes purpose state header user now db keyed done)

  -- What was issued just now is taken only by a request that carries the cookie of its browser, for
  -- its purpose and user, and before its time is over; such a request takes it. Only texts with the
  -- same hash as the cookie's value could stand in for it.
  pub consume-issue_iff :
      (purpose purpose' : Purpose) (state token header : Text) (user user' : Option Text)
      (now now' : ℕ) (db : Db)
      → is_token state ≡ true
      → is_token token ≡ true
      → any (has_key state_id (hash state)) db.oauth_states ≡ false
      → ((t : Text) → hash t ≡ hash token → t ≡ token)
      → ((consume hash purpose' state header user' now'
            (issue hash purpose user state token now db).1).0
          ≡ ok tt)
        ↔ ((browser_token (cookie_name purpose') header ≡ some token)
            × (purpose ≡ purpose')
            × (user ≡ user')
            × (now' < now + ttl_ms))
  unfolding consume issue count_where
  consume-issue_iff purpose purpose' state token header user user' now now' db good good' fresh
        unlike =
      elim (Option-cases (browser_token (cookie_name purpose') header)) [
        | inl missing ↦
            (λ done. ground (arith, missing, done), λ want. ground (arith, missing, want))
        | inr (t, sent) ↦
            let old =
              count_where_none (consumes hash purpose' state t user' now') db.oauth_states
                (none_fits (hash state) (rest_fits purpose' t user' now') db.oauth_states fresh) in
            (
              λ done. ground (
                arith,
                sent,
                done,
                old,
                unlike t,
                text_eq_refl (hash state),
                text_eq_iff (hash token) (hash t),
                purpose_eq_iff purpose purpose',
                user_eq_iff user' user,
              ),
              λ want. ground (
                arith,
                sent,
                want,
                old,
                good',
                text_eq_refl (hash state),
                text_eq_iff (hash token) (hash t),
                purpose_eq_iff purpose purpose',
                user_eq_iff user' user,
              ),
            )
      ]
