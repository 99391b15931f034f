-- ===== src/Nodes/Identity/Stable.antt =====
-- apps/server/src/nodes/nodes.service.ts: credentials that are complete stay as they are.
use nextpanel.Prelude.{
  ◌≡◌, refl, subst, ap, Bool, true, false, not, starts_with, ◌&&◌, some, [], ◌∷◌, Text, text,
  text_eq_refl, arith, Bool-cases, inl, inr,
}
use nextpanel.Prelude.Exec.{ok}
use nextpanel.Prelude.Results.{ok-injective, ok_of_reject, ok_of_bind}
use nextpanel.Nodes.Shape.{NodeShape, is_xhttp, is_cf_xhttp, is_reality}
use nextpanel.Nodes.Model.{protocol_eq, tuic, anytls, bad_short_id, bad_path}
use nextpanel.Nodes.Credentials.{
  Creds, Given, Draw, as_given, get, put, defined, is_filled, or_put, random_password,
  reality_private_key, reality_public_key, random_short_id, random_path,
}
use nextpanel.Nodes.Identity.{
  has_keys, put_keys, xhttp_members, xhttp_checked, cdn_checked, native_members, xhttp_credentials,
  passes, is_short_id, cf_xhttp_credentials, with_keys, ensure_credentials,
}

defined-as_given : (c : Creds) → defined (as_given c) ≡ c
unfolding defined
defined-as_given [] = refl
defined-as_given ((key, value) ∷ c) = rw (defined-as_given c) refl

-- An assignment of a value that is not empty leaves every member filled that was.
put-filled :
    (c : Creds) (name other value : Text)
    → is_filled (some value) ≡ true
    → is_filled (get c other) ≡ true
    → is_filled (get (put c name value) other) ≡ true
unfolding get put
put-filled [] name other value v h = cc
put-filled ((key, old) ∷ c) name other value v h = ground (arith, put-filled c name other value v)

get-put : (c : Creds) (name value : Text) → get (put c name value) name ≡ some value
unfolding get put
get-put [] name value = ground (arith, text_eq_refl name)
get-put ((key, old) ∷ c) name value = ground (arith, get-put c name value)

or_put-filled :
    (c : Creds) (name other value : Text)
    → is_filled (some value) ≡ true
    → is_filled (get c other) ≡ true
    → is_filled (get (or_put c name value) other) ≡ true
unfolding or_put
or_put-filled c name other value v h = ground (arith, put-filled c name other value v h)

or_put-fills :
    (c : Creds) (name value : Text)
    → is_filled (some value) ≡ true
    → is_filled (get (or_put c name value) name) ≡ true
unfolding or_put
or_put-fills c name value v = ground (arith, get-put c name value)

or_put_id :
    (c : Creds) (name value : Text) → is_filled (get c name) ≡ true → or_put c name value ≡ c
unfolding or_put
or_put_id c name value h = ground arith

both_of : (a b : Bool) → a && b ≡ true → (a ≡ true) × (b ≡ true)
both_of true true h = (refl, refl)
both_of true false h = cc
both_of false b h = cc

-- What a draw of node:crypto gives is never the empty text.
pub record IsDrawn (draw : Draw) : Type 0 where
  pub uuid_filled : is_filled (some draw.random_uuid) ≡ true
  pub password_filled : is_filled (some (random_password draw 32)) ≡ true
  pub private_filled : is_filled (some (reality_private_key draw)) ≡ true
  pub public_filled : is_filled (some (reality_public_key draw)) ≡ true
  pub short_id_filled : is_filled (some (random_short_id draw)) ≡ true

both : {a b : Bool} → a ≡ true → b ≡ true → a && b ≡ true
both h k = ground arith

put_keys-filled :
    (draw : Draw) (c : Creds) (other : Text)
    → IsDrawn draw
    → is_filled (get c other) ≡ true
    → is_filled (get (put_keys draw c) other) ≡ true
unfolding put_keys
put_keys-filled draw c other d h =
    put-filled _ _ other _ d.public_filled (put-filled c _ other _ d.private_filled h)

put-fills :
    (c : Creds) (name value : Text)
    → is_filled (some value) ≡ true
    → is_filled (get (put c name value) name) ≡ true
put-fills c name value v = rw (get-put c name value) v

put_keys-fills : (draw : Draw) (c : Creds) → IsDrawn draw → has_keys (put_keys draw c) ≡ true
unfolding put_keys
put_keys-fills draw c d =
    both (put-filled _ _ _ _ d.public_filled (put-fills c _ _ d.private_filled))
      (put-fills _ _ _ d.public_filled)

with_keys-filled :
    (draw : Draw) (c : Creds) (other : Text)
    → IsDrawn draw
    → is_filled (get c other) ≡ true
    → is_filled (get (with_keys draw c) other) ≡ true
unfolding with_keys
with_keys-filled draw c other d h = elim (Bool-cases (has_keys c)) [
  | inl e ↦ rw e h
  | inr e ↦ rw e (put_keys-filled draw c other d h)
]

with_keys-fills : (draw : Draw) (c : Creds) → IsDrawn draw → has_keys (with_keys draw c) ≡ true
unfolding with_keys
with_keys-fills draw c d = elim (Bool-cases (has_keys c)) [
  | inl e ↦ rw e e
  | inr e ↦ rw e (put_keys-fills draw c d)
]

with_keys_id : (draw : Draw) (c : Creds) → has_keys c ≡ true → with_keys draw c ≡ c
unfolding with_keys
with_keys_id draw c h = ground arith

-- what a node over XHTTP needs
record IsXhttpReady (c : Creds) : Type 0 where
  pub uuid : is_filled (get c (text "uuid")) ≡ true
  pub keys : has_keys c ≡ true
  pub short_id : is_filled (get c (text "shortId")) ≡ true
  pub path : is_filled (get c (text "path")) ≡ true

xhttp_members_id : (draw keys : Draw) (c : Creds) → IsXhttpReady c → xhttp_members draw keys c ≡ c
unfolding xhttp_members
xhttp_members_id draw keys c r = rw (or_put_id c (text "uuid") draw.random_uuid r.uuid) (
    rw (with_keys_id keys c r.keys) (
      rw (or_put_id c (text "shortId") (random_short_id draw) r.short_id)
        (or_put_id c (text "path") _ r.path)))

xhttp_members-IsXhttpReady :
    (draw keys : Draw) (c : Creds)
    → IsDrawn draw
    → IsDrawn keys
    → IsXhttpReady (xhttp_members draw keys c)
unfolding xhttp_members
xhttp_members-IsXhttpReady draw keys c d k =
    let c1 : Creds = or_put c (text "uuid") draw.random_uuid in
    let c2 : Creds = with_keys keys c1 in
    let c3 : Creds = or_put c2 (text "shortId") (random_short_id draw) in
    let later = λ (other : Text) (h : is_filled (get c2 other) ≡ true).
      or_put-filled c3 (text "path") other (random_path draw 12) refl
        (or_put-filled c2 (text "shortId") other (random_short_id draw) d.short_id_filled h) in
    record {
      uuid =
          later (text "uuid") (
            with_keys-filled keys c1 (text "uuid") k
              (or_put-fills c (text "uuid") _ d.uuid_filled));
      keys =
          both (later _ (both_of _ _ (with_keys-fills keys c1 k)).0)
            (later _ (both_of _ _ (with_keys-fills keys c1 k)).1);
      short_id =
          or_put-filled c3 (text "path") _ (random_path draw 12) refl
            (or_put-fills c2 (text "shortId") _ d.short_id_filled);
      path = or_put-fills c3 (text "path") (random_path draw 12) refl;
    }

xhttp_checked-same : (m c : Creds) → xhttp_checked m ≡ ok c → m ≡ c
unfolding xhttp_checked
xhttp_checked-same m c h =
    let bad : Bool = not (passes is_short_id (get m (text "shortId"))) in
    let wrong : Bool = not (passes (λ s. starts_with s (text "/")) (get m (text "path"))) in
    let (_, rest) = ok_of_reject bad bad_short_id _ c h in
    let (_, last) = ok_of_reject wrong bad_path _ c rest in ok-injective last

cdn_checked-same : (m c : Creds) → cdn_checked m ≡ ok c → m ≡ c
unfolding cdn_checked
cdn_checked-same m c h =
    let (_, _, last) = ok_of_bind (cf_xhttp_credentials m _) _ c h in ok-injective last

with_keys-again :
    (draw draw' : Draw) (c : Creds)
    → IsDrawn draw
    → with_keys draw' (with_keys draw c) ≡ with_keys draw c
with_keys-again draw draw' c d = with_keys_id draw' _ (with_keys-fills draw c d)

native_members-again :
    (draw draw' : Draw) (s : NodeShape) (c : Creds)
    → IsDrawn draw
    → native_members draw' s (native_members draw s c) ≡ native_members draw s c
unfolding native_members
native_members-again draw draw' s c d = elim (Bool-cases (protocol_eq s.protocol tuic)) [
  | inl t ↦
      let c1 : Creds = or_put c (text "uuid") draw.random_uuid in
      let kept =
        or_put-filled c1 (text "password") (text "uuid") (random_password draw 32) d.password_filled
          (or_put-fills c (text "uuid") _ d.uuid_filled) in
      rw (t, or_put_id _ (text "uuid") draw'.random_uuid kept)
        (or_put_id _ (text "password") (random_password draw' 32)
          (or_put-fills c1 (text "password") _ d.password_filled))
  | inr t ↦ elim (Bool-cases (protocol_eq s.protocol anytls)) [
    | inl a ↦
        rw (t, a)
          (or_put_id _ (text "password") (random_password draw' 32)
            (or_put-fills c (text "password") _ d.password_filled))
    | inr a ↦ elim (Bool-cases (is_reality s.tls)) [
      | inl r ↦ rw (t, a, r) (with_keys-again draw draw' c d)
      | inr r ↦ rw (t, a, r) refl
    ]
  ]
]

xhttp_credentials-again :
    (draw keys draw' keys' : Draw) (s : NodeShape) (given c : Creds)
    → IsDrawn draw
    → IsDrawn keys
    → xhttp_credentials draw keys s given ≡ ok c
    → xhttp_credentials draw' keys' s c ≡ ok c
unfolding xhttp_credentials
xhttp_credentials-again draw keys draw' keys' s given c d k h =
    elim (Bool-cases (is_cf_xhttp s.protocol s.transport s.tls)) [
      | inl cdn ↦
          let r : cdn_checked given ≡ ok c = rw cdn at h in
          rw cdn (subst (λ m. cdn_checked m ≡ ok c) (cdn_checked-same _ c r) r)
      | inr other ↦
          let r : xhttp_checked (xhttp_members draw keys given) ≡ ok c = rw other at h in
          let same = xhttp_checked-same _ c r in
          let ready = subst IsXhttpReady same (xhttp_members-IsXhttpReady draw keys given d k) in
          rw (other, xhttp_members_id draw' keys' c ready)
            (subst (λ m. xhttp_checked m ≡ ok c) same r)
    ]

-- Once the credentials of a node are complete, a second run with any other draw leaves them as they
-- are: a node keeps its identity and its keys.
pub ensure_credentials_again :
    (draw keys draw' keys' : Draw) (s : NodeShape) (given : Given) (c : Creds)
    → IsDrawn draw
    → IsDrawn keys
    → ensure_credentials draw keys s given ≡ ok c
    → ensure_credentials draw' keys' s (as_given c) ≡ ok c
unfolding ensure_credentials
ensure_credentials_again draw keys draw' keys' s given c d k h =
    elim (Bool-cases (is_xhttp s.transport)) [
      | inl x ↦
          rw (x, defined-as_given c)
            (xhttp_credentials-again draw keys draw' keys' s (defined given) c d k (rw x at h))
      | inr x ↦
          let same : native_members draw s (defined given) ≡ c = ok-injective (rw x at h) in
          let again = native_members-again draw draw' s (defined given) d in
          rw (x, defined-as_given c) (ap ok (subst (λ m. native_members draw' s m ≡ m) same again))
    ]
