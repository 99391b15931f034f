-- ===== src/Agent/Offers.antt =====
-- apps/server/src/agent/agent.service.ts (getLatestVersion): what is remembered of the releases.
use nextpanel.Prelude.{
  refl, ◌++◌, text, starts_with, drop, length, ==_iff, text_eq_iff, ℕ, true, ◌≡◌, inl, inr, ap, sym,
  subst, ◌∙◌, arith, Option, none, some, List, [], ◌∷◌, Text, text_eq, ltb, ◌-◌, Bool-cases,
  Option-cases,
}
use mathlib.Core.Option.{some-injective}
use nextpanel.Agent.Release.{
  refetch, cached_version, cached_release, Asset, LatestVersionCache, Github, github_repo,
  is_sha256, is_sha256_digest, release_digests, digest_of, refreshed, Release, get_latest_version,
  release_cache_ms,
}

-- The asset is among those of the release, with the digest.
abbrev pub Listed : Text → Text → List Asset → Type 0
Listed name sha256 assets =
    (before : List Asset) × (asset : Asset) × (after : List Asset) × (assets
      ≡ before ++ asset ∷ after)
    × (asset.name ≡ name)
    × (asset.digest ≡ some (text "sha256:" ++ sha256))

abbrev pub asset_name : Text → Text
asset_name arch = text "agent-linux-" ++ arch

-- The release that is remembered is one that GitHub answered with.
abbrev pub IsFetched : {W : Type 0} → Github W → Option LatestVersionCache → Type 0
IsFetched github none = Unit
IsFetched {W = W} github (some c) =
    (r : Release) × (w : W) × (at : ℕ) × ((github.latest_release (github_repo github.repo) w).0
      ≡ some r)
    × (c ≡ cached_release r at)

starts_with-drop : (s p : Text) → starts_with s p ≡ true → s ≡ p ++ drop (length p) s
unfolding starts_with
starts_with-drop s [] h = refl
starts_with-drop [] (c ∷ p) h = cc
starts_with-drop (d ∷ s) (c ∷ p) h =
    let same : c ≡ d = ground (arith, ==_iff c d) in
    let rest : starts_with s p ≡ true = ground arith in
    ap (λ x. x ∷ s) (sym same) ∙ ap (λ x. c ∷ x) (starts_with-drop s p rest)

sha256_digest : (t : Text) → is_sha256_digest t ≡ true → t ≡ text "sha256:" ++ drop 7 t
sha256_digest t h = starts_with-drop t (text "sha256:") (ground (arith, h))

-- An entry of the digests comes from an asset.
unfoldable pub Lists : Text → Text → List Asset → Type 0
Lists name d assets = Listed name d assets × (is_sha256 d ≡ true)

listed_later :
    (a : Asset) (name d : Text) (rest : List Asset) → Lists name d rest → Lists name d (a ∷ rest)
unfolding Lists
listed_later a name d rest ((before, asset, after, e, named, digest), hex) =
    ((a ∷ before, asset, after, ap (λ x. a ∷ x) e, named, digest), hex)

listed_here :
    (a : Asset) (t name d : Text) (rest : List Asset)
    → a.digest ≡ some t
    → is_sha256_digest t ≡ true
    → text_eq a.name name ≡ true
    → drop 7 t ≡ d
    → Lists name d (a ∷ rest)
unfolding Lists
listed_here a t name d rest digest good named same = (
  (
    [],
    a,
    rest,
    refl,
    (text_eq_iff a.name name).0 named,
    digest ∙ ap some (sha256_digest t good ∙ ap (λ x. text "sha256:" ++ x) same),
  ),
  subst (λ x. is_sha256 x ≡ true) same (ground (arith, good)),
)

pub release_digests-Lists :
    (assets : List Asset) (name d : Text)
    → digest_of name (release_digests assets) ≡ some d
    → Lists name d assets
release_digests-Lists [] name d h = cc
release_digests-Lists (a ∷ rest) name d h = elim (Option-cases a.digest) [
  | inl bare ↦ listed_later a name d rest (release_digests-Lists rest name d (rw bare at h))
  | inr (t, digest) ↦ elim (Bool-cases (is_sha256_digest t)) [
    | inl good ↦ elim (Option-cases (digest_of name (release_digests rest))) [
      | inl absent ↦ elim (Bool-cases (text_eq a.name name)) [
        | inl named ↦
            listed_here a t name d rest digest good named
              (some-injective (drop 7 t) d (rw (digest, good, absent, named) at h))
        | inr other ↦ cc (rw (digest, good, absent, other) at h)
      ]
      | inr (d', there) ↦
          listed_later a name d rest
            (release_digests-Lists rest name d (there ∙ (rw (digest, good, there) at h)))
    ]
    | inr bad ↦
        listed_later a name d rest (release_digests-Lists rest name d (rw (digest, bad) at h))
  ]
]

module _ {W : Type 0} (github : Github W) where
  -- the version that is answered is the one that is remembered
  unfoldable pub Fetches : Text × (Option LatestVersionCache × W) → Type 0
  Fetches (version, (cache, w)) = IsFetched github cache × (version ≡ cached_version cache)

  refreshed-Fetches :
      (cache : Option LatestVersionCache) (w : W)
      → IsFetched github cache
      → Fetches (refetch github cache w)
  unfolding Fetches
  refreshed-Fetches cache w h = go (github.latest_release (github_repo github.repo) w).0 refl
    where
      go :
          (r : Option Release)
          → (github.latest_release (github_repo github.repo) w).0 ≡ r
          → Fetches (refreshed github cache r (github.latest_release (github_repo github.repo) w).1)
      go none e = (h, refl)
      go (some r) e = ((r, w, _, e, refl), refl)

  pub get_latest_version-Fetches :
      (cache : Option LatestVersionCache) (w : W)
      → IsFetched github cache
      → Fetches (get_latest_version github cache w)
  unfolding get_latest_version Fetches
  get_latest_version-Fetches none w h = refreshed-Fetches none w h
  get_latest_version-Fetches (some c) w h =
      elim (Bool-cases (ltb ((github.now w).0 - c.fetched_at) release_cache_ms)) [
        | inl fresh ↦ rw fresh (h, refl)
        | inr old ↦ rw old (refreshed-Fetches (some c) (github.now w).1 h)
      ]
