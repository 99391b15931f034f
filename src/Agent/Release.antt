-- ===== src/Agent/Release.antt =====
-- apps/server/src/agent/agent.service.ts (getLatestVersion): the release of the agent that is offered,
-- kept for an hour. The release notes, a text that is only shown, are not modelled.
use nextpanel.Prelude.{
  ℕ, ◌-◌, ◌*◌, Bool, Option, none, some, List, [], ◌∷◌, ◌++◌, Text, text, text_eq, is_empty, length,
  all, drop, starts_with, ltb, ◌==◌, ◌&&◌, if◌then◌else◌,
}
use nextpanel.Prelude.Options.{◌>>=◌}
use nextpanel.Uri.Numbers.{span_digits}
use nextpanel.Auth.OauthStates.{is_hex_digit}

abbrev pub release_cache_ms : ℕ
release_cache_ms = 60 * 60 * 1000

pub record Asset : Type 0 where
  pub name : Text
  pub digest : Option Text

-- what GitHub answers
pub record Release : Type 0 where
  pub tag_name : Text
  pub assets : Option (List Asset)

-- the digest of each asset by its name, in the order in which they were set
pub record LatestVersionCache : Type 0 where
  pub version : Text
  pub tag_name : Text
  pub fetched_at : ℕ
  pub digests : List (Text × Text)

abbrev leading_digits : Text → Option (Text × Text)
leading_digits s = if is_empty (span_digits s).0 then none else some (span_digits s)

abbrev after_dot : Text → Option Text
after_dot [] = none
after_dot (c ∷ s) = if c == 46 then some s else none

-- `\d+\.\d+\.\d+` at the start of the text
abbrev semver_at : Text → Option Text
semver_at s = do
  (major, s1) ← leading_digits s
  s2 ← after_dot s1
  (minor, s3) ← leading_digits s2
  s4 ← after_dot s3
  (patch, s5) ← leading_digits s4
  some (major ++ 46 ∷ minor ++ 46 ∷ patch)

abbrev first_semver : Text → Option Text
first_semver [] = none
first_semver (c ∷ s) = elim (semver_at (c ∷ s)) [ some v ↦ some v | none ↦ first_semver s ]

abbrev pub release_version : Text → Text
release_version tag = elim (first_semver tag) [ some v ↦ v | none ↦ tag ]

-- 64 hexadecimal digits in lower case
abbrev pub is_sha256 : Text → Bool
is_sha256 d = length d == 64 && all is_hex_digit d

abbrev pub is_sha256_digest : Text → Bool
is_sha256_digest d = starts_with d (text "sha256:") && is_sha256 (drop 7 d)

abbrev pub add_digest : Text → Option Text → List (Text × Text) → List (Text × Text)
add_digest name none rest = rest
add_digest name (some d) rest = if is_sha256_digest d then (name, drop 7 d) ∷ rest else rest

abbrev pub release_digests : List Asset → List (Text × Text)
release_digests [] = []
release_digests (a ∷ rest) = add_digest a.name a.digest (release_digests rest)

abbrev pub assets_of : Option (List Asset) → List Asset
assets_of none = []
assets_of (some assets) = assets

abbrev pub later_or : Option Text → Option Text → Option Text
later_or none d = d
later_or (some later) d = some later

-- a property of `Object.fromEntries`, where the last entry with the name counts
abbrev pub digest_of : Text → List (Text × Text) → Option Text
digest_of name [] = none
digest_of name ((key, digest) ∷ rest) =
    later_or (digest_of name rest) (if text_eq key name then some digest else none)

abbrev pub cached_release : Release → ℕ → LatestVersionCache
cached_release r at = record {
  version = release_version r.tag_name;
  tag_name = r.tag_name;
  fetched_at = at;
  digests = release_digests (assets_of r.assets);
}

abbrev pub cached_version : Option LatestVersionCache → Text
cached_version none = []
cached_version (some c) = c.version

-- the configured GITHUB_REPO, the clock, and the two requests to GitHub, of which none stands for one
-- that throws or a release that is refused
pub record Github (W : Type 0) : Type 0 where
  pub repo : Option Text
  pub now : W → ℕ × W
  pub latest_release : Text → W → Option Release × W

abbrev pub github_repo : Option Text → Text
github_repo none = text "tripplemay/nextpanel-releases"
github_repo (some repo) = repo

module _ {W : Type 0} (github : Github W) where
  abbrev pub refreshed :
      Option LatestVersionCache → Option Release → W → Text × (Option LatestVersionCache × W)
  refreshed cache none w = (cached_version cache, (cache, w))
  refreshed cache (some r) w =
      let (at, w') = github.now w in
      ((cached_release r at).version, (some (cached_release r at), w'))

  abbrev pub refetch : Option LatestVersionCache → W → Text × (Option LatestVersionCache × W)
  refetch cache w =
      let (release, w') = github.latest_release (github_repo github.repo) w in
      refreshed cache release w'

  -- the version, and the cache after it
  unfoldable pub get_latest_version :
      Option LatestVersionCache → W → Text × (Option LatestVersionCache × W)
  get_latest_version none w = refetch none w
  get_latest_version (some c) w =
      let (at, w1) = github.now w in
      if ltb (at - c.fetched_at) release_cache_ms
      then (c.version, (some c, w1))
      else refetch (some c) w1
