-- ===== src/Agent/Signed.antt =====
-- apps/server/src/agent/agent.service.ts (getLatestVersion, handleHeartbeat): the updates that are sent.
use nextpanel.Prelude.{
  refl, ◌++◌, text, text_eq_iff, ◌⊎◌, ℕ, Bool, true, false, ◌||◌, ◌≡◌, inl, inr, sym, subst, Option,
  none, some, [], ◌∷◌, Text, text_eq, is_empty, ltb, Bool-cases, Option-cases, find,
}
use nextpanel.Prelude.Exec.{ok}
use nextpanel.Agent.Release.{
  cached_version, cached_release, release_version, LatestVersionCache, Github, github_repo,
  is_sha256, release_digests, assets_of, digest_of, Release,
}
use nextpanel.Agent.Pending.{
  HeartbeatPayload, UpdateCommand, AgentService, check_pending, deliver, update_asset,
  is_architecture, give_up, follow_pending, pending_update_timeout_ms,
}
use nextpanel.Agent.Rows.{ServerRow, Tables, Surroundings, HeartbeatAnswer}
use nextpanel.Agent.Heartbeat.{has_token, handle_known, handle_heartbeat}
use nextpanel.Agent.Answers.{write_heartbeat-Returns}
use nextpanel.Agent.Offers.{
  Listed, asset_name, IsFetched, Lists, release_digests-Lists, Fetches, get_latest_version-Fetches,
}

-- The command names the version of a release that GitHub answered with, which the agent does not have
-- yet, the place of the asset for its architecture, and the digest that the release lists for it.
abbrev pub IsSigned : {W : Type 0} → Github W → HeartbeatPayload → Option UpdateCommand → Type 0
IsSigned github payload none = Unit
IsSigned {W = W} github payload (some u) =
    (r : Release) × (w : W) × (arch : Text) × ((github.latest_release (github_repo github.repo) w).0
      ≡ some r)
    × (payload.architecture ≡ some arch)
    × ((arch ≡ text "amd64") ⊎ (arch ≡ text "arm64"))
    × (u.version ≡ release_version r.tag_name)
    × (text_eq payload.agent_version u.version ≡ false)
    × Listed (asset_name arch) u.sha256 (assets_of r.assets)
    × (is_sha256 u.sha256 ≡ true)
    × (u.download_url
        ≡ text "https://github.com/"
          ++ github_repo github.repo
          ++ text "/releases/download/"
          ++ r.tag_name
          ++ 47 ∷ asset_name arch)

module _ {W : Type 0} (github : Github W) (payload : HeartbeatPayload) where
  quiet : (c : Option UpdateCommand) → c ≡ none → IsSigned github payload c
  quiet c e = subst (IsSigned github payload) (sym e) tt

  give_up-quiet : (elapsed : ℕ) → (give_up elapsed).command ≡ none
  give_up-quiet elapsed = elim (Bool-cases (ltb pending_update_timeout_ms elapsed)) [
    | inl late ↦ rw late refl
    | inr early ↦ rw early refl
  ]

  no_asset :
      (repo version tag : Text) (d : Option Text) → (deliver repo version tag [] d).command ≡ none
  no_asset repo version tag none = refl
  no_asset repo version tag (some d) = refl

  known_arch :
      (arch : Text) → is_architecture arch ≡ true → (arch ≡ text "amd64") ⊎ (arch ≡ text "arm64")
  known_arch arch known = elim (Bool-cases (text_eq arch (text "amd64"))) [
    | inl amd ↦ inl ((text_eq_iff arch (text "amd64")).0 amd)
    | inr other ↦ inr ((text_eq_iff arch (text "arm64")).0 (rw other at known))
  ]

  deliver-IsSigned :
      (r : Release) (w : W) (arch : Text)
      → (github.latest_release (github_repo github.repo) w).0 ≡ some r
      → payload.architecture ≡ some arch
      → is_architecture arch ≡ true
      → text_eq payload.agent_version (release_version r.tag_name) ≡ false
      → IsSigned github payload
          (deliver
            (github_repo github.repo)
            (release_version r.tag_name)
            r.tag_name
            (asset_name arch)
            (digest_of (asset_name arch) (release_digests (assets_of r.assets)))).command
  unfolding Lists
  deliver-IsSigned r w arch answered reported known other =
      let ds = release_digests (assets_of r.assets) in
      elim (Option-cases (digest_of (asset_name arch) ds)) [
        | inl absent ↦ rw absent tt
        | inr (d, there) ↦
            let (listed, hex) =
              release_digests-Lists (assets_of r.assets) (asset_name arch) d there in
            elim (Bool-cases (is_empty (asset_name arch) || is_empty d)) [
              | inl blank ↦ rw (there, blank) tt
              | inr something ↦
                  rw (there, something)
                    (
                      r,
                      w,
                      arch,
                      answered,
                      reported,
                      known_arch arch known,
                      refl,
                      other,
                      listed,
                      hex,
                      refl,
                    )
            ]
      ]

  reported-IsSigned :
      (r : Release) (w : W) (reported : Option Text)
      → payload.architecture ≡ reported
      → (github.latest_release (github_repo github.repo) w).0 ≡ some r
      → text_eq payload.agent_version (release_version r.tag_name) ≡ false
      → IsSigned github payload
          (deliver
            (github_repo github.repo)
            (release_version r.tag_name)
            r.tag_name
            (update_asset reported)
            (digest_of (update_asset reported) (release_digests (assets_of r.assets)))).command
  reported-IsSigned r w none e answered other =
      quiet _ (no_asset (github_repo github.repo) (release_version r.tag_name) r.tag_name _)
  reported-IsSigned r w (some arch) e answered other = elim (Bool-cases (is_architecture arch)) [
    | inl known ↦ rw known (deliver-IsSigned r w arch answered e known other)
    | inr strange ↦
        rw strange
          (quiet _ (no_asset (github_repo github.repo) (release_version r.tag_name) r.tag_name _))
  ]

  release-IsSigned :
      (r : Release) (w : W) (at elapsed : ℕ)
      → (github.latest_release (github_repo github.repo) w).0 ≡ some r
      → IsSigned github payload
          (check_pending
            (github_repo github.repo)
            payload
            elapsed
            (release_version r.tag_name)
            (some (cached_release r at))).command
  unfolding check_pending
  release-IsSigned r w at elapsed answered =
      let version = release_version r.tag_name in
      elim (Bool-cases (is_empty version || is_empty r.tag_name)) [
        | inl unknown ↦ rw unknown (quiet _ (give_up-quiet elapsed))
        | inr known ↦ elim (Bool-cases (text_eq payload.agent_version version)) [
          | inl reached ↦ rw (known, reached) tt
          | inr other ↦ elim (Bool-cases (ltb pending_update_timeout_ms elapsed)) [
            | inl late ↦ rw (known, other, late) tt
            | inr early ↦
                rw (known, other, early)
                  (reported-IsSigned r w payload.architecture refl answered other)
          ]
        ]
      ]

  check_pending-IsSigned :
      (elapsed : ℕ) (version : Text) (cache : Option LatestVersionCache)
      → IsFetched github cache
      → version ≡ cached_version cache
      → IsSigned github payload
          (check_pending (github_repo github.repo) payload elapsed version cache).command
  unfolding check_pending
  check_pending-IsSigned elapsed version none h e = quiet _ (give_up-quiet elapsed)
  check_pending-IsSigned elapsed version (some c) (r, w, at, answered, same) e =
      let sends = λ (v : Text) (c : LatestVersionCache).
        (check_pending (github_repo github.repo) payload elapsed v (some c)).command in
      subst (λ v. IsSigned github payload (sends v c)) (sym e)
        (subst (λ c. IsSigned github payload (sends c.version c)) (sym same)
          (release-IsSigned r w at elapsed answered))

  follow_pending-IsSigned :
      (id : Text) (is_pending : Bool) (a : AgentService) (w : W)
      → IsFetched github a.latest_version_cache
      → let (u, (a', _)) = follow_pending github id payload is_pending a w in
        IsSigned github payload u.command × IsFetched github a'.latest_version_cache
  unfolding follow_pending Fetches
  follow_pending-IsSigned id false a w h = (tt, h)
  follow_pending-IsSigned id true a w h =
      let (kept, e) = get_latest_version-Fetches github a.latest_version_cache (github.now w).1 h in
      (check_pending-IsSigned _ _ _ kept e, kept)

module _ {W : Type 0} (o : Surroundings W) where
  handle_known-IsSigned :
      (received : ℕ) (payload : HeartbeatPayload) (row : ServerRow) (a : AgentService)
      (s : Tables W)
      → IsFetched o.github a.latest_version_cache
      → let (r, (a', _)) = handle_known o received payload row a s in
        IsFetched o.github a'.latest_version_cache
        × ((answer : HeartbeatAnswer)
            → r ≡ ok answer
            → IsSigned o.github payload answer.update_command)
  handle_known-IsSigned received payload row a s h =
      let kept =
        follow_pending-IsSigned o.github payload row.id row.pending_agent_update
          (record a { network_rates = _ }) (o.github.now s.world).1 h in
      (
        kept.1,
        (λ answer e.
            (write_heartbeat-Returns o (IsSigned o.github payload) tt row.id payload _ _ _
                kept.0).at
              _ answer e),
      )

  -- A heartbeat that asks the agent to update itself does so for a release that GitHub answered with, and
  -- for the architecture that the agent reports, amd64 or arm64: the command has the version of that
  -- release, other than the one that the agent reports, the place of the asset for the architecture,
  -- and the digest of 64 hexadecimal digits that the release lists for that asset. The service goes
  -- on remembering only releases that GitHub answered with, as one that was just started does.
  pub handle_heartbeat-IsSigned :
      (received : ℕ) (payload : HeartbeatPayload) (a : AgentService) (s : Tables W)
      → IsFetched o.github a.latest_version_cache
      → let (r, (a', _)) = handle_heartbeat o received payload a s in
        IsFetched o.github a'.latest_version_cache
        × ((answer : HeartbeatAnswer)
            → r ≡ ok answer
            → IsSigned o.github payload answer.update_command)
  unfolding handle_heartbeat
  handle_heartbeat-IsSigned received payload a s h =
      elim (Option-cases (find (has_token payload.agent_token) s.servers)) [
        | inl unknown ↦ rw (handle_heartbeat, unknown) (h, (λ answer e. cc))
        | inr (row, found) ↦
            rw (handle_heartbeat, found) (handle_known-IsSigned received payload row a s h)
      ]
