-- ===== src/Usage/Once.antt =====
-- apps/server/src/usage/usage.service.ts: a sample is counted once.
use nextpanel.Prelude.{
  ℕ, ◌≡◌, ◌≢◌, refl, sym, subst, ◌∙◌, Bool, true, false, ◌||◌, not, is_some, Option, none, some,
  List, [], ◌∷◌, ◌++◌, Text, text_eq, find_holds, find, ltb, arith, Bool-cases, inl, inr,
}
use nextpanel.Usage.{Db, UsageNode, UsageSample, usage_fresh_ms, distance}
use nextpanel.Usage.Ingest.{
  is_state_of, is_ignored, is_reached, equals_text, are_distinct, ingest_found, ingest_dated,
  ingest_sample, ingest,
}
use nextpanel.Usage.Later.{Reached, count_sample-found, and_left, chosen_then, ingest_dated-Reached}

-- Two series, one after the other.
ingest_append :
    (server : Text) (xs ys : List (ℕ × UsageSample)) (db : Db)
    → ingest true server (xs ++ ys) db ≡ ingest true server ys (ingest true server xs db)
unfolding ingest
ingest_append server [] ys db = refl
ingest_append server (x ∷ xs) ys db = ingest_append server xs ys (ingest_sample server x db)

-- Whatever comes in between.
ingest-Reached :
    (enabled : Bool) (t : ℕ) (node server : Text) (samples : List (ℕ × UsageSample)) (db : Db)
    → Reached node server t db.nodes
    → Reached node server t (ingest enabled server samples db).nodes
unfolding ingest
ingest-Reached false t node server samples db r = r
ingest-Reached true t node server [] db r = r
ingest-Reached true t node server ((now, sample) ∷ samples) db r =
    ingest-Reached true t node server samples (ingest_sample server (now, sample) db)
      (ingest_dated-Reached sample now t node server sample.sampled_at db r)

or_right : (a b c d : Bool) → c ≡ true → (a || (b || c)) || d ≡ true
or_right true b c d h = refl
or_right false true c d h = refl
or_right false false true d h = refl
or_right false false false d h = cc

ingest_dated-again :
    (sample : UsageSample) (now at : ℕ) (server : Text) (db : Db)
    → Reached sample.node_id server at db.nodes
    → ingest_dated now server sample (some at) db ≡ db
unfolding ingest_dated ingest_found
ingest_dated-again sample now at server db (n, e, r) =
    elim (Bool-cases (ltb usage_fresh_ms (distance now at))) [
      | inl h ↦ rw h refl
      | inr h ↦
          rw (h, e)
            (rw
              (or_right (not (is_some n.prepared_at)) (equals_text sample.sample_id n.sample_id)
                (is_reached at n.sampled_at) (sample.has_error || not (are_distinct sample.users))
                r)
              refl)
    ]

ingest_found-changed :
    (sample : UsageSample) (at : ℕ) (server : Text) (db : Db) (found : Option UsageNode)
    → find (is_state_of sample.node_id server) db.nodes ≡ found
    → ingest_found sample at found db ≢ db
    → Reached sample.node_id server at (ingest_found sample at found db).nodes
unfolding ingest_found
ingest_found-changed sample at server db none f changed = elim (changed refl) [ ]
ingest_found-changed sample at server db (some state) f changed =
    elim (Bool-cases
      (is_ignored sample at state || (sample.has_error || not (are_distinct sample.users)))) [
        | inl skip ↦ elim (changed (rw skip refl)) [ ]
        | inr kept ↦
            let (m, g, s) = count_sample-found sample at state sample.node_id server db state f in
            let mine : text_eq state.node_id sample.node_id ≡ true =
              and_left _ _ (find_holds (is_state_of sample.node_id server) db.nodes state f) in
            rw kept (
              m,
              g,
              subst (λ x. is_reached at x ≡ true) (sym (s ∙ chosen_then _ at state.sampled_at mine))
                  (ground arith),
            )
      ]

ingest_dated-changed :
    (sample : UsageSample) (now at : ℕ) (server : Text) (db : Db)
    → ingest_dated now server sample (some at) db ≢ db
    → Reached sample.node_id server at (ingest_dated now server sample (some at) db).nodes
unfolding ingest_dated
ingest_dated-changed sample now at server db changed =
    elim (Bool-cases (ltb usage_fresh_ms (distance now at))) [
      | inl old ↦ elim (changed (rw old refl)) [ ]
      | inr fresh ↦
          rw fresh (ingest_found-changed sample at server db _ refl (λ e. changed (rw fresh e)))
    ]

dated_once :
    (enabled : Bool) (server : Text) (sample : UsageSample) (date : Option ℕ) (now later : ℕ)
    (between : List (ℕ × UsageSample)) (db : Db)
    → ingest_dated now server sample date db ≢ db
    → ingest_dated later server sample date
        (ingest enabled server between (ingest_dated now server sample date db))
      ≡ ingest enabled server between (ingest_dated now server sample date db)
unfolding ingest_dated
dated_once enabled server sample none now later between db changed = elim (changed refl) [ ]
dated_once enabled server sample (some at) now later between db changed =
    ingest_dated-again sample later at server _ (
      ingest-Reached enabled at sample.node_id server between _
        (ingest_dated-changed sample now at server db changed))

-- A sample that changed the tables is not counted again when it is delivered once more, whatever
-- samples of the server were served in between, at whatever times.
pub counted_once :
    (server : Text) (sample : UsageSample) (now later : ℕ) (between : List (ℕ × UsageSample))
    (db : Db)
    → ingest true server ((now, sample) ∷ []) db ≢ db
    → ingest true server ((now, sample) ∷ between ++ ((later, sample) ∷ [])) db
      ≡ ingest true server ((now, sample) ∷ between) db
unfolding ingest
counted_once server sample now later between db changed =
    ingest_append server between ((later, sample) ∷ []) _
    ∙ dated_once true server sample sample.sampled_at now later between db changed
