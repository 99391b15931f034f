-- ===== src/Usage/Later.antt =====
-- apps/server/src/usage/usage.service.ts: what the samples leave in the row of a node.
use nextpanel.Prelude.{
  ℕ, ◌≡◌, refl, sym, subst, ◌∙◌, Bool, true, false, ◌&&◌, ◌||◌, not, is_some, Option, none, some,
  List, [], ◌∷◌, Text, text_eq, text_eq_iff, ap, find_holds, find, keep, any, leb, ltb,
  update_where, arith, Bool-cases, Option-cases, inl, inr, if◌then◌else◌,
}
use nextpanel.Usage.{
  Db, UsageNode, UsageSample, UsageCredential, legacy_email, usage_fresh_ms, distance,
}
use nextpanel.Usage.Ingest.{
  is_state_of, is_ignored, is_reached, is_recorded, equals_text, are_distinct, counted_node,
  count_credential, count_all, count_sample, ingest_found, ingest_dated, stat_of, millis_since,
  is_reset,
}

-- The node has a sample of that time or a later one.
abbrev pub Reached : Text → Text → ℕ → List UsageNode → Type 0
Reached node server at nodes =
    (n : UsageNode) × (find (is_state_of node server) nodes ≡ some n)
    × (is_reached at n.sampled_at ≡ true)

-- The loop over the credentials does not write the nodes.
count_all-nodes :
    (sample : UsageSample) (at : ℕ) (state : UsageNode) (millis : ℕ) (reset : Bool)
    (rows : List UsageCredential) (db : Db)
    → (count_all sample at state millis reset rows db).nodes ≡ db.nodes
unfolding count_all count_credential
count_all-nodes sample at state millis reset [] db = refl
count_all-nodes sample at state millis reset (row ∷ rows) db =
    count_all-nodes sample at state millis reset rows _
    ∙ elim (Bool-cases (any (text_eq row.subscription_id) db.enabled_subs)) [
      | inl h ↦ rw h refl
      | inr h ↦ rw h refl
    ]

-- A rewrite that keeps the tested columns.
found_rewritten :
    {A : Type 0} (p q : A → Bool) (f : A → A) (xs : List A) (x : A)
    → ((y : A) → p (f y) ≡ p y)
    → find p xs ≡ some x
    → find p (update_where q f xs) ≡ some (if q x then f x else x)
unfolding update_where
found_rewritten p q f [] x same e = cc
found_rewritten p q f (y ∷ xs) x same e = ground (arith, same y, found_rewritten p q f xs x same)

counted_node-ids :
    (sample : UsageSample) (at : ℕ) (state : UsageNode) (millis : ℕ) (reset : Bool)
    (node server : Text) (n : UsageNode)
    → is_state_of node server (counted_node sample at state millis reset n)
      ≡ is_state_of node server n
counted_node-ids sample at state millis reset node server n =
    elim (Option-cases (stat_of legacy_email sample.users)) [
      | inl e ↦ rw e refl
      | inr (u, e) ↦ rw e refl
    ]

-- the row of a node after a sample was counted
pub count_sample-found :
    (sample : UsageSample) (at : ℕ) (state : UsageNode) (node server : Text) (db : Db)
    (n : UsageNode)
    → find (is_state_of node server) db.nodes ≡ some n
    → (m : UsageNode) × (find (is_state_of node server) (count_sample sample at state db).nodes
        ≡ some m)
      × (m.sampled_at ≡ (if text_eq n.node_id sample.node_id then some at else n.sampled_at))
unfolding count_sample
count_sample-found sample at state node server db n e =
    let millis = millis_since at state.sampled_at in
    let reset = is_reset sample.uptime state.core_uptime millis in
    let f = counted_node sample at state millis reset in
    let mine : Bool = text_eq n.node_id sample.node_id in
    (
      if mine then f n else n,
      ap
            (λ l.
              find (is_state_of node server)
                (update_where (λ n. text_eq n.node_id sample.node_id) f l))
            (count_all-nodes sample at state millis reset
              (keep (is_recorded sample.node_id) db.credentials) db)
          ∙ found_rewritten (is_state_of node server) (λ n. text_eq n.node_id sample.node_id) f
              db.nodes n (counted_node-ids sample at state millis reset node server) e,
      elim (Bool-cases mine) [ inl h ↦ rw h refl | inr h ↦ rw h refl ],
    )

pub and_left : (a b : Bool) → a && b ≡ true → a ≡ true
and_left true b h = refl
and_left false b h = cc

pub chosen_then : (b : Bool) (t : ℕ) (o : Option ℕ) → b ≡ true → (if b then some t else o) ≡ some t
chosen_then b t o h = rw h refl

chosen_else : (b : Bool) (t : ℕ) (o : Option ℕ) → b ≡ false → (if b then some t else o) ≡ o
chosen_else b t o h = rw h refl

pub or_left : (a b : Bool) → a || b ≡ false → a ≡ false
or_left false b h = refl
or_left true b h = cc

later_than_reached :
    (unprepared same : Bool) (at t : ℕ) (sampled : Option ℕ)
    → unprepared || (same || is_reached at sampled) ≡ false
    → is_reached t sampled ≡ true
    → leb t at ≡ true
later_than_reached true same at t sampled h r = cc
later_than_reached false true at t sampled h r = cc
later_than_reached false false at t none h r = cc
later_than_reached false false at t (some u) h r = ground arith

-- A sample that is not ignored is later than all that the node had.
not_ignored :
    (sample : UsageSample) (at t : ℕ) (state : UsageNode)
    → is_ignored sample at state ≡ false
    → is_reached t state.sampled_at ≡ true
    → leb t at ≡ true
not_ignored sample at t state =
    later_than_reached (not (is_some state.prepared_at))
      (equals_text sample.sample_id state.sample_id) at t state.sampled_at

-- The two searches for a row by the identifier of its node find the same row.
same_row :
    (node other server : Text) (nodes : List UsageNode) (n state : UsageNode)
    → find (is_state_of node server) nodes ≡ some n
    → find (is_state_of other server) nodes ≡ some state
    → text_eq n.node_id other ≡ true
    → n ≡ state
same_row node other server nodes n state e f h =
    let of_node : text_eq n.node_id node ≡ true =
      and_left _ _ (find_holds (is_state_of node server) nodes n e) in
    let same : node ≡ other =
      sym ((text_eq_iff n.node_id node).0 of_node) ∙ (text_eq_iff n.node_id other).0 h in
    let again : find (is_state_of node server) nodes ≡ some state =
      subst (λ k. find (is_state_of k server) nodes ≡ some state) (sym same) f in
    cc

ingest_found-Reached :
    (sample : UsageSample) (at t : ℕ) (node server : Text) (db : Db)
    → Reached node server t db.nodes
    → Reached node server t
        (ingest_found sample at (find (is_state_of sample.node_id server) db.nodes) db).nodes
unfolding ingest_found
ingest_found-Reached sample at t node server db (n, e, r) =
    go (find (is_state_of sample.node_id server) db.nodes) refl
  where
    renewed :
        (state m : UsageNode)
        → find (is_state_of sample.node_id server) db.nodes ≡ some state
        → is_ignored sample at state ≡ false
        → m.sampled_at ≡ (if text_eq n.node_id sample.node_id then some at else n.sampled_at)
        → is_reached t m.sampled_at ≡ true
    renewed state m f fresh s = elim (Bool-cases (text_eq n.node_id sample.node_id)) [
      | inl h ↦
          let one = same_row node sample.node_id server db.nodes n state e f h in
          let before : is_reached t state.sampled_at ≡ true =
            subst (λ x. is_reached t x.sampled_at ≡ true) one r in
          subst (λ x. is_reached t x ≡ true) (sym (s ∙ chosen_then _ at n.sampled_at h))
            (not_ignored sample at t state fresh before)
      | inr h ↦ subst (λ x. is_reached t x ≡ true) (sym (s ∙ chosen_else _ at n.sampled_at h)) r
    ]

    go :
        (found : Option UsageNode)
        → find (is_state_of sample.node_id server) db.nodes ≡ found
        → Reached node server t (ingest_found sample at found db).nodes
    go none f = (n, e, r)
    go (some state) f =
        elim (Bool-cases
          (is_ignored sample at state || (sample.has_error || not (are_distinct sample.users)))) [
            | inl skip ↦ rw skip (n, e, r)
            | inr kept ↦
                let (m, g, s) = count_sample-found sample at state node server db n e in
                rw kept (m, g, renewed state m f (or_left _ _ kept) s)
          ]

pub ingest_dated-Reached :
    (sample : UsageSample) (now t : ℕ) (node server : Text) (date : Option ℕ) (db : Db)
    → Reached node server t db.nodes
    → Reached node server t (ingest_dated now server sample date db).nodes
unfolding ingest_dated
ingest_dated-Reached sample now t node server none db r = r
ingest_dated-Reached sample now t node server (some at) db r =
    elim (Bool-cases (ltb usage_fresh_ms (distance now at))) [
      | inl h ↦ rw h r
      | inr h ↦ rw h (ingest_found-Reached sample at t node server db r)
    ]
