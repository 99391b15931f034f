-- ===== src/Agent/Pruning.antt =====
-- apps/server/src/agent/network-rate.ts: the old baselines that are dropped make no difference.
use nextpanel.Prelude.{
  ℕ, ◌-◌, ◌≤◌, ◌<◌, ◌≡◌, ◌⊎◌, inl, inr, refl, sym, ap, ◌∙◌, Bool, true, false, Option, none, some,
  List, [], ◌∷◌, Text, text_eq, ltb, ltb→lt, Bool-cases, arith,
}
use nextpanel.Agent.{
  Baseline, Previous, NetworkRateTracker, Sample, Rates, kept_baseline, pruned, compare_with, store,
  measure, sample, sample_all, new_tracker, max_gap_ms,
}

-- The tracker that keeps every baseline for ever.
unfoldable pub measure_all : List Sample → Previous → List (Option Rates)
measure_all [] previous = []
measure_all (s ∷ ss) previous =
    let (rates, previous') = measure s previous in rates ∷ measure_all ss previous'

-- The times do not go back.
abbrev pub IsOrdered : ℕ → List Sample → Type 0
IsOrdered now [] = Unit
IsOrdered now (s ∷ ss) = (now ≤ s.counters.at) × IsOrdered s.counters.at ss

-- The two have the same baseline, or one dropped a baseline that is too old to count.
abbrev Agrees : ℕ → Option Baseline → Option Baseline → Type 0
Agrees now p q =
    (p ≡ q) ⊎ ((p ≡ none) × ((v : Baseline) × (q ≡ some v) × (max_gap_ms < now - v.at)))

abbrev Agree : ℕ → Previous → Previous → Type 0
Agree now f g = (id : Text) → Agrees now (f id) (g id)

later : (now next : ℕ) (f g : Previous) → now ≤ next → Agree now f g → Agree next f g
later now next f g h a id = elim (a id) [
  | inl e ↦ inl e
  | inr (e, (v, k, old)) ↦ inr (e, (v, k, omega arith))
]

kept_baseline-Agrees :
    (now : ℕ) (p q : Option Baseline) → Agrees now p q → Agrees now (kept_baseline now p) q
kept_baseline-Agrees now none q a = a
kept_baseline-Agrees now (some v) q (inr (e, _)) = cc
kept_baseline-Agrees now (some v) q (inl e) = elim (Bool-cases (ltb max_gap_ms (now - v.at))) [
  | inl old ↦ rw old (inr (refl, (v, sym e, ltb→lt _ _ old)))
  | inr young ↦ rw young (inl e)
]

-- A baseline that is too old counts as none.
too_old :
    (s v : Baseline) → max_gap_ms < s.at - v.at → compare_with s none ≡ compare_with s (some v)
unfolding compare_with
too_old s v old = ground arith

-- Both answer the same.
compare_with-Agrees :
    (s : Baseline) (p q : Option Baseline) → Agrees s.at p q → compare_with s p ≡ compare_with s q
compare_with-Agrees s p q (inl e) = ap (compare_with s) e
compare_with-Agrees s p q (inr (e, (v, k, old))) =
    ap (compare_with s) e ∙ too_old s v old ∙ sym (ap (compare_with s) k)

store-Agree :
    (newer : Bool) (now : ℕ) (id : Text) (v : Baseline) (f g : Previous)
    → Agree now f g
    → Agree now (store newer id v f) (store newer id v g)
store-Agree false now id v f g a k = a k
store-Agree true now id v f g a k = elim (Bool-cases (text_eq k id)) [
  | inl h ↦ rw h (inl refl)
  | inr h ↦ rw h (a k)
]

pruned-Agree :
    (now : ℕ) (t : NetworkRateTracker) (g : Previous)
    → Agree now t.previous g
    → Agree now (pruned now t).previous g
pruned-Agree now t g a id = elim (Bool-cases (ltb max_gap_ms (now - t.last_prune))) [
  | inl h ↦ rw h (kept_baseline-Agrees now (t.previous id) (g id) (a id))
  | inr h ↦ rw h (a id)
]

sample_all-Agree :
    (samples : List Sample) (now : ℕ) (t : NetworkRateTracker) (g : Previous)
    → IsOrdered now samples
    → Agree now t.previous g
    → sample_all samples t ≡ measure_all samples g
unfolding sample_all sample measure_all
sample_all-Agree [] now t g h a = refl
sample_all-Agree (s ∷ ss) now t g (first, rest) a =
    let c = s.counters in
    let t' = pruned c.at t in
    let agree = pruned-Agree c.at t g (later now c.at t.previous g first a) in
    let newer = (compare_with c (t'.previous s.id)).1 in
    ap (λ l. (compare_with c (t'.previous s.id)).0 ∷ l)
      (sample_all-Agree ss c.at (record t' { previous = store newer s.id c t'.previous })
        (store newer s.id c g) rest (store-Agree newer c.at s.id c t'.previous g agree))
    ∙ ap (λ r. r.0 ∷ measure_all ss (store r.1 s.id c g))
        (compare_with-Agrees c (t'.previous s.id) (g s.id) (agree s.id))

-- Where the times do not go back, a tracker that drops its old baselines answers every sample of a
-- series as one does that keeps them all.
pub sample_all-unpruned :
    (samples : List Sample)
    → IsOrdered 0 samples
    → sample_all samples new_tracker ≡ measure_all samples (λ id. none)
sample_all-unpruned samples h =
    sample_all-Agree samples 0 new_tracker (λ id. none) h (λ id. inl refl)
