-- ===== src/Nodes/Ports/Free.antt =====
-- apps/server/src/nodes/nodes.service.ts: a port that is chosen is free, and none is refused while
-- one is free.
use nextpanel.Prelude.{
  ℕ, zero, suc, ◌+◌, ◌≤◌, ◌<◌, ◌≡◌, ◌≢◌, refl, subst, All, Bool, true, false, not, ◌&&◌,
  if◌then◌else◌, ◌⊎◌, inl, inr, Option, none, some, List, [], ◌∷◌, arith, Bool-cases,
}
use nextpanel.Prelude.Exec.{ok, err}
use nextpanel.Prelude.Results.{ok-injective}
use nextpanel.Nodes.Model.{Implementation, NodeError, range_exhausted, port_occupied}
use nextpanel.Nodes.Ports.{
  derived_stats_port, stats_port_of, is_free, first_free, choose_port, choose_exit_port,
  origin_port, has_port, has_option, candidate_ports, found_or, conflicting_port,
}

pub first_free_found :
    (test : ℕ → Bool) (count port p : ℕ)
    → first_free test count port ≡ some p
    → (test p ≡ true) × (port ≤ p) × (p < port + count)
unfolding first_free
first_free_found test zero port p h = cc
first_free_found test (suc count) port p h =
    ground (arith, first_free_found test count (suc port) p)

pub first_free-none :
    (test : ℕ → Bool) (count port i : ℕ)
    → first_free test count port ≡ none
    → i < count
    → test (port + i) ≡ false
unfolding first_free
first_free-none test zero port i h l = ground arith
first_free-none test (suc count) port zero h l =
    let e : port ≡ port + zero = omega arith in
    subst (λ p. test p ≡ false) e
      (elim (Bool-cases (test port)) [ inl yes_free ↦ ground arith | inr not_free ↦ not_free ])
first_free-none test (suc count) port (suc i) h l =
    let e : suc port + i ≡ port + suc i = omega arith in
    let rest : first_free test count (suc port) ≡ none = ground arith in
    subst (λ p. test p ≡ false) e (first_free-none test count (suc port) i rest (omega (arith, l)))

-- A port has a statistics port that is another valid one.
pub stats_port_of-bounds :
    (port : ℕ)
    → 1 ≤ port
    → port ≤ 65535
    → (1 ≤ stats_port_of port) × (stats_port_of port ≤ 65535) × (stats_port_of port ≢ port)
stats_port_of-bounds port l u = (ground arith, ground arith, λ e. ground arith)

-- Where a chosen port can lie.
abbrev pub InPool : Option ℕ → Option ℕ → Bool → ℕ → Type 0
InPool (some fixed) base true port =
    (port ≡ fixed) ⊎ ((port ≡ 8443) ⊎ ((18000 ≤ port) × (port < 19000)))
InPool (some fixed) base false port = port ≡ fixed
InPool none (some base) allow port = (base ≤ port) × (port < base + 1000)
InPool none none allow port = ⊥

-- No port of one list is in the other.
abbrev pub Misses : List ℕ → List ℕ → Type 0
Misses used ports = All (λ p. has_port used p ≡ false) ports

is_free-Misses :
    (used : List ℕ) (impl : Option Implementation) (port : ℕ)
    → is_free used impl port ≡ true
    → Misses used (candidate_ports port impl)
unfolding is_free derived_stats_port
is_free-Misses used impl port h = ground arith

found_or-found : (e : NodeError) (o : Option ℕ) (p : ℕ) → found_or e o ≡ ok p → o ≡ some p
found_or-found e o p h = ground arith

found_or-none : (o : Option ℕ) (e : NodeError) → found_or e o ≡ err e → o ≡ none
found_or-none none e h = refl
found_or-none (some p) e h = cc

origin_port-found :
    (used : List ℕ) (impl : Option Implementation) (port : ℕ)
    → origin_port used impl ≡ ok port
    → (is_free used impl port ≡ true) × ((port ≡ 8443) ⊎ ((18000 ≤ port) × (port < 19000)))
unfolding origin_port
origin_port-found used impl port h = elim (Bool-cases (is_free used impl 8443)) [
  | inl free ↦
      let e : 8443 ≡ port = ok-injective (rw free at h) in
      (subst (λ p. is_free used impl p ≡ true) e free, inl (omega (arith, e)))
  | inr taken ↦
      let e = found_or-found _ _ _ (rw taken at h) in
      let (free, low, high) = first_free_found (is_free used impl) 1000 18000 port e in
      (free, inr (low, high))
]

fixed-InPool :
    (base : Option ℕ) (allow : Bool) (fixed port : ℕ)
    → fixed ≡ port
    → InPool (some fixed) base allow port
fixed-InPool base true fixed port e = inl (omega (arith, e))
fixed-InPool base false fixed port e = omega (arith, e)

-- what is left where the fixed port is taken
mapped_choice :
    (used : List ℕ) (fixed : ℕ) (base : Option ℕ) (impl : Option Implementation) (allow : Bool)
    (port : ℕ)
    → (if allow
        then origin_port used impl
        else err (port_occupied (conflicting_port used impl fixed)))
      ≡ ok port
    → Misses used (candidate_ports port impl) × InPool (some fixed) base allow port
mapped_choice used fixed base impl true port h =
    let (free, place) = origin_port-found used impl port h in
    (is_free-Misses used impl port free, inr place)
mapped_choice used fixed base impl false port h = cc

-- A port that is chosen is of its pool, and neither it nor its statistics port is taken.
pub choose_port-IsFree :
    (used : List ℕ) (fixed base : Option ℕ) (impl : Option Implementation) (allow : Bool) (port : ℕ)
    → choose_port used fixed base impl allow ≡ ok port
    → Misses used (candidate_ports port impl) × InPool fixed base allow port
unfolding choose_port
choose_port-IsFree used (some fixed) base impl allow port h =
    elim (Bool-cases (is_free used impl fixed)) [
      | inl free ↦
          let e : fixed ≡ port = ok-injective (rw free at h) in
          (
            subst (λ p. Misses used (candidate_ports p impl)) e
                (is_free-Misses used impl fixed free),
            fixed-InPool base allow fixed port e,
          )
      | inr taken ↦ mapped_choice used fixed base impl allow port (rw taken at h)
    ]
choose_port-IsFree used none (some base) impl allow port h =
    let (free, low, high) =
      first_free_found (is_free used impl) 1000 base port (found_or-found _ _ _ h) in
    (is_free-Misses used impl port free, (low, high))
choose_port-IsFree used none none impl allow port h = cc

not_both : (a b : Bool) → not a && not b ≡ false → (a ≡ true) ⊎ (b ≡ true)
not_both true b h = inl refl
not_both false true h = inr refl
not_both false false h = cc

is_free-false :
    (used : List ℕ) (impl : Option Implementation) (port : ℕ)
    → is_free used impl port ≡ false
    → (has_port used port ≡ true) ⊎ (has_option used (derived_stats_port port impl) ≡ true)
unfolding is_free
is_free-false used impl port h = not_both _ _ h

-- A range is called exhausted only when each of its thousand ports is taken, or its statistics port
-- is.
pub choose_port_exhausted :
    (used : List ℕ) (base : ℕ) (impl : Option Implementation) (allow : Bool) (i : ℕ)
    → choose_port used none (some base) impl allow ≡ err range_exhausted
    → i < 1000
    → ((has_port used (base + i) ≡ true)
        ⊎ (has_option used (derived_stats_port (base + i) impl) ≡ true))
unfolding choose_port
choose_port_exhausted used base impl allow i h l =
    let taken = first_free-none (is_free used impl) 1000 base i (found_or-none _ _ h) l in
    is_free-false used impl (base + i) taken

of_not : (b : Bool) → not b ≡ true → b ≡ false
of_not true h = cc
of_not false h = refl

-- A port for the exit of a chain is one of the pool from 15000 that is not taken.
pub choose_exit_port-IsFree :
    (used : List ℕ) (port : ℕ) → choose_exit_port used ≡ ok port → Misses used (port ∷ [])
unfolding choose_exit_port
choose_exit_port-IsFree used port h =
    let found =
      first_free_found (λ p. not (has_port used p)) 1000 15000 port (found_or-found _ _ _ h) in
    (of_not _ found.0, tt)
