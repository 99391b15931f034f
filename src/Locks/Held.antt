-- ===== src/Locks/Held.antt =====
-- What a caller that gets a result back knows of its locks.
use mathlib.Core.List.{reverse, reverse-cons, append_assoc, append-nil}
use nextpanel.Prelude.{
  ◌++◌, ◌∙◌, map, ◌≡◌, refl, sym, ap, subst, Bool, true, false, List, [], ◌∷◌, Option, none, some,
  Text, All, Option-cases, inl, inr, ◌⊎◌,
}
use nextpanel.Prelude.Exec.{Result, ok, err}
use nextpanel.Prelude.Results.{ok-injective}
use nextpanel.Locks.{
  LockCall, connect_call, set_timeout_call, lock_call, run_work, unlock_call, close_call,
  Connection, LockError, Unlock, released, not_held, unlock_failed, acquire, release, unlock_error,
  or_next, close_error, of_work, after_locks, attempt, settle, with_ordered,
  with_postgres_advisory_locks, ordered_keys,
}

module _ {E : Type 0} (connection : Connection E) where
  -- A key that was locked, and that PostgreSQL still held when it was unlocked.
  abbrev pub WasHeld : Text → Type 0
  WasHeld key = (connection.lock key ≡ none) × (connection.unlock key ≡ released)

  acquire-All :
      (keys acquired last : List Text)
      → (acquire connection keys acquired).1 ≡ (last, none)
      → All (λ key. connection.unlock key ≡ released) last
      → All WasHeld keys × All (λ key. connection.unlock key ≡ released) acquired
  unfolding acquire
  acquire-All [] acquired last h fit =
      (tt, subst (All (λ key. connection.unlock key ≡ released)) (sym (ap (λ x. x.0) h)) fit)
  acquire-All (key ∷ keys) acquired last h fit = elim (Option-cases (connection.lock key)) [
    | inl locked ↦
        let next : (acquire connection keys (key ∷ acquired)).1 ≡ (last, none) =
          rw (acquire, locked) at h in
        let (rest, (unlocked, before)) = acquire-All keys (key ∷ acquired) last next fit in
        (((locked, unlocked), rest), before)
    | inr (e, refused) ↦
        let stopped : ◌≡◌ {A = List Text × Option E} (acquired, some e) (last, none) =
          rw (acquire, refused) at h in
        let impossible : some e ≡ none = ap (λ x. x.1) stopped in cc
  ]

  -- Where every key is locked, they are locked one after another, and the last one is kept first.
  acquire-calls :
      (keys acquired last : List Text)
      → (acquire connection keys acquired).1 ≡ (last, none)
      → ((acquire connection keys acquired).0 ≡ map lock_call keys)
        × (last ≡ reverse keys ++ acquired)
  unfolding acquire
  acquire-calls [] acquired last h = (refl, sym (ap (λ x. x.0) h))
  acquire-calls (key ∷ keys) acquired last h = elim (Option-cases (connection.lock key)) [
    | inl locked ↦
        let next : (acquire connection keys (key ∷ acquired)).1 ≡ (last, none) =
          rw (acquire, locked) at h in
        let (calls, kept) = acquire-calls keys (key ∷ acquired) last next in
        (
          rw (acquire, locked) (ap (λ x. lock_call key ∷ x) calls),
          kept
              ∙ sym (append_assoc (reverse keys) (key ∷ []) acquired)
              ∙ ap (λ x. x ++ acquired) (sym (reverse-cons key keys)),
        )
    | inr (e, refused) ↦
        let stopped : ◌≡◌ {A = List Text × Option E} (acquired, some e) (last, none) =
          rw (acquire, refused) at h in
        let impossible : some e ≡ none = ap (λ x. x.1) stopped in cc
  ]

  release-calls :
      (keys : List Text) (cleanup : Option (LockError E))
      → (release connection keys cleanup).0 ≡ map unlock_call keys
  unfolding release
  release-calls [] cleanup = refl
  release-calls (key ∷ keys) cleanup = ap (λ x. unlock_call key ∷ x) (release-calls keys _)

  unlock-none :
      (key : Text) (cleanup : Option (LockError E))
      → or_next cleanup (unlock_error key (connection.unlock key)) ≡ none
      → (cleanup ≡ none) × (connection.unlock key ≡ released)
  unlock-none key (some e) h = cc
  unlock-none key none h = (refl, released_of (connection.unlock key) h)
    where
      released_of : (answer : Unlock E) → unlock_error key answer ≡ none → answer ≡ released
      released_of released e = refl
      released_of not_held e = cc
      released_of (unlock_failed _) e = cc

  release-none :
      (keys : List Text) (cleanup : Option (LockError E))
      → (release connection keys cleanup).1 ≡ none
      → (cleanup ≡ none) × All (λ key. connection.unlock key ≡ released) keys
  unfolding release
  release-none [] cleanup h = (h, tt)
  release-none (key ∷ keys) cleanup h =
      let (kept, rest) =
        release-none keys (or_next cleanup (unlock_error key (connection.unlock key))) h in
      let (none_before, unlocked) = unlock-none key cleanup kept in (none_before, (unlocked, rest))

  or_next-none : (a b : Option (LockError E)) → or_next a b ≡ none → a ≡ none
  or_next-none none b h = refl
  or_next-none (some e) b h = cc

module _ {E A : Type 0} where
  settle-ok :
      (result : Result (LockError E) A) (cleanup : Option (LockError E)) (lost : Option E) (a : A)
      → settle result cleanup lost ≡ ok a
      → (result ≡ ok a) × (cleanup ≡ none) × (lost ≡ none)
  settle-ok result cleanup (some l) a h = cc
  settle-ok (err e) cleanup none a h = cc
  settle-ok (ok b) (some e) none a h = cc
  settle-ok (ok b) none none a h = (h, refl, refl)

  of_work-ok : (work : Result E A) (a : A) → of_work work ≡ ok a → work ≡ ok a
  of_work-ok (ok b) a h = ap ok (ok-injective h)
  of_work-ok (err e) a h = cc

  after_locks-ok :
      (work : Result E A) (r : List LockCall × (List Text × Option E)) (a : A)
      → (after_locks work r).result ≡ ok a
      → (work ≡ ok a)
        × (r.1 ≡ ((after_locks work r).held, none))
        × ((after_locks work r).calls ≡ r.0 ++ run_work ∷ [])
  after_locks-ok work (calls, (held, none)) a h = (of_work-ok work a h, refl, refl)
  after_locks-ok work (calls, (held, some e)) a h = cc

  attempt-ok :
      (connection : Connection E) (work : Result E A) (keys : List Text)
      (no_connect no_timeout : Option E) (a : A)
      → let tried = attempt connection work keys no_connect no_timeout in
        tried.result ≡ ok a
        → (work ≡ ok a)
          × ((acquire connection keys []).1 ≡ (tried.held, none))
          × (tried.calls
              ≡ connect_call ∷ set_timeout_call ∷ ((acquire connection keys []).0 ++ run_work ∷ []))
  attempt-ok connection work keys (some e) no_timeout a h = cc
  attempt-ok connection work keys none (some e) a h = cc
  attempt-ok connection work keys none none a h =
      let (worked, acquired, calls) = after_locks-ok work (acquire connection keys []) a h in
      (worked, acquired, ap (λ x. connect_call ∷ set_timeout_call ∷ x) calls)

-- The calls of a run that goes well: the locks in the order of the keys, the work while all of them
-- are held, and the unlocks backwards. Without keys there is only the work.
abbrev pub in_locks : List Text → List LockCall
in_locks [] = run_work ∷ []
in_locks (key ∷ keys) =
    connect_call
    ∷ set_timeout_call
    ∷ (map lock_call (key ∷ keys)
        ++ run_work ∷ (map unlock_call (reverse (key ∷ keys)) ++ close_call ∷ []))

module _ {E A : Type 0} where
  with_ordered-held :
      (has_url : Bool) (connection : Connection E) (work : Result E A) (keys : List Text) (a : A)
      → (with_ordered has_url connection work keys).0 ≡ ok a
      → (work ≡ ok a)
        × All (WasHeld connection) keys
        × ((keys ≡ []) ⊎ (connection.lost ≡ none))
        × ((with_ordered has_url connection work keys).1 ≡ in_locks keys)
  with_ordered-held has_url connection work [] a h = (of_work-ok work a h, tt, inl refl, refl)
  with_ordered-held false connection work (key ∷ keys) a h = cc
  with_ordered-held true connection work (key ∷ keys) a h =
      let tried = attempt connection work (key ∷ keys) connection.connect connection.set_timeout in
      let (done, clean, kept) =
        settle-ok tried.result
          (or_next (release connection tried.held none).1 (close_error connection.close))
          connection.lost a h in
      let (worked, acquired, calls) =
        attempt-ok connection work (key ∷ keys) connection.connect connection.set_timeout a done in
      let (_, unlocked) = release-none connection tried.held none (
        or_next-none connection (release connection tried.held none).1
          (close_error connection.close) clean) in
      let (held, _) = acquire-All connection (key ∷ keys) [] tried.held acquired unlocked in
      let (locks, all_held) = acquire-calls connection (key ∷ keys) [] tried.held acquired in
      let called : tried.calls
          ≡ connect_call ∷ set_timeout_call ∷ (map lock_call (key ∷ keys) ++ run_work ∷ []) =
        calls ∙ ap (λ x. connect_call ∷ set_timeout_call ∷ (x ++ run_work ∷ [])) locks in
      let given_back : (release connection tried.held none).0
          ≡ map unlock_call (reverse (key ∷ keys)) =
        release-calls connection tried.held none
        ∙ ap (map unlock_call) (all_held ∙ append-nil (reverse (key ∷ keys))) in
      (
        worked,
        held,
        inr kept,
        rw (called, given_back)
            (ap (λ x. connect_call ∷ set_timeout_call ∷ x)
              (append_assoc (map lock_call (key ∷ keys)) (run_work ∷ [])
                (map unlock_call (reverse (key ∷ keys)) ++ close_call ∷ []))),
      )

  -- A result comes back only if it is the one that the work returned, every key was locked and still
  -- held when it was unlocked, and the connection, if there were keys, was not lost. The keys were
  -- locked in their order, the work was called after the last lock, and the unlocks came after it.
  pub with_postgres_advisory_locks-held :
      (has_url : Bool) (connection : Connection E) (work : Result E A) (keys : List Text) (a : A)
      → (with_postgres_advisory_locks has_url connection work keys).0 ≡ ok a
      → (work ≡ ok a)
        × All (WasHeld connection) (ordered_keys keys)
        × ((ordered_keys keys ≡ []) ⊎ (connection.lost ≡ none))
        × ((with_postgres_advisory_locks has_url connection work keys).1
            ≡ in_locks (ordered_keys keys))
  unfolding with_postgres_advisory_locks
  with_postgres_advisory_locks-held has_url connection work keys a h =
      with_ordered-held has_url connection work (ordered_keys keys) a h
