-- ===== src/Locks/Order.antt =====
-- The order in which keys are locked, the same for every caller.
use mathlib.Core.List.{reverse, append-nil}
use nextpanel.Prelude.Exec.{Result, ok}
use nextpanel.Prelude.{
  ◌++◌, map, sym, subst, Option, none, some, Bool, Option-cases, ◌≡◌, refl, ap, ◌∙◌, arith, true,
  false, ◌||◌, List, [], ◌∷◌, Text, text_eq, text_eq_iff, any, Bool-cases, inl, inr,
}
use nextpanel.Locks.{
  text_lt, insert_key, ordered_keys, LockCall, Connection, LockError, connect_call,
  set_timeout_call, lock_call, run_work, unlock_call, close_call, acquire, release, after_locks,
  attempt, with_ordered, with_postgres_advisory_locks,
}
use nextpanel.Locks.Held.{in_locks, with_postgres_advisory_locks-held}

Below : Text → List Text → Type 0
Below x [] = Unit
Below x (y ∷ ys) = text_lt x y ≡ true

-- Every key before the next one.
pub IsIncreasing : List Text → Type 0
IsIncreasing [] = Unit
IsIncreasing (x ∷ xs) = Below x xs × IsIncreasing xs

text_lt_total : (s t : Text) → text_eq s t ≡ false → text_lt s t ≡ false → text_lt t s ≡ true
unfolding text_lt text_eq
text_lt_total [] [] e h = cc
text_lt_total [] (d ∷ t) e h = cc
text_lt_total (c ∷ s) [] e h = refl
text_lt_total (c ∷ s) (d ∷ t) e h = ground (arith, text_lt_total s t)

insert_key-Below :
    (x key : Text) (keys : List Text)
    → Below x keys
    → text_lt x key ≡ true
    → Below x (insert_key key keys)
unfolding Below insert_key
insert_key-Below x key [] h lt = lt
insert_key-Below x key (other ∷ keys) h lt = ground arith

insert_key-IsIncreasing :
    (key : Text) (keys : List Text) → IsIncreasing keys → IsIncreasing (insert_key key keys)
unfolding IsIncreasing Below insert_key
insert_key-IsIncreasing key [] h = (tt, tt)
insert_key-IsIncreasing key (other ∷ keys) (first, rest) = elim (Bool-cases (text_eq key other)) [
  | inl same ↦ rw same (first, rest)
  | inr differs ↦ elim (Bool-cases (text_lt key other)) [
    | inl lt ↦ rw (differs, lt) (lt, (first, rest))
    | inr ge ↦
        rw (differs, ge)
          (
            insert_key-Below other key keys first (text_lt_total key other differs ge),
            insert_key-IsIncreasing key keys rest,
          )
  ]
]

insert_key-any :
    (k key : Text) (keys : List Text)
    → any (text_eq k) (insert_key key keys) ≡ (text_eq k key || any (text_eq k) keys)
unfolding insert_key
insert_key-any k key [] = refl
insert_key-any k key (other ∷ keys) = elim (Bool-cases (text_eq key other)) [
  | inl same ↦
      let equal : text_eq k key ≡ text_eq k other =
        ap (text_eq k) ((text_eq_iff key other).0 same) in
      ground (arith, same, equal)
  | inr differs ↦ ground (arith, differs, insert_key-any k key keys)
]

-- The keys in the order of their code units, every one of them once.
ordered_keys-IsIncreasing :
    (keys : List Text)
    → IsIncreasing (ordered_keys keys)
      × ((k : Text) → any (text_eq k) (ordered_keys keys) ≡ any (text_eq k) keys)
unfolding ordered_keys IsIncreasing
ordered_keys-IsIncreasing [] = (tt, λ k. refl)
ordered_keys-IsIncreasing (key ∷ keys) =
    let (increasing, same) = ordered_keys-IsIncreasing keys in
    (
      insert_key-IsIncreasing key (ordered_keys keys) increasing,
      λ k. insert_key-any k key (ordered_keys keys) ∙ ap (λ b. text_eq k key || b) (same k),
    )

-- The keys that are locked by the calls, in the order of the calls.
abbrev add_locked : LockCall → List Text → List Text
add_locked (lock_call key) keys = key ∷ keys
add_locked _ keys = keys

abbrev pub locked_keys : List LockCall → List Text
locked_keys [] = []
locked_keys (call ∷ calls) = add_locked call (locked_keys calls)

-- The one list is the other up to some point.
abbrev pub IsPrefix : List Text → List Text → Type 0
IsPrefix xs ys = (rest : List Text) × (xs ++ rest ≡ ys)

locked_keys-append :
    (calls more : List LockCall)
    → locked_keys (calls ++ more) ≡ locked_keys calls ++ locked_keys more
locked_keys-append [] more = refl
locked_keys-append (lock_call key ∷ calls) more = ap (λ x. key ∷ x) (locked_keys-append calls more)
locked_keys-append (connect_call ∷ calls) more = locked_keys-append calls more
locked_keys-append (set_timeout_call ∷ calls) more = locked_keys-append calls more
locked_keys-append (run_work ∷ calls) more = locked_keys-append calls more
locked_keys-append (unlock_call key ∷ calls) more = locked_keys-append calls more
locked_keys-append (close_call ∷ calls) more = locked_keys-append calls more

locked_keys-none :
    (calls more : List LockCall)
    → locked_keys more ≡ []
    → locked_keys (calls ++ more) ≡ locked_keys calls
locked_keys-none calls more h =
    locked_keys-append calls more
    ∙ ap (λ x. locked_keys calls ++ x) h
    ∙ append-nil (locked_keys calls)

map-locked_keys : (keys : List Text) → locked_keys (map lock_call keys) ≡ keys
map-locked_keys [] = refl
map-locked_keys (key ∷ keys) = ap (λ x. key ∷ x) (map-locked_keys keys)

map-none : (keys : List Text) → locked_keys (map unlock_call keys ++ close_call ∷ []) ≡ []
map-none [] = refl
map-none (key ∷ keys) = map-none keys

in_locks-locked_keys : (keys : List Text) → locked_keys (in_locks keys) ≡ keys
in_locks-locked_keys [] = refl
in_locks-locked_keys (key ∷ keys) =
    locked_keys-none (map lock_call (key ∷ keys)) _ (map-none (reverse (key ∷ keys)))
    ∙ map-locked_keys (key ∷ keys)

module _ {E : Type 0} (connection : Connection E) where
  acquire-IsPrefix :
      (keys acquired : List Text) → IsPrefix (locked_keys (acquire connection keys acquired).0) keys
  unfolding acquire
  acquire-IsPrefix [] acquired = ([], refl)
  acquire-IsPrefix (key ∷ keys) acquired = elim (Option-cases (connection.lock key)) [
    | inl locked ↦
        let (rest, e) = acquire-IsPrefix keys (key ∷ acquired) in
        rw (acquire, locked) (rest, ap (λ x. key ∷ x) e)
    | inr (e, refused) ↦ rw (acquire, refused) (keys, refl)
  ]

  release-locked_keys :
      (keys : List Text) (cleanup : Option (LockError E))
      → locked_keys ((release connection keys cleanup).0 ++ close_call ∷ []) ≡ []
  unfolding release
  release-locked_keys [] cleanup = refl
  release-locked_keys (key ∷ keys) cleanup = release-locked_keys keys _

module _ {E A : Type 0} where
  after_locks-locked_keys :
      (work : Result E A) (r : List LockCall × (List Text × Option E))
      → locked_keys (after_locks work r).calls ≡ locked_keys r.0
  after_locks-locked_keys work (calls, (held, none)) = locked_keys-none calls (run_work ∷ []) refl
  after_locks-locked_keys work (calls, (held, some e)) = refl

  attempt-IsPrefix :
      (connection : Connection E) (work : Result E A) (keys : List Text)
      (no_connect no_timeout : Option E)
      → IsPrefix (locked_keys (attempt connection work keys no_connect no_timeout).calls) keys
  attempt-IsPrefix connection work keys (some e) no_timeout = (keys, refl)
  attempt-IsPrefix connection work keys none (some e) = (keys, refl)
  attempt-IsPrefix connection work keys none none =
      subst (λ x. IsPrefix x keys) (sym (after_locks-locked_keys work (acquire connection keys [])))
        (acquire-IsPrefix connection keys [])

  with_ordered-IsPrefix :
      (has_url : Bool) (connection : Connection E) (work : Result E A) (keys : List Text)
      → IsPrefix (locked_keys (with_ordered has_url connection work keys).1) keys
  with_ordered-IsPrefix has_url connection work [] = ([], refl)
  with_ordered-IsPrefix false connection work (key ∷ keys) = (key ∷ keys, refl)
  with_ordered-IsPrefix true connection work (key ∷ keys) =
      let tried = attempt connection work (key ∷ keys) connection.connect connection.set_timeout in
      subst (λ x. IsPrefix x (key ∷ keys))
        (sym (locked_keys-none tried.calls _ (release-locked_keys connection tried.held none)))
        (attempt-IsPrefix connection work (key ∷ keys) connection.connect connection.set_timeout)

  -- Whatever the outcome, the keys are locked in the order of their code units: those that are asked
  -- for are the beginning of an increasing list that has every key of the caller once, and no other,
  -- whatever order and however many copies the caller gave. Where the result of the work comes back,
  -- they are all of that list.
  pub with_postgres_advisory_locks-ordered :
      (has_url : Bool) (connection : Connection E) (work : Result E A) (keys : List Text)
      → (ordered : List Text) × IsIncreasing ordered
        × ((k : Text) → any (text_eq k) ordered ≡ any (text_eq k) keys)
        × IsPrefix
            (locked_keys (with_postgres_advisory_locks has_url connection work keys).1)
            ordered
        × ((a : A)
            → (with_postgres_advisory_locks has_url connection work keys).0 ≡ ok a
            → locked_keys (with_postgres_advisory_locks has_url connection work keys).1 ≡ ordered)
  unfolding with_postgres_advisory_locks
  with_postgres_advisory_locks-ordered has_url connection work keys =
      let (increasing, same) = ordered_keys-IsIncreasing keys in
      (
        ordered_keys keys,
        increasing,
        same,
        with_ordered-IsPrefix has_url connection work (ordered_keys keys),
        λ a h.
            ap locked_keys (with_postgres_advisory_locks-held has_url connection work keys a h).3
            ∙ in_locks-locked_keys (ordered_keys keys),
      )
