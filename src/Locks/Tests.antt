-- ===== src/Locks/Tests.antt =====
-- The theorems on locks at small inputs.
use nextpanel.Prelude.{
  ℕ, ◌≡◌, ◌⊎◌, refl, true, List, [], ◌∷◌, none, some, Text, text, text_eq, any, All,
}
use nextpanel.Prelude.Exec.{Result, ok, err}
use nextpanel.Locks.{
  Connection, released, failed, lock_lost, ordered_keys, with_postgres_advisory_locks,
}
use nextpanel.Locks.Order.{
  IsIncreasing, IsPrefix, locked_keys, with_postgres_advisory_locks-ordered,
}
use nextpanel.Locks.Held.{WasHeld, in_locks, with_postgres_advisory_locks-held}

abbrev sound : Connection Text
sound = record {
  connect = none;
  set_timeout = none;
  lock = λ key. none;
  unlock = λ key. released;
  close = none;
  lost = none;
}

abbrev keys : List Text
keys = text "b" ∷ text "a" ∷ text "b" ∷ []

abbrev work : Result Text ℕ
work = ok 7

ordered : ordered_keys keys ≡ text "a" ∷ text "b" ∷ []
unfolding ordered_keys
ordered = refl

-- A connection that was lost takes the result back.
lost :
    (with_postgres_advisory_locks true (record sound { lost = some (text "x") }) work keys).0
    ≡ err (lock_lost (failed (text "x")))
unfolding with_postgres_advisory_locks
lost = refl

with_postgres_advisory_locks-ordered_example :
    (ordered : List Text) × IsIncreasing ordered
    × ((k : Text) → any (text_eq k) ordered ≡ any (text_eq k) keys)
    × IsPrefix (locked_keys (with_postgres_advisory_locks true sound work keys).1) ordered
    × ((a : ℕ)
        → (with_postgres_advisory_locks true sound work keys).0 ≡ ok a
        → locked_keys (with_postgres_advisory_locks true sound work keys).1 ≡ ordered)
with_postgres_advisory_locks-ordered_example =
    with_postgres_advisory_locks-ordered true sound work keys

with_postgres_advisory_locks-held_example :
    (work ≡ ok 7)
    × All (WasHeld sound) (ordered_keys keys)
    × ((ordered_keys keys ≡ []) ⊎ (sound.lost ≡ none))
    × ((with_postgres_advisory_locks true sound work keys).1 ≡ in_locks (ordered_keys keys))
unfolding with_postgres_advisory_locks
with_postgres_advisory_locks-held_example =
    with_postgres_advisory_locks-held true sound work keys 7 refl
