-- ===== src/Locks.antt =====
-- `withPostgresAdvisoryLocks` of apps/server/src/common/database/advisory-lock.ts.
pub mod Order
pub mod Held
mod Tests
use nextpanel.Prelude.{
  Bool, true, false, ◌&&◌, ◌||◌, not, List, [], ◌∷◌, ◌++◌, Option, none, some, ltb, ◌==◌, ℕ,
  if◌then◌else◌, Text, text_eq, any,
}
use mathlib.Core.List.{reverse}
use nextpanel.Prelude.Exec.{Result, ok, err}

-- the order of strings by their code units
unfoldable pub text_lt : Text → Text → Bool
text_lt [] [] = false
text_lt [] (d ∷ t) = true
text_lt (c ∷ s) [] = false
text_lt (c ∷ s) (d ∷ t) = ltb c d || (c == d && text_lt s t)

-- a key in its place, once: `[...new Set(keys)].sort()`
unfoldable pub insert_key : Text → List Text → List Text
unfolding text_lt text_eq
insert_key key [] = key ∷ []
insert_key key (other ∷ keys) =
    let rest = insert_key key keys in
    if text_eq key other
    then other ∷ keys
    else if text_lt key other
    then key ∷ other ∷ keys
    else other ∷ rest

unfoldable pub ordered_keys : List Text → List Text
unfolding insert_key
ordered_keys [] = []
ordered_keys (key ∷ keys) = insert_key key (ordered_keys keys)

-- what PostgreSQL answers to `pg_advisory_unlock`
pub data Unlock (E : Type 0) : Type 0 where
  released : Unlock E
  not_held : Unlock E
  unlock_failed : E → Unlock E

-- The dedicated connection: the errors of its queries, and the first error event on it.
pub record Connection (E : Type 0) : Type 0 where
  pub connect : Option E
  pub set_timeout : Option E
  pub lock : Text → Option E
  pub unlock : Text → Unlock E
  pub close : Option E
  pub lost : Option E

pub data LockError (E : Type 0) : Type 0 where
  no_url : LockError E
  failed : E → LockError E
  lock_not_held : Text → LockError E
  -- AdvisoryLockLostError, with the error that it keeps as its cause
  lock_lost : LockError E → LockError E

-- What is called, in the order of the calls: the queries on the connection, and the work.
pub data LockCall : Type 0 where
  connect_call set_timeout_call : LockCall
  lock_call : Text → LockCall
  run_work : LockCall
  unlock_call : Text → LockCall
  close_call : LockCall

module _ {E : Type 0} where
  -- the loop over the keys: its calls, the keys that were acquired, the last one first, and the error
  -- that ended it
  unfoldable pub acquire :
      Connection E → List Text → List Text → List LockCall × (List Text × Option E)
  acquire connection [] acquired = ([], (acquired, none))
  acquire connection (key ∷ keys) acquired =
      let (calls, rest) = acquire connection keys (key ∷ acquired) in
      elim (connection.lock key) [
        | none ↦ (lock_call key ∷ calls, rest)
        | some e ↦ (lock_call key ∷ [], (acquired, some e))
      ]

  abbrev pub unlock_error : Text → Unlock E → Option (LockError E)
  unlock_error key released = none
  unlock_error key not_held = some (lock_not_held key)
  unlock_error key (unlock_failed e) = some (failed e)

  -- `error ??= next`
  abbrev pub or_next : Option (LockError E) → Option (LockError E) → Option (LockError E)
  or_next none next = next
  or_next (some e) next = some e

  -- the loop that unlocks, which goes on after an error: its calls, and the first error
  unfoldable pub release :
      Connection E → List Text → Option (LockError E) → List LockCall × Option (LockError E)
  release connection [] cleanup = ([], cleanup)
  release connection (key ∷ keys) cleanup =
      let (calls, last) =
        release connection keys (or_next cleanup (unlock_error key (connection.unlock key))) in
      (unlock_call key ∷ calls, last)

  abbrev pub close_error : Option E → Option (LockError E)
  close_error none = none
  close_error (some e) = some (failed e)

-- The `try` block: its result, the keys that are held, the last one first, and its calls.
pub record Tried (E A : Type 0) : Type 0 where
  pub result : Result (LockError E) A
  pub held : List Text
  pub calls : List LockCall

module _ {E A : Type 0} where
  abbrev pub of_work : Result E A → Result (LockError E) A
  of_work (ok a) = ok a
  of_work (err e) = err (failed e)

  abbrev pub after_locks : Result E A → List LockCall × (List Text × Option E) → Tried E A
  after_locks work (calls, (acquired, some e)) = record {
    result = err (failed e);
    held = acquired;
    calls = calls;
  }
  after_locks work (calls, (acquired, none)) = record {
    result = of_work work;
    held = acquired;
    calls = calls ++ run_work ∷ [];
  }

  abbrev pub attempt : Connection E → Result E A → List Text → Option E → Option E → Tried E A
  attempt connection work keys (some e) timeout = record {
    result = err (failed e);
    held = [];
    calls = connect_call ∷ [];
  }
  attempt connection work keys none (some e) = record {
    result = err (failed e);
    held = [];
    calls = connect_call ∷ set_timeout_call ∷ [];
  }
  attempt connection work keys none none =
      let tried = after_locks work (acquire connection keys []) in
      record tried { calls = connect_call ∷ set_timeout_call ∷ tried.calls }

  -- `primaryError ?? cleanupError ?? connectionError`
  abbrev pub cause_of : Result (LockError E) A → Option (LockError E) → E → LockError E
  cause_of (err e) cleanup lost = e
  cause_of (ok a) (some e) lost = e
  cause_of (ok a) none lost = failed lost

  -- the end of the `finally` block
  abbrev pub settle :
      Result (LockError E) A → Option (LockError E) → Option E → Result (LockError E) A
  settle result cleanup (some lost) = err (lock_lost (cause_of result cleanup lost))
  settle (err e) cleanup none = err e
  settle (ok a) (some e) none = err e
  settle (ok a) none none = ok a

  abbrev pub finish : Connection E → Tried E A → Result (LockError E) A × List LockCall
  finish connection tried =
      let (unlocks, cleanup) = release connection tried.held none in
      (
        settle tried.result (or_next cleanup (close_error connection.close)) connection.lost,
        tried.calls ++ (unlocks ++ close_call ∷ []),
      )

  abbrev pub with_ordered :
      Bool → Connection E → Result E A → List Text → Result (LockError E) A × List LockCall
  with_ordered has_url connection work [] = (of_work work, run_work ∷ [])
  with_ordered false connection work (key ∷ keys) = (err no_url, [])
  with_ordered true connection work (key ∷ keys) =
      finish connection
        (attempt connection work (key ∷ keys) connection.connect connection.set_timeout)

  -- The result, and the calls; `work` is what the work returns or throws when it is called, and
  -- `has_url` tells whether there is a connection string or a factory of clients.
  unfoldable pub with_postgres_advisory_locks :
      Bool → Connection E → Result E A → List Text → Result (LockError E) A × List LockCall
  unfolding ordered_keys acquire release
  with_postgres_advisory_locks has_url connection work keys =
      with_ordered has_url connection work (ordered_keys keys)
