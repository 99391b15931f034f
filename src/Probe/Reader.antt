-- ===== src/Probe/Reader.antt =====
-- `SocketReader` of apps/server/src/nodes/socks5-udp-probe.ts: a stream of chunks, read in sizes that
-- the caller asks for. Timers and socket events are the steps of a state machine.
pub mod Order
use nextpanel.Prelude.{
  ℕ, Bool, true, false, List, [], ◌∷◌, ◌++◌, Option, none, some, leb, if◌then◌else◌, length, take,
  drop,
}

-- `pending` is the size of the read that waits; `listening` tells whether the socket's events still
-- reach the reader.
pub record Reader : Type 0 where
  pub buffer : List ℕ
  pub pending : Option ℕ
  pub listening : Bool

pub data Event : Type 0 where
  data_came : List ℕ → Event
  failed : Event
  asked : (size : ℕ) → Event
  timed_out : Event
  disposed : Event

pub data Outcome : Type 0 where
  silent : Outcome
  delivered : List ℕ → Outcome
  rejected : Outcome
  -- `Concurrent SOCKS5 reads are not supported`
  refused : Outcome

abbrev pub fresh : Reader
fresh = record { buffer = []; pending = none; listening = true }

-- `take`, once no read waits any more
abbrev pub take_from : Reader → ℕ → Reader × Outcome
take_from reader size = (
  record reader { buffer = drop size reader.buffer; pending = none },
  delivered (take size reader.buffer),
)

-- `flush`
abbrev pub flush : Reader → Option ℕ → Reader × Outcome
flush reader none = (reader, silent)
flush reader (some size) =
    if leb size (length reader.buffer) then take_from reader size else (reader, silent)

-- `onData`, for a reader that still listens
abbrev pub on_data : Reader → List ℕ → Bool → Reader × Outcome
on_data reader chunk true = flush (record reader { buffer = reader.buffer ++ chunk }) reader.pending
on_data reader chunk false = (reader, silent)

abbrev pub read : Reader → ℕ → Option ℕ → Reader × Outcome
read reader size (some waiting) = (reader, refused)
read reader size none =
    if leb size (length reader.buffer)
    then take_from reader size
    else (record reader { pending = some size }, silent)

-- the rejection of the read that waits, by `fail` or by its timer
abbrev pub fail : Reader → Option ℕ → Reader × Outcome
fail reader none = (reader, silent)
fail reader (some size) = (record reader { pending = none }, rejected)

abbrev pub on_failure : Reader → Bool → Reader × Outcome
on_failure reader true = fail reader reader.pending
on_failure reader false = (reader, silent)

unfoldable pub step : Reader → Event → Reader × Outcome
step reader (data_came chunk) = on_data reader chunk reader.listening
step reader failed = on_failure reader reader.listening
step reader (asked size) = read reader size reader.pending
step reader timed_out = fail reader reader.pending
step reader disposed = (record reader { pending = none; listening = false }, silent)

abbrev outcome_bytes : Outcome → List ℕ
outcome_bytes (delivered bytes) = bytes
outcome_bytes _ = []

-- The bytes that a run delivers, in the order of the reads, and the reader that it leaves.
unfoldable pub run : Reader → List Event → List ℕ × Reader
unfolding step
run reader [] = ([], reader)
run reader (event ∷ events) =
    let (next, outcome) = step reader event in
    let (bytes, last) = run next events in (outcome_bytes outcome ++ bytes, last)
