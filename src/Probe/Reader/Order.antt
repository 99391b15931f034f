-- ===== src/Probe/Reader/Order.antt =====
-- What a reader delivers, however the stream is cut into chunks.
use mathlib.Core.List.{append_assoc, append-nil}
use nextpanel.Prelude.{
  ℕ, zero, suc, ◌≡◌, refl, sym, ap, subst, ◌∙◌, Bool, true, false, List, [], ◌∷◌, ◌++◌, Option,
  none, some, leb, length, take, drop, Bool-cases, inl, inr,
}
use nextpanel.Probe.Reader.{
  fresh, Reader, Event, data_came, failed, asked, timed_out, disposed, Outcome, flush, on_data,
  read, fail, on_failure, step, run, outcome_bytes,
}

-- The bytes that come while the reader listens.
abbrev pub received : Bool → List Event → List ℕ
received listening [] = []
received true (data_came chunk ∷ events) = chunk ++ received true events
received false (data_came chunk ∷ events) = received false events
received listening (disposed ∷ events) = received false events
received listening (failed ∷ events) = received listening events
received listening (asked size ∷ events) = received listening events
received listening (timed_out ∷ events) = received listening events

take-drop : (n : ℕ) (xs : List ℕ) → take n xs ++ drop n xs ≡ xs
take-drop zero xs = refl
take-drop (suc n) [] = refl
take-drop (suc n) (x ∷ xs) = ap (λ r. x ∷ r) (take-drop n xs)

-- A step of the reader moves bytes from the buffer to the caller, and no others.
Moves : List ℕ → Reader → Bool → Reader × Outcome → Type 0
Moves held reader listening (next, outcome) =
    (outcome_bytes outcome ++ next.buffer ≡ held) × (next.listening ≡ listening)

flush-Moves :
    (reader : Reader) (pending : Option ℕ)
    → Moves reader.buffer reader reader.listening (flush reader pending)
unfolding Moves
flush-Moves reader none = (refl, refl)
flush-Moves reader (some size) = elim (Bool-cases (leb size (length reader.buffer))) [
  | inl enough ↦ rw enough (take-drop size reader.buffer, refl)
  | inr short ↦ rw short (refl, refl)
]

read-Moves :
    (reader : Reader) (size : ℕ) (pending : Option ℕ)
    → Moves reader.buffer reader reader.listening (read reader size pending)
unfolding Moves
read-Moves reader size (some waiting) = (refl, refl)
read-Moves reader size none = elim (Bool-cases (leb size (length reader.buffer))) [
  | inl enough ↦ rw enough (take-drop size reader.buffer, refl)
  | inr short ↦ rw short (refl, refl)
]

fail-Moves :
    (reader : Reader) (pending : Option ℕ)
    → Moves reader.buffer reader reader.listening (fail reader pending)
unfolding Moves
fail-Moves reader none = (refl, refl)
fail-Moves reader (some size) = (refl, refl)

moved :
    (out bytes last next held rest : List ℕ)
    → out ++ next ≡ held
    → bytes ++ last ≡ next ++ rest
    → (out ++ bytes) ++ last ≡ held ++ rest
moved out bytes last next held rest now later =
    append_assoc out bytes last
    ∙ ap (λ x. out ++ x) later
    ∙ sym (append_assoc out next rest)
    ∙ ap (λ x. x ++ rest) now

on_data-Moves :
    (reader : Reader) (chunk : List ℕ)
    → Moves (reader.buffer ++ chunk) reader reader.listening (on_data reader chunk true)
unfolding Moves
on_data-Moves reader chunk =
    flush-Moves (record reader { buffer = reader.buffer ++ chunk }) reader.pending

-- What a run delivers from a step on, with what came before it and what is to come.
Continues : List ℕ → List ℕ → List Event → Reader × Outcome → Type 0
Continues held rest events (next, outcome) =
    (outcome_bytes outcome ++ (run next events).0) ++ (run next events).1.buffer ≡ held ++ rest

run-received :
    (events : List Event) (listening : Bool) (reader : Reader)
    → reader.listening ≡ listening
    → (run reader events).0 ++ (run reader events).1.buffer
      ≡ reader.buffer ++ received listening events
unfolding run step Moves Continues
run-received [] listening reader e = sym (append-nil reader.buffer)
run-received (data_came chunk ∷ events) true reader e =
    let next = on_data reader chunk true in
    let (now, kept) = on_data-Moves reader chunk in
    let later = run-received events true next.0 (kept ∙ e) in
    subst
      (λ b. Continues reader.buffer (chunk ++ received true events) events (on_data reader chunk b))
      (sym e)
      (moved (outcome_bytes next.1) (run next.0 events).0 (run next.0 events).1.buffer next.0.buffer
          (reader.buffer ++ chunk) (received true events) now later
        ∙ append_assoc reader.buffer chunk (received true events))
run-received (data_came chunk ∷ events) false reader e =
    subst (λ b. Continues reader.buffer (received false events) events (on_data reader chunk b))
      (sym e) (run-received events false reader e)
run-received (failed ∷ events) true reader e =
    let next = fail reader reader.pending in
    let (now, kept) = fail-Moves reader reader.pending in
    subst (λ b. Continues reader.buffer (received true events) events (on_failure reader b)) (sym e)
      (moved (outcome_bytes next.1) (run next.0 events).0 (run next.0 events).1.buffer next.0.buffer
        reader.buffer (received true events) now (run-received events true next.0 (kept ∙ e)))
run-received (failed ∷ events) false reader e =
    subst (λ b. Continues reader.buffer (received false events) events (on_failure reader b))
      (sym e) (run-received events false reader e)
run-received (disposed ∷ events) listening reader e =
    run-received events false (record reader { pending = none; listening = false }) refl
run-received (asked size ∷ events) listening reader e =
    let next = read reader size reader.pending in
    let (now, kept) = read-Moves reader size reader.pending in
    moved (outcome_bytes next.1) (run next.0 events).0 (run next.0 events).1.buffer next.0.buffer
      reader.buffer (received listening events) now
      (run-received events listening next.0 (kept ∙ e))
run-received (timed_out ∷ events) listening reader e =
    let next = fail reader reader.pending in
    let (now, kept) = fail-Moves reader reader.pending in
    moved (outcome_bytes next.1) (run next.0 events).0 (run next.0 events).1.buffer next.0.buffer
      reader.buffer (received listening events) now
      (run-received events listening next.0 (kept ∙ e))

-- However the stream is cut into chunks, and however reads, timeouts and failures fall between them,
-- the bytes that the reads of a new reader deliver, with those that it still holds, are the bytes that
-- came while it listened, in their order: none is lost, repeated or swapped.
pub run-received_in_order :
    (events : List Event)
    → (run fresh events).0 ++ (run fresh events).1.buffer ≡ received true events
run-received_in_order events = run-received events true fresh refl
