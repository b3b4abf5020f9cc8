-- ===== src/Ingest/Batch.antt =====
-- `IngestBatch` takes a batch apart: what is valid is enqueued, in order, and the rest is reported.
use open_weave.Prelude.{
  ℕ, ◌+◌, ◌≤◌, ◌<◌, String, ◌≡◌, refl, Bool, true, Option, none, some, List, [], ◌∷◌, ◌++◌, map,
  arith, length, take, length-append, if◌then◌else◌, ap, ap₂, subst, ◌∙◌, sym,
}
use mathlib.Core.List.{append-nil, append_assoc}
use native.Mathlib.Decide.{dec_le}
use open_weave.Prelude.Result.{Result, ok, err}
use open_weave.Python.{Value}
use open_weave.Auth.{AuthFailure, AuthContext}
use open_weave.Ingest.{
  Event, Problem, unknown_body, validate, EventError, payload, Sorted, sort_event, sort_events,
  Server, Answer, response, unauthenticated, invalid_argument, unavailable, add_all, enqueue,
  ingest_batch,
}

-- Why an event is rejected.
unfoldable pub problem_of : Event → Option Problem
problem_of event = elim event.body [
  | none ↦ some unknown_body
  | some (kind, body) ↦ validate event kind body
]

-- What is enqueued for an event, if it is valid.
unfoldable pub accepted_payload : String → Event → Option Value
accepted_payload project_id event = elim event.body [
  | none ↦ none
  | some (kind, body) ↦ elim (validate event kind body) [
    | none ↦ some (payload project_id event kind body)
    | some problem ↦ none
  ]
]

abbrev error_of : Event → Option Problem → List EventError
error_of event none = []
error_of event (some p) = record { event_id = event.event_id; code = 400; message = p } ∷ []

abbrev payload_of : Option Value → List Value
payload_of none = []
payload_of (some v) = v ∷ []

-- The errors and the payloads of a batch, each in the order of the events.
unfoldable pub all_errors : List Event → List EventError
all_errors [] = []
all_errors (event ∷ events) = error_of event (problem_of event) ++ all_errors events

unfoldable pub all_payloads : String → List Event → List Value
all_payloads project_id [] = []
all_payloads project_id (event ∷ events) =
    payload_of (accepted_payload project_id event) ++ all_payloads project_id events

sort_event_lem :
    (project_id : String) (event : Event) (acc : Sorted)
    → sort_event project_id event acc ≡ record {
      errors = acc.errors ++ error_of event (problem_of event);
      payloads = acc.payloads ++ payload_of (accepted_payload project_id event);
    }
unfolding sort_event problem_of accepted_payload
sort_event_lem project_id event acc = ground (arith, append-nil acc.errors, append-nil acc.payloads)

sort_events_lem :
    (project_id : String) (events : List Event) (acc : Sorted)
    → sort_events project_id events acc ≡ record {
      errors = acc.errors ++ all_errors events;
      payloads = acc.payloads ++ all_payloads project_id events;
    }
unfolding sort_events all_errors all_payloads
sort_events_lem project_id [] acc = ground (arith, append-nil acc.errors, append-nil acc.payloads)
sort_events_lem project_id (event ∷ events) acc =
    let e = error_of event (problem_of event) in
    let p = payload_of (accepted_payload project_id event) in
    ap (sort_events project_id events) (sort_event_lem project_id event acc)
    ∙ sort_events_lem project_id events
        (record { errors = acc.errors ++ e; payloads = acc.payloads ++ p })
    ∙ ap₂ (λ es ps. let s : Sorted = record { errors = es; payloads = ps } in s)
        (append_assoc acc.errors e (all_errors events))
        (append_assoc acc.payloads p (all_payloads project_id events))

-- Each event is either enqueued or reported.
one_of_two :
    (project_id : String) (event : Event)
    → length (payload_of (accepted_payload project_id event))
        + length (error_of event (problem_of event))
      ≡ 1
unfolding accepted_payload problem_of
one_of_two project_id event = ground arith

all_counted :
    (project_id : String) (events : List Event)
    → length (all_payloads project_id events) + length (all_errors events) ≡ length events
unfolding all_payloads all_errors
all_counted project_id [] = omega arith
all_counted project_id (event ∷ events) = omega (
  arith,
  one_of_two project_id event,
  all_counted project_id events,
  length-append (payload_of (accepted_payload project_id event)) (all_payloads project_id events),
  length-append (error_of event (problem_of event)) (all_errors events),
)

module _ (dumps : Value → String) (trim : List String → List String) where
  -- XADD drops nothing while the stream has at most `maxlen` entries.
  abbrev pub KeepsUpTo : ℕ → Type 0
  KeepsUpTo maxlen = (l : List String) → length l ≤ maxlen → trim l ≡ l

  add_all-eq-append :
      (maxlen : ℕ) (payloads : List Value) (stream : List String)
      → KeepsUpTo maxlen
      → length stream + length payloads ≤ maxlen
      → add_all dumps trim payloads stream ≡ stream ++ map dumps payloads
  unfolding add_all
  add_all-eq-append maxlen [] stream keeps fits = sym (append-nil stream)
  add_all-eq-append maxlen (p ∷ payloads) stream keeps fits =
      let longer = length-append stream (dumps p ∷ []) in
      ap (add_all dumps trim payloads) (keeps (stream ++ dumps p ∷ []) (omega (arith, longer)))
      ∙ add_all-eq-append maxlen payloads (stream ++ dumps p ∷ []) keeps (omega (arith, longer))
      ∙ append_assoc stream (dumps p ∷ []) (map dumps payloads)

  enqueue-none :
      (payloads : List Value) (stream : List String)
      → enqueue dumps trim none payloads stream ≡ (true, add_all dumps trim payloads stream)
  unfolding enqueue add_all
  enqueue-none [] stream = refl
  enqueue-none (p ∷ payloads) stream = refl

  -- A batch from a valid key that is not too large, with a stream that has room and a pipeline that
  -- does not fail: every valid event is enqueued in order, with the key's project, every other event
  -- is reported in order, and the two counts add up to the batch.
  pub ingest_batch-ok :
      (max_batch_events maxlen : ℕ) (auth : AuthContext) (events : List Event) (s : Server)
      → KeepsUpTo maxlen
      → length events ≤ max_batch_events
      → length s.stream + length events ≤ maxlen
      → let accepted = all_payloads auth.project_id events in
        (ingest_batch dumps trim max_batch_events none (ok auth) events s ≡ (
          response (length accepted) (all_errors events),
          record {
            stream = s.stream ++ map dumps accepted;
            touched = s.touched ++ auth.api_key_id ∷ [];
          },
        ))
        × (length accepted + length (all_errors events) ≡ length events)
  unfolding ingest_batch
  ingest_batch-ok max_batch_events maxlen auth events s keeps small room =
      let counted = all_counted auth.project_id events in
      let accepted = all_payloads auth.project_id events in
      let sorted = sort_events_lem auth.project_id events (record { errors = []; payloads = [] }) in
      let added = add_all-eq-append maxlen accepted s.stream keeps (omega arith) in
      (ground (arith, sorted, enqueue-none accepted s.stream, added), counted)

  -- What an answer says of the call.
  abbrev pub Explains :
      ℕ → Option ℕ → Result AuthFailure AuthContext → List Event → Server → Answer × Server → Type 0
  Explains max_batch_events fails_after auth events s (response n errors, s') =
      (a : AuthContext) × (auth ≡ ok a)
      × (length events ≤ max_batch_events)
      × (n + length errors ≡ length events)
      × (errors ≡ all_errors events)
      × (s'.stream ≡ add_all dumps trim (all_payloads a.project_id events) s.stream)
      × (s'.touched ≡ s.touched ++ a.api_key_id ∷ [])
  Explains max_batch_events fails_after auth events s (unauthenticated e, s') =
      (auth ≡ err e) × (s' ≡ s)
  Explains max_batch_events fails_after auth events s (invalid_argument, s') =
      (max_batch_events < length events) × (s' ≡ s)
  Explains max_batch_events fails_after auth events s (unavailable, s') =
      (a : AuthContext) × (n : ℕ) × (auth ≡ ok a)
      × (fails_after ≡ some n)
      × (s'.touched ≡ s.touched)
      × (s'.stream ≡ add_all dumps trim (take n (all_payloads a.project_id events)) s.stream)

  finish : Server → String → List EventError → List Value → Bool × List String → Answer × Server
  finish s key errors payloads (done, stream) =
      if done
      then (
        response (length payloads) errors,
        record { stream = stream; touched = s.touched ++ key ∷ [] },
      )
      else (unavailable, record s { stream = stream })

  ingest_batch-fits :
      (max_batch_events : ℕ) (fails_after : Option ℕ) (auth : AuthContext) (events : List Event)
      (s : Server)
      → length events ≤ max_batch_events
      → let accepted = all_payloads auth.project_id events in
        ingest_batch dumps trim max_batch_events fails_after (ok auth) events s
        ≡ finish s auth.api_key_id
            (all_errors events)
            accepted
            (enqueue dumps trim fails_after accepted s.stream)
  unfolding ingest_batch finish
  ingest_batch-fits max_batch_events fails_after auth events s fits =
      let sorted = sort_events_lem auth.project_id events (record { errors = []; payloads = [] }) in
      ground (arith, sorted)

  ingest_batch-large :
      (max_batch_events : ℕ) (fails_after : Option ℕ) (auth : AuthContext) (events : List Event)
      (s : Server)
      → max_batch_events < length events
      → ingest_batch dumps trim max_batch_events fails_after (ok auth) events s
        ≡ (invalid_argument, s)
  unfolding ingest_batch
  ingest_batch-large max_batch_events fails_after auth events s large = ground arith

  finish-Explains :
      (max_batch_events : ℕ) (fails_after : Option ℕ) (auth : AuthContext) (events : List Event)
      (s : Server) (accepted : List Value)
      → length events ≤ max_batch_events
      → accepted ≡ all_payloads auth.project_id events
      → Explains max_batch_events fails_after (ok auth) events s (
          finish s auth.api_key_id
            (all_errors events)
            accepted
            (enqueue dumps trim fails_after accepted s.stream))
  unfolding finish enqueue add_all
  finish-Explains max_batch_events fails_after auth events s [] fits e = (
    auth,
    refl,
    fits,
    ap (λ l. length l + length (all_errors events)) e ∙ all_counted auth.project_id events,
    refl,
    ap (λ l. add_all dumps trim l s.stream) e,
    refl,
  )
  finish-Explains max_batch_events none auth events s (p ∷ payloads) fits e = (
    auth,
    refl,
    fits,
    ap (λ l. length l + length (all_errors events)) e ∙ all_counted auth.project_id events,
    refl,
    ap (λ l. add_all dumps trim l s.stream) e,
    refl,
  )
  finish-Explains max_batch_events (some n) auth events s (p ∷ payloads) fits e =
      (auth, n, refl, refl, refl, ap (λ l. add_all dumps trim (take n l) s.stream) e)

  -- An answer tells what became of the batch, whether the pipeline fails or not. A response means
  -- that the key was valid, that every valid event was added to the stream, in order and with the
  -- key's project, that every other event is reported, and that the key's use is noted. A bad key or
  -- a batch that is too large has changed nothing. Where the queue is unavailable the pipeline failed,
  -- the key's use is not noted, and what was added is a run of the first valid events.
  pub ingest_batch-Explains :
      (max_batch_events : ℕ) (fails_after : Option ℕ) (auth : Result AuthFailure AuthContext)
      (events : List Event) (s : Server)
      → Explains max_batch_events fails_after auth events s
          (ingest_batch dumps trim max_batch_events fails_after auth events s)
  ingest_batch-Explains max_batch_events fails_after (err e) events s =
      unfold ingest_batch in (refl, refl)
  ingest_batch-Explains max_batch_events fails_after (ok auth) events s =
      elim (dec_le (length events) max_batch_events) [
        | yes fits ↦
            subst (Explains max_batch_events fails_after (ok auth) events s)
              (sym (ingest_batch-fits max_batch_events fails_after auth events s fits))
              (finish-Explains max_batch_events fails_after auth events s
                (all_payloads auth.project_id events) fits refl)
        | no large ↦
            subst (Explains max_batch_events fails_after (ok auth) events s)
              (sym (ingest_batch-large max_batch_events fails_after auth events s (omega arith)))
              (omega arith, refl)
      ]
