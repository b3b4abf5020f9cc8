-- ===== src/Ingest.antt =====
-- agent-observability/ingestion-server/server.py: validating a batch of events and enqueueing it.
pub mod Validation
pub mod Batch
use open_weave.Prelude.{
  ℕ, zero, suc, ◌+◌, String, Bool, true, false, not, ◌&&◌, Option, none, some, List, [], ◌∷◌, ◌++◌,
  ◌==◌, leb, ltb, nat_eq, length, take, if◌then◌else◌, text_key,
}
use open_weave.Prelude.Result.{Result, ok, err}
use open_weave.Python.{
  Value, null, str, obj, Fields, end, field, to_fields, Row, cell, truthy, text_value, is_empty,
}
use open_weave.Auth.{AuthFailure, AuthContext}

-- BODY_FIELDS, the fields of the oneof `body`.
pub data BodyField : Type 0 where
  trace_create observation_create observation_update score_create : BodyField

unfoldable pub field_name : BodyField → String
field_name trace_create = "trace_create"
field_name observation_create = "observation_create"
field_name observation_update = "observation_update"
field_name score_create = "score_create"

-- A protobuf `Event`: `body` is the set field of the oneof with its message as `_to_dict` gives it,
-- where fields that are not set are absent; `timestamp` is its JSON text where it is set.
pub record Event : Type 0 where
  pub event_id : String
  pub body : Option (BodyField × Row)
  pub timestamp : Option String

pub data Problem : Type 0 where
  event_id_required trace_id_required observation_id_required observation_trace_id_required :
      Problem
  observation_type_required score_id_required score_name_required one_anchor_required : Problem
  unknown_body : Problem

abbrev pub sent : String → Row → Bool
sent k body = truthy (cell k body)

abbrev pub one_if : Bool → ℕ
one_if true = 1
one_if false = 0

-- The branch of `_validate` for the kind of body.
unfoldable pub validate_body : BodyField → Row → Option Problem
validate_body trace_create body = if not (sent "id" body) then some trace_id_required else none
validate_body observation_create body =
    if not (sent "id" body)
    then some observation_id_required
    else if not (sent "trace_id" body)
    then some observation_trace_id_required
    else if not (sent "type" body)
    then some observation_type_required
    else none
validate_body observation_update body =
    if not (sent "id" body)
    then some observation_id_required
    else if not (sent "trace_id" body)
    then some observation_trace_id_required
    else none
validate_body score_create body =
    if not (sent "id" body)
    then some score_id_required
    else if not (sent "name" body)
    then some score_name_required
    else if not
        (nat_eq (one_if (sent "trace_id" body) + one_if (sent "dataset_run_item_id" body)) 1)
    then some one_anchor_required
    else none

-- `_validate`: `none` if the event is acceptable.
unfoldable pub validate : Event → BodyField → Row → Option Problem
validate event kind body =
    if is_empty event.event_id then some event_id_required else validate_body kind body

pub record EventError : Type 0 where
  pub event_id : String
  pub code : ℕ
  pub message : Problem

-- The dictionary that is enqueued for an accepted event.
unfoldable pub payload : String → Event → BodyField → Row → Value
payload project_id event kind body = obj (
    field "event_id" (str event.event_id) (
      field "project_id" (str project_id) (
        field "type" (str (field_name kind))
          (field "ts" (text_value event.timestamp) (field "body" (obj (to_fields body)) end)))))

pub record Sorted : Type 0 where
  pub errors : List EventError
  pub payloads : List Value

abbrev pub reject : Event → Problem → Sorted → Sorted
reject event problem acc = record acc {
  errors = acc.errors ++ record { event_id = event.event_id; code = 400; message = problem } ∷ [];
}

-- The body of the loop over the events of the request.
unfoldable pub sort_event : String → Event → Sorted → Sorted
sort_event project_id event acc = elim event.body [
  | none ↦ reject event unknown_body acc
  | some (kind, body) ↦ elim (validate event kind body) [
    | some problem ↦ reject event problem acc
    | none ↦ record acc { payloads = acc.payloads ++ payload project_id event kind body ∷ [] }
  ]
]

unfoldable pub sort_events : String → List Event → Sorted → Sorted
sort_events project_id [] acc = acc
sort_events project_id (event ∷ events) acc =
    sort_events project_id events (sort_event project_id event acc)

-- What the server changes: the stream of enqueued texts, and the keys whose use it notes later.
pub record Server : Type 0 where
  pub stream : List String
  pub touched : List String

pub data Answer : Type 0 where
  response : ℕ → List EventError → Answer
  unauthenticated : AuthFailure → Answer
  invalid_argument unavailable : Answer

-- `dumps` is `json.dumps`, `trim` what Redis drops of a stream at XADD with MAXLEN.
module _ (dumps : Value → String) (trim : List String → List String) where
  -- The XADDs of the pipeline, in order.
  unfoldable pub add_all : List Value → List String → List String
  add_all [] stream = stream
  add_all (p ∷ payloads) stream = add_all payloads (trim (stream ++ dumps p ∷ []))

  -- Running the pipeline: `fails_after` is the number of XADDs that took effect before it raised.
  unfoldable pub enqueue : Option ℕ → List Value → List String → Bool × List String
  enqueue fails_after [] stream = (true, stream)
  enqueue none (p ∷ payloads) stream = (true, add_all (p ∷ payloads) stream)
  enqueue (some n) (p ∷ payloads) stream = (false, add_all (take n (p ∷ payloads)) stream)

  -- `IngestBatch` on the outcome of `_authenticate`.
  unfoldable pub ingest_batch :
      ℕ → Option ℕ → Result AuthFailure AuthContext → List Event → Server → Answer × Server
  ingest_batch max_batch_events fails_after (err e) events s = (unauthenticated e, s)
  ingest_batch max_batch_events fails_after (ok auth) events s =
      if ltb max_batch_events (length events)
      then (invalid_argument, s)
      else let sorted =
          sort_events auth.project_id events (record { errors = []; payloads = [] }) in
        let (done, stream) = enqueue fails_after sorted.payloads s.stream in
        if done
        then (
          response (length sorted.payloads) sorted.errors,
          record { stream = stream; touched = s.touched ++ auth.api_key_id ∷ [] },
        )
        else (unavailable, record s { stream = stream })

-- `_authenticate` looks for the first header named so, whatever its case.
unfoldable pub authorization_of : (String → String) → List (String × String) → Option String
authorization_of lower [] = none
authorization_of lower ((key, value) ∷ metadata) =
    if lower key == "authorization" then some value else authorization_of lower metadata

-- `Health` on whether the ping raised.
pub record HealthResponse : Type 0 where
  pub ok : Bool
  pub version : String
  pub redis_ok : Bool

unfoldable pub health : Bool → HealthResponse
health ping_fails = record { ok = not ping_fails; version = "2.0.0"; redis_ok = not ping_fails }
