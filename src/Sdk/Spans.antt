-- ===== src/Sdk/Spans.antt =====
-- agent-observability/sdk/openweave.py: traces, spans, updates and scores as events.
-- A protobuf body is a row that holds the fields that were set. `uuid` is the sequence of the ids
-- that `uuid4` draws, and `now` the timestamp as text. The stack of spans has its top first.
pub mod Accepted
pub mod Scoring
use Prim.Native.String.{◌++◌ as ◌<>◌}
use open_weave.Prelude.{
  ℕ, zero, suc, ◌+◌, String, Bool, true, false, not, ◌||◌, Option, none, some, List, [], ◌∷◌, ◌++◌,
  ◌==◌, ltb, contains, if◌then◌else◌, text_key,
}
use open_weave.Prelude.Int.{pos}
use open_weave.Prelude.Dict.{put}
use open_weave.Prelude.Result.{Result, ok, err, ◌>>=◌}
use open_weave.Python.{
  Value, null, bool, int, float, str, Row, is_null, truthy, is_empty, Error, Python, to_float,
}
use open_weave.Ingest.{
  BodyField, trace_create, observation_create, observation_update, score_create, Event,
}
use open_weave.Worker.Stream.{take_text}
use open_weave.Sdk.{Client, enqueue}

-- The client with the two context variables, and the number of ids drawn so far.
pub record Session : Type 0 where
  pub client : Client
  pub trace_id : Option String
  pub stack : List String
  pub drawn : ℕ

unfoldable pub text_length : String → ℕ
text_length String.[] = 0
text_length (String.◌∷◌ c s) = suc (text_length s)

-- `if v is not None: body.k = v`, and `if v: body.k = v`.
abbrev pub set_given : String → Value → Row → Row
set_given k v body = if is_null v then body else put k v body

abbrev pub set_true : String → Value → Row → Row
set_true k v body = if truthy v then put k v body else body

abbrev pub text_or : String → Option String → String
text_or s none = s
text_or s (some t) = if is_empty t then s else t

module _ (py : Python) (uuid : ℕ → String) (now : String) where
  abbrev pub plain_text : Value → String
  plain_text (str s) = s
  plain_text v = py.dumps v

  -- `_stringify`
  unfoldable pub stringify : Value → String
  stringify v =
      let n = text_length (plain_text v) in
      if ltb 20000 n
      then take_text 20000 (plain_text v) <> ("...[" <> (py.text_of (int (pos n)) <> " chars]"))
      else plain_text v

  abbrev pub set_text : String → Value → Row → Row
  set_text k v body = if is_null v then body else put k (str (stringify v)) body

  -- Drawing an event's id and putting the event in the queue.
  unfoldable pub emit : BodyField → Row → Session → Session
  emit kind body s =
      let event : Event = record {
        event_id = uuid s.drawn;
        body = some (kind, body);
        timestamp = some now;
      } in
      record s { client = enqueue event s.client; drawn = s.drawn + 1 }

  -- `TYPES.get(type.upper(), SPAN)`
  abbrev pub known_types : List String
  known_types =
      "SPAN" ∷ "GENERATION" ∷ "EVENT" ∷ "AGENT" ∷ "TOOL" ∷ "CHAIN" ∷ "RETRIEVER" ∷ "EMBEDDING"
      ∷ "GUARDRAIL" ∷ []

  unfoldable pub type_name : String → String
  type_name kind =
      "OBSERVATION_TYPE_"
      <> (if contains (py.upper kind) known_types then py.upper kind else "SPAN")

  abbrev pub top_of : List String → Value
  top_of [] = null
  top_of (id ∷ stack) = str id

  -- The trace that a span belongs to: with none open, one is made and sent.
  unfoldable pub ensure_trace : String → Session → String × Session
  ensure_trace name s = elim s.trace_id [
    | some tid ↦ (tid, s)
    | none ↦
        let tid = uuid s.drawn in
        (
          tid,
          emit trace_create (("id", str tid) ∷ ("name", str name) ∷ ("timestamp", str now) ∷ [])
              (record s { drawn = s.drawn + 1 }),
        )
  ]

  -- `_start_span`: the new span's id, and the session inside the span.
  unfoldable pub start_span : String → String → Value → Value → Session → String × Session
  start_span name kind input metadata s =
      let (tid, s') = ensure_trace name s in
      let span_id = uuid s'.drawn in
      let body = set_true "metadata" metadata (
        set_text "input" input (
          set_given "parent_observation_id" (top_of s'.stack) (
            ("id", str span_id)
            ∷ ("trace_id", str tid)
            ∷ ("type", str (type_name kind))
            ∷ ("name", str name)
            ∷ ("start_time", str now)
            ∷ ("level", str "OBSERVATION_LEVEL_DEFAULT")
            ∷ []))) in
      let s'' =
        emit observation_create body (record s' { trace_id = some tid; drawn = s'.drawn + 1 }) in
      (span_id, record s'' { stack = span_id ∷ s'.stack })

  -- `_end_span`, on the error's text where the body raised.
  unfoldable pub end_span : String → String → Value → Option String → Session → Session
  end_span span_id tid output error s =
      let body = ("id", str span_id) ∷ ("trace_id", str tid) ∷ ("end_time", str now) ∷ [] in
      emit observation_update
        (elim error as (λ _. Row) [
          | some message ↦
              put "status_message" (str (take_text 4000 message))
                (put "level" (str "OBSERVATION_LEVEL_ERROR") body)
          | none ↦ set_text "output" output body
        ])
        s

  abbrev pub open_trace : Session → String
  open_trace s = elim s.trace_id [ none ↦ "" | some tid ↦ tid ]

  abbrev pub error_of : Result String Value → Option String
  error_of (ok v) = none
  error_of (err message) = some message

  abbrev pub output_of : Bool → Result String Value → Value
  output_of true (ok v) = v
  output_of _ _ = null

  -- `observe`, and `span` where no output is captured, around a body that gives a result or the
  -- text of what it raised: the context is reset in the end.
  unfoldable pub observe :
      String
      → String
      → Value
      → Bool
      → (Session → Result String Value × Session)
      → Session
      → Result String Value × Session
  observe name kind payload capture_output run s =
      if not s.client.enabled
      then run s
      else (let (span_id, inside) = start_span name kind payload null s in
          let (result, after) = run inside in
          let ended =
            end_span span_id (open_trace inside) (output_of capture_output result) (error_of result)
              after in
          (result, record ended { trace_id = s.trace_id; stack = s.stack }))

  -- `SCORE_DATA_TYPE_…`, NUMERIC for a name that is unknown.
  unfoldable pub score_type : String → String
  score_type kind =
      let name = py.upper kind in
      "SCORE_DATA_TYPE_" <> (if name == "CATEGORICAL" || name == "BOOLEAN" then name else "NUMERIC")

  -- The anchor of a score: the run item, or else the trace; `none` where there is neither.
  unfoldable pub anchor_of : Option String → Option String → Option String → Option (String × Value)
  anchor_of run_item trace_id current =
      let item = text_or "" run_item in
      let tid = text_or (text_or "" current) trace_id in
      if not (is_empty item)
      then some ("dataset_run_item_id", str item)
      else if not (is_empty tid)
      then some ("trace_id", str tid)
      else none

  -- The body of `score`, on the value as a number.
  unfoldable pub score_body :
      String → String → String × Value → String → Value → Value → Value → Row
  score_body id name anchor data_type value string_value comment = set_true "comment" comment (
      set_given "string_value" string_value (
        set_given "value" value (
          ("id", str id)
          ∷ ("name", str name)
          ∷ anchor
          ∷ ("data_type", str (score_type data_type))
          ∷ [])))

  abbrev pub number_of : Value → Result Error Value
  number_of v = if is_null v then ok null else (to_float py v >>= λ x. ok (float x))

  -- `score`: nothing is sent for a score with no anchor.
  unfoldable pub score :
      String
      → Value
      → Option String
      → Value
      → Value
      → String
      → Option String
      → Session
      → Result Error Session
  score name value trace_id comment string_value data_type run_item s =
      let id = uuid s.drawn in
      let s' : Session = record s { drawn = s.drawn + 1 } in
      elim (anchor_of run_item trace_id s.trace_id) [
        | none ↦ ok s'
        | some anchor ↦ number_of value >>= λ number.
            ok (
              emit score_create (score_body id name anchor data_type number string_value comment)
                s')
      ]
