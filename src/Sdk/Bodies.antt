-- ===== src/Sdk/Bodies.antt =====
-- agent-observability/sdk/openweave.py: the bodies of traces and of updates.
-- `None` is `null`; a JSON value always serialises, so `_struct` drops only what is false.
use open_weave.Prelude.{
  ℕ, ◌+◌, String, Bool, Option, none, some, [], ◌∷◌, contains, if◌then◌else◌, text_key,
}
use Prim.Native.String.{◌++◌ as ◌<>◌}
use open_weave.Prelude.Dict.{Dict, put}
use open_weave.Prelude.Result.{Result, ok, ◌>>=◌}
use open_weave.Python.{
  Value, null, bool, int, float, str, obj, to_fields, Row, is_null, truthy, Error, Python, to_int,
}
use open_weave.Ingest.{trace_create, observation_update}
use open_weave.Worker.Convert.{int_values, float_values}
use open_weave.Worker.Stream.{take_text}
use open_weave.Sdk.Spans.{Session, set_given, set_true, set_text, text_or, emit}
use open_weave.Prelude.{map}

-- The keyword arguments of `trace`.
pub record TraceArguments : Type 0 where
  pub name : Value
  pub input : Value
  pub user_id : Value
  pub session_id : Value
  pub tags : Value
  pub metadata : Value
  pub release : Value
  pub version : Value
  pub is_experiment : Bool
  pub trace_id : Option String

-- The keyword arguments of `Span.update`.
pub record UpdateArguments : Type 0 where
  pub output : Value
  pub model : Value
  pub usage : Dict String Value
  pub cost : Dict String Value
  pub metadata : Value
  pub level : Option String
  pub status_message : Option String
  pub model_parameters : Value
  pub prompt_name : Value
  pub prompt_version : Value
  pub completion_start : Bool
  pub end_now : Bool

module _ (py : Python) (uuid : ℕ → String) (now : String) where
  -- The body that `trace` sends.
  unfoldable pub trace_body : String → TraceArguments → Row
  trace_body tid a =
      let named = set_true "name" a.name (("id", str tid) ∷ ("timestamp", str now) ∷ []) in
      let given = set_text py uuid now "input" a.input named in
      let user = set_true "session_id" a.session_id (set_true "user_id" a.user_id given) in
      let tagged = set_true "release" a.release (set_true "tags" a.tags user) in
      let versioned = set_true "version" a.version tagged in
      let flagged = set_true "is_experiment" (bool a.is_experiment) versioned in
      set_true "metadata" a.metadata flagged

  -- `trace` around a body that gives a value, returned or raised, and the session after it.
  unfoldable pub with_trace :
      {A : Type 0} → TraceArguments → (String → Session → A × Session) → Session → A × Session
  with_trace a run s =
      let tid = text_or (uuid s.drawn) a.trace_id in
      let opened =
        emit py uuid now trace_create (trace_body tid a)
          (record s { drawn = drawn_after a.trace_id s }) in
      let (value, after) = run tid (record opened { trace_id = some tid; stack = [] }) in
      (value, record after { trace_id = s.trace_id; stack = s.stack })
    where
      -- An id is drawn only where none is given.
      drawn_after : Option String → Session → ℕ
      drawn_after given v = if truthy (id_value given) then v.drawn else v.drawn + 1
        where
          id_value : Option String → Value
          id_value none = null
          id_value (some t) = str t

  -- `_TraceHandle.update`
  unfoldable pub update_trace : String → Value → Value → Session → Session
  update_trace tid output metadata =
      emit py uuid now trace_create
        (set_true "metadata" metadata (set_text py uuid now "output" output (("id", str tid) ∷ [])))

  -- `LEVELS.get(level.upper(), DEFAULT)`
  unfoldable pub level_name : String → String
  level_name level =
      "OBSERVATION_LEVEL_"
      <> (if contains (py.upper level) ("DEBUG" ∷ "DEFAULT" ∷ "WARNING" ∷ "ERROR" ∷ [])
          then py.upper level
          else "DEFAULT")

  abbrev pub put_some : String → (String → String) → Option String → Row → Row
  put_some k f none body = body
  put_some k f (some t) body = put k (str (f t)) body

  -- A map with entries is converted and set; `int` and `float` raise.
  abbrev pub put_usage : Dict String Value → Row → Result Error Row
  put_usage [] body = ok body
  put_usage (e ∷ usage) body =
      int_values py (e ∷ usage) >>= λ d. ok (put "usage_details" (obj (to_fields d)) body)

  abbrev pub put_cost : Dict String Value → Row → Result Error Row
  put_cost [] body = ok body
  put_cost (e ∷ cost) body = float_values py (e ∷ cost) >>= λ d.
      ok (put "cost_details" (obj (to_fields (map (λ x. (x.0, float x.1)) d))) body)

  abbrev pub put_version : Value → Row → Result Error Row
  put_version v body =
      if is_null v then ok body else (to_int py v >>= λ n. ok (put "prompt_version" (int n) body))

  -- The body that `Span.update` sends.
  unfoldable pub update_body : String → String → UpdateArguments → Result Error Row
  update_body span_id tid a = do
    let named =
        set_text py uuid now "output" a.output (("id", str span_id) ∷ ("trace_id", str tid) ∷ [])
    used ← put_usage a.usage (set_given "model" a.model named)
    costed ← put_cost a.cost used
    let described =
        set_true "model_parameters" a.model_parameters (set_true "metadata" a.metadata costed)
    let levelled = put_some "level" level_name a.level described
    let explained = put_some "status_message" (take_text 4000) a.status_message levelled
    versioned ← put_version a.prompt_version (set_given "prompt_name" a.prompt_name explained)
    let started =
        set_true "completion_start_time" (if a.completion_start then str now else null) versioned
    ok (set_true "end_time" (if a.end_now then str now else null) started)

  -- `Span.update`: an argument that does not convert raises before anything is sent.
  unfoldable pub update_span : String → String → UpdateArguments → Session → Result Error Session
  update_span span_id tid a s =
      update_body span_id tid a >>= λ body. ok (emit py uuid now observation_update body s)
