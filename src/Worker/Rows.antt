-- ===== src/Worker/Rows.antt =====
-- The row builders: from one event to the row that it proposes, and the columns that it sent.
-- A body that is no JSON object makes every builder raise; the model raises TypeError for all.
pub mod Shape
use open_weave.Prelude.{
  ℕ, String, Bool, true, false, ◌||◌, Option, none, some, List, [], ◌∷◌, ◌++◌, map, ◌==◌, keep,
  contains, if◌then◌else◌, text_key,
}
use open_weave.Prelude.Dict.{Dict, get, put, has, set_default}
use open_weave.Prelude.Result.{Result, ok, err, ◌>>=◌}
use open_weave.Python.{
  Value, null, bool, int, float, str, time, obj, Fields, fields, to_fields, Row, cell, is_null,
  truthy, Error, key_error, type_error, item, item_or_none, Python, to_int, to_float,
}
use open_weave.Worker.Convert.{enum_name, ts, usage, cost}

abbrev pub trace_columns : List String
trace_columns =
    "project_id" ∷ "id" ∷ "name" ∷ "user_id" ∷ "session_id" ∷ "timestamp" ∷ "input" ∷ "output"
    ∷ "metadata" ∷ "tags" ∷ "release" ∷ "version" ∷ "is_experiment" ∷ "created_at" ∷ "updated_at"
    ∷ []

abbrev pub observation_columns : List String
observation_columns =
    "project_id" ∷ "id" ∷ "trace_id" ∷ "parent_observation_id" ∷ "type" ∷ "name" ∷ "start_time"
    ∷ "end_time" ∷ "completion_start_time" ∷ "level" ∷ "status_message" ∷ "input" ∷ "output"
    ∷ "metadata" ∷ "provided_model_name" ∷ "model_parameters" ∷ "provided_usage_details"
    ∷ "usage_details" ∷ "provided_cost_details" ∷ "cost_details" ∷ "total_cost" ∷ "prompt_name"
    ∷ "prompt_version" ∷ "created_at" ∷ "updated_at" ∷ []

-- `a or b`
abbrev pub or_else : Value → Value → Value
or_else a b = if truthy a then a else b

abbrev pub as_row : Value → Result Error Row
as_row (obj fs) = ok (fields fs)
as_row _ = err type_error

abbrev pub body_of : Value → Result Error Row
body_of event = item event "body" >>= as_row

-- `body[k]`
abbrev pub required : Row → String → Result Error Value
required body k = elim (get k body) [ none ↦ err (key_error k) | some v ↦ ok v ]

module _ (py : Python) (now : ℕ) where
  unfoldable pub build_trace_row : Value → Result Error Row
  build_trace_row event = do
    body ← body_of event
    project_id ← item event "project_id"
    id ← required body "id"
    event_ts ← item_or_none event "ts"
    ok (
        ("project_id", project_id)
        ∷ ("id", id)
        ∷ ("name", cell "name" body)
        ∷ ("user_id", cell "user_id" body)
        ∷ ("session_id", cell "session_id" body)
        ∷ (
          "timestamp",
          or_else (ts py (cell "timestamp" body)) (or_else (ts py event_ts) (time now)),
        )
        ∷ ("input", cell "input" body)
        ∷ ("output", cell "output" body)
        ∷ ("metadata", cell "metadata" body)
        ∷ ("tags", cell "tags" body)
        ∷ ("release", cell "release" body)
        ∷ ("version", cell "version" body)
        ∷ ("is_experiment", bool (truthy (cell "is_experiment" body)))
        ∷ ("created_at", time now)
        ∷ ("updated_at", time now)
        ∷ [])

  -- `sent = {c for c in TRACE_COLUMNS if c in event["body"]}`, in the order of the columns.
  unfoldable pub trace_sent : Row → List String
  trace_sent body = keep (λ c. has c body) trace_columns

-- `for key in keys: if key in body: out[key] = body[key]`
unfoldable pub copy_keys : List String → Row → Row → Row
copy_keys [] body out = out
copy_keys (k ∷ keys) body out =
    copy_keys keys body (elim (get k body) [ none ↦ out | some v ↦ put k v out ])

-- `if key in body: out[column] = convert(body[key])`
unfoldable pub convert_key :
    String → String → (Value → Result Error Value) → Row → Row → Result Error Row
convert_key key column convert body out = elim (get key body) [
  | none ↦ ok out
  | some v ↦ convert v >>= λ w. ok (put column w out)
]

abbrev pub copied_keys : List String
copied_keys =
    "parent_observation_id" ∷ "name" ∷ "status_message" ∷ "input" ∷ "output" ∷ "metadata"
    ∷ "model_parameters" ∷ "prompt_name" ∷ []

module _ (py : Python) where
  abbrev pub to_int_value : Value → Result Error Value
  to_int_value v = to_int py v >>= λ n. ok (int n)

  -- The three columns of `cost_details`.
  abbrev pub put_cost : Option (Dict String ℕ) → Row → Row
  put_cost none out =
      put "total_cost" null (put "cost_details" null (put "provided_cost_details" null out))
  put_cost (some d) out =
      let details = obj (to_fields (map (λ e. (e.0, float e.1)) d)) in
      put "total_cost" (float (py.sum_floats (map (λ e. e.1) d)))
        (put "cost_details" details (put "provided_cost_details" details out))

  unfoldable pub usage_fields : Row → Row → Result Error Row
  usage_fields body out = elim (get "usage_details" body) [
    | none ↦ ok out
    | some v ↦ usage py v >>= λ u. ok (put "usage_details" u (put "provided_usage_details" u out))
  ]

  unfoldable pub cost_fields : Row → Row → Result Error Row
  cost_fields body out = elim (get "cost_details" body) [
    | none ↦ ok out
    | some v ↦ cost py v >>= λ c. ok (put_cost c out)
  ]

  -- `_observation_fields`: only what the client sent, converted.
  unfoldable pub observation_fields : Row → Result Error Row
  observation_fields body = do
    let copied = copy_keys copied_keys body []
    out ← convert_key "model" "provided_model_name" ok body copied
    out ← convert_key "prompt_version" "prompt_version" to_int_value body out
    out ← convert_key "type" "type" (λ v. enum_name v "OBSERVATION_TYPE_" null) body out
    out ←
        convert_key "level" "level" (λ v. enum_name v "OBSERVATION_LEVEL_" (str "DEFAULT")) body out
    out ← convert_key "start_time" "start_time" (λ v. ok (ts py v)) body out
    out ← convert_key "end_time" "end_time" (λ v. ok (ts py v)) body out
    out ← convert_key "completion_start_time" "completion_start_time" (λ v. ok (ts py v)) body out
    out ← usage_fields body out
    cost_fields body out

-- `{**row, **fields}`
unfoldable pub update_with : Row → Row → Row
update_with row [] = row
update_with row ((k, v) ∷ fs) = update_with (put k v row) fs

-- The three `setdefault`s of `build_observation_row`.
unfoldable pub fill_defaults : Value → Row → Row
fill_defaults fallback row =
    let typed = set_default "type" (str "SPAN") row in
    let levelled = set_default "level" (str "DEFAULT") typed in
    set_default "start_time" (or_else (cell "end_time" levelled) fallback) levelled

module _ (py : Python) (now : ℕ) where
  unfoldable pub build_observation_row : Value → Result Error Row
  build_observation_row event = do
    body ← body_of event
    project_id ← item event "project_id"
    id ← required body "id"
    trace_id ← required body "trace_id"
    sent ← observation_fields py body
    event_ts ← item_or_none event "ts"
    ok (
        fill_defaults (or_else (ts py event_ts) (time now)) (
          update_with
            (("project_id", project_id)
              ∷ ("id", id)
              ∷ ("trace_id", trace_id)
              ∷ ("created_at", time now)
              ∷ ("updated_at", time now)
              ∷ [])
            sent))

  unfoldable pub build_score_row : Value → Result Error Row
  build_score_row event = do
    body ← body_of event
    project_id ← item event "project_id"
    id ← required body "id"
    name ← required body "name"
    data_type ← enum_name (cell "data_type" body) "SCORE_DATA_TYPE_" (str "NUMERIC")
    value ← elim (is_null (cell "value" body)) [
      | true ↦ ok null
      | false ↦ to_float py (cell "value" body) >>= λ x. ok (float x)
    ]
    event_ts ← item_or_none event "ts"
    ok (
        ("project_id", project_id)
        ∷ ("id", id)
        ∷ ("trace_id", cell "trace_id" body)
        ∷ ("observation_id", cell "observation_id" body)
        ∷ ("dataset_run_item_id", cell "dataset_run_item_id" body)
        ∷ ("name", name)
        ∷ ("data_type", data_type)
        ∷ ("value", value)
        ∷ ("string_value", cell "string_value" body)
        ∷ ("source", str "API")
        ∷ ("comment", cell "comment" body)
        ∷ ("timestamp", or_else (ts py event_ts) (time now))
        ∷ ("created_at", time now)
        ∷ [])
