-- ===== src/Worker/Apply.antt =====
-- `apply_events`: one batch of events written in one transaction.
-- A raised error rolls the transaction back: the result is then the error alone.
pub mod Stubs
use open_weave.Prelude.{
  ℕ, String, Bool, true, false, not, ◌&&◌, ◌||◌, Option, none, some, List, [], ◌∷◌, ◌++◌, map, ◌==◌,
  leb, keep, contains, add_new, if◌then◌else◌, text_key, RowKey, row_key,
}
use open_weave.Prelude.Dict.{Dict, get, put, has}
use open_weave.Prelude.Result.{Result, ok, err, ◌>>=◌}
use open_weave.Python.{
  Value, null, bool, str, time, obj, fields, Row, cell, Error, attribute_error, database_error,
  item, item_or_none, Python,
}
use open_weave.Pricing.{ModelPrice}
use open_weave.Pricing.Resolve.{is_text, resolve_costs}
use open_weave.Worker.Convert.{strip_prefix}
use open_weave.Worker.Rows.{
  trace_columns, observation_columns, as_row, body_of, required, build_trace_row, trace_sent,
  observation_fields, build_observation_row, build_score_row,
}
use open_weave.Worker.Upsert.{
  Table, key_of, row_key_of, end_after_start, insert_or, insert_or_nothing, overwrite_upsert,
  execute_many, merge_groups, group_by_sent,
}

pub record Db : Type 0 where
  pub traces : Table
  pub observations : Table
  pub scores : Table

-- What the database accepts of each table beyond the constraint on the observations' times.
pub record Accepts : Type 0 where
  pub trace : Row → Bool
  pub observation : Row → Bool
  pub score : Row → Bool

-- The lists that the first loop fills; updates wait as events.
pub record Sorting : Type 0 where
  pub traces : List (Row × List String)
  pub obs_create : List (Row × List String)
  pub obs_update : List Value
  pub scores : List Row

-- What the caller announces.
pub record Touched : Type 0 where
  pub observations : List RowKey
  pub traces : List RowKey

-- `e.get("type", "").startswith("observation_")`
abbrev pub is_observation_kind : Option Value → Result Error Bool
is_observation_kind none = ok false
is_observation_kind (some (str s)) = elim (strip_prefix "observation_" s) [
  | none ↦ ok false
  | some _ ↦ ok true
]
is_observation_kind (some _) = err attribute_error

unfoldable pub is_observation : Value → Result Error Bool
is_observation (obj fs) = is_observation_kind (get "type" (fields fs))
is_observation _ = err attribute_error

-- `(e["project_id"], e["body"][k])`
unfoldable pub event_key : String → Value → Result Error RowKey
event_key k event = do
  project_id ← item event "project_id"
  body ← body_of event
  id ← required body k
  key_of project_id id

-- The set of the traces that the batch's observations name.
unfoldable pub referenced_from : List Value → List RowKey → Result Error (List RowKey)
referenced_from [] keys = ok keys
referenced_from (event ∷ events) keys = is_observation event >>= λ named.
    if named
    then (event_key "trace_id" event >>= λ k. referenced_from events (add_new k keys))
    else referenced_from events keys

-- The keys of a list of rows, as a set.
unfoldable pub row_keys : List Row → Result Error (List RowKey)
row_keys [] = ok []
row_keys (r ∷ rows) = do k ← row_key_of r; keys ← row_keys rows; ok (add_new k keys)

unfoldable pub event_keys : List Value → Result Error (List RowKey)
event_keys [] = ok []
event_keys (e ∷ events) = do k ← event_key "id" e; keys ← event_keys events; ok (add_new k keys)

-- `{c: r.get(c) for c in OBSERVATION_COLUMNS}`
unfoldable pub normalise : Row → Row
normalise r = map (λ c. (c, cell c r)) observation_columns

-- `a | b` of two sets.
unfoldable pub union : List RowKey → List RowKey → List RowKey
union a [] = a
union a (k ∷ b) = union (add_new k a) b

module _ (py : Python) (now : ℕ) where
  unfoldable pub stub_row : RowKey → Row
  stub_row (pid, tid) =
      ("project_id", str pid)
      ∷ ("id", str tid)
      ∷ ("name", null)
      ∷ ("user_id", null)
      ∷ ("session_id", null)
      ∷ ("timestamp", time now)
      ∷ ("input", null)
      ∷ ("output", null)
      ∷ ("metadata", null)
      ∷ ("tags", null)
      ∷ ("release", null)
      ∷ ("version", null)
      ∷ ("is_experiment", bool false)
      ∷ ("created_at", time now)
      ∷ ("updated_at", time now)
      ∷ []

  -- `set(_observation_fields(event)) | {"type", "start_time"}`, in the order of the columns.
  unfoldable pub create_sent : Row → List String
  create_sent sent = keep (λ c. has c sent || c == "type" || c == "start_time") observation_columns

  -- `set(_observation_fields(event)) | {"updated_at"}`
  unfoldable pub update_touched : Row → List String
  update_touched sent = keep (λ c. has c sent || c == "updated_at") observation_columns

  unfoldable pub sort_trace : Value → Sorting → Result Error Sorting
  sort_trace event acc = do
    body ← body_of event
    row ← build_trace_row py now event
    ok (record acc { traces = acc.traces ++ (row, trace_sent py now body) ∷ [] })

  unfoldable pub sort_create : Value → Sorting → Result Error Sorting
  sort_create event acc = do
    body ← body_of event
    sent ← observation_fields py body
    row ← build_observation_row py now event
    ok (record acc { obs_create = acc.obs_create ++ (row, create_sent sent) ∷ [] })

  unfoldable pub sort_score : Value → Sorting → Result Error Sorting
  sort_score event acc = do
    row ← build_score_row py now event
    ok (record acc { scores = acc.scores ++ row ∷ [] })

  -- The body of the first loop: an event of another type is passed over.
  unfoldable pub sort_event : Value → Sorting → Result Error Sorting
  sort_event event acc = item_or_none event "type" >>= λ kind.
      if is_text "trace_create" kind
      then sort_trace event acc
      else if is_text "observation_create" kind
      then sort_create event acc
      else if is_text "observation_update" kind
      then ok (record acc { obs_update = acc.obs_update ++ event ∷ [] })
      else if is_text "score_create" kind
      then sort_score event acc
      else ok acc

  unfoldable pub sort_events : List Value → Sorting → Result Error Sorting
  sort_events [] acc = ok acc
  sort_events (event ∷ events) acc = sort_event event acc >>= sort_events events

  module _ (accepts : Accepts) where
    abbrev pub accepts_observation : Row → Bool
    accepts_observation r = end_after_start r && accepts.observation r

    -- One update: its own statement, since each carries other columns.
    unfoldable pub apply_update : Value → Table → Result Error Table
    apply_update event table = do
      row ← build_observation_row py now event
      body ← body_of event
      sent ← observation_fields py body
      overwrite_upsert accepts_observation (update_touched sent) row table

    unfoldable pub apply_updates : List Value → Table → Result Error Table
    apply_updates [] table = ok table
    apply_updates (event ∷ events) table = apply_update event table >>= apply_updates events

    unfoldable pub normalise_groups : List (List String × List Row) → List (List String × List Row)
    normalise_groups [] = []
    normalise_groups ((sent, rows) ∷ groups) = (sent, map normalise rows) ∷ normalise_groups groups

    -- `resolve_costs` where a price cache is given; its rows are those loaded at the time.
    abbrev pub price : Option (List ModelPrice) → List RowKey → Table → Table
    price none keys table = table
    price (some models) keys table = (resolve_costs py models now keys table).0

    unfoldable pub apply_events :
        Option (List ModelPrice) → List Value → Db → Result Error (Db × Touched)
    apply_events price_cache events db = do
      s ← sort_events events (record { traces = []; obs_create = []; obs_update = []; scores = [] })
      referenced ← referenced_from events []
      known ← row_keys (map (λ e. e.0) s.traces)
      let stubs = map stub_row (keep (λ k. not (contains k known)) referenced)
      merged ← merge_groups accepts.trace (group_by_sent s.traces) db.traces
      traces ← execute_many (insert_or_nothing accepts.trace) stubs merged
      created ←
          merge_groups accepts_observation (normalise_groups (group_by_sent s.obs_create))
            db.observations
      updated ← apply_updates s.obs_update created
      scores ← execute_many (insert_or_nothing accepts.score) s.scores db.scores
      created_keys ← row_keys (map (λ e. e.0) s.obs_create)
      updated_keys ← event_keys s.obs_update
      let touched = union created_keys updated_keys
      ok (
        record {
          traces = traces;
          observations = price price_cache touched updated;
          scores = scores;
        },
        record { observations = touched; traces = union known referenced },
      )
