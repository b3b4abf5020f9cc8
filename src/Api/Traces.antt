-- ===== src/Api/Traces.antt =====
-- `list_traces` of agent-observability/api-server/main.py: a WHERE clause and its parameters, built
-- filter by filter, and the rollups of a trace.
pub mod Filters
pub mod Tenancy
use open_weave.Prelude.{
  ℕ, zero, suc, ◌+◌, ◌-◌, String, Bool, true, false, not, ◌&&◌, Option, none, some, List, [], ◌∷◌,
  ◌++◌, map, ◌==◌, leb, all, keep, take, drop, length, if◌then◌else◌, text_key,
}
use open_weave.Prelude.Int.{ℤ, pos}
use open_weave.Prelude.Result.{ok, err}
use open_weave.Prelude.Dict.{put}
use open_weave.Python.{
  Value, null, bool, int, float, str, time, obj, arr, nil, cons, Items, to_fields, Row, cell,
  is_null, Python, to_float,
}
use open_weave.Auth.{AuthContext}
use open_weave.Api.{Database, decode_json}
use open_weave.Api.Sql.{Postgres, eq_text, same_project, aggregate, column, order_by, group_by}

-- The query string of the request.
pub record Query : Type 0 where
  pub name : Option String
  pub user_id : Option String
  pub session_id : Option String
  pub release : Option String
  pub is_experiment : Option Bool
  pub since : Option ℕ
  pub limit : ℕ
  pub offset : ℕ

-- A condition `t.column = $position`, or `t.column >= $position`.
pub data Operator : Type 0 where
  equals at_least : Operator

pub record Condition : Type 0 where
  pub column : String
  pub operator : Operator
  pub position : ℕ

-- `$k` counts from 1.
abbrev pub parameter : ℕ → List Value → Option Value
parameter k [] = none
parameter zero (v ∷ vs) = none
parameter (suc zero) (v ∷ vs) = some v
parameter (suc (suc k)) (v ∷ vs) = parameter (suc k) vs

-- `=` and `>=` of SQL on the types of these columns; a comparison with NULL is not true.
abbrev pub compare_values : Operator → Value → Value → Bool
compare_values equals (bool a) (bool b) = if a then b else not b
compare_values equals a b = eq_text a b
compare_values at_least (time a) (time b) = leb b a
compare_values at_least a b = false

unfoldable pub holds : List Value → Row → Condition → Bool
holds params t c = elim (parameter c.position params) [
  | none ↦ false
  | some v ↦ compare_values c.operator (cell c.column t) v
]

-- `params.append(value); conditions.append(f"… ${len(params)}")`, if the value is given.
unfoldable pub add_condition :
    String → Operator → Option Value → List Condition × List Value → List Condition × List Value
add_condition column operator none built = built
add_condition column operator (some v) (conditions, params) = (
  conditions ++ record { column = column; operator = operator; position = length params + 1 } ∷ [],
  params ++ v ∷ [],
)

abbrev pub optional {ℓ} : {A : Type ℓ} → (A → Value) → Option A → Option Value
optional f none = none
optional f (some a) = some (f a)

-- The conditions and the parameters, up to `params.extend`.
unfoldable pub where_clause : AuthContext → Query → List Condition × List Value
where_clause ctx q =
    let start : List Condition × List Value = (
      record { column = "project_id"; operator = equals; position = 1 } ∷ [],
      str ctx.project_id ∷ [],
    ) in
    let named = add_condition "name" equals (optional str q.name) start in
    let by_user = add_condition "user_id" equals (optional str q.user_id) named in
    let in_session = add_condition "session_id" equals (optional str q.session_id) by_user in
    let released = add_condition "release" equals (optional str q.release) in_session in
    let split = add_condition "is_experiment" equals (optional bool q.is_experiment) released in
    add_condition "timestamp" at_least (optional time q.since) split

-- The value of LIMIT or OFFSET.
abbrev pub count_parameter : ℕ → List Value → ℕ
count_parameter k params = elim (parameter k params) [ some (int (pos n)) ↦ n | _ ↦ 0 ]

-- What the two LATERAL subqueries give for one trace.
pub record Rollup : Type 0 where
  pub span_count : ℕ
  pub total_cost : Value
  pub latency_ms : Value
  pub scores : Value

-- `x.project_id = t.project_id AND x.trace_id = t.id`
abbrev pub of_trace : Row → Row → Bool
of_trace t x = same_project x t && eq_text (cell "trace_id" x) (cell "id" t)

abbrev pub text_of_cell : String → Row → String
text_of_cell c r = elim (cell c r) [ str s ↦ s | _ ↦ "" ]

module _ (pg : Postgres) where
  -- `EXTRACT(EPOCH FROM (max(end_time) - min(start_time))) * 1000`
  abbrev pub latency_of : List Row → Value
  latency_of spans =
      let last = aggregate pg.max (column "end_time" spans) in
      let start = aggregate pg.min (column "start_time" spans) in
      if is_null last then null else if is_null start then null else pg.millis last start

  -- `SELECT name, avg(value) … GROUP BY name`
  abbrev pub score_means : List Row → List (Value × Value)
  score_means scores =
      map (λ g. (str g.0, aggregate pg.avg (column "value" g.1)))
        (group_by (text_of_cell "name") scores)

  -- `jsonb_object_agg`, NULL over no row.
  abbrev pub agg_object : List (Value × Value) → Value
  agg_object [] = null
  agg_object (e ∷ es) = str (pg.object_agg (e ∷ es))

  unfoldable pub rollup : Database → Row → Rollup
  rollup db t =
      let spans = keep (of_trace t) db.observations in
      let scores = keep (of_trace t) db.scores in
      record {
        span_count = length spans;
        total_cost = aggregate pg.sum (column "total_cost" spans);
        latency_ms = latency_of spans;
        scores = agg_object (score_means scores);
      }

  -- ORDER BY t.timestamp DESC
  abbrev pub not_older : Row × Rollup → Row × Rollup → Bool
  not_older a b = not (pg.less (cell "timestamp" a.0) (cell "timestamp" b.0))

  -- The rows of the query.
  unfoldable pub trace_rows : AuthContext → Query → Database → List (Row × Rollup)
  trace_rows ctx q db =
      let (conditions, filters) = where_clause ctx q in
      let params = filters ++ int (pos q.limit) ∷ int (pos q.offset) ∷ [] in
      let joined = map (λ t. (t, rollup db t)) db.traces in
      let found = keep (λ j. all (holds params j.0) conditions) joined in
      let sorted = order_by not_older found in
      take (count_parameter (length params - 1) params)
        (drop (count_parameter (length params) params) sorted)

-- `float(value) if value is not None else None` of a numeric column.
abbrev pub optional_float : Python → Value → Value
optional_float py v =
    if is_null v then null else elim (to_float py v) [ ok bits ↦ float bits | err e ↦ null ]

abbrev pub to_items : List Value → Items
to_items [] = nil
to_items (v ∷ vs) = cons v (to_items vs)

abbrev pub object : List (String × Value) → Value
object fs = obj (to_fields fs)

abbrev pub array : List Value → Value
array vs = arr (to_items vs)

abbrev pub copied : Row → List String → List (String × Value)
copied r cs = map (λ c. (c, cell c r)) cs

-- One element of "data".
unfoldable pub trace_entry : Python → Row × Rollup → Value
trace_entry py (t, r) = object (
    copied t (
      "id" ∷ "name" ∷ "user_id" ∷ "session_id" ∷ "timestamp" ∷ "release" ∷ "version" ∷ "tags"
      ∷ "is_experiment" ∷ "input" ∷ "output" ∷ [])
    ++ ("span_count", int (pos r.span_count))
      ∷ ("total_cost", optional_float py r.total_cost)
      ∷ ("latency_ms", r.latency_ms)
      ∷ ("scores", decode_json py r.scores)
      ∷ [])

unfoldable pub list_traces : Python → Postgres → AuthContext → Query → Database → Value
list_traces py pg ctx q db =
    object (("data", array (map (trace_entry py) (trace_rows pg ctx q db))) ∷ [])
