-- ===== src/Api/Tree.antt =====
-- `get_trace` of agent-observability/api-server/main.py: the spans of a trace as a tree. The nodes
-- are objects that a dictionary, a list of roots and the lists of children share; here the dictionary
-- is the store, and the lists hold ids.
pub mod Placing
pub mod Once
pub mod Shown
pub mod Finite
pub mod Tenancy
use open_weave.Prelude.{
  ℕ, zero, suc, String, Bool, true, false, not, ◌&&◌, ◌||◌, Option, none, some, List, [], ◌∷◌, ◌++◌,
  map, keep, length, if◌then◌else◌, text_key, is_some,
}
use open_weave.Prelude.Int.{pos}
use open_weave.Prelude.Dict.{Dict, get, put}
use open_weave.Prelude.Result.{Result, ok, err}
use open_weave.Python.{
  Value, null, bool, int, float, str, Row, cell, is_null, truthy, Python, to_float,
}
use open_weave.Auth.{AuthContext}
use open_weave.Api.{HttpError, not_found, Database, decode_json}
use open_weave.Api.Sql.{Postgres, eq_text, of_project, order_by, first, left_join, opt_cell}
use open_weave.Api.Traces.{of_trace, text_of_cell, optional_float, object, array, copied}

pub record Node : Type 0 where
  pub row : Row
  pub parent : Option String
  pub parent_missing : Bool
  pub children : List String

abbrev pub optional_text : Value → Option String
optional_text (str s) = some s
optional_text _ = none

unfoldable pub node_of : Row → Node
node_of row = record {
  row = row;
  parent = optional_text (cell "parent_observation_id" row);
  parent_missing = false;
  children = [];
}

-- `nodes[row["id"]] = {…}` for every row.
unfoldable pub index_from : List Row → Dict String Node → Dict String Node
index_from [] nodes = nodes
index_from (row ∷ rows) nodes = index_from rows (put (text_of_cell "id" row) (node_of row) nodes)

unfoldable pub index_rows : List Row → Dict String Node
index_rows rows = index_from rows []

pub record Forest : Type 0 where
  pub nodes : Dict String Node
  pub roots : List String

-- `node["parent_missing"] = node["parent_id"] is not None; roots.append(node)`
abbrev pub add_root : String → Node → Forest → Forest
add_root id node f = record {
  nodes = put id (record node { parent_missing = is_some node.parent }) f.nodes;
  roots = f.roots ++ id ∷ [];
}

-- `parent["children"].append(node)`
abbrev pub add_child : String → Node → String → Forest → Forest
add_child p parent id f = record f {
  nodes = put p (record parent { children = parent.children ++ id ∷ [] }) f.nodes;
}

-- The body of the loop once `nodes.get(node["parent_id"])` is at hand; no key is None.
unfoldable pub attach : String → Node → Option String → Forest → Forest
attach id node none f = add_root id node f
attach id node (some p) f = elim (get p f.nodes) [
  | none ↦ add_root id node f
  | some parent ↦ add_child p parent id f
]

unfoldable pub place_one : String → Forest → Forest
place_one id f = elim (get id f.nodes) [ none ↦ f | some node ↦ attach id node node.parent f ]

-- `for node in nodes.values()`, by the ids.
unfoldable pub place : List String → Forest → Forest
place [] f = f
place (id ∷ ids) f = place ids (place_one id f)

abbrev pub keys : Dict String Node → List String
keys [] = []
keys ((k, n) ∷ d) = k ∷ keys d

unfoldable pub assemble : List Row → Forest
assemble rows =
    let nodes = index_rows rows in place (keys nodes) (record { nodes = nodes; roots = [] })

-- `sum(n["total_cost"] or 0 …) or None`: an absent cost adds nothing.
abbrev pub costs_of : Python → Dict String Node → List ℕ
costs_of py [] = []
costs_of py ((k, n) ∷ d) =
    let rest = costs_of py d in
    elim (optional_float py (cell "total_cost" n.row)) [ float bits ↦ bits ∷ rest | _ ↦ rest ]

abbrev pub total_of : Python → List ℕ → Value
total_of py [] = null
total_of py (c ∷ cs) =
    let total = float (py.sum_floats (c ∷ cs)) in if truthy total then total else null

pub record TraceView : Type 0 where
  pub trace : Row
  pub span_count : ℕ
  pub total_cost : Value
  pub forest : Forest
  pub scores : List Value

-- `project_id = $1 AND id = $2`, and `project_id = $1 AND trace_id = $2`
abbrev pub by_id : String → String → Row → Bool
by_id p id r = of_project p r && eq_text (cell "id" r) (str id)

abbrev pub by_trace : String → String → Row → Bool
by_trace p id r = of_project p r && eq_text (cell "trace_id" r) (str id)

-- `e.id = s.evaluator_version_id`
abbrev pub is_version : Row → Row → Bool
is_version s e = eq_text (cell "id" e) (cell "evaluator_version_id" s)

abbrev pub score_entry : Row × Option Row → Value
score_entry (s, e) = object (
    copied s (
      "id" ∷ "name" ∷ "value" ∷ "string_value" ∷ "data_type" ∷ "source" ∷ "comment"
      ∷ "observation_id" ∷ "timestamp" ∷ [])
    ++ ("evaluator_version", opt_cell "version" e) ∷ [])

module _ (py : Python) (pg : Postgres) where
  -- ORDER BY start_time, id
  abbrev pub by_start : Row → Row → Bool
  by_start a b =
      pg.less (cell "start_time" a) (cell "start_time" b)
      || not (pg.less (cell "start_time" b) (cell "start_time" a))
        && not (pg.less (cell "id" b) (cell "id" a))

  abbrev pub score_order : Row × Option Row → Row × Option Row → Bool
  score_order a b = not (pg.less (cell "timestamp" b.0) (cell "timestamp" a.0))

  -- The answer from the trace, its spans and its scores, and the versions of evaluators.
  unfoldable pub view_of : Option Row → List Row → List Row → List Row → Result HttpError TraceView
  view_of none spans scores versions = err (not_found "trace not found")
  view_of (some trace) spans scores versions =
      let forest = assemble (order_by by_start spans) in
      ok (record {
        trace = trace;
        span_count = length forest.nodes;
        total_cost = total_of py (costs_of py forest.nodes);
        forest = forest;
        scores = map score_entry (order_by score_order (left_join is_version scores versions));
      })

  unfoldable pub get_trace : String → AuthContext → Database → Result HttpError TraceView
  get_trace trace_id ctx db =
      let p = ctx.project_id in
      view_of (first (keep (by_id p trace_id) db.traces))
        (keep (by_trace p trace_id) db.observations) (keep (by_trace p trace_id) db.scores)
        db.evaluator_versions

-- The answer as JSON. A span is written with its children below it, as far as `fuel` levels.
abbrev pub node_fields : Python → Node → List (String × Value)
node_fields py n =
    ("id", cell "id" n.row)
      ∷ ("parent_id", cell "parent_observation_id" n.row)
      ∷ copied n.row (
          "type" ∷ "name" ∷ "start_time" ∷ "end_time" ∷ "latency_ms" ∷ "time_to_first_token_ms"
          ∷ "level" ∷ "status_message" ∷ "input" ∷ "output" ∷ [])
    ++ ("model", cell "provided_model_name" n.row)
      ∷ ("usage_details", decode_json py (cell "usage_details" n.row))
      ∷ ("cost_details", decode_json py (cell "cost_details" n.row))
      ∷ ("total_cost", optional_float py (cell "total_cost" n.row))
      ∷ ("metadata", decode_json py (cell "metadata" n.row))
      ∷ ("parent_missing", bool n.parent_missing)
      ∷ []

unfoldable pub render_all : (String → Option Value) → List String → Option (List Value)
render_all render_node [] = some []
render_all render_node (id ∷ ids) = elim (render_node id) [
  | none ↦ none
  | some v ↦ elim (render_all render_node ids) [ none ↦ none | some vs ↦ some (v ∷ vs) ]
]

unfoldable pub render_node : Python → ℕ → Dict String Node → String → Option Value
render_node py zero nodes id = none
render_node py (suc fuel) nodes id = elim (get id nodes) [
  | none ↦ none
  | some n ↦ elim (render_all (render_node py fuel nodes) n.children) [
    | none ↦ none
    | some vs ↦ some (object (node_fields py n ++ ("children", array vs) ∷ []))
  ]
]

unfoldable pub trace_answer : Python → TraceView → Option Value
trace_answer py v =
    elim (render_all (render_node py (length v.forest.nodes) v.forest.nodes) v.forest.roots) [
      | none ↦ none
      | some spans ↦ some (
          object (
            copied v.trace (
              "id" ∷ "name" ∷ "user_id" ∷ "session_id" ∷ "timestamp" ∷ "release" ∷ "version"
              ∷ "tags" ∷ "is_experiment" ∷ "input" ∷ "output" ∷ [])
            ++ ("metadata", decode_json py (cell "metadata" v.trace))
              ∷ ("span_count", int (pos v.span_count))
              ∷ ("total_cost", v.total_cost)
              ∷ ("observations", array spans)
              ∷ ("scores", array v.scores)
              ∷ []))
    ]
