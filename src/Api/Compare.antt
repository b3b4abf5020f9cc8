-- ===== src/Api/Compare.antt =====
-- `compare_runs` of agent-observability/api-server/main.py: the runs of a dataset side by side.
pub mod Items
pub mod Tenancy
use Prim.Native.Char.{Char, code}
use Prim.Native.String
use open_weave.Prelude.{
  ℕ, String, Bool, true, false, not, ◌&&◌, ◌||◌, Option, none, some, List, [], ◌∷◌, ◌++◌, map, ◌==◌,
  ltb, nat_eq, keep, length, contains, if◌then◌else◌, text_key, row_key, RowKey, is_some,
}
use open_weave.Prelude.Dict.{Dict, get, put, set_default}
use open_weave.Prelude.Result.{Result, ok, err, ◌>>=◌}
use open_weave.Python.{Value, null, float, str, Row, cell, is_null, is_empty, truthy, Python}
use open_weave.Auth.{AuthContext}
use open_weave.Auth.Header.{is_space, lstrip}
use open_weave.Api.{HttpError, bad_request, Database, decode_json}
use open_weave.Api.Sql.{
  Postgres, eq_text, of_project, same_project, aggregate, column, order_by, join, left_join,
  opt_cell, group_by,
}
use open_weave.Api.Traces.{text_of_cell, latency_of, optional_float}
use open_weave.Api.Datasets.{has_text, dataset_id, of_run}

-- `text.split(",")`: at least one part.
unfoldable pub split_commas : String → List String
split_commas String.[] = "" ∷ []
split_commas (String.◌∷◌ c s) =
    let rest = split_commas s in
    if nat_eq (code c) b','
    then "" ∷ rest
    else elim rest [ [] ↦ String.◌∷◌ c String.[] ∷ [] | w ∷ ws ↦ String.◌∷◌ c w ∷ ws ]

unfoldable pub rstrip : String → String
rstrip String.[] = String.[]
rstrip (String.◌∷◌ c s) =
    let rest = rstrip s in
    if is_empty rest && is_space (code c) then String.[] else String.◌∷◌ c rest

abbrev pub strip : String → String
strip s = rstrip (lstrip s)

-- `[r.strip() for r in runs.split(",") if r.strip()]`
unfoldable pub run_names : String → List String
run_names runs = keep (λ s. not (is_empty s)) (map strip (split_commas runs))

-- Python's float arithmetic in the deltas: `round(b - a, 4)` and `round((b - a) / a * 100, 1)`.
pub record Deltas : Type 0 where
  pub difference : ℕ → ℕ → ℕ
  pub percent : ℕ → ℕ → ℕ

-- One row of the totals, and what the answer holds of one run.
pub record Totals : Type 0 where
  pub items : ℕ
  pub avg_cost : Value
  pub total_cost : Value
  pub avg_latency_ms : Value

pub record ScoreMean : Type 0 where
  pub mean : Value
  pub n : ℕ

pub record RunEntry : Type 0 where
  pub totals : Totals
  pub scores : Dict String ScoreMean

pub record ItemRun : Type 0 where
  pub trace_id : Value
  pub scores : Dict String Value

pub record ItemEntry : Type 0 where
  pub input : Value
  pub runs : Dict String ItemRun

pub record Comparison : Type 0 where
  pub dataset : String
  pub runs : Dict String RunEntry
  pub deltas : Dict String (Dict String Value)
  pub items : Dict String ItemEntry

-- `r.project_id = $1 AND r.dataset_id = $2 AND r.name = ANY($3)`
abbrev pub is_named_run : String → String → List String → Row → Bool
is_named_run p dataset names r =
    of_project p r && has_text "dataset_id" dataset r && contains (text_of_cell "name" r) names

-- `s.project_id = ri.project_id AND (s.trace_id = ri.trace_id OR s.dataset_run_item_id = ri.id)`
abbrev pub scores_item : Row → Row → Bool
scores_item ri s =
    same_project s ri
    && (eq_text (cell "trace_id" s) (cell "trace_id" ri)
        || eq_text (cell "dataset_run_item_id" s) (cell "id" ri))

-- `o.project_id = ri.project_id AND o.trace_id = ri.trace_id`
abbrev pub of_item_trace : Row → Row → Bool
of_item_trace ri o = same_project o ri && eq_text (cell "trace_id" o) (cell "trace_id" ri)

-- The joined rows of runs and their items.
unfoldable pub linked_items : String → String → List String → Database → List (Row × Row)
linked_items p dataset names db =
    join of_run (keep (is_named_run p dataset names) db.dataset_runs) db.dataset_run_items

abbrev pub run_name : Row × Row → String
run_name j = text_of_cell "name" j.0

module _ (pg : Postgres) (db : Database) where
  abbrev pub spans_of_item : Row × Row → List Row
  spans_of_item j = keep (of_item_trace j.1) db.observations

  abbrev pub item_cost : Row × Row → Value
  item_cost j = aggregate pg.sum (column "total_cost" (spans_of_item j))

  abbrev pub item_latency : Row × Row → Value
  item_latency j = latency_of pg (spans_of_item j)

  unfoldable pub totals_of_group : List (Row × Row) → Totals
  totals_of_group js = record {
    items = length js;
    avg_cost = aggregate pg.avg (map item_cost js);
    total_cost = aggregate pg.sum (map item_cost js);
    avg_latency_ms = aggregate pg.avg (map item_latency js);
  }

-- `{n: {"items": 0, "scores": {}, …} for n in run_names}`
abbrev pub blank_run : RunEntry
blank_run = record {
  totals = record { items = 0; avg_cost = null; total_cost = null; avg_latency_ms = null };
  scores = [];
}

unfoldable pub blank_runs : List String → Dict String RunEntry → Dict String RunEntry
blank_runs [] runs = runs
blank_runs (n ∷ names) runs = blank_runs names (put n blank_run runs)

-- `runs_out[k]` changed in place; the queries give no other keys.
abbrev pub change_run_entry :
    (RunEntry → RunEntry) → String → Dict String RunEntry → Dict String RunEntry
change_run_entry change k runs = elim (get k runs) [
  | none ↦ runs
  | some entry ↦ put k (change entry) runs
]

module _ (py : Python) where
  -- The columns of one row of the totals, where they are not NULL.
  abbrev pub set_totals : Totals → RunEntry → RunEntry
  set_totals t entry = record entry {
    totals = record {
      items = t.items;
      avg_cost = optional_float py t.avg_cost;
      total_cost = if is_null t.avg_cost then null else optional_float py t.total_cost;
      avg_latency_ms = optional_float py t.avg_latency_ms;
    };
  }

  module _ (pg : Postgres) (db : Database) where
    unfoldable pub add_totals :
        List (String × List (Row × Row)) → Dict String RunEntry → Dict String RunEntry
    add_totals [] runs = runs
    add_totals ((k, js) ∷ groups) runs =
        add_totals groups (change_run_entry (set_totals (totals_of_group pg db js)) k runs)

  -- `GROUP BY r.name, s.name`
  abbrev pub score_key : (Row × Row) × Row → RowKey
  score_key (j, s) = (run_name j, text_of_cell "name" s)

  abbrev pub score_mean : Postgres → List ((Row × Row) × Row) → ScoreMean
  score_mean pg rows = record {
    mean = optional_float py (aggregate pg.avg (map (λ e. cell "value" e.1) rows));
    n = length rows;
  }

  unfoldable pub add_scores :
      Postgres
      → List (RowKey × List ((Row × Row) × Row))
      → Dict String RunEntry
      → Dict String RunEntry
  add_scores pg [] runs = runs
  add_scores pg (((run, name), rows) ∷ groups) runs = add_scores pg groups (
      change_run_entry
        (λ entry. record entry { scores = put name (score_mean pg rows) entry.scores }) run runs)

  -- One row of the query on items: its run item with its run, the item, and a score if there is one.
  abbrev pub blank_item : Row → ItemEntry
  blank_item di = record { input = decode_json py (cell "input" di); runs = [] }

  abbrev pub blank_item_run : Row → ItemRun
  blank_item_run ri = record { trace_id = cell "trace_id" ri; scores = [] }

  abbrev pub add_score : Option Row → ItemRun → ItemRun
  add_score s run =
      if truthy (opt_cell "name" s)
      then record run {
        scores =
            put (elim s [ none ↦ "" | some r ↦ text_of_cell "name" r ])
              (optional_float py (opt_cell "value" s)) run.scores;
      }
      else run

  abbrev pub get_or {ℓ} : {V : Type ℓ} → V → Option V → V
  get_or v none = v
  get_or v (some w) = w

  unfoldable pub add_item_row :
      ((Row × Row) × Row) × Option Row → Dict String ItemEntry → Dict String ItemEntry
  add_item_row (((r, ri), di), s) per_item =
      let id = text_of_cell "id" di in
      let run = text_of_cell "name" r in
      let entry = get_or (blank_item di) (get id per_item) in
      let run_entry = get_or (blank_item_run ri) (get run entry.runs) in
      put id (record entry { runs = put run (add_score s run_entry) entry.runs }) per_item

  unfoldable pub add_items :
      List (((Row × Row) × Row) × Option Row) → Dict String ItemEntry → Dict String ItemEntry
  add_items [] per_item = per_item
  add_items (row ∷ rows) per_item = add_items rows (add_item_row row per_item)

-- `di.project_id = ri.project_id AND di.id = ri.dataset_item_id`
abbrev pub item_of : Row × Row → Row → Bool
item_of j di = same_project di j.1 && eq_text (cell "id" di) (cell "dataset_item_id" j.1)

abbrev pub item_order :
    Postgres → (((Row × Row) × Row) × Option Row) → (((Row × Row) × Row) × Option Row) → Bool
item_order pg a b = not (pg.less (cell "created_at" b.0.1) (cell "created_at" a.0.1))

-- The deltas of one run to the baseline.
module _ (ops : Deltas) where
  abbrev pub mean_of : String → RunEntry → Value
  mean_of name entry = elim (get name entry.scores) [ none ↦ null | some m ↦ m.mean ]

  abbrev pub put_difference : String → Value → Value → Dict String Value → Dict String Value
  put_difference name (float a) (float b) diff = put name (float (ops.difference a b)) diff
  put_difference name a b diff = diff

  unfoldable pub score_deltas :
      Dict String ScoreMean → RunEntry → Dict String Value → Dict String Value
  score_deltas [] other diff = diff
  score_deltas ((name, m) ∷ scores) other diff =
      score_deltas scores other (put_difference name m.mean (mean_of name other) diff)

  abbrev pub put_percent : Value → Value → Dict String Value → Dict String Value
  put_percent (float a) (float b) diff =
      if truthy (float a) && truthy (float b)
      then put "avg_cost_pct" (float (ops.percent a b)) diff
      else diff
  put_percent a b diff = diff

  unfoldable pub delta : RunEntry → RunEntry → Dict String Value
  delta baseline other =
      put_percent baseline.totals.avg_cost other.totals.avg_cost
        (score_deltas baseline.scores other [])

  abbrev pub entry_of_run : String → Dict String RunEntry → RunEntry
  entry_of_run k runs = elim (get k runs) [ none ↦ blank_run | some e ↦ e ]

  unfoldable pub deltas_from :
      String
      → List String
      → Dict String RunEntry
      → Dict String (Dict String Value)
      → Dict String (Dict String Value)
  deltas_from baseline [] runs deltas = deltas
  deltas_from baseline (other ∷ rest) runs deltas = deltas_from baseline rest runs (
      put (String.◌++◌ other (String.◌++◌ " vs " baseline))
        (delta (entry_of_run baseline runs) (entry_of_run other runs)) deltas)

abbrev pub all_deltas :
    Deltas → List String → Dict String RunEntry → Dict String (Dict String Value)
all_deltas ops [] runs = []
all_deltas ops (baseline ∷ rest) runs = deltas_from ops baseline rest runs []

module _ (py : Python) (pg : Postgres) where
  -- `runs_out` when both queries are read.
  unfoldable pub runs_out : String → String → List String → Database → Dict String RunEntry
  runs_out p dataset names db =
      let linked = linked_items p dataset names db in
      let scored = join (λ j s. scores_item j.1 s) linked db.scores in
      add_scores py pg (group_by (score_key py) scored)
        (add_totals py pg db (group_by run_name linked) (blank_runs names []))

  unfoldable pub per_item : String → String → List String → Database → Dict String ItemEntry
  per_item p dataset names db =
      let linked = linked_items p dataset names db in
      let with_items = join item_of linked db.dataset_items in
      let rows = left_join (λ e s. scores_item e.0.1 s) with_items db.scores in
      add_items py (order_by (item_order pg) rows) []

module _ (py : Python) (pg : Postgres) (ops : Deltas) where
  unfoldable pub comparison : String → String → String → List String → Database → Comparison
  comparison p dataset name names db =
      let runs = runs_out py pg p dataset names db in
      record {
        dataset = name;
        runs = runs;
        deltas = all_deltas ops names runs;
        items = per_item py pg p dataset names db;
      }

  unfoldable pub compare_runs :
      String → String → AuthContext → Database → Result HttpError Comparison
  compare_runs name runs ctx db = dataset_id ctx.project_id name db >>= λ dataset.
      let names = run_names runs in
      if ltb (length names) 2
      then err (bad_request "pass at least two run names")
      else ok (comparison ctx.project_id dataset name names db)
