-- ===== src/Tests/Api.antt =====
-- The theorems on the API at concrete inputs.
use open_weave.Prelude.{
  String, Bool, true, false, ◌≡◌, refl, sym, subst, ◌⊎◌, ◌↔◌, ◌||◌, inl, inr, none, some, List, [],
  ◌∷◌, ◌++◌, arith, if◌then◌else◌, text_key, ◌==◌, In, keep, map, take, drop, length, contains,
  Bool-cases,
}
use open_weave.Prelude.Int.{pos}
use open_weave.Prelude.Result.{ok, ◌>>=◌}
use open_weave.Prelude.Dict.{get}
use open_weave.Python.{Value, null, bool, int, str, time, obj, field, end, Row}
use open_weave.Auth.{AuthContext}
use open_weave.Auth.Header.{lstrip, is_space}
use open_weave.Auth.Verifier.{Faults, AuthLibrary, verify}
use open_weave.Api.{
  Database, App, find_project, no_credentials, demo_context, lookup_demo, auth_demo, auth,
}
use open_weave.Api.Sql.{insert_row, left_join, Postgres, owned, order_by}
use open_weave.Api.Access.{auth-eq-ok}
use open_weave.Api.Traces.{Query, rollup, not_older, trace_rows, list_traces, object}
use open_weave.Api.Traces.Filters.{matches, trace_rows-matches}
use open_weave.Api.Tree.{
  keys, index_rows, assemble, by_start, by_trace, costs_of, total_of, score_entry, TraceView,
  view_of, get_trace, trace_answer,
}
use open_weave.Api.Tree.Placing.{parent_in}
use open_weave.Api.Tree.Once.{listed, has_span, listed-assemble}
use open_weave.Api.Tree.Shown.{Shown, Anchored, assemble-shows, not-Shown_loop}
use open_weave.Api.Tree.Finite.{trace_answer-get_trace}
use open_weave.Api.Datasets.{
  DatasetIn, DatasetItemIn, RunIn, RunItemIn, dataset_id, upsert, create_dataset, item_row,
  put_item, add_item, add_item_from_trace, run_row, create_run, put_link, link_run_item,
  list_datasets, list_items, list_runs,
}
use open_weave.Api.Datasets.Flow.{link_run_item-create_run}
use open_weave.Api.Datasets.RoundTrip.{listed_item, list_items-add_item}
use open_weave.Api.Datasets.Tenancy.{others, after, others-writes}
use open_weave.Api.Compare.{
  Deltas, linked_items, run_name, runs_out, comparison, rstrip, compare_runs,
}
use open_weave.Sdk.Comparing.{NoComma, ArePlain, runs_text, compare_runs-runs_text}
use open_weave.Api.Compare.Items.{totals_at, run_totals, totals_at-runs_out}
use open_weave.Api.Metrics.{is_filtered, daily_metrics}
use open_weave.Api.Metrics.Days.{traces_by_day, traces_by_day-daily_metrics}
use open_weave.Api.Tree.Tenancy.{VersionsOwn}
use open_weave.Api.Tenancy.{reads-owned}
use open_weave.Tests.Library.{py}

abbrev pg : Postgres
pg = record {
  less = λ a b. false;
  sum = λ vs. int (pos 1);
  avg = λ vs. int (pos 2);
  max = λ vs. time 9;
  min = λ vs. time 1;
  millis = λ a b. int (pos 8);
  date_trunc = λ v. 1;
  jsonb = λ s. s;
  object_agg = λ es. "{}";
}

abbrev ctx : AuthContext
ctx = record { project_id = "p1"; api_key_id = "k1" }

abbrev row : String → String → List (String × Value) → Row
row project id rest = ("project_id", str project) ∷ ("id", str id) ∷ rest

abbrev span : String → String → Value → Row
span project id parent =
    row project id
      (("trace_id", str "t1") ∷ ("parent_observation_id", parent) ∷ ("start_time", time 1) ∷ [])

-- A root with a child, an orphan, two spans that name each other, and a span of another project.
abbrev spans : List Row
spans =
    span "p1" "a" null
    ∷ span "p1" "b" (str "a")
    ∷ span "p1" "c" (str "late")
    ∷ span "p1" "d" (str "e")
    ∷ span "p1" "e" (str "d")
    ∷ []

abbrev db : Database
db = record {
  projects = (("id", str "p2") ∷ ("name", str "demo") ∷ []) ∷ [];
  traces =
      row "p1" "t1"
        (("name", str "chat") ∷ ("timestamp", time 5) ∷ ("is_experiment", bool false) ∷ [])
      ∷ row "p2" "t1" (("name", str "chat") ∷ ("timestamp", time 6) ∷ [])
      ∷ [];
  observations = spans;
  scores = row "p1" "s1" (("trace_id", str "t1") ∷ ("evaluator_version_id", str "e1") ∷ []) ∷ [];
  evaluator_versions = row "p1" "e1" [] ∷ row "p2" "e2" [] ∷ [];
  datasets = row "p1" "d1" (("name", str "qa") ∷ []) ∷ [];
  dataset_items = [];
  dataset_runs =
      row "p1" "r1" (("dataset_id", str "d1") ∷ ("name", str "v7") ∷ [])
      ∷ row "p1" "r2" (("dataset_id", str "d1") ∷ ("name", str "v8") ∷ [])
      ∷ [];
  dataset_run_items =
      row "p1" "x1"
        (("dataset_run_id", str "r1") ∷ ("dataset_item_id", str "i1") ∷ ("trace_id", str "t1") ∷ [])
      ∷ [];
}

abbrev query : Query
query = record {
  name = some "chat";
  user_id = none;
  session_id = none;
  release = none;
  is_experiment = some false;
  since = some 3;
  limit = 10;
  offset = 0;
}

abbrev ops : Deltas
ops = record { difference = λ a b. 0; percent = λ a b. 0 }

db-VersionsOwn : VersionsOwn "p1" db
unfolding get
db-VersionsOwn = ((λ h. ((λ k. refl), ((λ k. k), tt))), tt)

reads-owned_example :
    (list_traces py pg ctx query db ≡ list_traces py pg ctx query (owned "p1" db))
    × (get_trace py pg "qa" ctx db ≡ get_trace py pg "qa" ctx (owned "p1" db))
    × (list_datasets py pg ctx db ≡ list_datasets py pg ctx (owned "p1" db))
    × (list_items py pg "qa" 9 ctx db ≡ list_items py pg "qa" 9 ctx (owned "p1" db))
    × (list_runs py pg "qa" ctx db ≡ list_runs py pg "qa" ctx (owned "p1" db))
    × (compare_runs py pg ops "qa" "v7,v8" ctx db
        ≡ compare_runs py pg ops "qa" "v7,v8" ctx (owned "p1" db))
    × (daily_metrics pg py 9 14 none ctx db ≡ daily_metrics pg py 9 14 none ctx (owned "p1" db))
reads-owned_example = reads-owned py pg ops ctx db query "qa" "v7,v8" 9 14 none db-VersionsOwn

abbrev dataset_in : DatasetIn
dataset_in = record { name = "qa"; description = some "questions"; metadata = null }

-- What the library's `loads` reads.
abbrev json_value : Value
json_value = obj (field "id" (str "e1") end)

abbrev item_in : DatasetItemIn
item_in = record {
  input = json_value;
  expected_output = json_value;
  metadata = json_value;
  source_trace_id = none;
  id = some "i1";
}

abbrev run_in : RunIn
run_in = record { name = "v9"; description = none; metadata = null }

abbrev link_in : RunItemIn
link_in = record { dataset_item_id = "i1"; trace_id = "t1"; observation_id = none }

others-writes_example :
    (others "p1" (create_dataset py pg "u1" 7 dataset_in ctx db).1 ≡ others "p1" db)
    × (others "p1" (after db (add_item py pg "u1" 7 "qa" item_in ctx db)) ≡ others "p1" db)
    × (others "p1" (after db (add_item_from_trace py pg "u1" 7 "qa" "v7" ctx db)) ≡ others "p1" db)
    × (others "p1" (after db (create_run py pg "u1" 7 "qa" run_in ctx db)) ≡ others "p1" db)
    × (others "p1" (after db (link_run_item py pg "u1" 7 "qa" "v7" link_in ctx db))
        ≡ others "p1" db)
others-writes_example =
    others-writes py pg "u1" 7 ctx db "qa" "v7" dataset_in item_in run_in link_in

abbrev db_run : Database
db_run = record db { dataset_runs = db.dataset_runs ++ run_row py pg "u1" 7 "p1" "d1" run_in ∷ [] }

link_run_item-create_run_example :
    (run : Row) × (link_run_item py pg "u2" 8 "qa" "v9" link_in ctx db_run
      ≡ ok (put_link py pg "u2" 8 link_in ctx run db_run))
unfolding create_run dataset_id get upsert
link_run_item-create_run_example =
    link_run_item-create_run py pg "u1" 7 "qa" run_in ctx db db_run
      (object (("id", str "u1") ∷ ("name", str "v9") ∷ [])) refl "u2" 8 link_in

abbrev db_item : Database
db_item = record db { dataset_items = item_row py pg "u1" 7 "p1" "d1" item_in ∷ [] }

list_items-add_item_example :
    (items : List Value) × (list_items py pg "qa" 500 ctx db_item ≡ ok items)
    × In (listed_item "i1" item_in) items
unfolding add_item dataset_id get put_item upsert
list_items-add_item_example =
    list_items-add_item py pg "u1" 7 "qa" item_in ctx db db_item (object (("id", str "i1") ∷ []))
      500 refl refl refl refl refl (omega arith)

trace_rows-matches_example :
    trace_rows pg ctx query db
    ≡ take 10 (
        drop 0 (
          order_by
            (not_older pg)
            (keep (λ j. matches ctx query j.0) (map (λ t. (t, rollup pg db t)) db.traces))))
trace_rows-matches_example = trace_rows-matches pg ctx query db

listed-assemble_example : listed "b" (assemble spans) ≡ (if has_span "b" spans then 1 else 0)
listed-assemble_example = listed-assemble spans "b"

assemble-shows_example : Shown (assemble spans) "b" ↔ Anchored (parent_in spans) "b"
assemble-shows_example = assemble-shows spans "b"

-- The two spans that name each other.
abbrev loop : String → Bool
loop k = k == "d" || k == "e"

loop_closed :
    (k : String)
    → loop k ≡ true
    → (p : String) × (parent_in spans k ≡ some (some p)) × (loop p ≡ true)
unfolding get
loop_closed k h = elim (Bool-cases (k == "d")) [
  | inl e ↦
      let same : "d" ≡ k = sym ((text_key.same_iff k "d").0 e) in
      ("e", subst (λ x. parent_in spans x ≡ some (some "e")) same refl, refl)
  | inr n ↦
      let same : "e" ≡ k = sym ((text_key.same_iff k "e").0 (ground arith)) in
      ("d", subst (λ x. parent_in spans x ≡ some (some "d")) same refl, refl)
]

not-Shown_loop_example :
    (contains "d" (keys (index_rows spans)) ≡ true) × (¬ Shown (assemble spans) "d")
not-Shown_loop_example = not-Shown_loop spans loop loop_closed "d" refl

abbrev view : TraceView
view =
    let forest = assemble (order_by (by_start py pg) (keep (by_trace "p1" "t1") spans)) in
    record {
      trace =
          row "p1" "t1"
            (("name", str "chat") ∷ ("timestamp", time 5) ∷ ("is_experiment", bool false) ∷ []);
      span_count = length forest.nodes;
      total_cost = total_of py (costs_of py forest.nodes);
      forest = forest;
      scores = map score_entry (
          (
            row "p1" "s1" (("trace_id", str "t1") ∷ ("evaluator_version_id", str "e1") ∷ []),
            some (row "p1" "e1" []),
          )
          ∷ []);
    }

trace_answer-get_trace_example : (a : Value) × (trace_answer py view ≡ some a)
unfolding get_trace view_of get order_by left_join insert_row
trace_answer-get_trace_example = trace_answer-get_trace py pg "t1" ctx db view refl

totals_at-runs_out_example :
    totals_at "v7" (runs_out py pg "p1" "d1" ("v7" ∷ "v8" ∷ []) db)
    ≡ some (
        run_totals py pg db
          (keep (λ j. run_name j == "v7") (linked_items "p1" "d1" ("v7" ∷ "v8" ∷ []) db)))
totals_at-runs_out_example = totals_at-runs_out py pg db "p1" "d1" ("v7" ∷ "v8" ∷ []) "v7" refl

abbrev names : List String
names = "v7" ∷ "v8" ∷ []

names-ArePlain : ArePlain names
unfolding lstrip rstrip is_space
names-ArePlain = ((refl, refl, whole), ((refl, refl, whole'), tt))
  where
    whole : NoComma "v7"
    whole = ((λ h. omega (arith, h)), ((λ h. omega (arith, h)), tt))

    whole' : NoComma "v8"
    whole' = ((λ h. omega (arith, h)), ((λ h. omega (arith, h)), tt))

compare_runs-runs_text_example : compare_runs py pg ops "qa" (runs_text names) ctx db ≡ (
    dataset_id ctx.project_id "qa" db >>= λ d.
    ok (comparison py pg ops ctx.project_id d "qa" names db))
compare_runs-runs_text_example =
    compare_runs-runs_text py pg ops "qa" names ctx db names-ArePlain (omega arith)

traces_by_day-daily_metrics_example :
    (traces_by_day (daily_metrics pg py 9 14 none ctx db).rows
      ≡ (daily_metrics pg py 9 14 none ctx db).summary.traces)
    × ((daily_metrics pg py 9 14 none ctx db).summary.traces
        ≡ length (keep (is_filtered "p1" 9 14 none) db.traces))
unfolding get
traces_by_day-daily_metrics_example = traces_by_day-daily_metrics pg py 9 14 none ctx db (refl, tt)

abbrev lib : AuthLibrary
lib = record {
  decode = λ s. none;
  sha256 = λ s. s;
  salt = "salt";
  dumps = λ e. "";
  loads = λ s. none;
  is_no_object = λ s. false;
  isoformat = λ t. "";
  fromisoformat = λ s. 0;
}

abbrev no_faults : Faults
no_faults = record { read_fails = false; delete_fails = false; write_fails = false }

abbrev app : App
app = record {
  verifier = record {
    keys = [];
    redis = none;
    stats = record { cache_hit = 0; cache_miss = 0; reject = 0 };
  };
  demo_project_id = none;
  db = db;
}

auth-eq-ok_example :
    ((no_credentials none ≡ false)
      × ((verify lib no_faults 5 none app.verifier).0 ≡ ok (demo_context "p2")))
    ⊎ ((no_credentials none ≡ true) × (find_project "demo" app.db.projects ≡ some "p2"))
unfolding auth auth_demo lookup_demo find_project get
auth-eq-ok_example = auth-eq-ok lib no_faults 5 "demo" none app (λ p e. cc) refl
