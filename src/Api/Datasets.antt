-- ===== src/Api/Datasets.antt =====
-- Datasets, their items and their runs in agent-observability/api-server/main.py. `uuid` is the text
-- that gen_random_uuid() gives for the request, and `now` its now().
pub mod Rows
pub mod Flow
pub mod RoundTrip
pub mod Tenancy
pub mod Reads
use open_weave.Prelude.{
  ℕ, zero, suc, String, Bool, true, false, not, ◌&&◌, Option, none, some, List, [], ◌∷◌, ◌++◌, map,
  ◌==◌, keep, take, length, if◌then◌else◌, text_key, is_some,
}
use open_weave.Prelude.Int.{pos}
use open_weave.Prelude.Dict.{put}
use open_weave.Prelude.Result.{Result, ok, err, ◌>>=◌}
use open_weave.Python.{Value, null, int, str, time, text_value, Row, cell, is_null, truthy, Python}
use open_weave.Auth.{AuthContext}
use open_weave.Api.{HttpError, not_found, Database, decode_json}
use open_weave.Api.Sql.{Postgres, eq_text, of_project, same_project, order_by, first, left_join}
use open_weave.Api.Traces.{text_of_cell, object, copied}
use open_weave.Api.Tree.{by_id}

pub record DatasetIn : Type 0 where
  pub name : String
  pub description : Option String
  pub metadata : Value

-- `input`, `expected_output` and `metadata` are any JSON; one that is left out is null.
pub record DatasetItemIn : Type 0 where
  pub input : Value
  pub expected_output : Value
  pub metadata : Value
  pub source_trace_id : Option String
  pub id : Option String

pub record RunIn : Type 0 where
  pub name : String
  pub description : Option String
  pub metadata : Value

pub record RunItemIn : Type 0 where
  pub dataset_item_id : String
  pub trace_id : String
  pub observation_id : Option String

abbrev pub has_text : String → String → Row → Bool
has_text c s r = eq_text (cell c r) (str s)

-- `project_id = $1 AND name = $2`
abbrev pub by_name : String → String → Row → Bool
by_name p name r = of_project p r && has_text "name" name r

-- `_dataset_id`
unfoldable pub dataset_id : String → String → Database → Result HttpError String
dataset_id p name db = elim (first (keep (by_name p name) db.datasets)) [
  | none ↦ err (not_found name)
  | some row ↦ ok (text_of_cell "id" row)
]

-- INSERT … ON CONFLICT … DO UPDATE … RETURNING: `same` is the conflict, and `change` the row after
-- the update. The key that `same` tests is unique, so it holds of one row at most.
unfoldable pub upsert : (Row → Bool) → (Row → Row) → Row → List Row → List Row × Row
upsert same change fresh [] = (fresh ∷ [], fresh)
upsert same change fresh (r ∷ rows) =
    let (rest, row) = upsert same change fresh rows in
    if same r then (change r ∷ rows, change r) else (r ∷ rest, row)

-- COALESCE(a, b)
abbrev pub or_old : Value → Value → Value
or_old a b = if is_null a then b else a

abbrev pub is_root_of : Row → Row → Bool
is_root_of t o =
    same_project o t
    && eq_text (cell "trace_id" o) (cell "id" t)
    && is_null (cell "parent_observation_id" o)

abbrev pub opt_output : Option Row → Value
opt_output none = null
opt_output (some o) = cell "output" o

-- `project_id = $1 AND dataset_id = $2 AND name = $3`
abbrev pub by_run : String → String → String → Row → Bool
by_run p dataset name r =
    of_project p r && has_text "dataset_id" dataset r && has_text "name" name r

-- The conflict on (project_id, dataset_run_id, dataset_item_id).
abbrev pub by_link : String → Value → String → Row → Bool
by_link p run item r =
    of_project p r && eq_text (cell "dataset_run_id" r) run && has_text "dataset_item_id" item r

abbrev pub item_id : String → DatasetItemIn → String
item_id uuid body = elim body.id [ none ↦ uuid | some i ↦ i ]

-- The DO UPDATE of each INSERT.
abbrev pub change_dataset : ℕ → DatasetIn → Row → Row
change_dataset now body old =
    put "updated_at" (time now)
      (put "description" (or_old (text_value body.description) (cell "description" old)) old)

abbrev pub change_run : RunIn → Row → Row
change_run body old =
    put "description" (or_old (text_value body.description) (cell "description" old)) old

abbrev pub change_link : RunItemIn → Row → Row
change_link body old = put "trace_id" (str body.trace_id) old

module _ (py : Python) (pg : Postgres) where
  -- `json.dumps(v)` into a jsonb column, and the same for a dict that is set only if it is not empty.
  abbrev pub to_json : Value → Value
  to_json v = str (pg.jsonb (py.dumps v))

  abbrev pub json_if_any : Value → Value
  json_if_any v = if truthy v then to_json v else null

  -- The observations of the trace without a parent, by start time.
  abbrev pub started_before : Row → Row → Bool
  started_before a b = not (pg.less (cell "start_time" b) (cell "start_time" a))

  -- `COALESCE(t.output, (SELECT o.output … ORDER BY o.start_time LIMIT 1))`
  unfoldable pub final_output : Row → List Row → Value
  final_output t observations =
      or_old (cell "output" t)
        (opt_output (first (order_by started_before (keep (is_root_of t) observations))))

  module _ (uuid : String) (now : ℕ) where
    abbrev pub dataset_row : String → DatasetIn → Row
    dataset_row p body =
        ("project_id", str p)
        ∷ ("id", str uuid)
        ∷ ("name", str body.name)
        ∷ ("description", text_value body.description)
        ∷ ("metadata", json_if_any body.metadata)
        ∷ ("created_at", time now)
        ∷ ("updated_at", time now)
        ∷ []

    unfoldable pub create_dataset : DatasetIn → AuthContext → Database → Value × Database
    create_dataset body ctx db =
        let (rows, row) =
          upsert (by_name ctx.project_id body.name) (change_dataset now body)
            (dataset_row ctx.project_id body) db.datasets in
        (object (copied row ("id" ∷ "name" ∷ "description" ∷ [])), record db { datasets = rows })

    abbrev pub item_row : String → String → DatasetItemIn → Row
    item_row p dataset body =
        ("project_id", str p)
        ∷ ("id", elim body.id [ none ↦ str uuid | some i ↦ str i ])
        ∷ ("dataset_id", str dataset)
        ∷ ("input", to_json body.input)
        ∷ ("expected_output", to_json body.expected_output)
        ∷ ("metadata", json_if_any body.metadata)
        ∷ ("source_trace_id", text_value body.source_trace_id)
        ∷ ("status", str "ACTIVE")
        ∷ ("created_at", time now)
        ∷ ("updated_at", time now)
        ∷ []

    abbrev pub change_item : DatasetItemIn → Row → Row
    change_item body old = put "updated_at" (time now) (
        put "expected_output" (to_json body.expected_output) (put "input" (to_json body.input) old))

    -- The INSERT of `add_item`: an item that is known keeps its dataset and its metadata.
    unfoldable pub put_item : String → String → DatasetItemIn → List Row → List Row × Row
    put_item p dataset body rows =
        upsert (by_id p (item_id uuid body)) (change_item body) (item_row p dataset body) rows

    unfoldable pub add_item :
        String → DatasetItemIn → AuthContext → Database → Result HttpError (Value × Database)
    add_item name body ctx db = do
      dataset ← dataset_id ctx.project_id name db
      let (rows, row) = put_item ctx.project_id dataset body db.dataset_items
      ok (object (("id", cell "id" row) ∷ []), record db { dataset_items = rows })

    abbrev pub trace_item_row : String → String → String → Row → Database → Row
    trace_item_row p dataset trace_id t db =
        ("project_id", str p)
        ∷ ("id", str uuid)
        ∷ ("dataset_id", str dataset)
        ∷ ("input", to_json (cell "input" t))
        ∷ ("expected_output", to_json (final_output t db.observations))
        ∷ ("source_trace_id", str trace_id)
        ∷ ("status", str "ACTIVE")
        ∷ ("created_at", time now)
        ∷ ("updated_at", time now)
        ∷ []

    unfoldable pub add_item_from_trace :
        String → String → AuthContext → Database → Result HttpError (Value × Database)
    add_item_from_trace name trace_id ctx db = do
      dataset ← dataset_id ctx.project_id name db
      elim (first (keep (by_id ctx.project_id trace_id) db.traces)) [
        | none ↦ err (not_found "trace not found")
        | some t ↦ ok (
          object (("id", str uuid) ∷ ("source_trace_id", str trace_id) ∷ []),
          record db {
            dataset_items =
                db.dataset_items ++ trace_item_row ctx.project_id dataset trace_id t db ∷ [];
          },
        )
      ]

    abbrev pub run_row : String → String → RunIn → Row
    run_row p dataset body =
        ("project_id", str p)
        ∷ ("id", str uuid)
        ∷ ("dataset_id", str dataset)
        ∷ ("name", str body.name)
        ∷ ("description", text_value body.description)
        ∷ ("metadata", json_if_any body.metadata)
        ∷ ("created_at", time now)
        ∷ []

    unfoldable pub create_run :
        String → RunIn → AuthContext → Database → Result HttpError (Value × Database)
    create_run name body ctx db = do
      dataset ← dataset_id ctx.project_id name db
      let (rows, row) =
          upsert (by_run ctx.project_id dataset body.name) (change_run body)
            (run_row ctx.project_id dataset body) db.dataset_runs
      ok (object (copied row ("id" ∷ "name" ∷ [])), record db { dataset_runs = rows })

    abbrev pub run_item_row : String → Value → RunItemIn → Row
    run_item_row p run body =
        ("project_id", str p)
        ∷ ("id", str uuid)
        ∷ ("dataset_run_id", run)
        ∷ ("dataset_item_id", str body.dataset_item_id)
        ∷ ("trace_id", str body.trace_id)
        ∷ ("observation_id", text_value body.observation_id)
        ∷ ("created_at", time now)
        ∷ []

    -- The INSERT of `link_run_item` for a run that is found.
    unfoldable pub put_link : RunItemIn → AuthContext → Row → Database → Value × Database
    put_link body ctx run db =
        let (rows, row) =
          upsert (by_link ctx.project_id (cell "id" run) body.dataset_item_id) (change_link body)
            (run_item_row ctx.project_id (cell "id" run) body) db.dataset_run_items in
        (object (("id", cell "id" row) ∷ []), record db { dataset_run_items = rows })

    unfoldable pub link_run_item :
        String → String → RunItemIn → AuthContext → Database → Result HttpError (Value × Database)
    link_run_item name run_name body ctx db = do
      dataset ← dataset_id ctx.project_id name db
      elim (first (keep (by_run ctx.project_id dataset run_name) db.dataset_runs)) [
        | none ↦ err (not_found run_name)
        | some run ↦ ok (put_link body ctx run db)
      ]

-- `project_id = d.project_id AND dataset_id = d.id`
abbrev pub of_dataset : Row → Row → Bool
of_dataset d r = same_project r d && eq_text (cell "dataset_id" r) (cell "id" d)

abbrev pub is_active : Row → Bool
is_active r = has_text "status" "ACTIVE" r

abbrev pub dataset_entry : Database → Row → Value
dataset_entry db d = object (
    copied d ("id" ∷ "name" ∷ "description" ∷ "created_at" ∷ [])
    ++ (
      "item_count",
      int (pos (length (keep (λ i. of_dataset d i && is_active i) db.dataset_items))),
    )
      ∷ ("run_count", int (pos (length (keep (of_dataset d) db.dataset_runs))))
      ∷ [])

abbrev pub item_entry : Python → Row → Value
item_entry py r = object (
    ("id", cell "id" r)
    ∷ ("input", decode_json py (cell "input" r))
    ∷ ("expected_output", decode_json py (cell "expected_output" r))
    ∷ ("metadata", decode_json py (cell "metadata" r))
    ∷ ("source_trace_id", cell "source_trace_id" r)
    ∷ [])

-- `ri.project_id = r.project_id AND ri.dataset_run_id = r.id`
abbrev pub of_run : Row → Row → Bool
of_run r ri = same_project ri r && eq_text (cell "dataset_run_id" ri) (cell "id" r)

abbrev pub run_entry : Python → Database → Row → Value
run_entry py db r = object (
    ("name", cell "name" r)
    ∷ ("description", cell "description" r)
    ∷ ("metadata", decode_json py (cell "metadata" r))
    ∷ ("created_at", cell "created_at" r)
    ∷ ("item_count", int (pos (length (keep (of_run r) db.dataset_run_items))))
    ∷ [])

module _ (py : Python) (pg : Postgres) where
  -- ORDER BY created_at, and the same DESC.
  abbrev pub created_before : Row → Row → Bool
  created_before a b = not (pg.less (cell "created_at" b) (cell "created_at" a))

  abbrev pub created_after : Row → Row → Bool
  created_after a b = not (pg.less (cell "created_at" a) (cell "created_at" b))

  unfoldable pub list_datasets : AuthContext → Database → List Value
  list_datasets ctx db =
      map (dataset_entry db) (order_by created_after (keep (of_project ctx.project_id) db.datasets))

  abbrev pub active_in : String → String → Row → Bool
  active_in p dataset r = of_project p r && has_text "dataset_id" dataset r && is_active r

  unfoldable pub list_items : String → ℕ → AuthContext → Database → Result HttpError (List Value)
  list_items name limit ctx db = do
    dataset ← dataset_id ctx.project_id name db
    ok (
        map (item_entry py) (
          take limit
            (order_by created_before (keep (active_in ctx.project_id dataset) db.dataset_items))))

  -- The runs of a dataset with the number of their items: a group of the LEFT JOIN is one run.
  unfoldable pub list_runs : String → AuthContext → Database → Result HttpError (List Value)
  list_runs name ctx db = do
    dataset ← dataset_id ctx.project_id name db
    ok (
        map (run_entry py db) (
          order_by created_after (
            keep (λ r. of_project ctx.project_id r && has_text "dataset_id" dataset r)
              db.dataset_runs)))
