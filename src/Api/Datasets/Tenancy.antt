-- ===== src/Api/Datasets/Tenancy.antt =====
-- The handlers on datasets in agent-observability/api-server/main.py stay within the caller's project.
use mathlib.Core.List.{append-nil}
use open_weave.Prelude.{
  ℕ, String, Bool, true, false, not, ◌≡◌, refl, ap, ◌∙◌, List, [], ◌∷◌, ◌++◌, ◌==◌, keep,
  keep-append, text_key, arith, Option-cases, inl, inr, if◌then◌else◌,
}
use open_weave.Prelude.Dict.{get, put}
use open_weave.Prelude.Result.{Result, ok, err, Result-cases}
use open_weave.Python.{Value, str, time, Row, cell, Python}
use open_weave.Auth.{AuthContext}
use open_weave.Api.{HttpError, Database}
use open_weave.Api.Sql.{Postgres, eq_text, of_project, first}
use open_weave.Api.Tree.{by_id}
use open_weave.Api.Datasets.{
  DatasetIn, DatasetItemIn, RunIn, RunItemIn, by_name, dataset_id, upsert, change_dataset,
  dataset_row, create_dataset, item_id, item_row, change_item, put_item, add_item, trace_item_row,
  add_item_from_trace, by_run, run_row, change_run, create_run, by_link, run_item_row, change_link,
  put_link, link_run_item,
}
use open_weave.Api.Datasets.Rows.{cell-put_other, keep-upsert}

-- The rows of every other project.
abbrev pub foreign : String → Row → Bool
foreign p r = not (of_project p r)

abbrev pub others : String → Database → Database
others p db = record {
  projects = db.projects;
  traces = keep (foreign p) db.traces;
  observations = keep (foreign p) db.observations;
  scores = keep (foreign p) db.scores;
  evaluator_versions = db.evaluator_versions;
  datasets = keep (foreign p) db.datasets;
  dataset_items = keep (foreign p) db.dataset_items;
  dataset_runs = keep (foreign p) db.dataset_runs;
  dataset_run_items = keep (foreign p) db.dataset_run_items;
}

-- The database that a request leaves: a refused one changes nothing.
abbrev pub after : Database → Result HttpError (Value × Database) → Database
after db (ok (answer, db')) = db'
after db (err e) = db

foreign-put_other :
    (p k : String) (v : Value) (r : Row)
    → (k == "project_id") ≡ false
    → foreign p (put k v r) ≡ foreign p r
foreign-put_other p k v r h =
    ap (λ c. not (eq_text c (str p))) (cell-put_other k "project_id" v r h)

-- An upsert on rows of the project, by a change that keeps the project.
keep-foreign-upsert :
    (p : String) (same : Row → Bool) (change : Row → Row) (fresh : Row) (rows : List Row)
    → ((r : Row) → same r ≡ true → of_project p r ≡ true)
    → ((r : Row) → foreign p (change r) ≡ foreign p r)
    → foreign p fresh ≡ false
    → keep (foreign p) (upsert same change fresh rows).0 ≡ keep (foreign p) rows
keep-foreign-upsert p same change fresh rows mine kept new =
    keep-upsert same change fresh (foreign p) (λ r h. ground (arith, mine r h, kept r)) new rows

foreign-row : (p : String) (rest : Row) → foreign p (("project_id", str p) ∷ rest) ≡ false
unfolding get
foreign-row p rest = ground (arith, text_key.same_iff p p)

module _ (py : Python) (pg : Postgres) (uuid : String) (now : ℕ) (ctx : AuthContext)
    (db : Database) where
  abbrev p : String
  p = ctx.project_id

  others-create_dataset :
      (body : DatasetIn) → others p (create_dataset py pg uuid now body ctx db).1 ≡ others p db
  unfolding create_dataset
  others-create_dataset body =
      let kept =
        keep-foreign-upsert p (by_name p body.name) (change_dataset now body)
          (dataset_row py pg uuid now p body) db.datasets (λ r h. ground arith)
          (λ r.
            foreign-put_other p "updated_at" (time now) _ refl
            ∙ foreign-put_other p "description" _ r refl)
          (foreign-row p _) in
      rw kept

  others-add_item :
      (name : String) (body : DatasetItemIn)
      → others p (after db (add_item py pg uuid now name body ctx db)) ≡ others p db
  unfolding add_item put_item
  others-add_item name body = elim (Result-cases (dataset_id p name db)) [
    | inr (e, failed) ↦ rw failed
    | inl (dataset, found) ↦
        let kept =
          keep-foreign-upsert p (by_id p (item_id uuid body)) (change_item py pg uuid now body)
            (item_row py pg uuid now p dataset body) db.dataset_items (λ r h. ground arith)
            (λ r.
              foreign-put_other p "updated_at" (time now) _ refl
              ∙ foreign-put_other p "expected_output" _ _ refl
              ∙ foreign-put_other p "input" _ r refl)
            (foreign-row p _) in
        rw (found, kept)
  ]

  others-add_item_from_trace :
      (name trace_id : String)
      → others p (after db (add_item_from_trace py pg uuid now name trace_id ctx db)) ≡ others p db
  unfolding add_item_from_trace
  others-add_item_from_trace name trace_id = elim (Result-cases (dataset_id p name db)) [
    | inr (e, failed) ↦ rw failed
    | inl (dataset, found) ↦ elim (Option-cases (first (keep (by_id p trace_id) db.traces))) [
      | inl missing ↦ ap (others p) (ground (arith, found, missing))
      | inr (t, there) ↦
          let row = trace_item_row py pg uuid now p dataset trace_id t db in
          let kept : keep (foreign p) (db.dataset_items ++ row ∷ [])
              ≡ keep (foreign p) db.dataset_items =
            keep-append (foreign p) db.dataset_items (row ∷ [])
            ∙ ap (λ b. keep (foreign p) db.dataset_items ++ (if b then row ∷ [] else []))
                (foreign-row p _)
            ∙ append-nil (keep (foreign p) db.dataset_items) in
          let done : after db (add_item_from_trace py pg uuid now name trace_id ctx db)
              ≡ record db { dataset_items = db.dataset_items ++ row ∷ [] } =
            ground (arith, found, there) in
          ap (others p) done ∙ rw kept
    ]
  ]

  others-create_run :
      (name : String) (body : RunIn)
      → others p (after db (create_run py pg uuid now name body ctx db)) ≡ others p db
  unfolding create_run
  others-create_run name body = elim (Result-cases (dataset_id p name db)) [
    | inr (e, failed) ↦ rw failed
    | inl (dataset, found) ↦
        let kept =
          keep-foreign-upsert p (by_run p dataset body.name) (change_run body)
            (run_row py pg uuid now p dataset body) db.dataset_runs (λ r h. ground arith)
            (λ r. foreign-put_other p "description" _ r refl) (foreign-row p _) in
        rw (found, kept)
  ]

  others-put_link :
      (body : RunItemIn) (run : Row)
      → others p (put_link py pg uuid now body ctx run db).1 ≡ others p db
  unfolding put_link
  others-put_link body run =
      let kept =
        keep-foreign-upsert p (by_link p (cell "id" run) body.dataset_item_id) (change_link body)
          (run_item_row py pg uuid now p (cell "id" run) body) db.dataset_run_items
          (λ r h. ground arith) (λ r. foreign-put_other p "trace_id" _ r refl) (foreign-row p _) in
      rw kept

  others-link_run_item :
      (name run_name : String) (body : RunItemIn)
      → others p (after db (link_run_item py pg uuid now name run_name body ctx db)) ≡ others p db
  unfolding link_run_item
  others-link_run_item name run_name body = elim (Result-cases (dataset_id p name db)) [
    | inr (e, failed) ↦ rw failed
    | inl (dataset, found) ↦
        elim (Option-cases (first (keep (by_run p dataset run_name) db.dataset_runs))) [
          | inl missing ↦ ap (others p) (ground (arith, found, missing))
          | inr (run, there) ↦
              let done : link_run_item py pg uuid now name run_name body ctx db
                  ≡ ok (put_link py pg uuid now body ctx run db) =
                ground (arith, found, there) in
              ap (λ r. others p (after db r)) done ∙ others-put_link body run
        ]
  ]

-- No request changes a row of another project, whatever its body says: not by `create_dataset`, by
-- `add_item` with an id of its choice, by `add_item_from_trace`, by `create_run` or by `link_run_item`.
pub others-writes :
    (py : Python) (pg : Postgres) (uuid : String) (now : ℕ) (ctx : AuthContext) (db : Database)
    (name key : String) (dataset : DatasetIn) (item : DatasetItemIn) (run : RunIn)
    (link : RunItemIn)
    → (others ctx.project_id (create_dataset py pg uuid now dataset ctx db).1
        ≡ others ctx.project_id db)
      × (others ctx.project_id (after db (add_item py pg uuid now name item ctx db))
          ≡ others ctx.project_id db)
      × (others ctx.project_id (after db (add_item_from_trace py pg uuid now name key ctx db))
          ≡ others ctx.project_id db)
      × (others ctx.project_id (after db (create_run py pg uuid now name run ctx db))
          ≡ others ctx.project_id db)
      × (others ctx.project_id (after db (link_run_item py pg uuid now name key link ctx db))
          ≡ others ctx.project_id db)
others-writes py pg uuid now ctx db name key dataset item run link = (
  others-create_dataset py pg uuid now ctx db dataset,
  others-add_item py pg uuid now ctx db name item,
  others-add_item_from_trace py pg uuid now ctx db name key,
  others-create_run py pg uuid now ctx db name run,
  others-link_run_item py pg uuid now ctx db name key link,
)
