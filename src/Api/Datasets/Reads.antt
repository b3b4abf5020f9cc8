-- ===== src/Api/Datasets/Reads.antt =====
-- The lists of datasets, items and runs that agent-observability/api-server/main.py answers are of the
-- caller's project only.
use open_weave.Prelude.{ℕ, String, Bool, true, ◌≡◌, ap, ◌&&◌, keep, arith, text_key, inl, inr}
use open_weave.Prelude.Result.{ok, Result-cases}
use open_weave.Python.{Row, Python}
use open_weave.Auth.{AuthContext}
use open_weave.Api.{Database}
use open_weave.Api.Sql.{
  Postgres, of_project, same_project-own, own, owned, keep-keep, All-keep_self,
}
use open_weave.Api.Sql.Own.{All-order_by, map-cong_own}
use open_weave.Api.Datasets.{
  has_text, by_name, dataset_id, of_dataset, is_active, dataset_entry, list_datasets, active_in,
  list_items, of_run, run_entry, list_runs, created_after,
}

module _ (p : String) (db : Database) where
  abbrev Mine : Row → Type 0
  Mine r = of_project p r ≡ true

  pub dataset_id-owned : (name : String) → dataset_id p name (owned p db) ≡ dataset_id p name db
  unfolding dataset_id
  dataset_id-owned name =
      let same : keep (by_name p name) (own p db.datasets) ≡ keep (by_name p name) db.datasets =
        keep-keep (of_project p) (by_name p name) (λ r h. ground arith) db.datasets in
      ground (arith, same)

  dataset_entry-owned : (d : Row) → Mine d → dataset_entry db d ≡ dataset_entry (owned p db) d
  dataset_entry-owned d h = rw (
    keep-keep (of_project p) (λ i. of_dataset d i && is_active i)
        (λ i e. same_project-own p i d (ground arith) h) db.dataset_items,
    keep-keep (of_project p) (of_dataset d) (λ r e. same_project-own p r d (ground arith) h)
        db.dataset_runs,
  )

  run_entry-owned :
      (py : Python) (r : Row) → Mine r → run_entry py db r ≡ run_entry py (owned p db) r
  run_entry-owned py r h = rw (
      keep-keep (of_project p) (of_run r) (λ ri e. same_project-own p ri r (ground arith) h)
        db.dataset_run_items)

module _ (py : Python) (pg : Postgres) (ctx : AuthContext) (db : Database) where
  abbrev p : String
  p = ctx.project_id

  list_datasets-owned : list_datasets py pg ctx db ≡ list_datasets py pg ctx (owned p db)
  unfolding list_datasets
  list_datasets-owned =
      let kept = keep-keep (of_project p) (of_project p) (λ r h. h) db.datasets in
      rw kept (
        map-cong_own (dataset_entry db) (dataset_entry (owned p db)) (Mine p db)
          (dataset_entry-owned p db) _
          (All-order_by (Mine p db) (created_after py pg) _
            (All-keep_self (of_project p) (of_project p) (λ r h. h) db.datasets)))

  list_items-owned :
      (name : String) (limit : ℕ)
      → list_items py pg name limit ctx db ≡ list_items py pg name limit ctx (owned p db)
  unfolding list_items
  list_items-owned name limit = elim (Result-cases (dataset_id p name db)) [
    | inr (e, failed) ↦ rw (dataset_id-owned p db name, failed)
    | inl (dataset, found) ↦ rw (
      dataset_id-owned p db name,
      found,
      keep-keep (of_project p) (active_in py pg p dataset) (λ r h. ground arith) db.dataset_items,
    )
  ]

  list_runs-owned :
      (name : String) → list_runs py pg name ctx db ≡ list_runs py pg name ctx (owned p db)
  unfolding list_runs
  list_runs-owned name = elim (Result-cases (dataset_id p name db)) [
    | inr (e, failed) ↦ rw (dataset_id-owned p db name, failed)
    | inl (dataset, found) ↦
        let test : Row → Bool = λ r. of_project p r && has_text "dataset_id" dataset r in
        rw
          (
            dataset_id-owned p db name,
            found,
            keep-keep (of_project p) test (λ r h. ground arith) db.dataset_runs,
          )
          (ap ok (
            map-cong_own (run_entry py db) (run_entry py (owned p db)) (Mine p db)
              (run_entry-owned p db py) _
              (All-order_by (Mine p db) (created_after py pg) _
                (All-keep_self (of_project p) test (λ r h. ground arith) db.dataset_runs))))
  ]

-- The lists of datasets, of the items of a dataset and of its runs, with their counts, depend on the
-- rows of the caller's project only.
pub lists-owned :
    (py : Python) (pg : Postgres) (ctx : AuthContext) (db : Database) (name : String) (limit : ℕ)
    → (list_datasets py pg ctx db ≡ list_datasets py pg ctx (owned ctx.project_id db))
      × (list_items py pg name limit ctx db
          ≡ list_items py pg name limit ctx (owned ctx.project_id db))
      × (list_runs py pg name ctx db ≡ list_runs py pg name ctx (owned ctx.project_id db))
lists-owned py pg ctx db name limit = (
  list_datasets-owned py pg ctx db,
  list_items-owned py pg ctx db name limit,
  list_runs-owned py pg ctx db name,
)
