-- ===== src/Api/Datasets/Flow.antt =====
-- What the writes on datasets and runs in agent-observability/api-server/main.py leave for the
-- requests that follow.
use open_weave.Prelude.{
  ℕ, String, true, false, ◌≡◌, refl, ap, ap₂, ◌∙◌, subst, ◌&&◌, Option, none, some, ◌==◌, keep,
  text_key, arith,
}
use open_weave.Prelude.Dict.{get}
use open_weave.Prelude.Result.{ok, err, >>=-eq-ok}
use open_weave.Python.{Value, str, time, text_value, Row, cell, Python}
use open_weave.Auth.{AuthContext}
use open_weave.Api.{Database}
use open_weave.Api.Sql.{Postgres, eq_text, first}
use open_weave.Api.Traces.{text_of_cell}
use open_weave.Api.Datasets.{
  DatasetIn, RunIn, RunItemIn, by_name, change_dataset, dataset_id, upsert, or_old, dataset_row,
  create_dataset, by_run, change_run, run_row, create_run, put_link, link_run_item,
}
use open_weave.Api.Datasets.Rows.{cell-put_other, first-upsert, upsert-row}

cell-change_dataset :
    (now : ℕ) (body : DatasetIn) (c : String) (r : Row)
    → ("updated_at" == c) ≡ false
    → ("description" == c) ≡ false
    → cell c (change_dataset now body r) ≡ cell c r
cell-change_dataset now body c r h k =
    cell-put_other "updated_at" c (time now) _ h ∙ cell-put_other "description" c _ r k

by_name-dataset_row :
    (py : Python) (pg : Postgres) (uuid : String) (now : ℕ) (p : String) (body : DatasetIn)
    → by_name p body.name (dataset_row py pg uuid now p body) ≡ true
unfolding get
by_name-dataset_row py pg uuid now p body =
    ground (arith, text_key.same_iff p p, text_key.same_iff body.name body.name)

-- The id of the row that the upsert leaves.
id-chosen :
    (py : Python) (pg : Postgres) (uuid : String) (now : ℕ) (p : String) (body : DatasetIn)
    (old : Option Row)
    → text_of_cell "id"
        (elim old [ none ↦ dataset_row py pg uuid now p body | some r ↦ change_dataset now body r ])
      ≡ elim old [ none ↦ uuid | some r ↦ text_of_cell "id" r ]
unfolding get
id-chosen py pg uuid now p body none = refl
id-chosen py pg uuid now p body (some r) =
    ap (λ (v : Value). elim v [ str s ↦ s | _ ↦ "" ])
      (cell-change_dataset now body "id" r refl refl)

module _ (py : Python) (pg : Postgres) (uuid : String) (now : ℕ) where
  -- After `create_dataset` the name leads to a dataset, the one that it led to before if there was one,
  -- and the new one otherwise.
  pub create_dataset-dataset_id :
      (body : DatasetIn) (ctx : AuthContext) (db : Database)
      → dataset_id ctx.project_id body.name (create_dataset py pg uuid now body ctx db).1
        ≡ elim (dataset_id ctx.project_id body.name db) [ ok i ↦ ok i | err e ↦ ok uuid ]
  unfolding create_dataset dataset_id
  create_dataset-dataset_id body ctx db =
      let p = ctx.project_id in
      let same = by_name p body.name in
      let change = change_dataset now body in
      let fresh = dataset_row py pg uuid now p body in
      let found =
        first-upsert same change fresh (λ r h. ground (arith, same_change r, h))
          (by_name-dataset_row py pg uuid now p body) db.datasets in
      let row = upsert-row same change fresh db.datasets in
      ground (
        arith,
        found,
        ap (text_of_cell "id") row
            ∙ id-chosen py pg uuid now p body (first (keep same db.datasets)),
      )
    where
      same_change :
          (r : Row)
          → by_name ctx.project_id body.name (change_dataset now body r)
            ≡ by_name ctx.project_id body.name r
      same_change r =
          ap₂ (λ a b. eq_text a (str ctx.project_id) && eq_text b (str body.name))
            (cell-change_dataset now body "project_id" r refl refl)
            (cell-change_dataset now body "name" r refl refl)

by_run-run_row :
    (py : Python) (pg : Postgres) (uuid : String) (now : ℕ) (p dataset : String) (body : RunIn)
    → by_run p dataset body.name (run_row py pg uuid now p dataset body) ≡ true
unfolding get
by_run-run_row py pg uuid now p dataset body = ground (
  arith,
  text_key.same_iff p p,
  text_key.same_iff dataset dataset,
  text_key.same_iff body.name body.name,
)

by_run-change_run :
    (p dataset : String) (body : RunIn) (r : Row)
    → by_run p dataset body.name (change_run body r) ≡ by_run p dataset body.name r
by_run-change_run p dataset body r =
    let kept = λ (c : String) (h : ("description" == c) ≡ false).
      cell-put_other "description" c (or_old (text_value body.description) (cell "description" r)) r
        h in
    ap₂ (λ u v. u && v)
      (ap₂ (λ a b. eq_text a (str p) && eq_text b (str dataset)) (kept "project_id" refl)
        (kept "dataset_id" refl))
      (ap (λ v. eq_text v (str body.name)) (kept "name" refl))

-- A run that `create_run` has answered for can be linked to: no `link_run_item` for it is refused,
-- whichever item and trace it names.
pub link_run_item-create_run :
    (py : Python) (pg : Postgres) (uuid : String) (now : ℕ) (name : String) (body : RunIn)
    (ctx : AuthContext) (db db' : Database) (answer : Value)
    → create_run py pg uuid now name body ctx db ≡ ok (answer, db')
    → (link_uuid : String) (later : ℕ) (item : RunItemIn)
    → (run : Row) × (link_run_item py pg link_uuid later name body.name item ctx db'
        ≡ ok (put_link py pg link_uuid later item ctx run db'))
unfolding create_run link_run_item dataset_id
link_run_item-create_run py pg uuid now name body ctx db db' answer h link_uuid later item =
    let p = ctx.project_id in
    let (dataset, e, rest) = >>=-eq-ok (dataset_id p name db) _ h in
    let same = by_run p dataset body.name in
    let fresh = run_row py pg uuid now p dataset body in
    let found =
      first-upsert same (change_run body) fresh (λ r k. by_run-change_run p dataset body r ∙ k)
        (by_run-run_row py pg uuid now p dataset body) db.dataset_runs in
    let runs = upsert same (change_run body) fresh db.dataset_runs in
    let same_db : record db { dataset_runs = runs.0 } ≡ db' = ground arith in
    let known : dataset_id p name db' ≡ ok dataset =
      subst (λ (d : Database). dataset_id p name d ≡ ok dataset) same_db e in
    let there : first (keep same db'.dataset_runs) ≡ some runs.1 =
      subst (λ (d : Database). first (keep same d.dataset_runs) ≡ some runs.1) same_db found in
    (runs.1, ground (arith, known, there))
