-- ===== src/Api/Compare/Tenancy.antt =====
-- `compare_runs` of agent-observability/api-server/main.py sees the caller's project only.
use open_weave.Prelude.{
  String, true, ◌≡◌, refl, ap, ap₂, ◌∙◌, sym, length, List, [], ◌∷◌, keep, All, arith, text_key,
  row_key, inl, inr,
}
use open_weave.Prelude.Result.{Result-cases}
use open_weave.Prelude.Dict.{Dict}
use open_weave.Api.Traces.{latency_of}
use open_weave.Python.{Value, Row, Python}
use open_weave.Auth.{AuthContext}
use open_weave.Api.{Database}
use open_weave.Api.Sql.{
  Postgres, aggregate, column, of_project, same_project-own, own, owned, join, group_by, keep-keep,
  All-keep_self,
}
use open_weave.Api.Sql.Groups.{AllGroups, AllGroups-groups_from}
use open_weave.Api.Sql.Own.{join-own, left_join-own, All-join, map-cong_own}
use open_weave.Api.Datasets.{dataset_id, of_run}
use open_weave.Api.Datasets.Reads.{dataset_id-owned}
use open_weave.Api.Compare.{
  Totals, RunEntry, Deltas, run_names, item_cost, item_latency, change_run_entry, set_totals,
  linked_items, is_named_run, of_item_trace, spans_of_item, item_of, scores_item, run_name,
  totals_of_group, add_totals, blank_runs, add_scores, score_key, runs_out, per_item, comparison,
  compare_runs,
}

module _ (p : String) where
  abbrev Mine : Row → Type 0
  Mine r = of_project p r ≡ true

  abbrev Both : Row × Row → Type 0
  Both j = Mine j.0 × Mine j.1

  -- The totals of run items of the project.
  module _ (py : Python) (pg : Postgres) (db : Database) where
    spans_of_item-owned :
        (j : Row × Row) → Both j → spans_of_item pg db j ≡ spans_of_item pg (owned p db) j
    spans_of_item-owned j h = sym (
        keep-keep (of_project p) (of_item_trace j.1)
          (λ o e. same_project-own p o j.1 (ground arith) h.1) db.observations)

    totals_of_group-owned :
        (js : List (Row × Row))
        → All Both js
        → totals_of_group pg db js ≡ totals_of_group pg (owned p db) js
    unfolding totals_of_group
    totals_of_group-owned js h =
        let costs =
          map-cong_own (item_cost pg db) (item_cost pg (owned p db)) Both
            (λ j k.
              ap (λ spans. aggregate pg.sum (column "total_cost" spans)) (spans_of_item-owned j k))
            js h in
        let latencies =
          map-cong_own (item_latency pg db) (item_latency pg (owned p db)) Both
            (λ j k. ap (latency_of pg) (spans_of_item-owned j k)) js h in
        ap₂
          (λ (cs : List Value) (ls : List Value).
            let t : Totals = record {
              items = length js;
              avg_cost = aggregate pg.avg cs;
              total_cost = aggregate pg.sum cs;
              avg_latency_ms = aggregate pg.avg ls;
            } in
            t)
          costs latencies

    add_totals-owned :
        (groups : List (String × List (Row × Row))) (runs : Dict String RunEntry)
        → AllGroups Both groups
        → add_totals py pg db groups runs ≡ add_totals py pg (owned p db) groups runs
    unfolding add_totals
    add_totals-owned [] runs h = refl
    add_totals-owned ((k, js) ∷ groups) runs h =
        add_totals-owned groups (change_run_entry (set_totals py (totals_of_group pg db js)) k runs)
          h.1
        ∙ ap (λ t. add_totals py pg (owned p db) groups (change_run_entry (set_totals py t) k runs))
            (totals_of_group-owned js h.0)

  module _ (dataset : String) (names : List String) (db : Database) where
    named-Mine : All Mine (keep (is_named_run p dataset names) db.dataset_runs)
    named-Mine =
        All-keep_self (of_project p) (is_named_run p dataset names) (λ r h. ground arith)
          db.dataset_runs

    linked_items-owned : linked_items p dataset names (owned p db) ≡ linked_items p dataset names db
    unfolding linked_items
    linked_items-owned =
        ap (λ rows. join of_run rows (own p db.dataset_run_items))
          (keep-keep (of_project p) (is_named_run p dataset names) (λ r h. ground arith)
            db.dataset_runs)
        ∙ join-own of_run Mine (of_project p) (λ r ri h e. same_project-own p ri r (ground arith) h)
            (keep (is_named_run p dataset names) db.dataset_runs) db.dataset_run_items named-Mine

    linked_items-Mine : All Both (linked_items p dataset names db)
    unfolding linked_items
    linked_items-Mine =
        All-join of_run Mine (of_project p) (λ r ri h e. same_project-own p ri r (ground arith) h)
          (keep (is_named_run p dataset names) db.dataset_runs) db.dataset_run_items named-Mine

    module _ (py : Python) (pg : Postgres) where
      linked : List (Row × Row)
      linked = linked_items p dataset names db

      scored-owned :
          join (λ (j : Row × Row) s. scores_item j.1 s) linked (own p db.scores)
          ≡ join (λ (j : Row × Row) s. scores_item j.1 s) linked db.scores
      unfolding linked
      scored-owned =
          join-own (λ (j : Row × Row) s. scores_item j.1 s) Both (of_project p)
            (λ j s h e. same_project-own p s j.1 (ground arith) h.1) linked db.scores
            linked_items-Mine

      runs_out-owned :
          runs_out py pg p dataset names db ≡ runs_out py pg p dataset names (owned p db)
      unfolding runs_out linked
      runs_out-owned =
          let groups = group_by run_name linked in
          let all = AllGroups-groups_from Both run_name linked [] linked_items-Mine tt in
          rw (linked_items-owned, scored-owned)
            (ap
              (add_scores py pg (
                group_by (score_key py)
                  (join (λ (j : Row × Row) s. scores_item j.1 s) linked db.scores)))
              (add_totals-owned py pg db groups (blank_runs names []) all))

      per_item-owned :
          per_item py pg p dataset names db ≡ per_item py pg p dataset names (owned p db)
      unfolding per_item linked
      per_item-owned =
          let on_item : (j : Row × Row) (di : Row)
              → Both j
              → item_of j di ≡ true
              → of_project p di ≡ true =
            λ j di h e. same_project-own p di j.1 (ground arith) h.1 in
          let with_items = join item_of linked db.dataset_items in
          let items =
            join-own item_of Both (of_project p) on_item linked db.dataset_items
              linked_items-Mine in
          let all =
            All-join item_of Both (of_project p) on_item linked db.dataset_items
              linked_items-Mine in
          let scores =
            left_join-own (λ (e : (Row × Row) × Row) s. scores_item e.0.1 s)
              (λ e. Both e.0 × Mine e.1) (of_project p)
              (λ e s h k. same_project-own p s e.0.1 (ground arith) h.0.1) with_items db.scores
              all in
          rw (linked_items-owned, items, scores)

-- The answer of `compare_runs`, an error included, depends on the rows of the caller's project only.
pub compare_runs-owned :
    (py : Python) (pg : Postgres) (ops : Deltas) (name runs : String) (ctx : AuthContext)
    (db : Database)
    → compare_runs py pg ops name runs ctx db
      ≡ compare_runs py pg ops name runs ctx (owned ctx.project_id db)
unfolding compare_runs comparison
compare_runs-owned py pg ops name runs ctx db =
    let p = ctx.project_id in
    elim (Result-cases (dataset_id p name db)) [
      | inr (e, failed) ↦ rw (dataset_id-owned p db name, failed)
      | inl (dataset, found) ↦ rw (
        dataset_id-owned p db name,
        found,
        runs_out-owned p dataset (run_names runs) db py pg,
        per_item-owned p dataset (run_names runs) db py pg,
      )
    ]
