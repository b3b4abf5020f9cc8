-- ===== src/Api/Metrics/Rollups.antt =====
-- The common table expressions of `daily_metrics`: one row for each trace, however many spans and scores
-- a trace has.
use open_weave.Prelude.{
  ℕ, ◌≤◌, String, Bool, false, ◌≡◌, refl, ◌∙◌, Option, List, [], ◌∷◌, keep, map, length, contains,
  text_key, arith,
}
use open_weave.Python.{Row}
use open_weave.Api.Sql.{Postgres, aggregate, column, left_join, group_by}
use open_weave.Api.Sql.Groups.{group_by-UniqueKeys}
use open_weave.Api.Sql.Joins.{
  AreDistinct, length-group_by, keep_unique, length-map, length-keep-map, length-left_join,
}
use open_weave.Api.{Database}
use open_weave.Api.Traces.{of_trace, text_of_cell}
use open_weave.Api.Metrics.{
  TraceRollup, rollup_key, is_filtered, key_of, valued_of_trace, right_rows, trace_rollup,
  trace_rollups, score_rollups, joined_rollup, is_score_of, rollups,
}

-- Rows with ids of their own have keys of their own.
key_of-contains :
    (t : Row) (ts : List Row)
    → contains (text_of_cell "id" t) (map (text_of_cell "id") ts) ≡ false
    → contains (key_of t) (map key_of ts) ≡ false
key_of-contains t [] h = refl
key_of-contains t (u ∷ ts) h = ground (arith, h, key_of-contains t ts)

key_of-AreDistinct :
    (ts : List Row) → AreDistinct (map (text_of_cell "id") ts) → AreDistinct (map key_of ts)
key_of-AreDistinct [] h = tt
key_of-AreDistinct (t ∷ ts) h = (key_of-contains t ts h.0, key_of-AreDistinct ts h.1)

module _ (pg : Postgres) (db : Database) where
  -- No trace has two rows of `score_rollups`.
  one_score :
      (filtered : List Row) (tr : TraceRollup)
      → length (keep (is_score_of pg tr) (score_rollups pg filtered db)) ≤ 1
  unfolding score_rollups
  one_score filtered tr =
      let rows = left_join valued_of_trace filtered db.scores in
      let id_of : Row × Option Row → String = λ j. text_of_cell "id" j.0 in
      let groups = group_by id_of rows in
      omega (
        arith,
        length-keep-map (is_score_of pg tr)
            (λ g. (g.0, aggregate pg.avg (column "value" (right_rows g.1)))) groups,
        keep_unique tr.id groups (group_by-UniqueKeys id_of rows),
      )

  -- One row for each trace.
  pub length-rollups :
      (p : String) (now days : ℕ) (is_experiment : Option Bool)
      → let filtered = keep (is_filtered p now days is_experiment) db.traces in
        AreDistinct (map (text_of_cell "id") filtered)
        → length (rollups pg p now days is_experiment db) ≡ length filtered
  unfolding rollups trace_rollups
  length-rollups p now days is_experiment distinct =
      let filtered = keep (is_filtered p now days is_experiment) db.traces in
      let trs = trace_rollups pg filtered db in
      let srs = score_rollups pg filtered db in
      let groups =
        group_by (λ (j : Row × Option Row). key_of j.0)
          (left_join of_trace filtered db.observations) in
      length-map (joined_rollup pg) (left_join (is_score_of pg) trs srs)
      ∙ length-left_join (is_score_of pg) trs srs (one_score filtered)
      ∙ length-map (trace_rollup pg) groups
      ∙ length-group_by of_trace key_of filtered db.observations
          (key_of-AreDistinct filtered distinct)
