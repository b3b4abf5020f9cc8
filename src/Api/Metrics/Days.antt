-- ===== src/Api/Metrics/Days.antt =====
-- The metrics of agent-observability/api-server/main.py by day: no trace is lost or counted twice, and
-- none is another tenant's.
use open_weave.Prelude.{
  ℕ, ◌+◌, Bool, true, ◌≡◌, refl, ap, ◌∙◌, Option, List, [], ◌∷◌, keep, map, length, nat_key,
  text_key, arith,
}
use open_weave.Python.{Python}
use open_weave.Auth.{AuthContext}
use open_weave.Api.{Database}
use open_weave.Api.Sql.{
  Postgres, of_project, owned, order_by, insert_row, group_by, keep-keep, All-keep_self,
}
use open_weave.Api.Sql.Own.{left_join-own}
use open_weave.Api.Sql.Groups.{rows_in, rows_in-groups_from}
use open_weave.Api.Sql.Joins.{AreDistinct}
use open_weave.Api.Traces.{of_trace, text_of_cell}
use open_weave.Api.Traces.Tenancy.{of_trace-own}
use open_weave.Api.Metrics.Rollups.{length-rollups}
use open_weave.Api.Metrics.{
  JoinedRollup, Summary, is_filtered, valued_of_trace, trace_rollups, score_rollups, rollups,
  day_of, day_order, summarise, daily_metrics,
}

-- The number of traces on the days of an answer.
abbrev pub traces_by_day : List (ℕ × Summary) → ℕ
traces_by_day [] = 0
traces_by_day ((day, s) ∷ rows) = s.traces + traces_by_day rows

module _ (pg : Postgres) where
  rows_in-insert_row :
      (g : ℕ × List JoinedRollup) (gs : List (ℕ × List JoinedRollup))
      → rows_in (insert_row (day_order pg) g gs) ≡ length g.1 + rows_in gs
  unfolding insert_row
  rows_in-insert_row g [] = omega arith
  rows_in-insert_row g (q ∷ gs) = ground (arith, rows_in-insert_row g gs)

  rows_in-order_by :
      (gs : List (ℕ × List JoinedRollup)) → rows_in (order_by (day_order pg) gs) ≡ rows_in gs
  unfolding order_by
  rows_in-order_by [] = refl
  rows_in-order_by (g ∷ gs) =
      omega (arith, rows_in-insert_row g (order_by (day_order pg) gs), rows_in-order_by gs)

  traces_by_day-map :
      (py : Python) (gs : List (ℕ × List JoinedRollup))
      → traces_by_day (map (λ g. (g.0, summarise pg py g.1)) gs) ≡ rows_in gs
  unfolding summarise
  traces_by_day-map py [] = refl
  traces_by_day-map py (g ∷ gs) = ap (λ n. length g.1 + n) (traces_by_day-map py gs)

module _ (pg : Postgres) (py : Python) (now days : ℕ) (is_experiment : Option Bool)
    (ctx : AuthContext) (db : Database) where
  -- The days of an answer hold every trace of its summary once, and the summary counts the caller's
  -- traces of the period and of the traffic that is asked for, each once whatever spans and scores it
  -- has, if no two of these traces have the same id, as the table's primary key has it.
  pub traces_by_day-daily_metrics :
      AreDistinct (
        map
          (text_of_cell "id")
          (keep (is_filtered ctx.project_id now days is_experiment) db.traces))
      → (traces_by_day (daily_metrics pg py now days is_experiment ctx db).rows
          ≡ (daily_metrics pg py now days is_experiment ctx db).summary.traces)
        × ((daily_metrics pg py now days is_experiment ctx db).summary.traces
            ≡ length (keep (is_filtered ctx.project_id now days is_experiment) db.traces))
  unfolding daily_metrics summarise
  traces_by_day-daily_metrics distinct =
      let rs = rollups pg ctx.project_id now days is_experiment db in
      let groups = group_by (day_of pg) rs in
      (
        traces_by_day-map pg py (order_by (day_order pg) groups)
            ∙ rows_in-order_by pg groups
            ∙ rows_in-groups_from (day_of pg) rs []
            ∙ omega arith,
        length-rollups pg db ctx.project_id now days is_experiment distinct,
      )

  rollups-owned :
      rollups pg ctx.project_id now days is_experiment db
      ≡ rollups pg ctx.project_id now days is_experiment (owned ctx.project_id db)
  unfolding rollups trace_rollups score_rollups
  rollups-owned =
      let p = ctx.project_id in
      let test = is_filtered p now days is_experiment in
      let filtered = keep test db.traces in
      let mine = All-keep_self (of_project p) test (λ t h. ground arith) db.traces in
      rw (
        keep-keep (of_project p) test (λ t h. ground arith) db.traces,
        left_join-own of_trace (λ t. of_project p t ≡ true) (of_project p)
            (λ t x h e. of_trace-own p t h x e) filtered db.observations mine,
        left_join-own valued_of_trace (λ t. of_project p t ≡ true) (of_project p)
            (λ t x h e. of_trace-own p t h x (ground (arith, e))) filtered db.scores mine,
      )

  -- The metrics depend on the rows of the caller's project only.
  pub daily_metrics-owned :
      daily_metrics pg py now days is_experiment ctx db
      ≡ daily_metrics pg py now days is_experiment ctx (owned ctx.project_id db)
  unfolding daily_metrics
  daily_metrics-owned = rw rollups-owned
