-- ===== src/Api/Traces/Tenancy.antt =====
-- `list_traces` of agent-observability/api-server/main.py sees the caller's project only.
use open_weave.Prelude.{String, true, ◌≡◌, ap, ◌∙◌, sym, List, keep, take, drop, arith}
use open_weave.Python.{Python, Row}
use open_weave.Auth.{AuthContext}
use open_weave.Api.{Database}
use open_weave.Api.Sql.{
  Postgres, of_project, same_project-own, own, owned, keep-keep, keep-map_own, order_by,
}
use open_weave.Api.Traces.{Query, of_trace, rollup, not_older, trace_rows, list_traces}
use open_weave.Api.Traces.Filters.{matches, trace_rows-matches}

module _ (p : String) (t : Row) (h : of_project p t ≡ true) where
  pub of_trace-own : (x : Row) → of_trace t x ≡ true → of_project p x ≡ true
  of_trace-own x e = same_project-own p x t (ground arith) h

  -- The rows of a trace are rows of its project.
  pub keep-of_trace : (rows : List Row) → keep (of_trace t) (own p rows) ≡ keep (of_trace t) rows
  keep-of_trace = keep-keep (of_project p) (of_trace t) of_trace-own

  pub rollup-owned : (pg : Postgres) (db : Database) → rollup pg db t ≡ rollup pg (owned p db) t
  unfolding rollup
  rollup-owned pg db = rw (keep-of_trace db.observations, keep-of_trace db.scores)

matches-own :
    (ctx : AuthContext) (q : Query) (t : Row)
    → matches ctx q t ≡ true
    → of_project ctx.project_id t ≡ true
matches-own ctx q t h = ground arith

-- The answer of `list_traces` depends on the rows of the caller's project only: it is the answer on
-- the database from which every other tenant's rows are left out.
pub list_traces-owned :
    (py : Python) (pg : Postgres) (ctx : AuthContext) (q : Query) (db : Database)
    → list_traces py pg ctx q db ≡ list_traces py pg ctx q (owned ctx.project_id db)
unfolding list_traces
list_traces-owned py pg ctx q db =
    let p = ctx.project_id in
    let same =
      keep-map_own (of_project p) (matches ctx q) (rollup pg db) (rollup pg (owned p db))
        (matches-own ctx q) (λ t e. rollup-owned p t (matches-own ctx q t e) pg db) db.traces in
    let rows : trace_rows pg ctx q db ≡ trace_rows pg ctx q (owned p db) =
      trace_rows-matches pg ctx q db
      ∙ ap (λ joined. take q.limit (drop q.offset (order_by (not_older pg) joined))) same
      ∙ sym (trace_rows-matches pg ctx q (owned p db)) in
    rw rows
