-- ===== src/Api/Tenancy.antt =====
-- Tenants and the read handlers of agent-observability/api-server/main.py.
use open_weave.Prelude.{ℕ, String, Bool, Option, ◌≡◌}
use open_weave.Python.{Python}
use open_weave.Auth.{AuthContext}
use open_weave.Api.{Database}
use open_weave.Api.Sql.{Postgres, owned}
use open_weave.Api.Traces.{Query, list_traces}
use open_weave.Api.Traces.Tenancy.{list_traces-owned}
use open_weave.Api.Tree.{get_trace}
use open_weave.Api.Tree.Tenancy.{VersionsOwn, get_trace-owned}
use open_weave.Api.Datasets.{list_datasets, list_items, list_runs}
use open_weave.Api.Datasets.Reads.{lists-owned}
use open_weave.Api.Compare.{Deltas, compare_runs}
use open_weave.Api.Compare.Tenancy.{compare_runs-owned}
use open_weave.Api.Metrics.{daily_metrics}
use open_weave.Api.Metrics.Days.{daily_metrics-owned}

-- What a read answers, an error included, is what it answers on a database in which every row of
-- another project is left out of the tables that have one: so for `list_traces`, `get_trace`,
-- `list_datasets`, `list_items`, `list_runs`, `compare_runs` and `daily_metrics`, whatever the request
-- asks for. It takes that the scores of the project name versions of its own evaluators, since
-- `get_trace` joins these on their id alone.
pub reads-owned :
    (py : Python) (pg : Postgres) (ops : Deltas) (ctx : AuthContext) (db : Database) (q : Query)
    (name text : String) (n days : ℕ) (is_experiment : Option Bool)
    → VersionsOwn ctx.project_id db
    → (list_traces py pg ctx q db ≡ list_traces py pg ctx q (owned ctx.project_id db))
      × (get_trace py pg name ctx db ≡ get_trace py pg name ctx (owned ctx.project_id db))
      × (list_datasets py pg ctx db ≡ list_datasets py pg ctx (owned ctx.project_id db))
      × (list_items py pg name n ctx db ≡ list_items py pg name n ctx (owned ctx.project_id db))
      × (list_runs py pg name ctx db ≡ list_runs py pg name ctx (owned ctx.project_id db))
      × (compare_runs py pg ops name text ctx db
          ≡ compare_runs py pg ops name text ctx (owned ctx.project_id db))
      × (daily_metrics pg py n days is_experiment ctx db
          ≡ daily_metrics pg py n days is_experiment ctx (owned ctx.project_id db))
reads-owned py pg ops ctx db q name text n days is_experiment versions =
    let lists = lists-owned py pg ctx db name n in
    (
      list_traces-owned py pg ctx q db,
      get_trace-owned py pg name ctx db versions,
      lists.0,
      lists.1,
      lists.2,
      compare_runs-owned py pg ops name text ctx db,
      daily_metrics-owned pg py n days is_experiment ctx db,
    )
