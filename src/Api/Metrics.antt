-- ===== src/Api/Metrics.antt =====
-- `daily_metrics` of agent-observability/api-server/main.py: its three common table expressions, and the
-- two queries on them.
pub mod Rollups
pub mod Days
use open_weave.Prelude.{
  ℕ, ◌-◌, ◌*◌, String, Bool, true, false, not, ◌&&◌, Option, none, some, List, [], ◌∷◌, map, leb,
  keep, length, if◌then◌else◌, nat_key, nat_eq, nat_eq_iff, text_key, Key, ◌==◌, ◌≡◌, ◌↔◌, arith,
}
use open_weave.Python.{Value, null, time, bool, Row, cell, is_null, Python}
use open_weave.Auth.{AuthContext}
use open_weave.Api.{Database}
use open_weave.Api.Sql.{Postgres, of_project, aggregate, column, order_by, group_by, left_join}
use open_weave.Api.Traces.{
  equals, at_least, compare_values, of_trace, latency_of, optional_float, text_of_cell,
}

-- A row of `trace_rollups`, and of it joined with `score_rollups`.
pub record TraceRollup : Type 0 where
  pub id : String
  pub timestamp : Value
  pub total_cost : Value
  pub latency_ms : Value

pub record JoinedRollup : Type 0 where
  pub trace : TraceRollup
  pub avg_score : Value

pub record Summary : Type 0 where
  pub traces : ℕ
  pub cost : Value
  pub avg_latency_ms : Value
  pub avg_score : Value

pub record DailyMetrics : Type 0 where
  pub days : ℕ
  pub traffic : String
  pub summary : Summary
  pub rows : List (ℕ × Summary)

-- `AND t.is_experiment = $3`, where it is asked for.
abbrev pub in_traffic : Option Bool → Row → Bool
in_traffic none t = true
in_traffic (some b) t = compare_values equals (cell "is_experiment" t) (bool b)

-- Microseconds; the session's days have 24 hours.
abbrev pub day_length : ℕ
day_length = 86400000000

abbrev pub is_filtered : String → ℕ → ℕ → Option Bool → Row → Bool
is_filtered p now days is_experiment t =
    of_project p t
    && compare_values at_least (cell "timestamp" t) (time (now - days * day_length))
    && in_traffic is_experiment t

-- The columns of `GROUP BY ft.id, ft.timestamp`; `traces.timestamp` is never NULL.
abbrev pub RollupKey : Type 0
RollupKey = String × ℕ

abbrev pub same_rollup : RollupKey → RollupKey → Bool
same_rollup (a, s) (b, t) = a == b && nat_eq s t

pub same_rollup_iff : (p q : RollupKey) → (same_rollup p q ≡ true) ↔ (p ≡ q)
same_rollup_iff (a, s) (b, t) = ground (arith, text_key.same_iff a b, nat_eq_iff s t)

instance abbrev pub rollup_key : Key RollupKey
rollup_key = record { same = same_rollup; same_iff = same_rollup_iff }

abbrev pub timestamp_of : Value → ℕ
timestamp_of (time t) = t
timestamp_of _ = 0

abbrev pub key_of : Row → RollupKey
key_of t = (text_of_cell "id" t, timestamp_of (cell "timestamp" t))

-- `s.project_id = ft.project_id AND s.trace_id = ft.id AND s.value IS NOT NULL`
abbrev pub valued_of_trace : Row → Row → Bool
valued_of_trace t s = of_trace t s && not (is_null (cell "value" s))

-- The right table's rows of a LEFT JOIN; where there is none all its columns are NULL.
abbrev pub right_row : Option Row → Row
right_row none = []
right_row (some r) = r

abbrev pub right_rows : List (Row × Option Row) → List Row
right_rows rows = map (λ j. right_row j.1) rows

module _ (pg : Postgres) where
  unfoldable pub trace_rollup : RollupKey × List (Row × Option Row) → TraceRollup
  trace_rollup ((id, timestamp), rows) = record {
    id = id;
    timestamp = time timestamp;
    total_cost = aggregate pg.sum (column "total_cost" (right_rows rows));
    latency_ms = latency_of pg (right_rows rows);
  }

  unfoldable pub trace_rollups : List Row → Database → List TraceRollup
  trace_rollups filtered db =
      map trace_rollup (group_by (λ j. key_of j.0) (left_join of_trace filtered db.observations))

  unfoldable pub score_rollups : List Row → Database → List (String × Value)
  score_rollups filtered db =
      map (λ g. (g.0, aggregate pg.avg (column "value" (right_rows g.1))))
        (group_by (λ j. text_of_cell "id" j.0) (left_join valued_of_trace filtered db.scores))

  abbrev pub joined_rollup : TraceRollup × Option (String × Value) → JoinedRollup
  joined_rollup (tr, none) = record { trace = tr; avg_score = null }
  joined_rollup (tr, some sr) = record { trace = tr; avg_score = sr.1 }

  -- `sr.id = tr.id`
  abbrev pub is_score_of : TraceRollup → String × Value → Bool
  is_score_of tr sr = sr.0 == tr.id

  -- `trace_rollups tr LEFT JOIN score_rollups sr ON sr.id = tr.id`
  unfoldable pub rollups : String → ℕ → ℕ → Option Bool → Database → List JoinedRollup
  rollups p now days is_experiment db =
      let filtered = keep (is_filtered p now days is_experiment) db.traces in
      map joined_rollup
        (left_join is_score_of (trace_rollups filtered db) (score_rollups filtered db))

  abbrev pub day_of : JoinedRollup → ℕ
  day_of r = pg.date_trunc r.trace.timestamp

  abbrev pub day_order : ℕ × List JoinedRollup → ℕ × List JoinedRollup → Bool
  day_order a b = leb a.0 b.0

  module _ (py : Python) where
    unfoldable pub summarise : List JoinedRollup → Summary
    summarise rs = record {
      traces = length rs;
      cost =
          optional_float py (aggregate pg.sum (map (λ (r : JoinedRollup). r.trace.total_cost) rs));
      avg_latency_ms =
          optional_float py (aggregate pg.avg (map (λ (r : JoinedRollup). r.trace.latency_ms) rs));
      avg_score = optional_float py (aggregate pg.avg (map (λ (r : JoinedRollup). r.avg_score) rs));
    }

    unfoldable pub daily_metrics : ℕ → ℕ → Option Bool → AuthContext → Database → DailyMetrics
    daily_metrics now days is_experiment ctx db =
        let rs = rollups ctx.project_id now days is_experiment db in
        record {
          days = days;
          traffic = elim is_experiment [
            | none ↦ "all"
            | some experiments ↦ if experiments then "experiments" else "production"
          ];
          summary = summarise rs;
          rows = map (λ g. (g.0, summarise g.1)) (order_by day_order (group_by day_of rs));
        }
