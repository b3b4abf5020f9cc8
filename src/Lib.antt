-- ===== src/Lib.antt =====
-- openWeave's observability backend (agent-observability): events that SDKs send are validated and
-- enqueued by the ingestion server, written in batches by the worker, priced, and judged by the
-- eval worker; every caller is authenticated against a table of keys with a cache in front.
--
-- Parts, files and the code that they model:
--   Prelude            shared names, dictionaries, lists, results, integers
--   Python             JSON values, rows, Python's errors; its library as a record of functions
--   Pricing            agent-observability/shared/pricing.py: `ModelPriceCache` (Pricing, Cache),
--                      `compute_cost` (Cost), `resolve_costs` with its two statements (Resolve)
--   Auth               agent-observability/shared/auth.py: `parse_basic_auth` (Header),
--                      `ApiKeyVerifier` (Verifier)
--   Ingest             agent-observability/ingestion-server/server.py: `_validate`, `IngestBatch`,
--                      `Health`
--   Worker             agent-observability/worker/worker.py: conversions (Convert), row builders
--                      (Rows), the upserts as functions on a table (Upsert), `apply_events` (Apply),
--                      `handle_batch` and the loop around it (Stream)
--   Evaluator          agent-observability/evaluator: judge.py (Judge, Schema), eval_worker.py
--                      (Rules, Run, Settling)
--   Sdk                agent-observability/sdk: openweave.py (the queue; Spans, Bodies) and experiment.py
--                      (Experiment, Waiting, and Comparing for its query to the API)
--   Api                agent-observability/api-server/main.py: who may read and write (Access), the
--                      queries' vocabulary (Sql), `list_traces` (Traces), `get_trace` (Tree), the
--                      handlers on datasets and runs (Datasets), `compare_runs` (Compare) and
--                      `daily_metrics` (Metrics)
--   Schema             agent-observability/worker/models.py (Models) and the migration
--                      worker/migrations/versions/1983f984a553 beside it (Migration): the tables as
--                      data, a migration as a list of operations, what Postgres does for each
--   Tests              the theorems at concrete inputs
-- A part meets another where the code does: the ingestion server takes the outcome of the verifier
-- and puts texts on a stream; the worker takes such texts as messages, prices with the rows of a
-- `ModelPriceCache`, and announces traces; the eval worker takes announcements as messages.
-- The API takes the outcome of the verifier too, and reads the tables as lists of rows. The
-- tables that the worker fills are declared by the schema.
--
-- How the code corresponds: state is a record that each operation takes and gives back. A raised
-- error is `err`; a transaction that raises gives no new tables, while what Redis was told stays.
-- Tables are association lists by key; INSERT ... ON CONFLICT is a function on them. Instants are
-- natural numbers in the clock's units, doubles their bit patterns, decimals exact integers in a
-- fixed unit. The clock is read once in an operation and is an argument. Sets are lists with no
-- repetition. Loops over lists are structural recursion; the only fuel is the rounds of
-- `flush` that end before its deadline, where as many as there are events in the queue are enough,
-- the levels of a written trace, where as many as the trace has spans are enough, and the rounds of
-- `wait_for_scores`, where one more than the intervals in its timeout are enough.
-- The endless loops of the processes are given round by round.
--
-- Parameters: Python's library (dates, numbers, JSON), `re.compile`, base64, SHA-256, the HTTP
-- requests of the judges, and what Redis and Postgres accept or give back.
--
-- Not modelled: the start and the wiring of the processes, logging, the relationships of the
-- ORM, alembic's wiring, scripts. The API's
-- aggregates, order on values and JSON texts are Postgres', and parameters.
pub mod Prelude
pub mod Python
pub mod Pricing
pub mod Auth
pub mod Ingest
pub mod Worker
pub mod Evaluator
pub mod Sdk
pub mod Api
pub mod Schema
pub mod Tests
