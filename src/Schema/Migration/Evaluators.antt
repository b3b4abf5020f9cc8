-- ===== src/Schema/Migration/Evaluators.antt =====
-- `upgrade` of agent-observability/worker/migrations/versions/1983f984a553, table by table.
use open_weave.Prelude.{false, List, [], ◌∷◌}
use open_weave.Schema.{
  string, text, integer, double, boolean, timestamptz, jsonb, numeric, enumeration, required_column,
  nullable, defaulted, primary_key, unique, check, foreign_key, Operation, create_table,
  create_index,
}

abbrev pub create_datasets : List Operation
create_datasets =
    create_table "datasets" (record {
      columns =
          required_column "project_id" string
          ∷ required_column "id" string
          ∷ required_column "name" string
          ∷ nullable "description" text
          ∷ nullable "metadata" jsonb
          ∷ defaulted "created_at" timestamptz
          ∷ required_column "updated_at" timestamptz
          ∷ [];
      constraints =
          foreign_key "project_id" "projects" "id" "CASCADE"
          ∷ primary_key ("project_id" ∷ "id" ∷ [])
          ∷ unique "uq_dataset_project_name" ("project_id" ∷ "name" ∷ [])
          ∷ [];
    })
    ∷ []

abbrev pub create_evaluation_rules : List Operation
create_evaluation_rules =
    create_table "evaluation_rules" (record {
      columns =
          required_column "project_id" string
          ∷ required_column "id" string
          ∷ required_column "evaluator_id" string
          ∷ required_column "target" (enumeration "eval_target" ("TRACE" ∷ "DATASET_RUN_ITEM" ∷ []))
          ∷ nullable "filter" jsonb
          ∷ required_column "sampling_rate" double
          ∷ required_column "is_active" boolean
          ∷ defaulted "created_at" timestamptz
          ∷ [];
      constraints =
          check "ck_eval_rule_sampling_range" "sampling_rate >= 0 AND sampling_rate <= 1"
          ∷ foreign_key "project_id" "projects" "id" "CASCADE"
          ∷ primary_key ("project_id" ∷ "id" ∷ [])
          ∷ [];
    })
    ∷ create_index "ix_eval_rules_project_active" (record {
      table = "evaluation_rules";
      columns = (("project_id", false) ∷ ("is_active", false) ∷ []);
      gin = false;
    })
    ∷ []

abbrev pub create_evaluator_versions : List Operation
create_evaluator_versions =
    create_table "evaluator_versions" (record {
      columns =
          required_column "id" string
          ∷ required_column "project_id" string
          ∷ required_column "evaluator_id" string
          ∷ required_column "version" integer
          ∷ required_column "prompt" text
          ∷ required_column "model" string
          ∷ nullable "provider" string
          ∷ nullable "model_params" jsonb
          ∷ nullable "variable_mapping" jsonb
          ∷ nullable "output_schema" jsonb
          ∷ required_column "score_name" string
          ∷ required_column "score_data_type"
              (enumeration "score_data_type" ("NUMERIC" ∷ "CATEGORICAL" ∷ "BOOLEAN" ∷ []))
          ∷ defaulted "created_at" timestamptz
          ∷ [];
      constraints =
          foreign_key "project_id" "projects" "id" "CASCADE"
          ∷ primary_key ("id" ∷ [])
          ∷ unique "uq_evaluator_version" ("evaluator_id" ∷ "version" ∷ [])
          ∷ [];
    })
    ∷ create_index "ix_evaluator_versions_project" (record {
      table = "evaluator_versions";
      columns = (("project_id", false) ∷ ("evaluator_id", false) ∷ []);
      gin = false;
    })
    ∷ []

abbrev pub create_evaluators : List Operation
create_evaluators =
    create_table "evaluators" (record {
      columns =
          required_column "project_id" string
          ∷ required_column "id" string
          ∷ required_column "name" string
          ∷ nullable "description" text
          ∷ defaulted "created_at" timestamptz
          ∷ [];
      constraints =
          foreign_key "project_id" "projects" "id" "CASCADE"
          ∷ primary_key ("project_id" ∷ "id" ∷ [])
          ∷ unique "uq_evaluator_project_name" ("project_id" ∷ "name" ∷ [])
          ∷ [];
    })
    ∷ []

abbrev pub create_job_executions : List Operation
create_job_executions =
    create_table "job_executions" (record {
      columns =
          required_column "project_id" string
          ∷ required_column "id" string
          ∷ required_column "evaluator_version_id" string
          ∷ nullable "rule_id" string
          ∷ nullable "trace_id" string
          ∷ nullable "observation_id" string
          ∷ nullable "dataset_run_item_id" string
          ∷ required_column "status" (
              enumeration "job_status"
                ("PENDING" ∷ "RUNNING" ∷ "COMPLETED" ∷ "ERROR" ∷ "CANCELLED" ∷ []))
          ∷ nullable "score_id" string
          ∷ nullable "error" text
          ∷ required_column "retry_count" integer
          ∷ nullable "judge_latency_ms" double
          ∷ nullable "judge_cost" (numeric 18 12)
          ∷ defaulted "created_at" timestamptz
          ∷ nullable "started_at" timestamptz
          ∷ nullable "ended_at" timestamptz
          ∷ [];
      constraints =
          foreign_key "project_id" "projects" "id" "CASCADE"
          ∷ primary_key ("project_id" ∷ "id" ∷ [])
          ∷ [];
    })
    ∷ create_index "ix_jobs_project_run_item" (record {
      table = "job_executions";
      columns = (("project_id", false) ∷ ("dataset_run_item_id", false) ∷ []);
      gin = false;
    })
    ∷ create_index "ix_jobs_project_status" (record {
      table = "job_executions";
      columns = (("project_id", false) ∷ ("status", false) ∷ []);
      gin = false;
    })
    ∷ create_index "ix_jobs_project_trace" (record {
      table = "job_executions";
      columns = (("project_id", false) ∷ ("trace_id", false) ∷ []);
      gin = false;
    })
    ∷ []

abbrev pub create_models : List Operation
create_models =
    create_table "models" (record {
      columns =
          required_column "id" string
          ∷ nullable "project_id" string
          ∷ required_column "model_name" string
          ∷ required_column "match_pattern" string
          ∷ nullable "start_date" timestamptz
          ∷ nullable "tokenizer_id" string
          ∷ nullable "tokenizer_config" jsonb
          ∷ defaulted "created_at" timestamptz
          ∷ [];
      constraints =
          foreign_key "project_id" "projects" "id" "CASCADE" ∷ primary_key ("id" ∷ []) ∷ [];
    })
    ∷ create_index "ix_models_project_name" (record {
      table = "models";
      columns = (("project_id", false) ∷ ("model_name", false) ∷ []);
      gin = false;
    })
    ∷ []
