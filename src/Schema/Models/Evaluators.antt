-- ===== src/Schema/Models/Evaluators.antt =====
-- Evaluator, EvaluatorVersion, EvaluationRule, JobExecution of agent-observability/worker/models.py.
use open_weave.Prelude.{String, false, [], ◌∷◌}
use open_weave.Prelude.Dict.{Dict}
use open_weave.Schema.{
  Index, Table, string, text, integer, double, boolean, timestamptz, jsonb, numeric, enumeration,
  required_column, nullable, defaulted, primary_key, unique, check, foreign_key,
}
use open_weave.Schema.Models.Enums.{eval_target_values, job_status_values, score_data_type_values}

abbrev pub evaluator_table : Table
evaluator_table = record {
  columns =
      required_column "project_id" string
      ∷ required_column "id" string
      ∷ required_column "name" string
      ∷ nullable "description" text
      ∷ defaulted "created_at" timestamptz
      ∷ [];
  constraints =
      foreign_key "project_id" "projects" "id" "CASCADE"
      ∷ primary_key ("project_id" ∷ "id" ∷ [])
      ∷ unique "uq_evaluator_project_name" ("project_id" ∷ "name" ∷ [])
      ∷ [];
}

abbrev pub evaluator_version_table : Table
evaluator_version_table = record {
  columns =
      required_column "id" string
      ∷ required_column "project_id" string
      ∷ required_column "evaluator_id" string
      ∷ required_column "version" integer
      ∷ required_column "prompt" text
      ∷ required_column "model" string
      ∷ nullable "provider" string
      ∷ nullable "model_params" jsonb
      ∷ nullable "variable_mapping" jsonb
      ∷ nullable "output_schema" jsonb
      ∷ required_column "score_name" string
      ∷ required_column "score_data_type" (enumeration "score_data_type" score_data_type_values)
      ∷ defaulted "created_at" timestamptz
      ∷ [];
  constraints =
      foreign_key "project_id" "projects" "id" "CASCADE"
      ∷ primary_key ("id" ∷ [])
      ∷ unique "uq_evaluator_version" ("evaluator_id" ∷ "version" ∷ [])
      ∷ [];
}

abbrev pub evaluation_rule_table : Table
evaluation_rule_table = record {
  columns =
      required_column "project_id" string
      ∷ required_column "id" string
      ∷ required_column "evaluator_id" string
      ∷ required_column "target" (enumeration "eval_target" eval_target_values)
      ∷ nullable "filter" jsonb
      ∷ required_column "sampling_rate" double
      ∷ required_column "is_active" boolean
      ∷ defaulted "created_at" timestamptz
      ∷ [];
  constraints =
      check "ck_eval_rule_sampling_range" "sampling_rate >= 0 AND sampling_rate <= 1"
      ∷ foreign_key "project_id" "projects" "id" "CASCADE"
      ∷ primary_key ("project_id" ∷ "id" ∷ [])
      ∷ [];
}

abbrev pub job_execution_table : Table
job_execution_table = record {
  columns =
      required_column "project_id" string
      ∷ required_column "id" string
      ∷ required_column "evaluator_version_id" string
      ∷ nullable "rule_id" string
      ∷ nullable "trace_id" string
      ∷ nullable "observation_id" string
      ∷ nullable "dataset_run_item_id" string
      ∷ required_column "status" (enumeration "job_status" job_status_values)
      ∷ nullable "score_id" string
      ∷ nullable "error" text
      ∷ required_column "retry_count" integer
      ∷ nullable "judge_latency_ms" double
      ∷ nullable "judge_cost" (numeric 18 12)
      ∷ defaulted "created_at" timestamptz
      ∷ nullable "started_at" timestamptz
      ∷ nullable "ended_at" timestamptz
      ∷ [];
  constraints =
      foreign_key "project_id" "projects" "id" "CASCADE"
      ∷ primary_key ("project_id" ∷ "id" ∷ [])
      ∷ [];
}

abbrev pub job_execution_indexes : Dict String Index
job_execution_indexes =
    (
      "ix_jobs_project_trace",
      record {
        table = "job_executions";
        columns = (("project_id", false) ∷ ("trace_id", false) ∷ []);
        gin = false;
      },
    )
    ∷ (
      "ix_jobs_project_status",
      record {
        table = "job_executions";
        columns = (("project_id", false) ∷ ("status", false) ∷ []);
        gin = false;
      },
    )
    ∷ (
      "ix_jobs_project_run_item",
      record {
        table = "job_executions";
        columns = (("project_id", false) ∷ ("dataset_run_item_id", false) ∷ []);
        gin = false;
      },
    )
    ∷ []

abbrev pub evaluator_version_indexes : Dict String Index
evaluator_version_indexes =
    (
      "ix_evaluator_versions_project",
      record {
        table = "evaluator_versions";
        columns = (("project_id", false) ∷ ("evaluator_id", false) ∷ []);
        gin = false;
      },
    )
    ∷ []

abbrev pub evaluation_rule_indexes : Dict String Index
evaluation_rule_indexes =
    (
      "ix_eval_rules_project_active",
      record {
        table = "evaluation_rules";
        columns = (("project_id", false) ∷ ("is_active", false) ∷ []);
        gin = false;
      },
    )
    ∷ []
