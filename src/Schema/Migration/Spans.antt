-- ===== src/Schema/Migration/Spans.antt =====
-- `upgrade` of agent-observability/worker/migrations/versions/1983f984a553, table by table.
use open_weave.Prelude.{false, true, List, [], ◌∷◌}
use open_weave.Schema.{
  string, text, integer, double, boolean, timestamptz, jsonb, string_array, numeric, enumeration,
  required_column, nullable, defaulted, computed_column, primary_key, unique, check, foreign_key,
  Operation, create_table, create_index,
}

abbrev pub create_score_configs : List Operation
create_score_configs =
    create_table "score_configs" (record {
      columns =
          required_column "project_id" string
          ∷ required_column "id" string
          ∷ required_column "name" string
          ∷ required_column "data_type"
              (enumeration "score_data_type" ("NUMERIC" ∷ "CATEGORICAL" ∷ "BOOLEAN" ∷ []))
          ∷ nullable "min_value" double
          ∷ nullable "max_value" double
          ∷ nullable "categories" jsonb
          ∷ nullable "description" text
          ∷ required_column "is_archived" boolean
          ∷ defaulted "created_at" timestamptz
          ∷ [];
      constraints =
          foreign_key "project_id" "projects" "id" "CASCADE"
          ∷ primary_key ("project_id" ∷ "id" ∷ [])
          ∷ unique "uq_score_config_project_name" ("project_id" ∷ "name" ∷ [])
          ∷ [];
    })
    ∷ []

abbrev pub create_traces : List Operation
create_traces =
    create_table "traces" (record {
      columns =
          required_column "project_id" string
          ∷ required_column "id" string
          ∷ nullable "name" string
          ∷ nullable "user_id" string
          ∷ nullable "session_id" string
          ∷ required_column "timestamp" timestamptz
          ∷ nullable "input" text
          ∷ nullable "output" text
          ∷ nullable "metadata" jsonb
          ∷ nullable "tags" string_array
          ∷ nullable "release" string
          ∷ nullable "version" string
          ∷ required_column "is_experiment" boolean
          ∷ defaulted "created_at" timestamptz
          ∷ required_column "updated_at" timestamptz
          ∷ [];
      constraints =
          foreign_key "project_id" "projects" "id" "CASCADE"
          ∷ primary_key ("project_id" ∷ "id" ∷ [])
          ∷ [];
    })
    ∷ create_index "ix_traces_metadata"
        (record { table = "traces"; columns = (("metadata", false) ∷ []); gin = true })
    ∷ create_index "ix_traces_project_session" (record {
      table = "traces";
      columns = (("project_id", false) ∷ ("session_id", false) ∷ []);
      gin = false;
    })
    ∷ create_index "ix_traces_project_timestamp" (record {
      table = "traces";
      columns = (("project_id", false) ∷ ("timestamp", true) ∷ []);
      gin = false;
    })
    ∷ create_index "ix_traces_project_user" (record {
      table = "traces";
      columns = (("project_id", false) ∷ ("user_id", false) ∷ []);
      gin = false;
    })
    ∷ create_index "ix_traces_tags"
        (record { table = "traces"; columns = (("tags", false) ∷ []); gin = true })
    ∷ []

abbrev pub create_observations : List Operation
create_observations =
    create_table "observations" (record {
      columns =
          required_column "project_id" string
          ∷ required_column "id" string
          ∷ required_column "trace_id" string
          ∷ nullable "parent_observation_id" string
          ∷ required_column "type" (
              enumeration "observation_type" (
                "SPAN" ∷ "GENERATION" ∷ "EVENT" ∷ "AGENT" ∷ "TOOL" ∷ "CHAIN" ∷ "RETRIEVER"
                ∷ "EMBEDDING" ∷ "GUARDRAIL" ∷ []))
          ∷ nullable "name" string
          ∷ required_column "start_time" timestamptz
          ∷ nullable "end_time" timestamptz
          ∷ nullable "completion_start_time" timestamptz
          ∷ computed_column "latency_ms" double "EXTRACT(EPOCH FROM (end_time - start_time)) * 1000"
          ∷ computed_column "time_to_first_token_ms" double
              "EXTRACT(EPOCH FROM (completion_start_time - start_time)) * 1000"
          ∷ required_column "level"
              (enumeration "observation_level" ("DEBUG" ∷ "DEFAULT" ∷ "WARNING" ∷ "ERROR" ∷ []))
          ∷ nullable "status_message" text
          ∷ nullable "input" text
          ∷ nullable "output" text
          ∷ nullable "metadata" jsonb
          ∷ nullable "provided_model_name" string
          ∷ nullable "internal_model_id" string
          ∷ nullable "model_parameters" jsonb
          ∷ nullable "provided_usage_details" jsonb
          ∷ nullable "usage_details" jsonb
          ∷ nullable "provided_cost_details" jsonb
          ∷ nullable "cost_details" jsonb
          ∷ nullable "total_cost" (numeric 18 12)
          ∷ nullable "prompt_name" string
          ∷ nullable "prompt_version" integer
          ∷ defaulted "created_at" timestamptz
          ∷ required_column "updated_at" timestamptz
          ∷ [];
      constraints =
          check "ck_obs_end_after_start" "end_time IS NULL OR end_time >= start_time"
          ∷ foreign_key "internal_model_id" "models" "id" "SET NULL"
          ∷ foreign_key "project_id" "projects" "id" "CASCADE"
          ∷ primary_key ("project_id" ∷ "id" ∷ [])
          ∷ [];
    })
    ∷ create_index "ix_obs_metadata"
        (record { table = "observations"; columns = (("metadata", false) ∷ []); gin = true })
    ∷ create_index "ix_obs_project_model" (record {
      table = "observations";
      columns = (("project_id", false) ∷ ("provided_model_name", false) ∷ []);
      gin = false;
    })
    ∷ create_index "ix_obs_project_parent" (record {
      table = "observations";
      columns = (("project_id", false) ∷ ("parent_observation_id", false) ∷ []);
      gin = false;
    })
    ∷ create_index "ix_obs_project_trace" (record {
      table = "observations";
      columns = (("project_id", false) ∷ ("trace_id", false) ∷ []);
      gin = false;
    })
    ∷ create_index "ix_obs_project_type_start" (record {
      table = "observations";
      columns = (("project_id", false) ∷ ("type", false) ∷ ("start_time", true) ∷ []);
      gin = false;
    })
    ∷ []

abbrev pub create_prices : List Operation
create_prices =
    create_table "prices" (record {
      columns =
          required_column "id" string
          ∷ required_column "model_id" string
          ∷ required_column "usage_type" string
          ∷ required_column "price" (numeric 24 18)
          ∷ [];
      constraints =
          foreign_key "model_id" "models" "id" "CASCADE"
          ∷ primary_key ("id" ∷ [])
          ∷ unique "uq_price_model_usage" ("model_id" ∷ "usage_type" ∷ [])
          ∷ [];
    })
    ∷ []

abbrev pub create_scores : List Operation
create_scores =
    create_table "scores" (record {
      columns =
          required_column "project_id" string
          ∷ required_column "id" string
          ∷ nullable "trace_id" string
          ∷ nullable "observation_id" string
          ∷ nullable "dataset_run_item_id" string
          ∷ required_column "name" string
          ∷ required_column "data_type"
              (enumeration "score_data_type" ("NUMERIC" ∷ "CATEGORICAL" ∷ "BOOLEAN" ∷ []))
          ∷ nullable "value" double
          ∷ nullable "string_value" string
          ∷ required_column "source"
              (enumeration "score_source" ("API" ∷ "EVAL" ∷ "ANNOTATION" ∷ []))
          ∷ nullable "comment" text
          ∷ nullable "config_id" string
          ∷ nullable "evaluator_version_id" string
          ∷ nullable "author_user_id" string
          ∷ required_column "timestamp" timestamptz
          ∷ defaulted "created_at" timestamptz
          ∷ [];
      constraints =
          check "ck_scores_value_matches_type"
            "(data_type = 'CATEGORICAL' AND string_value IS NOT NULL) OR (data_type <> 'CATEGORICAL' AND value IS NOT NULL)"
          ∷ check "ck_scores_exactly_one_anchor"
              "(trace_id IS NOT NULL)::int + (dataset_run_item_id IS NOT NULL)::int = 1"
          ∷ foreign_key "evaluator_version_id" "evaluator_versions" "id" "SET NULL"
          ∷ foreign_key "project_id" "projects" "id" "CASCADE"
          ∷ primary_key ("project_id" ∷ "id" ∷ [])
          ∷ [];
    })
    ∷ create_index "ix_scores_project_name_ts" (record {
      table = "scores";
      columns = (("project_id", false) ∷ ("name", false) ∷ ("timestamp", true) ∷ []);
      gin = false;
    })
    ∷ create_index "ix_scores_project_observation" (record {
      table = "scores";
      columns = (("project_id", false) ∷ ("observation_id", false) ∷ []);
      gin = false;
    })
    ∷ create_index "ix_scores_project_run_item" (record {
      table = "scores";
      columns = (("project_id", false) ∷ ("dataset_run_item_id", false) ∷ []);
      gin = false;
    })
    ∷ create_index "ix_scores_project_trace" (record {
      table = "scores";
      columns = (("project_id", false) ∷ ("trace_id", false) ∷ []);
      gin = false;
    })
    ∷ []
