-- ===== src/Schema/Models/Spans.antt =====
-- Trace, Observation of agent-observability/worker/models.py.
use open_weave.Prelude.{String, true, false, [], ◌∷◌}
use open_weave.Prelude.Dict.{Dict}
use open_weave.Schema.{
  Index, Table, string, text, integer, double, boolean, timestamptz, jsonb, string_array, numeric,
  enumeration, required_column, nullable, defaulted, computed_column, primary_key, check,
  foreign_key,
}
use open_weave.Schema.Models.Enums.{observation_level_values, observation_type_values}

abbrev pub trace_table : Table
trace_table = record {
  columns =
      required_column "project_id" string
      ∷ required_column "id" string
      ∷ nullable "name" string
      ∷ nullable "user_id" string
      ∷ nullable "session_id" string
      ∷ required_column "timestamp" timestamptz
      ∷ nullable "input" text
      ∷ nullable "output" text
      ∷ nullable "metadata" jsonb
      ∷ nullable "tags" string_array
      ∷ nullable "release" string
      ∷ nullable "version" string
      ∷ required_column "is_experiment" boolean
      ∷ defaulted "created_at" timestamptz
      ∷ required_column "updated_at" timestamptz
      ∷ [];
  constraints =
      foreign_key "project_id" "projects" "id" "CASCADE"
      ∷ primary_key ("project_id" ∷ "id" ∷ [])
      ∷ [];
}

abbrev pub observation_table : Table
observation_table = record {
  columns =
      required_column "project_id" string
      ∷ required_column "id" string
      ∷ required_column "trace_id" string
      ∷ nullable "parent_observation_id" string
      ∷ required_column "type" (enumeration "observation_type" observation_type_values)
      ∷ nullable "name" string
      ∷ required_column "start_time" timestamptz
      ∷ nullable "end_time" timestamptz
      ∷ nullable "completion_start_time" timestamptz
      ∷ computed_column "latency_ms" double "EXTRACT(EPOCH FROM (end_time - start_time)) * 1000"
      ∷ computed_column "time_to_first_token_ms" double
          "EXTRACT(EPOCH FROM (completion_start_time - start_time)) * 1000"
      ∷ required_column "level" (enumeration "observation_level" observation_level_values)
      ∷ nullable "status_message" text
      ∷ nullable "input" text
      ∷ nullable "output" text
      ∷ nullable "metadata" jsonb
      ∷ nullable "provided_model_name" string
      ∷ nullable "internal_model_id" string
      ∷ nullable "model_parameters" jsonb
      ∷ nullable "provided_usage_details" jsonb
      ∷ nullable "usage_details" jsonb
      ∷ nullable "provided_cost_details" jsonb
      ∷ nullable "cost_details" jsonb
      ∷ nullable "total_cost" (numeric 18 12)
      ∷ nullable "prompt_name" string
      ∷ nullable "prompt_version" integer
      ∷ defaulted "created_at" timestamptz
      ∷ required_column "updated_at" timestamptz
      ∷ [];
  constraints =
      check "ck_obs_end_after_start" "end_time IS NULL OR end_time >= start_time"
      ∷ foreign_key "internal_model_id" "models" "id" "SET NULL"
      ∷ foreign_key "project_id" "projects" "id" "CASCADE"
      ∷ primary_key ("project_id" ∷ "id" ∷ [])
      ∷ [];
}

abbrev pub observation_indexes : Dict String Index
observation_indexes =
    (
      "ix_obs_project_type_start",
      record {
        table = "observations";
        columns = (("project_id", false) ∷ ("type", false) ∷ ("start_time", true) ∷ []);
        gin = false;
      },
    )
    ∷ (
      "ix_obs_project_trace",
      record {
        table = "observations";
        columns = (("project_id", false) ∷ ("trace_id", false) ∷ []);
        gin = false;
      },
    )
    ∷ (
      "ix_obs_project_parent",
      record {
        table = "observations";
        columns = (("project_id", false) ∷ ("parent_observation_id", false) ∷ []);
        gin = false;
      },
    )
    ∷ (
      "ix_obs_project_model",
      record {
        table = "observations";
        columns = (("project_id", false) ∷ ("provided_model_name", false) ∷ []);
        gin = false;
      },
    )
    ∷ (
      "ix_obs_metadata",
      record { table = "observations"; columns = (("metadata", false) ∷ []); gin = true },
    )
    ∷ []

abbrev pub trace_indexes : Dict String Index
trace_indexes =
    ("ix_traces_tags", record { table = "traces"; columns = (("tags", false) ∷ []); gin = true })
    ∷ (
      "ix_traces_project_user",
      record {
        table = "traces";
        columns = (("project_id", false) ∷ ("user_id", false) ∷ []);
        gin = false;
      },
    )
    ∷ (
      "ix_traces_project_timestamp",
      record {
        table = "traces";
        columns = (("project_id", false) ∷ ("timestamp", true) ∷ []);
        gin = false;
      },
    )
    ∷ (
      "ix_traces_project_session",
      record {
        table = "traces";
        columns = (("project_id", false) ∷ ("session_id", false) ∷ []);
        gin = false;
      },
    )
    ∷ (
      "ix_traces_metadata",
      record { table = "traces"; columns = (("metadata", false) ∷ []); gin = true },
    )
    ∷ []
