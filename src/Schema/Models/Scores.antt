-- ===== src/Schema/Models/Scores.antt =====
-- ScoreConfig, Score of agent-observability/worker/models.py.
use open_weave.Prelude.{String, true, false, [], ◌∷◌}
use open_weave.Prelude.Dict.{Dict}
use open_weave.Schema.{
  Index, Table, string, text, double, boolean, timestamptz, jsonb, enumeration, required_column,
  nullable, defaulted, primary_key, unique, check, foreign_key,
}
use open_weave.Schema.Models.Enums.{score_data_type_values, score_source_values}

abbrev pub score_config_table : Table
score_config_table = record {
  columns =
      required_column "project_id" string
      ∷ required_column "id" string
      ∷ required_column "name" string
      ∷ required_column "data_type" (enumeration "score_data_type" score_data_type_values)
      ∷ nullable "min_value" double
      ∷ nullable "max_value" double
      ∷ nullable "categories" jsonb
      ∷ nullable "description" text
      ∷ required_column "is_archived" boolean
      ∷ defaulted "created_at" timestamptz
      ∷ [];
  constraints =
      foreign_key "project_id" "projects" "id" "CASCADE"
      ∷ primary_key ("project_id" ∷ "id" ∷ [])
      ∷ unique "uq_score_config_project_name" ("project_id" ∷ "name" ∷ [])
      ∷ [];
}

abbrev pub score_table : Table
score_table = record {
  columns =
      required_column "project_id" string
      ∷ required_column "id" string
      ∷ nullable "trace_id" string
      ∷ nullable "observation_id" string
      ∷ nullable "dataset_run_item_id" string
      ∷ required_column "name" string
      ∷ required_column "data_type" (enumeration "score_data_type" score_data_type_values)
      ∷ nullable "value" double
      ∷ nullable "string_value" string
      ∷ required_column "source" (enumeration "score_source" score_source_values)
      ∷ nullable "comment" text
      ∷ nullable "config_id" string
      ∷ nullable "evaluator_version_id" string
      ∷ nullable "author_user_id" string
      ∷ required_column "timestamp" timestamptz
      ∷ defaulted "created_at" timestamptz
      ∷ [];
  constraints =
      check "ck_scores_value_matches_type"
        "(data_type = 'CATEGORICAL' AND string_value IS NOT NULL) OR (data_type <> 'CATEGORICAL' AND value IS NOT NULL)"
      ∷ check "ck_scores_exactly_one_anchor"
          "(trace_id IS NOT NULL)::int + (dataset_run_item_id IS NOT NULL)::int = 1"
      ∷ foreign_key "evaluator_version_id" "evaluator_versions" "id" "SET NULL"
      ∷ foreign_key "project_id" "projects" "id" "CASCADE"
      ∷ primary_key ("project_id" ∷ "id" ∷ [])
      ∷ [];
}

abbrev pub score_indexes : Dict String Index
score_indexes =
    (
      "ix_scores_project_trace",
      record {
        table = "scores";
        columns = (("project_id", false) ∷ ("trace_id", false) ∷ []);
        gin = false;
      },
    )
    ∷ (
      "ix_scores_project_run_item",
      record {
        table = "scores";
        columns = (("project_id", false) ∷ ("dataset_run_item_id", false) ∷ []);
        gin = false;
      },
    )
    ∷ (
      "ix_scores_project_observation",
      record {
        table = "scores";
        columns = (("project_id", false) ∷ ("observation_id", false) ∷ []);
        gin = false;
      },
    )
    ∷ (
      "ix_scores_project_name_ts",
      record {
        table = "scores";
        columns = (("project_id", false) ∷ ("name", false) ∷ ("timestamp", true) ∷ []);
        gin = false;
      },
    )
    ∷ []
