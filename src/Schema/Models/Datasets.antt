-- ===== src/Schema/Models/Datasets.antt =====
-- Dataset, DatasetItem, DatasetRun, DatasetRunItem of agent-observability/worker/models.py.
use open_weave.Prelude.{String, false, [], ◌∷◌}
use open_weave.Prelude.Dict.{Dict}
use open_weave.Schema.{
  Index, Table, string, text, timestamptz, jsonb, enumeration, required_column, nullable, defaulted,
  primary_key, unique, foreign_key,
}
use open_weave.Schema.Models.Enums.{dataset_item_status_values}

abbrev pub dataset_table : Table
dataset_table = record {
  columns =
      required_column "project_id" string
      ∷ required_column "id" string
      ∷ required_column "name" string
      ∷ nullable "description" text
      ∷ nullable "metadata" jsonb
      ∷ defaulted "created_at" timestamptz
      ∷ required_column "updated_at" timestamptz
      ∷ [];
  constraints =
      foreign_key "project_id" "projects" "id" "CASCADE"
      ∷ primary_key ("project_id" ∷ "id" ∷ [])
      ∷ unique "uq_dataset_project_name" ("project_id" ∷ "name" ∷ [])
      ∷ [];
}

abbrev pub dataset_item_table : Table
dataset_item_table = record {
  columns =
      required_column "project_id" string
      ∷ required_column "id" string
      ∷ required_column "dataset_id" string
      ∷ nullable "input" jsonb
      ∷ nullable "expected_output" jsonb
      ∷ nullable "metadata" jsonb
      ∷ nullable "source_trace_id" string
      ∷ nullable "source_observation_id" string
      ∷ required_column "status" (enumeration "dataset_item_status" dataset_item_status_values)
      ∷ defaulted "created_at" timestamptz
      ∷ required_column "updated_at" timestamptz
      ∷ [];
  constraints =
      foreign_key "project_id" "projects" "id" "CASCADE"
      ∷ primary_key ("project_id" ∷ "id" ∷ [])
      ∷ [];
}

abbrev pub dataset_run_table : Table
dataset_run_table = record {
  columns =
      required_column "project_id" string
      ∷ required_column "id" string
      ∷ required_column "dataset_id" string
      ∷ required_column "name" string
      ∷ nullable "description" text
      ∷ nullable "metadata" jsonb
      ∷ defaulted "created_at" timestamptz
      ∷ [];
  constraints =
      foreign_key "project_id" "projects" "id" "CASCADE"
      ∷ primary_key ("project_id" ∷ "id" ∷ [])
      ∷ unique "uq_dataset_run_name" ("project_id" ∷ "dataset_id" ∷ "name" ∷ [])
      ∷ [];
}

abbrev pub dataset_run_item_table : Table
dataset_run_item_table = record {
  columns =
      required_column "project_id" string
      ∷ required_column "id" string
      ∷ required_column "dataset_run_id" string
      ∷ required_column "dataset_item_id" string
      ∷ required_column "trace_id" string
      ∷ nullable "observation_id" string
      ∷ defaulted "created_at" timestamptz
      ∷ [];
  constraints =
      foreign_key "project_id" "projects" "id" "CASCADE"
      ∷ primary_key ("project_id" ∷ "id" ∷ [])
      ∷ unique "uq_run_item_once_per_run" ("project_id" ∷ "dataset_run_id" ∷ "dataset_item_id" ∷ [])
      ∷ [];
}

abbrev pub dataset_run_indexes : Dict String Index
dataset_run_indexes =
    (
      "ix_dataset_runs_project_dataset",
      record {
        table = "dataset_runs";
        columns = (("project_id", false) ∷ ("dataset_id", false) ∷ []);
        gin = false;
      },
    )
    ∷ []

abbrev pub dataset_run_item_indexes : Dict String Index
dataset_run_item_indexes =
    (
      "ix_run_items_trace",
      record {
        table = "dataset_run_items";
        columns = (("project_id", false) ∷ ("trace_id", false) ∷ []);
        gin = false;
      },
    )
    ∷ (
      "ix_run_items_project_run",
      record {
        table = "dataset_run_items";
        columns = (("project_id", false) ∷ ("dataset_run_id", false) ∷ []);
        gin = false;
      },
    )
    ∷ []

abbrev pub dataset_item_indexes : Dict String Index
dataset_item_indexes =
    (
      "ix_dataset_items_source_trace",
      record { table = "dataset_items"; columns = (("source_trace_id", false) ∷ []); gin = false },
    )
    ∷ (
      "ix_dataset_items_project_dataset",
      record {
        table = "dataset_items";
        columns = (("project_id", false) ∷ ("dataset_id", false) ∷ []);
        gin = false;
      },
    )
    ∷ []
