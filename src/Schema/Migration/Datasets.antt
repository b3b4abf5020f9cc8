-- ===== src/Schema/Migration/Datasets.antt =====
-- `upgrade` of agent-observability/worker/migrations/versions/1983f984a553, table by table.
use open_weave.Prelude.{false, true, List, [], ◌∷◌}
use open_weave.Schema.{
  string, text, integer, timestamptz, jsonb, enumeration, required_column, nullable, defaulted,
  primary_key, unique, foreign_key, Operation, create_table, create_index,
}

abbrev pub create_ingestion_dead_letters : List Operation
create_ingestion_dead_letters =
    create_table "ingestion_dead_letters" (record {
      columns =
          required_column "id" string
          ∷ nullable "project_id" string
          ∷ nullable "event_id" string
          ∷ nullable "stream_message_id" string
          ∷ required_column "payload" jsonb
          ∷ required_column "error" text
          ∷ required_column "retry_count" integer
          ∷ defaulted "created_at" timestamptz
          ∷ [];
      constraints = primary_key ("id" ∷ []) ∷ [];
    })
    ∷ create_index "ix_dlq_project_created" (record {
      table = "ingestion_dead_letters";
      columns = (("project_id", false) ∷ ("created_at", true) ∷ []);
      gin = false;
    })
    ∷ []

abbrev pub create_projects : List Operation
create_projects =
    create_table "projects" (record {
      columns =
          required_column "id" string
          ∷ required_column "name" string
          ∷ nullable "retention_days" integer
          ∷ defaulted "created_at" timestamptz
          ∷ [];
      constraints = primary_key ("id" ∷ []) ∷ unique "uq_projects_name" ("name" ∷ []) ∷ [];
    })
    ∷ []

abbrev pub create_api_keys : List Operation
create_api_keys =
    create_table "api_keys" (record {
      columns =
          required_column "id" string
          ∷ required_column "project_id" string
          ∷ required_column "public_key" string
          ∷ required_column "hashed_secret_key" string
          ∷ required_column "display_secret_key" string
          ∷ nullable "note" string
          ∷ nullable "last_used_at" timestamptz
          ∷ nullable "expires_at" timestamptz
          ∷ defaulted "created_at" timestamptz
          ∷ [];
      constraints =
          foreign_key "project_id" "projects" "id" "CASCADE"
          ∷ primary_key ("id" ∷ [])
          ∷ unique "uq_api_keys_hashed_secret" ("hashed_secret_key" ∷ [])
          ∷ unique "uq_api_keys_public_key" ("public_key" ∷ [])
          ∷ [];
    })
    ∷ create_index "ix_api_keys_project"
        (record { table = "api_keys"; columns = (("project_id", false) ∷ []); gin = false })
    ∷ []

abbrev pub create_dataset_items : List Operation
create_dataset_items =
    create_table "dataset_items" (record {
      columns =
          required_column "project_id" string
          ∷ required_column "id" string
          ∷ required_column "dataset_id" string
          ∷ nullable "input" jsonb
          ∷ nullable "expected_output" jsonb
          ∷ nullable "metadata" jsonb
          ∷ nullable "source_trace_id" string
          ∷ nullable "source_observation_id" string
          ∷ required_column "status"
              (enumeration "dataset_item_status" ("ACTIVE" ∷ "ARCHIVED" ∷ []))
          ∷ defaulted "created_at" timestamptz
          ∷ required_column "updated_at" timestamptz
          ∷ [];
      constraints =
          foreign_key "project_id" "projects" "id" "CASCADE"
          ∷ primary_key ("project_id" ∷ "id" ∷ [])
          ∷ [];
    })
    ∷ create_index "ix_dataset_items_project_dataset" (record {
      table = "dataset_items";
      columns = (("project_id", false) ∷ ("dataset_id", false) ∷ []);
      gin = false;
    })
    ∷ create_index "ix_dataset_items_source_trace" (record {
      table = "dataset_items";
      columns = (("source_trace_id", false) ∷ []);
      gin = false;
    })
    ∷ []

abbrev pub create_dataset_run_items : List Operation
create_dataset_run_items =
    create_table "dataset_run_items" (record {
      columns =
          required_column "project_id" string
          ∷ required_column "id" string
          ∷ required_column "dataset_run_id" string
          ∷ required_column "dataset_item_id" string
          ∷ required_column "trace_id" string
          ∷ nullable "observation_id" string
          ∷ defaulted "created_at" timestamptz
          ∷ [];
      constraints =
          foreign_key "project_id" "projects" "id" "CASCADE"
          ∷ primary_key ("project_id" ∷ "id" ∷ [])
          ∷ unique "uq_run_item_once_per_run"
              ("project_id" ∷ "dataset_run_id" ∷ "dataset_item_id" ∷ [])
          ∷ [];
    })
    ∷ create_index "ix_run_items_project_run" (record {
      table = "dataset_run_items";
      columns = (("project_id", false) ∷ ("dataset_run_id", false) ∷ []);
      gin = false;
    })
    ∷ create_index "ix_run_items_trace" (record {
      table = "dataset_run_items";
      columns = (("project_id", false) ∷ ("trace_id", false) ∷ []);
      gin = false;
    })
    ∷ []

abbrev pub create_dataset_runs : List Operation
create_dataset_runs =
    create_table "dataset_runs" (record {
      columns =
          required_column "project_id" string
          ∷ required_column "id" string
          ∷ required_column "dataset_id" string
          ∷ required_column "name" string
          ∷ nullable "description" text
          ∷ nullable "metadata" jsonb
          ∷ defaulted "created_at" timestamptz
          ∷ [];
      constraints =
          foreign_key "project_id" "projects" "id" "CASCADE"
          ∷ primary_key ("project_id" ∷ "id" ∷ [])
          ∷ unique "uq_dataset_run_name" ("project_id" ∷ "dataset_id" ∷ "name" ∷ [])
          ∷ [];
    })
    ∷ create_index "ix_dataset_runs_project_dataset" (record {
      table = "dataset_runs";
      columns = (("project_id", false) ∷ ("dataset_id", false) ∷ []);
      gin = false;
    })
    ∷ []
