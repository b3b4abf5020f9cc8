-- ===== src/Schema/Models/Tenants.antt =====
-- Project, ApiKey of agent-observability/worker/models.py.
use open_weave.Prelude.{String, false, [], ◌∷◌}
use open_weave.Prelude.Dict.{Dict}
use open_weave.Schema.{
  Index, Table, string, integer, timestamptz, required_column, nullable, defaulted, primary_key,
  unique, foreign_key,
}

abbrev pub project_table : Table
project_table = record {
  columns =
      required_column "id" string
      ∷ required_column "name" string
      ∷ nullable "retention_days" integer
      ∷ defaulted "created_at" timestamptz
      ∷ [];
  constraints = primary_key ("id" ∷ []) ∷ unique "uq_projects_name" ("name" ∷ []) ∷ [];
}

abbrev pub api_key_table : Table
api_key_table = record {
  columns =
      required_column "id" string
      ∷ required_column "project_id" string
      ∷ required_column "public_key" string
      ∷ required_column "hashed_secret_key" string
      ∷ required_column "display_secret_key" string
      ∷ nullable "note" string
      ∷ nullable "last_used_at" timestamptz
      ∷ nullable "expires_at" timestamptz
      ∷ defaulted "created_at" timestamptz
      ∷ [];
  constraints =
      foreign_key "project_id" "projects" "id" "CASCADE"
      ∷ primary_key ("id" ∷ [])
      ∷ unique "uq_api_keys_hashed_secret" ("hashed_secret_key" ∷ [])
      ∷ unique "uq_api_keys_public_key" ("public_key" ∷ [])
      ∷ [];
}

abbrev pub api_key_indexes : Dict String Index
api_key_indexes =
    (
      "ix_api_keys_project",
      record { table = "api_keys"; columns = (("project_id", false) ∷ []); gin = false },
    )
    ∷ []
