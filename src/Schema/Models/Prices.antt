-- ===== src/Schema/Models/Prices.antt =====
-- Model, Price of agent-observability/worker/models.py.
use open_weave.Prelude.{String, false, [], ◌∷◌}
use open_weave.Prelude.Dict.{Dict}
use open_weave.Schema.{
  Index, Table, string, timestamptz, jsonb, numeric, required_column, nullable, defaulted,
  primary_key, unique, foreign_key,
}

abbrev pub model_table : Table
model_table = record {
  columns =
      required_column "id" string
      ∷ nullable "project_id" string
      ∷ required_column "model_name" string
      ∷ required_column "match_pattern" string
      ∷ nullable "start_date" timestamptz
      ∷ nullable "tokenizer_id" string
      ∷ nullable "tokenizer_config" jsonb
      ∷ defaulted "created_at" timestamptz
      ∷ [];
  constraints = foreign_key "project_id" "projects" "id" "CASCADE" ∷ primary_key ("id" ∷ []) ∷ [];
}

abbrev pub price_table : Table
price_table = record {
  columns =
      required_column "id" string
      ∷ required_column "model_id" string
      ∷ required_column "usage_type" string
      ∷ required_column "price" (numeric 24 18)
      ∷ [];
  constraints =
      foreign_key "model_id" "models" "id" "CASCADE"
      ∷ primary_key ("id" ∷ [])
      ∷ unique "uq_price_model_usage" ("model_id" ∷ "usage_type" ∷ [])
      ∷ [];
}

abbrev pub model_indexes : Dict String Index
model_indexes =
    (
      "ix_models_project_name",
      record {
        table = "models";
        columns = (("project_id", false) ∷ ("model_name", false) ∷ []);
        gin = false;
      },
    )
    ∷ []
