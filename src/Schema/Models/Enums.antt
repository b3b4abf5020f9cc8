-- ===== src/Schema/Models/Enums.antt =====
-- The enumerations of agent-observability/worker/models.py, by the values that Postgres holds.
use open_weave.Prelude.{String, List, [], ◌∷◌}

abbrev pub observation_type_values : List String
observation_type_values =
    "SPAN" ∷ "GENERATION" ∷ "EVENT" ∷ "AGENT" ∷ "TOOL" ∷ "CHAIN" ∷ "RETRIEVER" ∷ "EMBEDDING"
    ∷ "GUARDRAIL" ∷ []

abbrev pub observation_level_values : List String
observation_level_values = "DEBUG" ∷ "DEFAULT" ∷ "WARNING" ∷ "ERROR" ∷ []

abbrev pub score_data_type_values : List String
score_data_type_values = "NUMERIC" ∷ "CATEGORICAL" ∷ "BOOLEAN" ∷ []

abbrev pub score_source_values : List String
score_source_values = "API" ∷ "EVAL" ∷ "ANNOTATION" ∷ []

abbrev pub dataset_item_status_values : List String
dataset_item_status_values = "ACTIVE" ∷ "ARCHIVED" ∷ []

abbrev pub job_status_values : List String
job_status_values = "PENDING" ∷ "RUNNING" ∷ "COMPLETED" ∷ "ERROR" ∷ "CANCELLED" ∷ []

abbrev pub eval_target_values : List String
eval_target_values = "TRACE" ∷ "DATASET_RUN_ITEM" ∷ []
