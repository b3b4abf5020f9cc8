-- ===== src/Schema/Models.antt =====
-- The tables, indexes and types that agent-observability/worker/models.py declares, the last created
-- first, in the order of the migration.
pub mod Enums
pub mod Tenants
pub mod Spans
pub mod Scores
pub mod Prices
pub mod Datasets
pub mod Evaluators
pub mod DeadLetters
use open_weave.Prelude.{◌++◌, String, false, true, List, [], ◌∷◌}
use open_weave.Prelude.Dict.{Dict}
use open_weave.Schema.{Table, Index, Schema}
use open_weave.Schema.Models.Enums.{
  observation_type_values, observation_level_values, score_data_type_values, score_source_values,
  dataset_item_status_values, job_status_values, eval_target_values,
}
use open_weave.Schema.Models.Tenants.{api_key_indexes, project_table, api_key_table}
use open_weave.Schema.Models.Spans.{
  observation_indexes, trace_indexes, trace_table, observation_table,
}
use open_weave.Schema.Models.Scores.{score_indexes, score_config_table, score_table}
use open_weave.Schema.Models.Prices.{model_indexes, model_table, price_table}
use open_weave.Schema.Models.Datasets.{
  dataset_run_indexes, dataset_run_item_indexes, dataset_item_indexes, dataset_table,
  dataset_item_table, dataset_run_table, dataset_run_item_table,
}
use open_weave.Schema.Models.Evaluators.{
  job_execution_indexes, evaluator_version_indexes, evaluation_rule_indexes, evaluator_table,
  evaluator_version_table, evaluation_rule_table, job_execution_table,
}
use open_weave.Schema.Models.DeadLetters.{
  ingestion_dead_letter_indexes, ingestion_dead_letter_table,
}

abbrev pub declared_tables : Dict String Table
declared_tables =
    ("scores", score_table)
    ∷ ("prices", price_table)
    ∷ ("observations", observation_table)
    ∷ ("traces", trace_table)
    ∷ ("score_configs", score_config_table)
    ∷ ("models", model_table)
    ∷ ("job_executions", job_execution_table)
    ∷ ("evaluators", evaluator_table)
    ∷ ("evaluator_versions", evaluator_version_table)
    ∷ ("evaluation_rules", evaluation_rule_table)
    ∷ ("datasets", dataset_table)
    ∷ ("dataset_runs", dataset_run_table)
    ∷ ("dataset_run_items", dataset_run_item_table)
    ∷ ("dataset_items", dataset_item_table)
    ∷ ("api_keys", api_key_table)
    ∷ ("projects", project_table)
    ∷ ("ingestion_dead_letters", ingestion_dead_letter_table)
    ∷ []

abbrev pub declared_indexes : Dict String Index
declared_indexes =
    score_indexes
    ++ (observation_indexes
        ++ (trace_indexes
            ++ (model_indexes
                ++ (job_execution_indexes
                    ++ (evaluator_version_indexes
                        ++ (evaluation_rule_indexes
                            ++ (dataset_run_indexes
                                ++ (dataset_run_item_indexes
                                    ++ (dataset_item_indexes
                                        ++ (api_key_indexes
                                            ++ (ingestion_dead_letter_indexes)))))))))))

abbrev pub declared_types : Dict String (List String)
declared_types =
    ("score_source", score_source_values)
    ∷ ("observation_level", observation_level_values)
    ∷ ("observation_type", observation_type_values)
    ∷ ("job_status", job_status_values)
    ∷ ("score_data_type", score_data_type_values)
    ∷ ("eval_target", eval_target_values)
    ∷ ("dataset_item_status", dataset_item_status_values)
    ∷ []

abbrev pub declared : Schema
declared = record { tables = declared_tables; indexes = declared_indexes; types = declared_types }
