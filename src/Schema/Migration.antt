-- ===== src/Schema/Migration.antt =====
-- The migration of agent-observability/worker/migrations/versions/1983f984a553: its operations in order.
pub mod Datasets
pub mod Evaluators
pub mod Spans
use open_weave.Prelude.{List, [], ◌∷◌, ◌++◌}
use open_weave.Schema.{Operation, drop_index, drop_table, drop_type}
use open_weave.Schema.Migration.Datasets.{
  create_ingestion_dead_letters, create_projects, create_api_keys, create_dataset_items,
  create_dataset_run_items, create_dataset_runs,
}
use open_weave.Schema.Migration.Evaluators.{
  create_datasets, create_evaluation_rules, create_evaluator_versions, create_evaluators,
  create_job_executions, create_models,
}
use open_weave.Schema.Migration.Spans.{
  create_score_configs, create_traces, create_observations, create_prices, create_scores,
}

abbrev pub upgrade : List Operation
upgrade =
    (create_ingestion_dead_letters
      ++ (create_projects
          ++ (create_api_keys
              ++ (create_dataset_items
                  ++ (create_dataset_run_items
                      ++ (create_dataset_runs
                          ++ (create_datasets
                              ++ (create_evaluation_rules
                                  ++ (create_evaluator_versions
                                      ++ (create_evaluators
                                          ++ (create_job_executions
                                              ++ (create_models
                                                  ++ (create_score_configs
                                                      ++ (create_traces
                                                          ++ (create_observations
                                                            ++ (create_prices
                                                            ++ create_scores))))))))))))))))

abbrev pub downgrade : List Operation
downgrade =
    drop_index "ix_scores_project_trace" "scores"
    ∷ drop_index "ix_scores_project_run_item" "scores"
    ∷ drop_index "ix_scores_project_observation" "scores"
    ∷ drop_index "ix_scores_project_name_ts" "scores"
    ∷ drop_table "scores"
    ∷ drop_table "prices"
    ∷ drop_index "ix_obs_project_type_start" "observations"
    ∷ drop_index "ix_obs_project_trace" "observations"
    ∷ drop_index "ix_obs_project_parent" "observations"
    ∷ drop_index "ix_obs_project_model" "observations"
    ∷ drop_index "ix_obs_metadata" "observations"
    ∷ drop_table "observations"
    ∷ drop_index "ix_traces_tags" "traces"
    ∷ drop_index "ix_traces_project_user" "traces"
    ∷ drop_index "ix_traces_project_timestamp" "traces"
    ∷ drop_index "ix_traces_project_session" "traces"
    ∷ drop_index "ix_traces_metadata" "traces"
    ∷ drop_table "traces"
    ∷ drop_table "score_configs"
    ∷ drop_index "ix_models_project_name" "models"
    ∷ drop_table "models"
    ∷ drop_index "ix_jobs_project_trace" "job_executions"
    ∷ drop_index "ix_jobs_project_status" "job_executions"
    ∷ drop_index "ix_jobs_project_run_item" "job_executions"
    ∷ drop_table "job_executions"
    ∷ drop_table "evaluators"
    ∷ drop_index "ix_evaluator_versions_project" "evaluator_versions"
    ∷ drop_table "evaluator_versions"
    ∷ drop_index "ix_eval_rules_project_active" "evaluation_rules"
    ∷ drop_table "evaluation_rules"
    ∷ drop_table "datasets"
    ∷ drop_index "ix_dataset_runs_project_dataset" "dataset_runs"
    ∷ drop_table "dataset_runs"
    ∷ drop_index "ix_run_items_trace" "dataset_run_items"
    ∷ drop_index "ix_run_items_project_run" "dataset_run_items"
    ∷ drop_table "dataset_run_items"
    ∷ drop_index "ix_dataset_items_source_trace" "dataset_items"
    ∷ drop_index "ix_dataset_items_project_dataset" "dataset_items"
    ∷ drop_table "dataset_items"
    ∷ drop_index "ix_api_keys_project" "api_keys"
    ∷ drop_table "api_keys"
    ∷ drop_table "projects"
    ∷ drop_index "ix_dlq_project_created" "ingestion_dead_letters"
    ∷ drop_table "ingestion_dead_letters"
    ∷ drop_type "dataset_item_status"
    ∷ drop_type "eval_target"
    ∷ drop_type "job_status"
    ∷ drop_type "observation_level"
    ∷ drop_type "observation_type"
    ∷ drop_type "score_data_type"
    ∷ drop_type "score_source"
    ∷ []
