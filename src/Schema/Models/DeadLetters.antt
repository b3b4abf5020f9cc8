-- ===== src/Schema/Models/DeadLetters.antt =====
-- IngestionDeadLetter of agent-observability/worker/models.py.
use open_weave.Prelude.{String, true, false, [], ◌∷◌}
use open_weave.Prelude.Dict.{Dict}
use open_weave.Schema.{
  Index, Table, string, text, integer, timestamptz, jsonb, required_column, nullable, defaulted,
  primary_key,
}

abbrev pub ingestion_dead_letter_table : Table
ingestion_dead_letter_table = record {
  columns =
      required_column "id" string
      ∷ nullable "project_id" string
      ∷ nullable "event_id" string
      ∷ nullable "stream_message_id" string
      ∷ required_column "payload" jsonb
      ∷ required_column "error" text
      ∷ required_column "retry_count" integer
      ∷ defaulted "created_at" timestamptz
      ∷ [];
  constraints = primary_key ("id" ∷ []) ∷ [];
}

abbrev pub ingestion_dead_letter_indexes : Dict String Index
ingestion_dead_letter_indexes =
    (
      "ix_dlq_project_created",
      record {
        table = "ingestion_dead_letters";
        columns = (("project_id", false) ∷ ("created_at", true) ∷ []);
        gin = false;
      },
    )
    ∷ []
