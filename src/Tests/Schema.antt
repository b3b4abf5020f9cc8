-- ===== src/Tests/Schema.antt =====
-- The theorems on the schema at concrete inputs.
use open_weave.Prelude.{◌≡◌, refl, none, some, [], ◌∷◌}
use open_weave.Python.{to_float, str, int, float, null, Row}
use open_weave.Prelude.Int.{pos}
use open_weave.Ingest.{payload, validate_body, validate, Event, score_create}
use open_weave.Schema.{Schema, Table, string, required_column, primary_key, migrate}
use open_weave.Schema.Frame.{beside}
use open_weave.Schema.Models.{declared}
use open_weave.Schema.Migration.{upgrade, downgrade}
use open_weave.Schema.Upgrade.{migrate-upgrade, migrate-downgrade-upgrade}
use open_weave.Schema.Rows.{Conforms, score_row_from, build_score_row-Conforms}
use open_weave.Prelude.Dict.{get}
use open_weave.Worker.Rows.{build_score_row}
use open_weave.Worker.Convert.{enum_name}
use open_weave.Tests.Library.{py}

-- A database with the table that alembic keeps.
abbrev versions : Table
versions = record {
  columns = required_column "version_num" string ∷ [];
  constraints = primary_key ("version_num" ∷ []) ∷ [];
}

abbrev base : Schema
base = record { tables = ("alembic_version", versions) ∷ []; indexes = []; types = [] }

migrate-upgrade_example : migrate upgrade base ≡ some (beside declared base)
unfolding get
migrate-upgrade_example = migrate-upgrade base refl

migrate-downgrade-upgrade_example :
    (s : Schema) × (migrate upgrade base ≡ some s) × (migrate downgrade s ≡ some base)
unfolding get
migrate-downgrade-upgrade_example = migrate-downgrade-upgrade base refl refl

-- A score of a trace.
abbrev body : Row
body =
    ("id", str "s1") ∷ ("name", str "good") ∷ ("trace_id", str "t1") ∷ ("value", int (pos 7)) ∷ []

abbrev event : Event
event = record { event_id = "e1"; body = some (score_create, body); timestamp = none }

abbrev row : Row
row = score_row_from py 100 body (str "p1") (str "s1") (str "good") (str "NUMERIC") (float 1) null

build_score_row-Conforms_example : Conforms body row
unfolding validate validate_body get build_score_row payload enum_name to_float
build_score_row-Conforms_example = build_score_row-Conforms py 100 "p1" event body row refl refl
