-- ===== src/Tests/Worker.antt =====
-- The theorems on rows and tables at concrete inputs.
use open_weave.Prelude.{◌≡◌, refl, true, not, ◌&&◌, [], ◌∷◌, if◌then◌else◌, text_key, row_key}
use open_weave.Prelude.Dict.{get, put}
use open_weave.Python.{Value, null, str, time, obj, Row, cell, is_null, field, end}
use open_weave.Worker.Rows.{
  observation_fields, convert_key, usage_fields, cost_fields, fill_defaults, update_with, copy_keys,
  build_observation_row,
}
use open_weave.Worker.Rows.Shape.{build_observation_row-end_after_start}
use open_weave.Worker.Upsert.{end_after_start}
use open_weave.Worker.Upsert.Merge.{merged, may_change, cell-merged}
use open_weave.Worker.Convert.{ts, replace_z}
use open_weave.Tests.Library.{py}

-- A stored trace, and two events that fill its name and its output.
abbrev stored : Row
stored = ("project_id", str "p1") ∷ ("id", str "t1") ∷ ("name", str "old") ∷ ("output", null) ∷ []

abbrev named : Row
named = ("project_id", str "p1") ∷ ("id", str "t1") ∷ ("name", null) ∷ ("updated_at", time 5) ∷ []

abbrev finished : Row
finished =
    ("project_id", str "p1")
    ∷ ("id", str "t1")
    ∷ ("output", str "done")
    ∷ ("updated_at", time 9)
    ∷ []

cell-merged_example : cell "name" (merged ("name" ∷ []) named stored) ≡ (
    if may_change "name" ("name" ∷ []) && not (is_null (cell "name" named))
    then cell "name" named
    else cell "name" stored)
cell-merged_example = cell-merged ("name" ∷ []) named stored "name"

abbrev body : Row
body = ("id", str "o1") ∷ ("trace_id", str "t1") ∷ ("end_time", str "1970-01-01T00:01:40Z") ∷ []

-- An observation that ended, with no start.
abbrev ended : Value
ended = obj (
    field "project_id" (str "p1") (
      field "ts" null (
        field "body"
          (obj (
            field "id" (str "o1")
              (field "trace_id" (str "t1") (field "end_time" (str "1970-01-01T00:01:40Z") end))))
          end)))

abbrev built : Row
built =
    ("project_id", str "p1")
    ∷ ("id", str "o1")
    ∷ ("trace_id", str "t1")
    ∷ ("created_at", time 50)
    ∷ ("updated_at", time 50)
    ∷ ("end_time", time 100)
    ∷ ("type", str "SPAN")
    ∷ ("level", str "DEFAULT")
    ∷ ("start_time", time 100)
    ∷ []

build_observation_row-end_after_start_example : end_after_start built ≡ true
unfolding get build_observation_row observation_fields convert_key usage_fields cost_fields
    fill_defaults update_with put copy_keys ts replace_z
build_observation_row-end_after_start_example =
    build_observation_row-end_after_start py 50 ended body built refl refl refl
