-- ===== src/Schema/Rows.antt =====
-- The rows that the worker builds from accepted events, against the tables that
-- agent-observability/worker/models.py declares.
use open_weave.Prelude.{
  ℕ, ◌+◌, String, Bool, true, false, not, ◌≡◌, refl, ap, ◌∙◌, subst₂, ◌&&◌, ◌||◌, none, [], ◌∷◌,
  ◌==◌, any, nat_eq, if◌then◌else◌, text_key, arith, Bool-cases, inl, inr,
}
use open_weave.Prelude.Dict.{get}
use open_weave.Prelude.Result.{Result, ok, ◌>>=◌, >>=-eq-ok, Result-cases}
use open_weave.Python.{
  Error, Value, null, str, time, fields, to_fields, Row, cell, is_null, truthy, float, to_float,
  Python, item, item_or_none,
}
use open_weave.Ingest.{Event, score_create, one_if, sent, validate, validate_body, payload}
use open_weave.Worker.Convert.{ts, enum_name}
use open_weave.Worker.Rows.{or_else, body_of, required, build_score_row}
use open_weave.Schema.{Table, Column}
use open_weave.Schema.Models.Scores.{score_table}

-- A column that must be given and is not.
abbrev pub lacks : Table → Row → Bool
lacks t row =
    any (λ (c : Column). not (c.is_nullable || c.has_default) && is_null (cell c.name row))
      t.columns

-- A cell that is no column of the table.
abbrev pub has_unknown : Table → Row → Bool
has_unknown t row = any (λ e. not (any (λ (c : Column). c.name == e.0) t.columns)) row

-- `ck_scores_exactly_one_anchor`
abbrev pub exactly_one_anchor : Row → Bool
exactly_one_anchor row =
    nat_eq
      (one_if (not (is_null (cell "trace_id" row)))
        + one_if (not (is_null (cell "dataset_run_item_id" row))))
      1

abbrev pub is_categorical : Value → Bool
is_categorical (str s) = s == "CATEGORICAL"
is_categorical _ = false

-- `ck_scores_value_matches_type`
abbrev pub value_matches_type : Row → Bool
value_matches_type row =
    is_categorical (cell "data_type" row) && not (is_null (cell "string_value" row))
    || not (is_categorical (cell "data_type" row)) && not (is_null (cell "value" row))

fields-to_fields : (d : Row) → fields (to_fields d) ≡ d
fields-to_fields [] = refl
fields-to_fields ((k, v) ∷ d) = ap (λ r. (k, v) ∷ r) (fields-to_fields d)

body_of-payload :
    (p : String) (event : Event) (body : Row)
    → body_of (payload p event score_create body) ≡ ok body
unfolding payload get
body_of-payload p event body = ap ok (fields-to_fields body)

not_null-truthy : (v : Value) → truthy v ≡ true → is_null v ≡ false
not_null-truthy null h = cc
not_null-truthy v h = refl

falsy-null : (v : Value) → is_null v ≡ true → truthy v ≡ false
falsy-null null h = refl
falsy-null v h = cc

not_null-or_else : (a : Value) (t : ℕ) → is_null (or_else a (time t)) ≡ false
not_null-or_else null t = refl
not_null-or_else a t = ground arith

-- The type of a score is never NULL.
not_null-enum_name :
    (v : Value) (prefix : String) (d w : Value)
    → is_null d ≡ false
    → enum_name v prefix d ≡ ok w
    → is_null w ≡ false
unfolding enum_name
not_null-enum_name (str s) prefix d w n h = ground (arith, n, h)
not_null-enum_name v prefix d w n h = ground (arith, n, h)

-- The row of `build_score_row` from its parts.
abbrev pub score_row_from : Python → ℕ → Row → Value → Value → Value → Value → Value → Value → Row
score_row_from py now body project_id id name data_type value event_ts =
    ("project_id", project_id)
    ∷ ("id", id)
    ∷ ("trace_id", cell "trace_id" body)
    ∷ ("observation_id", cell "observation_id" body)
    ∷ ("dataset_run_item_id", cell "dataset_run_item_id" body)
    ∷ ("name", name)
    ∷ ("data_type", data_type)
    ∷ ("value", value)
    ∷ ("string_value", cell "string_value" body)
    ∷ ("source", str "API")
    ∷ ("comment", cell "comment" body)
    ∷ ("timestamp", or_else (ts py event_ts) (time now))
    ∷ ("created_at", time now)
    ∷ []

abbrev score_value : Python → Row → Result Error Value
score_value py body = elim (is_null (cell "value" body)) [
  | true ↦ ok null
  | false ↦ to_float py (cell "value" body) >>= λ x. ok (float x)
]

build_score_row-parts :
    (py : Python) (now : ℕ) (message : Value) (row : Row)
    → build_score_row py now message ≡ ok row
    → (body : Row) × (project_id : Value) × (id : Value) × (name : Value) × (data_type : Value)
      × (value : Value) × (event_ts : Value) × (body_of message ≡ ok body)
      × (item message "project_id" ≡ ok project_id)
      × (required body "id" ≡ ok id)
      × (required body "name" ≡ ok name)
      × (enum_name (cell "data_type" body) "SCORE_DATA_TYPE_" (str "NUMERIC") ≡ ok data_type)
      × (score_value py body ≡ ok value)
      × (score_row_from py now body project_id id name data_type value event_ts ≡ row)
unfolding build_score_row
build_score_row-parts py now message row built =
    let (body, q0, e0) = >>=-eq-ok (body_of message) _ built in
    let (project_id, q1, e1) = >>=-eq-ok (item message "project_id") _ e0 in
    let (id, q2, e2) = >>=-eq-ok (required body "id") _ e1 in
    let (name, q3, e3) = >>=-eq-ok (required body "name") _ e2 in
    let (data_type, q4, e4) =
      >>=-eq-ok (enum_name (cell "data_type" body) "SCORE_DATA_TYPE_" (str "NUMERIC")) _ e3 in
    let (value, q5, e5) = >>=-eq-ok (score_value py body) _ e4 in
    let (event_ts, q6, e6) = >>=-eq-ok (item_or_none message "ts") _ e5 in
    (body, project_id, id, name, data_type, value, event_ts, q0, q1, q2, q3, q4, q5, ground arith)

required-cell : (body : Row) (k : String) (v : Value) → required body k ≡ ok v → v ≡ cell k body
required-cell body k v h = ground arith

is_null-score_value :
    (py : Python) (body : Row) (v : Value)
    → score_value py body ≡ ok v
    → is_null v ≡ is_null (cell "value" body)
is_null-score_value py body v h = elim (Bool-cases (is_null (cell "value" body))) [
  | inl blank ↦ ground (arith, blank, h)
  | inr given ↦ elim (Result-cases (to_float py (cell "value" body))) [
    | inl (x, e) ↦ ground (arith, given, h, e)
    | inr (e, f) ↦ ground (arith, given, h, f)
  ]
]

item-payload :
    (p : String) (event : Event) (body : Row) (v : Value)
    → item (payload p event score_create body) "project_id" ≡ ok v
    → is_null v ≡ false
unfolding payload get
item-payload p event body v h = ground arith

-- What the table `scores` asks of a row, and which bodies fail it.
abbrev pub Conforms : Row → Row → Type 0
Conforms body row =
    (lacks score_table row ≡ false)
    × (has_unknown score_table row ≡ false)
    × (exactly_one_anchor row
        ≡ (is_null (cell "trace_id" body) || is_null (cell "dataset_run_item_id" body)))
    × (value_matches_type row ≡ (
        if is_categorical (cell "data_type" row)
        then not (is_null (cell "string_value" body))
        else not (is_null (cell "value" body))))

score_row_from-Conforms :
    (py : Python) (now : ℕ) (body : Row) (project_id id name data_type value event_ts : Value)
    → is_null project_id ≡ false
    → is_null id ≡ false
    → is_null name ≡ false
    → is_null data_type ≡ false
    → is_null value ≡ is_null (cell "value" body)
    → nat_eq (one_if (sent "trace_id" body) + one_if (sent "dataset_run_item_id" body)) 1 ≡ true
    → Conforms body (score_row_from py now body project_id id name data_type value event_ts)
unfolding get
score_row_from-Conforms py now body project_id id name data_type value event_ts a b c d e f =
    let stamped = not_null-or_else (ts py event_ts) now in
    (
      ground (arith, stamped),
      refl,
      one_anchor (cell "trace_id" body) (cell "dataset_run_item_id" body) f,
      ground arith,
    )
  where
    one_anchor :
        (t i : Value)
        → nat_eq (one_if (truthy t) + one_if (truthy i)) 1 ≡ true
        → nat_eq (one_if (not (is_null t)) + one_if (not (is_null i))) 1 ≡ (is_null t || is_null i)
    one_anchor t i h = elim (Bool-cases (is_null t)) [
      | inl blank ↦ ground (arith, blank, falsy-null t blank, not_null-truthy i)
      | inr given ↦ ground (arith, given)
    ]

-- A score that the ingestion server accepts gives a row that the table `scores` has every needed
-- column of and no other. The server's one anchor is the table's exactly if one of the two is not sent
-- at all: an empty text is no anchor for the server and one for the table. And nothing on the way
-- makes the value fit the type: the check on it holds exactly if the body sends the value, or the text
-- for a categorical score.
pub build_score_row-Conforms :
    (py : Python) (now : ℕ) (p : String) (event : Event) (body row : Row)
    → validate event score_create body ≡ none
    → build_score_row py now (payload p event score_create body) ≡ ok row
    → Conforms body row
unfolding validate validate_body
build_score_row-Conforms py now p event body row accepted built =
    let (body', project_id, id, name, data_type, value, event_ts, q0, q1, q2, q3, q4, q5, q6) =
      build_score_row-parts py now (payload p event score_create body) row built in
    let same : body' ≡ body = ground (arith, q0, body_of-payload p event body) in
    let conforms =
      score_row_from-Conforms py now body' project_id id name data_type value event_ts
        (item-payload p event body project_id q1)
        (ap is_null (required-cell body' "id" id q2)
          ∙ ap (λ b. is_null (cell "id" b)) same
          ∙ not_null-truthy (cell "id" body) (ground arith))
        (ap is_null (required-cell body' "name" name q3)
          ∙ ap (λ b. is_null (cell "name" b)) same
          ∙ not_null-truthy (cell "name" body) (ground arith))
        (not_null-enum_name (cell "data_type" body') "SCORE_DATA_TYPE_" (str "NUMERIC") data_type
          refl q4)
        (is_null-score_value py body' value q5)
        (ap (λ b. nat_eq (one_if (sent "trace_id" b) + one_if (sent "dataset_run_item_id" b)) 1)
            same
          ∙ ground arith) in
    subst₂ Conforms same q6 conforms
