-- ===== src/Evaluator/Rules.antt =====
-- agent-observability/evaluator/eval_worker.py: sampling, filters and the variables of a prompt.
pub mod Sampling
use Prim.Native.Char.{Char, code}
use Prim.Native.String
use Prim.Native.String.{◌++◌ as ◌<>◌}
use open_weave.Prelude.{
  ℕ, zero, suc, ◌+◌, ◌-◌, ◌*◌, String, Bool, true, false, not, ◌&&◌, ◌||◌, Option, none, some, List,
  [], ◌∷◌, ◌++◌, map, ◌==◌, leb, if◌then◌else◌, keep, contains, any, text_key, RowKey, row_key,
}
use open_weave.Prelude.Int.{ℤ, pos}
use open_weave.Prelude.Dict.{Dict, get, put}
use open_weave.Prelude.Result.{Result, ok, err, ◌>>=◌}
use open_weave.Python.{
  Value, null, bool, int, float, str, time, arr, nil, obj, Row, cell, is_null, truthy, text_value,
  fields, Error, key_error, type_error, value_error, item_or_none, Python, to_float,
}
use open_weave.Pricing.Resolve.{is_text}
use open_weave.Worker.Convert.{strip_prefix}
use open_weave.Worker.Upsert.{Table, insert_or_nothing}
use open_weave.Worker.Stream.{take_text}
use open_weave.Evaluator.Judge.{Failure, raised, lift, render_prompt}
use open_weave.Evaluator.Schema.{has_part, is_in, validate_output}

-- The value of a hexadecimal digit.
unfoldable pub digit : ℕ → ℕ
digit c = if leb b'a' c then c - b'a' + 10 else if leb b'A' c then c - b'A' + 10 else c - b'0'

-- `int(text, 16)` from the value of the digits so far.
unfoldable pub int_of_hex : ℕ → String → ℕ
int_of_hex n String.[] = n
int_of_hex n (String.◌∷◌ c s) = int_of_hex (16 * n + digit (code c)) s

-- `sample_hash` in units of 2^-32.
unfoldable pub sample_hash : (String → String) → String → ℕ
sample_hash sha256 trace_id = int_of_hex 0 (take_text 8 (sha256 trace_id))

module _ (py : Python) where
  abbrev pub column_of : Value → Row → Result Error Value
  column_of (str c) trace = ok (cell c trace)
  column_of (arr _) trace = err type_error
  column_of (obj _) trace = err type_error
  column_of _ trace = ok null

  abbrev pub or_empty : Value → Value
  or_empty v = if truthy v then v else arr nil

  -- `clause.get("op", "=")`
  abbrev pub op_of : Value → Result Error Value
  op_of (obj fs) = elim (get "op" (fields fs)) [ none ↦ ok (str "=") | some v ↦ ok v ]
  op_of clause = item_or_none clause "op"

  -- The five tests of one clause: an operator of another name lets every trace pass.
  unfoldable pub passes : Value → Value → Value → Result Error Bool
  passes op want have =
      if is_text "=" op
      then ok (py.equal have want)
      else if is_text "!=" op
      then ok (not (py.equal have want))
      else if is_text "contains" op
      then ok (not (is_null have) && has_part (py.text_of want) (py.text_of have))
      else if is_text "in" op
      then is_in py have (or_empty want)
      else if is_text "exists" op
      then ok (if truthy want then not (is_null have) else is_null have)
      else ok true

  unfoldable pub clause_passes : Row → Value → Result Error Bool
  clause_passes trace clause = do
    column ← item_or_none clause "column"
    op ← op_of clause
    want ← item_or_none clause "value"
    have ← column_of column trace
    passes op want have

  -- `matches_filter`: no clauses is the empty list.
  unfoldable pub matches_filter : Row → List Value → Result Error Bool
  matches_filter trace [] = ok true
  matches_filter trace (clause ∷ clauses) = clause_passes trace clause >>= λ holds.
      if holds then matches_filter trace clauses else ok false

  -- `build_variables`, on the rows that the two SELECTs give, empty where there is none.
  unfoldable pub variable : Row → Row → Row → Value → Value
  variable trace root dataset_item (str source) = elim (strip_prefix "literal:" source) [
    | some s ↦ str s
    | none ↦ elim (strip_prefix "trace." source) [
      | some c ↦ cell c trace
      | none ↦ elim (strip_prefix "root." source) [
        | some c ↦ cell c root
        | none ↦ elim (strip_prefix "dataset_item." source) [
          | some c ↦ cell c dataset_item
          | none ↦ str source
        ]
      ]
    ]
  ]
  variable trace root dataset_item source = source

  abbrev pub default_mapping : Dict String Value
  default_mapping = ("input", str "trace.input") ∷ ("output", str "trace.output") ∷ []

  abbrev pub mapping_or_default : Dict String Value → Dict String Value
  mapping_or_default [] = default_mapping
  mapping_or_default mapping = mapping

  unfoldable pub build_variables : Row → Row → Row → Dict String Value → Row
  build_variables trace root dataset_item mapping =
      map (λ e. (e.0, variable trace root dataset_item e.1)) (mapping_or_default mapping)
