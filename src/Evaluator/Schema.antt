-- ===== src/Evaluator/Schema.antt =====
-- `validate_output`: a verdict against the output schema of its evaluator.
pub mod Accepted
use Prim.Native.Char.{Char}
use Prim.Native.String
use open_weave.Prelude.{
  ℕ, String, Bool, true, false, not, ◌&&◌, ◌||◌, Option, none, some, List, [], ◌∷◌, ◌==◌,
  if◌then◌else◌, is_some, any, map, text_key,
}
use open_weave.Prelude.Dict.{Dict, get, has}
use open_weave.Prelude.Result.{Result, ok, err, ◌>>=◌}
use open_weave.Python.{
  Value, null, bool, int, float, decimal, str, arr, obj, fields, items, Row, cell, is_null, truthy,
  Error, type_error, attribute_error, item, item_or_none, Python,
}
use open_weave.Worker.Convert.{strip_prefix}
use open_weave.Evaluator.Judge.{
  Failure, schema_violated, missing_field, wrong_type, below_minimum, above_maximum, raised, lift,
}

-- `part in text`
unfoldable pub has_part : String → String → Bool
has_part part String.[] = is_some (strip_prefix part String.[])
has_part part (String.◌∷◌ c s) = is_some (strip_prefix part (String.◌∷◌ c s)) || has_part part s

-- The characters of a text, each a text.
unfoldable pub letters : String → List Value
letters String.[] = []
letters (String.◌∷◌ c s) = str (String.◌∷◌ c String.[]) ∷ letters s

-- `for x in v`
unfoldable pub iterate : Value → Result Error (List Value)
iterate (arr xs) = ok (items xs)
iterate (obj fs) = ok (map (λ e. str e.0) (fields fs))
iterate (str s) = ok (letters s)
iterate _ = err type_error

module _ (py : Python) where
  abbrev pub in_dict : Value → Row → Result Error Bool
  in_dict (str k) d = ok (has k d)
  in_dict (arr _) d = err type_error
  in_dict (obj _) d = err type_error
  in_dict _ d = ok false

  abbrev pub in_text : Value → String → Result Error Bool
  in_text (str part) s = ok (has_part part s)
  in_text _ s = err type_error

  -- `x in v`
  unfoldable pub is_in : Value → Value → Result Error Bool
  is_in x (arr xs) = ok (any (λ v. py.equal v x) (items xs))
  is_in x (obj fs) = in_dict x (fields fs)
  is_in x (str s) = in_text x s
  is_in x _ = err type_error

  -- `isinstance(v, types[name])`, where a boolean is no number; `none` for a name not in `types`.
  unfoldable pub has_type : String → Value → Option Bool
  has_type name v =
      if name == "number"
      then some (elim v [ int _ ↦ true | float _ ↦ true | _ ↦ false ])
      else if name == "integer"
      then some (elim v [ int _ ↦ true | _ ↦ false ])
      else if name == "string"
      then some (elim v [ str _ ↦ true | _ ↦ false ])
      else if name == "boolean"
      then some (elim v [ bool _ ↦ true | _ ↦ false ])
      else if name == "object"
      then some (elim v [ obj _ ↦ true | _ ↦ false ])
      else if name == "array"
      then some (elim v [ arr _ ↦ true | _ ↦ false ])
      else none

  -- `types.get(name)`
  abbrev pub type_test : Value → Value → Result Failure (Option Bool)
  type_test (str name) v = ok (has_type name v)
  type_test (arr _) v = err (raised type_error)
  type_test (obj _) v = err (raised type_error)
  type_test _ v = ok none

  abbrev pub is_number_type : Value → Bool
  is_number_type (str name) = name == "number"
  is_number_type _ = false

  -- `a < b`, which compares a number with a number only.
  abbrev pub below : Value → Value → Result Failure Bool
  below a b =
      if is_comparable a && is_comparable b then ok (py.less a b) else err (raised type_error)
    where
      is_comparable : Value → Bool
      is_comparable (int _) = true
      is_comparable (float _) = true
      is_comparable (bool _) = true
      is_comparable _ = false

  abbrev pub refuse_if : Bool → Failure → Result Failure Bool
  refuse_if true e = err e
  refuse_if false e = ok true

  -- The two bounds; `none` is a bound that is not given.
  unfoldable pub check_bounds : Value → Value → Value → Result Failure Bool
  check_bounds v low high = do
    too_low ← if is_null low then ok false else below v low
    checked ← refuse_if too_low below_minimum
    too_high ← if is_null high then ok false else below high v
    refuse_if too_high above_maximum

  abbrev pub fails : Option Bool → Bool
  fails none = false
  fails (some b) = not b

  abbrev pub is_known : Value → Result Failure Bool
  is_known name = type_test name null >>= λ test. ok (is_some test)

  -- The tests of a field whose type is one of `types`.
  unfoldable pub check_typed : String → Value → Value → Value → Result Failure Bool
  check_typed key name spec verdict = do
    v ← lift (item verdict key)
    test ← type_test name v
    typed ← refuse_if (fails test) wrong_type
    if is_number_type name
        then (lift (item_or_none spec "minimum") >>= λ low.
            lift (item_or_none spec "maximum") >>= λ high. check_bounds v low high)
        else ok true

  -- The body of the loop over the properties.
  unfoldable pub check_field : Value → String × Value → Result Failure Bool
  check_field verdict (key, spec) = do
    present ← lift (is_in (str key) verdict)
    typed ← if present then lift (is_in (str "type") spec) else ok false
    if typed
        then (lift (item spec "type") >>= λ name.
            is_known name >>= λ known. if known then check_typed key name spec verdict else ok true)
        else ok true

  unfoldable pub check_fields : Value → List (String × Value) → Result Failure Bool
  check_fields verdict [] = ok true
  check_fields verdict (f ∷ fs) = check_field verdict f >>= λ _. check_fields verdict fs

  -- The loop over the required keys.
  unfoldable pub check_required : Value → List Value → Result Failure Bool
  check_required verdict [] = ok true
  check_required verdict (key ∷ keys) = do
    present ← lift (is_in key verdict)
    checked ← refuse_if (not present) missing_field
    check_required verdict keys

  abbrev pub required_of : Row → Result Failure (List Value)
  required_of schema = elim (get "required" schema) [ none ↦ ok [] | some v ↦ lift (iterate v) ]

  -- `(schema.get("properties") or {}).items()`
  abbrev pub properties_of : Value → Result Failure (List (String × Value))
  properties_of (obj fs) = ok (fields fs)
  properties_of v = if truthy v then err (raised attribute_error) else ok []

  -- The fallback, on a schema that is an object.
  unfoldable pub check_schema : Value → Row → Result Failure Bool
  check_schema verdict schema = do
    required ← required_of schema
    complete ← check_required verdict required
    properties ← properties_of (cell "properties" schema)
    check_fields verdict properties

  -- `validate_output`: `jsonschema` says whether a verdict satisfies a schema.
  unfoldable pub validate_output :
      Option (Value → Value → Bool) → Value → Value → Result Failure Value
  validate_output jsonschema verdict schema =
      if not (truthy schema) then ok verdict else elim jsonschema [
        | some valid ↦ if valid verdict schema then ok verdict else err schema_violated
        | none ↦ elim schema [
          | obj fs ↦ check_schema verdict (fields fs) >>= λ _. ok verdict
          | _ ↦ err (raised attribute_error)
        ]
      ]
