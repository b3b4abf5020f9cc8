-- ===== src/Evaluator/Schema/Accepted.antt =====
-- What a verdict that `validate_output` accepts looks like.
use open_weave.Prelude.{
  String, Bool, true, false, List, [], ◌∷◌, not, ◌==◌, ◌||◌, ◌&&◌, any, text_key,
}
use open_weave.Prelude.Result.{Result}
use open_weave.Python.{Value, int, float, str, bool, arr, is_null, obj, Row, cell, Python}

-- The kinds of values that a JSON schema tells apart; an integer is a number, a boolean is none.
abbrev pub is_number : Value → Bool
is_number (int _) = true
is_number (float _) = true
is_number _ = false

abbrev pub is_integer : Value → Bool
is_integer (int _) = true
is_integer _ = false

abbrev pub is_string : Value → Bool
is_string (str _) = true
is_string _ = false

abbrev pub is_boolean : Value → Bool
is_boolean (bool _) = true
is_boolean _ = false

abbrev pub is_object : Value → Bool
is_object (obj _) = true
is_object _ = false

abbrev pub is_array : Value → Bool
is_array (arr _) = true
is_array _ = false

abbrev pub kinds : List String
kinds = "number" ∷ "integer" ∷ "string" ∷ "boolean" ∷ "object" ∷ "array" ∷ []

-- The value is of the kind that a property asks for; another name than these six asks for nothing.
abbrev pub fits : String → Value → Bool
fits name v =
    not (any (λ k. name == k) kinds)
    || (name == "number" && is_number v
        || (name == "integer" && is_integer v
            || (name == "string" && is_string v
                || (name == "boolean" && is_boolean v
                    || (name == "object" && is_object v || name == "array" && is_array v)))))

module _ (py : Python) where
  -- The bounds of a property, where they are given.
  abbrev pub in_bounds : Row → Value → Bool
  in_bounds spec v =
      (is_null (cell "minimum" spec) || not (py.less v (cell "minimum" spec)))
      && (is_null (cell "maximum" spec) || not (py.less (cell "maximum" spec) v))
