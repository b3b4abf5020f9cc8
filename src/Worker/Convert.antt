-- ===== src/Worker/Convert.antt =====
-- The conversion helpers `_ts`, `_enum`, `_usage` and `_cost`: JSON values back to column values.
use Prim.Native.Char.{code}
use Prim.Native.String.{[], ◌∷◌, ◌++◌}
use open_weave.Prelude.{
  ℕ, String, not, Option, none, some, List, ◌==◌, nat_eq, if◌then◌else◌, text_key,
}
use open_weave.Prelude.Dict.{Dict}
use open_weave.Prelude.Result.{Result, ok, err, ◌>>=◌}
use open_weave.Python.{
  Value, null, int, str, time, obj, Fields, fields, to_fields, truthy, Error, attribute_error,
  Python, to_int, to_float,
}

-- `value.replace("Z", "+00:00")`
unfoldable pub replace_z : String → String
replace_z [] = []
replace_z (c ∷ s) =
    let rest = replace_z s in if nat_eq (code c) b'Z' then "+00:00" ++ rest else c ∷ rest

-- `value[len(prefix):]` where the value starts with the prefix.
unfoldable pub strip_prefix : String → String → Option String
strip_prefix [] s = some s
strip_prefix (p ∷ prefix) [] = none
strip_prefix (p ∷ prefix) (c ∷ s) =
    let rest = strip_prefix prefix s in if nat_eq (code p) (code c) then rest else none

abbrev pub or_text : Option String → String → String
or_text none s = s
or_text (some t) s = t

-- `_enum`; a value that is true and no text has no `startswith`.
unfoldable pub enum_name : Value → String → Value → Result Error Value
enum_name (str s) prefix default =
    if not (truthy (str s))
    then ok default
    else if or_text (strip_prefix prefix s) s == "UNSPECIFIED"
    then ok default
    else ok (str (or_text (strip_prefix prefix s) s))
enum_name v prefix default = if truthy v then err attribute_error else ok default

module _ (py : Python) where
  abbrev pub time_or_null : Option ℕ → Value
  time_or_null none = null
  time_or_null (some t) = time t

  -- `_ts`: what is false, no text, or no ISO text gives None.
  unfoldable pub ts : Value → Value
  ts (str s) = if truthy (str s) then time_or_null (py.fromisoformat (replace_z s)) else null
  ts _ = null

  -- `{k: int(v) for k, v in value.items()}`
  unfoldable pub int_values : Dict String Value → Result Error (Dict String Value)
  int_values List.[] = ok List.[]
  int_values (List.◌∷◌ (k, v) d) = do
    n ← to_int py v
    rest ← int_values d
    ok (List.◌∷◌ (k, int n) rest)

  -- `{k: float(v) for k, v in value.items()}`
  unfoldable pub float_values : Dict String Value → Result Error (Dict String ℕ)
  float_values List.[] = ok List.[]
  float_values (List.◌∷◌ (k, v) d) = do
    x ← to_float py v
    rest ← float_values d
    ok (List.◌∷◌ (k, x) rest)

  -- `_usage`
  unfoldable pub usage : Value → Result Error Value
  usage (obj (Fields.field k v fs)) = do
    d ← int_values (fields (Fields.field k v fs))
    ok (obj (to_fields d))
  usage v = if truthy v then err attribute_error else ok null

  -- `_cost`: `none` is None.
  unfoldable pub cost : Value → Result Error (Option (Dict String ℕ))
  cost (obj (Fields.field k v fs)) = do d ← float_values (fields (Fields.field k v fs)); ok (some d)
  cost v = if truthy v then err attribute_error else ok none
