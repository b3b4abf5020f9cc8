-- ===== src/Python.antt =====
-- The values that the services pass around: decoded JSON, datetimes, decimals, and rows of tables;
-- Python's truth test and subscripts on them, and what the code calls of Python's library.
use open_weave.Prelude.{
  ℕ, zero, ◌%◌, ◌^◌, String, Bool, true, false, not, Option, none, some, List, [], ◌∷◌, nat_eq,
  text_key,
}
use open_weave.Prelude.Int.{ℤ, pos}
use open_weave.Prelude.Dict.{Dict, get}
use open_weave.Prelude.Result.{Result, ok, err}

-- `float` holds the 64 bits of a double. `time` is a datetime as an instant: the microseconds after
-- `datetime.min` in UTC. `decimal` counts units of 10^-18, the scale of the column `prices.price`.
mutual
  pub data Value : Type 0 where
    null : Value
    bool : Bool → Value
    int : ℤ → Value
    float : ℕ → Value
    decimal : ℤ → Value
    str : String → Value
    time : ℕ → Value
    obj : Fields → Value
    arr : Items → Value

  pub data Fields : Type 0 where
    end : Fields
    field : String → Value → Fields → Fields

  pub data Items : Type 0 where
    nil : Items
    cons : Value → Items → Items

abbrev pub fields : Fields → Dict String Value
fields end = []
fields (field k v fs) = (k, v) ∷ fields fs

abbrev pub to_fields : Dict String Value → Fields
to_fields [] = end
to_fields ((k, v) ∷ d) = field k v (to_fields d)

abbrev pub items : Items → List Value
items nil = []
items (cons v vs) = v ∷ items vs

-- A row of a table, or a protobuf body as `MessageToDict` gives it: the columns by name.
abbrev pub Row : Type 0
Row = Dict String Value

-- A column that the row does not hold reads as NULL, as `row.get(column)` does.
abbrev pub cell : String → Row → Value
cell c r = elim (get c r) [ none ↦ null | some v ↦ v ]

abbrev pub is_null : Value → Bool
is_null null = true
is_null _ = false

abbrev pub is_empty : String → Bool
is_empty String.[] = true
is_empty (String.◌∷◌ c s) = false

-- `bool(v)`: the two zeros of a double differ in the sign bit only.
abbrev pub truthy : Value → Bool
truthy null = false
truthy (bool b) = b
truthy (int (pos zero)) = false
truthy (int _) = true
truthy (float bits) = not (nat_eq (bits % 2 ^ 63) 0)
truthy (decimal (pos zero)) = false
truthy (decimal _) = true
truthy (str s) = not (is_empty s)
truthy (time _) = true
truthy (arr nil) = false
truthy (arr _) = true
truthy (obj end) = false
truthy (obj _) = true

abbrev pub text_value : Option String → Value
text_value none = null
text_value (some s) = str s

-- What the code raises, and what its database driver raises at an execute.
pub data Error : Type 0 where
  key_error : String → Error
  type_error value_error attribute_error database_error : Error

-- `v[k]`
abbrev pub item : Value → String → Result Error Value
item (obj fs) k = elim (get k (fields fs)) [ none ↦ err (key_error k) | some v ↦ ok v ]
item _ k = err type_error

-- `v.get(k)`
abbrev pub item_or_none : Value → String → Result Error Value
item_or_none (obj fs) k = ok (cell k (fields fs))
item_or_none _ k = err attribute_error

-- The functions of Python's library that the code calls, and no law of them.
-- `fromisoformat`, `int` and `float` of a text are `none` where Python raises ValueError.
pub record Python : Type 0 where
  pub fromisoformat : String → Option ℕ
  pub isoformat : ℕ → String
  pub int_of_text : String → Option ℤ
  pub int_of_float : ℕ → Option ℤ
  pub float_of_text : String → Option ℕ
  pub float_of_int : ℤ → ℕ
  pub float_of_decimal : ℤ → ℕ
  pub sum_floats : List ℕ → ℕ
  pub less : Value → Value → Bool
  pub equal : Value → Value → Bool
  pub text_of : Value → String
  pub lower : String → String
  pub upper : String → String
  pub dumps : Value → String
  pub loads : String → Option Value

module _ (py : Python) where
  -- `int(v)`
  unfoldable pub to_int : Value → Result Error ℤ
  to_int (int z) = ok z
  to_int (bool true) = ok (pos 1)
  to_int (bool false) = ok (pos 0)
  to_int (float bits) = elim (py.int_of_float bits) [ none ↦ err value_error | some z ↦ ok z ]
  to_int (str s) = elim (py.int_of_text s) [ none ↦ err value_error | some z ↦ ok z ]
  to_int _ = err type_error

  -- `float(v)`
  unfoldable pub to_float : Value → Result Error ℕ
  to_float (float bits) = ok bits
  to_float (int z) = ok (py.float_of_int z)
  to_float (bool true) = ok (py.float_of_int (pos 1))
  to_float (bool false) = ok (py.float_of_int (pos 0))
  to_float (decimal d) = ok (py.float_of_decimal d)
  to_float (str s) = elim (py.float_of_text s) [ none ↦ err value_error | some bits ↦ ok bits ]
  to_float _ = err type_error
