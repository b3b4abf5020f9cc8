-- ===== src/Schema.antt =====
-- The database schema: what agent-observability/worker/models.py declares, and the migration that
-- makes it, agent-observability/worker/migrations/versions/1983f984a553.
pub mod Models
pub mod Migration
pub mod Frame
pub mod Upgrade
pub mod Rows
use open_weave.Prelude.{
  ℕ, String, Bool, true, false, not, ◌&&◌, ◌||◌, Option, none, some, List, [], ◌∷◌, ◌==◌, all, any,
  keep, contains, map, if◌then◌else◌, is_some, text_key,
}
use open_weave.Prelude.Dict.{Dict, get, has, remove}

pub data ColumnType : Type 0 where
  string text integer double boolean timestamptz jsonb string_array : ColumnType
  numeric : ℕ → ℕ → ColumnType
  enumeration : String → List String → ColumnType

-- `has_default` is a server default of now(), and `computed` the expression of a stored column.
pub record Column : Type 0 where
  pub name : String
  pub type : ColumnType
  pub is_nullable : Bool
  pub has_default : Bool
  pub computed : Option String

pub data Constraint : Type 0 where
  primary_key : List String → Constraint
  unique : String → List String → Constraint
  check : String → String → Constraint
  foreign_key : String → String → String → String → Constraint

-- The constraints are a set, listed in the order of the migration.
pub record Table : Type 0 where
  pub columns : List Column
  pub constraints : List Constraint

-- A column of an index, and whether it is DESC.
pub record Index : Type 0 where
  pub table : String
  pub columns : List (String × Bool)
  pub gin : Bool

pub record Schema : Type 0 where
  pub tables : Dict String Table
  pub indexes : Dict String Index
  pub types : Dict String (List String)

abbrev pub required_column : String → ColumnType → Column
required_column name type = record {
  name = name;
  type = type;
  is_nullable = false;
  has_default = false;
  computed = none;
}

abbrev pub nullable : String → ColumnType → Column
nullable name type = record (required_column name type) { is_nullable = true }

abbrev pub defaulted : String → ColumnType → Column
defaulted name type = record (required_column name type) { has_default = true }

abbrev pub computed_column : String → ColumnType → String → Column
computed_column name type expression = record (nullable name type) { computed = some expression }

-- The operations of a migration.
pub data Operation : Type 0 where
  create_table : String → Table → Operation
  create_index : String → Index → Operation
  drop_index : String → String → Operation
  drop_table drop_type : String → Operation

-- A migration at work: the schema, and the types that it has created.
pub record Run : Type 0 where
  pub schema : Schema
  pub created : List String

-- The tables that a table's foreign keys name.
abbrev pub target_of : Constraint → Option String
target_of (foreign_key column table key on_delete) = some table
target_of _ = none

abbrev pub refers_to : String → Table → Bool
refers_to name t =
    any (λ c. elim (target_of c) [ none ↦ false | some target ↦ target == name ]) t.constraints

abbrev pub uses_type : String → Table → Bool
uses_type name t =
    any (λ (c : Column). elim c.type [ enumeration n values ↦ n == name | _ ↦ false ]) t.columns

abbrev pub targets_exist : Dict String Table → Table → Bool
targets_exist tables t =
    all (λ c. elim (target_of c) [ none ↦ true | some target ↦ has target tables ]) t.constraints

-- CREATE TYPE for the enumerations of a table's columns, each once in a migration; a type that is
-- there already is an error.
unfoldable pub create_types :
    List Column
    → List String
    → Dict String (List String)
    → Option (List String × Dict String (List String))
create_types [] created types = some (created, types)
create_types (c ∷ columns) created types = elim c.type [
  | enumeration n values ↦
      if contains n created
      then create_types columns created types
      else if has n types
      then none
      else create_types columns (n ∷ created) ((n, values) ∷ types)
  | _ ↦ create_types columns created types
]

abbrev pub has_columns : Table → List (String × Bool) → Bool
has_columns t columns = all (λ c. any (λ (d : Column). d.name == c.0) t.columns) columns

-- What Postgres does for one operation, `none` where it refuses.
unfoldable pub step : Operation → Run → Option Run
step (create_table name t) r =
    if has name r.schema.tables || not (targets_exist r.schema.tables t)
    then none
    else elim (create_types t.columns r.created r.schema.types) [
      | none ↦ none
      | some (created, types) ↦ some (record {
        schema = record (r.schema) { tables = (name, t) ∷ r.schema.tables; types = types };
        created = created;
      })
    ]
step (create_index name index) r =
    if has name r.schema.indexes then none else elim (get index.table r.schema.tables) [
      | none ↦ none
      | some t ↦
          if has_columns t index.columns
          then some (record r {
            schema = record (r.schema) { indexes = (name, index) ∷ r.schema.indexes };
          })
          else none
    ]
step (drop_index name table) r =
    if has name r.schema.indexes
    then some (record r { schema = record (r.schema) { indexes = remove name r.schema.indexes } })
    else none
step (drop_table name) r =
    let rest = remove name r.schema.tables in
    if has name r.schema.tables && not (any (λ e. refers_to name e.1) rest)
    then some (record r {
      schema = record (r.schema) {
        tables = rest;
        indexes = keep (λ e. not (e.1.table == name)) r.schema.indexes;
      };
    })
    else none
step (drop_type name) r =
    if any (λ e. uses_type name e.1) r.schema.tables
    then none
    else some (record r { schema = record (r.schema) { types = remove name r.schema.types } })

unfoldable pub steps : List Operation → Run → Option Run
steps [] r = some r
steps (op ∷ ops) r = elim (step op r) [ none ↦ none | some next ↦ steps ops next ]

-- One command of alembic, and the schema that it leaves.
unfoldable pub migrate : List Operation → Schema → Option Schema
migrate ops s = elim (steps ops (record { schema = s; created = [] })) [
  | none ↦ none
  | some r ↦ some r.schema
]
