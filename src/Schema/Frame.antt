-- ===== src/Schema/Frame.antt =====
-- What else a database holds does not matter to a migration that leaves it alone.
use open_weave.Prelude.{
  any-append, String, Bool, true, false, not, ◌≡◌, refl, ◌&&◌, Option, none, some, List, [], ◌∷◌,
  ◌++◌, ◌==◌, all, any, keep, keep-append, if◌then◌else◌, text_key, arith, Option-cases, inl, inr,
}
use open_weave.Prelude.Dict.{Dict, get, has, remove}
use open_weave.Schema.{
  Table, Index, Schema, Column, Constraint, ColumnType, enumeration, Operation, create_table,
  create_index, drop_index, drop_table, drop_type, Run, target_of, refers_to, uses_type,
  create_types, step, steps, migrate,
}

-- A schema beside another.
abbrev pub beside : Schema → Schema → Schema
beside s base = record {
  tables = s.tables ++ base.tables;
  indexes = s.indexes ++ base.indexes;
  types = s.types ++ base.types;
}

abbrev pub run_beside : Run → Schema → Run
run_beside r base = record r { schema = beside r.schema base }

abbrev pub new_types : Dict String (List String) → List Column → Bool
new_types types columns =
    all (λ (c : Column). elim c.type [ enumeration n values ↦ not (has n types) | _ ↦ true ])
      columns

-- The operation is about nothing that `base` holds or refers to.
abbrev pub is_apart : Schema → Operation → Bool
is_apart base (create_table name t) = not (has name base.tables) && new_types base.types t.columns
is_apart base (create_index name index) = not (has name base.indexes)
is_apart base (drop_index name table) = not (has name base.indexes)
is_apart base (drop_table name) =
    not (has name base.tables)
    && not (any (λ e. refers_to name e.1) base.tables)
    && not (any (λ e. e.1.table == name) base.indexes)
is_apart base (drop_type name) =
    not (has name base.types) && not (any (λ e. uses_type name e.1) base.tables)

module _ {V : Type 0} where
  get-append :
      (k : String) (d e : Dict String V) → get k (d ++ e) ≡ (if has k d then get k d else get k e)
  unfolding get
  get-append k [] e = refl
  get-append k ((j, v) ∷ d) e = ground (arith, get-append k d e)

  remove-append : (k : String) (d e : Dict String V) → remove k (d ++ e) ≡ remove k d ++ remove k e
  unfolding remove
  remove-append k [] e = refl
  remove-append k ((j, v) ∷ d) e = ground (arith, remove-append k d e)

  remove-absent : (k : String) (d : Dict String V) → has k d ≡ false → remove k d ≡ d
  unfolding get remove
  remove-absent k [] h = refl
  remove-absent k ((j, v) ∷ d) h = ground (arith, remove-absent k d)

keep-none :
    {A : Type 0} (p : A → Bool) (xs : List A) → any p xs ≡ false → keep (λ x. not (p x)) xs ≡ xs
keep-none p [] h = refl
keep-none p (x ∷ xs) h = ground (arith, keep-none p xs)

targets-append :
    (tables more : Dict String Table) (cs : List Constraint)
    → all (λ c. elim (target_of c) [ none ↦ true | some target ↦ has target tables ]) cs ≡ true
    → all (λ c. elim (target_of c) [ none ↦ true | some target ↦ has target (tables ++ more) ]) cs
      ≡ true
targets-append tables more [] h = refl
targets-append tables more (c ∷ cs) h = elim (Option-cases (target_of c)) [
  | inl local ↦ ground (arith, targets-append tables more cs)
  | inr (target, named) ↦
      ground (arith, targets-append tables more cs, get-append target tables more)
]

abbrev types_beside :
    Dict String (List String)
    → Option (List String × Dict String (List String))
    → Option (List String × Dict String (List String))
types_beside base none = none
types_beside base (some (created, types)) = some (created, types ++ base)

create_types-beside :
    (base : Dict String (List String)) (columns : List Column) (created : List String)
    (types : Dict String (List String))
    → new_types base columns ≡ true
    → create_types columns created (types ++ base)
      ≡ types_beside base (create_types columns created types)
unfolding create_types
create_types-beside base [] created types h = refl
create_types-beside base (c ∷ columns) created types h =
    next c.type refl (create_types-beside base columns)
  where
    next :
        (t : ColumnType)
        → c.type ≡ t
        → ((created : List String) (types : Dict String (List String))
            → new_types base columns ≡ true
            → create_types columns created (types ++ base)
              ≡ types_beside base (create_types columns created types))
        → create_types (c ∷ columns) created (types ++ base)
          ≡ types_beside base (create_types (c ∷ columns) created types)
    next (enumeration n values) e ih =
        let rest : new_types base columns ≡ true = ground arith in
        rw e (
          ground (
            arith,
            ih created types rest,
            ih (n ∷ created) ((n, values) ∷ types) rest,
            get-append n types base,
            e,
          ))
    next t e ih = rw e (ih created types (ground arith))

abbrev result_beside : Schema → Option Run → Option Run
result_beside base none = none
result_beside base (some r) = some (run_beside r base)

-- A step that goes through goes through beside other tables, and leaves them.
step-beside :
    (base : Schema) (op : Operation) (r next : Run)
    → is_apart base op ≡ true
    → step op r ≡ some next
    → step op (run_beside r base) ≡ some (run_beside next base)
unfolding step
step-beside base (create_table name t) r next h e =
    let tables = r.schema.tables in
    ground (
      arith,
      get-append name tables base.tables,
      targets-append tables base.tables t.constraints,
      create_types-beside base.types t.columns r.created r.schema.types,
    )
step-beside base (create_index name index) r next h e = ground (
  arith,
  get-append name r.schema.indexes base.indexes,
  get-append index.table r.schema.tables base.tables,
)
step-beside base (drop_index name table) r next h e = ground (
  arith,
  get-append name r.schema.indexes base.indexes,
  remove-append name r.schema.indexes base.indexes,
  remove-absent name base.indexes,
)
step-beside base (drop_table name) r next h e = ground (
  arith,
  get-append name r.schema.tables base.tables,
  remove-append name r.schema.tables base.tables,
  remove-absent name base.tables,
  any-append (λ (d : String × Table). refers_to name d.1) (remove name r.schema.tables) base.tables,
  keep-append (λ (d : String × Index). not (d.1.table == name)) r.schema.indexes base.indexes,
  keep-none (λ (d : String × Index). d.1.table == name) base.indexes,
)
step-beside base (drop_type name) r next h e = ground (
  arith,
  remove-append name r.schema.types base.types,
  remove-absent name base.types,
  any-append (λ (d : String × Table). uses_type name d.1) r.schema.tables base.tables,
)

steps-beside :
    (base : Schema) (ops : List Operation) (r last : Run)
    → all (is_apart base) ops ≡ true
    → steps ops r ≡ some last
    → steps ops (run_beside r base) ≡ some (run_beside last base)
unfolding steps
steps-beside base [] r last h e = ground arith
steps-beside base (op ∷ ops) r last h e = elim (Option-cases (step op r)) [
  | inl refused ↦ ground arith
  | inr (next, done) ↦ ground (
    arith,
    step-beside base op r next (ground arith) done,
    steps-beside base ops next last (ground arith) (ground arith),
  )
]

pub migrate-beside :
    (base : Schema) (ops : List Operation) (s t : Schema)
    → all (is_apart base) ops ≡ true
    → migrate ops s ≡ some t
    → migrate ops (beside s base) ≡ some (beside t base)
unfolding migrate
migrate-beside base ops s t h e =
    let start : Run = record { schema = s; created = [] } in
    elim (Option-cases (steps ops start)) [
      | inl refused ↦ ground arith
      | inr (last, done) ↦ ground (arith, steps-beside base ops start last h done)
    ]
