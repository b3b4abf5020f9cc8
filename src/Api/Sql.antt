-- ===== src/Api/Sql.antt =====
-- What the handlers of agent-observability/api-server/main.py use of SQL, on lists of rows.
pub mod Own
pub mod Groups
pub mod Joins
use open_weave.Prelude.{
  ℕ, String, Bool, true, false, ◌≡◌, refl, ap, ap₂, ◌&&◌, Option, none, some, List, [], ◌∷◌, ◌++◌,
  map, ◌==◌, keep, All, if◌then◌else◌, text_key, Bool-cases, inl, inr, arith, Key,
}
use open_weave.Python.{Value, null, str, Row, cell, is_null}
use open_weave.Api.{Database}

-- The functions of Postgres that the queries call, on one non-null argument at least.
-- `less` is `<` of the ORDER BY, `millis a b` is EXTRACT(EPOCH FROM (a - b)) * 1000, and `jsonb` the
-- text that a stored JSON text is read back as.
pub record Postgres : Type 0 where
  pub less : Value → Value → Bool
  pub sum : List Value → Value
  pub avg : List Value → Value
  pub max : List Value → Value
  pub min : List Value → Value
  pub millis : Value → Value → Value
  pub date_trunc : Value → ℕ
  pub jsonb : String → String
  pub object_agg : List (Value × Value) → String

-- `a = b` of two texts: a comparison with NULL is not true.
abbrev pub eq_text : Value → Value → Bool
eq_text (str a) (str b) = a == b
eq_text _ _ = false

-- `project_id = $1`
abbrev pub of_project : String → Row → Bool
of_project p r = eq_text (cell "project_id" r) (str p)

-- `a.project_id = b.project_id`
abbrev pub same_project : Row → Row → Bool
same_project a b = eq_text (cell "project_id" a) (cell "project_id" b)

-- An aggregate ignores NULLs, and is NULL where nothing is left.
abbrev pub not_null : List Value → List Value
not_null [] = []
not_null (v ∷ vs) = let rest = not_null vs in if is_null v then rest else v ∷ rest

abbrev pub aggregate : (List Value → Value) → List Value → Value
aggregate f vs = elim (not_null vs) [ [] ↦ null | w ∷ ws ↦ f (w ∷ ws) ]

abbrev pub column : String → List Row → List Value
column c rows = map (cell c) rows

-- ORDER BY, as an insertion sort that keeps the order of what compares alike.
module _ {A : Type 0} (before : A → A → Bool) where
  unfoldable pub insert_row : A → List A → List A
  insert_row r [] = r ∷ []
  insert_row r (q ∷ rows) =
      let rest = insert_row r rows in if before r q then r ∷ q ∷ rows else q ∷ rest

  unfoldable pub order_by : List A → List A
  order_by [] = []
  order_by (r ∷ rows) = insert_row r (order_by rows)

-- The first row, as `fetchrow` gives it.
abbrev pub first {ℓ} : {A : Type ℓ} → List A → Option A
first [] = none
first (x ∷ xs) = some x

module _ {A B : Type 0} (on : A → B → Bool) where
  -- `FROM a JOIN b ON …`
  unfoldable pub join : List A → List B → List (A × B)
  join [] bs = []
  join (a ∷ rest) bs = map (λ b. (a, b)) (keep (on a) bs) ++ join rest bs

  -- The rows of a LEFT JOIN for one row of the left table.
  abbrev pub or_null : A → List B → List (A × Option B)
  or_null a [] = (a, none) ∷ []
  or_null a (b ∷ bs) = map (λ c. (a, some c)) (b ∷ bs)

  -- `FROM a LEFT JOIN b ON …`
  unfoldable pub left_join : List A → List B → List (A × Option B)
  left_join [] bs = []
  left_join (a ∷ rest) bs = or_null a (keep (on a) bs) ++ left_join rest bs

-- A column of the right table of a LEFT JOIN.
abbrev pub opt_cell : String → Option Row → Value
opt_cell c none = null
opt_cell c (some r) = cell c r

module _ {K : Type 0} ⦃key : Key K⦄ {A : Type 0} where
  -- One group of a GROUP BY more, or one row more in a group.
  unfoldable pub add_row : K → A → List (K × List A) → List (K × List A)
  add_row k a [] = (k, a ∷ []) ∷ []
  add_row k a ((j, rows) ∷ groups) =
      if j == k then (j, rows ++ a ∷ []) ∷ groups else (j, rows) ∷ add_row k a groups

  unfoldable pub groups_from : (A → K) → List A → List (K × List A) → List (K × List A)
  groups_from key [] groups = groups
  groups_from key (a ∷ rest) groups = groups_from key rest (add_row (key a) a groups)

  -- `GROUP BY`, the groups in the order in which they are met.
  abbrev pub group_by : (A → K) → List A → List (K × List A)
  group_by key rows = groups_from key rows []

-- The rows of one project.
abbrev pub own : String → List Row → List Row
own p = keep (of_project p)

-- The database as project `p` owns it: the rows of the tables that have a column `project_id`.
abbrev pub owned : String → Database → Database
owned p db = record db {
  traces = own p db.traces;
  observations = own p db.observations;
  scores = own p db.scores;
  evaluator_versions = own p db.evaluator_versions;
  datasets = own p db.datasets;
  dataset_items = own p db.dataset_items;
  dataset_runs = own p db.dataset_runs;
  dataset_run_items = own p db.dataset_run_items;
}

module _ {A : Type 0} (p q : A → Bool) where
  -- A test that implies another sees no more than that other lets through.
  pub keep-keep :
      ((a : A) → q a ≡ true → p a ≡ true) → (xs : List A) → keep q (keep p xs) ≡ keep q xs
  keep-keep h [] = refl
  keep-keep h (x ∷ xs) = ground (arith, h x, keep-keep h xs)

  pub All-keep_self :
      ((a : A) → q a ≡ true → p a ≡ true) → (xs : List A) → All (λ a. p a ≡ true) (keep q xs)
  All-keep_self h [] = tt
  All-keep_self h (x ∷ xs) = elim (Bool-cases (q x)) [
    | inl e ↦ rw e (h x e, All-keep_self h xs)
    | inr e ↦ rw e (All-keep_self h xs)
  ]

pub eq_text_trans : (a b c : Value) → eq_text a b ≡ true → eq_text b c ≡ true → eq_text a c ≡ true
eq_text_trans (str a) (str b) (str c) h k =
    ground (arith, text_key.same_iff a b, text_key.same_iff b c, text_key.same_iff a c)
eq_text_trans a b c h k = ground arith

-- A row that is joined to a row of the project, on the project, is of the project.
pub same_project-own :
    (p : String) (a b : Row)
    → same_project a b ≡ true
    → of_project p b ≡ true
    → of_project p a ≡ true
same_project-own p a b = eq_text_trans (cell "project_id" a) (cell "project_id" b) (str p)

-- A table extended row by row and then filtered: rows that the filter drops can be left out, and the
-- extension matters only where the filter is passed.
pub keep-map_own :
    {A B : Type 0} (p q : A → Bool) (f g : A → B)
    → ((a : A) → q a ≡ true → p a ≡ true)
    → ((a : A) → q a ≡ true → f a ≡ g a)
    → (xs : List A)
    → keep (λ (j : A × B). q j.0) (map (λ a. (a, f a)) xs)
      ≡ keep (λ (j : A × B). q j.0) (map (λ a. (a, g a)) (keep p xs))
keep-map_own p q f g h e [] = refl
keep-map_own p q f g h e (x ∷ xs) = elim (Bool-cases (q x)) [
  | inl t ↦ ground (arith, h x t, e x t, keep-map_own p q f g h e xs)
  | inr t ↦ ground (arith, keep-map_own p q f g h e xs)
]
