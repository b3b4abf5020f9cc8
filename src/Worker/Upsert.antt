-- ===== src/Worker/Upsert.antt =====
-- `_merge_upsert`, `_group_by_sent` and the INSERT statements of the worker, as functions on tables.
-- Postgres checks a proposed row and the row that results: `accepts` is its check (types, NOT NULL,
-- foreign keys), and `end_after_start` is the constraint `ck_obs_end_after_start` of worker/models.py.
pub mod Merge
use open_weave.Prelude.{
  ℕ, String, Bool, true, false, not, ◌&&◌, ◌||◌, Option, none, some, List, [], ◌∷◌, ◌++◌, ◌==◌, leb,
  keep, contains, if◌then◌else◌, text_key, RowKey, row_key,
}
use open_weave.Prelude.Dict.{Dict, get, put}
use open_weave.Prelude.Result.{Result, ok, err, ◌>>=◌}
use open_weave.Python.{Value, null, str, time, Row, cell, is_null, Error, database_error}

abbrev pub Table : Type 0
Table = Dict RowKey Row

-- The primary key (project_id, id) of a proposed row; what is no text the driver refuses.
abbrev pub key_of : Value → Value → Result Error RowKey
key_of (str p) (str i) = ok (p, i)
key_of _ _ = err database_error

abbrev pub row_key_of : Row → Result Error RowKey
row_key_of r = key_of (cell "project_id" r) (cell "id" r)

-- `COALESCE(excluded.c, table.c)`
abbrev pub coalesce : Value → Value → Value
coalesce a b = if is_null a then b else a

-- `(set(sent) | {"updated_at"}) - set(key) - {"created_at"}`
abbrev pub is_fixed : String → Bool
is_fixed c = c == "project_id" || c == "id" || c == "created_at"

unfoldable pub updatable : List String → List String
updatable sent = keep (λ c. not (is_fixed c)) ("updated_at" ∷ sent)

-- SET c = COALESCE(excluded.c, table.c), every right side read from the old row.
unfoldable pub merge_columns : List String → Row → Row → Row → Row
merge_columns [] excluded old row = row
merge_columns (c ∷ columns) excluded old row =
    merge_columns columns excluded old (put c (coalesce (cell c excluded) (cell c old)) row)

-- SET c = excluded.c
unfoldable pub set_columns : List String → Row → Row → Row
set_columns [] excluded row = row
set_columns (c ∷ columns) excluded row = set_columns columns excluded (put c (cell c excluded) row)

-- `end_time IS NULL OR end_time >= start_time`; a comparison with NULL is not false.
abbrev pub times_ordered : Value → Value → Bool
times_ordered (time e) (time s) = leb s e
times_ordered (time e) _ = true
times_ordered _ _ = true

unfoldable pub end_after_start : Row → Bool
end_after_start r = times_ordered (cell "end_time" r) (cell "start_time" r)

-- `conn.execute(statement, rows)`
unfoldable pub execute_many :
    (Row → Table → Result Error Table) → List Row → Table → Result Error Table
execute_many statement [] table = ok table
execute_many statement (row ∷ rows) table =
    statement row table >>= λ t. execute_many statement rows t

module _ (accepts : Row → Bool) where
  abbrev pub checked : Row → Result Error Row
  checked r = if accepts r then ok r else err database_error

  -- INSERT … ON CONFLICT (project_id, id): `resolve` is the row that replaces the old one.
  unfoldable pub insert_or : (Row → Row → Row) → Row → Table → Result Error Table
  insert_or resolve row table = do
    k ← row_key_of row
    proposed ← checked row
    elim (get k table) [
      | none ↦ ok (put k proposed table)
      | some old ↦ checked (resolve proposed old) >>= λ r. ok (put k r table)
    ]

  -- INSERT … ON CONFLICT DO NOTHING
  unfoldable pub insert_or_nothing : Row → Table → Result Error Table
  insert_or_nothing row table = do
    k ← row_key_of row
    proposed ← checked row
    elim (get k table) [ none ↦ ok (put k proposed table) | some old ↦ ok table ]

  -- `_merge_upsert` of one row.
  unfoldable pub merge_upsert : List String → Row → Table → Result Error Table
  merge_upsert sent = insert_or (λ row old. merge_columns (updatable sent) row old old)

  -- The upsert of an update: it overwrites, and does not coalesce.
  unfoldable pub overwrite_upsert : List String → Row → Table → Result Error Table
  overwrite_upsert touched = insert_or (λ row old. set_columns touched row old)

  unfoldable pub merge_groups : List (List String × List Row) → Table → Result Error Table
  merge_groups [] table = ok table
  merge_groups ((sent, rows) ∷ groups) table =
      execute_many (merge_upsert sent) rows table >>= λ t. merge_groups groups t

-- Two column sets, each in the order of the table's columns.
unfoldable pub same_columns : List String → List String → Bool
same_columns [] [] = true
same_columns [] (d ∷ ds) = false
same_columns (c ∷ cs) [] = false
same_columns (c ∷ cs) (d ∷ ds) = c == d && same_columns cs ds

-- `groups.setdefault(frozenset(sent), []).append(row)`
unfoldable pub add_to_group :
    List String → Row → List (List String × List Row) → List (List String × List Row)
add_to_group sent row [] = (sent, row ∷ []) ∷ []
add_to_group sent row ((columns, rows) ∷ groups) =
    if same_columns columns sent
    then (columns, rows ++ row ∷ []) ∷ groups
    else (columns, rows) ∷ add_to_group sent row groups

unfoldable pub group_from :
    List (Row × List String) → List (List String × List Row) → List (List String × List Row)
group_from [] groups = groups
group_from ((row, sent) ∷ pairs) groups = group_from pairs (add_to_group sent row groups)

-- `_group_by_sent`
unfoldable pub group_by_sent : List (Row × List String) → List (List String × List Row)
group_by_sent pairs = group_from pairs []
