-- ===== src/Pricing/Resolve.antt =====
-- `resolve_costs`: pricing the observations of a batch in the table, with the two SQL statements
-- RESOLVE_SELECT and RESOLVE_UPDATE as functions on the rows. The cache was refreshed before.
use open_weave.Prelude.{
  ℕ, ◌+◌, String, Bool, false, not, ◌&&◌, Option, none, some, List, [], ◌∷◌, ◌==◌, if◌then◌else◌,
  text_key, RowKey, row_key, map,
}
use open_weave.Prelude.Int.{ℤ}
use open_weave.Prelude.Dict.{Dict, get, put}
use open_weave.Python.{
  Value, float, decimal, str, time, obj, Row, cell, is_null, fields, to_fields, Python,
}
use open_weave.Pricing.{ModelPrice, match_model}
use open_weave.Pricing.Cost.{compute_cost}

abbrev pub is_text : String → Value → Bool
is_text s (str t) = t == s
is_text s _ = false

-- The WHERE of RESOLVE_SELECT: generations with usage that the client did not price itself.
unfoldable pub is_selected : Row → Bool
is_selected r =
    is_text "GENERATION" (cell "type" r)
    && not (is_null (cell "usage_details" r))
    && is_null (cell "provided_cost_details" r)

-- RESOLVE_SELECT over the given keys.
unfoldable pub select_rows : List RowKey → Dict RowKey Row → List (RowKey × Row)
select_rows [] table = []
select_rows (k ∷ keys) table =
    let rest = select_rows keys table in
    elim (get k table) [ none ↦ rest | some r ↦ if is_selected r then (k, r) ∷ rest else rest ]

abbrev pub optional_text : Value → Option String
optional_text (str s) = some s
optional_text _ = none

abbrev pub optional_time : Value → Option ℕ
optional_time (time t) = some t
optional_time _ = none

abbrev pub optional_dict : Value → Option (Dict String Value)
optional_dict (obj fs) = some (fields fs)
optional_dict _ = none

-- RESOLVE_UPDATE on the row of its key.
unfoldable pub update_row : String → Dict String ℕ → ℤ → Row → Row
update_row model_id details total r = put "total_cost" (decimal total) (
    put "cost_details" (obj (to_fields (map (λ e. (e.0, float e.1)) details)))
      (put "internal_model_id" (str model_id) r))

-- An UPDATE by primary key: a missing row is left missing.
unfoldable pub update_at : RowKey → (Row → Row) → Dict RowKey Row → Dict RowKey Row
update_at k f table = elim (get k table) [ none ↦ table | some r ↦ put k (f r) table ]

module _ (py : Python) (models : List ModelPrice) (now : ℕ) where
  -- The price of a selected row, with the id of the model: `None` where the loop continues.
  unfoldable pub price_row : RowKey → Row → Option (String × Dict String ℕ × ℤ)
  price_row k r =
      let price =
        match_model models (optional_text (cell "provided_model_name" r)) k.0
          (optional_time (cell "start_time" r)) now in
      elim price [
        | none ↦ none
        | some m ↦ elim (compute_cost py (optional_dict (cell "usage_details" r)) (some m)) [
          | none ↦ none
          | some (details, total) ↦ some (m.model_id, details, total)
        ]
      ]

  -- The loop over the selected rows: the table, and the number of updates.
  unfoldable pub resolve_rows : List (RowKey × Row) → Dict RowKey Row → ℕ → Dict RowKey Row × ℕ
  resolve_rows [] table updated = (table, updated)
  resolve_rows ((k, r) ∷ rows) table updated =
      let stay = resolve_rows rows table updated in
      elim (price_row k r) [
        | none ↦ stay
        | some (model_id, details, total) ↦
            resolve_rows rows (update_at k (update_row model_id details total) table) (updated + 1)
      ]

  unfoldable pub resolve_costs : List RowKey → Dict RowKey Row → Dict RowKey Row × ℕ
  resolve_costs keys table = resolve_rows (select_rows keys table) table 0
