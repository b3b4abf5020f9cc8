-- ===== src/Pricing/Scope.antt =====
-- What pricing leaves alone.
use open_weave.Prelude.{
  ℕ, ◌+◌, String, ◌≡◌, refl, ◌≢◌, inl, inr, false, Option, none, some, List, [], ◌∷◌, ◌==◌,
  if◌then◌else◌, text_key, RowKey, row_key, Bool-cases, ap, ◌∙◌, All,
}
use open_weave.Prelude.Int.{ℤ}
use open_weave.Prelude.Dict.{Dict, get, put, get-put}
use open_weave.Python.{Row, Python}
use open_weave.Pricing.{ModelPrice}
use open_weave.Pricing.Resolve.{
  is_selected, select_rows, update_row, update_at, price_row, resolve_rows, resolve_costs,
}

get-update_at_ne :
    (k j : RowKey) (f : Row → Row) (table : Dict RowKey Row)
    → k ≢ j
    → get j (update_at k f table) ≡ get j table
unfolding update_at
get-update_at_ne k j f table h = go (get k table)
  where
    go :
        (o : Option Row)
        → get j (elim o as (λ _. Dict RowKey Row) [ none ↦ table | some r ↦ put k (f r) table ])
          ≡ get j table
    go none = refl
    go (some r) = get-put k j (f r) table ∙ elim (Bool-cases (k == j)) [
      | inl same ↦ absurd (h ((row_key.same_iff k j).0 same))
      | inr differs ↦ rw differs
    ]

module _ (py : Python) (models : List ModelPrice) (now : ℕ) where
  get-resolve_rows :
      (j : RowKey) (rows : List (RowKey × Row)) (table : Dict RowKey Row) (n : ℕ)
      → All (λ e. e.0 ≢ j) rows
      → get j (resolve_rows py models now rows table n).0 ≡ get j table
  unfolding resolve_rows
  get-resolve_rows j [] table n h = refl
  get-resolve_rows j ((k, r) ∷ rows) table n h =
      go (get-resolve_rows j rows table n h.1)
        (λ f.
          get-resolve_rows j rows (update_at k f table) (n + 1) h.1
          ∙ get-update_at_ne k j f table h.0)
        (price_row py models now k r)
    where
      go :
          get j (resolve_rows py models now rows table n).0 ≡ get j table
          → ((f : Row → Row)
              → get j (resolve_rows py models now rows (update_at k f table) (n + 1)).0
                ≡ get j table)
          → (o : Option (String × Dict String ℕ × ℤ))
          → get j
              (elim o as (λ _. Dict RowKey Row × ℕ) [
                | none ↦ resolve_rows py models now rows table n
                | some (model_id, details, total) ↦
                    resolve_rows py models now rows
                      (update_at k (update_row model_id details total) table)
                      (n + 1)
              ]).0
            ≡ get j table
      go stay updated none = stay
      go stay updated (some (model_id, details, total)) =
          updated (update_row model_id details total)

select_rows-ne :
    (j : RowKey) (r : Row) (keys : List RowKey) (table : Dict RowKey Row)
    → get j table ≡ some r
    → is_selected r ≡ false
    → All (λ e. e.0 ≢ j) (select_rows keys table)
unfolding select_rows
select_rows-ne j r [] table e h = tt
select_rows-ne j r (k ∷ keys) table e h =
    go (get k table) (λ q. ap (λ i. get i table) q ∙ e) (select_rows-ne j r keys table e h)
  where
    go :
        (o : Option Row)
        → (k ≡ j → o ≡ some r)
        → All (λ x. x.0 ≢ j) (select_rows keys table)
        → All
            (λ x. x.0 ≢ j)
            (elim o as (λ _. List (RowKey × Row)) [
              | none ↦ select_rows keys table
              | some s ↦
                  if is_selected s then (k, s) ∷ select_rows keys table else select_rows keys table
            ])
    go none q rest = rest
    go (some s) q rest = elim (Bool-cases (is_selected s)) [
      | inl yes_selected ↦ rw yes_selected (λ same. cc (q same, h, yes_selected), rest)
      | inr skipped ↦ rw skipped rest
    ]

-- Pricing a batch changes no row that is not a generation, has no usage, or was priced by the
-- client, whatever keys the batch touched.
pub resolve_costs-keeps :
    (py : Python) (models : List ModelPrice) (now : ℕ) (keys : List RowKey)
    (table : Dict RowKey Row) (j : RowKey) (r : Row)
    → get j table ≡ some r
    → is_selected r ≡ false
    → get j (resolve_costs py models now keys table).0 ≡ some r
unfolding resolve_costs
resolve_costs-keeps py models now keys table j r e h =
    get-resolve_rows py models now j (select_rows keys table) table 0
      (select_rows-ne j r keys table e h)
    ∙ e
