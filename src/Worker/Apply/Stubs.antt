-- ===== src/Worker/Apply/Stubs.antt =====
-- Stub traces and scores only fill gaps.
use open_weave.Prelude.{
  ◌≡◌, ◌⊎◌, inl, inr, Bool, none, some, List, [], ◌∷◌, arith, ◌==◌, text_key, RowKey, row_key,
  Option-cases, Bool-cases, ap, sym, ◌∙◌,
}
use open_weave.Prelude.Dict.{get, put, get-put}
use open_weave.Prelude.Result.{ok, >>=-eq-ok}
use open_weave.Python.{Row}
use open_weave.Worker.Upsert.{Table, row_key_of, checked, insert_or_nothing, execute_many}

module _ (accepts : Row → Bool) where
  -- The table is as it was, or has one more row.
  insert_or_nothing_cases :
      (row : Row) (table t : Table)
      → insert_or_nothing accepts row table ≡ ok t
      → (t ≡ table) ⊎ ((j : RowKey) × (r : Row) × (get j table ≡ none) × (t ≡ put j r table))
  unfolding insert_or_nothing
  insert_or_nothing_cases row table t h =
      let (j, _, h₁) = >>=-eq-ok (row_key_of row) _ h in
      let (r, _, h₂) = >>=-eq-ok (checked accepts row) _ h₁ in
      elim (Option-cases (get j table)) [
        | inl e ↦ inr (j, r, e, ground (arith, e, h₂))
        | inr (old, e) ↦ inl (ground (arith, e, h₂))
      ]

  get-put_new :
      (k j : RowKey) (r old : Row) (table : Table)
      → get j table ≡ none
      → get k table ≡ some old
      → get k (put j r table) ≡ some old
  get-put_new k j r old table e h = get-put j k r table ∙ elim (Bool-cases (j == k)) [
    | inl t ↦ absurd (cc (sym e ∙ ap (λ i. get i table) ((row_key.same_iff j k).0 t) ∙ h))
    | inr t ↦ ground (arith, t, h)
  ]

  -- Inserting rows with ON CONFLICT DO NOTHING leaves every stored row as it is.
  pub execute_many-insert_or_nothing :
      (rows : List Row) (table t : Table) (k : RowKey) (old : Row)
      → execute_many (insert_or_nothing accepts) rows table ≡ ok t
      → get k table ≡ some old
      → get k t ≡ some old
  unfolding execute_many
  execute_many-insert_or_nothing [] table t k old h e =
      let q : table ≡ t = cc in ap (get k) (sym q) ∙ e
  execute_many-insert_or_nothing (row ∷ rows) table t k old h e =
      let (t₁, h₁, h₂) = >>=-eq-ok (insert_or_nothing accepts row table) _ h in
      execute_many-insert_or_nothing rows t₁ t k old h₂
        (elim (insert_or_nothing_cases row table t₁ h₁) [
          | inl q ↦ ap (get k) q ∙ e
          | inr (j, r, new, q) ↦ ap (get k) q ∙ get-put_new k j r old table new e
        ])
