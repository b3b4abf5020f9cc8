-- ===== src/Api/Sql/Groups.antt =====
-- GROUP BY, as the queries of agent-observability/api-server/main.py use it: every row is in the group
-- of its key, and no key has two groups.
use open_weave.Prelude.{
  ℕ, suc, ◌+◌, length, length-append, ◌≡◌, refl, ◌∙◌, none, some, List, [], ◌∷◌, ◌++◌, ◌==◌, keep,
  Key, if◌then◌else◌, arith, All, Bool-cases, inl, inr,
}
use mathlib.Core.List.{append-nil, append_assoc}
use open_weave.Prelude.Dict.{get}
use open_weave.Api.Sql.Own.{All-append}
use open_weave.Api.Sql.{add_row, groups_from, group_by}

module _ {K : Type 0} ⦃k_key : Key K⦄ {A : Type 0} where
  -- The rows of a group, none where there is no such group.
  abbrev pub rows_of_group : K → List (K × List A) → List A
  rows_of_group k groups = elim (get k groups) [ none ↦ [] | some rows ↦ rows ]

  pub get-add_row :
      (k j : K) (a : A) (groups : List (K × List A))
      → get j (add_row k a groups)
        ≡ (if k == j then some (rows_of_group k groups ++ a ∷ []) else get j groups)
  unfolding get add_row
  get-add_row k j a [] = refl
  get-add_row k j a ((i, rows) ∷ groups) =
      ground (
        arith,
        k_key.same_iff k j,
        k_key.same_iff i k,
        k_key.same_iff i j,
        get-add_row k j a groups,
      )

  abbrev pub UniqueKeys : List (K × List A) → Type 0
  UniqueKeys [] = Unit
  UniqueKeys ((k, rows) ∷ groups) = (get k groups ≡ none) × UniqueKeys groups

  add_row-UniqueKeys :
      (k : K) (a : A) (groups : List (K × List A))
      → UniqueKeys groups
      → UniqueKeys (add_row k a groups)
  unfolding add_row get
  add_row-UniqueKeys k a [] h = (refl, tt)
  add_row-UniqueKeys k a ((i, rows) ∷ groups) h = ground (
    arith,
    k_key.same_iff i k,
    k_key.same_iff k i,
    get-add_row k i a groups,
    add_row-UniqueKeys k a groups h.1,
  )

  module _ (key : A → K) where
    groups_from-UniqueKeys :
        (rows : List A) (groups : List (K × List A))
        → UniqueKeys groups
        → UniqueKeys (groups_from key rows groups)
    unfolding groups_from
    groups_from-UniqueKeys [] groups h = h
    groups_from-UniqueKeys (a ∷ rows) groups h =
        groups_from-UniqueKeys rows (add_row (key a) a groups)
          (add_row-UniqueKeys (key a) a groups h)

    pub group_by-UniqueKeys : (rows : List A) → UniqueKeys (group_by key rows)
    group_by-UniqueKeys rows = groups_from-UniqueKeys rows [] tt

    rows_of_group-groups_from :
        (k : K) (rows : List A) (groups : List (K × List A))
        → rows_of_group k (groups_from key rows groups)
          ≡ rows_of_group k groups ++ keep (λ a. key a == k) rows
    unfolding groups_from
    rows_of_group-groups_from k [] groups = cc (append-nil (rows_of_group k groups))
    rows_of_group-groups_from k (a ∷ rows) groups =
        rows_of_group-groups_from k rows (add_row (key a) a groups)
        ∙ ground (
          arith,
          get-add_row (key a) k a groups,
          k_key.same_iff (key a) k,
          append_assoc (rows_of_group k groups) (a ∷ []) (keep (λ b. key b == k) rows),
        )

    pub rows_of_group-group_by :
        (k : K) (rows : List A) → rows_of_group k (group_by key rows) ≡ keep (λ a. key a == k) rows
    unfolding get
    rows_of_group-group_by k rows = rows_of_group-groups_from k rows []

-- Groups of rows that have a property.
module _ {K : Type 0} ⦃k_key : Key K⦄ {A : Type 0} (P : A → Type 0) where
  abbrev pub AllGroups : List (K × List A) → Type 0
  AllGroups [] = Unit
  AllGroups ((k, rows) ∷ groups) = All P rows × AllGroups groups

  AllGroups-add_row :
      (k : K) (a : A) (groups : List (K × List A))
      → P a
      → AllGroups groups
      → AllGroups (add_row k a groups)
  unfolding add_row
  AllGroups-add_row k a [] h all = ((h, tt), tt)
  AllGroups-add_row k a ((j, rows) ∷ groups) h all = elim (Bool-cases (j == k)) [
    | inl same ↦ rw same (All-append P rows (a ∷ []) all.0 (h, tt), all.1)
    | inr other ↦ rw other (all.0, AllGroups-add_row k a groups h all.1)
  ]

  pub AllGroups-groups_from :
      (key : A → K) (rows : List A) (groups : List (K × List A))
      → All P rows
      → AllGroups groups
      → AllGroups (groups_from key rows groups)
  unfolding groups_from
  AllGroups-groups_from key [] groups h all = all
  AllGroups-groups_from key (a ∷ rows) groups h all =
      AllGroups-groups_from key rows (add_row (key a) a groups) h.1
        (AllGroups-add_row (key a) a groups h.0 all)

-- The groups hold as many rows as there are.
module _ {K : Type 0} ⦃k_key : Key K⦄ {A : Type 0} where
  abbrev pub rows_in : List (K × List A) → ℕ
  rows_in [] = 0
  rows_in ((k, rows) ∷ groups) = length rows + rows_in groups

  rows_in-add_row :
      (k : K) (a : A) (groups : List (K × List A))
      → rows_in (add_row k a groups) ≡ suc (rows_in groups)
  unfolding add_row
  rows_in-add_row k a [] = refl
  rows_in-add_row k a ((j, rows) ∷ groups) =
      ground (arith, length-append rows (a ∷ []), rows_in-add_row k a groups)

  pub rows_in-groups_from :
      (key : A → K) (rows : List A) (groups : List (K × List A))
      → rows_in (groups_from key rows groups) ≡ length rows + rows_in groups
  unfolding groups_from
  rows_in-groups_from key [] groups = omega arith
  rows_in-groups_from key (a ∷ rows) groups = omega (
    arith,
    rows_in-groups_from key rows (add_row (key a) a groups),
    rows_in-add_row (key a) a groups,
  )
