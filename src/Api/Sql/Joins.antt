-- ===== src/Api/Sql/Joins.antt =====
-- A LEFT JOIN counted (the joins of agent-observability/api-server/main.py): grouped by a key of its left
-- rows, and on a key of groups.
use open_weave.Prelude.{
  suc, ◌+◌, ◌≤◌, Bool, true, false, ◌≡◌, refl, sym, same_self, ap, ◌∙◌, ◌||◌, Option, none, some,
  List, [], ◌∷◌, ◌++◌, ◌==◌, keep, map, length, length-append, contains, Key, if◌then◌else◌, arith,
  All, Bool-cases, inl, inr,
}
use open_weave.Prelude.Dict.{get, has}
use open_weave.Api.Sql.{left_join, or_null, add_row, groups_from, group_by}
use open_weave.Api.Sql.Groups.{get-add_row, UniqueKeys}

module _ {K : Type 0} ⦃k_key : Key K⦄ where
  -- No key is there twice.
  abbrev pub AreDistinct : List K → Type 0
  AreDistinct [] = Unit
  AreDistinct (k ∷ ks) = (contains k ks ≡ false) × AreDistinct ks

  module _ {A : Type 0} where
    has-add_row :
        (k j : K) (a : A) (groups : List (K × List A))
        → has j (add_row k a groups) ≡ (k == j || has j groups)
    has-add_row k j a groups = ground (arith, get-add_row k j a groups)

    length-add_row :
        (k : K) (a : A) (groups : List (K × List A))
        → length (add_row k a groups)
          ≡ (if has k groups then length groups else suc (length groups))
    unfolding add_row get
    length-add_row k a [] = refl
    length-add_row k a ((j, rows) ∷ groups) = ground (arith, length-add_row k a groups)

  module _ {B D : Type 0} (on : B → D → Bool) (k : B → K) where
    abbrev key : B × Option D → K
    key j = k j.0

    -- More rows of a group that is there make no group more.
    groups_from-same :
        (q : K) (rows rest : List (B × Option D)) (groups : List (K × List (B × Option D)))
        → has q groups ≡ true
        → All (λ j. key j ≡ q) rows
        → (after : List (K × List (B × Option D))) × (groups_from key (rows ++ rest) groups
            ≡ groups_from key rest after)
          × (length after ≡ length groups)
          × ((j : K) → has j after ≡ has j groups)
    unfolding groups_from
    groups_from-same q [] rest groups there h = (groups, refl, refl, λ j. refl)
    groups_from-same q (r ∷ rows) rest groups there h =
        let more = add_row (key r) r groups in
        let unchanged : (j : K) → has j more ≡ has j groups =
          λ j. has-add_row (key r) j r groups ∙ absorbed j in
        let (after, e, len, same) = groups_from-same q rows rest more (unchanged q ∙ there) h.1 in
        (
          after,
          e,
          len ∙ length-add_row (key r) r groups ∙ ground (arith, there, ap (λ x. has x groups) h.0),
          λ j. same j ∙ unchanged j,
        )
      where
        absorbed : (j : K) → (key r == j || has j groups) ≡ has j groups
        absorbed j = elim (Bool-cases (key r == j)) [
          | inl same ↦
              let here : has j groups ≡ true =
                ap (λ x. has x groups) (sym ((k_key.same_iff (key r) j).0 same) ∙ h.0) ∙ there in
              ground (arith, here)
          | inr differs ↦ ground (arith, differs)
        ]

    All-or_null_rows : (a : B) (cs : List D) → All (λ j. key j ≡ k a) (map (λ c. (a, some c)) cs)
    All-or_null_rows a [] = tt
    All-or_null_rows a (c ∷ cs) = (refl, All-or_null_rows a cs)

    -- The rows of a LEFT JOIN for one row are one group.
    groups_from-or_null :
        (a : B) (cs : List D) (rest : List (B × Option D)) (groups : List (K × List (B × Option D)))
        → has (k a) groups ≡ false
        → (after : List (K × List (B × Option D))) × (groups_from key
              (or_null on a cs ++ rest)
              groups
            ≡ groups_from key rest after)
          × (length after ≡ suc (length groups))
          × ((j : K) → has j after ≡ (k a == j || has j groups))
    unfolding groups_from
    groups_from-or_null a [] rest groups absent = (
      add_row (k a) (a, none) groups,
      refl,
      length-add_row (k a) (a, none) groups ∙ ground (arith, absent),
      λ j. has-add_row (k a) j (a, none) groups,
    )
    groups_from-or_null a (c ∷ cs) rest groups absent =
        let more = add_row (k a) (a, some c) groups in
        let (after, e, len, same) =
          groups_from-same (k a) (map (λ d. (a, some d)) cs) rest more
            (has-add_row (k a) (k a) (a, some c) groups ∙ ground (arith, same_self (k a)))
            (All-or_null_rows a cs) in
        (
          after,
          e,
          len ∙ length-add_row (k a) (a, some c) groups ∙ ground (arith, absent),
          λ j. same j ∙ has-add_row (k a) j (a, some c) groups,
        )

    still_absent :
        (a : B) (groups after : List (K × List (B × Option D)))
        → ((j : K) → has j after ≡ (k a == j || has j groups))
        → (bs : List B) → contains (k a) (map k bs) ≡ false
        → All (λ b. has (k b) groups ≡ false) bs
        → All (λ b. has (k b) after ≡ false) bs
    still_absent a groups after same [] distinct absent = tt
    still_absent a groups after same (b ∷ bs) distinct absent = (
      same (k b)
          ∙ ground
              (arith, absent.0, distinct, k_key.same_iff (k a) (k b), k_key.same_iff (k b) (k a)),
      still_absent a groups after same bs (ground (arith, distinct)) absent.1,
    )

    length-groups_from :
        (bs : List B) (ds : List D) (groups : List (K × List (B × Option D)))
        → AreDistinct (map k bs)
        → All (λ b. has (k b) groups ≡ false) bs
        → length (groups_from key (left_join on bs ds) groups) ≡ length groups + length bs
    unfolding left_join groups_from
    length-groups_from [] ds groups distinct absent = omega arith
    length-groups_from (b ∷ bs) ds groups distinct absent =
        let (after, e, len, same) =
          groups_from-or_null b (keep (on b) ds) (left_join on bs ds) groups absent.0 in
        let rest =
          length-groups_from bs ds after distinct.1
            (still_absent b groups after same bs distinct.0 absent.1) in
        ap length e ∙ omega (arith, rest, len)

    none_there :
        (bs : List B)
        → let none_yet : List (K × List (B × Option D)) = [] in
          All (λ b. has (k b) none_yet ≡ false) bs
    unfolding get
    none_there [] = tt
    none_there (b ∷ bs) = (refl, none_there bs)

    -- A LEFT JOIN grouped by a key of the left rows gives one group for each of them.
    pub length-group_by :
        (bs : List B) (ds : List D)
        → AreDistinct (map k bs)
        → length (group_by key (left_join on bs ds)) ≡ length bs
    length-group_by bs ds distinct =
        length-groups_from bs ds [] distinct (none_there bs) ∙ omega arith

-- A LEFT JOIN on the key of groups gives one row for each left row.
module _ {K : Type 0} ⦃k_key : Key K⦄ {A : Type 0} where
  keep-absent :
      (q : K) (groups : List (K × List A))
      → get q groups ≡ none
      → length (keep (λ g. g.0 == q) groups) ≡ 0
  unfolding get
  keep-absent q [] h = refl
  keep-absent q ((j, rows) ∷ groups) h = ground (arith, h, keep-absent q groups)

  pub keep_unique :
      (q : K) (groups : List (K × List A))
      → UniqueKeys groups
      → length (keep (λ g. g.0 == q) groups) ≤ 1
  keep_unique q [] h = omega arith
  keep_unique q ((j, rows) ∷ groups) h = elim (Bool-cases (j == q)) [
    | inl same ↦
        let absent : get q groups ≡ none =
          ap (λ x. get x groups) (sym ((k_key.same_iff j q).0 same)) ∙ h.0 in
        ground (arith, same, keep-absent q groups absent)
    | inr differs ↦ ground (arith, differs, keep_unique q groups h.1)
  ]

pub length-map : {A B : Type 0} (f : A → B) (xs : List A) → length (map f xs) ≡ length xs
length-map f [] = refl
length-map f (x ∷ xs) = ap suc (length-map f xs)

pub length-keep-map :
    {A B : Type 0} (p : B → Bool) (f : A → B) (xs : List A)
    → length (keep p (map f xs)) ≡ length (keep (λ x. p (f x)) xs)
length-keep-map p f [] = refl
length-keep-map p f (x ∷ xs) = ground (arith, length-keep-map p f xs)

length-or_null :
    {A B : Type 0} (on : A → B → Bool) (a : A) (bs : List B)
    → length bs ≤ 1
    → length (or_null on a bs) ≡ 1
length-or_null on a [] h = refl
length-or_null on a (b ∷ bs) h = ap suc (length-map (λ c. (a, some c)) bs) ∙ omega (arith, h)

pub length-left_join :
    {A B : Type 0} (on : A → B → Bool) (lefts : List A) (rights : List B)
    → ((a : A) → length (keep (on a) rights) ≤ 1)
    → length (left_join on lefts rights) ≡ length lefts
unfolding left_join
length-left_join on [] rights h = refl
length-left_join on (a ∷ lefts) rights h =
    length-append (or_null on a (keep (on a) rights)) (left_join on lefts rights)
    ∙ omega
        (arith, length-or_null on a (keep (on a) rights) (h a), length-left_join on lefts rights h)
