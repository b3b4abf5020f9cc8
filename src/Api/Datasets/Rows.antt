-- ===== src/Api/Datasets/Rows.antt =====
-- Laws of INSERT … ON CONFLICT … DO UPDATE, for the handlers of agent-observability/api-server/main.py.
use open_weave.Prelude.{
  ℕ, zero, suc, ◌≤◌, ap, ◌++◌, map, take, length, In, String, Bool, true, false, ◌≡◌, refl, none,
  some, List, [], ◌∷◌, ◌==◌, keep, text_key, arith, Bool-cases, inl, inr,
}
use open_weave.Prelude.Dict.{put, get-put}
use open_weave.Python.{Value, Row, cell}
use open_weave.Api.Sql.{first, insert_row, order_by}
use open_weave.Api.Datasets.{upsert}

-- An assignment leaves the other columns alone.
pub cell-put_other :
    (k c : String) (v : Value) (r : Row) → (k == c) ≡ false → cell c (put k v r) ≡ cell c r
cell-put_other k c v r h = ground (arith, get-put k c v r, h)

module _ (same : Row → Bool) (change : Row → Row) (fresh : Row) where
  -- The row that RETURNING gives is the one that the key finds afterwards.
  pub first-upsert :
      ((r : Row) → same r ≡ true → same (change r) ≡ true)
      → same fresh ≡ true
      → (rows : List Row)
      → first (keep same (upsert same change fresh rows).0) ≡ some (upsert same change fresh rows).1
  unfolding upsert
  first-upsert kept new [] = ground (arith, new)
  first-upsert kept new (r ∷ rows) = ground (arith, kept r, first-upsert kept new rows)

  -- Rows that are neither the proposed one nor in conflict with it stay.
  pub keep-upsert :
      (other : Row → Bool)
      → ((r : Row) → same r ≡ true → (other r ≡ false) × (other (change r) ≡ false))
      → other fresh ≡ false
      → (rows : List Row) → keep other (upsert same change fresh rows).0 ≡ keep other rows
  unfolding upsert
  keep-upsert other apart new [] = ground (arith, new)
  keep-upsert other apart new (r ∷ rows) = ground (arith, apart r, keep-upsert other apart new rows)

  -- A new row, or the change of an old one.
  pub upsert-row :
      (rows : List Row)
      → (upsert same change fresh rows).1
        ≡ elim (first (keep same rows)) [ none ↦ fresh | some old ↦ change old ]
  unfolding upsert
  upsert-row [] = refl
  upsert-row (r ∷ rows) = ground (arith, upsert-row rows)

  pub upsert-append :
      (rows : List Row)
      → first (keep same rows) ≡ none
      → (upsert same change fresh rows).0 ≡ rows ++ fresh ∷ []
  unfolding upsert
  upsert-append [] h = refl
  upsert-append (r ∷ rows) h = ground (arith, upsert-append rows)

-- Where a row stands after a query's clauses.
module _ {A : Type 0} where
  pub In-append : (x : A) (xs ys : List A) → In x ys → In x (xs ++ ys)
  In-append x [] ys h = h
  In-append x (y ∷ xs) ys h = inr (In-append x xs ys h)

  pub In-keep_of : (p : A → Bool) (x : A) (xs : List A) → p x ≡ true → In x xs → In x (keep p xs)
  In-keep_of p x [] e h = h
  In-keep_of p x (y ∷ ys) e (inl same) = ground (arith, ap p same)
  In-keep_of p x (y ∷ ys) e (inr h) = elim (Bool-cases (p y)) [
    | inl t ↦ rw t (inr (In-keep_of p x ys e h))
    | inr t ↦ rw t (In-keep_of p x ys e h)
  ]

  pub In-map : {B : Type 0} (f : A → B) (x : A) (xs : List A) → In x xs → In (f x) (map f xs)
  In-map f x [] h = elim h [ ]
  In-map f x (y ∷ ys) (inl same) = inl (ap f same)
  In-map f x (y ∷ ys) (inr h) = inr (In-map f x ys h)

  pub In-take : (n : ℕ) (x : A) (xs : List A) → length xs ≤ n → In x xs → In x (take n xs)
  In-take zero x [] l h = h
  In-take zero x (y ∷ ys) l h = absurd (omega arith)
  In-take (suc n) x [] l h = h
  In-take (suc n) x (y ∷ ys) l (inl same) = inl same
  In-take (suc n) x (y ∷ ys) l (inr h) = inr (In-take n x ys (omega arith) h)

  pub length-keep : (p : A → Bool) (xs : List A) → length (keep p xs) ≤ length xs
  length-keep p [] = omega arith
  length-keep p (x ∷ xs) = ground (arith, length-keep p xs)

  module _ (before : A → A → Bool) where
    In-insert_row : (x r : A) (xs : List A) → In x (r ∷ xs) → In x (insert_row before r xs)
    unfolding insert_row
    In-insert_row x r [] h = h
    In-insert_row x r (q ∷ xs) h = elim (Bool-cases (before r q)) [
      | inl t ↦ rw t h
      | inr t ↦ rw t (later h (In-insert_row x r xs))
    ]
      where
        later :
            In x (r ∷ q ∷ xs)
            → (In x (r ∷ xs) → In x (insert_row before r xs))
            → In x (q ∷ insert_row before r xs)
        later (inl same) ih = inr (ih (inl same))
        later (inr (inl same)) ih = inl same
        later (inr (inr h)) ih = inr (ih (inr h))

    pub In-order_by : (x : A) (xs : List A) → In x xs → In x (order_by before xs)
    unfolding order_by
    In-order_by x [] h = h
    In-order_by x (r ∷ xs) (inl same) = In-insert_row x r (order_by before xs) (inl same)
    In-order_by x (r ∷ xs) (inr h) =
        In-insert_row x r (order_by before xs) (inr (In-order_by x xs h))

    length-insert_row : (r : A) (xs : List A) → length (insert_row before r xs) ≡ suc (length xs)
    unfolding insert_row
    length-insert_row r [] = refl
    length-insert_row r (q ∷ xs) = ground (arith, length-insert_row r xs)

    pub length-order_by : (xs : List A) → length (order_by before xs) ≡ length xs
    unfolding order_by
    length-order_by [] = refl
    length-order_by (r ∷ xs) =
        omega (arith, length-insert_row r (order_by before xs), length-order_by xs)
