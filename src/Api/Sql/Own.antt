-- ===== src/Api/Sql/Own.antt =====
-- Queries on the rows of one project: what the clauses that agent-observability/api-server/main.py
-- uses keep of a property of rows, and joins on the project.
use open_weave.Prelude.{
  Bool, true, ◌≡◌, refl, ap₂, List, [], ◌∷◌, ◌++◌, map, keep, All, Bool-cases, inl, inr,
}
use open_weave.Api.Sql.{insert_row, order_by, join, left_join, or_null, All-keep_self, keep-keep}

module _ {A : Type 0} (P : A → Type 0) where
  pub All-append : (xs ys : List A) → All P xs → All P ys → All P (xs ++ ys)
  All-append [] ys h k = k
  All-append (x ∷ xs) ys h k = (h.0, All-append xs ys h.1 k)

  All-insert_row :
      (before : A → A → Bool) (r : A) (xs : List A)
      → P r
      → All P xs
      → All P (insert_row before r xs)
  unfolding insert_row
  All-insert_row before r [] h k = (h, tt)
  All-insert_row before r (q ∷ xs) h k = elim (Bool-cases (before r q)) [
    | inl t ↦ rw t (h, k)
    | inr t ↦ rw t (k.0, All-insert_row before r xs h k.1)
  ]

  pub All-order_by : (before : A → A → Bool) (xs : List A) → All P xs → All P (order_by before xs)
  unfolding order_by
  All-order_by before [] h = tt
  All-order_by before (r ∷ xs) h =
      All-insert_row before r (order_by before xs) h.0 (All-order_by before xs h.1)

pub map-cong_All :
    {A B : Type 0} (f g : A → B) (xs : List A) → All (λ x. f x ≡ g x) xs → map f xs ≡ map g xs
map-cong_All f g [] h = refl
map-cong_All f g (x ∷ xs) h = ap₂ ◌∷◌ h.0 (map-cong_All f g xs h.1)

-- The same with what is known of each element.
pub map-cong_own :
    {A B : Type 0} (f g : A → B) (P : A → Type 0)
    → ((x : A) → P x → f x ≡ g x)
    → (xs : List A) → All P xs
    → map f xs ≡ map g xs
map-cong_own f g P same [] h = refl
map-cong_own f g P same (x ∷ xs) h = ap₂ ◌∷◌ (same x h.0) (map-cong_own f g P same xs h.1)

-- A join of rows of the project on the project sees its rows only.
module _ {A B : Type 0} (on : A → B → Bool) (mine : A → Type 0) (own : B → Bool)
    (same : (a : A) (b : B) → mine a → on a b ≡ true → own b ≡ true) where
  pub join-own :
      (lefts : List A) (rights : List B)
      → All mine lefts
      → join on lefts (keep own rights) ≡ join on lefts rights
  unfolding join
  join-own [] rights h = refl
  join-own (a ∷ rest) rights h =
      ap₂ (λ rows more. map (λ b. (a, b)) rows ++ more)
        (keep-keep own (on a) (λ b. same a b h.0) rights) (join-own rest rights h.1)

  pub left_join-own :
      (lefts : List A) (rights : List B)
      → All mine lefts
      → left_join on lefts (keep own rights) ≡ left_join on lefts rights
  unfolding left_join
  left_join-own [] rights h = refl
  left_join-own (a ∷ rest) rights h =
      ap₂ (λ rows more. or_null on a rows ++ more) (keep-keep own (on a) (λ b. same a b h.0) rights)
        (left_join-own rest rights h.1)

  All-pairs :
      (a : A)
      → mine a
      → (rights : List B) → All (λ b. on a b ≡ true) rights
      → All (λ (j : A × B). mine j.0 × (own j.1 ≡ true)) (map (λ b. (a, b)) rights)
  All-pairs a h [] k = tt
  All-pairs a h (b ∷ rights) k = ((h, same a b h k.0), All-pairs a h rights k.1)

  pub All-join :
      (lefts : List A) (rights : List B)
      → All mine lefts
      → All (λ (j : A × B). mine j.0 × (own j.1 ≡ true)) (join on lefts rights)
  unfolding join
  All-join [] rights h = tt
  All-join (a ∷ rest) rights h =
      All-append (λ (j : A × B). mine j.0 × (own j.1 ≡ true))
        (map (λ b. (a, b)) (keep (on a) rights)) (join on rest rights)
        (All-pairs a h.0 (keep (on a) rights) (All-keep_self (on a) (on a) (λ b e. e) rights))
        (All-join rest rights h.1)
