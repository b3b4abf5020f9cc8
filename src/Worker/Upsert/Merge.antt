-- ===== src/Worker/Upsert/Merge.antt =====
-- What a merge does to each column of a row.
use open_weave.Prelude.{
  String, ◌≡◌, refl, ◌≢◌, Bool, false, not, ◌&&◌, ◌||◌, List, [], ◌∷◌, arith, ◌==◌, keep, contains,
  if◌then◌else◌, text_key, Bool-cases, inl, inr, ap, ◌∙◌, sym,
}
use open_weave.Prelude.Dict.{put, get-put}
use open_weave.Python.{Value, Row, cell, is_null}
use open_weave.Worker.Upsert.{coalesce, is_fixed, updatable, merge_columns, set_columns}

pub cell-put :
    (c d : String) (v : Value) (r : Row) → cell d (put c v r) ≡ (if c == d then v else cell d r)
cell-put c d v r = ground (arith, get-put c d v r)

-- `merge_columns` with one more column, for the values that a column gets.
put_step :
    (c d : String) (columns : List String) (f : String → Value) (row : Row)
    → (if contains d columns then f d else cell d (put c (f c) row))
      ≡ (if c == d || contains d columns then f d else cell d row)
put_step c d columns f row = elim (Bool-cases (c == d)) [
  | inl t ↦
      let e = ap f ((text_key.same_iff c d).0 t) in
      let p = cell-put c d (f c) row in ground (arith, e, p, t)
  | inr t ↦ let p = cell-put c d (f c) row in ground (arith, p, t)
]

-- Every updatable column gets its coalesced value, and every other column stays.
pub cell-merge_columns :
    (d : String) (columns : List String) (excluded old row : Row)
    → cell d (merge_columns columns excluded old row)
      ≡ (if contains d columns then coalesce (cell d excluded) (cell d old) else cell d row)
unfolding merge_columns
cell-merge_columns d [] excluded old row = refl
cell-merge_columns d (c ∷ columns) excluded old row =
    cell-merge_columns d columns excluded old (put c (coalesce (cell c excluded) (cell c old)) row)
    ∙ put_step c d columns (λ k. coalesce (cell k excluded) (cell k old)) row

pub cell-set_columns :
    (d : String) (columns : List String) (excluded row : Row)
    → cell d (set_columns columns excluded row)
      ≡ (if contains d columns then cell d excluded else cell d row)
unfolding set_columns
cell-set_columns d [] excluded row = refl
cell-set_columns d (c ∷ columns) excluded row =
    cell-set_columns d columns excluded (put c (cell c excluded) row)
    ∙ put_step c d columns (λ k. cell k excluded) row

-- The row that a merge leaves.
abbrev pub merged : List String → Row → Row → Row
merged sent row old = merge_columns (updatable sent) row old old

contains-keep :
    (d : String) (p : String → Bool) (xs : List String)
    → contains d (keep p xs) ≡ (contains d xs && p d)
contains-keep d p [] = refl
contains-keep d p (x ∷ xs) = elim (Bool-cases (x == d)) [
  | inl t ↦
      let e = ap p ((text_key.same_iff x d).0 t) in
      let ih = contains-keep d p xs in ground (arith, e, ih, t)
  | inr t ↦ let ih = contains-keep d p xs in ground (arith, ih, t)
]

contains-updatable :
    (d : String) (sent : List String)
    → contains d (updatable sent) ≡ (("updated_at" == d || contains d sent) && not (is_fixed d))
unfolding updatable
contains-updatable d sent = contains-keep d (λ c. not (is_fixed c)) ("updated_at" ∷ sent)

same-eq-false : (d : String) → d ≢ "updated_at" → ("updated_at" == d) ≡ false
same-eq-false d h = elim (Bool-cases ("updated_at" == d)) [
  | inl t ↦ absurd (h (sym ((text_key.same_iff "updated_at" d).0 t)))
  | inr t ↦ t
]

coalesce_if :
    (b : Bool) (x y : Value)
    → (if b then coalesce x y else y) ≡ (if b && not (is_null x) then x else y)
coalesce_if b x y = ground arith

-- The columns that a merge with these sent columns may change.
abbrev pub may_change : String → List String → Bool
may_change d sent = ("updated_at" == d || contains d sent) && not (is_fixed d)

-- A merge, column by column: a column that the event sent, and `updated_at` whether it was sent or
-- not, takes the row's value if that is not NULL, and keeps what it held if it is; every other column
-- keeps what it held, and so do the key and the creation time, also if they were sent.
pub cell-merged :
    (sent : List String) (row old : Row) (d : String)
    → cell d (merged sent row old)
      ≡ (if may_change d sent && not (is_null (cell d row)) then cell d row else cell d old)
cell-merged sent row old d =
    cell-merge_columns d (updatable sent) row old old
    ∙ ap (λ b. if b then coalesce (cell d row) (cell d old) else cell d old)
        (contains-updatable d sent)
    ∙ coalesce_if (may_change d sent) (cell d row) (cell d old)

-- A value that a row holds is not lost by a merge.
pub merged-non_null :
    (sent : List String) (row old : Row) (d : String)
    → is_null (cell d old) ≡ false
    → is_null (cell d (merged sent row old)) ≡ false
merged-non_null sent row old d h =
    let e = cell-merged sent row old d in
    go (may_change d sent) (cell d row) (cell d old) (cell d (merged sent row old)) e h
  where
    go :
        (b : Bool) (x y z : Value)
        → z ≡ (if b && not (is_null x) then x else y)
        → is_null y ≡ false
        → is_null z ≡ false
    go b x y z e' h' = ground arith

-- Delivering the same event again changes no column: a merge is idempotent.
pub merged_idem :
    (sent : List String) (row old : Row) (d : String)
    → cell d (merged sent row (merged sent row old)) ≡ cell d (merged sent row old)
merged_idem sent row old d =
    go (may_change d sent) (cell d row) (cell d old) (cell d (merged sent row old))
      (cell d (merged sent row (merged sent row old))) (cell-merged sent row old d)
      (cell-merged sent row (merged sent row old) d)
  where
    go :
        (b : Bool) (x y z w : Value)
        → z ≡ (if b && not (is_null x) then x else y)
        → w ≡ (if b && not (is_null x) then x else z)
        → w ≡ z
    go b x y z w e f = ground arith

-- Two events that send different columns commute: the columns of the row are the same whichever
-- arrives first, but for the time of the update.
pub merged_comm :
    (sent₁ sent₂ : List String) (row₁ row₂ old : Row) (d : String)
    → d ≢ "updated_at"
    → (contains d sent₁ && contains d sent₂) ≡ false
    → cell d (merged sent₂ row₂ (merged sent₁ row₁ old))
      ≡ cell d (merged sent₁ row₁ (merged sent₂ row₂ old))
merged_comm sent₁ sent₂ row₁ row₂ old d n h =
    go ("updated_at" == d) (contains d sent₁) (contains d sent₂) (is_fixed d) (cell d row₁)
      (cell d row₂) (cell d old) (cell-merged sent₁ row₁ old d)
      (cell-merged sent₂ row₂ (merged sent₁ row₁ old) d) (cell-merged sent₂ row₂ old d)
      (cell-merged sent₁ row₁ (merged sent₂ row₂ old) d) h (same-eq-false d n)
  where
    go :
        (u a b f : Bool) (x y o : Value) {p q r s : Value}
        → p ≡ (if ((u || a) && not f) && not (is_null x) then x else o)
        → q ≡ (if ((u || b) && not f) && not (is_null y) then y else p)
        → r ≡ (if ((u || b) && not f) && not (is_null y) then y else o)
        → s ≡ (if ((u || a) && not f) && not (is_null x) then x else r)
        → (a && b) ≡ false
        → u ≡ false
        → q ≡ s
    go u a b f x y o e₁ e₂ e₃ e₄ k l = ground arith
