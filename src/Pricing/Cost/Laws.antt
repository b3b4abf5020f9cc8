-- ===== src/Pricing/Cost/Laws.antt =====
-- The loop of `compute_cost` against a plain sum over the usage that has a price.
use open_weave.Prelude.{
  ℕ, String, ◌≡◌, refl, ◌↔◌, Bool, true, false, ◌&&◌, ◌||◌, Option, none, some, [], ◌∷◌, ◌++◌,
  arith, ◌==◌, if◌then◌else◌, text_key, is_some, any, All, ap, sym, ◌∙◌, same_self,
}
use open_weave.Prelude.Int.{ℤ, pos, ◌+ℤ◌, ◌*ℤ◌, int_laws}
use open_weave.Prelude.Dict.{Dict, get, put, has, get-put}
use open_weave.Prelude.Result.{ok, err}
use open_weave.Python.{Value, Python, to_int}
use open_weave.Pricing.{ModelPrice}
use open_weave.Pricing.Cost.{is_aggregate, Costing, cost_round, cost_loop, priced, compute_cost}

module _ (py : Python) (prices : Dict String ℤ) where
  -- What one usage entry costs: nothing for a sum of other entries, for a kind with no price, and
  -- for a count that is no number.
  abbrev pub amount : String × Value → Option ℤ
  amount (kind, count) = if is_aggregate kind then none else elim (get kind prices) [
    | none ↦ none
    | some unit ↦ elim (to_int py count) [ err _ ↦ none | ok n ↦ some (n *ℤ unit) ]
  ]

  abbrev pub amount_or_zero : Option ℤ → ℤ
  amount_or_zero none = pos 0
  amount_or_zero (some a) = a

  abbrev pub sum_amounts : Dict String Value → ℤ
  sum_amounts [] = pos 0
  sum_amounts (e ∷ usage) = amount_or_zero (amount e) +ℤ sum_amounts usage

  -- `kind` occurs in the usage with an amount.
  abbrev pub is_priced : String → Dict String Value → Bool
  is_priced kind = any (λ e. e.0 == kind && is_some (amount e))

  abbrev add_amount : String → Option ℤ → Costing → Costing
  add_amount kind none acc = acc
  add_amount kind (some a) acc = record {
    details = put kind (py.float_of_decimal a) acc.details;
    total = acc.total +ℤ a;
  }

  cost_round_lem :
      (kind : String) (count : Value) (acc : Costing)
      → cost_round py prices kind count acc ≡ add_amount kind (amount (kind, count)) acc
  unfolding cost_round
  cost_round_lem kind count acc = ground arith

  total-add_amount :
      (kind : String) (o : Option ℤ) (acc : Costing)
      → (add_amount kind o acc).total ≡ acc.total +ℤ amount_or_zero o
  total-add_amount kind none acc = omega int_laws
  total-add_amount kind (some a) acc = refl

  has-add_amount :
      (k kind : String) (o : Option ℤ) (acc : Costing)
      → has k (add_amount kind o acc).details ≡ ((kind == k && is_some o) || has k acc.details)
  has-add_amount k kind none acc = ground arith
  has-add_amount k kind (some a) acc =
      rw (get-put kind k (py.float_of_decimal a) acc.details) (ground arith)

  cost_loop-cons :
      (kind : String) (count : Value) (usage : Dict String Value) (acc : Costing)
      → cost_loop py prices ((kind, count) ∷ usage) acc
        ≡ cost_loop py prices usage (add_amount kind (amount (kind, count)) acc)
  unfolding cost_loop
  cost_loop-cons kind count usage acc =
      ap (cost_loop py prices usage) (cost_round_lem kind count acc)

  total-cost_loop :
      (usage : Dict String Value) (acc : Costing)
      → (cost_loop py prices usage acc).total ≡ acc.total +ℤ sum_amounts usage
  total-cost_loop [] acc = unfold cost_loop in omega int_laws
  total-cost_loop ((kind, count) ∷ usage) acc =
      let o = amount (kind, count) in
      ap (λ (c : Costing). c.total) (cost_loop-cons kind count usage acc)
      ∙ total-cost_loop usage (add_amount kind o acc)
      ∙ rw (total-add_amount kind o acc) (omega int_laws)

  has-cost_loop :
      (k : String) (usage : Dict String Value) (acc : Costing)
      → has k (cost_loop py prices usage acc).details ≡ (is_priced k usage || has k acc.details)
  has-cost_loop k [] acc = unfold cost_loop in refl
  has-cost_loop k ((kind, count) ∷ usage) acc =
      let o = amount (kind, count) in
      ap (λ (c : Costing). has k c.details) (cost_loop-cons kind count usage acc)
      ∙ has-cost_loop k usage (add_amount kind o acc)
      ∙ rw (has-add_amount k kind o acc) (ground arith)

  -- The details keep what they hold.
  cost_loop_skip :
      (usage : Dict String Value) (acc : Costing)
      → All (λ e. amount e ≡ none) usage
      → cost_loop py prices usage acc ≡ acc
  unfolding cost_loop
  cost_loop_skip [] acc h = refl
  cost_loop_skip ((kind, count) ∷ usage) acc h =
      rw (cost_round_lem kind count acc, h.0) (cost_loop_skip usage acc h.1)

  aggregate-cost_loop :
      (pre post : Dict String Value) (kind : String) (count : Value) (acc : Costing)
      → is_aggregate kind ≡ true
      → cost_loop py prices (pre ++ (kind, count) ∷ post) acc
        ≡ cost_loop py prices (pre ++ post) acc
  unfolding cost_loop
  aggregate-cost_loop [] post kind count acc h =
      ap (cost_loop py prices post) (cost_round_lem kind count acc ∙ rw h)
  aggregate-cost_loop ((k, v) ∷ pre) post kind count acc h =
      aggregate-cost_loop pre post kind count (cost_round py prices k v acc) h

no_prices : (py : Python) (usage : Dict String Value) → All (λ e. amount py [] e ≡ none) usage
unfolding get
no_prices py [] = tt
no_prices py (e ∷ usage) = (ground arith, no_prices py usage)

abbrev start : Costing
start = record { details = []; total = pos 0 }

priced-eq-some :
    (c : Costing) (d : Dict String ℕ) (t : ℤ)
    → priced c ≡ some (d, t)
    → (c.details ≡ d) × (c.total ≡ t)
priced-eq-some c d t h = ground arith

priced-eq-none : (c : Costing) → priced c ≡ none → c.details ≡ []
priced-eq-none c h = ground arith

nil_has : (k : String) → has {V = ℕ} k [] ≡ false
unfolding get
nil_has k = refl

module _ (py : Python) where
  -- The early returns agree with running the loop.
  compute_cost_lem :
      (usage : Dict String Value) (price : ModelPrice)
      → compute_cost py (some usage) (some price) ≡ priced (cost_loop py price.prices usage start)
  unfolding compute_cost cost_loop
  compute_cost_lem [] price = refl
  compute_cost_lem (e ∷ usage) price = go price.prices
    where
      go :
          (ps : Dict String ℤ)
          → elim ps as (λ _. Option (Dict String ℕ × ℤ)) [
            | [] ↦ none
            | p ∷ ps' ↦ priced (cost_loop py (p ∷ ps') (e ∷ usage) start)
          ]
            ≡ priced (cost_loop py ps (e ∷ usage) start)
      go [] = sym (ap priced (cost_loop_skip py [] (e ∷ usage) start (no_prices py (e ∷ usage))))
      go (p ∷ ps) = refl

  -- When `compute_cost` gives a cost, its total is the sum of the amounts of the usage, and its
  -- details list exactly the kinds of usage that have an amount.
  pub compute_cost-total :
      (usage : Dict String Value) (price : ModelPrice) (d : Dict String ℕ) (t : ℤ)
      → compute_cost py (some usage) (some price) ≡ some (d, t)
      → (t ≡ sum_amounts py price.prices usage)
        × ((k : String) → has k d ≡ is_priced py price.prices k usage)
  compute_cost-total usage price d t h =
      let c = cost_loop py price.prices usage start in
      let e = priced-eq-some c d t (sym (compute_cost_lem usage price) ∙ h) in
      (
        sym e.1 ∙ total-cost_loop py price.prices usage start ∙ omega int_laws,
        λ k.
            ap (has k) (sym e.0)
            ∙ has-cost_loop py price.prices k usage start
            ∙ unfold get in ground arith,
      )

  none_priced :
      (prices : Dict String ℤ) (usage : Dict String Value)
      → ((k : String) → is_priced py prices k usage ≡ false)
      → All (λ e. amount py prices e ≡ none) usage
  none_priced prices [] h = tt
  none_priced prices (e ∷ usage) h =
      (ground (arith, same_self e.0, h e.0), none_priced prices usage (λ k. ground (arith, h k)))

  -- `compute_cost` gives no cost exactly when no usage entry has an amount: an observation with
  -- nothing to price reads as unknown, and one with something to price never does.
  pub compute_cost-eq-none :
      (usage : Dict String Value) (price : ModelPrice)
      → (compute_cost py (some usage) (some price) ≡ none)
        ↔ All (λ e. amount py price.prices e ≡ none) usage
  compute_cost-eq-none usage price = (
    λ h.
        let c = cost_loop py price.prices usage start in
        let empty = priced-eq-none c (sym (compute_cost_lem usage price) ∙ h) in
        none_priced price.prices usage λ k.
          ground (arith, has-cost_loop py price.prices k usage start, ap (has k) empty, nil_has k),
    λ h. compute_cost_lem usage price ∙ ap priced (cost_loop_skip py price.prices usage start h),
  )

  -- A usage entry that is the sum of others changes no cost, whatever its count.
  pub compute_cost-aggregate :
      (pre post : Dict String Value) (kind : String) (count : Value) (price : ModelPrice)
      → is_aggregate kind ≡ true
      → compute_cost py (some (pre ++ (kind, count) ∷ post)) (some price)
        ≡ compute_cost py (some (pre ++ post)) (some price)
  compute_cost-aggregate pre post kind count price h =
      compute_cost_lem (pre ++ (kind, count) ∷ post) price
      ∙ ap priced (aggregate-cost_loop py price.prices pre post kind count start h)
      ∙ sym (compute_cost_lem (pre ++ post) price)
