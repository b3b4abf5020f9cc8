-- ===== src/Pricing/Cost.antt =====
-- `compute_cost`: the price of one observation's usage. The pair of Nones is `none`.
-- Decimals are exact here; Python's default context rounds at 28 digits, which a count of tokens
-- times a price of at most 24 digits reaches only beyond ten thousand tokens at the full 24.
pub mod Laws
use open_weave.Prelude.{
  ℕ, String, Bool, ◌||◌, Option, none, some, [], ◌∷◌, ◌==◌, if◌then◌else◌, text_key,
}
use open_weave.Prelude.Int.{ℤ, pos, ◌+ℤ◌, ◌*ℤ◌}
use open_weave.Prelude.Dict.{Dict, get, put}
use open_weave.Prelude.Result.{Result, ok, err}
use open_weave.Python.{Value, Error, Python, to_int}
use open_weave.Pricing.{ModelPrice}

-- `usage_type in AGGREGATE_USAGE_KEYS`
unfoldable pub is_aggregate : String → Bool
is_aggregate kind = kind == "total" || kind == "total_tokens"

pub record Costing : Type 0 where
  pub details : Dict String ℕ
  pub total : ℤ

-- `if not details: return None, None`
abbrev pub priced : Costing → Option (Dict String ℕ × ℤ)
priced acc = elim acc.details [ [] ↦ none | _ ∷ _ ↦ some (acc.details, acc.total) ]

module _ (py : Python) where
  -- The body of the loop over `usage.items()`.
  unfoldable pub cost_round : Dict String ℤ → String → Value → Costing → Costing
  cost_round prices kind count acc = if is_aggregate kind then acc else elim (get kind prices) [
    | none ↦ acc
    | some unit ↦ elim (to_int py count) [
      | err _ ↦ acc
      | ok n ↦ record {
        details = put kind (py.float_of_decimal (n *ℤ unit)) acc.details;
        total = acc.total +ℤ n *ℤ unit;
      }
    ]
  ]

  unfoldable pub cost_loop : Dict String ℤ → Dict String Value → Costing → Costing
  cost_loop prices [] acc = acc
  cost_loop prices ((kind, count) ∷ usage) acc =
      cost_loop prices usage (cost_round prices kind count acc)

  unfoldable pub compute_cost :
      Option (Dict String Value) → Option ModelPrice → Option (Dict String ℕ × ℤ)
  compute_cost none price = none
  compute_cost (some []) price = none
  compute_cost (some (e ∷ usage)) none = none
  compute_cost (some (e ∷ usage)) (some price) = elim price.prices [
    | [] ↦ none
    | p ∷ ps ↦ priced (cost_loop (p ∷ ps) (e ∷ usage) (record { details = []; total = pos 0 }))
  ]
