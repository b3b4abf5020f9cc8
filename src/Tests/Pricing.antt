-- ===== src/Tests/Pricing.antt =====
-- The theorems on prices at concrete inputs.
use open_weave.Prelude.{
  arith, ◌≤◌, ℕ, ◌==◌, if◌then◌else◌, String, ◌≡◌, refl, inl, inr, Bool, true, Option, none, some,
  List, [], ◌∷◌, text_key, row_key, In,
}
use open_weave.Prelude.Int.{pos, ◌+ℤ◌, ◌*ℤ◌}
use open_weave.Prelude.Dict.{Dict, get, put, has}
use open_weave.Python.{Value, int, str, Row, to_int}
use open_weave.Pricing.{ModelPrice, match_model}
use open_weave.Pricing.Match.{first_day, IsVisible, IsPreferred, match_model-best}
use open_weave.Pricing.Cost.{compute_cost, is_aggregate, cost_loop, cost_round}
use open_weave.Pricing.Cost.Laws.{sum_amounts, is_priced, compute_cost-total}
use open_weave.Pricing.Cache.{PriceRow, PriceCache}
use open_weave.Tests.Library.{py}

-- A global row from the start, a newer global row, and a row of the project `p1`.
abbrev global : ModelPrice
global = record {
  model_id = "m1";
  model_name = "gpt-4";
  project_id = none;
  pattern = λ s. true;
  start_date = none;
  prices = ("input", pos 5) ∷ [];
}

abbrev newer : ModelPrice
newer = record global { model_id = "m2"; start_date = some 40 }

abbrev own : ModelPrice
own = record global { model_id = "m3"; project_id = some "p1" }

abbrev loaded : List ModelPrice
loaded = global ∷ newer ∷ own ∷ []

match_model-best_example :
    (m : ModelPrice) × (match_model loaded (some "gpt-4") "p1" none 50 ≡ some m)
    × In m loaded
    × IsVisible "p1" m
    × (m.pattern "gpt-4" ≡ true)
    × (first_day m.start_date ≤ 50)
    × IsPreferred "p1" m newer
match_model-best_example =
    match_model-best loaded "gpt-4" "p1" none 50 newer refl (inr (inl refl)) (inl refl) refl
      (omega arith)

abbrev foreign : ModelPrice
foreign = record global { model_id = "m4"; project_id = some "p2" }

abbrev details : Dict String ℕ
details = ("input", 2) ∷ []

abbrev used : Dict String Value
used = ("input", int (pos 3)) ∷ ("total", int (pos 3)) ∷ []

compute_cost-total_example :
    (pos 15 ≡ sum_amounts py global.prices used)
    × ((k : String) → has k details ≡ is_priced py global.prices k used)
unfolding compute_cost cost_loop cost_round is_aggregate get put to_int ◌+ℤ◌ ◌*ℤ◌
compute_cost-total_example = compute_cost-total py used global details (pos 15) refl

abbrev compile : String → Option (String → Bool)
compile p = if p == "[" then none else some (λ s. s == p)

abbrev broken : PriceRow
broken = record {
  id = "m0";
  model_name = "broken";
  project_id = none;
  match_pattern = "[";
  start_date = none;
  usage_type = some "input";
  price = pos 1;
}

abbrev sound : PriceRow
sound = record broken { id = "m1"; match_pattern = "gpt-4" }

-- A cache loaded at 10, looked at at 100: its 5 units have passed.
abbrev stale : PriceCache
stale = record { models = loaded; loaded_at = some 10; ttl = 5 }

-- A span is never priced.
abbrev span : Row
span = ("type", str "SPAN") ∷ []
