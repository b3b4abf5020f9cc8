-- ===== src/Pricing/Cache.antt =====
-- `ModelPriceCache.refresh`: when the tables are read again, and what becomes of their rows.
-- Times are the clock's units; `re.compile` is the parameter `compile`, `none` for `re.error`.
pub mod Loading
use open_weave.Prelude.{
  ℕ, ◌-◌, String, Bool, true, false, not, ◌&&◌, Option, none, some, List, [], ◌∷◌, ltb,
  if◌then◌else◌, text_key,
}
use open_weave.Prelude.Int.{ℤ}
use open_weave.Prelude.Dict.{Dict, get, put}
use open_weave.Pricing.{ModelPrice}

-- A row of the join of `models` with `prices`; `usage_type` is NULL for a model with no price.
pub record PriceRow : Type 0 where
  pub id : String
  pub model_name : String
  pub project_id : Option String
  pub match_pattern : String
  pub start_date : Option ℕ
  pub usage_type : Option String
  pub price : ℤ

-- The value of `by_model` for one model.
pub record ModelEntry : Type 0 where
  pub model_name : String
  pub project_id : Option String
  pub match_pattern : String
  pub start_date : Option ℕ
  pub prices : Dict String ℤ

abbrev pub new_entry : PriceRow → ModelEntry
new_entry r = record {
  model_name = r.model_name;
  project_id = r.project_id;
  match_pattern = r.match_pattern;
  start_date = r.start_date;
  prices = [];
}

-- `by_model.setdefault(r["id"], …)`
abbrev pub entry_for : PriceRow → Option ModelEntry → ModelEntry
entry_for r none = new_entry r
entry_for r (some e) = e

abbrev pub with_price : Option String → ℤ → ModelEntry → ModelEntry
with_price none price e = e
with_price (some u) price e = record e { prices = put u price e.prices }

-- One round of the loop over the rows.
unfoldable pub group_row : PriceRow → Dict String ModelEntry → Dict String ModelEntry
group_row r by_model =
    put r.id (with_price r.usage_type r.price (entry_for r (get r.id by_model))) by_model

unfoldable pub group_rows : List PriceRow → Dict String ModelEntry → Dict String ModelEntry
group_rows [] by_model = by_model
group_rows (r ∷ rows) by_model = group_rows rows (group_row r by_model)

module _ (compile : String → Option (String → Bool)) where
  -- A model whose pattern does not compile is skipped, and the others are kept.
  unfoldable pub compile_models : Dict String ModelEntry → List ModelPrice
  compile_models [] = []
  compile_models ((model_id, e) ∷ by_model) =
      let rest = compile_models by_model in
      elim (compile e.match_pattern) [
        | none ↦ rest
        | some pattern ↦
            record {
              model_id = model_id;
              model_name = e.model_name;
              project_id = e.project_id;
              pattern = pattern;
              start_date = e.start_date;
              prices = e.prices;
            }
            ∷ rest
      ]

  unfoldable pub load_models : List PriceRow → List ModelPrice
  load_models rows = compile_models (group_rows rows [])

pub record PriceCache : Type 0 where
  pub ttl : ℕ
  pub loaded_at : Option ℕ
  pub models : List ModelPrice

-- `ModelPriceCache.__init__`
abbrev pub new_cache : ℕ → PriceCache
new_cache ttl = record { ttl = ttl; loaded_at = none; models = [] }

-- `self._loaded_at is not None and time.monotonic() - self._loaded_at < self._ttl`
abbrev pub is_fresh : Option ℕ → ℕ → ℕ → Bool
is_fresh none ttl now = false
is_fresh (some t) ttl now = ltb (now - t) ttl

unfoldable pub refresh :
    (String → Option (String → Bool)) → List PriceRow → Bool → ℕ → PriceCache → PriceCache
refresh compile rows force now c =
    if not force && is_fresh c.loaded_at c.ttl now
    then c
    else record c { models = load_models compile rows; loaded_at = some now }
