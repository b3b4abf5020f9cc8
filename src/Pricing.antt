-- ===== src/Pricing.antt =====
-- agent-observability/shared/pricing.py: matching a model and pricing token usage.
-- A compiled pattern is its `match` on a name; `re.compile` is a parameter, `none` for `re.error`.
pub mod Match
pub mod History
pub mod Cost
pub mod Cache
pub mod Resolve
pub mod Scope
use open_weave.Prelude.{
  ℕ, zero, ◌<◌, String, Bool, true, false, ◌&&◌, ◌||◌, Option, none, some, List, [], ◌∷◌, ◌==◌, leb,
  ltb, nat_eq, keep, if◌then◌else◌, text_key,
}
use open_weave.Prelude.Int.{ℤ}
use open_weave.Prelude.Dict.{Dict}
use open_weave.Python.{is_empty}

-- Prices are for one token, in units of 10^-18.
pub record ModelPrice : Type 0 where
  pub model_id : String
  pub model_name : String
  pub project_id : Option String
  pub pattern : String → Bool
  pub start_date : Option ℕ
  pub prices : Dict String ℤ

-- `m.project_id in (None, project_id)`
abbrev pub in_scope : Option String → String → Bool
in_scope none project = true
in_scope (some p) project = p == project

-- `m.start_date is None or m.start_date <= at`
abbrev pub has_started : Option ℕ → ℕ → Bool
has_started none at = true
has_started (some d) at = leb d at

-- The condition of the comprehension in `match`.
unfoldable pub is_candidate : String → String → ℕ → ModelPrice → Bool
is_candidate name project at m =
    in_scope m.project_id project && m.pattern name && has_started m.start_date at

-- The sort key: a project's own row first, then the start date, `datetime.min` for None.
abbrev pub own_rank : Option String → ℕ
own_rank none = 0
own_rank (some _) = 1

abbrev pub date_rank : Option ℕ → ℕ
date_rank none = 0
date_rank (some d) = d

-- `key(a) < key(b)`, as Python compares tuples.
unfoldable pub ranks_below : ModelPrice → ModelPrice → Bool
ranks_below a b =
    ltb (own_rank a.project_id) (own_rank b.project_id)
    || (nat_eq (own_rank a.project_id) (own_rank b.project_id)
        && ltb (date_rank a.start_date) (date_rank b.start_date))

-- `max(candidates, key=…)` keeps the first of the greatest.
unfoldable pub max_from : ModelPrice → List ModelPrice → ModelPrice
max_from best [] = best
max_from best (m ∷ ms) = max_from (if ranks_below best m then m else best) ms

abbrev pub max_of : List ModelPrice → Option ModelPrice
max_of [] = none
max_of (m ∷ ms) = some (max_from m ms)

-- `if not model_name: return None`
abbrev pub given_name : Option String → Option String
given_name none = none
given_name (some name) = if is_empty name then none else some name

-- `at or datetime.now(timezone.utc)`
abbrev pub at_or_now : Option ℕ → ℕ → ℕ
at_or_now none now = now
at_or_now (some t) now = t

-- `ModelPriceCache.match` over the loaded rows.
unfoldable pub match_model :
    List ModelPrice → Option String → String → Option ℕ → ℕ → Option ModelPrice
match_model models model_name project at now = elim (given_name model_name) [
  | none ↦ none
  | some name ↦ max_of (keep (is_candidate name project (at_or_now at now)) models)
]
