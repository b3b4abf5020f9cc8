-- ===== src/Pricing/History.antt =====
-- Rows that do not apply change no match: later prices and other projects' prices.
use open_weave.Prelude.{
  ℕ, ◌<◌, String, ◌≡◌, refl, ◌≢◌, Bool, false, Option, none, some, List, ◌∷◌, ◌++◌, arith, keep,
  keep-append, text_key, ap,
}
use open_weave.Pricing.{ModelPrice, is_candidate, max_of, given_name, at_or_now, match_model}

keep-skip :
    (p : ModelPrice → Bool) (pre post : List ModelPrice) (m : ModelPrice)
    → p m ≡ false
    → keep p (pre ++ m ∷ post) ≡ keep p (pre ++ post)
keep-skip p pre post m h = rw (keep-append p pre (m ∷ post), keep-append p pre post, h)

match_model-skip :
    (pre post : List ModelPrice) (m : ModelPrice) (model_name : Option String) (project : String)
    (at : Option ℕ) (now : ℕ)
    → ((name : String) → is_candidate name project (at_or_now at now) m ≡ false)
    → match_model (pre ++ m ∷ post) model_name project at now
      ≡ match_model (pre ++ post) model_name project at now
unfolding match_model
match_model-skip pre post m model_name project at now h = go (given_name model_name)
  where
    go :
        (o : Option String)
        → elim o as (λ _. Option ModelPrice) [
          | none ↦ none
          | some n ↦ max_of (keep (is_candidate n project (at_or_now at now)) (pre ++ m ∷ post))
        ]
          ≡ elim o as (λ _. Option ModelPrice) [
            | none ↦ none
            | some n ↦ max_of (keep (is_candidate n project (at_or_now at now)) (pre ++ post))
          ]
    go none = refl
    go (some n) = ap max_of (keep-skip (is_candidate n project (at_or_now at now)) pre post m (h n))

later-is_candidate :
    (name project : String) (t d : ℕ) (m : ModelPrice)
    → m.start_date ≡ some d
    → t < d
    → is_candidate name project t m ≡ false
unfolding is_candidate
later-is_candidate name project t d m e h = ground arith

foreign-is_candidate :
    (name project q : String) (t : ℕ) (m : ModelPrice)
    → m.project_id ≡ some q
    → q ≢ project
    → is_candidate name project t m ≡ false
unfolding is_candidate
foreign-is_candidate name project q t m e h = ground (arith, text_key.same_iff q project)

-- A price row that starts after the observation's time changes no match at that time, wherever it
-- is loaded: pricing an old observation again gives the row that applied then.
pub match_model-later :
    (pre post : List ModelPrice) (m : ModelPrice) (model_name : Option String) (project : String)
    (t d now : ℕ)
    → m.start_date ≡ some d
    → t < d
    → match_model (pre ++ m ∷ post) model_name project (some t) now
      ≡ match_model (pre ++ post) model_name project (some t) now
match_model-later pre post m model_name project t d now e h =
    match_model-skip pre post m model_name project (some t) now
      (λ name. later-is_candidate name project t d m e h)

-- A price row of another project changes no match of this one.
pub match_model-foreign :
    (pre post : List ModelPrice) (m : ModelPrice) (model_name : Option String) (project q : String)
    (at : Option ℕ) (now : ℕ)
    → m.project_id ≡ some q
    → q ≢ project
    → match_model (pre ++ m ∷ post) model_name project at now
      ≡ match_model (pre ++ post) model_name project at now
match_model-foreign pre post m model_name project q at now e h =
    match_model-skip pre post m model_name project at now
      (λ name. foreign-is_candidate name project q (at_or_now at now) m e h)
