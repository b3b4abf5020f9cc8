-- ===== src/Sdk/Comparing.antt =====
-- `compare` of agent-observability/sdk/experiment.py: the runs in the query, and what the API reads.
use Prim.Native.Char.{Char, code}
use Prim.Native.String.{[], ◌∷◌, ◌++◌}
use text.Mathlib.TextLemmas.{nil-append, cons-append}
use open_weave.Prelude.{
  ◌≤◌, String, ◌≡◌, refl, ◌≢◌, false, not, List, map, keep, length, arith, ap, ◌∙◌, ltb,
}
use open_weave.Python.{is_empty, Python}
use open_weave.Prelude.Result.{ok, ◌>>=◌}
use open_weave.Auth.{AuthContext}
use open_weave.Auth.Header.{lstrip}
use open_weave.Api.{Database}
use open_weave.Api.Sql.{Postgres}
use open_weave.Api.Datasets.{dataset_id}
use open_weave.Api.Compare.{
  Deltas, split_commas, rstrip, strip, run_names, comparison, compare_runs,
}

-- `",".join(runs)`
unfoldable pub runs_text : List String → String
runs_text List.[] = ""
runs_text (List.◌∷◌ name List.[]) = name
runs_text (List.◌∷◌ name (List.◌∷◌ next names)) = name ++ ("," ++ runs_text (List.◌∷◌ next names))

-- No character of the text is a comma.
abbrev pub NoComma : String → Type 0
NoComma [] = Unit
NoComma (c ∷ s) = (code c ≢ b',') × NoComma s

-- A name that stays whole in a query: not empty, no white space around it and no comma in it.
abbrev pub IsPlain : String → Type 0
IsPlain name = (is_empty name ≡ false) × (strip name ≡ name) × NoComma name

abbrev pub ArePlain : List String → Type 0
ArePlain List.[] = Unit
ArePlain (List.◌∷◌ name names) = IsPlain name × ArePlain names

split_commas-cons :
    (c : Char) (s word : String) (words : List String)
    → code c ≢ b','
    → split_commas s ≡ List.◌∷◌ word words
    → split_commas (c ∷ s) ≡ List.◌∷◌ (c ∷ word) words
unfolding split_commas
split_commas-cons c s word words h e = ground arith

split_commas-NoComma : (s : String) → NoComma s → split_commas s ≡ List.◌∷◌ s List.[]
unfolding split_commas
split_commas-NoComma [] h = refl
split_commas-NoComma (c ∷ s) h = split_commas-cons c s s List.[] h.0 (split_commas-NoComma s h.1)

comma-append : (s : String) → "," ++ s ≡ (let comma : Char = "," in comma ∷ s)
comma-append s =
    let comma : Char = "," in cons-append comma [] s ∙ ap (λ t. comma ∷ t) (nil-append s)

split_commas-comma : (s : String) → split_commas ("," ++ s) ≡ List.◌∷◌ [] (split_commas s)
unfolding split_commas
split_commas-comma s = ap split_commas (comma-append s)

split_commas-append :
    (s rest : String)
    → NoComma s
    → split_commas (s ++ ("," ++ rest)) ≡ List.◌∷◌ s (split_commas rest)
split_commas-append [] rest h = ap split_commas (nil-append ("," ++ rest)) ∙ split_commas-comma rest
split_commas-append (c ∷ s) rest h =
    ap split_commas (cons-append c s ("," ++ rest))
    ∙ split_commas-cons c (s ++ ("," ++ rest)) s (split_commas rest) h.0
        (split_commas-append s rest h.1)

-- The server splits the query into the names again.
split_commas-runs_text :
    (name : String) (names : List String)
    → ArePlain (List.◌∷◌ name names)
    → split_commas (runs_text (List.◌∷◌ name names)) ≡ List.◌∷◌ name names
unfolding runs_text
split_commas-runs_text name List.[] h = split_commas-NoComma name h.0.2
split_commas-runs_text name (List.◌∷◌ next names) h =
    split_commas-append name (runs_text (List.◌∷◌ next names)) h.0.2
    ∙ ap (λ l. List.◌∷◌ name l) (split_commas-runs_text next names h.1)

kept-plain :
    (names : List String) → ArePlain names → keep (λ s. not (is_empty s)) (map strip names) ≡ names
kept-plain List.[] h = refl
kept-plain (List.◌∷◌ name names) h =
    rw (h.0.1, h.0.0) (ap (λ l. List.◌∷◌ name l) (kept-plain names h.1))

run_names-runs_text : (names : List String) → ArePlain names → run_names (runs_text names) ≡ names
unfolding run_names runs_text split_commas lstrip rstrip
run_names-runs_text List.[] h = refl
run_names-runs_text (List.◌∷◌ name names) h =
    ap (λ l. keep (λ s. not (is_empty s)) (map strip l)) (split_commas-runs_text name names h)
    ∙ kept-plain (List.◌∷◌ name names) h

-- A client that asks to compare two runs or more, each with a name that stays whole in a query, is
-- given the comparison of exactly these runs in that order, or the error of a dataset that is not
-- there.
pub compare_runs-runs_text :
    (py : Python) (pg : Postgres) (ops : Deltas) (dataset : String) (names : List String)
    (ctx : AuthContext) (db : Database)
    → ArePlain names
    → 2 ≤ length names
    → compare_runs py pg ops dataset (runs_text names) ctx db ≡ (
        dataset_id ctx.project_id dataset db >>= λ d.
        ok (comparison py pg ops ctx.project_id d dataset names db))
unfolding compare_runs
compare_runs-runs_text py pg ops dataset names ctx db plain enough =
    let enough' : ltb (length names) 2 ≡ false = ground arith in
    rw (run_names-runs_text names plain, enough') refl
