-- ===== src/Evaluator/Judge.antt =====
-- agent-observability/evaluator/judge.py: prompts, the judge's answer, and its validation.
-- The request of a provider is a parameter; `jsonschema` is `none` where it is not installed.
pub mod Plain
use Prim.Native.Char.{Char, code}
use Prim.Native.String.{[], ◌∷◌, ◌++◌}
use open_weave.Prelude.{
  ℕ, zero, suc, ◌+◌, ◌-◌, String, Bool, true, false, not, ◌&&◌, ◌||◌, Option, none, some, List,
  ◌==◌, leb, nat_eq, if◌then◌else◌, is_some, any, map, text_key,
}
use open_weave.Prelude.Dict.{Dict, get, has}
use open_weave.Prelude.Result.{Result, ok, err, ◌>>=◌}
use open_weave.Python.{
  Value, null, bool, int, float, str, arr, obj, end, field, Fields, fields, items, Row, cell,
  is_null, is_empty, truthy, Error, type_error, attribute_error, item, item_or_none, Python,
}
use open_weave.Auth.Header.{is_space}
use open_weave.Worker.Convert.{strip_prefix}

-- `JudgeError` by what it says, and the other errors that Python raises.
pub data Failure : Type 0 where
  unknown_provider no_api_key request_failed empty_response no_json : Failure
  schema_violated missing_field wrong_type below_minimum above_maximum : Failure
  raised : Error → Failure

abbrev pub lift : {A : Type 0} → Result Error A → Result Failure A
lift (ok a) = ok a
lift (err e) = err (raised e)

-- The letters, digits and `_` of a placeholder's name.
abbrev pub is_word_start : ℕ → Bool
is_word_start c = (leb b'a' c && leb c b'z') || (leb b'A' c && leb c b'Z') || nat_eq c b'_'

abbrev pub is_word : ℕ → Bool
is_word c = is_word_start c || (leb b'0' c && leb c b'9')

-- How many white spaces a text begins with, and what follows them.
unfoldable pub scan_spaces : String → ℕ × String
scan_spaces [] = (0, [])
scan_spaces (c ∷ s) =
    let (n, rest) = scan_spaces s in if is_space (code c) then (suc n, rest) else (0, c ∷ s)

-- The word that a text begins with, its length, and what follows it.
unfoldable pub scan_word : String → String × (ℕ × String)
scan_word [] = ([], (0, []))
scan_word (c ∷ s) =
    let (word, (n, rest)) = scan_word s in
    if is_word (code c) then (c ∷ word, (suc n, rest)) else ([], (0, c ∷ s))

abbrev pub starts_word : String → Bool
starts_word [] = false
starts_word (c ∷ s) = is_word_start (code c)

-- `_VAR` at the start of a text: the name, and the length of the match.
unfoldable pub placeholder : String → Option (String × ℕ)
placeholder (c ∷ d ∷ s) =
    if nat_eq (code c) b'{' && nat_eq (code d) b'{'
    then (let (before, inside) = scan_spaces s in
        let (word, (n, after)) = scan_word inside in
        let (between, rest) = scan_spaces after in
        if starts_word word && is_some (strip_prefix "}}" rest)
        then some (word, before + n + between + 4)
        else none)
    else none
placeholder _ = none

module _ (py : Python) where
  -- `replace` of one match.
  abbrev pub shown : Option Value → String
  shown none = ""
  shown (some null) = ""
  shown (some (obj fs)) = py.dumps (obj fs)
  shown (some (arr xs)) = py.dumps (arr xs)
  shown (some v) = py.text_of v

  -- `_VAR.sub(replace, template)`, with the number of characters still inside a match.
  unfoldable pub render : Row → ℕ → String → String
  render variables skip [] = []
  render variables (suc skip) (c ∷ s) = render variables skip s
  render variables zero (c ∷ s) = elim (placeholder (c ∷ s)) [
    | none ↦ c ∷ render variables 0 s
    | some (word, n) ↦ shown (get word variables) ++ render variables (n - 1) s
  ]

  unfoldable pub render_prompt : String → Row → String
  render_prompt template variables = render variables 0 template

-- A text from its first `{`, and up to its last `}`.
unfoldable pub from_brace : String → Option String
from_brace [] = none
from_brace (c ∷ s) = let rest = from_brace s in if nat_eq (code c) b'{' then some (c ∷ s) else rest

unfoldable pub to_brace : String → Option String
to_brace [] = none
to_brace (c ∷ s) = elim (to_brace s) [
  | some t ↦ some (c ∷ t)
  | none ↦ if nat_eq (code c) b'}' then some (c ∷ []) else none
]

-- `re.search(r"\{.*\}", raw, re.DOTALL)`
unfoldable pub salvage : String → Option String
salvage raw = elim (from_brace raw) [ none ↦ none | some s ↦ to_brace s ]

-- `not raw or not raw.strip()`
unfoldable pub is_blank : String → Bool
is_blank [] = true
is_blank (c ∷ s) = is_space (code c) && is_blank s

-- What a provider does with model, prompt and parameters.
abbrev pub Caller : Type 0
Caller = String → String → Value → Result Failure String

-- `provider or "ollama"`
abbrev pub provider_name : Option String → String
provider_name none = "ollama"
provider_name (some p) = if is_empty p then "ollama" else p

module _ (py : Python) where
  -- The end of `call_judge`, on the raw answer.
  unfoldable pub read_verdict : String → Result Failure Value
  read_verdict raw = if is_blank raw then err empty_response else elim (py.loads raw) [
    | some v ↦ ok v
    | none ↦ elim (salvage raw) [
      | none ↦ err no_json
      | some s ↦ elim (py.loads s) [ none ↦ err no_json | some v ↦ ok v ]
    ]
  ]

  unfoldable pub call_judge :
      Dict String Caller → Option String → String → String → Value → Result Failure Value
  call_judge providers provider model prompt params =
      elim (get (py.lower (provider_name provider)) providers) [
        | none ↦ err unknown_provider
        | some caller ↦ caller model prompt params >>= read_verdict
      ]
