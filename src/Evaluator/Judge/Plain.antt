-- ===== src/Evaluator/Judge/Plain.antt =====
-- Prompts with no placeholder, and verdicts wrapped in prose.
use Prim.Native.Char.{Char, code}
use Prim.Native.String.{◌++◌ as ◌<>◌}
use open_weave.Prelude.{
  String, ◌≡◌, refl, ◌⊎◌, inl, inr, Bool, true, false, ◌&&◌, none, some, arith, nat_eq, ap,
  if◌then◌else◌, ◌∙◌, ◌-◌, text_key, Option-cases, Bool-cases,
}
use open_weave.Prelude.Dict.{get}
use open_weave.Prelude.Result.{ok}
use open_weave.Python.{Value, Row, Python}
use open_weave.Evaluator.Judge.{
  shown, placeholder, render, render_prompt, is_blank, salvage, read_verdict,
}

-- No two braces `{` stand side by side.
abbrev pub is_single : String → Bool
is_single String.[] = true
is_single (String.◌∷◌ c String.[]) = true
is_single (String.◌∷◌ c (String.◌∷◌ d s)) =
    (if nat_eq (code c) b'{' && nat_eq (code d) b'{' then false else true)
    && is_single (String.◌∷◌ d s)

placeholder-none :
    (c : Char) (s : String)
    → is_single (String.◌∷◌ c s) ≡ true
    → placeholder (String.◌∷◌ c s) ≡ none
unfolding placeholder
placeholder-none c String.[] h = refl
placeholder-none c (String.◌∷◌ d s) h = ground (arith, h)

is_single_tail : (c : Char) (s : String) → is_single (String.◌∷◌ c s) ≡ true → is_single s ≡ true
is_single_tail c String.[] h = refl
is_single_tail c (String.◌∷◌ d s) h = ground (arith, h)

render_single :
    (py : Python) (variables : Row) (s : String) → is_single s ≡ true → render py variables 0 s ≡ s
unfolding render
render_single py variables String.[] h = refl
render_single py variables (String.◌∷◌ c s) h =
    ap
      (λ o. elim o as (λ _. String) [
        | none ↦ String.◌∷◌ c (render py variables 0 s)
        | some (word, n) ↦ shown py (get word variables) <> render py variables (n - 1) s
      ])
      (placeholder-none c s h)
    ∙ ap (λ t. String.◌∷◌ c t) (render_single py variables s (is_single_tail c s h))

-- A template with single braces only, such as one with literal JSON in it, is its own prompt,
-- whatever the variables.
pub render_prompt-single :
    (py : Python) (template : String) (variables : Row)
    → is_single template ≡ true
    → render_prompt py template variables ≡ template
unfolding render_prompt
render_prompt-single py template variables h = render_single py variables template h

-- What the judge's answer is read as comes from the answer: it is the JSON of the whole answer, or
-- where that is no JSON, of the part from its first to its last brace; a blank answer is never read.
pub read_verdict-eq-ok :
    (py : Python) (raw : String) (v : Value)
    → read_verdict py raw ≡ ok v
    → (is_blank raw ≡ false)
      × ((py.loads raw ≡ some v)
          ⊎ (py.loads raw ≡ none) × ((s : String) × (salvage raw ≡ some s) × (py.loads s ≡ some v)))
unfolding read_verdict
read_verdict-eq-ok py raw v h = elim (Bool-cases (is_blank raw)) [
  | inl blank ↦ ground (arith, blank, h)
  | inr solid ↦ elim (Option-cases (py.loads raw)) [
    | inr (w, q) ↦ (solid, inl (ground (arith, solid, q, h)))
    | inl unread ↦ elim (Option-cases (salvage raw)) [
      | inl lost ↦ ground (arith, solid, unread, lost, h)
      | inr (s, found) ↦ (solid, inr (unread, (s, found, ground (arith, solid, unread, found, h))))
    ]
  ]
]
