-- ===== src/Sdk/Spans/Scoring.antt =====
-- The client's scores and the server's rules for them.
use open_weave.Prelude.{
  ℕ, String, ◌≡◌, refl, true, false, Option, none, some, arith, ◌==◌, text_key, [], ◌∷◌, Bool-cases,
  ◌⊎◌, inl, inr, ap, ◌∙◌,
}
use open_weave.Prelude.Dict.{get, get-put}
use open_weave.Python.{Value, null, str, Row, cell, is_empty, truthy, Python}
use open_weave.Ingest.{Event, score_create, validate, validate_body}
use open_weave.Sdk.Spans.{anchor_of, score_body, score_type, text_or, set_true, set_given}

module _ (py : Python) (uuid : ℕ → String) (now : String) where
  -- The three optional fields leave the others alone.
  get-set_true :
      (k d : String) (v : Value) (body : Row)
      → (k == d) ≡ false
      → get d (set_true k v body) ≡ get d body
  get-set_true k d v body h = ground (arith, h, get-put k d v body)

  get-set_given :
      (k d : String) (v : Value) (body : Row)
      → (k == d) ≡ false
      → get d (set_given k v body) ≡ get d body
  get-set_given k d v body h = ground (arith, h, get-put k d v body)

  abbrev base : String → String → String × Value → String → Row
  base id name anchor data_type =
      ("id", str id)
      ∷ ("name", str name)
      ∷ anchor
      ∷ ("data_type", str (score_type py uuid now data_type))
      ∷ []

  truthy-score_body :
      (d id name : String) (anchor : String × Value) (data_type : String)
      (value string_value comment : Value)
      → ("comment" == d) ≡ false
      → ("string_value" == d) ≡ false
      → ("value" == d) ≡ false
      → truthy (cell d (score_body py uuid now id name anchor data_type value string_value comment))
        ≡ truthy (cell d (base id name anchor data_type))
  unfolding score_body
  truthy-score_body d id name anchor data_type value string_value comment a b c =
      let row = base id name anchor data_type in
      let valued = set_given "value" value row in
      let texted = set_given "string_value" string_value valued in
      ap (λ o. truthy (elim o as (λ _. Value) [ none ↦ null | some v ↦ v ]))
        (get-set_true "comment" d comment texted a
          ∙ get-set_given "string_value" d string_value valued b
          ∙ get-set_given "value" d value row c)

  anchor_cases :
      (run_item trace_id current : Option String) (a : String × Value)
      → anchor_of py uuid now run_item trace_id current ≡ some a
      → (t : String) × (is_empty t ≡ false)
        × ((a ≡ ("dataset_run_item_id", str t)) ⊎ (a ≡ ("trace_id", str t)))
  unfolding anchor_of
  anchor_cases run_item trace_id current a h =
      let item = text_or "" run_item in
      let tid = text_or (text_or "" current) trace_id in
      elim (Bool-cases (is_empty item)) [
        | inr given ↦ (item, given, inl (pair_eq (ground (arith, given, h))))
        | inl blank ↦ elim (Bool-cases (is_empty tid)) [
          | inr given ↦ (tid, given, inr (pair_eq (ground (arith, blank, given, h))))
          | inl nothing ↦ elim (no_anchor {x = a} (ground (arith, blank, nothing, h))) [ ]
        ]
      ]
    where
      pair_eq : {x y : String × Value} → ◌≡◌ {A = Option (String × Value)} (some x) (some y) → y ≡ x
      pair_eq e = cc

      no_anchor : {x : String × Value} → ◌≡◌ {A = Option (String × Value)} none (some x) → ⊥
      no_anchor e = cc

  -- A score that the client sends is one that the server accepts: if the score and its event have
  -- an id and the score a name, and there is an anchor to send it with, then whatever else was
  -- given, `_validate` finds no problem with it, exactly one anchor included.
  pub validate-score_body :
      (event : Event) (id name data_type : String) (run_item trace_id current : Option String)
      (anchor : String × Value) (value string_value comment : Value)
      → is_empty event.event_id ≡ false
      → is_empty id ≡ false
      → is_empty name ≡ false
      → anchor_of py uuid now run_item trace_id current ≡ some anchor
      → validate event score_create
          (score_body py uuid now id name anchor data_type value string_value comment)
        ≡ none
  unfolding validate validate_body get
  validate-score_body event id name data_type run_item trace_id current anchor value string_value
        comment e i n a =
      let (t, filled, which) = anchor_cases run_item trace_id current anchor a in
      let sent_as =
        λ (d : String). truthy-score_body d id name anchor data_type value string_value comment in
      let with_id = sent_as "id" refl refl refl in
      let with_name = sent_as "name" refl refl refl in
      let with_trace = sent_as "trace_id" refl refl refl in
      let with_item = sent_as "dataset_run_item_id" refl refl refl in
      elim which [
        | inl q ↦
            let item_sent : truthy (cell "dataset_run_item_id" (base id name anchor data_type))
                ≡ true =
              ap (λ x. truthy (cell "dataset_run_item_id" (base id name x data_type))) q
              ∙ ground (arith, filled) in
            let trace_not : truthy (cell "trace_id" (base id name anchor data_type)) ≡ false =
              ap (λ x. truthy (cell "trace_id" (base id name x data_type))) q in
            ground
              (arith, e, i, n, with_id, with_name, with_trace ∙ trace_not, with_item ∙ item_sent)
        | inr q ↦
            let item_not : truthy (cell "dataset_run_item_id" (base id name anchor data_type))
                ≡ false =
              ap (λ x. truthy (cell "dataset_run_item_id" (base id name x data_type))) q in
            let trace_sent : truthy (cell "trace_id" (base id name anchor data_type)) ≡ true =
              ap (λ x. truthy (cell "trace_id" (base id name x data_type))) q
              ∙ ground (arith, filled) in
            ground
              (arith, e, i, n, with_id, with_name, with_trace ∙ trace_sent, with_item ∙ item_not)
      ]
