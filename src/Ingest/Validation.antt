-- ===== src/Ingest/Validation.antt =====
-- `_validate` accepts exactly the events that are well formed.
use open_weave.Prelude.{◌≡◌, ◌↔◌, ◌⊎◌, true, false, none, arith}
use open_weave.Python.{Row, is_empty}
use open_weave.Ingest.{
  BodyField, trace_create, observation_create, observation_update, score_create, Event, sent,
  validate_body, validate,
}

-- The body has what its kind requires; a score is anchored to one of a trace and a run item.
abbrev pub IsComplete : BodyField → Row → Type 0
IsComplete trace_create body = sent "id" body ≡ true
IsComplete observation_create body =
    (sent "id" body ≡ true) × (sent "trace_id" body ≡ true) × (sent "type" body ≡ true)
IsComplete observation_update body = (sent "id" body ≡ true) × (sent "trace_id" body ≡ true)
IsComplete score_create body =
    (sent "id" body ≡ true)
    × (sent "name" body ≡ true)
    × ((sent "trace_id" body ≡ true) × (sent "dataset_run_item_id" body ≡ false)
        ⊎ (sent "trace_id" body ≡ false) × (sent "dataset_run_item_id" body ≡ true))

validate_body-eq-none :
    (kind : BodyField) (body : Row) → (validate_body kind body ≡ none) ↔ IsComplete kind body
unfolding validate_body
validate_body-eq-none trace_create body = ((λ h. ground arith), (λ h. ground arith))
validate_body-eq-none observation_create body = ((λ h. ground arith), (λ h. ground arith))
validate_body-eq-none observation_update body = ((λ h. ground arith), (λ h. ground arith))
validate_body-eq-none score_create body = ((λ h. ground arith), (λ h. ground arith))

-- `_validate` finds no problem exactly if the event has an id and its body is complete: a trace
-- has an id, an observation an id and a trace, a new observation also a type, and a score an id, a
-- name, and one anchor out of a trace and a run item.
pub validate-eq-none :
    (event : Event) (kind : BodyField) (body : Row)
    → (validate event kind body ≡ none) ↔ ((is_empty event.event_id ≡ false) × IsComplete kind body)
unfolding validate
validate-eq-none event kind body =
    let (to, from) = validate_body-eq-none kind body in
    ((λ h. (ground arith, to (ground arith))), (λ h. ground (arith, from h.1)))
