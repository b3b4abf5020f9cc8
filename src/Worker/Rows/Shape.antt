-- ===== src/Worker/Rows/Shape.antt =====
-- What the built rows hold whatever the client sent.
use open_weave.Prelude.{
  ℕ, String, ◌≡◌, refl, Bool, true, false, Option, none, some, List, [], ◌∷◌, arith, ◌==◌,
  if◌then◌else◌, text_key, Option-cases, inl, inr, ap, ap₂, ◌∙◌, sym, contains, map, Bool-cases,
}
use open_weave.Prelude.Dict.{Dict, get, put, get-put, set_default}
use open_weave.Prelude.Result.{Result, ok, ◌>>=◌, >>=-eq-ok}
use open_weave.Python.{
  Value, null, bool, int, float, decimal, str, time, arr, obj, to_fields, Row, cell, Error, truthy,
  item, item_or_none, Python,
}
use open_weave.Worker.Convert.{ts, replace_z, enum_name, time_or_null, usage, cost}
use open_weave.Worker.Upsert.{times_ordered, end_after_start}
use open_weave.Worker.Upsert.Merge.{cell-put}
use open_weave.Worker.Rows.{
  or_else, copy_keys, convert_key, body_of, required, fill_defaults, update_with,
  observation_fields, build_observation_row, usage_fields, cost_fields, put_cost, copied_keys,
  to_int_value,
}

-- The fallback of `start_time` is an instant.
abbrev IsTime : Value → Type 0
IsTime v = (t : ℕ) × (v ≡ time t)

times_ordered_lem : (e v : Value) → IsTime v → times_ordered e (or_else e v) ≡ true
times_ordered_lem e v (t, q) = ground (arith, q)

parsed-IsTime :
    (py : Python) (b : Bool) (o : Option ℕ) (now : ℕ)
    → IsTime (or_else (if b then time_or_null py o else null) (time now))
parsed-IsTime py false o now = (now, refl)
parsed-IsTime py true none now = (now, refl)
parsed-IsTime py true (some t) now = (t, refl)

event_time : (py : Python) (v : Value) (now : ℕ) → IsTime (or_else (ts py v) (time now))
unfolding ts
event_time py (str s) now = parsed-IsTime py (truthy (str s)) (py.fromisoformat (replace_z s)) now
event_time py null now = (now, refl)
event_time py (bool b) now = (now, refl)
event_time py (int n) now = (now, refl)
event_time py (float n) now = (now, refl)
event_time py (decimal n) now = (now, refl)
event_time py (time n) now = (now, refl)
event_time py (arr xs) now = (now, refl)
event_time py (obj fs) now = (now, refl)

set_default-start_time :
    (v : Value) (row : Row)
    → IsTime v
    → get "start_time" row ≡ none
    → end_after_start (set_default "start_time" (or_else (cell "end_time" row) v) row) ≡ true
unfolding end_after_start
set_default-start_time v row is_time h =
    let e = cell "end_time" row in
    let w = or_else e v in
    let start_put = cell-put "start_time" "start_time" w row in
    let end_put = cell-put "start_time" "end_time" w row in
    let new : set_default "start_time" w row ≡ put "start_time" w row = ground (arith, h) in
    ap (λ r. times_ordered (cell "end_time" r) (cell "start_time" r)) new
    ∙ ap₂ times_ordered end_put start_put
    ∙ times_ordered_lem e v is_time

set_default-other :
    (c d : String) (v : Value) (row : Row)
    → (c == d) ≡ false
    → get d (set_default c v row) ≡ get d row
set_default-other c d v row h = ground (arith, get-put c d v row, h)

fill_defaults-end_after_start :
    (fallback : Value) (row : Row)
    → IsTime fallback
    → get "start_time" row ≡ none
    → end_after_start (fill_defaults fallback row) ≡ true
unfolding fill_defaults
fill_defaults-end_after_start fallback row is_time h =
    let typed = set_default "type" (str "SPAN") row in
    set_default-start_time fallback (set_default "level" (str "DEFAULT") typed) is_time (
      set_default-other "level" "start_time" (str "DEFAULT") typed refl
      ∙ set_default-other "type" "start_time" (str "SPAN") row refl
      ∙ h)

copy_keys-other :
    (c : String) (keys : List String) (body out : Row)
    → contains c keys ≡ false
    → get c (copy_keys keys body out) ≡ get c out
unfolding copy_keys
copy_keys-other c [] body out h = refl
copy_keys-other c (k ∷ keys) body out h =
    copy_keys-other c keys body (elim (get k body) [ none ↦ out | some v ↦ put k v out ])
      (ground arith)
    ∙ go (get k body)
  where
    go :
        (o : Option Value)
        → get c (elim o as (λ _. Row) [ none ↦ out | some v ↦ put k v out ]) ≡ get c out
    go none = refl
    go (some v) = ground (arith, get-put k c v out, h)

convert_key-other :
    (c key column : String) (convert : Value → Result Error Value) (body out r : Row)
    → (column == c) ≡ false
    → convert_key key column convert body out ≡ ok r
    → get c r ≡ get c out
unfolding convert_key
convert_key-other c key column convert body out r h e = elim (Option-cases (get key body)) [
  | inl q ↦ let same : out ≡ r = ground (arith, q, e) in ap (get c) (sym same)
  | inr (v, q) ↦
      let f : Value → Result Error Row = λ w. ok (put column w out) in
      let bound : (convert v >>= f) ≡ ok r = ground (arith, q, e) in
      let (w, _, e') = >>=-eq-ok (convert v) f bound in
      let same : put column w out ≡ r = ground (arith, e') in
      ap (get c) (sym same) ∙ ground (arith, get-put column c w out, h)
]

absent-convert_key :
    (key column : String) (convert : Value → Result Error Value) (body out r : Row)
    → get key body ≡ none
    → convert_key key column convert body out ≡ ok r
    → r ≡ out
unfolding convert_key
absent-convert_key key column convert body out r h e = ground (arith, h, e)

usage_fields-start_time :
    (py : Python) (body out r : Row)
    → usage_fields py body out ≡ ok r
    → get "start_time" r ≡ get "start_time" out
unfolding usage_fields
usage_fields-start_time py body out r e = elim (Option-cases (get "usage_details" body)) [
  | inl q ↦ let same : out ≡ r = ground (arith, q, e) in ap (get "start_time") (sym same)
  | inr (v, q) ↦
      let f : Value → Result Error Row =
        λ u. ok (put "usage_details" u (put "provided_usage_details" u out)) in
      let bound : (usage py v >>= f) ≡ ok r = ground (arith, q, e) in
      let (u, _, e') = >>=-eq-ok (usage py v) f bound in
      let provided = put "provided_usage_details" u out in
      let same : put "usage_details" u provided ≡ r = ground (arith, e') in
      ap (get "start_time") (sym same)
      ∙ get-put "usage_details" "start_time" u provided
      ∙ get-put "provided_usage_details" "start_time" u out
]

put_cost-start_time :
    (c : Option (Dict String ℕ)) (py : Python) (out : Row)
    → get "start_time" (put_cost py c out) ≡ get "start_time" out
put_cost-start_time none py out =
    let provided = put "provided_cost_details" null out in
    let details = put "cost_details" null provided in
    get-put "total_cost" "start_time" null details
    ∙ get-put "cost_details" "start_time" null provided
    ∙ get-put "provided_cost_details" "start_time" null out
put_cost-start_time (some d) py out =
    let v = obj (to_fields (map (λ e. (e.0, float e.1)) d)) in
    let provided = put "provided_cost_details" v out in
    let details = put "cost_details" v provided in
    get-put "total_cost" "start_time" (float (py.sum_floats (map (λ e. e.1) d))) details
    ∙ get-put "cost_details" "start_time" v provided
    ∙ get-put "provided_cost_details" "start_time" v out

cost_fields-start_time :
    (py : Python) (body out r : Row)
    → cost_fields py body out ≡ ok r
    → get "start_time" r ≡ get "start_time" out
unfolding cost_fields
cost_fields-start_time py body out r e = elim (Option-cases (get "cost_details" body)) [
  | inl q ↦ let same : out ≡ r = ground (arith, q, e) in ap (get "start_time") (sym same)
  | inr (v, q) ↦
      let f : Option (Dict String ℕ) → Result Error Row = λ c. ok (put_cost py c out) in
      let bound : (cost py v >>= f) ≡ ok r = ground (arith, q, e) in
      let (c, _, e') = >>=-eq-ok (cost py v) f bound in
      let same : put_cost py c out ≡ r = ground (arith, e') in
      ap (get "start_time") (sym same) ∙ put_cost-start_time c py out
]

update_with-get :
    (c : String) (row fs : Row) → get c fs ≡ none → get c (update_with row fs) ≡ get c row
unfolding update_with get
update_with-get c row [] h = refl
update_with-get c row ((k, v) ∷ fs) h = elim (Bool-cases (k == c)) [
  | inl same ↦ ground (arith, h, same)
  | inr other ↦
      update_with-get c (put k v row) fs (ground (arith, h, other))
      ∙ ground (arith, get-put k c v row, other)
]

observation_fields-start_time :
    (py : Python) (body sent : Row)
    → get "start_time" body ≡ none
    → observation_fields py body ≡ ok sent
    → get "start_time" sent ≡ none
unfolding observation_fields get
observation_fields-start_time py body sent h e =
    let c : String = "start_time" in
    let kind : Value → Result Error Value = λ v. enum_name v "OBSERVATION_TYPE_" null in
    let level : Value → Result Error Value =
      λ v. enum_name v "OBSERVATION_LEVEL_" (str "DEFAULT") in
    let instant : Value → Result Error Value = λ v. ok (ts py v) in
    let copied = copy_keys copied_keys body [] in
    let (a1, q1, e1) = >>=-eq-ok (convert_key "model" "provided_model_name" ok body copied) _ e in
    let (a2, q2, e2) =
      >>=-eq-ok (convert_key "prompt_version" "prompt_version" (to_int_value py) body a1) _ e1 in
    let (a3, q3, e3) = >>=-eq-ok (convert_key "type" "type" kind body a2) _ e2 in
    let (a4, q4, e4) = >>=-eq-ok (convert_key "level" "level" level body a3) _ e3 in
    let (a5, q5, e5) = >>=-eq-ok (convert_key c c instant body a4) _ e4 in
    let (a6, q6, e6) = >>=-eq-ok (convert_key "end_time" "end_time" instant body a5) _ e5 in
    let (a7, q7, e7) =
      >>=-eq-ok (convert_key "completion_start_time" "completion_start_time" instant body a6) _
        e6 in
    let (a8, q8, e8) = >>=-eq-ok (usage_fields py body a7) _ e7 in
    cost_fields-start_time py body a8 sent e8
    ∙ usage_fields-start_time py body a7 a8 q8
    ∙ convert_key-other c "completion_start_time" "completion_start_time" instant body a6 a7 refl q7
    ∙ convert_key-other c "end_time" "end_time" instant body a5 a6 refl q6
    ∙ ap (get c) (absent-convert_key c c instant body a4 a5 h q5)
    ∙ convert_key-other c "level" "level" level body a3 a4 refl q4
    ∙ convert_key-other c "type" "type" kind body a2 a3 refl q3
    ∙ convert_key-other c "prompt_version" "prompt_version" (to_int_value py) body a1 a2 refl q2
    ∙ convert_key-other c "model" "provided_model_name" ok body copied a1 refl q1
    ∙ copy_keys-other c copied_keys body [] refl

-- The row that is proposed for an observation whose event names no start keeps the database's rule
-- that an observation does not end before it starts: if the body holds no `start_time` and the row is
-- built, whatever else was sent, then the times of this row are ordered. It says nothing of the row
-- that a merge makes of it.
pub build_observation_row-end_after_start :
    (py : Python) (now : ℕ) (event : Value) (body row : Row)
    → body_of event ≡ ok body
    → get "start_time" body ≡ none
    → build_observation_row py now event ≡ ok row
    → end_after_start row ≡ true
unfolding build_observation_row get
build_observation_row-end_after_start py now event body row b h e =
    let (body', q, e0) = >>=-eq-ok (body_of event) _ e in
    let same : body' ≡ body = ground (arith, q, b) in
    let h' : get "start_time" body' ≡ none = ap (get "start_time") same ∙ h in
    let (project_id, _, e1) = >>=-eq-ok (item event "project_id") _ e0 in
    let (id, _, e2) = >>=-eq-ok (required body' "id") _ e1 in
    let (trace_id, _, e3) = >>=-eq-ok (required body' "trace_id") _ e2 in
    let (sent, sent_eq, e4) = >>=-eq-ok (observation_fields py body') _ e3 in
    let (event_ts, _, e5) = >>=-eq-ok (item_or_none event "ts") _ e4 in
    let base : Row =
      ("project_id", project_id)
      ∷ ("id", id)
      ∷ ("trace_id", trace_id)
      ∷ ("created_at", time now)
      ∷ ("updated_at", time now)
      ∷ [] in
    let built = fill_defaults (or_else (ts py event_ts) (time now)) (update_with base sent) in
    let same_row : built ≡ row = ground (arith, e5) in
    ap end_after_start (sym same_row)
    ∙ fill_defaults-end_after_start (or_else (ts py event_ts) (time now)) (update_with base sent)
        (event_time py event_ts now)
        (update_with-get "start_time" base sent
          (observation_fields-start_time py body' sent h' sent_eq))
