-- ===== src/Api/Traces/Filters.antt =====
-- Each placeholder of the WHERE clause reads its own value: the rows of `list_traces` of
-- agent-observability/api-server/main.py against the filters of the request.
use open_weave.Prelude.{
  ℕ, zero, suc, ◌+◌, ◌-◌, ◌≤◌, ◌<◌, String, Bool, true, ◌≡◌, refl, ap, ◌∙◌, fun_ext, ◌&&◌, Option,
  none, some, List, [], ◌∷◌, ◌++◌, map, all, All, keep, take, drop, length, length-append, arith,
}
use open_weave.Prelude.Int.{pos}
use open_weave.Python.{Value, bool, int, str, time, Row, cell}
use open_weave.Auth.{AuthContext}
use open_weave.Api.{Database}
use open_weave.Api.Sql.{Postgres, eq_text, of_project, order_by}
use open_weave.Api.Traces.{
  Query, Operator, equals, at_least, Condition, parameter, compare_values, holds, add_condition,
  optional, where_clause, Rollup, rollup, not_older, trace_rows, count_parameter,
}

parameter-append :
    (k : ℕ) (xs ys : List Value) → 0 < k → k ≤ length xs → parameter k (xs ++ ys) ≡ parameter k xs
parameter-append k [] ys h l = absurd (omega arith)
parameter-append zero (x ∷ xs) ys h l = absurd (omega arith)
parameter-append (suc zero) (x ∷ xs) ys h l = refl
parameter-append (suc (suc k)) (x ∷ xs) ys h l =
    parameter-append (suc k) xs ys (omega arith) (omega arith)

parameter-next :
    (xs : List Value) (v : Value) (ys : List Value)
    → parameter (suc (length xs)) (xs ++ v ∷ ys) ≡ some v
parameter-next [] v ys = refl
parameter-next (x ∷ xs) v ys = parameter-next xs v ys

abbrev IsPlaced : List Value → Condition → Type 0
IsPlaced params c = (0 < c.position) × (c.position ≤ length params)

holds-append :
    (xs ys : List Value) (t : Row) (c : Condition)
    → IsPlaced xs c
    → holds (xs ++ ys) t c ≡ holds xs t c
unfolding holds
holds-append xs ys t c h = rw (parameter-append c.position xs ys h.0 h.1, holds)

all-holds-append :
    (xs ys : List Value) (t : Row) (cs : List Condition)
    → All (IsPlaced xs) cs
    → all (holds (xs ++ ys) t) cs ≡ all (holds xs t) cs
all-holds-append xs ys t [] h = refl
all-holds-append xs ys t (c ∷ cs) h =
    rw (holds-append xs ys t c h.0, all-holds-append xs ys t cs h.1) refl

-- What one filter of the request lets through.
abbrev pub passes_filter : String → Operator → Option Value → Row → Bool
passes_filter column operator none t = true
passes_filter column operator (some v) t = compare_values operator (cell column t) v

-- Placed conditions that test together what `spec` tests.
record Tests (built : List Condition × List Value) (spec : Row → Bool) : Type 0 where
  placed : All (IsPlaced built.1) built.0
  agrees : (t : Row) → all (holds built.1 t) built.0 ≡ spec t

All-IsPlaced-append :
    (xs : List Value) (v : Value) (cs : List Condition) (c : Condition)
    → All (IsPlaced xs) cs
    → c.position ≡ suc (length xs)
    → All (IsPlaced (xs ++ v ∷ [])) (cs ++ c ∷ [])
All-IsPlaced-append xs v [] c h e = ((omega arith, omega (arith, length-append xs (v ∷ []))), tt)
All-IsPlaced-append xs v (d ∷ cs) c h e =
    ((omega arith, omega (arith, length-append xs (v ∷ []))), All-IsPlaced-append xs v cs c h.1 e)

all-append {ℓ} :
    {A : Type ℓ} (p : A → Bool) (xs ys : List A) → all p (xs ++ ys) ≡ (all p xs && all p ys)
all-append p [] ys = refl
all-append p (x ∷ xs) ys = ground (arith, all-append p xs ys)

holds-next :
    (xs : List Value) (v : Value) (column : String) (operator : Operator) (t : Row)
    → holds
        (xs ++ v ∷ [])
        t
        (record { column = column; operator = operator; position = length xs + 1 })
      ≡ compare_values operator (cell column t) v
unfolding holds
holds-next xs v column operator t = ground (arith, parameter-next xs v [])

add_condition-Tests :
    (column : String) (operator : Operator) (value : Option Value)
    (built : List Condition × List Value) (spec : Row → Bool)
    → Tests built spec
    → Tests
        (add_condition column operator value built)
        (λ t. spec t && passes_filter column operator value t)
unfolding add_condition
add_condition-Tests column operator none built spec h = record {
  placed = h.placed;
  agrees = λ t. ground (arith, h.agrees t);
}
add_condition-Tests column operator (some v) (cs, xs) spec h = record {
  placed = All-IsPlaced-append xs v cs _ h.placed (omega arith);
  agrees = λ t.
      rw
        (
          all-append (holds (xs ++ v ∷ []) t) cs,
          all-holds-append xs (v ∷ []) t cs h.placed,
          h.agrees t,
        )
        (rw (holds-next xs v column operator t) (ground arith));
}

-- The filters of the request, read directly: the caller's project, and each filter that is given.
abbrev pub matches : AuthContext → Query → Row → Bool
matches ctx q t =
    of_project ctx.project_id t
    && passes_filter "name" equals (optional str q.name) t
    && passes_filter "user_id" equals (optional str q.user_id) t
    && passes_filter "session_id" equals (optional str q.session_id) t
    && passes_filter "release" equals (optional str q.release) t
    && passes_filter "is_experiment" equals (optional bool q.is_experiment) t
    && passes_filter "timestamp" at_least (optional time q.since) t

equals-text :
    (v : Value) (p : String) → (compare_values equals v (str p) && true) ≡ eq_text v (str p)
equals-text (str s) p = ground arith
equals-text v p = refl

start-Tests :
    (p : String)
    → Tests
        (record { column = "project_id"; operator = equals; position = 1 } ∷ [], str p ∷ [])
        (of_project p)
unfolding holds
start-Tests p = record {
  placed = ((omega arith, omega arith), tt);
  agrees = λ t. equals-text (cell "project_id" t) p;
}

where_clause-Tests : (ctx : AuthContext) (q : Query) → Tests (where_clause ctx q) (matches ctx q)
unfolding where_clause
where_clause-Tests ctx q =
    let start = start-Tests ctx.project_id in
    let named = add_condition-Tests "name" equals (optional str q.name) _ _ start in
    let by_user = add_condition-Tests "user_id" equals (optional str q.user_id) _ _ named in
    let in_session =
      add_condition-Tests "session_id" equals (optional str q.session_id) _ _ by_user in
    let released = add_condition-Tests "release" equals (optional str q.release) _ _ in_session in
    let split =
      add_condition-Tests "is_experiment" equals (optional bool q.is_experiment) _ _ released in
    let since = add_condition-Tests "timestamp" at_least (optional time q.since) _ _ split in
    record { placed = since.placed; agrees = λ t. since.agrees t ∙ ground arith }

parameter-last :
    (xs : List Value) (v w : Value)
    → parameter (length (xs ++ v ∷ w ∷ [])) (xs ++ v ∷ w ∷ []) ≡ some w
parameter-last [] v w = refl
parameter-last (x ∷ []) v w = refl
parameter-last (x ∷ y ∷ xs) v w = parameter-last (y ∷ xs) v w

-- LIMIT and OFFSET read the two values that are added last.
count_parameter-pair :
    (xs : List Value) (a b : ℕ)
    → (count_parameter
          (length (xs ++ int (pos a) ∷ int (pos b) ∷ []) - 1)
          (xs ++ int (pos a) ∷ int (pos b) ∷ [])
        ≡ a)
      × (count_parameter
            (length (xs ++ int (pos a) ∷ int (pos b) ∷ []))
            (xs ++ int (pos a) ∷ int (pos b) ∷ [])
          ≡ b)
count_parameter-pair xs a b =
    let v = int (pos a) in
    let w = int (pos b) in
    let e : length (xs ++ v ∷ w ∷ []) - 1 ≡ suc (length xs) =
      omega (arith, length-append xs (v ∷ w ∷ [])) in
    (rw e (ground (arith, parameter-next xs v (w ∷ []))), ground (arith, parameter-last xs v w))

-- The rows that `list_traces` finds are the traces that pass each filter of the request and are the
-- caller's, newest first, from `offset` on and `limit` at most: every placeholder of the query reads
-- the value that it was made for, whichever filters are given.
pub trace_rows-matches :
    (pg : Postgres) (ctx : AuthContext) (q : Query) (db : Database)
    → trace_rows pg ctx q db
      ≡ take q.limit (
          drop q.offset (
            order_by
              (not_older pg)
              (keep (λ j. matches ctx q j.0) (map (λ t. (t, rollup pg db t)) db.traces))))
unfolding trace_rows
trace_rows-matches pg ctx q db =
    let (conditions, filters) = where_clause ctx q in
    let built = where_clause-Tests ctx q in
    let reads = λ (t : Row).
      all-holds-append filters (int (pos q.limit) ∷ int (pos q.offset) ∷ []) t conditions
        built.placed
      ∙ built.agrees t in
    let filtered = ap keep (fun_ext (λ (j : Row × Rollup). reads j.0)) in
    let counts = count_parameter-pair filters q.limit q.offset in rw (counts.0, counts.1, filtered)
