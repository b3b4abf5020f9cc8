-- ===== src/Evaluator/Run.antt =====
-- agent-observability/evaluator/eval_worker.py: running the rules that apply to a trace.
-- `set` with `nx` takes effect at once, also when the transaction around it is rolled back later.
pub mod Once
use Prim.Native.Char.{Char, code}
use Prim.Native.String
use Prim.Native.String.{◌++◌ as ◌<>◌}
use open_weave.Prelude.{
  ℕ, zero, suc, ◌+◌, ◌-◌, ◌*◌, String, Bool, true, false, not, ltb, ◌&&◌, ◌||◌, Option, none, some,
  List, [], ◌∷◌, ◌++◌, map, ◌==◌, leb, if◌then◌else◌, keep, contains, any, text_key, RowKey,
  row_key,
}
use open_weave.Prelude.Int.{ℤ, pos}
use open_weave.Prelude.Dict.{Dict, get, put}
use open_weave.Prelude.Result.{Result, ok, err, ◌>>=◌}
use open_weave.Python.{
  Value, null, bool, int, float, str, time, arr, nil, obj, Row, cell, is_null, truthy, text_value,
  fields, Error, key_error, type_error, value_error, item_or_none, Python, to_float,
}
use open_weave.Pricing.Resolve.{is_text}
use open_weave.Worker.Convert.{strip_prefix}
use open_weave.Worker.Upsert.{Table, insert_or_nothing}
use open_weave.Worker.Stream.{take_text}
use open_weave.Evaluator.Judge.{Failure, raised, lift, render_prompt}
use open_weave.Evaluator.Schema.{has_part, is_in, validate_output}
use open_weave.Evaluator.Rules.{matches_filter, build_variables, sample_hash}

-- A row that `load_rules` gives; a JSON column that is NULL is `null`, or an empty list or dict.
pub record Rule : Type 0 where
  pub rule_id : String
  pub version_id : String
  pub filter : List Value
  pub sampling_rate : ℕ
  pub prompt : String
  pub model : String
  pub provider : Option String
  pub model_params : Value
  pub variable_mapping : Dict String Value
  pub output_definition : Value
  pub score_name : String
  pub score_data_type : Option String

pub data Status : Type 0 where
  running completed error : Status

-- A row of `job_executions`.
pub record Job : Type 0 where
  pub id : String
  pub version_id : String
  pub rule_id : String
  pub trace_id : String
  pub status : Status
  pub score_id : Option String
  pub failure : Option Failure

-- The tables that an evaluation writes.
pub record EvalDb : Type 0 where
  pub jobs : Dict RowKey Job
  pub scores : Table

-- `except (JudgeError, ValueError, TypeError, KeyError)`
abbrev pub is_recorded : Failure → Bool
is_recorded (raised (key_error k)) = true
is_recorded (raised type_error) = true
is_recorded (raised value_error) = true
is_recorded (raised _) = false
is_recorded _ = true

-- The claims that Redis was given, each with the instant of its expiry.
abbrev pub Claims : Type 0
Claims = List (String × ℕ)

-- A key that is claimed and not expired at `t`.
unfoldable pub holds_claim : ℕ → String → Claims → Bool
holds_claim t k done = any (λ c. c.0 == k && ltb t c.1) done

-- What a run reaches: the judge, the validator, the rows of the variables, the clock, DONE_TTL in
-- the clock's units, and
-- what the database accepts of a score.
pub record Judging : Type 0 where
  pub judge_fn : Option String → String → String → Value → Result Failure Value
  pub jsonschema : Option (Value → Value → Bool)
  pub root : Row
  pub dataset_item : Row
  pub now : ℕ
  pub done_ttl : ℕ
  pub accepts : Row → Bool

module _ (py : Python) (env : Judging) where
  abbrev pub job_id_of : String → Rule → String
  job_id_of trace_id rule =
      trace_id <> (":" <> (rule.rule_id <> (":" <> py.text_of (int (pos env.now)))))

  -- The score's value and text, by the data type.
  unfoldable pub score_of : String → Value → Result Error (Value × Value)
  score_of data_type raw =
      if data_type == "CATEGORICAL"
      then ok (null, str (py.text_of raw))
      else if data_type == "BOOLEAN"
      then ok (float (py.float_of_int (pos (if is_yes raw then 1 else 0))), null)
      else (to_float py raw >>= λ x. ok (float x, null))
    where
      is_yes : Value → Bool
      is_yes v =
          py.equal v (bool true) || is_text "true" v || py.equal v (int (pos 1)) || is_text "1" v

  abbrev pub data_type_of : Rule → String
  data_type_of rule = elim rule.score_data_type [
    | none ↦ "NUMERIC"
    | some t ↦ if t == "" then "NUMERIC" else t
  ]

  -- The verdict's reason, and the score's value and text.
  unfoldable pub judge_trace : Row → Rule → Result Failure (Value × (Value × Value))
  judge_trace trace rule = do
    let variables = build_variables py trace env.root env.dataset_item rule.variable_mapping
    let prompt = render_prompt py rule.prompt variables
    answer ← env.judge_fn rule.provider rule.model prompt rule.model_params
    verdict ← validate_output py env.jsonschema answer rule.output_definition
    raw ← lift (item_or_none verdict "score")
    score ← lift (score_of (data_type_of rule) raw)
    reason ← lift (item_or_none verdict "reason")
    ok (reason, score)

  unfoldable pub score_row : RowKey → Rule → String → Value × (Value × Value) → Row
  score_row (pid, tid) rule score_id (reason, (value, text)) =
      ("project_id", str pid)
      ∷ ("id", str score_id)
      ∷ ("trace_id", str tid)
      ∷ ("name", str rule.score_name)
      ∷ ("data_type", str (data_type_of rule))
      ∷ ("value", value)
      ∷ ("string_value", text)
      ∷ ("source", str "EVAL")
      ∷ ("comment", reason)
      ∷ ("evaluator_version_id", str rule.version_id)
      ∷ ("timestamp", time env.now)
      ∷ ("created_at", time env.now)
      ∷ []

  abbrev pub new_job : RowKey → Rule → Job
  new_job (pid, tid) rule = record {
    id = job_id_of tid rule;
    version_id = rule.version_id;
    rule_id = rule.rule_id;
    trace_id = tid;
    status = running;
    score_id = none;
    failure = none;
  }

  -- The end of `run_rule`: the job is completed or records the failure; another error is raised.
  unfoldable pub finish_job :
      RowKey → Job → String → EvalDb → Result Failure Table → Result Failure (EvalDb × Status)
  finish_job key job score_id db (ok scores) =
      let done : Job = record job { status = completed; score_id = some score_id } in
      ok (record { jobs = put key done db.jobs; scores = scores }, completed)
  finish_job key job score_id db (err f) =
      let failed : Job = record job { status = error; failure = some f } in
      if is_recorded f then ok (record db { jobs = put key failed db.jobs }, error) else err f

  unfoldable pub run_rule : RowKey → Row → Rule → EvalDb → Result Failure (EvalDb × Status)
  run_rule (pid, tid) trace rule db =
      let job = new_job (pid, tid) rule in
      let score_id = job.id <> ":score" in
      let started : EvalDb = record db { jobs = put (pid, job.id) job db.jobs } in
      finish_job (pid, job.id) job score_id started
        (judge_trace trace rule >>= λ verdict.
          lift
            (insert_or_nothing env.accepts (score_row (pid, tid) rule score_id verdict) db.scores))

  -- The key of `already_evaluated`.
  abbrev pub done_key : RowKey → Rule → String
  done_key (pid, tid) rule = "eval:done:" <> (pid <> (":" <> (tid <> (":" <> rule.rule_id))))

  abbrev pub Outcome : Type 0
  Outcome = Result Failure (EvalDb × List Status) × Claims

  abbrev pub with_outcome : Status → Outcome → Outcome
  with_outcome s (err f, done) = (err f, done)
  with_outcome s (ok (db, os), done) = (ok (db, s ∷ os), done)

  -- `set` with `nx` and `ex`: whether the key was claimed before, and the claims.
  unfoldable pub already_evaluated : String → Claims → Bool × Claims
  already_evaluated k done =
      if holds_claim env.now k done
      then (true, done)
      else (false, done ++ (k, env.now + env.done_ttl) ∷ [])

  -- The body of the loop of `evaluate_trace`: `none` is a `continue`. The second part is the claims,
  -- which a failure of the transaction does not take back.
  unfoldable pub rule_step :
      ℕ → RowKey → Row → Rule → EvalDb → Claims → Result Failure (Option (EvalDb × Status)) × Claims
  rule_step hash key trace rule db done =
      if leb rule.sampling_rate hash
      then (ok none, done)
      else elim (matches_filter py trace rule.filter) [
        | err e ↦ (err (raised e), done)
        | ok false ↦ (ok none, done)
        | ok true ↦
            let (before, done') = already_evaluated (done_key key rule) done in
            if before
            then (ok none, done')
            else (run_rule key trace rule db >>= (λ r. ok (some r)), done')
      ]

  -- What the loop does with the end of a round, where `rest` is the rest of the loop.
  abbrev pub resume :
      Result Failure (Option (EvalDb × Status)) × Claims
      → EvalDb
      → (EvalDb → Claims → Outcome)
      → Outcome
  resume (err f, done) db rest = (err f, done)
  resume (ok none, done) db rest = rest db done
  resume (ok (some (db', s)), done) db rest = with_outcome s (rest db' done)

  unfoldable pub evaluate_rules : ℕ → RowKey → Row → List Rule → EvalDb → Claims → Outcome
  evaluate_rules hash key trace [] db done = (ok (db, []), done)
  evaluate_rules hash key trace (rule ∷ rules) db done =
      resume (rule_step hash key trace rule db done) db (evaluate_rules hash key trace rules)

  -- `evaluate_trace`
  unfoldable pub evaluate_trace :
      (String → String) → List Rule → Table → RowKey → EvalDb → Claims → Outcome
  evaluate_trace sha256 rules traces key db done = elim (get key traces) [
    | none ↦ (ok (db, []), done)
    | some trace ↦ evaluate_rules (sample_hash sha256 key.1) key trace rules db done
  ]
