-- ===== src/Tests/Evaluator.antt =====
-- The theorems on evaluation at concrete inputs.
use open_weave.Prelude.{
  arith, ℕ, ◌^◌, String, ◌≡◌, refl, true, Option, none, some, List, [], ◌∷◌, text_key, RowKey,
  row_key,
}
use open_weave.Prelude.Dict.{Dict, get}
use open_weave.Prelude.Result.{Result, ok, err}
use open_weave.Python.{
  to_float, Value, null, str, int, float, obj, arr, nil, cons, end, field, Fields, Row,
  attribute_error,
}
use open_weave.Prelude.Int.{pos}
use open_weave.Evaluator.Judge.{Failure, raised}
use open_weave.Evaluator.Schema.{validate_output}
use open_weave.Evaluator.Rules.{matches_filter}
use open_weave.Evaluator.Run.{
  score_row, score_of, already_evaluated, holds_claim, Claims, rule_step, judge_trace, finish_job,
  Rule, EvalDb, Status, Judging, run_rule, evaluate_rules, completed,
}
use open_weave.Evaluator.Run.Once.{evaluate_rules-once, evaluate_rules-lost}
use open_weave.Evaluator.Settling.{Evals, Settings, bounce_key, is_settled}
use open_weave.Evaluator.Settling.Bouncing.{checks, checks-judged}
use open_weave.Worker.Upsert.{insert_or_nothing}
use open_weave.Tests.Library.{py}

abbrev digest : String → String
digest s = "ffffffff00"

abbrev answer : Value
answer = obj (field "id" (str "e1") end)

abbrev verdict : Fields
verdict = field "score" (int (pos 1)) end

abbrev kind : String
kind = "number"

-- A score that is a number and at least 0.
abbrev spec : Fields
spec = field "type" (str "number") (field "minimum" (int (pos 0)) end)

abbrev schema : Fields
schema =
    field "required" (arr (cons (str "score") nil))
      (field "properties" (obj (field "score" (obj spec) end)) end)

-- A rule for every trace, and a judge whose verdict is a list.
abbrev rule : Rule
rule = record {
  rule_id = "r1";
  version_id = "v1";
  filter = [];
  sampling_rate = 2 ^ 32;
  prompt = "judge";
  model = "m";
  provider = none;
  model_params = null;
  variable_mapping = [];
  output_definition = null;
  score_name = "good";
  score_data_type = none;
}

abbrev env : Judging
env = record {
  judge_fn = λ provider model prompt params. ok (arr nil);
  jsonschema = none;
  root = [];
  dataset_item = [];
  now = 50;
  done_ttl = 1000;
  accepts = λ r. true;
}

abbrev fresh : EvalDb
fresh = record { jobs = []; scores = [] }

abbrev trace : Row
trace = ("id", str "t1") ∷ []

-- The clock goes on.
abbrev later : Judging
later = record env { now = 60 }

abbrev claims : Claims
claims = ("eval:done:p1:t1:r1", 1050) ∷ []

evaluate_rules-lost_example :
    (evaluate_rules py env 7 ("p1", "t1") trace (rule ∷ []) fresh []
      ≡ (err (raised attribute_error), claims))
    × (evaluate_rules py later 7 ("p1", "t1") trace (rule ∷ []) fresh claims
        ≡ (ok (fresh, []), claims))
unfolding matches_filter run_rule finish_job judge_trace validate_output holds_claim
evaluate_rules-lost_example =
    evaluate_rules-lost py env later 7 ("p1", "t1") trace rule [] fresh fresh []
      (raised attribute_error) (omega arith) refl refl refl refl

-- A judge that answers with a score: the rule runs.
abbrev scoring : Judging
scoring = record env {
  judge_fn = λ provider model prompt params. ok (obj (field "score" (float 1) end));
}

abbrev scored : EvalDb
scored = tables (evaluate_rules py scoring 7 ("p1", "t1") trace (rule ∷ []) fresh []).0
  where
    tables : Result Failure (EvalDb × List Status) → EvalDb
    tables (ok (db, outcomes)) = db
    tables (err f) = fresh

evaluate_rules-once_example :
    evaluate_rules py later 7 ("p1", "t1") trace (rule ∷ []) scored claims
    ≡ (ok (scored, []), claims)
unfolding holds_claim evaluate_rules rule_step matches_filter already_evaluated run_rule finish_job
    judge_trace validate_output score_of to_float get insert_or_nothing score_row
evaluate_rules-once_example =
    evaluate_rules-once py scoring later 7 ("p1", "t1") trace (rule ∷ []) fresh scored scored []
      claims (completed ∷ []) (omega arith) (λ k h. h) refl

abbrev settings : Settings
settings = record { settle = 5; max_bounces = 2; lease = 120 }

abbrev waiting : Evals
waiting = record { due = (("p1", "t1"), 10) ∷ []; bounces = []; acked = []; db = fresh; done = [] }

abbrev message : Dict String String
message = ("project_id", "p1") ∷ ("trace_id", "t1") ∷ []

-- The trace was updated at 100.
abbrev last : RowKey → Option ℕ
last key = some 100

abbrev judged : EvalDb
judged = record fresh { scores = (("p1", "s1"), []) ∷ [] }

abbrev evaluate : RowKey → EvalDb → Claims → Result Failure (EvalDb × List Status) × Claims
evaluate key db done = (ok (judged, []), ("k", 1) ∷ done)

abbrev failing : RowKey → EvalDb → Claims → Result Failure (EvalDb × List Status) × Claims
failing key db done = (err (raised attribute_error), ("k", 1) ∷ done)

checks-judged_example :
    (get
        ("p1", "t1")
        (checks settings last evaluate ("p1", "t1") (104 ∷ 103 ∷ 102 ∷ []) waiting).due
      ≡ none)
    × (get
          (bounce_key ("p1", "t1"))
          (checks settings last evaluate ("p1", "t1") (104 ∷ 103 ∷ 102 ∷ []) waiting).bounces
        ≡ none)
    × ((checks settings last evaluate ("p1", "t1") (104 ∷ 103 ∷ 102 ∷ []) waiting).db ≡ judged)
    × ((checks settings last evaluate ("p1", "t1") (104 ∷ 103 ∷ 102 ∷ []) waiting).done
        ≡ ("k", 1) ∷ [])
unfolding is_settled get
checks-judged_example =
    checks-judged settings last evaluate ("p1", "t1") 104 (103 ∷ 102 ∷ []) waiting judged []
      (("k", 1) ∷ []) (refl, (refl, tt)) refl refl refl
