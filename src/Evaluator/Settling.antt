-- ===== src/Evaluator/Settling.antt =====
-- agent-observability/evaluator/eval_worker.py: waiting until a trace is quiet, and judging it then.
-- A member of the sorted set `eval:due` is the pair that its JSON text holds. The clock is read once
-- for a check. What `zrangebyscore` and `xreadgroup` give is an argument; Redis does not fail here.
pub mod Announcing
pub mod Bouncing
use Prim.Native.String.{◌++◌ as ◌<>◌}
use open_weave.Prelude.{
  ℕ, zero, suc, ◌+◌, String, Bool, true, false, not, ◌&&◌, Option, none, some, List, [], ◌∷◌, ◌++◌,
  ◌==◌, leb, ltb, length, if◌then◌else◌, text_key, RowKey, row_key,
}
use open_weave.Prelude.Dict.{Dict, get, put, remove, has}
use open_weave.Prelude.Result.{Result, ok, err}
use open_weave.Python.{Value, str, time, Row, cell, is_empty}
use open_weave.Pricing.Resolve.{is_text}
use open_weave.Worker.Upsert.{Table}
use open_weave.Worker.Stream.{count_of}
use open_weave.Evaluator.Judge.{Failure}
use open_weave.Evaluator.Run.{Claims, EvalDb, Status}

-- What the loop of the eval worker changes: the settle checks with their times, the counts of the
-- checks, the ids acknowledged, the tables of the evaluations, and the claimed keys.
pub record Evals : Type 0 where
  pub due : Dict RowKey ℕ
  pub bounces : Dict String ℕ
  pub acked : List String
  pub db : EvalDb
  pub done : Claims

-- SETTLE_SECONDS, MAX_BOUNCES and CLAIM_LEASE_SECONDS, times in the clock's units.
pub record Settings : Type 0 where
  pub settle : ℕ
  pub max_bounces : ℕ
  pub lease : ℕ

abbrev pub max : ℕ → ℕ → ℕ
max a b = if leb a b then b else a

-- `COALESCE(updated_at, to_timestamp(0))`
abbrev pub instant_of : Value → ℕ
instant_of (time t) = t
instant_of _ = 0

-- `MAX(o.updated_at)` over the observations of a trace.
unfoldable pub last_observation : RowKey → Table → ℕ
last_observation (pid, tid) [] = 0
last_observation (pid, tid) ((k, r) ∷ observations) =
    let rest = last_observation (pid, tid) observations in
    if is_text pid (cell "project_id" r) && is_text tid (cell "trace_id" r)
    then max (instant_of (cell "updated_at" r)) rest
    else rest

-- The query of `is_settled`: `none` if there is no trace.
unfoldable pub last_update : Table → Table → RowKey → Option ℕ
last_update traces observations key = elim (get key traces) [
  | none ↦ none
  | some trace ↦
      some (max (instant_of (cell "updated_at" trace)) (last_observation key observations))
]

-- `is_settled`: the age is `now - last`, which is below 0 for an update ahead of the clock.
unfoldable pub is_settled : ℕ → ℕ → Option ℕ → Bool
is_settled settle now none = false
is_settled settle now (some last) = leb (last + settle) now

-- `zadd` with `gt`: a member is added, and moved to a later time only.
unfoldable pub zadd_gt : RowKey → ℕ → Dict RowKey ℕ → Dict RowKey ℕ
zadd_gt member at due = elim (get member due) [
  | none ↦ put member at due
  | some t ↦ if ltb t at then put member at due else due
]

-- `zadd` with `xx`: only a member that is there is moved.
unfoldable pub zadd_xx : RowKey → ℕ → Dict RowKey ℕ → Dict RowKey ℕ
zadd_xx member at due = if has member due then put member at due else due

-- `if project_id and trace_id`
abbrev pub announced : Option String → Option String → Option RowKey
announced (some pid) (some tid) =
    if is_empty pid then none else if is_empty tid then none else some (pid, tid)
announced _ _ = none

-- `handle_message`
unfoldable pub handle_message : Settings → ℕ → String → Dict String String → Evals → Evals
handle_message settings now message_id fields w =
    let member = announced (get "project_id" fields) (get "trace_id" fields) in
    record w {
      due = elim member [ none ↦ w.due | some m ↦ zadd_gt m (now + settings.settle) w.due ];
      acked = w.acked ++ message_id ∷ [];
    }

abbrev pub bounce_key : RowKey → String
bounce_key (pid, tid) = pid <> (":" <> tid)

-- `evaluate` is `evaluate_trace` of a trace, and `last` the query of `is_settled`.
module _ (settings : Settings) (last : RowKey → Option ℕ)
    (evaluate : RowKey → EvalDb → Claims → Result Failure (EvalDb × List Status) × Claims) where
  -- The evaluation of a member that is settled, or was checked too often.
  unfoldable pub evaluate_member : RowKey → Evals → Result Failure (List Status) × Evals
  evaluate_member member w =
      let (result, done) = evaluate member w.db w.done in
      elim result [
        | err f ↦ (err f, record w { done = done })
        | ok (db, outcomes) ↦ (
          ok outcomes,
          record w {
            due = remove member w.due;
            bounces = remove (bounce_key member) w.bounces;
            db = db;
            done = done;
          },
        )
      ]

  -- The body of the loop of `drain_due`.
  unfoldable pub check_member : ℕ → RowKey → Evals → Result Failure (List Status) × Evals
  check_member now member w =
      let leased : Evals = record w { due = zadd_xx member (now + settings.lease) w.due } in
      let count = count_of (get (bounce_key member) w.bounces) + 1 in
      let counted : Evals = record leased { bounces = put (bounce_key member) count w.bounces } in
      if is_settled settings.settle now (last member)
      then evaluate_member member leased
      else if leb count settings.max_bounces
      then (ok [], record counted { due = put member (now + settings.settle) leased.due })
      else evaluate_member member counted

  -- `drain_due`: an evaluation that raises ends the loop.
  unfoldable pub drain_members : ℕ → List RowKey → Evals → Result Failure ℕ × Evals
  drain_members now [] w = (ok 0, w)
  drain_members now (member ∷ members) w =
      let (result, w') = check_member now member w in
      elim result [ err f ↦ (err f, w') | ok _ ↦ drain_rest (drain_members now members w') ]
    where
      drain_rest : Result Failure ℕ × Evals → Result Failure ℕ × Evals
      drain_rest (err f, v) = (err f, v)
      drain_rest (ok n, v) = (ok (n + 1), v)
