-- ===== src/Evaluator/Settling/Bouncing.antt =====
-- How often the check of a trace that is not quiet is put off.
use open_weave.Prelude.{
  ℕ, suc, ◌+◌, ◌≤◌, ◌<◌, ◌≡◌, refl, true, false, Option, none, some, List, [], ◌∷◌, arith, text_key,
  RowKey, row_key, ap, ap₂, ◌∙◌, All, length,
}
use open_weave.Prelude.Dict.{get, put, get-put_self, get-remove_self}
use open_weave.Prelude.Result.{Result, ok, err}
use open_weave.Evaluator.Judge.{Failure}
use open_weave.Evaluator.Run.{Claims, EvalDb, Status}
use open_weave.Evaluator.Settling.{
  Evals, Settings, is_settled, bounce_key, zadd_xx, check_member, evaluate_member,
}
use open_weave.Worker.Stream.{count_of}

module _ (settings : Settings) (last : RowKey → Option ℕ)
    (evaluate : RowKey → EvalDb → Claims → Result Failure (EvalDb × List Status) × Claims)
    (member : RowKey) where
  -- The check is put off: it is due a settle time from now, and has been counted.
  check_member-bounces :
      (now : ℕ) (w : Evals)
      → is_settled settings.settle now (last member) ≡ false
      → suc (count_of (get (bounce_key member) w.bounces)) ≤ settings.max_bounces
      → let r = check_member settings last evaluate now member w in
        (r.0 ≡ ok [])
        × (get member r.1.due ≡ some (now + settings.settle))
        × (count_of (get (bounce_key member) r.1.bounces)
            ≡ suc (count_of (get (bounce_key member) w.bounces)))
        × (r.1.db ≡ w.db)
        × (r.1.done ≡ w.done)
  unfolding check_member
  check_member-bounces now w busy few =
      let count = count_of (get (bounce_key member) w.bounces) + 1 in
      ground (
        arith,
        busy,
        few,
        get-put_self (bounce_key member) count w.bounces,
        get-put_self member (now + settings.settle) (zadd_xx member (now + settings.lease) w.due),
      )

  -- The checks of a trace at the given times, the latest first.
  abbrev pub checks : List ℕ → Evals → Evals
  checks [] w = w
  checks (now ∷ times) w = (check_member settings last evaluate now member (checks times w)).1

  abbrev pub Busy : ℕ → Type 0
  Busy now = is_settled settings.settle now (last member) ≡ false

  -- A trace with no check counted that is not quiet is left alone for as many checks as the limit
  -- allows: none of them
  -- evaluates it, claims a rule or writes a table, and each is counted.
  pub checks-pending :
      (times : List ℕ) (w : Evals)
      → All Busy times
      → get (bounce_key member) w.bounces ≡ none
      → length times ≤ settings.max_bounces
      → (count_of (get (bounce_key member) (checks times w).bounces) ≡ length times)
        × ((checks times w).db ≡ w.db)
        × ((checks times w).done ≡ w.done)
  checks-pending [] w busy fresh few = (ap count_of fresh, refl, refl)
  checks-pending (now ∷ times) w busy fresh few =
      let (counted, db, done) = checks-pending times w busy.1 fresh (omega (arith, few)) in
      let (_, _, counted', db', done') =
        check_member-bounces now (checks times w) busy.0 (omega (arith, few, counted)) in
      (counted' ∙ ap suc counted, db' ∙ db, done' ∙ done)

  evaluated_anyway :
      (now : ℕ) (w : Evals) (db' : EvalDb) (outcomes : List Status) (done' : Claims)
      → settings.max_bounces < suc (count_of (get (bounce_key member) w.bounces))
      → evaluate member w.db w.done ≡ (ok (db', outcomes), done')
      → let r = check_member settings last evaluate now member w in
        (r.0 ≡ ok outcomes)
        × (get member r.1.due ≡ none)
        × (get (bounce_key member) r.1.bounces ≡ none)
        × (r.1.db ≡ db')
        × (r.1.done ≡ done')
  unfolding check_member evaluate_member
  evaluated_anyway now w db' outcomes done' many judged =
      let count = count_of (get (bounce_key member) w.bounces) + 1 in
      ground (
        arith,
        many,
        judged,
        get-remove_self member (zadd_xx member (now + settings.lease) w.due),
        get-remove_self (bounce_key member) w.bounces,
        get-remove_self (bounce_key member) (put (bounce_key member) count w.bounces),
      )

  -- A trace that never goes quiet is judged all the same: once its checks, from a count of none,
  -- have used up the limit, the next one evaluates it, whenever that is; if the evaluation returns, its tables and claims
  -- are kept, and the trace leaves the settle checks and the counts.
  pub checks-judged :
      (now : ℕ) (times : List ℕ) (w : Evals) (db' : EvalDb) (outcomes : List Status)
      (done' : Claims)
      → All Busy times
      → get (bounce_key member) w.bounces ≡ none
      → length times ≡ settings.max_bounces
      → evaluate member w.db w.done ≡ (ok (db', outcomes), done')
      → let v = checks (now ∷ times) w in
        (get member v.due ≡ none)
        × (get (bounce_key member) v.bounces ≡ none)
        × (v.db ≡ db')
        × (v.done ≡ done')
  checks-judged now times w db' outcomes done' busy fresh full judged =
      let (counted, db, done) = checks-pending times w busy fresh (omega (arith, full)) in
      let (_, gone, uncounted, kept, claimed) =
        evaluated_anyway now (checks times w) db' outcomes done' (omega (arith, full, counted))
          (ap₂ (evaluate member) db done ∙ judged) in
      (gone, uncounted, kept, claimed)

  -- An evaluation that raises does not lose the trace: its check stays, and is due again when the
  -- lease ends; the tables are as they were.
  pub check_member-raises :
      (now t : ℕ) (w : Evals) (f : Failure) (done' : Claims)
      → get member w.due ≡ some t
      → is_settled settings.settle now (last member) ≡ true
      → evaluate member w.db w.done ≡ (err f, done')
      → let r = check_member settings last evaluate now member w in
        (r.0 ≡ err f) × (get member r.1.due ≡ some (now + settings.lease)) × (r.1.db ≡ w.db)
  unfolding check_member evaluate_member zadd_xx
  check_member-raises now t w f done' member_due settled raises =
      ground (arith, member_due, settled, raises, get-put_self member (now + settings.lease) w.due)
