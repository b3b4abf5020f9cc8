-- ===== src/Sdk/Experiment.antt =====
-- agent-observability/sdk/experiment.py: running a task over the items of a dataset.
-- The HTTP calls succeed; one that raised would end the run.
use Prim.Native.String.{◌++◌ as ◌<>◌}
use mathlib.Core.List.{append-nil, append_assoc}
use open_weave.Prelude.{
  ℕ, suc, ◌+◌, String, ◌≡◌, refl, true, some, List, [], ◌∷◌, ◌++◌, length, arith, text_key, map, ap,
  ◌∙◌, sym,
}
use open_weave.Prelude.Result.{Result, ok, err}
use open_weave.Python.{
  Value, null, str, obj, arr, nil, cons, to_fields, Row, Error, value_error, Python,
}
use open_weave.Worker.Rows.{update_with}
use open_weave.Sdk.Spans.{Session}
use open_weave.Sdk.Bodies.{TraceArguments, with_trace, update_trace}

pub record DatasetItem : Type 0 where
  pub id : String
  pub input : Value

-- The session of the client, the links that the API was told, and the two counts.
pub record Bench : Type 0 where
  pub session : Session
  pub links : List (String × String)
  pub passed : ℕ
  pub failed : ℕ

-- What `run` returns.
pub record RunReport : Type 0 where
  pub run : String
  pub items : ℕ
  pub passed : ℕ
  pub failed : ℕ

module _ (py : Python) (uuid : ℕ → String) (now : String) (dataset run_name : String)
    (metadata : Row) (task : Value → Session → Result String Value × Session) where
  unfoldable pub arguments_for : DatasetItem → String → TraceArguments
  arguments_for item tid = record {
    name = str (dataset <> ("/" <> run_name));
    input = item.input;
    user_id = null;
    session_id = null;
    tags = arr (cons (str "experiment") (cons (str run_name) nil));
    metadata = obj (
        to_fields (
          update_with
            (("dataset", str dataset)
              ∷ ("run", str run_name)
              ∷ ("dataset_item_id", str item.id)
              ∷ [])
            metadata));
    release = null;
    version = null;
    is_experiment = true;
    trace_id = some tid;
  }

  -- The body of the `with`: the task, and its output or its error as the trace's output.
  unfoldable pub attempt : DatasetItem → String → Session → Result String Value × Session
  attempt item tid s =
      let (result, after) = task item.input s in
      (
        result,
        update_trace py uuid now tid
            (elim result as (λ _. Value) [ ok v ↦ v | err message ↦ str ("ERROR: " <> message) ])
            null after,
      )

  abbrev pub count_result : Result String Value → Bench → Bench
  count_result (ok v) b = record b { passed = b.passed + 1 }
  count_result (err message) b = record b { failed = b.failed + 1 }

  -- The body of the loop: the link is made first, then the item's trace.
  unfoldable pub run_item : DatasetItem → Bench → Bench
  run_item item b =
      let tid = uuid b.session.drawn in
      let drawn : Session = record (b.session) { drawn = b.session.drawn + 1 } in
      let (result, after) = with_trace py uuid now (arguments_for item tid) (attempt item) drawn in
      count_result result (record b { session = after; links = b.links ++ (item.id, tid) ∷ [] })

  unfoldable pub run_items : List DatasetItem → Bench → Bench
  run_items [] b = b
  run_items (item ∷ items) b = run_items items (run_item item b)

  -- `run`, on the items of the dataset and before the flush at its end.
  unfoldable pub run : List DatasetItem → Session → Result Error (RunReport × Bench)
  run [] s = err value_error
  run (item ∷ items) s =
      let b =
        run_items (item ∷ items) (record { session = s; links = []; passed = 0; failed = 0 }) in
      ok (
        record {
          run = run_name;
          items = length (item ∷ items);
          passed = b.passed;
          failed = b.failed;
        },
        b,
      )

  abbrev pub linked : Bench → List String
  linked b = map (λ e. e.0) b.links

  linked_append :
      (links : List (String × String)) (id tid : String)
      → map (λ e. e.0) (links ++ (id, tid) ∷ []) ≡ map (λ e. e.0) links ++ id ∷ []
  linked_append [] id tid = refl
  linked_append (e ∷ links) id tid = ap (λ l. e.0 ∷ l) (linked_append links id tid)

  count_result_lem :
      (r : Result String Value) (b : Bench)
      → ((count_result r b).passed + (count_result r b).failed ≡ suc (b.passed + b.failed))
        × ((count_result r b).links ≡ b.links)
  count_result_lem (ok v) b = (omega arith, refl)
  count_result_lem (err message) b = (omega arith, refl)

  run_items-counted :
      (items : List DatasetItem) (b : Bench)
      → ((run_items items b).passed + (run_items items b).failed
          ≡ b.passed + b.failed + length items)
        × (linked (run_items items b) ≡ linked b ++ map (λ (i : DatasetItem). i.id) items)
  unfolding run_items run_item
  run_items-counted [] b = (omega arith, sym (append-nil (linked b)))
  run_items-counted (item ∷ items) b =
      let tid = uuid b.session.drawn in
      let drawn : Session = record (b.session) { drawn = b.session.drawn + 1 } in
      let r = with_trace py uuid now (arguments_for item tid) (attempt item) drawn in
      let v : Bench = record b { session = r.1; links = b.links ++ (item.id, tid) ∷ [] } in
      let (one, same) = count_result_lem r.0 v in
      let (total, all) = run_items-counted items (run_item item b) in
      (
        omega (arith, total, one),
        all
            ∙ ap (λ l. map (λ e. e.0) l ++ map (λ (i : DatasetItem). i.id) items) same
            ∙ ap (λ l. l ++ map (λ (i : DatasetItem). i.id) items)
                (linked_append b.links item.id tid)
            ∙ append_assoc (linked b) (item.id ∷ []) (map (λ (i : DatasetItem). i.id) items),
      )

  -- A failing item does not abandon a run: when `run` returns, each item of the dataset was linked
  -- to a trace, in order, and counted once, as passed or as failed, whatever the task did.
  pub run-counts :
      (items : List DatasetItem) (s : Session) (report : RunReport) (b : Bench)
      → run items s ≡ ok (report, b)
      → (report.items ≡ length items)
        × (report.passed + report.failed ≡ report.items)
        × (linked b ≡ map (λ (i : DatasetItem). i.id) items)
  unfolding run
  run-counts [] s report b h = elim (raises h) [ ]
    where
      raises : ◌≡◌ {A = Result Error (RunReport × Bench)} (err value_error) (ok (report, b)) → ⊥
      raises h = cc
  run-counts (item ∷ items) s report b h =
      let start : Bench = record { session = s; links = []; passed = 0; failed = 0 } in
      let b' = run_items (item ∷ items) start in
      let given : RunReport = record {
        run = run_name;
        items = length (item ∷ items);
        passed = b'.passed;
        failed = b'.failed;
      } in
      let same : ◌≡◌ {A = RunReport × Bench} (given, b') (report, b) = returned h in
      let (total, all) = run_items-counted (item ∷ items) start in
      (
        sym (ap (λ (r : RunReport × Bench). r.0.items) same),
        sym (ap (λ (r : RunReport × Bench). r.0.passed + r.0.failed) same)
            ∙ omega (arith, total)
            ∙ ap (λ (r : RunReport × Bench). r.0.items) same,
        sym (ap (λ (r : RunReport × Bench). linked r.1) same) ∙ all,
      )
    where
      returned :
          {x y : RunReport × Bench}
          → ◌≡◌ {A = Result Error (RunReport × Bench)} (ok x) (ok y)
          → x ≡ y
      returned e = cc
