-- ===== src/Tests/Sdk.antt =====
-- The theorems on the client at concrete inputs.
use open_weave.Prelude.{
  ℕ, ◌*◌, nat_eq, if◌then◌else◌, ◌+◌, ◌≤◌, String, ◌≡◌, refl, true, Option, none, some, List, [],
  ◌∷◌, arith, length, text_key,
}
use open_weave.Python.{Value, null, str}
use open_weave.Ingest.{Event, score_create, validate}
use open_weave.Sdk.{Client, enqueue_all, flush}
use open_weave.Sdk.Delivery.{enqueue_all-bounded, flatten, flush-delivers}
use open_weave.Sdk.Spans.{Session, observe, score_body, anchor_of}
use open_weave.Sdk.Spans.Accepted.{IsSound, observe-IsSound}
use open_weave.Sdk.Spans.Scoring.{validate-score_body}
use open_weave.Sdk.Experiment.{DatasetItem, RunReport, Bench, run_items}
use open_weave.Sdk.Waiting.{RequestError, Ends, wait_for_scores, wait_for_scores-Ends}
use open_weave.Api.Compare.{RunEntry, Comparison}
use open_weave.Prelude.Result.{Result, ok, err}
use open_weave.Tests.Library.{py}

abbrev event : Event
event = record { event_id = "e1"; body = none; timestamp = none }

-- A queue of two, and batches of one.
abbrev client : Client
client = record {
  enabled = true;
  max_queue = 2;
  max_batch = 1;
  queue = event ∷ [];
  dropped = 0;
  sent = 0;
  calls = [];
}

enqueue_all-bounded_example :
    (length (enqueue_all (event ∷ event ∷ []) client).queue ≤ 2)
    × (length (enqueue_all (event ∷ event ∷ []) client).queue
          + (enqueue_all (event ∷ event ∷ []) client).dropped
        ≡ 3)
enqueue_all-bounded_example =
    enqueue_all-bounded (event ∷ event ∷ []) client refl (omega arith) (omega arith)

-- The server cannot be reached.
abbrev unreachable : List Event → Option ℕ
unreachable batch = none

flush-delivers_example :
    ((flush unreachable 3 client).queue ≡ [])
    × (flatten (flush unreachable 3 client).calls ≡ event ∷ [])
flush-delivers_example = flush-delivers unreachable 3 0 client refl refl (omega arith)

abbrev uuid : ℕ → String
uuid n = "u"

validate-score_body_example :
    validate event score_create
      (score_body py uuid "now" "s1" "good" ("trace_id", str "t1") "NUMERIC" null null (str "fine"))
    ≡ none
unfolding anchor_of
validate-score_body_example =
    validate-score_body py uuid "now" event "s1" "good" "NUMERIC" none (some "t1") none
      ("trace_id", str "t1") null null (str "fine") refl refl refl refl

abbrev session : Session
session = record { client = client; trace_id = none; stack = []; drawn = 0 }

abbrev item : DatasetItem
item = record { id = "i1"; input = null }

-- A task that raises.
abbrev task : Value → Session → Result String Value × Session
task input s = (err "boom", s)

abbrev start : Bench
start = record { session = session; links = []; passed = 0; failed = 0 }

abbrev finished : Bench
finished = run_items py uuid "now" "d" "r" [] task (item ∷ []) start

abbrev report : RunReport
report = record { run = "r"; items = 1; passed = finished.passed; failed = finished.failed }

-- The run is listed in the second round, and has one score there.
abbrev listed : ℕ → Result RequestError (List String)
listed k = if nat_eq k 0 then ok [] else ok ("r" ∷ [])

abbrev entry : RunEntry
entry = record {
  totals = record { items = 1; avg_cost = null; total_cost = null; avg_latency_ms = null };
  scores = ("good", record { mean = null; n = 1 }) ∷ [];
}

abbrev compared : ℕ → Result RequestError Comparison
compared k = ok (record { dataset = "d"; runs = ("r", entry) ∷ []; deltas = []; items = [] })

-- A round takes two units.
abbrev clock : ℕ → ℕ
clock k = 100 + k * 2

wait_for_scores-Ends_example :
    (r : Result RequestError ℕ) × (wait_for_scores listed compared "r" clock 1 100 10 6 ≡ some r)
    × Ends listed compared "r" clock 1 110 r
wait_for_scores-Ends_example =
    wait_for_scores-Ends listed compared "r" clock 1 100 10 2 5 (omega arith) (λ k. omega arith)
      (omega arith)

-- A client with nothing to send, and a function that returns at once.
abbrev fresh : Session
fresh = record session { client = record client { queue = [] } }

abbrev quiet : Session → Result String Value × Session
quiet s = (ok (str "done"), s)

-- A tool inside an agent.
abbrev tool : Session → Result String Value × Session
tool = observe py uuid "now" "search" "tool" (str "question") true quiet

observe-IsSound_example :
    IsSound (observe py uuid "now" "agent" "agent" (str "question") true tool fresh).1
observe-IsSound_example =
    observe-IsSound py uuid "now" (λ n. refl) "agent" "agent" (str "question") true tool fresh
      (λ t h.
        observe-IsSound py uuid "now" (λ n. refl) "search" "tool" (str "question") true quiet t
          (λ u k. k) h)
      (refl, refl)
