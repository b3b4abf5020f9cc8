-- ===== src/Tests/Ingest.antt =====
-- The theorems on ingestion at concrete inputs.
use open_weave.Prelude.{
  ◌+◌, ◌-◌, String, ◌≡◌, none, some, List, [], ◌∷◌, ◌++◌, map, arith, length, drop, ap,
}
use open_weave.Prelude.Result.{ok}
use open_weave.Python.{Value, str, Row}
use open_weave.Auth.{AuthContext}
use open_weave.Ingest.{trace_create, score_create, Event, Server, response, ingest_batch}
use open_weave.Ingest.Batch.{
  KeepsUpTo, all_payloads, all_errors, Explains, ingest_batch-ok, ingest_batch-Explains,
}

-- A score with two anchors, and a trace.
abbrev anchors : Row
anchors =
    ("id", str "s1")
    ∷ ("name", str "good")
    ∷ ("trace_id", str "t1")
    ∷ ("dataset_run_item_id", str "i1")
    ∷ []

abbrev score : Event
score = record { event_id = "e1"; body = some (score_create, anchors); timestamp = none }

abbrev trace : Event
trace = record {
  event_id = "e2";
  body = some (trace_create, ("id", str "t1") ∷ []);
  timestamp = none;
}

abbrev dumps : Value → String
dumps v = "{}"

-- A stream that holds at most ten entries.
abbrev trim : List String → List String
trim l = drop (length l - 10) l

trim-KeepsUpTo : KeepsUpTo dumps trim 10
trim-KeepsUpTo l h =
    let none_over : length l - 10 ≡ 0 = omega (arith, h) in ap (λ n. drop n l) none_over

abbrev auth : AuthContext
auth = record { project_id = "p1"; api_key_id = "k1" }

abbrev server : Server
server = record { stream = "{}" ∷ []; touched = [] }

ingest_batch-ok_example :
    (ingest_batch dumps trim 500 none (ok auth) (score ∷ trace ∷ []) server ≡ (
      response (length (all_payloads "p1" (score ∷ trace ∷ []))) (all_errors (score ∷ trace ∷ [])),
      record {
        stream = server.stream ++ map dumps (all_payloads "p1" (score ∷ trace ∷ []));
        touched = "k1" ∷ [];
      },
    ))
    × (length (all_payloads "p1" (score ∷ trace ∷ [])) + length (all_errors (score ∷ trace ∷ []))
        ≡ 2)
ingest_batch-ok_example =
    ingest_batch-ok dumps trim 500 10 auth (score ∷ trace ∷ []) server trim-KeepsUpTo (omega arith)
      (omega arith)

ingest_batch-Explains_example :
    Explains dumps trim 500
      (some 1)
      (ok auth)
      (trace ∷ trace ∷ [])
      server
      (ingest_batch dumps trim 500 (some 1) (ok auth) (trace ∷ trace ∷ []) server)
ingest_batch-Explains_example =
    ingest_batch-Explains dumps trim 500 (some 1) (ok auth) (trace ∷ trace ∷ []) server
