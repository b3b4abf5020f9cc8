-- ===== src/Tests/Stream.antt =====
-- The theorems on the stream at concrete inputs.
use open_weave.Prelude.{
  ◌≡◌, refl, true, none, some, List, [], ◌∷◌, ◌++◌, text_key, row_key, String, any, if◌then◌else◌,
}
use open_weave.Prelude.Dict.{get, put, has}
use open_weave.Prelude.Result.{Result, ok, err}
use open_weave.Python.{Value, null, is_null, str, value_error, Error}
use open_weave.Worker.Apply.{Db, Touched}
use open_weave.Worker.Stream.{Message, Worker, Surroundings, commit_batch, handle_batch}
use open_weave.Worker.Stream.Accounting.{alone, commit_batch-err}
use open_weave.Worker.Stream.Retries.{deliver, buried, deliver-last}
use open_weave.Tests.Library.{py}

abbrev empty : Db
empty = record { traces = []; observations = []; scores = [] }

-- The tables after one event was written.
abbrev written : Db
written = record empty { scores = (("p1", "s1"), []) ∷ [] }

-- A batch with `null` in it fails.
abbrev apply : List Value → Db → Result Error (Db × Touched)
apply [] db = ok (db, record { observations = []; traces = [] })
apply (null ∷ events) db = err value_error
apply (v ∷ events) db = elim (apply events db) [
  | err e ↦ err e
  | ok _ ↦ ok (written, record { observations = []; traces = ("p1", "t1") ∷ [] })
]

abbrev env : Surroundings
env = record {
  apply = apply;
  accepts_letter = λ letter. true;
  max_retries = 3;
  eval_enqueue = true;
  announce_fails_after = none;
}

abbrev idle : Worker
idle = record { db = empty; retries = []; acked = []; dead_letters = []; announced = [] }

commit_batch-err_example :
    (commit_batch py env (("m1", str "a") ∷ ("m2", null) ∷ []) idle).db
    ≡ alone py env (str "a" ∷ null ∷ []) empty
commit_batch-err_example =
    commit_batch-err py env ("m1", str "a") (("m2", null) ∷ []) idle value_error refl

deliver-last_example :
    (get "m1" (deliver py env "m1" null value_error 3 idle).retries ≡ none)
    × ((deliver py env "m1" null value_error 3 idle).acked ≡ "m1" ∷ [])
    × ((deliver py env "m1" null value_error 3 idle).dead_letters
        ≡ [] ++ buried py env "m1" null value_error)
    × ((deliver py env "m1" null value_error 3 idle).db ≡ empty)
unfolding get
deliver-last_example = deliver-last py env "m1" null value_error 2 idle refl refl refl

abbrev messages : List Message
messages =
    record { id = "m1"; data_field = some "not json" }
    ∷ record { id = "m2"; data_field = none }
    ∷ []

-- A database that keeps each event as a score, by the event's text, and takes no `null`.
abbrev key_of : Value → String
key_of (str s) = s
key_of _ = ""

abbrev keep_all : List Value → Db → Db
keep_all [] db = db
keep_all (v ∷ batch) db = keep_all batch (record db { scores = put ("p1", key_of v) [] db.scores })

abbrev keeping : Surroundings
keeping = record env {
  apply = λ batch db.
      if any is_null batch
      then err value_error
      else ok (keep_all batch db, record { observations = []; traces = [] });
}

abbrev Kept : Value → Db → Type 0
Kept v db = has ("p1", key_of v) db.scores ≡ true

-- One message that is an event, one that is no JSON, and one with no data.
abbrev three : List Message
three = record { id = "m3"; data_field = some "an event" } ∷ messages

abbrev after : Worker
after = handle_batch py keeping three idle
