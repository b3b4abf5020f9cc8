-- ===== src/Worker/Stream.antt =====
-- The stream plumbing of the worker: batches, retries, dead letters and announcements.
-- The calls of Redis made here succeed, but for the announcement; one that raised would leave the
-- messages pending, to be claimed again. What `xreadgroup` and `xautoclaim` give is an argument.
pub mod Accounting
pub mod Retries
pub mod Ledger
use open_weave.Prelude.{
  ℕ, zero, suc, ◌+◌, ◌%◌, String, Bool, true, false, not, ◌&&◌, Option, none, some, List, [], ◌∷◌,
  ◌++◌, map, ◌==◌, leb, nat_eq, take, length, if◌then◌else◌, text_key, RowKey, row_key,
}
use open_weave.Prelude.Dict.{Dict, get, put, remove}
use open_weave.Prelude.Result.{Result, ok, err, ◌>>=◌}
use open_weave.Python.{
  Value, null, str, obj, Fields, end, field, fields, cell, Error, key_error, value_error, Python,
}
use open_weave.Worker.Apply.{Db, Touched}

-- A message of the stream: its id, and the field `data` where it has one.
pub record Message : Type 0 where
  pub id : String
  pub data_field : Option String

-- A row of `ingestion_dead_letters`; the payload is a JSON value.
pub record DeadLetter : Type 0 where
  pub stream_message_id : String
  pub project_id : Value
  pub event_id : Value
  pub payload : Value
  pub error : Error
  pub retry_count : ℕ

-- What the worker changes: the tables, the retry counts, the ids acknowledged so far, the dead
-- letters, and the announcements on the stream of the evaluations.
pub record Worker : Type 0 where
  pub db : Db
  pub retries : Dict String ℕ
  pub acked : List String
  pub dead_letters : List DeadLetter
  pub announced : List RowKey

-- `payload.get(k)`
abbrev pub letter_field : Value → String → Value
letter_field (obj fs) k = cell k (fields fs)
letter_field _ k = null

abbrev pub is_object : Value → Bool
is_object (obj fs) = true
is_object _ = false

-- `text[:n]`
unfoldable pub take_text : ℕ → String → String
take_text zero s = ""
take_text (suc n) String.[] = ""
take_text (suc n) (String.◌∷◌ c s) = String.◌∷◌ c (take_text n s)

-- `xack` and `hdel` of one message.
unfoldable pub acknowledge : String → Worker → Worker
acknowledge id w = record w { acked = w.acked ++ id ∷ []; retries = remove id w.retries }

unfoldable pub acknowledge_all : List String → Worker → Worker
acknowledge_all [] w = w
acknowledge_all (id ∷ ids) w = acknowledge_all ids (acknowledge id w)

-- A count that is not stored counts from 0, as for `hincrby`.
abbrev pub count_of : Option ℕ → ℕ
count_of none = 0
count_of (some n) = n

-- The surroundings of a batch: the transaction of `apply_events`, what the dead letter table
-- accepts, the settings, and the number of announcements that take effect if the pipeline fails.
pub record Surroundings : Type 0 where
  pub apply : List Value → Db → Result Error (Db × Touched)
  pub accepts_letter : DeadLetter → Bool
  pub max_retries : ℕ
  pub eval_enqueue : Bool
  pub announce_fails_after : Option ℕ

module _ (py : Python) (env : Surroundings) where
  -- The payload of a dead letter: `json.loads(raw.get("data", "{}"))`, or the text that is no JSON.
  unfoldable pub letter_payload : Option String → Value
  letter_payload none = obj end
  letter_payload (some s) = elim (py.loads s) [
    | none ↦ obj (field "unparseable" (str (take_text 4000 s)) end)
    | some v ↦ v
  ]

  unfoldable pub letter_of : Message → Error → DeadLetter
  letter_of m error =
      let payload = letter_payload m.data_field in
      record {
        stream_message_id = m.id;
        project_id = letter_field payload "project_id";
        event_id = letter_field payload "event_id";
        payload = payload;
        error = error;
        retry_count = env.max_retries;
      }

  -- `dead_letter`: acknowledged even if the letter cannot be written.
  unfoldable pub dead_letter : Message → Error → Worker → Worker
  dead_letter m error w =
      let letter = letter_of m error in
      acknowledge m.id (
        if is_object letter.payload && env.accepts_letter letter
        then record w { dead_letters = w.dead_letters ++ letter ∷ [] }
        else w)

  -- `announce_for_eval`: a failure is logged and dropped.
  unfoldable pub announce_for_eval : List RowKey → Worker → Worker
  announce_for_eval traces w =
      if env.eval_enqueue
      then elim env.announce_fails_after [
        | none ↦ record w { announced = w.announced ++ traces }
        | some n ↦ record w { announced = w.announced ++ take n traces }
      ]
      else w

  -- The first loop of `handle_batch`: what parses, and the rest with its error.
  unfoldable pub parse_message : Message → Result Error Value
  parse_message m = elim m.data_field [
    | none ↦ err (key_error "data")
    | some s ↦ elim (py.loads s) [ none ↦ err value_error | some v ↦ ok v ]
  ]

  unfoldable pub parsed_of : List Message → List (String × Value)
  parsed_of [] = []
  parsed_of (m ∷ messages) =
      let rest = parsed_of messages in
      elim (parse_message m) [ err e ↦ rest | ok v ↦ (m.id, v) ∷ rest ]

  unfoldable pub unparseable_of : List Message → List (Message × Error)
  unparseable_of [] = []
  unparseable_of (m ∷ messages) =
      let rest = unparseable_of messages in
      elim (parse_message m) [ err e ↦ (m, e) ∷ rest | ok v ↦ rest ]

  unfoldable pub dead_letter_all : List (Message × Error) → Worker → Worker
  dead_letter_all [] w = w
  dead_letter_all ((m, e) ∷ rest) w = dead_letter_all rest (dead_letter m e w)

  -- A message whose own transaction failed: counted, and dead-lettered at the last retry.
  unfoldable pub fail_one : String → Value → Error → Worker → Worker
  fail_one id event inner w =
      let count = count_of (get id w.retries) + 1 in
      let counted : Worker = record w { retries = put id count w.retries } in
      if leb env.max_retries count
      then dead_letter (record { id = id; data_field = some (py.dumps event) }) inner counted
      else counted

  -- One message by itself.
  unfoldable pub retry_one : String × Value → Worker → Worker
  retry_one (id, event) w = elim (env.apply (event ∷ []) w.db) [
    | err inner ↦ fail_one id event inner w
    | ok (db, touched) ↦ announce_for_eval touched.traces (acknowledge id (record w { db = db }))
  ]

  unfoldable pub retry_each : List (String × Value) → Worker → Worker
  retry_each [] w = w
  retry_each (m ∷ parsed) w = retry_each parsed (retry_one m w)

  -- The batch as one transaction; on failure, each message by itself.
  unfoldable pub commit_batch : List (String × Value) → Worker → Worker
  commit_batch [] w = w
  commit_batch (m ∷ parsed) w =
      let batch = m ∷ parsed in
      elim (env.apply (map (λ e. e.1) batch) w.db) [
        | err e ↦ retry_each batch w
        | ok (db, touched) ↦
            announce_for_eval touched.traces
              (acknowledge_all (map (λ e. e.0) batch) (record w { db = db }))
      ]

  unfoldable pub handle_batch : List Message → Worker → Worker
  handle_batch messages w =
      commit_batch (parsed_of messages) (dead_letter_all (unparseable_of messages) w)

  -- `reclaim_stranded` on what `xautoclaim` gave, `none` where it is not available.
  unfoldable pub reclaim_stranded : Option (List Message) → Worker → Worker × ℕ
  reclaim_stranded none w = (w, 0)
  reclaim_stranded (some messages) w = (handle_batch messages w, length messages)

  unfoldable pub handle_all : List (List Message) → Worker → Worker
  handle_all [] w = w
  handle_all (messages ∷ response) w = handle_all response (handle_batch messages w)

  -- One round of the loop of `run`: every n-th round first adopts what a dead worker left.
  unfoldable pub run_round :
      ℕ → ℕ → Option (List Message) → List (List Message) → Worker → Worker × ℕ
  run_round every loops claimed response w =
      let loops' = loops + 1 in
      let w' = if nat_eq (loops' % every) 0 then (reclaim_stranded claimed w).0 else w in
      (handle_all response w', loops')
