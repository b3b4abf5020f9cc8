-- ===== src/Worker/Stream/Ledger/Settled.antt =====
-- No message that the worker was given is lost but for its dead letter (`handle_batch`).
use open_weave.Prelude.{String, ◌≡◌, List, map, text_key, All, In}
use open_weave.Prelude.Result.{Result, ok, err}
use open_weave.Python.{Value, Error, Python}
use open_weave.Worker.Apply.{Db, Touched}
use open_weave.Worker.Stream.{
  Message, Worker, Surroundings, acknowledge_all, announce_for_eval, parsed_of, retry_each,
}
use open_weave.Worker.Stream.Ledger.Fates.{Fate}

-- `Holds v db` is to say that the tables hold what the event `v` gives: a transaction that goes through
-- writes its events, and takes nothing back.
module _ (py : Python) (env : Surroundings) (Holds : Value → Db → Type 0)
    (writes : (batch : List Value) (db db' : Db) (touched : Touched)
      → env.apply batch db ≡ ok (db', touched)
      → All (λ v. Holds v db') batch)
    (keeps : (batch : List Value) (db db' : Db) (touched : Touched) (v : Value)
      → env.apply batch db ≡ ok (db', touched)
      → Holds v db
      → Holds v db')
    (messages : List Message) where
  abbrev parsed : List (String × Value)
  parsed = parsed_of py env messages

  abbrev HasFate : String → Worker → Type 0
  HasFate = Fate py env Holds writes keeps messages

  -- Messages that are all in the batch.
  abbrev AreParsed : List (String × Value) → Type 0
  AreParsed = All (λ m. In m parsed)

  -- A batch that is written: its messages are acknowledged.
  abbrev AreHeld : Db → List (String × Value) → Type 0
  AreHeld db = All (λ m. Holds m.1 db)

  abbrev after_batch : List (String × Value) → Worker → Result Error (Db × Touched) → Worker
  after_batch batch w (err e) = retry_each py env batch w
  after_batch batch w (ok (db, touched)) =
      announce_for_eval py env touched.traces
        (acknowledge_all (map (λ e. e.0) batch) (record w { db = db }))

  -- The messages that do not parse are messages of the batch.
  abbrev AreMessages : List (Message × Error) → Type 0
  AreMessages = All (λ b. In b.0 messages)
