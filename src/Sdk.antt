-- ===== src/Sdk.antt =====
-- agent-observability/sdk/openweave.py: the client's bounded queue and its transport.
-- One thread acts at a time: each call below is one step of the client.
pub mod Delivery
pub mod Spans
pub mod Bodies
pub mod Experiment
pub mod Comparing
pub mod Waiting
use open_weave.Prelude.{
  ℕ, zero, suc, ◌+◌, Bool, true, false, not, ◌||◌, nat_eq, Option, none, some, List, [], ◌∷◌, ◌++◌,
  ltb, length, take, drop, if◌then◌else◌,
}
use open_weave.Ingest.{Event}

-- What a client holds; `calls` are the batches that it has sent, in order.
pub record Client : Type 0 where
  pub enabled : Bool
  pub max_queue : ℕ
  pub max_batch : ℕ
  pub queue : List Event
  pub dropped : ℕ
  pub sent : ℕ
  pub calls : List (List Event)

-- `_enqueue`: a full queue drops the event. A `queue.Queue` of size 0 is never full.
unfoldable pub enqueue : Event → Client → Client
enqueue event c =
    if not c.enabled
    then c
    else if nat_eq c.max_queue 0 || ltb (length c.queue) c.max_queue
    then record c { queue = c.queue ++ event ∷ [] }
    else record c { dropped = c.dropped + 1 }

unfoldable pub enqueue_all : List Event → Client → Client
enqueue_all [] c = c
enqueue_all (event ∷ events) c = enqueue_all events (enqueue event c)

-- `_drain`: at most `max_batch` events, the oldest first.
unfoldable pub drain : Client → List Event × Client
drain c = (take c.max_batch c.queue, record c { queue = drop c.max_batch c.queue })

-- `IngestBatch` of the server: how many events it accepted, `none` for an RpcError.
module _ (ingest_batch : List Event → Option ℕ) where
  -- `_send`: a failure is logged, and the batch is dropped.
  unfoldable pub send : List Event → Client → Client
  send [] c = c
  send (event ∷ batch) c = record c {
    sent = c.sent + elim (ingest_batch (event ∷ batch)) as (λ _. ℕ) [ none ↦ 0 | some n ↦ n ];
    calls = c.calls ++ (event ∷ batch) ∷ [];
  }

  -- One round of `_run`, or of `flush` with events in the queue.
  unfoldable pub send_round : Client → Client
  send_round c = let (batch, c') = drain c in send batch c'

  unfoldable pub flush_rounds : ℕ → Client → Client
  flush_rounds zero c = c
  flush_rounds (suc n) c = elim (drain c).0 [
    | [] ↦ (drain c).1
    | _ ∷ _ ↦ flush_rounds n (send_round c)
  ]

  -- `flush`, on the number of rounds that end before the deadline.
  unfoldable pub flush : ℕ → Client → Client
  flush rounds c = if not c.enabled then c else flush_rounds rounds c
