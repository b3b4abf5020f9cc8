-- ===== src/Sdk/Delivery.antt =====
-- What becomes of the events in the queue.
use mathlib.Core.List.{append-nil, append_assoc}
use open_weave.Prelude.{
  ℕ, zero, suc, ◌+◌, ◌≤◌, ◌<◌, ◌≡◌, refl, true, Option, List, [], ◌∷◌, ◌++◌, arith, length, take,
  drop, ap, ap₂, sym, ◌∙◌, length-append,
}
use open_weave.Ingest.{Event}
use open_weave.Sdk.{Client, enqueue, enqueue_all, drain, send, send_round, flush_rounds, flush}

enqueue_one :
    (event : Event) (c : Client)
    → c.enabled ≡ true
    → 0 < c.max_queue
    → length c.queue ≤ c.max_queue
    → let c' = enqueue event c in
      (c'.enabled ≡ true)
      × (c'.max_queue ≡ c.max_queue)
      × (length c'.queue ≤ c.max_queue)
      × (length c'.queue + c'.dropped ≡ suc (length c.queue + c.dropped))
unfolding enqueue
enqueue_one event c on some_room fits =
    ground (arith, on, some_room, fits, length-append c.queue (event ∷ []))

-- Whatever is put in, the queue of a client that is enabled and has a bound never holds more than
-- the bound, and every event is in the queue or counted as dropped.
pub enqueue_all-bounded :
    (events : List Event) (c : Client)
    → c.enabled ≡ true
    → 0 < c.max_queue
    → length c.queue ≤ c.max_queue
    → let c' = enqueue_all events c in
      (length c'.queue ≤ c.max_queue)
      × (length c'.queue + c'.dropped ≡ length c.queue + c.dropped + length events)
unfolding enqueue_all
enqueue_all-bounded [] c on some_room fits = (fits, omega arith)
enqueue_all-bounded (event ∷ events) c on some_room fits =
    let (still_on, same_max, still_fits, counted) = enqueue_one event c on some_room fits in
    let (bounded, total) =
      enqueue_all-bounded events (enqueue event c) still_on (omega (arith, same_max, some_room))
        (omega (arith, same_max, still_fits)) in
    (omega (arith, bounded, same_max), omega (arith, total, counted))

-- The events of a list of batches, in order.
abbrev pub flatten : List (List Event) → List Event
flatten [] = []
flatten (b ∷ batches) = b ++ flatten batches

flatten-append :
    (bs : List (List Event)) (b : List Event) → flatten (bs ++ b ∷ []) ≡ flatten bs ++ b
flatten-append [] b = append-nil b
flatten-append (x ∷ bs) b =
    ap (λ l. x ++ l) (flatten-append bs b) ∙ sym (append_assoc x (flatten bs) b)

append-take : (n : ℕ) (xs : List Event) → take n xs ++ drop n xs ≡ xs
append-take zero xs = refl
append-take (suc n) [] = refl
append-take (suc n) (x ∷ xs) = ap (λ l. x ∷ l) (append-take n xs)

length-drop : (n : ℕ) (xs : List Event) → length (drop n xs) ≤ length xs
length-drop zero xs = omega arith
length-drop (suc n) [] = omega arith
length-drop (suc n) (x ∷ xs) = omega (arith, length-drop n xs)

module _ (ingest_batch : List Event → Option ℕ) where
  -- What one round with an event in the queue does.
  round_sends :
      (b : ℕ) (x : Event) (xs : List Event) (c : Client)
      → c.max_batch ≡ suc b
      → c.queue ≡ x ∷ xs
      → let c' = send_round ingest_batch c in
        (c'.queue ≡ drop b xs)
        × (c'.calls ≡ c.calls ++ (x ∷ take b xs) ∷ [])
        × (c'.max_batch ≡ suc b)
  unfolding send_round drain send
  round_sends b x xs c size queue =
      let step : send_round ingest_batch c
          ≡ send ingest_batch (x ∷ take b xs) (record c { queue = drop b xs }) =
        ap₂ (λ t q. send ingest_batch t (record c { queue = q })) (ap₂ take size queue)
          (ap₂ drop size queue) in
      (
        ap (λ (d : Client). d.queue) step,
        ap (λ (d : Client). d.calls) step,
        ap (λ (d : Client). d.max_batch) step ∙ size,
      )

  -- The batches of one round and the rest of the queue are the queue.
  round_flattens :
      (b : ℕ) (x : Event) (xs : List Event) (calls : List (List Event))
      → flatten (calls ++ (x ∷ take b xs) ∷ []) ++ drop b xs ≡ flatten calls ++ (x ∷ xs)
  round_flattens b x xs calls =
      ap (λ l. l ++ drop b xs) (flatten-append calls (x ∷ take b xs))
      ∙ append_assoc (flatten calls) (x ∷ take b xs) (drop b xs)
      ∙ ap (λ l. flatten calls ++ (x ∷ l)) (append-take b xs)

  flush_rounds-empty :
      (n b : ℕ) (c : Client)
      → c.max_batch ≡ suc b
      → c.queue ≡ []
      → (flush_rounds ingest_batch (suc n) c).queue ≡ []
        × (flatten (flush_rounds ingest_batch (suc n) c).calls ≡ flatten c.calls ++ c.queue)
  unfolding flush_rounds drain
  flush_rounds-empty n b c size e =
      let emptied : Client = record c { queue = drop c.max_batch c.queue } in
      let step : flush_rounds ingest_batch (suc n) c ≡ emptied =
        ap
          (λ t. elim t as (λ _. Client) [
            | [] ↦ emptied
            | _ ∷ _ ↦ flush_rounds ingest_batch n (send_round ingest_batch c)
          ])
          (ap₂ take size e) in
      (
        ap (λ (d : Client). d.queue) step ∙ ap₂ drop size e,
        ap (λ (d : Client). flatten d.calls) step
            ∙ sym (ap (λ l. flatten c.calls ++ l) e ∙ append-nil (flatten c.calls)),
      )

  flush_rounds-step :
      (n b : ℕ) (x : Event) (xs : List Event) (c : Client)
      → c.max_batch ≡ suc b
      → c.queue ≡ x ∷ xs
      → flush_rounds ingest_batch (suc n) c
        ≡ flush_rounds ingest_batch n (send_round ingest_batch c)
  unfolding flush_rounds drain
  flush_rounds-step n b x xs c size e =
      ap
        (λ t. elim t as (λ _. Client) [
          | [] ↦ record c { queue = drop c.max_batch c.queue }
          | _ ∷ _ ↦ flush_rounds ingest_batch n (send_round ingest_batch c)
        ])
        (ap₂ take size e)

  flush_rounds-delivers :
      (rounds b : ℕ) (c : Client) (q : List Event)
      → c.queue ≡ q
      → c.max_batch ≡ suc b
      → length q ≤ rounds
      → let c' = flush_rounds ingest_batch rounds c in
        (c'.queue ≡ []) × (flatten c'.calls ≡ flatten c.calls ++ c.queue)
  flush_rounds-delivers zero b c [] e size enough =
      unfold flush_rounds in
      (e, sym (ap (λ l. flatten c.calls ++ l) e ∙ append-nil (flatten c.calls)))
  flush_rounds-delivers zero b c (x ∷ xs) e size enough = elim (none_left enough) [ ]
    where
      none_left : suc (length xs) ≤ 0 → ⊥
      none_left h = omega (arith, h)
  flush_rounds-delivers (suc n) b c [] e size enough = flush_rounds-empty n b c size e
  flush_rounds-delivers (suc n) b c (x ∷ xs) e size enough =
      let step = flush_rounds-step n b x xs c size e in
      let (queue, calls, size') = round_sends b x xs c size e in
      let (emptied, delivered) =
        flush_rounds-delivers n b (send_round ingest_batch c) (drop b xs) queue size'
          (omega (arith, enough, length-drop b xs)) in
      (
        ap (λ (d : Client). d.queue) step ∙ emptied,
        ap (λ (d : Client). flatten d.calls) step
            ∙ delivered
            ∙ ap₂ (λ k q. flatten k ++ q) calls queue
            ∙ round_flattens b x xs c.calls
            ∙ ap (λ q. flatten c.calls ++ q) (sym e),
      )

  -- A flush with at least as many rounds before its deadline as there are events in the queue, of
  -- a client that is enabled and sends batches of at least one event, empties the queue, and sends
  -- every event of it to the server, once and in order, whatever the server answers.
  pub flush-delivers :
      (rounds b : ℕ) (c : Client)
      → c.enabled ≡ true
      → c.max_batch ≡ suc b
      → length c.queue ≤ rounds
      → let c' = flush ingest_batch rounds c in
        (c'.queue ≡ []) × (flatten c'.calls ≡ flatten c.calls ++ c.queue)
  unfolding flush
  flush-delivers rounds b c on size enough =
      let step : flush ingest_batch rounds c ≡ flush_rounds ingest_batch rounds c =
        ground (arith, on) in
      let (emptied, delivered) = flush_rounds-delivers rounds b c c.queue refl size enough in
      (
        ap (λ (d : Client). d.queue) step ∙ emptied,
        ap (λ (d : Client). flatten d.calls) step ∙ delivered,
      )
