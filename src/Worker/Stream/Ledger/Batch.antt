-- ===== src/Worker/Stream/Ledger/Batch.antt =====
-- No message that the worker was given is lost (`handle_batch`).
use open_weave.Prelude.{String, ◌≡◌, true, List, [], ◌∷◌, map, text_key, RowKey, ◌∙◌, All}
use open_weave.Prelude.Result.{Result, ok, err}
use open_weave.Python.{Value, Error, Python}
use open_weave.Worker.Stream.{
  Message, Worker, Surroundings, acknowledge, acknowledge_all, dead_letter, announce_for_eval,
  parse_message, parsed_of, unparseable_of, dead_letter_all, retry_each, commit_batch, handle_batch,
}
use open_weave.Worker.Stream.Ledger.{
  is_accounted, acknowledge_keeps, acknowledge_accounts, announce_keeps, dead_letter_keeps,
  dead_letter_accounts, retry_each_keeps, retry_each_accounts,
}

module _ (py : Python) (env : Surroundings) where
  acknowledge_all_keeps :
      (id : String) (ids : List String) (w : Worker)
      → is_accounted id w ≡ true
      → is_accounted id (acknowledge_all ids w) ≡ true
  unfolding acknowledge_all
  acknowledge_all_keeps id [] w h = h
  acknowledge_all_keeps id (j ∷ ids) w h =
      acknowledge_all_keeps id ids (acknowledge j w) (acknowledge_keeps id j w h)

  acknowledge_all_accounts :
      (parsed : List (String × Value)) (w : Worker)
      → All (λ m. is_accounted m.0 (acknowledge_all (map (λ e. e.0) parsed) w) ≡ true) parsed
  unfolding acknowledge_all
  acknowledge_all_accounts [] w = tt
  acknowledge_all_accounts (m ∷ parsed) w = (
    acknowledge_all_keeps m.0 (map (λ e. e.0) parsed) (acknowledge m.0 w)
        (acknowledge_accounts m.0 w),
    acknowledge_all_accounts parsed (acknowledge m.0 w),
  )

  commit_batch_keeps :
      (id : String) (parsed : List (String × Value)) (w : Worker)
      → is_accounted id w ≡ true
      → is_accounted id (commit_batch py env parsed w) ≡ true
  unfolding commit_batch
  commit_batch_keeps id [] w h = h
  commit_batch_keeps id (m ∷ parsed) w h =
      let batch = m ∷ parsed in
      elim (env.apply (map (λ e. e.1) batch) w.db)
        as (λ o.
          is_accounted id (elim o [
            | err e ↦ retry_each py env batch w
            | ok (db, touched) ↦
                announce_for_eval py env touched.traces
                  (acknowledge_all (map (λ e. e.0) batch) (record w { db = db }))
          ])
          ≡ true) [
            | err e ↦ retry_each_keeps py env id batch w h
            | ok (db, touched) ↦
                announce_keeps py env id touched.traces _
                ∙ acknowledge_all_keeps id (map (λ e. e.0) batch) (record w { db = db }) h
          ]

  commit_batch_accounts :
      (parsed : List (String × Value)) (w : Worker)
      → All (λ m. is_accounted m.0 (commit_batch py env parsed w) ≡ true) parsed
  unfolding commit_batch
  commit_batch_accounts [] w = tt
  commit_batch_accounts (m ∷ parsed) w =
      let batch = m ∷ parsed in
      elim (env.apply (map (λ e. e.1) batch) w.db)
        as (λ o.
          All
            (λ n.
              is_accounted n.0 (elim o [
                | err e ↦ retry_each py env batch w
                | ok (db, touched) ↦
                    announce_for_eval py env touched.traces
                      (acknowledge_all (map (λ e. e.0) batch) (record w { db = db }))
              ])
              ≡ true)
            batch) [
              | err e ↦ retry_each_accounts py env batch w
              | ok (db, touched) ↦
                  let v = acknowledge_all (map (λ e. e.0) batch) (record w { db = db }) in
                  announced batch touched.traces v
                    (acknowledge_all_accounts batch (record w { db = db }))
            ]
    where
      announced :
          (ms : List (String × Value)) (traces : List RowKey) (v : Worker)
          → All (λ n. is_accounted n.0 v ≡ true) ms
          → All (λ n. is_accounted n.0 (announce_for_eval py env traces v) ≡ true) ms
      announced [] traces v h = tt
      announced (n ∷ ms) traces v h =
          (announce_keeps py env n.0 traces v ∙ h.0, announced ms traces v h.1)

  dead_letter_all_keeps :
      (id : String) (bad : List (Message × Error)) (w : Worker)
      → is_accounted id w ≡ true
      → is_accounted id (dead_letter_all py env bad w) ≡ true
  unfolding dead_letter_all
  dead_letter_all_keeps id [] w h = h
  dead_letter_all_keeps id ((m, e) ∷ bad) w h =
      dead_letter_all_keeps id bad (dead_letter py env m e w) (dead_letter_keeps py env id m e w h)

  -- The unparseable messages stay accounted for through the rest of the batch.
  unparseable_accounted :
      (bad : List (Message × Error)) (w : Worker) (parsed : List (String × Value))
      → All
          (λ b.
            is_accounted b.0.id (commit_batch py env parsed (dead_letter_all py env bad w)) ≡ true)
          bad
  unfolding dead_letter_all
  unparseable_accounted [] w parsed = tt
  unparseable_accounted ((m, e) ∷ bad) w parsed =
      let v = dead_letter py env m e w in
      (
        commit_batch_keeps m.id parsed (dead_letter_all py env bad v)
            (dead_letter_all_keeps m.id bad v (dead_letter_accounts py env m e w)),
        unparseable_accounted bad v parsed,
      )

  -- Every message either parses or does not.
  pub All-messages :
      (P : String → Type 0) (messages : List Message)
      → All (λ m. P m.0) (parsed_of py env messages)
      → All (λ b. P b.0.id) (unparseable_of py env messages)
      → All (λ m. P m.id) messages
  unfolding parsed_of unparseable_of
  All-messages P [] good bad = tt
  All-messages P (m ∷ messages) good bad =
      split (parse_message py env m) (All-messages P messages) good bad
    where
      split :
          (o : Result Error Value)
          → (All (λ n. P n.0) (parsed_of py env messages)
              → All (λ b. P b.0.id) (unparseable_of py env messages)
              → All (λ n. P n.id) messages)
          → All
              (λ n. P n.0)
              (elim o as (λ _. List (String × Value)) [
                | err e ↦ parsed_of py env messages
                | ok v ↦ (m.id, v) ∷ parsed_of py env messages
              ])
          → All
              (λ b. P b.0.id)
              (elim o as (λ _. List (Message × Error)) [
                | err e ↦ (m, e) ∷ unparseable_of py env messages
                | ok v ↦ unparseable_of py env messages
              ])
          → P m.id × All (λ n. P n.id) messages
      split (err e) rest g b = (b.0, rest g b.1)
      split (ok v) rest g b = (g.0, rest g.1 b)

  -- After `handle_batch` each message is acknowledged or has its failures counted.
  pub handle_batch-accounted :
      (messages : List Message) (w : Worker)
      → All (λ m. is_accounted m.id (handle_batch py env messages w) ≡ true) messages
  unfolding handle_batch
  handle_batch-accounted messages w =
      let bad = unparseable_of py env messages in
      let parsed = parsed_of py env messages in
      All-messages (λ id. is_accounted id (handle_batch py env messages w) ≡ true) messages
        (commit_batch_accounts parsed (dead_letter_all py env bad w))
        (unparseable_accounted bad w parsed)
