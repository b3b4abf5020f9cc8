-- ===== src/Worker/Stream/Accounting.antt =====
-- What becomes of every message that a batch was given.
use mathlib.Core.List.{append-nil, append_assoc}
use open_weave.Prelude.{
  String, ◌≡◌, refl, List, [], ◌∷◌, ◌++◌, map, arith, text_key, ap, sym, ◌∙◌, RowKey,
}
use open_weave.Prelude.Result.{ok, err}
use open_weave.Python.{Value, Error, Python}
use open_weave.Worker.Stream.{
  Worker, Surroundings, acknowledge, acknowledge_all, dead_letter, announce_for_eval, fail_one,
  retry_one, retry_each, commit_batch,
}
use open_weave.Worker.Apply.{Db, Touched}

acknowledge_all-acked :
    (ids : List String) (w : Worker) → (acknowledge_all ids w).acked ≡ w.acked ++ ids
unfolding acknowledge_all acknowledge
acknowledge_all-acked [] w = sym (append-nil w.acked)
acknowledge_all-acked (id ∷ ids) w =
    acknowledge_all-acked ids (acknowledge id w) ∙ append_assoc w.acked (id ∷ []) ids

acknowledge_all-db : (ids : List String) (w : Worker) → (acknowledge_all ids w).db ≡ w.db
unfolding acknowledge_all acknowledge
acknowledge_all-db [] w = refl
acknowledge_all-db (id ∷ ids) w = acknowledge_all-db ids (acknowledge id w)

module _ (py : Python) (env : Surroundings) where
  announce-same :
      (traces : List RowKey) (w : Worker)
      → ((announce_for_eval py env traces w).acked ≡ w.acked)
        × ((announce_for_eval py env traces w).db ≡ w.db)
  unfolding announce_for_eval
  announce-same traces w = ground arith

  -- A batch whose one transaction succeeds is acknowledged as a whole: the tables are those of
  -- that transaction, and the parsed messages, and no others, are acknowledged by it in order.
  pub commit_batch-ok :
      (m : String × Value) (parsed : List (String × Value)) (w : Worker) (db : Db)
      (touched : Touched)
      → env.apply (map (λ e. e.1) (m ∷ parsed)) w.db ≡ ok (db, touched)
      → ((commit_batch py env (m ∷ parsed) w).acked ≡ w.acked ++ map (λ e. e.0) (m ∷ parsed))
        × ((commit_batch py env (m ∷ parsed) w).db ≡ db)
  unfolding commit_batch
  commit_batch-ok m parsed w db touched h =
      let w' : Worker = record w { db = db } in
      let ids = map (λ e. e.0) (m ∷ parsed) in
      let w'' = acknowledge_all ids w' in
      let announced = announce-same touched.traces w'' in
      let step : commit_batch py env (m ∷ parsed) w ≡ announce_for_eval py env touched.traces w'' =
        ground (arith, h) in
      (
        ap (λ v. v.acked) step ∙ announced.0 ∙ acknowledge_all-acked ids w',
        ap (λ v. v.db) step ∙ announced.1 ∙ acknowledge_all-db ids w',
      )

  -- What one event alone does to the tables: nothing where its transaction fails.
  abbrev pub alone_step : Value → Db → Db
  alone_step event db = elim (env.apply (event ∷ []) db) [ err _ ↦ db | ok (db', _) ↦ db' ]

  -- The tables after each event was tried by itself, in order.
  abbrev pub alone : List Value → Db → Db
  alone [] db = db
  alone (event ∷ events) db = alone events (alone_step event db)

  retry_one-db : (m : String × Value) (w : Worker) → (retry_one py env m w).db ≡ alone_step m.1 w.db
  unfolding retry_one fail_one dead_letter acknowledge announce_for_eval
  retry_one-db (id, event) w = ground arith

  retry_each-db :
      (parsed : List (String × Value)) (w : Worker)
      → (retry_each py env parsed w).db ≡ alone (map (λ e. e.1) parsed) w.db
  unfolding retry_each
  retry_each-db [] w = refl
  retry_each-db (m ∷ parsed) w =
      retry_each-db parsed (retry_one py env m w)
      ∙ ap (alone (map (λ e. e.1) parsed)) (retry_one-db m w)

  -- One bad event does not take the others with it: when the transaction of a batch fails, the
  -- tables are those that result when each of its events is applied by itself, in order, and
  -- those whose own transaction fails are passed over.
  pub commit_batch-err :
      (m : String × Value) (parsed : List (String × Value)) (w : Worker) (e : Error)
      → env.apply (map (λ e. e.1) (m ∷ parsed)) w.db ≡ err e
      → (commit_batch py env (m ∷ parsed) w).db ≡ alone (map (λ e. e.1) (m ∷ parsed)) w.db
  unfolding commit_batch
  commit_batch-err m parsed w e h =
      let step : commit_batch py env (m ∷ parsed) w ≡ retry_each py env (m ∷ parsed) w =
        ground (arith, h) in
      ap (λ v. v.db) step ∙ retry_each-db (m ∷ parsed) w
