-- ===== src/Worker/Stream/Ledger.antt =====
-- What each step on one message does to the accounts of all.
pub mod Batch
pub mod Fates
pub mod Settled
use open_weave.Prelude.{
  ℕ, zero, suc, ◌+◌, String, ◌≡◌, refl, Bool, true, false, ◌||◌, Option, none, some, List, [], ◌∷◌,
  ◌++◌, map, arith, ◌==◌, leb, if◌then◌else◌, text_key, RowKey, ap, sym, ◌∙◌, contains,
  contains-append, Bool-cases, inl, inr, All,
}
use open_weave.Prelude.Dict.{get, put, has, remove, get-put, get-put_self, get-remove}
use open_weave.Prelude.Result.{Result, ok, err}
use open_weave.Python.{Value, Error, Python}
use open_weave.Worker.Stream.{
  Message, Worker, Surroundings, DeadLetter, acknowledge, acknowledge_all, count_of, dead_letter,
  announce_for_eval, parse_message, parsed_of, unparseable_of, dead_letter_all, fail_one, retry_one,
  retry_each, commit_batch, handle_batch,
}
use open_weave.Worker.Apply.{Db, Touched}

-- The message is acknowledged, or its failures are counted: then it is still pending.
abbrev pub is_accounted : String → Worker → Bool
is_accounted id w = contains id w.acked || has id w.retries

pub acknowledge_keeps :
    (id j : String) (w : Worker)
    → is_accounted id w ≡ true
    → is_accounted id (acknowledge j w) ≡ true
unfolding acknowledge
acknowledge_keeps id j w h =
    ground (arith, h, contains-append id w.acked (j ∷ []), get-remove j id w.retries)

pub acknowledge_accounts : (id : String) (w : Worker) → is_accounted id (acknowledge id w) ≡ true
unfolding acknowledge
acknowledge_accounts id w =
    ground (arith, contains-append id w.acked (id ∷ []), (text_key.same_iff id id).1 refl)

module _ (py : Python) (env : Surroundings) where
  pub dead_letter_keeps :
      (id : String) (m : Message) (e : Error) (w : Worker)
      → is_accounted id w ≡ true
      → is_accounted id (dead_letter py env m e w) ≡ true
  unfolding dead_letter
  dead_letter_keeps id m e w h = acknowledge_keeps id m.id _ (ground (arith, h))

  pub dead_letter_accounts :
      (m : Message) (e : Error) (w : Worker) → is_accounted m.id (dead_letter py env m e w) ≡ true
  unfolding dead_letter
  dead_letter_accounts m e w = acknowledge_accounts m.id _

  pub announce_keeps :
      (id : String) (traces : List RowKey) (w : Worker)
      → is_accounted id (announce_for_eval py env traces w) ≡ is_accounted id w
  unfolding announce_for_eval
  announce_keeps id traces w = ground arith

  counted_keeps :
      (id j : String) (n : ℕ) (w : Worker)
      → is_accounted id w ≡ true
      → is_accounted id (record w { retries = put j n w.retries }) ≡ true
  counted_keeps id j n w h = ground (arith, h, get-put j id n w.retries)

  counted_accounts :
      (id : String) (n : ℕ) (w : Worker)
      → is_accounted id (record w { retries = put id n w.retries }) ≡ true
  counted_accounts id n w = ground (arith, get-put_self id n w.retries)

  fail_one_keeps :
      (id j : String) (event : Value) (inner : Error) (w : Worker)
      → is_accounted id w ≡ true
      → is_accounted id (fail_one py env j event inner w) ≡ true
  unfolding fail_one
  fail_one_keeps id j event inner w h =
      let n = count_of (get j w.retries) + 1 in
      let v : Worker = record w { retries = put j n w.retries } in
      let rebuilt : Message = record { id = j; data_field = some (py.dumps event) } in
      let kept = counted_keeps id j n w h in
      elim (leb env.max_retries n)
        as (λ b. is_accounted id (if b then dead_letter py env rebuilt inner v else v) ≡ true) [
          | true ↦ dead_letter_keeps id rebuilt inner v kept
          | false ↦ kept
        ]

  fail_one_accounts :
      (id : String) (event : Value) (inner : Error) (w : Worker)
      → is_accounted id (fail_one py env id event inner w) ≡ true
  unfolding fail_one
  fail_one_accounts id event inner w =
      let n = count_of (get id w.retries) + 1 in
      let v : Worker = record w { retries = put id n w.retries } in
      let rebuilt : Message = record { id = id; data_field = some (py.dumps event) } in
      elim (leb env.max_retries n)
        as (λ b. is_accounted id (if b then dead_letter py env rebuilt inner v else v) ≡ true) [
          | true ↦ dead_letter_accounts rebuilt inner v
          | false ↦ counted_accounts id n w
        ]

  -- Each step accounts for its own message and forgets no other.
  retry_one_keeps :
      (id : String) (m : String × Value) (w : Worker)
      → is_accounted id w ≡ true
      → is_accounted id (retry_one py env m w) ≡ true
  unfolding retry_one
  retry_one_keeps id (j, event) w h =
      elim (env.apply (event ∷ []) w.db)
        as (λ o.
          is_accounted id (elim o [
            | err inner ↦ fail_one py env j event inner w
            | ok (db, touched) ↦
                announce_for_eval py env touched.traces (acknowledge j (record w { db = db }))
          ])
          ≡ true) [
            | err inner ↦ fail_one_keeps id j event inner w h
            | ok (db, touched) ↦
                announce_keeps id touched.traces _ ∙ acknowledge_keeps id j (record w { db = db }) h
          ]

  retry_one_accounts :
      (m : String × Value) (w : Worker) → is_accounted m.0 (retry_one py env m w) ≡ true
  unfolding retry_one
  retry_one_accounts (j, event) w =
      elim (env.apply (event ∷ []) w.db)
        as (λ o.
          is_accounted j (elim o [
            | err inner ↦ fail_one py env j event inner w
            | ok (db, touched) ↦
                announce_for_eval py env touched.traces (acknowledge j (record w { db = db }))
          ])
          ≡ true) [
            | err inner ↦ fail_one_accounts j event inner w
            | ok (db, touched) ↦
                announce_keeps j touched.traces _ ∙ acknowledge_accounts j (record w { db = db })
          ]

  pub retry_each_keeps :
      (id : String) (parsed : List (String × Value)) (w : Worker)
      → is_accounted id w ≡ true
      → is_accounted id (retry_each py env parsed w) ≡ true
  unfolding retry_each
  retry_each_keeps id [] w h = h
  retry_each_keeps id (m ∷ parsed) w h =
      retry_each_keeps id parsed (retry_one py env m w) (retry_one_keeps id m w h)

  pub retry_each_accounts :
      (parsed : List (String × Value)) (w : Worker)
      → All (λ m. is_accounted m.0 (retry_each py env parsed w) ≡ true) parsed
  unfolding retry_each
  retry_each_accounts [] w = tt
  retry_each_accounts (m ∷ parsed) w = (
    retry_each_keeps m.0 parsed (retry_one py env m w) (retry_one_accounts m w),
    retry_each_accounts parsed (retry_one py env m w),
  )
