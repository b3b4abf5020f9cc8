-- ===== src/Worker/Stream/Retries.antt =====
-- How often a message that always fails is delivered.
use mathlib.Core.List.{append-nil}
use open_weave.Prelude.{
  ℕ, zero, suc, ◌+◌, String, ◌≡◌, refl, Bool, ◌&&◌, none, some, List, [], ◌∷◌, ◌++◌, arith,
  if◌then◌else◌, text_key, ap, Bool-cases, inl, inr, ◌∙◌, ◌≤◌, ◌<◌,
}
use open_weave.Prelude.Dict.{get, put, get-put_self, get-remove_self}
use open_weave.Prelude.Result.{err}
use open_weave.Python.{Value, Error, Python}
use open_weave.Worker.Stream.{
  Message, Worker, Surroundings, DeadLetter, is_object, acknowledge, count_of, dead_letter,
  fail_one, retry_one, retry_each, commit_batch, letter_of,
}

module _ (py : Python) (env : Surroundings) (id : String) (event : Value) (inner : Error) where
  -- The message that `retry_one` rebuilds for the dead letter.
  abbrev pub rebuilt : Message
  rebuilt = record { id = id; data_field = some (py.dumps event) }

  abbrev pub accepted : Bool
  accepted =
      let letter = letter_of py env rebuilt inner in
      is_object letter.payload && env.accepts_letter letter

  -- What the dead letter table gains at the last failure.
  abbrev pub buried : List DeadLetter
  buried = if accepted then letter_of py env rebuilt inner ∷ [] else []

  fail_one-pending :
      (w : Worker)
      → suc (count_of (get id w.retries)) < env.max_retries
      → (count_of (get id (fail_one py env id event inner w).retries)
          ≡ suc (count_of (get id w.retries)))
        × ((fail_one py env id event inner w).acked ≡ w.acked)
        × ((fail_one py env id event inner w).dead_letters ≡ w.dead_letters)
        × ((fail_one py env id event inner w).db ≡ w.db)
  unfolding fail_one
  fail_one-pending w h =
      ground (arith, h, get-put_self id (count_of (get id w.retries) + 1) w.retries)

  dead_letter_lem :
      (w : Worker)
      → (get id (dead_letter py env rebuilt inner w).retries ≡ none)
        × ((dead_letter py env rebuilt inner w).acked ≡ w.acked ++ id ∷ [])
        × ((dead_letter py env rebuilt inner w).dead_letters ≡ w.dead_letters ++ buried)
        × ((dead_letter py env rebuilt inner w).db ≡ w.db)
  unfolding dead_letter acknowledge
  dead_letter_lem w =
      let dropped = get-remove_self id w.retries in
      elim (Bool-cases accepted) [
        | inl e ↦ ground (arith, e, dropped)
        | inr e ↦ ground (arith, e, dropped, append-nil w.dead_letters)
      ]

  fail_one-last :
      (w : Worker)
      → env.max_retries ≤ suc (count_of (get id w.retries))
      → (get id (fail_one py env id event inner w).retries ≡ none)
        × ((fail_one py env id event inner w).acked ≡ w.acked ++ id ∷ [])
        × ((fail_one py env id event inner w).dead_letters ≡ w.dead_letters ++ buried)
        × ((fail_one py env id event inner w).db ≡ w.db)
  unfolding fail_one
  fail_one-last w h =
      let count = count_of (get id w.retries) + 1 in
      let counted : Worker = record w { retries = put id count w.retries } in
      let step : fail_one py env id event inner w ≡ dead_letter py env rebuilt inner counted =
        ground (arith, h) in
      let (a, b, c, d) = dead_letter_lem counted in
      (
        ap (λ v. get id v.retries) step ∙ a,
        ap (λ v. v.acked) step ∙ b,
        ap (λ v. v.dead_letters) step ∙ c,
        ap (λ v. v.db) step ∙ d,
      )

  -- The message delivered `n` times, each time as a batch of its own.
  abbrev pub deliver : ℕ → Worker → Worker
  deliver zero w = w
  deliver (suc n) w = commit_batch py env ((id, event) ∷ []) (deliver n w)

  commit_batch-fails :
      (w : Worker)
      → env.apply (event ∷ []) w.db ≡ err inner
      → commit_batch py env ((id, event) ∷ []) w ≡ fail_one py env id event inner w
  unfolding commit_batch retry_each retry_one
  commit_batch-fails w h = ground (arith, h)

  -- A message with no failure counted, whose transaction fails on the tables as they are, is kept
  -- until its retries are used up: delivered fewer times than the limit, it has only been counted.
  -- Nothing is acknowledged, no dead letter is written, and the tables are as they were.
  pub deliver-pending :
      (n : ℕ) (w : Worker)
      → env.apply (event ∷ []) w.db ≡ err inner
      → get id w.retries ≡ none
      → n < env.max_retries
      → (count_of (get id (deliver n w).retries) ≡ n)
        × ((deliver n w).acked ≡ w.acked)
        × ((deliver n w).dead_letters ≡ w.dead_letters)
        × ((deliver n w).db ≡ w.db)
  deliver-pending zero w fails fresh h = (ap count_of fresh, refl, refl, refl)
  deliver-pending (suc n) w fails fresh h =
      let (a, b, c, d) = deliver-pending n w fails fresh (omega (arith, h)) in
      let v = deliver n w in
      let step = commit_batch-fails v (ap (env.apply (event ∷ [])) d ∙ fails) in
      let (a', b', c', d') = fail_one-pending v (omega (arith, a, h)) in
      (
        ap (λ x. count_of (get id x.retries)) step ∙ a' ∙ ap suc a,
        ap (λ x. x.acked) step ∙ b' ∙ b,
        ap (λ x. x.dead_letters) step ∙ c' ∙ c,
        ap (λ x. x.db) step ∙ d' ∙ d,
      )

  -- A message with no failure counted, whose transaction fails on the tables as they are, leaves
  -- the stream at the delivery that uses up its retries: then it is acknowledged once, its count is
  -- dropped, and its dead letter is written unless the table refuses it; the tables are as they were.
  pub deliver-last :
      (n : ℕ) (w : Worker)
      → env.apply (event ∷ []) w.db ≡ err inner
      → get id w.retries ≡ none
      → env.max_retries ≡ suc n
      → (get id (deliver (suc n) w).retries ≡ none)
        × ((deliver (suc n) w).acked ≡ w.acked ++ id ∷ [])
        × ((deliver (suc n) w).dead_letters ≡ w.dead_letters ++ buried)
        × ((deliver (suc n) w).db ≡ w.db)
  deliver-last n w fails fresh h =
      let (a, b, c, d) = deliver-pending n w fails fresh (omega (arith, h)) in
      let v = deliver n w in
      let step = commit_batch-fails v (ap (env.apply (event ∷ [])) d ∙ fails) in
      let (a', b', c', d') = fail_one-last v (omega (arith, a, h)) in
      (
        ap (λ x. get id x.retries) step ∙ a',
        ap (λ x. x.acked) step ∙ b' ∙ ap (λ ids. ids ++ id ∷ []) b,
        ap (λ x. x.dead_letters) step ∙ c' ∙ ap (λ l. l ++ buried) c,
        ap (λ x. x.db) step ∙ d' ∙ d,
      )
