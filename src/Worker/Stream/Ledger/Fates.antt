-- ===== src/Worker/Stream/Ledger/Fates.antt =====
-- What becomes of each message of a batch (`handle_batch`): an acknowledged one is in the tables, or
-- its dead letter was written or refused.
use open_weave.Prelude.{
  ◌+◌, String, ◌≡◌, refl, ◌⊎◌, Bool, true, false, ◌&&◌, none, some, List, [], ◌∷◌, ◌++◌, arith,
  ◌==◌, leb, if◌then◌else◌, text_key, RowKey, take, sym, subst, any, any-append, same_self,
  Bool-cases, inl, inr, All, In,
}
use open_weave.Prelude.Dict.{get, put, has, get-put, get-put_self, get-remove}
use open_weave.Prelude.Result.{Result, ok, err, Result-cases}
use open_weave.Python.{Value, Error, Python}
use open_weave.Worker.Apply.{Db, Touched}
use open_weave.Worker.Stream.{
  Message, Worker, Surroundings, DeadLetter, is_object, letter_of, acknowledge, count_of,
  dead_letter, announce_for_eval, parsed_of, fail_one, retry_one,
}

-- `Holds v db` is to say that the tables hold what the event `v` gives: a transaction that goes through
-- writes its events, and takes nothing back.
module _ (py : Python) (env : Surroundings) (Holds : Value → Db → Type 0)
    (writes : (batch : List Value) (db db' : Db) (touched : Touched)
      → env.apply batch db ≡ ok (db', touched)
      → All (λ v. Holds v db') batch)
    (keeps : (batch : List Value) (db db' : Db) (touched : Touched) (v : Value)
      → env.apply batch db ≡ ok (db', touched)
      → Holds v db
      → Holds v db')
    (messages : List Message) where
  abbrev parsed : List (String × Value)
  parsed = parsed_of py env messages

  -- The message as it is rebuilt for the letter of a failed event.
  abbrev rebuilt : String → Value → Message
  rebuilt id v = record { id = id; data_field = some (py.dumps v) }

  -- A dead letter of the message: of its own data, or of the event in it.
  abbrev pub IsLetter : String → DeadLetter → Type 0
  IsLetter id letter =
      (e : Error) × (((m : Message) × In m messages × (m.id ≡ id) × (letter ≡ letter_of py env m e))
        ⊎ ((v : Value) × In (id, v) parsed × (letter ≡ letter_of py env (rebuilt id v) e)))

  -- The message has its failures counted, or the tables hold its event, or there is a dead letter of
  -- it, or its dead letter could not be written.
  abbrev pub Fate : String → Worker → Type 0
  Fate id w =
      (has id w.retries ≡ true)
      ⊎ ((v : Value) × In (id, v) parsed × Holds v w.db)
      ⊎ (any (λ (l : DeadLetter). l.stream_message_id == id) w.dead_letters ≡ true)
      ⊎ ((l : DeadLetter) × IsLetter id l × ((is_object l.payload && env.accepts_letter l) ≡ false))

  pub Fate-acknowledge :
      (id j : String) (w : Worker) → (j == id) ≡ false → Fate id w → Fate id (acknowledge j w)
  unfolding acknowledge
  Fate-acknowledge id j w other (inl counted) =
      inl (ground (arith, counted, other, get-remove j id w.retries))
  Fate-acknowledge id j w other (inr rest) = inr rest

  Fate-letter :
      (id : String) (letter : DeadLetter) (w : Worker)
      → Fate id w
      → Fate id (record w { dead_letters = w.dead_letters ++ letter ∷ [] })
  Fate-letter id letter w (inl counted) = inl counted
  Fate-letter id letter w (inr (inl held)) = inr (inl held)
  Fate-letter id letter w (inr (inr (inl lettered))) = inr (
      inr (
        inl (
          ground (
            arith,
            lettered,
            any-append (λ (l : DeadLetter). l.stream_message_id == id) w.dead_letters (letter ∷ []),
          ))))
  Fate-letter id letter w (inr (inr (inr lost))) = inr (inr (inr lost))

  Fate-if :
      (b : Bool) (id : String) (letter : DeadLetter) (w : Worker)
      → Fate id w
      → Fate id (if b then record w { dead_letters = w.dead_letters ++ letter ∷ [] } else w)
  Fate-if true id letter w h = Fate-letter id letter w h
  Fate-if false id letter w h = h

  pub dead_letter-own :
      (m : Message) (e : Error) (w : Worker)
      → IsLetter m.id (letter_of py env m e)
      → Fate m.id (dead_letter py env m e w)
  unfolding dead_letter acknowledge letter_of
  dead_letter-own m e w mine =
      let letter = letter_of py env m e in
      elim (Bool-cases (is_object letter.payload && env.accepts_letter letter)) [
        | inl taken ↦ inr (
            inr (
              inl (
                ground (
                  arith,
                  taken,
                  same_self m.id,
                  any-append (λ (l : DeadLetter). l.stream_message_id == m.id) w.dead_letters
                      (letter ∷ []),
                ))))
        | inr refused ↦ inr (inr (inr (letter, mine, refused)))
      ]

  -- A step that settles its own message keeps what became of every other.
  pub own_or_other :
      (j id : String) (w' : Worker) → Fate j w' → ((j == id) ≡ false → Fate id w') → Fate id w'
  own_or_other j id w' own other = elim (Bool-cases (j == id)) [
    | inl same ↦ subst (λ k. Fate k w') ((text_key.same_iff j id).0 same) own
    | inr differs ↦ other differs
  ]

  pub Fate-dead_letter :
      (id : String) (m : Message) (e : Error) (w : Worker)
      → IsLetter m.id (letter_of py env m e)
      → Fate id w
      → Fate id (dead_letter py env m e w)
  unfolding dead_letter
  Fate-dead_letter id m e w mine h =
      let letter = letter_of py env m e in
      let taken = is_object letter.payload && env.accepts_letter letter in
      own_or_other m.id id (dead_letter py env m e w) (dead_letter-own m e w mine)
        (λ differs. Fate-acknowledge id m.id _ differs (Fate-if taken id letter w h))

  -- What the announcements leave alone.
  pub Fate-announce :
      (id : String) (traces : List RowKey) (w : Worker)
      → Fate id w
      → Fate id (announce_for_eval py env traces w)
  unfolding announce_for_eval
  Fate-announce id traces w h =
      elim env.eval_enqueue
        as (λ b. Fate id (
          if b
          then elim env.announce_fails_after as (λ _. Worker) [
            | none ↦ record w { announced = w.announced ++ traces }
            | some n ↦ record w { announced = w.announced ++ take n traces }
          ]
          else w)) [
            | false ↦ h
            | true ↦
                elim env.announce_fails_after
                  as (λ o. Fate id (elim o as (λ _. Worker) [
                    | none ↦ record w { announced = w.announced ++ traces }
                    | some n ↦ record w { announced = w.announced ++ take n traces }
                  ])) [ none ↦ h | some n ↦ h ]
          ]

  -- A failing event is counted, and a dead letter at the last retry.
  fail_one-own :
      (id : String) (v : Value) (inner : Error) (w : Worker)
      → In (id, v) parsed
      → Fate id (fail_one py env id v inner w)
  unfolding fail_one
  fail_one-own id v inner w member =
      let n = count_of (get id w.retries) + 1 in
      let counted : Worker = record w { retries = put id n w.retries } in
      elim (leb env.max_retries n)
        as (λ b. Fate id (if b then dead_letter py env (rebuilt id v) inner counted else counted)) [
          | true ↦ dead_letter-own (rebuilt id v) inner counted (inner, inr (v, member, refl))
          | false ↦ inl (ground (arith, get-put_self id n w.retries))
        ]

  Fate-fail_one :
      (id j : String) (v : Value) (inner : Error) (w : Worker)
      → In (j, v) parsed
      → Fate id w
      → Fate id (fail_one py env j v inner w)
  unfolding fail_one
  Fate-fail_one id j v inner w member h =
      let n = count_of (get j w.retries) + 1 in
      let counted : Worker = record w { retries = put j n w.retries } in
      let still : Fate id counted = elim h [
        | inl c ↦ inl (ground (arith, c, get-put j id n w.retries))
        | inr rest ↦ inr rest
      ] in
      elim (leb env.max_retries n)
        as (λ b. Fate id (if b then dead_letter py env (rebuilt j v) inner counted else counted)) [
          | true ↦
              Fate-dead_letter id (rebuilt j v) inner counted (inner, inr (v, member, refl)) still
          | false ↦ still
        ]

  -- The tables after a transaction that went through.
  pub Fate-apply :
      (id : String) (batch : List Value) (w : Worker) (db : Db) (touched : Touched)
      → env.apply batch w.db ≡ ok (db, touched)
      → Fate id w
      → Fate id (record w { db = db })
  Fate-apply id batch w db touched h (inr (inl (v, member, held))) =
      inr (inl (v, member, keeps batch w.db db touched v h held))
  Fate-apply id batch w db touched h (inl counted) = inl counted
  Fate-apply id batch w db touched h (inr (inr rest)) = inr (inr rest)

  abbrev after_one : String → Value → Worker → Result Error (Db × Touched) → Worker
  after_one j v w (err inner) = fail_one py env j v inner w
  after_one j v w (ok (db, touched)) =
      announce_for_eval py env touched.traces (acknowledge j (record w { db = db }))

  pub retry_one-own :
      (j : String) (v : Value) (w : Worker) → In (j, v) parsed → Fate j (retry_one py env (j, v) w)
  unfolding retry_one
  retry_one-own j v w member = elim (Result-cases (env.apply (v ∷ []) w.db)) [
    | inl ((db, touched), h) ↦
        subst (λ r. Fate j (after_one j v w r)) (sym h)
          (Fate-announce j touched.traces (acknowledge j (record w { db = db }))
            (unfold acknowledge in inr (inl (v, member, (writes (v ∷ []) w.db db touched h).0))))
    | inr (inner, h) ↦
        subst (λ r. Fate j (after_one j v w r)) (sym h) (fail_one-own j v inner w member)
  ]

  pub Fate-retry_one :
      (id j : String) (v : Value) (w : Worker)
      → In (j, v) parsed
      → Fate id w
      → Fate id (retry_one py env (j, v) w)
  unfolding retry_one
  Fate-retry_one id j v w member before =
      own_or_other j id (retry_one py env (j, v) w) (retry_one-own j v w member) (λ differs.
        elim (Result-cases (env.apply (v ∷ []) w.db)) [
          | inl ((db, touched), h) ↦
              subst (λ r. Fate id (after_one j v w r)) (sym h)
                (Fate-announce id touched.traces (acknowledge j (record w { db = db })) (
                  Fate-acknowledge id j (record w { db = db }) differs
                    (Fate-apply id (v ∷ []) w db touched h before)))
          | inr (inner, h) ↦
              subst (λ r. Fate id (after_one j v w r)) (sym h)
                (Fate-fail_one id j v inner w member before)
        ])
