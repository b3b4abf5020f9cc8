-- ===== src/Sdk/Waiting.antt =====
-- `wait_for_scores` of agent-observability/sdk/experiment.py: polling the API until a run is scored.
-- A poll is what the API answers in that round; the clock is read at the head of each round.
use open_weave.Prelude.{
  ℕ, zero, suc, ◌+◌, ◌*◌, ◌<◌, ◌≤◌, String, true, false, ◌≡◌, refl, subst, Option, none, some, List,
  [], ◌∷◌, ltb, leb, ltb→lt, leb→le, contains, arith, text_key, Bool-cases, inl, inr, ◌⊎◌,
  if◌then◌else◌,
}
use open_weave.Prelude.Dict.{Dict, get}
use open_weave.Prelude.Result.{Result, ok, err}
use open_weave.Api.{HttpError}
use open_weave.Api.Compare.{Comparison, ScoreMean}

-- What a request raises: `HTTPStatusError` for an answer that is an error, and any other error.
pub data RequestError : Type 0 where
  status : HttpError → RequestError
  unreachable : RequestError

-- A round sleeps without a count, raises, or counts the scores.
pub data Round : Type 0 where
  skipped : Round
  failed : RequestError → Round
  reported : ℕ → Round

-- `max((s["n"] for s in scores.values()), default=0)`
unfoldable pub most_scores : Dict String ScoreMean → ℕ
most_scores [] = 0
most_scores ((k, s) ∷ scores) = let rest = most_scores scores in if ltb s.n rest then rest else s.n

module _ (listed : ℕ → Result RequestError (List String))
    (compared : ℕ → Result RequestError Comparison) (run_name : String) where
  -- The scores of the run in a comparison, none where it has no entry.
  unfoldable pub count_scores : Comparison → ℕ
  count_scores c = elim (get run_name c.runs) [ none ↦ 0 | some entry ↦ most_scores entry.scores ]

  -- The requests of a round: the runs, and the run against itself.
  unfoldable pub poll : ℕ → Round
  poll k = elim (listed k) [
    | err f ↦ failed f
    | ok names ↦
        if contains run_name names
        then elim (compared k) [
          | ok c ↦ reported (count_scores c)
          | err (status e) ↦ skipped
          | err unreachable ↦ failed unreachable
        ]
        else skipped
  ]

  module _ (clock : ℕ → ℕ) (expected deadline : ℕ) where
    -- The rounds of the loop, from round `k` with what was seen last.
    unfoldable pub wait_rounds : ℕ → ℕ → ℕ → Option (Result RequestError ℕ)
    wait_rounds zero k seen = none
    wait_rounds (suc fuel) k seen = elim (ltb (clock k) deadline) [
      | true ↦ elim (poll k) [
        | skipped ↦ wait_rounds fuel (suc k) seen
        | failed f ↦ some (err f)
        | reported n ↦ elim (leb expected n) [
          | true ↦ some (ok n)
          | false ↦ wait_rounds fuel (suc k) n
        ]
      ]
      | false ↦ some (ok seen)
    ]

    -- The count of the last round before `k` that counted.
    unfoldable pub last_seen : ℕ → ℕ
    last_seen zero = 0
    last_seen (suc k) = elim (poll k) [ reported n ↦ n | _ ↦ last_seen k ]

    -- A round that goes on to the next one.
    abbrev pub IsShort : ℕ → Type 0
    IsShort j = (poll j ≡ skipped) ⊎ ((n : ℕ) × (poll j ≡ reported n) × (n < expected))

    -- How the wait ends, and in which round: all rounds before it were short.
    pub data Ends : Result RequestError ℕ → Type 0 where
      raised :
          (k : ℕ) (f : RequestError)
          → ((j : ℕ) → j < k → IsShort j)
          → clock k < deadline
          → poll k ≡ failed f
          → Ends (err f)
      reached :
          (k n : ℕ)
          → ((j : ℕ) → j < k → IsShort j)
          → clock k < deadline
          → poll k ≡ reported n
          → expected ≤ n
          → Ends (ok n)
      gave_up :
          (k : ℕ) → ((j : ℕ) → j < k → IsShort j) → deadline ≤ clock k → Ends (ok (last_seen k))

    Round-cases :
        (r : Round)
        → (r ≡ skipped) ⊎ (((f : RequestError) × (r ≡ failed f)) ⊎ ((n : ℕ) × (r ≡ reported n)))
    Round-cases skipped = inl refl
    Round-cases (failed f) = inr (inl (f, refl))
    Round-cases (reported n) = inr (inr (n, refl))

    IsShort-before :
        (k : ℕ) → ((j : ℕ) → j < k → IsShort j) → IsShort k → (j : ℕ) → j < suc k → IsShort j
    IsShort-before k before here j h = elim (Bool-cases (ltb j k)) [
      | inl earlier ↦ before j (ltb→lt j k earlier)
      | inr last ↦ let same : k ≡ j = ground (arith, last, h) in subst IsShort same here
    ]

    -- One more round, after a short one.
    on_time :
        (interval fuel k : ℕ)
        → clock k + interval ≤ clock (suc k)
        → deadline ≤ clock k + suc fuel * interval
        → deadline ≤ clock (suc k) + fuel * interval
    on_time interval fuel k slept enough = grind arith

    -- The wait from a round ends well in a round if what follows does.
    wait_rounds-step :
        (fuel k : ℕ)
        → ((j : ℕ) → j < k → IsShort j)
        → (clock k < deadline
            → IsShort k
            → (r : Result RequestError ℕ) × (wait_rounds fuel (suc k) (last_seen (suc k)) ≡ some r)
              × Ends r)
        → (r : Result RequestError ℕ) × (wait_rounds (suc fuel) k (last_seen k) ≡ some r) × Ends r
    unfolding wait_rounds last_seen
    wait_rounds-step fuel k before rest = elim (Bool-cases (ltb (clock k) deadline)) [
      | inr late ↦ (ok (last_seen k), ground (arith, late), gave_up k before (ground (arith, late)))
      | inl early ↦
          let in_time = ltb→lt (clock k) deadline early in
          elim (Round-cases (poll k)) [
            | inr (inl (f, h)) ↦ (err f, ground (arith, early, h), raised k f before in_time h)
            | inl h ↦
                let (r, e, ends) = rest in_time (inl h) in (r, ground (arith, early, h, e), ends)
            | inr (inr (n, h)) ↦ elim (Bool-cases (leb expected n)) [
              | inl there ↦ (
                ok n,
                ground (arith, early, h, there),
                reached k n before in_time h (leb→le expected n there),
              )
              | inr short ↦
                  let (r, e, ends) = rest in_time (inr (n, h, ground (arith, short))) in
                  (r, ground (arith, early, h, short, e), ends)
            ]
          ]
    ]

    wait_rounds-Ends :
        (interval : ℕ)
        → ((k : ℕ) → clock k + interval ≤ clock (suc k))
        → (fuel k : ℕ) → deadline ≤ clock k + fuel * interval
        → ((j : ℕ) → j < k → IsShort j)
        → (r : Result RequestError ℕ) × (wait_rounds (suc fuel) k (last_seen k) ≡ some r) × Ends r
    wait_rounds-Ends interval sleeps zero k enough before =
        wait_rounds-step 0 k before (λ early short. elim (over early) [ ])
      where
        over : clock k < deadline → ⊥
        over early = grind arith
    wait_rounds-Ends interval sleeps (suc fuel) k enough before =
        wait_rounds-step (suc fuel) k before (λ early short.
          wait_rounds-Ends interval sleeps fuel (suc k) (on_time interval fuel k (sleeps k) enough)
            (IsShort-before k before short))

  -- `wait_for_scores`, by the number of its rounds.
  unfoldable pub wait_for_scores : (ℕ → ℕ) → ℕ → ℕ → ℕ → ℕ → Option (Result RequestError ℕ)
  wait_for_scores clock expected start timeout rounds =
      wait_rounds clock expected (start + timeout) rounds 0 0

  -- The wait ends: where each round sleeps `interval` at least and the timeout is `rounds` intervals
  -- at most, one round more is enough for an answer. It is the error of a round that raises, or the
  -- count of the first round that counts at least `expected`, or, once the deadline has passed, the
  -- last count seen; every round before the one that ends the wait was without a count, or counted
  -- fewer than `expected`.
  pub wait_for_scores-Ends :
      (clock : ℕ → ℕ) (expected start timeout interval rounds : ℕ)
      → start ≤ clock 0
      → ((k : ℕ) → clock k + interval ≤ clock (suc k))
      → timeout ≤ rounds * interval
      → (r : Result RequestError ℕ) × (wait_for_scores clock expected start timeout (suc rounds)
          ≡ some r)
        × Ends clock expected (start + timeout) r
  unfolding wait_for_scores last_seen
  wait_for_scores-Ends clock expected start timeout interval rounds first sleeps enough =
      wait_rounds-Ends clock expected (start + timeout) interval sleeps rounds 0 (grind arith)
        (λ j h. elim (none_before j h) [ ])
    where
      none_before : (j : ℕ) → j < 0 → ⊥
      none_before j h = grind arith
