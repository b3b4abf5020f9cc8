-- ===== src/Evaluator/Run/Once.antt =====
-- A rule judges a trace at most once.
use open_weave.Prelude.{
  any-append, ℕ, ◌+◌, ◌<◌, ◌&&◌, ◌||◌, ltb, ◌==◌, String, ◌≡◌, refl, ◌⊎◌, inl, inr, Bool, true,
  false, Option, none, some, List, [], ◌∷◌, ◌++◌, arith, leb, text_key, RowKey, All, ap, sym, ◌∙◌,
  subst, same_self, Bool-cases,
}
use open_weave.Prelude.Result.{Result, ok, err}
use open_weave.Python.{Row, Error, Python}
use open_weave.Evaluator.Judge.{Failure}
use open_weave.Evaluator.Rules.{matches_filter}
use open_weave.Evaluator.Run.{
  Claims, holds_claim, already_evaluated, Rule, EvalDb, Status, Judging, run_rule, rule_step,
  resume, done_key, Outcome, with_outcome, evaluate_rules,
}

holds_claim-append :
    (t : ℕ) (k : String) (done new : Claims)
    → holds_claim t k (done ++ new) ≡ (holds_claim t k done || holds_claim t k new)
unfolding holds_claim
holds_claim-append t k done new = any-append (λ c. c.0 == k && ltb t c.1) done new

holds_claim-new :
    (t e : ℕ) (k : String) (done : Claims) → t < e → holds_claim t k (done ++ (k, e) ∷ []) ≡ true
unfolding holds_claim
holds_claim-new t e k done h =
    ground (arith, h, any-append (λ c. c.0 == k && ltb t c.1) done ((k, e) ∷ []), same_self k)

-- A first evaluation, and a later one: `env` and `later` have their clocks.
module _ (py : Python) (env later : Judging) (hash : ℕ) (key : RowKey) (trace : Row) where
  -- A rule that the later evaluation passes over: not sampled, filtered out, or claimed.
  abbrev pub IsPassed : Claims → Rule → Type 0
  IsPassed done rule =
      (leb rule.sampling_rate hash ≡ true)
      ⊎ (matches_filter py trace rule.filter ≡ ok false)
      ⊎ (matches_filter py trace rule.filter ≡ ok true)
        × (holds_claim later.now (done_key py env key rule) done ≡ true)

  -- What is claimed at the first evaluation is still claimed at the later one.
  abbrev pub Lasts : Claims → Type 0
  Lasts done =
      (k : String) → holds_claim env.now k done ≡ true → holds_claim later.now k done ≡ true

  passed :
      (rule : Rule) (db : EvalDb) (done : Claims)
      → IsPassed done rule
      → rule_step py later hash key trace rule db done ≡ (ok none, done)
  unfolding rule_step already_evaluated
  passed rule db done (inl unsampled) = ground (arith, unsampled)
  passed rule db done (inr (inl filtered)) = ground (arith, filtered)
  passed rule db done (inr (inr (applies, claimed))) = ground (arith, applies, claimed)

  rules_passed :
      (rules : List Rule) (db : EvalDb) (done : Claims)
      → All (IsPassed done) rules
      → evaluate_rules py later hash key trace rules db done ≡ (ok (db, []), done)
  unfolding evaluate_rules
  rules_passed [] db done h = refl
  rules_passed (rule ∷ rules) db done h =
      ap (λ r. resume py later r db (evaluate_rules py later hash key trace rules))
        (passed rule db done h.0)
      ∙ rules_passed rules db done h.1

  -- What a round does to the claims.
  step_claims :
      (rule : Rule) (db : EvalDb) (done : Claims)
      → ((rule_step py env hash key trace rule db done).1 ≡ done)
        ⊎ ((rule_step py env hash key trace rule db done).1
            ≡ done ++ (done_key py env key rule, env.now + env.done_ttl) ∷ [])
  unfolding rule_step already_evaluated
  step_claims rule db done = ground arith

  step_keeps :
      (k : String) (rule : Rule) (db : EvalDb) (done : Claims)
      → holds_claim later.now k done ≡ true
      → holds_claim later.now k (rule_step py env hash key trace rule db done).1 ≡ true
  step_keeps k rule db done h = elim (step_claims rule db done) [
    | inl same ↦ ap (holds_claim later.now k) same ∙ h
    | inr more ↦
        ap (holds_claim later.now k) more
        ∙ holds_claim-append later.now k done
            ((done_key py env key rule, env.now + env.done_ttl) ∷ [])
        ∙ ap
            (λ b.
              b
              || holds_claim later.now k ((done_key py env key rule, env.now + env.done_ttl) ∷ []))
            h
  ]

  module _ (soon : later.now < env.now + env.done_ttl) where
    step-Lasts :
        (rule : Rule) (db : EvalDb) (done : Claims)
        → Lasts done
        → Lasts (rule_step py env hash key trace rule db done).1
    step-Lasts rule db done lasts = elim (step_claims rule db done) [
      | inl same ↦ subst Lasts (sym same) lasts
      | inr more ↦ subst Lasts (sym more) (one_more lasts)
    ]
      where
        new : Claims
        new = (done_key py env key rule, env.now + env.done_ttl) ∷ []

        lasts_new :
            (k : String) → holds_claim env.now k new ≡ true → holds_claim later.now k new ≡ true
        lasts_new k h = unfold holds_claim in ground (arith, soon, h)

        one_more : Lasts done → Lasts (done ++ new)
        one_more lasts k h = ground (
          arith,
          h,
          lasts k,
          lasts_new k,
          holds_claim-append env.now k done new,
          holds_claim-append later.now k done new,
        )

    -- A round that does not raise leaves its rule passed over.
    step_passes :
        (rule : Rule) (db : EvalDb) (done : Claims) (o : Option (EvalDb × Status))
        → Lasts done
        → (rule_step py env hash key trace rule db done).0 ≡ ok o
        → IsPassed (rule_step py env hash key trace rule db done).1 rule
    unfolding rule_step already_evaluated
    step_passes rule db done o lasts h = elim (Bool-cases (leb rule.sampling_rate hash)) [
      | inl unsampled ↦ inl unsampled
      | inr sampled ↦ go sampled (matches_filter py trace rule.filter) refl
    ]
      where
        k : String
        k = done_key py env key rule

        go :
            leb rule.sampling_rate hash ≡ false
            → (m : Result Error Bool) → matches_filter py trace rule.filter ≡ m
            → IsPassed (rule_step py env hash key trace rule db done).1 rule
        go f (err e) q = elim (raised_first f e q) [ ]
          where
            raised_first :
                leb rule.sampling_rate hash ≡ false
                → (e : Error) → matches_filter py trace rule.filter ≡ err e
                → ⊥
            raised_first f' e' q' = ground (arith, f', q', h)
        go f (ok false) q = inr (inl q)
        go f (ok true) q = elim (Bool-cases (holds_claim env.now k done)) [
          | inl c ↦ inr (inr (q, ap (holds_claim later.now k) (same_done f q c) ∙ lasts k c))
          | inr n ↦ inr (
              inr (
                q,
                ap (holds_claim later.now k) (more_done f q n)
                    ∙ holds_claim-new later.now (env.now + env.done_ttl) k done soon,
              ))
        ]
          where
            same_done :
                leb rule.sampling_rate hash ≡ false
                → matches_filter py trace rule.filter ≡ ok true
                → holds_claim env.now k done ≡ true
                → (rule_step py env hash key trace rule db done).1 ≡ done
            same_done f' q' c = ground (arith, f', q', c)

            more_done :
                leb rule.sampling_rate hash ≡ false
                → matches_filter py trace rule.filter ≡ ok true
                → holds_claim env.now k done ≡ false
                → (rule_step py env hash key trace rule db done).1
                  ≡ done ++ (k, env.now + env.done_ttl) ∷ []
            more_done f' q' n = ground (arith, f', q', n)

  grows :
      (d d' : Claims) (rule : Rule)
      → ((k : String) → holds_claim later.now k d ≡ true → holds_claim later.now k d' ≡ true)
      → IsPassed d rule
      → IsPassed d' rule
  grows d d' rule more (inl a) = inl a
  grows d d' rule more (inr (inl b)) = inr (inl b)
  grows d d' rule more (inr (inr (b, c))) = inr (inr (b, more (done_key py env key rule) c))

  done-with_outcome : (s : Status) (o : Outcome py env) → (with_outcome py env s o).1 ≡ o.1
  done-with_outcome s (err f, done) = refl
  done-with_outcome s (ok (db, os), done) = refl

  rules_keep :
      (k : String) (rules : List Rule) (db : EvalDb) (done : Claims)
      → holds_claim later.now k done ≡ true
      → holds_claim later.now k (evaluate_rules py env hash key trace rules db done).1 ≡ true
  unfolding evaluate_rules
  rules_keep k [] db done h = h
  rules_keep k (rule ∷ rules) db done h =
      go (rule_step py env hash key trace rule db done) (step_keeps k rule db done h)
        (rules_keep k rules)
    where
      go :
          (r : Result Failure (Option (EvalDb × Status)) × Claims)
          → holds_claim later.now k r.1 ≡ true
          → ((db : EvalDb) (d : Claims)
              → holds_claim later.now k d ≡ true
              → holds_claim later.now k (evaluate_rules py env hash key trace rules db d).1 ≡ true)
          → holds_claim later.now k
              (resume py env r db (evaluate_rules py env hash key trace rules)).1
            ≡ true
      go (err f, d) held rest = held
      go (ok none, d) held rest = rest db d held
      go (ok (some (db', s)), d) held rest =
          ap (holds_claim later.now k)
            (done-with_outcome s (evaluate_rules py env hash key trace rules db' d))
          ∙ rest db' d held

  returned-with_outcome :
      (s : Status) (o : Outcome py env) (x : EvalDb × List Status)
      → (with_outcome py env s o).0 ≡ ok x
      → (y : EvalDb × List Status) × (o.0 ≡ ok y)
  returned-with_outcome s (err f, done) x h = cc
  returned-with_outcome s (ok y, done) x h = (y, refl)

  rules_settled :
      (rules : List Rule) (db : EvalDb) (done : Claims) (x : EvalDb × List Status)
      → later.now < env.now + env.done_ttl
      → Lasts done
      → (evaluate_rules py env hash key trace rules db done).0 ≡ ok x
      → All (IsPassed (evaluate_rules py env hash key trace rules db done).1) rules
  unfolding evaluate_rules
  rules_settled [] db done x soon lasts h = tt
  rules_settled (rule ∷ rules) db done x soon lasts h =
      go (rule_step py env hash key trace rule db done) (λ o. step_passes soon rule db done o lasts)
        (step-Lasts soon rule db done lasts) (λ db d x. rules_settled rules db d x soon) h
    where
      rest : EvalDb → Claims → Outcome py env
      rest = evaluate_rules py env hash key trace rules

      go :
          (r : Result Failure (Option (EvalDb × Status)) × Claims)
          → ((o : Option (EvalDb × Status)) → r.0 ≡ ok o → IsPassed r.1 rule)
          → Lasts r.1
          → ((db : EvalDb) (d : Claims) (x : EvalDb × List Status)
              → Lasts d
              → (evaluate_rules py env hash key trace rules db d).0 ≡ ok x
              → All (IsPassed (evaluate_rules py env hash key trace rules db d).1) rules)
          → (resume py env r db (evaluate_rules py env hash key trace rules)).0 ≡ ok x
          → All
              (IsPassed (resume py env r db (evaluate_rules py env hash key trace rules)).1)
              (rule ∷ rules)
      go (err f, d) own still others e = elim (raised_not_returned f e) [ ]
        where
          raised_not_returned :
              (f : Failure) → ◌≡◌ {A = Result Failure (EvalDb × List Status)} (err f) (ok x) → ⊥
          raised_not_returned f e' = cc
      go (ok none, d) own still others e = (
        grows d _ rule (λ k held. rules_keep k rules db d held) (own none refl),
        others db d x still e,
      )
      go (ok (some (db', s)), d) own still others e =
          let same = done-with_outcome s (evaluate_rules py env hash key trace rules db' d) in
          let (y, returned) =
            returned-with_outcome s (evaluate_rules py env hash key trace rules db' d) x e in
          subst (λ d'. All (IsPassed d') (rule ∷ rules)) (sym same)
            (
              grows d _ rule (λ k held. rules_keep k rules db' d held) (own (some (db', s)) refl),
              others db' d y still returned,
            )

  -- A trace that is evaluated again under the same rules, after an evaluation that did not raise and
  -- before a claim that was held then or made then expires, is judged by no rule a second time:
  -- whatever the tables hold by then, no job and no score is written and no new key is claimed.
  pub evaluate_rules-once :
      (rules : List Rule) (db db' db₂ : EvalDb) (done done' : Claims) (outcomes : List Status)
      → later.now < env.now + env.done_ttl
      → Lasts done
      → evaluate_rules py env hash key trace rules db done ≡ (ok (db', outcomes), done')
      → evaluate_rules py later hash key trace rules db₂ done' ≡ (ok (db₂, []), done')
  evaluate_rules-once rules db db' db₂ done done' outcomes soon lasts h =
      rules_passed rules db₂ done' (
        subst (λ d. All (IsPassed d) rules) (ap (λ (o : Outcome py env). o.1) h)
          (rules_settled rules db done (db', outcomes) soon lasts
            (ap (λ (o : Outcome py env). o.0) h)))

  -- A rule whose run raises an error that is not recorded is claimed all the same: the evaluation
  -- raises, and a later evaluation of the trace under that rule, with the tables rolled back or
  -- not, passes the rule over without a job or a score, as long as the claim has not expired.
  pub evaluate_rules-lost :
      (rule : Rule) (rules : List Rule) (db db₂ : EvalDb) (done : Claims) (f : Failure)
      → later.now < env.now + env.done_ttl
      → leb rule.sampling_rate hash ≡ false
      → matches_filter py trace rule.filter ≡ ok true
      → holds_claim env.now (done_key py env key rule) done ≡ false
      → run_rule py env key trace rule db ≡ err f
      → let done' = done ++ (done_key py env key rule, env.now + env.done_ttl) ∷ [] in
        (evaluate_rules py env hash key trace (rule ∷ rules) db done ≡ (err f, done'))
        × (evaluate_rules py later hash key trace (rule ∷ []) db₂ done' ≡ (ok (db₂, []), done'))
  unfolding evaluate_rules rule_step already_evaluated
  evaluate_rules-lost rule rules db db₂ done f soon sampled applies fresh raises =
      let k = done_key py env key rule in
      let done' = done ++ (k, env.now + env.done_ttl) ∷ [] in
      let step : rule_step py env hash key trace rule db done ≡ (err f, done') =
        ground (arith, sampled, applies, fresh, raises) in
      let claimed = holds_claim-new later.now (env.now + env.done_ttl) k done soon in
      (
        ap (λ r. resume py env r db (evaluate_rules py env hash key trace rules)) step,
        rules_passed (rule ∷ []) db₂ done' (inr (inr (applies, claimed)), tt),
      )
