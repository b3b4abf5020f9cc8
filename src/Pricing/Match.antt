-- ===== src/Pricing/Match.antt =====
-- `ModelPriceCache.match` picks the best row that applies.
use open_weave.Prelude.{
  In-All, ℕ, ◌≤◌, Option-cases, String, ◌≡◌, refl, ◌⊎◌, inl, inr, Bool, true, false, Option, none,
  some, List, [], ◌∷◌, arith, keep, All, In, All-keep, In-keep, if◌then◌else◌, Bool-cases, ap, sym,
  ◌∙◌, text_key,
}
use mathlib.Core.Path.{subst}
use open_weave.Python.{is_empty}
use open_weave.Pricing.{
  ModelPrice, is_candidate, ranks_below, max_from, max_of, at_or_now, match_model,
}

-- No row of the list ranks above `m`.
abbrev pub IsTop : ModelPrice → List ModelPrice → Type 0
IsTop m = All (λ c. ranks_below m c ≡ false)

ranks_below_self : (a : ModelPrice) → ranks_below a a ≡ false
unfolding ranks_below
ranks_below_self a = ground arith

-- What is not above `b`, which is not above `c`, is not above `c`.
top_trans :
    (a b c : ModelPrice)
    → ranks_below b a ≡ false
    → ranks_below c b ≡ false
    → ranks_below c a ≡ false
unfolding ranks_below
top_trans a b c h k = ground arith

above_top : (a b : ModelPrice) → ranks_below a b ≡ true → ranks_below b a ≡ false
unfolding ranks_below
above_top a b h = ground arith

-- The two ways of a round of `max`.
max_step :
    (best m : ModelPrice) (ms : List ModelPrice)
    → (ranks_below best m ≡ true) × (max_from best (m ∷ ms) ≡ max_from m ms)
      ⊎ (ranks_below best m ≡ false) × (max_from best (m ∷ ms) ≡ max_from best ms)
unfolding max_from
max_step best m ms = elim (Bool-cases (ranks_below best m)) [
  | inl e ↦ inl (e, ap (λ b. max_from (if b then m else best) ms) e)
  | inr e ↦ inr (e, ap (λ b. max_from (if b then m else best) ms) e)
]

max_from-nil : (best : ModelPrice) → max_from best [] ≡ best
unfolding max_from
max_from-nil best = refl

max_from-IsTop : (best : ModelPrice) (ms : List ModelPrice) → IsTop (max_from best ms) (best ∷ ms)
max_from-IsTop best [] = rw max_from-nil (ranks_below_self best, tt)
max_from-IsTop best (m ∷ ms) = elim (max_step best m ms) [
  | inl (e, step) ↦
      let h = max_from-IsTop m ms in
      subst (λ x. IsTop x (best ∷ m ∷ ms)) (sym step)
        (top_trans best m (max_from m ms) (above_top best m e) h.0, h)
  | inr (e, step) ↦
      let h = max_from-IsTop best ms in
      subst (λ x. IsTop x (best ∷ m ∷ ms)) (sym step)
        (h.0, (top_trans m best (max_from best ms) e h.0, h.1))
]

max_from-In : (best : ModelPrice) (ms : List ModelPrice) → In (max_from best ms) (best ∷ ms)
max_from-In best [] = inl (rw max_from-nil)
max_from-In best (m ∷ ms) = elim (max_step best m ms) [
  | inl (e, step) ↦ subst (λ x. In x (best ∷ m ∷ ms)) (sym step) (inr (max_from-In m ms))
  | inr (e, step) ↦
      subst (λ x. In x (best ∷ m ∷ ms)) (sym step)
        (elim (max_from-In best ms) [ inl q ↦ inl q | inr i ↦ inr (inr i) ])
]

max_of-best : (ms : List ModelPrice) (m : ModelPrice) → max_of ms ≡ some m → In m ms × IsTop m ms
max_of-best [] m h = cc
max_of-best (x ∷ xs) m h =
    let e : max_from x xs ≡ m = cc in
    subst (λ y. In y (x ∷ xs) × IsTop y (x ∷ xs)) e (max_from-In x xs, max_from-IsTop x xs)

match_model-named :
    (models : List ModelPrice) (name project : String) (at : Option ℕ) (now : ℕ)
    → is_empty name ≡ false
    → match_model models (some name) project at now
      ≡ max_of (keep (is_candidate name project (at_or_now at now)) models)
unfolding match_model
match_model-named models name project at now e =
    ap
      (λ b. elim (if b then none else some name) as (λ _. Option ModelPrice) [
        | none ↦ none
        | some n ↦ max_of (keep (is_candidate n project (at_or_now at now)) models)
      ])
      e

match_model-top :
    (models : List ModelPrice) (name project : String) (at : Option ℕ) (now : ℕ) (m c : ModelPrice)
    → is_empty name ≡ false
    → match_model models (some name) project at now ≡ some m
    → In c models
    → is_candidate name project (at_or_now at now) c ≡ true
    → In m models
      × (is_candidate name project (at_or_now at now) m ≡ true)
      × (ranks_below m c ≡ false)
match_model-top models name project at now m c named h i applies_c =
    let applies = is_candidate name project (at_or_now at now) in
    let found : max_of (keep applies models) ≡ some m =
      rw (← match_model-named models name project at now named) h in
    let (j, top) = max_of-best (keep applies models) m found in
    let (member, fits) = In-keep applies m models j in
    let tops = All-keep applies (λ x. ranks_below m x ≡ false) models top in
    (
      member,
      fits,
      In-All (λ x. applies x ≡ true → ranks_below m x ≡ false) c models i tops applies_c,
    )

max_of-none : (ms : List ModelPrice) → max_of ms ≡ none → ms ≡ []
max_of-none [] h = refl
max_of-none (m ∷ ms) h = cc

keep-nil :
    (p : ModelPrice → Bool) (ms : List ModelPrice) → keep p ms ≡ [] → All (λ c. p c ≡ false) ms
keep-nil p [] h = tt
keep-nil p (m ∷ ms) h = ground (arith, keep-nil p ms)

-- `match` returns None for a name exactly when the name is empty or no loaded row applies.
pub match_model-eq-none :
    (models : List ModelPrice) (name project : String) (at : Option ℕ) (now : ℕ)
    → match_model models (some name) project at now ≡ none
    → (is_empty name ≡ true)
      ⊎ All (λ c. is_candidate name project (at_or_now at now) c ≡ false) models
unfolding match_model
match_model-eq-none models name project at now h = elim (Bool-cases (is_empty name)) [
  | inl e ↦ inl e
  | inr e ↦ inr (
      let applies = is_candidate name project (at_or_now at now) in
      let found : max_of (keep applies models) ≡ none =
        rw (← match_model-named models name project at now e) h in
      keep-nil applies models (max_of-none (keep applies models) found))
]

not_own_below :
    (m c : ModelPrice) (p : String)
    → c.project_id ≡ some p
    → ranks_below m c ≡ false
    → (q : String) × (m.project_id ≡ some q)
unfolding ranks_below
not_own_below m c p e h = ground arith

own_in_scope :
    (m : ModelPrice) (name project q : String) (t : ℕ)
    → is_candidate name project t m ≡ true
    → m.project_id ≡ some q
    → q ≡ project
unfolding is_candidate
own_in_scope m name project q t h e = ground (arith, text_key.same_iff q project)

-- If some row of the project itself applies, `match` returns a row of that project, never a
-- global one.
pub match_model-own :
    (models : List ModelPrice) (name project : String) (at : Option ℕ) (now : ℕ) (m c : ModelPrice)
    → is_empty name ≡ false
    → In c models
    → is_candidate name project (at_or_now at now) c ≡ true
    → c.project_id ≡ some project
    → match_model models (some name) project at now ≡ some m
    → m.project_id ≡ some project
match_model-own models name project at now m c named member applies own found =
    let (i, fits, top) =
      match_model-top models name project at now m c named found member applies in
    let (q, e) = not_own_below m c project own top in
    e ∙ ap some (own_in_scope m name project q (at_or_now at now) fits e)

-- The instant from which a row counts: from the first one where it has no start date.
abbrev pub first_day : Option ℕ → ℕ
first_day none = 0
first_day (some d) = d

-- The row is global, or the project's own.
abbrev pub IsVisible : String → ModelPrice → Type 0
IsVisible project m = (m.project_id ≡ none) ⊎ (m.project_id ≡ some project)

-- The first row is the project's own and the second global, or both are of one kind and the first
-- does not start before the second.
abbrev pub IsPreferred : String → ModelPrice → ModelPrice → Type 0
IsPreferred project m c =
    (m.project_id ≡ some project) × (c.project_id ≡ none)
    ⊎ (m.project_id ≡ c.project_id) × (first_day c.start_date ≤ first_day m.start_date)

applies_is_candidate :
    (name project : String) (t : ℕ) (c : ModelPrice)
    → IsVisible project c
    → c.pattern name ≡ true
    → first_day c.start_date ≤ t
    → is_candidate name project t c ≡ true
unfolding is_candidate
applies_is_candidate name project t c (inl global) matches started =
    ground (arith, global, matches, started)
applies_is_candidate name project t c (inr own) matches started =
    ground (arith, own, matches, started, text_key.same_iff project project)

is_candidate_applies :
    (name project : String) (t : ℕ) (m : ModelPrice)
    → is_candidate name project t m ≡ true
    → IsVisible project m × (m.pattern name ≡ true) × (first_day m.start_date ≤ t)
unfolding is_candidate
is_candidate_applies name project t m h = elim (Option-cases m.project_id) [
  | inl global ↦ (inl global, ground (arith, h), ground (arith, h))
  | inr (q, own) ↦ (
    inr (own ∙ ap some (own_in_scope m name project q t h own)),
    ground (arith, h),
    ground (arith, h),
  )
]

preferred :
    (project : String) (m c : ModelPrice)
    → IsVisible project m
    → IsVisible project c
    → ranks_below m c ≡ false
    → IsPreferred project m c
unfolding ranks_below
preferred project m c (inl a) (inl b) h = inr (a ∙ sym b, ground (arith, a, b, h))
preferred project m c (inl a) (inr b) h = absurd (ground (arith, a, b, h))
preferred project m c (inr a) (inl b) h = inl (a, b)
preferred project m c (inr a) (inr b) h = inr (a ∙ sym b, ground (arith, a, b, h))

-- For a name that is not empty, and a loaded row that is global or the project's own, matches the
-- name and has started, `match` returns a loaded row of which the same holds, and which is preferred
-- to the given one: it is the project's own where the given one is global, or it is of the same kind
-- and does not start before it.
pub match_model-best :
    (models : List ModelPrice) (name project : String) (at : Option ℕ) (now : ℕ) (c : ModelPrice)
    → is_empty name ≡ false
    → In c models
    → IsVisible project c
    → c.pattern name ≡ true
    → first_day c.start_date ≤ at_or_now at now
    → (m : ModelPrice) × (match_model models (some name) project at now ≡ some m)
      × In m models
      × IsVisible project m
      × (m.pattern name ≡ true)
      × (first_day m.start_date ≤ at_or_now at now)
      × IsPreferred project m c
match_model-best models name project at now c named member visible matches started =
    let t = at_or_now at now in
    let applies = applies_is_candidate name project t c visible matches started in
    elim (Option-cases (match_model models (some name) project at now)) [
      | inl nothing ↦ absurd (elim (match_model-eq-none models name project at now nothing) [
        | inl blank ↦ ground (arith, blank, named)
        | inr refused ↦ ground (
          arith,
          applies,
          In-All (λ x. is_candidate name project t x ≡ false) c models member refused,
        )
      ])
      | inr (m, found) ↦
          let (i, fits, top) =
            match_model-top models name project at now m c named found member applies in
          let (seen, named_so, begun) = is_candidate_applies name project t m fits in
          (m, found, i, seen, named_so, begun, preferred project m c seen visible top)
    ]
