-- ===== src/Api/Tree/Tenancy.antt =====
-- `get_trace` of agent-observability/api-server/main.py sees the caller's project only, but for the
-- versions of evaluators, which it joins on their id alone.
use open_weave.Prelude.{
  String, Bool, true, ◌≡◌, refl, sym, ap₂, Option, none, some, ◌++◌, List, [], ◌∷◌, keep, All,
  arith, Bool-cases, inl, inr,
}
use open_weave.Python.{Row, Python}
use open_weave.Auth.{AuthContext}
use open_weave.Api.{Database}
use open_weave.Api.Sql.{Postgres, of_project, owned, left_join, or_null, first, keep-keep}
use open_weave.Api.Tree.{by_id, by_trace, is_version, view_of, get_trace}

-- A version of an evaluator that a score of the project names is of the project.
abbrev pub VersionsOwn : String → Database → Type 0
VersionsOwn p db =
    All
      (λ s.
        of_project p s ≡ true
        → All (λ v. is_version s v ≡ true → of_project p v ≡ true) db.evaluator_versions)
      db.scores

module _ {A : Type 0} (own : A → Bool) where
  keep-keep_members :
      (q : A → Bool) (xs : List A)
      → All (λ x. q x ≡ true → own x ≡ true) xs
      → keep q (keep own xs) ≡ keep q xs
  keep-keep_members q [] h = refl
  keep-keep_members q (x ∷ xs) h = ground (arith, h.0, keep-keep_members q xs h.1)

  left_join-members :
      {B : Type 0} (on : B → A → Bool) (lefts : List B) (rights : List A)
      → All (λ b. All (λ x. on b x ≡ true → own x ≡ true) rights) lefts
      → left_join on lefts (keep own rights) ≡ left_join on lefts rights
  unfolding left_join
  left_join-members on [] rights h = refl
  left_join-members on (b ∷ lefts) rights h =
      ap₂ (λ rows more. or_null on b rows ++ more) (keep-keep_members (on b) rights h.0)
        (left_join-members on lefts rights h.1)

  All-keep_owned :
      (P : A → Type 0) (q : A → Bool)
      → ((x : A) → q x ≡ true → own x ≡ true)
      → (xs : List A) → All (λ x. own x ≡ true → P x) xs
      → All P (keep q xs)
  All-keep_owned P q mine [] h = tt
  All-keep_owned P q mine (x ∷ xs) h = elim (Bool-cases (q x)) [
    | inl t ↦ rw t (h.0 (mine x t), All-keep_owned P q mine xs h.1)
    | inr t ↦ rw t (All-keep_owned P q mine xs h.1)
  ]

view_of-versions :
    (py : Python) (pg : Postgres) (trace : Option Row) (spans scores versions others : List Row)
    → left_join is_version scores versions ≡ left_join is_version scores others
    → view_of py pg trace spans scores versions ≡ view_of py pg trace spans scores others
unfolding view_of
view_of-versions py pg none spans scores versions others h = refl
view_of-versions py pg (some trace) spans scores versions others h = rw h

-- The answer of `get_trace`, a 404 for another tenant's trace included, depends on the rows of the
-- caller's project only, where its scores name versions of its own evaluators.
pub get_trace-owned :
    (py : Python) (pg : Postgres) (trace_id : String) (ctx : AuthContext) (db : Database)
    → VersionsOwn ctx.project_id db
    → get_trace py pg trace_id ctx db ≡ get_trace py pg trace_id ctx (owned ctx.project_id db)
unfolding get_trace
get_trace-owned py pg trace_id ctx db versions =
    let p = ctx.project_id in
    let scores = keep (by_trace p trace_id) db.scores in
    let joined = left_join-members (of_project p) is_version scores db.evaluator_versions (
      All-keep_owned (of_project p) _ (by_trace p trace_id) (λ r h. ground arith) db.scores
        versions) in
    rw
      (
        keep-keep (of_project p) (by_id p trace_id) (λ r h. ground arith) db.traces,
        keep-keep (of_project p) (by_trace p trace_id) (λ r h. ground arith) db.observations,
        keep-keep (of_project p) (by_trace p trace_id) (λ r h. ground arith) db.scores,
      )
      (view_of-versions py pg (first (keep (by_id p trace_id) db.traces))
        (keep (by_trace p trace_id) db.observations) scores db.evaluator_versions
        (keep (of_project p) db.evaluator_versions) (sym joined))
