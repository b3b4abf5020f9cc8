-- ===== src/Api/Access.antt =====
-- Who may read and who may write, in `write_auth` and `auth` of agent-observability/api-server/main.py.
use open_weave.Prelude.{
  ℕ, String, true, false, ◌≡◌, refl, ◌⊎◌, inl, inr, Option, none, some, arith, Bool-cases,
  Option-cases,
}
use open_weave.Prelude.Result.{Result, ok, err}
use open_weave.Python.{is_empty}
use open_weave.Auth.{AuthFailure, AuthContext, missing_header}
use open_weave.Auth.Verifier.{Verifier, Faults, AuthLibrary, verify}
use open_weave.Auth.Header.{parse_basic_auth}
use open_weave.Api.{
  App, http_result, find_project, write_auth, lookup_demo, no_credentials, auth_demo, auth,
}

-- The project that the state holds, if any, is the one with the name of the public demo.
abbrev pub IsDemo : String → App → Type 0
IsDemo public_demo app =
    (p : String) → app.demo_project_id ≡ some p → find_project public_demo app.db.projects ≡ some p

http_result-eq-ok :
    (r : Result AuthFailure AuthContext) {ctx : AuthContext} → http_result r ≡ ok ctx → r ≡ ok ctx
http_result-eq-ok (ok c) h = ground arith
http_result-eq-ok (err e) h = cc

module _ (lib : AuthLibrary) (faults : Faults) (now : ℕ) where
  verify-no_credentials :
      (h : Option String) (v : Verifier)
      → no_credentials h ≡ true
      → (e : AuthFailure) × ((verify lib faults now h v).0 ≡ err e)
  unfolding verify parse_basic_auth
  verify-no_credentials none v e = (missing_header, refl)
  verify-no_credentials (some s) v e = (missing_header, ground arith)

  -- A write is let through only with credentials that the verifier accepts, as their context.
  pub write_auth-eq-ok :
      (authorization : Option String) (app : App) {ctx : AuthContext}
      → (write_auth lib faults now authorization app).0 ≡ ok ctx
      → (no_credentials authorization ≡ false)
        × ((verify lib faults now authorization app.verifier).0 ≡ ok ctx)
  unfolding write_auth
  write_auth-eq-ok h app e =
      let checked = http_result-eq-ok (verify lib faults now h app.verifier).0 e in
      elim (Bool-cases (no_credentials h)) [
        | inl bare ↦ let (failure, refused) = verify-no_credentials h app.verifier bare in cc
        | inr sent ↦ (sent, checked)
      ]

  -- Without credentials only the demo project answers.
  auth_demo-eq-ok :
      (authorization : Option String) (found : Option String × App) {ctx : AuthContext}
      → no_credentials authorization ≡ true
      → (auth_demo lib faults now authorization found).0 ≡ ok ctx
      → found.0 ≡ some ctx.project_id
  unfolding auth_demo
  auth_demo-eq-ok h (some p, app) bare e = ground arith
  auth_demo-eq-ok h (none, app) bare e = let (sent, _) = write_auth-eq-ok h app e in cc

  lookup_demo-eq-some :
      (public_demo : String) (app : App) {p : String}
      → IsDemo public_demo app
      → (lookup_demo public_demo app).0 ≡ some p
      → find_project public_demo app.db.projects ≡ some p
  unfolding lookup_demo
  lookup_demo-eq-some public_demo app {p} demo e = elim (Option-cases app.demo_project_id) [
    | inl none_yet ↦ ground arith
    | inr (q, known) ↦ ground (arith, demo q known)
  ]

  -- A read that is let through reads the project of the key that its header holds, if it sends
  -- credentials, and otherwise the project with the name of the public demo. The state is taken to
  -- hold no other project as the demo.
  pub auth-eq-ok :
      (public_demo : String) (authorization : Option String) (app : App) {ctx : AuthContext}
      → IsDemo public_demo app
      → (auth lib public_demo faults now authorization app).0 ≡ ok ctx
      → ((no_credentials authorization ≡ false)
          × ((verify lib faults now authorization app.verifier).0 ≡ ok ctx))
        ⊎ ((no_credentials authorization ≡ true)
            × (find_project public_demo app.db.projects ≡ some ctx.project_id))
  unfolding auth
  auth-eq-ok public_demo h app {ctx} demo e = elim (Bool-cases (no_credentials h)) [
    | inr sent ↦ inl (write_auth-eq-ok h app (ground arith))
    | inl bare ↦ elim (Bool-cases (is_empty public_demo)) [
      | inl unset ↦ inl (write_auth-eq-ok h app (ground arith))
      | inr is_set ↦ inr (
        bare,
        lookup_demo-eq-some public_demo app demo
            (auth_demo-eq-ok h (lookup_demo public_demo app) {ctx = ctx} bare (ground arith)),
      )
    ]
  ]

  -- What `auth` remembers as the demo project is the project with that name.
  pub auth-IsDemo :
      (public_demo : String) (authorization : Option String) (app : App)
      → IsDemo public_demo app
      → IsDemo public_demo (auth lib public_demo faults now authorization app).1
  unfolding auth auth_demo lookup_demo write_auth
  auth-IsDemo public_demo h app demo p = elim (Bool-cases (no_credentials h)) [
    | inr sent ↦ ground (arith, demo p)
    | inl bare ↦ elim (Option-cases app.demo_project_id) [
      | inl none_yet ↦ elim (Option-cases (find_project public_demo app.db.projects)) [
        | inl absent ↦ ground (arith, demo p)
        | inr (q, found) ↦ ground (arith, demo p)
      ]
      | inr (q, known) ↦ ground (arith, demo p)
    ]
  ]
