-- ===== src/Api.antt =====
-- agent-observability/api-server/main.py: the HTTP API over the tables that the worker writes.
-- A handler is a function of the caller's context and the database; `App` is `app.state`. A query is
-- a function on lists of rows as asyncpg gives them, where a jsonb column is the text of its JSON.
pub mod Sql
pub mod Access
pub mod Traces
pub mod Tree
pub mod Datasets
pub mod Compare
pub mod Metrics
pub mod Tenancy
use open_weave.Prelude.{
  ℕ, String, Bool, true, false, ◌&&◌, not, Option, none, some, List, [], ◌∷◌, ◌==◌, text_key,
  if◌then◌else◌, is_some,
}
use open_weave.Prelude.Result.{Result, ok, err}
use open_weave.Python.{Value, null, bool, str, obj, end, field, Row, cell, is_empty, Python}
use open_weave.Auth.{
  AuthFailure, missing_header, not_basic, malformed_base64, not_a_pair, not_ascii,
  invalid_credentials, credentials_expired, cache_error, AuthContext,
}
use open_weave.Auth.Verifier.{Verifier, Faults, AuthLibrary, verify}

-- What ends a request: an `HTTPException` by its status, or an error that no handler expects and
-- the framework answers by 500.
pub data HttpError : Type 0 where
  unauthorized : AuthFailure → HttpError
  not_found : String → HttpError
  bad_request : String → HttpError
  raised : AuthFailure → HttpError
  unexpected : HttpError

-- The tables that the handlers read and write.
pub record Database : Type 0 where
  pub projects : List Row
  pub traces : List Row
  pub observations : List Row
  pub scores : List Row
  pub evaluator_versions : List Row
  pub datasets : List Row
  pub dataset_items : List Row
  pub dataset_runs : List Row
  pub dataset_run_items : List Row

pub record App : Type 0 where
  pub verifier : Verifier
  pub demo_project_id : Option String
  pub db : Database

-- `except AuthError`: what is no AuthError passes through.
abbrev pub http_error : AuthFailure → HttpError
http_error not_ascii = raised not_ascii
http_error cache_error = raised cache_error
http_error failure = unauthorized failure

abbrev pub http_result : Result AuthFailure AuthContext → Result HttpError AuthContext
http_result (ok ctx) = ok ctx
http_result (err failure) = err (http_error failure)

-- `SELECT id FROM projects WHERE name = $1`: names are unique, and an id is a text.
unfoldable pub find_project : String → List Row → Option String
find_project name [] = none
find_project name (r ∷ rows) =
    let rest = find_project name rows in
    elim (cell "name" r) [
      | str s ↦ if s == name then elim (cell "id" r) [ str i ↦ some i | _ ↦ none ] else rest
      | _ ↦ rest
    ]

abbrev pub demo_context : String → AuthContext
demo_context p = record { project_id = p; api_key_id = "public-demo" }

-- `not request.headers.get("authorization")`
abbrev pub no_credentials : Option String → Bool
no_credentials none = true
no_credentials (some header) = is_empty header

-- `_demo_project_id`, where the state holds no id yet.
unfoldable pub lookup_demo : String → App → Option String × App
lookup_demo name app = elim app.demo_project_id [
  | some p ↦ (some p, app)
  | none ↦
      let found = find_project name app.db.projects in
      (found, record app { demo_project_id = found })
]

module _ (lib : AuthLibrary) where
  unfoldable pub write_auth : Faults → ℕ → Option String → App → Result HttpError AuthContext × App
  write_auth faults now authorization app =
      let (result, v) = verify lib faults now authorization app.verifier in
      (http_result result, record app { verifier = v })

  -- `auth` once the demo project is looked up.
  unfoldable pub auth_demo :
      Faults → ℕ → Option String → Option String × App → Result HttpError AuthContext × App
  auth_demo faults now authorization (some p, app) = (ok (demo_context p), app)
  auth_demo faults now authorization (none, app) = write_auth faults now authorization app

  -- `auth`: `public_demo` is PUBLIC_DEMO_PROJECT.
  unfoldable pub auth :
      String → Faults → ℕ → Option String → App → Result HttpError AuthContext × App
  auth public_demo faults now authorization app =
      if not (is_empty public_demo) && no_credentials authorization
      then auth_demo faults now authorization (lookup_demo public_demo app)
      else write_auth faults now authorization app

-- `_json`
unfoldable pub decode_json : Python → Value → Value
decode_json py (str s) = elim (py.loads s) [ none ↦ null | some v ↦ v ]
decode_json py v = v

-- `health`: `answers` is whether `SELECT 1` returned, and `stats` the counters of the verifier.
unfoldable pub health : String → String → Bool → Value → Value
health version public_demo answers stats = obj (
    field "ok" (bool answers) (
      field "version" (str version)
        (field "public_demo" (bool (not (is_empty public_demo))) (field "auth_cache" stats end))))
