-- ===== src/Auth/Verifier.antt =====
-- `ApiKeyVerifier`: credentials checked against the table `api_keys`, with a cache in front.
-- The cache holds the text of each entry under the secret's hash (the constant key prefix is left
-- off); `dumps` and `loads` are the JSON of an entry, where `loads` is `none` for a text that is no
-- JSON or lacks one of the four fields, and for one that is JSON but no object, which `is_no_object`
-- tells: there the lookup of a field raises a TypeError, which `_cache_get` does not catch. That Redis drops an entry by itself, at the ttl or for want
-- of memory, is left out: an entry that is gone is a miss. A failing Postgres raises out of `verify`,
-- and is left out.
pub mod Transparency
pub mod Upkeep
pub mod Revocation
use open_weave.Prelude.{
  ℕ, ◌+◌, String, Bool, true, false, ◌&&◌, ◌||◌, Option, none, some, List, [], ◌∷◌, ◌==◌, leb,
  text_key, if◌then◌else◌,
}
use open_weave.Prelude.Dict.{Dict, get, put, remove}
use open_weave.Prelude.Result.{Result, ok, err}
use open_weave.Python.{is_empty}
use open_weave.Auth.{
  AuthFailure, invalid_credentials, credentials_expired, cache_error, AuthContext, hash_secret,
}
use open_weave.Auth.Header.{parse_basic_auth}

-- A row of `api_keys`; `expires_at` is an instant.
pub record ApiKey : Type 0 where
  pub id : String
  pub project_id : String
  pub public_key : String
  pub hashed_secret_key : String
  pub expires_at : Option ℕ

-- What `_cache_put` writes; the expiry is an ISO text.
pub record CacheEntry : Type 0 where
  pub project_id : String
  pub api_key_id : String
  pub public_key : String
  pub expires_at : Option String

pub record Stats : Type 0 where
  pub cache_hit : ℕ
  pub cache_miss : ℕ
  pub reject : ℕ

-- Which of the calls of Redis raise during one request.
pub record Faults : Type 0 where
  pub read_fails : Bool
  pub delete_fails : Bool
  pub write_fails : Bool

-- The verifier with what it reaches: `redis` is `none` where there is no client.
pub record Verifier : Type 0 where
  pub keys : List ApiKey
  pub redis : Option (Dict String String)
  pub stats : Stats

-- The library functions that the verifier calls, and the salt.
pub record AuthLibrary : Type 0 where
  pub decode : String → Option String
  pub sha256 : String → String
  pub salt : String
  pub dumps : CacheEntry → String
  pub loads : String → Option CacheEntry
  pub is_no_object : String → Bool
  pub isoformat : ℕ → String
  pub fromisoformat : String → ℕ

-- `_is_expired` of a datetime, and of an ISO text.
abbrev pub is_expired : Option ℕ → ℕ → Bool
is_expired none now = false
is_expired (some t) now = leb t now

abbrev pub text_time : (String → ℕ) → Option String → Option ℕ
text_time fromisoformat none = none
text_time fromisoformat (some s) = some (fromisoformat s)

abbrev pub time_text : (ℕ → String) → Option ℕ → Option String
time_text isoformat none = none
time_text isoformat (some t) = some (isoformat t)

-- The SELECT of `verify`.
unfoldable pub fetch_key : String → String → List ApiKey → Option ApiKey
fetch_key key_hash public_key [] = none
fetch_key key_hash public_key (k ∷ keys) =
    if k.hashed_secret_key == key_hash && k.public_key == public_key
    then some k
    else fetch_key key_hash public_key keys

abbrev pub context_of : ApiKey → AuthContext
context_of k = record { project_id = k.project_id; api_key_id = k.id }

abbrev pub cached_context : CacheEntry → AuthContext
cached_context c = record { project_id = c.project_id; api_key_id = c.api_key_id }

module _ (lib : AuthLibrary) where
  abbrev pub entry_of : ApiKey → CacheEntry
  entry_of k = record {
    project_id = k.project_id;
    api_key_id = k.id;
    public_key = k.public_key;
    expires_at = time_text lib.isoformat k.expires_at;
  }

  -- `_cache_get`: an entry that does not parse is deleted, and one that is no object raises.
  unfoldable pub cache_get :
      Faults
      → String
      → Option (Dict String String)
      → Result AuthFailure (Option CacheEntry) × Option (Dict String String)
  cache_get faults key_hash none = (ok none, none)
  cache_get faults key_hash (some entries) =
      if faults.read_fails then (ok none, some entries) else elim (get key_hash entries) [
        | none ↦ (ok none, some entries)
        | some raw ↦ if is_empty raw then (ok none, some entries) else elim (lib.loads raw) [
          | some c ↦ (ok (some c), some entries)
          | none ↦
              if lib.is_no_object raw || faults.delete_fails
              then (err cache_error, some entries)
              else (ok none, some (remove key_hash entries))
        ]
      ]

  -- `_cache_put`: a write that fails is logged and dropped.
  unfoldable pub cache_put :
      Faults → String → ApiKey → Option (Dict String String) → Option (Dict String String)
  cache_put faults key_hash row none = none
  cache_put faults key_hash row (some entries) =
      if faults.write_fails
      then some entries
      else some (put key_hash (lib.dumps (entry_of row)) entries)

  abbrev pub count_reject : Stats → Stats
  count_reject s = record s { reject = s.reject + 1 }

  -- `verify` from the lookup in Postgres on.
  unfoldable pub verify_stored :
      Faults → ℕ → String → String → Verifier → Result AuthFailure AuthContext × Verifier
  verify_stored faults now key_hash public_key v =
      let missed = record (v.stats) { cache_miss = v.stats.cache_miss + 1 } in
      elim (fetch_key key_hash public_key v.keys) [
        | none ↦ (err invalid_credentials, record v { stats = count_reject missed })
        | some row ↦
            if is_expired row.expires_at now
            then (err credentials_expired, record v { stats = count_reject missed })
            else (
              ok (context_of row),
              record v { stats = missed; redis = cache_put faults key_hash row v.redis },
            )
      ]

  -- `verify` once the header is parsed and the cache is read.
  unfoldable pub verify_cached :
      Faults
      → ℕ
      → String
      → String
      → Option CacheEntry
      → Verifier
      → Result AuthFailure AuthContext × Verifier
  verify_cached faults now key_hash public_key none v =
      verify_stored faults now key_hash public_key v
  verify_cached faults now key_hash public_key (some c) v =
      if c.public_key == public_key
      then (if is_expired (text_time lib.fromisoformat c.expires_at) now
          then (err credentials_expired, record v { stats = count_reject v.stats })
          else (
            ok (cached_context c),
            record v { stats = record (v.stats) { cache_hit = v.stats.cache_hit + 1 } },
          ))
      else verify_stored faults now key_hash public_key v

  unfoldable pub verify_keys :
      Faults → ℕ → String × String → Verifier → Result AuthFailure AuthContext × Verifier
  verify_keys faults now (public_key, secret_key) v =
      let key_hash = hash_secret lib.sha256 lib.salt secret_key in
      let (cached, redis) = cache_get faults key_hash v.redis in
      elim cached [
        | err e ↦ (err e, record v { redis = redis })
        | ok c ↦ verify_cached faults now key_hash public_key c (record v { redis = redis })
      ]

  unfoldable pub verify :
      Faults → ℕ → Option String → Verifier → Result AuthFailure AuthContext × Verifier
  verify faults now authorization v = elim (parse_basic_auth lib.decode authorization) [
    | err e ↦ (err e, v)
    | ok keys ↦ verify_keys faults now keys v
  ]

  -- `invalidate`
  unfoldable pub invalidate : String → Verifier → Verifier
  invalidate secret_key v = record v {
    redis = elim v.redis [
      | none ↦ none
      | some entries ↦ some (remove (hash_secret lib.sha256 lib.salt secret_key) entries)
    ];
  }
