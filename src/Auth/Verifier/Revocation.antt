-- ===== src/Auth/Verifier/Revocation.antt =====
-- Revoking a key: its rows are deleted and the cache entry of its secret is invalidated.
use open_weave.Prelude.{
  ℕ, String, ◌≡◌, refl, not, Option, none, some, List, [], ◌∷◌, arith, ◌==◌, text_key, keep, ap,
  ◌∙◌, same_self,
}
use open_weave.Prelude.Dict.{Dict, remove, get-remove}
use open_weave.Prelude.Result.{Result, ok, err}
use open_weave.Auth.{AuthFailure, AuthContext, invalid_credentials, hash_secret}
use open_weave.Auth.Header.{parse_basic_auth}
use open_weave.Auth.Verifier.{
  ApiKey, Faults, Verifier, AuthLibrary, fetch_key, cache_get, verify_stored, verify_cached,
  verify_keys, verify, invalidate,
}
use open_weave.Auth.Verifier.Transparency.{verify_keys-read}

-- The table without the rows of a secret's hash.
abbrev pub without_hash : String → List ApiKey → List ApiKey
without_hash h = keep (λ k. not (k.hashed_secret_key == h))

fetch_key-without_hash :
    (h p : String) (keys : List ApiKey) → fetch_key h p (without_hash h keys) ≡ none
unfolding fetch_key
fetch_key-without_hash h p [] = refl
fetch_key-without_hash h p (k ∷ keys) = ground (arith, fetch_key-without_hash h p keys)

module _ (lib : AuthLibrary) (faults : Faults) (now : ℕ) where
  abbrev pub revoke : String → Verifier → Verifier
  revoke secret_key v =
      invalidate lib secret_key
        (record v { keys = without_hash (hash_secret lib.sha256 lib.salt secret_key) v.keys })

  cache_get-revoke :
      (secret_key : String) (v : Verifier)
      → (cache_get lib faults
          (hash_secret lib.sha256 lib.salt secret_key)
          (revoke secret_key v).redis).0
        ≡ ok none
  unfolding cache_get invalidate
  cache_get-revoke secret_key v = go v.redis
    where
      h : String
      h = hash_secret lib.sha256 lib.salt secret_key

      go :
          (r : Option (Dict String String))
          → (cache_get lib faults h (elim r as (λ _. Option (Dict String String)) [
            | none ↦ none
            | some entries ↦ some (remove h entries)
          ])).0
            ≡ ok none
      go none = refl
      go (some entries) = ground (arith, get-remove h h entries, same_self h)

  verify_cached-revoke :
      (secret_key p : String) (v w : Verifier)
      → let h = hash_secret lib.sha256 lib.salt secret_key in
        w.keys ≡ without_hash h v.keys
        → (verify_cached lib faults now h p none w).0 ≡ err invalid_credentials
  unfolding verify_cached verify_stored
  verify_cached-revoke secret_key p v w e =
      let h = hash_secret lib.sha256 lib.salt secret_key in
      let gone = ap (fetch_key h p) e ∙ fetch_key-without_hash h p v.keys in ground (arith, gone)

  -- Once a key is revoked, every request that carries its secret is rejected as invalid, whatever
  -- public key it sends and whatever the cache held, also when the cache cannot be read.
  pub verify-revoke :
      (authorization : Option String) (public_key secret_key : String) (v : Verifier)
      → parse_basic_auth lib.decode authorization ≡ ok (public_key, secret_key)
      → (verify lib faults now authorization (revoke secret_key v)).0 ≡ err invalid_credentials
  unfolding verify invalidate
  verify-revoke authorization public_key secret_key v parsed =
      let w = revoke secret_key v in
      let h = hash_secret lib.sha256 lib.salt secret_key in
      ap
        (λ r.
          (elim r as (λ _. Result AuthFailure AuthContext × Verifier) [
            | err e ↦ (err e, w)
            | ok keys ↦ verify_keys lib faults now keys w
          ]).0)
        parsed
      ∙ ap (λ (r : Result AuthFailure AuthContext × Verifier). r.0)
          (verify_keys-read lib faults now public_key secret_key w none
            (cache_get-revoke secret_key v))
      ∙ verify_cached-revoke secret_key public_key v
          (record w { redis = (cache_get lib faults h w.redis).1 }) refl
