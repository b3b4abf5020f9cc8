-- ===== src/Auth/Verifier/Upkeep.antt =====
-- `verify` keeps the cache consistent with Postgres.
use mathlib.Core.Path.{subst, subst₂, ap₂}
use open_weave.Prelude.{
  ℕ, String, ◌≡◌, refl, ◌⊎◌, inl, inr, false, Option, none, some, List, [], ◌∷◌, arith, ◌==◌,
  text_key, Bool-cases, Option-cases, ap, sym, ◌∙◌,
}
use open_weave.Prelude.Dict.{Dict, get, put, get-put}
use open_weave.Prelude.Result.{Result, ok, err}
use open_weave.Auth.{AuthFailure, AuthContext, hash_secret}
use open_weave.Auth.Header.{parse_basic_auth}
use open_weave.Auth.Verifier.{
  ApiKey, CacheEntry, Faults, Verifier, AuthLibrary, is_expired, fetch_key, entry_of, cache_get,
  cache_put, verify_stored, verify_cached, verify_keys, verify,
}
use open_weave.Auth.Verifier.Transparency.{Consistent, cache_get-Consistent, verify_keys-read}

fetch_key_sound :
    (h p : String) (keys : List ApiKey) (k : ApiKey)
    → fetch_key h p keys ≡ some k
    → (k.hashed_secret_key ≡ h) × (k.public_key ≡ p)
unfolding fetch_key
fetch_key_sound h p [] k e = cc
fetch_key_sound h p (x ∷ keys) k e = ground (
  arith,
  text_key.same_iff x.hashed_secret_key h,
  text_key.same_iff x.public_key p,
  fetch_key_sound h p keys k,
)

some-eq : {a b : CacheEntry} → ◌≡◌ {A = Option CacheEntry} (some a) (some b) → a ≡ b
some-eq e = cc

module _ (lib : AuthLibrary) (faults : Faults) (now : ℕ) where
  put-Consistent :
      ((c : CacheEntry) → lib.loads (lib.dumps c) ≡ some c)
      → (keys : List ApiKey) (h p : String) (k : ApiKey) (entries : Dict String String)
      → fetch_key h p keys ≡ some k
      → Consistent lib keys (some entries)
      → Consistent lib keys (some (put h (lib.dumps (entry_of lib k)) entries))
  put-Consistent json keys h p k entries found consistent = (entry, whole)
    where
      entry :
          (j raw : String) (c : CacheEntry)
          → get j (put h (lib.dumps (entry_of lib k)) entries) ≡ some raw
          → lib.loads raw ≡ some c
          → (k' : ApiKey) × (fetch_key j c.public_key keys ≡ some k') × (c ≡ entry_of lib k')
      entry j raw c e q = elim (Bool-cases (h == j)) [
        | inl same ↦
            let raw_eq : lib.dumps (entry_of lib k) ≡ raw =
              ground (arith, get-put h j (lib.dumps (entry_of lib k)) entries) in
            let c_eq : entry_of lib k ≡ c =
              some-eq (sym (json (entry_of lib k)) ∙ ap lib.loads raw_eq ∙ q) in
            (
              k,
              ap₂ (λ a b. fetch_key a b keys) (sym ((text_key.same_iff h j).0 same))
                    (ap (λ (x : CacheEntry). x.public_key) (sym c_eq)
                      ∙ (fetch_key_sound h p keys k found).1)
                  ∙ found,
              sym c_eq,
            )
        | inr differs ↦
            consistent.0 j raw c (ground (arith, get-put h j (lib.dumps (entry_of lib k)) entries))
              q
      ]

      unread : {c : CacheEntry} → ◌≡◌ {A = Option CacheEntry} (some c) none → ⊥
      unread e = cc

      whole :
          (j raw : String)
          → get j (put h (lib.dumps (entry_of lib k)) entries) ≡ some raw
          → lib.loads raw ≡ none
          → lib.is_no_object raw ≡ false
      whole j raw e q = elim (Bool-cases (h == j)) [
        | inl same ↦
            let raw_eq : lib.dumps (entry_of lib k) ≡ raw =
              ground (arith, get-put h j (lib.dumps (entry_of lib k)) entries) in
            absurd (unread (sym (json (entry_of lib k)) ∙ ap lib.loads raw_eq ∙ q))
        | inr differs ↦
            consistent.1 j raw (ground (arith, get-put h j (lib.dumps (entry_of lib k)) entries)) q
      ]

  cache_put-Consistent :
      ((c : CacheEntry) → lib.loads (lib.dumps c) ≡ some c)
      → (keys : List ApiKey) (h p : String) (k : ApiKey) (redis : Option (Dict String String))
      → fetch_key h p keys ≡ some k
      → Consistent lib keys redis
      → Consistent lib keys (cache_put lib faults h k redis)
  unfolding cache_put
  cache_put-Consistent json keys h p k none found consistent = tt
  cache_put-Consistent json keys h p k (some entries) found consistent =
      elim (Bool-cases faults.write_fails) [
        | inl t ↦ rw t consistent
        | inr t ↦ rw t (put-Consistent json keys h p k entries found consistent)
      ]

  -- The keys stay, and the cache stays or gets the entry of a key that Postgres has.
  abbrev Writes : String → String → Verifier → Verifier → Type 0
  Writes h p v w =
      (w.keys ≡ v.keys)
      × ((w.redis ≡ v.redis)
          ⊎ ((k : ApiKey) × (fetch_key h p v.keys ≡ some k)
              × (w.redis ≡ cache_put lib faults h k v.redis)))

  verify_stored-Writes :
      (h p : String) (v : Verifier) → Writes h p v (verify_stored lib faults now h p v).1
  unfolding verify_stored
  verify_stored-Writes h p v = elim (Option-cases (fetch_key h p v.keys)) [
    | inl e ↦ (ground (arith, e), inl (ground (arith, e)))
    | inr (k, e) ↦ elim (Bool-cases (is_expired k.expires_at now)) [
      | inl t ↦ (ground (arith, e), inl (ground (arith, e, t)))
      | inr t ↦ (ground (arith, e, t), inr (k, e, ground (arith, e, t)))
    ]
  ]

  verify_cached-Writes :
      (h p : String) (o : Option CacheEntry) (v : Verifier)
      → Writes h p v (verify_cached lib faults now h p o v).1
  verify_cached-Writes h p none v = unfold verify_cached in verify_stored-Writes h p v
  verify_cached-Writes h p (some c) v = elim (Bool-cases (c.public_key == p)) [
    | inl t ↦
        (unfold verify_cached in ground (arith, t), inl (unfold verify_cached in ground (arith, t)))
    | inr t ↦ unfold verify_cached in rw t (verify_stored-Writes h p v)
  ]

  verify_keys-failed :
      (p s : String) (v : Verifier) (x : AuthFailure)
      → let h = hash_secret lib.sha256 lib.salt s in
        (cache_get lib faults h v.redis).0 ≡ err x
        → verify_keys lib faults now (p, s) v
          ≡ (err x, record v { redis = (cache_get lib faults h v.redis).1 })
  unfolding verify_keys
  verify_keys-failed p s v x e = rw (e, verify_keys)

module _ (lib : AuthLibrary) where
  -- The same keys, and a consistent cache.
  abbrev pub IsKept : Verifier → Verifier → Type 0
  IsKept v w = (w.keys ≡ v.keys) × Consistent lib w.keys w.redis

module _ (lib : AuthLibrary) (faults : Faults) (now : ℕ)
    (json : (c : CacheEntry) → lib.loads (lib.dumps c) ≡ some c) where
  Writes-IsKept :
      (h p : String) (v u w : Verifier)
      → u.keys ≡ v.keys
      → Consistent lib u.keys u.redis
      → Writes lib faults now h p u w
      → IsKept lib v w
  Writes-IsKept h p v u w e c (same, inl r) =
      (same ∙ e, subst₂ (Consistent lib) (sym same) (sym r) c)
  Writes-IsKept h p v u w e c (same, inr (k, found, r)) = (
    same ∙ e,
    subst₂ (Consistent lib) (sym same) (sym r)
        (cache_put-Consistent lib faults now json u.keys h p k u.redis found c),
  )

  verify_keys-IsKept :
      (p s : String) (v : Verifier)
      → Consistent lib v.keys v.redis
      → IsKept lib v (verify_keys lib faults now (p, s) v).1
  verify_keys-IsKept p s v consistent = go (cache_get lib faults h v.redis).0 refl
    where
      h : String
      h = hash_secret lib.sha256 lib.salt s

      u : Verifier
      u = record v { redis = (cache_get lib faults h v.redis).1 }

      read : Consistent lib u.keys u.redis
      read = cache_get-Consistent lib v.keys faults h v.redis consistent

      go :
          (r : Result AuthFailure (Option CacheEntry))
          → (cache_get lib faults h v.redis).0 ≡ r
          → IsKept lib v (verify_keys lib faults now (p, s) v).1
      go (err x) q =
          subst (λ (o : Result AuthFailure AuthContext × Verifier). IsKept lib v o.1)
            (sym (verify_keys-failed lib faults now p s v x q)) (refl, read)
      go (ok o) q =
          subst (λ (o : Result AuthFailure AuthContext × Verifier). IsKept lib v o.1)
            (sym (verify_keys-read lib faults now p s v o q))
            (Writes-IsKept h p v u (verify_cached lib faults now h p o u).1 refl read
              (verify_cached-Writes lib faults now h p o u))

  -- Whatever is sent, and whichever calls of Redis fail, `verify` leaves the keys alone and a
  -- consistent cache consistent, if the JSON of an entry reads back.
  pub verify-IsKept :
      (authorization : Option String) (v : Verifier)
      → Consistent lib v.keys v.redis
      → IsKept lib v (verify lib faults now authorization v).1
  unfolding verify
  verify-IsKept authorization v consistent = go (parse_basic_auth lib.decode authorization)
    where
      go :
          (r : Result AuthFailure (String × String))
          → IsKept lib v
              (elim r as (λ _. Result AuthFailure AuthContext × Verifier) [
                | err e ↦ (err e, v)
                | ok keys ↦ verify_keys lib faults now keys v
              ]).1
      go (err e) = (refl, consistent)
      go (ok (p, s)) = verify_keys-IsKept p s v consistent
