-- ===== src/Auth/Verifier/Transparency.antt =====
-- The cache of `verify` is transparent: with a consistent cache the answer is Postgres's.
use mathlib.Core.Path.{subst}
use open_weave.Prelude.{
  ℕ, String, ◌≡◌, refl, ◌⊎◌, inl, inr, true, false, Option, none, some, List, arith, ◌==◌,
  if◌then◌else◌, text_key, Bool-cases, Option-cases, ap, sym, ◌∙◌,
}
use open_weave.Prelude.Dict.{Dict, get, remove, get-remove}
use open_weave.Prelude.Result.{Result, ok, err}
use open_weave.Python.{is_empty}
use open_weave.Auth.{AuthFailure, AuthContext, hash_secret}
use open_weave.Auth.Header.{parse_basic_auth}
use open_weave.Auth.Verifier.{
  ApiKey, CacheEntry, Faults, Verifier, AuthLibrary, text_time, time_text, fetch_key,
  cached_context, entry_of, cache_get, verify_stored, verify_cached, verify_keys, verify,
}

module _ (lib : AuthLibrary) where
  -- Every entry that parses was written for a key that Postgres has under that hash.
  abbrev pub Consistent : List ApiKey → Option (Dict String String) → Type 0
  Consistent keys none = Unit
  Consistent keys (some entries) =
      ((h raw : String) (c : CacheEntry)
        → get h entries ≡ some raw
        → lib.loads raw ≡ some c
        → (k : ApiKey) × (fetch_key h c.public_key keys ≡ some k) × (c ≡ entry_of lib k))
      × ((h raw : String)
          → get h entries ≡ some raw
          → lib.loads raw ≡ none
          → lib.is_no_object raw ≡ false)

  cache_get-some :
      (keys : List ApiKey) (faults : Faults) (h : String) (redis : Option (Dict String String))
      (c : CacheEntry)
      → Consistent keys redis
      → (cache_get lib faults h redis).0 ≡ ok (some c)
      → (k : ApiKey) × (fetch_key h c.public_key keys ≡ some k) × (c ≡ entry_of lib k)
  unfolding cache_get
  cache_get-some keys faults h none c consistent e = absurd (ground arith)
  cache_get-some keys faults h (some entries) c consistent e = elim (Option-cases (get h entries)) [
    | inl q ↦ absurd (ground arith)
    | inr (raw, q) ↦ consistent.0 h raw c q (ground arith)
  ]

  cache_get-ok :
      (keys : List ApiKey) (faults : Faults) (h : String) (redis : Option (Dict String String))
      → Consistent keys redis
      → faults.delete_fails ≡ false
      → (o : Option CacheEntry) × ((cache_get lib faults h redis).0 ≡ ok o)
  unfolding cache_get
  cache_get-ok keys faults h none consistent e = (none, refl)
  cache_get-ok keys faults h (some entries) consistent e = elim (Option-cases (get h entries)) [
    | inl q ↦ (none, ground arith)
    | inr (raw, q) ↦ elim (Option-cases (lib.loads raw)) [
      | inl p ↦ let read = consistent.1 h raw q p in (none, ground arith)
      | inr (c, p) ↦
          (if faults.read_fails then none else if is_empty raw then none else some c, ground arith)
    ]
  ]

  remove-Consistent :
      (keys : List ApiKey) (h : String) (entries : Dict String String)
      → Consistent keys (some entries)
      → Consistent keys (some (remove h entries))
  remove-Consistent keys h entries consistent = (
    λ j raw c e p. consistent.0 j raw c (ground (arith, get-remove h j entries)) p,
    λ j raw e p. consistent.1 j raw (ground (arith, get-remove h j entries)) p,
  )

  cache_get_cases :
      (faults : Faults) (h : String) (entries : Dict String String)
      → ((cache_get lib faults h (some entries)).1 ≡ some entries)
        ⊎ ((cache_get lib faults h (some entries)).1 ≡ some (remove h entries))
  unfolding cache_get
  cache_get_cases faults h entries = ground arith

  pub cache_get-Consistent :
      (keys : List ApiKey) (faults : Faults) (h : String) (redis : Option (Dict String String))
      → Consistent keys redis
      → Consistent keys (cache_get lib faults h redis).1
  cache_get-Consistent keys faults h none consistent = unfold cache_get in tt
  cache_get-Consistent keys faults h (some entries) consistent =
      elim (cache_get_cases faults h entries) [
        | inl e ↦ subst (Consistent keys) (sym e) consistent
        | inr e ↦ subst (Consistent keys) (sym e) (remove-Consistent keys h entries consistent)
      ]

abbrev pub without_cache : Verifier → Verifier
without_cache v = record v { redis = none }

module _ (lib : AuthLibrary) (faults : Faults) (now : ℕ) where
  -- Postgres's answer depends on its table alone.
  verify_stored-keys :
      (h p : String) (v w : Verifier)
      → v.keys ≡ w.keys
      → (verify_stored lib faults now h p v).0 ≡ (verify_stored lib faults now h p w).0
  unfolding verify_stored
  verify_stored-keys h p v w e = let same = ap (fetch_key h p) e in ground (arith, same)

  stored_expiry :
      ((t : ℕ) → lib.fromisoformat (lib.isoformat t) ≡ t)
      → (o : Option ℕ) → text_time lib.fromisoformat (time_text lib.isoformat o) ≡ o
  stored_expiry iso none = refl
  stored_expiry iso (some t) = ap some (iso t)

  verify_cached-hit :
      ((t : ℕ) → lib.fromisoformat (lib.isoformat t) ≡ t)
      → (h p : String) (c : CacheEntry) (k : ApiKey) (v w : Verifier) → (c.public_key == p) ≡ true
      → fetch_key h p w.keys ≡ some k
      → c ≡ entry_of lib k
      → (verify_cached lib faults now h p (some c) v).0 ≡ (verify_stored lib faults now h p w).0
  unfolding verify_cached verify_stored
  verify_cached-hit iso h p c k v w same found is_entry =
      let expiry =
        ap (λ (a : CacheEntry). text_time lib.fromisoformat a.expires_at) is_entry
        ∙ stored_expiry iso k.expires_at in
      let context = ap cached_context is_entry in ground (arith, expiry, context, same, found)

  verify_cached-transparent :
      ((t : ℕ) → lib.fromisoformat (lib.isoformat t) ≡ t)
      → (h p : String) (o : Option CacheEntry) (v w : Verifier) → v.keys ≡ w.keys
      → ((c : CacheEntry)
          → o ≡ some c
          → (k : ApiKey) × (fetch_key h c.public_key w.keys ≡ some k) × (c ≡ entry_of lib k))
      → (verify_cached lib faults now h p o v).0 ≡ (verify_stored lib faults now h p w).0
  verify_cached-transparent iso h p none v w e known =
      unfold verify_cached in verify_stored-keys h p v w e
  verify_cached-transparent iso h p (some c) v w e known =
      let (k, found, is_entry) = known c refl in
      elim (Bool-cases (c.public_key == p)) [
        | inl same ↦
            let q = (text_key.same_iff c.public_key p).0 same in
            verify_cached-hit iso h p c k v w same (ap (λ a. fetch_key h a w.keys) (sym q) ∙ found)
              is_entry
        | inr differs ↦ unfold verify_cached in rw differs (verify_stored-keys h p v w e)
      ]

  verify_cached-none :
      (h p : String) (v : Verifier)
      → verify_cached lib faults now h p none v ≡ verify_stored lib faults now h p v
  unfolding verify_cached
  verify_cached-none h p v = refl

  pub verify_keys-read :
      (p s : String) (v : Verifier) (o : Option CacheEntry)
      → let h = hash_secret lib.sha256 lib.salt s in
        (cache_get lib faults h v.redis).0 ≡ ok o
        → verify_keys lib faults now (p, s) v
          ≡ verify_cached lib faults now h p o
              (record v { redis = (cache_get lib faults h v.redis).1 })
  unfolding verify_keys
  verify_keys-read p s v o e = rw (e, verify_keys)

  cache_get-none : (h : String) → (cache_get lib faults h none).0 ≡ ok none
  unfolding cache_get
  cache_get-none h = refl

  verify_keys-transparent :
      ((t : ℕ) → lib.fromisoformat (lib.isoformat t) ≡ t)
      → faults.delete_fails ≡ false
      → (p s : String) (v : Verifier) → Consistent lib v.keys v.redis
      → (verify_keys lib faults now (p, s) v).0
        ≡ (verify_keys lib faults now (p, s) (without_cache v)).0
  verify_keys-transparent iso no_fault p s v consistent =
      let h = hash_secret lib.sha256 lib.salt s in
      let (o, e) = cache_get-ok lib v.keys faults h v.redis consistent no_fault in
      let w : Verifier = record v { redis = (cache_get lib faults h none).1 } in
      let v' : Verifier = record v { redis = (cache_get lib faults h v.redis).1 } in
      ap (λ (r : Result AuthFailure AuthContext × Verifier). r.0) (verify_keys-read p s v o e)
      ∙ verify_cached-transparent iso h p o v' w refl
          (λ c q. cache_get-some lib v.keys faults h v.redis c consistent (e ∙ ap ok q))
      ∙ ap (λ (r : Result AuthFailure AuthContext × Verifier). r.0) (sym (verify_cached-none h p w))
      ∙ sym (
          ap (λ (r : Result AuthFailure AuthContext × Verifier). r.0)
            (verify_keys-read p s (without_cache v) none (cache_get-none h)))

  -- With a consistent cache, `verify` accepts and rejects exactly as without one, for the same reason
  -- and with the same context, also when Redis cannot be read or written, if ISO texts of instants
  -- read back and no delete fails.
  pub verify-transparent :
      ((t : ℕ) → lib.fromisoformat (lib.isoformat t) ≡ t)
      → faults.delete_fails ≡ false
      → (authorization : Option String) (v : Verifier) → Consistent lib v.keys v.redis
      → (verify lib faults now authorization v).0
        ≡ (verify lib faults now authorization (without_cache v)).0
  unfolding verify
  verify-transparent iso no_fault authorization v consistent =
      go (parse_basic_auth lib.decode authorization)
    where
      go :
          (r : Result AuthFailure (String × String))
          → (elim r as (λ _. Result AuthFailure AuthContext × Verifier) [
            | err e ↦ (err e, v)
            | ok keys ↦ verify_keys lib faults now keys v
          ]).0
            ≡ (elim r as (λ _. Result AuthFailure AuthContext × Verifier) [
              | err e ↦ (err e, without_cache v)
              | ok keys ↦ verify_keys lib faults now keys (without_cache v)
            ]).0
      go (err e) = refl
      go (ok (p, s)) = verify_keys-transparent iso no_fault p s v consistent
