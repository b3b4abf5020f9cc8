-- ===== src/Tests/Auth.antt =====
-- The theorems on credentials at concrete inputs.
use Prim.Native.Char.{Char, code}
use open_weave.Prelude.{
  ℕ, zero, suc, arith, ap, ap₂, sym, ◌∙◌, Bool-cases, inl, inr, nat_eq, String, ◌≡◌, refl, true,
  false, Option, none, some, [], ◌∷◌, ◌==◌, if◌then◌else◌, text_key,
}
use open_weave.Prelude.Dict.{get}
use open_weave.Prelude.Result.{ok, err}
use open_weave.Auth.{invalid_credentials}
use open_weave.Auth.Header.{
  parse_basic_auth, basic_header, is_space, lstrip, first_word, split_once, partition_colon,
  is_basic, is_ascii, split_keys, decode_keys,
}
use open_weave.Auth.Header.RoundTrip.{parse_basic_auth-basic_header}
use open_weave.Auth.Verifier.{
  ApiKey, CacheEntry, Faults, Verifier, AuthLibrary, entry_of, fetch_key, verify,
}
use open_weave.Auth.Verifier.Transparency.{Consistent, without_cache, verify-transparent}
use open_weave.Auth.Verifier.Upkeep.{IsKept, verify-IsKept}
use open_weave.Auth.Verifier.Revocation.{revoke, verify-revoke}

-- One pair of keys and its base64 text.
abbrev encode : String → String
encode s = "cGs6c2s="

abbrev decode : String → Option String
decode s = if s == "cGs6c2s=" then some "pk:sk" else none

parse_basic_auth-basic_header_example :
    parse_basic_auth decode (some (basic_header encode "pk" "sk")) ≡ ok ("pk", "sk")
unfolding is_space is_ascii
parse_basic_auth-basic_header_example =
    parse_basic_auth-basic_header encode decode "pk" "sk" refl refl
      ((λ e. omega (arith, e)), ((λ e. omega (arith, e)), tt)) (refl, refl, refl)

-- Instants and entries as texts that read back.
abbrev tally : ℕ → String
tally zero = String.[]
tally (suc n) = let c : Char = "x" in String.◌∷◌ c (tally n)

abbrev count : String → ℕ
count String.[] = 0
count (String.◌∷◌ c s) = suc (count s)

count-tally : (n : ℕ) → count (tally n) ≡ n
count-tally zero = refl
count-tally (suc n) = ap suc (count-tally n)

abbrev quote : String → String → String
quote String.[] rest = let e : Char = "e" in String.◌∷◌ e rest
quote (String.◌∷◌ c s) rest = let x : Char = "c" in String.◌∷◌ x (String.◌∷◌ c (quote s rest))

abbrev cons_to : Char → Option (String × String) → Option (String × String)
cons_to c none = none
cons_to c (some (s, rest)) = some (String.◌∷◌ c s, rest)

abbrev unquote : String → Option (String × String)
unquote String.[] = none
unquote (String.◌∷◌ x String.[]) = if nat_eq (code x) b'e' then some ("", "") else none
unquote (String.◌∷◌ x (String.◌∷◌ c t)) =
    let rest = unquote t in
    if nat_eq (code x) b'e' then some ("", String.◌∷◌ c t) else cons_to c rest

unquote-quote : (s rest : String) → unquote (quote s rest) ≡ some (s, rest)
unquote-quote String.[] String.[] = refl
unquote-quote String.[] (String.◌∷◌ c t) = refl
unquote-quote (String.◌∷◌ c s) rest = ap (cons_to c) (unquote-quote s rest)

abbrev write : CacheEntry → String
write c = quote c.project_id (
    quote c.api_key_id (quote c.public_key (elim c.expires_at [ none ↦ "" | some t ↦ quote t "" ])))

abbrev last_of : Option (String × String) → Option String
last_of none = none
last_of (some (s, _)) = some s

abbrev and_then : {A B : Type 0} → Option A → (A → Option B) → Option B
and_then none f = none
and_then (some a) f = f a

abbrev read : String → Option CacheEntry
read s = and_then (unquote s) λ a. and_then (unquote a.1) λ b. and_then (unquote b.1) λ c.
    some (record {
      project_id = a.0;
      api_key_id = b.0;
      public_key = c.0;
      expires_at = last_of (unquote c.1);
    })

read-write_fields :
    (p k u : String) (t : Option String)
    → let c : CacheEntry = record {
      project_id = p;
      api_key_id = k;
      public_key = u;
      expires_at = t;
    } in
      read (write c) ≡ some c
read-write_fields p k u none = simp (unquote-quote)
read-write_fields p k u (some t) = simp (unquote-quote)

read-write : (c : CacheEntry) → read (write c) ≡ some c
read-write c = read-write_fields c.project_id c.api_key_id c.public_key c.expires_at

abbrev lib : AuthLibrary
lib = record {
  decode = decode;
  sha256 = λ s. s;
  salt = "";
  dumps = write;
  loads = read;
  is_no_object = λ s. false;
  isoformat = tally;
  fromisoformat = count;
}

abbrev key : ApiKey
key = record {
  id = "k1";
  project_id = "p1";
  public_key = "pk";
  hashed_secret_key = "sk";
  expires_at = some 100;
}

-- Redis reads, deletes and writes, but for the reads.
abbrev faults : Faults
faults = record { read_fails = true; delete_fails = false; write_fails = false }

-- The verifier with the key's entry in its cache.
abbrev warm : Verifier
warm = record {
  keys = key ∷ [];
  redis = some (("sk", write (entry_of lib key)) ∷ []);
  stats = record { cache_hit = 0; cache_miss = 0; reject = 0 };
}

abbrev last_entry : (String → Option CacheEntry) → Option String → Option CacheEntry
last_entry f none = none
last_entry f (some s) = f s

some_injective : {a b : CacheEntry} → ◌≡◌ {A = Option CacheEntry} (some a) (some b) → a ≡ b
some_injective e = cc

warm-Consistent : Consistent lib warm.keys warm.redis
unfolding get fetch_key
warm-Consistent = (entries, λ h raw e q. refl)
  where
    entries :
        (h raw : String) (c : CacheEntry)
        → get h (("sk", write (entry_of lib key)) ∷ []) ≡ some raw
        → read raw ≡ some c
        → (k : ApiKey) × (fetch_key h c.public_key (key ∷ []) ≡ some k) × (c ≡ entry_of lib k)
    entries h raw c found loaded =
        let entry = entry_of lib key in
        elim (Bool-cases ("sk" == h)) [
          | inl t ↦
              let raw_eq : some (write entry) ≡ some raw =
                sym (ap (λ b. if b then some (write entry) else none) t) ∙ found in
              let read_eq : some entry ≡ some c =
                sym (read-write entry) ∙ ap (last_entry read) raw_eq ∙ loaded in
              let same : c ≡ entry = sym (some_injective read_eq) in
              (
                key,
                ap₂ (λ a b. fetch_key a b (key ∷ [])) (sym ((text_key.same_iff "sk" h).0 t))
                    (ap (λ (e : CacheEntry). e.public_key) same),
                same,
              )
          | inr t ↦ ground (arith, sym found ∙ ap (λ b. if b then some (write entry) else none) t)
        ]

verify-transparent_example :
    (verify lib faults 50 (some "Basic cGs6c2s=") warm).0
    ≡ (verify lib faults 50 (some "Basic cGs6c2s=") (without_cache warm)).0
verify-transparent_example =
    verify-transparent lib faults 50 count-tally refl (some "Basic cGs6c2s=") warm warm-Consistent

verify-IsKept_example : IsKept lib warm (verify lib faults 50 (some "Basic cGs6c2s=") warm).1
verify-IsKept_example =
    verify-IsKept lib faults 50 read-write (some "Basic cGs6c2s=") warm warm-Consistent

verify-revoke_example :
    (verify lib faults 50 (some "Basic cGs6c2s=") (revoke lib faults 50 "sk" warm)).0
    ≡ err invalid_credentials
unfolding parse_basic_auth split_once lstrip first_word is_space is_basic decode_keys is_ascii
    split_keys partition_colon
verify-revoke_example = verify-revoke lib faults 50 (some "Basic cGs6c2s=") "pk" "sk" warm refl
