-- ===== src/Auth/Header/RoundTrip.antt =====
-- The header of the SDK parses back to its keys.
use Prim.Native.Char.{Char, code}
use Prim.Native.String.{[], ◌∷◌, ◌++◌}
use mathlib.Core.Path.{subst}
use text.Mathlib.TextLemmas.{nil-append, cons-append}
use open_weave.Prelude.{
  String, ◌≡◌, refl, ◌≢◌, true, false, Option, none, some, arith, nat_eq, if◌then◌else◌, ap, ◌∙◌,
  Bool-cases, Option-cases, ◌⊎◌, inl, inr,
}
use open_weave.Prelude.Result.{ok}
use open_weave.Python.{is_empty}
use open_weave.Auth.Header.{
  is_space, lstrip, first_word, split_once, partition_colon, is_basic, is_ascii, split_keys,
  decode_keys, parse_basic_auth, basic_header,
}

-- No character of the text is a colon.
abbrev pub NoColon : String → Type 0
NoColon [] = Unit
NoColon (c ∷ s) = (code c ≢ b':') × NoColon s

-- The text does not begin with white space, and is not empty.
abbrev pub StartsSolid : String → Type 0
StartsSolid [] = ⊥
StartsSolid (c ∷ s) = is_space (code c) ≡ false

colon-append : (s : String) → ":" ++ s ≡ (let colon : Char = ":" in colon ∷ s)
colon-append s =
    let colon : Char = ":" in cons-append colon [] s ∙ ap (λ t. colon ∷ t) (nil-append s)

partition_colon-cons :
    (c : Char) (s : String) (before after : String)
    → code c ≢ b':'
    → partition_colon s ≡ some (before, after)
    → partition_colon (c ∷ s) ≡ some (c ∷ before, after)
unfolding partition_colon
partition_colon-cons c s before after h e = ground arith

partition_colon-colon : (s : String) → partition_colon (":" ++ s) ≡ some ([], s)
unfolding partition_colon
partition_colon-colon s = ap partition_colon (colon-append s)

partition_colon-append :
    (before after : String)
    → NoColon before
    → partition_colon (before ++ (":" ++ after)) ≡ some (before, after)
partition_colon-append [] after h =
    ap partition_colon (nil-append (":" ++ after)) ∙ partition_colon-colon after
partition_colon-append (c ∷ s) after h =
    ap partition_colon (cons-append c s (":" ++ after))
    ∙ partition_colon-cons c (s ++ (":" ++ after)) s after h.0 (partition_colon-append s after h.1)

lstrip-StartsSolid : (s : String) → StartsSolid s → lstrip s ≡ s
unfolding lstrip
lstrip-StartsSolid [] h = elim h [ ]
lstrip-StartsSolid (c ∷ s) h = rw h

not-is_empty : (s : String) → StartsSolid s → is_empty s ≡ false
not-is_empty [] h = elim h [ ]
not-is_empty (c ∷ s) h = refl

-- "Basic " and a text, character by character.
abbrev with_basic : String → String
with_basic s =
    let b : Char = "B" in
    let a : Char = "a" in
    let s' : Char = "s" in
    let i : Char = "i" in
    let c : Char = "c" in let blank : Char = " " in b ∷ a ∷ s' ∷ i ∷ c ∷ blank ∷ s

basic-append : (s : String) → "Basic " ++ s ≡ with_basic s
basic-append s =
    rw (cons-append, cons-append, cons-append, cons-append, cons-append, cons-append, nil-append)

split_once-with_basic :
    (text : String) → StartsSolid text → split_once (with_basic text) ≡ some ("Basic", text)
unfolding split_once first_word lstrip is_space
split_once-with_basic text h = rw (lstrip-StartsSolid text h, not-is_empty text h)

parse_basic_auth-with_basic :
    (decode : String → Option String) (text : String)
    → StartsSolid text
    → parse_basic_auth decode (some (with_basic text)) ≡ decode_keys decode text
unfolding parse_basic_auth is_basic
parse_basic_auth-with_basic decode text h = rw (split_once-with_basic text h)

decode_keys-ok :
    (decode : String → Option String) (text decoded public_key secret_key : String)
    → is_ascii text ≡ true
    → decode text ≡ some decoded
    → partition_colon decoded ≡ some (public_key, secret_key)
    → is_empty public_key ≡ false
    → is_empty secret_key ≡ false
    → decode_keys decode text ≡ ok (public_key, secret_key)
unfolding decode_keys split_keys
decode_keys-ok decode text decoded public_key secret_key a d q p s = ground arith

-- The SDK's header for two keys parses back to them, if the public key is not empty and holds no
-- colon, the secret key is not empty, and base64 of their pair is ASCII, begins with no white
-- space, and decodes to the pair.
pub parse_basic_auth-basic_header :
    (encode : String → String) (decode : String → Option String) (public_key secret_key : String)
    → is_empty public_key ≡ false
    → is_empty secret_key ≡ false
    → NoColon public_key
    → (let pair = public_key ++ (":" ++ secret_key) in
        StartsSolid (encode pair)
        × (is_ascii (encode pair) ≡ true)
        × (decode (encode pair) ≡ some pair))
    → parse_basic_auth decode (some (basic_header encode public_key secret_key))
      ≡ ok (public_key, secret_key)
unfolding basic_header
parse_basic_auth-basic_header encode decode public_key secret_key p s colon
      (solid, ascii, decoded) =
    let pair = public_key ++ (":" ++ secret_key) in
    ap (λ header. parse_basic_auth decode (some header)) (basic-append (encode pair))
    ∙ parse_basic_auth-with_basic decode (encode pair) solid
    ∙ decode_keys-ok decode (encode pair) pair public_key secret_key ascii decoded
        (partition_colon-append public_key secret_key colon) p s

partition_colon-NoColon :
    (s before after : String) → partition_colon s ≡ some (before, after) → NoColon before
unfolding partition_colon
partition_colon-NoColon [] before after h = cc
partition_colon-NoColon (c ∷ s) before after h =
    go (partition_colon s) (partition_colon-NoColon s) (Bool-cases (nat_eq (code c) b':')) h
  where
    go :
        (o : Option (String × String))
        → ((b a : String) → o ≡ some (b, a) → NoColon b)
        → (nat_eq (code c) b':' ≡ true) ⊎ (nat_eq (code c) b':' ≡ false)
        → (if nat_eq (code c) b':'
            then some ([], s)
            else elim o as (λ _. Option (String × String)) [
              | none ↦ none
              | some (b, a) ↦ some (c ∷ b, a)
            ])
          ≡ some (before, after)
        → NoColon before
    go o ih (inl t) e = let q : [] ≡ before = ground arith in subst NoColon q tt
    go none ih (inr t) e = absurd (ground arith)
    go (some (b, a)) ih (inr t) e =
        let q : c ∷ b ≡ before = ground arith in subst NoColon q (ground arith, ih b a refl)

split_keys-eq-ok :
    (decoded public_key secret_key : String)
    → split_keys decoded ≡ ok (public_key, secret_key)
    → (partition_colon decoded ≡ some (public_key, secret_key))
      × (is_empty public_key ≡ false)
      × (is_empty secret_key ≡ false)
unfolding split_keys
split_keys-eq-ok decoded public_key secret_key h = ground arith

decode_keys-eq-ok :
    (decode : String → Option String) (text public_key secret_key : String)
    → decode_keys decode text ≡ ok (public_key, secret_key)
    → (decoded : String) × (split_keys decoded ≡ ok (public_key, secret_key))
unfolding decode_keys
decode_keys-eq-ok decode text public_key secret_key h = elim (Option-cases (decode text)) [
  | inl e ↦ absurd (ground arith)
  | inr (decoded, e) ↦ (decoded, ground arith)
]

parsed-decode_keys :
    (decode : String → Option String) (header : Option String) (public_key secret_key : String)
    → parse_basic_auth decode header ≡ ok (public_key, secret_key)
    → (text : String) × (decode_keys decode text ≡ ok (public_key, secret_key))
unfolding parse_basic_auth
parsed-decode_keys decode none public_key secret_key h = cc
parsed-decode_keys decode (some header) public_key secret_key h =
    elim (Option-cases (split_once header)) [
      | inl e ↦ absurd (ground arith)
      | inr ((scheme, text), e) ↦ (text, ground arith)
    ]

-- Whatever header is sent: a pair that is accepted has two keys that are not empty, and a public
-- key with no colon in it.
pub parse_basic_auth-eq-ok :
    (decode : String → Option String) (header : Option String) (public_key secret_key : String)
    → parse_basic_auth decode header ≡ ok (public_key, secret_key)
    → (is_empty public_key ≡ false) × (is_empty secret_key ≡ false) × NoColon public_key
parse_basic_auth-eq-ok decode header public_key secret_key h =
    let (text, d) = parsed-decode_keys decode header public_key secret_key h in
    let (decoded, k) = decode_keys-eq-ok decode text public_key secret_key d in
    let (q, p, s) = split_keys-eq-ok decoded public_key secret_key k in
    (p, s, partition_colon-NoColon decoded public_key secret_key q)
