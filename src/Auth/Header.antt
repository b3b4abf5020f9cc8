-- ===== src/Auth/Header.antt =====
-- `parse_basic_auth`: splitting an HTTP Basic header into the public and the secret key.
-- `decode` is `b64decode(text, validate=True).decode("utf-8")` on ASCII, `none` where either raises.
pub mod RoundTrip
use Prim.Native.Char.{Char, code}
use Prim.Native.String.{[], ◌∷◌, ◌++◌}
use open_weave.Prelude.{
  ℕ, ◌+◌, String, Bool, true, false, not, ◌&&◌, ◌||◌, Option, none, some, leb, ltb, nat_eq, is_some,
  if◌then◌else◌,
}
use open_weave.Prelude.Result.{Result, ok, err}
use open_weave.Python.{is_empty}
use open_weave.Auth.{
  AuthFailure, missing_header, not_basic, malformed_base64, not_a_pair, not_ascii,
}

-- `str.isspace` of one character, by its code point.
unfoldable pub is_space : ℕ → Bool
is_space c =
    (leb 9 c && leb c 13)
    || (leb 28 c && leb c 32)
    || nat_eq c 0x85
    || nat_eq c 0xa0
    || nat_eq c 0x1680
    || (leb 0x2000 c && leb c 0x200a)
    || nat_eq c 0x2028
    || nat_eq c 0x2029
    || nat_eq c 0x202f
    || nat_eq c 0x205f
    || nat_eq c 0x3000

-- Dropping leading white space.
unfoldable pub lstrip : String → String
lstrip [] = []
lstrip (c ∷ s) = let rest = lstrip s in if is_space (code c) then rest else c ∷ s

-- A text up to its first white space, and the text from there.
unfoldable pub first_word : String → String × String
first_word [] = ([], [])
first_word (c ∷ s) =
    let (word, rest) = first_word s in if is_space (code c) then ([], c ∷ s) else (c ∷ word, rest)

-- `header.split(None, 1)`, `none` where it gives other than two parts.
unfoldable pub split_once : String → Option (String × String)
split_once s =
    let (word, rest) = first_word (lstrip s) in
    let tail = lstrip rest in if is_empty word || is_empty tail then none else some (word, tail)

-- `text.partition(":")`, `none` where there is no separator.
unfoldable pub partition_colon : String → Option (String × String)
partition_colon [] = none
partition_colon (c ∷ s) =
    let rest = partition_colon s in
    if nat_eq (code c) b':'
    then some ([], s)
    else elim rest [ none ↦ none | some (before, after) ↦ some (c ∷ before, after) ]

abbrev pub lower_code : ℕ → ℕ
lower_code c = if leb b'A' c && leb c b'Z' then c + 32 else c

-- `text.lower() == "basic"`: no other character lowers to one of these letters.
unfoldable pub is_basic : String → Bool
is_basic (b ∷ a ∷ s ∷ i ∷ c ∷ []) =
    nat_eq (lower_code (code b)) b'b'
    && nat_eq (lower_code (code a)) b'a'
    && nat_eq (lower_code (code s)) b's'
    && nat_eq (lower_code (code i)) b'i'
    && nat_eq (lower_code (code c)) b'c'
is_basic _ = false

unfoldable pub is_ascii : String → Bool
is_ascii [] = true
is_ascii (c ∷ s) = ltb (code c) 128 && is_ascii s

-- `if not sep or not public_key or not secret_key`
unfoldable pub split_keys : String → Result AuthFailure (String × String)
split_keys decoded = elim (partition_colon decoded) [
  | none ↦ err not_a_pair
  | some (public_key, secret_key) ↦
      if is_empty public_key || is_empty secret_key
      then err not_a_pair
      else ok (public_key, secret_key)
]

unfoldable pub decode_keys :
    (String → Option String) → String → Result AuthFailure (String × String)
decode_keys decode text =
    if is_ascii text
    then elim (decode text) [ none ↦ err malformed_base64 | some decoded ↦ split_keys decoded ]
    else err not_ascii

unfoldable pub parse_basic_auth :
    (String → Option String) → Option String → Result AuthFailure (String × String)
parse_basic_auth decode none = err missing_header
parse_basic_auth decode (some header) =
    if is_empty header then err missing_header else elim (split_once header) [
      | none ↦ err not_basic
      | some (scheme, text) ↦ if is_basic scheme then decode_keys decode text else err not_basic
    ]

-- The header that the SDK and the experiment runner send.
unfoldable pub basic_header : (String → String) → String → String → String
basic_header encode public_key secret_key = "Basic " ++ encode (public_key ++ (":" ++ secret_key))
