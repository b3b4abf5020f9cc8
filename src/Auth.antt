-- ===== src/Auth.antt =====
-- agent-observability/shared/auth.py: keys, the authorization header, and the verifier with its cache.
pub mod Header
pub mod Verifier
use open_weave.Prelude.{String, Bool, Option, none, some}
use Prim.Native.String.{◌++◌}

-- `AuthError` by its message. `not_ascii` is the ValueError of `b64decode` on a text with other than
-- ASCII characters, which is no `binascii.Error` and so is not turned into an AuthError, and
-- `cache_error` is what a failing delete in the cache raises, or a cached text that is no object.
pub data AuthFailure : Type 0 where
  missing_header not_basic malformed_base64 not_a_pair invalid_credentials credentials_expired :
      AuthFailure
  not_ascii cache_error : AuthFailure

abbrev pub public_prefix : String
public_prefix = "pk-ow-"

abbrev pub secret_prefix : String
secret_prefix = "sk-ow-"

pub record AuthContext : Type 0 where
  pub project_id : String
  pub api_key_id : String

-- `generate_key_pair` on the two random texts of `secrets.token_urlsafe`.
unfoldable pub generate_key_pair : String → String → String × String
generate_key_pair public_token secret_token =
    (public_prefix ++ public_token, secret_prefix ++ secret_token)

-- `hash_secret`: `sha256` is the hex digest of a text's UTF-8 bytes.
unfoldable pub hash_secret : (String → String) → String → String → String
hash_secret sha256 salt secret_key = sha256 (secret_key ++ salt)
