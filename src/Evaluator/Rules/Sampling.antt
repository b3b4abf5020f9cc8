-- ===== src/Evaluator/Rules/Sampling.antt =====
-- The share of a sampling rate.
use Prim.Native.Char.{code}
use open_weave.Prelude.{
  ℕ, zero, suc, ◌+◌, ◌*◌, ◌^◌, ◌≤◌, ◌<◌, String, ◌≡◌, Bool, true, arith, leb, ◌&&◌, ◌||◌,
}
use open_weave.Worker.Stream.{take_text}
use open_weave.Evaluator.Rules.{digit, int_of_hex, sample_hash}

-- A text of hexadecimal digits, such as `hexdigest` gives.
abbrev pub is_hex : String → Bool
is_hex String.[] = true
is_hex (String.◌∷◌ c s) =
    ((leb b'0' (code c) && leb (code c) b'9') || (leb b'a' (code c) && leb (code c) b'f'))
    && is_hex s

digit-lt :
    (c : ℕ) → ((leb b'0' c && leb c b'9') || (leb b'a' c && leb c b'f')) ≡ true → digit c < 16
unfolding digit
digit-lt c h = ground (arith, h)

-- `bound` times 16, `k` times over.
abbrev scale : ℕ → ℕ → ℕ
scale zero bound = bound
scale (suc k) bound = scale k (16 * bound)

le-scale : (k bound : ℕ) → bound ≤ scale k bound
le-scale zero bound = omega arith
le-scale (suc k) bound = omega (arith, le-scale k (16 * bound))

-- Each digit multiplies the bound by 16.
int_of_hex-lt :
    (k n bound : ℕ) (s : String)
    → is_hex s ≡ true
    → n < bound
    → int_of_hex n (take_text k s) < scale k bound
unfolding int_of_hex take_text
int_of_hex-lt zero n bound s h l = l
int_of_hex-lt (suc k) n bound String.[] h l = omega (arith, l, le-scale (suc k) bound)
int_of_hex-lt (suc k) n bound (String.◌∷◌ c s) h l =
    let smaller : 16 * n + digit (code c) < 16 * bound =
      omega (arith, l, digit-lt (code c) (ground (arith, h))) in
    int_of_hex-lt k (16 * n + digit (code c)) (16 * bound) s (ground (arith, h)) smaller

-- The roll of a trace lies below 2^32, whatever its id, if SHA-256 gives hexadecimal digits: a rate
-- of 1 samples every trace.
pub sample_hash-lt :
    (sha256 : String → String) (trace_id : String)
    → is_hex (sha256 trace_id) ≡ true
    → sample_hash sha256 trace_id < 2 ^ 32
unfolding sample_hash
sample_hash-lt sha256 trace_id h = int_of_hex-lt 8 0 1 (sha256 trace_id) h (omega arith)
