-- ===== src/Protocol/Checks/Status.antt =====
-- The values of :status that tryParseStatusCode accepts (src/http2_protocol.cpp).
use chttp.Prelude.{ℕ, ◌+◌, ◌/◌, ◌%◌, ◌≤◌, ◌≡◌, ◌↔◌, List, [], ◌∷◌, some, arith}
use chttp.Protocol.Checks.{is_digit, status_digits, try_parse_status_code}

-- The three decimal digits of a status code.
abbrev pub status_text : ℕ → List ℕ
status_text n = (0x30 + n / 100) ∷ (0x30 + n / 10 % 10) ∷ (0x30 + n % 10) ∷ []

-- A status code from 100 to 599 is read from its three digits, and nothing else is read.
pub try_parse_status_code_exact :
    (value : List ℕ) (n : ℕ)
    → (try_parse_status_code value ≡ some n) ↔ ((100 ≤ n) × (n ≤ 599) × (value ≡ status_text n))
unfolding try_parse_status_code status_digits is_digit
try_parse_status_code_exact [] n = ground arith
try_parse_status_code_exact (a ∷ []) n = ground arith
try_parse_status_code_exact (a ∷ b ∷ []) n = ground arith
try_parse_status_code_exact (a ∷ b ∷ c ∷ []) n = ground arith
try_parse_status_code_exact (a ∷ b ∷ c ∷ d ∷ s) n = ground arith
