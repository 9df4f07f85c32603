-- ===== src/Http/Internal/Retries.antt =====
-- The statuses that internal/clients/gitlab retries.
use gitlab_shell.Prelude.{
  ltb, leb, ◌==◌, any, ℕ, zero, suc, ◌+◌, ◌≡◌, Bool, not, ◌&&◌, ◌||◌, List, arith,
}
use gitlab_shell.Http.Internal.{server_errors, build_retryable_statuses}

abbrev pub lists : List ℕ → ℕ → Bool
lists codes_of code = any (λ c. c == code) codes_of

lists-server_errors :
    (rounds first code : ℕ)
    → lists (server_errors rounds first) code
      ≡ (leb first code && ltb code (first + rounds) && not (code == 501))
unfolding server_errors
lists-server_errors zero first code = ground arith
lists-server_errors (suc rounds) first code =
    ground (arith, lists-server_errors rounds (suc first) code)

-- A status is retried if it is 429, or from 500 to 599 and not 501.
pub build_retryable_statuses_lem :
    (code : ℕ)
    → lists build_retryable_statuses code
      ≡ (code == 429 || (leb 500 code && ltb code 600 && not (code == 501)))
unfolding build_retryable_statuses
build_retryable_statuses_lem code = ground (arith, lists-server_errors 100 500 code)
