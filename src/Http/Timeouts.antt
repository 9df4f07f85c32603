-- ===== src/Http/Timeouts.antt =====
-- `readTimeout` of client/httpclient.go and the timeout of `New` of internal/clients/gitlab: seconds
-- that become nanoseconds in a word of 64 bits.
use gitlab_shell.Prelude.{◌==◌, if◌then◌else◌, ℕ, ◌*◌, ◌≤◌, ◌≡◌, ◌↔◌, true, arith}
use gitlab_shell.Http.{times_second, is_positive, second}
use gitlab_shell.Http.Client.{read_timeout}
use gitlab_shell.Http.Internal.{timeout_of}

-- Up to 9223372036 seconds both clients have the timeout that is configured, to the nanosecond, or
-- 300 seconds if that is 0.
pub read_timeout_lem :
    (n : ℕ)
    → n ≤ 9223372036
    → (read_timeout n ≡ (if n == 0 then 300 else n) * second) × (timeout_of n ≡ read_timeout n)
unfolding read_timeout timeout_of times_second
read_timeout_lem n h = ground arith

-- From 1 to 18446744073 seconds the timeout, as a signed word of 64 bits, is positive exactly up to
-- 9223372036.
pub read_timeout-is_positive_iff :
    (n : ℕ) → 1 ≤ n → n ≤ 18446744073 → (is_positive (read_timeout n) ≡ true) ↔ (n ≤ 9223372036)
unfolding read_timeout times_second is_positive
read_timeout-is_positive_iff n h h' = ground arith
