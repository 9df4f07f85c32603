-- ===== src/Http/Logging.antt =====
-- The log lines of client/transport.go against the errors of client/gitlabnet.go.
use gitlab_shell.Prelude.{
  Option-cases, Bytes, ℕ, ◌≡◌, sym, ◌∙◌, inl, inr, Bool, true, false, Option, none, some, arith,
}
use gitlab_shell.Errors.{Result, ok, err, api, is_system}
use gitlab_shell.ApiClient.{
  Response, parse_error, check_response, is_system_error_status, is_followed_redirect,
}
use gitlab_shell.ApiClient.Rules.{is_success, parse_error-eq-none, parse_error-eq-some}
use gitlab_shell.Http.GitlabNet.{round_trip_line, is_error_line}

line_lem : (code : ℕ) → is_error_line (round_trip_line (ok code)) ≡ is_system_error_status code
unfolding round_trip_line is_error_line
line_lem code = ground arith

success-system : (code : ℕ) → is_success code ≡ true → is_system_error_status code ≡ false
unfolding is_system_error_status is_followed_redirect
success-system code h = ground arith

-- Whether the error of a checked answer counts as a failure of the system; an answer that is passed
-- on does not.
unfoldable pub counts : Result Response → Bool
counts (ok r) = false
counts (err e) = is_system e

-- A response is logged as an error exactly when the error that it becomes counts as a failure of
-- the system.
pub round_trip_line-check_response :
    (decode : Bytes → Option Bytes) (quote : Bytes → Bytes) (r : Response)
    → is_error_line (round_trip_line (ok r.status_code))
      ≡ counts (check_response decode quote (some r) none)
unfolding counts is_system check_response
round_trip_line-check_response decode quote r =
    line_lem r.status_code ∙ elim (Option-cases (parse_error decode quote r)) [
      | inl good ↦
          let passed : check_response decode quote (some r) none ≡ ok r =
            simp (good, check_response) in
          rw passed (success-system r.status_code (parse_error-eq-none decode quote r good))
      | inr (a, bad) ↦
          let failed : check_response decode quote (some r) none ≡ err (api a) =
            simp (bad, check_response) in
          rw failed (sym (parse_error-eq-some decode quote r a bad).1)
    ]
