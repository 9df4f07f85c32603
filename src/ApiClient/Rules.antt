-- ===== src/ApiClient/Rules.antt =====
-- What the client of client/gitlabnet.go guarantees.
use gitlab_shell.Prelude.{
  leb, Bool-cases, Option-cases, Bytes, has_prefix, ℕ, ◌≡◌, refl, sym, ◌↔◌, inl, inr, Bool, true,
  false, not, ◌&&◌, Option, none, some, [], ◌∷◌, ◌++◌, arith,
}
use gitlab_shell.Errors.{ok, err, Error, ApiError, api, err-injective}
use gitlab_shell.ApiClient.{
  slash, internal_api_path, rooted, prefixed, normalize_path, is_followed_redirect,
  is_system_error_status, Response, parse_error, check_response,
}

-- The statuses between 200 and 399, less the redirects that Go would follow.
abbrev pub is_success : ℕ → Bool
is_success code = leb 200 code && leb code 399 && not (is_followed_redirect code)

redirect-system : (code : ℕ) → is_followed_redirect code ≡ true → is_system_error_status code ≡ true
unfolding is_system_error_status
redirect-system code h = rw h

module _ (decode : Bytes → Option Bytes) (quote : Bytes → Bytes) where
  pub parse_error-eq-some :
      (r : Response) (a : ApiError)
      → parse_error decode quote r ≡ some a
      → (a.status_code ≡ r.status_code)
        × (a.system ≡ is_system_error_status r.status_code)
        × (is_success r.status_code ≡ false)
  unfolding parse_error
  parse_error-eq-some r a h = elim (Bool-cases (is_followed_redirect r.status_code)) [
    | inl redirect ↦ ground (arith, redirect-system r.status_code redirect)
    | inr plain ↦ ground arith
  ]

  pub parse_error-eq-none :
      (r : Response) → parse_error decode quote r ≡ none → is_success r.status_code ≡ true
  unfolding parse_error
  parse_error-eq-none r h = ground arith

  -- A response is passed on exactly when its status is between 200 and 399 and is no redirect
  -- that Go would follow.
  pub check_response-eq-ok_iff :
      (r : Response)
      → (check_response decode quote (some r) none ≡ ok r) ↔ (is_success r.status_code ≡ true)
  unfolding check_response
  check_response-eq-ok_iff r = elim (Option-cases (parse_error decode quote r)) [
    | inl good ↦ ((λ _. parse_error-eq-none r good), (λ _. rw (good, check_response)))
    | inr (a, bad) ↦ (
      (λ h. absurd (cc (rw (bad, check_response) at h))),
      (λ h. absurd (cc ((parse_error-eq-some r a bad).2, h))),
    )
  ]

  -- A response that is not passed on, where the transport did not fail, becomes an API error that
  -- carries its status, and that counts as a system failure exactly when the status does.
  pub check_response-eq-err :
      (r : Response) (e : Error)
      → check_response decode quote (some r) none ≡ err e
      → (a : ApiError) × (e ≡ api a)
        × (a.status_code ≡ r.status_code)
        × (a.system ≡ is_system_error_status r.status_code)
  unfolding check_response
  check_response-eq-err r e h = elim (Option-cases (parse_error decode quote r)) [
    | inl good ↦ absurd (cc (rw (good, check_response) at h))
    | inr (a, bad) ↦
        let facts = parse_error-eq-some r a bad in
        (a, sym (err-injective (rw (bad, check_response) at h)), facts.0, facts.1)
  ]

has_prefix-append : (p s : Bytes) → has_prefix (p ++ s) p ≡ true
unfolding has_prefix
has_prefix-append [] s = refl
has_prefix-append (x ∷ p) s = ground (arith, has_prefix-append p s)

prefixed-has : (path : Bytes) → has_prefix (prefixed path) internal_api_path ≡ true
unfolding prefixed
prefixed-has path = elim (Bool-cases (has_prefix path internal_api_path)) [
  | inl here ↦ rw (here, prefixed) here
  | inr missing ↦ rw (missing, prefixed) (has_prefix-append internal_api_path path)
]

prefixed-rooted : (s : Bytes) → has_prefix s internal_api_path ≡ true → has_prefix s slash ≡ true
unfolding has_prefix
prefixed-rooted [] h = cc
prefixed-rooted (x ∷ s) h = ground arith

pub normalize-fix : (s : Bytes) → has_prefix s internal_api_path ≡ true → normalize_path s ≡ s
unfolding normalize_path rooted prefixed
normalize-fix s h = rw (prefixed-rooted s h, rooted) (rw (h, prefixed))

-- Every path that is sent begins with that of the internal API, and normalising it again changes
-- nothing.
pub normalize_path_idem :
    (path : Bytes)
    → (has_prefix (normalize_path path) internal_api_path ≡ true)
      × (normalize_path (normalize_path path) ≡ normalize_path path)
unfolding normalize_path rooted prefixed
normalize_path_idem path =
    let here = prefixed-has (rooted path) in (here, normalize-fix (normalize_path path) here)
