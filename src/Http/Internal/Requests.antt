-- ===== src/Http/Internal/Requests.antt =====
-- What the requests of internal/clients/gitlab carry.
use gitlab_shell.Prelude.{
  if◌then◌else◌, Option-cases, Bytes, codes, is_empty, trim_suffix, ◌≡◌, refl, sym, ◌⊎◌, inl, inr,
  not, ◌&&◌, Option, none, some, [], ◌∷◌, ◌++◌,
}
use gitlab_shell.Errors.{Result, ok, err, >>=-eq-ok, ok-injective}
use gitlab_shell.Http.{
  Files, Library, Request, header_values, api_secret_header_name, default_user_agent,
}
use gitlab_shell.Http.Internal.Paths.{IsPrefixed, normalize_path-IsPrefixed}
use gitlab_shell.Http.Internal.{
  Client, normalize_path, encode, new_request, set_headers, stamp, bare, jwt_token, request_of,
}

-- What a request carries that is sent with a method and a JSON body, if any, for a path: the method;
-- the body as it is; a URL of the host, with a path that begins with the text of the internal API's
-- and has no empty part, no `.` and no `..`; the token, the content type and the user agent, each
-- as the only value of its header; and credentials if both are set.
abbrev pub Carries :
    Files → Library → Client → Bytes → Bytes → Option (Result Bytes) → Request → Type 0
Carries os lib c http_method api_path json r =
    (r.http_method ≡ http_method)
    × (((json ≡ none) × (r.body ≡ none))
        ⊎ ((text : Bytes) × (json ≡ some (ok text)) × (r.body ≡ some text)))
    × ((s : Bytes) × (normalize_path os api_path ≡ ok s)
        × IsPrefixed os s
        × (r.url ≡ trim_suffix c.host (codes "/") ++ s))
    × ((token : Bytes) × (jwt_token os lib c ≡ ok token)
        × (header_values api_secret_header_name r.headers ≡ token ∷ [])
        × (header_values (codes "Content-Type") r.headers ≡ codes "application/json" ∷ [])
        × (header_values (codes "User-Agent") r.headers ≡ default_user_agent ∷ []))
    × (r.basic_auth ≡ (
        if not (is_empty c.user) && not (is_empty c.password)
        then some (c.user, c.password)
        else none))

module _ (os : Files) (lib : Library) where
  new_request-eq-ok :
      (http_method url : Bytes) (body : Option Bytes) (r : Request)
      → new_request os lib http_method url body ≡ ok r
      → bare os lib http_method url body ≡ r
  unfolding new_request
  new_request-eq-ok http_method url body r h =
      elim (Option-cases (lib.reject_request http_method url)) [
        | inl fine ↦ ok-injective (rw (fine, new_request) at h)
        | inr (e, bad) ↦ absurd (cc (rw (bad, new_request) at h))
      ]

  set_headers-eq-ok :
      (c : Client) (r0 r : Request)
      → set_headers os lib c r0 ≡ ok r
      → (token : Bytes) × (jwt_token os lib c ≡ ok token) × (stamp os lib c token r0 ≡ r)
  unfolding set_headers
  set_headers-eq-ok c r0 r h =
      let (token, signed, h1) = >>=-eq-ok (jwt_token os lib c) _ h in
      (token, signed, ok-injective h1)

  stamp-bare :
      (c : Client) (token http_method s : Bytes) (body : Option Bytes) (r : Request)
      → stamp os lib c token (bare os lib http_method s body) ≡ r
      → (r.http_method ≡ http_method)
        × (r.url ≡ s)
        × (header_values api_secret_header_name r.headers ≡ token ∷ [])
        × (header_values (codes "Content-Type") r.headers ≡ codes "application/json" ∷ [])
        × (header_values (codes "User-Agent") r.headers ≡ default_user_agent ∷ [])
        × (r.body ≡ body)
        × (r.basic_auth ≡ (
            if not (is_empty c.user) && not (is_empty c.password)
            then some (c.user, c.password)
            else none))
  unfolding stamp header_values
  stamp-bare c token http_method s body r e = rw (← e) (refl, refl, refl, refl, refl, refl, refl)

  encode-eq-ok :
      (json : Option (Result Bytes)) (body : Option Bytes)
      → encode os lib json ≡ ok body
      → ((json ≡ none) × (body ≡ none))
        ⊎ ((text : Bytes) × (json ≡ some (ok text)) × (body ≡ some text))
  unfolding encode
  encode-eq-ok none body h = inl (refl, sym (ok-injective h))
  encode-eq-ok (some (err e)) body h = absurd (cc h)
  encode-eq-ok (some (ok text)) body h = inr (text, refl, sym (ok-injective h))

  -- A request that is made has the method and the JSON body that were given, which did not fail to
  -- be encoded. It goes to the host, to the normalised path, which begins with the bytes
  -- `/api/v4/internal` and has no empty part, no `.` and no `..`, and carries the token, the JSON
  -- content type and the user agent each once, and the credentials of the configuration exactly if
  -- both are set.
  pub request_of-Carries :
      (c : Client) (http_method api_path : Bytes) (json : Option (Result Bytes)) (r : Request)
      → request_of os lib c http_method api_path json ≡ ok r
      → Carries os lib c http_method api_path json r
  unfolding request_of
  request_of-Carries c http_method api_path json r h =
      let (s, path, h1) = >>=-eq-ok (normalize_path os api_path) _ h in
      let (body, encoded, h2) = >>=-eq-ok (encode os lib json) _ h1 in
      let (r0, made, h3) =
        >>=-eq-ok (new_request os lib http_method (trim_suffix c.host (codes "/") ++ s) body) _
          h2 in
      let (token, signed, h4) = set_headers-eq-ok c r0 r h3 in
      let r0_is = new_request-eq-ok http_method _ body r0 made in
      let (sent, url, secret, content, agent, with_body, auth) =
        stamp-bare c token http_method _ body r (rw (← r0_is) at h4) in
      (
        sent,
        rw with_body (encode-eq-ok json body encoded),
        (s, path, normalize_path-IsPrefixed os api_path s path, url),
        (token, signed, secret, content, agent),
        auth,
      )
