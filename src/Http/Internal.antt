-- ===== src/Http/Internal.antt =====
-- internal/clients/gitlab: the newer client of the internal API. The retries of `DoWithRetry`, JSON
-- and JWT are parameters.
pub mod Paths
pub mod Retries
pub mod Requests
pub mod Answers
use gitlab_shell.Prelude.{
  ltb, leb, ◌==◌, if◌then◌else◌, ==_iff, Bool-cases, Option-cases, and-eq-true_iff, length, take,
  drop, replicate, all, any, length-append, take-append-drop, length-take, length-drop, take-append,
  drop-append, take-append_all, drop-append_all, All, All-append, Bytes, codes, eqb, eqb_iff,
  eqb_refl, is_empty, has_prefix, trim_prefix, trim_suffix, trim_left, contains_byte, contains,
  before, split, last, mem, Lacks, Lacks-contains_byte, contains_byte-Lacks, ℕ, zero, suc, ◌+◌, ◌-◌,
  ◌*◌, ◌/◌, ◌%◌, ◌^◌, ◌≤◌, ◌<◌, ◌≡◌, refl, sym, ap, ◌∙◌, ◌≢◌, ◌↔◌, ◌⊎◌, inl, inr, Bool, true, false,
  not, ◌&&◌, ◌||◌, Option, none, some, List, [], ◌∷◌, ◌++◌, map, append_assoc, append-nil, arith,
  last-split, split-ne-nil, All-mono,
}
use gitlab_shell.Errors.{Result, ok, err, Error, ApiError, plain, wrapped, api, ◌>>=◌}
use gitlab_shell.ApiClient.{Response, new_transport_api_error}
use gitlab_shell.Decimal.{itoa}
use gitlab_shell.Path.{clean, join}
use gitlab_shell.Http.{
  Entry, Files, Transport, dials_unix, default_transport, with_tls, socket_base_url,
  unix_socket_protocol, http_protocol, https_protocol, internal_api_path, default_user_agent,
  api_secret_header_name, trim, Headers, add_header, set_header, Request, jwt_issuer, jwt_ttl,
  Library, times_second,
}

-- The loop of `buildRetryableStatuses`, from `code` on, with as many rounds as are left.
unfoldable pub server_errors : ℕ → ℕ → List ℕ
server_errors zero code = []
server_errors (suc rounds) code =
    let rest = server_errors rounds (suc code) in if code == 501 then rest else code ∷ rest

-- `buildRetryableStatuses`
unfoldable pub build_retryable_statuses : List ℕ
unfolding server_errors
build_retryable_statuses = 429 ∷ server_errors 100 500

-- `Config`
pub record Config : Type 0 where
  pub gitlab_url : Bytes
  pub relative_url_root : Bytes
  pub user : Bytes
  pub password : Bytes
  pub secret : Bytes
  pub ca_file : Bytes
  pub ca_path : Bytes
  pub read_timeout_seconds : ℕ

-- `Client`, with the transport and the timeout of its `httpclient.Client`.
pub record Client : Type 0 where
  pub transport : Transport
  pub timeout : ℕ
  pub host : Bytes
  pub user : Bytes
  pub password : Bytes
  pub secret : Bytes

-- `strings.HasSuffix`
unfoldable pub has_suffix : Bytes → Bytes → Bool
unfolding eqb
has_suffix [] suffix = is_empty suffix
has_suffix (x ∷ s) suffix = eqb (x ∷ s) suffix || has_suffix s suffix

-- `isCertificateFile`
unfoldable pub is_certificate_file : Bytes → Bool
unfolding has_suffix
is_certificate_file name = has_suffix name (codes ".pem") || has_suffix name (codes ".crt")

-- `buildSocketTransport`
unfoldable pub build_socket_transport : Bytes → Bytes → Transport × Bytes
unfolding trim trim_prefix
build_socket_transport url relative_url_root =
    let r = trim relative_url_root b'/' in
    (
      dials_unix (trim_prefix url unix_socket_protocol),
      (if not (is_empty r) then socket_base_url ++ codes "/" ++ r else socket_base_url),
    )

-- `timeout` of `New`: `time.Duration` of the seconds, unless they are 0.
unfoldable pub timeout_of : ℕ → ℕ
unfolding times_second
timeout_of seconds = if seconds == 0 then times_second 300 else times_second seconds

-- `WithHost`
unfoldable pub with_host : Bytes → Client → Client
with_host host c = record c { host = host }

-- `forwardedIPTransport.RoundTrip`, in front of the next one.
unfoldable pub add_forwarded_ip : Option Bytes → Headers → Headers
add_forwarded_ip none headers = headers
add_forwarded_ip (some ip) headers =
    if is_empty ip then headers else add_header (codes "X-Forwarded-For") ip headers

module _ (os : Files) where
  -- The content of a CA file, added to the pool.
  unfoldable pub append_certs : Bytes → Bytes → List ℕ → Result (List ℕ)
  append_certs file content pool =
      if is_empty (os.pem content)
      then err (
          plain
            (codes "CA file " ++ (os.quote file ++ codes " contains no valid PEM certificates")))
      else ok (pool ++ os.pem content)

  -- `reading CA file %q: %w`
  abbrev pub unread : Bytes → Error → Error
  unread file e = wrapped (codes "reading CA file " ++ os.quote file) e

  -- `appendCaFile`
  unfoldable pub append_ca_file : Bytes → List ℕ → Result (List ℕ)
  unfolding append_certs clean
  append_ca_file file pool = if is_empty file then ok pool else elim (os.read_file (clean file)) [
    | err e ↦ err (unread file e)
    | ok content ↦ append_certs file content pool
  ]

  -- `appendCaDirEntry`
  unfoldable pub append_ca_dir_entry : Bytes → Bytes → List ℕ → Result (List ℕ)
  unfolding append_certs join
  append_ca_dir_entry dir name pool =
      let p = join (dir ∷ name ∷ []) in
      elim (os.read_file p) [ err e ↦ err (unread p e) | ok content ↦ append_certs p content pool ]

  -- The loop of `appendCaDir`.
  unfoldable pub append_entries : Bytes → List Entry → List ℕ → Result (List ℕ)
  unfolding append_ca_dir_entry is_certificate_file
  append_entries dir [] pool = ok pool
  append_entries dir (entry ∷ entries) pool =
      let skipped = append_entries dir entries pool in
      let added = append_ca_dir_entry dir entry.name pool >>= append_entries dir entries in
      if entry.is_dir
      then skipped
      else if not (is_certificate_file entry.name)
      then skipped
      else added

  -- `appendCaDir`
  unfoldable pub append_ca_dir : Bytes → List ℕ → Result (List ℕ)
  unfolding append_entries
  append_ca_dir dir pool =
      if is_empty dir
      then ok pool
      else let (entries, failure) = os.read_dir dir in
        elim failure [
          | some e ↦ err (wrapped (codes "reading CA directory " ++ os.quote dir) e)
          | none ↦ append_entries dir entries pool
        ]

  -- The system's pool, or an empty one.
  unfoldable pub system_pool : List ℕ
  system_pool = elim os.system_cert_pool [ ok pool ↦ pool | err e ↦ [] ]

  -- `buildHTTPSTransport`
  unfoldable pub build_https_transport : Config → Result Transport
  unfolding append_ca_file append_ca_dir system_pool
  build_https_transport cfg = do
    with_file ← append_ca_file cfg.ca_file system_pool
    pool ← append_ca_dir cfg.ca_path with_file
    ok (with_tls (record { root_cas = pool; certificates = [] }))

  -- `buildTransport`
  unfoldable pub build_transport : Config → Result (Transport × Bytes)
  unfolding build_socket_transport build_https_transport has_prefix
  build_transport cfg =
      if has_prefix cfg.gitlab_url unix_socket_protocol
      then ok (build_socket_transport cfg.gitlab_url cfg.relative_url_root)
      else if has_prefix cfg.gitlab_url http_protocol
      then ok (default_transport, cfg.gitlab_url)
      else if has_prefix cfg.gitlab_url https_protocol
      then (build_https_transport cfg >>= λ t. ok (t, cfg.gitlab_url))
      else err (plain (codes "unknown GitLab URL prefix"))

  -- `New`; there may be no configuration.
  unfoldable pub new_client : Library → Option Config → Result Client
  unfolding build_transport timeout_of
  new_client lib none = err (plain (codes "config must not be nil"))
  new_client lib (some cfg) =
      if is_empty (lib.trim_space cfg.secret)
      then err (plain (codes "secret must not be empty"))
      else build_transport cfg >>= λ built. ok (record {
        transport = built.0;
        timeout = timeout_of cfg.read_timeout_seconds;
        host = built.1;
        user = cfg.user;
        password = cfg.password;
        secret = cfg.secret;
      })

  -- The path below the internal API, before it is cleaned.
  unfoldable pub prefixed : Bytes → Bytes
  unfolding has_prefix
  prefixed p =
      let p' = if not (has_prefix p (codes "/")) then codes "/" ++ p else p in
      if not (has_prefix p' internal_api_path) then internal_api_path ++ p' else p'

  -- `normalizePath`
  unfoldable pub normalize_path : Bytes → Result Bytes
  unfolding prefixed clean has_prefix
  normalize_path p =
      let cleaned = clean (prefixed p) in
      if not (has_prefix cleaned internal_api_path)
      then err (
          plain
            (codes "path " ++ (os.quote (prefixed p) ++ codes " escapes the internal API prefix")))
      else ok cleaned

module _ (os : Files) (lib : Library) where
  -- `jwtToken`
  unfoldable pub jwt_token : Client → Result Bytes
  jwt_token c = lib.signed_string (lib.trim_space c.secret) (record {
    issuer = jwt_issuer;
    issued_at = lib.now;
    expires_at = lib.now + jwt_ttl;
    gl_id = [];
  })

  -- The headers and credentials of `setHeaders`, with a token.
  unfoldable pub stamp : Client → Bytes → Request → Request
  unfolding set_header
  stamp c token r = record r {
    basic_auth =
        (if not (is_empty c.user) && not (is_empty c.password)
          then some (c.user, c.password)
          else r.basic_auth);
    headers = set_header (codes "User-Agent") default_user_agent (
        set_header (codes "Content-Type") (codes "application/json")
          (set_header api_secret_header_name token r.headers));
  }

  -- `setHeaders`
  unfoldable pub set_headers : Client → Request → Result Request
  unfolding jwt_token stamp
  set_headers c r = jwt_token c >>= λ token. ok (stamp c token r)

  -- A request without headers.
  abbrev pub bare : Bytes → Bytes → Option Bytes → Request
  bare http_method url body = record {
    http_method = http_method;
    url = url;
    body = body;
    basic_auth = none;
    headers = [];
  }

  -- `http.NewRequestWithContext`
  unfoldable pub new_request : Bytes → Bytes → Option Bytes → Result Request
  new_request http_method url body = elim (lib.reject_request http_method url) [
    | some e ↦ err e
    | none ↦ ok (bare http_method url body)
  ]

  -- The body of `do`: the outcome of `json.Marshal`, if there is data.
  unfoldable pub encode : Option (Result Bytes) → Result (Option Bytes)
  encode none = ok none
  encode (some (err e)) = err (wrapped (codes "marshaling request body") e)
  encode (some (ok json)) = ok (some json)

  -- The request of `do`. A retry reads its body from the start again, by `GetBody`.
  unfoldable pub request_of : Client → Bytes → Bytes → Option (Result Bytes) → Result Request
  unfolding normalize_path encode new_request set_headers trim_suffix
  request_of c http_method api_path json = do
    path ← normalize_path os api_path
    body ← encode json
    r ← new_request http_method (trim_suffix c.host (codes "/") ++ path) body
    set_headers c r

module _ (os : Files) (lib : Library) (do_with_retry : Request → Result Response) where
  -- `do`
  unfoldable pub do_request : Client → Bytes → Bytes → Option (Result Bytes) → Result Response
  unfolding request_of new_transport_api_error
  do_request c http_method api_path json = request_of os lib c http_method api_path json >>= λ r.
      elim (do_with_retry r) [
        | err e ↦ err (api (new_transport_api_error (codes "Internal API unreachable") (some e)))
        | ok response ↦ ok response
      ]

  -- `Get`
  unfoldable pub get : Client → Bytes → Result Response
  unfolding do_request
  get c path = do_request c (codes "GET") path none

  -- `Post`
  unfoldable pub post : Client → Bytes → Option (Result Bytes) → Result Response
  unfolding do_request
  post c path json = do_request c (codes "POST") path json

-- `ParseJSON`: `decode_message` is the decoding of an error's body, `decode` that of the answer.
unfoldable pub parse_json {ℓ} :
    {A : Type ℓ} → (Bytes → Option Bytes) → (Bytes → Option A) → Response → Result A
parse_json decode_message decode resp =
    let unnamed : Bytes = codes "Internal API error (" ++ (itoa resp.status_code ++ codes ")") in
    let failed : Bytes → ApiError = λ msg. record { msg = msg; status_code = 0; system = false } in
    if leb 400 resp.status_code
    then elim (decode_message resp.body) [
      | none ↦ err (api (failed unnamed))
      | some msg ↦ if is_empty msg then err (api (failed unnamed)) else err (api (failed msg))
    ]
    else elim (decode resp.body) [ none ↦ err (plain (codes "parsing failed")) | some a ↦ ok a ]

-- `HealthcheckClient.Check`
unfoldable pub check {ℓ} :
    {A : Type ℓ}
    → (Bytes → Result Response)
    → (Bytes → Option Bytes)
    → (Bytes → Option A)
    → Result A
unfolding parse_json
check get_path decode_message decode =
    get_path (codes "/check") >>= parse_json decode_message decode
