-- ===== src/Http/Client.antt =====
-- client/httpclient.go, client/gitlabnet.go and client/transport.go: the client of the internal API,
-- from its options to the requests that it sends. `retryablehttp` is a parameter.
use gitlab_shell.Prelude.{
  ltb, ◌==◌, if◌then◌else◌, Bytes, codes, is_empty, has_prefix, trim_prefix, ℕ, ◌*◌, Bool, false,
  not, ◌&&◌, ◌||◌, Option, none, some, List, [], ◌∷◌, ◌++◌,
}
use gitlab_shell.Errors.{Result, ok, err, Error, plain, wrapped, ◌>>=◌}
use gitlab_shell.Path.{clean, join}
use gitlab_shell.Http.{
  Entry, Files, TlsConfig, Transport, dials_unix, default_transport, with_tls, socket_base_url,
  unix_socket_protocol, http_protocol, https_protocol, trim, second, times_second,
}

-- `httpClientCfg`, durations in nanoseconds.
pub record HttpClientCfg : Type 0 where
  pub key_path : Bytes
  pub cert_path : Bytes
  pub ca_file : Bytes
  pub ca_path : Bytes
  pub retry_wait_min : ℕ
  pub retry_wait_max : ℕ
  pub retry_max : ℕ

-- `HaveCertAndKey`
unfoldable pub have_cert_and_key : HttpClientCfg → Bool
have_cert_and_key c = not (is_empty c.key_path) && not (is_empty c.cert_path)

-- `HTTPClientOpt`
abbrev pub HttpClientOpt : Type 0
HttpClientOpt = HttpClientCfg → HttpClientCfg

-- `WithClientCert`
unfoldable pub with_client_cert : Bytes → Bytes → HttpClientOpt
with_client_cert cert_path key_path c = record c { key_path = key_path; cert_path = cert_path }

-- `WithHTTPRetryOpts`
unfoldable pub with_http_retry_opts : ℕ → ℕ → ℕ → HttpClientOpt
with_http_retry_opts wait_min wait_max max_attempts c = record c {
  retry_wait_min = wait_min;
  retry_wait_max = wait_max;
  retry_max = max_attempts;
}

-- `HTTPClient` with what its `retryablehttp.Client` was set to.
pub record HttpClient : Type 0 where
  pub transport : Transport
  pub host : Bytes
  pub timeout : ℕ
  pub retry_max : ℕ
  pub retry_wait_min : ℕ
  pub retry_wait_max : ℕ
  pub follows_redirects : Bool

-- `readTimeout`: the constant is a `uint64`.
unfoldable pub read_timeout : ℕ → ℕ
unfolding times_second
read_timeout seconds =
    if seconds == 0 || ltb 9223372036854775807 seconds
    then times_second 300
    else times_second seconds

-- `buildSocketTransport`
unfoldable pub build_socket_transport : Bytes → Bytes → Transport × Bytes
unfolding trim trim_prefix
build_socket_transport url relative_url_root =
    let root = trim relative_url_root b'/' in
    (
      dials_unix (trim_prefix url unix_socket_protocol),
      (if is_empty root then socket_base_url else socket_base_url ++ codes "/" ++ root),
    )

module _ (os : Files) where
  -- `validateCaFile`
  unfoldable pub validate_ca_file : Bytes → Option Error
  validate_ca_file file = if is_empty file then none else elim (os.stat file) [
    | none ↦ none
    | some e ↦
        if os.is_not_exist e
        then some (
            wrapped (codes "cannot find cafile '" ++ file ++ codes "'")
              (plain (codes "cafile not found")))
        else some e
  ]

  -- `addCertToPool`: a file that cannot be read, or holds no certificate, adds nothing.
  unfoldable pub add_cert_to_pool : List ℕ → Bytes → List ℕ
  unfolding clean
  add_cert_to_pool pool file = elim (os.read_file (clean file)) [
    | err e ↦ pool
    | ok content ↦ pool ++ os.pem content
  ]

  -- The loop of `buildHTTPSTransport` over the entries of `caPath`.
  unfoldable pub add_directory : Bytes → List ℕ → List Entry → List ℕ
  unfolding add_cert_to_pool join
  add_directory path pool [] = pool
  add_directory path pool (fi ∷ fis) =
      let skipped = add_directory path pool fis in
      let added = add_directory path (add_cert_to_pool pool (join (path ∷ fi.name ∷ []))) fis in
      if fi.is_dir then skipped else added

  -- The pool of `buildHTTPSTransport`, behind the system's.
  unfoldable pub cert_pool : HttpClientCfg → List ℕ → List ℕ
  unfolding add_cert_to_pool add_directory
  cert_pool c system =
      let pool = if not (is_empty c.ca_file) then add_cert_to_pool system c.ca_file else system in
      if not (is_empty c.ca_path)
      then add_directory c.ca_path pool (os.read_dir c.ca_path).0
      else pool

  -- The end of `buildHTTPSTransport`, which returns the error of `SystemCertPool`, if any.
  unfoldable pub finish_https : Option Error → TlsConfig → Result Transport
  finish_https (some e) tls = err e
  finish_https none tls = ok (with_tls tls)

  -- `buildHTTPSTransport` with a pool and the error that `SystemCertPool` gave.
  unfoldable pub build_with_pool : HttpClientCfg → List ℕ → Option Error → Result Transport
  unfolding cert_pool have_cert_and_key finish_https
  build_with_pool c system failed =
      let roots = cert_pool c system in
      if have_cert_and_key c
      then (os.load_key_pair c.cert_path c.key_path >>= λ cert.
          finish_https failed (record { root_cas = roots; certificates = cert ∷ [] }))
      else finish_https failed (record { root_cas = roots; certificates = [] })

  -- `buildHTTPSTransport`; the host is the URL.
  unfoldable pub build_https_transport : HttpClientCfg → Result Transport
  unfolding build_with_pool
  build_https_transport c = elim os.system_cert_pool [
    | ok system ↦ build_with_pool c system none
    | err e ↦ build_with_pool c [] (some e)
  ]

  -- The transport and the host that `NewHTTPClientWithOpts` chooses.
  unfoldable pub choose_transport :
      HttpClientCfg → Bytes → Bytes → Bytes → Result (Transport × Bytes)
  unfolding build_socket_transport validate_ca_file build_https_transport has_prefix
  choose_transport c url relative_url_root ca_file =
      if has_prefix url unix_socket_protocol
      then ok (build_socket_transport url relative_url_root)
      else if has_prefix url http_protocol
      then ok (default_transport, url)
      else if has_prefix url https_protocol
      then elim (validate_ca_file ca_file) [
        | some e ↦ err e
        | none ↦ build_https_transport c >>= λ t. ok (t, url)
      ]
      else err (plain (codes "unknown GitLab URL prefix"))

  -- The options, applied from the first to the last.
  abbrev pub apply_opts : List HttpClientOpt → HttpClientCfg → HttpClientCfg
  apply_opts [] c = c
  apply_opts (opt ∷ opts) c = apply_opts opts (opt c)

  -- The configuration that the options start from.
  abbrev pub default_cfg : Bytes → Bytes → HttpClientCfg
  default_cfg ca_file ca_path = record {
    key_path = [];
    cert_path = [];
    ca_file = ca_file;
    ca_path = ca_path;
    retry_wait_min = second;
    retry_wait_max = 15 * second;
    retry_max = 2;
  }

  -- `NewHTTPClientWithOpts`: the URL, its relative root, `caFile`, `caPath`, the timeout, the options.
  unfoldable pub new_http_client_with_opts :
      Bytes → Bytes → Bytes → Bytes → ℕ → List HttpClientOpt → Result HttpClient
  unfolding choose_transport read_timeout
  new_http_client_with_opts url relative_url_root ca_file ca_path read_timeout_seconds opts =
      let c = apply_opts opts (default_cfg ca_file ca_path) in
      choose_transport c url relative_url_root ca_file >>= λ chosen. ok (record {
        transport = chosen.0;
        host = chosen.1;
        timeout = read_timeout read_timeout_seconds;
        retry_max = c.retry_max;
        retry_wait_min = c.retry_wait_min;
        retry_wait_max = c.retry_wait_max;
        follows_redirects = false;
      })
