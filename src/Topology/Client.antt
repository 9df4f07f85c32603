-- ===== src/Topology/Client.antt =====
-- internal/topology/client.go: the connection to the Topology Service, made on first use under a
-- mutex. gRPC, files, PEM and the logs are parameters.
pub mod Lifetime
use gitlab_shell.Prelude.{
  ltb, leb, ◌==◌, if◌then◌else◌, ==_iff, Bool-cases, Option-cases, and-eq-true_iff, length, take,
  drop, replicate, all, any, length-append, take-append-drop, length-take, length-drop, take-append,
  drop-append, take-append_all, drop-append_all, All, All-append, Bytes, codes, eqb, eqb_iff,
  eqb_refl, is_empty, has_prefix, trim_prefix, trim_suffix, trim_left, contains_byte, contains,
  before, split, last, mem, Lacks, Lacks-contains_byte, contains_byte-Lacks, ℕ, zero, suc, ◌+◌, ◌-◌,
  ◌*◌, ◌/◌, ◌%◌, ◌^◌, ◌≤◌, ◌<◌, ◌≡◌, refl, sym, ap, ◌∙◌, ◌≢◌, ◌↔◌, ◌⊎◌, inl, inr, Bool, true, false,
  not, ◌&&◌, ◌||◌, Option, none, some, List, [], ◌∷◌, ◌++◌, map, append_assoc, append-nil, arith,
  last-split, split-ne-nil, All-mono,
}
use gitlab_shell.Errors.{Result, ok, err, Error, plain, wrapped, wrap, ◌>>=◌}
use gitlab_shell.Topology.{TlsConfig, Config, Claim, ClassifyResponse}

-- `tls.Config` behind `credentials.NewTLS`; without roots the host's are used.
pub record Credentials : Type 0 where
  pub server_name : Bytes
  pub insecure_skip_verify : Bool
  pub root_cas : Option (List ℕ)
  pub certificates : List ℕ

-- What the client calls: files; the certificates of a PEM text; `tls.LoadX509KeyPair`; the name of
-- the client in the context; `grpc.NewClient` for its n-th call, with the address, the service name
-- and the credentials, which are insecure if there are none; the closing of a connection; and
-- `Classify` on a connection, under a timeout.
pub record World : Type 0 where
  pub read_file : Bytes → Result Bytes
  pub pem : Bytes → List ℕ
  pub load_key_pair : Bytes → Bytes → Result ℕ
  pub client_name : Bytes
  pub new_grpc_client : ℕ → Bytes → Bytes → Option Credentials → Result ℕ
  pub close_connection : ℕ → Option Error
  pub classify_on : ℕ → ℕ → Claim → Result ClassifyResponse

-- `Client`, and what it did: the calls of `grpc.NewClient`, the connections that it did not close,
-- how many it closed, and its metrics.
pub record Client : Type 0 where
  pub config : Config
  pub conn : Option ℕ
  pub client : Option ℕ
  pub dials : ℕ
  pub live : List ℕ
  pub closed : ℕ
  pub connections_ok : ℕ
  pub connections_fail : ℕ
  pub requests_ok : ℕ
  pub requests_fail : ℕ
  pub durations : ℕ

-- `DefaultTimeout`, in nanoseconds.
abbrev pub default_timeout : ℕ
default_timeout = 5000000000

abbrev pub with_timeout : Config → Config
with_timeout cfg = record cfg {
  timeout = if cfg.timeout == 0 then default_timeout else cfg.timeout;
}

-- A client without a connection, on a copy of the configuration.
abbrev pub fresh : Config → Client
fresh cfg = record {
  config = with_timeout cfg;
  conn = none;
  client = none;
  dials = 0;
  live = [];
  closed = 0;
  connections_ok = 0;
  connections_fail = 0;
  requests_ok = 0;
  requests_fail = 0;
  durations = 0;
}

-- `NewClient`: nil unless the service is enabled.
unfoldable pub new_client : Config → Option Client
new_client cfg = if not cfg.enabled then none else some (fresh cfg)

module _ (w : World) where
  -- The roots of `buildTLSCredentials`.
  unfoldable pub load_roots : Bytes → Result (Option (List ℕ))
  load_roots ca_file = if is_empty ca_file then ok none else elim (w.read_file ca_file) [
    | err e ↦ err (wrapped (codes "failed to read CA file") e)
    | ok content ↦
        if is_empty (w.pem content)
        then err (plain (codes "failed to parse CA certificate"))
        else ok (some (w.pem content))
  ]

  -- The client's certificate of `buildTLSCredentials`.
  unfoldable pub load_certificates : TlsConfig → Result (List ℕ)
  load_certificates c =
      if not (is_empty c.cert_file) && not (is_empty c.key_file)
      then elim (w.load_key_pair c.cert_file c.key_file) [
        | err e ↦ err (wrapped (codes "failed to load client certificate") e)
        | ok cert ↦ ok (cert ∷ [])
      ]
      else ok []

  -- `buildTLSCredentials`
  unfoldable pub build_tls_credentials : TlsConfig → Result (Option Credentials)
  unfolding load_roots load_certificates
  build_tls_credentials c =
      if not c.enabled
      then ok none
      else load_roots c.ca_file >>= λ roots. load_certificates c >>= λ certs. ok (
          some (record {
            server_name = c.server_name;
            insecure_skip_verify = c.insecure_skip_verify;
            root_cas = roots;
            certificates = certs;
          }))

  -- `serviceName` of `dial`.
  unfoldable pub service_name : Bytes
  service_name =
      (if is_empty w.client_name then codes "gitlab-shell-unknown" else w.client_name)
      ++ codes "-topology"

  -- The deferred count of `dial`.
  unfoldable pub count_connection : Result ℕ → Client → Client
  count_connection (ok conn) c = record c {
    connections_ok = c.connections_ok + 1;
    live = conn ∷ c.live;
  }
  count_connection (err e) c = record c { connections_fail = c.connections_fail + 1 }

  -- `dial`
  unfoldable pub dial : Client → Result ℕ × Client
  unfolding build_tls_credentials service_name count_connection
  dial c = elim (build_tls_credentials c.config.tls) [
    | err e ↦ (
      err (wrapped (codes "failed to build TLS credentials") e),
      count_connection (err (wrapped (codes "failed to build TLS credentials") e)) c,
    )
    | ok creds ↦
        let made = w.new_grpc_client c.dials c.config.address service_name creds in
        (made, count_connection made (record c { dials = c.dials + 1 }))
  ]

  -- What `getClient` does with the outcome of `dial`.
  unfoldable pub keep : Result ℕ × Client → Result ℕ × Client
  keep (err e, c) = (err e, c)
  keep (ok made, c) = (ok made, record c { conn = some made; client = some made })

  -- `getClient`, under the mutex.
  unfoldable pub get_client : Client → Result ℕ × Client
  unfolding dial keep
  get_client c = elim c.client [ some made ↦ (ok made, c) | none ↦ keep (dial c) ]

  -- The deferred function of `Classify`.
  unfoldable pub count_request : Bool → Client → Client
  count_request true c = record c { requests_ok = c.requests_ok + 1; durations = c.durations + 1 }
  count_request false c = record c { requests_fail = c.requests_fail + 1 }

  -- `Classify` with the connection of `getClient`, or its error.
  unfoldable pub ask : Claim → Result ℕ → Client → Result ClassifyResponse
  ask claim (err e) c = err (wrapped (codes "failed to get topology client") e)
  ask claim (ok made) c = w.classify_on made c.config.timeout claim

  unfoldable pub succeeds : Result ClassifyResponse → Bool
  succeeds (ok r) = true
  succeeds (err e) = false

  -- `Classify`, by one caller alone; the client and the claim may be nil.
  unfoldable pub classify : Option Claim → Option Client → Result ClassifyResponse × Option Client
  unfolding get_client count_request ask succeeds
  classify claim none = (err (plain (codes "topology service is disabled")), none)
  classify none (some c) = (err (plain (codes "claim must not be nil")), some c)
  classify (some claim) (some c) =
      let (got, c') = get_client c in
      let answer = ask claim got c' in (answer, some (count_request (succeeds answer) c'))

  -- The connections without one of them.
  unfoldable pub without : ℕ → List ℕ → List ℕ
  without conn [] = []
  without conn (x ∷ xs) = let rest = without conn xs in if x == conn then rest else x ∷ rest

  -- `Close`
  unfoldable pub close : Client → Option Error × Client
  unfolding without
  close c = elim c.conn [
    | none ↦ (none, c)
    | some conn ↦ (
      w.close_connection conn,
      record c { conn = none; client = none; live = without conn c.live; closed = c.closed + 1 },
    )
  ]
