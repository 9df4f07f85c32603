-- ===== src/Topology.antt =====
-- internal/topology: the configuration (config.go) and the resolver (resolver.go, claims.go) of the
-- Topology Service. The service itself with its retries, net.SplitHostPort, net.JoinHostPort and
-- url.URL.String are parameters. Logging is left out.
pub mod Routing
pub mod Client
pub mod Routed
use gitlab_shell.Prelude.{
  ltb, leb, ◌==◌, if◌then◌else◌, ==_iff, Bool-cases, Option-cases, and-eq-true_iff, length, take,
  drop, replicate, all, any, length-append, take-append-drop, length-take, length-drop, take-append,
  drop-append, take-append_all, drop-append_all, All, All-append, Bytes, codes, eqb, eqb_iff,
  eqb_refl, is_empty, has_prefix, trim_prefix, trim_suffix, trim_left, contains_byte, contains,
  before, split, last, mem, Lacks, Lacks-contains_byte, contains_byte-Lacks, ℕ, zero, suc, ◌+◌, ◌-◌,
  ◌*◌, ◌/◌, ◌%◌, ◌^◌, ◌≤◌, ◌<◌, ◌≡◌, refl, sym, ap, ◌∙◌, ◌≢◌, ◌↔◌, ◌⊎◌, inl, inr, Bool, true, false,
  not, ◌&&◌, ◌||◌, Option, none, some, List, [], ◌∷◌, ◌++◌, map, append_assoc, append-nil, arith,
  last-split, split-ne-nil, All-mono,
}
use gitlab_shell.Errors.{Result, ok, err, Error, plain, wrapped}
use gitlab_shell.Decimal.{itoa}

-- `TLSConfig`
pub record TlsConfig : Type 0 where
  pub enabled : Bool
  pub ca_file : Bytes
  pub cert_file : Bytes
  pub key_file : Bytes
  pub server_name : Bytes
  pub insecure_skip_verify : Bool

-- `CellEndpointConfig`; a negative port counts as 0, which is refused as well.
pub record CellEndpointConfig : Type 0 where
  pub scheme : Bytes
  pub port : ℕ

-- `Config`; the timeout in nanoseconds.
pub record Config : Type 0 where
  pub enabled : Bool
  pub address : Bytes
  pub timeout : ℕ
  pub tls : TlsConfig
  pub cell_endpoint : CellEndpointConfig

-- `(*TLSConfig).Validate`
unfoldable pub validate_tls : TlsConfig → Option Error
validate_tls c = if not c.enabled then none else elim (is_empty c.cert_file) [
  | true ↦
      if is_empty c.key_file
      then none
      else some (plain (codes "both cert_file and key_file must be provided for mTLS"))
  | false ↦
      if is_empty c.key_file
      then some (plain (codes "both cert_file and key_file must be provided for mTLS"))
      else none
]

abbrev pub scheme_http : Bytes
scheme_http = codes "http"

abbrev pub scheme_https : Bytes
scheme_https = codes "https"

-- `(*CellEndpointConfig).Validate`
unfoldable pub validate_cell_endpoint : CellEndpointConfig → Option Error
validate_cell_endpoint c =
    if not (eqb c.scheme scheme_http) && not (eqb c.scheme scheme_https)
    then some (plain (codes "scheme is required and must be \"http\" or \"https\""))
    else if ltb c.port 1 || ltb 65535 c.port
    then some (plain (codes "port is required and must be between 1 and 65535"))
    else none

-- `fmt.Errorf` over the error of a part, if there is one, else the next check.
unfoldable pub or_wrapped : Bytes → Option Error → Option Error → Option Error
or_wrapped prefix none next = next
or_wrapped prefix (some e) next = some (wrapped prefix e)

-- `(*Config).Validate`
unfoldable pub validate : Config → Option Error
unfolding or_wrapped
validate c =
    if not c.enabled
    then none
    else if is_empty c.address
    then some (plain (codes "topology_service.address is required when enabled"))
    else if not (contains_byte c.address b':')
    then some (plain (codes "topology_service.address must be in host:port format"))
    else or_wrapped (codes "topology_service.tls") (validate_tls c.tls) (
        or_wrapped (codes "topology_service.cell_endpoint") (validate_cell_endpoint c.cell_endpoint)
          none)

-- `ExtractTopLevelNamespace`; a path that begins with the first slash is passed on whole.
unfoldable pub extract_top_level_namespace : Bytes → Bytes
extract_top_level_namespace repo =
    let path = trim_suffix (trim_left repo b'/') (codes ".git") in
    if has_prefix path (b'/' ∷ []) then path else before path b'/'

-- The claims of claims.go that the resolver makes.
pub data Claim : Type 0 where
  route ssh_key ssh_key_fingerprint username : Bytes → Claim

-- What the resolver reads of a `ClassifyResponse`: whether the action is `PROXY`, and the address
-- of the proxy, if one is named.
pub record ClassifyResponse : Type 0 where
  pub is_proxy : Bool
  pub proxy : Option Bytes

-- `UserArgs`
pub record UserArgs : Type 0 where
  pub username : Bytes
  pub key_id : Bytes
  pub krb5_principal : Bytes

-- `isIPv6`
unfoldable pub is_ipv6 : Bytes → Bool
is_ipv6 host = contains_byte host b':'

-- The host of `net.SplitHostPort`, if it succeeds; `net.JoinHostPort`; `url.URL.String` of a scheme
-- and a host; and `Classify` with the retries of `backoff.Retry`.
pub record Services : Type 0 where
  pub split_host_port : Bytes → Option Bytes
  pub join_host_port : Bytes → Bytes → Bytes
  pub url_string : Bytes → Bytes → Bytes
  pub classify : Claim → Result ClassifyResponse

-- `Resolver`: whether it has a client, and the endpoint.
pub record Resolver : Type 0 where
  pub has_client : Bool
  pub cell_endpoint : CellEndpointConfig

module _ (w : Services) (r : Resolver) where
  unfoldable pub host_of : Bytes → Bytes
  host_of address = elim (w.split_host_port address) [ none ↦ address | some h ↦ h ]

  -- `buildCellURL`
  unfoldable pub build_cell_url : Bytes → Bytes
  unfolding host_of
  build_cell_url address =
      let host = host_of address in
      if contains_byte address b'/'
      then []
      else if is_empty host || is_ipv6 host
      then []
      else w.url_string r.cell_endpoint.scheme (w.join_host_port host (itoa r.cell_endpoint.port))

  -- `resolve`: the empty text stands for the default host.
  unfoldable pub resolve : Claim → Bytes
  resolve claim = if not r.has_client then [] else elim (w.classify claim) [
    | err e ↦ []
    | ok response ↦
        if response.is_proxy
        then elim response.proxy [
          | none ↦ []
          | some address ↦ if is_empty address then [] else build_cell_url address
        ]
        else []
  ]

  -- `resolveByRoute`
  unfoldable pub resolve_by_route : Bytes → Bytes
  resolve_by_route repo_path =
      let namespace = extract_top_level_namespace repo_path in
      if is_empty namespace then [] else resolve (route namespace)

  -- `resolveBySSHKey`
  unfoldable pub resolve_by_ssh_key : Bytes → Bytes
  resolve_by_ssh_key key = if is_empty key then [] else resolve (ssh_key key)

  -- `resolveBySSHFingerprint`
  unfoldable pub resolve_by_ssh_fingerprint : Bytes → Bytes
  resolve_by_ssh_fingerprint fingerprint =
      if is_empty fingerprint then [] else resolve (ssh_key_fingerprint fingerprint)

  -- `resolveByUserArgs`
  unfoldable pub resolve_by_user_args : UserArgs → Bytes
  resolve_by_user_args args =
      if is_empty args.username then [] else resolve (username args.username)
