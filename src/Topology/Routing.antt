-- ===== src/Topology/Routing.antt =====
-- Where internal/topology sends a request, and what configuration it accepts.
use gitlab_shell.Prelude.{
  Bool-cases, Option-cases, Bytes, codes, eqb_iff, is_empty, has_prefix, trim_suffix, trim_left,
  contains_byte, before, Lacks, Lacks-contains_byte, contains_byte-Lacks, ℕ, ◌≤◌, ◌≡◌, refl, sym,
  ◌∙◌, ◌≢◌, ◌↔◌, ◌⊎◌, inl, inr, true, false, ◌||◌, none, some, [], ◌∷◌, arith,
}
use gitlab_shell.Errors.{ok, Result-cases}
use gitlab_shell.Decimal.{itoa}
use gitlab_shell.Topology.{
  TlsConfig, CellEndpointConfig, Config, validate_tls, scheme_http, scheme_https,
  validate_cell_endpoint, or_wrapped, validate, extract_top_level_namespace, Claim, route,
  ClassifyResponse, is_ipv6, Services, Resolver, host_of, build_cell_url, resolve, resolve_by_route,
  resolve_by_ssh_fingerprint, ssh_key_fingerprint,
}

-- A configuration that can be used: an address of host and port, a client certificate with its
-- key or neither, and an endpoint with one of two schemes and a port.
pub record IsUsable (c : Config) : Type 0 where
  pub address : contains_byte c.address b':' ≡ true
  pub tls : (c.tls.enabled ≡ true) → is_empty c.tls.cert_file ≡ is_empty c.tls.key_file
  pub scheme : (c.cell_endpoint.scheme ≡ scheme_http) ⊎ (c.cell_endpoint.scheme ≡ scheme_https)
  pub port : (1 ≤ c.cell_endpoint.port) × (c.cell_endpoint.port ≤ 65535)

validate_cell_endpoint_iff :
    (c : CellEndpointConfig)
    → (validate_cell_endpoint c ≡ none)
      ↔ (((c.scheme ≡ scheme_http) ⊎ (c.scheme ≡ scheme_https)) × (1 ≤ c.port) × (c.port ≤ 65535))
unfolding validate_cell_endpoint
validate_cell_endpoint_iff c =
    ground (arith, eqb_iff c.scheme scheme_http, eqb_iff c.scheme scheme_https)

before-Lacks : (s : Bytes) (c : ℕ) → Lacks c (before s c)
unfolding before
before-Lacks [] c = tt
before-Lacks (x ∷ s) c = ground (arith, before-Lacks s c)

trim_suffix-front :
    (s p : Bytes) (c : ℕ)
    → has_prefix s (c ∷ []) ≡ false
    → has_prefix (trim_suffix s p) (c ∷ []) ≡ false
unfolding has_prefix trim_suffix
trim_suffix-front [] p c h = refl
trim_suffix-front (x ∷ s) p c h = ground arith

trim_left-front : (s : Bytes) (c : ℕ) → has_prefix (trim_left s c) (c ∷ []) ≡ false
unfolding has_prefix trim_left
trim_left-front [] c = refl
trim_left-front (x ∷ s) c = ground (arith, trim_left-front s c)

-- A top-level namespace is one segment of a path: no slash is left in it.
pub extract_top_level_namespace-Lacks :
    (repo : Bytes) → Lacks b'/' (extract_top_level_namespace repo)
unfolding extract_top_level_namespace
extract_top_level_namespace-Lacks repo =
    let path = trim_suffix (trim_left repo b'/') (codes ".git") in
    let front : has_prefix path (b'/' ∷ []) ≡ false =
      trim_suffix-front (trim_left repo b'/') (codes ".git") b'/' (trim_left-front repo b'/') in
    rw (front, extract_top_level_namespace) (before-Lacks path b'/')

Bytes-cases : (s : Bytes) → (s ≡ []) ⊎ (is_empty s ≡ false)
Bytes-cases [] = inl refl
Bytes-cases (x ∷ s) = inr refl

validate_tls_iff :
    (c : TlsConfig)
    → (validate_tls c ≡ none) ↔ ((c.enabled ≡ true) → is_empty c.cert_file ≡ is_empty c.key_file)
unfolding validate_tls
validate_tls_iff c = ground arith

contains_byte-is_empty : (s : Bytes) (c : ℕ) → contains_byte s c ≡ true → is_empty s ≡ false
unfolding contains_byte
contains_byte-is_empty [] c h = cc
contains_byte-is_empty (x ∷ s) c h = refl

validate-parts :
    (c : Config)
    → c.enabled ≡ true
    → (validate c ≡ none) ↔ (
        (contains_byte c.address b':' ≡ true)
        × (validate_tls c.tls ≡ none)
        × (validate_cell_endpoint c.cell_endpoint ≡ none))
unfolding validate or_wrapped
validate-parts c on = ground (arith, contains_byte-is_empty c.address b':')

-- An enabled Topology Service is accepted exactly when its configuration can be used.
pub validate-IsUsable : (c : Config) → c.enabled ≡ true → (validate c ≡ none) ↔ IsUsable c
validate-IsUsable c on = (
  (λ h.
      let (address, tls, endpoint) = (validate-parts c on).0 h in
      let (scheme, low, high) = (validate_cell_endpoint_iff c.cell_endpoint).0 endpoint in
      record {
        address = address;
        tls = (validate_tls_iff c.tls).0 tls;
        scheme = scheme;
        port = (low, high);
      }),
  (λ u. (validate-parts c on).1 (
    u.address,
    (validate_tls_iff c.tls).1 u.tls,
    (validate_cell_endpoint_iff c.cell_endpoint).1 (u.scheme, u.port.0, u.port.1),
  )),
)

module _ (w : Services) (r : Resolver) where
  -- The Topology Service answered a claim with a proxy, whose host is used with the configured
  -- scheme and port.
  pub record IsRouted (claim : Claim) (url : Bytes) : Type 0 where
    pub response : ClassifyResponse
    pub answer : w.classify claim ≡ ok response
    pub is_proxy : response.is_proxy ≡ true
    pub address : Bytes
    pub proxy : response.proxy ≡ some address
    pub given : is_empty address ≡ false
    pub one_segment : Lacks b'/' address
    pub host : host_of w r address ≢ []
    pub no_ipv6 : Lacks b':' (host_of w r address)
    pub same :
        url
        ≡ w.url_string r.cell_endpoint.scheme
            (w.join_host_port (host_of w r address) (itoa r.cell_endpoint.port))

  host-facts :
      (h : Bytes) → (is_empty h || is_ipv6 h) ≡ false → (h ≢ []) × (contains_byte h b':' ≡ false)
  unfolding is_ipv6
  host-facts [] e = absurd (cc e)
  host-facts (x ∷ h) e = ((λ e'. absurd (cc e')), e)

  build_cell_url-cases :
      (claim : Claim) (response : ClassifyResponse) (address : Bytes)
      → w.classify claim ≡ ok response
      → response.is_proxy ≡ true
      → response.proxy ≡ some address
      → is_empty address ≡ false
      → (build_cell_url w r address ≡ []) ⊎ IsRouted claim (build_cell_url w r address)
  unfolding build_cell_url is_ipv6
  build_cell_url-cases claim response address answer is_proxy proxy given =
      elim (Bool-cases (contains_byte address b'/')) [
        | inl path ↦ inl (rw (path, build_cell_url) refl)
        | inr one ↦
            elim (Bool-cases (is_empty (host_of w r address) || is_ipv6 (host_of w r address))) [
              | inl bad ↦ inl (rw (one, bad, build_cell_url) refl)
              | inr good ↦ inr record {
                response = response;
                answer = answer;
                is_proxy = is_proxy;
                address = address;
                proxy = proxy;
                given = given;
                one_segment = Lacks-contains_byte address b'/' one;
                host = (host-facts (host_of w r address) good).0;
                no_ipv6 =
                    Lacks-contains_byte (host_of w r address) b':'
                      (host-facts (host_of w r address) good).1;
                same = rw (one, good, build_cell_url) refl;
              }
            ]
      ]

  resolve-IsRouted : (claim : Claim) → (resolve w r claim ≡ []) ⊎ IsRouted claim (resolve w r claim)
  unfolding resolve
  resolve-IsRouted claim = elim (Bool-cases r.has_client) [
    | inr no_client ↦ inl (rw (no_client, resolve) refl)
    | inl client ↦ elim (Result-cases (w.classify claim)) [
      | inl (e, bad) ↦ inl (rw (client, bad, resolve) refl)
      | inr (response, answer) ↦ elim (Bool-cases response.is_proxy) [
        | inr other ↦ inl (rw (client, answer, other, resolve) refl)
        | inl is_proxy ↦ elim (Option-cases response.proxy) [
          | inl missing ↦ inl (rw (client, answer, is_proxy, missing, resolve) refl)
          | inr (address, proxy) ↦ elim (Bytes-cases address) [
            | inl empty ↦ inl (rw (client, answer, is_proxy, proxy, empty, resolve) refl)
            | inr some_address ↦
                let same : resolve w r claim ≡ build_cell_url w r address =
                  simp (client, answer, is_proxy, proxy, some_address, resolve) in
                rw same
                  (build_cell_url-cases claim response address answer is_proxy proxy some_address)
          ]
        ]
      ]
    ]
  ]

  -- A cell that the Topology Service names is the one that is used.
  resolve_complete :
      (claim : Claim) (url : Bytes)
      → r.has_client ≡ true
      → IsRouted claim url
      → resolve w r claim ≡ url
  unfolding resolve build_cell_url is_ipv6
  resolve_complete claim url client x =
      let segment : contains_byte x.address b'/' ≡ false =
        contains_byte-Lacks x.address b'/' x.one_segment in
      let plain_host : contains_byte (host_of w r x.address) b':' ≡ false =
        contains_byte-Lacks (host_of w r x.address) b':' x.no_ipv6 in
      let named : is_empty (host_of w r x.address) ≡ false =
        elim (Bytes-cases (host_of w r x.address)) [
          | inl empty ↦ absurd (x.host empty)
          | inr given ↦ given
        ] in
      let given = x.given in
      let same : resolve w r claim
          ≡ w.url_string r.cell_endpoint.scheme
              (w.join_host_port (host_of w r x.address) (itoa r.cell_endpoint.port)) =
        simp (
          client, x.answer, x.is_proxy, x.proxy, given, segment, named, plain_host, resolve,
          build_cell_url, is_ipv6,
        ) in
      same ∙ sym x.same

  -- A repository's requests go to the default host, or to the cell that the Topology Service named
  -- for the top-level namespace of its path: by the configured scheme and port, at a host that is
  -- neither empty nor an IPv6 address, of an address without a slash.
  pub resolve_by_route-IsRouted :
      (repo_path : Bytes)
      → (resolve_by_route w r repo_path ≡ [])
        ⊎ IsRouted (route (extract_top_level_namespace repo_path)) (resolve_by_route w r repo_path)
  unfolding resolve_by_route
  resolve_by_route-IsRouted repo_path = elim (Bytes-cases (extract_top_level_namespace repo_path)) [
    | inl empty ↦ inl (rw (resolve_by_route, empty) refl)
    | inr namespace ↦
        rw (resolve_by_route, namespace)
          (resolve-IsRouted (route (extract_top_level_namespace repo_path)))
  ]

  -- Where the host of a fingerprint is: the cell that the Topology Service names for it, or the default
  -- one, if there is no fingerprint, no client of the Topology Service, or no cell with a URL that it
  -- names.
  abbrev pub IsPlaced : Bytes → Bytes → Type 0
  IsPlaced fingerprint host =
      ((host ≡ [])
        × ((fingerprint ≡ [])
            ⊎ (r.has_client ≡ false)
            ⊎ ¬ ((url : Bytes) × (url ≢ []) × IsRouted (ssh_key_fingerprint fingerprint) url)))
      ⊎ ((is_empty fingerprint ≡ false)
          × (r.has_client ≡ true)
          × IsRouted (ssh_key_fingerprint fingerprint) host)

  pub resolve_by_ssh_fingerprint-IsPlaced :
      (fingerprint : Bytes) → IsPlaced fingerprint (resolve_by_ssh_fingerprint w r fingerprint)
  unfolding resolve_by_ssh_fingerprint resolve
  resolve_by_ssh_fingerprint-IsPlaced fingerprint = elim (Bytes-cases fingerprint) [
    | inl empty ↦ inl (rw (resolve_by_ssh_fingerprint, empty) refl, inl empty)
    | inr given ↦ elim (Bool-cases r.has_client) [
      | inr no_client ↦
          inl (rw (resolve_by_ssh_fingerprint, given, no_client) refl, inr (inl no_client))
      | inl client ↦
          let claim = ssh_key_fingerprint fingerprint in
          let same : resolve_by_ssh_fingerprint w r fingerprint ≡ resolve w r claim =
            rw (resolve_by_ssh_fingerprint, given) refl in
          elim (resolve-IsRouted claim) [
            | inl none_named ↦ inl (
              same ∙ none_named,
              inr (
                  inr (λ (url, some_url, x).
                    some_url (sym (resolve_complete claim url client x) ∙ none_named))),
            )
            | inr x ↦ inr (given, client, rw same x)
          ]
    ]
  ]

  pub resolve_by_ssh_fingerprint-IsRouted :
      (fingerprint : Bytes)
      → (resolve_by_ssh_fingerprint w r fingerprint ≡ [])
        ⊎ IsRouted (ssh_key_fingerprint fingerprint) (resolve_by_ssh_fingerprint w r fingerprint)
  unfolding resolve_by_ssh_fingerprint
  resolve_by_ssh_fingerprint-IsRouted fingerprint = elim (Bytes-cases fingerprint) [
    | inl empty ↦ inl (rw (resolve_by_ssh_fingerprint, empty) refl)
    | inr given ↦
        rw (resolve_by_ssh_fingerprint, given) (resolve-IsRouted (ssh_key_fingerprint fingerprint))
  ]
