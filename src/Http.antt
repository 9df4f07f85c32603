-- ===== src/Http.antt =====
-- What the HTTP clients of client and of internal/clients/gitlab share: requests with their
-- headers, the certificates that they trust, the choice of a transport by the URL's scheme, and
-- `time.Duration`, which is a 64-bit word. Files, PEM, JSON, JWT and `http.NewRequest` are
-- parameters.
pub mod Client
pub mod GitlabNet
pub mod Internal
pub mod Git
pub mod Agreement
pub mod Timeouts
pub mod Logging
pub mod Shared
use gitlab_shell.Prelude.{
  ltb, leb, ◌==◌, if◌then◌else◌, ==_iff, Bool-cases, Option-cases, and-eq-true_iff, length, take,
  drop, replicate, all, any, length-append, take-append-drop, length-take, length-drop, take-append,
  drop-append, take-append_all, drop-append_all, All, All-append, Bytes, codes, eqb, eqb_iff,
  eqb_refl, is_empty, has_prefix, trim_prefix, trim_suffix, trim_left, contains_byte, contains,
  before, split, last, mem, Lacks, Lacks-contains_byte, contains_byte-Lacks, ℕ, zero, suc, ◌+◌, ◌-◌,
  ◌*◌, ◌/◌, ◌%◌, ◌^◌, ◌≤◌, ◌<◌, ◌≡◌, refl, sym, ap, ◌∙◌, ◌≢◌, ◌↔◌, ◌⊎◌, inl, inr, Bool, true, false,
  not, ◌&&◌, ◌||◌, Option, none, some, List, [], ◌∷◌, ◌++◌, map, append_assoc, append-nil, arith,
  last-split, split-ne-nil, All-mono,
}
use gitlab_shell.Errors.{Result, Error}

-- An entry of `os.ReadDir`.
pub record Entry : Type 0 where
  pub name : Bytes
  pub is_dir : Bool

-- The host and Go's standard library. `read_dir` gives the entries that it could read, and the
-- error. `pem` gives the certificates of a text, each by a number, and `AppendCertsFromPEM` reports
-- whether there is one.
pub record Files : Type 0 where
  pub system_cert_pool : Result (List ℕ)
  pub stat : Bytes → Option Error
  pub is_not_exist : Error → Bool
  pub read_file : Bytes → Result Bytes
  pub read_dir : Bytes → List Entry × Option Error
  pub pem : Bytes → List ℕ
  pub load_key_pair : Bytes → Bytes → Result ℕ
  pub quote : Bytes → Bytes

-- `tls.Config`: the roots, and the client's certificates.
pub record TlsConfig : Type 0 where
  pub root_cas : List ℕ
  pub certificates : List ℕ

-- `http.Transport`: one that opens a Unix socket, one without options, one with TLS.
pub data Transport : Type 0 where
  dials_unix : Bytes → Transport
  default_transport : Transport
  with_tls : TlsConfig → Transport

abbrev pub socket_base_url : Bytes
socket_base_url = codes "http://unix"

abbrev pub unix_socket_protocol : Bytes
unix_socket_protocol = codes "http+unix://"

abbrev pub http_protocol : Bytes
http_protocol = codes "http://"

abbrev pub https_protocol : Bytes
https_protocol = codes "https://"

abbrev pub internal_api_path : Bytes
internal_api_path = codes "/api/v4/internal"

abbrev pub default_user_agent : Bytes
default_user_agent = codes "GitLab-Shell"

abbrev pub api_secret_header_name : Bytes
api_secret_header_name = codes "Gitlab-Shell-Api-Request"

-- `strings.TrimRight(s, string(c))` for one byte.
unfoldable pub trim_right : Bytes → ℕ → Bytes
trim_right [] c = []
trim_right (x ∷ s) c = let rest = trim_right s c in if x == c && is_empty rest then [] else x ∷ rest

-- `strings.Trim(s, string(c))` for one byte.
unfoldable pub trim : Bytes → ℕ → Bytes
unfolding trim_right trim_left
trim s c = trim_right (trim_left s c) c

-- A header map: the values of a name in the order in which they were added.
abbrev pub Headers : Type 0
Headers = List (Bytes × Bytes)

-- `Header.Add`
abbrev pub add_header : Bytes → Bytes → Headers → Headers
add_header name value headers = headers ++ (name, value) ∷ []

-- `Header.Del`
unfoldable pub del_header : Bytes → Headers → Headers
unfolding eqb
del_header name [] = []
del_header name ((n, v) ∷ headers) =
    let rest = del_header name headers in if eqb n name then rest else (n, v) ∷ rest

-- `Header.Set`
unfoldable pub set_header : Bytes → Bytes → Headers → Headers
unfolding del_header
set_header name value headers = add_header name value (del_header name headers)

-- `Header.Values`
unfoldable pub header_values : Bytes → Headers → List Bytes
unfolding eqb
header_values name [] = []
header_values name ((n, v) ∷ headers) =
    let rest = header_values name headers in if eqb n name then v ∷ rest else rest

-- `http.Request`; the credentials of `SetBasicAuth` stand apart from the headers.
pub record Request : Type 0 where
  pub http_method : Bytes
  pub url : Bytes
  pub body : Option Bytes
  pub basic_auth : Option (Bytes × Bytes)
  pub headers : Headers

-- `jwt.RegisteredClaims`, and the `gl_id` of `ShellClaims`, which may be empty; times in seconds.
pub record Claims : Type 0 where
  pub issuer : Bytes
  pub issued_at : ℕ
  pub expires_at : ℕ
  pub gl_id : Bytes

abbrev pub jwt_issuer : Bytes
jwt_issuer = codes "gitlab-shell"

abbrev pub jwt_ttl : ℕ
jwt_ttl = 60

-- `strings.TrimSpace`, the clock, the signing of claims under a secret with HS256, and the check of
-- `http.NewRequestWithContext` for a method and a URL.
pub record Library : Type 0 where
  pub trim_space : Bytes → Bytes
  pub now : ℕ
  pub signed_string : Bytes → Claims → Result Bytes
  pub reject_request : Bytes → Bytes → Option Error

abbrev pub second : ℕ
second = 1000000000

-- `d * time.Second` for a `time.Duration`: a product of 64-bit words.
unfoldable pub times_second : ℕ → ℕ
times_second n = (n * 1000000000) % 2 ^ 64

-- Whether a 64-bit word is positive in two's complement.
unfoldable pub is_positive : ℕ → Bool
is_positive d = not (d == 0) && ltb d (2 ^ 63)
