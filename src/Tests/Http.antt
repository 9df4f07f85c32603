-- ===== src/Tests/Http.antt =====
-- The HTTP clients on concrete inputs.
use gitlab_shell.Prelude.{
  if◌then◌else◌, Bytes, codes, eqb, ◌≤◌, ◌≡◌, refl, ◌↔◌, inr, true, false, none, some, [], ◌∷◌,
  ◌++◌, arith,
}
use gitlab_shell.Errors.{Result, ok, err, plain}
use gitlab_shell.ApiClient.{Response}
use gitlab_shell.Http.{Files, TlsConfig, with_tls, Request, Library, is_positive}
use gitlab_shell.Http.Agreement.{Within, build_https_transport-Within}
use gitlab_shell.Http.Client
use gitlab_shell.Http.Client.{HttpClientCfg, default_cfg, cert_pool, read_timeout}
use gitlab_shell.Http.GitlabNet.{round_trip_line, is_error_line}
use gitlab_shell.Http.Logging.{counts, round_trip_line-check_response}
use gitlab_shell.Http.Timeouts.{read_timeout-is_positive_iff}
use gitlab_shell.ApiClient.{check_response}
use gitlab_shell.Http.Internal.{Config, Client, build_https_transport, normalize_path, request_of}
use gitlab_shell.Http.Internal.Answers.{Agrees, parse_json-Agrees}
use gitlab_shell.Http.Internal.Requests.{Carries, request_of-Carries}

-- A host with the certificates 1 and 2, a CA file with 3, and a directory whose file `a.pem` has 4
-- and whose file `README` has 5.
abbrev read_file : Bytes → Result Bytes
read_file name =
    if eqb name (codes "/etc/ca.pem")
    then ok (3 ∷ [])
    else if eqb name (codes "/etc/certs/a.pem")
    then ok (4 ∷ [])
    else if eqb name (codes "/etc/certs/README")
    then ok (5 ∷ [])
    else err (plain (codes "not found"))

abbrev pub files : Files
files = record {
  system_cert_pool = ok (1 ∷ 2 ∷ []);
  stat = λ name. none;
  is_not_exist = λ e. true;
  read_file = read_file;
  read_dir = λ name. (
    record { name = codes "README"; is_dir = false }
        ∷ record { name = codes "a.pem"; is_dir = false }
        ∷ record { name = codes "old"; is_dir = true }
        ∷ [],
    none,
  );
  pem = λ content. content;
  load_key_pair = λ cert key. ok 9;
  quote = λ s. s;
}

abbrev pub library : Library
library = record {
  trim_space = λ s. s;
  now = 1000;
  signed_string = λ secret claims. ok (secret ++ codes "." ++ claims.gl_id);
  reject_request = λ http_method url. none;
}

abbrev config : Config
config = record {
  gitlab_url = codes "https://gitlab.example.com/";
  relative_url_root = [];
  user = codes "user";
  password = codes "password";
  secret = codes "secret";
  ca_file = codes "/etc/ca.pem";
  ca_path = codes "/etc/certs";
  read_timeout_seconds = 60;
}

abbrev trusted : TlsConfig
trusted = record { root_cas = 1 ∷ 2 ∷ 3 ∷ 4 ∷ []; certificates = [] }

built : build_https_transport files config ≡ ok (with_tls trusted)
unfolding build_https_transport
built = refl

abbrev older : HttpClientCfg
older = default_cfg files (codes "/etc/ca.pem") (codes "/etc/certs")

older_trusts : cert_pool files older (1 ∷ 2 ∷ []) ≡ 1 ∷ 2 ∷ 3 ∷ 5 ∷ 4 ∷ []
unfolding cert_pool
older_trusts = refl

abbrev older_tls : TlsConfig
older_tls = record { root_cas = 1 ∷ 2 ∷ 3 ∷ 5 ∷ 4 ∷ []; certificates = [] }

older_built : Client.build_https_transport files older ≡ ok (with_tls older_tls)
unfolding Client.build_https_transport
older_built = refl

build_https_transport-Within_example : Within trusted.root_cas older_tls.root_cas
build_https_transport-Within_example =
    build_https_transport-Within files config older trusted older_tls refl refl
      (inr (codes "etc/certs", refl)) built older_built

abbrev client : Client
client = record {
  transport = with_tls trusted;
  timeout = 60000000000;
  host = codes "https://gitlab.example.com/";
  user = codes "user";
  password = codes "password";
  secret = codes "secret";
}

abbrev request : Request
request = record {
  http_method = codes "POST";
  url = codes "https://gitlab.example.com/api/v4/internal/allowed";
  body = some (codes "{}");
  basic_auth = some (codes "user", codes "password");
  headers =
      (codes "Gitlab-Shell-Api-Request", codes "secret.")
      ∷ (codes "Content-Type", codes "application/json")
      ∷ (codes "User-Agent", codes "GitLab-Shell")
      ∷ [];
}

was_built :
    request_of files library client (codes "POST") (codes "lfs/../allowed") (some (ok (codes "{}")))
    ≡ ok request
unfolding request_of
was_built = refl

request_of-Carries_example :
    Carries files library client
      (codes "POST")
      (codes "lfs/../allowed")
      (some (ok (codes "{}")))
      request
request_of-Carries_example =
    request_of-Carries files library client (codes "POST") (codes "lfs/../allowed")
      (some (ok (codes "{}"))) request was_built

-- A path that leaves the internal API is refused, unless its new name begins alike.
leaves :
    (normalize_path files (codes "../../v4/projects")
      ≡ err
          (plain (codes "path /api/v4/internal/../../v4/projects escapes the internal API prefix")))
    × (normalize_path files (codes "../internal_events") ≡ ok (codes "/api/v4/internal_events"))
unfolding normalize_path
leaves = (refl, refl)

read_timeout-is_positive_iff_example :
    (is_positive (read_timeout 9223372037) ≡ true) ↔ (9223372037 ≤ 9223372036)
read_timeout-is_positive_iff_example =
    read_timeout-is_positive_iff 9223372037 (omega arith) (omega arith)

abbrev forbidden : Response
forbidden = record { status_code = 403; location = []; body = codes "no" }

round_trip_line-check_response_example :
    is_error_line (round_trip_line (ok 403))
    ≡ counts (check_response (λ body. some body) (λ s. s) (some forbidden) none)
round_trip_line-check_response_example =
    round_trip_line-check_response (λ body. some body) (λ s. s) forbidden

abbrev broken : Response
broken = record { status_code = 500; location = []; body = codes "sorry" }

parse_json-Agrees_example :
    Agrees {A = Bytes} (λ body. some body) (λ s. s) (λ body. some body) broken
parse_json-Agrees_example =
    parse_json-Agrees (λ body. some body) (λ s. s) (λ body. some body) broken refl
