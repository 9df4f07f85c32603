-- ===== src/Http/GitlabNet.antt =====
-- client/gitlabnet.go and client/transport.go: how a call of the internal API becomes a request,
-- what the transport adds to it, and how loud its outcome is logged.
use gitlab_shell.Prelude.{
  leb, if◌then◌else◌, Bytes, codes, is_empty, ℕ, ◌+◌, Bool, true, false, not, ◌&&◌, Option, none,
  some, [],
}
use gitlab_shell.Errors.{Result, ok, err, Error, plain, ◌>>=◌}
use gitlab_shell.ApiClient.{
  Response, append_path, check_response, is_system_error_status, normalize_path,
}
use gitlab_shell.Http.{
  default_user_agent, api_secret_header_name, Headers, add_header, set_header, Request, Claims,
  jwt_issuer, jwt_ttl, Library,
}
use gitlab_shell.Http.Client.{HttpClient}

-- `GitlabNetClient`
pub record GitlabNetClient : Type 0 where
  pub http_client : HttpClient
  pub user : Bytes
  pub password : Bytes
  pub secret : Bytes
  pub user_agent : Bytes

-- `NewGitlabNetClient`; there may be no HTTP client.
unfoldable pub new_gitlab_net_client :
    Bytes → Bytes → Bytes → Option HttpClient → Result GitlabNetClient
new_gitlab_net_client user password secret none = err (plain (codes "unsupported protocol"))
new_gitlab_net_client user password secret (some c) = ok (record {
  http_client = c;
  user = user;
  password = password;
  secret = secret;
  user_agent = default_user_agent;
})

-- `SetUserAgent`
unfoldable pub set_user_agent : Bytes → GitlabNetClient → GitlabNetClient
set_user_agent ua c = record c { user_agent = ua }

-- `WithHost`
unfoldable pub with_host : Bytes → GitlabNetClient → GitlabNetClient
with_host host c = record c { http_client = record c.http_client { host = host } }

-- The levels of the log, and what `RoundTrip` logs.
pub data LogLine : Type 0 where
  unreachable api_error client_error finished : LogLine

-- Whether a line is logged as an error.
unfoldable pub is_error_line : LogLine → Bool
is_error_line unreachable = true
is_error_line api_error = true
is_error_line client_error = false
is_error_line finished = false

-- `transport.RoundTrip`, in front of the next one: the original address of the SSH client, if the
-- context has one, and a user agent.
unfoldable pub add_transport_headers : Option Bytes → Headers → Headers
add_transport_headers none headers = add_header (codes "User-Agent") default_user_agent headers
add_transport_headers (some ip) headers =
    add_header (codes "User-Agent") default_user_agent
      (add_header (codes "X-Forwarded-For") ip headers)

-- `transport.RoundTrip`, behind the next one, on the status of its response.
unfoldable pub round_trip_line : Result ℕ → LogLine
unfolding is_system_error_status
round_trip_line (err e) = unreachable
round_trip_line (ok code) =
    if is_system_error_status code
    then api_error
    else if leb 400 code
    then client_error
    else finished

module _ (lib : Library) where
  -- `newRequest`, on the outcome of `json.Marshal` if there is data.
  unfoldable pub new_request : Bytes → Bytes → Bytes → Option (Result Bytes) → Result Request
  unfolding append_path
  new_request http_method host path none =
      elim (lib.reject_request http_method (append_path host path)) [
        | some e ↦ err e
        | none ↦ ok (record {
          http_method = http_method;
          url = append_path host path;
          body = none;
          basic_auth = none;
          headers = [];
        })
      ]
  new_request http_method host path (some (err e)) = err e
  new_request http_method host path (some (ok json)) =
      elim (lib.reject_request http_method (append_path host path)) [
        | some e ↦ err e
        | none ↦ ok (record {
          http_method = http_method;
          url = append_path host path;
          body = some json;
          basic_auth = none;
          headers = [];
        })
      ]

  -- The claims of a request.
  unfoldable pub claims : Bytes → Claims
  claims gl_id = record {
    issuer = jwt_issuer;
    issued_at = lib.now;
    expires_at = lib.now + jwt_ttl;
    gl_id = gl_id;
  }

  -- `SignShellJWT`
  unfoldable pub sign_shell_jwt : Bytes → Bytes → Result Bytes
  unfolding claims
  sign_shell_jwt secret gl_id = lib.signed_string (lib.trim_space secret) (claims gl_id)

  -- What `DoRequest` does to its request before it is sent.
  unfoldable pub authorize : GitlabNetClient → Request → Result Request
  unfolding claims set_header
  authorize c r = lib.signed_string (lib.trim_space c.secret) (claims []) >>= λ token.
      ok (record r {
        basic_auth =
            (if not (is_empty c.user) && not (is_empty c.password)
              then some (c.user, c.password)
              else r.basic_auth);
        headers = add_header (codes "User-Agent") c.user_agent (
            add_header (codes "Content-Type") (codes "application/json")
              (set_header api_secret_header_name token r.headers));
      })

  -- The request of `DoRequest`.
  unfoldable pub request_of :
      GitlabNetClient → Bytes → Bytes → Option (Result Bytes) → Result Request
  unfolding new_request authorize
  request_of c http_method path json =
      new_request http_method c.http_client.host path json >>= authorize c

module _ (lib : Library) (send : Request → Option Response × Option Error)
    (decode : Bytes → Option Bytes) (quote : Bytes → Bytes) where
  -- `DoRequest`, with `retryablehttp` as `send`.
  unfoldable pub do_request :
      GitlabNetClient → Bytes → Bytes → Option (Result Bytes) → Result Response
  unfolding request_of check_response
  do_request c http_method path json = request_of lib c http_method path json >>= λ r.
      let (response, failure) = send r in check_response decode quote response failure

  -- `Get`
  unfoldable pub get : GitlabNetClient → Bytes → Result Response
  unfolding do_request normalize_path
  get c path = do_request c (codes "GET") (normalize_path path) none

  -- `Post`
  unfoldable pub post : GitlabNetClient → Bytes → Result Bytes → Result Response
  unfolding do_request normalize_path
  post c path json = do_request c (codes "POST") (normalize_path path) (some json)

-- `Do`: a request as it is, without the retries.
unfoldable pub do_plain :
    (Request → Option Response × Option Error)
    → (Bytes → Option Bytes)
    → (Bytes → Bytes)
    → Request
    → Result Response
unfolding check_response
do_plain send decode quote r =
    let (response, failure) = send r in check_response decode quote response failure
