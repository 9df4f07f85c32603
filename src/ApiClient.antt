-- ===== src/ApiClient.antt =====
-- client/gitlabnet.go and client/httpclient.go: the paths of the internal API, and how its
-- responses and transport failures become errors. The decoding of an error's JSON body and the
-- quoting of `%q` are parameters.
pub mod Rules
use gitlab_shell.Prelude.{
  ltb, leb, ◌==◌, if◌then◌else◌, ==_iff, Bool-cases, Option-cases, and-eq-true_iff, length, take,
  drop, replicate, all, any, length-append, take-append-drop, length-take, length-drop, take-append,
  drop-append, take-append_all, drop-append_all, All, All-append, Bytes, codes, eqb, eqb_iff,
  eqb_refl, is_empty, has_prefix, trim_prefix, trim_suffix, trim_left, contains_byte, contains,
  before, split, last, mem, Lacks, Lacks-contains_byte, contains_byte-Lacks, ℕ, zero, suc, ◌+◌, ◌-◌,
  ◌*◌, ◌/◌, ◌%◌, ◌^◌, ◌≤◌, ◌<◌, ◌≡◌, refl, sym, ap, ◌∙◌, ◌≢◌, ◌↔◌, ◌⊎◌, inl, inr, Bool, true, false,
  not, ◌&&◌, ◌||◌, Option, none, some, List, [], ◌∷◌, ◌++◌, map, append_assoc, append-nil, arith,
  last-split, split-ne-nil, All-mono,
}
use gitlab_shell.Decimal.{itoa}
use gitlab_shell.Errors.{Result, ok, err, Error, ApiError, api, is_canceled}

abbrev pub internal_api_path : Bytes
internal_api_path = codes "/api/v4/internal"

abbrev slash : Bytes
slash = codes "/"

unfoldable pub rooted : Bytes → Bytes
unfolding has_prefix
rooted path = if not (has_prefix path slash) then slash ++ path else path

unfoldable pub prefixed : Bytes → Bytes
prefixed path = if not (has_prefix path internal_api_path) then internal_api_path ++ path else path

-- `normalizePath`
unfoldable pub normalize_path : Bytes → Bytes
normalize_path path = prefixed (rooted path)

-- `appendPath`
unfoldable pub append_path : Bytes → Bytes → Bytes
append_path host path = trim_suffix host slash ++ (slash ++ trim_prefix path slash)

-- `IsFollowedRedirect`
unfoldable pub is_followed_redirect : ℕ → Bool
is_followed_redirect code = code == 301 || code == 302 || code == 303 || code == 307 || code == 308

-- `IsSystemErrorStatus`
unfoldable pub is_system_error_status : ℕ → Bool
unfolding is_followed_redirect
is_system_error_status code = is_followed_redirect code || code == 400 || leb 500 code

-- What `parseError` reads of a response.
pub record Response : Type 0 where
  pub status_code : ℕ
  pub location : Bytes
  pub body : Bytes

-- `NewTransportAPIError`; there may be no cause.
unfoldable pub new_transport_api_error : Bytes → Option Error → ApiError
unfolding is_canceled
new_transport_api_error msg none = record { msg = msg; status_code = 0; system = true }
new_transport_api_error msg (some cause) = record {
  msg = msg;
  status_code = 0;
  system = not (is_canceled cause);
}

module _ (decode : Bytes → Option Bytes) (quote : Bytes → Bytes) where
  -- `parseError`
  unfoldable pub parse_error : Response → Option ApiError
  unfolding is_followed_redirect is_system_error_status
  parse_error r =
      if is_followed_redirect r.status_code
      then some (record {
        msg =
            codes "Internal API returned redirect ("
            ++ (itoa r.status_code ++ (codes ") to " ++ quote r.location));
        status_code = r.status_code;
        system = true;
      })
      else if leb 200 r.status_code && leb r.status_code 399
      then none
      else elim (decode r.body) [
        | none ↦ some (record {
          msg = codes "Internal API error (" ++ (itoa r.status_code ++ codes ")");
          status_code = r.status_code;
          system = is_system_error_status r.status_code;
        })
        | some msg ↦ some (record {
          msg = msg;
          status_code = r.status_code;
          system = is_system_error_status r.status_code;
        })
      ]

  -- `checkResponse`
  unfoldable pub check_response : Option Response → Option Error → Result Response
  unfolding parse_error new_transport_api_error
  check_response none cause =
      err (api (new_transport_api_error (codes "Internal API unreachable") cause))
  check_response (some r) (some cause) =
      err (api (new_transport_api_error (codes "Internal API unreachable") (some cause)))
  check_response (some r) none = elim (parse_error r) [ some e ↦ err (api e) | none ↦ ok r ]
