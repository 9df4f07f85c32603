-- ===== src/Lfs/Command.antt =====
-- Execute of internal/command/lfstransfer/lfstransfer.go and of internal/command/lfsauthenticate,
-- with the client of internal/gitlabnet/lfsauthenticate. The protocol library, the internal API,
-- base64 and JSON are parameters. Log data is left out, and writing the output does not fail.
use gitlab_shell.Prelude.{
  if◌then◌else◌, Bytes, codes, eqb, is_empty, trim_prefix, ℕ, not, Option, none, some, List, [],
  ◌∷◌, ◌++◌, map,
}
use gitlab_shell.Errors.{Result, ok, err, Error, disallowed, ◌>>=◌}
use gitlab_shell.CommandArgs.{Shell, upload_pack, receive_pack}
use gitlab_shell.Access
use gitlab_shell.Access.{Response, verify}
use gitlab_shell.Lfs.{op_upload, op_download}
use gitlab_shell.Lfs.Client.{parse_json}

-- `Request` and `Response` of the client.
pub record AuthRequest : Type 0 where
  pub operation : Bytes
  pub repo : Bytes
  pub key_id : Bytes
  pub user_id : Bytes

pub record AuthResponse : Type 0 where
  pub username : Bytes
  pub lfs_token : Bytes
  pub repo_path : Bytes
  pub expires_in : ℕ

-- `GitlabAuthentication`
pub record Authentication : Type 0 where
  pub href : Bytes
  pub auth : Bytes

-- `Payload`, with its one header.
pub record Payload : Type 0 where
  pub auth : Bytes
  pub href : Bytes
  pub expires_in : ℕ

-- What a command does: the steps of `Verify`, the request for a token at an address, the transfer
-- of an operation, and what is printed.
pub data Effect : Type 0 where
  checked : Access.Effect → Effect
  requested : Bytes → AuthRequest → Effect
  transferred : Bytes → Authentication → Effect
  printed : Bytes → Effect

-- The services of the access, `NewClient` of the token's client, `/lfs_authenticate` at an address,
-- the codecs, and what the transfer returns: the writing of the capabilities and the processor.
pub record World : Type 0 where
  pub access : Access.World
  pub new_client : Option Error
  pub post : Bytes → AuthRequest → Result (ℕ × Bytes)
  pub decode : Bytes → Option AuthResponse
  pub encode_base64 : Bytes → Bytes
  pub marshal : Payload → Result Bytes
  pub process : Bytes → Authentication → Option Error

-- `actionFromOperation`
unfoldable pub action_from_operation : Bytes → Result Bytes
action_from_operation operation =
    if eqb operation op_download
    then ok upload_pack
    else if eqb operation op_upload
    then ok receive_pack
    else err disallowed

-- The request of `Authenticate`.
unfoldable pub auth_request : Shell → Bytes → Bytes → Bytes → AuthRequest
auth_request args operation repo user_id =
    if not (is_empty args.gitlab_key_id)
    then record { operation = operation; repo = repo; key_id = args.gitlab_key_id; user_id = [] }
    else record {
      operation = operation;
      repo = repo;
      key_id = [];
      user_id = trim_prefix user_id (codes "user-");
    }

module _ (w : World) where
  -- `Client.Authenticate`, which goes to the cell of the access if there is one.
  unfoldable pub request_token :
      Shell → Bytes → Bytes → Response → List Effect × Result AuthResponse
  unfolding auth_request parse_json
  request_token args operation repo r = elim w.new_client [
    | some e ↦ ([], err e)
    | none ↦
        let q = auth_request args operation repo r.user_id in
        (
          requested r.cell_address q ∷ [],
          (w.post r.cell_address q >>= λ answer. parse_json w.decode answer.1),
        )
  ]

  -- The value of the header `Authorization`.
  unfoldable pub basic_auth : AuthResponse → Bytes
  basic_auth a = codes "Basic " ++ w.encode_base64 (a.username ++ codes ":" ++ a.lfs_token)

  -- `authenticate` of the transfer.
  unfoldable pub authentication_of : AuthResponse → Authentication
  unfolding basic_auth
  authentication_of a = record { href = a.repo_path ++ codes "/info/lfs"; auth = basic_auth a }

  -- `authenticate` of the command that prints.
  unfoldable pub payload_of : AuthResponse → Result Bytes
  unfolding basic_auth
  payload_of a = w.marshal (record {
    auth = basic_auth a;
    href = a.repo_path ++ codes "/info/lfs";
    expires_in = a.expires_in;
  })

  -- Behind the access: `processTransfer`.
  unfoldable pub transfer_lfs : Shell → Bytes → Bytes → Response → List Effect × Option Error
  unfolding request_token authentication_of
  transfer_lfs args operation repo r =
      let (asked, answer) = request_token args operation repo r in
      elim answer [
        | err e ↦ (asked, some e)
        | ok a ↦
            let auth = authentication_of a in
            (asked ++ transferred operation auth ∷ [], w.process operation auth)
      ]

  -- Behind the access: the payload is printed, and nothing if there is none.
  unfoldable pub print_token : Shell → Bytes → Bytes → Response → List Effect × Option Error
  unfolding request_token payload_of
  print_token args operation repo r =
      let (asked, answer) = request_token args operation repo r in
      elim (answer >>= payload_of) [
        | err e ↦ (asked, none)
        | ok payload ↦ (asked ++ printed (payload ++ codes "\n") ∷ [], none)
      ]

  -- What both commands do for an operation on a repository.
  unfoldable pub behind_access :
      (Response → List Effect × Option Error) → Shell → Bytes → Bytes → List Effect × Option Error
  unfolding action_from_operation
  behind_access next args repo operation = elim (action_from_operation operation) [
    | err e ↦ ([], some e)
    | ok action ↦
        let (asked, answer) = verify w.access args action repo in
        elim answer [
          | err e ↦ (map checked asked, some e)
          | ok r ↦ let (done, outcome) = next r in (map checked asked ++ done, outcome)
        ]
  ]

  -- `Execute` of git-lfs-transfer, on the words of the command.
  unfoldable pub execute_transfer : Shell → List Bytes → List Effect × Option Error
  unfolding behind_access transfer_lfs
  execute_transfer args (name ∷ repo ∷ operation ∷ []) =
      behind_access (transfer_lfs args operation repo) args repo operation
  execute_transfer args words = ([], some disallowed)

  -- `Execute` of git-lfs-authenticate.
  unfoldable pub execute_authenticate : Shell → List Bytes → List Effect × Option Error
  unfolding behind_access print_token
  execute_authenticate args (name ∷ repo ∷ operation ∷ rest) =
      behind_access (print_token args operation repo) args repo operation
  execute_authenticate args words = ([], some disallowed)
