-- ===== src/GitHttp/Cells.antt =====
-- internal/command/githttp/cells.go: Git over HTTP to the cell that owns a repository. URLs are
-- parameters.

pub mod Signed
use gitlab_shell.Prelude.{
  ltb, leb, ◌==◌, if◌then◌else◌, ==_iff, Bool-cases, Option-cases, and-eq-true_iff, length, take,
  drop, replicate, all, any, length-append, take-append-drop, length-take, length-drop, take-append,
  drop-append, take-append_all, drop-append_all, All, All-append, Bytes, codes, eqb, eqb_iff,
  eqb_refl, is_empty, has_prefix, trim_prefix, trim_suffix, trim_left, contains_byte, contains,
  before, split, last, mem, Lacks, Lacks-contains_byte, contains_byte-Lacks, ℕ, zero, suc, ◌+◌, ◌-◌,
  ◌*◌, ◌/◌, ◌%◌, ◌^◌, ◌≤◌, ◌<◌, ◌≡◌, refl, sym, ap, ◌∙◌, ◌≢◌, ◌↔◌, ◌⊎◌, inl, inr, Bool, true, false,
  not, ◌&&◌, ◌||◌, Option, none, some, List, [], ◌∷◌, ◌++◌, map, append_assoc, append-nil, arith,
  last-split, split-ne-nil, All-mono,
}
use gitlab_shell.Errors.{Result, ok, err, Error, plain, wrapped, ◌>>=◌}
use gitlab_shell.Path.{join}
use gitlab_shell.Http.{Headers, api_secret_header_name, Request, Library}
use gitlab_shell.Http.GitlabNet.{sign_shell_jwt}
use gitlab_shell.Http.Git.{Client, Response, Pack, ssh_upload_pack, ssh_receive_pack}
use gitlab_shell.GitHttp.Execute.{Outcome, execute_ssh_request}

-- `url.URL`: the scheme, the host, the path, and the rest, which is passed on.
pub record Url : Type 0 where
  pub scheme : Bytes
  pub host : Bytes
  pub path : Bytes
  pub rest : Bytes

-- Of the response to `/allowed` and of the arguments what the command reads.
pub record Access : Type 0 where
  pub gl_project_path : Bytes
  pub cell_address : Bytes
  pub user_id : Bytes
  pub git_protocol_version : Bytes

-- The operations of `NewCellsPullCommand` and `NewCellsPushCommand`.
pub data Operation : Type 0 where
  cells_pull cells_push : Operation

unfoldable pub request_fn : Operation → Pack
request_fn cells_pull = ssh_upload_pack
request_fn cells_push = ssh_receive_pack

-- `url.Parse`, `URL.String`, and the quoting of `%q`.
pub record Urls : Type 0 where
  pub parse : Bytes → Result Url
  pub string : Url → Bytes
  pub quote : Bytes → Bytes

module _ (urls : Urls) (lib : Library) where
  -- The base URL of `buildCellsGitClient`: all three faults have one message.
  unfoldable pub base_of : Bytes → Result Url
  base_of address =
      let invalid : Error = plain (
        codes "cells routing: invalid cell address "
        ++ (urls.quote address ++ codes ": missing URL scheme")) in
      elim (urls.parse address) [
        | err e ↦ err invalid
        | ok base ↦ if is_empty base.scheme || is_empty base.host then err invalid else ok base
      ]

  -- The headers of `buildCellsGitClient`.
  unfoldable pub headers_of : Bytes → Bytes → Headers
  headers_of shell_jwt git_protocol =
      (api_secret_header_name, shell_jwt)
      ∷ (if not (is_empty git_protocol) then (codes "Git-Protocol", git_protocol) ∷ [] else [])

  -- The URL of the repository.
  unfoldable pub repo_url : Url → Bytes → Bytes
  unfolding join
  repo_url base repo_path =
      urls.string (record base { path = join (base.path ∷ (repo_path ++ codes ".git") ∷ []) })

  -- The signing of `buildCellsGitClient`.
  unfoldable pub sign : Bytes → Bytes → Result Bytes
  unfolding sign_shell_jwt
  sign secret user_id = elim (sign_shell_jwt lib secret user_id) [
    | err e ↦ err (wrapped (codes "cells routing: generating Shell JWT") e)
    | ok token ↦ ok token
  ]

  -- `buildCellsGitClient`, with the secret of the configuration.
  unfoldable pub build_cells_git_client : Bytes → Access → Result Client
  unfolding base_of headers_of repo_url sign
  build_cells_git_client secret a =
      if is_empty a.gl_project_path
      then err (plain (codes "cells routing: missing gl_project_path in /allowed response"))
      else base_of a.cell_address >>= λ base. sign secret a.user_id >>= λ token. ok (record {
        url = repo_url base a.gl_project_path;
        headers = headers_of token a.git_protocol_version;
      })

  -- `CellsCommand.Execute`
  unfoldable pub execute_cells :
      (Request → Result Response) → Operation → Bytes → Access → List Bytes → Outcome
  unfolding build_cells_git_client execute_ssh_request request_fn
  execute_cells send operation secret a input = elim (build_cells_git_client secret a) [
    | err e ↦ record { sent = []; out = []; failure = some e }
    | ok c ↦ execute_ssh_request lib send (request_fn operation) c input
  ]
