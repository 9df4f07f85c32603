-- ===== src/Access/Audit.antt =====
-- internal/command/gitauditevent/audit.go and internal/gitlabnet/gitauditevent/client.go: the event
-- that is sent behind a command of Git. Its errors are only logged. The statistics of the pack are
-- passed on and left out.
use gitlab_shell.Prelude.{Bytes, codes, ℕ, Option, none, some, List, [], ◌∷◌, ◌++◌}
use gitlab_shell.Errors.{Error, message}
use gitlab_shell.CommandArgs.{Shell}
use gitlab_shell.Access.{World, parse_ip}

-- `Request`
pub record Request : Type 0 where
  pub action : Bytes
  pub protocol : Bytes
  pub repo : Bytes
  pub username : Bytes
  pub key_id : ℕ
  pub check_ip : Bytes
  pub changes : Bytes
  pub namespace_path : Bytes

-- Of the response to `/allowed` what the event is made of; an `AuditParams` has the same fields.
pub record AuditParams : Type 0 where
  pub username : Bytes
  pub key_id : ℕ
  pub repo : Bytes
  pub cell_address : Bytes

-- What an audit does: it posts the event to a host, which is empty for the default one, and it logs
-- an error.
pub data AuditEffect : Type 0 where
  posts : Bytes → Request → AuditEffect
  logs_error : Bytes → AuditEffect

module _ (w : World) where
  -- The request of `Client.Audit`.
  unfoldable pub request_of : AuditParams → Shell → Request
  unfolding parse_ip
  request_of p args = record {
    action = args.command_type;
    protocol = codes "ssh";
    repo = p.repo;
    username = p.username;
    key_id = p.key_id;
    check_ip = parse_ip w args.env.remote_addr;
    changes = codes "_any";
    namespace_path = args.env.namespace_path;
  }

  -- `Audit`, on the outcome of `NewClient` and of the request.
  unfoldable pub audit :
      Option Error → (Bytes → Request → Option Error) → AuditParams → Shell → List AuditEffect
  unfolding request_of
  audit (some e) post p args =
      logs_error (codes "failed to create gitauditevent client: " ++ message e) ∷ []
  audit none post p args = elim (post p.cell_address (request_of p args)) [
    | none ↦ posts p.cell_address (request_of p args) ∷ []
    | some e ↦
        posts p.cell_address (request_of p args)
        ∷ logs_error (codes "failed to audit git event: " ++ message e)
        ∷ []
  ]
