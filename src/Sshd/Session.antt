-- ===== src/Sshd/Session.antt =====
-- internal/sshd/session.go: the requests of one session. The library's parts are parameters: the
-- decoding of a request's payload (`ssh.Unmarshal`), `shellwords.Parse`, and what a command does
-- when it is executed. A session talks to the client through replies, texts on standard error,
-- the exit status and the end of the channel, in their order.
pub mod Rules
pub mod Loop
use gitlab_shell.Prelude.{
  ltb, leb, ◌==◌, if◌then◌else◌, ==_iff, Bool-cases, Option-cases, and-eq-true_iff, length, take,
  drop, replicate, all, any, length-append, take-append-drop, length-take, length-drop, take-append,
  drop-append, take-append_all, drop-append_all, All, All-append, Bytes, codes, eqb, eqb_iff,
  eqb_refl, is_empty, has_prefix, trim_prefix, trim_suffix, trim_left, contains_byte, contains,
  before, split, last, mem, Lacks, Lacks-contains_byte, contains_byte-Lacks, ℕ, zero, suc, ◌+◌, ◌-◌,
  ◌*◌, ◌/◌, ◌%◌, ◌^◌, ◌≤◌, ◌<◌, ◌≡◌, refl, sym, ap, ◌∙◌, ◌≢◌, ◌↔◌, ◌⊎◌, inl, inr, Bool, true, false,
  not, ◌&&◌, ◌||◌, Option, none, some, List, [], ◌∷◌, ◌++◌, map, append_assoc, append-nil, arith,
  last-split, split-ne-nil, All-mono,
}
use gitlab_shell.Errors.{Result, ok, err, Error, message, is_disallowed}
use gitlab_shell.CommandArgs.{Env}
use gitlab_shell.ShellCommand.{
  Config, Command, Counters, new_with_key, new_with_krb5_principal, new_with_username,
}
use gitlab_shell.Sshd.Connection.{Code, internal}

-- The state of a `session`: what the connection sets up, then what the session keeps.
pub record Session : Type 0 where
  pub gitlab_key_id : Bytes
  pub gitlab_krb5_principal : Bytes
  pub gitlab_username : Bytes
  pub namespace : Bytes
  pub remote_addr : Bytes
  pub exec_cmd : Bytes
  pub git_protocol_version : Bytes

-- `ssh.Request`
pub record Request : Type 0 where
  pub type : Bytes
  pub want_reply : Bool
  pub payload : Bytes

pub data Effect : Type 0 where
  reply : Bool → Effect
  executed : Command → Effect
  stderr : Bytes → Effect
  exit_status : ℕ → Effect
  closed : Effect

-- What a command's execution returns: `none` is success.
abbrev pub Outcome : Type 0
Outcome = Option Error

-- The reply that a request wants.
abbrev pub replies : Request → Bool → List Effect
replies req accepted = if req.want_reply then reply accepted ∷ [] else []

-- What a session calls: `ssh.Unmarshal` on the payload of an `env` and of an `exec` request,
-- `shellwords.Parse`, the commands' `Execute`, and the code and message of a gRPC status.
pub record World : Type 0 where
  pub unmarshal_env : Bytes → Result (Bytes × Bytes)
  pub unmarshal_exec : Bytes → Result Bytes
  pub parse_words : Bytes → Result (List Bytes)
  pub execute : Command → Outcome
  pub grpc_code : Error → Code
  pub grpc_message : Error → Bytes
  pub config : Config

-- The environment that `handleShell` makes for the command.
abbrev pub env_of : Session → Env
env_of s = record {
  git_protocol_version = s.git_protocol_version;
  is_ssh_connection = true;
  original_command = s.exec_cmd;
  remote_addr = s.remote_addr;
  namespace_path = s.namespace;
}

-- `handleCommandError`
unfoldable pub handle_command_error : Session → Error → List Effect
handle_command_error s e =
    if is_disallowed e
    then stderr (codes "ERROR: Unknown command: " ++ (s.exec_cmd ++ codes "\n")) ∷ []
    else stderr (codes "ERROR: Failed to parse command: " ++ (message e ++ codes "\n")) ∷ []

module _ (w : World) where
  open w use {unmarshal_env, unmarshal_exec, parse_words, execute, grpc_code, grpc_message, config}

  -- `getCommand`
  unfoldable pub get_command : Session → Counters → Result Command × Counters
  get_command s n =
      if not (is_empty s.gitlab_krb5_principal)
      then new_with_krb5_principal parse_words s.gitlab_krb5_principal (env_of s) config n
      else if not (is_empty s.gitlab_username)
      then new_with_username parse_words s.gitlab_username (env_of s) config n
      else new_with_key parse_words s.gitlab_key_id (env_of s) config n

  -- The end of `handleShell`, behind the execution: its effects, the status and the error.
  unfoldable pub after_execute : Outcome → List Effect × ℕ × Outcome
  after_execute none = ([], 0, none)
  after_execute (some e) = (
    elim (grpc_code e) [
      | internal ↦ []
      | _ ↦ stderr (codes "ERROR: " ++ (grpc_message e ++ codes "\n")) ∷ []
    ],
    1,
    some e,
  )

  -- `handleShell`, behind its reply.
  unfoldable pub run_command : Session → Result Command → List Effect × ℕ × Outcome
  run_command s (err e) = (handle_command_error s e, 128, some e)
  run_command s (ok c) =
      let (said, status, outcome) = after_execute (execute c) in
      (executed c ∷ said, status, outcome)

  -- `handleShell`
  unfoldable pub handle_shell : Session → Request → Counters → List Effect × ℕ × Outcome
  handle_shell s req n =
      let (said, status, outcome) = run_command s (get_command s n).0 in
      (replies req true ++ said, status, outcome)

  -- `handleEnv`: the new state, its effects, whether the session goes on, and the error.
  unfoldable pub handle_env : Session → Request → Session × List Effect × Bool × Outcome
  handle_env s req = elim (unmarshal_env req.payload) [
    | err e ↦ (s, [], false, some e)
    | ok pair ↦
        if eqb pair.0 (codes "GIT_PROTOCOL")
        then (record s { git_protocol_version = pair.1 }, replies req true, true, none)
        else (s, replies req false, true, none)
  ]

  -- `handleExec`
  unfoldable pub handle_exec : Session → Request → Counters → Session × List Effect × Outcome
  handle_exec s req n = elim (unmarshal_exec req.payload) [
    | err e ↦ (s, [], some e)
    | ok command ↦
        let s' : Session = record s { exec_cmd = command } in
        let (said, status, outcome) = handle_shell s' req n in
        (s', said ++ exit_status status ∷ [], outcome)
  ]

  -- The switch of `handle` on one request: the new state, the effects, whether the loop goes on,
  -- and the error. Replies are taken to succeed.
  unfoldable pub handle_request :
      Session → Request → Counters → Session × List Effect × Bool × Outcome
  handle_request s req n =
      if eqb req.type (codes "env")
      then handle_env s req
      else if eqb req.type (codes "exec")
      then (let (s', said, outcome) = handle_exec s req n in (s', said, false, outcome))
      else if eqb req.type (codes "shell")
      then (let (said, status, outcome) = handle_shell s req n in
          (s, said ++ exit_status status ∷ [], false, outcome))
      else (s, replies req false, true, none)

  -- The loop of `handle`: all effects, and the error of the last request.
  unfoldable pub handle : Session → List Request → Counters → Outcome → List Effect × Outcome
  handle s [] n outcome = ([], outcome)
  handle s (req ∷ reqs) n outcome =
      let (s', said, continues, outcome') = handle_request s req n in
      let later = handle s' reqs n outcome' in
      if continues then (said ++ later.0, later.1) else (said ++ closed ∷ [], outcome')
