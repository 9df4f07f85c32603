-- ===== src/ShellCommand.antt =====
-- cmd/gitlab-shell/command/command.go: the command that an authenticated user gets.
pub mod Rules
use gitlab_shell.Prelude.{
  ltb, leb, ◌==◌, if◌then◌else◌, ==_iff, Bool-cases, Option-cases, and-eq-true_iff, length, take,
  drop, replicate, all, any, length-append, take-append-drop, length-take, length-drop, take-append,
  drop-append, take-append_all, drop-append_all, All, All-append, Bytes, codes, eqb, eqb_iff,
  eqb_refl, is_empty, has_prefix, trim_prefix, trim_suffix, trim_left, contains_byte, contains,
  before, split, last, mem, Lacks, Lacks-contains_byte, contains_byte-Lacks, ℕ, zero, suc, ◌+◌, ◌-◌,
  ◌*◌, ◌/◌, ◌%◌, ◌^◌, ◌≤◌, ◌<◌, ◌≡◌, refl, sym, ap, ◌∙◌, ◌≢◌, ◌↔◌, ◌⊎◌, inl, inr, Bool, true, false,
  not, ◌&&◌, ◌||◌, Option, none, some, List, [], ◌∷◌, ◌++◌, map, append_assoc, append-nil, arith,
  last-split, split-ne-nil, All-mono,
}
use gitlab_shell.Errors.{Result, ok, err, disallowed}
use gitlab_shell.CommandArgs
use gitlab_shell.CommandArgs.{Env, Shell}

-- What the constructor uses of the configuration: `LFSConfig.PureSSHProtocol` and
-- `PATConfig.Enabled`.
pub record Config : Type 0 where
  pub pure_ssh_protocol : Bool
  pub pat_enabled : Bool

-- The packages whose `Command` is built.
pub data Kind : Type 0 where
  discover two_factor_recover two_factor_verify lfs_authenticate lfs_transfer : Kind
  receive_pack upload_pack upload_archive personal_access_token : Kind

pub record Command : Type 0 where
  pub kind : Kind
  pub args : Shell

-- The counters `LfsHTTPConnectionsTotal` and `LfsSSHConnectionsTotal`.
pub record Counters : Type 0 where
  pub lfs_http : ℕ
  pub lfs_ssh : ℕ

-- The switch of `Build` on the command type.
unfoldable pub kind_of : Config → Bytes → Option Kind
kind_of config t =
    if eqb t CommandArgs.discover
    then some discover
    else if eqb t CommandArgs.two_factor_recover
    then some two_factor_recover
    else if eqb t CommandArgs.two_factor_verify
    then some two_factor_verify
    else if eqb t CommandArgs.lfs_authenticate
    then some lfs_authenticate
    else if eqb t CommandArgs.lfs_transfer
    then (if config.pure_ssh_protocol then some lfs_transfer else none)
    else if eqb t CommandArgs.receive_pack
    then some receive_pack
    else if eqb t CommandArgs.upload_pack
    then some upload_pack
    else if eqb t CommandArgs.upload_archive
    then some upload_archive
    else if eqb t CommandArgs.personal_access_token
    then (if config.pat_enabled then some personal_access_token else none)
    else none

-- The counters behind `Build`.
count : Kind → Counters → Counters
count lfs_authenticate n = record n { lfs_http = n.lfs_http + 1 }
count lfs_transfer n = record n { lfs_ssh = n.lfs_ssh + 1 }
count k n = n

-- `Build`
unfoldable pub build : Shell → Config → Counters → Option Command × Counters
unfolding count
build args config n = elim (kind_of config args.command_type) [
  | some k ↦ (some (record { kind = k; args = args }), count k n)
  | none ↦ (none, n)
]

-- The end of each constructor: `Build`, and the error if it builds nothing.
unfoldable pub build_or_refuse : Shell → Config → Counters → Result Command × Counters
build_or_refuse args config n =
    let (built, n') = build args config n in
    elim built [ some c ↦ (ok c, n') | none ↦ (err disallowed, n') ]

module _ (parse_words : Bytes → Result (List Bytes)) where
  -- `Parse`, with `nil` for the fields that a literal leaves out.
  unfoldable pub parse : List Bytes → Env → Result Shell
  parse arguments env = CommandArgs.parse parse_words (record {
    arguments = arguments;
    gitlab_username = [];
    gitlab_key_id = [];
    gitlab_krb5_principal = [];
    ssh_args = [];
    command_type = [];
    env = env;
  })

  -- `New`
  unfoldable pub new : List Bytes → Env → Config → Counters → Result Command × Counters
  new arguments env config n = elim (parse arguments env) [
    | err e ↦ (err e, n)
    | ok args ↦ build_or_refuse args config n
  ]

  -- `NewWithKey`
  unfoldable pub new_with_key : Bytes → Env → Config → Counters → Result Command × Counters
  new_with_key gitlab_key_id env config n = elim (parse [] env) [
    | err e ↦ (err e, n)
    | ok args ↦ build_or_refuse (record args { gitlab_key_id = gitlab_key_id }) config n
  ]

  -- `NewWithKrb5Principal`
  unfoldable pub new_with_krb5_principal :
      Bytes → Env → Config → Counters → Result Command × Counters
  new_with_krb5_principal principal env config n = elim (parse [] env) [
    | err e ↦ (err e, n)
    | ok args ↦ build_or_refuse (record args { gitlab_krb5_principal = principal }) config n
  ]

  -- `NewWithUsername`
  unfoldable pub new_with_username : Bytes → Env → Config → Counters → Result Command × Counters
  new_with_username gitlab_username env config n = elim (parse [] env) [
    | err e ↦ (err e, n)
    | ok args ↦
        if not (is_empty env.namespace_path) && not (mem args.command_type CommandArgs.git_commands)
        then (err disallowed, n)
        else build_or_refuse (record args { gitlab_username = gitlab_username }) config n
  ]
