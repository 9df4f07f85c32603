-- ===== src/Tests/Commands.antt =====
-- Key lines, command arguments, the commands of a user and the answers of the internal API, on
-- concrete inputs.
use gitlab_shell.Prelude.{
  all, Bytes, codes, mem, ◌≡◌, refl, ◌↔◌, ◌⊎◌, true, Option, none, some, List, [], ◌∷◌, ◌++◌,
}
use gitlab_shell.Decimal.{itoa}
use gitlab_shell.Errors.{Result, ok, err, ApiError, api}
use gitlab_shell.KeyLine.{
  KeyLine, new_key_line, command, validate, public_key_prefix, principal_prefix,
}
use gitlab_shell.KeyLine.RoundTrip.{try_parse_key_id-command}
use gitlab_shell.CommandArgs.{
  Env, Shell, parse, parse_command, parse_who, define_command_type, join_git, try_parse_key_id,
  try_parse_username, is_digit, upload_pack, git_commands,
}
use gitlab_shell.CommandArgs
use gitlab_shell.ShellCommand
use gitlab_shell.ShellCommand.{
  Config, Command, Counters, Kind, kind_of, build, build_or_refuse, new_with_key, new_with_username,
}
use gitlab_shell.ShellCommand.Rules.{IsFor, name, is_enabled, build_iff, new_with_username-IsFor}
use gitlab_shell.ApiClient.{Response, check_response}

abbrev root_dir : Bytes
root_dir = codes "/opt/gitlab-shell"

abbrev key_line : KeyLine
key_line = record {
  id = codes "42";
  value = codes "ssh-rsa AAAA";
  prefix = public_key_prefix;
  root_dir = root_dir;
}

key_line_made :
    new_key_line (codes "42") (codes "ssh-rsa AAAA") public_key_prefix root_dir ≡ ok key_line
unfolding new_key_line validate
key_line_made = refl

digits_made : all is_digit (codes "42") ≡ true
unfolding is_digit
digits_made = refl

try_parse_key_id-command_example : try_parse_key_id (command key_line) ≡ codes "42"
try_parse_key_id-command_example =
    try_parse_key_id-command (codes "42") (codes "ssh-rsa AAAA") root_dir key_line digits_made
      key_line_made

abbrev principal_line : KeyLine
principal_line = record {
  id = codes "someuser";
  value = codes "sshUsers";
  prefix = principal_prefix;
  root_dir = root_dir;
}

principal_line_made :
    new_key_line (codes "someuser") (codes "sshUsers") principal_prefix root_dir ≡ ok principal_line
unfolding new_key_line validate
principal_line_made = refl

-- A splitter of command lines that gives one command, whatever the line.
abbrev pub words : Bytes → Result (List Bytes)
words line = ok (codes "git-upload-pack" ∷ codes "group/project.git" ∷ [])

abbrev pub env : Env
env = record {
  git_protocol_version = [];
  is_ssh_connection = true;
  original_command = codes "git-upload-pack group/project.git";
  remote_addr = codes "127.0.0.1";
  namespace_path = codes "group";
}

abbrev fresh : Shell
fresh = record {
  arguments = codes "key-42" ∷ [];
  gitlab_username = [];
  gitlab_key_id = [];
  gitlab_krb5_principal = [];
  ssh_args = [];
  command_type = [];
  env = env;
}

abbrev parsed : Shell
parsed = record fresh {
  gitlab_key_id = codes "42";
  ssh_args = codes "git-upload-pack" ∷ codes "group/project.git" ∷ [];
  command_type = codes "git-upload-pack";
}

fresh-parsed : parse words fresh ≡ ok parsed
unfolding parse try_parse_key_id
fresh-parsed = refl

abbrev pub config : Config
config = record { pure_ssh_protocol = true; pat_enabled = true }

abbrev pub counters : Counters
counters = record { lfs_http = 0; lfs_ssh = 0 }

build_iff_example :
    ((build parsed config counters).0 ≡ some (record { kind = Kind.upload_pack; args = parsed }))
    ↔ ((parsed.command_type ≡ name Kind.upload_pack) × (is_enabled config Kind.upload_pack ≡ true))
build_iff_example = build_iff parsed config counters Kind.upload_pack

abbrev by_username : Command
by_username = record {
  kind = Kind.upload_pack;
  args = record parsed { arguments = []; gitlab_key_id = []; gitlab_username = codes "someuser" };
}

username_built : (new_with_username words (codes "someuser") env config counters).0 ≡ ok by_username
unfolding new_with_username ShellCommand.parse CommandArgs.parse build_or_refuse build kind_of mem
username_built = refl

new_with_username-IsFor_example :
    IsFor env config (codes "someuser") [] [] by_username
    × ((env.namespace_path ≡ []) ⊎ (mem by_username.args.command_type git_commands ≡ true))
new_with_username-IsFor_example =
    new_with_username-IsFor words (codes "someuser") env config counters by_username username_built

abbrev by_key : Command
by_key = record { kind = Kind.upload_pack; args = record parsed { arguments = [] } }

key_built : (new_with_key words (codes "42") env config counters).0 ≡ ok by_key
unfolding new_with_key ShellCommand.parse CommandArgs.parse build_or_refuse build kind_of
key_built = refl

abbrev no_message : Bytes → Option Bytes
no_message body = none

abbrev quoted : Bytes → Bytes
quoted s = codes "\"" ++ s ++ codes "\""

abbrev unavailable : Response
unavailable = record { status_code = 503; location = []; body = [] }

abbrev unavailable_error : ApiError
unavailable_error = record {
  msg = codes "Internal API error (503)";
  status_code = 503;
  system = true;
}

refused : check_response no_message quoted (some unavailable) none ≡ err (api unavailable_error)
unfolding check_response itoa
refused = refl
