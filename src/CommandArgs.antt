-- ===== src/CommandArgs.antt =====
-- internal/command/commandargs/shell.go: who is calling, and which command was asked for.
-- `shellwords.Parse` (github.com/mattn/go-shellwords) is a parameter.
pub mod Identity
use gitlab_shell.Prelude.{
  ltb, leb, ◌==◌, if◌then◌else◌, ==_iff, Bool-cases, Option-cases, and-eq-true_iff, length, take,
  drop, replicate, all, any, length-append, take-append-drop, length-take, length-drop, take-append,
  drop-append, take-append_all, drop-append_all, All, All-append, Bytes, codes, eqb, eqb_iff,
  eqb_refl, is_empty, has_prefix, trim_prefix, trim_suffix, trim_left, contains_byte, contains,
  before, split, last, mem, Lacks, Lacks-contains_byte, contains_byte-Lacks, ℕ, zero, suc, ◌+◌, ◌-◌,
  ◌*◌, ◌/◌, ◌%◌, ◌^◌, ◌≤◌, ◌<◌, ◌≡◌, refl, sym, ap, ◌∙◌, ◌≢◌, ◌↔◌, ◌⊎◌, inl, inr, Bool, true, false,
  not, ◌&&◌, ◌||◌, Option, none, some, List, [], ◌∷◌, ◌++◌, map, append_assoc, append-nil, arith,
  last-split, split-ne-nil, All-mono,
}
use gitlab_shell.Errors.{Result, ok, err, only_ssh_allowed, ◌>>=◌, wrap}

abbrev pub discover : Bytes
discover = codes "discover"

abbrev pub two_factor_recover : Bytes
two_factor_recover = codes "2fa_recovery_codes"

abbrev pub two_factor_verify : Bytes
two_factor_verify = codes "2fa_verify"

abbrev pub lfs_authenticate : Bytes
lfs_authenticate = codes "git-lfs-authenticate"

abbrev pub lfs_transfer : Bytes
lfs_transfer = codes "git-lfs-transfer"

abbrev pub receive_pack : Bytes
receive_pack = codes "git-receive-pack"

abbrev pub upload_pack : Bytes
upload_pack = codes "git-upload-pack"

abbrev pub upload_archive : Bytes
upload_archive = codes "git-upload-archive"

abbrev pub personal_access_token : Bytes
personal_access_token = codes "personal_access_token"

-- `GitCommands`
abbrev pub git_commands : List Bytes
git_commands = lfs_authenticate ∷ upload_pack ∷ receive_pack ∷ upload_archive ∷ []

-- `sshenv.Env`
pub record Env : Type 0 where
  pub git_protocol_version : Bytes
  pub is_ssh_connection : Bool
  pub original_command : Bytes
  pub remote_addr : Bytes
  pub namespace_path : Bytes

-- `Shell`
pub record Shell : Type 0 where
  pub arguments : List Bytes
  pub gitlab_username : Bytes
  pub gitlab_key_id : Bytes
  pub gitlab_krb5_principal : Bytes
  pub ssh_args : List Bytes
  pub command_type : Bytes
  pub env : Env

-- `\d` and `\S` of the regular expressions, on bytes.
unfoldable pub is_digit : ℕ → Bool
is_digit c = leb b'0' c && leb c b'9'

unfoldable pub not_space : ℕ → Bool
not_space c = not (c == b' ' || c == b'\t' || c == b'\n' || c == 12 || c == b'\r')

-- `FindStringSubmatch` of `\Aprefix(class+)\z`: the submatch, empty if there is no match.
unfoldable pub submatch : Bytes → (ℕ → Bool) → Bytes → Bytes
unfolding has_prefix
submatch prefix class arg =
    let rest : Bytes = drop (length prefix) arg in
    if has_prefix arg prefix && not (is_empty rest) && all class rest then rest else []

-- `tryParse`: the last word of the argument is matched.
unfoldable pub try_parse : (Bytes → Bytes) → Bytes → Bytes
unfolding split last
try_parse r argument = r (last (split argument b' '))

unfoldable pub try_parse_key_id : Bytes → Bytes
unfolding try_parse submatch is_digit
try_parse_key_id argument = try_parse (submatch (codes "key-") is_digit) argument

unfoldable pub try_parse_username : Bytes → Bytes
unfolding try_parse submatch not_space
try_parse_username argument = try_parse (submatch (codes "username-") not_space) argument

-- The loop of `parseWho`.
unfoldable pub parse_who : List Bytes → Shell → Shell
parse_who [] s = s
parse_who (argument ∷ rest) s =
    let later : Shell = parse_who rest s in
    let key_id : Bytes = try_parse_key_id argument in
    let username : Bytes = try_parse_username argument in
    if not (is_empty key_id)
    then record s { gitlab_key_id = key_id }
    else if not (is_empty username)
    then record s { gitlab_username = username }
    else later

-- `git upload-pack` of Git for Windows 2.14 is read as `git-upload-pack`.
unfoldable pub join_git : List Bytes → List Bytes
unfolding eqb
join_git [] = []
join_git (a ∷ []) = a ∷ []
join_git (a ∷ b ∷ rest) =
    if eqb a (codes "git") then (a ++ (codes "-" ++ b)) ∷ rest else a ∷ b ∷ rest

-- `defineCommandType`
unfoldable pub define_command_type : List Bytes → Bytes
define_command_type [] = discover
define_command_type (a ∷ rest) = a

module _ (parse_words : Bytes → Result (List Bytes)) where
  -- `Shell.ParseCommand`
  unfoldable pub parse_command : Bytes → Shell → Result Shell
  unfolding join_git define_command_type
  parse_command command_string s = do
    words ← parse_words command_string
    let args : List Bytes = join_git words
    ok (record s { ssh_args = args; command_type = define_command_type args })

  -- `Shell.validate`
  unfoldable pub validate : Shell → Result Shell
  unfolding parse_command
  validate s =
      if not s.env.is_ssh_connection
      then err only_ssh_allowed
      else wrap (codes "Invalid SSH command") (parse_command s.env.original_command s)

  -- `Shell.Parse`
  unfoldable pub parse : Shell → Result Shell
  unfolding validate parse_who
  parse s = do s' ← validate s; ok (parse_who s'.arguments s')
