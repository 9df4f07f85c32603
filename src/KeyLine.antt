-- ===== src/KeyLine.antt =====
-- internal/keyline/key_line.go and the two commands that print key lines, with the checks of their
-- arguments (internal/command/commandargs/authorized_keys.go, authorized_principals.go).
pub mod RoundTrip
use gitlab_shell.Prelude.{
  ltb, leb, ◌==◌, if◌then◌else◌, ==_iff, Bool-cases, Option-cases, and-eq-true_iff, length, take,
  drop, replicate, all, any, length-append, take-append-drop, length-take, length-drop, take-append,
  drop-append, take-append_all, drop-append_all, All, All-append, Bytes, codes, eqb, eqb_iff,
  eqb_refl, is_empty, has_prefix, trim_prefix, trim_suffix, trim_left, contains_byte, contains,
  before, split, last, mem, Lacks, Lacks-contains_byte, contains_byte-Lacks, ℕ, zero, suc, ◌+◌, ◌-◌,
  ◌*◌, ◌/◌, ◌%◌, ◌^◌, ◌≤◌, ◌<◌, ◌≡◌, refl, sym, ap, ◌∙◌, ◌≢◌, ◌↔◌, ◌⊎◌, inl, inr, Bool, true, false,
  not, ◌&&◌, ◌||◌, Option, none, some, List, [], ◌∷◌, ◌++◌, map, append_assoc, append-nil, arith,
  last-split, split-ne-nil, All-mono,
}
use gitlab_shell.Errors.{Result, ok, err, Error, plain, ◌>>=◌}
use gitlab_shell.Path.{join}
use gitlab_shell.Decimal.{itoa}

abbrev pub public_key_prefix : Bytes
public_key_prefix = codes "key"

abbrev pub principal_prefix : Bytes
principal_prefix = codes "username"

abbrev pub ssh_options : Bytes
ssh_options = codes "no-port-forwarding,no-X11-forwarding,no-agent-forwarding,no-pty"

-- `KeyLine`; of the configuration it uses `RootDir`.
pub record KeyLine : Type 0 where
  pub id : Bytes
  pub value : Bytes
  pub prefix : Bytes
  pub root_dir : Bytes

-- One byte of `keyRegex`, `\A[a-zA-Z0-9._-]+\z`.
unfoldable pub key_char : ℕ → Bool
key_char c =
    (leb b'a' c && leb c b'z')
    || (leb b'A' c && leb c b'Z')
    || (leb b'0' c && leb c b'9')
    || c == b'.'
    || c == b'_'
    || c == b'-'

unfoldable pub key_regex : Bytes → Bool
unfolding key_char
key_regex id = not (is_empty id) && all key_char id

-- `validate`
unfoldable pub validate : Bytes → Bytes → Option Error
unfolding key_regex contains_byte
validate id value =
    if not (key_regex id)
    then some (plain (codes "invalid key_id: " ++ id))
    else if contains_byte value b'\n'
    then some (plain (codes "invalid value: " ++ value))
    else none

-- `newKeyLine`
unfoldable pub new_key_line : Bytes → Bytes → Bytes → Bytes → Result KeyLine
new_key_line id value prefix root_dir = elim (validate id value) [
  | some e ↦ err e
  | none ↦ ok (record { id = id; value = value; prefix = prefix; root_dir = root_dir })
]

-- The command of a key line, which `sshd` hands to the shell.
unfoldable pub command : KeyLine → Bytes
command k =
    join (k.root_dir ∷ codes "bin" ∷ codes "gitlab-shell" ∷ [])
    ++ (codes " " ++ (k.prefix ++ (codes "-" ++ k.id)))

-- `KeyLine.ToString`
unfoldable pub to_string : KeyLine → Bytes
to_string k =
    codes "command=\"" ++ (command k ++ (codes "\"," ++ (ssh_options ++ (codes " " ++ k.value))))

-- `AuthorizedKeys` behind `Parse`.
pub record AuthorizedKeys : Type 0 where
  pub expected_user : Bytes
  pub actual_user : Bytes
  pub key : Bytes

-- `AuthorizedKeys.Parse` with its `validate`
unfoldable pub parse_authorized_keys : List Bytes → Result AuthorizedKeys
unfolding itoa
parse_authorized_keys (expected ∷ actual ∷ key ∷ []) =
    if is_empty expected || is_empty actual
    then err (plain (codes "# No username provided"))
    else if is_empty key
    then err (plain (codes "# No key provided"))
    else ok (record { expected_user = expected; actual_user = actual; key = key })
parse_authorized_keys args = err (
    plain (
      codes "# Insufficient arguments. "
      ++ (itoa (length args)
          ++ codes
              ". Usage\n#\tgitlab-shell-authorized-keys-check <expected-username> <actual-username> <key>")))

-- `AuthorizedPrincipals` behind `Parse`.
pub record AuthorizedPrincipals : Type 0 where
  pub key_id : Bytes
  pub principals : List Bytes

-- `AuthorizedPrincipals.Parse` with its `validate`
unfoldable pub parse_authorized_principals : List Bytes → Result AuthorizedPrincipals
unfolding itoa
parse_authorized_principals (key_id ∷ p ∷ ps) =
    if is_empty key_id
    then err (plain (codes "# No key_id provided"))
    else if any is_empty (p ∷ ps)
    then err (plain (codes "# An invalid principal was provided"))
    else ok (record { key_id = key_id; principals = p ∷ ps })
parse_authorized_principals args = err (
    plain (
      codes "# Insufficient arguments. "
      ++ (itoa (length args)
          ++ codes
              ". Usage\n#\tgitlab-shell-authorized-principals-check <key-id> <principal1> [<principal2>...]")))

-- The key that the internal API returns: its id as `strconv.FormatInt` prints it, and its text.
pub record AuthorizedKey : Type 0 where
  pub id : Bytes
  pub key : Bytes

-- `printKeyLine`, for the answer of the internal API.
unfoldable pub print_key_line : Bytes → AuthorizedKeys → Result AuthorizedKey → Result Bytes
unfolding new_key_line to_string
print_key_line root_dir args (err e) =
    ok (codes "# No key was found for " ++ (args.key ++ codes "\n"))
print_key_line root_dir args (ok k) = do
  line ← new_key_line k.id k.key public_key_prefix root_dir
  ok (to_string line ++ codes "\n")

-- `authorizedkeys.Command.Execute`: what it prints, for the answer of the internal API.
unfoldable pub authorized_keys_execute :
    Bytes → AuthorizedKeys → Result AuthorizedKey → Result Bytes
unfolding eqb
authorized_keys_execute root_dir args response =
    if not (eqb args.expected_user args.actual_user)
    then ok []
    else print_key_line root_dir args response

-- `printPrincipalLines`: what was printed, and the error that stopped the loop.
unfoldable pub print_principal_lines : Bytes → Bytes → List Bytes → Bytes × Option Error
print_principal_lines root_dir key_id [] = ([], none)
print_principal_lines root_dir key_id (p ∷ ps) =
    let rest = print_principal_lines root_dir key_id ps in
    elim (new_key_line key_id p principal_prefix root_dir) [
      | err e ↦ ([], some e)
      | ok line ↦ (to_string line ++ (codes "\n" ++ rest.0), rest.1)
    ]
