-- ===== src/ShellCommand/Rules.antt =====
-- Which commands cmd/gitlab-shell/command/command.go builds, and for whom.

use mathlib.Core.Path.{subst, subst₂}
use gitlab_shell.Prelude.{
  Bool-cases, Option-cases, Bytes, eqb, eqb_iff, is_empty, mem, ◌≡◌, refl, sym, ap, ◌∙◌, ◌↔◌, ◌⊎◌,
  inl, inr, Bool, true, false, not, ◌&&◌, some, List, [], ◌∷◌, arith,
}
use gitlab_shell.Errors.{Result, ok, Result-cases, >>=-eq-ok, ok-injective}
use gitlab_shell.CommandArgs
use gitlab_shell.CommandArgs.{Env, Shell, parse_who}
use gitlab_shell.CommandArgs.Identity.{IsFresh, validate-eq-ok}
use gitlab_shell.ShellCommand.{
  Config, Kind, discover, two_factor_recover, two_factor_verify, lfs_authenticate, lfs_transfer,
  receive_pack, upload_pack, upload_archive, personal_access_token, Command, Counters, kind_of,
  build, build_or_refuse, parse, new_with_key, new_with_krb5_principal, new_with_username,
}

-- The command type of each kind, and whether the configuration allows it.
abbrev pub name : Kind → Bytes
name discover = CommandArgs.discover
name two_factor_recover = CommandArgs.two_factor_recover
name two_factor_verify = CommandArgs.two_factor_verify
name lfs_authenticate = CommandArgs.lfs_authenticate
name lfs_transfer = CommandArgs.lfs_transfer
name receive_pack = CommandArgs.receive_pack
name upload_pack = CommandArgs.upload_pack
name upload_archive = CommandArgs.upload_archive
name personal_access_token = CommandArgs.personal_access_token

abbrev pub is_enabled : Config → Kind → Bool
is_enabled config lfs_transfer = config.pure_ssh_protocol
is_enabled config personal_access_token = config.pat_enabled
is_enabled config k = true

kind_of-name :
    (config : Config) (k : Kind) → is_enabled config k ≡ true → kind_of config (name k) ≡ some k
unfolding kind_of eqb
kind_of-name config discover h = refl
kind_of-name config two_factor_recover h = refl
kind_of-name config two_factor_verify h = refl
kind_of-name config lfs_authenticate h = refl
kind_of-name config lfs_transfer h = rw h
kind_of-name config receive_pack h = refl
kind_of-name config upload_pack h = refl
kind_of-name config upload_archive h = refl
kind_of-name config personal_access_token h = rw h

kind_of-eq-some :
    (config : Config) (t : Bytes) (k : Kind)
    → kind_of config t ≡ some k
    → (t ≡ name k) × (is_enabled config k ≡ true)
unfolding kind_of
kind_of-eq-some config t k h = ground (
  arith,
  eqb_iff t CommandArgs.discover,
  eqb_iff t CommandArgs.two_factor_recover,
  eqb_iff t CommandArgs.two_factor_verify,
  eqb_iff t CommandArgs.lfs_authenticate,
  eqb_iff t CommandArgs.lfs_transfer,
  eqb_iff t CommandArgs.receive_pack,
  eqb_iff t CommandArgs.upload_pack,
  eqb_iff t CommandArgs.upload_archive,
  eqb_iff t CommandArgs.personal_access_token,
)

some-eq : {a b : Command} → some a ≡ some b → a ≡ b
some-eq e = cc

build-eq-some :
    (args : Shell) (config : Config) (n : Counters) (c : Command)
    → (build args config n).0 ≡ some c
    → (kind_of config args.command_type ≡ some c.kind) × (c.args ≡ args)
unfolding build
build-eq-some args config n c h = elim (Option-cases (kind_of config args.command_type)) [
  | inl nothing ↦ absurd (cc (rw (nothing, build) at h))
  | inr (k, found) ↦
      let same : record { kind = k; args = args } ≡ c = some-eq (rw (found, build) at h) in
      (found ∙ ap some (ap (λ (d : Command). d.kind) same), sym (ap (λ (d : Command). d.args) same))
]

build-kind :
    (args : Shell) (config : Config) (n : Counters) (k : Kind)
    → kind_of config args.command_type ≡ some k
    → (build args config n).0 ≡ some (record { kind = k; args = args })
unfolding build
build-kind args config n k found = ground arith

-- `Build` builds a command of a kind exactly when the command type is that kind's name and the
-- configuration enables it; it keeps the arguments.
pub build_iff :
    (args : Shell) (config : Config) (n : Counters) (k : Kind)
    → ((build args config n).0 ≡ some (record { kind = k; args = args }))
      ↔ ((args.command_type ≡ name k) × (is_enabled config k ≡ true))
build_iff args config n k = (
  (λ h.
      kind_of-eq-some config args.command_type k
        (build-eq-some args config n (record { kind = k; args = args }) h).0),
  (λ h. build-kind args config n k (ap (kind_of config) h.0 ∙ kind_of-name config k h.1)),
)

build_or_refuse-eq-ok :
    (args : Shell) (config : Config) (n : Counters) (c : Command)
    → (build_or_refuse args config n).0 ≡ ok c
    → (kind_of config args.command_type ≡ some c.kind) × (c.args ≡ args)
unfolding build_or_refuse
build_or_refuse-eq-ok args config n c h = elim (Option-cases (build args config n).0) [
  | inl nothing ↦ absurd (cc (rw (nothing, build_or_refuse) at h))
  | inr (d, built) ↦
      let same : d ≡ c = ok-injective (rw (built, build_or_refuse) at h) in
      build-eq-some args config n c (built ∙ ap some same)
]

-- What holds of a command that was built for a user: it came over SSH, the configuration enables
-- its kind, the kind is the one that was asked for, and it runs as that user alone.
pub record IsFor (env : Env) (config : Config) (username key_id principal : Bytes) (c : Command)
    : Type 0 where
  pub over_ssh : env.is_ssh_connection ≡ true
  pub asked : c.args.command_type ≡ name c.kind
  pub enabled : is_enabled config c.kind ≡ true
  pub same_env : c.args.env ≡ env
  pub as_username : c.args.gitlab_username ≡ username
  pub as_key : c.args.gitlab_key_id ≡ key_id
  pub as_principal : c.args.gitlab_krb5_principal ≡ principal

-- The shell that `Parse` begins with.
abbrev blank : Env → Shell
blank env = record {
  arguments = [];
  gitlab_username = [];
  gitlab_key_id = [];
  gitlab_krb5_principal = [];
  ssh_args = [];
  command_type = [];
  env = env;
}

-- With no arguments a parse finds no caller.
parse-eq-ok :
    (parse_words : Bytes → Result (List Bytes)) (env : Env) (args : Shell)
    → parse parse_words [] env ≡ ok args
    → (env.is_ssh_connection ≡ true) × IsFresh args × (args.env ≡ env)
unfolding parse CommandArgs.parse parse_who
parse-eq-ok parse_words env args h =
    let (s1, valid, found) = >>=-eq-ok (CommandArgs.validate parse_words (blank env)) _ h in
    let (on, same) = validate-eq-ok parse_words (blank env) s1 valid in
    let no_args : s1.arguments ≡ [] = ap (λ (s : Shell). s.arguments) same in
    let final : s1 ≡ args = rw no_args at (ok-injective found) in
    (
      on,
      subst IsFresh final (
        ap (λ (s : Shell). s.gitlab_key_id) same,
        ap (λ (s : Shell). s.gitlab_username) same,
        ap (λ (s : Shell). s.gitlab_krb5_principal) same,
      ),
      sym (ap (λ (s : Shell). s.env) final) ∙ ap (λ (s : Shell). s.env) same,
    )

-- The end that the constructors share, for a shell with the user filled in.
refuse-IsFor :
    (env : Env) (config : Config) (n : Counters) (args : Shell) (c : Command)
    → env.is_ssh_connection ≡ true
    → args.env ≡ env
    → (build_or_refuse args config n).0 ≡ ok c
    → IsFor env config args.gitlab_username args.gitlab_key_id args.gitlab_krb5_principal c
refuse-IsFor env config n args c on same h =
    let (found, kept) = build_or_refuse-eq-ok args config n c h in
    let (asked, enabled) = kind_of-eq-some config args.command_type c.kind found in
    record {
      over_ssh = on;
      asked = ap (λ (s : Shell). s.command_type) kept ∙ asked;
      enabled = enabled;
      same_env = ap (λ (s : Shell). s.env) kept ∙ same;
      as_username = ap (λ (s : Shell). s.gitlab_username) kept;
      as_key = ap (λ (s : Shell). s.gitlab_key_id) kept;
      as_principal = ap (λ (s : Shell). s.gitlab_krb5_principal) kept;
    }

-- A command for a key comes over SSH, is of the kind that was asked for, which the configuration
-- enables, and runs as that key and as no other user.
pub new_with_key-IsFor :
    (parse_words : Bytes → Result (List Bytes)) (key : Bytes) (env : Env) (config : Config)
    (n : Counters) (c : Command)
    → (new_with_key parse_words key env config n).0 ≡ ok c
    → IsFor env config [] key [] c
unfolding new_with_key
new_with_key-IsFor parse_words key env config n c h =
    elim (Result-cases (parse parse_words [] env)) [
      | inl (e, failed) ↦ absurd (cc (rw (failed, new_with_key) at h))
      | inr (args, parsed) ↦
          let (on, (no_key, no_user, no_principal), same) =
            parse-eq-ok parse_words env args parsed in
          let done =
            refuse-IsFor env config n (record args { gitlab_key_id = key }) c on same
              (rw (parsed, new_with_key) at h) in
          subst₂ (λ u p. IsFor env config u key p c) no_user no_principal done
    ]

-- The same for a principal.
pub new_with_krb5_principal-IsFor :
    (parse_words : Bytes → Result (List Bytes)) (principal : Bytes) (env : Env) (config : Config)
    (n : Counters) (c : Command)
    → (new_with_krb5_principal parse_words principal env config n).0 ≡ ok c
    → IsFor env config [] [] principal c
unfolding new_with_krb5_principal
new_with_krb5_principal-IsFor parse_words principal env config n c h =
    elim (Result-cases (parse parse_words [] env)) [
      | inl (e, failed) ↦ absurd (cc (rw (failed, new_with_krb5_principal) at h))
      | inr (args, parsed) ↦
          let (on, (no_key, no_user, no_principal), same) =
            parse-eq-ok parse_words env args parsed in
          let done =
            refuse-IsFor env config n (record args { gitlab_krb5_principal = principal }) c on same
              (rw (parsed, new_with_krb5_principal) at h) in
          subst₂ (λ u k. IsFor env config u k principal c) no_user no_key done
    ]

restricted :
    (path : Bytes) (git : Bool)
    → (not (is_empty path) && not git) ≡ false
    → (path ≡ []) ⊎ (git ≡ true)
restricted [] git h = inl refl
restricted (x ∷ path) git h = inr (ground arith)

-- A command for a user name comes over SSH, is of the kind that was asked for, which the
-- configuration enables, and runs as that user name alone. It is one of the Git commands if the
-- user is restricted to a namespace.
pub new_with_username-IsFor :
    (parse_words : Bytes → Result (List Bytes)) (username : Bytes) (env : Env) (config : Config)
    (n : Counters) (c : Command)
    → (new_with_username parse_words username env config n).0 ≡ ok c
    → IsFor env config username [] [] c
      × ((env.namespace_path ≡ []) ⊎ (mem c.args.command_type CommandArgs.git_commands ≡ true))
unfolding new_with_username
new_with_username-IsFor parse_words username env config n c h =
    elim (Result-cases (parse parse_words [] env)) [
      | inl (e, failed) ↦ absurd (cc (rw (failed, new_with_username) at h))
      | inr (args, parsed) ↦
          let (on, (no_key, no_user, no_principal), same) =
            parse-eq-ok parse_words env args parsed in
          let h' = rw (parsed, new_with_username) at h in
          let given : Shell = record args { gitlab_username = username } in
          elim (Bool-cases (
            not (is_empty env.namespace_path)
            && not (mem args.command_type CommandArgs.git_commands))) [
              | inl refused ↦ absurd (cc (rw refused at h'))
              | inr allowed ↦
                  let built : (build_or_refuse given config n).0 ≡ ok c = rw allowed at h' in
                  let kept = (build_or_refuse-eq-ok given config n c built).1 in
                  (
                    subst₂ (λ k p. IsFor env config username k p c) no_key no_principal
                        (refuse-IsFor env config n given c on same built),
                    restricted env.namespace_path (mem c.args.command_type CommandArgs.git_commands)
                        (rw (ap (λ (s : Shell). s.command_type) kept) allowed),
                  )
            ]
    ]
