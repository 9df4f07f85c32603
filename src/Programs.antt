-- ===== src/Programs.antt =====
-- cmd, internal/console, internal/executable and NewLogData of internal/command/command.go: how the
-- programs start, what they write to standard error and the status that they exit with. Processes,
-- files and the decoding of gRPC errors are parameters.
pub mod Console
pub mod Outcome
use gitlab_shell.Prelude.{
  ltb, leb, ◌==◌, if◌then◌else◌, ==_iff, Bool-cases, Option-cases, and-eq-true_iff, length, take,
  drop, replicate, all, any, length-append, take-append-drop, length-take, length-drop, take-append,
  drop-append, take-append_all, drop-append_all, All, All-append, Bytes, codes, eqb, eqb_iff,
  eqb_refl, is_empty, has_prefix, trim_prefix, trim_suffix, trim_left, contains_byte, contains,
  before, split, last, mem, Lacks, Lacks-contains_byte, contains_byte-Lacks, ℕ, zero, suc, ◌+◌, ◌-◌,
  ◌*◌, ◌/◌, ◌%◌, ◌^◌, ◌≤◌, ◌<◌, ◌≡◌, refl, sym, ap, ◌∙◌, ◌≢◌, ◌↔◌, ◌⊎◌, inl, inr, Bool, true, false,
  not, ◌&&◌, ◌||◌, Option, none, some, List, [], ◌∷◌, ◌++◌, map, append_assoc, append-nil, arith,
  last-split, split-ne-nil, All-mono,
}
use gitlab_shell.Errors.{Result, ok, err, Error, message, plain}
use gitlab_shell.Programs.Console.{display_warning_message}

-- How the run of a command ends, with what it wrote to standard error: it returns, or panics.
pub data Ran : Type 0 where
  returned : Bytes → Option Error → Ran
  panicked : Bytes → Ran

-- What a program leaves behind: its exit status, what it writes to standard output itself, which
-- leaves out the output of its command, and its standard error.
pub record Exit : Type 0 where
  pub status : ℕ
  pub out : Bytes
  pub err_out : Bytes

-- What the steps of a start are: the arguments, with `path.Base` and the version and the time of the
-- build; the root directory, the configuration, the command, and its run; what Go's runtime writes
-- for a panic; whether an error of gRPC has the code `Internal`, and `strings.TrimSpace`.
pub record World : Type 1 where
  pub Config : Type 0
  pub Command : Type 0
  pub args : List Bytes
  pub base : Bytes → Bytes
  pub version : Bytes
  pub build_time : Bytes
  pub root_dir : Result Bytes
  pub new_from_dir_external : Bytes → Result Config
  pub new_command : Config → Result Command
  pub execute : Command → Ran
  pub panic_text : Bytes
  pub is_internal : Error → Bool
  pub trim_space : Bytes → Bytes

-- What a program writes for a failure of each of its steps.
pub record Texts : Type 0 where
  pub no_executable : Error → Bytes
  pub no_config : Error → Bytes
  pub no_command : Error → Bytes
  pub failed : Error → Bytes

abbrev pub line : Bytes → Bytes
line s = s ++ codes "\n"

abbrev pub exit_failure : Bytes → Exit
exit_failure text = record { status = 1; out = []; err_out = text }

module _ (w : World) where
  -- The texts of cmd/gitlab-shell/main.go: an error of Gitaly with the code `Internal` is not shown.
  unfoldable pub shell_texts : Texts
  unfolding display_warning_message
  shell_texts = record {
    no_executable = λ e. line (codes "Failed to determine executable, exiting");
    no_config = λ e. line (codes "Failed to read config, exiting: " ++ message e);
    no_command = λ e. line (message e);
    failed = λ e. if w.is_internal e then [] else display_warning_message w.trim_space (message e);
  }

  -- Those of cmd/gitlab-shell-authorized-keys-check/main.go.
  unfoldable pub keys_texts : Texts
  unfolding display_warning_message
  keys_texts = record {
    no_executable = λ e. line (codes "failed to determine executable, exiting");
    no_config = λ e. line (codes "failed to read config, exiting");
    no_command = λ e. line (message e);
    failed = λ e. display_warning_message w.trim_space (message e);
  }

  -- Those of cmd/gitlab-shell-authorized-principals-check/main.go.
  unfoldable pub principals_texts : Texts
  unfolding display_warning_message
  principals_texts = record {
    no_executable = λ e. line (codes "Failed to determine executable, exiting");
    no_config = λ e. line (codes "Failed to read config, exiting: " ++ message e);
    no_command = λ e. line (message e);
    failed = λ e. display_warning_message w.trim_space (message e);
  }

  -- Those of cmd/gitlab-shell-check/main.go.
  unfoldable pub check_texts : Texts
  check_texts = record {
    no_executable = λ e. line (codes "Failed to determine executable, exiting: " ++ message e);
    no_config = λ e. line (codes "Failed to read config, exiting: " ++ message e);
    no_command = λ e. line (codes "Failed to create command: " ++ message e);
    failed = λ e. line (message e);
  }

  -- Its text.
  unfoldable pub version_text : Bytes → Bytes
  version_text program =
      w.base program ++ codes " " ++ w.version ++ codes "-" ++ w.build_time ++ codes "\n"

  -- `CheckForVersionFlag`: what it writes before the program exits, if it does.
  unfoldable pub check_for_version_flag : List Bytes → Option Bytes
  unfolding eqb version_text
  check_for_version_flag (program ∷ flag ∷ []) =
      if eqb flag (codes "-version") then some (version_text program) else none
  check_for_version_flag _ = none

  -- The end of a program behind the run of its command. A panic ends it with status 2.
  unfoldable pub finish : Texts → Ran → Exit
  finish t (returned written none) = record { status = 0; out = []; err_out = written }
  finish t (returned written (some e)) = exit_failure (written ++ t.failed e)
  finish t (panicked written) = record { status = 2; out = []; err_out = written ++ w.panic_text }

  -- The steps that the four programs share, behind the check for the version flag.
  unfoldable pub run_steps : Texts → Exit
  unfolding finish
  run_steps t = elim w.root_dir [
    | err e ↦ exit_failure (t.no_executable e)
    | ok root ↦ elim (w.new_from_dir_external root) [
      | err e ↦ exit_failure (t.no_config e)
      | ok config ↦ elim (w.new_command config) [
        | err e ↦ exit_failure (t.no_command e)
        | ok command ↦ finish t (w.execute command)
      ]
    ]
  ]

  unfoldable pub run_with : Texts → Exit
  unfolding check_for_version_flag run_steps
  run_with t = elim (check_for_version_flag w.args) [
    | some text ↦ record { status = 0; out = text; err_out = [] }
    | none ↦ run_steps t
  ]

  -- `run` of gitlab-shell
  unfoldable pub run_shell : Exit
  unfolding run_with shell_texts
  run_shell = run_with shell_texts

  -- `execute` and `main` of gitlab-shell-authorized-keys-check
  unfoldable pub run_keys_check : Exit
  unfolding run_with keys_texts
  run_keys_check = run_with keys_texts

  -- `run` of gitlab-shell-authorized-principals-check
  unfoldable pub run_principals_check : Exit
  unfolding run_with principals_texts
  run_principals_check = run_with principals_texts

  -- `run` of gitlab-shell-check
  unfoldable pub run_check : Exit
  unfolding run_with check_texts
  run_check = run_with check_texts

-- `findRootDir`: `filepath.Dir`, the variable `GITLAB_SHELL_DIR`, and the error of `os.Stat` where it
-- says that there is no such file.
unfoldable pub find_root_dir :
    (Bytes → Bytes) → Bytes → (Bytes → Option Error) → Bytes → Result Bytes
find_root_dir dir path_from_env missing path =
    if not (is_empty path_from_env)
    then elim (missing path_from_env) [ some e ↦ err e | none ↦ ok path_from_env ]
    else ok (dir (dir path))

-- Of the configuration of gitlab-sshd what its start reads and writes.
pub record SshdConfig : Type 0 where
  pub gitlab_url : Bytes
  pub gitlab_tracing : Bytes
  pub secret : Bytes

abbrev pub set_if : Bytes → Bytes → Bytes
set_if value current = if not (is_empty value) then value else current

-- `overrideConfigFromEnvironment`
unfoldable pub override_config_from_environment : (Bytes → Bytes) → SshdConfig → SshdConfig
override_config_from_environment getenv c = record {
  gitlab_url = set_if (getenv (codes "GITLAB_URL")) c.gitlab_url;
  gitlab_tracing = set_if (getenv (codes "GITLAB_TRACING")) c.gitlab_tracing;
  secret = set_if (getenv (codes "GITLAB_SHELL_SECRET")) c.secret;
}

-- `isConfigSane`
unfoldable pub is_config_sane : SshdConfig → Option Error
is_config_sane c =
    if is_empty c.gitlab_url
    then some (plain (codes "gitlab_url is required"))
    else if is_empty c.secret
    then some (plain (codes "secret or secret_file_path is required"))
    else none

-- The log of a start, and whether the server listens or the program exits with status 1.
pub data SshdEvent : Type 0 where
  logs_no_config_dir logs_configuration_error listens exits_failed : SshdEvent

-- `main` of gitlab-sshd with a configuration: an insane one is only logged.
unfoldable pub start_sshd :
    Bool → (Bytes → Bytes) → (SshdConfig → Option Error) → SshdConfig → List SshdEvent
unfolding override_config_from_environment is_config_sane
start_sshd has_config_dir getenv new_server c =
    let c' = override_config_from_environment getenv c in
    let end_ : SshdEvent = elim (new_server c') [ some e ↦ exits_failed | none ↦ listens ] in
    elim (is_config_sane c') [
      | none ↦ end_ ∷ []
      | some e ↦
          (if has_config_dir then logs_configuration_error else logs_no_config_dir) ∷ end_ ∷ []
    ]

-- `main` of gitlab-sshd: `config.NewFromDir` if a directory is given.
unfoldable pub run_sshd :
    Option (Result SshdConfig) → (Bytes → Bytes) → (SshdConfig → Option Error) → List SshdEvent
unfolding start_sshd
run_sshd none getenv new_server =
    start_sshd false getenv new_server
      (record { gitlab_url = []; gitlab_tracing = []; secret = [] })
run_sshd (some (err e)) getenv new_server = exits_failed ∷ []
run_sshd (some (ok c)) getenv new_server = start_sshd true getenv new_server c

-- The first field of `strings.FieldsFunc`, none if there is no field.
unfoldable pub first_field : List Bytes → Bytes
first_field [] = []
first_field (p ∷ ps) = let rest = first_field ps in if is_empty p then rest else p

-- `LogData` of a project, with its root namespace.
pub record LogData : Type 0 where
  pub username : Bytes
  pub written_bytes : ℕ
  pub project : Bytes
  pub root_namespace : Bytes
  pub project_id : ℕ
  pub root_namespace_id : ℕ

-- `NewLogData`
unfoldable pub new_log_data : Bytes → Bytes → ℕ → ℕ → LogData
unfolding first_field split
new_log_data project username project_id root_namespace_id = record {
  username = username;
  written_bytes = 0;
  project = project;
  root_namespace = first_field (split project b'/');
  project_id = project_id;
  root_namespace_id = root_namespace_id;
}
