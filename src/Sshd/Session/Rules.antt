-- ===== src/Sshd/Session/Rules.antt =====
-- What a session of internal/sshd/session.go does, whatever the client asks for.
use gitlab_shell.Prelude.{
  if◌then◌else◌, Bool-cases, length, All, Bytes, is_empty, mem, ℕ, ◌≤◌, ◌≡◌, refl, sym, ap, ◌∙◌,
  ◌≢◌, ◌⊎◌, inl, inr, Bool, true, false, ◌&&◌, none, some, List, [], ◌∷◌, ◌++◌, append-nil, arith,
}
use gitlab_shell.Errors.{Result, ok, err, Error}
use gitlab_shell.ShellCommand.{Command, Counters}
use gitlab_shell.ShellCommand.Rules.{
  new_with_key-IsFor, new_with_krb5_principal-IsFor, new_with_username-IsFor,
}
use gitlab_shell.CommandArgs
use gitlab_shell.Sshd.Session.{
  World, Session, Request, Effect, reply, executed, stderr, exit_status, closed, Outcome, replies,
  env_of, get_command, handle_command_error, after_execute, run_command, handle_shell,
}

-- The commands, and the exit statuses, among the effects of a session.
abbrev pub commands : List Effect → List Command
commands [] = []
commands (executed c ∷ es) = c ∷ commands es
commands (_ ∷ es) = commands es

abbrev pub statuses : List Effect → List ℕ
statuses [] = []
statuses (exit_status n ∷ es) = n ∷ statuses es
statuses (_ ∷ es) = statuses es

pub commands-append : (xs ys : List Effect) → commands (xs ++ ys) ≡ commands xs ++ commands ys
commands-append [] ys = refl
commands-append (executed c ∷ xs) ys = ap (λ l. c ∷ l) (commands-append xs ys)
commands-append (reply b ∷ xs) ys = commands-append xs ys
commands-append (stderr s ∷ xs) ys = commands-append xs ys
commands-append (exit_status n ∷ xs) ys = commands-append xs ys
commands-append (closed ∷ xs) ys = commands-append xs ys

pub statuses-append : (xs ys : List Effect) → statuses (xs ++ ys) ≡ statuses xs ++ statuses ys
statuses-append [] ys = refl
statuses-append (exit_status n ∷ xs) ys = ap (λ l. n ∷ l) (statuses-append xs ys)
statuses-append (executed c ∷ xs) ys = statuses-append xs ys
statuses-append (reply b ∷ xs) ys = statuses-append xs ys
statuses-append (stderr s ∷ xs) ys = statuses-append xs ys
statuses-append (closed ∷ xs) ys = statuses-append xs ys

is_empty-eq : (s : Bytes) → is_empty s ≡ true → s ≡ []
is_empty-eq [] h = refl
is_empty-eq (x ∷ s) h = cc

is_empty-ne : (s : Bytes) → is_empty s ≡ false → s ≢ []
is_empty-ne [] h = cc
is_empty-ne (x ∷ s) h = cc

module _ (w : World) where
  open w use {execute, config, parse_words}

  -- The exit status and the error that a command's construction and execution call for.
  abbrev pub status_of : Outcome → ℕ
  status_of none = 0
  status_of (some e) = 1

  abbrev pub expected : Result Command → ℕ × Outcome
  expected (err e) = (128, some e)
  expected (ok c) = (status_of (execute c), execute c)

  -- The command that was built, if one was.
  abbrev pub built : Result Command → List Command
  built (err e) = []
  built (ok c) = c ∷ []

  after_execute_lem :
      (o : Outcome)
      → (commands (after_execute w o).0 ≡ [])
        × (statuses (after_execute w o).0 ≡ [])
        × ((after_execute w o).1 ≡ status_of o)
        × ((after_execute w o).2 ≡ o)
  unfolding after_execute
  after_execute_lem none = (refl, refl, refl, refl)
  after_execute_lem (some e) = ground arith

  handle_command_error_lem :
      (s : Session) (e : Error)
      → (commands (handle_command_error s e) ≡ []) × (statuses (handle_command_error s e) ≡ [])
  unfolding handle_command_error
  handle_command_error_lem s e = ground arith

  run_command_lem :
      (s : Session) (r : Result Command)
      → (commands (run_command w s r).0 ≡ built r)
        × (statuses (run_command w s r).0 ≡ [])
        × ((run_command w s r).1 ≡ (expected r).0)
        × ((run_command w s r).2 ≡ (expected r).1)
  unfolding run_command
  run_command_lem s (err e) =
      let (no_commands, no_statuses) = handle_command_error_lem s e in
      (no_commands, no_statuses, refl, refl)
  run_command_lem s (ok c) =
      let (no_commands, no_statuses, status, outcome) = after_execute_lem (execute c) in
      (ap (λ l. c ∷ l) no_commands, no_statuses, status, outcome)

  pub replies_lem :
      (req : Request) (b : Bool) → (commands (replies req b) ≡ []) × (statuses (replies req b) ≡ [])
  replies_lem req b = ground arith

  -- A request to run a command, once the command line is known: the command that the session's
  -- user may run is executed if it is built, and the status is 128 for one that is not, 1 for one
  -- that fails and 0 for one that succeeds.
  pub handle_shell_lem :
      (s : Session) (req : Request) (n : Counters)
      → let r = (get_command w s n).0 in
        (commands (handle_shell w s req n).0 ≡ built r)
        × (statuses (handle_shell w s req n).0 ≡ [])
        × ((handle_shell w s req n).1 ≡ (expected r).0)
        × ((handle_shell w s req n).2 ≡ (expected r).1)
  unfolding handle_shell
  handle_shell_lem s req n =
      let r = (get_command w s n).0 in
      let (cs, ns, status, outcome) = run_command_lem s r in
      let (no_commands, no_statuses) = replies_lem req true in
      (
        commands-append (replies req true) (run_command w s r).0 ∙ rw (no_commands, cs),
        statuses-append (replies req true) (run_command w s r).0 ∙ rw (no_statuses, ns),
        status,
        outcome,
      )

  -- The user that a session runs its command as.
  pub record RunsAs (s : Session) (c : Command) : Type 0 where
    pub username :
        c.args.gitlab_username
        ≡ (if is_empty s.gitlab_krb5_principal then s.gitlab_username else [])
    pub key_id : c.args.gitlab_key_id ≡ (
        if is_empty s.gitlab_krb5_principal && is_empty s.gitlab_username
        then s.gitlab_key_id
        else [])
    pub principal : c.args.gitlab_krb5_principal ≡ s.gitlab_krb5_principal
    pub restricted :
        (s.gitlab_krb5_principal ≢ [])
        ⊎ (s.gitlab_username ≡ [])
        ⊎ (s.namespace ≡ [])
        ⊎ (mem c.args.command_type CommandArgs.git_commands ≡ true)

  get_command-RunsAs :
      (s : Session) (n : Counters) (c : Command) → (get_command w s n).0 ≡ ok c → RunsAs s c
  unfolding get_command
  get_command-RunsAs s n c h = elim (Bool-cases (is_empty s.gitlab_krb5_principal)) [
    | inr krb ↦
        let f =
          new_with_krb5_principal-IsFor parse_words s.gitlab_krb5_principal (env_of s) config n c
            (rw (krb, get_command) at h) in
        record {
          username = rw krb f.as_username;
          key_id = rw krb f.as_key;
          principal = f.as_principal;
          restricted = inl (is_empty-ne s.gitlab_krb5_principal krb);
        }
    | inl no_krb ↦ elim (Bool-cases (is_empty s.gitlab_username)) [
      | inr user ↦
          let (f, git) =
            new_with_username-IsFor parse_words s.gitlab_username (env_of s) config n c
              (rw (no_krb, user, get_command) at h) in
          record {
            username = rw no_krb f.as_username;
            key_id = rw (no_krb, user) f.as_key;
            principal = f.as_principal ∙ sym (is_empty-eq s.gitlab_krb5_principal no_krb);
            restricted = inr (inr git);
          }
      | inl no_user ↦
          let f =
            new_with_key-IsFor parse_words s.gitlab_key_id (env_of s) config n c
              (rw (no_krb, no_user, get_command) at h) in
          record {
            username = rw no_krb (f.as_username ∙ sym (is_empty-eq s.gitlab_username no_user));
            key_id = rw (no_krb, no_user) f.as_key;
            principal = f.as_principal ∙ sym (is_empty-eq s.gitlab_krb5_principal no_krb);
            restricted = inr (inl (is_empty-eq s.gitlab_username no_user));
          }
    ]
  ]

  built-RunsAs :
      (s : Session) (r : Result Command)
      → ((c : Command) → r ≡ ok c → RunsAs s c)
      → All (RunsAs s) (built r)
  built-RunsAs s (err e) f = tt
  built-RunsAs s (ok c) f = (f c refl, tt)

  length-built : (r : Result Command) → length (built r) ≤ 1
  length-built (err e) = omega arith
  length-built (ok c) = omega arith

  -- What one pass of the request loop may do: one command at most, by the session's user, and one
  -- exit status at most.
  pub record IsOnce (s : Session) (es : List Effect) : Type 0 where
    pub one_command : length (commands es) ≤ 1
    pub one_status : length (statuses es) ≤ 1
    pub user : All (RunsAs s) (commands es)

  pub handle_shell-IsOnce :
      (s : Session) (req : Request) (n : Counters)
      → IsOnce s ((handle_shell w s req n).0 ++ exit_status (handle_shell w s req n).1 ∷ [])
  handle_shell-IsOnce s req n =
      let r = (get_command w s n).0 in
      let (cs, ns, _, _) = handle_shell_lem s req n in
      let last = exit_status (handle_shell w s req n).1 ∷ [] in
      let all_of : commands ((handle_shell w s req n).0 ++ last) ≡ built r =
        commands-append (handle_shell w s req n).0 last ∙ append-nil _ ∙ cs in
      record {
        one_command = rw all_of (length-built r);
        one_status = rw (statuses-append (handle_shell w s req n).0 last, ns) (omega arith);
        user = rw all_of (built-RunsAs s r (get_command-RunsAs s n));
      }
