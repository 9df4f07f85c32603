-- ===== src/Sshd/Session/Loop.antt =====
-- The request loop `handle` of internal/sshd/session.go.
use gitlab_shell.Prelude.{
  Bool-cases, All, codes, eqb, ◌≡◌, refl, ◌∙◌, ◌⊎◌, inl, inr, Bool, true, false, List, [], ◌∷◌,
  ◌++◌, append-nil, arith,
}
use gitlab_shell.Errors.{Result-cases}
use gitlab_shell.ShellCommand.{Command, Counters}
use gitlab_shell.Sshd.Session.{
  World, Session, Request, Effect, closed, Outcome, handle_env, handle_exec, handle_request, handle,
}
use gitlab_shell.Sshd.Session.Rules.{
  commands, statuses, commands-append, statuses-append, replies_lem, RunsAs, IsOnce,
  handle_shell-IsOnce,
}

-- The user and the namespace of a session stay as the connection set them.
abbrev pub SameUser : Session → Session → Type 0
SameUser s t =
    (t.gitlab_key_id ≡ s.gitlab_key_id)
    × (t.gitlab_krb5_principal ≡ s.gitlab_krb5_principal)
    × (t.gitlab_username ≡ s.gitlab_username)
    × (t.namespace ≡ s.namespace)

module _ (w : World) where
  RunsAs-SameUser : {s t : Session} → SameUser s t → (c : Command) → RunsAs w t c → RunsAs w s c
  RunsAs-SameUser (k, p, u, n) c r = record {
    username = rw (← p, ← u) r.username;
    key_id = rw (← p, ← u, ← k) r.key_id;
    principal = rw (← p) r.principal;
    restricted = rw (← p, ← u, ← n) r.restricted;
  }

  All-SameUser :
      (s t : Session)
      → SameUser s t
      → (cs : List Command) → All (RunsAs w t) cs
      → All (RunsAs w s) cs
  All-SameUser s t same [] h = tt
  All-SameUser s t same (c ∷ cs) (h, hs) =
      (RunsAs-SameUser {s = s} {t = t} same c h, All-SameUser s t same cs hs)

  IsOnce-SameUser :
      (s t : Session) → SameUser s t → (es : List Effect) → IsOnce w t es → IsOnce w s es
  IsOnce-SameUser s t same es h = record {
    one_command = h.one_command;
    one_status = h.one_status;
    user = All-SameUser s t same (commands es) h.user;
  }

  -- Effects with no command and no exit status among them.
  abbrev IsSilent : List Effect → Type 0
  IsSilent es = (commands es ≡ []) × (statuses es ≡ [])

  silent-IsOnce : (s : Session) (es : List Effect) → IsSilent es → IsOnce w s es
  silent-IsOnce s es (c, n) = record {
    one_command = rw c (omega arith);
    one_status = rw n (omega arith);
    user = rw c tt;
  }

  silent-append :
      (s : Session) (xs ys : List Effect) → IsSilent xs → IsOnce w s ys → IsOnce w s (xs ++ ys)
  silent-append s xs ys (c, n) h =
      let cs : commands (xs ++ ys) ≡ commands ys = commands-append xs ys ∙ rw c in
      record {
        one_command = rw cs h.one_command;
        one_status = rw (statuses-append xs ys, n) h.one_status;
        user = rw cs h.user;
      }

  append-closed : (s : Session) (es : List Effect) → IsOnce w s es → IsOnce w s (es ++ closed ∷ [])
  append-closed s es h =
      let cs : commands (es ++ closed ∷ []) ≡ commands es =
        commands-append es (closed ∷ []) ∙ append-nil _ in
      record {
        one_command = rw cs h.one_command;
        one_status = rw (statuses-append es (closed ∷ []), append-nil) h.one_status;
        user = rw cs h.user;
      }

  -- A request is answered and the loop goes on, or it runs a command and the loop ends.
  abbrev Passed : Session → Session × List Effect × Bool × Outcome → Type 0
  Passed s r = ((r.2 ≡ true) × SameUser s r.0 × IsSilent r.1) ⊎ ((r.2 ≡ false) × IsOnce w s r.1)

  handle_env-Passed : (s : Session) (req : Request) → Passed s (handle_env w s req)
  unfolding handle_env
  handle_env-Passed s req = elim (Result-cases (w.unmarshal_env req.payload)) [
    | inl (e, bad) ↦ rw (bad, handle_env) (inr (refl, silent-IsOnce s [] (refl, refl)))
    | inr (pair, good) ↦ elim (Bool-cases (eqb pair.0 (codes "GIT_PROTOCOL"))) [
      | inl version ↦
          rw (good, handle_env, version)
            (inl (refl, (refl, refl, refl, refl), replies_lem w req true))
      | inr other ↦
          rw (good, handle_env, other)
            (inl (refl, (refl, refl, refl, refl), replies_lem w req false))
    ]
  ]

  handle_exec-IsOnce :
      (s : Session) (req : Request) (n : Counters) → IsOnce w s (handle_exec w s req n).1
  unfolding handle_exec
  handle_exec-IsOnce s req n = elim (Result-cases (w.unmarshal_exec req.payload)) [
    | inl (e, bad) ↦ rw (bad, handle_exec) (silent-IsOnce s [] (refl, refl))
    | inr (command, good) ↦
        let t : Session = record s { exec_cmd = command } in
        rw (good, handle_exec)
          (IsOnce-SameUser s t (refl, refl, refl, refl) _ (handle_shell-IsOnce w t req n))
  ]

  handle_request-Passed :
      (s : Session) (req : Request) (n : Counters) → Passed s (handle_request w s req n)
  unfolding handle_request
  handle_request-Passed s req n = elim (Bool-cases (eqb req.type (codes "env"))) [
    | inl env ↦ rw env (handle_env-Passed s req)
    | inr no_env ↦ elim (Bool-cases (eqb req.type (codes "exec"))) [
      | inl exec ↦ rw (no_env, exec) (inr (refl, handle_exec-IsOnce s req n))
      | inr no_exec ↦ elim (Bool-cases (eqb req.type (codes "shell"))) [
        | inl shell ↦ rw (no_env, no_exec, shell) (inr (refl, handle_shell-IsOnce w s req n))
        | inr unknown ↦
            rw (no_env, no_exec, unknown)
              (inl (refl, (refl, refl, refl, refl), replies_lem w req false))
      ]
    ]
  ]

  -- Whatever requests a client sends, a session executes one command at most and reports one exit
  -- status at most, and the command runs as the user that the connection authenticated: as the
  -- Kerberos principal if there is one, else as the user name, else as the key. A user name that is
  -- restricted to a namespace gets Git commands only, unless there is a principal.
  pub handle-IsOnce :
      (s : Session) (reqs : List Request) (n : Counters) (outcome : Outcome)
      → IsOnce w s (handle w s reqs n outcome).0
  unfolding handle
  handle-IsOnce s [] n outcome = silent-IsOnce s [] (refl, refl)
  handle-IsOnce s (req ∷ reqs) n outcome = elim (handle_request-Passed s req n) [
    | inl (on, same, silent) ↦
        let r = handle_request w s req n in
        let later = handle-IsOnce r.0 reqs n r.3 in
        rw on (
          silent-append s r.1 (handle w r.0 reqs n r.3).0 silent
            (IsOnce-SameUser s r.0 same _ later))
    | inr (off, once) ↦ rw off (append-closed s (handle_request w s req n).1 once)
  ]
