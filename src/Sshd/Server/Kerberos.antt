-- ===== src/Sshd/Server/Kerberos.antt =====
-- From a Kerberos principal to the commands that its sessions execute: `AllowLogin` of
-- internal/sshd/server_config.go, `handleConn` of sshd.go and `handle` of session.go together.
use gitlab_shell.Prelude.{
  Bool-cases, All, Bytes, eqb, eqb_iff, is_empty, ◌≡◌, refl, ◌∙◌, inl, inr, true, ◌&&◌, List, [],
  ◌∷◌, All-mono,
}
use gitlab_shell.Errors.{ok, ok-injective}
use gitlab_shell.ShellCommand.{Command, Counters}
use gitlab_shell.Sshd.Connection
use gitlab_shell.Sshd.ServerConfig.{
  Permissions, ServerConfig, Services, krb5_principal_name, allow_login,
}
use gitlab_shell.Sshd.Session.{World, Request, Outcome, handle}
use gitlab_shell.Sshd.Session.Rules.{commands, RunsAs}
use gitlab_shell.Sshd.Session.Loop.{handle-IsOnce}
use gitlab_shell.Sshd.Server.Identity.{either}
use gitlab_shell.Sshd.Server.{extension, session_of}

module _ (v : Services) (cfg : ServerConfig) (w : World) where
  -- A command of a Kerberos principal, in the name of nobody else.
  pub record ActsForPrincipal (name : Bytes) (c : Command) : Type 0 where
    pub principal : c.args.gitlab_krb5_principal ≡ name
    pub key_id : c.args.gitlab_key_id ≡ []
    pub username : c.args.gitlab_username ≡ []

  allow_login-eq-ok :
      (user src_name : Bytes) (o : Connection.Outcome) (p : Permissions)
      → (allow_login v cfg user src_name o).0 ≡ ok p
      → (user ≡ cfg.user) × (p.extensions ≡ (krb5_principal_name, src_name) ∷ [])
  unfolding allow_login
  allow_login-eq-ok user src_name o p h = elim (Bool-cases (eqb user cfg.user)) [
    | inl same ↦
        let e = ok-injective (rw (same, allow_login) at h) in
        ((eqb_iff user cfg.user).0 same, rw (← e) refl)
    | inr other ↦ absurd (cc (rw (other, allow_login) at h))
  ]

  principal-ActsFor :
      (src_name addr : Bytes) (p : Permissions) (c : Command)
      → p.extensions ≡ (krb5_principal_name, src_name) ∷ []
      → RunsAs w (session_of p addr) c
      → ActsForPrincipal src_name c
  unfolding session_of extension eqb
  principal-ActsFor src_name addr p c same r = record {
    principal = rw same at r.principal;
    key_id = (rw same at r.key_id) ∙ either (is_empty src_name && true);
    username = (rw same at r.username) ∙ either (is_empty src_name);
  }

  -- Kerberos lets in the configured user alone, and each command that a session of such a
  -- connection executes acts for the principal of the login, and for no key or user name.
  pub commands-ActsForPrincipal :
      (user src_name addr : Bytes) (o : Connection.Outcome) (p : Permissions) (reqs : List Request)
      (n : Counters) (outcome : Outcome)
      → (allow_login v cfg user src_name o).0 ≡ ok p
      → (user ≡ cfg.user)
        × All (ActsForPrincipal src_name) (commands (handle w (session_of p addr) reqs n outcome).0)
  commands-ActsForPrincipal user src_name addr o p reqs n outcome h =
      let (same_user, same) = allow_login-eq-ok user src_name o p h in
      (
        same_user,
        All-mono (λ c r. principal-ActsFor src_name addr p c same r)
            (commands (handle w (session_of p addr) reqs n outcome).0)
            (handle-IsOnce w (session_of p addr) reqs n outcome).user,
      )
