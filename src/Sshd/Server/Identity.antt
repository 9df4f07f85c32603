-- ===== src/Sshd/Server/Identity.antt =====
-- From the key that a client offers to the commands that its sessions execute: the callback of
-- internal/sshd/server_config.go, `handleConn` of sshd.go and `handle` of session.go together.
use gitlab_shell.Prelude.{
  if◌then◌else◌, All, Bytes, codes, eqb, is_empty, trim_prefix, mem, ℕ, ◌≡◌, refl, ap, ◌∙◌, ◌⊎◌,
  inl, inr, Bool, true, false, List, [], ◌∷◌, All-mono,
}
use gitlab_shell.Decimal.{itoa}
use gitlab_shell.Errors.{ok}
use gitlab_shell.CommandArgs
use gitlab_shell.ShellCommand.{Command, Counters}
use gitlab_shell.Sshd.Connection
use gitlab_shell.Sshd.ServerConfig.{
  Certificate, Key, bare, certificate, Permissions, ServerConfig, Services, cert_perm_username,
  key_id_name, is_locally_trusted_ca, public_key_callback,
}
use gitlab_shell.Sshd.ServerConfig.Grants.{
  IsUsername, Granted, FromGroup, public_key_callback-Granted,
}
use gitlab_shell.Sshd.Session.{World, Request, Outcome, handle}
use gitlab_shell.Sshd.Session.Rules.{commands, RunsAs}
use gitlab_shell.Sshd.Session.Loop.{handle-IsOnce}
use gitlab_shell.Sshd.Server.{extension, session_of}

abbrev pub nothing : Bytes
nothing = []

pub either : (b : Bool) → (if b then nothing else nothing) ≡ nothing
either true = refl
either false = refl

module _ (v : Services) (cfg : ServerConfig) (w : World) where
  -- Whom a command acts for, by the key that was offered.
  abbrev pub ActsFor : Key → Command → Type 0
  ActsFor (bare type blob) c =
      (id : ℕ) × (v.key_by_key (v.encode_base64 blob) ≡ ok id)
      × (c.args.gitlab_key_id ≡ itoa id)
      × (c.args.gitlab_username ≡ [])
      × (c.args.gitlab_krb5_principal ≡ [])
  ActsFor (certificate cert) c =
      (c.args.gitlab_key_id ≡ [])
      × (c.args.gitlab_krb5_principal ≡ [])
      × (((is_locally_trusted_ca cfg cert.signature_key ≡ true)
            × IsUsername cert.key_id
            × (c.args.gitlab_username ≡ cert.key_id))
          ⊎ ((name namespace : Bytes) × (v.cert_by_key cert.key_id
                  (trim_prefix (v.fingerprint_sha256 cert.signature_key) (codes "SHA256:"))
                ≡ ok (name, namespace))
              × (c.args.gitlab_username ≡ name)
              × ((name ≡ [])
                  ⊎ (namespace ≡ [])
                  ⊎ (mem c.args.command_type CommandArgs.git_commands ≡ true))))

  bare-ActsFor :
      (type blob addr : Bytes) (p : Permissions) (id : ℕ) (c : Command)
      → v.key_by_key (v.encode_base64 blob) ≡ ok id
      → p.extensions ≡ (key_id_name, itoa id) ∷ []
      → RunsAs w (session_of p addr) c
      → ActsFor (bare type blob) c
  unfolding session_of extension eqb
  bare-ActsFor type blob addr p id c known same r =
      (id, known, rw same at r.key_id, rw same at r.username, rw same at r.principal)

  local-ActsFor :
      (cert : Certificate) (addr : Bytes) (p : Permissions) (c : Command)
      → is_locally_trusted_ca cfg cert.signature_key ≡ true
      → IsUsername cert.key_id
      → p.extensions ≡ (cert_perm_username, cert.key_id) ∷ []
      → RunsAs w (session_of p addr) c
      → ActsFor (certificate cert) c
  unfolding session_of extension eqb
  local-ActsFor cert addr p c trusted name same r = (
    (rw same at r.key_id) ∙ either (is_empty cert.key_id),
    rw same at r.principal,
    inl (trusted, name, rw same at r.username),
  )

  group-ActsFor :
      (cert : Certificate) (addr : Bytes) (p : Permissions) (c : Command)
      → FromGroup v cfg cert p
      → RunsAs w (session_of p addr) c
      → ActsFor (certificate cert) c
  unfolding session_of extension eqb
  group-ActsFor cert addr p c (on, name, namespace, answer, same) r = (
    (rw same at r.key_id) ∙ either (is_empty name),
    rw same at r.principal,
    inr (
      name,
      namespace,
      answer,
      rw same at r.username,
      elim r.restricted [
        | inl principal ↦ absurd (principal (rw same refl))
        | inr rest ↦ rw same at rest
      ],
    ),
  )

  Granted-ActsFor :
      (user : Bytes) (key : Key) (p : Permissions) (addr : Bytes) (c : Command)
      → Granted v cfg user key p
      → RunsAs w (session_of p addr) c
      → ActsFor key c
  Granted-ActsFor user (bare type blob) p addr c (_, _, id, known, same) r =
      bare-ActsFor type blob addr p id c known (ap (λ (q : Permissions). q.extensions) same) r
  Granted-ActsFor user (certificate cert) p addr c (_, _, _, inl (trusted, name, same)) r =
      local-ActsFor cert addr p c trusted name same r
  Granted-ActsFor user (certificate cert) p addr c (_, _, _, inr (_, group)) r =
      group-ActsFor cert addr p c group r

  -- Whatever a client requests in a session of a connection that its key opened, each command that
  -- is executed acts for the holder of that key: by the id that the internal API knows a bare key
  -- under, by the key id of a certificate of a trusted authority, which is a user name of GitLab, or
  -- by the user name that the internal API answers for another certificate. In the last case the
  -- command is a Git command, unless the answer names no namespace or no user.
  pub commands-ActsFor :
      (user : Bytes) (key : Key) (o : Connection.Outcome) (p : Permissions) (addr : Bytes)
      (reqs : List Request) (n : Counters) (outcome : Outcome)
      → (public_key_callback v cfg user key o).0 ≡ ok p
      → All (ActsFor key) (commands (handle w (session_of p addr) reqs n outcome).0)
  commands-ActsFor user key o p addr reqs n outcome h =
      All-mono
        (λ c r.
          Granted-ActsFor user key p addr c (public_key_callback-Granted v cfg user key o p h) r)
        (commands (handle w (session_of p addr) reqs n outcome).0)
        (handle-IsOnce w (session_of p addr) reqs n outcome).user
