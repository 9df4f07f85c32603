-- ===== src/Tests/Service.antt =====
-- The life of the SSH server, its composition with authentication, and the connections to Gitaly,
-- on concrete inputs.
use gitlab_shell.Prelude.{
  All, Bytes, codes, eqb, ℕ, ◌+◌, ◌≤◌, ◌≡◌, refl, true, false, none, List, [], ◌∷◌, ◌++◌, arith,
}
use gitlab_shell.Errors.{Result, ok}
use gitlab_shell.Gitaly
use gitlab_shell.Gitaly.{
  CacheKey, Client, find_connection, enter, get_connection, look_up, new_connection, store,
  same_key,
}
use gitlab_shell.Gitaly.Cache.{Spec, Refines, run-Refines, spec_run}
use gitlab_shell.Gitaly.Cache
use gitlab_shell.Gitaly.Stable.{enter_all, get_connection_stable}
use gitlab_shell.Sshd.Connection.Sli.{no_outcome}
use gitlab_shell.Sshd.Session.{handle}
use gitlab_shell.Sshd.Session.Rules.{commands}
use gitlab_shell.Sshd.ServerConfig.{certificate}
use gitlab_shell.Sshd.Server
use gitlab_shell.Sshd.Server.{
  Event, listens, serves, accepts, accept_fails, waits, shuts_down, connection_ends, new_server,
  accepting, stopped, listening, session_of,
}
use gitlab_shell.Sshd.Server.Shutdown.{endings, NoShutdown, IsLost, shutdown_stops, shutdown-IsLost}
use gitlab_shell.Sshd.Server.Identity.{ActsFor, commands-ActsFor}
use gitlab_shell.Sshd.Server.Kerberos.{ActsForPrincipal, commands-ActsForPrincipal}
use gitlab_shell.Sshd.ServerConfig.{allow_login, krb5_principal_name, Permissions}
use gitlab_shell.Tests.Commands.{counters}
use gitlab_shell.Tests.Server.{world, requests, services, server, cert, permissions, granted}

commands-ActsFor_example :
    All
      (ActsFor services server world (certificate cert))
      (commands (handle world (session_of permissions (codes "10.0.0.1")) requests counters none).0)
commands-ActsFor_example =
    commands-ActsFor services server world (codes "git") (certificate cert) no_outcome permissions
      (codes "10.0.0.1") requests counters none granted

-- A login of a Kerberos principal.
abbrev principal : Bytes
principal = codes "someone@EXAMPLE.COM"

abbrev kerberos : Permissions
kerberos = record { critical_options = []; extensions = (krb5_principal_name, principal) ∷ [] }

logged_in : (allow_login services server (codes "git") principal no_outcome).0 ≡ ok kerberos
unfolding allow_login eqb
logged_in = refl

commands-ActsForPrincipal_example :
    (codes "git" ≡ server.user)
    × All
        (ActsForPrincipal services server world principal)
        (commands (handle world (session_of kerberos (codes "10.0.0.1")) requests counters none).0)
commands-ActsForPrincipal_example =
    commands-ActsForPrincipal services server world (codes "git") principal (codes "10.0.0.1")
      no_outcome kerberos requests counters none logged_in

-- A server with two connections, and one that ends before the accept fails.
abbrev busy : Server.Server
busy = Server.run (listens ∷ serves ∷ accepts ∷ accepts ∷ []) new_server

busy-accepting : busy.phase ≡ accepting
unfolding Server.run Server.step
busy-accepting = refl

busy-listening : busy.listener ≡ listening
unfolding Server.run Server.step
busy-listening = refl

busy_ends :
    busy.waiting ≤ endings (connection_ends false ∷ []) + endings (connection_ends true ∷ [])
unfolding Server.run Server.step
busy_ends = omega arith

shutdown_stops_example :
    (Server.run
      (shuts_down
        ∷ ((connection_ends false ∷ [])
            ++ (accept_fails ∷ ((connection_ends true ∷ []) ++ (waits ∷ [])))))
      busy).phase
    ≡ stopped
shutdown_stops_example =
    shutdown_stops busy (connection_ends false ∷ []) (connection_ends true ∷ []) [] busy-accepting
      busy-listening busy_ends

accept_fails-NoShutdown : NoShutdown (accept_fails ∷ [])
accept_fails-NoShutdown = ((λ e. absurd (cc e)), tt)

shutdown-IsLost_example :
    IsLost (Server.run (listens ∷ shuts_down ∷ serves ∷ accept_fails ∷ []) new_server)
shutdown-IsLost_example = shutdown-IsLost (accept_fails ∷ []) accept_fails-NoShutdown

-- Two services of a Gitaly.
abbrev dial : ℕ → Gitaly.Command → Result ℕ
dial n cmd = ok (n + 100)

abbrev command : Bytes → Gitaly.Command
command name = record {
  key = record { service_name = name; address = codes "unix:/gitaly.sock"; token = [] };
  retry_policy = none;
}

abbrev empty : Client
empty = record { connections = []; dials = 0; ok_total = 0; fail_total = 0 }

abbrev no_connection : Spec
no_connection = record { connection = λ k. none; dials = 0; ok_total = 0; fail_total = 0 }

empty-Refines : Refines empty no_connection
unfolding find_connection
empty-Refines = ((λ k. refl), refl, refl, refl)

abbrev calls : List Gitaly.Command
calls = command (codes "a") ∷ command (codes "b") ∷ command (codes "a") ∷ []

run-Refines_example :
    ((Cache.run dial calls empty).0 ≡ (spec_run dial calls no_connection).0)
    × Refines (Cache.run dial calls empty).1 (spec_run dial calls no_connection).1
run-Refines_example = run-Refines dial calls empty no_connection empty-Refines

dialled : (enter dial (command (codes "a")) empty).0 ≡ ok 100
unfolding enter look_up find_connection new_connection store
dialled = refl

get_connection_stable_example :
    (get_connection dial calls
      (command (codes "a"))
      (enter_all dial calls (enter dial (command (codes "a")) empty).1)).0
    ≡ ok 100
get_connection_stable_example =
    get_connection_stable dial (command (codes "a")) (command (codes "a")) empty 100 calls calls
      dialled refl
