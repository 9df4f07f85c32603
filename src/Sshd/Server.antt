-- ===== src/Sshd/Server.antt =====
-- internal/sshd/sshd.go: the life of a server, its probes, the policy of the PROXY protocol, and
-- the session that a connection's permissions make. What runs side by side is a sequence of
-- events: `serve` in its goroutine, each connection in its own, and the calls of `Shutdown`. The
-- sockets and the library of the PROXY protocol are parameters; logging is left out.
pub mod Shutdown
pub mod Identity
pub mod Kerberos
use gitlab_shell.Prelude.{
  ltb, leb, ◌==◌, if◌then◌else◌, ==_iff, Bool-cases, Option-cases, and-eq-true_iff, length, take,
  drop, replicate, all, any, length-append, take-append-drop, length-take, length-drop, take-append,
  drop-append, take-append_all, drop-append_all, All, All-append, Bytes, codes, eqb, eqb_iff,
  eqb_refl, is_empty, has_prefix, trim_prefix, trim_suffix, trim_left, contains_byte, contains,
  before, split, last, mem, Lacks, Lacks-contains_byte, contains_byte-Lacks, ℕ, zero, suc, ◌+◌, ◌-◌,
  ◌*◌, ◌/◌, ◌%◌, ◌^◌, ◌≤◌, ◌<◌, ◌≡◌, refl, sym, ap, ◌∙◌, ◌≢◌, ◌↔◌, ◌⊎◌, inl, inr, Bool, true, false,
  not, ◌&&◌, ◌||◌, Option, none, some, List, [], ◌∷◌, ◌++◌, map, append_assoc, append-nil, arith,
  last-split, split-ne-nil, All-mono,
}
use gitlab_shell.Errors.{Result, ok, err, Error, wrapped}
use gitlab_shell.Sshd.Session.{Session}
use gitlab_shell.Sshd.ServerConfig.{
  Permissions, krb5_principal_name, cert_perm_username, cert_perm_namespace, key_id_name,
}

-- `status`
pub data Status : Type 0 where
  starting ready on_shutdown closed : Status

-- The listener of the server: `nil`, open, or closed.
pub data Listener : Type 0 where
  no_listener listening shut : Listener

-- Where `ListenAndServe` stands: in front of `listen`, in front of `serve`, in its loop, at
-- `wg.Wait`, or behind it.
pub data Phase : Type 0 where
  idle bound accepting draining stopped : Phase

-- `Server`, with the count of its wait group and the counters `SshdConnectionsInFlight` and, for
-- panics, `SliSshdSessionsErrorsTotal`.
pub record Server : Type 0 where
  pub status : Status
  pub listener : Listener
  pub phase : Phase
  pub waiting : ℕ
  pub in_flight : ℕ
  pub sessions_errors : ℕ

abbrev pub new_server : Server
new_server = record {
  status = starting;
  listener = no_listener;
  phase = idle;
  waiting = 0;
  in_flight = 0;
  sessions_errors = 0;
}

-- What can happen: `net.Listen` succeeds, `serve` begins, a connection is accepted, an accept
-- fails, a connection ends, by a panic or not, `Wait` returns, and `Shutdown` is called.
pub data Event : Type 0 where
  listens serves accepts accept_fails waits shuts_down : Event
  connection_ends : Bool → Event

-- `Shutdown`, its change of the status and its `Close` of the listener in one step.
unfoldable pub shutdown : Server → Server
shutdown s = elim s.listener [
  | no_listener ↦ s
  | _ ↦ record s { status = on_shutdown; listener = shut }
]

-- The loop of `serve`, for an accept that fails.
unfoldable pub accept_failed : Server → Server
accept_failed s = elim s.status [ on_shutdown ↦ record s { phase = draining } | _ ↦ s ]

-- `handleConn`, at its end.
unfoldable pub end_connection : Bool → Server → Server
end_connection panicked s = record s {
  waiting = s.waiting - 1;
  in_flight = s.in_flight - 1;
  sessions_errors = if panicked then s.sessions_errors + 1 else s.sessions_errors;
}

-- One event; an event that cannot happen where the server stands changes nothing.
unfoldable pub step : Event → Server → Server
unfolding shutdown accept_failed end_connection
step shuts_down s = shutdown s
step (connection_ends panicked) s = if s.waiting == 0 then s else end_connection panicked s
step listens s = elim s.phase [ idle ↦ record s { listener = listening; phase = bound } | _ ↦ s ]
step serves s = elim s.phase [ bound ↦ record s { status = ready; phase = accepting } | _ ↦ s ]
step accepts s = elim s.phase [
  | accepting ↦ elim s.listener [
    | listening ↦ record s { waiting = s.waiting + 1; in_flight = s.in_flight + 1 }
    | _ ↦ s
  ]
  | _ ↦ s
]
step accept_fails s = elim s.phase [ accepting ↦ accept_failed s | _ ↦ s ]
step waits s = elim s.phase [
  | draining ↦
      if s.waiting == 0 then record s { status = closed; listener = shut; phase = stopped } else s
  | _ ↦ s
]

unfoldable pub run : List Event → Server → Server
run [] s = s
run (e ∷ es) s = run es (step e s)

-- The status of the readiness probe of `MonitoringServeMux`.
unfoldable pub readiness : Server → ℕ
readiness s = elim s.status [ ready ↦ 200 | _ ↦ 503 ]

-- `proxyproto.Policy`, where the source names it.
pub data Policy : Type 0 where
  require ignore reject use_header : Policy

-- What `proxyPolicy` returns: the policy of a list of allowed addresses, or one for all.
pub data ConnPolicy : Type 0 where
  white_list : List Bytes → ConnPolicy
  static_policy : Policy → ConnPolicy

-- `strings.ToLower` on ASCII.
unfoldable pub to_lower : Bytes → Bytes
to_lower [] = []
to_lower (c ∷ s) = (if leb b'A' c && leb c b'Z' then c + 32 else c) ∷ to_lower s

-- `proxyPolicy`, with `ConnStrictWhiteListPolicy` as a parameter.
unfoldable pub proxy_policy :
    (List Bytes → Result ConnPolicy) → List Bytes → Bytes → Result ConnPolicy
unfolding to_lower
proxy_policy strict_white_list (a ∷ allowed) policy = strict_white_list (a ∷ allowed)
proxy_policy strict_white_list [] policy =
    if eqb (to_lower policy) (codes "require")
    then ok (static_policy require)
    else if eqb (to_lower policy) (codes "ignore")
    then ok (static_policy ignore)
    else if eqb (to_lower policy) (codes "reject")
    then ok (static_policy reject)
    else ok (static_policy use_header)

-- `listen`, for the result of `net.Listen`: the policy of the listener, if it has one.
unfoldable pub listen : Option Error → Bool → Result ConnPolicy → Result (Option ConnPolicy)
listen (some e) proxy_protocol policy = err (wrapped (codes "failed to listen for connection") e)
listen none false policy = ok none
listen none true (err e) = err (wrapped (codes "invalid policy configuration") e)
listen none true (ok p) = ok (some p)

-- An entry of the extensions, empty if it is missing.
unfoldable pub extension : Bytes → List (Bytes × Bytes) → Bytes
unfolding eqb
extension name [] = []
extension name ((key, value) ∷ rest) =
    let later = extension name rest in if eqb key name then value else later

-- The session that `handleConn` makes for a channel.
unfoldable pub session_of : Permissions → Bytes → Session
unfolding extension
session_of p remote_addr = record {
  gitlab_key_id = extension key_id_name p.extensions;
  gitlab_krb5_principal = extension krb5_principal_name p.extensions;
  gitlab_username = extension cert_perm_username p.extensions;
  namespace = extension cert_perm_namespace p.extensions;
  remote_addr = remote_addr;
  exec_cmd = [];
  git_protocol_version = [];
}
