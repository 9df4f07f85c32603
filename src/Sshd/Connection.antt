-- ===== src/Sshd/Connection.antt =====
-- internal/sshd/connection.go: the sessions of a connection and the errors that it reports. The
-- gRPC status code of an error (google.golang.org/grpc/status) is a parameter. Logging, deadlines
-- and keep-alive messages are left out.
pub mod Limit
pub mod Sli
use gitlab_shell.Prelude.{
  ltb, leb, ◌==◌, if◌then◌else◌, ==_iff, Bool-cases, Option-cases, and-eq-true_iff, length, take,
  drop, replicate, all, any, length-append, take-append-drop, length-take, length-drop, take-append,
  drop-append, take-append_all, drop-append_all, All, All-append, Bytes, codes, eqb, eqb_iff,
  eqb_refl, is_empty, has_prefix, trim_prefix, trim_suffix, trim_left, contains_byte, contains,
  before, split, last, mem, Lacks, Lacks-contains_byte, contains_byte-Lacks, ℕ, zero, suc, ◌+◌, ◌-◌,
  ◌*◌, ◌/◌, ◌%◌, ◌^◌, ◌≤◌, ◌<◌, ◌≡◌, refl, sym, ap, ◌∙◌, ◌≢◌, ◌↔◌, ◌⊎◌, inl, inr, Bool, true, false,
  not, ◌&&◌, ◌||◌, Option, none, some, List, [], ◌∷◌, ◌++◌, map, append_assoc, append-nil, arith,
  last-split, split-ne-nil, All-mono,
}
use gitlab_shell.Errors.{Error, ApiError, message, is_disallowed, as_api, is_system}

-- The gRPC codes that the package tells apart.
pub data Code : Type 0 where
  canceled unavailable internal : Code
  other_code : ℕ → Code

-- `connOutcome`
pub record Outcome : Type 0 where
  pub auth_attempted : Bool
  pub server_error : Bool

-- `observeAuth`: `none` is a success.
unfoldable pub observe_auth : Outcome → Option Error → Outcome
observe_auth o none = record { auth_attempted = true; server_error = false }
observe_auth o (some e) = record {
  auth_attempted = true;
  server_error = is_system e || o.server_error;
}

abbrev pub not_our_ref_error : Bytes
not_our_ref_error = codes "exit status 128, stderr: \"fatal: git upload-pack: not our ref "

abbrev pub broken_pipe_error : Bytes
broken_pipe_error = codes "signal: broken pipe"

abbrev pub copy_response_eof_error : Bytes
copy_response_eof_error = codes "copy response: EOF"

-- `isClientDisconnect`
unfoldable pub is_client_disconnect : Bytes → Code → Bool
is_client_disconnect msg internal =
    contains msg broken_pipe_error || contains msg copy_response_eof_error
is_client_disconnect msg code = contains msg copy_response_eof_error

-- `errors.As(err, &apiError) && !apiError.System`
unfoldable pub is_policy : Option ApiError → Bool
is_policy none = false
is_policy (some e) = not e.system

-- The tests of `trackError` on the gRPC code.
unfoldable pub is_benign_code : Bytes → Code → Bool
is_benign_code msg canceled = true
is_benign_code msg unavailable = true
is_benign_code msg internal = contains msg not_our_ref_error
is_benign_code msg (other_code n) = false

-- The counters `SshdHitMaxSessions`, `SliSshdSessionsTotal`, `SliSshdSessionsErrorsTotal`,
-- `SliSshdConnectionsTotal` and `SliSshdConnectionsErrorsTotal`.
pub record Counters : Type 0 where
  pub hit_max_sessions : ℕ
  pub sessions_total : ℕ
  pub sessions_errors : ℕ
  pub connections_total : ℕ
  pub connections_errors : ℕ

-- Where the loop of `handleRequests` stands: at the next channel, behind `TryAcquire`, or behind an
-- `Accept` that failed.
pub data Loop : Type 0 where
  waiting acquired refused : Loop

-- How many sessions have been accepted and not counted, are being handled, have an error that was
-- counted and not stored, and have yet to give back their unit of the semaphore.
pub record Sessions : Type 0 where
  pub starting : ℕ
  pub running : ℕ
  pub storing : ℕ
  pub releasing : ℕ

-- `connection`: the semaphore's size and what is held of it, the outcome, where the loop and the
-- goroutines of the sessions stand, and the counters.
pub record Connection : Type 0 where
  pub max_sessions : ℕ
  pub held : ℕ
  pub outcome : Outcome
  pub loop : Loop
  pub sessions : Sessions
  pub counters : Counters

-- What is answered to a channel that the client opens.
pub data Reply : Type 0 where
  unknown_channel_type resource_shortage accept_failed accepted : Reply

abbrev pub session_channel_type : Bytes
session_channel_type = codes "session"

-- `handleRequests`, for one channel of a type, up to `TryAcquire`: what is answered, if anything yet.
unfoldable pub handle_channel : Bytes → Connection → Connection × Option Reply
handle_channel channel_type c =
    if not (eqb channel_type session_channel_type)
    then (c, some unknown_channel_type)
    else if not (ltb c.held c.max_sessions)
    then (
      record c {
        counters = record (c.counters) { hit_max_sessions = c.counters.hit_max_sessions + 1 };
      },
      some resource_shortage,
    )
    else (record c { held = c.held + 1; loop = acquired }, none)

-- `Accept`, which succeeds or not; the goroutine of the session starts if it does.
unfoldable pub accept_channel : Bool → Connection → Connection × Reply
accept_channel true c = (
  record c {
    loop = waiting;
    sessions = record (c.sessions) { starting = c.sessions.starting + 1 };
  },
  accepted,
)
accept_channel false c = (record c { loop = refused }, accept_failed)

-- `Release` behind an `Accept` that failed.
unfoldable pub release_refused : Connection → Connection
release_refused c = record c { held = c.held - 1; loop = waiting }

-- The goroutine of a session counts it and calls the handler.
unfoldable pub count_session : Connection → Connection
count_session c = record c {
  sessions = record (c.sessions) {
    starting = c.sessions.starting - 1;
    running = c.sessions.running + 1;
  };
  counters = record (c.counters) { sessions_total = c.counters.sessions_total + 1 };
}

-- How the handler of a session ends.
pub data End : Type 0 where
  done : End
  returned : Error → End
  panicked : End

module _ (grpc_code : Error → Code) where
  -- Whether `trackError` counts an error: its early returns, in their order.
  unfoldable pub is_counted : Error → Bool
  is_counted e =
      if is_policy (as_api e)
      then false
      else if is_disallowed e
      then false
      else if is_benign_code (message e) (grpc_code e)
      then false
      else not (is_client_disconnect (message e) (grpc_code e))

  -- `trackError`, up to its counter.
  unfoldable pub track_error : Error → Connection → Connection
  track_error e c =
      if is_counted e
      then record c {
        sessions = record (c.sessions) {
          running = c.sessions.running - 1;
          storing = c.sessions.storing + 1;
        };
        counters = record (c.counters) { sessions_errors = c.counters.sessions_errors + 1 };
      }
      else record c {
        sessions = record (c.sessions) {
          running = c.sessions.running - 1;
          releasing = c.sessions.releasing + 1;
        };
      }

  -- The handler of a session ends; its error is tracked, and a panic is recovered from.
  unfoldable pub end_session : End → Connection → Connection
  unfolding track_error
  end_session (returned e) c = track_error e c
  end_session _ c = record c {
    sessions = record (c.sessions) {
      running = c.sessions.running - 1;
      releasing = c.sessions.releasing + 1;
    };
  }

-- The end of `trackError`, behind its counter.
unfoldable pub store_error : Connection → Connection
store_error c = record c {
  outcome = record (c.outcome) { server_error = true };
  sessions = record (c.sessions) {
    storing = c.sessions.storing - 1;
    releasing = c.sessions.releasing + 1;
  };
}

-- The deferred `Release` of a session.
unfoldable pub release_session : Connection → Connection
release_session c = record c {
  held = c.held - 1;
  sessions = record (c.sessions) { releasing = c.sessions.releasing - 1 };
}

-- `trackConnection`
unfoldable pub track_connection : Connection → Connection
track_connection c =
    if not c.outcome.auth_attempted
    then c
    else if c.outcome.server_error
    then record c {
      counters = record (c.counters) {
        connections_total = c.counters.connections_total + 1;
        connections_errors = c.counters.connections_errors + 1;
      };
    }
    else record c {
      counters = record (c.counters) { connections_total = c.counters.connections_total + 1 };
    }
