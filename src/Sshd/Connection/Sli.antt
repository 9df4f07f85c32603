-- ===== src/Sshd/Connection/Sli.antt =====
-- The counters of connections of internal/sshd/connection.go.
use gitlab_shell.Prelude.{
  ltb, if◌then◌else◌, Bool-cases, All, is_empty, ℕ, ◌≤◌, ◌<◌, ◌≡◌, refl, ◌∙◌, ◌≢◌, ◌↔◌, ◌⊎◌, inl,
  inr, Bool, true, false, not, ◌&&◌, ◌||◌, Option, none, some, List, [], ◌∷◌, ◌++◌, arith,
}
use gitlab_shell.Errors.{Error, is_system}
use gitlab_shell.Sshd.Connection.{
  Code, Outcome, observe_auth, waiting, Connection, track_connection,
}
use gitlab_shell.Sshd.Connection.Limit.{units, Reach, IsValid, Reach-IsValid}

-- The authentication attempts of a connection, in their order.
abbrev pub observe_all : Outcome → List (Option Error) → Outcome
observe_all o [] = o
observe_all o (r ∷ rs) = observe_all (observe_auth o r) rs

-- No attempt succeeded.
abbrev pub AllFailed : List (Option Error) → Type 0
AllFailed = All (λ r. r ≢ none)

-- A system failure with no success behind it.
abbrev pub HasPendingFailure : List (Option Error) → Type 0
HasPendingFailure rs =
    (before after : List (Option Error)) × (e : Error) × (rs ≡ before ++ some e ∷ after)
    × (is_system e ≡ true)
    × AllFailed after

pending-later :
    (r : Option Error) (rs : List (Option Error))
    → HasPendingFailure rs
    → HasPendingFailure (r ∷ rs)
pending-later r rs (front, after, e, same, system, rest) =
    (r ∷ front, after, e, rw same, system, rest)

pending_of_error :
    (o : Outcome) (rs : List (Option Error))
    → (observe_all o rs).server_error ≡ true
    → HasPendingFailure rs ⊎ ((o.server_error ≡ true) × AllFailed rs)
unfolding observe_auth
pending_of_error o [] h = inr (h, tt)
pending_of_error o (none ∷ rs) h = elim (pending_of_error (observe_auth o none) rs h) [
  | inl pending ↦ inl (pending-later none rs pending)
  | inr (never, _) ↦ absurd (cc never)
]
pending_of_error o (some e ∷ rs) h = elim (pending_of_error (observe_auth o (some e)) rs h) [
  | inl pending ↦ inl (pending-later (some e) rs pending)
  | inr (now, rest) ↦ elim (Bool-cases (is_system e)) [
    | inl system ↦ inl ([], rs, e, refl, system, rest)
    | inr policy ↦ inr (ground arith, (cc, rest))
  ]
]

error_of_failed :
    (o : Outcome) (rs : List (Option Error))
    → o.server_error ≡ true
    → AllFailed rs
    → (observe_all o rs).server_error ≡ true
unfolding observe_auth
error_of_failed o [] h f = h
error_of_failed o (none ∷ rs) h (f, fs) = absurd (f refl)
error_of_failed o (some e ∷ rs) h (f, fs) =
    error_of_failed (observe_auth o (some e)) rs (ground arith) fs

error_of_pending :
    (o : Outcome) (before after : List (Option Error)) (e : Error)
    → is_system e ≡ true
    → AllFailed after
    → (observe_all o (before ++ some e ∷ after)).server_error ≡ true
unfolding observe_auth
error_of_pending o [] after e system rest =
    error_of_failed (observe_auth o (some e)) after (rw system refl) rest
error_of_pending o (r ∷ front) after e system rest =
    error_of_pending (observe_auth o r) front after e system rest

abbrev pub no_outcome : Outcome
no_outcome = record { auth_attempted = false; server_error = false }

-- The attempts of a connection leave it marked with a server error exactly when one of them was a
-- system failure and none of the later ones succeeded.
pub observe_all-server_error_iff :
    (rs : List (Option Error))
    → ((observe_all no_outcome rs).server_error ≡ true) ↔ HasPendingFailure rs
observe_all-server_error_iff rs = (
  (λ h. elim (pending_of_error no_outcome rs h) [
    | inl pending ↦ pending
    | inr (never, _) ↦ absurd (cc never)
  ]),
  (λ (front, after, e, same, system, rest).
      rw same (error_of_pending no_outcome front after e system rest)),
)

observe_all-attempted :
    (o : Outcome) (rs : List (Option Error))
    → (observe_all o rs).auth_attempted ≡ (o.auth_attempted || not (is_empty rs))
unfolding observe_auth
observe_all-attempted o [] = ground arith
observe_all-attempted o (none ∷ rs) =
    let h = observe_all-attempted (observe_auth o none) rs in ground arith
observe_all-attempted o (some e ∷ rs) =
    let h = observe_all-attempted (observe_auth o (some e)) rs in ground arith

-- A connection with no sessions yet, after its authentication attempts.
abbrev pub authenticated : ℕ → List (Option Error) → Connection
authenticated max rs = record {
  max_sessions = max;
  held = 0;
  outcome = observe_all no_outcome rs;
  loop = waiting;
  sessions = record { starting = 0; running = 0; storing = 0; releasing = 0 };
  counters = record {
    hit_max_sessions = 0;
    sessions_total = 0;
    sessions_errors = 0;
    connections_total = 0;
    connections_errors = 0;
  };
}

or-false : (b : Bool) → b ≡ (b || false)
or-false b = ground arith

pub authenticated-IsValid :
    (grpc_code : Error → Code) (max : ℕ) (rs : List (Option Error))
    → IsValid grpc_code (observe_all no_outcome rs) (authenticated max rs)
unfolding units
authenticated-IsValid grpc_code max rs = record {
  limit = omega arith;
  held = refl;
  total = omega arith;
  stored = omega arith;
  marked = or-false (observe_all no_outcome rs).server_error;
  attempted = refl;
  quiet = (refl, refl);
}

track_connection_lem :
    (d : Connection) (attempted marked : Bool)
    → d.outcome.auth_attempted ≡ attempted
    → d.outcome.server_error ≡ marked
    → d.counters.connections_total ≡ 0
    → d.counters.connections_errors ≡ 0
    → ((track_connection d).counters.connections_total ≡ (if attempted then 1 else 0))
      × ((track_connection d).counters.connections_errors ≡ (if attempted && marked then 1 else 0))
unfolding track_connection
track_connection_lem d attempted marked a m t e = ground arith

-- When a connection is at fault: a system failure of its authentication was not followed by a
-- success, or one of the errors counted for its sessions has been stored.
abbrev pub IsFaulty : List (Option Error) → Connection → Type 0
IsFaulty rs d = HasPendingFailure rs ⊎ (d.sessions.storing < d.counters.sessions_errors)

flag_iff : (b : Bool) → (let n : ℕ = if b then 1 else 0 in n ≡ 1) ↔ (b ≡ true)
flag_iff b = ground arith

IsFaulty-iff :
    (rs : List (Option Error)) (d : Connection)
    → ((not (is_empty rs)
          && ((observe_all no_outcome rs).server_error
              || ltb d.sessions.storing d.counters.sessions_errors))
        ≡ true)
      ↔ ((is_empty rs ≡ false) × IsFaulty rs d)
IsFaulty-iff rs d =
    let pending = observe_all-server_error_iff rs in ground (arith, pending.0, pending.1)

-- A connection is counted once if it came to an authentication attempt, and not otherwise. It is
-- counted as an error, at most once, exactly when it came to an attempt and either a system failure
-- of its authentication was not followed by a success, or an error of one of its sessions has been
-- counted and stored. The errors that are counted and not yet stored are never more than the units of
-- the semaphore that are held, and so none once all units are released. This holds for every interleaving
-- of the loop and the sessions, at whatever point the connection is counted.
pub track_connection_sli :
    (grpc_code : Error → Code) (max : ℕ) (rs : List (Option Error)) (d : Connection)
    → Reach grpc_code (authenticated max rs) d
    → let n = (track_connection d).counters in
      (n.connections_total ≡ (if is_empty rs then 0 else 1))
      × (n.connections_errors ≤ 1)
      × ((n.connections_errors ≡ 1) ↔ ((is_empty rs ≡ false) × IsFaulty rs d))
      × (d.sessions.storing ≤ d.held)
      × (d.held ≤ d.max_sessions)
track_connection_sli grpc_code max rs d reach =
    let v =
      Reach-IsValid grpc_code (observe_all no_outcome rs) reach
        (authenticated-IsValid grpc_code max rs) in
    let attempted = v.attempted ∙ observe_all-attempted no_outcome rs in
    let (total, errors) = track_connection_lem d _ _ attempted v.marked v.quiet.0 v.quiet.1 in
    let faulty = IsFaulty-iff rs d in let held = v.held in let limit = v.limit in ground arith
