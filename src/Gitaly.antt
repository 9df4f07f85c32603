-- ===== src/Gitaly.antt =====
-- internal/gitaly/gitaly.go and internal/handler/exec.go: the connections to Gitaly and the calls
-- over them. A connection is a number; dialling, protojson and the gRPC status of an error are
-- parameters. Tracing, interceptors and logging are left out.
pub mod Cache
pub mod Stable
use gitlab_shell.Prelude.{
  [], [], ltb, leb, ◌==◌, if◌then◌else◌, ==_iff, Bool-cases, Option-cases, and-eq-true_iff, length,
  take, drop, replicate, all, any, length-append, take-append-drop, length-take, length-drop,
  take-append, drop-append, take-append_all, drop-append_all, All, All-append, Bytes, codes, eqb,
  eqb_iff, eqb_refl, is_empty, has_prefix, trim_prefix, trim_suffix, trim_left, contains_byte,
  contains, before, split, last, mem, Lacks, Lacks-contains_byte, contains_byte-Lacks, ℕ, zero, suc,
  ◌+◌, ◌-◌, ◌*◌, ◌/◌, ◌%◌, ◌^◌, ◌≤◌, ◌<◌, ◌≡◌, refl, sym, ap, ◌∙◌, ◌≢◌, ◌↔◌, ◌⊎◌, inl, inr, Bool,
  true, false, not, ◌&&◌, ◌||◌, Option, none, some, List, ◌∷◌, ◌++◌, map, append_assoc, append-nil,
  arith, last-split, split-ne-nil, All-mono,
}
use gitlab_shell.Decimal.{itoa}
use gitlab_shell.Errors.{Result, ok, err, Error, plain, foreign}
use gitlab_shell.Sshd.Connection.{Code, unavailable}

-- `CacheKey`
pub record CacheKey : Type 0 where
  pub service_name : Bytes
  pub address : Bytes
  pub token : Bytes

-- `Command`; a retry policy is the text that it was read from.
pub record Command : Type 0 where
  pub key : CacheKey
  pub retry_policy : Option Bytes

-- `Client`: the cache, the number of dials so far, and the two counters of
-- `GitalyConnectionsTotal`.
pub record Client : Type 0 where
  pub connections : List (CacheKey × ℕ)
  pub dials : ℕ
  pub ok_total : ℕ
  pub fail_total : ℕ

unfoldable pub same_key : CacheKey → CacheKey → Bool
unfolding eqb
same_key a b = eqb a.service_name b.service_name && eqb a.address b.address && eqb a.token b.token

unfoldable pub find_connection : CacheKey → List (CacheKey × ℕ) → Option ℕ
unfolding same_key
find_connection key [] = none
find_connection key ((k, c) ∷ rest) =
    let later = find_connection key rest in if same_key k key then some c else later

-- The part of `GetConnection` under the read lock.
unfoldable pub look_up : Command → Client → Option ℕ
unfolding find_connection
look_up cmd cl = find_connection cmd.key cl.connections

module _ (dial : ℕ → Command → Result ℕ) where
  -- `newConnection`; `dial` may answer differently each time.
  unfoldable pub new_connection : Command → Client → Result ℕ × Client
  new_connection cmd cl =
      if is_empty cmd.key.address
      then (
        err (plain (codes "no gitaly_address given")),
        record cl { fail_total = cl.fail_total + 1 },
      )
      else elim (dial cl.dials cmd) [
        | err e ↦ (err e, record cl { dials = cl.dials + 1; fail_total = cl.fail_total + 1 })
        | ok c ↦ (ok c, record cl { dials = cl.dials + 1; ok_total = cl.ok_total + 1 })
      ]

  -- A new connection is put into the cache.
  unfoldable pub store : CacheKey → Result ℕ × Client → Result ℕ × Client
  store key (err e, cl) = (err e, cl)
  store key (ok c, cl) = (ok c, record cl { connections = (key, c) ∷ cl.connections })

  -- The part of `GetConnection` under the write lock, which looks again.
  unfoldable pub enter : Command → Client → Result ℕ × Client
  unfolding look_up new_connection store
  enter cmd cl = elim (look_up cmd cl) [
    | some c ↦ (ok c, cl)
    | none ↦ store cmd.key (new_connection cmd cl)
  ]

  -- `GetConnection`: `others` are the calls of other goroutines that come between its two locks.
  unfoldable pub get_connection : List Command → Command → Client → Result ℕ × Client
  unfolding enter
  get_connection others cmd cl = elim (look_up cmd cl) [
    | some c ↦ (ok c, cl)
    | none ↦ enter cmd (enter_all others cl)
  ]
    where
      enter_all : List Command → Client → Client
      enter_all [] cl = cl
      enter_all (o ∷ os) cl = enter_all os (enter o cl).1

-- `withOutgoingMetadata`
unfoldable pub outgoing_metadata : List (Bytes × Bytes) → List (Bytes × Bytes)
outgoing_metadata [] = []
outgoing_metadata ((k, v) ∷ features) =
    let rest = outgoing_metadata features in
    if not (has_prefix k (codes "gitaly-feature-")) then rest else (k, v) ∷ rest

-- What `PrepareContext` tells Gitaly of the caller.
pub record Caller : Type 0 where
  pub key_id : ℕ
  pub key_type : Bytes
  pub user_id : Bytes
  pub username : Bytes

-- The metadata of `PrepareContext`, behind those that the context has.
unfoldable pub prepare_context : List (Bytes × Bytes) → Caller → Bytes → List (Bytes × Bytes)
unfolding itoa
prepare_context md caller remote_addr =
    md
    ++ ((codes "key_id", itoa caller.key_id)
        ∷ (codes "key_type", caller.key_type)
        ∷ (codes "user_id", caller.user_id)
        ∷ (codes "username", caller.username)
        ∷ (codes "remote_ip", remote_addr)
        ∷ [])

-- `parseRetryConfig`
unfoldable pub parse_retry_config : (Bytes → Bool) → Bytes → Option Bytes
parse_retry_config is_policy raw =
    if is_empty raw then none else if is_policy raw then some raw else none

-- `NewGitalyCommand`
unfoldable pub new_gitaly_command : (Bytes → Bool) → Bytes → Bytes → Bytes → Bytes → Command
unfolding parse_retry_config
new_gitaly_command is_policy service_name address token raw = record {
  key = record { service_name = service_name; address = address; token = token };
  retry_policy = parse_retry_config is_policy raw;
}

-- The kind of a gRPC status of the code `Unavailable`.
abbrev pub unavailable_status : ℕ
unavailable_status = 8

-- `processGitalyError`, for whether the details of the status hold a `LimitError`.
unfoldable pub process_gitaly_error : (Error → Bool) → Error → Error
process_gitaly_error has_limit_error e =
    if has_limit_error e
    then foreign unavailable_status
        (codes "GitLab is currently unable to handle this request due to load.")
    else foreign unavailable_status (
        codes
          "The git server, Gitaly, is not available at this time. Please contact your administrator.")

-- The end of `RunGitalyCommand`, for the result of the handler.
unfoldable pub handler_result : (Error → Code) → (Error → Bool) → Option Error → Option Error
unfolding process_gitaly_error
handler_result code has_limit_error none = none
handler_result code has_limit_error (some e) = elim (code e) [
  | unavailable ↦ some (process_gitaly_error has_limit_error e)
  | _ ↦ some e
]

-- `RunGitalyCommand`: the result, and the client behind it.
unfoldable pub run_gitaly_command :
    (ℕ → Command → Result ℕ)
    → (Error → Code)
    → (Error → Bool)
    → (ℕ → List (Bytes × Bytes) → Option Error)
    → List (Bytes × Bytes)
    → Command
    → Client
    → Option Error × Client
unfolding get_connection handler_result outgoing_metadata
run_gitaly_command dial code has_limit_error handler features cmd cl =
    let (answer, cl') = get_connection dial [] cmd cl in
    elim answer [
      | err e ↦ (some e, cl')
      | ok conn ↦
          (handler_result code has_limit_error (handler conn (outgoing_metadata features)), cl')
    ]
