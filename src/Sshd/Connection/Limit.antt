-- ===== src/Sshd/Connection/Limit.antt =====
-- The session limit and the session counters of internal/sshd/connection.go, over every interleaving.
use gitlab_shell.Prelude.{ltb, Bytes, ℕ, ◌+◌, ◌≤◌, ◌<◌, ◌≡◌, Bool, true, false, ◌||◌, arith}
use gitlab_shell.Errors.{Error}
use gitlab_shell.Sshd.Connection.{
  Code, Outcome, Loop, waiting, acquired, refused, Connection, handle_channel, accept_channel,
  release_refused, count_session, store_error, release_session, End, done, returned, panicked,
  end_session,
}

-- The units of the semaphore that the loop holds.
unfoldable pub units : Loop → ℕ
units waiting = 0
units acquired = 1
units refused = 1

module _ (grpc_code : Error → Code) where
  -- What can happen to a connection while it is served: the loop opens a channel, accepts it, or gives
  -- back the unit of one that it could not accept; and one of the sessions is counted, ends, stores
  -- its error or gives back its unit.
  pub data Step : Connection → Connection → Type 0 where
    opens :
        (channel_type : Bytes) (c : Connection)
        → c.loop ≡ waiting
        → Step c (handle_channel channel_type c).0
    accepts : (good : Bool) (c : Connection) → c.loop ≡ acquired → Step c (accept_channel good c).0
    gives_back : (c : Connection) → c.loop ≡ refused → Step c (release_refused c)
    starts : (c : Connection) → 0 < c.sessions.starting → Step c (count_session c)
    ends : (e : End) (c : Connection) → 0 < c.sessions.running → Step c (end_session grpc_code e c)
    stores : (c : Connection) → 0 < c.sessions.storing → Step c (store_error c)
    releases : (c : Connection) → 0 < c.sessions.releasing → Step c (release_session c)

  pub data Reach (c : Connection) : Connection → Type 0 where
    here : Reach c c
    next : {d d' : Connection} → Reach c d → Step d d' → Reach c d'

  -- The semaphore is never held beyond its size, and each unit is held by the loop or by a session;
  -- the sessions that run and those with an error that was counted were counted themselves; and the
  -- connection is marked exactly when it was marked at first or an error was counted and stored.
  pub record IsValid (first : Outcome) (c : Connection) : Type 0 where
    pub limit : c.held ≤ c.max_sessions
    pub held :
        c.held
        ≡ units c.loop
          + c.sessions.starting
          + c.sessions.running
          + c.sessions.storing
          + c.sessions.releasing
    pub total : c.counters.sessions_errors + c.sessions.running ≤ c.counters.sessions_total
    pub stored : c.sessions.storing ≤ c.counters.sessions_errors
    pub marked :
        c.outcome.server_error
        ≡ (first.server_error || ltb c.sessions.storing c.counters.sessions_errors)
    pub attempted : c.outcome.auth_attempted ≡ first.auth_attempted
    pub quiet : (c.counters.connections_total ≡ 0) × (c.counters.connections_errors ≡ 0)

  handle_channel-IsValid :
      (first : Outcome) (channel_type : Bytes) (c : Connection)
      → c.loop ≡ waiting
      → IsValid first c
      → IsValid first (handle_channel channel_type c).0
  unfolding handle_channel units
  handle_channel-IsValid first channel_type c at v = let held = rw at at v.held in ground arith

  accept_channel-IsValid :
      (first : Outcome) (good : Bool) (c : Connection)
      → c.loop ≡ acquired
      → IsValid first c
      → IsValid first (accept_channel good c).0
  unfolding accept_channel units
  accept_channel-IsValid first true c at v = let held = rw at at v.held in ground arith
  accept_channel-IsValid first false c at v = let held = rw at at v.held in ground arith

  release_refused-IsValid :
      (first : Outcome) (c : Connection)
      → c.loop ≡ refused
      → IsValid first c
      → IsValid first (release_refused c)
  unfolding release_refused units
  release_refused-IsValid first c at v = let held = rw at at v.held in ground arith

  count_session-IsValid :
      (first : Outcome) (c : Connection)
      → 0 < c.sessions.starting
      → IsValid first c
      → IsValid first (count_session c)
  unfolding count_session
  count_session-IsValid first c h v = ground arith

  end_session-IsValid :
      (first : Outcome) (e : End) (c : Connection)
      → 0 < c.sessions.running
      → IsValid first c
      → IsValid first (end_session grpc_code e c)
  unfolding end_session
  end_session-IsValid first done c h v = ground arith
  end_session-IsValid first panicked c h v = ground arith
  end_session-IsValid first (returned e) c h v = ground arith

  store_error-IsValid :
      (first : Outcome) (c : Connection)
      → 0 < c.sessions.storing
      → IsValid first c
      → IsValid first (store_error c)
  unfolding store_error
  store_error-IsValid first c h v = ground arith

  release_session-IsValid :
      (first : Outcome) (c : Connection)
      → 0 < c.sessions.releasing
      → IsValid first c
      → IsValid first (release_session c)
  unfolding release_session
  release_session-IsValid first c h v = ground arith

  Step-IsValid : {c d : Connection} (first : Outcome) → Step c d → IsValid first c → IsValid first d
  Step-IsValid first (opens channel_type c h) v = handle_channel-IsValid first channel_type c h v
  Step-IsValid first (accepts good c h) v = accept_channel-IsValid first good c h v
  Step-IsValid first (gives_back c h) v = release_refused-IsValid first c h v
  Step-IsValid first (starts c h) v = count_session-IsValid first c h v
  Step-IsValid first (ends e c h) v = end_session-IsValid first e c h v
  Step-IsValid first (stores c h) v = store_error-IsValid first c h v
  Step-IsValid first (releases c h) v = release_session-IsValid first c h v

  -- However the loop and the sessions of a connection interleave, the semaphore is never held beyond
  -- its size, and its units are those that the loop and the sessions hold; a session that is handled
  -- and an error that is counted belong to sessions that were counted; and the connection is marked
  -- with a server error exactly when it was marked at first, or a counted error has been stored.
  -- The connection that it starts from has to be so too.
  pub Reach-IsValid :
      {c d : Connection} (first : Outcome) → Reach c d → IsValid first c → IsValid first d
  Reach-IsValid first here v = v
  Reach-IsValid first (next r s) v = Step-IsValid first s (Reach-IsValid first r v)
