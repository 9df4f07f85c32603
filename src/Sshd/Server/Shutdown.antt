-- ===== src/Sshd/Server/Shutdown.antt =====
-- How the server of internal/sshd/sshd.go comes to an end.
use gitlab_shell.Prelude.{
  All, ℕ, ◌+◌, ◌-◌, ◌≤◌, ◌≡◌, refl, ◌∙◌, ◌≢◌, ◌⊎◌, List, [], ◌∷◌, ◌++◌, arith,
}
use gitlab_shell.Sshd.Server.{
  new_server, shutdown, listening, ready, run, run, accept_failed, run, run, on_shutdown, shut,
  accepting, draining, stopped, Server, Event, listens, serves, accepts, accept_fails, waits,
  shuts_down, connection_ends, step,
}

-- The server does not accept any more: `Shutdown` was called while it served.
pub record IsQuitting (s : Server) : Type 0 where
  pub closed_listener : s.listener ≡ shut
  pub phase :
      ((s.phase ≡ accepting) × (s.status ≡ on_shutdown))
      ⊎ (s.phase ≡ draining)
      ⊎ (s.phase ≡ stopped)

-- The loop of `serve` has been left.
abbrev pub HasLeft : Server → Type 0
HasLeft s = (s.phase ≡ draining) ⊎ (s.phase ≡ stopped)

-- How many connections end.
abbrev pub endings : List Event → ℕ
endings [] = 0
endings (connection_ends panicked ∷ es) = endings es + 1
endings (_ ∷ es) = endings es

step-IsQuitting :
    (e : Event) (s : Server)
    → IsQuitting s
    → IsQuitting (step e s)
      × (HasLeft s → HasLeft (step e s))
      × ((step e s).waiting ≡ s.waiting - endings (e ∷ []))
unfolding step
step-IsQuitting listens s q = ground (arith)
step-IsQuitting serves s q = ground (arith)
step-IsQuitting accepts s q = ground (arith)
step-IsQuitting accept_fails s q = ground (arith)
step-IsQuitting waits s q = ground (arith)
step-IsQuitting shuts_down s q = ground (arith)
step-IsQuitting (connection_ends panicked) s q = ground (arith)

run-IsQuitting :
    (es : List Event) (s : Server)
    → IsQuitting s
    → IsQuitting (run es s)
      × (HasLeft s → HasLeft (run es s))
      × ((run es s).waiting ≡ s.waiting - endings es)
unfolding run
run-IsQuitting [] s q = (q, (λ h. h), omega arith)
run-IsQuitting (e ∷ es) s q =
    let (q', left, count) = step-IsQuitting e s q in
    let (q'', later, rest) = run-IsQuitting es (step e s) q' in
    (q'', (λ h. later (left h)), rest ∙ rw count (split_count e es s.waiting))
  where
    split_count :
        (e : Event) (es : List Event) (n : ℕ)
        → n - endings (e ∷ []) - endings es ≡ n - endings (e ∷ es)
    split_count listens es n = omega arith
    split_count serves es n = omega arith
    split_count accepts es n = omega arith
    split_count accept_fails es n = omega arith
    split_count waits es n = omega arith
    split_count shuts_down es n = omega arith
    split_count (connection_ends panicked) es n = omega arith

run-append : (es ds : List Event) (s : Server) → run (es ++ ds) s ≡ run ds (run es s)
unfolding run
run-append [] ds s = refl
run-append (e ∷ es) ds s = run-append es ds (step e s)

accept_fails-HasLeft : (s : Server) → IsQuitting s → HasLeft (step accept_fails s)
unfolding step accept_failed
accept_fails-HasLeft s q = ground arith

waits-stopped : (s : Server) → HasLeft s → s.waiting ≡ 0 → (step waits s).phase ≡ stopped
unfolding step
waits-stopped s h n = ground arith

step-stopped : (e : Event) (s : Server) → s.phase ≡ stopped → (step e s).phase ≡ stopped
unfolding step
step-stopped e s h = ground arith

run-stopped : (es : List Event) (s : Server) → s.phase ≡ stopped → (run es s).phase ≡ stopped
unfolding run
run-stopped [] s h = h
run-stopped (e ∷ es) s h = run-stopped es (step e s) (step-stopped e s h)

shuts_down-IsQuitting :
    (s : Server)
    → s.phase ≡ accepting
    → s.listener ≡ listening
    → IsQuitting (step shuts_down s) × ((step shuts_down s).waiting ≡ s.waiting)
unfolding step shutdown
shuts_down-IsQuitting s h l = ground arith

-- Once `Shutdown` was called while the server serves, the server stops, however its events
-- interleave: a sequence is enough in which an accept fails, in which as many connections end as
-- were open, and in which `Wait` returns at some time behind both.
pub shutdown_stops :
    (s : Server) (es ds cs : List Event)
    → s.phase ≡ accepting
    → s.listener ≡ listening
    → s.waiting ≤ endings es + endings ds
    → (run (shuts_down ∷ (es ++ (accept_fails ∷ (ds ++ (waits ∷ cs))))) s).phase ≡ stopped
unfolding run
shutdown_stops s es ds cs h l enough =
    let s1 = step shuts_down s in
    let (q1, same_count) = shuts_down-IsQuitting s h l in
    let (q2, _, count2) = run-IsQuitting es s1 q1 in
    let s2 = run es s1 in
    let (q3, _, count3) = step-IsQuitting accept_fails s2 q2 in
    let s3 = step accept_fails s2 in
    let (q4, kept, count4) = run-IsQuitting ds s3 q3 in
    let left = kept (accept_fails-HasLeft s2 q2) in
    let all_ended : (run ds s3).waiting ≡ 0 =
      omega (arith, same_count, count2, count3, count4, enough) in
    rw (run-append es (accept_fails ∷ (ds ++ (waits ∷ cs))) s1, run-append ds (waits ∷ cs) s3)
      (run-stopped cs (step waits (run ds s3)) (waits-stopped (run ds s3) left all_ended))

-- A server that is called ready, though its listener is closed.
abbrev pub IsLost : Server → Type 0
IsLost s = (s.status ≡ ready) × (s.listener ≡ shut) × (s.phase ≡ accepting)

-- No further call of `Shutdown`.
abbrev pub NoShutdown : List Event → Type 0
NoShutdown es = All (λ e. e ≢ shuts_down) es

step-IsLost : (e : Event) (s : Server) → e ≢ shuts_down → IsLost s → IsLost (step e s)
unfolding step accept_failed
step-IsLost e s other h = ground arith

run-IsLost : (es : List Event) (s : Server) → NoShutdown es → IsLost s → IsLost (run es s)
unfolding run
run-IsLost [] s none_of h = h
run-IsLost (e ∷ es) s (other, none_of) h =
    run-IsLost es (step e s) none_of (step-IsLost e s other h)

-- A call of `Shutdown` between `listen` and `serve` is lost: whatever happens then, short of another
-- call, the server is called ready and goes on to accept from a listener that is closed.
pub shutdown-IsLost :
    (es : List Event) → NoShutdown es → IsLost (run (listens ∷ shuts_down ∷ serves ∷ es) new_server)
unfolding run step
shutdown-IsLost es h =
    run-IsLost es (step serves (step shuts_down (step listens new_server))) h (refl, refl, refl)
