-- ===== src/Topology/Client/Lifetime.antt =====
-- The life of the connection to the Topology Service. The mutex makes `getClient` and `Close` atomic;
-- a call on the connection runs outside of it, so other callers come between.
use gitlab_shell.Prelude.{
  if◌then◌else◌, Option-cases, length, codes, ℕ, ◌+◌, ◌≡◌, refl, sym, ap, ◌∙◌, inl, inr, Bool, true,
  false, not, Option, none, some, List, [], ◌∷◌, arith,
}
use gitlab_shell.Errors.{wrapped, Result, ok, err, Result-cases}
use gitlab_shell.Topology.Client.{
  ok, Claim, Config, Config, Result, Client, World, fresh, new_client, build_tls_credentials, dial,
  keep, count_connection, get_client, count_request, close, classify, ask, without, service_name,
}

-- The steps of concurrent callers: one of them has the client, a call of one of them has returned,
-- with success or not, and one of them closes.
pub data Step : Type 0 where
  gets closes : Step
  returns_with : Bool → Step

chosen : (b : Bool) (x c : Client) → (if not b then none else some x) ≡ some c → x ≡ c
chosen true x c h = cc h
chosen false x c h = absurd (cc h)

module _ (w : World) where
  unfoldable pub step : Step → Client → Client
  unfolding get_client count_request close
  step gets c = (get_client w c).1
  step closes c = (close w c).1
  step (returns_with success) c = count_request w success c

  unfoldable pub run : List Step → Client → Client
  unfolding step
  run [] c = c
  run (s ∷ ss) c = run ss (step s c)

  -- The connections that a client may have.
  abbrev pub held : Option ℕ → List ℕ
  held none = []
  held (some conn) = conn ∷ []

  -- The client is that of the connection, which is the only one that is open; the connections that
  -- were made are those that were closed and this one; each success was timed.
  pub record Inv (c : Client) : Type 0 where
    pub same : c.client ≡ c.conn
    pub only : c.live ≡ held c.conn
    pub made : c.connections_ok ≡ c.closed + length c.live
    pub timed : c.durations ≡ c.requests_ok

  empty-live : (c : Client) → Inv c → c.client ≡ none → (c.conn ≡ none) × (c.live ≡ [])
  empty-live c v h = let e : c.conn ≡ none = sym v.same ∙ h in (e, v.only ∙ ap held e)

  -- A connection that was made, or not, for a client without one.
  keep-Inv :
      (made : Result ℕ) (c : Client)
      → Inv c
      → c.client ≡ none
      → Inv (keep w (made, count_connection w made c)).1
  unfolding keep count_connection
  keep-Inv (err e) c v h = record { same = v.same; only = v.only; made = v.made; timed = v.timed }
  keep-Inv (ok conn) c v h =
      let (_, nothing) = empty-live c v h in
      let before : c.connections_ok ≡ c.closed + 0 = rw nothing at v.made in
      record {
        same = refl;
        only = ap (λ l. conn ∷ l) nothing;
        made = rw nothing (omega (arith, before));
        timed = v.timed;
      }

  get_client-Inv : (c : Client) → Inv c → Inv (get_client w c).1
  unfolding get_client dial
  get_client-Inv c v = elim (Option-cases c.client) [
    | inr (conn, hit) ↦ rw (hit, get_client) v
    | inl miss ↦
        let start : get_client w c ≡ keep w (dial w c) = simp (miss, get_client) in
        elim (Result-cases (build_tls_credentials w c.config.tls)) [
          | inl (e, bad) ↦ rw start (
              rw (bad, dial)
                (keep-Inv (err (wrapped (codes "failed to build TLS credentials") e)) c v miss))
          | inr (creds, good) ↦ rw start (
              rw (good, dial)
                (keep-Inv (w.new_grpc_client c.dials c.config.address (service_name w) creds)
                  (record c { dials = c.dials + 1 })
                  (record { same = v.same; only = v.only; made = v.made; timed = v.timed }) miss))
        ]
  ]

  without_self : (conn : ℕ) → without w conn (conn ∷ []) ≡ []
  unfolding without
  without_self conn = ground arith

  close-Inv : (c : Client) → Inv c → Inv (close w c).1
  unfolding close
  close-Inv c v = elim (Option-cases c.conn) [
    | inl nothing ↦ rw (nothing, close) v
    | inr (conn, some_) ↦
        let alive : c.live ≡ conn ∷ [] = v.only ∙ ap held some_ in
        let before : c.connections_ok ≡ c.closed + 1 = rw alive at v.made in
        let gone : without w conn c.live ≡ [] = rw alive (without_self conn) in
        rw (some_, close)
          (record {
            same = refl;
            only = gone;
            made = rw gone (omega (arith, before));
            timed = v.timed;
          })
  ]

  count_request-Inv : (b : Bool) (c : Client) → Inv c → Inv (count_request w b c)
  unfolding count_request
  count_request-Inv true c v = record {
    same = v.same;
    only = v.only;
    made = v.made;
    timed = ap (λ n. n + 1) v.timed;
  }
  count_request-Inv false c v = record {
    same = v.same;
    only = v.only;
    made = v.made;
    timed = v.timed;
  }

  step-Inv : (s : Step) (c : Client) → Inv c → Inv (step s c)
  unfolding step
  step-Inv gets c v = get_client-Inv c v
  step-Inv closes c v = close-Inv c v
  step-Inv (returns_with b) c v = count_request-Inv b c v

  run-Inv : (ss : List Step) (c : Client) → Inv c → Inv (run ss c)
  unfolding run
  run-Inv [] c v = v
  run-Inv (s ∷ ss) c v = run-Inv ss (step s c) (step-Inv s c v)

  new_client-Inv : (cfg : Config) (c : Client) → new_client cfg ≡ some c → Inv c
  unfolding new_client
  new_client-Inv cfg c h =
      rw (← chosen cfg.enabled (fresh cfg) c h)
        (record { same = refl; only = refl; made = refl; timed = refl })

  -- However the callers interleave, a client that was made for a configuration has at most one
  -- connection open, the one that it gives out; every other that was made was closed; and each
  -- success was timed.
  pub run-new_client-Inv :
      (cfg : Config) (c : Client) (ss : List Step) → new_client cfg ≡ some c → Inv (run ss c)
  run-new_client-Inv cfg c ss h = run-Inv ss c (new_client-Inv cfg c h)

  -- While a client has a connection, each call is made on that connection, with no other one made.
  pub classify_known :
      (claim : Claim) (c : Client) (conn : ℕ)
      → Inv c
      → c.conn ≡ some conn
      → ((classify w (some claim) (some c)).0 ≡ w.classify_on conn c.config.timeout claim)
        × ((get_client w c).1 ≡ c)
  unfolding classify get_client ask
  classify_known claim c conn v h =
      let known : c.client ≡ some conn = v.same ∙ h in
      let same : get_client w c ≡ (ok conn, c) = simp (known, get_client) in rw same (refl, refl)

  -- Behind `Close`, whatever it returns, there is no connection; closing again does nothing and
  -- succeeds.
  pub close-close :
      (c : Client) → ((close w c).1.conn ≡ none) × (close w (close w c).1 ≡ (none, (close w c).1))
  unfolding close
  close-close c = elim (Option-cases c.conn) [
    | inl nothing ↦
        let same : close w c ≡ (none, c) = simp (nothing, close) in rw same (nothing, same)
    | inr (conn, some_) ↦
        let same : close w c ≡ (
          w.close_connection conn,
          record c {
            conn = none;
            client = none;
            live = without w conn c.live;
            closed = c.closed + 1;
          },
        ) =
          simp (some_, close) in
        rw same (refl, refl)
  ]
