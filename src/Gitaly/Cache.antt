-- ===== src/Gitaly/Cache.antt =====
-- The cache of internal/gitaly/gitaly.go against its specification: a function from keys to
-- connections.
use gitlab_shell.Prelude.{
  if◌then◌else◌, Bool-cases, Option-cases, and-eq-true_iff, codes, eqb, eqb_iff, eqb_refl, is_empty,
  ℕ, ◌+◌, ◌≡◌, refl, ◌∙◌, ◌↔◌, inl, inr, true, ◌&&◌, Option, none, some, List, [], ◌∷◌,
}
use gitlab_shell.Errors.{Result, ok, err, Error, plain, Result-cases}
use gitlab_shell.Gitaly.{
  CacheKey, Command, Client, same_key, find_connection, look_up, new_connection, store, enter,
  get_connection,
}

pub same_key_iff : (a b : CacheKey) → (same_key a b ≡ true) ↔ (a ≡ b)
unfolding same_key
same_key_iff a b =
    let names = eqb_iff a.service_name b.service_name in
    let addresses = eqb_iff a.address b.address in
    let tokens = eqb_iff a.token b.token in
    (
      (λ h.
          let (name, rest) =
            (and-eq-true_iff (eqb a.service_name b.service_name && eqb a.address b.address)
                (eqb a.token b.token)).0
              h in
          let (n, d) =
            (and-eq-true_iff (eqb a.service_name b.service_name) (eqb a.address b.address)).0
              name in
          rw (names.0 n, addresses.0 d, tokens.0 rest) refl),
      (λ e. rw (← e, eqb_refl a.service_name, eqb_refl a.address, eqb_refl a.token)),
    )

-- The specification: a map of connections, with the counts of the client.
pub record Spec : Type 0 where
  pub connection : CacheKey → Option ℕ
  pub dials : ℕ
  pub ok_total : ℕ
  pub fail_total : ℕ

-- A map with one more entry.
abbrev pub update : CacheKey → ℕ → (CacheKey → Option ℕ) → CacheKey → Option ℕ
update key c f k = if same_key key k then some c else f k

abbrev pub Refines : Client → Spec → Type 0
Refines cl m =
    ((k : CacheKey) → find_connection k cl.connections ≡ m.connection k)
    × (cl.dials ≡ m.dials)
    × (cl.ok_total ≡ m.ok_total)
    × (cl.fail_total ≡ m.fail_total)

module _ (dial : ℕ → Command → Result ℕ) where
  -- One call: the connection of the key, or a new one, which is kept if there is one.
  unfoldable pub spec_call : Command → Spec → Result ℕ × Spec
  spec_call cmd m = elim (m.connection cmd.key) [
    | some c ↦ (ok c, m)
    | none ↦
        if is_empty cmd.key.address
        then (
          err (plain (codes "no gitaly_address given")),
          record m { fail_total = m.fail_total + 1 },
        )
        else elim (dial m.dials cmd) [
          | err e ↦ (err e, record m { dials = m.dials + 1; fail_total = m.fail_total + 1 })
          | ok c ↦ (
            ok c,
            record m {
              connection = update cmd.key c m.connection;
              dials = m.dials + 1;
              ok_total = m.ok_total + 1;
            },
          )
        ]
  ]

  -- The answers to calls that come one behind the other.
  unfoldable pub run : List Command → Client → List (Result ℕ) × Client
  run [] cl = ([], cl)
  run (cmd ∷ cmds) cl =
      let (answer, cl') = get_connection dial [] cmd cl in
      let later = run cmds cl' in (answer ∷ later.0, later.1)

  unfoldable pub spec_run : List Command → Spec → List (Result ℕ) × Spec
  spec_run [] m = ([], m)
  spec_run (cmd ∷ cmds) m =
      let (answer, m') = spec_call cmd m in
      let later = spec_run cmds m' in (answer ∷ later.0, later.1)

  -- With no call between its locks, a call of the client is the part under the write lock.
  get_connection-alone :
      (cmd : Command) (cl : Client) → get_connection dial [] cmd cl ≡ enter dial cmd cl
  unfolding get_connection enter
  get_connection-alone cmd cl = elim (Option-cases (look_up cmd cl)) [
    | inl miss ↦ rw (miss, get_connection) (rw (miss, enter))
    | inr (c, hit) ↦ rw (hit, get_connection) (rw (hit, enter))
  ]

  enter-Refines :
      (cmd : Command) (cl : Client) (m : Spec)
      → Refines cl m
      → ((enter dial cmd cl).0 ≡ (spec_call cmd m).0)
        × Refines (enter dial cmd cl).1 (spec_call cmd m).1
  unfolding enter look_up new_connection store spec_call find_connection
  enter-Refines cmd cl m (same, dials, oks, fails) = elim (Option-cases (m.connection cmd.key)) [
    | inr (c, hit) ↦
        let found : find_connection cmd.key cl.connections ≡ some c = same cmd.key ∙ hit in
        let left : enter dial cmd cl ≡ (ok c, cl) = simp (found, enter, look_up) in
        let right : spec_call cmd m ≡ (ok c, m) = simp (hit, spec_call) in
        rw (left, right) (refl, (same, dials, oks, fails))
    | inl miss ↦
        let missing : find_connection cmd.key cl.connections ≡ none = same cmd.key ∙ miss in
        elim (Bool-cases (is_empty cmd.key.address)) [
          | inl empty ↦
              let e : Error = plain (codes "no gitaly_address given") in
              let left : enter dial cmd cl ≡ (err e, record cl { fail_total = cl.fail_total + 1 }) =
                simp (missing, empty, enter, look_up, new_connection, store) in
              let right : spec_call cmd m ≡ (err e, record m { fail_total = m.fail_total + 1 }) =
                simp (miss, empty, spec_call) in
              rw (left, right) (refl, (same, dials, oks, rw fails refl))
          | inr address ↦ elim (Result-cases (dial m.dials cmd)) [
            | inl (e, bad) ↦
                let bad' : dial cl.dials cmd ≡ err e = rw dials bad in
                let left : enter dial cmd cl
                    ≡ (err e, record cl { dials = cl.dials + 1; fail_total = cl.fail_total + 1 }) =
                  simp (missing, address, bad', enter, look_up, new_connection, store) in
                let right : spec_call cmd m
                    ≡ (err e, record m { dials = m.dials + 1; fail_total = m.fail_total + 1 }) =
                  simp (miss, address, bad, spec_call) in
                rw (left, right) (refl, (same, rw dials refl, oks, rw fails refl))
            | inr (c, good) ↦
                let good' : dial cl.dials cmd ≡ ok c = rw dials good in
                let left : enter dial cmd cl ≡ (
                  ok c,
                  record cl {
                    connections = (cmd.key, c) ∷ cl.connections;
                    dials = cl.dials + 1;
                    ok_total = cl.ok_total + 1;
                  },
                ) =
                  simp (missing, address, good', enter, look_up, new_connection, store) in
                let right : spec_call cmd m ≡ (
                  ok c,
                  record m {
                    connection = update cmd.key c m.connection;
                    dials = m.dials + 1;
                    ok_total = m.ok_total + 1;
                  },
                ) =
                  simp (miss, address, good, spec_call) in
                rw (left, right)
                  (refl, ((λ k. rw (same k) refl), rw dials refl, rw oks refl, fails))
          ]
        ]
  ]

  -- The client's calls answer as a map of connections does: a call for a key that has a connection
  -- returns it, and another dials, once, and keeps the connection that it gets. The counts of dials,
  -- successes and failures are the same.
  pub run-Refines :
      (cmds : List Command) (cl : Client) (m : Spec)
      → Refines cl m
      → ((run cmds cl).0 ≡ (spec_run cmds m).0) × Refines (run cmds cl).1 (spec_run cmds m).1
  unfolding run spec_run
  run-Refines [] cl m h = (refl, h)
  run-Refines (cmd ∷ cmds) cl m h =
      let (answer, next) = enter-Refines cmd cl m h in
      let alone = get_connection-alone cmd cl in
      let (answers, last_state) = run-Refines cmds (enter dial cmd cl).1 (spec_call cmd m).1 next in
      rw alone ((rw (answer, answers) refl), last_state)
