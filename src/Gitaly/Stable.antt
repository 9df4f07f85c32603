-- ===== src/Gitaly/Stable.antt =====
-- The cache of internal/gitaly/gitaly.go under calls of several goroutines.
use gitlab_shell.Prelude.{
  Bool-cases, Option-cases, codes, is_empty, ℕ, ◌≡◌, refl, sym, ap, ◌∙◌, ◌⊎◌, inl, inr, none, some,
  List, [], ◌∷◌,
}
use gitlab_shell.Errors.{Result, ok, err, Error, plain, Result-cases, ok-injective}
use gitlab_shell.Gitaly.{
  store, new_connection, CacheKey, Command, Client, same_key, find_connection, look_up, enter,
  get_connection,
}
use gitlab_shell.Gitaly.Cache.{same_key_iff}

module _ (dial : ℕ → Command → Result ℕ) where
  -- The calls of goroutines that have the write lock, in the order in which they get it.
  unfoldable pub enter_all : List Command → Client → Client
  enter_all [] cl = cl
  enter_all (cmd ∷ cmds) cl = enter_all cmds (enter dial cmd cl).1

  -- What a call does: it finds a connection, keeps a new one, or fails and leaves the cache.
  enter-cases :
      (cmd : Command) (cl : Client)
      → ((c : ℕ) × (find_connection cmd.key cl.connections ≡ some c)
          × (enter dial cmd cl ≡ (ok c, cl)))
        ⊎ ((c : ℕ) × (find_connection cmd.key cl.connections ≡ none)
            × ((enter dial cmd cl).0 ≡ ok c)
            × ((enter dial cmd cl).1.connections ≡ (cmd.key, c) ∷ cl.connections))
        ⊎ ((e : Error) × ((enter dial cmd cl).0 ≡ err e)
            × ((enter dial cmd cl).1.connections ≡ cl.connections))
  unfolding enter look_up new_connection store
  enter-cases cmd cl = elim (Option-cases (find_connection cmd.key cl.connections)) [
    | inr (c, hit) ↦ inl (c, hit, simp (hit, enter, look_up))
    | inl miss ↦ elim (Bool-cases (is_empty cmd.key.address)) [
      | inl empty ↦ inr (
          inr (
            plain (codes "no gitaly_address given"),
            simp (miss, empty, enter, look_up, new_connection, store),
            simp (miss, empty, enter, look_up, new_connection, store),
          ))
      | inr address ↦ elim (Result-cases (dial cl.dials cmd)) [
        | inl (e, bad) ↦ inr (
            inr (
              e,
              simp (miss, address, bad, enter, look_up, new_connection, store),
              simp (miss, address, bad, enter, look_up, new_connection, store),
            ))
        | inr (c, good) ↦ inr (
            inl (
              c,
              miss,
              simp (miss, address, good, enter, look_up, new_connection, store),
              simp (miss, address, good, enter, look_up, new_connection, store),
            ))
      ]
    ]
  ]

  find_connection-new :
      (k : CacheKey) (c : ℕ) (cs : List (CacheKey × ℕ)) → find_connection k ((k, c) ∷ cs) ≡ some c
  unfolding find_connection
  find_connection-new k c cs = rw ((same_key_iff k k).1 refl)

  enter-kept :
      (cmd : Command) (cl : Client) (k : CacheKey) (c : ℕ)
      → find_connection k cl.connections ≡ some c
      → find_connection k (enter dial cmd cl).1.connections ≡ some c
  unfolding find_connection
  enter-kept cmd cl k c h = elim (enter-cases cmd cl) [
    | inl (d, hit, same) ↦ rw same h
    | inr (inl (d, miss, _, same)) ↦ elim (Bool-cases (same_key cmd.key k)) [
      | inl this ↦ absurd (cc (rw ((same_key_iff cmd.key k).0 this) at miss, h))
      | inr other ↦ rw same (rw other h)
    ]
    | inr (inr (e, _, same)) ↦ rw same h
  ]

  enter_all-kept :
      (cmds : List Command) (cl : Client) (k : CacheKey) (c : ℕ)
      → find_connection k cl.connections ≡ some c
      → find_connection k (enter_all cmds cl).connections ≡ some c
  unfolding enter_all
  enter_all-kept [] cl k c h = h
  enter_all-kept (cmd ∷ cmds) cl k c h =
      enter_all-kept cmds (enter dial cmd cl).1 k c (enter-kept cmd cl k c h)

  enter-found :
      (cmd : Command) (cl : Client) (c : ℕ)
      → (enter dial cmd cl).0 ≡ ok c
      → find_connection cmd.key (enter dial cmd cl).1.connections ≡ some c
  enter-found cmd cl c h = elim (enter-cases cmd cl) [
    | inl (d, hit, same) ↦ rw same (hit ∙ ap some (ok-injective (sym (ap (λ r. r.0) same) ∙ h)))
    | inr (inl (d, miss, answer, same)) ↦
        rw same
          (find_connection-new cmd.key d cl.connections ∙ ap some (ok-injective (sym answer ∙ h)))
    | inr (inr (e, answer, _)) ↦ absurd (cc (sym answer ∙ h))
  ]

  -- Once a connection was returned for a key, it is returned for every later call for that key,
  -- whatever calls other goroutines make in between: a key has one connection for good.
  pub get_connection_stable :
      (cmd cmd' : Command) (cl : Client) (c : ℕ) (between others : List Command)
      → (enter dial cmd cl).0 ≡ ok c
      → cmd'.key ≡ cmd.key
      → (get_connection dial others cmd' (enter_all between (enter dial cmd cl).1)).0 ≡ ok c
  unfolding get_connection look_up
  get_connection_stable cmd cmd' cl c between others h key =
      let found = enter_all-kept between (enter dial cmd cl).1 cmd.key c (enter-found cmd cl c h) in
      let later = enter_all between (enter dial cmd cl).1 in
      let found' : look_up cmd' later ≡ some c =
        ap (λ k. find_connection k later.connections) key ∙ found in
      rw (found', get_connection)
