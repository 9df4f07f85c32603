-- ===== src/Lookup/Routes.antt =====
-- Where the lookups of keys and certificates go.
use gitlab_shell.Prelude.{
  Bool-cases, length, All, Bytes, is_empty, ◌≤◌, ◌≡◌, refl, ◌⊎◌, inl, inr, true, false, Option, [],
  ◌∷◌, arith,
}
use gitlab_shell.Errors.{Error, Result, ok, err, Result-cases, wrap}
use gitlab_shell.Topology.Routing.{IsPlaced, resolve_by_ssh_fingerprint-IsPlaced}
use gitlab_shell.Lookup.{
  World, compute_fingerprint, routing_fingerprint, ask, get_by_key, get_cert_by_key,
}

empty_key : (key : Bytes) → is_empty key ≡ true → key ≡ []
empty_key [] h = refl
empty_key (x ∷ key) h = absurd (cc h)

module _ (w : World) where
  -- The fingerprint that a key is looked up by: none if the key is empty or is not base64, and the
  -- SHA-256 of the bytes that it decodes to, in base64, if it is.
  abbrev pub IsFingerprint : Bytes → Bytes → Type 0
  IsFingerprint key fingerprint =
      ((key ≡ []) × (fingerprint ≡ []))
      ⊎ ((e : Error) × (w.decode_base64 key ≡ err e) × (fingerprint ≡ []))
      ⊎ ((is_empty key ≡ false)
          × (key_bytes : Bytes) × (w.decode_base64 key ≡ ok key_bytes)
          × (fingerprint ≡ w.encode_base64 (w.sha256 key_bytes)))

  ask-IsPlaced :
      {A : Type 0} (fingerprint : Bytes) (decode : Bytes → Option A) (path : Result Bytes)
      → All (λ q. IsPlaced w.topology w.resolver fingerprint q.0) (ask w fingerprint decode path).0
        × (length (ask w fingerprint decode path).0 ≤ 1)
  unfolding ask
  ask-IsPlaced fingerprint decode (err e) = (tt, omega arith)
  ask-IsPlaced fingerprint decode (ok path) =
      ((resolve_by_ssh_fingerprint-IsPlaced w.topology w.resolver fingerprint, tt), omega arith)

  routing_fingerprint-IsFingerprint : (key : Bytes) → IsFingerprint key (routing_fingerprint w key)
  unfolding routing_fingerprint compute_fingerprint
  routing_fingerprint-IsFingerprint key = elim (Bool-cases (is_empty key)) [
    | inl empty ↦
        let same : routing_fingerprint w key ≡ [] =
          simp (empty, compute_fingerprint, routing_fingerprint) in
        inl (empty_key key empty, same)
    | inr given ↦ elim (Result-cases (w.decode_base64 key)) [
      | inl (e, bad) ↦
          let same : routing_fingerprint w key ≡ [] =
            simp (given, bad, compute_fingerprint, routing_fingerprint, wrap) in
          inr (inl (e, bad, same))
      | inr (key_bytes, good) ↦
          let same : routing_fingerprint w key ≡ w.encode_base64 (w.sha256 key_bytes) =
            simp (given, good, compute_fingerprint, routing_fingerprint, wrap) in
          inr (inr (given, key_bytes, good, same))
    ]
  ]

  -- The lookup of a key and the lookup of a certificate ask one host at most. It is the cell that the
  -- Topology Service names for a fingerprint, and the default one only if there is no fingerprint,
  -- no client of the Topology Service, or no cell with a URL that it names. The fingerprint is the
  -- one given for the authority that signed the certificate; for a key it is the SHA-256 of the
  -- bytes that the key decodes to, and none only if the key is empty or is not base64.
  pub lookups-ArePlaced :
      (key user_id fingerprint : Bytes)
      → ((f : Bytes) × IsFingerprint key f
          × All (λ q. IsPlaced w.topology w.resolver f q.0) (get_by_key w key).0
          × (length (get_by_key w key).0 ≤ 1))
        × All
            (λ q. IsPlaced w.topology w.resolver fingerprint q.0)
            (get_cert_by_key w user_id fingerprint).0
        × (length (get_cert_by_key w user_id fingerprint).0 ≤ 1)
  unfolding get_by_key get_cert_by_key
  lookups-ArePlaced key user_id fingerprint =
      let (key_hosts, one_key) = ask-IsPlaced (routing_fingerprint w key) w.decode_key _ in
      let (cert_hosts, one_cert) = ask-IsPlaced fingerprint w.decode_cert _ in
      (
        (routing_fingerprint w key, routing_fingerprint-IsFingerprint key, key_hosts, one_key),
        cert_hosts,
        one_cert,
      )
