-- ===== src/Sshd/ServerConfig/Grants.antt =====
-- What the callback of internal/sshd/server_config.go grants, and to whom.
use gitlab_shell.Prelude.{
  ◌==◌, ==_iff, Bool-cases, Option-cases, and-eq-true_iff, length, All, Bytes, codes, eqb, eqb_iff,
  trim_prefix, ℕ, ◌≤◌, ◌≡◌, refl, sym, ap, ◌≢◌, ◌⊎◌, inl, inr, Bool, true, false, ◌&&◌, ◌||◌, none,
  [], ◌∷◌, ◌++◌, arith,
}
use gitlab_shell.Errors.{ok, Result-cases, ok-injective}
use gitlab_shell.Decimal.{itoa}
use gitlab_shell.Sshd.Connection.{Outcome}
use gitlab_shell.Sshd.ServerConfig.{
  Certificate, Key, bare, certificate, Permissions, ServerConfig, Services, cert_perm_username,
  cert_perm_namespace, key_id_name, is_locally_trusted_ca, is_alnum, is_special, ends_alnum,
  valid_key_id_pattern, starts_special, consecutive_special_chars, validate_key_id,
  build_cert_permissions, handle_user_key, instance_certificate, group_certificate,
  handle_user_certificate, public_key_callback,
}

-- A byte that a user name may hold.
abbrev pub IsNameByte : ℕ → Type 0
IsNameByte c = (is_alnum c || is_special c) ≡ true

-- The user names of GitLab: 2 to 255 letters, digits, dots, underscores and dashes, a letter or a
-- digit in front and at the end, and no two of the other signs in a row.
pub record IsUsername (id : Bytes) : Type 0 where
  pub bounds : (2 ≤ length id) × (length id ≤ 255)
  pub bytes : All IsNameByte id
  pub front : (c : ℕ) × (s : Bytes) × (id ≡ c ∷ s) × (is_alnum c ≡ true)
  pub back : (c : ℕ) × (s : Bytes) × (id ≡ s ++ c ∷ []) × (is_alnum c ≡ true)
  pub apart :
      (xs ys : Bytes) (c d : ℕ) → id ≡ xs ++ c ∷ d ∷ ys → is_special c ≡ true → is_special d ≡ false

ends_alnum-bytes : (s : Bytes) → ends_alnum s ≡ true → All IsNameByte s
unfolding ends_alnum
ends_alnum-bytes [] h = tt
ends_alnum-bytes (c ∷ []) h = (rw h refl, tt)
ends_alnum-bytes (c ∷ d ∷ s) h =
    let (first, rest) = (and-eq-true_iff (is_alnum c || is_special c) (ends_alnum (d ∷ s))).0 h in
    (first, ends_alnum-bytes (d ∷ s) rest)

ends_alnum-back :
    (s : Bytes)
    → ends_alnum s ≡ true
    → (c : ℕ) × (t : Bytes) × (s ≡ t ++ c ∷ []) × (is_alnum c ≡ true)
unfolding ends_alnum
ends_alnum-back [] h = cc
ends_alnum-back (c ∷ []) h = (c, [], refl, h)
ends_alnum-back (c ∷ d ∷ s) h =
    let (_, rest) = (and-eq-true_iff (is_alnum c || is_special c) (ends_alnum (d ∷ s))).0 h in
    let (e, t, same, alnum) = ends_alnum-back (d ∷ s) rest in
    (e, c ∷ t, ap (λ l. c ∷ l) same, alnum)

special-apart :
    (xs ys : Bytes) (c d : ℕ)
    → consecutive_special_chars (xs ++ c ∷ d ∷ ys) ≡ false
    → is_special c ≡ true
    → is_special d ≡ false
unfolding consecutive_special_chars starts_special
special-apart [] ys c d h special = elim (Bool-cases (is_special d)) [
  | inl both ↦ cc
  | inr other ↦ other
]
special-apart (x ∷ xs) ys c d h special =
    special-apart xs ys c d (later (is_special x && starts_special (xs ++ c ∷ d ∷ ys)) _ h) special
  where
    later : (a b : Bool) → (a || b) ≡ false → b ≡ false
    later a b h = ground arith

accepted :
    (id : Bytes)
    → validate_key_id id ≡ none
    → (2 ≤ length id)
      × (length id ≤ 255)
      × (valid_key_id_pattern id ≡ true)
      × (consecutive_special_chars id ≡ false)
unfolding validate_key_id
accepted id h = ground arith

pattern-parts :
    (c : ℕ) (s : Bytes)
    → valid_key_id_pattern (c ∷ s) ≡ true
    → (is_alnum c ≡ true) × (ends_alnum s ≡ true)
unfolding valid_key_id_pattern
pattern-parts c s h = ground arith

-- A certificate's key id is accepted only if it is a user name of GitLab.
pub validate_key_id-IsUsername : (id : Bytes) → validate_key_id id ≡ none → IsUsername id
unfolding validate_key_id
validate_key_id-IsUsername [] h = cc
validate_key_id-IsUsername (c ∷ s) h =
    let (low, high, pattern, no_pair) = accepted (c ∷ s) h in
    let (alnum, rest) = pattern-parts c s pattern in
    let (d, t, same, last_alnum) = ends_alnum-back s rest in
    record {
      bounds = (low, high);
      bytes = (rw alnum refl, ends_alnum-bytes s rest);
      front = (c, s, refl, alnum);
      back = (d, c ∷ t, ap (λ l. c ∷ l) same, last_alnum);
      apart = λ xs ys a b same special. special-apart xs ys a b (rw (← same) no_pair) special;
    }

eqb-ne : (a b : Bytes) → eqb a b ≡ false → a ≢ b
eqb-ne a b h same = let on : eqb a b ≡ true = (eqb_iff a b).1 same in cc

module _ (w : Services) (s : ServerConfig) where
  instance_certificate-eq-ok :
      (cert : Certificate) (p : Permissions)
      → instance_certificate w s cert ≡ ok p
      → (p.critical_options ≡ cert.critical_options)
        × IsUsername cert.key_id
        × (p.extensions ≡ (cert_perm_username, cert.key_id) ∷ [])
  unfolding instance_certificate build_cert_permissions
  instance_certificate-eq-ok cert p h = elim (Option-cases (validate_key_id cert.key_id)) [
    | inr (e, bad) ↦ absurd (cc (rw (bad, instance_certificate) at h))
    | inl good ↦
        let same = ok-injective (rw (good, instance_certificate) at h) in
        (rw (← same) refl, validate_key_id-IsUsername cert.key_id good, rw (← same) refl)
  ]

  -- What the internal API answered for a certificate.
  abbrev pub FromGroup : Certificate → Permissions → Type 0
  FromGroup cert p =
      (s.ssh_certificates ≡ codes "1")
      × (name : Bytes) × (namespace : Bytes) × (w.cert_by_key cert.key_id
            (trim_prefix (w.fingerprint_sha256 cert.signature_key) (codes "SHA256:"))
          ≡ ok (name, namespace))
      × (p.extensions ≡ (cert_perm_username, name) ∷ (cert_perm_namespace, namespace) ∷ [])

  group_certificate-eq-ok :
      (cert : Certificate) (p : Permissions)
      → group_certificate w s cert ≡ ok p
      → (p.critical_options ≡ cert.critical_options) × FromGroup cert p
  unfolding group_certificate build_cert_permissions
  group_certificate-eq-ok cert p h = elim (Bool-cases (eqb s.ssh_certificates (codes "1"))) [
    | inr off ↦ absurd (cc (rw (off, group_certificate) at h))
    | inl on ↦
        elim (Result-cases (
          w.cert_by_key cert.key_id
            (trim_prefix (w.fingerprint_sha256 cert.signature_key) (codes "SHA256:")))) [
              | inl (e, bad) ↦ absurd (cc (rw (on, bad, group_certificate) at h))
              | inr (answer, good) ↦
                  let same = ok-injective (rw (on, good, group_certificate) at h) in
                  (
                    rw (← same) refl,
                    (
                      (eqb_iff s.ssh_certificates (codes "1")).0 on,
                      answer.0,
                      answer.1,
                      good,
                      rw (← same) refl,
                    ),
                  )
            ]
  ]

  -- The rights of each kind of key.
  abbrev pub Granted : Bytes → Key → Permissions → Type 0
  Granted user (bare type blob) p =
      (user ≡ s.user)
      × (type ≢ w.dsa)
      × (id : ℕ) × (w.key_by_key (w.encode_base64 blob) ≡ ok id)
      × (p ≡ record { critical_options = []; extensions = (key_id_name, itoa id) ∷ [] })
  Granted user (certificate cert) p =
      (cert.cert_type ≡ w.user_cert)
      × (w.check_cert user cert ≡ none)
      × (p.critical_options ≡ cert.critical_options)
      × (((is_locally_trusted_ca s cert.signature_key ≡ true)
            × IsUsername cert.key_id
            × (p.extensions ≡ (cert_perm_username, cert.key_id) ∷ []))
          ⊎ ((is_locally_trusted_ca s cert.signature_key ≡ false) × FromGroup cert p))

  handle_user_key-Granted :
      (user type blob : Bytes) (p : Permissions)
      → handle_user_key w s user type blob ≡ ok p
      → Granted user (bare type blob) p
  unfolding handle_user_key
  handle_user_key-Granted user type blob p h = elim (Bool-cases (eqb user s.user)) [
    | inr stranger ↦ absurd (cc (rw (stranger, handle_user_key) at h))
    | inl known ↦ elim (Bool-cases (eqb type w.dsa)) [
      | inl dsa ↦ absurd (cc (rw (known, dsa, handle_user_key) at h))
      | inr other ↦ elim (Result-cases (w.key_by_key (w.encode_base64 blob))) [
        | inl (e, bad) ↦ absurd (cc (rw (known, other, bad, handle_user_key) at h))
        | inr (id, good) ↦ (
          (eqb_iff user s.user).0 known,
          eqb-ne type w.dsa other,
          id,
          good,
          sym (ok-injective (rw (known, other, good, handle_user_key) at h)),
        )
      ]
    ]
  ]

  handle_user_certificate-Granted :
      (user : Bytes) (cert : Certificate) (p : Permissions)
      → handle_user_certificate w s user cert ≡ ok p
      → Granted user (certificate cert) p
  unfolding handle_user_certificate
  handle_user_certificate-Granted user cert p h =
      elim (Bool-cases (cert.cert_type == w.user_cert)) [
        | inr host ↦ absurd (cc (rw (host, handle_user_certificate) at h))
        | inl type ↦ elim (Option-cases (w.check_cert user cert)) [
          | inr (e, bad) ↦ absurd (cc (rw (type, bad, handle_user_certificate) at h))
          | inl valid ↦ elim (Bool-cases (is_locally_trusted_ca s cert.signature_key)) [
            | inl local ↦
                let (options, name, extensions) =
                  instance_certificate-eq-ok cert p
                    (rw (type, valid, local, handle_user_certificate) at h) in
                (
                  (==_iff cert.cert_type w.user_cert).0 type,
                  valid,
                  options,
                  inl (local, name, extensions),
                )
            | inr remote ↦
                let (options, group) =
                  group_certificate-eq-ok cert p
                    (rw (type, valid, remote, handle_user_certificate) at h) in
                ((==_iff cert.cert_type w.user_cert).0 type, valid, options, inr (remote, group))
          ]
        ]
      ]

  -- Whoever the callback lets in is granted one of three things. The configured user is known by
  -- the id of a key that the internal API knows and that is no DSA key. The holder of a valid user
  -- certificate of a trusted authority is known by the key id of the certificate, which is a user
  -- name of GitLab, in every namespace. With the feature on, the holder of another valid user
  -- certificate is known by the name and the namespace that the internal API answers. The critical
  -- options of a certificate are always handed on.
  pub public_key_callback-Granted :
      (user : Bytes) (key : Key) (o : Outcome) (p : Permissions)
      → (public_key_callback w s user key o).0 ≡ ok p
      → Granted user key p
  unfolding public_key_callback
  public_key_callback-Granted user (bare type blob) o p h =
      handle_user_key-Granted user type blob p h
  public_key_callback-Granted user (certificate cert) o p h =
      handle_user_certificate-Granted user cert p h
