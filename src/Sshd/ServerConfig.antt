-- ===== src/Sshd/ServerConfig.antt =====
-- Authentication in internal/sshd/server_config.go. The cryptography of golang.org/x/crypto/ssh,
-- the encoding of key bytes and the answers of the internal API are parameters. Logging, the time
-- limit of the callback and the choice of algorithms are left out.
pub mod Keys
pub mod Grants
use gitlab_shell.Prelude.{
  ltb, leb, ◌==◌, if◌then◌else◌, ==_iff, Bool-cases, Option-cases, and-eq-true_iff, length, take,
  drop, replicate, all, any, length-append, take-append-drop, length-take, length-drop, take-append,
  drop-append, take-append_all, drop-append_all, All, All-append, Bytes, codes, eqb, eqb_iff,
  eqb_refl, is_empty, has_prefix, trim_prefix, trim_suffix, trim_left, contains_byte, contains,
  before, split, last, mem, Lacks, Lacks-contains_byte, contains_byte-Lacks, ℕ, zero, suc, ◌+◌, ◌-◌,
  ◌*◌, ◌/◌, ◌%◌, ◌^◌, ◌≤◌, ◌<◌, ◌≡◌, refl, sym, ap, ◌∙◌, ◌≢◌, ◌↔◌, ◌⊎◌, inl, inr, Bool, true, false,
  not, ◌&&◌, ◌||◌, Option, none, some, List, [], ◌∷◌, ◌++◌, map, append_assoc, append-nil, arith,
  last-split, split-ne-nil, All-mono,
}
use gitlab_shell.Errors.{Result, ok, err, Error, plain, wrapped}
use gitlab_shell.Decimal.{itoa}
use gitlab_shell.Sshd.Connection.{Outcome, observe_auth}

-- `ssh.Certificate`: what the callback reads of it. Keys stand for their marshalled bytes.
pub record Certificate : Type 0 where
  pub cert_type : ℕ
  pub key_id : Bytes
  pub signature_key : Bytes
  pub critical_options : List (Bytes × Bytes)

-- The key that a client offers: a bare one, by its type and bytes, or a certificate.
pub data Key : Type 0 where
  bare : Bytes → Bytes → Key
  certificate : Certificate → Key

-- `ssh.Permissions`
pub record Permissions : Type 0 where
  pub critical_options : List (Bytes × Bytes)
  pub extensions : List (Bytes × Bytes)

-- `serverConfig`: the user name of the configuration and the set of trusted keys, with the value
-- of the environment variable `FF_GITLAB_SHELL_SSH_CERTIFICATES`.
pub record ServerConfig : Type 0 where
  pub user : Bytes
  pub trusted_user_ca_keys : List Bytes
  pub ssh_certificates : Bytes

abbrev pub cert_perm_username : Bytes
cert_perm_username = codes "username"

abbrev pub cert_perm_namespace : Bytes
cert_perm_namespace = codes "namespace"

abbrev pub key_id_name : Bytes
key_id_name = codes "key-id"

abbrev pub krb5_principal_name : Bytes
krb5_principal_name = codes "krb5principal"

-- `isLocallyTrustedCA`
unfoldable pub is_locally_trusted_ca : ServerConfig → Bytes → Bool
is_locally_trusted_ca s signing_key = mem signing_key s.trusted_user_ca_keys

-- The byte classes `[a-zA-Z0-9]` and `[._-]`.
unfoldable pub is_alnum : ℕ → Bool
is_alnum c = (leb b'a' c && leb c b'z') || (leb b'A' c && leb c b'Z') || (leb b'0' c && leb c b'9')

unfoldable pub is_special : ℕ → Bool
is_special c = c == b'.' || c == b'_' || c == b'-'

-- `[a-zA-Z0-9._-]*[a-zA-Z0-9]$`
unfoldable pub ends_alnum : Bytes → Bool
ends_alnum [] = false
ends_alnum (c ∷ []) = is_alnum c
ends_alnum (c ∷ d ∷ s) = (is_alnum c || is_special c) && ends_alnum (d ∷ s)

-- `validKeyIDPattern`: between the first byte and the last there are 253 bytes at most.
unfoldable pub valid_key_id_pattern : Bytes → Bool
unfolding is_alnum ends_alnum
valid_key_id_pattern [] = false
valid_key_id_pattern (c ∷ s) = is_alnum c && ends_alnum s && leb (length s) 254

unfoldable pub starts_special : Bytes → Bool
starts_special [] = false
starts_special (c ∷ s) = is_special c

-- `consecutiveSpecialChars`
unfoldable pub consecutive_special_chars : Bytes → Bool
consecutive_special_chars [] = false
consecutive_special_chars (c ∷ s) =
    (is_special c && starts_special s) || consecutive_special_chars s

-- `validateKeyID`
unfoldable pub validate_key_id : Bytes → Option Error
validate_key_id key_id =
    if is_empty key_id
    then some (plain (codes "certificate has empty KeyId"))
    else if ltb (length key_id) 2 || ltb 255 (length key_id)
    then some (
        plain (
          codes "certificate KeyId length "
          ++ itoa (length key_id)
          ++ codes " is outside valid range [2, 255]"))
    else if not (valid_key_id_pattern key_id)
    then some (plain (codes "certificate KeyId does not match GitLab username format"))
    else if consecutive_special_chars key_id
    then some (plain (codes "certificate KeyId contains consecutive special characters"))
    else none

-- `buildCertPermissions`
unfoldable pub build_cert_permissions : Certificate → List (Bytes × Bytes) → Permissions
build_cert_permissions cert extensions = record {
  critical_options = cert.critical_options;
  extensions = extensions;
}

-- What the callback calls: the constants `ssh.KeyAlgoDSA` and `ssh.UserCert`, `FingerprintSHA256`,
-- `CertChecker.CheckCert`, `base64.RawStdEncoding` and `GetByKey` of the two clients, whose answer
-- is the id of a key, here one that is not negative, or a user name and a namespace.
pub record Services : Type 0 where
  pub dsa : Bytes
  pub user_cert : ℕ
  pub fingerprint_sha256 : Bytes → Bytes
  pub check_cert : Bytes → Certificate → Option Error
  pub encode_base64 : Bytes → Bytes
  pub key_by_key : Bytes → Result ℕ
  pub cert_by_key : Bytes → Bytes → Result (Bytes × Bytes)

module _ (w : Services) (s : ServerConfig) where
  -- `handleUserKey`
  unfoldable pub handle_user_key : Bytes → Bytes → Bytes → Result Permissions
  handle_user_key user type blob =
      if not (eqb user s.user)
      then err (plain (codes "unknown user"))
      else if eqb type w.dsa
      then err (plain (codes "DSA is prohibited"))
      else elim (w.key_by_key (w.encode_base64 blob)) [
        | err e ↦ err e
        | ok id ↦ ok record { critical_options = []; extensions = (key_id_name, itoa id) ∷ [] }
      ]

  -- The branch of `handleUserCertificate` for a certificate that a local authority signed.
  unfoldable pub instance_certificate : Certificate → Result Permissions
  instance_certificate cert = elim (validate_key_id cert.key_id) [
    | some e ↦ err (wrapped (codes "handleUserCertificate") e)
    | none ↦ ok (build_cert_permissions cert ((cert_perm_username, cert.key_id) ∷ []))
  ]

  -- The branch that asks the internal API.
  unfoldable pub group_certificate : Certificate → Result Permissions
  group_certificate cert =
      if not (eqb s.ssh_certificates (codes "1"))
      then err (plain (codes "handleUserCertificate: feature is disabled"))
      else elim (w.cert_by_key cert.key_id
          (trim_prefix (w.fingerprint_sha256 cert.signature_key) (codes "SHA256:"))) [
            | err e ↦ err e
            | ok (username, namespace) ↦ ok (
                build_cert_permissions cert
                  ((cert_perm_username, username) ∷ (cert_perm_namespace, namespace) ∷ []))
          ]

  -- `handleUserCertificate`
  unfoldable pub handle_user_certificate : Bytes → Certificate → Result Permissions
  handle_user_certificate user cert =
      if not (cert.cert_type == w.user_cert)
      then err (plain (codes "handleUserCertificate: cert has type " ++ itoa cert.cert_type))
      else elim (w.check_cert user cert) [
        | some e ↦ err e
        | none ↦
            if is_locally_trusted_ca s cert.signature_key
            then instance_certificate cert
            else group_certificate cert
      ]

  -- The error of a result, as `observeAuth` takes it.
  abbrev pub error_of : Result Permissions → Option Error
  error_of (ok p) = none
  error_of (err e) = some e

  abbrev pub authenticate : Bytes → Key → Result Permissions
  authenticate user (certificate cert) = handle_user_certificate user cert
  authenticate user (bare type blob) = handle_user_key user type blob

  -- `publicKeyCallback`, with the outcome of the connection.
  unfoldable pub public_key_callback : Bytes → Key → Outcome → Result Permissions × Outcome
  public_key_callback user key o = let r = authenticate user key in (r, observe_auth o (error_of r))

  -- `AllowLogin` of `get`, with the outcome of the connection.
  unfoldable pub allow_login : Bytes → Bytes → Outcome → Result Permissions × Outcome
  allow_login user src_name o =
      if eqb user s.user
      then (
        ok (record { critical_options = []; extensions = (krb5_principal_name, src_name) ∷ [] }),
        observe_auth o none,
      )
      else (
        err (plain (codes "unknown user")),
        observe_auth o (some (plain (codes "unknown user"))),
      )
