-- ===== src/Lookup.antt =====
-- internal/gitlabnet/authorizedkeys and internal/gitlabnet/authorizedcerts: the lookups of a key
-- and of a certificate. The internal API, base64, SHA-256, JSON and URLs with a query are
-- parameters.
pub mod Routes
use gitlab_shell.Prelude.{
  ltb, leb, ◌==◌, if◌then◌else◌, ==_iff, Bool-cases, Option-cases, and-eq-true_iff, length, take,
  drop, replicate, all, any, length-append, take-append-drop, length-take, length-drop, take-append,
  drop-append, take-append_all, drop-append_all, All, All-append, Bytes, codes, eqb, eqb_iff,
  eqb_refl, is_empty, has_prefix, trim_prefix, trim_suffix, trim_left, contains_byte, contains,
  before, split, last, mem, Lacks, Lacks-contains_byte, contains_byte-Lacks, ℕ, zero, suc, ◌+◌, ◌-◌,
  ◌*◌, ◌/◌, ◌%◌, ◌^◌, ◌≤◌, ◌<◌, ◌≡◌, refl, sym, ap, ◌∙◌, ◌≢◌, ◌↔◌, ◌⊎◌, inl, inr, Bool, true, false,
  not, ◌&&◌, ◌||◌, Option, none, some, List, [], ◌∷◌, ◌++◌, map, append_assoc, append-nil, arith,
  last-split, split-ne-nil, All-mono,
}
use gitlab_shell.Errors.{Result, ok, err, Error, wrap, ◌>>=◌}
use gitlab_shell.Lfs.Client.{parse_json}
use gitlab_shell.Topology
use gitlab_shell.Topology.{Resolver, resolve_by_ssh_fingerprint}

-- `Response` of authorizedkeys, without the sign of an id.
pub record KeyResponse : Type 0 where
  pub id : ℕ
  pub key : Bytes

-- `Response` of authorizedcerts.
pub record CertResponse : Type 0 where
  pub username : Bytes
  pub namespace : Bytes

abbrev pub authorized_keys_path : Bytes
authorized_keys_path = codes "/authorized_keys"

abbrev pub authorized_certs_path : Bytes
authorized_certs_path = codes "/authorized_certs"

-- What the clients call: the Topology Service, `base64.RawStdEncoding`, SHA-256, a path with its
-- query, `Get` at a host, which is empty for the default one, and the decoding of the answers.
pub record World : Type 0 where
  pub topology : Topology.Services
  pub resolver : Resolver
  pub decode_base64 : Bytes → Result Bytes
  pub encode_base64 : Bytes → Bytes
  pub sha256 : Bytes → Bytes
  pub with_query : Bytes → List (Bytes × Bytes) → Result Bytes
  pub get : Bytes → Bytes → Result Bytes
  pub decode_key : Bytes → Option KeyResponse
  pub decode_cert : Bytes → Option CertResponse

-- The hosts that are asked, each with its path, and the result.
abbrev pub Lookup : Type 0 → Type 0
Lookup A = List (Bytes × Bytes) × Result A

module _ (w : World) where
  -- `computeFingerprint`
  unfoldable pub compute_fingerprint : Bytes → Result Bytes
  compute_fingerprint key =
      if is_empty key
      then ok []
      else (wrap (codes "failed to decode key as base64") (w.decode_base64 key) >>= λ key_bytes.
          ok (w.encode_base64 (w.sha256 key_bytes)))

  -- The fingerprint that `GetByKey` routes by, which an error leaves empty.
  unfoldable pub routing_fingerprint : Bytes → Bytes
  unfolding compute_fingerprint
  routing_fingerprint key = elim (compute_fingerprint key) [ err e ↦ [] | ok f ↦ f ]

  -- A request to where the Topology Service puts a fingerprint.
  unfoldable pub ask : {A : Type 0} → Bytes → (Bytes → Option A) → Result Bytes → Lookup A
  unfolding parse_json
  ask fingerprint decode (err e) = ([], err e)
  ask fingerprint decode (ok path) =
      let host = resolve_by_ssh_fingerprint w.topology w.resolver fingerprint in
      ((host, path) ∷ [], (w.get host path >>= λ body. parse_json decode body))

  -- `GetByKey` of authorizedkeys
  unfoldable pub get_by_key : Bytes → Lookup KeyResponse
  unfolding ask routing_fingerprint
  get_by_key key =
      ask (routing_fingerprint key) w.decode_key
        (w.with_query authorized_keys_path ((codes "key", key) ∷ []))

  -- `GetByKey` of authorizedcerts
  unfoldable pub get_cert_by_key : Bytes → Bytes → Lookup CertResponse
  unfolding ask
  get_cert_by_key user_id fingerprint = ask fingerprint w.decode_cert (
      w.with_query authorized_certs_path
        ((codes "key", fingerprint) ∷ (codes "user_identifier", user_id) ∷ []))
