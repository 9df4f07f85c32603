-- ===== src/Sshd/ServerConfig/Keys.antt =====
-- internal/sshd/server_config.go: the keys and certificates that the server reads when it starts, and
-- the algorithms that it offers. Files and the parsing of keys are parameters.
pub mod Trusted
use gitlab_shell.Prelude.{
  ltb, leb, ◌==◌, if◌then◌else◌, ==_iff, Bool-cases, Option-cases, and-eq-true_iff, length, take,
  drop, replicate, all, any, length-append, take-append-drop, length-take, length-drop, take-append,
  drop-append, take-append_all, drop-append_all, All, All-append, Bytes, codes, eqb, eqb_iff,
  eqb_refl, is_empty, has_prefix, trim_prefix, trim_suffix, trim_left, contains_byte, contains,
  before, split, last, mem, Lacks, Lacks-contains_byte, contains_byte-Lacks, ℕ, zero, suc, ◌+◌, ◌-◌,
  ◌*◌, ◌/◌, ◌%◌, ◌^◌, ◌≤◌, ◌<◌, ◌≡◌, refl, sym, ap, ◌∙◌, ◌≢◌, ◌↔◌, ◌⊎◌, inl, inr, Bool, true, false,
  not, ◌&&◌, ◌||◌, Option, none, some, List, [], ◌∷◌, ◌++◌, map, append_assoc, append-nil, arith,
  last-split, split-ne-nil, All-mono,
}
use gitlab_shell.Errors.{Result, ok, err, Error, plain, wrapped, wrap, ◌>>=◌}
use gitlab_shell.Decimal.{itoa}
use gitlab_shell.Path.{clean}

-- `ssh.Signer`: the bytes of its public key, and whether a certificate stands before it.
pub record Signer : Type 0 where
  pub public_key : Bytes
  pub certified : Bool

-- `ssh.PublicKey`: its bytes, and those of the key inside it if it is a certificate.
pub record PublicKey : Type 0 where
  pub marshaled : Bytes
  pub cert_key : Option Bytes

-- `os.ReadFile`, `ssh.ParsePrivateKey`, `ssh.ParseAuthorizedKey`, which gives a key and the rest of
-- the text, `ssh.NewCertSigner`, and the quoting of `%q`.
pub record World : Type 0 where
  pub read_file : Bytes → Result Bytes
  pub parse_private_key : Bytes → Result Signer
  pub parse_authorized_key : Bytes → Result (PublicKey × Bytes)
  pub new_cert_signer : PublicKey → Signer → Result Signer
  pub quote : Bytes → Bytes

-- A certificate under the bytes of its key, in `hostKeyToCertMap`.
abbrev pub Certs : Type 0
Certs = List (Bytes × PublicKey)

-- The place of the last host key with these bytes, as `hostKeyIndex` has it.
unfoldable pub index_of : ℕ → Bytes → List Signer → Option ℕ
unfolding eqb
index_of at raw [] = none
index_of at raw (key ∷ keys) =
    let later = index_of (suc at) raw keys in
    elim later [ some i ↦ some i | none ↦ if eqb key.public_key raw then some at else none ]

unfoldable pub signer_at : ℕ → List Signer → Option Signer
signer_at n [] = none
signer_at zero (key ∷ keys) = some key
signer_at (suc n) (key ∷ keys) = signer_at n keys

-- `hostKeys[index] = certSigner`
unfoldable pub replace_at : ℕ → Signer → List Signer → List Signer
replace_at n key [] = []
replace_at zero key (k ∷ keys) = key ∷ keys
replace_at (suc n) key (k ∷ keys) = k ∷ replace_at n key keys

module _ (w : World) where
  -- `parseHostKeys`: a key that cannot be read or parsed is only logged.
  unfoldable pub parse_host_keys : List Bytes → List Signer
  unfolding clean
  parse_host_keys [] = []
  parse_host_keys (file ∷ files) =
      let rest = parse_host_keys files in
      elim (w.read_file (clean file) >>= w.parse_private_key) [ err e ↦ rest | ok key ↦ key ∷ rest ]

  -- What one file of `parseHostCerts` holds, if it is a certificate.
  unfoldable pub read_cert : Bytes → Option (Bytes × PublicKey)
  unfolding clean
  read_cert file = elim (w.read_file (clean file) >>= w.parse_authorized_key) [
    | err e ↦ none
    | ok (key, rest) ↦ elim key.cert_key [ none ↦ none | some raw ↦ some (raw, key) ]
  ]

  -- The signer of a certificate takes the place of its host key, if it can be made; the map has the
  -- certificate in both cases.
  unfoldable pub install : ℕ → PublicKey → List Signer → List Signer
  unfolding signer_at replace_at
  install index cert keys = elim (signer_at index keys) [
    | none ↦ keys
    | some key ↦ elim (w.new_cert_signer cert key) [
      | err e ↦ keys
      | ok signer ↦ replace_at index signer keys
    ]
  ]

  -- The loop of `parseHostCerts`, with `hostKeyIndex` as a function.
  unfoldable pub host_certs :
      (Bytes → Option ℕ) → List Bytes → List Signer → Certs → List Signer × Certs
  unfolding read_cert install
  host_certs index_for [] keys certs = (keys, certs)
  host_certs index_for (file ∷ files) keys certs =
      let skipped = host_certs index_for files keys certs in
      elim (read_cert file) [
        | none ↦ skipped
        | some (raw, cert) ↦ elim (index_for raw) [
          | none ↦ skipped
          | some index ↦ host_certs index_for files (install index cert keys) ((raw, cert) ∷ certs)
        ]
      ]

  -- `parseHostCerts`, which changes the list of host keys as well.
  unfoldable pub parse_host_certs : List Signer → List Bytes → List Signer × Certs
  unfolding host_certs index_of
  parse_host_certs keys files = host_certs (λ raw. index_of 0 raw keys) files keys []

  -- The loop over the keys of a file, with fuel: `loaded` has the keys so far, and `count` those of
  -- this file.
  unfoldable pub parse_keys : ℕ → Bytes → ℕ → Bytes → List Bytes → Result (List Bytes)
  parse_keys fuel file count [] loaded = ok loaded
  parse_keys zero file count (c ∷ text) loaded = ok loaded
  parse_keys (suc fuel) file count (c ∷ text) loaded = elim (w.parse_authorized_key (c ∷ text)) [
    | err e ↦ err (
        wrapped
          (codes "failed to parse trusted user CA key in file "
            ++ (w.quote file ++ (codes " after " ++ (itoa count ++ codes " valid key(s)"))))
          e)
    | ok (key, remaining) ↦
        parse_keys fuel file (suc count) remaining (loaded ++ key.marshaled ∷ [])
  ]

  -- The keys of one file behind those of the files before it.
  unfoldable pub parse_file : Bytes → List Bytes → Result (List Bytes)
  unfolding clean parse_keys
  parse_file file loaded = elim (w.read_file (clean file)) [
    | err e ↦ err (wrapped (codes "failed to read trusted user CA key file " ++ w.quote file) e)
    | ok content ↦ parse_keys (length content) file 0 content loaded
  ]

  -- `parseTrustedUserCAKeys`
  unfoldable pub parse_files : List Bytes → List Bytes → Result (List Bytes)
  unfolding parse_file
  parse_files [] loaded = ok loaded
  parse_files (file ∷ files) loaded = parse_file file loaded >>= parse_files files

  unfoldable pub parse_trusted_user_ca_keys : List Bytes → Result (List Bytes)
  unfolding parse_files
  parse_trusted_user_ca_keys files = parse_files files []

-- Of the configuration of the server what `newServerConfig` and `get` read.
pub record Algorithms : Type 0 where
  pub public_keys : List Bytes
  pub ciphers : List Bytes
  pub key_exchanges : List Bytes
  pub macs : List Bytes

pub record Settings : Type 0 where
  pub host_key_files : List Bytes
  pub host_cert_files : List Bytes
  pub trusted_user_ca_keys : List Bytes
  pub algorithms : Algorithms

-- `serverConfig`: the keys that it holds.
pub record Keys : Type 0 where
  pub host_keys : List Signer
  pub host_certs : Certs
  pub trusted : List Bytes

module _ (w : World) (new_keys_client new_certs_client : Option Error) where
  -- The last checks of `newServerConfig`.
  unfoldable pub with_trusted : Settings → List Signer × Certs → List Bytes → Result Keys
  with_trusted s (keys, certs) trusted =
      if not (is_empty s.trusted_user_ca_keys) && is_empty trusted
      then err (
          plain
            (codes "trusted_user_ca_keys configured but no valid CA keys were loaded, aborting"))
      else ok (record { host_keys = keys; host_certs = certs; trusted = trusted })

  -- `newServerConfig`, behind the two clients.
  unfoldable pub load_keys : Settings → Result Keys
  unfolding parse_host_keys parse_host_certs parse_trusted_user_ca_keys with_trusted
  load_keys s =
      let keys = parse_host_keys w s.host_key_files in
      if is_empty keys
      then err (plain (codes "no host keys could be loaded, aborting"))
      else wrap (codes "failed to load trusted user CA keys")
          (parse_trusted_user_ca_keys w s.trusted_user_ca_keys)
        >>= with_trusted s (parse_host_certs w keys s.host_cert_files)

  -- `newServerConfig`
  unfoldable pub new_server_config : Settings → Result Keys
  unfolding load_keys
  new_server_config s = elim new_keys_client [
    | some e ↦ err (wrapped (codes "failed to initialize authorized keys client") e)
    | none ↦ elim new_certs_client [
      | some e ↦ err (wrapped (codes "failed to initialize authorized certs client") e)
      | none ↦ load_keys s
    ]
  ]

-- A list of the configuration, unless it is empty.
abbrev pub configured : List Bytes → List Bytes → List Bytes
configured chosen current = if not (is_empty chosen) then chosen else current

-- The algorithms of `get`, from those of FIPS, if it is enabled, or none, and those of the
-- configuration.
unfoldable pub algorithms_of : Option Algorithms → Algorithms → Algorithms
algorithms_of none c = record {
  public_keys = configured c.public_keys [];
  ciphers = configured c.ciphers [];
  key_exchanges = configured c.key_exchanges [];
  macs = configured c.macs [];
}
algorithms_of (some f) c = record {
  public_keys = configured c.public_keys f.public_keys;
  ciphers = configured c.ciphers f.ciphers;
  key_exchanges = configured c.key_exchanges f.key_exchanges;
  macs = configured c.macs f.macs;
}

-- `ssh.ServerConfig`, less its callbacks: whether it has one for GSSAPI.
pub record SshConfig : Type 0 where
  pub server_version : Bytes
  pub has_gssapi : Bool
  pub algorithms : Algorithms
  pub host_keys : List Signer

-- `get`: whether GSSAPI is enabled, whether `NewGSSAPIServer` gives a server, and the algorithms of
-- FIPS, if it is enabled.
unfoldable pub get : Bool → Bool → Option Algorithms → Settings → Keys → SshConfig
unfolding algorithms_of
get gssapi_enabled has_server fips s k = record {
  server_version = codes "SSH-2.0-GitLab-SSHD";
  has_gssapi = gssapi_enabled && has_server;
  algorithms = algorithms_of fips s.algorithms;
  host_keys = k.host_keys;
}
