-- ===== src/Sshd/ServerConfig/Keys/Trusted.antt =====
-- The trusted CA keys are loaded as a whole, and the loop over a file ends.
use mathlib.Core.Path.{subst}
use gitlab_shell.Prelude.{
  Option-cases, length, All, Bytes, is_empty, ℕ, zero, suc, ◌≤◌, ◌<◌, ◌≡◌, refl, sym, ap, ◌∙◌, inl,
  inr, false, not, ◌&&◌, Option, List, [], ◌∷◌, ◌++◌, append_assoc, append-nil, arith,
}
use gitlab_shell.Errors.{ok, Error, >>=-eq-ok, wrap-eq-ok, early-eq-ok, ok-injective, Result-cases}
use gitlab_shell.Path.{clean}
use gitlab_shell.Sshd.ServerConfig.Keys.{
  World, PublicKey, Signer, Settings, Keys, Certs, parse_keys, parse_file, parse_files,
  parse_trusted_user_ca_keys, parse_host_keys, parse_host_certs, host_certs, read_cert, install,
  signer_at, replace_at, with_trusted, load_keys, new_server_config,
}

-- What `ssh.ParseAuthorizedKey` documents: the rest is what stands behind the line of the key.
abbrev pub Shortens : World → Type 0
Shortens w =
    (text : Bytes) (key : PublicKey) (rest : Bytes)
    → w.parse_authorized_key text ≡ ok (key, rest)
    → length rest < length text

-- The keys of a text, from the first line to the last.
pub data Parses (w : World) : Bytes → List Bytes → Type 0 where
  ends : Parses w [] []
  reads :
      {c : ℕ} {text : Bytes} (key : PublicKey) {rest : Bytes} {keys : List Bytes}
      → w.parse_authorized_key (c ∷ text) ≡ ok (key, rest)
      → Parses w rest keys
      → Parses w (c ∷ text) (key.marshaled ∷ keys)

replace_at-is_empty :
    (n : ℕ) (key : Signer) (keys : List Signer) → is_empty (replace_at n key keys) ≡ is_empty keys
unfolding replace_at
replace_at-is_empty n key [] = refl
replace_at-is_empty zero key (k ∷ keys) = refl
replace_at-is_empty (suc n) key (k ∷ keys) = refl

module _ (w : World) where
  install-is_empty :
      (index : ℕ) (cert : PublicKey) (keys : List Signer)
      → is_empty (install w index cert keys) ≡ is_empty keys
  unfolding install
  install-is_empty index cert keys = elim (Option-cases (signer_at index keys)) [
    | inl nowhere ↦ rw (nowhere, install) refl
    | inr (key, here) ↦ elim (Result-cases (w.new_cert_signer cert key)) [
      | inl (e, bad) ↦
          let same : install w index cert keys ≡ keys = simp (here, bad, install) in rw same refl
      | inr (signer, good) ↦
          let same : install w index cert keys ≡ replace_at index signer keys =
            simp (here, good, install) in
          rw same (replace_at-is_empty index signer keys)
    ]
  ]

  host_certs-is_empty :
      (index_for : Bytes → Option ℕ) (files : List Bytes) (keys : List Signer) (certs : Certs)
      → is_empty (host_certs w index_for files keys certs).0 ≡ is_empty keys
  unfolding host_certs
  host_certs-is_empty index_for [] keys certs = refl
  host_certs-is_empty index_for (file ∷ files) keys certs = elim (Option-cases (read_cert w file)) [
    | inl nothing ↦ rw (nothing, host_certs) (host_certs-is_empty index_for files keys certs)
    | inr ((raw, cert), read) ↦ elim (Option-cases (index_for raw)) [
      | inl unknown ↦
          let same : host_certs w index_for (file ∷ files) keys certs
              ≡ host_certs w index_for files keys certs =
            simp (read, unknown, host_certs) in
          rw same (host_certs-is_empty index_for files keys certs)
      | inr (index, known) ↦
          let same : host_certs w index_for (file ∷ files) keys certs
              ≡ host_certs w index_for files (install w index cert keys) ((raw, cert) ∷ certs) =
            simp (read, known, host_certs) in
          rw same (
            host_certs-is_empty index_for files (install w index cert keys) ((raw, cert) ∷ certs)
            ∙ install-is_empty index cert keys)
    ]
  ]

module _ (w : World) (shortens : Shortens w) where
  -- Where parsing a key leaves a shorter text, and the text is no longer than the fuel, the loop over
  -- its keys does not depend on the fuel.
  pub parse_keys-fuel :
      (fuel other : ℕ) (file : Bytes) (count : ℕ) (text : Bytes) (done : List Bytes)
      → length text ≤ fuel
      → length text ≤ other
      → parse_keys w fuel file count text done ≡ parse_keys w other file count text done
  unfolding parse_keys
  parse_keys-fuel fuel other file count [] done h h' = refl
  parse_keys-fuel zero other file count (c ∷ text) done h h' = absurd (omega arith)
  parse_keys-fuel (suc fuel) zero file count (c ∷ text) done h h' = absurd (omega arith)
  parse_keys-fuel (suc fuel) (suc other) file count (c ∷ text) done h h' =
      elim (Result-cases (w.parse_authorized_key (c ∷ text))) [
        | inl (e, bad) ↦ rw (bad, parse_keys) refl
        | inr ((key, rest), good) ↦
            let shorter = shortens (c ∷ text) key rest good in
            rw (good, parse_keys)
              (parse_keys-fuel fuel other file (suc count) rest (done ++ key.marshaled ∷ [])
                (omega (arith, shorter)) (omega (arith, shorter)))
      ]

  parse_keys-Parses :
      (fuel : ℕ) (file : Bytes) (count : ℕ) (text : Bytes) (done out : List Bytes)
      → length text ≤ fuel
      → parse_keys w fuel file count text done ≡ ok out
      → (keys : List Bytes) × Parses w text keys × (out ≡ done ++ keys)
  unfolding parse_keys
  parse_keys-Parses fuel file count [] done out h e =
      ([], ends, sym (append-nil done ∙ ok-injective e))
  parse_keys-Parses zero file count (c ∷ text) done out h e = absurd (omega arith)
  parse_keys-Parses (suc fuel) file count (c ∷ text) done out h e =
      elim (Result-cases (w.parse_authorized_key (c ∷ text))) [
        | inl (f, bad) ↦ absurd (cc (rw (bad, parse_keys) at e))
        | inr ((key, rest), good) ↦
            let shorter = shortens (c ∷ text) key rest good in
            let (keys, found, all_of) =
              parse_keys-Parses fuel file (suc count) rest (done ++ key.marshaled ∷ []) out
                (omega (arith, shorter)) (rw (good, parse_keys) at e) in
            (
              key.marshaled ∷ keys,
              reads key good found,
              all_of ∙ append_assoc done (key.marshaled ∷ []) keys,
            )
      ]

  -- What the set has of a file: it was read, its text is keys from the first line to the last, and
  -- each of them is in the set.
  abbrev pub IsLoaded : List Bytes → Bytes → Type 0
  IsLoaded out file =
      (content : Bytes) × (keys before_ after_ : List Bytes) × (w.read_file (clean file)
        ≡ ok content)
      × Parses w content keys
      × (out ≡ before_ ++ (keys ++ after_))

  parse_file-eq-ok :
      (file : Bytes) (done out : List Bytes)
      → parse_file w file done ≡ ok out
      → (content : Bytes) × (keys : List Bytes) × (w.read_file (clean file) ≡ ok content)
        × Parses w content keys
        × (out ≡ done ++ keys)
  unfolding parse_file
  parse_file-eq-ok file done out h = elim (Result-cases (w.read_file (clean file))) [
    | inl (e, bad) ↦ absurd (cc (rw (bad, parse_file) at h))
    | inr (content, good) ↦
        let (keys, found, all_of) =
          parse_keys-Parses (length content) file 0 content done out (omega arith)
            (rw (good, parse_file) at h) in
        (content, keys, good, found, all_of)
  ]

  parse_files-eq-ok :
      (files : List Bytes) (done out : List Bytes)
      → parse_files w files done ≡ ok out
      → ((more : List Bytes) × (out ≡ done ++ more)) × All (IsLoaded out) files
  unfolding parse_files
  parse_files-eq-ok [] done out h = (([], sym (append-nil done ∙ ok-injective h)), tt)
  parse_files-eq-ok (file ∷ files) done out h =
      let (next, first, rest) = >>=-eq-ok (parse_file w file done) _ h in
      let (content, keys, read, found, joined) = parse_file-eq-ok file done next first in
      let ((more, all_of), loaded) = parse_files-eq-ok files next out rest in
      let whole : out ≡ done ++ (keys ++ more) =
        all_of ∙ ap (λ l. l ++ more) joined ∙ append_assoc done keys more in
      ((keys ++ more, whole), ((content, keys, done, more, read, found, whole), loaded))

  with_trusted-eq-ok :
      (no_keys_client no_certs_client : Option Error) (s : Settings) (keys : List Signer)
      (certs : Certs) (trusted : List Bytes) (k : Keys)
      → with_trusted w no_keys_client no_certs_client s (keys, certs) trusted ≡ ok k
      → (keys ≡ k.host_keys)
        × (trusted ≡ k.trusted)
        × ((is_empty s.trusted_user_ca_keys ≡ false) → is_empty trusted ≡ false)
  unfolding with_trusted
  with_trusted-eq-ok no_keys_client no_certs_client s keys certs trusted k h =
      let (kept, made) =
        early-eq-ok (not (is_empty s.trusted_user_ca_keys) && is_empty trusted) _ _ h in
      let same = ok-injective made in
      (ap (λ x. x.host_keys) same, ap (λ x. x.trusted) same, λ some_. ground (arith, kept, some_))

  load_keys-eq-ok :
      (no_keys_client no_certs_client : Option Error) (s : Settings) (k : Keys)
      → load_keys w no_keys_client no_certs_client s ≡ ok k
      → (is_empty k.host_keys ≡ false)
        × All (IsLoaded k.trusted) s.trusted_user_ca_keys
        × ((is_empty s.trusted_user_ca_keys ≡ false) → is_empty k.trusted ≡ false)
  unfolding load_keys parse_trusted_user_ca_keys parse_host_certs
  load_keys-eq-ok no_keys_client no_certs_client s k h =
      let keys = parse_host_keys w s.host_key_files in
      let (some_key, h1) = early-eq-ok (is_empty keys) _ _ h in
      let (trusted, wrapped_, h2) = >>=-eq-ok _ _ h1 in
      let files = wrap-eq-ok _ (parse_files w s.trusted_user_ca_keys []) wrapped_ in
      let (_, loaded) = parse_files-eq-ok s.trusted_user_ca_keys [] trusted files in
      let (hosts, same, full) =
        with_trusted-eq-ok no_keys_client no_certs_client s _ _ trusted k h2 in
      (
        ap is_empty (sym hosts) ∙ host_certs-is_empty w _ s.host_cert_files keys [] ∙ some_key,
        subst (λ t. All (IsLoaded t) s.trusted_user_ca_keys) same loaded,
        λ some_. ap is_empty (sym same) ∙ full some_,
      )

  -- Where parsing a key leaves a shorter text, a configuration that the server starts with has a
  -- host key; every file of trusted CA keys was read and parsed to its end, with each of its keys in
  -- the set; and the set is not empty if such a file is configured.
  pub new_server_config-IsLoaded :
      (no_keys_client no_certs_client : Option Error) (s : Settings) (k : Keys)
      → new_server_config w no_keys_client no_certs_client s ≡ ok k
      → (is_empty k.host_keys ≡ false)
        × All (IsLoaded k.trusted) s.trusted_user_ca_keys
        × ((is_empty s.trusted_user_ca_keys ≡ false) → is_empty k.trusted ≡ false)
  unfolding new_server_config load_keys with_trusted parse_trusted_user_ca_keys parse_host_certs
  new_server_config-IsLoaded no_keys_client no_certs_client s k h =
      elim (Option-cases no_keys_client) [
        | inr (e, bad) ↦ absurd (cc (rw (bad, new_server_config) at h))
        | inl fine ↦ elim (Option-cases no_certs_client) [
          | inr (e, bad) ↦
              absurd (cc (rw (bad, new_server_config) at (rw (fine, new_server_config) at h)))
          | inl fine' ↦
              load_keys-eq-ok no_keys_client no_certs_client s k
                (rw (fine', new_server_config) at (rw (fine, new_server_config) at h))
        ]
      ]
