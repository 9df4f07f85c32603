-- ===== src/Http/Agreement.antt =====
-- The transports that client/httpclient.go and internal/clients/gitlab choose for one configuration.
use gitlab_shell.Prelude.{
  ◌==◌, if◌then◌else◌, Bool-cases, Option-cases, any, Bytes, is_empty, has_prefix, ℕ, ◌≡◌, refl,
  sym, ap, ◌∙◌, ◌⊎◌, inl, inr, Bool, true, false, not, ◌||◌, Option, none, some, List, [], ◌∷◌,
  ◌++◌, arith,
}
use gitlab_shell.Http.{Entry, Files, TlsConfig, Transport, with_tls, https_protocol}
use gitlab_shell.Errors.{
  Error, Result, ok, ◌>>=◌, >>=-eq-ok, ok-injective, early-eq-ok, Result-cases,
}
use gitlab_shell.Path.{clean, join, slash}
use gitlab_shell.Path.Rooted.{clean-clean}
use gitlab_shell.Http.Client
use gitlab_shell.Http.Client.{
  HttpClientCfg, choose_transport, add_cert_to_pool, add_directory, cert_pool, finish_https,
  build_with_pool, have_cert_and_key,
}
use gitlab_shell.Http.Internal
use gitlab_shell.Http.Internal.{
  Config, build_transport, build_https_transport, system_pool, append_certs, append_ca_file,
  append_ca_dir_entry, append_entries, append_ca_dir, is_certificate_file,
}

socket_same :
    (url root : Bytes)
    → Client.build_socket_transport url root ≡ Internal.build_socket_transport url root
unfolding Client.build_socket_transport Internal.build_socket_transport
socket_same url root = ground arith

-- For a URL that is not below `https://`, both clients choose the same transport and the same host,
-- or fail alike.
pub choose_transport-agrees :
    (os : Files) (old : HttpClientCfg) (cfg : Config)
    → has_prefix cfg.gitlab_url https_protocol ≡ false
    → choose_transport os old cfg.gitlab_url cfg.relative_url_root cfg.ca_file
      ≡ build_transport os cfg
unfolding choose_transport build_transport
choose_transport-agrees os old cfg h = rw (h, socket_same cfg.gitlab_url cfg.relative_url_root) refl

-- Whether a pool holds a certificate.
abbrev pub holds : List ℕ → ℕ → Bool
holds pool cert = any (λ c. c == cert) pool

abbrev pub Within : List ℕ → List ℕ → Type 0
Within small big = (cert : ℕ) → holds small cert ≡ true → holds big cert ≡ true

holds-append :
    (xs ys : List ℕ) (cert : ℕ) → holds (xs ++ ys) cert ≡ (holds xs cert || holds ys cert)
holds-append [] ys cert = refl
holds-append (x ∷ xs) ys cert = ground (arith, holds-append xs ys cert)

Within-append : (small big more : List ℕ) → Within small big → Within (small ++ more) (big ++ more)
Within-append small big more h cert e =
    ground (arith, h cert, holds-append small more cert, holds-append big more cert)

Within-wider : (small big more : List ℕ) → Within small big → Within small (big ++ more)
Within-wider small big more h cert e = ground (arith, h cert, holds-append big more cert)

-- Cleaning a joined path below an absolute directory changes nothing.
clean-join :
    (dir name : Bytes) → clean (join ((slash ∷ dir) ∷ name ∷ [])) ≡ join ((slash ∷ dir) ∷ name ∷ [])
unfolding join
clean-join dir [] = clean-clean dir
clean-join dir (x ∷ name) = clean-clean (dir ++ slash ∷ x ∷ name)

-- A CA directory that is not given, or an absolute path.
abbrev pub IsNoneOrAbsolute : Bytes → Type 0
IsNoneOrAbsolute ca_path = (ca_path ≡ []) ⊎ ((dir : Bytes) × (ca_path ≡ slash ∷ dir))

roots_of : Result Transport → List ℕ
roots_of (ok (with_tls tls)) = tls.root_cas
roots_of _ = []

module _ (os : Files) where
  add_cert-Within :
      (small big : List ℕ) (file : Bytes)
      → Within small big
      → Within small (add_cert_to_pool os big file)
  unfolding add_cert_to_pool
  add_cert-Within small big file h = elim (Result-cases (os.read_file (clean file))) [
    | inl (e, bad) ↦ rw (bad, add_cert_to_pool) h
    | inr (content, good) ↦ rw (good, add_cert_to_pool) (Within-wider small big (os.pem content) h)
  ]

  -- A file that the newer client loads is loaded by the older one.
  append_certs-eq-ok :
      (file content : Bytes) (pool out : List ℕ)
      → append_certs os file content pool ≡ ok out
      → pool ++ os.pem content ≡ out
  unfolding append_certs
  append_certs-eq-ok file content pool out h =
      ok-injective (early-eq-ok (is_empty (os.pem content)) _ (ok (pool ++ os.pem content)) h).1

  append_ca_dir_entry-Within :
      (dir name : Bytes) (pool out big : List ℕ)
      → append_ca_dir_entry os (slash ∷ dir) name pool ≡ ok out
      → Within pool big
      → Within out (add_cert_to_pool os big (join ((slash ∷ dir) ∷ name ∷ [])))
  unfolding append_ca_dir_entry add_cert_to_pool
  append_ca_dir_entry-Within dir name pool out big h w =
      let path = join ((slash ∷ dir) ∷ name ∷ []) in
      elim (Result-cases (os.read_file path)) [
        | inl (e, bad) ↦ absurd (cc (rw (bad, append_ca_dir_entry) at h))
        | inr (content, good) ↦
            let loaded : append_certs os path content pool ≡ ok out =
              rw (good, append_ca_dir_entry) at h in
            let same : add_cert_to_pool os big path ≡ big ++ os.pem content =
              simp (clean-join dir name, good, add_cert_to_pool) in
            rw (same, ← append_certs-eq-ok path content pool out loaded)
              (Within-append pool big (os.pem content) w)
      ]

  append_entries-Within :
      (dir : Bytes) (es : List Entry) (pool out big : List ℕ)
      → append_entries os (slash ∷ dir) es pool ≡ ok out
      → Within pool big
      → Within out (add_directory os (slash ∷ dir) big es)
  unfolding append_entries add_directory
  append_entries-Within dir [] pool out big h w = rw (← ok-injective h) w
  append_entries-Within dir (e ∷ es) pool out big h w = elim (Bool-cases e.is_dir) [
    | inl folder ↦
        rw (folder, add_directory)
          (append_entries-Within dir es pool out big (rw (folder, append_entries) at h) w)
    | inr file ↦ elim (Bool-cases (is_certificate_file e.name)) [
      | inl cert ↦
          let h1 : (append_ca_dir_entry os (slash ∷ dir) e.name pool
                >>= append_entries os (slash ∷ dir) es)
              ≡ ok out =
            rw (file, cert, append_entries) at h in
          let (next, loaded, h2) =
            >>=-eq-ok (append_ca_dir_entry os (slash ∷ dir) e.name pool) _ h1 in
          rw (file, add_directory)
            (append_entries-Within dir es next out _ h2
              (append_ca_dir_entry-Within dir e.name pool next big loaded w))
      | inr other ↦
          let h1 : append_entries os (slash ∷ dir) es pool ≡ ok out =
            rw (file, other, append_entries) at h in
          rw (file, add_directory)
            (append_entries-Within dir es pool out _ h1
              (add_cert-Within pool big (join ((slash ∷ dir) ∷ e.name ∷ [])) w))
    ]
  ]

  append_ca_file-Within :
      (file : Bytes) (pool out : List ℕ)
      → append_ca_file os file pool ≡ ok out
      → Within out (if not (is_empty file) then add_cert_to_pool os pool file else pool)
  unfolding append_ca_file add_cert_to_pool
  append_ca_file-Within [] pool out h = rw (← ok-injective h) (λ cert e. e)
  append_ca_file-Within (x ∷ file) pool out h =
      elim (Result-cases (os.read_file (clean (x ∷ file)))) [
        | inl (e, bad) ↦ absurd (cc (rw (bad, append_ca_file) at h))
        | inr (content, good) ↦
            let loaded : append_certs os (x ∷ file) content pool ≡ ok out =
              rw (good, append_ca_file) at h in
            let same : add_cert_to_pool os pool (x ∷ file) ≡ pool ++ os.pem content =
              simp (good, add_cert_to_pool) in
            rw (same, ← append_certs-eq-ok (x ∷ file) content pool out loaded) (λ cert e. e)
      ]

  append_ca_dir-Within :
      (dir : Bytes) (pool out big : List ℕ)
      → append_ca_dir os (slash ∷ dir) pool ≡ ok out
      → Within pool big
      → Within out (add_directory os (slash ∷ dir) big (os.read_dir (slash ∷ dir)).0)
  unfolding append_ca_dir
  append_ca_dir-Within dir pool out big h w = elim (Option-cases (os.read_dir (slash ∷ dir)).1) [
    | inr (e, bad) ↦ absurd (cc (rw (bad, append_ca_dir) at h))
    | inl fine ↦
        append_entries-Within dir (os.read_dir (slash ∷ dir)).0 pool out big
          (rw (fine, append_ca_dir) at h) w
  ]

  pool-Within :
      (cfg : Config) (old : HttpClientCfg) (system : List ℕ) (tls : TlsConfig)
      → os.system_cert_pool ≡ ok system
      → old.ca_file ≡ cfg.ca_file
      → old.ca_path ≡ cfg.ca_path
      → IsNoneOrAbsolute cfg.ca_path
      → build_https_transport os cfg ≡ ok (with_tls tls)
      → Within tls.root_cas (cert_pool os old system)
  unfolding build_https_transport cert_pool append_ca_dir system_pool roots_of
  pool-Within cfg old system tls pool file path placed h =
      let start : system_pool os ≡ system = simp (pool, system_pool) in
      let (with_file, h1, h2) = >>=-eq-ok (append_ca_file os cfg.ca_file (system_pool os)) _ h in
      let (out, h3, h4) = >>=-eq-ok (append_ca_dir os cfg.ca_path with_file) _ h2 in
      let loaded : append_ca_file os cfg.ca_file system ≡ ok with_file =
        ap (append_ca_file os cfg.ca_file) (sym start) ∙ h1 in
      let roots : out ≡ tls.root_cas = ap roots_of h4 in
      let files = append_ca_file-Within cfg.ca_file system with_file loaded in
      elim placed [
        | inl missing ↦
            let listed : append_ca_dir os [] with_file ≡ ok out =
              ap (λ d. append_ca_dir os d with_file) (sym missing) ∙ h3 in
            let pool_is : cert_pool os old system ≡ (
                if not (is_empty cfg.ca_file)
                then add_cert_to_pool os system cfg.ca_file
                else system) =
              simp (path, missing, file, cert_pool) in
            rw (← roots, pool_is, ← ok-injective listed) files
        | inr (dir, absolute) ↦
            let listed : append_ca_dir os (slash ∷ dir) with_file ≡ ok out =
              ap (λ d. append_ca_dir os d with_file) (sym absolute) ∙ h3 in
            let pool_is : cert_pool os old system
                ≡ add_directory os (slash ∷ dir)
                    (if not (is_empty cfg.ca_file)
                      then add_cert_to_pool os system cfg.ca_file
                      else system)
                    (os.read_dir (slash ∷ dir)).0 =
              simp (path, absolute, file, cert_pool) in
            rw (← roots, pool_is) (append_ca_dir-Within dir with_file out _ listed files)
      ]

  finish_https-eq-ok :
      (tls old_tls : TlsConfig) (failed : Option Error)
      → finish_https os failed tls ≡ ok (with_tls old_tls)
      → (failed ≡ none) × (old_tls.root_cas ≡ tls.root_cas)
  unfolding finish_https roots_of
  finish_https-eq-ok tls old_tls (some e) h = absurd (cc h)
  finish_https-eq-ok tls old_tls none h = (refl, sym (ap roots_of h))

  build_with_pool-eq-ok :
      (old : HttpClientCfg) (old_tls : TlsConfig) (system : List ℕ) (failed : Option Error)
      → build_with_pool os old system failed ≡ ok (with_tls old_tls)
      → (failed ≡ none) × (old_tls.root_cas ≡ cert_pool os old system)
  unfolding build_with_pool
  build_with_pool-eq-ok old old_tls system failed h = elim (Bool-cases (have_cert_and_key old)) [
    | inr bare ↦ finish_https-eq-ok _ old_tls failed (rw (bare, build_with_pool) at h)
    | inl pair ↦
        let (cert, loaded, h1) =
          >>=-eq-ok (os.load_key_pair old.cert_path old.key_path) _
            (rw (pair, build_with_pool) at h) in
        finish_https-eq-ok _ old_tls failed h1
  ]

  -- The older client connects with TLS only if the pool of the system could be read.
  build_https_transport-eq-ok :
      (old : HttpClientCfg) (old_tls : TlsConfig)
      → Client.build_https_transport os old ≡ ok (with_tls old_tls)
      → (system : List ℕ) × (os.system_cert_pool ≡ ok system)
        × (old_tls.root_cas ≡ cert_pool os old system)
  unfolding Client.build_https_transport
  build_https_transport-eq-ok old old_tls h = elim (Result-cases os.system_cert_pool) [
    | inr (system, good) ↦ (
      system,
      good,
      (build_with_pool-eq-ok old old_tls system none
          (rw (good, Client.build_https_transport) at h)).1,
    )
    | inl (e, bad) ↦ absurd (
        cc
          (build_with_pool-eq-ok old old_tls [] (some e)
            (rw (bad, Client.build_https_transport) at h)).0)
  ]

  -- Where both clients connect with TLS, with the same CA file and the same CA directory, which is
  -- not given or an absolute path, the transport of the older client trusts every certificate that
  -- the transport of the newer one trusts.
  pub build_https_transport-Within :
      (cfg : Config) (old : HttpClientCfg) (tls old_tls : TlsConfig)
      → old.ca_file ≡ cfg.ca_file
      → old.ca_path ≡ cfg.ca_path
      → IsNoneOrAbsolute cfg.ca_path
      → build_https_transport os cfg ≡ ok (with_tls tls)
      → Client.build_https_transport os old ≡ ok (with_tls old_tls)
      → Within tls.root_cas old_tls.root_cas
  build_https_transport-Within cfg old tls old_tls file path placed h h_old =
      let (system, pool, roots) = build_https_transport-eq-ok old old_tls h_old in
      rw roots (pool-Within cfg old system tls pool file path placed h)
