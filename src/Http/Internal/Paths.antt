-- ===== src/Http/Internal/Paths.antt =====
-- The paths of internal/clients/gitlab: what they are once they are normalised, and against those of
-- client/gitlabnet.go.
use gitlab_shell.Prelude.{
  if◌then◌else◌, ==_iff, All, Bytes, has_prefix, split, ◌≡◌, refl, sym, ap, ◌∙◌, inl, inr, Bool,
  true, false, not, [], ◌∷◌, arith, split-ne-nil,
}
use gitlab_shell.ApiClient
use gitlab_shell.ApiClient.Rules
use gitlab_shell.Errors.{ok, err, Error, ok-injective}
use gitlab_shell.Path.{clean, slash}
use gitlab_shell.Path.Rooted.{IsProper, clean-proper, clean-IsProper}
use gitlab_shell.Http.{Files, internal_api_path}
use gitlab_shell.Http.Internal.{prefixed, normalize_path}

-- What every call may rely on: the path begins with the bytes of the internal API's path, which
-- `/api/v4/internal_events` does too, has no empty part, no `.` and no `..`, and is not changed any
-- more.
abbrev pub IsPrefixed : Files → Bytes → Type 0
IsPrefixed os s =
    (has_prefix s internal_api_path ≡ true)
    × ((w : Bytes) × (s ≡ slash ∷ w) × All IsProper (split w slash))
    × (normalize_path os s ≡ ok s)

prefixed_old : (os : Files) (p : Bytes) → prefixed os p ≡ ApiClient.normalize_path p
unfolding prefixed ApiClient.normalize_path ApiClient.prefixed ApiClient.rooted
prefixed_old os p = refl

-- A path with the prefix begins with a slash.
has_prefix-slash :
    (s : Bytes) → has_prefix s internal_api_path ≡ true → (w : Bytes) × (s ≡ slash ∷ w)
unfolding has_prefix
has_prefix-slash [] h = cc
has_prefix-slash (x ∷ s) h = (s, ap (λ y. y ∷ s) ((==_iff x slash).0 (ground arith)))

clean-internal : (w : Bytes) → All IsProper (split w slash) → clean (slash ∷ w) ≡ slash ∷ w
clean-internal w h = let (p, ps, e) = split-ne-nil w slash in clean-proper w p ps e (rw e at h)

-- The end of `normalizePath`, on the cleaned path.
checked :
    (below : Bool) (e : Error) (cleaned s : Bytes)
    → (if not below then err e else ok cleaned) ≡ ok s
    → (below ≡ true) × (cleaned ≡ s)
checked true e cleaned s h = (refl, ok-injective h)
checked false e cleaned s h = absurd (cc h)

normalize_path-eq-ok :
    (os : Files) (p s : Bytes)
    → normalize_path os p ≡ ok s
    → (has_prefix s internal_api_path ≡ true) × (clean (prefixed os p) ≡ s)
unfolding normalize_path
normalize_path-eq-ok os p s h =
    let (below, e) = checked _ _ (clean (prefixed os p)) s h in (rw e at below, e)

-- What is accepted, of a path that begins with that of the internal API.
accepted :
    (os : Files) (p s : Bytes)
    → clean (prefixed os p) ≡ s
    → has_prefix s internal_api_path ≡ true
    → normalize_path os p ≡ ok s
unfolding normalize_path
accepted os p s e below = rw (e, below) refl

prefixed-slash : (os : Files) (p : Bytes) → (w : Bytes) × (prefixed os p ≡ slash ∷ w)
prefixed-slash os p =
    has_prefix-slash (prefixed os p)
      (rw (prefixed_old os p) (ApiClient.Rules.normalize_path_idem p).0)

-- A path that begins with that of the internal API, with proper parts, is a fixed point.
normalize_path_fixed :
    (os : Files) (w : Bytes)
    → has_prefix (slash ∷ w) internal_api_path ≡ true
    → All IsProper (split w slash)
    → normalize_path os (slash ∷ w) ≡ ok (slash ∷ w)
normalize_path_fixed os w below proper =
    let same : prefixed os (slash ∷ w) ≡ slash ∷ w =
      prefixed_old os (slash ∷ w) ∙ ApiClient.Rules.normalize-fix (slash ∷ w) below in
    accepted os (slash ∷ w) (slash ∷ w) (ap clean same ∙ clean-internal w proper) below

-- A path that is accepted begins with the bytes of the internal API's, has no empty part, no `.` and no `..`, and is
-- accepted again as it stands.
pub normalize_path-IsPrefixed :
    (os : Files) (p s : Bytes) → normalize_path os p ≡ ok s → IsPrefixed os s
unfolding has_prefix
normalize_path-IsPrefixed os p s h =
    let (below, e) = normalize_path-eq-ok os p s h in
    let (w, starts) = prefixed-slash os p in
    let cleaned : clean (slash ∷ w) ≡ s = rw starts at e in
    elim (clean-IsProper w) [
      | inl root ↦ let no : false ≡ true = rw (sym cleaned ∙ root) at below in absurd (cc no)
      | inr (v, same, proper) ↦
          let s_is : s ≡ slash ∷ v = sym cleaned ∙ same in
          let below' : has_prefix (slash ∷ v) internal_api_path ≡ true = rw s_is at below in
          (below, (v, s_is, proper), rw s_is (normalize_path_fixed os v below' proper))
    ]

-- Where the older client's path has no empty part, no `.` and no `..`, both clients send the same
-- path.
pub normalize_path-agrees :
    (os : Files) (p w : Bytes)
    → ApiClient.normalize_path p ≡ slash ∷ w
    → All IsProper (split w slash)
    → normalize_path os p ≡ ok (slash ∷ w)
normalize_path-agrees os p w e proper =
    let same : prefixed os p ≡ slash ∷ w = prefixed_old os p ∙ e in
    let below = rw e at (ApiClient.Rules.normalize_path_idem p).0 in
    accepted os p (slash ∷ w) (ap clean same ∙ clean-internal w proper) below
