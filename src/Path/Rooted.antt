-- ===== src/Path/Rooted.antt =====
-- What `path.Clean` guarantees of a path that begins with a slash.
use gitlab_shell.Prelude.{
  ◌==◌, ==_iff, Bool-cases, All, Bytes, codes, eqb, is_empty, split, Lacks, ℕ, ◌≡◌, refl, sym, ap,
  ◌∙◌, ◌⊎◌, inl, inr, true, false, List, [], ◌∷◌, ◌++◌, append-nil, split-ne-nil,
}
use gitlab_shell.Path.{clean, clean, slash, climb, resolve, parts_from, spell}

-- A part that a clean path may have: not empty, and neither `.` nor `..`.
abbrev pub IsProper : Bytes → Type 0
IsProper p = (is_empty p ≡ false) × (eqb p (codes ".") ≡ false) × (eqb p (codes "..") ≡ false)

abbrev IsPart : Bytes → Type 0
IsPart p = IsProper p × Lacks slash p

resolve-proper : (stack : List Bytes) (p : Bytes) → IsProper p → resolve true stack p ≡ p ∷ stack
unfolding resolve
resolve-proper stack p (a, b, c) = simp (a, b, c, resolve)

climb-IsPart : (stack : List Bytes) → All IsPart stack → All IsPart (climb true stack)
unfolding climb
climb-IsPart [] h = tt
climb-IsPart (p ∷ ps) (h, hs) = rw (h.0.2) hs

resolve-IsPart :
    (stack : List Bytes) (p : Bytes)
    → All IsPart stack
    → Lacks slash p
    → All IsPart (resolve true stack p)
unfolding resolve
resolve-IsPart stack p h l = elim (Bool-cases (is_empty p)) [
  | inl empty ↦ let same : resolve true stack p ≡ stack = simp (empty, resolve) in rw same h
  | inr full ↦ elim (Bool-cases (eqb p (codes "."))) [
    | inl dot ↦ let same : resolve true stack p ≡ stack = simp (full, dot, resolve) in rw same h
    | inr other ↦ elim (Bool-cases (eqb p (codes ".."))) [
      | inl up ↦
          let same : resolve true stack p ≡ climb true stack = simp (full, other, up, resolve) in
          rw same (climb-IsPart stack h)
      | inr down ↦ rw (resolve-proper stack p (full, other, down)) (((full, other, down), l), h)
    ]
  ]
]

parts_from-IsPart :
    (stack parts : List Bytes)
    → All IsPart stack
    → All (Lacks slash) parts
    → All IsPart (parts_from true stack parts)
unfolding parts_from
parts_from-IsPart stack [] h l = h
parts_from-IsPart stack (p ∷ ps) h (l, ls) =
    parts_from-IsPart (resolve true stack p) ps (resolve-IsPart stack p h l) ls

split-Lacks : (s : Bytes) (c : ℕ) → All (Lacks c) (split s c)
unfolding split
split-Lacks [] c = (tt, tt)
split-Lacks (x ∷ s) c =
    let (p, ps, e) = split-ne-nil s c in
    let (h, hs) : All (Lacks c) (p ∷ ps) = rw (e) at (split-Lacks s c) in
    elim (Bool-cases (x == c)) [
      | inl same ↦
          let whole : split (x ∷ s) c ≡ [] ∷ p ∷ ps = simp (same, e, split) in
          rw whole (tt, (h, hs))
      | inr other ↦
          let whole : split (x ∷ s) c ≡ (x ∷ p) ∷ ps = simp (other, e, split) in
          rw whole (((λ e'. absurd (cc ((==_iff x c).1 e', other))), h), hs)
    ]

split-append_Lacks : (p w : Bytes) (c : ℕ) → Lacks c p → split (p ++ c ∷ w) c ≡ p ∷ split w c
unfolding split
split-append_Lacks [] w c h = let here : (c == c) ≡ true = (==_iff c c).1 refl in rw here
split-append_Lacks (x ∷ p) w c (h, hs) = elim (Bool-cases (x == c)) [
  | inl same ↦ absurd (h ((==_iff x c).0 same))
  | inr other ↦ rw (other, split-append_Lacks p w c hs)
]

split-append_end : (p : Bytes) (c : ℕ) → Lacks c p → split p c ≡ p ∷ []
unfolding split
split-append_end [] c h = refl
split-append_end (x ∷ p) c (h, hs) = elim (Bool-cases (x == c)) [
  | inl same ↦ absurd (h ((==_iff x c).0 same))
  | inr other ↦ rw (other, split-append_end p c hs) refl
]

-- The parts of a text that is spelled in front of a slash.
spell-IsProper :
    (p : Bytes) (ps : List Bytes) (w : Bytes)
    → All IsPart (p ∷ ps)
    → All IsProper (split w slash)
    → All IsProper (split (spell (p ∷ ps) (slash ∷ w)) slash)
unfolding spell
spell-IsProper p [] w ((h, l), _) rest = rw (split-append_Lacks p w slash l) (h, rest)
spell-IsProper p (q ∷ ps) w ((h, l), hs) rest =
    spell-IsProper q ps (p ++ slash ∷ w) hs (rw (split-append_Lacks p w slash l) (h, rest))

split-IsProper :
    (p : Bytes) (ps : List Bytes)
    → All IsPart (p ∷ ps)
    → All IsProper (split (spell (p ∷ ps) []) slash)
unfolding spell
split-IsProper p [] ((h, l), _) = rw (append-nil p, split-append_end p slash l) (h, tt)
split-IsProper p (q ∷ ps) ((h, l), hs) =
    spell-IsProper q ps (p ++ []) hs (rw (append-nil p, split-append_end p slash l) (h, tt))

-- The parts with a slash between them.
unfoldable unsplit : List Bytes → Bytes
unsplit [] = []
unsplit (p ∷ []) = p
unsplit (p ∷ q ∷ ps) = p ++ slash ∷ unsplit (q ∷ ps)

unsplit-cons : (x : ℕ) (p : Bytes) (ps : List Bytes) → unsplit ((x ∷ p) ∷ ps) ≡ x ∷ unsplit (p ∷ ps)
unfolding unsplit
unsplit-cons x p [] = refl
unsplit-cons x p (q ∷ ps) = refl

unsplit-split : (s : Bytes) → unsplit (split s slash) ≡ s
unfolding unsplit split
unsplit-split [] = refl
unsplit-split (x ∷ s) =
    let (p, ps, e) = split-ne-nil s slash in
    let rest : unsplit (p ∷ ps) ≡ s = rw e at (unsplit-split s) in
    elim (Bool-cases (x == slash)) [
      | inl same ↦
          let whole : split (x ∷ s) slash ≡ [] ∷ p ∷ ps = simp (same, e, split) in
          rw (whole, unsplit, rest, (==_iff x slash).0 same) refl
      | inr other ↦
          let whole : split (x ∷ s) slash ≡ (x ∷ p) ∷ ps = simp (other, e, split) in
          rw (whole, unsplit-cons x p ps, rest) refl
    ]

-- A text behind the parts of a stack.
unfoldable after : List Bytes → Bytes → Bytes
after [] w = w
after (p ∷ ps) w = spell (p ∷ ps) (slash ∷ w)

after-spell :
    (stack : List Bytes) (p w : Bytes)
    → spell (p ∷ stack) (slash ∷ w) ≡ after stack (p ++ slash ∷ w)
unfolding after spell
after-spell [] p w = refl
after-spell (q ∷ ps) p w = refl

-- Proper parts are spelled as they stand.
spell-parts_from :
    (stack : List Bytes) (p : Bytes) (ps : List Bytes)
    → All IsProper (p ∷ ps)
    → spell (parts_from true stack (p ∷ ps)) [] ≡ after stack (unsplit (p ∷ ps))
unfolding parts_from unsplit spell after
spell-parts_from [] p [] (h, _) =
    rw (resolve-proper [] p h, parts_from, spell, after, append-nil p) refl
spell-parts_from (a ∷ stack) p [] (h, _) =
    rw (resolve-proper (a ∷ stack) p h, parts_from, spell, after, append-nil p) refl
spell-parts_from stack p (q ∷ ps) (h, hs) =
    rw (resolve-proper stack p h)
      (spell-parts_from (p ∷ stack) q ps hs ∙ after-spell stack p (unsplit (q ∷ ps)))

-- A rooted path whose parts are proper is clean.
pub clean-proper :
    (s p : Bytes) (ps : List Bytes)
    → split s slash ≡ p ∷ ps
    → All IsProper (p ∷ ps)
    → clean (slash ∷ s) ≡ slash ∷ s
unfolding clean unsplit after
clean-proper s p ps e h =
    let same : spell (parts_from true [] (p ∷ ps)) [] ≡ unsplit (p ∷ ps) =
      spell-parts_from [] p ps h in
    rw e (ap (λ w. slash ∷ w) (same ∙ ap unsplit (sym e) ∙ unsplit-split s))

spelled-IsProper :
    (stack : List Bytes)
    → All IsPart stack
    → (◌≡◌ {A = Bytes} (slash ∷ spell stack []) (slash ∷ []))
      ⊎ ((w : Bytes) × (◌≡◌ {A = Bytes} (slash ∷ spell stack []) (slash ∷ w))
          × All IsProper (split w slash))
unfolding spell
spelled-IsProper [] h = inl refl
spelled-IsProper (p ∷ ps) h = inr (spell (p ∷ ps) [], refl, split-IsProper p ps h)

-- The cleaned form of a rooted path is the root, or has proper parts only.
pub clean-IsProper :
    (s : Bytes)
    → (clean (slash ∷ s) ≡ slash ∷ [])
      ⊎ ((w : Bytes) × (clean (slash ∷ s) ≡ slash ∷ w) × All IsProper (split w slash))
unfolding clean
clean-IsProper s =
    spelled-IsProper (parts_from true [] (split s slash))
      (parts_from-IsPart [] (split s slash) tt (split-Lacks s slash))

clean-root : clean (slash ∷ []) ≡ slash ∷ []
unfolding clean
clean-root = refl

-- A rooted path is clean once it was cleaned.
pub clean-clean : (s : Bytes) → clean (clean (slash ∷ s)) ≡ clean (slash ∷ s)
clean-clean s = elim (clean-IsProper s) [
  | inl root ↦ rw root clean-root
  | inr (w, e, proper) ↦
      let (p, ps, parts) = split-ne-nil w slash in
      rw e (clean-proper w p ps parts (rw parts at proper))
]
