-- ===== src/Prelude/Text.antt =====
-- A Go string is a sequence of bytes; the operations of `strings` that the program uses.
use Prim.Native.Nat.{ℕ}
use Prim.Native.Char.{code}
use Prim.Native.String.{String}
use mathlib.Core.Path.{◌≡◌, refl, ap, ◌∙◌}
use mathlib.Core.Logic.{◌↔◌, ◌≢◌, inl, inr}
use mathlib.Core.Bool.{Bool, true, false, ◌&&◌, ◌||◌}
use mathlib.Core.List.{List, [], ◌∷◌, ◌++◌}
use native.Mathlib.Omega.{arith}
use gitlab_shell.Prelude.Logic.{Bool-cases, ==_iff, ◌==◌, if◌then◌else◌}
use gitlab_shell.Prelude.Lists.{length, drop, All, any}

abbrev pub Bytes : Type 0
Bytes = List ℕ

-- The bytes of an ASCII literal.
abbrev pub codes : String → Bytes
codes String.[] = []
codes (String.◌∷◌ c s) = code c ∷ codes s

-- `a == b` on strings.
unfoldable pub eqb : Bytes → Bytes → Bool
eqb [] [] = true
eqb (x ∷ xs) (y ∷ ys) = x == y && eqb xs ys
eqb _ _ = false

pub eqb_iff : (a b : Bytes) → (eqb a b ≡ true) ↔ (a ≡ b)
unfolding eqb
eqb_iff [] [] = (λ _. refl, λ _. refl)
eqb_iff [] (y ∷ b) = (λ h. cc, λ h. cc)
eqb_iff (x ∷ a) [] = (λ h. cc, λ h. cc)
eqb_iff (x ∷ a) (y ∷ b) = (λ h. ground (arith, eqb_iff a b), λ h. ground (arith, eqb_iff a b))

pub eqb_refl : (a : Bytes) → eqb a a ≡ true
eqb_refl a = (eqb_iff a a).1 refl

abbrev pub is_empty {ℓ} : {A : Type ℓ} → List A → Bool
is_empty [] = true
is_empty (x ∷ xs) = false

-- `strings.HasPrefix(s, p)`
unfoldable pub has_prefix : Bytes → Bytes → Bool
has_prefix s [] = true
has_prefix [] (y ∷ p) = false
has_prefix (x ∷ s) (y ∷ p) = x == y && has_prefix s p

-- `strings.TrimPrefix(s, p)`: `s` without `p` if it begins with `p`.
unfoldable pub trim_prefix : Bytes → Bytes → Bytes
unfolding has_prefix
trim_prefix s p = if has_prefix s p then drop (length p) s else s

-- `strings.TrimSuffix(s, p)`: the place where the rest is `p` is searched from the front.
unfoldable pub trim_suffix : Bytes → Bytes → Bytes
unfolding eqb
trim_suffix [] p = []
trim_suffix (x ∷ s) p = let rest = trim_suffix s p in if eqb (x ∷ s) p then [] else x ∷ rest

-- `strings.TrimLeft(s, string(c))` for one byte.
unfoldable pub trim_left : Bytes → ℕ → Bytes
trim_left [] c = []
trim_left (x ∷ s) c = let rest = trim_left s c in if x == c then rest else x ∷ s

-- `strings.Contains(s, string(c))` for one byte.
unfoldable pub contains_byte : Bytes → ℕ → Bool
contains_byte [] c = false
contains_byte (x ∷ s) c = x == c || contains_byte s c

-- `strings.Contains(s, sub)`
unfoldable pub contains : Bytes → Bytes → Bool
unfolding has_prefix
contains [] sub = has_prefix [] sub
contains (x ∷ s) sub = has_prefix (x ∷ s) sub || contains s sub

-- The bytes in front of the first `c`, all of them if there is none.
unfoldable pub before : Bytes → ℕ → Bytes
before [] c = []
before (x ∷ s) c = if x == c then [] else x ∷ before s c

onto : ℕ → List Bytes → List Bytes
onto x [] = (x ∷ []) ∷ []
onto x (p ∷ ps) = (x ∷ p) ∷ ps

-- `strings.Split(s, sep)` for a separator of one byte, read from the back.
unfoldable pub split : Bytes → ℕ → List Bytes
unfolding onto
split [] sep = [] ∷ []
split (x ∷ s) sep = let rest = split s sep in if x == sep then [] ∷ rest else onto x rest

-- The last part of a split.
unfoldable pub last : List Bytes → Bytes
last [] = []
last (p ∷ []) = p
last (p ∷ q ∷ ps) = last (q ∷ ps)

-- `slices.Contains`
unfoldable pub mem : Bytes → List Bytes → Bool
unfolding eqb
mem x xs = any (λ y. eqb y x) xs

abbrev pub Lacks : ℕ → Bytes → Type 0
Lacks b = All (λ c. c ≢ b)

pub Lacks-contains_byte : (s : Bytes) (c : ℕ) → contains_byte s c ≡ false → Lacks c s
unfolding contains_byte
Lacks-contains_byte [] c h = tt
Lacks-contains_byte (x ∷ s) c h = ground (arith, Lacks-contains_byte s c)

pub contains_byte-Lacks : (s : Bytes) (c : ℕ) → Lacks c s → contains_byte s c ≡ false
unfolding contains_byte
contains_byte-Lacks [] c h = refl
contains_byte-Lacks (x ∷ s) c h = ground (arith, contains_byte-Lacks s c)

pub split-ne-nil : (s : Bytes) (c : ℕ) → (p : Bytes) × (ps : List Bytes) × (split s c ≡ p ∷ ps)
unfolding split
split-ne-nil [] c = ([], [], refl)
split-ne-nil (x ∷ s) c =
    let (p, ps, e) = split-ne-nil s c in
    elim (Bool-cases (x == c)) [
      | inl same ↦ ([], split s c, rw same)
      | inr other ↦ (x ∷ p, ps, rw (other, e))
    ]

-- A split with a separator in it has two parts or more, and ends as the split behind that
-- separator.
split-append :
    (s w : Bytes) (c : ℕ)
    → (p q : Bytes) × (ps : List Bytes) × (split (s ++ c ∷ w) c ≡ p ∷ q ∷ ps)
      × (last (q ∷ ps) ≡ last (split w c))
unfolding split last
split-append [] w c =
    let (q, ps, e) = split-ne-nil w c in
    let here : (c == c) ≡ true = (==_iff c c).1 refl in ([], q, ps, rw (here, e), rw e)
split-append (x ∷ s) w c =
    let (p, q, ps, e, l) = split-append s w c in
    elim (Bool-cases (x == c)) [
      | inl same ↦ ([], p, q ∷ ps, rw (same, e), l)
      | inr other ↦ (x ∷ p, q, ps, rw (other, e), l)
    ]

split-Lacks : (w : Bytes) (c : ℕ) → Lacks c w → split w c ≡ w ∷ []
unfolding split
split-Lacks [] c h = refl
split-Lacks (x ∷ w) c (h, hs) = elim (Bool-cases (x == c)) [
  | inl same ↦ absurd (h ((==_iff x c).0 same))
  | inr other ↦ rw (other, split-Lacks w c hs)
]

-- The last word of a text.
pub last-split : (s w : Bytes) (c : ℕ) → Lacks c w → last (split (s ++ c ∷ w) c) ≡ w
unfolding last
last-split s w c h =
    let (p, q, ps, e, l) = split-append s w c in rw e (l ∙ ap last (split-Lacks w c h))
