-- ===== src/Path.antt =====
-- `path.Clean` and `path.Join` of Go's standard library, on the parts of a path.
pub mod Rooted
use gitlab_shell.Prelude.{
  ltb, leb, ◌==◌, if◌then◌else◌, ==_iff, Bool-cases, Option-cases, and-eq-true_iff, length, take,
  drop, replicate, all, any, length-append, take-append-drop, length-take, length-drop, take-append,
  drop-append, take-append_all, drop-append_all, All, All-append, Bytes, codes, eqb, eqb_iff,
  eqb_refl, is_empty, has_prefix, trim_prefix, trim_suffix, trim_left, contains_byte, contains,
  before, split, last, mem, Lacks, Lacks-contains_byte, contains_byte-Lacks, ℕ, zero, suc, ◌+◌, ◌-◌,
  ◌*◌, ◌/◌, ◌%◌, ◌^◌, ◌≤◌, ◌<◌, ◌≡◌, refl, sym, ap, ◌∙◌, ◌≢◌, ◌↔◌, ◌⊎◌, inl, inr, Bool, true, false,
  not, ◌&&◌, ◌||◌, Option, none, some, List, [], ◌∷◌, ◌++◌, map, append_assoc, append-nil, arith,
  last-split, split-ne-nil, All-mono,
}

abbrev pub slash : ℕ
slash = b'/'

-- `..`: a part is taken off, unless there is none or it is `..` itself.
unfoldable climb : Bool → List Bytes → List Bytes
unfolding eqb
climb true [] = []
climb false [] = codes ".." ∷ []
climb rooted (p ∷ ps) = if eqb p (codes "..") then codes ".." ∷ p ∷ ps else ps

-- One part; the stack has the last part at its head.
unfoldable resolve : Bool → List Bytes → Bytes → List Bytes
unfolding climb
resolve rooted stack part =
    if is_empty part || eqb part (codes ".")
    then stack
    else if eqb part (codes "..")
    then climb rooted stack
    else part ∷ stack

unfoldable parts_from : Bool → List Bytes → List Bytes → List Bytes
parts_from rooted stack [] = stack
parts_from rooted stack (p ∷ ps) = parts_from rooted (resolve rooted stack p) ps

-- The parts, last first, with a slash between them in front of `out`.
unfoldable spell : List Bytes → Bytes → Bytes
spell [] out = out
spell (p ∷ []) out = p ++ out
spell (p ∷ q ∷ ps) out = spell (q ∷ ps) (slash ∷ (p ++ out))

dot_if_empty : Bytes → Bytes
dot_if_empty [] = codes "."
dot_if_empty (c ∷ s) = c ∷ s

-- `path.Clean`
unfoldable pub clean : Bytes → Bytes
unfolding split parts_from resolve spell dot_if_empty
clean [] = codes "."
clean (c ∷ s) =
    if c == slash
    then slash ∷ spell (parts_from true [] (split (c ∷ s) slash)) []
    else dot_if_empty (spell (parts_from false [] (split (c ∷ s) slash)) [])

-- `path.Join` joins the elements that are not empty, and cleans the result.
joined : List Bytes → Bytes
joined [] = []
joined (p ∷ ps) =
    let rest = joined ps in
    if is_empty p then rest else if is_empty rest then p else p ++ slash ∷ rest

unfoldable pub join : List Bytes → Bytes
unfolding clean joined
join elems = let all_of = joined elems in if is_empty all_of then [] else clean all_of

tests :
    (clean (codes "/a//b/../c/.") ≡ codes "/a/c")
    × (clean (codes "../../x") ≡ codes "../../x")
    × (clean (codes "a/..") ≡ codes ".")
    × (clean (codes "/..") ≡ codes "/")
    × (join (codes "/opt/gitlab/" ∷ codes "bin" ∷ codes "gitlab-shell" ∷ [])
        ≡ codes "/opt/gitlab/bin/gitlab-shell")
unfolding clean join
tests = (refl, refl, refl, refl, refl)
