-- ===== src/KeyLine/RoundTrip.antt =====
-- The shell reads back the identity that a key line of internal/keyline/key_line.go names: the
-- line's command is what `parseWho` of internal/command/commandargs/shell.go is given.
use gitlab_shell.Prelude.{
  if◌then◌else◌, all, Bytes, codes, is_empty, has_prefix, contains_byte, split, last, Lacks, ℕ, ◌≡◌,
  refl, sym, ap, ◌∙◌, Bool, true, false, not, none, some, [], ◌∷◌, ◌++◌, arith, last-split,
}
use gitlab_shell.Errors.{Result, ok, err, plain, ok-injective}
use gitlab_shell.KeyLine.{
  KeyLine, key_char, key_regex, validate, new_key_line, command, public_key_prefix,
  principal_prefix,
}
use gitlab_shell.Path.{join}
use gitlab_shell.CommandArgs.{
  is_digit, not_space, submatch, try_parse, try_parse_key_id, try_parse_username,
}

-- The two tests of `validate` as variables.
made :
    (id value prefix root_dir : Bytes) (k : KeyLine) (good bad : Bool)
    → ◌≡◌ {A = Result KeyLine}
        (elim (if not good
          then some (plain (codes "invalid key_id: " ++ id))
          else if bad
          then some (plain (codes "invalid value: " ++ value))
          else none) [
            | some e ↦ err e
            | none ↦ ok (record { id = id; value = value; prefix = prefix; root_dir = root_dir })
          ])
        (ok k)
    → (good ≡ true)
      × (bad ≡ false)
      × (◌≡◌ {A = KeyLine}
          (record { id = id; value = value; prefix = prefix; root_dir = root_dir })
          k)
made id value prefix root_dir k true true h = cc
made id value prefix root_dir k true false h = (refl, refl, ok-injective h)
made id value prefix root_dir k false bad h = cc

-- A key line is made of an id that the regular expression accepts and a value on one line.
new_key_line-eq-ok :
    (id value prefix root_dir : Bytes) (k : KeyLine)
    → new_key_line id value prefix root_dir ≡ ok k
    → (key_regex id ≡ true)
      × (contains_byte value b'\n' ≡ false)
      × (k ≡ record { id = id; value = value; prefix = prefix; root_dir = root_dir })
unfolding new_key_line validate
new_key_line-eq-ok id value prefix root_dir k h =
    let parts = made id value prefix root_dir k (key_regex id) (contains_byte value b'\n') h in
    (parts.0, parts.1, sym parts.2)

all-Lacks :
    (class : ℕ → Bool) (c : ℕ) (s : Bytes) → class c ≡ false → all class s ≡ true → Lacks c s
all-Lacks class c [] h k = tt
all-Lacks class c (x ∷ s) h k =
    ((λ e. ground (arith, ap class e)), all-Lacks class c s h (ground arith))

all_mono :
    (p q : ℕ → Bool) (s : Bytes)
    → ((c : ℕ) → p c ≡ true → q c ≡ true)
    → all p s ≡ true
    → all q s ≡ true
all_mono p q [] f h = refl
all_mono p q (c ∷ s) f h = rw (f c (ground arith)) (all_mono p q s f (ground arith))

submatch-append_username :
    (id : Bytes)
    → is_empty id ≡ false
    → all not_space id ≡ true
    → submatch (codes "username-") not_space (codes "username" ++ (codes "-" ++ id)) ≡ id
unfolding submatch has_prefix
submatch-append_username id some_id good = rw (some_id, good)

submatch-append_key :
    (id : Bytes)
    → is_empty id ≡ false
    → all is_digit id ≡ true
    → submatch (codes "key-") is_digit (codes "key" ++ (codes "-" ++ id)) ≡ id
unfolding submatch has_prefix
submatch-append_key id some_id good = rw (some_id, good)

key_regex-eq-true :
    (id : Bytes) → key_regex id ≡ true → (is_empty id ≡ false) × (all key_char id ≡ true)
unfolding key_regex
key_regex-eq-true id h = ground arith

-- The last word of a key line's command is its prefix and its id.
last_word :
    (prefix : Bytes) (k : KeyLine)
    → k.prefix ≡ prefix
    → Lacks b' ' (prefix ++ (codes "-" ++ k.id))
    → last (split (command k) b' ') ≡ prefix ++ (codes "-" ++ k.id)
unfolding command
last_word prefix k e h = rw e (
    last-split (join (k.root_dir ∷ codes "bin" ∷ codes "gitlab-shell" ∷ []))
      (prefix ++ (codes "-" ++ k.id)) b' ' h)

key_char-not_space : (c : ℕ) → key_char c ≡ true → not_space c ≡ true
unfolding key_char not_space
key_char-not_space c h = ground arith

key_char_space : key_char b' ' ≡ false
unfolding key_char
key_char_space = refl

-- The principal's name of a key line is the user name that the shell finds in the command.
pub try_parse_username-command :
    (id value root_dir : Bytes) (k : KeyLine)
    → new_key_line id value principal_prefix root_dir ≡ ok k
    → try_parse_username (command k) ≡ id
unfolding try_parse_username try_parse
try_parse_username-command id value root_dir k h =
    let (good, _, same) = new_key_line-eq-ok id value principal_prefix root_dir k h in
    let (some_id, chars) = key_regex-eq-true id good in
    let same_id : k.id ≡ id = ap (λ (l : KeyLine). l.id) same in
    let spaces : Lacks b' ' (codes "username" ++ (codes "-" ++ k.id)) =
      rw same_id (ground (arith, all-Lacks key_char b' ' id key_char_space chars)) in
    ap (submatch (codes "username-") not_space)
      (last_word principal_prefix k (ap (λ (l : KeyLine). l.prefix) same) spaces)
    ∙ rw same_id (
        submatch-append_username id some_id
          (all_mono key_char not_space id key_char-not_space chars))

-- The id of a public key is a number; the shell finds it in the command.
pub try_parse_key_id-command :
    (id value root_dir : Bytes) (k : KeyLine)
    → all is_digit id ≡ true
    → new_key_line id value public_key_prefix root_dir ≡ ok k
    → try_parse_key_id (command k) ≡ id
unfolding try_parse_key_id try_parse
try_parse_key_id-command id value root_dir k digits h =
    let (good, _, same) = new_key_line-eq-ok id value public_key_prefix root_dir k h in
    let (some_id, chars) = key_regex-eq-true id good in
    let same_id : k.id ≡ id = ap (λ (l : KeyLine). l.id) same in
    let spaces : Lacks b' ' (codes "key" ++ (codes "-" ++ k.id)) =
      rw same_id (ground (arith, all-Lacks key_char b' ' id key_char_space chars)) in
    ap (submatch (codes "key-") is_digit)
      (last_word public_key_prefix k (ap (λ (l : KeyLine). l.prefix) same) spaces)
    ∙ rw same_id (submatch-append_key id some_id digits)
