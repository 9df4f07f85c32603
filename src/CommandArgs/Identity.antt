-- ===== src/CommandArgs/Identity.antt =====
-- Who `parseWho` of internal/command/commandargs/shell.go takes the caller to be.
use mathlib.Core.Path.{subst}
use gitlab_shell.Prelude.{
  Bool-cases, length, drop, all, All, Bytes, codes, is_empty, has_prefix, split, last, ℕ, ◌≡◌, ap,
  ◌∙◌, ◌⊎◌, inl, inr, Bool, true, not, ◌&&◌, List, [], ◌∷◌, arith,
}
use gitlab_shell.Errors.{
  Result, ok, wrap, >>=-eq-ok, early-eq-ok, ok-injective, wrap-eq-ok, only_ssh_allowed,
}
use gitlab_shell.CommandArgs.{
  Shell, is_digit, not_space, submatch, try_parse, try_parse_key_id, try_parse_username, parse_who,
  parse_command, validate, parse,
}

all-All : (class : ℕ → Bool) (s : Bytes) → all class s ≡ true → All (λ c. class c ≡ true) s
all-All class [] h = tt
all-All class (c ∷ s) h = ground (arith, all-All class s)

submatch-All :
    (prefix : Bytes) (class : ℕ → Bool) (arg : Bytes)
    → All (λ c. class c ≡ true) (submatch prefix class arg)
unfolding submatch
submatch-All prefix class arg =
    elim (Bool-cases (
      has_prefix arg prefix
      && not (is_empty (drop (length prefix) arg))
      && all class (drop (length prefix) arg))) [
        | inl h ↦ rw h (all-All class (drop (length prefix) arg) (ground arith))
        | inr h ↦ rw h tt
      ]

-- A caller is a key or a user name, never both.
abbrev pub IsOne : Shell → Type 0
IsOne s = (s.gitlab_key_id ≡ []) ⊎ (s.gitlab_username ≡ [])

-- A key's id is digits alone and a user name holds no space; the principal is not set here.
pub record IsIdentity (s : Shell) : Type 0 where
  pub key_id : All (λ c. is_digit c ≡ true) s.gitlab_key_id
  pub username : All (λ c. not_space c ≡ true) s.gitlab_username
  pub one : IsOne s
  pub principal : s.gitlab_krb5_principal ≡ []

key_id-All : (argument : Bytes) → All (λ c. is_digit c ≡ true) (try_parse_key_id argument)
unfolding try_parse_key_id try_parse
key_id-All argument = submatch-All (codes "key-") is_digit (last (split argument b' '))

username-All : (argument : Bytes) → All (λ c. not_space c ≡ true) (try_parse_username argument)
unfolding try_parse_username try_parse
username-All argument = submatch-All (codes "username-") not_space (last (split argument b' '))

-- No caller is known yet.
abbrev pub IsFresh : Shell → Type 0
IsFresh s = (s.gitlab_key_id ≡ []) × (s.gitlab_username ≡ []) × (s.gitlab_krb5_principal ≡ [])

fresh-IsIdentity : (s : Shell) → IsFresh s → IsIdentity s
fresh-IsIdentity s (k, u, p) = record {
  key_id = rw k tt;
  username = rw u tt;
  one = inl k;
  principal = p;
}

parse_who-IsIdentity : (args : List Bytes) (s : Shell) → IsFresh s → IsIdentity (parse_who args s)
unfolding parse_who
parse_who-IsIdentity [] s h = fresh-IsIdentity s h
parse_who-IsIdentity (a ∷ args) s (k, u, p) = elim (Bool-cases (is_empty (try_parse_key_id a))) [
  | inr key ↦
      rw key (record { key_id = key_id-All a; username = rw u tt; one = inr u; principal = p })
  | inl no_key ↦ elim (Bool-cases (is_empty (try_parse_username a))) [
    | inr user ↦
        rw (no_key, user)
          (record { key_id = rw k tt; username = username-All a; one = inl k; principal = p })
    | inl no_user ↦ rw (no_key, no_user) (parse_who-IsIdentity args s (k, u, p))
  ]
]

parse_command-eq-ok :
    (parse_words : Bytes → Result (List Bytes)) (line : Bytes) (s s' : Shell)
    → parse_command parse_words line s ≡ ok s'
    → s' ≡ record s { ssh_args = s'.ssh_args; command_type = s'.command_type }
unfolding parse_command
parse_command-eq-ok parse_words line s s' h =
    let (words, _, e) = >>=-eq-ok (parse_words line) _ h in ground arith

-- What `validate` leaves of the shell: all but the parsed command.
pub validate-eq-ok :
    (parse_words : Bytes → Result (List Bytes)) (s s' : Shell)
    → validate parse_words s ≡ ok s'
    → (s.env.is_ssh_connection ≡ true)
      × (s' ≡ record s { ssh_args = s'.ssh_args; command_type = s'.command_type })
unfolding validate
validate-eq-ok parse_words s s' h =
    let command = parse_command parse_words s.env.original_command s in
    let (on, parsed) =
      early-eq-ok (not s.env.is_ssh_connection) only_ssh_allowed
        (wrap (codes "Invalid SSH command") command) h in
    (
      ground arith,
      parse_command-eq-ok parse_words s.env.original_command s s'
          (wrap-eq-ok (codes "Invalid SSH command") command parsed),
    )

-- `Shell.Parse` succeeds over SSH only, and for a shell that knows no caller yet it finds one
-- identity at most: a key's id of digits, or a user name with no space in it.
pub parse-IsIdentity :
    (parse_words : Bytes → Result (List Bytes)) (s s' : Shell)
    → IsFresh s
    → parse parse_words s ≡ ok s'
    → (s.env.is_ssh_connection ≡ true) × IsIdentity s'
unfolding parse
parse-IsIdentity parse_words s s' (k, u, p) e =
    let (s1, valid, found) = >>=-eq-ok (validate parse_words s) _ e in
    let (on, same) = validate-eq-ok parse_words s s1 valid in
    let fresh : IsFresh s1 = (
      ap (λ (t : Shell). t.gitlab_key_id) same ∙ k,
      ap (λ (t : Shell). t.gitlab_username) same ∙ u,
      ap (λ (t : Shell). t.gitlab_krb5_principal) same ∙ p,
    ) in
    (on, subst IsIdentity (ok-injective found) (parse_who-IsIdentity s1.arguments s1 fresh))
