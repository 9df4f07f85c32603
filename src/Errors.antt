-- ===== src/Errors.antt =====
-- Go errors as values, with `errors.Is` and `errors.As` over wrapped errors, and the results of
-- fallible calls.
use gitlab_shell.Prelude.{
  if◌then◌else◌, Bytes, codes, ℕ, ◌≡◌, refl, ◌⊎◌, inl, inr, Bool, true, false, Option, none, some,
  ◌++◌,
}

-- `client.APIError` of client/gitlabnet.go
pub record ApiError : Type 0 where
  pub msg : Bytes
  pub status_code : ℕ
  pub system : Bool

-- `plain` is an error with a text alone, `wrapped` is `fmt.Errorf("prefix: %w", err)`. The error
-- of a library is `foreign`, by a number that tells it apart and its text.
pub data Error : Type 0 where
  plain : Bytes → Error
  wrapped : Bytes → Error → Error
  api : ApiError → Error
  disallowed only_ssh_allowed canceled : Error
  foreign : ℕ → Bytes → Error

-- `err.Error()`
unfoldable pub message : Error → Bytes
message (plain s) = s
message (wrapped prefix e) = prefix ++ codes ": " ++ message e
message (api e) = e.msg
message disallowed = codes "Disallowed command"
message only_ssh_allowed = codes "Only SSH allowed"
message canceled = codes "context canceled"
message (foreign kind s) = s

-- `errors.Is(err, disallowedcommand.Error)`
unfoldable pub is_disallowed : Error → Bool
is_disallowed disallowed = true
is_disallowed (wrapped prefix e) = is_disallowed e
is_disallowed _ = false

-- `errors.Is(err, context.Canceled)`
unfoldable pub is_canceled : Error → Bool
is_canceled canceled = true
is_canceled (wrapped prefix e) = is_canceled e
is_canceled _ = false

-- `errors.As(err, &apiErr)`
unfoldable pub as_api : Error → Option ApiError
as_api (api e) = some e
as_api (wrapped prefix e) = as_api e
as_api _ = none

-- `errors.As(err, &apiErr) && apiErr.System`
unfoldable pub is_system : Error → Bool
is_system (api e) = e.system
is_system (wrapped prefix e) = is_system e
is_system _ = false

-- What a Go function with an error as its last result returns.
pub data Result {ℓ} (A : Type ℓ) : Type ℓ where
  err : Error → Result A
  ok : A → Result A

-- `if err != nil { return err }`, then the rest.
infixl 5 ◌>>=◌
abbrev pub ◌>>=◌ {ι ℓ} : {X : Type ι} {Y : Type ℓ} → Result X → (X → Result Y) → Result Y
err failure >>= rest = err failure
ok x >>= rest = rest x

-- `if err != nil { return nil, fmt.Errorf("prefix: %w", err) }`
abbrev pub wrap {ℓ} : {A : Type ℓ} → Bytes → Result A → Result A
wrap prefix (ok a) = ok a
wrap prefix (err e) = err (wrapped prefix e)

-- Where the whole succeeds, the first call did and the rest did behind it.
pub >>=-eq-ok {ι ℓ} :
    {X : Type ι} {Y : Type ℓ} (first : Result X) (rest : X → Result Y) {y : Y}
    → (first >>= rest) ≡ ok y
    → (x : X) × (first ≡ ok x) × (rest x ≡ ok y)
>>=-eq-ok (err failure) rest h = absurd (cc h)
>>=-eq-ok (ok x) rest h = (x, refl, h)

-- An early return was not taken.
pub early-eq-ok {ℓ} :
    {A : Type ℓ} (b : Bool) (e : Error) (m : Result A) {a : A}
    → (if b then err e else m) ≡ ok a
    → (b ≡ false) × (m ≡ ok a)
early-eq-ok true e m h = cc
early-eq-ok false e m h = (refl, h)

pub ok-injective {ℓ} : {A : Type ℓ} {a b : A} → ok a ≡ ok b → a ≡ b
ok-injective e = cc

pub wrap-eq-ok {ℓ} :
    {A : Type ℓ} (prefix : Bytes) (m : Result A) {a : A} → wrap prefix m ≡ ok a → m ≡ ok a
wrap-eq-ok prefix (ok b) h = h
wrap-eq-ok prefix (err e) h = cc

pub Result-cases {ℓ} :
    {A : Type ℓ} (m : Result A) → ((e : Error) × (m ≡ err e)) ⊎ ((a : A) × (m ≡ ok a))
Result-cases (err e) = inl (e, refl)
Result-cases (ok a) = inr (a, refl)

pub err-injective {ℓ} : {A : Type ℓ} {d e : Error} → ◌≡◌ {A = Result A} (err d) (err e) → d ≡ e
err-injective p = cc
