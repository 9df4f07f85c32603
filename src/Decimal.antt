-- ===== src/Decimal.antt =====
-- `strconv.Itoa` for numbers that are not negative.
use gitlab_shell.Prelude.{
  ◌==◌, if◌then◌else◌, All, Bytes, codes, ℕ, zero, suc, ◌+◌, ◌/◌, ◌%◌, ◌≤◌, ◌≡◌, refl, true, false,
  [], ◌∷◌, arith,
}

-- The digits of `n` in front of `out`; `n` falls in each round, so fuel `n` is enough.
digits : ℕ → ℕ → Bytes → Bytes
digits zero n out = out
digits (suc fuel) n out = elim (n == 0) [
  | true ↦ out
  | false ↦ digits fuel (n / 10) ((b'0' + n % 10) ∷ out)
]

unfoldable pub itoa : ℕ → Bytes
unfolding digits
itoa n = if n == 0 then b'0' ∷ [] else digits n n []

abbrev pub IsDigit : ℕ → Type 0
IsDigit c = (b'0' ≤ c) × (c ≤ b'9')

digits-IsDigit : (fuel n : ℕ) (out : Bytes) → All IsDigit out → All IsDigit (digits fuel n out)
unfolding digits
digits-IsDigit zero n out h = h
digits-IsDigit (suc fuel) n out h =
    ground (arith, digits-IsDigit fuel (n / 10) ((b'0' + n % 10) ∷ out))

pub itoa-IsDigit : (n : ℕ) → All IsDigit (itoa n)
unfolding itoa
itoa-IsDigit n = ground (arith, digits-IsDigit n n [])

tests : (itoa 0 ≡ codes "0") × (itoa 65535 ≡ codes "65535")
unfolding itoa
tests = (refl, refl)
