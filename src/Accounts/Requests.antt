-- ===== src/Accounts/Requests.antt =====
-- What the commands on an account ask the internal API for.
use gitlab_shell.Prelude.{
  Bool-cases, and-eq-true_iff, take, All, All-append, Bytes, codes, eqb, eqb_iff, split, mem, ℕ,
  ◌+◌, ◌%◌, ◌^◌, ◌≡◌, refl, sym, ap, ◌∙◌, ◌↔◌, ◌⊎◌, inl, inr, Bool, true, false, ◌&&◌, ◌||◌, Option,
  none, some, List, [], ◌∷◌, arith,
}
use gitlab_shell.Errors.{err, >>=-eq-ok, ok, Result-cases, ok-injective}
use gitlab_shell.CommandArgs.{Shell}
use gitlab_shell.Accounts.{
  World, ℤ, pos, negsuc, execute_discover, get_user_info, Run, User, finish_discover,
}
use gitlab_shell.Accounts.Recovery
use gitlab_shell.Accounts.Recovery.{
  reader_limit, execute_recover, display_recovery_codes, get_recovery_codes,
}
use gitlab_shell.Accounts.Verification
use gitlab_shell.Accounts.Verification.{push_auth, verify_otp}
use gitlab_shell.Accounts.Tokens
use gitlab_shell.Accounts.Tokens.{
  TokenArgs, keep_allowed, rectified_scopes, days_of, parse_token_args, get_personal_access_token,
  token_lines, execute_token, finish_token,
}
use gitlab_shell.Accounts.Caller.{
  IsAllowed, discover-Does, recovery-Does, token-Does, push-Does, otp-Does,
}

mem-∷ : (t s : Bytes) (ss : List Bytes) → mem t (s ∷ ss) ≡ (eqb s t || mem t ss)
unfolding mem
mem-∷ t s ss = refl

-- A member of a list that keeps a head or drops it.
kept :
    (known same listed permitted : Bool)
    → (same ≡ true → permitted ≡ known)
    → ((known ≡ true) × ((same || (listed && permitted)) ≡ ((same || listed) && permitted)))
      ⊎ ((known ≡ false) × ((listed && permitted) ≡ ((same || listed) && permitted)))
kept true true listed permitted h = inl (refl, rw (h refl) refl)
kept true false listed permitted h = inl (refl, refl)
kept false true listed permitted h = inr (refl, rw (h refl) (ground arith))
kept false false listed permitted h = inr (refl, refl)

mem-keep_allowed :
    (t : Bytes) (allowed ss : List Bytes)
    → mem t (keep_allowed allowed ss) ≡ (mem t ss && mem t allowed)
unfolding keep_allowed mem
mem-keep_allowed t allowed [] = refl
mem-keep_allowed t allowed (s ∷ ss) =
    let later = mem-keep_allowed t allowed ss in
    let agree : eqb s t ≡ true → mem t allowed ≡ mem s allowed =
      λ same. ap (λ x. mem x allowed) (sym ((eqb_iff s t).0 same)) in
    elim (kept (mem s allowed) (eqb s t) (mem t ss) (mem t allowed) agree) [
      | inl (known, e) ↦ rw known (mem-∷ t s (keep_allowed allowed ss) ∙ rw later e)
      | inr (unknown, e) ↦ rw unknown (later ∙ e)
    ]

days_of-eq-ok :
    (t : Option ℤ) (raw : Bytes) (days : ℕ)
    → days_of t raw ≡ ok days
    → (n : ℕ) × (t ≡ some (pos n)) × (days ≡ (n + 1) % 2 ^ 64)
unfolding days_of
days_of-eq-ok none raw days h = absurd (cc h)
days_of-eq-ok (some (negsuc n)) raw days h = absurd (cc h)
days_of-eq-ok (some (pos n)) raw days h = (n, refl, sym (ok-injective h))

module _ (allowed_scopes : List Bytes) where
  -- The scopes that a token may have: it was requested, and it is allowed if the configuration
  -- restricts the scopes.
  abbrev pub AreScopes : Bytes → List Bytes → Type 0
  AreScopes requested scopes =
      (s : Bytes)
      → (mem s scopes ≡ true) ↔ (
          (mem s (split requested b',') ≡ true)
          × ((allowed_scopes ≡ []) ⊎ (mem s allowed_scopes ≡ true)))

rectified_scopes-AreScopes :
    (allowed_scopes : List Bytes) (requested : Bytes)
    → AreScopes allowed_scopes requested (rectified_scopes allowed_scopes requested)
unfolding rectified_scopes
rectified_scopes-AreScopes [] requested s = ((λ h. (h, inl refl)), (λ (h, _). h))
rectified_scopes-AreScopes (a ∷ allowed) requested s =
    let ss = split requested b',' in
    let e = mem-keep_allowed s (a ∷ allowed) ss in
    let both = and-eq-true_iff (mem s ss) (mem s (a ∷ allowed)) in
    (
      (λ h. let (listed, permitted) = both.0 (sym e ∙ h) in (listed, inr permitted)),
      (λ (listed, permitted). elim permitted [
        | inl none_given ↦ absurd (cc none_given)
        | inr permitted ↦ e ∙ both.1 (listed, permitted)
      ]),
    )

module _ (atoi : Bytes → Option ℤ) (date : ℕ → Bytes) (allowed_scopes words : List Bytes) where
  -- The name, the scopes and the date of a request, as the words of the command say.
  abbrev pub IsTerms : Bytes → List Bytes → Bytes → Type 0
  IsTerms name scopes until =
      (command requested : Bytes) × AreScopes allowed_scopes requested scopes
      × (((words ≡ command ∷ name ∷ requested ∷ []) × (until ≡ date 30))
          ⊎ ((ttl : Bytes) × (n : ℕ) × (words ≡ command ∷ name ∷ requested ∷ ttl ∷ [])
              × (atoi ttl ≡ some (pos n))
              × (until ≡ date ((n + 1) % 2 ^ 64))))

module _ (atoi : Bytes → Option ℤ) (date : ℕ → Bytes) (allowed_scopes : List Bytes) where
  parse_token_args-IsTerms :
      (words : List Bytes) (t : TokenArgs)
      → parse_token_args atoi date allowed_scopes words ≡ ok t
      → IsTerms atoi date allowed_scopes words t.name t.scopes t.expires_date
  unfolding parse_token_args
  parse_token_args-IsTerms [] t h = absurd (cc h)
  parse_token_args-IsTerms (_ ∷ []) t h = absurd (cc h)
  parse_token_args-IsTerms (_ ∷ _ ∷ []) t h = absurd (cc h)
  parse_token_args-IsTerms (command ∷ name ∷ scopes ∷ []) t h =
      rw (← ok-injective h)
        (command, scopes, rectified_scopes-AreScopes allowed_scopes scopes, inl (refl, refl))
  parse_token_args-IsTerms (command ∷ name ∷ scopes ∷ ttl ∷ []) t h =
      let (days, known, made) = >>=-eq-ok (days_of (atoi ttl) ttl) _ h in
      let (n, number, same) = days_of-eq-ok (atoi ttl) ttl days known in
      rw (← ok-injective made) (
        command,
        scopes,
        rectified_scopes-AreScopes allowed_scopes scopes,
        inr (ttl, n, refl, number, ap date same),
      )
  parse_token_args-IsTerms (_ ∷ _ ∷ _ ∷ _ ∷ _ ∷ _) t h = absurd (cc h)

module _ (w : World) (args : Shell) (T : Bytes → List Bytes → Bytes → Type 0) where
  finish_discover-Does :
      (r : Run User) → All (IsAllowed w args T) r.0 → All (IsAllowed w args T) (finish_discover r).0
  unfolding finish_discover
  finish_discover-Does (asked, err e) h = h
  finish_discover-Does (asked, ok u) h = All-append (IsAllowed w args T) asked _ h (tt, tt)

  finish_token-Does :
      (r : Run Tokens.Response)
      → All (IsAllowed w args T) r.0
      → All (IsAllowed w args T) (finish_token r).0
  unfolding finish_token token_lines
  finish_token-Does (asked, err e) h = h
  finish_token-Does (asked, ok r) h =
      All-append (IsAllowed w args T) asked (token_lines r) h (tt, (tt, (tt, tt)))

module _ (w : World) (args : Shell) where
  display-IsAllowed :
      (T : Bytes → List Bytes → Bytes → Type 0) (decode : Bytes → Option Recovery.Response)
      → All (IsAllowed w args T) (display_recovery_codes w decode args)
  unfolding display_recovery_codes
  display-IsAllowed T decode =
      All-append (IsAllowed w args T) (get_recovery_codes w decode args).0 _
        (recovery-Does w args T decode) (tt, tt)

  recover-IsAllowed :
      (T : Bytes → List Bytes → Bytes → Type 0) (decode : Bytes → Option Recovery.Response)
      (scanln : Bytes → Bytes) (input : Bytes)
      → All (IsAllowed w args T) (execute_recover w decode scanln args input)
  unfolding execute_recover
  recover-IsAllowed T decode scanln input =
      elim (Bool-cases (eqb (scanln (take reader_limit input)) (codes "yes"))) [
        | inl accepted ↦ rw accepted (tt, display-IsAllowed T decode)
        | inr declined ↦ rw declined (tt, (tt, tt))
      ]

  discover-IsAllowed :
      (T : Bytes → List Bytes → Bytes → Type 0)
      → All (IsAllowed w args T) (execute_discover w args).0
  unfolding execute_discover
  discover-IsAllowed T =
      finish_discover-Does w args T (get_user_info w args) (discover-Does w args T)

  token-IsAllowed :
      (T : Bytes → List Bytes → Bytes → Type 0) (decode : Bytes → Option Tokens.Response)
      (atoi : Bytes → Option ℤ) (date : ℕ → Bytes) (allowed_scopes : List Bytes)
      → ((t : TokenArgs)
          → parse_token_args atoi date allowed_scopes args.ssh_args ≡ ok t
          → T t.name t.scopes t.expires_date)
      → All (IsAllowed w args T) (execute_token w decode atoi date allowed_scopes args).0
  unfolding execute_token
  token-IsAllowed T decode atoi date allowed_scopes terms =
      elim (Result-cases (parse_token_args atoi date allowed_scopes args.ssh_args)) [
        | inl (e, bad) ↦
            let same : execute_token w decode atoi date allowed_scopes args ≡ ([], some e) =
              simp (bad, execute_token) in
            rw same tt
        | inr (t, parsed) ↦
            let same : execute_token w decode atoi date allowed_scopes args
                ≡ finish_token (get_personal_access_token w decode args t) =
              simp (parsed, execute_token) in
            rw same (
              finish_token-Does w args T (get_personal_access_token w decode args t)
                (token-Does w args T decode t (terms t parsed)))
      ]

-- The requests of the commands on an account go to the host of the caller, and each names the
-- caller: by the key, or by the user that the internal API finds for the caller's name or principal.
-- A token is asked for by the name that the command gives, with the requested scopes that the
-- configuration allows and no others, and with the date of 30 days from now, or of one day more
-- than a number of days that is not negative, in 64 bits.
pub requests-IsAllowed :
    (w : World) (args : Shell) (decode_codes : Bytes → Option Recovery.Response)
    (decode_token : Bytes → Option Tokens.Response)
    (decode_otp : Bytes → Option Verification.Response) (scanln : Bytes → Bytes) (input otp : Bytes)
    (atoi : Bytes → Option ℤ) (date : ℕ → Bytes) (allowed_scopes : List Bytes)
    → let P = IsAllowed w args (IsTerms atoi date allowed_scopes args.ssh_args) in
      All P (execute_discover w args).0
      × All P (execute_recover w decode_codes scanln args input)
      × All P (execute_token w decode_token atoi date allowed_scopes args).0
      × All P (push_auth w decode_otp args).0
      × All P (verify_otp w decode_otp args otp).0
requests-IsAllowed w args decode_codes decode_token decode_otp scanln input otp atoi date
      allowed_scopes =
    let T = IsTerms atoi date allowed_scopes args.ssh_args in
    (
      discover-IsAllowed w args T,
      recover-IsAllowed w args T decode_codes scanln input,
      token-IsAllowed w args T decode_token atoi date allowed_scopes
          (parse_token_args-IsTerms atoi date allowed_scopes args.ssh_args),
      push-Does w args T decode_otp,
      otp-Does w args T decode_otp otp,
    )
