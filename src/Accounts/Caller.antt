-- ===== src/Accounts/Caller.antt =====
-- For whom the commands on an account ask the internal API.
use gitlab_shell.Accounts.Verification.{verify_otp, push_auth}
use gitlab_shell.Accounts.Tokens.{TokenArgs, get_personal_access_token}
use gitlab_shell.Accounts.Recovery.{get_codes, get_recovery_codes}
use gitlab_shell.Prelude.{
  if◌then◌else◌, Option-cases, All, All-append, Bytes, codes, is_empty, ◌≡◌, refl, sym, ◌⊎◌, inl,
  inr, Bool, true, false, not, Option, List, [],
}
use gitlab_shell.Errors.{ok, err, ok-injective}
use gitlab_shell.CommandArgs.{Shell}
use gitlab_shell.Accounts.{
  get_user_info, World, Run, Request, Effect, Who, User, pos, called, printed, discover_user,
  recovery_codes, manual_otp, push_otp, access_token, and_then, user_args, new_client, ask,
  get_by_command_args, who_of,
}
use gitlab_shell.Accounts.Recovery
use gitlab_shell.Accounts.Verification
use gitlab_shell.Accounts.Tokens

-- What holds of each effect of a call.
abbrev pub Does : {A : Type 0} → (Effect → Type 0) → Run A → Type 0
Does P r = All P r.0

-- What holds of the effects of both parts holds of those of the whole, where the rest need only be
-- looked at for a result of the first part.
pub and_then-Does :
    {A B : Type 0} (P : Effect → Type 0) (r : Run A) (next : A → Run B)
    → Does P r
    → ((a : A) → r.1 ≡ ok a → Does P (next a))
    → Does P (and_then r next)
unfolding and_then
and_then-Does P (es, err e) next h k = h
and_then-Does P (es, ok a) next h k = All-append P es (next a).0 h (k a refl)

pub and_then-eq-ok :
    {A B : Type 0} (r : Run A) (next : A → Run B) (b : B)
    → (and_then r next).1 ≡ ok b
    → (a : A) × (r.1 ≡ ok a) × ((next a).1 ≡ ok b)
unfolding and_then
and_then-eq-ok (es, err e) next b h = absurd (cc h)
and_then-eq-ok (es, ok a) next b h = (a, refl, h)

unless-Does :
    {A : Type 0} (P : Effect → Type 0) (b : Bool) (x y : Run A)
    → (b ≡ false → Does P x)
    → (b ≡ true → Does P y)
    → Does P (if not b then x else y)
unless-Does P true x y f g = g refl
unless-Does P false x y f g = f refl

unless-eq-ok :
    {A : Type 0} (b : Bool) (x y : Run A) (a : A)
    → (if not b then x else y).1 ≡ ok a
    → ((b ≡ false) × (x.1 ≡ ok a)) ⊎ ((b ≡ true) × (y.1 ≡ ok a))
unless-eq-ok true x y a h = inr (refl, h)
unless-eq-ok false x y a h = inl (refl, h)

module _ (w : World) (args : Shell) where
  -- The caller, as the requests name them: by the key, or by the user that `/discover` answers for
  -- the caller's name or principal.
  abbrev pub IsCaller : Who → Type 0
  IsCaller who =
      ((is_empty args.gitlab_key_id ≡ false)
        × (who ≡ record { key_id = args.gitlab_key_id; user_id = pos 0 }))
      ⊎ ((is_empty args.gitlab_key_id ≡ true)
          × (u : User) × ((get_by_command_args w args).1 ≡ ok u)
          × (who ≡ record { key_id = []; user_id = u.user_id }))

  -- The parameter that `/discover` is asked by.
  abbrev pub IsName : Bytes → Bytes → Type 0
  IsName name value =
      (is_empty value ≡ false)
      × (((name ≡ codes "username") × (value ≡ args.gitlab_username))
          ⊎ ((name ≡ codes "key_id") × (value ≡ args.gitlab_key_id))
          ⊎ ((name ≡ codes "krb5principal") × (value ≡ args.gitlab_krb5_principal)))

  pub who_of-IsCaller : (who : Who) → (who_of w args).1 ≡ ok who → IsCaller who
  unfolding who_of
  who_of-IsCaller who h =
      let (_, _, rest) = and_then-eq-ok (new_client w) _ who h in
      elim (unless-eq-ok (is_empty args.gitlab_key_id) _ _ who rest) [
        | inl (key, same) ↦ inl (key, sym (ok-injective same))
        | inr (no_key, later) ↦
            let (u, known, made) = and_then-eq-ok (get_by_command_args w args) _ who later in
            inr (no_key, u, known, sym (ok-injective made))
      ]

module _ (w : World) (args : Shell) (IsTerms : Bytes → List Bytes → Bytes → Type 0) where
  abbrev pub IsOwn : Request → Type 0
  IsOwn (discover_user name value) = IsName w args name value
  IsOwn (recovery_codes who) = IsCaller w args who
  IsOwn (manual_otp who otp) = IsCaller w args who
  IsOwn (push_otp who) = IsCaller w args who
  IsOwn (access_token who name scopes date) = IsCaller w args who × IsTerms name scopes date

  -- A request in the name of the caller, to the host that the caller's requests go to.
  abbrev pub IsAllowed : Effect → Type 0
  IsAllowed (called host q) = (host ≡ w.route (user_args args)) × IsOwn q
  IsAllowed (printed s) = Unit {0}

  ask-Does :
      {A : Type 0} (q : Request) (decode : Bytes → Option A)
      → IsOwn q
      → Does IsAllowed (ask w args q decode)
  unfolding ask
  ask-Does q decode h = ((refl, h), tt)

  new_client-Does : Does IsAllowed (new_client w)
  unfolding new_client
  new_client-Does = elim (Option-cases w.new_client) [
    | inl client ↦ rw client tt
    | inr (e, bad) ↦ rw bad tt
  ]

  get_by_command_args-Does : Does IsAllowed (get_by_command_args w args)
  unfolding get_by_command_args
  get_by_command_args-Does =
      unless-Does IsAllowed (is_empty args.gitlab_username) _ _
        (λ name.
          ask-Does (discover_user (codes "username") args.gitlab_username) w.decode_user
            (name, inl (refl, refl)))
        (λ _.
          unless-Does IsAllowed (is_empty args.gitlab_key_id) _ _
            (λ key.
              ask-Does (discover_user (codes "key_id") args.gitlab_key_id) w.decode_user
                (key, inr (inl (refl, refl))))
            (λ _.
              unless-Does IsAllowed (is_empty args.gitlab_krb5_principal) _ _
                (λ krb.
                  ask-Does (discover_user (codes "krb5principal") args.gitlab_krb5_principal)
                    w.decode_user (krb, inr (inr (refl, refl))))
                (λ _. tt)))

  who_of-Does : Does IsAllowed (who_of w args)
  unfolding who_of
  who_of-Does = and_then-Does IsAllowed (new_client w) _ new_client-Does (λ _ _.
      unless-Does IsAllowed (is_empty args.gitlab_key_id) _ _ (λ _. tt)
        (λ _.
          and_then-Does IsAllowed (get_by_command_args w args) _ get_by_command_args-Does
            (λ u _. tt)))

  -- A request that names the caller, behind the finding of the caller.
  named-Does :
      {A B : Type 0} (request : Who → Request) (decode : Bytes → Option A) (next : A → Run B)
      → ((who : Who) → IsCaller w args who → IsOwn (request who))
      → ((a : A) → Does IsAllowed (next a))
      → Does IsAllowed
          (and_then (who_of w args) (λ who. and_then (ask w args (request who) decode) next))
  named-Does request decode next own later =
      and_then-Does IsAllowed (who_of w args) _ who_of-Does (λ who h.
        and_then-Does IsAllowed (ask w args (request who) decode) next
          (ask-Does (request who) decode (own who (who_of-IsCaller w args who h))) (λ a _. later a))

  pub discover-Does : Does IsAllowed (get_user_info w args)
  unfolding get_user_info
  discover-Does =
      and_then-Does IsAllowed (new_client w) _ new_client-Does (λ _ _. get_by_command_args-Does)

  pub recovery-Does :
      (decode : Bytes → Option Recovery.Response)
      → Does IsAllowed (get_recovery_codes w decode args)
  unfolding get_recovery_codes get_codes
  recovery-Does decode =
      and_then-Does IsAllowed (new_client w) _ new_client-Does
        (λ _ _. named-Does recovery_codes decode _ (λ who h. h) (λ _. tt))

  pub token-Does :
      (decode : Bytes → Option Tokens.Response) (t : TokenArgs)
      → IsTerms t.name t.scopes t.expires_date
      → Does IsAllowed (get_personal_access_token w decode args t)
  unfolding get_personal_access_token
  token-Does decode t terms = and_then-Does IsAllowed (new_client w) _ new_client-Does (λ _ _.
      named-Does (λ who. access_token who t.name t.scopes t.expires_date) decode _
        (λ who h. (h, terms)) (λ _. tt))

  pub push-Does :
      (decode : Bytes → Option Verification.Response) → Does IsAllowed (push_auth w decode args)
  unfolding push_auth
  push-Does decode = named-Does push_otp decode _ (λ who h. h) (λ _. tt)

  pub otp-Does :
      (decode : Bytes → Option Verification.Response) (otp : Bytes)
      → Does IsAllowed (verify_otp w decode args otp)
  unfolding verify_otp
  otp-Does decode otp = named-Does (λ who. manual_otp who otp) decode _ (λ who h. h) (λ _. tt)
