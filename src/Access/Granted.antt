-- ===== src/Access/Granted.antt =====
-- What the Git commands do, and for which answers of the internal API.
use mathlib.Core.Path.{subst}
use gitlab_shell.Prelude.{
  Bool-cases, Option-cases, All, Bytes, ◌≡◌, refl, inl, inr, true, List, [], ◌∷◌,
}
use gitlab_shell.Errors.{ok, err, plain, Result-cases, ok-injective}
use gitlab_shell.CommandArgs.{Shell}
use gitlab_shell.Access.{
  Response, Service, Effect, posted, shown, called, audited, World, request_of, client_verify,
  verify,
}

-- The services that are called, in their order.
abbrev pub calls : List Effect → List Service
calls [] = []
calls (called s r ∷ es) = s ∷ calls es
calls (_ ∷ es) = calls es

module _ (w : World) (args : Shell) (action repo : Bytes) where
  -- The internal API granted the access that the command asks for.
  abbrev pub IsGranted : Response → Type 0
  IsGranted r = (client_verify w args action repo ≡ ok r) × (r.success ≡ true)

  -- An effect that may happen: a request is the one for the caller and the repository, and a
  -- service is at work, or an access recorded, only if it was granted.
  abbrev pub IsAllowed : Effect → Type 0
  IsAllowed (posted address q) = (address ≡ w.route repo) × (q ≡ request_of w args action repo)
  IsAllowed (shown messages) = Unit {0}
  IsAllowed (called s r) = IsGranted r
  IsAllowed (audited r) = IsGranted r × (r.need_audit ≡ true)

  -- What `Verify` does and answers.
  pub verify-IsGranted :
      All IsAllowed (verify w args action repo).0
      × (calls (verify w args action repo).0 ≡ [])
      × ((r : Response) → (verify w args action repo).1 ≡ ok r → IsGranted r)
  unfolding verify
  verify-IsGranted =
      let asked = posted (w.route repo) (request_of w args action repo) in
      elim (Option-cases w.new_client) [
        | inr (e, bad) ↦
            let same : verify w args action repo ≡ ([], err e) = simp (bad, verify) in
            rw same (tt, refl, λ r h. absurd (cc h))
        | inl client ↦ elim (Result-cases (client_verify w args action repo)) [
          | inl (e, bad) ↦
              let same : verify w args action repo ≡ (asked ∷ [], err e) =
                simp (client, verify, bad) in
              rw same (((refl, refl), tt), refl, λ r h. absurd (cc h))
          | inr (r, good) ↦ elim (Bool-cases r.success) [
            | inr refused ↦
                let same : verify w args action repo
                    ≡ (asked ∷ shown r.console_messages ∷ [], err (plain r.message)) =
                  simp (client, verify, good, refused) in
                rw same (((refl, refl), (tt, tt)), refl, λ r' h. absurd (cc h))
            | inl success ↦
                let same : verify w args action repo
                    ≡ (asked ∷ shown r.console_messages ∷ [], ok r) =
                  simp (client, verify, good, success) in
                rw same (
                  ((refl, refl), (tt, tt)),
                  refl,
                  λ r' h. subst IsGranted (ok-injective h) (good, success),
                )
          ]
        ]
      ]
