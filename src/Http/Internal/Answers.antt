-- ===== src/Http/Internal/Answers.antt =====
-- `ParseJSON` of internal/clients/gitlab against the errors of client/gitlabnet.go.
use gitlab_shell.Prelude.{
  leb, Option-cases, Bytes, codes, is_empty, ℕ, ◌≡◌, refl, ◌⊎◌, inl, inr, true, false, ◌&&◌, Option,
  none, some, [], ◌∷◌, ◌++◌, arith,
}
use gitlab_shell.Errors.{api, err, Error, message, is_system}
use gitlab_shell.ApiClient.{
  Response, parse_error, check_response, is_system_error_status, is_followed_redirect,
}
use gitlab_shell.Http.Internal.{parse_json}
use gitlab_shell.Decimal.{itoa}

-- The text of a response's error that names nothing.
abbrev pub unnamed : Response → Bytes
unnamed r = codes "Internal API error (" ++ (itoa r.status_code ++ codes ")")

-- What the two clients make of one response with a status of 400 or above: errors, of which only the
-- older client's says whether the system failed. The texts are the message if it is not empty, and
-- `Internal API error` with the status if there is none; for a message that is empty, the newer
-- client's text is that one too, but the older client's is empty.
abbrev pub Agrees {ℓ} :
    {A : Type ℓ} → (Bytes → Option Bytes) → (Bytes → Bytes) → (Bytes → Option A) → Response → Type ℓ
Agrees decode_message quote decode r =
    (new old : Error) × (parse_json decode_message decode r ≡ err new)
    × (check_response decode_message quote (some r) none ≡ err old)
    × (((msg : Bytes) × (decode_message r.body ≡ some msg)
          × (is_empty msg ≡ false)
          × (message new ≡ msg)
          × (message old ≡ msg))
        ⊎ ((decode_message r.body ≡ none) × (message new ≡ unnamed r) × (message old ≡ unnamed r))
        ⊎ ((decode_message r.body ≡ some []) × (message new ≡ unnamed r) × (message old ≡ [])))
    × (is_system new ≡ false)
    × (is_system old ≡ is_system_error_status r.status_code)

no_redirect : (code : ℕ) → leb 400 code ≡ true → is_followed_redirect code ≡ false
unfolding is_followed_redirect
no_redirect code h = ground arith

no_success : (code : ℕ) → leb 400 code ≡ true → (leb 200 code && leb code 399) ≡ false
no_success code h = ground arith

module _ (decode_message : Bytes → Option Bytes) (quote : Bytes → Bytes) where
  -- A response of status 400 or above becomes an error in both clients. The newer client's never
  -- counts as a failure of the system, the older client's does where its status does. Both have the
  -- same text, which is the message of the body, or names the status if the body decodes to none;
  -- but where the body decodes to an empty message, the older client's text is empty and the newer
  -- client's names the status.
  pub parse_json-Agrees {ℓ} :
      {A : Type ℓ} (decode : Bytes → Option A) (r : Response)
      → leb 400 r.status_code ≡ true
      → Agrees decode_message quote decode r
  unfolding parse_json parse_error check_response is_system message
  parse_json-Agrees decode r h =
      let redirect = no_redirect r.status_code h in
      let success = no_success r.status_code h in
      let new : Bytes → Error =
        λ msg. api (record { msg = msg; status_code = 0; system = false }) in
      let old : Bytes → Error = λ msg. api (record {
        msg = msg;
        status_code = r.status_code;
        system = is_system_error_status r.status_code;
      }) in
      elim (Option-cases (decode_message r.body)) [
        | inl nothing ↦ (
          new (unnamed r),
          old (unnamed r),
          simp (h, nothing, parse_json),
          simp (redirect, success, nothing, parse_error, check_response),
          inr (inl (nothing, refl, refl)),
          refl,
          refl,
        )
        | inr ([], empty) ↦ (
          new (unnamed r),
          old [],
          simp (h, empty, parse_json),
          simp (redirect, success, empty, parse_error, check_response),
          inr (inr (empty, refl, refl)),
          refl,
          refl,
        )
        | inr (x ∷ msg, found) ↦ (
          new (x ∷ msg),
          old (x ∷ msg),
          simp (h, found, parse_json),
          simp (redirect, success, found, parse_error, check_response),
          inl (x ∷ msg, found, refl, refl, refl),
          refl,
          refl,
        )
      ]
