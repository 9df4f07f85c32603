-- ===== src/Accounts/Recovery.antt =====
-- internal/command/twofactorrecover and internal/gitlabnet/twofactorrecover. `fmt.Fscanln` of one
-- word is a parameter, as is JSON.
use gitlab_shell.Prelude.{
  if◌then◌else◌, take, Bytes, codes, eqb, ℕ, Bool, not, Option, List, [], ◌∷◌, ◌++◌,
}
use gitlab_shell.Errors.{Result, ok, err, plain, message}
use gitlab_shell.CommandArgs.{Shell}
use gitlab_shell.Accounts.{
  World, Run, Effect, printed, recovery_codes, and_then, new_client, ask, who_of,
}

-- `Response`
pub record Response : Type 0 where
  pub success : Bool
  pub recovery_codes : List Bytes
  pub message : Bytes

abbrev pub reader_limit : ℕ
reader_limit = 1024

-- `strings.Join`
unfoldable pub join : Bytes → List Bytes → Bytes
join sep [] = []
join sep (s ∷ []) = s
join sep (s ∷ t ∷ ss) = s ++ sep ++ join sep (t ∷ ss)

-- `parse`, behind the decoding.
unfoldable pub check_response : Response → Result (List Bytes)
check_response r = if not r.success then err (plain r.message) else ok r.recovery_codes

-- What `displayRecoveryCodes` prints.
unfoldable pub codes_text : Result (List Bytes) → Bytes
unfolding join message
codes_text (ok cs) =
    codes "\nYour two-factor authentication recovery codes are:\n\n"
    ++ join (codes "\n") cs
    ++ codes "\n\nDuring sign in, use one of the codes above when prompted for\n"
    ++ codes "your two-factor code. Then, visit your Profile Settings and add\n"
    ++ codes "a new device so you do not lose access to your account again.\n"
codes_text (err e) =
    codes "\nAn error occurred while trying to generate new recovery codes.\n"
    ++ message e
    ++ codes "\n"

module _ (w : World) (decode : Bytes → Option Response) where
  -- `GetRecoveryCodes`
  unfoldable pub get_codes : Shell → Run (List Bytes)
  unfolding and_then who_of ask check_response
  get_codes args =
      and_then (who_of w args)
        (λ who. and_then (ask w args (recovery_codes who) decode) (λ r. ([], check_response r)))

  -- `getRecoveryCodes`
  unfoldable pub get_recovery_codes : Shell → Run (List Bytes)
  unfolding and_then new_client get_codes
  get_recovery_codes args = and_then (new_client w) (λ _. get_codes args)

  -- `displayRecoveryCodes`
  unfoldable pub display_recovery_codes : Shell → List Effect
  unfolding get_recovery_codes codes_text
  display_recovery_codes args =
      let (asked, answer) = get_recovery_codes args in asked ++ printed (codes_text answer) ∷ []

  -- `Execute`, on the input, which never returns an error.
  unfoldable pub execute_recover : (Bytes → Bytes) → Shell → Bytes → List Effect
  unfolding display_recovery_codes
  execute_recover scanln args input =
      printed (
        codes "Are you sure you want to generate new two-factor recovery codes?\n"
        ++ codes "Any existing recovery codes you saved will be invalidated. (yes/no)\n")
      ∷ (if eqb (scanln (take reader_limit input)) (codes "yes")
          then display_recovery_codes args
          else printed (
              codes
                "\nNew recovery codes have *not* been generated. Existing codes will remain valid.\n")
            ∷ [])
