-- ===== src/Accounts/Tokens.antt =====
-- internal/command/personalaccesstoken and internal/gitlabnet/personalaccesstoken. The date a
-- number of days from now is a parameter; the number is an `int` of 64 bits, as its residue.
use gitlab_shell.Prelude.{
  if◌then◌else◌, Bytes, codes, split, mem, ℕ, ◌+◌, ◌%◌, ◌^◌, Bool, not, Option, none, some, List,
  [], ◌∷◌, ◌++◌,
}
use gitlab_shell.Errors.{◌>>=◌, Result, ok, err, Error, plain}
use gitlab_shell.CommandArgs.{Shell}
use gitlab_shell.Accounts.{
  World, Run, Effect, ℤ, pos, printed, access_token, and_then, new_client, ask, who_of,
}
use gitlab_shell.Accounts.Recovery.{join}

-- `Response`
pub record Response : Type 0 where
  pub success : Bool
  pub token : Bytes
  pub scopes : List Bytes
  pub expires_at : Bytes
  pub message : Bytes

-- `tokenArgs`
pub record TokenArgs : Type 0 where
  pub name : Bytes
  pub scopes : List Bytes
  pub expires_date : Bytes

abbrev pub usage_text : Bytes
usage_text = codes "Usage: personal_access_token <name> <scope1[,scope2,...]> [ttl_days]"

-- The loop over the requested scopes.
unfoldable pub keep_allowed : List Bytes → List Bytes → List Bytes
unfolding mem
keep_allowed allowed [] = []
keep_allowed allowed (s ∷ ss) =
    let rest = keep_allowed allowed ss in if mem s allowed then s ∷ rest else rest

-- The scopes that are asked for; an empty list allows every scope.
unfoldable pub rectified_scopes : List Bytes → Bytes → List Bytes
unfolding keep_allowed split
rectified_scopes [] requested = split requested b','
rectified_scopes (a ∷ allowed) requested = keep_allowed (a ∷ allowed) (split requested b',')

-- `TTL+1` for what `strconv.Atoi` answers.
unfoldable pub days_of : Option ℤ → Bytes → Result ℕ
days_of (some (pos n)) raw = ok ((n + 1) % 2 ^ 64)
days_of _ raw = err (plain (codes "Invalid value for days_ttl: '" ++ raw ++ codes "'"))

module _ (atoi : Bytes → Option ℤ) (date : ℕ → Bytes) (allowed_scopes : List Bytes) where
  -- `parseTokenArgs`, on the words of the command.
  unfoldable pub parse_token_args : List Bytes → Result TokenArgs
  unfolding rectified_scopes days_of
  parse_token_args (command ∷ name ∷ scopes ∷ []) = ok (record {
    name = name;
    scopes = rectified_scopes allowed_scopes scopes;
    expires_date = date 30;
  })
  parse_token_args (command ∷ name ∷ scopes ∷ raw_ttl ∷ []) = do
    days ← days_of (atoi raw_ttl) raw_ttl
    ok (record {
      name = name;
      scopes = rectified_scopes allowed_scopes scopes;
      expires_date = date days;
    })
  parse_token_args words = err (plain usage_text)

-- `parse` of the client, behind the decoding.
unfoldable pub check_response : Response → Result Response
check_response r = if not r.success then err (plain r.message) else ok r

-- What `Execute` prints of an answer.
unfoldable pub token_lines : Response → List Effect
unfolding join
token_lines r =
    printed (codes "Token:   " ++ r.token ++ codes "\n")
    ∷ printed (codes "Scopes:  " ++ join (codes ",") r.scopes ++ codes "\n")
    ∷ printed (codes "Expires: " ++ r.expires_at ++ codes "\n")
    ∷ []

-- The end of `Execute`.
unfoldable pub finish_token : Run Response → List Effect × Option Error
unfolding token_lines
finish_token (asked, err e) = (asked, some e)
finish_token (asked, ok r) = (asked ++ token_lines r, none)

module _ (w : World) (decode : Bytes → Option Response) where
  -- `getRequestBody` and `GetPersonalAccessToken` of the client, and `getPersonalAccessToken`.
  unfoldable pub get_personal_access_token : Shell → TokenArgs → Run Response
  unfolding and_then new_client who_of ask check_response
  get_personal_access_token args t = and_then (new_client w) (λ _. and_then (who_of w args) (λ who.
      and_then (ask w args (access_token who t.name t.scopes t.expires_date) decode)
        (λ r. ([], check_response r))))

  -- `Execute`
  unfoldable pub execute_token :
      (Bytes → Option ℤ) → (ℕ → Bytes) → List Bytes → Shell → List Effect × Option Error
  unfolding parse_token_args get_personal_access_token finish_token
  execute_token atoi date allowed_scopes args =
      elim (parse_token_args atoi date allowed_scopes args.ssh_args) [
        | err e ↦ ([], some e)
        | ok t ↦ finish_token (get_personal_access_token args t)
      ]
