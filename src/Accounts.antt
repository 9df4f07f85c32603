-- ===== src/Accounts.antt =====
-- The commands on a user's account: internal/gitlabnet/discover and internal/command/discover, and
-- what the other commands share. The internal API is a function from a host and a request to the
-- body of its answer, or an error; JSON is a parameter. A user id is an integer of 64 bits.
pub mod Recovery
pub mod Verification
pub mod Tokens
pub mod Caller
pub mod Requests
pub mod Race
use gitlab_shell.Prelude.{
  ltb, leb, ◌==◌, if◌then◌else◌, ==_iff, Bool-cases, Option-cases, and-eq-true_iff, length, take,
  drop, replicate, all, any, length-append, take-append-drop, length-take, length-drop, take-append,
  drop-append, take-append_all, drop-append_all, All, All-append, Bytes, codes, eqb, eqb_iff,
  eqb_refl, is_empty, has_prefix, trim_prefix, trim_suffix, trim_left, contains_byte, contains,
  before, split, last, mem, Lacks, Lacks-contains_byte, contains_byte-Lacks, ℕ, zero, suc, ◌+◌, ◌-◌,
  ◌*◌, ◌/◌, ◌%◌, ◌^◌, ◌≤◌, ◌<◌, ◌≡◌, refl, sym, ap, ◌∙◌, ◌≢◌, ◌↔◌, ◌⊎◌, inl, inr, Bool, true, false,
  not, ◌&&◌, ◌||◌, Option, none, some, List, [], ◌∷◌, ◌++◌, map, append_assoc, append-nil, arith,
  last-split, split-ne-nil, All-mono,
}
use gitlab_shell.Errors.{◌>>=◌, Result, ok, err, Error, plain, message}
use gitlab_shell.CommandArgs.{Shell}
use gitlab_shell.Topology.{UserArgs}
use gitlab_shell.Lfs.Client.{parse_json}

pub data ℤ : Type 0 where
  pos : ℕ → ℤ
  negsuc : ℕ → ℤ

-- Who a request is for: `KeyID` and `UserID` of the request bodies, where zero is left out.
pub record Who : Type 0 where
  pub key_id : Bytes
  pub user_id : ℤ

-- The requests to the internal API: `/discover` with its one parameter,
-- `/two_factor_recovery_codes`, `/two_factor_manual_otp_check`, `/two_factor_push_otp_check` and
-- `/personal_access_token`.
pub data Request : Type 0 where
  discover_user : Bytes → Bytes → Request
  recovery_codes : Who → Request
  manual_otp : Who → Bytes → Request
  push_otp : Who → Request
  access_token : Who → Bytes → List Bytes → Bytes → Request

-- `Response` of discover.
pub record User : Type 0 where
  pub user_id : ℤ
  pub name : Bytes
  pub username : Bytes

-- `NewClient` of each client, `ClientForUserArgs`, the internal API, and the decoding of a user.
pub record World : Type 0 where
  pub new_client : Option Error
  pub route : UserArgs → Bytes
  pub send : Bytes → Request → Result Bytes
  pub decode_user : Bytes → Option User

-- A request to a host, and what is printed.
pub data Effect : Type 0 where
  called : Bytes → Request → Effect
  printed : Bytes → Effect

-- What a call does, and its result.
abbrev pub Run : Type 0 → Type 0
Run A = List Effect × Result A

-- The rest of a call, behind a result that is no error.
unfoldable pub and_then : {A B : Type 0} → Run A → (A → Run B) → Run B
and_then (es, err e) next = (es, err e)
and_then (es, ok a) next = let (more, b) = next a in (es ++ more, b)

-- `Shell.UserArgs`
unfoldable pub user_args : Shell → UserArgs
user_args args = record {
  username = args.gitlab_username;
  key_id = args.gitlab_key_id;
  krb5_principal = args.gitlab_krb5_principal;
}

-- `IsAnonymous`
unfoldable pub is_anonymous : User → Bool
is_anonymous u = elim u.user_id [ pos n ↦ ltb n 1 | negsuc n ↦ true ]

-- What `Execute` of discover prints.
unfoldable pub welcome : User → Bytes
unfolding is_anonymous
welcome u =
    if is_anonymous u
    then codes "Welcome to GitLab, Anonymous!\n"
    else codes "Welcome to GitLab, @" ++ u.username ++ codes "!\n"

-- The end of `Execute` of discover, whose error keeps the text alone.
unfoldable pub finish_discover : Run User → List Effect × Option Error
unfolding welcome message
finish_discover (asked, err e) =
    (asked, some (plain (codes "Failed to get username: " ++ message e)))
finish_discover (asked, ok u) = (asked ++ printed (welcome u) ∷ [], none)

module _ (w : World) where
  -- `gitlabnet.GetClient`, as each `NewClient` has it.
  unfoldable pub new_client : Run (Unit {0})
  new_client = elim w.new_client [ none ↦ ([], ok tt) | some e ↦ ([], err e) ]

  -- A request to where the user's requests go, and the decoding of its answer.
  unfoldable pub ask : {A : Type 0} → Shell → Request → (Bytes → Option A) → Run A
  unfolding user_args parse_json
  ask args q decode =
      let host = w.route (user_args args) in
      (called host q ∷ [], (w.send host q >>= λ body. parse_json decode body))

  -- `GetByCommandArgs`
  unfoldable pub get_by_command_args : Shell → Run User
  unfolding ask
  get_by_command_args args =
      if not (is_empty args.gitlab_username)
      then ask args (discover_user (codes "username") args.gitlab_username) w.decode_user
      else if not (is_empty args.gitlab_key_id)
      then ask args (discover_user (codes "key_id") args.gitlab_key_id) w.decode_user
      else if not (is_empty args.gitlab_krb5_principal)
      then ask args (discover_user (codes "krb5principal") args.gitlab_krb5_principal) w.decode_user
      else ([], err (plain (codes "who='' is invalid")))

  -- `getRequestBody`, as far as the clients of two-factor authentication and of tokens share it.
  unfoldable pub who_of : Shell → Run Who
  unfolding new_client get_by_command_args and_then
  who_of args = and_then new_client (λ _.
      if not (is_empty args.gitlab_key_id)
      then ([], ok (record { key_id = args.gitlab_key_id; user_id = pos 0 }))
      else and_then (get_by_command_args args)
          (λ u. ([], ok (record { key_id = []; user_id = u.user_id }))))

  -- `getUserInfo`
  unfoldable pub get_user_info : Shell → Run User
  unfolding new_client get_by_command_args and_then
  get_user_info args = and_then new_client (λ _. get_by_command_args args)

  -- `Execute` of discover
  unfoldable pub execute_discover : Shell → List Effect × Option Error
  unfolding get_user_info finish_discover
  execute_discover args = finish_discover (get_user_info args)
