-- ===== src/Tests/Accounts.antt =====
-- The commands on an account, on concrete inputs.
use gitlab_shell.Prelude.{All, Bytes, codes, ℕ, true, Option, none, some, List, [], ◌∷◌}
use gitlab_shell.Errors.{ok, plain}
use gitlab_shell.Accounts
use gitlab_shell.Accounts.{ℤ, pos, Effect, execute_discover}
use gitlab_shell.Accounts.Recovery
use gitlab_shell.Accounts.Recovery.{execute_recover}
use gitlab_shell.Accounts.Tokens
use gitlab_shell.Accounts.Tokens.{execute_token}
use gitlab_shell.Accounts.Verification
use gitlab_shell.Accounts.Verification.{
  Event, push_sends, otp_sends, times_out, push_auth, verify_otp, verified,
}
use gitlab_shell.Accounts.Caller.{IsAllowed}
use gitlab_shell.Accounts.Requests.{IsTerms, requests-IsAllowed}
use gitlab_shell.Accounts.Race.{Has, IsProven, verified-IsProven}
use gitlab_shell.CommandArgs.{Shell}
use gitlab_shell.Tests.Access.{shell}

abbrev world : Accounts.World
world = record {
  new_client = none;
  route = λ who. codes "https://gitlab.example.com";
  send = λ host q. ok (codes "{}");
  decode_user = λ body.
      some (record { user_id = pos 7; name = codes "Some User"; username = codes "some.user" });
}

abbrev decode_codes : Bytes → Option Recovery.Response
decode_codes body =
    some (record { success = true; recovery_codes = codes "1a2b" ∷ []; message = [] })

abbrev decode_token : Bytes → Option Tokens.Response
decode_token body = some (record {
  success = true;
  token = codes "glpat-1";
  scopes = codes "api" ∷ [];
  expires_at = codes "2030-01-01";
  message = [];
})

abbrev decode_otp : Bytes → Option Verification.Response
decode_otp body = some (record { success = true; message = [] })

-- A caller by name, who asks for a token.
abbrev caller : Shell
caller = record shell {
  gitlab_key_id = [];
  gitlab_username = codes "some.user";
  ssh_args = codes "personal_access_token" ∷ codes "ci" ∷ codes "api,sudo" ∷ codes "7" ∷ [];
}

abbrev atoi : Bytes → Option ℤ
atoi s = some (pos 7)

abbrev date : ℕ → Bytes
date days = codes "2030-01-01"

abbrev allowed : List Bytes
allowed = codes "api" ∷ codes "read_api" ∷ []

abbrev scanln : Bytes → Bytes
scanln s = s

requests-IsAllowed_example :
    let P = IsAllowed world caller (IsTerms atoi date allowed caller.ssh_args) in
    All P (execute_discover world caller).0
    × All P (execute_recover world decode_codes scanln caller (codes "yes"))
    × All P (execute_token world decode_token atoi date allowed caller).0
    × All P (push_auth world decode_otp caller).0
    × All P (verify_otp world decode_otp caller (codes "123456")).0
requests-IsAllowed_example =
    requests-IsAllowed world caller decode_codes decode_token decode_otp scanln (codes "yes")
      (codes "123456") atoi date allowed

abbrev events : List Event
events = otp_sends ∷ push_sends ∷ times_out (plain (codes "context deadline exceeded")) ∷ []

verified-IsProven_example :
    Has
      (IsProven world decode_otp caller scanln (codes "123456"))
      (verified world decode_otp scanln caller (codes "123456") events)
verified-IsProven_example = verified-IsProven world decode_otp scanln caller (codes "123456") events
