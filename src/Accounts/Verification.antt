-- ===== src/Accounts/Verification.antt =====
-- internal/command/twofactorverify and internal/gitlabnet/twofactorverify. The two goroutines and
-- the timer of `Execute` are events: a goroutine that sends a message, and the end of the time.
-- Each request is as it answers while the time lasts. `fmt.Fscanln` of one word is a parameter.
use gitlab_shell.Prelude.{
  if◌then◌else◌, take, Bytes, codes, is_empty, ℕ, Bool, not, Option, none, some, List, [], ◌∷◌,
  ◌++◌,
}
use gitlab_shell.Errors.{Result, ok, err, Error, plain, message}
use gitlab_shell.CommandArgs.{Shell}
use gitlab_shell.Accounts.{
  printed, Effect, new_client, World, Run, manual_otp, push_otp, and_then, ask, who_of,
}

-- `Response`
pub record Response : Type 0 where
  pub success : Bool
  pub message : Bytes

-- The messages of `Execute`.
pub data Message : Type 0 where
  by_push by_otp : Message
  failed : Bytes → Message

unfoldable pub text : Message → Bytes
text by_push =
    codes "OTP has been validated by Push Authentication. Git operations are now allowed."
text by_otp = codes "OTP validation successful. Git operations are now allowed."
text (failed reason) = codes "OTP validation failed: " ++ reason

-- `formatErr`
unfoldable pub format_err : Error → Message
unfolding message
format_err e = failed (message e)

abbrev pub otp_length : ℕ
otp_length = 64

-- `getOTP`
unfoldable pub get_otp : (Bytes → Bytes) → Bytes → Result Bytes
get_otp scanln input =
    let answer = scanln (take otp_length input) in
    if is_empty answer then err (plain (codes "OTP cannot be blank")) else ok answer

-- `parse`, behind the decoding.
unfoldable pub check_response : Response → Result (Unit {0})
check_response r = if not r.success then err (plain r.message) else ok tt

module _ (w : World) (decode : Bytes → Option Response) where
  -- `VerifyOTP`
  unfoldable pub verify_otp : Shell → Bytes → Run (Unit {0})
  unfolding and_then who_of ask check_response
  verify_otp args otp =
      and_then (who_of w args)
        (λ who. and_then (ask w args (manual_otp who otp) decode) (λ r. ([], check_response r)))

  -- `PushAuth`
  unfoldable pub push_auth : Shell → Run (Unit {0})
  unfolding and_then who_of ask check_response
  push_auth args =
      and_then (who_of w args)
        (λ who. and_then (ask w args (push_otp who) decode) (λ r. ([], check_response r)))

  -- What the first goroutine sends.
  unfoldable pub push_messages : Shell → List Message
  unfolding push_auth
  push_messages args = elim (push_auth args).1 [ ok _ ↦ by_push ∷ [] | err e ↦ [] ]

  -- The check of an answer, which the second goroutine sends.
  unfoldable pub otp_message : Shell → Bytes → Message
  unfolding verify_otp format_err
  otp_message args answer = elim (verify_otp args answer).1 [ ok _ ↦ by_otp | err e ↦ format_err e ]

  -- What the second goroutine sends: behind a blank answer, the check of the empty one as well.
  unfoldable pub otp_messages : (Bytes → Bytes) → Shell → Bytes → List Message
  unfolding get_otp otp_message format_err
  otp_messages scanln args input = elim (get_otp scanln input) [
    | err e ↦ format_err e ∷ otp_message args [] ∷ []
    | ok answer ↦ otp_message args answer ∷ []
  ]

-- What has not been sent by each goroutine, and the message that was received.
pub record Channel : Type 0 where
  pub push : List Message
  pub otp : List Message
  pub received : Option Message

-- A goroutine is ready to send, or the time is over.
pub data Event : Type 0 where
  push_sends otp_sends : Event
  times_out : Error → Event

-- The first message is received, and none behind it.
unfoldable pub receive : List Message → Channel → Channel
receive [] c = c
receive (m ∷ ms) c = elim c.received [ some _ ↦ c | none ↦ record c { received = some m } ]

unfoldable pub step : Event → Channel → Channel
unfolding receive format_err
step push_sends c = receive c.push c
step otp_sends c = receive c.otp c
step (times_out e) c = receive (format_err e ∷ []) c

unfoldable pub select : List Event → Channel → Option Message
unfolding step
select [] c = c.received
select (e ∷ es) c = select es (step e c)

module _ (w : World) (decode : Bytes → Option Response) where
  -- `Execute` behind the prompt: the message that is printed, if the events decide on one.
  unfoldable pub verified : (Bytes → Bytes) → Shell → Bytes → List Event → Option Message
  unfolding select push_messages otp_messages
  verified scanln args input es = select es (record {
    push = push_messages w decode args;
    otp = otp_messages w decode scanln args input;
    received = none;
  })

  -- `Execute`: what it prints, and its error.
  unfoldable pub execute_verify :
      (Bytes → Bytes) → Shell → Bytes → List Event → List Effect × Option Error
  unfolding verified new_client text
  execute_verify scanln args input es = elim (new_client w).1 [
    | err e ↦ ([], some e)
    | ok _ ↦ elim (verified scanln args input es) [
      | none ↦ (printed (codes "OTP: ") ∷ [], none)
      | some m ↦ (printed (codes "OTP: ") ∷ printed (codes "\n" ++ text m ++ codes "\n") ∷ [], none)
    ]
  ]
