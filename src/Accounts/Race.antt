-- ===== src/Accounts/Race.antt =====
-- Which message the two goroutines and the timer of 2fa_verify lead to.
use gitlab_shell.Prelude.{
  Bool-cases, Option-cases, take, Bytes, codes, is_empty, ◌≡◌, refl, ap, ◌∙◌, inl, inr, true, false,
  Option, none, some, List, [], ◌∷◌,
}
use gitlab_shell.Errors.{err, Error, plain, ok, Result-cases, ok-injective, >>=-eq-ok}
use gitlab_shell.CommandArgs.{Shell}
use gitlab_shell.Lfs.Client.{parse_json}
use gitlab_shell.Accounts.{
  World, Request, Who, manual_otp, push_otp, and_then, user_args, ask, who_of,
}
use gitlab_shell.Accounts.Verification.{
  Response, Message, by_push, by_otp, failed, Channel, Event, push_sends, otp_sends, times_out,
  format_err, otp_length, get_otp, check_response, verify_otp, push_auth, push_messages,
  otp_message, otp_messages, receive, step, select, verified,
}
use gitlab_shell.Accounts.Caller.{IsCaller, and_then-eq-ok, who_of-IsCaller}

-- What holds of the first message of a goroutine, and of the message received, if there is one.
abbrev pub Starts : (Message → Type 0) → List Message → Type 0
Starts P [] = Unit {0}
Starts P (m ∷ ms) = P m

abbrev pub Has : (Message → Type 0) → Option Message → Type 0
Has P none = Unit {0}
Has P (some m) = P m

module _ (P : Message → Type 0) (fails : (reason : Bytes) → P (failed reason)) where
  pub record IsSound (c : Channel) : Type 0 where
    pub push : Starts P c.push
    pub otp : Starts P c.otp
    pub received : Has P c.received

  receive-IsSound :
      (ms : List Message) (c : Channel) → Starts P ms → IsSound c → IsSound (receive ms c)
  unfolding receive
  receive-IsSound [] c h s = s
  receive-IsSound (m ∷ ms) c h s = elim (Option-cases c.received) [
    | inl waiting ↦
        let same : receive (m ∷ ms) c ≡ record c { received = some m } = simp (waiting, receive) in
        rw same (record { push = s.push; otp = s.otp; received = h })
    | inr (first, taken) ↦ let same : receive (m ∷ ms) c ≡ c = simp (taken, receive) in rw same s
  ]

  step-IsSound : (e : Event) (c : Channel) → IsSound c → IsSound (step e c)
  unfolding step format_err
  step-IsSound push_sends c s = receive-IsSound c.push c s.push s
  step-IsSound otp_sends c s = receive-IsSound c.otp c s.otp s
  step-IsSound (times_out e) c s = receive-IsSound (format_err e ∷ []) c (fails _) s

  select-Has : (es : List Event) (c : Channel) → IsSound c → Has P (select es c)
  unfolding select
  select-Has [] c s = s.received
  select-Has (e ∷ es) c s = select-Has es (step e c) (step-IsSound e c s)

module _ (w : World) (decode : Bytes → Option Response) (args : Shell) where
  -- The internal API answered success to a request in the name of the caller.
  abbrev pub IsConfirmed : (Who → Request) → Type 0
  IsConfirmed request =
      (who : Who) × IsCaller w args who
      × (body : Bytes) × (w.send (w.route (user_args args)) (request who) ≡ ok body)
      × (r : Response) × (decode body ≡ some r)
      × (r.success ≡ true)

  parse_json-eq-ok :
      (body : Bytes) (r : Response) → parse_json decode body ≡ ok r → decode body ≡ some r
  unfolding parse_json
  parse_json-eq-ok body r h = elim (Option-cases (decode body)) [
    | inl bad ↦ absurd (cc (rw (bad, parse_json) at h))
    | inr (found, good) ↦ good ∙ ap some (ok-injective (rw (good, parse_json) at h))
  ]

  check_response-eq-ok : (r : Response) → check_response r ≡ ok tt → r.success ≡ true
  unfolding check_response
  check_response-eq-ok r h = elim (Bool-cases r.success) [
    | inl good ↦ good
    | inr bad ↦ absurd (cc (rw (bad, check_response) at h))
  ]

  confirmed :
      (request : Who → Request)
      → (and_then
          (who_of w args)
          (λ who. and_then (ask w args (request who) decode) (λ r. ([], check_response r)))).1
        ≡ ok tt
      → IsConfirmed request
  unfolding ask parse_json check_response
  confirmed request h =
      let (who, found, rest) = and_then-eq-ok (who_of w args) _ tt h in
      let (r, answered, checked) = and_then-eq-ok (ask w args (request who) decode) _ tt rest in
      let (body, sent, parsed) =
        >>=-eq-ok (w.send (w.route (user_args args)) (request who)) _ answered in
      (
        who,
        who_of-IsCaller w args who found,
        body,
        sent,
        r,
        parse_json-eq-ok body r parsed,
        check_response-eq-ok r checked,
      )

  -- What a message means: the push was confirmed, or the password that was read.
  abbrev pub IsProven : (Bytes → Bytes) → Bytes → Message → Type 0
  IsProven scanln input by_push = IsConfirmed push_otp
  IsProven scanln input by_otp =
      (answer : Bytes) × (answer ≡ scanln (take otp_length input))
      × (is_empty answer ≡ false)
      × IsConfirmed (λ who. manual_otp who answer)
  IsProven scanln input (failed reason) = Unit {0}

  ok-Unit : (x : Unit {0}) → ok x ≡ ok tt
  ok-Unit tt = refl

  push_messages-Starts :
      (scanln : Bytes → Bytes) (input : Bytes)
      → Starts (IsProven scanln input) (push_messages w decode args)
  unfolding push_messages push_auth
  push_messages-Starts scanln input = elim (Result-cases (push_auth w decode args).1) [
    | inl (e, bad) ↦
        let same : push_messages w decode args ≡ [] = simp (bad, push_messages) in rw same tt
    | inr (u, good) ↦
        let same : push_messages w decode args ≡ by_push ∷ [] = simp (good, push_messages) in
        rw same (confirmed push_otp (good ∙ ok-Unit u))
  ]

  otp_message-IsProven :
      (scanln : Bytes → Bytes) (input answer : Bytes)
      → answer ≡ scanln (take otp_length input)
      → is_empty answer ≡ false
      → IsProven scanln input (otp_message w decode args answer)
  unfolding otp_message verify_otp format_err
  otp_message-IsProven scanln input answer same given =
      elim (Result-cases (verify_otp w decode args answer).1) [
        | inl (e, bad) ↦
            let made : otp_message w decode args answer ≡ format_err e = simp (bad, otp_message) in
            rw made tt
        | inr (u, good) ↦
            let made : otp_message w decode args answer ≡ by_otp = simp (good, otp_message) in
            rw made
              (answer, same, given, confirmed (λ who. manual_otp who answer) (good ∙ ok-Unit u))
      ]

  otp_messages-Starts :
      (scanln : Bytes → Bytes) (input : Bytes)
      → Starts (IsProven scanln input) (otp_messages w decode scanln args input)
  unfolding otp_messages get_otp format_err
  otp_messages-Starts scanln input = elim (Bool-cases (is_empty (scanln (take otp_length input)))) [
    | inl blank ↦
        let e : Error = plain (codes "OTP cannot be blank") in
        let first : get_otp scanln input ≡ err e = simp (blank, get_otp) in
        let same : otp_messages w decode scanln args input
            ≡ format_err e ∷ otp_message w decode args [] ∷ [] =
          simp (first, otp_messages) in
        rw same tt
    | inr given ↦
        let answer = scanln (take otp_length input) in
        let first : get_otp scanln input ≡ ok answer = simp (given, get_otp) in
        let same : otp_messages w decode scanln args input ≡ otp_message w decode args answer ∷ [] =
          simp (first, otp_messages) in
        rw same (otp_message-IsProven scanln input answer refl given)
  ]

-- However the two goroutines and the timer interleave, 2fa_verify says that Git operations are
-- allowed only if the internal API answered success to a request in the name of the caller: to the
-- push check, or to the check of the password that was read, which is then not blank.
pub verified-IsProven :
    (w : World) (decode : Bytes → Option Response) (scanln : Bytes → Bytes) (args : Shell)
    (input : Bytes) (es : List Event)
    → Has (IsProven w decode args scanln input) (verified w decode scanln args input es)
unfolding verified
verified-IsProven w decode scanln args input es =
    select-Has (IsProven w decode args scanln input) (λ _. tt) es _
      (record {
        push = push_messages-Starts w decode args scanln input;
        otp = otp_messages-Starts w decode args scanln input;
        received = tt;
      })
