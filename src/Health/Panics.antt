-- ===== src/Health/Panics.antt =====
-- When the health check panics.
use gitlab_shell.Prelude.{
  Bool-cases, Option-cases, Bytes, ◌≡◌, refl, ap, ◌≢◌, ◌↔◌, inl, inr, false, none, some,
}
use gitlab_shell.Errors.{Result-cases, Result, ok, err}
use gitlab_shell.Lfs.Locks.{panics}
use gitlab_shell.Health.{
  uses_new_client, run_check_old_client, run_check, parse, execute, check, World, Answer, answer_of,
  report, returned,
}

-- No response and no error.
abbrev pub nothing : Answer
nothing = (none, none)

report-panics : (a : Answer) → report a ≡ panics → a ≡ nothing
unfolding report
report-panics (r, some e) h = absurd (cc h)
report-panics (none, none) h = refl
report-panics (some r, none) h = elim (Bool-cases r.redis) [
  | inl up ↦ absurd (cc (rw (up, report) at h))
  | inr down ↦ absurd (cc (rw (down, report) at h))
]

answer_of-some : (r : Result _) → answer_of r ≢ nothing
unfolding answer_of
answer_of-some (err e) h = cc (ap (λ a. a.1) h)
answer_of-some (ok r) h = cc (ap (λ a. a.0) h)

returned-nothing : (a : Answer) → returned a ≡ nothing → a ≡ nothing
unfolding returned
returned-nothing (r, some e) h = absurd (cc (ap (λ a. a.1) h))
returned-nothing (r, none) h = h

module _ (w : World) where
  check-nothing :
      check w ≡ nothing
      → (body : Bytes) × (w.get ≡ ok body) × (w.decode body ≡ none) × (w.close ≡ none)
  unfolding check parse
  check-nothing h = elim (Result-cases w.get) [
    | inl (e, bad) ↦ absurd (cc (ap (λ a. a.1) (rw (bad, check) at h)))
    | inr (body, got) ↦
        let both : ((parse w body).0, w.close) ≡ nothing = rw (got, check) at h in
        (body, got, parse-nothing body (ap (λ a. a.0) both), ap (λ a. a.1) both)
  ]
    where
      parse-nothing : (body : Bytes) → (parse w body).0 ≡ none → w.decode body ≡ none
      parse-nothing body e = elim (Option-cases (w.decode body)) [
        | inl bad ↦ bad
        | inr (r, good) ↦ absurd (cc (rw (good, parse) at e))
      ]

  -- The health check panics exactly when it takes the old client, `/check` is answered, the body
  -- cannot be decoded, and closing it succeeds: the error of the decoding is then lost.
  pub execute-panics_iff : (execute w ≡ panics) ↔ (
      (uses_new_client w ≡ false)
      × (w.new_client ≡ none)
      × (body : Bytes) × (w.get ≡ ok body)
      × (w.decode body ≡ none)
      × (w.close ≡ none))
  unfolding execute run_check run_check_old_client
  execute-panics_iff = (
    (λ h.
        let lost = report-panics (run_check w) h in
        elim (Bool-cases (uses_new_client w)) [
          | inl new ↦ absurd (answer_of-some w.check_new_client (rw (new, run_check) at lost))
          | inr old ↦ elim (Option-cases w.new_client) [
            | inr (e, bad) ↦
                absurd (cc (ap (λ a. a.1) (rw (old, bad, run_check, run_check_old_client) at lost)))
            | inl client ↦
                let (body, got, unreadable, closed) = check-nothing (
                  returned-nothing (check w)
                    (rw (old, client, run_check, run_check_old_client) at lost)) in
                (old, client, body, got, unreadable, closed)
          ]
        ]),
    (λ (old, client, body, got, bad, closed). simp (
      old, client, got, bad, closed, execute, run_check, run_check_old_client, check, parse,
      returned, report,
    )),
  )
