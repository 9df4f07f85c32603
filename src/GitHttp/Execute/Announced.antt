-- ===== src/GitHttp/Execute/Announced.antt =====
-- Which responses `requestInfoRefs` takes for an announcement of references.
use mathlib.Core.List.{flatten}
use gitlab_shell.Prelude.{
  ltb, leb, Bool-cases, Option-cases, Bytes, codes, is_empty, Lacks, ◌≡◌, refl, ap, ◌⊎◌, inl, inr,
  true, false, ◌&&◌, some, List, [], ◌∷◌, ◌++◌, arith,
}
use gitlab_shell.Errors.{Result, ok, err, Error, plain, ok-injective, Result-cases}
use gitlab_shell.Http.{Request}
use gitlab_shell.Http.Git.{Response, conclude, answer}
use gitlab_shell.GitHttp.{request_info_refs}
use gitlab_shell.GitHttp.InfoRefs.{info_refs-append, info_refs-cases}
use gitlab_shell.GitHttp.Execute.{body_of, copy_info_refs}

answer_ok : (r : Response) → ltb r.status_code 400 ≡ true → answer r ≡ ok r
unfolding answer
answer_ok r h = let low : leb 400 r.status_code ≡ false = ground arith in simp (low, answer)

pub conclude_ok :
    (got : Result Response) (r : Response)
    → got ≡ ok r
    → ltb r.status_code 400 ≡ true
    → conclude got ≡ ok r
unfolding conclude
conclude_ok got r e h = rw (e, conclude) (answer_ok r h)

pub conclude-eq-ok :
    (got : Result Response) (r : Response)
    → conclude got ≡ ok r
    → (got ≡ ok r) × (ltb r.status_code 400 ≡ true)
unfolding conclude answer
conclude-eq-ok (err e) r h = absurd (cc h)
conclude-eq-ok (ok v) r h = elim (Bool-cases (leb 400 v.status_code)) [
  | inr low ↦
      let same = ok-injective (rw (low, answer, conclude) at h) in
      (ap ok same, rw (← same) (ground arith))
  | inl high ↦ elim (Option-cases v.failure) [
    | inr (e, bad) ↦ absurd (cc (rw (high, bad, answer, conclude) at h))
    | inl fine ↦ elim (Bool-cases (is_empty (flatten v.body))) [
      | inl empty ↦ absurd (cc (rw (high, fine, empty, answer, conclude) at h))
      | inr text ↦ absurd (cc (rw (high, fine, text, answer, conclude) at h))
    ]
  ]
]

-- A response with a status below 400, whose first read holds the header whole and does not end the
-- body with it.
abbrev pub Announces : Bytes → Result Response → Response → Bytes → List Bytes → Type 0
Announces header got r c more =
    (got ≡ ok r)
    × (ltb r.status_code 400 ≡ true)
    × (r.body ≡ (header ++ c) ∷ more)
    × ((r.first_ends && is_empty c) ≡ false)

abbrev pub HasAnnounced : Bytes → Result Response → Type 0
HasAnnounced header got =
    (r : Response) × (c : Bytes) × (more : List Bytes) × Announces header got r c more

not_announced :
    (service header : Bytes) (got : Result Response) (e : Error)
    → request_info_refs service header (body_of (conclude got)) ≡ err e
    → ¬ HasAnnounced header got
unfolding body_of
not_announced service header got e h (r, c, more, (there, low, body, goes_on)) =
    let whole : request_info_refs service header (body_of (conclude got)) ≡ ok (c ++ flatten more) =
      rw (conclude_ok got r there low, body_of, body)
        (info_refs-append service header c r.first_ends more goes_on) in
    absurd (cc (h, whole))

pub copy_info_refs-cases :
    (service header : Bytes) (sent : List Request) (got : Result Response)
    → Lacks 0 header
    → ((e : Error) × (¬ HasAnnounced header got)
        × (copy_info_refs service header (sent, conclude got)
            ≡ record { sent = sent; out = []; failure = some e }))
      ⊎ ((r : Response) × (c : Bytes) × (more : List Bytes) × Announces header got r c more
          × (copy_info_refs service header (sent, conclude got)
              ≡ record { sent = sent; out = c ++ flatten more; failure = r.failure }))
unfolding copy_info_refs body_of request_info_refs
copy_info_refs-cases service header sent got no_zero = elim (Result-cases (conclude got)) [
  | inl (e, bad) ↦
      let failed : request_info_refs service header (body_of (conclude got)) ≡ err e =
        simp (bad, body_of, request_info_refs) in
      inl (e, not_announced service header got e failed, simp (failed, copy_info_refs))
  | inr (r, good) ↦
      let (there, low) = conclude-eq-ok got r good in
      elim (info_refs-cases service header r.first_ends r.body no_zero) [
        | inr refused ↦
            let failed : request_info_refs service header (body_of (conclude got))
                ≡ err (plain (codes "unexpected " ++ service ++ codes " response")) =
              rw (good, body_of) refused in
            inl (
              plain (codes "unexpected " ++ service ++ codes " response"),
              not_announced service header got _ failed,
              simp (failed, copy_info_refs),
            )
        | inl (c, more, body, goes_on) ↦
            let whole : request_info_refs service header (body_of (ok r)) ≡ ok (c ++ flatten more) =
              rw (body_of, body) (info_refs-append service header c r.first_ends more goes_on) in
            inr (
              r,
              c,
              more,
              (there, low, body, goes_on),
              (rw (copy_info_refs, good, whole, good) refl),
            )
      ]
]
