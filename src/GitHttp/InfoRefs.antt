-- ===== src/GitHttp/InfoRefs.antt =====
-- What `requestInfoRefs` of internal/command/githttp/util.go passes on to the client.
use mathlib.Core.List.{flatten}
use mathlib.Core.Path.{subst}
use gitlab_shell.Prelude.{
  ltb, leb, Bool-cases, length, take, drop, replicate, length-append, take-append-drop, length-drop,
  take-append_all, drop-append_all, Bytes, codes, eqb, eqb_iff, eqb_refl, is_empty, Lacks, ℕ, suc,
  ◌-◌, ◌<◌, ◌≡◌, refl, sym, ap, ◌∙◌, ◌⊎◌, inl, inr, Bool, true, false, ◌&&◌, List, [], ◌∷◌, ◌++◌,
  append-nil, arith,
}
use gitlab_shell.Errors.{ok, err, plain}
use gitlab_shell.GitHttp.{request_info_refs}

no_end :
    (p c : Bytes) (at_end : Bool)
    → (at_end && is_empty c) ≡ false
    → (at_end && leb (length (p ++ c)) (length p)) ≡ false
no_end p [] at_end h = ground arith
no_end p (x ∷ c) at_end h = ground (arith, length-append p (x ∷ c))

-- A response whose first read holds the service header, and does not end with it, is passed on behind
-- that header.
pub info_refs-append :
    (service_name http_prefix c : Bytes) (at_end : Bool) (body : List Bytes)
    → (at_end && is_empty c) ≡ false
    → request_info_refs service_name http_prefix (ok (at_end, (http_prefix ++ c) ∷ body))
      ≡ ok (c ++ flatten body)
unfolding request_info_refs
info_refs-append service_name p c at_end body h =
    let none_left : length p - length (p ++ c) ≡ 0 = omega (arith, length-append p c) in
    rw (
      no_end p c at_end h,
      none_left,
      take-append_all p c,
      drop-append_all p c,
      append-nil,
      eqb_refl p,
    )

is_empty-length : (s : Bytes) → is_empty s ≡ true → length s ≡ 0
is_empty-length [] h = refl
is_empty-length (x ∷ s) h = absurd (cc h)

zero-not-Lacks : (s : Bytes) (k : ℕ) → ¬ (Lacks 0 (s ++ replicate (suc k) 0))
zero-not-Lacks [] k h = h.0 refl
zero-not-Lacks (x ∷ s) k h = zero-not-Lacks s k h.1

-- A header is not what a shorter read leaves in the buffer.
short_other :
    (p c : Bytes)
    → Lacks 0 p
    → length c < length p
    → eqb (take (length p) c ++ replicate (length p - length c) 0) p ≡ false
short_other p c h short =
    let k : ℕ = length p - length c - 1 in
    let pad : length p - length c ≡ suc k = omega arith in
    elim (Bool-cases (eqb (take (length p) c ++ replicate (length p - length c) 0) p)) [
      | inl same ↦ absurd (
          zero-not-Lacks (take (length p) c) k
            (subst (Lacks 0) (sym (rw pad at ((eqb_iff _ p).0 same))) h))
      | inr other ↦ other
    ]

-- A first read that is shorter than the header is an error, whatever the later reads hold: also
-- where the response as a whole begins with the header.
pub info_refs_short :
    (service_name http_prefix c : Bytes) (at_end : Bool) (body : List Bytes)
    → Lacks 0 http_prefix
    → length c < length http_prefix
    → request_info_refs service_name http_prefix (ok (at_end, c ∷ body))
      ≡ err (plain (codes "unexpected " ++ service_name ++ codes " response"))
unfolding request_info_refs
info_refs_short service_name p c at_end body h short =
    let other = short_other p c h short in
    elim (Bool-cases (at_end && leb (length c) (length p))) [
      | inl ends ↦ rw ends refl
      | inr goes_on ↦ rw (goes_on, other) refl
    ]

rest_given :
    (p c : Bytes) (at_end : Bool)
    → (at_end && leb (length c) (length p)) ≡ false
    → (at_end && is_empty (drop (length p) c)) ≡ false
rest_given p c at_end h =
    ground (arith, length-drop (length p) c, is_empty-length (drop (length p) c))

-- What is not refused begins with the header, and the first read does not end with it.
pub info_refs-cases :
    (service_name http_prefix : Bytes) (at_end : Bool) (reads : List Bytes)
    → Lacks 0 http_prefix
    → ((c : Bytes) × (more : List Bytes) × (reads ≡ (http_prefix ++ c) ∷ more)
        × ((at_end && is_empty c) ≡ false))
      ⊎ (request_info_refs service_name http_prefix (ok (at_end, reads))
          ≡ err (plain (codes "unexpected " ++ service_name ++ codes " response")))
unfolding request_info_refs
info_refs-cases service_name p at_end [] h = inr refl
info_refs-cases service_name p at_end (c ∷ more) h =
    elim (Bool-cases (at_end && leb (length c) (length p))) [
      | inl ends ↦ inr (rw ends refl)
      | inr goes_on ↦
          elim (Bool-cases (eqb (take (length p) c ++ replicate (length p - length c) 0) p)) [
            | inr other ↦ inr (rw (goes_on, other) refl)
            | inl same ↦ elim (Bool-cases (ltb (length c) (length p))) [
              | inl short ↦ absurd (cc (same, short_other p c h (ground arith)))
              | inr long ↦
                  let no_pad : length p - length c ≡ 0 = ground arith in
                  let front : take (length p) c ≡ p =
                    sym (append-nil (take (length p) c)) ∙ (rw no_pad at ((eqb_iff _ p).0 same)) in
                  let whole : c ≡ p ++ drop (length p) c =
                    sym (take-append-drop (length p) c) ∙ ap (λ q. q ++ drop (length p) c) front in
                  inl (
                    drop (length p) c,
                    more,
                    ap (λ q. q ∷ more) whole,
                    rest_given p c at_end goes_on,
                  )
            ]
          ]
    ]
