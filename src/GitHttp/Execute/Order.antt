-- ===== src/GitHttp/Execute/Order.antt =====
-- What a pull and a push over HTTP send, in which order, and what the SSH client gets.
use mathlib.Core.List.{flatten}
use gitlab_shell.Prelude.{
  ltb, Bool-cases, Option-cases, Bytes, ◌≡◌, refl, sym, ap, ◌∙◌, ◌↔◌, ◌⊎◌, inl, inr, true, false,
  none, some, List, [], ◌∷◌, ◌++◌, append-nil,
}
use gitlab_shell.Errors.{Result, ok, Error, Result-cases}
use gitlab_shell.Lfs.Locks.{panics, returns}
use gitlab_shell.Http.{Request, Library}
use gitlab_shell.Http.Git.{Response, start, conclude, do_request, new_request, info_refs, send_pack}
use gitlab_shell.GitHttp.Execute.Expected.{
  info_asked, pack_asked, info_request, pack_request, service_header, info_asked-eq, pack_asked-eq,
  prefix_of-eq, service_header-Lacks,
}
use gitlab_shell.GitHttp.Execute.Announced.{
  Announces, HasAnnounced, conclude_ok, conclude-eq-ok, copy_info_refs-cases,
}
use gitlab_shell.GitHttp.Execute.{
  CustomPayloadData, Direction, Outcome, client_of, copy_out, copy_info_refs, and_then, service_of,
  prefix_of, is_direct, ask_info_refs, request_pack, execute_direct, execute,
}

module _ (lib : Library) (send : Request → Result Response) where
  -- Where a command panics: the API asked for Git over SSH and named no headers.
  pub execute_direct-panics_iff :
      (way : Direction) (data_ : CustomPayloadData) (git_protocol : Bytes) (input : List Bytes)
      → (execute lib send way data_ git_protocol input ≡ panics)
        ↔ ((is_direct way data_ ≡ true) × (data_.request_headers ≡ none))
  unfolding execute execute_direct
  execute_direct-panics_iff way data_ git_protocol input = elim (Bool-cases (is_direct way data_)) [
    | inr over_http ↦
        ((λ h. absurd (cc (rw (over_http, execute) at h))), (λ h. absurd (cc (h.0, over_http))))
    | inl direct ↦
        let same : execute lib send way data_ git_protocol input
            ≡ execute_direct lib send way data_ git_protocol input =
          simp (direct, execute) in
        elim (Option-cases data_.request_headers) [
          | inl nil ↦ ((λ _. (direct, nil)), (λ _. same ∙ (rw (nil, execute_direct) refl)))
          | inr (headers, there) ↦ (
            (λ h. absurd (cc (rw (there, execute_direct) at (sym same ∙ h)))),
            (λ h. absurd (cc (h.1, there))),
          )
        ]
  ]

module _ (lib : Library) (send : Request → Result Response)
    (accepts : (http_method url : Bytes) → lib.reject_request http_method url ≡ none) where
  start_accepted :
      (r : Request)
      → start (new_request lib send r) (do_request lib send) ≡ (r ∷ [], conclude (send r))
  unfolding new_request do_request
  start_accepted r =
      let made : new_request lib send r ≡ ok r = simp (accepts r.http_method r.url, new_request) in
      rw (made, start) refl

  ask_info_refs_lem :
      (way : Direction) (data_ : CustomPayloadData)
      → ask_info_refs lib send way (client_of data_)
        ≡ copy_info_refs
            (service_of way)
            (prefix_of way)
            (info_asked way data_ ∷ [], conclude (send (info_asked way data_)))
  unfolding ask_info_refs info_refs client_of
  ask_info_refs_lem way data_ =
      ap (copy_info_refs (service_of way) (prefix_of way)) (start_accepted (info_asked way data_))

  request_pack_lem :
      (way : Direction) (data_ : CustomPayloadData) (input : List Bytes)
      → request_pack lib send way (client_of data_) input
        ≡ copy_out (pack_asked way data_ input ∷ [], conclude (send (pack_asked way data_ input)))
  unfolding request_pack send_pack client_of
  request_pack_lem way data_ input = ap copy_out (start_accepted (pack_asked way data_ input))

  -- The pack was answered with a status below 400.
  abbrev pub Answers : Direction → CustomPayloadData → List Bytes → Response → Type 0
  Answers way data_ input pack =
      (send (pack_request way data_ input) ≡ ok pack) × (ltb pack.status_code 400 ≡ true)

  -- What a command sends and writes that is not direct.
  abbrev pub IsRelayed : Direction → CustomPayloadData → List Bytes → Outcome → Type 0
  IsRelayed way data_ input o =
      let got = send (info_request way data_) in
      ((¬ HasAnnounced (service_header way) got)
        × (e : Error) × (o
            ≡ record { sent = info_request way data_ ∷ []; out = []; failure = some e }))
      ⊎ ((info : Response) × (c : Bytes) × (more : List Bytes) × Announces (service_header way) got
            info c more
          × (((e : Error) × (info.failure ≡ some e)
                × (o ≡ record {
                  sent = info_request way data_ ∷ [];
                  out = c ++ flatten more;
                  failure = some e;
                }))
              ⊎ ((info.failure ≡ none)
                  × (((pack : Response) × Answers way data_ input pack
                        × (o ≡ record {
                          sent = info_request way data_ ∷ pack_request way data_ input ∷ [];
                          out = (c ++ flatten more) ++ flatten pack.body;
                          failure = pack.failure;
                        }))
                      ⊎ ((¬ ((pack : Response) × Answers way data_ input pack))
                          × (e : Error) × (o ≡ record {
                            sent = info_request way data_ ∷ pack_request way data_ input ∷ [];
                            out = c ++ flatten more;
                            failure = some e;
                          }))))))

  ask_info_refs-cases :
      (way : Direction) (data_ : CustomPayloadData)
      → ((e : Error) × (¬ HasAnnounced (service_header way) (send (info_request way data_)))
          × (ask_info_refs lib send way (client_of data_)
              ≡ record { sent = info_request way data_ ∷ []; out = []; failure = some e }))
        ⊎ ((r : Response) × (c : Bytes) × (more : List Bytes) × Announces
              (service_header way)
              (send (info_request way data_))
              r
              c
              more
            × (ask_info_refs lib send way (client_of data_) ≡ record {
              sent = info_request way data_ ∷ [];
              out = c ++ flatten more;
              failure = r.failure;
            }))
  ask_info_refs-cases way data_ =
      rw (ask_info_refs_lem way data_, info_asked-eq way data_, prefix_of-eq way)
        (copy_info_refs-cases (service_of way) (service_header way) (info_request way data_ ∷ [])
          (send (info_request way data_)) (service_header-Lacks way))

  request_pack-cases :
      (way : Direction) (data_ : CustomPayloadData) (input : List Bytes)
      → ((pack : Response) × Answers way data_ input pack
          × (request_pack lib send way (client_of data_) input ≡ record {
            sent = pack_request way data_ input ∷ [];
            out = flatten pack.body;
            failure = pack.failure;
          }))
        ⊎ ((¬ ((pack : Response) × Answers way data_ input pack))
            × (e : Error) × (request_pack lib send way (client_of data_) input
                ≡ record { sent = pack_request way data_ input ∷ []; out = []; failure = some e }))
  unfolding copy_out
  request_pack-cases way data_ input =
      let asked : request_pack lib send way (client_of data_) input
          ≡ copy_out
              (pack_request way data_ input ∷ [], conclude (send (pack_request way data_ input))) =
        rw (← pack_asked-eq way data_ input) (request_pack_lem way data_ input) in
      elim (Result-cases (conclude (send (pack_request way data_ input)))) [
        | inr (pack, good) ↦ inl (pack, conclude-eq-ok _ pack good, asked ∙ simp (good, copy_out))
        | inl (e, bad) ↦ inr (
          (λ (pack, (there, low)). absurd (cc (bad, conclude_ok _ pack there low))),
          e,
          asked ∙ simp (bad, copy_out),
        )
      ]

  -- Where no request is refused before it is sent, and the payload does not ask for Git over SSH, a
  -- pull or a push first asks for the references of its service at `/info/refs`. If the server does
  -- not answer that with a status below 400 and a first read that returns the header of the service,
  -- and not together with the end of the body, nothing else is sent, nothing is written and the
  -- command fails. Otherwise the SSH client gets what stands behind the header; if that ends with an error, nothing else is sent and
  -- the command fails with it. If not, exactly one more request is sent: the pack, to the path of
  -- the service with its content types, and with what `readFromStdin` writes. If it is answered with
  -- a status below 400, the client gets the answer too, and the command ends as its body does;
  -- otherwise the command fails.
  pub execute_relays :
      (way : Direction) (data_ : CustomPayloadData) (git_protocol : Bytes) (input : List Bytes)
      → is_direct way data_ ≡ false
      → (o : Outcome) × (execute lib send way data_ git_protocol input ≡ returns o)
        × IsRelayed way data_ input o
  unfolding execute and_then
  execute_relays way data_ git_protocol input http = elim (ask_info_refs-cases way data_) [
    | inl (e, unannounced, first) ↦
        (_, simp (http, first, execute, and_then), inl (unannounced, e, refl))
    | inr (info, c, more, announced, first) ↦ elim (Option-cases info.failure) [
      | inr (e, broken) ↦ (
        _,
        simp (http, first, broken, execute, and_then),
        inr (info, c, more, announced, inl (e, broken, refl)),
      )
      | inl whole ↦ elim (request_pack-cases way data_ input) [
        | inl (pack, answered, second) ↦ (
          _,
          simp (http, first, whole, second, execute, and_then),
          inr (info, c, more, announced, inr (whole, inl (pack, answered, refl))),
        )
        | inr (unanswered, e, second) ↦ (
          record {
            sent = info_request way data_ ∷ pack_request way data_ input ∷ [];
            out = c ++ flatten more;
            failure = some e;
          },
          simp (http, first, whole, second, append-nil, execute, and_then),
          inr (info, c, more, announced, inr (whole, inr (unanswered, e, refl))),
        )
      ]
    ]
  ]
