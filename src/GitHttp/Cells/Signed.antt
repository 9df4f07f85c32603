-- ===== src/GitHttp/Cells/Signed.antt =====
-- Where the requests to a cell go, and for whom they are signed.
use mathlib.Core.List.{flatten}
use gitlab_shell.Prelude.{
  if◌then◌else◌, Option-cases, All, Bytes, codes, is_empty, ◌≡◌, refl, sym, ap, ◌∙◌, inl, inr, Bool,
  true, false, ◌||◌, some, List, [], ◌∷◌, ◌++◌,
}
use gitlab_shell.Errors.{
  Result, ok, err, Error, wrapped, >>=-eq-ok, early-eq-ok, ok-injective, Result-cases,
}
use gitlab_shell.Http.{api_secret_header_name, header_values, Request, Library}
use gitlab_shell.Http.GitlabNet.{claims, sign_shell_jwt}
use gitlab_shell.Http.Git.{
  Client, Response, Sent, Pack, start, do_request, new_request, path_of, types_of, request_to,
  send_pack,
}
use gitlab_shell.GitHttp.Execute.{copy_out, execute_ssh_request}
use gitlab_shell.GitHttp.Cells.{
  Url, Access, Operation, cells_pull, cells_push, request_fn, Urls, base_of, headers_of, repo_url,
  sign, build_cells_git_client, execute_cells,
}

-- A request of a cell's command: it goes to the repository below the cell's address, which has a
-- scheme and a host, and its only token was signed for the user of the response.
abbrev pub IsSigned : Urls → Library → Operation → Bytes → Access → Request → Type 0
IsSigned urls lib operation secret a r =
    ((base : Url) × (urls.parse a.cell_address ≡ ok base)
      × (is_empty base.scheme ≡ false)
      × (is_empty base.host ≡ false)
      × (r.url ≡ repo_url urls lib base a.gl_project_path ++ path_of (request_fn operation)))
    × ((token : Bytes) × (lib.signed_string (lib.trim_space secret) (claims lib a.user_id)
          ≡ ok token)
        × (header_values api_secret_header_name r.headers ≡ token ∷ []))

neither :
    (a b : Bool) (e : Error) (x y : Url)
    → (if a || b then err e else ok x) ≡ ok y
    → (x ≡ y) × (a ≡ false) × (b ≡ false)
neither true b e x y h = absurd (cc h)
neither false true e x y h = absurd (cc h)
neither false false e x y h = (ok-injective h, refl, refl)

rewrapped :
    (got : Result Bytes) (prefix : Bytes) {token : Bytes}
    → (elim got [ err e ↦ err (wrapped prefix e) | ok t ↦ ok t ]) ≡ ok token
    → got ≡ ok token
rewrapped (err e) prefix h = absurd (cc h)
rewrapped (ok t) prefix h = h

All-start :
    (lib : Library) (send : Request → Result Response) (P : Request → Type 0)
    (made : Result Request)
    → ((r : Request) → made ≡ ok r → P r)
    → All P (start made (do_request lib send)).0
unfolding do_request
All-start lib send P (err e) h = tt
All-start lib send P (ok r) h = (h r refl, tt)

module _ (urls : Urls) (lib : Library) where
  base_of-eq-ok :
      (address : Bytes) (base : Url)
      → base_of urls lib address ≡ ok base
      → (urls.parse address ≡ ok base)
        × (is_empty base.scheme ≡ false)
        × (is_empty base.host ≡ false)
  unfolding base_of
  base_of-eq-ok address base h = elim (Result-cases (urls.parse address)) [
    | inl (e, bad) ↦ absurd (cc (rw (bad, base_of) at h))
    | inr (b, good) ↦
        let (same, scheme, host) =
          neither (is_empty b.scheme) (is_empty b.host) _ b base (rw (good, base_of) at h) in
        (good ∙ ap ok same, rw (← same) scheme, rw (← same) host)
  ]

  sign-eq-ok :
      (secret user_id token : Bytes)
      → sign urls lib secret user_id ≡ ok token
      → lib.signed_string (lib.trim_space secret) (claims lib user_id) ≡ ok token
  unfolding sign sign_shell_jwt
  sign-eq-ok secret user_id token h = rewrapped _ (codes "cells routing: generating Shell JWT") h

  headers_of-token :
      (operation : Operation) (token git_protocol : Bytes)
      → header_values api_secret_header_name
          (types_of (request_fn operation) ++ headers_of urls lib token git_protocol)
        ≡ token ∷ []
  unfolding header_values types_of request_fn headers_of
  headers_of-token cells_pull token [] = refl
  headers_of-token cells_pull token (x ∷ p) = refl
  headers_of-token cells_push token [] = refl
  headers_of-token cells_push token (x ∷ p) = refl

  new_request-eq-ok :
      (send : Request → Result Response) (r made : Request)
      → new_request lib send r ≡ ok made
      → r ≡ made
  unfolding new_request
  new_request-eq-ok send r made h = elim (Option-cases (lib.reject_request r.http_method r.url)) [
    | inl fine ↦ ok-injective (rw (fine, new_request) at h)
    | inr (e, bad) ↦ absurd (cc (rw (bad, new_request) at h))
  ]

  All-send_pack :
      (send : Request → Result Response) (P : Request → Type 0) (pack : Pack) (c : Client)
      (body : Bytes)
      → P (request_to c (codes "POST") (c.url ++ path_of pack) (some body) (types_of pack))
      → All P (send_pack lib send pack c body).0
  unfolding send_pack new_request do_request
  All-send_pack send P pack c body h =
      let r0 : Request =
        request_to c (codes "POST") (c.url ++ path_of pack) (some body) (types_of pack) in
      All-start lib send P (new_request lib send r0)
        λ r made. rw (← new_request-eq-ok send r0 r made) h

  copy_out-sent : (s : Sent) → (copy_out s).sent ≡ s.0
  unfolding copy_out
  copy_out-sent (sent, err e) = refl
  copy_out-sent (sent, ok r) = refl

  build_cells_git_client-eq-ok :
      (secret : Bytes) (a : Access) (c : Client)
      → build_cells_git_client urls lib secret a ≡ ok c
      → (base : Url) × (token : Bytes) × (base_of urls lib a.cell_address ≡ ok base)
        × (sign urls lib secret a.user_id ≡ ok token)
        × (c.url ≡ repo_url urls lib base a.gl_project_path)
        × (c.headers ≡ headers_of urls lib token a.git_protocol_version)
  unfolding build_cells_git_client
  build_cells_git_client-eq-ok secret a c h =
      let (_, h1) = early-eq-ok (is_empty a.gl_project_path) _ _ h in
      let (base, based, h2) = >>=-eq-ok (base_of urls lib a.cell_address) _ h1 in
      let (token, signed, h3) = >>=-eq-ok (sign urls lib secret a.user_id) _ h2 in
      let same = ok-injective h3 in
      (base, token, based, signed, ap (λ k. k.url) (sym same), ap (λ k. k.headers) (sym same))

  -- Every request that a pull or a push sends to a cell goes to the repository at the address of the
  -- response, which must have a scheme and a host, and carries one token, signed with the secret for
  -- the user of the response.
  pub execute_cells-IsSigned :
      (send : Request → Result Response) (operation : Operation) (secret : Bytes) (a : Access)
      (input : List Bytes)
      → All
          (IsSigned urls lib operation secret a)
          (execute_cells urls lib send operation secret a input).sent
  unfolding execute_cells execute_ssh_request
  execute_cells-IsSigned send operation secret a input =
      elim (Result-cases (build_cells_git_client urls lib secret a)) [
        | inl (e, bad) ↦ rw (bad, execute_cells) tt
        | inr (c, good) ↦
            let (base, token, based, signed, url, headers) =
              build_cells_git_client-eq-ok secret a c good in
            let (parsed, scheme, host) = base_of-eq-ok a.cell_address base based in
            let one : header_values api_secret_header_name
                  (types_of (request_fn operation) ++ c.headers)
                ≡ token ∷ [] =
              rw headers (headers_of-token operation token a.git_protocol_version) in
            let place : c.url ++ path_of (request_fn operation)
                ≡ repo_url urls lib base a.gl_project_path ++ path_of (request_fn operation) =
              ap (λ u. u ++ path_of (request_fn operation)) url in
            rw (good, execute_cells)
              (rw (copy_out-sent (send_pack lib send (request_fn operation) c (flatten input))) (
                All-send_pack send _ (request_fn operation) c (flatten input) (
                  (base, parsed, scheme, host, place),
                  (token, sign-eq-ok secret a.user_id token signed, one),
                )))
      ]
