-- ===== src/Topology/Routed/Requests.antt =====
-- Where the requests of a routed client go, and by which token.
use gitlab_shell.Prelude.{
  Option-cases, Bytes, codes, ◌≡◌, refl, sym, ap, ◌∙◌, ◌≢◌, ◌⊎◌, inl, inr, Option, none, some, [],
  ◌∷◌,
}
use gitlab_shell.ApiClient.{append_path}
use gitlab_shell.Errors.{Result, ok, err, >>=-eq-ok, ok-injective}
use gitlab_shell.Http.{
  Headers, add_header, set_header, Library, Request, header_values, api_secret_header_name,
}
use gitlab_shell.Http.GitlabNet.{
  GitlabNetClient, with_host, new_request, claims, authorize, request_of,
}
use gitlab_shell.Topology.{Services, Resolver, route, extract_top_level_namespace, resolve_by_route}
use gitlab_shell.Topology.Routing.{IsRouted, resolve_by_route-IsRouted}
use gitlab_shell.Topology.Routed.{attach_host, client_for_route}

stamped :
    (agent token : Bytes) (headers : Headers)
    → headers ≡ []
    → header_values api_secret_header_name (
        add_header (codes "User-Agent") agent (
          add_header
            (codes "Content-Type")
            (codes "application/json")
            (set_header api_secret_header_name token headers)))
      ≡ token ∷ []
unfolding header_values set_header
stamped agent token headers e = rw e refl

module _ (lib : Library) where
  -- A request of a client: to a path at a host, with one token, signed with the client's secret, and
  -- with credentials if the client has both.
  pub record IsRequestTo (c : GitlabNetClient) (host path : Bytes) (r : Request) : Type 0 where
    pub url : r.url ≡ append_path host path
    pub token : Bytes
    pub signed : lib.signed_string (lib.trim_space c.secret) (claims lib []) ≡ ok token
    pub carried : header_values api_secret_header_name r.headers ≡ token ∷ []

  new_request-eq-ok :
      (http_method host path : Bytes) (json : Option (Result Bytes)) (r : Request)
      → new_request lib http_method host path json ≡ ok r
      → (r.url ≡ append_path host path) × (r.headers ≡ [])
  unfolding new_request
  new_request-eq-ok http_method host path none r h =
      elim (Option-cases (lib.reject_request http_method (append_path host path))) [
        | inr (e, bad) ↦ absurd (cc (rw (bad, new_request) at h))
        | inl fine ↦
            let same = ok-injective (rw (fine, new_request) at h) in
            (ap (λ q. q.url) (sym same), ap (λ q. q.headers) (sym same))
      ]
  new_request-eq-ok http_method host path (some (err e)) r h = absurd (cc h)
  new_request-eq-ok http_method host path (some (ok json)) r h =
      elim (Option-cases (lib.reject_request http_method (append_path host path))) [
        | inr (e, bad) ↦ absurd (cc (rw (bad, new_request) at h))
        | inl fine ↦
            let same = ok-injective (rw (fine, new_request) at h) in
            (ap (λ q. q.url) (sym same), ap (λ q. q.headers) (sym same))
      ]

  request_of-IsRequestTo :
      (c : GitlabNetClient) (http_method path : Bytes) (json : Option (Result Bytes)) (r : Request)
      → request_of lib c http_method path json ≡ ok r
      → IsRequestTo c c.http_client.host path r
  unfolding request_of authorize header_values
  request_of-IsRequestTo c http_method path json r h =
      let (r0, made, h1) =
        >>=-eq-ok (new_request lib http_method c.http_client.host path json) _ h in
      let (token, signed, h2) =
        >>=-eq-ok (lib.signed_string (lib.trim_space c.secret) (claims lib [])) _ h1 in
      let (url, bare) = new_request-eq-ok http_method c.http_client.host path json r0 made in
      let same = ok-injective h2 in
      record {
        url = ap (λ q. q.url) (sym same) ∙ url;
        token = token;
        signed = signed;
        carried =
            ap (λ q. header_values api_secret_header_name q.headers) (sym same)
            ∙ stamped c.user_agent token r0.headers bare;
      }

  attach_host-IsRequestTo :
      (c : GitlabNetClient) (addr http_method path : Bytes) (json : Option (Result Bytes))
      (r : Request)
      → request_of lib (attach_host c addr).client http_method path json ≡ ok r
      → IsRequestTo c c.http_client.host path r ⊎ ((addr ≢ []) × IsRequestTo c addr path r)
  unfolding attach_host with_host
  attach_host-IsRequestTo c [] http_method path json r h =
      inl (request_of-IsRequestTo c http_method path json r h)
  attach_host-IsRequestTo c (x ∷ addr) http_method path json r h =
      let q = request_of-IsRequestTo (with_host (x ∷ addr) c) http_method path json r h in
      inr (
        (λ e. absurd (cc e)),
        record { url = q.url; token = q.token; signed = q.signed; carried = q.carried },
      )

  -- A request of the client that is made for a repository goes to the default host, or to the cell
  -- that the Topology Service named for the top-level namespace of its path; in both cases it
  -- carries one token, signed with the secret of the client that it was made from.
  pub client_for_route-IsRouted :
      (w : Services) (s : Resolver) (c : GitlabNetClient) (repo http_method path : Bytes)
      (json : Option (Result Bytes)) (r : Request)
      → request_of lib (client_for_route w s c repo).client http_method path json ≡ ok r
      → IsRequestTo c c.http_client.host path r
        ⊎ ((host : Bytes) × IsRouted w s (route (extract_top_level_namespace repo)) host
            × IsRequestTo c host path r)
  unfolding client_for_route attach_host
  client_for_route-IsRouted w s c repo http_method path json r h =
      elim (attach_host-IsRequestTo c (resolve_by_route w s repo) http_method path json r h) [
        | inl default_host ↦ inl default_host
        | inr (there, request) ↦ elim (resolve_by_route-IsRouted w s repo) [
          | inl nowhere ↦ absurd (there nowhere)
          | inr cell ↦ inr (resolve_by_route w s repo, cell, request)
        ]
      ]
