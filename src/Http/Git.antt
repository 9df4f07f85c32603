-- ===== src/Http/Git.antt =====
-- internal/gitlabnet/git/client.go: the client of Git over HTTP.
use mathlib.Core.List.{flatten}
use gitlab_shell.Prelude.{
  leb, if◌then◌else◌, Bytes, codes, is_empty, ℕ, Bool, false, Option, none, some, List, [], ◌∷◌,
  ◌++◌,
}
use gitlab_shell.Errors.{Result, ok, err, Error, api}
use gitlab_shell.Http.{Headers, add_header, Request, Library}

-- `Client`; the headers in the order in which the map gives them, their names as the server gets
-- them.
pub record Client : Type 0 where
  pub url : Bytes
  pub headers : Headers

-- A response: its status, what the successive reads of its body return, whether the end of the body,
-- or the error, comes together with the bytes of the first read, and the error that the reads end
-- with, if it is not the end of the body.
pub record Response : Type 0 where
  pub status_code : ℕ
  pub body : List Bytes
  pub first_ends : Bool
  pub failure : Option Error

-- The error of a status of 400 or above, and of a request that failed: neither a status nor the
-- mark of a system error is set.
unfoldable pub refused : Bytes → Error
refused msg = api (record { msg = msg; status_code = 0; system = false })

abbrev pub repo_unavailable : Bytes
repo_unavailable = codes "Remote repository is unavailable"

-- The end of `do`, on a response.
unfoldable pub answer : Response → Result Response
unfolding refused
answer r =
    if leb 400 r.status_code
    then elim r.failure [
      | some e ↦ err (refused repo_unavailable)
      | none ↦
          if is_empty (flatten r.body)
          then err (refused repo_unavailable)
          else err (refused (flatten r.body))
    ]
    else ok r

-- The client's headers are added to those of the request.
unfoldable pub add_all : Headers → Headers → Headers
add_all [] headers = headers
add_all ((name, value) ∷ more) headers = add_all more (add_header name value headers)

-- What a call sent, and its result.
abbrev pub Sent : Type 0
Sent = List Request × Result Response

-- A call that fails before it is sent.
abbrev pub start : Result Request → (Request → Sent) → Sent
start (err e) next = ([], err e)
start (ok r) next = next r

-- The end of `do`.
unfoldable pub conclude : Result Response → Result Response
unfolding answer refused
conclude (err e) = err (refused repo_unavailable)
conclude (ok response) = answer response

-- The calls that carry a pack.
pub data Pack : Type 0 where
  upload_pack receive_pack ssh_upload_pack ssh_receive_pack : Pack

-- The paths that they append to the URL.
unfoldable pub path_of : Pack → Bytes
path_of upload_pack = codes "/git-upload-pack"
path_of receive_pack = codes "/git-receive-pack"
path_of ssh_upload_pack = codes "/ssh-upload-pack"
path_of ssh_receive_pack = codes "/ssh-receive-pack"

-- The headers that they add.
unfoldable pub types_of : Pack → Headers
types_of upload_pack =
    (codes "Content-Type", codes "application/x-git-upload-pack-request")
    ∷ (codes "Accept", codes "application/x-git-upload-pack-result")
    ∷ []
types_of receive_pack =
    (codes "Content-Type", codes "application/x-git-receive-pack-request")
    ∷ (codes "Accept", codes "application/x-git-receive-pack-result")
    ∷ []
types_of ssh_upload_pack = []
types_of ssh_receive_pack = []

-- A request of the client, with the headers of `do`.
abbrev pub request_to : Client → Bytes → Bytes → Option Bytes → Headers → Request
request_to c http_method url body headers = record {
  http_method = http_method;
  url = url;
  body = body;
  basic_auth = none;
  headers = headers ++ c.headers;
}

module _ (lib : Library) (send : Request → Result Response) where
  -- `do`
  unfoldable pub do_request : Request → Sent
  unfolding conclude
  do_request r = (r ∷ [], conclude (send r))

  -- `http.NewRequestWithContext` for a request.
  unfoldable pub new_request : Request → Result Request
  new_request r = elim (lib.reject_request r.http_method r.url) [ some e ↦ err e | none ↦ ok r ]

  -- `InfoRefs`
  unfoldable pub info_refs : Client → Bytes → Sent
  unfolding new_request do_request
  info_refs c service =
      start
        (new_request
          (request_to c (codes "GET") (c.url ++ (codes "/info/refs?service=" ++ service)) none []))
        do_request

  -- `UploadPack`, `ReceivePack`, `SSHUploadPack` and `SSHReceivePack`
  unfoldable pub send_pack : Pack → Client → Bytes → Sent
  unfolding new_request do_request path_of types_of
  send_pack pack c body =
      start
        (new_request
          (request_to c (codes "POST") (c.url ++ path_of pack) (some body) (types_of pack)))
        do_request
