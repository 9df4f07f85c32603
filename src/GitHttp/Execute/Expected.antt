-- ===== src/GitHttp/Execute/Expected.antt =====
-- The requests and the header that are expected of a pull and of a push over HTTP.

use gitlab_shell.Prelude.{
  Bytes, codes, contains_byte, Lacks, Lacks-contains_byte, ◌≡◌, refl, none, some, List, [], ◌∷◌,
  ◌++◌,
}
use gitlab_shell.Http.{Request}
use gitlab_shell.Http.Git.{path_of, types_of, request_to}
use gitlab_shell.GitHttp.{pull_read_from_stdin, push_read_from_stdin}
use gitlab_shell.GitHttp.Execute.{
  CustomPayloadData, Direction, pull, push, read_headers, client_of, pack_of, service_of, prefix_of,
  pipe_of,
}

-- The two requests of a command that is not direct, as its client makes them.
abbrev pub info_asked : Direction → CustomPayloadData → Request
info_asked way data_ =
    request_to (client_of data_) (codes "GET")
      (data_.primary_repo ++ (codes "/info/refs?service=" ++ service_of way)) none []

abbrev pub pack_asked : Direction → CustomPayloadData → List Bytes → Request
pack_asked way data_ input =
    request_to (client_of data_) (codes "POST") (data_.primary_repo ++ path_of (pack_of way))
      (some (pipe_of way input)) (types_of (pack_of way))

-- The requests that are expected of a pull and of a push.
abbrev pub info_request : Direction → CustomPayloadData → Request
info_request pull data_ = record {
  http_method = codes "GET";
  url = data_.primary_repo ++ codes "/info/refs?service=git-upload-pack";
  body = none;
  basic_auth = none;
  headers = read_headers data_.request_headers;
}
info_request push data_ = record {
  http_method = codes "GET";
  url = data_.primary_repo ++ codes "/info/refs?service=git-receive-pack";
  body = none;
  basic_auth = none;
  headers = read_headers data_.request_headers;
}

abbrev pub pack_request : Direction → CustomPayloadData → List Bytes → Request
pack_request pull data_ input = record {
  http_method = codes "POST";
  url = data_.primary_repo ++ codes "/git-upload-pack";
  body = some (pull_read_from_stdin input).sent;
  basic_auth = none;
  headers =
      (codes "Content-Type", codes "application/x-git-upload-pack-request")
      ∷ (codes "Accept", codes "application/x-git-upload-pack-result")
      ∷ read_headers data_.request_headers;
}
pack_request push data_ input = record {
  http_method = codes "POST";
  url = data_.primary_repo ++ codes "/git-receive-pack";
  body = some (push_read_from_stdin input).sent;
  basic_auth = none;
  headers =
      (codes "Content-Type", codes "application/x-git-receive-pack-request")
      ∷ (codes "Accept", codes "application/x-git-receive-pack-result")
      ∷ read_headers data_.request_headers;
}

-- The header that the announcement of a service begins with.
abbrev pub service_header : Direction → Bytes
service_header pull = codes "001e# service=git-upload-pack\n0000"
service_header push = codes "001f# service=git-receive-pack\n0000"

pub info_asked-eq :
    (way : Direction) (data_ : CustomPayloadData) → info_asked way data_ ≡ info_request way data_
unfolding service_of client_of
info_asked-eq pull data_ = refl
info_asked-eq push data_ = refl

pub pack_asked-eq :
    (way : Direction) (data_ : CustomPayloadData) (input : List Bytes)
    → pack_asked way data_ input ≡ pack_request way data_ input
unfolding pack_of path_of types_of pipe_of client_of
pack_asked-eq pull data_ input = refl
pack_asked-eq push data_ input = refl

pub prefix_of-eq : (way : Direction) → prefix_of way ≡ service_header way
unfolding prefix_of
prefix_of-eq pull = refl
prefix_of-eq push = refl

pub service_header-Lacks : (way : Direction) → Lacks 0 (service_header way)
unfolding contains_byte
service_header-Lacks pull = Lacks-contains_byte (service_header pull) 0 refl
service_header-Lacks push = Lacks-contains_byte (service_header push) 0 refl
