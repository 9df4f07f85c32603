-- ===== src/GitHttp/Execute.antt =====
-- internal/command/githttp/pull.go, push.go and util.go: the requests of a pull and of a push over
-- HTTP, and what the SSH client is sent. The body of a request is what `readFromStdin` writes.
pub mod Announced
pub mod Expected
pub mod Order
use mathlib.Core.List.{flatten}
use gitlab_shell.Prelude.{
  ltb, leb, ◌==◌, if◌then◌else◌, ==_iff, Bool-cases, Option-cases, and-eq-true_iff, length, take,
  drop, replicate, all, any, length-append, take-append-drop, length-take, length-drop, take-append,
  drop-append, take-append_all, drop-append_all, All, All-append, Bytes, codes, eqb, eqb_iff,
  eqb_refl, is_empty, has_prefix, trim_prefix, trim_suffix, trim_left, contains_byte, contains,
  before, split, last, mem, Lacks, Lacks-contains_byte, contains_byte-Lacks, ℕ, zero, suc, ◌+◌, ◌-◌,
  ◌*◌, ◌/◌, ◌%◌, ◌^◌, ◌≤◌, ◌<◌, ◌≡◌, refl, sym, ap, ◌∙◌, ◌≢◌, ◌↔◌, ◌⊎◌, inl, inr, Bool, true, false,
  not, ◌&&◌, ◌||◌, Option, none, some, List, [], ◌∷◌, ◌++◌, map, append_assoc, append-nil, arith,
  last-split, split-ne-nil, All-mono,
}
use gitlab_shell.Errors.{Result, ok, err, Error}
use gitlab_shell.Lfs.Locks.{Run, panics, returns}
use gitlab_shell.Http.{Headers, set_header, Request, Library}
use gitlab_shell.Http.Git.{
  Client, Response, Sent, Pack, upload_pack, receive_pack, ssh_upload_pack, ssh_receive_pack,
  info_refs, send_pack,
}
use gitlab_shell.GitHttp.{
  push_read_from_stdin, pull_read_from_stdin, upload_pack_http_prefix, receive_pack_http_prefix,
  request_info_refs,
}

-- Of `CustomPayloadData` what `Execute` reads; the map of headers may be nil.
pub record CustomPayloadData : Type 0 where
  pub primary_repo : Bytes
  pub request_headers : Option Headers
  pub geo_proxy_fetch_ssh_direct_to_primary : Bool
  pub geo_proxy_push_ssh_direct_to_primary : Bool

-- The requests that were sent, what was written to the SSH client, and the error.
pub record Outcome : Type 0 where
  pub sent : List Request
  pub out : Bytes
  pub failure : Option Error

-- The two commands.
pub data Direction : Type 0 where
  pull push : Direction

-- A nil map reads as an empty one.
abbrev pub read_headers : Option Headers → Headers
read_headers none = []
read_headers (some headers) = headers

-- The client of `Execute`.
unfoldable pub client_of : CustomPayloadData → Client
client_of data_ = record { url = data_.primary_repo; headers = read_headers data_.request_headers }

-- `io.Copy` of a response's body to the SSH client.
unfoldable pub copy_out : Sent → Outcome
copy_out (sent, err e) = record { sent = sent; out = []; failure = some e }
copy_out (sent, ok response) = record {
  sent = sent;
  out = flatten response.body;
  failure = response.failure;
}

-- The reads of a response's body, behind whether the first one ends it.
unfoldable pub body_of : Result Response → Result (Bool × List Bytes)
body_of (err e) = err e
body_of (ok response) = ok (response.first_ends, response.body)

abbrev pub failure_of : Result Response → Option Error
failure_of (err e) = some e
failure_of (ok response) = response.failure

-- `requestInfoRefs`, with the end of its `io.Copy`.
unfoldable pub copy_info_refs : Bytes → Bytes → Sent → Outcome
unfolding request_info_refs body_of
copy_info_refs service_name http_prefix (sent, got) =
    elim (request_info_refs service_name http_prefix (body_of got)) [
      | err e ↦ record { sent = sent; out = []; failure = some e }
      | ok out ↦ record { sent = sent; out = out; failure = failure_of got }
    ]

-- `if err != nil { return err }`, then what follows.
unfoldable pub and_then : Outcome → Outcome → Outcome
and_then first second = elim first.failure [
  | some e ↦ first
  | none ↦ record {
    sent = first.sent ++ second.sent;
    out = first.out ++ second.out;
    failure = second.failure;
  }
]

-- The request of the pack itself, and of the one over SSH.
unfoldable pub pack_of : Direction → Pack
pack_of pull = upload_pack
pack_of push = receive_pack

unfoldable pub ssh_pack_of : Direction → Pack
ssh_pack_of pull = ssh_upload_pack
ssh_pack_of push = ssh_receive_pack

-- `pullService`, `pushService`
unfoldable pub service_of : Direction → Bytes
service_of pull = codes "git-upload-pack"
service_of push = codes "git-receive-pack"

-- The prefix of `ForInfoRefs`.
unfoldable pub prefix_of : Direction → Bytes
prefix_of pull = upload_pack_http_prefix
prefix_of push = receive_pack_http_prefix

-- What `readFromStdin` writes to the pipe.
unfoldable pub pipe_of : Direction → List Bytes → Bytes
unfolding pull_read_from_stdin push_read_from_stdin
pipe_of pull input = (pull_read_from_stdin input).sent
pipe_of push input = (push_read_from_stdin input).sent

unfoldable pub is_direct : Direction → CustomPayloadData → Bool
is_direct pull data_ = data_.geo_proxy_fetch_ssh_direct_to_primary
is_direct push data_ = data_.geo_proxy_push_ssh_direct_to_primary

module _ (lib : Library) (send : Request → Result Response) where
  -- `executeSSHRequest`
  unfoldable pub execute_ssh_request : Pack → Client → List Bytes → Outcome
  unfolding send_pack copy_out
  execute_ssh_request pack c input = copy_out (send_pack lib send pack c (flatten input))

  -- `requestInfoRefs`
  unfoldable pub ask_info_refs : Direction → Client → Outcome
  unfolding info_refs copy_info_refs service_of prefix_of
  ask_info_refs way c =
      copy_info_refs (service_of way) (prefix_of way) (info_refs lib send c (service_of way))

  -- `requestUploadPack` and `requestReceivePack`
  unfoldable pub request_pack : Direction → Client → List Bytes → Outcome
  unfolding send_pack copy_out pack_of pipe_of
  request_pack way c input = copy_out (send_pack lib send (pack_of way) c (pipe_of way input))

  -- The assignment to `client.Headers`, and the request over SSH: a nil map panics.
  unfoldable pub execute_direct : Direction → CustomPayloadData → Bytes → List Bytes → Run Outcome
  unfolding execute_ssh_request ssh_pack_of set_header
  execute_direct way data_ git_protocol input = elim data_.request_headers [
    | none ↦ panics
    | some headers ↦ returns (
        execute_ssh_request (ssh_pack_of way)
          (record {
            url = data_.primary_repo;
            headers = set_header (codes "Git-Protocol") git_protocol headers;
          })
          input)
  ]

  -- `PullCommand.Execute` and `PushCommand.Execute`
  unfoldable pub execute : Direction → CustomPayloadData → Bytes → List Bytes → Run Outcome
  unfolding execute_direct ask_info_refs request_pack and_then client_of is_direct
  execute way data_ git_protocol input =
      if is_direct way data_
      then execute_direct way data_ git_protocol input
      else returns (
          and_then (ask_info_refs way (client_of data_)) (request_pack way (client_of data_) input))
