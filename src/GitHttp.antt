-- ===== src/GitHttp.antt =====
-- internal/command/githttp: what a push and a pull over HTTP read from the SSH client and send to
-- the server. The client's input is the list of what its successive reads return.
pub mod Forwarding
pub mod ReadAhead
pub mod InfoRefs
pub mod Execute
pub mod Cells
use mathlib.Core.List.{flatten}
use gitlab_shell.Prelude.{
  ltb, leb, ◌==◌, if◌then◌else◌, ==_iff, Bool-cases, Option-cases, and-eq-true_iff, length, take,
  drop, replicate, all, any, length-append, take-append-drop, length-take, length-drop, take-append,
  drop-append, take-append_all, drop-append_all, All, All-append, Bytes, codes, eqb, eqb_iff,
  eqb_refl, is_empty, has_prefix, trim_prefix, trim_suffix, trim_left, contains_byte, contains,
  before, split, last, mem, Lacks, Lacks-contains_byte, contains_byte-Lacks, ℕ, zero, suc, ◌+◌, ◌-◌,
  ◌*◌, ◌/◌, ◌%◌, ◌^◌, ◌≤◌, ◌<◌, ◌≡◌, refl, sym, ap, ◌∙◌, ◌≢◌, ◌↔◌, ◌⊎◌, inl, inr, Bool, true, false,
  not, ◌&&◌, ◌||◌, Option, none, some, List, [], ◌∷◌, ◌++◌, map, append_assoc, append-nil, arith,
  last-split, split-ne-nil, All-mono,
}
use gitlab_shell.Errors.{Result, ok, err, plain}
use gitlab_shell.PktLine.{is_flush, is_done, is_ref_removal}
use gitlab_shell.PktLine.Stream.{packet, stopped, scan}

-- The variables of `readFromStdin`: what was written to the pipe, the scanner's buffer, the reads
-- to come and `needsPackData`. A failing write is only logged, so `sent` is what was offered.
pub record Relay : Type 0 where
  pub sent : Bytes
  pub buffered : Bytes
  pub unread : List Bytes
  pub needs_pack_data : Bool

abbrev pub begin : List Bytes → Relay
begin input = record { sent = []; buffered = []; unread = input; needs_pack_data = false }

-- A packet is written to the pipe.
abbrev pub forward : Relay → Bytes → Bytes → List Bytes → Relay
forward r pkt buf unread = record r { sent = r.sent ++ pkt; buffered = buf; unread = unread }

-- `PushCommand.readFromStdin`: one round, behind the write, for a packet that is no flush.
abbrev pub note_pack_data : Relay → Bytes → Relay
note_pack_data r pkt =
    if not r.needs_pack_data && not (is_ref_removal pkt)
    then record r { needs_pack_data = true }
    else r

-- The loop of `PushCommand.readFromStdin`, with fuel: each round takes four bytes or more.
unfoldable pub push_packets : ℕ → Relay → Relay
unfolding scan is_flush is_ref_removal
push_packets zero r = r
push_packets (suc fuel) r = elim (scan r.buffered r.unread) [
  | stopped buf unread ↦ record r { buffered = buf; unread = unread }
  | packet pkt buf unread ↦
      let r' : Relay = forward r pkt buf unread in
      let again : Relay = push_packets fuel (note_pack_data r' pkt) in
      if is_flush pkt then r' else again
]

-- `io.Copy(pw, c.ReadWriter.In)` reads what the scanner has not read. The scanner's buffer is not
-- part of it.
abbrev pub copy_rest : Relay → Relay
copy_rest r = record r { sent = r.sent ++ flatten r.unread; unread = [] }

unfoldable pub finish_push : Relay → Relay
finish_push r = if r.needs_pack_data then copy_rest r else r

-- `PushCommand.readFromStdin`
unfoldable pub push_read_from_stdin : List Bytes → Relay
push_read_from_stdin input = finish_push (push_packets (suc (length (flatten input))) (begin input))

-- The loop of `PullCommand.readFromStdin`.
unfoldable pub pull_packets : ℕ → Relay → Relay
unfolding scan is_done
pull_packets zero r = r
pull_packets (suc fuel) r = elim (scan r.buffered r.unread) [
  | stopped buf unread ↦ record r { buffered = buf; unread = unread }
  | packet pkt buf unread ↦
      let r' : Relay = forward r pkt buf unread in
      let again : Relay = pull_packets fuel r' in if is_done pkt then r' else again
]

-- `PullCommand.readFromStdin`
unfoldable pub pull_read_from_stdin : List Bytes → Relay
pull_read_from_stdin input = pull_packets (suc (length (flatten input))) (begin input)

-- `uploadPackHTTPPrefix`, `receivePackHTTPPrefix`
abbrev pub upload_pack_http_prefix : Bytes
upload_pack_http_prefix = codes "001e# service=git-upload-pack\n0000"

abbrev pub receive_pack_http_prefix : Bytes
receive_pack_http_prefix = codes "001f# service=git-receive-pack\n0000"

-- `requestInfoRefs`, behind the HTTP response: the reads of its body, and whether the first one
-- that is long enough for its bytes returns them together with the end of the body or an error, which
-- is refused. One `Read` fills the buffer `p`, whose bytes are zero at first, and the rest is copied
-- to the client.
unfoldable pub request_info_refs : Bytes → Bytes → Result (Bool × List Bytes) → Result Bytes
unfolding eqb
request_info_refs service_name http_prefix (err e) = err e
request_info_refs service_name http_prefix (ok (at_end, [])) =
    err (plain (codes "unexpected " ++ service_name ++ codes " response"))
request_info_refs service_name http_prefix (ok (at_end, c ∷ body)) =
    let size : ℕ = length http_prefix in
    let p : Bytes = take size c ++ replicate (size - length c) 0 in
    if (at_end && leb (length c) size) || not (eqb p http_prefix)
    then err (plain (codes "unexpected " ++ service_name ++ codes " response"))
    else ok (drop size c ++ flatten body)
