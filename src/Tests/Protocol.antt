-- ===== src/Tests/Protocol.antt =====
-- The packet lines and the relays of internal/pktline and internal/command/githttp, on small
-- inputs.
use mathlib.Core.List.{flatten}
use gitlab_shell.Prelude.{
  length, Bytes, codes, contains_byte, Lacks, Lacks-contains_byte, ◌≡◌, refl, ◌≢◌, true, false, not,
  ◌||◌, some, List, [], ◌∷◌, ◌++◌, arith,
}
use gitlab_shell.Errors.{ok, err, plain}
use gitlab_shell.PktLine.{pkt_line_splitter, token, more, is_flush, is_ref_removal}
use gitlab_shell.PktLine.Stream.{scan, packet_of, remains, packet_of-scan}
use gitlab_shell.GitHttp.{
  push_packets, push_read_from_stdin, request_info_refs, upload_pack_http_prefix, finish_push,
}
use gitlab_shell.GitHttp.Forwarding.{push-sent}
use gitlab_shell.GitHttp.ReadAhead.{flush_pkt}
use gitlab_shell.GitHttp.InfoRefs.{info_refs_short}

-- A packet of ten bytes, cut into three reads, and an update of a reference.
abbrev hello : Bytes
hello = codes "000ahello\n"

abbrev pieces : List Bytes
pieces = codes "00" ∷ codes "0ahel" ∷ codes "lo\n0000" ∷ []

abbrev update : Bytes
update = codes "0009a b c"

hello_token : pkt_line_splitter hello false ≡ token 10 hello
unfolding pkt_line_splitter
hello_token = refl

hello-ne-more : pkt_line_splitter hello false ≢ more
unfolding pkt_line_splitter
hello-ne-more = cc

waits : pkt_line_splitter (codes "000ahel") false ≡ more
unfolding pkt_line_splitter
waits = refl

packet_of-scan_example : packet_of (scan [] pieces) ≡ packet_of (scan (remains [] pieces) [])
packet_of-scan_example = packet_of-scan [] pieces

pieces_packet : packet_of (scan [] pieces) ≡ some hello
unfolding scan packet_of
pieces_packet = refl

-- The update and the flush packet in one read, with the pack behind them.
abbrev pushed : List Bytes
pushed = (update ++ flush_pkt) ∷ codes "PACK" ∷ []

pushed_needs : (push_read_from_stdin pushed).needs_pack_data ≡ true
unfolding push_read_from_stdin push_packets finish_push flatten
pushed_needs = refl

push-sent_example :
    (commands rest : Bytes) × (flatten pushed
      ≡ commands ++ (push_read_from_stdin pushed).buffered ++ rest)
    × ((push_read_from_stdin pushed).sent ≡ commands ++ rest)
push-sent_example = push-sent pushed pushed_needs

update_token : pkt_line_splitter update false ≡ token (length update) update
unfolding pkt_line_splitter
update_token = refl

update_command : is_flush update ≡ false
unfolding is_flush
update_command = refl

update_needs : (not (is_ref_removal update) || false) ≡ true
unfolding is_ref_removal
update_needs = refl

abbrev removal : Bytes
removal =
    codes
      "0062aaaaaaaaaaaaaaaaaaaaaaaaaaaaaaaaaaaaaaaa 0000000000000000000000000000000000000000 refs/heads/x"

removal_token : pkt_line_splitter removal false ≡ token (length removal) removal
unfolding pkt_line_splitter
removal_token = refl

removal_command : is_flush removal ≡ false
unfolding is_flush
removal_command = refl

removal_only : (not (is_ref_removal removal) || false) ≡ false
unfolding is_ref_removal
removal_only = refl

abbrev git_upload_pack : Bytes
git_upload_pack = codes "git-upload-pack"

prefix-no-zero : contains_byte upload_pack_http_prefix 0 ≡ false
unfolding contains_byte
prefix-no-zero = refl

prefix-Lacks : Lacks 0 upload_pack_http_prefix
prefix-Lacks = Lacks-contains_byte upload_pack_http_prefix 0 prefix-no-zero

info_refs_short_example :
    request_info_refs git_upload_pack upload_pack_http_prefix
      (ok (false, codes "001e# serv" ∷ codes "ice=git-upload-pack\n0000" ∷ []))
    ≡ err (plain (codes "unexpected " ++ git_upload_pack ++ codes " response"))
info_refs_short_example =
    info_refs_short git_upload_pack upload_pack_http_prefix (codes "001e# serv") false
      (codes "ice=git-upload-pack\n0000" ∷ []) prefix-Lacks (omega arith)
