-- ===== src/GitHttp/ReadAhead.antt =====
-- What `readFromStdin` of internal/command/githttp/push.go does with the bytes that its scanner
-- reads beyond the flush packet.
use mathlib.Core.List.{flatten}
use gitlab_shell.Prelude.{
  length, any, length-append, All, Bytes, codes, ℕ, zero, suc, ◌≤◌, ◌<◌, ◌≡◌, refl, ap, ◌∙◌, Bool,
  true, false, not, ◌||◌, List, [], ◌∷◌, ◌++◌, append_assoc, arith,
}
use gitlab_shell.PktLine.{is_flush, is_ref_removal, pkt_line_splitter, token}
use gitlab_shell.PktLine.Framing.{splitter_bounds}
use gitlab_shell.PktLine.Stream.{packet, scan, scan-packet}
use gitlab_shell.GitHttp.{
  Relay, begin, note_pack_data, push_packets, finish_push, push_read_from_stdin,
}

-- One whole packet, which is not the flush packet.
abbrev pub IsCommand : Bytes → Type 0
IsCommand p = (pkt_line_splitter p false ≡ token (length p) p) × (is_flush p ≡ false)

abbrev pub flush_pkt : Bytes
flush_pkt = codes "0000"

scan-flush :
    (rest : Bytes) (unread : List Bytes)
    → scan (flush_pkt ++ rest) unread ≡ packet flush_pkt rest unread
unfolding pkt_line_splitter
scan-flush rest unread = scan-packet flush_pkt rest unread refl

-- Whether some command is more than the removal of a reference.
abbrev pub some_update : List Bytes → Bool
some_update cmds = any (λ c. not (is_ref_removal c)) cmds

note_pack_data_lem :
    (r : Relay) (pkt : Bytes)
    → note_pack_data r pkt
      ≡ record r { needs_pack_data = r.needs_pack_data || not (is_ref_removal pkt) }
note_pack_data_lem r pkt = ground arith

or_assoc : (a b c : Bool) → ((a || b) || c) ≡ (a || (b || c))
or_assoc a b c = ground arith

or-false : (a : Bool) → (a || false) ≡ a
or-false a = ground arith

push_packets-commands :
    (cmds : List Bytes) (fuel : ℕ) (sent early : Bytes) (rest : List Bytes) (needs : Bool)
    → All IsCommand cmds
    → length cmds < fuel
    → push_packets fuel (record {
      sent = sent;
      buffered = flatten cmds ++ (flush_pkt ++ early);
      unread = rest;
      needs_pack_data = needs;
    })
      ≡ record {
        sent = sent ++ (flatten cmds ++ flush_pkt);
        buffered = early;
        unread = rest;
        needs_pack_data = needs || some_update cmds;
      }
unfolding push_packets flatten
push_packets-commands cmds zero sent early rest needs h l = absurd (omega arith)
push_packets-commands [] (suc fuel) sent early rest needs h l =
    rw (scan-flush early rest, push_packets) (rw (or-false needs))
push_packets-commands (c ∷ cmds) (suc fuel) sent early rest needs ((h, other), hs) l =
    rw
      (
        append_assoc,
        scan-packet c (flatten cmds ++ (flush_pkt ++ early)) rest h,
        push_packets,
        other,
      )
      (rw (note_pack_data_lem) (
        push_packets-commands cmds fuel (sent ++ c) early rest (needs || not (is_ref_removal c)) hs
          (omega arith)
        ∙ rw (append_assoc, append_assoc, or_assoc)))

length-commands : (cmds : List Bytes) → All IsCommand cmds → length cmds ≤ length (flatten cmds)
unfolding flatten
length-commands [] h = omega arith
length-commands (c ∷ cmds) ((h, _), hs) = omega (
  arith,
  length-append c (flatten cmds),
  length-commands cmds hs,
  (splitter_bounds c false (length c) c h).0,
)

first_read :
    (n : ℕ) (c : Bytes) (cs : List Bytes)
    → push_packets (suc n) (begin (c ∷ cs))
      ≡ push_packets
          (suc n)
          (record { sent = []; buffered = c; unread = cs; needs_pack_data = false })
unfolding push_packets scan
first_read n c cs = refl

-- The state of a push behind the flush packet.
at_flush :
    (cmds : List Bytes) (early : Bytes) (rest : List Bytes)
    → All IsCommand cmds
    → push_read_from_stdin ((flatten cmds ++ (flush_pkt ++ early)) ∷ rest)
      ≡ finish_push (record {
        sent = flatten cmds ++ flush_pkt;
        buffered = early;
        unread = rest;
        needs_pack_data = some_update cmds;
      })
unfolding push_read_from_stdin flatten
at_flush cmds early rest h =
    let first : Bytes = flatten cmds ++ (flush_pkt ++ early) in
    ap finish_push (
      first_read (length (flatten (first ∷ rest))) first rest
      ∙ push_packets-commands cmds (suc (length (flatten (first ∷ rest)))) [] early rest false h (
          omega (
            arith,
            length-commands cmds h,
            length-append first (flatten rest),
            length-append (flatten cmds) (flush_pkt ++ early),
          )))

-- A push whose commands and flush packet come in the first read, and `early` bytes of the pack
-- with them: the commands, the flush packet and the later reads are sent, and `early` is not.
pub push-read_ahead :
    (cmds : List Bytes) (early : Bytes) (rest : List Bytes)
    → All IsCommand cmds
    → some_update cmds ≡ true
    → (push_read_from_stdin ((flatten cmds ++ (flush_pkt ++ early)) ∷ rest)).sent
      ≡ (flatten cmds ++ flush_pkt) ++ flatten rest
unfolding finish_push
push-read_ahead cmds early rest h update = rw (at_flush cmds early rest h, update)

-- A push that only removes references sends its commands and the flush packet, and nothing that
-- follows.
pub push-removals :
    (cmds : List Bytes) (early : Bytes) (rest : List Bytes)
    → All IsCommand cmds
    → some_update cmds ≡ false
    → (push_read_from_stdin ((flatten cmds ++ (flush_pkt ++ early)) ∷ rest)).sent
      ≡ flatten cmds ++ flush_pkt
unfolding finish_push
push-removals cmds early rest h update = rw (at_flush cmds early rest h, update)
