-- ===== src/PktLine/Stream.antt =====
-- `NewScanner` of internal/pktline/pktline.go and the loop of `bufio.Scanner.Scan`. The input is
-- the list of what the successive reads return; a read that returns nothing is left out, as is the
-- limit on their number in a row, and the limit of the scanner's buffer.
use mathlib.Core.List.{flatten}
use gitlab_shell.Prelude.{
  length, drop, take-append-drop, drop-append_all, Bytes, ℕ, ◌≤◌, ◌≡◌, refl, sym, ap, ◌∙◌, ◌≢◌, ◌⊎◌,
  inl, inr, Bool, true, false, Option, none, some, List, [], ◌∷◌, ◌++◌, append_assoc, append-nil,
  arith,
}
use gitlab_shell.PktLine.{Split, more, token, failed, pkt_line_splitter}
use gitlab_shell.PktLine.Framing.{splitter_bounds, splitter-append}

-- What `Scan` does: it finds a packet, or returns false. The bytes that were read and not yet
-- handed out stay in the scanner's buffer; the reads that were not made are the rest.
pub data Scan : Type 0 where
  packet : (pkt buffered : Bytes) (unread : List Bytes) → Scan
  stopped : (buffered : Bytes) (unread : List Bytes) → Scan

scan_at_eof : Split → Bytes → Scan
scan_at_eof more buf = stopped buf []
scan_at_eof (token n t) buf = packet t (drop n buf) []
scan_at_eof (failed e) buf = stopped buf []

scan_buffered : Split → Bytes → List Bytes → Scan → Scan
scan_buffered more buf unread later = later
scan_buffered (token n t) buf unread later = packet t (drop n buf) unread
scan_buffered (failed e) buf unread later = stopped buf unread

-- `Scan`: the buffered bytes are tried first, and another read is made if they hold no packet.
unfoldable pub scan : Bytes → List Bytes → Scan
unfolding scan_at_eof scan_buffered pkt_line_splitter
scan buf [] = scan_at_eof (pkt_line_splitter buf true) buf
scan buf (c ∷ cs) =
    let later = scan (buf ++ c) cs in scan_buffered (pkt_line_splitter buf false) buf (c ∷ cs) later

-- What is left of the input: the scanner's buffer and the reads to come.
abbrev pub remains : Bytes → List Bytes → Bytes
remains buf unread = buf ++ flatten unread

-- A scan's packet and what it leaves are its input.
abbrev pub Keeps : Bytes → Scan → Type 0
Keeps input (packet t buf unread) = (input ≡ t ++ remains buf unread) × (4 ≤ length t)
Keeps input (stopped buf unread) = input ≡ remains buf unread

token-Keeps :
    (buf : Bytes) (at_eof : Bool) (unread : List Bytes) (n : ℕ) (t : Bytes)
    → pkt_line_splitter buf at_eof ≡ token n t
    → Keeps (remains buf unread) (packet t (drop n buf) unread)
token-Keeps buf at_eof unread n t h =
    let (least, fits, same, size) = splitter_bounds buf at_eof n t h in
    (rw (same, ← append_assoc, take-append-drop n buf), omega arith)

scan_at_eof-Keeps :
    (s : Split) (buf : Bytes)
    → pkt_line_splitter buf true ≡ s
    → Keeps (remains buf []) (scan_at_eof s buf)
unfolding scan_at_eof
scan_at_eof-Keeps more buf h = refl
scan_at_eof-Keeps (token n t) buf h = token-Keeps buf true [] n t h
scan_at_eof-Keeps (failed e) buf h = refl

scan_buffered-Keeps :
    (s : Split) (buf : Bytes) (unread : List Bytes) (later : Scan)
    → pkt_line_splitter buf false ≡ s
    → Keeps (remains buf unread) later
    → Keeps (remains buf unread) (scan_buffered s buf unread later)
unfolding scan_buffered
scan_buffered-Keeps more buf unread later h k = k
scan_buffered-Keeps (token n t) buf unread later h k = token-Keeps buf false unread n t h
scan_buffered-Keeps (failed e) buf unread later h k = refl

-- A scan loses no byte and makes none up: its input is the packet that it hands out, of four bytes
-- or more, and behind it what is still buffered or not yet read.
pub scan-Keeps : (buf : Bytes) (unread : List Bytes) → Keeps (remains buf unread) (scan buf unread)
unfolding scan flatten
scan-Keeps buf [] = scan_at_eof-Keeps (pkt_line_splitter buf true) buf refl
scan-Keeps buf (c ∷ cs) =
    scan_buffered-Keeps (pkt_line_splitter buf false) buf (c ∷ cs) (scan (buf ++ c) cs) refl
      (rw (append_assoc) at (scan-Keeps (buf ++ c) cs))

-- The packet that a scan finds, if it finds one.
unfoldable pub packet_of : Scan → Option Bytes
packet_of (packet t buf unread) = some t
packet_of (stopped buf unread) = none

-- The packet that a splitter's answer stands for.
answer : Split → Option Bytes
answer more = none
answer (token n t) = some t
answer (failed e) = none

packet_of-scan_at_eof : (s : Split) (buf : Bytes) → packet_of (scan_at_eof s buf) ≡ answer s
unfolding packet_of scan_at_eof answer
packet_of-scan_at_eof more buf = refl
packet_of-scan_at_eof (token n t) buf = refl
packet_of-scan_at_eof (failed e) buf = refl

packet_of-scan_buffered :
    (s : Split) (buf : Bytes) (unread : List Bytes) (later : Scan)
    → s ≢ more
    → packet_of (scan_buffered s buf unread later) ≡ answer s
unfolding packet_of scan_buffered answer
packet_of-scan_buffered more buf unread later h = absurd (h refl)
packet_of-scan_buffered (token n t) buf unread later h = refl
packet_of-scan_buffered (failed e) buf unread later h = refl

Split-cases : (s : Split) → (s ≡ more) ⊎ (s ≢ more)
Split-cases more = inl refl
Split-cases (token n t) = inr (cc)
Split-cases (failed e) = inr (cc)

-- The packet does not depend on how the input was cut into reads: it is the one that a scan finds
-- when the whole input comes in one piece.
pub packet_of-scan :
    (buf : Bytes) (unread : List Bytes)
    → packet_of (scan buf unread) ≡ packet_of (scan (remains buf unread) [])
unfolding scan flatten
packet_of-scan buf [] = rw (append-nil buf)
packet_of-scan buf (c ∷ cs) = elim (Split-cases (pkt_line_splitter buf false)) [
  | inl wait ↦ rw (wait, scan_buffered) (packet_of-scan (buf ++ c) cs ∙ rw (append_assoc))
  | inr found ↦
      packet_of-scan_buffered _ buf (c ∷ cs) (scan (buf ++ c) cs) found
      ∙ ap answer (sym (splitter-append buf (c ++ flatten cs) true found))
      ∙ sym (packet_of-scan_at_eof _ (buf ++ (c ++ flatten cs)))
]

-- A packet at the front of the buffer is the next one that the scanner hands out.
pub scan-packet :
    (p rest : Bytes) (unread : List Bytes)
    → pkt_line_splitter p false ≡ token (length p) p
    → scan (p ++ rest) unread ≡ packet p rest unread
unfolding scan scan_at_eof scan_buffered
scan-packet p rest [] h =
    rw (splitter-append p rest true (rw h (cc)), h, scan_at_eof, drop-append_all p rest)
scan-packet p rest (c ∷ cs) h =
    rw (splitter-append p rest false (rw h (cc)), h, scan_buffered, drop-append_all p rest)
