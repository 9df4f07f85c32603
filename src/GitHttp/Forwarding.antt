-- ===== src/GitHttp/Forwarding.antt =====
-- What `readFromStdin` of internal/command/githttp/push.go and pull.go sends to the server.
use mathlib.Core.List.{flatten}
use mathlib.Core.Path.{subst}
use gitlab_shell.Prelude.{
  Bool-cases, length, length-append, Bytes, ℕ, zero, suc, ◌+◌, ◌≤◌, ◌<◌, ◌≡◌, refl, sym, ap, ◌∙◌,
  ◌⊎◌, inl, inr, true, List, ◌++◌, append_assoc, arith,
}
use gitlab_shell.PktLine.{is_flush, is_done}
use gitlab_shell.PktLine.Stream.{Scan, packet, stopped, scan, remains, Keeps, scan-Keeps}
use gitlab_shell.GitHttp.{
  Relay, begin, forward, note_pack_data, push_packets, finish_push, push_read_from_stdin,
  pull_packets, pull_read_from_stdin,
}

pub Scan-cases :
    (s : Scan)
    → ((t buf : Bytes) × (unread : List Bytes) × (s ≡ packet t buf unread))
      ⊎ ((buf : Bytes) × (unread : List Bytes) × (s ≡ stopped buf unread))
Scan-cases (packet t buf unread) = inl (t, buf, unread, refl)
Scan-cases (stopped buf unread) = inr (buf, unread, refl)

-- All that the client sent: what was forwarded, then what was not.
abbrev pub whole : Relay → Bytes
whole r = r.sent ++ remains r.buffered r.unread

scan_eq-Keeps :
    (r : Relay) (s : Scan) → scan r.buffered r.unread ≡ s → Keeps (remains r.buffered r.unread) s
scan_eq-Keeps r s e = subst (Keeps (remains r.buffered r.unread)) e (scan-Keeps r.buffered r.unread)

forward-whole :
    (r : Relay) (t buf : Bytes) (unread : List Bytes)
    → scan r.buffered r.unread ≡ packet t buf unread
    → whole (forward r t buf unread) ≡ whole r
forward-whole r t buf unread e =
    rw ((scan_eq-Keeps r (packet t buf unread) e).0) (append_assoc r.sent t (remains buf unread))

note-whole : (r : Relay) (pkt : Bytes) → whole (note_pack_data r pkt) ≡ whole r
note-whole r pkt = ground arith

-- The loop of a push neither loses nor makes up a byte.
pub push_packets-whole : (fuel : ℕ) (r : Relay) → whole (push_packets fuel r) ≡ whole r
unfolding push_packets
push_packets-whole zero r = refl
push_packets-whole (suc fuel) r = elim (Scan-cases (scan r.buffered r.unread)) [
  | inr (buf, unread, e) ↦
      rw (e, push_packets) (ap (λ b. r.sent ++ b) (sym (scan_eq-Keeps r (stopped buf unread) e)))
  | inl (t, buf, unread, e) ↦ elim (Bool-cases (is_flush t)) [
    | inl flush ↦ rw (e, push_packets, flush) (forward-whole r t buf unread e)
    | inr other ↦
        let r' : Relay = forward r t buf unread in
        rw (e, push_packets, other)
          (push_packets-whole fuel (note_pack_data r' t)
            ∙ note-whole r' t
            ∙ forward-whole r t buf unread e)
  ]
]

pub pull_packets-whole : (fuel : ℕ) (r : Relay) → whole (pull_packets fuel r) ≡ whole r
unfolding pull_packets
pull_packets-whole zero r = refl
pull_packets-whole (suc fuel) r = elim (Scan-cases (scan r.buffered r.unread)) [
  | inr (buf, unread, e) ↦
      rw (e, pull_packets) (ap (λ b. r.sent ++ b) (sym (scan_eq-Keeps r (stopped buf unread) e)))
  | inl (t, buf, unread, e) ↦ elim (Bool-cases (is_done t)) [
    | inl flush ↦ rw (e, pull_packets, flush) (forward-whole r t buf unread e)
    | inr other ↦
        let r' : Relay = forward r t buf unread in
        rw (e, pull_packets, other) (pull_packets-whole fuel r' ∙ forward-whole r t buf unread e)
  ]
]

finish_push_lem :
    (r : Relay)
    → (finish_push r).needs_pack_data ≡ true
    → ((finish_push r).buffered ≡ r.buffered) × ((finish_push r).sent ≡ r.sent ++ flatten r.unread)
unfolding finish_push
finish_push_lem r h = ground arith

-- A push that carries pack data sends all that the client sent, less what the scanner had read
-- ahead of the last packet: those bytes, and no others, are missing.
pub push-sent :
    (input : List Bytes)
    → (push_read_from_stdin input).needs_pack_data ≡ true
    → (commands rest : Bytes) × (flatten input
        ≡ commands ++ (push_read_from_stdin input).buffered ++ rest)
      × ((push_read_from_stdin input).sent ≡ commands ++ rest)
unfolding push_read_from_stdin
push-sent input h =
    let r : Relay = push_packets (suc (length (flatten input))) (begin input) in
    let (kept, copied) = finish_push_lem r h in
    (
      r.sent,
      flatten r.unread,
      rw (kept, append_assoc)
          (sym (push_packets-whole (suc (length (flatten input))) (begin input))),
      copied,
    )

-- A pull sends a prefix of what the client sent.
pub pull-sent :
    (input : List Bytes)
    → (rest : Bytes) × (flatten input ≡ (pull_read_from_stdin input).sent ++ rest)
unfolding pull_read_from_stdin
pull-sent input =
    let r : Relay = pull_packets (suc (length (flatten input))) (begin input) in
    (
      remains r.buffered r.unread,
      sym (pull_packets-whole (suc (length (flatten input))) (begin input)),
    )

scan-shrinks :
    (r : Relay) (t buf : Bytes) (unread : List Bytes)
    → scan r.buffered r.unread ≡ packet t buf unread
    → length (remains buf unread) + 4 ≤ length (remains r.buffered r.unread)
scan-shrinks r t buf unread e =
    let (same, least) = scan_eq-Keeps r (packet t buf unread) e in
    omega (arith, ap length same, length-append t (remains buf unread))

note-remains :
    (r : Relay) (pkt : Bytes)
    → remains (note_pack_data r pkt).buffered (note_pack_data r pkt).unread
      ≡ remains r.buffered r.unread
note-remains r pkt = ground arith

-- The fuel is enough: with more fuel than bytes, its amount does not matter.
pub push_packets-fuel :
    (f g : ℕ) (r : Relay)
    → length (remains r.buffered r.unread) < f
    → length (remains r.buffered r.unread) < g
    → push_packets f r ≡ push_packets g r
unfolding push_packets
push_packets-fuel zero g r hf hg = absurd (omega arith)
push_packets-fuel (suc f) zero r hf hg = absurd (omega arith)
push_packets-fuel (suc f) (suc g) r hf hg = elim (Scan-cases (scan r.buffered r.unread)) [
  | inr (buf, unread, e) ↦ rw (e, push_packets)
  | inl (t, buf, unread, e) ↦ elim (Bool-cases (is_flush t)) [
    | inl flush ↦ rw (e, push_packets, flush)
    | inr other ↦
        let r' : Relay = forward r t buf unread in
        let less = scan-shrinks r t buf unread e in
        rw (e, push_packets, other)
          (push_packets-fuel f g (note_pack_data r' t)
            (omega (arith, ap length (note-remains r' t)))
            (omega (arith, ap length (note-remains r' t))))
  ]
]
