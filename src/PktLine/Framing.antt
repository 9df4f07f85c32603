-- ===== src/PktLine/Framing.antt =====
-- What the splitter of internal/pktline/pktline.go guarantees, for every input.
use native.Mathlib.Decide.{dec_lt}
use gitlab_shell.Prelude.{
  Option-cases, length, take, length-append, length-take, take-append, Bytes, ℕ, zero, suc, ◌+◌,
  ◌*◌, ◌/◌, ◌≤◌, ◌<◌, ◌≡◌, refl, ap, ◌≢◌, inl, inr, Bool, true, false, some, [], ◌∷◌, ◌++◌, arith,
}
use gitlab_shell.PktLine.{
  Parsed, number, negative, invalid, hex_digit, hex_digits, in_range, unsigned, parse_int,
  max_pkt_size, more, token, sized, pkt_line_splitter,
}

sized_bounds :
    (p : Parsed) (buf : Bytes) (at_eof : Bool) (n : ℕ) (t : Bytes)
    → 4 ≤ length buf
    → sized p buf at_eof ≡ token n t
    → (4 ≤ n) × (n ≤ length buf) × (t ≡ take n buf)
unfolding sized
sized_bounds invalid buf at_eof n t long h = cc
sized_bounds (negative k) buf at_eof n t long h = cc
sized_bounds (number k) buf at_eof n t long h = ground arith

-- A token lies in the input: it is the next `n` bytes, at least four, and the scanner advances
-- by exactly its length.
pub splitter_bounds :
    (buf : Bytes) (at_eof : Bool) (n : ℕ) (t : Bytes)
    → pkt_line_splitter buf at_eof ≡ token n t
    → (4 ≤ n) × (n ≤ length buf) × (t ≡ take n buf) × (length t ≡ n)
unfolding pkt_line_splitter
splitter_bounds buf at_eof n t h = ground (
  arith,
  sized_bounds (parse_int (take 4 buf)) buf at_eof n t,
  length-take n buf,
  ap length (sized_bounds (parse_int (take 4 buf)) buf at_eof n t (ground arith) (ground arith)).2,
)

sized-append :
    (p : Parsed) (buf rest : Bytes) (at_eof : Bool)
    → 4 ≤ length buf
    → sized p buf false ≢ more
    → sized p (buf ++ rest) at_eof ≡ sized p buf false
unfolding sized
sized-append invalid buf rest at_eof long h = refl
sized-append (negative k) buf rest at_eof long h = refl
sized-append (number k) buf rest at_eof long h =
    ground (arith, length-append buf rest, take-append 4 buf rest, take-append k buf rest)

splitter_short : (buf : Bytes) → length buf < 4 → pkt_line_splitter buf false ≡ more
unfolding pkt_line_splitter
splitter_short buf h = ground arith

splitter_long :
    (buf : Bytes) (at_eof : Bool)
    → 4 ≤ length buf
    → pkt_line_splitter buf at_eof ≡ sized (parse_int (take 4 buf)) buf at_eof
unfolding pkt_line_splitter
splitter_long buf at_eof h = ground arith

-- Once the splitter has answered with a token or an error, bytes that arrive later and the end of
-- the input change nothing: how the stream was cut into reads does not matter.
pub splitter-append :
    (buf rest : Bytes) (at_eof : Bool)
    → pkt_line_splitter buf false ≢ more
    → pkt_line_splitter (buf ++ rest) at_eof ≡ pkt_line_splitter buf false
splitter-append buf rest at_eof h = elim (dec_lt (length buf) 4) [
  | yes short ↦ absurd (h (splitter_short buf short))
  | no long ↦
      let size : 4 ≤ length buf = omega arith in
      let size' : 4 ≤ length (buf ++ rest) = omega (arith, length-append buf rest) in
      rw
        (
          splitter_long (buf ++ rest) at_eof size',
          splitter_long buf false size,
          take-append 4 buf rest size,
        )
        (sized-append (parse_int (take 4 buf)) buf rest at_eof size
          (rw (splitter_long buf false size) at h))
]

sized-ne-more : (p : Parsed) (buf : Bytes) → sized p buf true ≢ more
unfolding sized
sized-ne-more invalid buf = cc
sized-ne-more (negative k) buf = cc
sized-ne-more (number k) buf = ground arith

-- At the end of the input the splitter asks for more only when nothing is left.
pub splitter-at_eof : (buf : Bytes) → pkt_line_splitter buf true ≡ more → buf ≡ []
unfolding pkt_line_splitter
splitter-at_eof [] h = refl
splitter-at_eof (c ∷ s) h =
    absurd (ground (arith, sized-ne-more (parse_int (take 4 (c ∷ s))) (c ∷ s)))

hex_digit-lt : (c d : ℕ) → hex_digit c ≡ some d → d < 16
unfolding hex_digit
hex_digit-lt c d h = ground arith

-- What a number may be when `k` digits are still to come, for it to stay within four.
cap : ℕ → ℕ
cap zero = 0x10000
cap (suc k) = cap k / 16

cap-le : (k : ℕ) → cap k ≤ 0x10000
unfolding cap
cap-le zero = omega arith
cap-le (suc k) = omega (arith, cap-le k)

hex_digits-lt :
    (s : Bytes) (k n r : ℕ) → n < cap k → length s ≤ k → hex_digits n s ≡ some r → r ≤ max_pkt_size
unfolding hex_digits cap
hex_digits-lt [] k n r h l e = ground (arith, cap-le k)
hex_digits-lt (c ∷ s) zero n r h l e = absurd (omega arith)
hex_digits-lt (c ∷ s) (suc k) n r h l e = elim (Option-cases (hex_digit c)) [
  | inl bad ↦ ground arith
  | inr (d, good) ↦
      hex_digits-lt s k (n * 16 + d) r (omega (arith, hex_digit-lt c d good)) (omega arith)
        (rw (good, hex_digits) at e)
]

unsigned-le :
    (minus : Bool) (s : Bytes) (n : ℕ)
    → length s ≤ 4
    → unsigned minus s ≡ number n
    → n ≤ max_pkt_size
unfolding unsigned in_range cap
unsigned-le minus [] n l h = cc
unsigned-le minus (c ∷ s) n l h = elim (Option-cases (hex_digits 0 (c ∷ s))) [
  | inl bad ↦ ground arith
  | inr (m, good) ↦ ground (arith, hex_digits-lt (c ∷ s) 4 0 m (omega arith) l good)
]

parse_int-le : (s : Bytes) (n : ℕ) → length s ≤ 4 → parse_int s ≡ number n → n ≤ max_pkt_size
unfolding parse_int
parse_int-le [] n l h = cc
parse_int-le (c ∷ s) n l h =
    ground (arith, unsigned-le false s n, unsigned-le true s n, unsigned-le false (c ∷ s) n)

sized-more-lt :
    (p : Parsed) (buf : Bytes)
    → ((n : ℕ) → p ≡ number n → n ≤ max_pkt_size)
    → sized p buf false ≡ more
    → length buf < max_pkt_size
unfolding sized
sized-more-lt invalid buf le h = cc
sized-more-lt (negative k) buf le h = cc
sized-more-lt (number k) buf le h = ground (arith, le k refl)

-- While a packet is incomplete, the input read so far is shorter than the scanner's buffer, so
-- the scanner never gives up on a packet for its length.
pub splitter-more-lt :
    (buf : Bytes) → pkt_line_splitter buf false ≡ more → length buf < max_pkt_size
splitter-more-lt buf h = elim (dec_lt (length buf) 4) [
  | yes short ↦ omega arith
  | no long ↦
      let prefix : length (take 4 buf) ≤ 4 = omega (arith, length-take 4 buf) in
      sized-more-lt (parse_int (take 4 buf)) buf (λ n e. parse_int-le (take 4 buf) n prefix e)
        (rw (splitter_long buf false (omega arith)) at h)
]
