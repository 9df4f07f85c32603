-- ===== src/PktLine.antt =====
-- internal/pktline/pktline.go: the splitter of Git's pkt-line format and the tests on a packet.
-- `Stream` has the scanner that cuts a stream into packets, `Framing` what the splitter
-- guarantees.
pub mod Framing
pub mod Stream
use gitlab_shell.Prelude.{
  ltb, leb, ◌==◌, if◌then◌else◌, ==_iff, Bool-cases, Option-cases, and-eq-true_iff, length, take,
  drop, replicate, all, any, length-append, take-append-drop, length-take, length-drop, take-append,
  drop-append, take-append_all, drop-append_all, All, All-append, Bytes, codes, eqb, eqb_iff,
  eqb_refl, is_empty, has_prefix, trim_prefix, trim_suffix, trim_left, contains_byte, contains,
  before, split, last, mem, Lacks, Lacks-contains_byte, contains_byte-Lacks, ℕ, zero, suc, ◌+◌, ◌-◌,
  ◌*◌, ◌/◌, ◌%◌, ◌^◌, ◌≤◌, ◌<◌, ◌≡◌, refl, sym, ap, ◌∙◌, ◌≢◌, ◌↔◌, ◌⊎◌, inl, inr, Bool, true, false,
  not, ◌&&◌, ◌||◌, Option, none, some, List, [], ◌∷◌, ◌++◌, map, append_assoc, append-nil, arith,
  last-split, split-ne-nil, All-mono,
}

-- The result of `strconv.ParseInt(s, 16, 0)`; `invalid` is its error.
pub data Parsed : Type 0 where
  number : ℕ → Parsed
  negative : ℕ → Parsed
  invalid : Parsed

unfoldable pub hex_digit : ℕ → Option ℕ
hex_digit c =
    if leb b'0' c && leb c b'9'
    then some (c - b'0')
    else if leb b'a' c && leb c b'f'
    then some (c - b'a' + 10)
    else if leb b'A' c && leb c b'F'
    then some (c - b'A' + 10)
    else none

hex_digits : ℕ → Bytes → Option ℕ
unfolding hex_digit
hex_digits n [] = some n
hex_digits n (c ∷ s) = elim (hex_digit c) [ none ↦ none | some d ↦ hex_digits (n * 16 + d) s ]

-- The range check of a 64-bit `int`, by sign.
in_range : Bool → Option ℕ → Parsed
in_range minus none = invalid
in_range false (some n) = if ltb n (2 ^ 63) then number n else invalid
in_range true (some n) = if n == 0 then number 0 else if leb n (2 ^ 63) then negative n else invalid

unsigned : Bool → Bytes → Parsed
unfolding in_range hex_digits
unsigned minus [] = invalid
unsigned minus (c ∷ s) = in_range minus (hex_digits 0 (c ∷ s))

unfoldable pub parse_int : Bytes → Parsed
unfolding unsigned
parse_int [] = invalid
parse_int (c ∷ s) =
    if c == b'+'
    then unsigned false s
    else if c == b'-'
    then unsigned true s
    else unsigned false (c ∷ s)

-- `const maxPktSize`
abbrev pub max_pkt_size : ℕ
max_pkt_size = 0xffff

pub data SplitError : Type 0 where
  incomplete_prefix decode_length invalid_length short_input : SplitError

-- The results of the splitter: `(0, nil, nil)`, an advance with a token, an error.
pub data Split : Type 0 where
  more : Split
  token : ℕ → Bytes → Split
  failed : SplitError → Split

-- The part of the splitter behind the decoded length.
sized : Parsed → Bytes → Bool → Split
sized invalid buf at_eof = failed decode_length
sized (negative n) buf at_eof = failed invalid_length
sized (number n) buf at_eof =
    if ltb n 4
    then token 4 (take 4 buf)
    else if ltb (length buf) n
    then (if at_eof then failed short_input else more)
    else token n (take n buf)

-- `pktLineSplitter`
unfoldable pub pkt_line_splitter : Bytes → Bool → Split
unfolding sized parse_int
pkt_line_splitter buf at_eof =
    if ltb (length buf) 4
    then (if at_eof && ltb 0 (length buf) then failed incomplete_prefix else more)
    else sized (parse_int (take 4 buf)) buf at_eof

-- `IsFlush`
unfoldable pub is_flush : Bytes → Bool
unfolding eqb
is_flush pkt = eqb pkt (codes "0000")

-- `PktDone`
abbrev pub pkt_done : Bytes
pkt_done = codes "0009done\n"

-- `IsDone`
unfoldable pub is_done : Bytes → Bool
unfolding eqb
is_done pkt = eqb pkt pkt_done

-- The matcher of `\A[a-f0-9]{4}[a-f0-9]{40} 0{40} `: `runs n p k s` wants `n` bytes with `p`,
-- and then `k`.
runs : ℕ → (ℕ → Bool) → (Bytes → Bool) → Bytes → Bool
runs zero p k s = k s
runs (suc n) p k [] = false
runs (suc n) p k (c ∷ s) = p c && runs n p k s

lower_hex : ℕ → Bool
lower_hex c = (leb b'a' c && leb c b'f') || (leb b'0' c && leb c b'9')

-- `IsRefRemoval`
unfoldable pub is_ref_removal : Bytes → Bool
unfolding runs lower_hex
is_ref_removal pkt =
    runs 4 lower_hex
      (runs 40 lower_hex
        (runs 1 (λ c. c == b' ') (runs 40 (λ c. c == b'0') (runs 1 (λ c. c == b' ') (λ _. true)))))
      pkt

tests :
    (pkt_line_splitter (codes "0009done\n0000") false ≡ token 9 pkt_done)
    × (pkt_line_splitter (codes "0000rest") true ≡ token 4 (codes "0000"))
    × (pkt_line_splitter (codes "-001") true ≡ failed invalid_length)
    × (pkt_line_splitter (codes "00zz") true ≡ failed decode_length)
    × (pkt_line_splitter (codes "+00fabc") true ≡ failed short_input)
    × (pkt_line_splitter (codes "00") true ≡ failed incomplete_prefix)
    × (pkt_line_splitter (codes "0010ab") false ≡ more)
unfolding pkt_line_splitter
tests = (refl, refl, refl, refl, refl, refl, refl)

removal_test :
    is_ref_removal (
      codes
        "0094aaaaaaaaaaaaaaaaaaaaaaaaaaaaaaaaaaaaaaaa 0000000000000000000000000000000000000000 refs/heads/x")
    ≡ true
unfolding is_ref_removal
removal_test = refl
