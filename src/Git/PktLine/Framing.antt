-- ===== src/Git/PktLine/Framing.antt =====
-- Packet lines as Git writes them, and how the splitter of internal/git/pktline.go takes them apart.

use gitlab_workhorse.Base.{
  ℕ, suc, ◌+◌, ◌-◌, ◌*◌, ◌/◌, ◌%◌, ◌≤◌, ◌<◌, ◌≡◌, refl, ap, ◌∙◌, ◌≢◌, List, [], ◌∷◌, ◌++◌, some,
  Bool, false, arith, ltb, if◌then◌else◌, length, take, drop, take-append_length, length-append,
}
use gitlab_workhorse.Base.Text.{Text, has_prefix}
use gitlab_workhorse.Git.PktLine.{
  hex_digit, hex_from, parse_int, token, terminator, pkt_line_splitter,
}

-- A hexadecimal digit, in lower case.
unfoldable pub hex_char : ℕ → ℕ
hex_char d = if ltb d 10 then d + b'0' else d - 10 + b'a'

abbrev pub hex4 : ℕ → Text
hex4 n =
    hex_char (n / 4096 % 16)
    ∷ hex_char (n / 256 % 16)
    ∷ hex_char (n / 16 % 16)
    ∷ hex_char (n % 16)
    ∷ []

pub data Packet : Type 0 where
  flush : Packet
  line : Text → Packet

-- The length counts its own four bytes, and a line is not longer than they can say.
unfoldable pub encode_packet : Packet → Text
encode_packet flush = terminator
encode_packet (line p) = hex4 (length p + 4) ++ p

unfoldable pub encode_packets : List Packet → Text
encode_packets [] = []
encode_packets (k ∷ ks) = encode_packet k ++ encode_packets ks

abbrev pub IsShort : Packet → Type 0
IsShort flush = Unit {0}
IsShort (line p) = length p + 4 < 65536

hex_digit-hex_char : (d : ℕ) → d < 16 → hex_digit (hex_char d) ≡ some d
unfolding hex_digit hex_char
hex_digit-hex_char d h = ground arith

hex_char_plain :
    (d : ℕ) → d < 16 → (hex_char d ≢ b'-') × (hex_char d ≢ b'+') × (hex_char d ≡ b'0' → d ≡ 0)
unfolding hex_char
hex_char_plain d h = ground arith

parse_digits :
    (c1 c2 c3 c4 d1 d2 d3 d4 : ℕ)
    → hex_digit c1 ≡ some d1
    → hex_digit c2 ≡ some d2
    → hex_digit c3 ≡ some d3
    → hex_digit c4 ≡ some d4
    → c1 ≢ b'-'
    → c1 ≢ b'+'
    → parse_int (c1 ∷ c2 ∷ c3 ∷ c4 ∷ []) ≡ some (false, ((d1 * 16 + d2) * 16 + d3) * 16 + d4)
unfolding parse_int hex_from
parse_digits c1 c2 c3 c4 d1 d2 d3 d4 h1 h2 h3 h4 minus plus = ground arith

pub parse_int-hex4 : (n : ℕ) → n < 65536 → parse_int (hex4 n) ≡ some (false, n)
parse_int-hex4 n h =
    let d1 = n / 4096 % 16 in
    let d2 = n / 256 % 16 in
    let d3 = n / 16 % 16 in
    let d4 = n % 16 in
    let plain = hex_char_plain d1 (omega arith) in
    let value : ((d1 * 16 + d2) * 16 + d3) * 16 + d4 ≡ n = omega arith in
    parse_digits _ _ _ _ d1 d2 d3 d4 (hex_digit-hex_char d1 (omega arith))
      (hex_digit-hex_char d2 (omega arith)) (hex_digit-hex_char d3 (omega arith))
      (hex_digit-hex_char d4 (omega arith)) plain.0 plain.1
    ∙ ap (λ k. some (false, k)) value

-- Only 0 is written as the terminator.
pub hex4-terminator :
    (n : ℕ) (rest : Text) → 0 < n → n < 65536 → has_prefix (hex4 n ++ rest) terminator ≡ false
unfolding has_prefix
hex4-terminator n rest pos h = ground (
  arith,
  hex_char_plain (n / 4096 % 16) (omega arith),
  hex_char_plain (n / 256 % 16) (omega arith),
  hex_char_plain (n / 16 % 16) (omega arith),
  hex_char_plain (n % 16) (omega arith),
)

abbrev pub payload : Packet → Text
payload flush = []
payload (line p) = p

slice_line :
    (c1 c2 c3 c4 n : ℕ) (p rest : Text)
    → n ≡ length p + 4
    → drop 4 (take n (c1 ∷ c2 ∷ c3 ∷ c4 ∷ (p ++ rest))) ≡ p
slice_line c1 c2 c3 c4 n p rest e =
    let m : n ≡ suc (suc (suc (suc (length p)))) = omega arith in rw m (take-append_length p rest)

-- The splitter takes off the first packet of a stream, however the stream goes on.
pub splitter-encode_packet :
    (k : Packet) (rest : Text) (b : Bool)
    → IsShort k
    → pkt_line_splitter (encode_packet k ++ rest) b ≡ token (length (encode_packet k)) (payload k)
unfolding pkt_line_splitter encode_packet has_prefix
splitter-encode_packet flush rest b h = ground arith
splitter-encode_packet (line p) rest b h =
    let n = length p + 4 in
    ground (
      arith,
      parse_int-hex4 n h,
      hex4-terminator n (p ++ rest) (omega arith) h,
      slice_line (hex_char (n / 4096 % 16)) (hex_char (n / 256 % 16)) (hex_char (n / 16 % 16))
          (hex_char (n % 16)) n p rest refl,
      length-append p rest,
    )

pub encode_packet_size : (k : Packet) → 4 ≤ length (encode_packet k)
unfolding encode_packet
encode_packet_size flush = omega arith
encode_packet_size (line p) = omega arith
