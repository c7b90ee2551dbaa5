-- ===== src/Git/PktLine.antt =====
-- internal/git/pktline.go: the splitter of Git packet lines and the search for a "deepen" line, over
-- the `bufio.Scanner` that drives it. The body comes in the pieces that its reader returns; a reader that
-- returns nothing a hundred times in a row, which the scanner gives up on, is left out.
pub mod Splitter
pub mod Framing
pub mod Scanning
pub mod Malformed
mod Examples
use mathlib.Core.Option
use gitlab_workhorse.Base.{
  ℕ, zero, suc, ◌+◌, ◌-◌, ◌*◌, List, [], ◌∷◌, ◌++◌, Option, none, some, Bool, true, false, not,
  ◌&&◌, ltb, leb, ◌==◌, if◌then◌else◌, length, take, drop,
}
use gitlab_workhorse.Base.Text.{Text, text_eq, codes, has_prefix}

-- The value of a hexadecimal digit.
unfoldable pub hex_digit : ℕ → Option ℕ
hex_digit c =
    if leb b'0' c && leb c b'9'
    then some (c - b'0')
    else if leb b'a' c && leb c b'f'
    then some (c - b'a' + 10)
    else if leb b'A' c && leb c b'F'
    then some (c - b'A' + 10)
    else none

unfoldable pub hex_from : ℕ → Text → Option ℕ
hex_from acc [] = some acc
hex_from acc (c ∷ s) = elim (hex_digit c) [ none ↦ none | some d ↦ hex_from (acc * 16 + d) s ]

hex_digits : Text → Option ℕ
hex_digits [] = none
hex_digits (c ∷ s) = hex_from 0 (c ∷ s)

-- `strconv.ParseInt(s, 16, 0)` on a text too short to overflow: the sign, and the magnitude.
unfoldable pub parse_int : Text → Option (Bool × ℕ)
unfolding hex_digits
parse_int [] = none
parse_int (c ∷ s) =
    if c == b'-'
    then Option.map (λ n. (true, n)) (hex_digits s)
    else if c == b'+'
    then Option.map (λ n. (false, n)) (hex_digits s)
    else Option.map (λ n. (false, n)) (hex_digits (c ∷ s))

pub data SplitError : Type 0 where
  incomplete_prefix bad_length negative_length short_data : SplitError

-- What a `bufio.SplitFunc` returns: a request for more data, an advance and a token, or an error; or
-- it panics.
pub data SplitResult : Type 0 where
  more : SplitResult
  token : ℕ → Text → SplitResult
  fails : SplitError → SplitResult
  panics : SplitResult

abbrev pub terminator : Text
terminator = codes "0000"

-- `return pktLength, data[4:pktLength], nil`: a slice whose end is below its start panics.
slice_token : ℕ → Text → SplitResult
slice_token n s = if ltb n 4 then panics else token n (drop 4 (take n s))

split_at : Bool → ℕ → Text → Bool → SplitResult
split_at negative n s at_eof =
    if negative && ltb 0 n
    then fails negative_length
    else if ltb (length s) n
    then if at_eof then fails short_data else more
    else slice_token n s

split_parsed : Option (Bool × ℕ) → Text → Bool → SplitResult
split_parsed none s at_eof = fails bad_length
split_parsed (some (negative, n)) s at_eof = split_at negative n s at_eof

unfoldable pub pkt_line_splitter : Text → Bool → SplitResult
unfolding slice_token split_at split_parsed
pkt_line_splitter s at_eof =
    if ltb (length s) 4
    then if at_eof && ltb 0 (length s) then fails incomplete_prefix else more
    else if has_prefix s terminator
    then token 4 []
    else split_parsed (parse_int (take 4 s)) s at_eof

pub data Outcome : Type 0 where
  found absent panicked out_of_fuel : Outcome

abbrev pub is_deepen : Text → Bool
is_deepen t = has_prefix t (codes "deepen")

-- The loop of `scanDeepen`. The scanner asks the splitter about what it has read, reads a piece when
-- it is asked for more, and says `ended` when the reader has none; an end by another error than EOF
-- (`clean` is false) shows in `scanner.Err()`.
unfoldable pub scan : Bool → ℕ → Bool → Text → List Text → Outcome
scan clean zero ended buf pieces = out_of_fuel
scan clean (suc fuel) false buf [] = elim (pkt_line_splitter buf false) [
  | more ↦ scan clean fuel true buf []
  | token n t ↦
      let rest = scan clean fuel false (drop n buf) [] in if is_deepen t then found else rest
  | fails e ↦ absent
  | panics ↦ panicked
]
scan clean (suc fuel) false buf (p ∷ ps) = elim (pkt_line_splitter buf false) [
  | more ↦ scan clean fuel false (buf ++ p) ps
  | token n t ↦
      let rest = scan clean fuel false (drop n buf) (p ∷ ps) in if is_deepen t then found else rest
  | fails e ↦ absent
  | panics ↦ panicked
]
scan clean (suc fuel) true buf pieces = elim (pkt_line_splitter buf true) [
  | more ↦ absent
  | token n t ↦
      let rest = scan clean fuel true (drop n buf) pieces in
      if is_deepen t && clean then found else rest
  | fails e ↦ absent
  | panics ↦ panicked
]

abbrev pub pieces_size : List Text → ℕ
pieces_size [] = 0
pieces_size (p ∷ ps) = length p + 1 + pieces_size ps

-- Enough for one round for each piece, each byte, the end, and the last.
unfoldable pub scan_deepen : List Text → Bool → Outcome
scan_deepen pieces clean = scan clean (pieces_size pieces + 2) false [] pieces
