-- ===== src/Git/PktLine/Examples.antt =====
-- A fetch request of three packets, in two pieces, and a length that makes the splitter panic.
use gitlab_workhorse.Base.{
  ◌≤◌, ◌≡◌, refl, ◌⊎◌, List, [], ◌∷◌, ◌++◌, true, false, arith, length, if◌then◌else◌,
}
use gitlab_workhorse.Base.Text.{Text, codes, has_prefix}
use gitlab_workhorse.Git.PktLine.{
  hex_digit, hex_from, parse_int, more, pkt_line_splitter, found, absent, panicked, scan,
  scan_deepen,
}
use gitlab_workhorse.Git.PktLine.Splitter.{splitter_stable, splitter_token}
use gitlab_workhorse.Git.PktLine.Framing.{
  Packet, flush, line, hex_char, encode_packet, encode_packets,
}
use gitlab_workhorse.Git.PktLine.Malformed.{short_length_panics}
use gitlab_workhorse.Git.PktLine.Scanning.{scan_deepen_pieces, has_deepen, scan_deepen_packets}

machine : Unit {0}
unfolding hex_digit hex_from parse_int pkt_line_splitter scan scan_deepen hex_char encode_packet
    encode_packets has_prefix
machine = tt

abbrev request : List Packet
request = line (codes "want 1") ∷ flush ∷ line (codes "deepen 1") ∷ []

encoded : encode_packets request ≡ codes "000awant 10000000cdeepen 1"
unfolding machine
encoded = refl

abbrev pieces : List Text
pieces = codes "000awa" ∷ codes "nt 10000000cdeepen 1" ∷ []

searched : (scan_deepen pieces true ≡ found) × (scan_deepen (codes "0001" ∷ []) true ≡ panicked)
unfolding machine
searched = (refl, refl)

splitter_stable_example :
    (pkt_line_splitter (codes "0006ab") false ≡ more)
    ⊎ (pkt_line_splitter (codes "0006ab" ++ codes "0000") true
        ≡ pkt_line_splitter (codes "0006ab") false)
splitter_stable_example = splitter_stable (codes "0006ab") (codes "0000") true

splitter_token_example : (4 ≤ 6) × (6 ≤ length (codes "0006ab00"))
unfolding machine
splitter_token_example = splitter_token (codes "0006ab00") false 6 (codes "ab") refl

short_length_panics_example :
    scan_deepen (codes "000awant 100" ∷ codes "01" ∷ []) true
    ≡ (if has_deepen (line (codes "want 1") ∷ []) then found else panicked)
unfolding machine
short_length_panics_example =
    short_length_panics (line (codes "want 1") ∷ []) (codes "000awant 100" ∷ codes "01" ∷ []) 1 []
      (omega arith, tt) (omega arith) (omega arith) refl

scan_deepen_pieces_example :
    scan_deepen pieces true ≡ scan_deepen (codes "000awant 10000000cdeepen 1" ∷ []) true
scan_deepen_pieces_example =
    scan_deepen_pieces pieces (codes "000awant 10000000cdeepen 1" ∷ []) refl

scan_deepen_packets_example :
    scan_deepen pieces true ≡ (if has_deepen request then found else absent)
unfolding machine
scan_deepen_packets_example =
    scan_deepen_packets request pieces (omega arith, (tt, (omega arith, tt))) refl
