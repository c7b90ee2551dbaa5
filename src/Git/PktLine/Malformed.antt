-- ===== src/Git/PktLine/Malformed.antt =====
-- A length that is too short, in a body that internal/git/pktline.go searches.
use mathlib.Core.Path.{subst⁻¹}
use gitlab_workhorse.Base.{
  ℕ, suc, ◌+◌, ◌<◌, ◌≡◌, ap, ◌∙◌, List, [], ◌∷◌, ◌++◌, Bool, true, arith, if◌then◌else◌, length,
  drop-append_length, length-append, append_assoc, All,
}
use gitlab_workhorse.Base.Text.{Text}
use gitlab_workhorse.Git.PktLine.{panics, pkt_line_splitter, found, panicked, scan, scan_deepen}
use gitlab_workhorse.Git.PktLine.Framing.{
  Packet, encode_packet, encode_packets, hex4, IsShort, parse_int-hex4, hex4-terminator,
  splitter-encode_packet, encode_packet_size,
}
use gitlab_workhorse.Git.PktLine.Scanning.{concat, whole, has_deepen, first_packet}

splitter_short :
    (n : ℕ) (rest : Text) (b : Bool) → 0 < n → n < 4 → pkt_line_splitter (hex4 n ++ rest) b ≡ panics
unfolding pkt_line_splitter
splitter_short n rest b pos short =
    ground (arith, parse_int-hex4 n (omega arith), hex4-terminator n rest pos (omega arith))

scan_short :
    (f : ℕ) (ks : List Packet) (n : ℕ) (rest : Text)
    → All IsShort ks
    → 0 < n
    → n < 4
    → length (encode_packets ks ++ (hex4 n ++ rest)) < f
    → scan true f true (encode_packets ks ++ (hex4 n ++ rest)) []
      ≡ (if has_deepen ks then found else panicked)
unfolding scan encode_packets has_deepen
scan_short (suc f) [] n rest h pos short hf = ground (arith, splitter_short n rest true pos short)
scan_short (suc f) (k ∷ ks) n rest h pos short hf =
    let others = encode_packets ks ++ (hex4 n ++ rest) in
    let joined = append_assoc (encode_packet k) (encode_packets ks) (hex4 n ++ rest) in
    let split = splitter-encode_packet k others true h.0 in
    let size = length-append (encode_packet k) others in
    subst⁻¹ (λ s. scan true (suc f) true s [] ≡ (if has_deepen (k ∷ ks) then found else panicked))
      joined
      (rw (split, drop-append_length (encode_packet k) others, scan)
        (first_packet k ks panicked _ (
          scan_short f ks n rest h.1 pos short
            (omega (arith, encode_packet_size k, ap length joined)))))
scan_short f ks n rest h pos short hf = absurd (omega arith)

-- A body that is well formed up to a line whose length, in four lower-case digits, is 1, 2 or 3, less
-- than the four bytes of the length itself: in whatever pieces it comes, and whatever follows, the
-- search panics when it gets to that line, which it does if no packet before it is a "deepen" line.
pub short_length_panics :
    (ks : List Packet) (ps : List Text) (n : ℕ) (rest : Text)
    → All IsShort ks
    → 0 < n
    → n < 4
    → concat ps ≡ encode_packets ks ++ (hex4 n ++ rest)
    → scan_deepen ps true ≡ (if has_deepen ks then found else panicked)
short_length_panics ks ps n rest h pos short e =
    whole ps
    ∙ ap (λ s. scan true (length s + 1) true s []) e
    ∙ scan_short (length (encode_packets ks ++ (hex4 n ++ rest)) + 1) ks n rest h pos short
        (omega arith)
