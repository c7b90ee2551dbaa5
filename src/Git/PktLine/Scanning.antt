-- ===== src/Git/PktLine/Scanning.antt =====
-- The search of internal/git/pktline.go for a "deepen" line: it ends, it does not depend on the
-- pieces that the body comes in, and it finds such a line exactly when there is one.

use gitlab_workhorse.Base.{
  ℕ, suc, ◌+◌, ◌<◌, ◌≡◌, refl, sym, ap, ◌∙◌, ◌≢◌, ◌⊎◌, inl, inr, List, [], ◌∷◌, ◌++◌, Bool, true,
  false, ◌||◌, ◌&&◌, arith, if◌then◌else◌, length, drop, length-drop, drop-append_le,
  drop-append_length, length-append, append_assoc, append-nil, All,
}
use gitlab_workhorse.Base.Text.{Text, has_prefix}
use gitlab_workhorse.Git.PktLine.{
  SplitResult, SplitError, more, token, fails, panics, pkt_line_splitter, Outcome, found, absent,
  out_of_fuel, is_deepen, scan, pieces_size, scan_deepen,
}
use gitlab_workhorse.Git.PktLine.Splitter.{splitter_stable, splitter_token}
use gitlab_workhorse.Git.PktLine.Framing.{
  Packet, flush, line, encode_packet, encode_packets, IsShort, payload, splitter-encode_packet,
  encode_packet_size,
}

abbrev pub concat : List Text → Text
concat [] = []
concat (p ∷ ps) = p ++ concat ps

SplitResult-cases :
    (r : SplitResult)
    → (r ≡ more)
      ⊎ ((n : ℕ) × (t : Text) × (r ≡ token n t))
      ⊎ ((e : SplitError) × (r ≡ fails e))
      ⊎ (r ≡ panics)
SplitResult-cases more = inl refl
SplitResult-cases (token n t) = inr (inl (n, t, refl))
SplitResult-cases (fails e) = inr (inr (inl (e, refl)))
SplitResult-cases panics = inr (inr (inr refl))

rest_shorter :
    (s : Text) (b : Bool) (n : ℕ) (t : Text)
    → pkt_line_splitter s b ≡ token n t
    → length (drop n s) < length s
rest_shorter s b n t e = omega (arith, splitter_token s b n t e, length-drop n s)

-- With fuel for every byte the search at the end of the body comes to its result, whatever the fuel.
scan_end :
    (clean : Bool) (f g : ℕ) (s : Text)
    → length s < f
    → length s < g
    → (scan clean f true s [] ≡ scan clean g true s []) × (scan clean f true s [] ≢ out_of_fuel)
unfolding scan
scan_end clean (suc f) (suc g) s hf hg = elim (SplitResult-cases (pkt_line_splitter s true)) [
  | inl e ↦ ground (arith, e)
  | inr (inl (n, t, e)) ↦
      let shorter = rest_shorter s true n t e in
      ground (arith, e, scan_end clean f g (drop n s) (omega arith) (omega arith))
  | inr (inr (inl (x, e))) ↦ ground (arith, e)
  | inr (inr (inr e)) ↦ ground (arith, e)
]
scan_end clean f g s hf hg = absurd (omega arith)

-- The body read in pieces, with fuel for its bytes and its pieces, against the whole body at once.
scan_pieces :
    (f g : ℕ) (buf : Text) (ps : List Text)
    → length buf + pieces_size ps + 1 < f
    → length (buf ++ concat ps) < g
    → scan true f false buf ps ≡ scan true g true (buf ++ concat ps) []
unfolding scan
scan_pieces (suc f) (suc g) buf [] hf hg =
    let same = append-nil buf in
    let stable = splitter_stable buf [] true in
    rw same (elim (SplitResult-cases (pkt_line_splitter buf false)) [
      | inl e ↦
          rw (e, scan)
            ((scan_end true f (suc g) buf (omega arith) (omega (arith, ap length same))).0)
      | inr (inl (n, t, e)) ↦
          let shorter = rest_shorter buf false n t e in
          ground (
            arith,
            e,
            stable,
            same,
            scan_pieces f g (drop n buf) [] (omega arith)
                (omega (arith, ap length same, ap length (append-nil (drop n buf)))),
            append-nil (drop n buf),
          )
      | inr (inr (inl (x, e))) ↦ ground (arith, e, stable, same)
      | inr (inr (inr e)) ↦ ground (arith, e, stable, same)
    ])
scan_pieces (suc f) (suc g) buf (p ∷ ps) hf hg =
    let stable = splitter_stable buf (p ++ concat ps) true in
    elim (SplitResult-cases (pkt_line_splitter buf false)) [
      | inl e ↦
          let joined = append_assoc buf p (concat ps) in
          rw (e, scan)
            (scan_pieces f (suc g) (buf ++ p) ps (omega (arith, length-append buf p))
                (omega (arith, ap length joined))
              ∙ ap (λ s. scan true (suc g) true s []) joined)
      | inr (inl (n, t, e)) ↦
          let shorter = rest_shorter buf false n t e in
          let cut = drop-append_le n buf (p ++ concat ps) ((splitter_token buf false n t e).1) in
          let sizes = length-append buf (p ++ concat ps) in
          let sizes' = length-append (drop n buf) (p ++ concat ps) in
          ground (
            arith,
            e,
            stable,
            cut,
            scan_pieces f g (drop n buf) (p ∷ ps) (omega arith) (omega arith),
          )
      | inr (inr (inl (x, e))) ↦ ground (arith, e, stable)
      | inr (inr (inr e)) ↦ ground (arith, e, stable)
    ]
scan_pieces f g buf ps hf hg = absurd (omega arith)

scan_ends :
    (clean : Bool) (f : ℕ) (buf : Text) (ps : List Text)
    → length buf + pieces_size ps + 1 < f
    → scan clean f false buf ps ≢ out_of_fuel
unfolding scan
scan_ends clean (suc f) buf [] hf = elim (SplitResult-cases (pkt_line_splitter buf false)) [
  | inl e ↦ rw (e, scan) ((scan_end clean f f buf (omega arith) (omega arith)).1)
  | inr (inl (n, t, e)) ↦
      let shorter = rest_shorter buf false n t e in
      ground (arith, e, scan_ends clean f (drop n buf) [] (omega arith))
  | inr (inr (inl (x, e))) ↦ ground (arith, e)
  | inr (inr (inr e)) ↦ ground (arith, e)
]
scan_ends clean (suc f) buf (p ∷ ps) hf = elim (SplitResult-cases (pkt_line_splitter buf false)) [
  | inl e ↦ rw (e, scan) (scan_ends clean f (buf ++ p) ps (omega (arith, length-append buf p)))
  | inr (inl (n, t, e)) ↦
      let shorter = rest_shorter buf false n t e in
      ground (arith, e, scan_ends clean f (drop n buf) (p ∷ ps) (omega arith))
  | inr (inr (inl (x, e))) ↦ ground (arith, e)
  | inr (inr (inr e)) ↦ ground (arith, e)
]
scan_ends clean f buf ps hf = absurd (omega arith)

-- The fuel is enough: the search comes to a result, also where the reader ends with an error.
pub scan_deepen_total : (ps : List Text) (clean : Bool) → scan_deepen ps clean ≢ out_of_fuel
unfolding scan_deepen
scan_deepen_total ps clean = scan_ends clean (pieces_size ps + 2) [] ps (omega arith)

pub whole :
    (ps : List Text) → scan_deepen ps true ≡ scan true (length (concat ps) + 1) true (concat ps) []
unfolding scan_deepen
whole ps =
    scan_pieces (pieces_size ps + 2) (length (concat ps) + 1) [] ps (omega arith) (omega arith)

-- The result depends on the body only, not on the pieces in which the reader returns it.
pub scan_deepen_pieces :
    (ps qs : List Text) → concat ps ≡ concat qs → scan_deepen ps true ≡ scan_deepen qs true
scan_deepen_pieces ps qs e =
    whole ps ∙ ap (λ s. scan true (length s + 1) true s []) e ∙ sym (whole qs)

unfoldable pub has_deepen : List Packet → Bool
has_deepen [] = false
has_deepen (flush ∷ ks) = has_deepen ks
has_deepen (line p ∷ ks) = is_deepen p || has_deepen ks

pub first_packet :
    (k : Packet) (ks : List Packet) (last rest : Outcome)
    → rest ≡ (if has_deepen ks then found else last)
    → (if is_deepen (payload k) && true then found else rest)
      ≡ (if has_deepen (k ∷ ks) then found else last)
unfolding has_deepen has_prefix
first_packet flush ks last rest h = h
first_packet (line p) ks last rest h = ground arith

scan_packets :
    (f : ℕ) (ks : List Packet)
    → All IsShort ks
    → length (encode_packets ks) < f
    → scan true f true (encode_packets ks) [] ≡ (if has_deepen ks then found else absent)
unfolding scan encode_packets has_deepen
scan_packets (suc f) [] h hf = unfold pkt_line_splitter in refl
scan_packets (suc f) (k ∷ ks) h hf =
    let split = splitter-encode_packet k (encode_packets ks) true h.0 in
    let size = length-append (encode_packet k) (encode_packets ks) in
    rw (split, drop-append_length (encode_packet k) (encode_packets ks), scan)
      (first_packet k ks absent _ (scan_packets f ks h.1 (omega (arith, encode_packet_size k))))
scan_packets f ks h hf = absurd (omega arith)

-- A body of packet lines has a "deepen" line exactly when the search says so, in whatever pieces it
-- comes: the search goes through every packet, and neither fails nor panics on the way.
pub scan_deepen_packets :
    (ks : List Packet) (ps : List Text)
    → All IsShort ks
    → concat ps ≡ encode_packets ks
    → scan_deepen ps true ≡ (if has_deepen ks then found else absent)
scan_deepen_packets ks ps h e =
    whole ps
    ∙ ap (λ s. scan true (length s + 1) true s []) e
    ∙ scan_packets (length (encode_packets ks) + 1) ks h (omega arith)
