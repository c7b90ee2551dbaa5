-- ===== src/Git/PktLine/Splitter.antt =====
-- The splitter of internal/git/pktline.go: its answer does not depend on what comes later, and
-- its tokens lie within the data.

use gitlab_workhorse.Base.{
  ℕ, ◌≤◌, ◌≡◌, refl, ◌⊎◌, inl, inr, [], ◌∷◌, ◌++◌, Option, none, some, Bool, false, arith, length,
  take-append_le, length-append, dec_lt,
}
use gitlab_workhorse.Base.Text.{Text, has_prefix}
use gitlab_workhorse.Git.PktLine.{
  parse_int, more, token, pkt_line_splitter, split_at, split_parsed, slice_token,
}

split_at_stable :
    (neg : Bool) (n : ℕ) (s e : Text) (b : Bool)
    → (split_at neg n s false ≡ more) ⊎ (split_at neg n (s ++ e) b ≡ split_at neg n s false)
unfolding split_at slice_token
split_at_stable neg n s e b = elim (dec_lt (length s) n) [
  | yes short ↦ ground arith
  | no enough ↦ inr (ground (arith, take-append_le n s e (omega arith), length-append s e))
]

split_parsed_stable :
    (o : Option (Bool × ℕ)) (s e : Text) (b : Bool)
    → (split_parsed o s false ≡ more) ⊎ (split_parsed o (s ++ e) b ≡ split_parsed o s false)
unfolding split_parsed
split_parsed_stable none s e b = inr refl
split_parsed_stable (some (neg, n)) s e b = split_at_stable neg n s e b

-- Once the splitter has answered on what is there, more data changes nothing.
pub splitter_stable :
    (s e : Text) (b : Bool)
    → (pkt_line_splitter s false ≡ more)
      ⊎ (pkt_line_splitter (s ++ e) b ≡ pkt_line_splitter s false)
unfolding pkt_line_splitter has_prefix
splitter_stable (c1 ∷ c2 ∷ c3 ∷ c4 ∷ s) e b =
    let o = parse_int (c1 ∷ c2 ∷ c3 ∷ c4 ∷ []) in
    ground (arith, split_parsed_stable o (c1 ∷ c2 ∷ c3 ∷ c4 ∷ s) e b)
splitter_stable s e b = inl refl

-- A token lies within the data, after the four bytes of its length.
pub splitter_token :
    (s : Text) (b : Bool) (n : ℕ) (t : Text)
    → pkt_line_splitter s b ≡ token n t
    → (4 ≤ n) × (n ≤ length s)
unfolding pkt_line_splitter
splitter_token s b n t h = ground arith
