-- ===== src/ZipArtifacts/Shorter.antt =====
-- path.Dir makes a path shorter, until it is a dot or a slash.

use mathlib.Core.Path.{subst⁻¹}
use mathlib.Core.List.{reverse, reverse_aux}
use gitlab_workhorse.Base.{
  ℕ, suc, ◌+◌, ◌==◌, ◌≡◌, ◌≢◌, ◌≤◌, ◌<◌, ◌⊎◌, inl, inr, refl, ap, ◌∙◌, List, [], ◌∷◌, ◌++◌, true,
  false, if◌then◌else◌, length, length-append, total, drop, arith, Bool-cases, ℕ_discrete,
}
use gitlab_workhorse.Base.Text.{Text, codes, text_eq, text_eq_iff}
use gitlab_workhorse.UrlPrefix.{
  is_idle, is_parent, split, clean_elements, flatten, join, path_clean, put_first,
}
use gitlab_workhorse.Static.{up, relative_elements, relative_join, file_clean}
use gitlab_workhorse.ZipArtifacts.{dir_part, dir, is_top}

-- The bytes of some elements, with a slash for each.
abbrev size : List Text → ℕ
size xs = total (λ x. suc (length x)) xs

size-put_first : (c : ℕ) (xs : List Text) → xs ≢ [] → size (put_first c xs) ≡ suc (size xs)
size-put_first c [] h = absurd (h refl)
size-put_first c (x ∷ xs) h = omega arith

put_first_some : (c : ℕ) (xs : List Text) → put_first c xs ≢ []
put_first_some c [] e = ground (arith, e)
put_first_some c (x ∷ xs) e = ground (arith, e)

split_some : (s : Text) → split s ≢ []
unfolding split
split_some [] e = ground (arith, e)
split_some (c ∷ s) e = elim (Bool-cases (c == b'/')) [
  | inl slash ↦ ground (arith, e, slash)
  | inr other ↦ put_first_some c (split s) (ground (arith, e, other))
]

size-split : (s : Text) → size (split s) ≡ suc (length s)
unfolding split
size-split [] = omega arith
size-split (c ∷ s) = ground (arith, size-split s, size-put_first c (split s) (split_some s))

size-reverse_aux : (xs ys : List Text) → size (reverse_aux xs ys) ≡ size xs + size ys
size-reverse_aux [] ys = omega arith
size-reverse_aux (x ∷ xs) ys = omega (arith, size-reverse_aux xs (x ∷ ys))

size-reverse : (xs : List Text) → size (reverse xs) ≡ size xs
size-reverse xs = omega (arith, size-reverse_aux xs [])

size-drop : (xs : List Text) → size (drop 1 xs) ≤ size xs
size-drop [] = omega arith
size-drop (x ∷ xs) = omega arith

size-clean_elements : (kept xs : List Text) → size (clean_elements kept xs) ≤ size kept + size xs
unfolding clean_elements
size-clean_elements kept [] = omega arith
size-clean_elements kept (x ∷ xs) = ground (
  arith,
  size-clean_elements kept xs,
  size-clean_elements (drop 1 kept) xs,
  size-clean_elements (x ∷ kept) xs,
  size-drop kept,
)

size-up : (kept : List Text) → size (up kept) ≤ size kept + 3
size-up [] = omega arith
size-up (k ∷ kept) = ground arith

parent_length : (x : Text) → is_parent x ≡ true → length x ≡ 2
parent_length x h = ap length ((text_eq_iff x (codes "..")).0 h)

size-relative_elements :
    (kept xs : List Text) → size (relative_elements kept xs) ≤ size kept + size xs
unfolding relative_elements
size-relative_elements kept [] = omega arith
size-relative_elements kept (x ∷ xs) = elim (Bool-cases (is_idle x)) [
  | inl idle ↦ ground (arith, idle, size-relative_elements kept xs)
  | inr named ↦ elim (Bool-cases (is_parent x)) [
    | inl parent ↦ ground (
      arith,
      named,
      parent,
      size-relative_elements (up kept) xs,
      size-up kept,
      parent_length x parent,
    )
    | inr plain ↦ ground (arith, named, plain, size-relative_elements (x ∷ kept) xs)
  ]
]

length-flatten : (xs : List Text) → length (flatten xs) ≡ size xs
unfolding flatten
length-flatten [] = omega arith
length-flatten (x ∷ xs) = omega (arith, length-append x (flatten xs), length-flatten xs)

put_first-append :
    (c : ℕ) (xs ys : List Text) → xs ≢ [] → put_first c (xs ++ ys) ≡ put_first c xs ++ ys
put_first-append c [] ys h = absurd (h refl)
put_first-append c (x ∷ xs) ys h = refl

split_last : (s : Text) → split (s ++ codes "/") ≡ split s ++ [] ∷ []
unfolding split
split_last [] = refl
split_last (c ∷ s) =
    ground (arith, split_last s, put_first-append c (split s) ([] ∷ []) (split_some s))

clean_elements_last_idle :
    (kept xs : List Text) → clean_elements kept (xs ++ [] ∷ []) ≡ clean_elements kept xs
unfolding clean_elements text_eq
clean_elements_last_idle kept [] = refl
clean_elements_last_idle kept (x ∷ xs) =
    clean_elements_last_idle
      (if is_idle x then kept else if is_parent x then drop 1 kept else x ∷ kept) xs

relative_elements_last_idle :
    (kept xs : List Text) → relative_elements kept (xs ++ [] ∷ []) ≡ relative_elements kept xs
unfolding relative_elements text_eq
relative_elements_last_idle kept [] = refl
relative_elements_last_idle kept (x ∷ xs) =
    relative_elements_last_idle
      (if is_idle x then kept else if is_parent x then up kept else x ∷ kept) xs

-- One byte at most, or no more than some number.
abbrev IsShort : Text → ℕ → Type 0
IsShort t n = (length t ≤ 1) ⊎ (length t ≤ n)

join-IsShort : (xs : List Text) (n : ℕ) → size xs ≤ n → IsShort (join xs) n
unfolding join
join-IsShort [] n h = inl (omega arith)
join-IsShort (x ∷ xs) n h = inr (omega (arith, h, length-flatten (x ∷ xs)))

relative_join-IsShort : (xs : List Text) (n : ℕ) → size xs ≤ suc n → IsShort (relative_join xs) n
unfolding relative_join
relative_join-IsShort [] n h = inl (omega arith)
relative_join-IsShort (x ∷ xs) n h =
    inr (omega (arith, h, length-append x (flatten xs), length-flatten xs))

rooted_elements : (q : Text) → split (b'/' ∷ q) ≡ [] ∷ split q
unfolding split
rooted_elements q = refl

rooted_clean :
    (q : Text) → path_clean (b'/' ∷ q ++ codes "/") ≡ join (reverse (clean_elements [] (split q)))
unfolding path_clean clean_elements text_eq
rooted_clean q =
    ap (λ xs. join (reverse (clean_elements [] xs)))
      (rooted_elements (q ++ codes "/") ∙ ap (λ xs. [] ∷ xs) (split_last q))
    ∙ ap (λ xs. join (reverse xs)) (clean_elements_last_idle [] (split q))

rooted-IsShort : (q : Text) → IsShort (path_clean (b'/' ∷ q ++ codes "/")) (suc (length q))
rooted-IsShort q =
    let kept = clean_elements [] (split q) in
    subst⁻¹ (λ t. IsShort t (suc (length q))) (rooted_clean q)
      (join-IsShort (reverse kept) (suc (length q))
        (omega (arith, size-reverse kept, size-clean_elements [] (split q), size-split q)))

relative-IsShort :
    (p : Text)
    → IsShort (relative_join (reverse (relative_elements [] (split (p ++ codes "/"))))) (length p)
relative-IsShort p =
    let kept = relative_elements [] (split p) in
    let same =
      ap (relative_elements []) (split_last p) ∙ relative_elements_last_idle [] (split p) in
    subst⁻¹ (λ xs. IsShort (relative_join (reverse xs)) (length p)) same
      (relative_join-IsShort (reverse kept) (length p)
        (omega (arith, size-reverse kept, size-relative_elements [] (split p), size-split p)))

root_is_short : length (path_clean (codes "/")) ≤ 1
unfolding path_clean split clean_elements join text_eq
root_is_short = omega arith

-- Cleaning a path takes off its last slash.
file_clean-IsShort : (q : Text) → IsShort (file_clean (q ++ codes "/")) (length q)
unfolding file_clean
file_clean-IsShort [] = inl root_is_short
file_clean-IsShort (c ∷ q) = elim (ℕ_discrete c b'/') [
  | yes slash ↦
      subst⁻¹ (λ d. IsShort (file_clean (d ∷ q ++ codes "/")) (suc (length q))) slash
        (rooted-IsShort q)
  | no other ↦
      subst⁻¹ (λ t. IsShort t (suc (length q))) (ground (arith, other)) (relative-IsShort (c ∷ q))
]

slash_some : (q : Text) → text_eq (q ++ codes "/") [] ≡ false
unfolding text_eq
slash_some [] = refl
slash_some (c ∷ q) = refl

-- A path up to its last slash is empty, or shorter by what follows the slash.
dir_part-cases :
    (p : Text)
    → (dir_part p ≡ []) ⊎ ((q : Text) × (dir_part p ≡ q ++ codes "/") × (length q < length p))
unfolding dir_part text_eq
dir_part-cases [] = inl refl
dir_part-cases (c ∷ s) = elim (dir_part-cases s) [
  | inl none_later ↦ elim (Bool-cases (c == b'/')) [
    | inl slash ↦ inr ([], ground (arith, slash, none_later), omega arith)
    | inr other ↦ inl (ground (arith, other, none_later))
  ]
  | inr (q, later, shorter) ↦
      inr (c ∷ q, ground (arith, later, slash_some q), omega (arith, shorter))
]

dir_cases :
    (p : Text)
    → (dir p ≡ codes ".")
      ⊎ ((q : Text) × (dir p ≡ file_clean (q ++ codes "/")) × (length q < length p))
unfolding dir file_clean
dir_cases p = elim (dir_part-cases p) [
  | inl nothing ↦ inl (ap file_clean nothing)
  | inr (q, e, shorter) ↦ inr (q, ap file_clean e, shorter)
]

dot_is_top : (d : Text) → d ≡ codes "." → is_top d ≡ true
unfolding is_top
dot_is_top d e = ground (arith, text_eq_iff d (codes "."), e)

clean_slash : file_clean (codes "/") ≡ codes "/"
unfolding file_clean path_clean split clean_elements join text_eq
clean_slash = refl

slash_is_top : (d : Text) → d ≡ codes "/" → is_top d ≡ true
unfolding is_top
slash_is_top d e = ground (arith, text_eq_iff d (codes "/"), e)

-- `path.Dir` gives a dot or a slash, or a shorter path.
pub dir_shorter : (p : Text) → (is_top (dir p) ≡ true) ⊎ (length (dir p) < length p)
dir_shorter p = elim (dir_cases p) [
  | inl dot ↦ inl (dot_is_top (dir p) dot)
  | inr ([], e, shorter) ↦ inl (slash_is_top (dir p) (e ∙ clean_slash))
  | inr (c ∷ q, e, shorter) ↦ elim (file_clean-IsShort (c ∷ q)) [
    | inl short ↦ inr (omega (arith, shorter, short, ap length e))
    | inr short ↦ inr (omega (arith, shorter, short, ap length e))
  ]
]
