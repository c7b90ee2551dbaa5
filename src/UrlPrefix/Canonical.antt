-- ===== src/UrlPrefix/Canonical.antt =====
-- The paths that internal/urlprefix/urlprefix.go makes.
use mathlib.Core.Bool.{Bool, false, not, ◌&&◌}
use mathlib.Core.List.{List, [], ◌∷◌, ◌++◌, reverse, reverse_aux}
use mathlib.Core.Path.{subst⁻¹}
use gitlab_workhorse.Base.{
  ℕ, ◌==◌, ◌≡◌, refl, ◌≢◌, ◌⊎◌, inl, inr, if◌then◌else◌, drop, All, arith, Bool-cases,
}
use gitlab_workhorse.Base.Text.{Text, text_eq, codes}
use gitlab_workhorse.UrlPrefix.{
  put_first, split, is_idle, is_parent, clean_elements, join, path_clean, ends_with_slash,
  clean_uri_path,
}

abbrev pub NoSlash : Text → Type 0
NoSlash = All (λ c. c ≢ b'/')

-- An element that names something: not empty, neither `.` nor `..`, without a slash.
abbrev pub IsPlain : Text → Type 0
IsPlain x = (is_idle x ≡ false) × (is_parent x ≡ false) × NoSlash x

put_first-NoSlash :
    (c : ℕ) (xs : List Text) → c ≢ b'/' → All NoSlash xs → All NoSlash (put_first c xs)
put_first-NoSlash c [] h hs = ((h, tt), tt)
put_first-NoSlash c (x ∷ xs) h hs = ((h, hs.0), hs.1)

split-NoSlash : (s : Text) → All NoSlash (split s)
unfolding split
split-NoSlash [] = (tt, tt)
split-NoSlash (c ∷ s) = elim (Bool-cases (c == b'/')) [
  | inl slash ↦
      subst⁻¹ (All NoSlash) {y = [] ∷ split s} (ground (arith, slash)) (tt, split-NoSlash s)
  | inr other ↦
      subst⁻¹ (All NoSlash) {y = put_first c (split s)} (ground (arith, other))
        (put_first-NoSlash c (split s) (ground (arith, other)) (split-NoSlash s))
]

drop-All : (xs : List Text) → All IsPlain xs → All IsPlain (drop 1 xs)
drop-All [] h = tt
drop-All (x ∷ xs) h = h.1

-- One element more, as `path.Clean` takes it.
abbrev keep : List Text → Text → List Text
keep kept x = if is_idle x then kept else if is_parent x then drop 1 kept else x ∷ kept

keep-IsPlain :
    (kept : List Text) (x : Text) → NoSlash x → All IsPlain kept → All IsPlain (keep kept x)
keep-IsPlain kept x hx h = elim (Bool-cases (is_idle x)) [
  | inl idle ↦ subst⁻¹ (All IsPlain) {y = kept} (ground (arith, idle)) h
  | inr named ↦ elim (Bool-cases (is_parent x)) [
    | inl up ↦ subst⁻¹ (All IsPlain) {y = drop 1 kept} (ground (arith, named, up)) (drop-All kept h)
    | inr down ↦
        subst⁻¹ (All IsPlain) {y = x ∷ kept} (ground (arith, named, down)) ((named, down, hx), h)
  ]
]

clean_elements-IsPlain :
    (kept xs : List Text) → All NoSlash xs → All IsPlain kept → All IsPlain (clean_elements kept xs)
unfolding clean_elements
clean_elements-IsPlain kept [] hs h = h
clean_elements-IsPlain kept (x ∷ xs) hs h =
    clean_elements-IsPlain (keep kept x) xs hs.1 (keep-IsPlain kept x hs.0 h)

reverse_aux-All :
    (xs ys : List Text) → All IsPlain xs → All IsPlain ys → All IsPlain (reverse_aux xs ys)
reverse_aux-All [] ys hx hy = hy
reverse_aux-All (x ∷ xs) ys hx hy = reverse_aux-All xs (x ∷ ys) hx.1 (hx.0, hy)

-- What `path.Clean` keeps.
elements : Text → List Text
elements p = reverse (clean_elements [] (split p))

elements-IsPlain : (p : Text) → All IsPlain (elements p)
unfolding elements
elements-IsPlain p =
    reverse_aux-All (clean_elements [] (split p)) []
      (clean_elements-IsPlain [] (split p) (split-NoSlash p) tt) tt

-- The canonical paths: the root, or plain elements with a slash before each, and one at the end or
-- not.
pub record IsCanonical (p : Text) : Type 0 where
  pub parts : List Text
  pub plain : All IsPlain parts
  pub shape : (p ≡ join parts) ⊎ ((parts ≢ []) × (p ≡ join parts ++ codes "/"))

not_root : (ss : List Text) → text_eq (join ss) (codes "/") ≡ false → ss ≢ []
unfolding join text_eq
not_root [] h e = cc
not_root (x ∷ ss) h e = cc

with_slash :
    (ss : List Text) (b : Bool)
    → let r = if b && not (text_eq (join ss) (codes "/")) then join ss ++ codes "/" else join ss in
      (r ≡ join ss) ⊎ ((ss ≢ []) × (r ≡ join ss ++ codes "/"))
with_slash ss b = elim (Bool-cases b) [
  | inr no_slash ↦ inl (ground (arith, no_slash))
  | inl slash ↦ elim (Bool-cases (text_eq (join ss) (codes "/"))) [
    | inl root ↦ inl (ground (arith, slash, root))
    | inr named ↦ inr (not_root ss named, ground (arith, slash, named))
  ]
]

-- `CleanURIPath` makes a canonical path of any text: no element of it is empty, `.` or `..`, so that
-- it does not leave the root.
pub clean_uri_path-IsCanonical : (p : Text) → IsCanonical (clean_uri_path p)
unfolding clean_uri_path path_clean elements join text_eq
clean_uri_path-IsCanonical [] = record { parts = []; plain = tt; shape = inl refl }
clean_uri_path-IsCanonical (c ∷ s) =
    let p : Text = if c == b'/' then c ∷ s else b'/' ∷ c ∷ s in
    record {
      parts = elements p;
      plain = elements-IsPlain p;
      shape = with_slash (elements p) (ends_with_slash p);
    }
