-- ===== src/UrlPrefix/Stable.antt =====
-- The paths of internal/urlprefix/urlprefix.go, cleaned again.
use mathlib.Core.Bool.{Bool, true, false}
use mathlib.Core.List.{
  List, [], ◌∷◌, ◌++◌, reverse, reverse_aux, reverse-reverse, append_assoc, append-nil,
}
use mathlib.Core.Path.{subst⁻¹}
use gitlab_workhorse.Base.{
  ℕ, ◌≡◌, refl, sym, ap, ◌∙◌, ◌≢◌, ◌⊎◌, inl, inr, if◌then◌else◌, All, arith,
}
use gitlab_workhorse.Base.Text.{Text, text_eq, codes}
use gitlab_workhorse.UrlPrefix.{
  split, clean_elements, flatten, join, path_clean, ends_with_slash, clean_uri_path,
}
use gitlab_workhorse.UrlPrefix.Canonical.{NoSlash, IsPlain, IsCanonical, clean_uri_path-IsCanonical}

split-NoSlash_id : (x : Text) → NoSlash x → split x ≡ x ∷ []
unfolding split
split-NoSlash_id [] h = refl
split-NoSlash_id (c ∷ x) h = ground (arith, h.0, split-NoSlash_id x h.1)

pub split-append : (x r : Text) → NoSlash x → split (x ++ b'/' ∷ r) ≡ x ∷ split r
unfolding split
split-append [] r h = refl
split-append (c ∷ x) r h = ground (arith, h.0, split-append x r h.1)

-- What is cut off after the last element.
abbrev pub last_part : Bool → List Text
last_part b = if b then [] ∷ [] else []

abbrev pub last_slash : Bool → Text
last_slash b = if b then codes "/" else []

split-flatten :
    (x : Text) (xs : List Text) (b : Bool)
    → NoSlash x
    → All IsPlain xs
    → split (x ++ (flatten xs ++ last_slash b)) ≡ x ∷ (xs ++ last_part b)
unfolding flatten split
split-flatten x [] false h hs = ground (arith, append-nil x, split-NoSlash_id x h)
split-flatten x [] true h hs = split-append x [] h
split-flatten x (y ∷ xs) b h hs = ground (
  arith,
  append_assoc y (flatten xs) (last_slash b),
  split-append x (y ++ (flatten xs ++ last_slash b)) h,
  split-flatten y xs b (hs.0).2 hs.1,
)

clean_elements_plain :
    (kept xs : List Text) (b : Bool)
    → All IsPlain xs
    → clean_elements kept (xs ++ last_part b) ≡ reverse_aux xs kept
unfolding clean_elements text_eq
clean_elements_plain kept [] false h = refl
clean_elements_plain kept [] true h = refl
clean_elements_plain kept (x ∷ xs) b h =
    ground (arith, (h.0).0, (h.0).1, clean_elements_plain (x ∷ kept) xs b h.1)

pub split-flatten_rooted :
    (x : Text) (xs : List Text) (b : Bool)
    → All IsPlain (x ∷ xs)
    → split (flatten (x ∷ xs) ++ last_slash b) ≡ [] ∷ (x ∷ xs) ++ last_part b
unfolding flatten split
split-flatten_rooted x xs b h =
    ap (λ t. [] ∷ split t) (append_assoc x (flatten xs) (last_slash b))
    ∙ ap (λ t. [] ∷ t) (split-flatten x xs b (h.0).2 h.1)

path_clean_canonical :
    (x : Text) (xs : List Text) (b : Bool)
    → All IsPlain (x ∷ xs)
    → path_clean (flatten (x ∷ xs) ++ last_slash b) ≡ flatten (x ∷ xs)
unfolding path_clean clean_elements join text_eq
path_clean_canonical x xs b h =
    ap (λ t. join (reverse (clean_elements [] t))) (split-flatten_rooted x xs b h)
    ∙ ap (λ t. join (reverse t)) (clean_elements_plain [] (x ∷ xs) b h)
    ∙ ap join (reverse-reverse (x ∷ xs))

ends_with_slash-append : (t : Text) → ends_with_slash (t ++ codes "/") ≡ true
unfolding ends_with_slash
ends_with_slash-append [] = refl
ends_with_slash-append (c ∷ []) = refl
ends_with_slash-append (c ∷ d ∷ t) = ends_with_slash-append (d ∷ t)

open_end :
    (c : ℕ) (x t : Text)
    → NoSlash (c ∷ x)
    → ends_with_slash t ≡ false
    → ends_with_slash (c ∷ x ++ t) ≡ false
unfolding ends_with_slash
open_end c [] [] h e = ground (arith, h.0)
open_end c [] (d ∷ t) h e = e
open_end c (d ∷ x) t h e = open_end d x t h.1 e

ends_with_slash-flatten : (xs : List Text) → All IsPlain xs → ends_with_slash (flatten xs) ≡ false
unfolding ends_with_slash flatten text_eq
ends_with_slash-flatten [] h = refl
ends_with_slash-flatten ([] ∷ xs) h = absurd (ground (arith, (h.0).0))
ends_with_slash-flatten ((c ∷ x) ∷ xs) h =
    open_end c x (flatten xs) (h.0).2 (ends_with_slash-flatten xs h.1)

flatten_is_not_root :
    (x : Text) (xs : List Text) → IsPlain x → text_eq (flatten (x ∷ xs)) (codes "/") ≡ false
unfolding flatten text_eq
flatten_is_not_root [] xs h = absurd (ground (arith, h.0))
flatten_is_not_root (c ∷ x) xs h = refl

rooted_path :
    (t np : Text) (b : Bool)
    → path_clean (b'/' ∷ t) ≡ np
    → ends_with_slash (b'/' ∷ t) ≡ b
    → text_eq np (codes "/") ≡ false
    → clean_uri_path (b'/' ∷ t) ≡ np ++ last_slash b
unfolding clean_uri_path text_eq
rooted_path t np false e f g = ground (arith, e, f, g, append-nil np)
rooted_path t np true e f g = ground (arith, e, f, g)

ends_with_slash-last :
    (xs : List Text) (b : Bool) → All IsPlain xs → ends_with_slash (flatten xs ++ last_slash b) ≡ b
ends_with_slash-last xs true h = ends_with_slash-append (flatten xs)
ends_with_slash-last xs false h =
    ap ends_with_slash (append-nil (flatten xs)) ∙ ends_with_slash-flatten xs h

canonical_is_clean :
    (x : Text) (xs : List Text) (b : Bool)
    → All IsPlain (x ∷ xs)
    → clean_uri_path (flatten (x ∷ xs) ++ last_slash b) ≡ flatten (x ∷ xs) ++ last_slash b
unfolding flatten
canonical_is_clean x xs b h =
    rooted_path ((x ++ flatten xs) ++ last_slash b) (flatten (x ∷ xs)) b
      (path_clean_canonical x xs b h) (ends_with_slash-last (x ∷ xs) b h)
      (flatten_is_not_root x xs h.0)

shape_stays :
    (q : Text) (parts : List Text)
    → All IsPlain parts
    → (q ≡ join parts) ⊎ ((parts ≢ []) × (q ≡ join parts ++ codes "/"))
    → clean_uri_path q ≡ q
unfolding join clean_uri_path text_eq ends_with_slash path_clean clean_elements split
shape_stays q [] h (inl e) = subst⁻¹ (λ t. clean_uri_path t ≡ t) e refl
shape_stays q [] h (inr e) = absurd (e.0 refl)
shape_stays q (x ∷ xs) h (inl e) =
    subst⁻¹ (λ t. clean_uri_path t ≡ t) (e ∙ sym (append-nil (flatten (x ∷ xs))))
      (canonical_is_clean x xs false h)
shape_stays q (x ∷ xs) h (inr e) =
    subst⁻¹ (λ t. clean_uri_path t ≡ t) e.1 (canonical_is_clean x xs true h)

canonical_stays : (q : Text) → IsCanonical q → clean_uri_path q ≡ q
canonical_stays q c = shape_stays q c.parts c.plain c.shape

-- `CleanURIPath` changes a path that it has made no more.
pub clean_uri_path_idempotent : (p : Text) → clean_uri_path (clean_uri_path p) ≡ clean_uri_path p
clean_uri_path_idempotent p = canonical_stays (clean_uri_path p) (clean_uri_path-IsCanonical p)
