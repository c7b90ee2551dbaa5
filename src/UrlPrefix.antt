-- ===== src/UrlPrefix.antt =====
-- internal/urlprefix/urlprefix.go, and `path.Clean` on the rooted paths that it is called with.
pub mod Canonical
pub mod Stable
mod Examples
use mathlib.Core.Bool.{Bool, true, false, not, ◌&&◌, ◌||◌}
use mathlib.Core.List.{List, [], ◌∷◌, ◌++◌, reverse}
use gitlab_workhorse.Base.{ℕ, ◌==◌, if◌then◌else◌, drop}
use gitlab_workhorse.Base.Text.{Text, text_eq, codes, has_prefix, trim_prefix}

abbrev pub put_first : ℕ → List Text → List Text
put_first c [] = (c ∷ []) ∷ []
put_first c (x ∷ xs) = (c ∷ x) ∷ xs

-- The elements of a path, cut at each slash.
unfoldable pub split : Text → List Text
split [] = [] ∷ []
split (c ∷ s) = let rest = split s in if c == b'/' then [] ∷ rest else put_first c rest

-- An element that `path.Clean` leaves out: empty, or the current directory.
abbrev pub is_idle : Text → Bool
is_idle x = text_eq x [] || text_eq x (codes ".")

abbrev pub is_parent : Text → Bool
is_parent x = text_eq x (codes "..")

-- The elements that stay, the last first; the parent of the root is the root.
unfoldable pub clean_elements : List Text → List Text → List Text
clean_elements kept [] = kept
clean_elements kept (x ∷ xs) =
    clean_elements (if is_idle x then kept else if is_parent x then drop 1 kept else x ∷ kept) xs

unfoldable pub flatten : List Text → Text
flatten [] = []
flatten (x ∷ xs) = b'/' ∷ x ++ flatten xs

unfoldable pub join : List Text → Text
join [] = codes "/"
join (x ∷ xs) = flatten (x ∷ xs)

-- `path.Clean` of a path that starts with a slash.
unfoldable pub path_clean : Text → Text
path_clean p = join (reverse (clean_elements [] (split p)))

abbrev starts_with_slash : Text → Bool
starts_with_slash [] = false
starts_with_slash (c ∷ s) = c == b'/'

unfoldable pub ends_with_slash : Text → Bool
ends_with_slash [] = false
ends_with_slash (c ∷ []) = c == b'/'
ends_with_slash (c ∷ d ∷ s) = ends_with_slash (d ∷ s)

-- `CleanURIPath`.
unfoldable pub clean_uri_path : Text → Text
clean_uri_path p =
    let rooted = if starts_with_slash p then p else b'/' ∷ p in
    let np = path_clean rooted in
    let with_slash =
      if ends_with_slash rooted && not (text_eq np (codes "/")) then np ++ codes "/" else np in
    if text_eq p [] then codes "/" else with_slash

-- `Prefix.Strip`.
unfoldable pub strip : Text → Text → Text
strip p path = clean_uri_path (trim_prefix path p)

-- `Prefix.Match`.
unfoldable pub match_prefix : Text → Text → Bool
match_prefix p path = has_prefix path p || text_eq (path ++ codes "/") p
