-- ===== src/SendUrl/Ranges.antt =====
-- Which headers internal/sendurl/sendurl.go asks with.

use gitlab_workhorse.Base.{
  ◌≡◌, refl, List, [], ◌∷◌, none, some, Bool, true, false, if◌then◌else◌, arith,
}
use gitlab_workhorse.Base.Text.{Text, text_eq, text_eq_iff}
use gitlab_workhorse.Base.Dict.{lookup, insert, lookup-insert}
use gitlab_workhorse.Http.{Header}
use gitlab_workhorse.SendUrl.{range_header_keys, values_of, copy_keys}

abbrev pub is_among : Text → List Text → Bool
is_among k [] = false
is_among k (j ∷ js) = if text_eq j k then true else is_among k js

lookup-copy_keys :
    (k : Text) (ks : List Text) (from h : Header)
    → lookup k (copy_keys ks from h)
      ≡ (if is_among k ks then some (values_of (lookup k from)) else lookup k h)
unfolding copy_keys
lookup-copy_keys k [] from h = refl
lookup-copy_keys k (j ∷ ks) from h = ground (
  arith,
  lookup-copy_keys k ks from (insert j (values_of (lookup j from)) h),
  lookup-insert j k (values_of (lookup j from)) h,
  text_eq_iff j k,
)

-- Of the client's headers, the request for the URL has the conditions and the range, with their
-- values, and no other header.
pub only_ranges_are_sent :
    (k : Text) (from : Header)
    → lookup k (copy_keys range_header_keys from [])
      ≡ (if is_among k range_header_keys then some (values_of (lookup k from)) else none)
unfolding lookup
only_ranges_are_sent k from = lookup-copy_keys k range_header_keys from []
