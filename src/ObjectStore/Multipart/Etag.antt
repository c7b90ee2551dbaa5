-- ===== src/ObjectStore/Multipart/Etag.antt =====
-- `extractETag` of internal/objectstore/uploader.go.

use gitlab_workhorse.Base.{
  ◌-◌, ◌≡◌, [], ◌∷◌, ◌++◌, none, some, length, arith, length-append, take-append_length,
}
use gitlab_workhorse.Base.Text.{Text, codes}
use gitlab_workhorse.ObjectStore.Multipart.{extract_etag}

quoted_length : (s : Text) → length (s ++ b'"' ∷ []) - 1 ≡ length s
quoted_length s = omega (arith, length-append s (b'"' ∷ []))

unquoted : (s : Text) → extract_etag (b'"' ∷ s ++ b'"' ∷ []) ≡ some s
unfolding extract_etag
unquoted s =
    ground (arith, quoted_length s, length-append s (b'"' ∷ []), take-append_length s (b'"' ∷ []))

one_quote : (s : Text) → extract_etag s ≡ none → s ≡ codes "\""
unfolding extract_etag
one_quote [] e = absurd (ground (arith, e))
one_quote (c ∷ []) e = ground (arith, e)
one_quote (c ∷ d ∷ s) e = absurd (ground (arith, e))

-- A quoted ETag loses its quotes; and the one text at which the slice panics is a single quote.
pub extract_etag_lem :
    (s : Text)
    → (extract_etag (b'"' ∷ s ++ b'"' ∷ []) ≡ some s)
      × ((extract_etag s ≡ none → s ≡ codes "\"") × (s ≡ codes "\"" → extract_etag s ≡ none))
unfolding extract_etag
extract_etag_lem s = (unquoted s, (one_quote s, λ e. ground (arith, e)))
