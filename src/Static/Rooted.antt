-- ===== src/Static/Rooted.antt =====
-- Which files internal/staticpages/servefile.go opens.

use gitlab_workhorse.Base.{◌≡◌, ◌⊎◌, List, ◌∷◌, All}
use gitlab_workhorse.Base.Text.{Text}
use gitlab_workhorse.UrlPrefix.{flatten}
use gitlab_workhorse.UrlPrefix.Canonical.{IsPlain}
use gitlab_workhorse.Static.{relative_join}

-- The document root: a canonical path other than the root of the disk, or one relative to the
-- working directory, of these elements.
abbrev pub IsDocumentRoot : Text → Text → List Text → Type 0
IsDocumentRoot root x xs =
    All IsPlain (x ∷ xs) × ((root ≡ flatten (x ∷ xs)) ⊎ (root ≡ relative_join (x ∷ xs)))
