-- ===== src/Response/Counting/Examples.antt =====
-- The counting writer on a concrete handler.

use gitlab_workhorse.Base.{List, [], ◌∷◌}
use gitlab_workhorse.Base.Text.{codes}
use gitlab_workhorse.Http.{Action, set_header, write_header, write}

abbrev pub two_writes : List Action
two_writes =
    set_header (codes "Etag") (codes "1")
    ∷ write (codes "ab")
    ∷ write_header 404
    ∷ write (codes "c")
    ∷ []
