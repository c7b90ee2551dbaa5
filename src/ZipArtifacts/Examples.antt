-- ===== src/ZipArtifacts/Examples.antt =====
-- An archive of one file in two directories.

use gitlab_workhorse.Base.{◌≡◌, refl, [], ◌∷◌, none, some, All}
use gitlab_workhorse.Base.Text.{codes, text_eq}
use gitlab_workhorse.Base.Dict.{lookup, insert}
use gitlab_workhorse.UrlPrefix.{split}
use gitlab_workhorse.Static.{file_clean, relative_join, relative_elements}
use gitlab_workhorse.ZipArtifacts.{
  File, ZipMap, dir, dir_part, is_top, directories, add_missing, add_directories, add_entry,
  add_entries,
}
use gitlab_workhorse.UrlPrefix.{flatten}
use gitlab_workhorse.ZipArtifacts.Directories.{IsListed, entries_are_complete}

abbrev report : File
report = record { name = codes "a/b/c"; metadata = codes "{}" }

abbrev listed : ZipMap
listed = (codes "a/b/c", some report) ∷ (codes "a/b/", none) ∷ (codes "a/", none) ∷ []

report_adds_directories : add_entries (report ∷ []) [] ≡ listed
unfolding add_entries add_entry add_directories add_missing directories dir dir_part is_top
    file_clean relative_join relative_elements split flatten insert lookup text_eq
report_adds_directories = refl

entries_are_complete_example :
    All (λ e. IsListed (add_entries (report ∷ []) []) e.name) (report ∷ [])
entries_are_complete_example = entries_are_complete (report ∷ []) []
