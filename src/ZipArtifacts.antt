-- ===== src/ZipArtifacts.antt =====
-- internal/zipartifacts/metadata.go: the list of the files of a ZIP archive, with their directories.
pub mod Shorter
pub mod Directories
mod Examples
use mathlib.Core.Option
use gitlab_workhorse.Base.{
  ℕ, zero, suc, ◌+◌, ◌/◌, ◌%◌, ◌^◌, ◌==◌, ◌||◌, List, [], ◌∷◌, ◌++◌, Option, none, some, Bool, true,
  false, if◌then◌else◌, length,
}
use gitlab_workhorse.Base.Text.{Text, codes, text_eq}
use gitlab_workhorse.Base.Dict.{Dict, lookup, insert}
use gitlab_workhorse.Static.{file_clean}

-- An entry of the archive, with what `newMetadata` takes of it as JSON.
pub record File : Type 0 where
  pub name : Text
  pub metadata : Text

-- A path up to its last slash, as `path.Split` cuts it.
unfoldable pub dir_part : Text → Text
dir_part [] = []
dir_part (c ∷ s) =
    let rest = dir_part s in
    if c == b'/' then c ∷ rest else if text_eq rest [] then [] else c ∷ rest

-- `path.Dir`.
unfoldable pub dir : Text → Text
dir p = file_clean (dir_part p)

unfoldable pub is_top : Text → Bool
is_top d = text_eq d (codes ".") || text_eq d (codes "/")

-- The directories that the inner loop goes through, before the fuel runs out.
unfoldable pub directories : ℕ → Text → List Text
directories zero d = []
directories (suc fuel) d = let rest = directories fuel (dir d) in if is_top d then [] else d ∷ rest

-- The map of paths; a directory that is no entry has no file.
abbrev pub ZipMap : Type 0
ZipMap = Dict (Option File)

unfoldable pub add_missing : Text → ZipMap → ZipMap
add_missing entry_dir m = elim (lookup entry_dir m) [ none ↦ insert entry_dir none m | some x ↦ m ]

unfoldable pub add_directories : List Text → ZipMap → ZipMap
add_directories [] m = m
add_directories (d ∷ ds) m = add_directories ds (add_missing (d ++ codes "/") m)

unfoldable pub add_entry : File → ZipMap → ZipMap
add_entry entry m =
    add_directories (directories (suc (length (dir entry.name))) (dir entry.name))
      (insert entry.name (some entry) m)

-- The loop over the entries.
unfoldable pub add_entries : List File → ZipMap → ZipMap
add_entries [] m = m
add_entries (entry ∷ entries) m = add_entries entries (add_entry entry m)

-- `binary.Write` of a 32-bit length, in big endian.
unfoldable pub big_endian : ℕ → Text
big_endian n = n / 2 ^ 24 % 256 ∷ n / 2 ^ 16 % 256 ∷ n / 2 ^ 8 % 256 ∷ n % 256 ∷ []

unfoldable pub write_bytes : Text → Text
write_bytes content = big_endian (length content % 2 ^ 32) ++ content

abbrev metadata_of : Option (Option File) → Text
metadata_of none = codes "{}"
metadata_of (some none) = codes "{}"
metadata_of (some (some entry)) = entry.metadata

unfoldable pub write_zip_entry_metadata : Text → Option (Option File) → Text
write_zip_entry_metadata path entry =
    write_bytes path ++ write_bytes (metadata_of entry ++ b'\n' ∷ [])

unfoldable pub write_files : List Text → ZipMap → Text
write_files [] m = []
write_files (path ∷ paths) m = write_zip_entry_metadata path (lookup path m) ++ write_files paths m

abbrev paths_of : ZipMap → List Text
paths_of [] = []
paths_of ((path, x) ∷ m) = path ∷ paths_of m

unfoldable pub metadata_header : Text
metadata_header = codes "GitLab Build Artifacts Metadata 0.0.2" ++ b'\n' ∷ []

-- `GenerateZipMetadata`, before compression; `sort` is `sort.Strings`.
unfoldable pub generate_zip_metadata : (List Text → List Text) → List File → Text
generate_zip_metadata sort entries =
    let m = add_entries entries [] in
    write_bytes metadata_header ++ write_bytes (codes "{}") ++ write_files (sort (paths_of m)) m
