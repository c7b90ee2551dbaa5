-- ===== src/ZipArtifacts/Directories.antt =====
-- The directories in the map of internal/zipartifacts/metadata.go.

use mathlib.Core.Path.{subst, subst⁻¹}
use gitlab_workhorse.Base.{
  ℕ, zero, suc, ◌≡◌, ◌≢◌, ◌≤◌, inl, inr, refl, ap, ◌∙◌, List, [], ◌∷◌, ◌++◌, Option, none, some,
  true, false, length, All, arith, Bool-cases, Option-cases,
}
use gitlab_workhorse.Base.Text.{Text, codes, text_eq, text_eq_iff, text_eq_refl}
use gitlab_workhorse.Base.Dict.{lookup, insert, lookup-insert}
use gitlab_workhorse.UrlPrefix.{split, clean_elements, join, path_clean}
use gitlab_workhorse.Static.{file_clean}
use gitlab_workhorse.ZipArtifacts.{
  File, ZipMap, dir_part, dir, is_top, directories, add_missing, add_directories, add_entry,
  add_entries,
}
use gitlab_workhorse.ZipArtifacts.Shorter.{dir_shorter}

-- A path, the directory that it is in, the directory of that one, and so on.
unfoldable pub above : ℕ → Text → Text
above zero d = d
above (suc n) d = above n (dir d)

dir_dot : dir (codes ".") ≡ codes "."
unfolding dir dir_part file_clean text_eq
dir_dot = refl

dir_slash : dir (codes "/") ≡ codes "/"
unfolding dir dir_part file_clean path_clean split clean_elements join text_eq
dir_slash = refl

top_stays : (d : Text) → is_top d ≡ true → dir d ≡ d
unfolding is_top
top_stays d h = elim (Bool-cases (text_eq d (codes "."))) [
  | inl dot ↦ subst⁻¹ (λ t. dir t ≡ t) ((text_eq_iff d (codes ".")).0 dot) dir_dot
  | inr other ↦
      subst⁻¹ (λ t. dir t ≡ t) ((text_eq_iff d (codes "/")).0 (ground (arith, h, other))) dir_slash
]

above_top : (n : ℕ) (d : Text) → is_top d ≡ true → is_top (above n d) ≡ true
unfolding above
above_top zero d h = h
above_top (suc n) d h = above_top n (dir d) (ap is_top (top_stays d h) ∙ h)

-- The fuel is enough: the loop goes through every directory above a path.
directories_all :
    (P : Text → Type 0) (fuel : ℕ) (d : Text) (n : ℕ)
    → length d ≤ fuel
    → All P (directories (suc fuel) d)
    → is_top (above n d) ≡ false
    → P (above n d)
unfolding directories above
directories_all P fuel d zero enough h low =
    let here : All P (d ∷ directories fuel (dir d)) =
      subst (All P) {y = d ∷ directories fuel (dir d)} (ground (arith, low)) h in
    here.0
directories_all P zero d (suc n) enough h low = elim (dir_shorter d) [
  | inl top ↦ absurd (ground (arith, low, above_top n (dir d) top))
  | inr shorter ↦ absurd (omega (arith, shorter, enough))
]
directories_all P (suc fuel) d (suc n) enough h low = elim (Bool-cases (is_top d)) [
  | inl top ↦ absurd (ground (arith, low, above_top n (dir d) (ap is_top (top_stays d top) ∙ top)))
  | inr inside ↦ elim (dir_shorter d) [
    | inl top ↦ absurd (ground (arith, low, above_top n (dir d) top))
    | inr shorter ↦
        let here : All P (d ∷ directories (suc fuel) (dir d)) =
          subst (All P) {y = d ∷ directories (suc fuel) (dir d)} (ground (arith, inside)) h in
        directories_all P fuel (dir d) n (omega (arith, shorter, enough)) here.1 low
  ]
]

-- The map has a directory, or a file at a path.
abbrev pub HasDirectory : ZipMap → Text → Type 0
HasDirectory m d = lookup (d ++ codes "/") m ≢ none

abbrev pub HasFile : ZipMap → Text → Type 0
HasFile m k = (x : File) × (lookup k m ≡ some (some x))

add_missing_keeps :
    (k j : Text) (m : ZipMap) (x : Option File)
    → lookup j m ≡ some x
    → lookup j (add_missing k m) ≡ some x
unfolding add_missing
add_missing_keeps k j m x h = elim (Option-cases (lookup k m)) [
  | inr (y, there) ↦ ground (arith, there, h)
  | inl missing ↦ elim (Bool-cases (text_eq k j)) [
    | inr differ ↦ ground (arith, missing, h, differ, lookup-insert k j none m)
    | inl same ↦
        let e = ap (λ t. lookup t m) ((text_eq_iff k j).0 same) in
        absurd (ground (arith, missing, h, e))
  ]
]

add_missing_adds : (d : Text) (m : ZipMap) → HasDirectory (add_missing (d ++ codes "/") m) d
unfolding add_missing
add_missing_adds d m e =
    let k = d ++ codes "/" in
    elim (Option-cases (lookup k m)) [
      | inr (y, there) ↦ ground (arith, e, there)
      | inl missing ↦ ground (arith, e, missing, lookup-insert k k none m, text_eq_refl k)
    ]

some_stays :
    {A : Type 0} (f : Option A) (g : Option A)
    → ((x : A) → f ≡ some x → g ≡ some x)
    → f ≢ none
    → g ≢ none
some_stays none g h some_value e = some_value refl
some_stays (some x) g h some_value e = ground (arith, e, h x refl)

add_directories_keeps :
    (ds : List Text) (j : Text) (m : ZipMap) (x : Option File)
    → lookup j m ≡ some x
    → lookup j (add_directories ds m) ≡ some x
unfolding add_directories
add_directories_keeps [] j m x h = h
add_directories_keeps (d ∷ ds) j m x h =
    add_directories_keeps ds j (add_missing (d ++ codes "/") m) x
      (add_missing_keeps (d ++ codes "/") j m x h)

add_directories-All : (ds : List Text) (m : ZipMap) → All (HasDirectory (add_directories ds m)) ds
unfolding add_directories
add_directories-All [] m = tt
add_directories-All (d ∷ ds) m =
    let m1 = add_missing (d ++ codes "/") m in
    let k = d ++ codes "/" in
    (
      some_stays (lookup k m1) (lookup k (add_directories ds m1)) (add_directories_keeps ds k m1)
          (add_missing_adds d m),
      add_directories-All ds m1,
    )

-- What an entry adds.
abbrev directories_of : File → List Text
directories_of e = directories (suc (length (dir e.name))) (dir e.name)

-- The directories above a path are in the map.
abbrev pub HasDirectories : ZipMap → Text → Type 0
HasDirectories m name =
    (n : ℕ) → is_top (above n (dir name)) ≡ false → HasDirectory m (above n (dir name))

add_entry-HasDirectories : (e : File) (m : ZipMap) → HasDirectories (add_entry e m) e.name
unfolding add_entry
add_entry-HasDirectories e m n low =
    let m1 = insert e.name (some e) m in
    directories_all (HasDirectory (add_directories (directories_of e) m1)) (length (dir e.name))
      (dir e.name) n (omega arith) (add_directories-All (directories_of e) m1) low

add_entry-HasFile : (e : File) (m : ZipMap) → HasFile (add_entry e m) e.name
unfolding add_entry
add_entry-HasFile e m = (
  e,
  add_directories_keeps (directories_of e) e.name (insert e.name (some e) m) (some e)
      (ground (arith, lookup-insert e.name e.name (some e) m, text_eq_refl e.name)),
)

file_stays : (e : File) (m : ZipMap) (k : Text) → HasFile m k → HasFile (add_entry e m) k
unfolding add_entry
file_stays e m k (x, h) =
    let m1 = insert e.name (some e) m in
    let write = lookup-insert e.name k (some e) m in
    elim (Bool-cases (text_eq e.name k)) [
      | inl same ↦
          (e, add_directories_keeps (directories_of e) k m1 (some e) (ground (arith, write, same)))
      | inr differ ↦ (
        x,
        add_directories_keeps (directories_of e) k m1 (some x) (ground (arith, write, differ, h)),
      )
    ]

directory_stays :
    (e : File) (m : ZipMap) (d : Text) → HasDirectory m d → HasDirectory (add_entry e m) d
unfolding add_entry
directory_stays e m d has =
    let k = d ++ codes "/" in
    let m1 = insert e.name (some e) m in
    let write = lookup-insert e.name k (some e) m in
    some_stays (lookup k m1) (lookup k (add_directories (directories_of e) m1))
      (add_directories_keeps (directories_of e) k m1) (λ gone. ground (arith, write, gone, has))

-- A name that is a file in the map, with the directories above it.
abbrev pub IsListed : ZipMap → Text → Type 0
IsListed m name = HasFile m name × HasDirectories m name

later_entries_keep :
    (entries : List File) (m : ZipMap) (name : Text)
    → IsListed m name
    → IsListed (add_entries entries m) name
unfolding add_entries
later_entries_keep [] m name h = h
later_entries_keep (e ∷ entries) m name (file, above_it) =
    later_entries_keep entries (add_entry e m) name
      (file_stays e m name file, λ n low. directory_stays e m (above n (dir name)) (above_it n low))

-- In the map of an archive each entry is listed as a file, which no directory replaces, and so is
-- every directory above it, up to the dot or the slash at which the loop over them ends.
pub entries_are_complete :
    (entries : List File) (m : ZipMap) → All (λ e. IsListed (add_entries entries m) e.name) entries
unfolding add_entries
entries_are_complete [] m = tt
entries_are_complete (e ∷ entries) m = (
  later_entries_keep entries (add_entry e m) e.name
      (add_entry-HasFile e m, add_entry-HasDirectories e m),
  entries_are_complete entries (add_entry e m),
)
