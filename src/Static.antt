-- ===== src/Static.antt =====
-- internal/staticpages/servefile.go and deploy_page.go: files served from the document root.
pub mod Rooted
mod Examples
use mathlib.Core.Option
use mathlib.Core.List.{reverse}
use gitlab_workhorse.Base.{
  ℕ, ◌==◌, List, [], ◌∷◌, ◌++◌, Option, none, some, Bool, true, false, if◌then◌else◌,
}
use gitlab_workhorse.Base.Text.{Text, codes, text_eq, has_prefix}
use gitlab_workhorse.Http.{
  header_get, ResponseWriter, Action, serve, fail500, set_key, content_type,
}
use gitlab_workhorse.Http.Message.{Request, not_found}
use gitlab_workhorse.Response.ErrorPages.{set_no_cache_headers}
use gitlab_workhorse.UrlPrefix.{is_idle, is_parent, split, flatten, path_clean, strip}

pub data CacheMode : Type 0 where
  cache_disabled cache_expire_max : CacheMode

-- `strings.Contains`.
unfoldable pub contains : Text → Text → Bool
contains [] sub = has_prefix [] sub
contains (c ∷ s) sub = let rest = contains s sub in if has_prefix (c ∷ s) sub then true else rest

abbrev pub up : List Text → List Text
up [] = codes ".." ∷ []
up (k ∷ kept) = if is_parent k then codes ".." ∷ k ∷ kept else kept

-- The elements that stay of a relative path, the last first.
unfoldable pub relative_elements : List Text → List Text → List Text
relative_elements kept [] = kept
relative_elements kept (x ∷ xs) =
    relative_elements (if is_idle x then kept else if is_parent x then up kept else x ∷ kept) xs

unfoldable pub relative_join : List Text → Text
relative_join [] = codes "."
relative_join (x ∷ xs) = x ++ flatten xs

-- `filepath.Clean`.
unfoldable pub file_clean : Text → Text
file_clean [] = codes "."
file_clean (c ∷ p) =
    if c == b'/'
    then path_clean (c ∷ p)
    else relative_join (reverse (relative_elements [] (split (c ∷ p))))

-- `filepath.Join` of two paths, of which the second is not empty.
unfoldable pub join_path : Text → Text → Text
join_path root name = file_clean (if text_eq root [] then name else root ++ b'/' ∷ name)

-- A disk with its files, what `http.ServeContent` does for one, and the date in a year.
pub record Disk (File : Type 0) : Type 0 where
  pub open_file : Text → Option File
  pub serve_content : File → List Action
  pub cache_until : Text

module _ {S : Type 0} (w : ResponseWriter S) {File : Type 0} (disk : Disk File) where
  -- The file that is opened, with the header that it needs.
  unfoldable pub open_static : Bool → Text → S → S × Option File
  open_static accepts_gzip file s =
      if accepts_gzip
      then elim (disk.open_file (file ++ codes ".gz")) [
        | none ↦ (s, disk.open_file file)
        | some content ↦ (set_key w (codes "Content-Encoding") (codes "gzip") s, some content)
      ]
      else (s, disk.open_file file)

  unfoldable pub set_cache : CacheMode → S → S
  set_cache cache_disabled s = s
  set_cache cache_expire_max s =
      set_key w (codes "Expires") disk.cache_until
        (set_key w (codes "Cache-Control") (codes "public") s)

  unfoldable pub not_found_or : Option (Request → S → S) → Request → S → S
  not_found_or none r s = not_found w s
  not_found_or (some not_found_handler) r s = not_found_handler r s

  -- Once the name of the file is checked.
  unfoldable pub serve_file : CacheMode → Option (Request → S → S) → Text → Request → S → S
  serve_file cache not_found_handler file r s =
      let accepts_gzip = contains (header_get (codes "Accept-Encoding") r.header) (codes "gzip") in
      let (s1, content) = open_static accepts_gzip file s in
      elim content [
        | none ↦ not_found_or not_found_handler r s1
        | some f ↦ serve w (disk.serve_content f) (set_cache cache s1)
      ]

  -- `ServeExisting`; the log line is left out.
  unfoldable pub serve_existing :
      Text → Text → CacheMode → Option (Request → S → S) → Request → S → S
  serve_existing document_root prefix cache not_found_handler r s =
      let file = join_path document_root (strip prefix r.url.path) in
      if has_prefix file document_root
      then serve_file cache not_found_handler file r s
      else fail500 w s

  -- `DeployPage`, where `read_file` is `ioutil.ReadFile`.
  unfoldable pub deploy_page : (Text → Option Text) → Text → (Request → S → S) → Request → S → S
  deploy_page read_file document_root handler r s =
      elim (read_file (join_path document_root (codes "index.html"))) [
        | none ↦ handler r s
        | some content ↦
            let s1 = w.set_header (set_no_cache_headers (w.header s)) s in
            let s2 = set_key w content_type (codes "text/html; charset=utf-8") s1 in
            (w.write content (w.write_header 200 s2)).0
      ]
