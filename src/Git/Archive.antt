-- ===== src/Git/Archive.antt =====
-- internal/git/archive.go: archives of repositories, with a cache of files.
pub mod Cached
mod Examples
use mathlib.Core.Option
use gitlab_workhorse.Base.{
  ℕ, ◌==◌, ◌&&◌, ◌||◌, leb, ltb, List, [], ◌∷◌, ◌++◌, Option, none, some, Bool, true, false, not,
  if◌then◌else◌, length, take,
}
use gitlab_workhorse.Base.Text.{Text, codes, text_eq, has_suffix}
use gitlab_workhorse.Base.Dict.{Dict, lookup, insert}
use gitlab_workhorse.Http.{
  ResponseWriter, Action, io_copy, serve, fail500, set_key, del_key, content_type, content_length,
}
use gitlab_workhorse.Http.Message.{Request}
use gitlab_workhorse.FileStore.{Reader}

pub record ArchiveParams : Type 0 where
  pub repo_path : Text
  pub archive_path : Text
  pub archive_prefix : Text
  pub commit_id : Text
  pub gitaly_address : Text
  pub disable_cache : Bool

-- `pb.GetArchiveRequest_Format`.
pub data Format : Type 0 where
  zip tar tar_gz tar_bz2 : Format

-- Do the letters after the last dots of a name make one of these endings?
unfoldable pub ends_with_any : List Text → Text → Bool
ends_with_any [] s = false
ends_with_any (e ∷ es) s = let rest = ends_with_any es s in if has_suffix s e then true else rest

unfoldable pub pattern_tar_gz : List Text
pattern_tar_gz = codes ".tar.gz" ∷ codes ".tgz" ∷ codes ".gz" ∷ []

unfoldable pub pattern_tar_bz2 : List Text
pattern_tar_bz2 = codes ".tar.bz2" ∷ codes ".tbz" ∷ codes ".tbz2" ∷ codes ".tb2" ∷ codes ".bz2" ∷ []

unfoldable pub parse_basename : Text → Option Format
parse_basename basename =
    if text_eq basename (codes "archive")
    then some tar_gz
    else if has_suffix basename (codes ".zip")
    then some zip
    else if has_suffix basename (codes ".tar")
    then some tar
    else if ends_with_any pattern_tar_gz basename
    then some tar_gz
    else if ends_with_any pattern_tar_bz2 basename
    then some tar_bz2
    else none

-- The environment of one request: `Unpack`, `filepath.Base`, `http.ServeContent`, whether a temporary
-- file can be made, the archive of Gitaly or of a git process (`none` is an error), how many bytes the
-- client takes, how many the disk takes, and whether closing and linking the file succeed.
pub record Env : Type 0 where
  pub unpack : Text → Option ArchiveParams
  pub base : Text → Text
  pub serve_content : Text → List Action
  pub temp_file : Bool
  pub archive_reader : ArchiveParams → Format → Option Reader
  pub client_takes : ℕ
  pub disk_takes : ℕ
  pub closes : Bool
  pub links : Bool

-- The files of the cache, by path.
abbrev pub Cache : Type 0
Cache = Dict Text

-- `finalizeCachedArchive`: a file that is there already stays.
unfoldable pub finalize_cached_archive : Env → Text → Text → Cache → Cache
finalize_cached_archive env content archive_path cache =
    if env.closes && env.links
    then elim (lookup archive_path cache) [
      | none ↦ insert archive_path content cache
      | some old ↦ cache
    ]
    else cache

module _ {S : Type 0} (w : ResponseWriter S) (env : Env) where
  unfoldable pub set_archive_headers : Format → Text → S → S
  set_archive_headers format archive_filename s =
      let s1 = del_key w content_length s in
      let s2 =
        set_key w (codes "Content-Disposition")
          (codes "attachment; filename=" ++ b'"' ∷ archive_filename ++ b'"' ∷ []) s1 in
      let zip_type : Text = elim format [
        | zip ↦ codes "application/zip"
        | tar ↦ codes "application/octet-stream"
        | tar_gz ↦ codes "application/octet-stream"
        | tar_bz2 ↦ codes "application/octet-stream"
      ] in
      let s3 = set_key w content_type zip_type s2 in
      let s4 = set_key w (codes "Content-Transfer-Encoding") (codes "binary") s3 in
      set_key w (codes "Cache-Control") (codes "private") s4

  -- What is copied: the archive, or with `io.TeeReader` the part that the temporary file takes; a write
  -- to the file that fails is an error of the reader.
  unfoldable pub tee : Bool → Reader → Reader
  tee false reader = reader
  tee true reader = record {
    content = take env.disk_takes reader.content;
    read_fails = reader.read_fails || ltb env.disk_takes (length reader.content);
  }

  -- The response from its header on.
  unfoldable pub stream : Format → Text → Reader → S → S
  stream format archive_filename reader s =
      let s1 = w.write_header 200 (set_archive_headers format archive_filename s) in
      io_copy w env.client_takes reader.content s1

  -- Does `io.Copy` end without an error?
  unfoldable pub is_copied : Reader → Bool
  is_copied reader = leb (length reader.content) env.client_takes && not reader.read_fails

  -- Once the archive is read, with the cache as it is at the end.
  unfoldable pub send_archive : ArchiveParams → Format → Reader → S → Cache → S × Cache
  send_archive params format reader s now =
      let cache_enabled = not params.disable_cache in
      let copied = tee cache_enabled reader in
      (
        stream format (env.base params.archive_path) copied s,
        if is_copied copied && cache_enabled
            then finalize_cached_archive env copied.content params.archive_path now
            else now,
      )

  -- From a miss of the cache on.
  unfoldable pub cache_miss : ArchiveParams → Format → S → Cache → S × Cache
  cache_miss params format s now =
      if not params.disable_cache && not env.temp_file
      then (fail500 w s, now)
      else elim (env.archive_reader params format) [
        | none ↦ (fail500 w s, now)
        | some reader ↦ send_archive params format reader s now
      ]

  -- What is in the cache for a request that may use it.
  unfoldable pub cached : ArchiveParams → Cache → Option Text
  cached params before = if params.disable_cache then none else lookup params.archive_path before

  -- `Inject`: the cache is read as it is at the start, and written as it is at the end, when other
  -- requests may have changed it. The temporary file is gone at the end.
  unfoldable pub inject : Request → Text → S → Cache → Cache → S × Cache
  inject r send_data s before now = elim (env.unpack send_data) [
    | none ↦ (fail500 w s, now)
    | some params ↦ elim (parse_basename (env.base r.url.path)) [
      | none ↦ (fail500 w s, now)
      | some format ↦ elim (cached params before) [
        | some content ↦ (
          serve w (env.serve_content content)
              (set_archive_headers format (env.base params.archive_path) s),
          now,
        )
        | none ↦ cache_miss params format s now
      ]
    ]
  ]
