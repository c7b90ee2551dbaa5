-- ===== src/Git/Archive/Cached.antt =====
-- What internal/git/archive.go puts into its cache.

use mathlib.Core.Path.{subst⁻¹}
use gitlab_workhorse.Base.{
  ◌≡◌, ◌⊎◌, inl, inr, refl, none, some, false, not, ◌&&◌, take, take_all, arith, Bool-cases,
  Option-cases,
}
use gitlab_workhorse.Base.Text.{Text}
use gitlab_workhorse.Base.Dict.{lookup, insert}
use gitlab_workhorse.Http.{ResponseWriter, fail500, serve}
use gitlab_workhorse.Http.Message.{Request}
use gitlab_workhorse.FileStore.{Reader}
use gitlab_workhorse.Git.Archive.{
  ArchiveParams, Format, Env, Cache, parse_basename, finalize_cached_archive, set_archive_headers,
  tee, stream, is_copied, send_archive, cache_miss, cached, inject,
}

-- A request for an archive that Rails has named.
pub record IsAsked (env : Env) (r : Request) (send_data : Text) : Type 0 where
  pub params : ArchiveParams
  pub format : Format
  pub unpacked : env.unpack send_data ≡ some params
  pub known : parse_basename (env.base r.url.path) ≡ some format

-- An archive was read to the end, written to the disk and sent whole, and put into the cache, in which
-- it was missing.
pub record IsNewlyCached (env : Env) {r : Request} {send_data : Text} (q : IsAsked env r send_data)
    (now after : Cache) : Type 0 where
  pub enabled : q.params.disable_cache ≡ false
  pub reader : Reader
  pub made : env.archive_reader q.params q.format ≡ some reader
  pub complete : reader.read_fails ≡ false
  pub on_disk : take env.disk_takes reader.content ≡ reader.content
  pub taken : take env.client_takes reader.content ≡ reader.content
  pub missing : lookup q.params.archive_path now ≡ none
  pub stored : after ≡ insert q.params.archive_path reader.content now

send_archive-cache :
    {S : Type 0} (w : ResponseWriter S) (env : Env) (r : Request) (send_data : Text)
    → (q : IsAsked env r send_data) (reader : Reader) (s : S) (now : Cache)
    → env.archive_reader q.params q.format ≡ some reader
    → let after = (send_archive w env q.params q.format reader s now).1 in
      (after ≡ now) ⊎ IsNewlyCached env q now after
unfolding send_archive tee is_copied finalize_cached_archive
send_archive-cache w env r send_data q reader s now made =
    let enabled = not q.params.disable_cache in
    let kept_whole = take_all env.disk_takes reader.content in
    elim (Bool-cases (is_copied w env (tee w env enabled reader) && enabled)) [
      | inr kept ↦ inl (ground (arith, kept))
      | inl full ↦ elim (Bool-cases (env.closes && env.links)) [
        | inr failed ↦ inl (ground (arith, full, failed))
        | inl linked ↦ elim (Option-cases (lookup q.params.archive_path now)) [
          | inr (old, there) ↦ inl (ground (arith, full, linked, there))
          | inl missing ↦ inr (record {
            enabled = ground (arith, full);
            reader = reader;
            made = made;
            complete = ground (arith, full);
            on_disk = kept_whole (ground (arith, full));
            taken =
                take_all env.client_takes reader.content
                  (ground (arith, full, kept_whole (ground (arith, full))));
            missing = missing;
            stored = ground (arith, full, linked, missing, kept_whole (ground (arith, full)));
          })
        ]
      ]
    ]

-- The cache had the archive at the start.
pub record IsHit {S : Type 0} (w : ResponseWriter S) (env : Env) (r : Request) (send_data : Text)
    (s : S) (before now : Cache) (after : S × Cache) : Type 0 where
  pub asked : IsAsked env r send_data
  pub enabled : asked.params.disable_cache ≡ false
  pub content : Text
  pub found : lookup asked.params.archive_path before ≡ some content
  pub served :
      after.0
      ≡ serve w
          (env.serve_content content)
          (set_archive_headers w env asked.format (env.base asked.params.archive_path) s)
  pub kept : after.1 ≡ now

-- An archive was made; what is sent of it ends where the temporary file, or the client, takes no more.
-- It was put into the cache only if it was complete.
pub record IsMade {S : Type 0} (w : ResponseWriter S) (env : Env) (r : Request) (send_data : Text)
    (s : S) (now : Cache) (after : S × Cache) : Type 0 where
  pub asked : IsAsked env r send_data
  pub reader : Reader
  pub made : env.archive_reader asked.params asked.format ≡ some reader
  pub streamed :
      after.0
      ≡ stream w env asked.format
          (env.base asked.params.archive_path)
          (tee w env (not asked.params.disable_cache) reader)
          s
  pub cache : (after.1 ≡ now) ⊎ IsNewlyCached env asked now after.1

-- The answer to a request for an archive comes from the cache as it was at the start, or is the
-- archive that was made for the request, up to the byte where a write to the temporary file fails if
-- it may be cached, or is an internal server error. The cache stays as it is, but for one archive: it
-- is read to the end, written to the disk and sent whole, and the cache lacked it.
pub only_complete_archives_are_cached :
    {S : Type 0} (w : ResponseWriter S) (env : Env) (r : Request) (send_data : Text) (s : S)
    → (before now : Cache)
    → let after = inject w env r send_data s before now in
      IsHit w env r send_data s before now after
      ⊎ IsMade w env r send_data s now after
      ⊎ (after ≡ (fail500 w s, now))
unfolding inject cached cache_miss send_archive
only_complete_archives_are_cached w env r send_data s before now =
    elim (Option-cases (env.unpack send_data)) [
      | inl garbled ↦ inr (inr (ground (arith, garbled)))
      | inr (params, unpacked) ↦ elim (Option-cases (parse_basename (env.base r.url.path))) [
        | inl unknown ↦ inr (inr (ground (arith, unpacked, unknown)))
        | inr (format, known) ↦
            let q : IsAsked env r send_data = record {
              params = params;
              format = format;
              unpacked = unpacked;
              known = known;
            } in
            elim (Option-cases (cached w env params before)) [
              | inr (content, hit) ↦ inl (record {
                asked = q;
                enabled = ground (arith, hit);
                content = content;
                found = ground (arith, hit);
                served = ground (arith, unpacked, known, hit);
                kept = ground (arith, unpacked, known, hit);
              })
              | inl miss ↦ elim (Bool-cases (not params.disable_cache && not env.temp_file)) [
                | inl no_file ↦ inr (inr (ground (arith, unpacked, known, miss, no_file)))
                | inr ready ↦ elim (Option-cases (env.archive_reader params format)) [
                  | inl failed ↦ inr (inr (ground (arith, unpacked, known, miss, ready, failed)))
                  | inr (reader, made) ↦
                      let same : inject w env r send_data s before now
                          ≡ send_archive w env params format reader s now =
                        ground (arith, unpacked, known, miss, ready, made) in
                      inr (
                        inl (
                          subst⁻¹ (IsMade w env r send_data s now) same (record {
                            asked = q;
                            reader = reader;
                            made = made;
                            streamed = refl;
                            cache = send_archive-cache w env r send_data q reader s now made;
                          })))
                ]
              ]
            ]
      ]
    ]
