-- ===== src/Git/Archive/Examples.antt =====
-- An archive that is not in the cache yet.

use gitlab_workhorse.Base.{◌≡◌, ◌⊎◌, [], ◌∷◌, some, true, false}
use gitlab_workhorse.Base.Text.{codes}
use gitlab_workhorse.Http.{new_response, server_writer, fail500, write}
use gitlab_workhorse.Api.Examples.{upload}
use gitlab_workhorse.Git.Archive.{Env, inject}
use gitlab_workhorse.Git.Archive.Cached.{IsHit, IsMade, only_complete_archives_are_cached}

abbrev env : Env
env = record {
  unpack = λ s. some (record {
    repo_path = codes "/a.git";
    archive_path = s;
    archive_prefix = codes "a";
    commit_id = codes "f00";
    gitaly_address = [];
    disable_cache = false;
  });
  base = λ path. codes "archive.zip";
  serve_content = λ content. write content ∷ [];
  temp_file = true;
  archive_reader = λ params format. some (record { content = codes "PK"; read_fails = false });
  client_takes = 2;
  disk_takes = 2;
  closes = true;
  links = true;
}

only_complete_archives_are_cached_example :
    let after = inject server_writer env upload (codes "/cache/a.zip") new_response [] [] in
    IsHit server_writer env upload (codes "/cache/a.zip") new_response [] [] after
    ⊎ IsMade server_writer env upload (codes "/cache/a.zip") new_response [] after
    ⊎ (after ≡ (fail500 server_writer new_response, []))
only_complete_archives_are_cached_example =
    only_complete_archives_are_cached server_writer env upload (codes "/cache/a.zip") new_response
      [] []
