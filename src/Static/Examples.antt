-- ===== src/Static/Examples.antt =====
-- A document root with one file.

use gitlab_workhorse.Base.{[], ◌∷◌, none, some, if◌then◌else◌}
use gitlab_workhorse.Base.Text.{Text, codes, text_eq}
use gitlab_workhorse.Http.{write}
use gitlab_workhorse.Http.Message.{Request}
use gitlab_workhorse.Api.Examples.{upload}
use gitlab_workhorse.Static.{Disk}

abbrev disk : Disk Text
disk = record {
  open_file =
      λ name. if text_eq name (codes "/public/robots.txt") then some (codes "none") else none;
  serve_content = λ file. write file ∷ [];
  cache_until = codes "tomorrow";
}

abbrev robots : Request
robots = record upload {
  url = record { scheme = []; host = []; path = codes "/gitlab/../robots.txt"; raw_query = [] };
}
