-- ===== src/Artifacts/Examples.antt =====
-- An entry whose name has a quote.

use gitlab_workhorse.Base.{◌≡◌, [], ◌∷◌, ◌++◌, some, true, false}
use gitlab_workhorse.Base.Text.{Text, codes}
use gitlab_workhorse.Http.{new_response, server_writer, header_get}
use gitlab_workhorse.Artifacts.{Env, CatFile, success, send_file, disposition_header}
use gitlab_workhorse.Artifacts.Quoted.{read_quoted, sent_name_reads_back}

abbrev cat : CatFile
cat = record {
  starts = true;
  content_length = some (codes "2");
  body = record { content = codes "ok"; read_fails = false };
  status = success;
}

abbrev env : Env
env = record {
  decode_file_entry = λ s. some s;
  cat_file = λ archive entry. cat;
  base = λ path. path;
  type_by_extension = λ name. [];
  client_takes = 2;
}

abbrev quoted_name : Text
quoted_name = b'"' ∷ codes "; filename=b.txt"

sent_name_reads_back_example :
    let header = (send_file server_writer env quoted_name (codes "2") cat new_response).0.header in
    (quoted : Text) × (header_get disposition_header header
      ≡ codes "attachment; filename=" ++ b'"' ∷ quoted)
    × (read_quoted quoted ≡ some (quoted_name, []))
sent_name_reads_back_example = sent_name_reads_back env quoted_name (codes "2") cat new_response
