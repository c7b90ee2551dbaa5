-- ===== src/Git/Senders/Examples.antt =====
-- A blob of which Gitaly sends a part and then an error.

use gitlab_workhorse.Base.{[], none, some, true, false}
use gitlab_workhorse.Base.Text.{codes}
use gitlab_workhorse.Git.Senders.{Process, BlobParams, BlobStream, Env}

abbrev process : Process
process = record {
  pipe = true;
  starts = true;
  stdout = record { content = codes "diff"; read_fails = false };
}

abbrev env : Env
env = record {
  client_takes = 100;
  has_client = λ address. true;
  get_blob =
      some
        (record { size = some 9; content = record { content = codes "text"; read_fails = true } });
  parses = λ request. true;
  left_over = λ request. [];
  raw = λ request. none;
  blob_size = λ params. some (codes "4");
  show_blob = λ params. process;
  range = λ params. process;
}

abbrev blob : BlobParams
blob = record {
  repo_path = codes "/a.git";
  blob_id = codes "f00";
  gitaly_address = codes "unix:/gitaly";
}

abbrev stream : BlobStream
stream = record { size = some 9; content = record { content = codes "text"; read_fails = true } }
