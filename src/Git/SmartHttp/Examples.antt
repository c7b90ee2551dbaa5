-- ===== src/Git/SmartHttp/Examples.antt =====
-- A fetch that Gitaly answers in two pieces and then fails, and a push.

use gitlab_workhorse.Base.{◌≡◌, refl, [], ◌∷◌, ◌++◌, none, some, true, false, length}
use gitlab_workhorse.Base.Text.{codes, text_eq}
use gitlab_workhorse.Http.{new_response, server_writer}
use gitlab_workhorse.Api.Examples.{upload, answer}
use gitlab_workhorse.Helper.WriteAfterReader.{
  Io, eof, busy_reader_read, coupled_writer_write, tempfile_write,
}
use gitlab_workhorse.Helper.WriteAfterReader.Order.{reads, writes, run, all_sent}
use gitlab_workhorse.Git.SmartHttp.{
  Env, run_rpc, handle_upload_pack, handle_receive_pack, receive_pack_exchange,
  handle_receive_pack_locally, handle_receive_pack_with_gitaly,
}
use gitlab_workhorse.Git.SmartHttp.Pushed.{pushed_answer_is_whole}
use gitlab_workhorse.Git.SmartHttp.Answered.{IsAnswered, clients_get_what_was_written}

abbrev fine : Io
fine = record { create = true; temp_write = none; seek = true; copy = none; sink = none }

abbrev env : Env
env = record {
  query_service = λ query. query;
  base = λ path. codes "git-upload-pack";
  has_temp_file = true;
  has_client = true;
  info_refs = λ rpc options protocol. none;
  upload_pack = λ request options protocol. record {
    pieces = codes "NAK" ∷ codes "PACK" ∷ [];
    failed = true;
  };
  receive_pack = λ request protocol. record {
    calls = reads request none ∷ writes (codes "ok") fine ∷ reads [] (some eof) ∷ [];
    failed = false;
  };
  git_command = λ command request.
      some (reads request none ∷ writes (codes "ok") fine ∷ reads [] (some eof) ∷ []);
  last_flush = fine;
  client_takes = 0;
}

clients_get_what_was_written_example :
    let up = handle_upload_pack env upload answer in
    let receive = handle_receive_pack env upload answer in
    IsAnswered up.pieces up.failed new_response (run_rpc server_writer up new_response)
    × IsAnswered receive.pieces receive.failed new_response
        (run_rpc server_writer receive new_response)
clients_get_what_was_written_example =
    clients_get_what_was_written env upload answer new_response refl

pushed_answer_is_whole_example :
    let after = run_rpc server_writer (handle_receive_pack env upload answer) new_response in
    let written = all_sent (receive_pack_exchange env upload answer).calls in
    (after.rw.body ≡ new_response.body ++ written) × (after.count ≡ length written)
unfolding receive_pack_exchange handle_receive_pack_locally handle_receive_pack_with_gitaly text_eq
    run busy_reader_read coupled_writer_write tempfile_write
pushed_answer_is_whole_example =
    pushed_answer_is_whole env upload answer new_response refl (tt, (refl, (tt, tt))) refl refl refl
