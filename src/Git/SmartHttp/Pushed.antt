-- ===== src/Git/SmartHttp/Pushed.antt =====
-- What the client of receive-pack gets through the coupled writer.
use gitlab_workhorse.Base.{◌≡◌, refl, ap, ◌∙◌, [], ◌∷◌, ◌++◌, none, true, length, append-nil, All}
use gitlab_workhorse.Base.Text.{Text}
use gitlab_workhorse.Http.{Response, server_writer}
use gitlab_workhorse.Http.Message.{Request}
use gitlab_workhorse.Api.{ApiResponse}
use gitlab_workhorse.Helper.WriteAfterReader.{new_write_after_reader}
use gitlab_workhorse.Helper.WriteAfterReader.Order.{SinkWorks, run, all_sent, last_flush}
use gitlab_workhorse.Git.SmartHttp.{
  Env, run_rpc, as_pieces, receive_pack_exchange, handle_receive_pack,
}
use gitlab_workhorse.Git.SmartHttp.Answered.{concat, clients_get_what_was_written}

concat-as_pieces : (t : Text) → concat (as_pieces t) ≡ t
concat-as_pieces [] = refl
concat-as_pieces (c ∷ t) = append-nil (c ∷ t)

-- Let nothing have been sent. If in what Gitaly, or the process, does with the coupled reader and
-- writer the client takes all it is given and no `Flush` fails, if no error of the temporary file is
-- kept, and if the seek and the copy of the last `Flush` succeed, then the client of an authorized
-- receive-pack request gets exactly what was written to the coupled writer, in order, whenever the
-- request was read in between; and that is the count that is logged.
pub pushed_answer_is_whole :
    (env : Env) (r : Request) (a : ApiResponse) (s : Response)
    → s.sent ≡ none
    → All SinkWorks (receive_pack_exchange env r a).calls
    → (run new_write_after_reader (receive_pack_exchange env r a).calls).write_error ≡ none
    → env.last_flush.seek ≡ true
    → env.last_flush.copy ≡ none
    → let after = run_rpc server_writer (handle_receive_pack env r a) s in
      let written = all_sent (receive_pack_exchange env r a).calls in
      (after.rw.body ≡ s.body ++ written) × (after.count ≡ length written)
unfolding handle_receive_pack
pushed_answer_is_whole env r a s fresh works fine seek copy =
    let answered = (clients_get_what_was_written env r a s fresh).1 in
    let calls = (receive_pack_exchange env r a).calls in
    let whole : concat (handle_receive_pack env r a).pieces ≡ all_sent calls =
      concat-as_pieces _ ∙ last_flush calls env.last_flush works fine seek copy in
    (answered.body ∙ ap (λ t. s.body ++ t) whole, answered.counted ∙ ap length whole)
