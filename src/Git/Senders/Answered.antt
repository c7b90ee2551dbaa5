-- ===== src/Git/Senders/Answered.antt =====
-- What the client gets from the senders of internal/git.

use gitlab_workhorse.Base.{
  ℕ, ◌≡◌, [], ◌∷◌, ◌++◌, Option, none, some, Bool, true, false, not, if◌then◌else◌, arith,
}
use gitlab_workhorse.Base.Text.{Text, codes, text_eq, decimal}
use gitlab_workhorse.Http.{
  Header, header_set, Response, ResponseWriter, server_writer, fail500, content_type,
  content_length, content_type_options, plain_text, internal_server_error,
}
use gitlab_workhorse.Git.Senders.{
  responded, BlobStream, RangeParams, Env, copy, is_copied, set_size, inject_diff, inject_patch,
  send_raw, handle_send_diff_with_gitaly, handle_send_patch_with_gitaly,
}

-- The header with the size of the blob, if a message has brought it.
abbrev pub sized : Option ℕ → Header → Header
sized none h = h
sized (some size) h = header_set content_length (decimal size) h

-- The header of an error.
abbrev pub plain : Header → Header
plain h = header_set content_type_options (codes "nosniff") (header_set content_type plain_text h)

-- The status and header for some content and an error after it.
abbrev pub answered : Text → Bool → Header → Option (ℕ × Header)
answered [] false h = none
answered [] true h = some (500, plain h)
answered (c ∷ t) failed h = some (200, h)

abbrev pub error_text : Bool → Text
error_text false = []
error_text true = internal_server_error ++ b'\n' ∷ []

-- The answer with a blob: its content, and where it ends with an error the text of the error.
pub record IsBlobAnswer (stream : BlobStream) (before after : Response) : Type 0 where
  pub sent :
      after.sent
      ≡ answered stream.content.content stream.content.read_fails (sized stream.size before.header)
  pub body :
      after.body ≡ (before.body ++ stream.content.content) ++ error_text stream.content.read_fails

-- The answer from a stream of Gitaly, as a function.
blob_response : Env → BlobStream → Response → Response
blob_response env stream s =
    let s1 = copy server_writer env stream.content (set_size server_writer env stream.size s) in
    if not (is_copied server_writer env stream.content) then fail500 server_writer s1 else s1

module _ {S : Type 0} (w : ResponseWriter S) (env : Env) where
  -- With a client, a request for a diff or a patch that cannot be parsed is answered with an internal
  -- server error followed by what Gitaly sends for what the parser has left of it.
  unparsed_request_goes_on :
      (range : RangeParams) (s : S)
      → text_eq range.gitaly_address [] ≡ false
      → env.has_client range.gitaly_address ≡ true
      → env.parses range.raw_request ≡ false
      → (inject_diff w env (some range) s
          ≡ responded (send_raw w env (env.left_over range.raw_request) (fail500 w s)))
        × (inject_patch w env (some range) s
            ≡ responded (send_raw w env (env.left_over range.raw_request) (fail500 w s)))
  unfolding inject_diff inject_patch handle_send_diff_with_gitaly handle_send_patch_with_gitaly
  unparsed_request_goes_on range s remote client garbled =
      (ground (arith, remote, client, garbled), ground (arith, remote, client, garbled))
