-- ===== src/Response/SendFile/Takeover.antt =====
-- Who writes the response of internal/sendfile/sendfile.go.

use gitlab_workhorse.Base.{
  ◌≡◌, refl, ap, ◌∙◌, ◌≢◌, List, [], ◌∷◌, Option, none, some, true, false, arith,
}
use gitlab_workhorse.Base.Text.{Text, text_eq_iff, codes}
use gitlab_workhorse.Http.{SameAnswer}
use gitlab_workhorse.Http.{
  header_get, Response, server_writer, buffering, Action, set_header, del_header, write_header,
  write, act, serve, http_error,
}
use gitlab_workhorse.Response.SendFile.{
  send_file_response_header, SendFileResponseWriter, send_file_from_disk, send_file_write_header,
  send_file_forward, send_file_write, send_file_writer, send_file,
}

module _ {File : Type 0} (open_file : Text → Option File) (serve_content : File → List Action) where
  abbrev writer_of : Action → SendFileResponseWriter Response → SendFileResponseWriter Response
  writer_of a s = act (send_file_writer server_writer open_file serve_content) a s

  -- After a file has been sent, the backend's calls reach the client no more.
  act_frozen :
      (a : Action) (s : SendFileResponseWriter Response)
      → s.hijacked ≡ true
      → s.status ≢ 0
      → let s' = writer_of a s in (s'.hijacked ≡ true) × (s'.status ≢ 0) × SameAnswer s'.rw s.rw
  unfolding send_file_write_header send_file_write send_file_forward
  act_frozen (set_header k v) s stopped old = (stopped, old, (refl, refl))
  act_frozen (del_header k) s stopped old = (stopped, old, (refl, refl))
  act_frozen (write_header n) s stopped old =
      (ground arith, ground arith, (ground arith, ground arith))
  act_frozen (write t) s stopped old = (ground arith, ground arith, (ground arith, ground arith))

  serve_frozen :
      (h : List Action) (s : SendFileResponseWriter Response)
      → s.hijacked ≡ true
      → s.status ≢ 0
      → SameAnswer
          (writer_of
            (write_header 200)
            (serve (send_file_writer server_writer open_file serve_content) h s)).rw
          s.rw
  unfolding serve
  serve_frozen [] s stopped old =
      let (stopped1, old1, received) = act_frozen (write_header 200) s stopped old in received
  serve_frozen (a ∷ h) s stopped old =
      let (stopped1, old1, (sent, body)) = act_frozen a s stopped old in
      let (sent2, body2) = serve_frozen h _ stopped1 old1 in (sent2 ∙ sent, body2 ∙ body)

  starts :
      (r : Response) (file : Text)
      → header_get send_file_response_header r.header ≡ file
      → file ≢ []
      → let s : SendFileResponseWriter Response = record { rw = r; status = 0; hijacked = false } in
        send_file_write_header server_writer open_file serve_content 200 s ≡ record s {
          rw = send_file_from_disk server_writer open_file serve_content file (
              serve server_writer
                (del_header send_file_response_header ∷ set_header buffering (codes "no") ∷ [])
                r);
          status = 200;
          hijacked = true;
        }
  unfolding send_file_write_header serve
  starts r file get some_file = ground (arith, get, text_eq_iff file [])

  -- Let the backend's header name a file in X-Sendfile. If the backend starts with status 200, then
  -- whatever it does next, the client receives what is served for the file, or the 404 if it does
  -- not open, on the server's own response, with the key deleted and the buffering off.
  pub send_file_takes_over :
      (h : List Action) (r : Response) (file : Text)
      → header_get send_file_response_header r.header ≡ file
      → file ≢ []
      → let s = send_file server_writer open_file serve_content (write_header 200 ∷ h) r in
        let r1 =
          serve server_writer
            (del_header send_file_response_header ∷ set_header buffering (codes "no") ∷ [])
            r in
        let alone : Response = elim (open_file file) [
          | none ↦ http_error server_writer (codes "404 page not found") 404 r1
          | some content ↦ serve server_writer (serve_content content) r1
        ] in
        (s.rw.sent ≡ alone.sent) × (s.rw.body ≡ alone.body)
  unfolding send_file serve send_file_from_disk
  send_file_takes_over h r file get some_file =
      let begun = starts r file get some_file in
      let s0 : SendFileResponseWriter Response = record { rw = r; status = 0; hijacked = false } in
      let s1 = send_file_write_header server_writer open_file serve_content 200 s0 in
      let (sent, body) = serve_frozen h s1 (ap (λ s. s.hijacked) begun) (ground (arith, begun)) in
      (sent ∙ ap (λ s. s.rw.sent) begun, body ∙ ap (λ s. s.rw.body) begun)
