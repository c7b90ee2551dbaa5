-- ===== src/Response/SendFile.antt =====
-- internal/sendfile/sendfile.go: the header X-Sendfile of an answer names a file to send.
pub mod Takeover
pub mod Plain
mod Examples
use mathlib.Core.Option
use gitlab_workhorse.Base.{
  ℕ, ◌==◌, List, [], ◌∷◌, ◌++◌, Option, none, some, Bool, true, false, if◌then◌else◌,
}
use gitlab_workhorse.Base.Text.{Text, text_eq, codes}
use gitlab_workhorse.Http.{
  Header, header_get, ResponseWriter, buffering, del_key, set_key, Action, serve, http_error,
}

-- `sendFileResponseHeader`.
unfoldable pub send_file_response_header : Text
send_file_response_header = codes "X-Sendfile"

pub record SendFileResponseWriter (S : Type 0) : Type 0 where
  pub rw : S
  pub status : ℕ
  pub hijacked : Bool

-- `open_file` is `helper.OpenFile` on the disk, and `serve_content` what `http.ServeContent` does
-- with the response writer for an open file.
module _ {S : Type 0} (w : ResponseWriter S) {File : Type 0} (open_file : Text → Option File)
    (serve_content : File → List Action) where
  unfoldable pub send_file_from_disk : Text → S → S
  send_file_from_disk file rw = elim (open_file file) [
    | none ↦ http_error w (codes "404 page not found") 404 rw
    | some content ↦ serve w (serve_content content) rw
  ]

  unfoldable pub send_file_write_header : ℕ → SendFileResponseWriter S → SendFileResponseWriter S
  send_file_write_header status s =
      let file = header_get send_file_response_header (w.header s.rw) in
      let rw = set_key w buffering (codes "no") (del_key w send_file_response_header s.rw) in
      let forwarded = record s { status = status; rw = w.write_header status s.rw } in
      if s.status == 0
      then if status == 200
        then if text_eq file []
          then forwarded
          else record s { status = status; hijacked = true; rw = send_file_from_disk file rw }
        else forwarded
      else s

  unfoldable pub send_file_forward : Text → SendFileResponseWriter S → SendFileResponseWriter S × ℕ
  send_file_forward bytes s =
      if s.hijacked then (s, 0) else let (rw, n) = w.write bytes s.rw in (record s { rw = rw }, n)

  unfoldable pub send_file_write : Text → SendFileResponseWriter S → SendFileResponseWriter S × ℕ
  send_file_write bytes s =
      send_file_forward bytes (if s.status == 0 then send_file_write_header 200 s else s)

  abbrev pub send_file_writer : ResponseWriter (SendFileResponseWriter S)
  send_file_writer = record {
    header = λ s. w.header s.rw;
    set_header = λ h s. record s { rw = w.set_header h s.rw };
    write_header = send_file_write_header;
    write = send_file_write;
  }

  -- `SendFile(h)`: the handler, and then the deferred `Flush`.
  unfoldable pub send_file : List Action → S → SendFileResponseWriter S
  send_file h rw =
      let s : SendFileResponseWriter S = record { rw = rw; status = 0; hijacked = false } in
      send_file_write_header 200 (serve send_file_writer h s)
