-- ===== src/Response/ErrorPages.antt =====
-- internal/staticpages/error_pages.go: a page of the document root in place of an error.
pub mod Replaced
mod Examples
use mathlib.Core.Option
use gitlab_workhorse.Base.{
  ℕ, ◌==◌, leb, ◌&&◌, List, [], ◌∷◌, ◌++◌, Option, none, some, Bool, true, false, not,
  if◌then◌else◌, length,
}
use gitlab_workhorse.Base.Text.{Text, text_eq, codes, decimal}
use gitlab_workhorse.Http.{
  Header, header_get, header_set, header_del, ResponseWriter, content_type, content_length, set_key,
  Action, serve,
}

-- The canonical key of X-GitLab-Custom-Error.
unfoldable pub custom_error : Text
custom_error = codes "X-Gitlab-Custom-Error"

unfoldable pub json : Text
json = codes "application/json"

unfoldable pub html : Text
html = codes "text/html; charset=utf-8"

-- `helper.SetNoCacheHeaders`.
unfoldable pub set_no_cache_headers : Header → Header
set_no_cache_headers h = header_set (codes "Expires") (codes "Fri, 01 Jan 1990 00:00:00 GMT") (
    header_set (codes "Pragma") (codes "no-cache") (
      header_set (codes "Cache-Control") (codes "no-cache, no-store, max-age=0, must-revalidate")
        h))

pub record ErrorPageResponseWriter (S : Type 0) : Type 0 where
  pub rw : S
  pub status : ℕ
  pub hijacked : Bool
  pub path : Text

-- Does an answer ask for a page: an error, not said to be the backend's own, and not JSON?
unfoldable pub wants_page : ℕ → Header → Bool
wants_page status h =
    (leb 400 status && leb status 599)
    && (text_eq (header_get custom_error h) [] && not (text_eq (header_get content_type h) json))

unfoldable pub page_name : ℕ → Text
page_name status = decimal status ++ codes ".html"

unfoldable pub page_header : Text → Header → Header
page_header bytes h = header_del (codes "Transfer-Encoding") (
    header_set content_length (decimal (length bytes))
      (header_set content_type html (set_no_cache_headers h)))

-- `read_file` is the disk: what a file of a directory contains, if it can be read.
module _ {S : Type 0} (w : ResponseWriter S) (read_file : Text → Text → Option Text) where
  -- The page itself: its header, the status, and its bytes.
  unfoldable pub serve_page : ℕ → Text → ErrorPageResponseWriter S → ErrorPageResponseWriter S
  serve_page status bytes s =
      let with_header = w.set_header (page_header bytes (w.header s.rw)) s.rw in
      record s {
        status = status;
        hijacked = true;
        rw = (w.write bytes (w.write_header status with_header)).0;
      }

  unfoldable pub error_write_header : ℕ → ErrorPageResponseWriter S → ErrorPageResponseWriter S
  error_write_header status s =
      let forwarded = record s { status = status; rw = w.write_header status s.rw } in
      if s.status == 0
      then if wants_page status (w.header s.rw)
        then elim (read_file s.path (page_name status)) [
          | none ↦ forwarded
          | some bytes ↦ serve_page status bytes s
        ]
        else forwarded
      else s

  unfoldable pub error_forward : Text → ErrorPageResponseWriter S → ErrorPageResponseWriter S × ℕ
  error_forward bytes s =
      if s.hijacked then (s, 0) else let (rw, n) = w.write bytes s.rw in (record s { rw = rw }, n)

  unfoldable pub error_write : Text → ErrorPageResponseWriter S → ErrorPageResponseWriter S × ℕ
  error_write bytes s = error_forward bytes (if s.status == 0 then error_write_header 200 s else s)

  abbrev pub error_writer : ResponseWriter (ErrorPageResponseWriter S)
  error_writer = record {
    header = λ s. w.header s.rw;
    set_header = λ h s. record s { rw = w.set_header h s.rw };
    write_header = error_write_header;
    write = error_write;
  }

  -- `ErrorPagesUnless(disabled, handler)`, with the deferred `Flush`; the result is the response.
  unfoldable pub error_pages_unless : Bool → Text → List Action → S → S
  error_pages_unless disabled document_root h rw =
      let s : ErrorPageResponseWriter S = record {
        rw = rw;
        status = 0;
        hijacked = false;
        path = document_root;
      } in
      if disabled then serve w h rw else (error_write_header 200 (serve error_writer h s)).rw
