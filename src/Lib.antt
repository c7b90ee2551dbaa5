-- ===== src/Lib.antt =====
-- gitlab-workhorse: the smart reverse proxy in front of GitLab's Rails application.
--
-- The server routes a request (internal/upstream) through handlers that wrap one another: queueing
-- and long polling of CI job requests, uploads that are saved before Rails sees them, and response
-- writers that take over when Rails asks for a file, an archive or a Git object to be sent. Each
-- module below models one such part; paths are from the repository's root.
--
-- - Base: lists and Boolean tests over the native numbers, Go strings as lists of bytes (Base.Text)
--   and Go maps with string keys as association lists (Base.Dict).
-- - Queueing: internal/queueing. `Queue` is the struct with its two channels and the values of its
--   metrics; `advance` makes one step of the goroutine of a request (a channel operation with the
--   metrics that follow it), through `Acquire`, the handler and `Release`; Queueing.System runs any
--   number of requests in any order.
-- - KeyWatcher: internal/redis/keywatcher.go. The table of watched keys with its channels, the calls
--   of `WatchKey` as a state machine, and the message loop. What runs under the mutex is one step.
-- - Git.PktLine: internal/git/pktline.go. The splitter, and `scanDeepen` over a model of
--   bufio.Scanner; the loop has fuel for each byte and each piece of the body, which is enough.
-- - Helper.WriteAfterReader: internal/helper/writeafterreader.go. `Coupled` holds both halves; `Io`
--   says how the system calls of one operation turn out.
-- - Http: net/http as far as the handlers use it: headers, `ResponseWriter`, and `Response`, what the
--   server keeps of one answer. A handler is the sequence of calls (`Action`) that it makes.
-- - Response.Counting and Response.Stats: internal/helper/countingresponsewriter.go and
--   internal/helper/logging.go, writers that only observe.
-- - Response.Block: internal/api/block.go. Response.SendData: internal/senddata. Response.SendFile:
--   internal/sendfile/sendfile.go. Response.ErrorPages: internal/staticpages/error_pages.go. These
--   hold back the first `WriteHeader` and may write the answer themselves; the deferred `Flush` runs
--   at the end of `block`, `send_data`, `send_file` and `error_pages_unless`. Response.Clean is about
--   a header that no call sets.
-- - UrlPrefix: internal/urlprefix/urlprefix.go, with path.Clean on rooted paths.
-- - Upstream: internal/upstream/upstream.go and routes.go. A route's regular expression, matchers and
--   handler are functions. Upstream.Handlers is handlers.go and notfoundunless.go of that directory.
-- - Builds: internal/builds/register.go; the watch handler is a parameter, as it is in the code.
-- - ObjectStore.Multipart: internal/objectstore/multipart.go, and `extractETag` of uploader.go. The
--   goroutine of `NewMultipart` runs over all that is written to its pipe.
-- - Api: internal/api/api.go. `Backend` is what answers: the transport, the decoder, the signing. A
--   handler behind the API is a function of the request and the answer. Api.Settings is
--   internal/api/terminal_settings.go. Http.Message holds requests and responses.
-- - FileStore: internal/filestore. `Storage` is what files are written to; a reader is its bytes and
--   whether an error ends it. FileStore.Options is save_file_opts.go, FileStore.Body body_uploader.go;
--   FileStore.Limits puts ObjectStore.Multipart behind it.
-- - Lfs: internal/lfs/lfs.go, over Api and FileStore.
-- - Upload: internal/upload/rewrite.go, uploads.go and skip_rails_authorizer.go. The loop carries the
--   state of a `Processor` and the list of pieces written so far. Upload.Accelerate is accelerate.go,
--   Upload.Artifacts is internal/artifacts/artifacts_upload.go.
-- - Static: internal/staticpages/servefile.go and deploy_page.go, with filepath.Clean.
-- - SendUrl: internal/sendurl/sendurl.go, over the response writer that Response.SendData gives it.
-- - Terminal: internal/terminal. Terminal.Wrapper is wrappers.go, Terminal.Checker the loop of
--   auth_checker.go over the events that it receives, Terminal.Session the goroutines of proxy.go
--   around the channel `StopCh`, in any order of their steps.
-- - Git.Archive: internal/git/archive.go. The cache is a table of files by path; it is read as it is
--   when the request comes, and written as it is at the end. Git.Senders: blob.go, diff.go,
--   format-patch.go and snapshot.go of internal/git, with what internal/gitaly copies for them; a nil
--   client is a panic.
-- - Git.SmartHttp: internal/git/git-http.go, info-refs.go, upload-pack.go and receive-pack.go. What
--   Gitaly writes is a list of pieces, and whether an error ends it; for receive-pack it is a list of
--   calls on the reader and the writer of Helper.WriteAfterReader. What a goroutine does after its call
--   has returned is left out. Git.SmartHttp.Pushed composes the two.
-- - Artifacts: internal/artifacts/entry.go and escape_quotes.go.
-- - ZipArtifacts: internal/zipartifacts/metadata.go, before compression. The loop over the directories
--   of an entry has fuel for each byte of the path, which is enough.
--
-- Values that do not fit their Go type do not occur: lengths and counters are natural numbers, and a
-- sum of machine words that the program makes keeps its wrap-around. Text is a list of byte values.
-- Logging, Prometheus registration and the network are left out; what the program reads from outside
-- (a clock, a redis answer, a piece of a body) is an argument of the step that reads it.
--
-- Not modelled: the connections to Redis and to Gitaly, the reverse proxy to Rails and its round
-- tripper, configuration, logging and secrets, which set up libraries and start the server; the
-- programs of cmd; the upload of a single object, with its check of the ETag; the table of routes;
-- and the removal of temporary files when a request ends.
pub mod Base
pub mod Queueing
pub mod KeyWatcher
pub mod Git
pub mod Helper
pub mod Http
pub mod Response
pub mod UrlPrefix
pub mod Upstream
pub mod Builds
pub mod ObjectStore
pub mod Api
pub mod FileStore
pub mod Lfs
pub mod Upload
pub mod Static
pub mod SendUrl
pub mod Terminal
pub mod Artifacts
pub mod ZipArtifacts
