-- ===== src/Http.antt =====
-- What the program uses of Go's net/http: headers, and the response writer that the server hands to
-- a handler, with what its client receives.
pub mod Message
use gitlab_workhorse.Base.{
  arith, ap, ℕ, ◌+◌, ◌≡◌, List, [], ◌∷◌, ◌++◌, Option, none, some, length, take,
}
use gitlab_workhorse.Base.Text.{Text, codes}
use gitlab_workhorse.Base.Dict.{Dict, lookup, insert, delete}

-- `http.Header`, by canonical keys.
abbrev pub Header : Type 0
Header = Dict (List Text)

abbrev first_value : Option (List Text) → Text
first_value none = []
first_value (some []) = []
first_value (some (v ∷ vs)) = v

abbrev pub header_get : Text → Header → Text
header_get k h = first_value (lookup k h)

abbrev pub header_set : Text → Text → Header → Header
header_set k v h = insert k (v ∷ []) h

abbrev pub header_del : Text → Header → Header
header_del k h = delete k h

-- The names of headers; shut, so that proofs compare them and not their letters.
unfoldable pub content_type : Text
content_type = codes "Content-Type"

unfoldable pub content_length : Text
content_length = codes "Content-Length"

unfoldable pub content_type_options : Text
content_type_options = codes "X-Content-Type-Options"

-- `NginxResponseBufferHeader`.
unfoldable pub buffering : Text
buffering = codes "X-Accel-Buffering"

unfoldable pub plain_text : Text
plain_text = codes "text/plain; charset=utf-8"

unfoldable pub internal_server_error : Text
internal_server_error = codes "Internal server error"

-- The interface `http.ResponseWriter` over a state: `Header()` to read and to change, `WriteHeader`,
-- and `Write`, which returns the number of bytes written.
pub record ResponseWriter (S : Type 0) : Type 0 where
  pub header : S → Header
  pub set_header : Header → S → S
  pub write_header : ℕ → S → S
  pub write : Text → S → S × ℕ

-- The response of one request: the header that can still change, the status and header that the
-- client has received, and the body; `header_calls` counts the calls of `WriteHeader`.
pub record Response : Type 0 where
  pub header : Header
  pub sent : Option (ℕ × Header)
  pub body : Text
  pub header_calls : ℕ

abbrev pub new_response : Response
new_response = record { header = []; sent = none; body = []; header_calls = 0 }

-- Only the first `WriteHeader` counts.
unfoldable pub commit : ℕ → Response → Response
commit status r = elim r.sent [ none ↦ record r { sent = some (status, r.header) } | some x ↦ r ]

unfoldable pub server_write_header : ℕ → Response → Response
server_write_header status r =
    let r' = commit status r in record r' { header_calls = r'.header_calls + 1 }

-- `Write` sends the header with status 200 if it has not been sent.
unfoldable pub server_write : Text → Response → Response × ℕ
server_write s r = let r' = commit 200 r in (record r' { body = r'.body ++ s }, length s)

abbrev pub server_writer : ResponseWriter Response
server_writer = record {
  header = λ r. r.header;
  set_header = λ h r. record r { header = h };
  write_header = server_write_header;
  write = server_write;
}

-- What a handler does with its response writer.
pub data Action : Type 0 where
  set_header : Text → Text → Action
  del_header : Text → Action
  write_header : ℕ → Action
  write : Text → Action

module _ {S : Type 0} (w : ResponseWriter S) where
  abbrev pub set_key : Text → Text → S → S
  set_key k v s = w.set_header (header_set k v (w.header s)) s

  abbrev pub del_key : Text → S → S
  del_key k s = w.set_header (header_del k (w.header s)) s

  -- `http.Error`.
  unfoldable pub http_error : Text → ℕ → S → S
  http_error text status s =
      let s1 = set_key content_type_options (codes "nosniff") (set_key content_type plain_text s) in
      (w.write (text ++ b'\n' ∷ []) (w.write_header status s1)).0

  abbrev pub act : Action → S → S
  act (set_header k v) s = set_key k v s
  act (del_header k) s = del_key k s
  act (write_header n) s = w.write_header n s
  act (write t) s = (w.write t s).0

  -- `io.Copy` to the writer: bytes of which the client takes so many, and no call if there are none.
  unfoldable pub io_copy : ℕ → Text → S → S
  io_copy client_takes [] s = s
  io_copy client_takes (c ∷ cs) s = (w.write (take client_takes (c ∷ cs)) s).0

  -- A handler that makes these calls.
  unfoldable pub serve : List Action → S → S
  serve [] s = s
  serve (a ∷ as') s = serve as' (act a s)

  -- `helper.Fail500`; the report and the log line are left out.
  unfoldable pub fail500 : S → S
  fail500 s = http_error internal_server_error 500 s

-- The client has received the same.
abbrev pub SameAnswer : Response → Response → Type 0
SameAnswer a b = (a.sent ≡ b.sent) × (a.body ≡ b.body)

-- The same header, the same status and header sent, and the same body.
pub record Same (a b : Response) : Type 0 where
  pub header : a.header ≡ b.header
  pub sent : a.sent ≡ b.sent
  pub body : a.body ≡ b.body

pub commit-Same : (n : ℕ) (a b : Response) → Same a b → Same (commit n a) (commit n b)
unfolding commit
commit-Same n a b e = record {
  header = ground (arith, e.header);
  sent = ground (arith, e.sent, e.header);
  body = ground (arith, e.body);
}

pub act-Same :
    (a : Action) (x y : Response) → Same x y → Same (act server_writer a x) (act server_writer a y)
unfolding server_write_header server_write
act-Same (set_header k v) x y e = record {
  header = ground (arith, e.header);
  sent = e.sent;
  body = e.body;
}
act-Same (del_header k) x y e = record {
  header = ground (arith, e.header);
  sent = e.sent;
  body = e.body;
}
act-Same (write_header n) x y e =
    let same = commit-Same n x y e in
    record { header = same.header; sent = same.sent; body = same.body }
act-Same (write t) x y e =
    let same = commit-Same 200 x y e in
    record { header = same.header; sent = same.sent; body = ap (λ u. u ++ t) same.body }

pub serve-Same :
    (h : List Action) (x y : Response)
    → Same x y
    → Same (serve server_writer h x) (serve server_writer h y)
unfolding serve
serve-Same [] x y e = e
serve-Same (a ∷ h) x y e = serve-Same h _ _ (act-Same a x y e)
