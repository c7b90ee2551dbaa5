-- ===== src/Response/ErrorPages/Replaced.antt =====
-- What the client gets behind internal/staticpages/error_pages.go.

use gitlab_workhorse.Base.{
  ℕ, ◌≡◌, refl, ◌∙◌, ◌≢◌, List, [], ◌∷◌, ◌++◌, Option, none, some, true, false, arith, All,
}
use gitlab_workhorse.Base.Text.{Text}
use gitlab_workhorse.Http.{SameAnswer}
use gitlab_workhorse.Http.{
  Header, Response, server_writer, server_write_header, server_write, commit, Action, set_header,
  del_header, write_header, write, act, serve, Same,
}
use gitlab_workhorse.Response.ErrorPages.{
  ErrorPageResponseWriter, wants_page, page_name, page_header, serve_page, error_write_header,
  error_forward, error_write, error_writer, error_pages_unless,
}

-- Calls of `WriteHeader` choose no status that has a page.
abbrev pub NoPage : (Text → Text → Option Text) → Text → List Action → Type 0
NoPage read_file path = All (λ a.
    (n : ℕ) (h : Header)
    → a ≡ write_header n
    → wants_page n h ≡ true
    → read_file path (page_name n) ≡ none)

module _ (read_file : Text → Text → Option Text) (document_root : Text) where
  -- The writer agrees with a response that is written directly.
  record Sim (s : ErrorPageResponseWriter Response) (r : Response) : Type 0 where
    same : Same s.rw r
    committed : s.status ≢ 0 → s.rw.sent ≢ none
    not_hijacked : s.hijacked ≡ false
    rooted : s.path ≡ document_root

  error_write_header-Sim :
      (n : ℕ) (s : ErrorPageResponseWriter Response) (r : Response)
      → (wants_page n s.rw.header ≡ true → read_file document_root (page_name n) ≡ none)
      → Sim s r
      → Sim (error_write_header server_writer read_file n s) (server_write_header n r)
  unfolding error_write_header server_write_header commit
  error_write_header-Sim n s r missing sim = record {
    same = record {
      header = ground (arith, sim.same.header, missing, sim.rooted);
      sent = ground (arith, sim.same.sent, sim.same.header, sim.committed, missing, sim.rooted);
      body = ground (arith, sim.same.body, missing, sim.rooted);
    };
    committed = λ e. ground (arith, sim.committed, missing, sim.rooted);
    not_hijacked = ground (arith, sim.not_hijacked, missing, sim.rooted);
    rooted = ground (arith, sim.rooted, missing);
  }

  ok_wants_nothing : (h : Header) → wants_page 200 h ≡ false
  unfolding wants_page
  ok_wants_nothing h = refl

  -- A `Write` before any `WriteHeader` is a success.
  error_write_header_200 :
      (s : ErrorPageResponseWriter Response)
      → s.status ≡ 0
      → error_write_header server_writer read_file 200 s
        ≡ record s { status = 200; rw = server_write_header 200 s.rw }
  unfolding error_write_header
  error_write_header_200 s new = ground (arith, new, ok_wants_nothing s.rw.header)

  error_write-Sim :
      (t : Text) (s : ErrorPageResponseWriter Response) (r : Response)
      → Sim s r
      → Sim (error_write server_writer read_file t s).0 (server_write t r).0
  unfolding error_write error_forward server_write server_write_header commit
  error_write-Sim t s r sim =
      let begun = error_write_header_200 s in
      let open_ = sim.not_hijacked in
      record {
        same = record {
          header = ground (arith, sim.same.header, begun, open_);
          sent = ground (arith, sim.same.sent, sim.same.header, sim.committed, begun, open_);
          body = ground (arith, sim.same.body, begun, open_);
        };
        committed = λ e. ground (arith, sim.committed, begun, open_);
        not_hijacked = ground (arith, open_, begun);
        rooted = ground (arith, open_, begun, sim.rooted);
      }

  abbrev error_act : Action → ErrorPageResponseWriter Response → ErrorPageResponseWriter Response
  error_act a s = act (error_writer server_writer read_file) a s

  act-Sim :
      (a : Action) (s : ErrorPageResponseWriter Response) (r : Response)
      → ((n : ℕ) (h : Header)
          → a ≡ write_header n
          → wants_page n h ≡ true
          → read_file document_root (page_name n) ≡ none)
      → Sim s r
      → Sim (error_act a s) (act server_writer a r)
  act-Sim (set_header k v) s r missing sim = record {
    same = record {
      header = ground (arith, sim.same.header);
      sent = sim.same.sent;
      body = sim.same.body;
    };
    committed = sim.committed;
    not_hijacked = sim.not_hijacked;
    rooted = sim.rooted;
  }
  act-Sim (del_header k) s r missing sim = record {
    same = record {
      header = ground (arith, sim.same.header);
      sent = sim.same.sent;
      body = sim.same.body;
    };
    committed = sim.committed;
    not_hijacked = sim.not_hijacked;
    rooted = sim.rooted;
  }
  act-Sim (write_header n) s r missing sim =
      error_write_header-Sim n s r (missing n s.rw.header refl) sim
  act-Sim (write t) s r missing sim = error_write-Sim t s r sim

  serve-Sim :
      (h : List Action) (s : ErrorPageResponseWriter Response) (r : Response)
      → NoPage read_file document_root h
      → Sim s r
      → Sim (serve (error_writer server_writer read_file) h s) (serve server_writer h r)
  unfolding serve
  serve-Sim [] s r missing sim = sim
  serve-Sim (a ∷ h) s r missing sim = serve-Sim h _ _ missing.1 (act-Sim a s r missing.0 sim)

  -- If the document root has no page for a status that the handler chooses, then the client
  -- receives, and the header is, what the handler alone makes of the response, with the status 200
  -- when it chooses none.
  pub errors_without_page :
      (h : List Action) (r : Response)
      → NoPage read_file document_root h
      → Same
          (error_pages_unless server_writer read_file false document_root h r)
          (server_write_header 200 (serve server_writer h r))
  unfolding error_pages_unless
  errors_without_page h r missing =
      let s : ErrorPageResponseWriter Response = record {
        rw = r;
        status = 0;
        hijacked = false;
        path = document_root;
      } in
      let start : Sim s r = record {
        same = record { header = refl; sent = refl; body = refl };
        committed = λ e. absurd (e refl);
        not_hijacked = refl;
        rooted = refl;
      } in
      let s1 = serve (error_writer server_writer read_file) h s in
      (error_write_header-Sim 200 s1 _
        (λ e. absurd (ground (arith, e, ok_wants_nothing s1.rw.header)))
        (serve-Sim h s r missing start)).same

  -- After a page has been sent, the handler's calls reach the client no more.
  act_frozen :
      (a : Action) (s : ErrorPageResponseWriter Response)
      → s.hijacked ≡ true
      → s.status ≢ 0
      → let s' = error_act a s in (s'.hijacked ≡ true) × (s'.status ≢ 0) × SameAnswer s'.rw s.rw
  unfolding error_write_header error_write error_forward
  act_frozen (set_header k v) s stopped old = (stopped, old, (refl, refl))
  act_frozen (del_header k) s stopped old = (stopped, old, (refl, refl))
  act_frozen (write_header n) s stopped old =
      (ground arith, ground arith, (ground arith, ground arith))
  act_frozen (write t) s stopped old = (ground arith, ground arith, (ground arith, ground arith))

  serve_frozen :
      (h : List Action) (s : ErrorPageResponseWriter Response)
      → s.hijacked ≡ true
      → s.status ≢ 0
      → SameAnswer
          (error_act (write_header 200) (serve (error_writer server_writer read_file) h s)).rw
          s.rw
  unfolding serve
  serve_frozen [] s stopped old =
      let (stopped1, old1, received) = act_frozen (write_header 200) s stopped old in received
  serve_frozen (a ∷ h) s stopped old =
      let (stopped1, old1, (sent, body)) = act_frozen a s stopped old in
      let (sent2, body2) = serve_frozen h _ stopped1 old1 in (sent2 ∙ sent, body2 ∙ body)

  wanted_status : (n : ℕ) (h : Header) → wants_page n h ≡ true → n ≢ 0
  unfolding wants_page
  wanted_status n h e = ground arith

  -- If a handler on a response of which nothing has been sent starts with an error status for which
  -- the header wants a page, and the document root has it, then whatever the handler does next, the
  -- client receives that status with the header of the page, and the bytes of the page after what
  -- the body had.
  pub errors_get_page :
      (n : ℕ) (h : List Action) (r : Response) (bytes : Text)
      → r.sent ≡ none
      → wants_page n r.header ≡ true
      → read_file document_root (page_name n) ≡ some bytes
      → let r' =
          error_pages_unless server_writer read_file false document_root (write_header n ∷ h) r in
        (r'.sent ≡ some (n, page_header bytes r.header)) × (r'.body ≡ r.body ++ bytes)
  unfolding error_pages_unless serve error_write_header serve_page server_write server_write_header
      commit
  errors_get_page n h r bytes unsent wanted found =
      let s0 : ErrorPageResponseWriter Response = record {
        rw = r;
        status = 0;
        hijacked = false;
        path = document_root;
      } in
      let s1 = error_write_header server_writer read_file n s0 in
      let positive = wanted_status n r.header wanted in
      let (sent, body) =
        serve_frozen h s1 (ground (arith, wanted, found))
          (ground (arith, wanted, found, positive)) in
      (sent ∙ ground (arith, wanted, found, unsent), body ∙ ground (arith, wanted, found, unsent))
