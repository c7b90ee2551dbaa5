-- ===== src/Response/SendFile/Plain.antt =====
-- An answer without X-Sendfile goes through internal/sendfile unchanged.

use gitlab_workhorse.Base.{ℕ, ◌≡◌, refl, ◌≢◌, List, [], ◌∷◌, Option, none, false, arith}
use gitlab_workhorse.Base.Text.{Text, text_eq_iff, text_eq_refl}
use gitlab_workhorse.Base.Dict.{lookup, lookup-insert, lookup-delete}
use gitlab_workhorse.Http.{
  Response, server_writer, server_write_header, server_write, commit, Action, set_header,
  del_header, write_header, write, act, serve, Same,
}
use gitlab_workhorse.Response.Clean.{NeverSets}
use gitlab_workhorse.Response.SendFile.{
  send_file_response_header, SendFileResponseWriter, send_file_write_header, send_file_forward,
  send_file_write, send_file_writer, send_file,
}

-- The writer agrees with a response that is written directly.
record Sim (s : SendFileResponseWriter Response) (r : Response) : Type 0 where
  same : Same s.rw r
  committed : s.status ≢ 0 → s.rw.sent ≢ none
  not_hijacked : s.hijacked ≡ false
  absent : lookup send_file_response_header s.rw.header ≡ none

module _ {File : Type 0} (open_file : Text → Option File) (serve_content : File → List Action) where
  send_file_write_header-Sim :
      (n : ℕ) (s : SendFileResponseWriter Response) (r : Response)
      → Sim s r
      → Sim
          (send_file_write_header server_writer open_file serve_content n s)
          (server_write_header n r)
  unfolding send_file_write_header server_write_header commit
  send_file_write_header-Sim n s r sim =
      let nothing = text_eq_refl [] in
      let empty = sim.absent in
      record {
        same = record {
          header = ground (arith, sim.same.header, empty, nothing);
          sent = ground (arith, sim.same.sent, sim.same.header, sim.committed, empty, nothing);
          body = ground (arith, sim.same.body, empty, nothing);
        };
        committed = λ e. ground (arith, sim.committed, empty, nothing);
        not_hijacked = ground (arith, sim.not_hijacked, empty, nothing);
        absent = ground (arith, empty, nothing);
      }

  send_file_write-Sim :
      (t : Text) (s : SendFileResponseWriter Response) (r : Response)
      → Sim s r
      → Sim (send_file_write server_writer open_file serve_content t s).0 (server_write t r).0
  unfolding send_file_write send_file_forward send_file_write_header server_write
      server_write_header commit
  send_file_write-Sim t s r sim =
      let nothing = text_eq_refl [] in
      let empty = sim.absent in
      let open_ = sim.not_hijacked in
      record {
        same = record {
          header = ground (arith, sim.same.header, empty, nothing, open_);
          sent =
              ground (arith, sim.same.sent, sim.same.header, sim.committed, empty, nothing, open_);
          body = ground (arith, sim.same.body, empty, nothing, open_);
        };
        committed = λ e. ground (arith, sim.committed, empty, nothing, open_);
        not_hijacked = ground (arith, open_, empty, nothing);
        absent = ground (arith, empty, nothing, open_);
      }

  act-Sim :
      (a : Action) (s : SendFileResponseWriter Response) (r : Response)
      → ((v : Text) → a ≢ set_header send_file_response_header v)
      → Sim s r
      → Sim
          (act (send_file_writer server_writer open_file serve_content) a s)
          (act server_writer a r)
  act-Sim (set_header k v) s r never sim = record {
    same = record {
      header = ground (arith, sim.same.header);
      sent = sim.same.sent;
      body = sim.same.body;
    };
    committed = sim.committed;
    not_hijacked = sim.not_hijacked;
    absent = ground (
      arith,
      sim.absent,
      never v,
      lookup-insert k send_file_response_header (v ∷ []) s.rw.header,
      text_eq_iff k send_file_response_header,
    );
  }
  act-Sim (del_header k) s r never sim = record {
    same = record {
      header = ground (arith, sim.same.header);
      sent = sim.same.sent;
      body = sim.same.body;
    };
    committed = sim.committed;
    not_hijacked = sim.not_hijacked;
    absent = ground (arith, sim.absent, lookup-delete k send_file_response_header s.rw.header);
  }
  act-Sim (write_header n) s r never sim = send_file_write_header-Sim n s r sim
  act-Sim (write t) s r never sim = send_file_write-Sim t s r sim

  serve-Sim :
      (h : List Action) (s : SendFileResponseWriter Response) (r : Response)
      → NeverSets send_file_response_header h
      → Sim s r
      → Sim
          (serve (send_file_writer server_writer open_file serve_content) h s)
          (serve server_writer h r)
  unfolding serve
  serve-Sim [] s r never sim = sim
  serve-Sim (a ∷ h) s r never sim = serve-Sim h _ _ never.1 (act-Sim a s r never.0 sim)

  -- If neither the response nor the backend's handler has X-Sendfile, then the client receives, and
  -- the header is, what the handler alone makes of the response, with the status 200 when it chooses
  -- none; no file is read, whatever files there are.
  pub send_file_is_transparent :
      (h : List Action) (r : Response)
      → NeverSets send_file_response_header h
      → lookup send_file_response_header r.header ≡ none
      → Same
          (send_file server_writer open_file serve_content h r).rw
          (server_write_header 200 (serve server_writer h r))
  unfolding send_file
  send_file_is_transparent h r never absent =
      let s : SendFileResponseWriter Response = record { rw = r; status = 0; hijacked = false } in
      let start : Sim s r = record {
        same = record { header = refl; sent = refl; body = refl };
        committed = λ e. absurd (e refl);
        not_hijacked = refl;
        absent = absent;
      } in
      (send_file_write_header-Sim 200 _ _ (serve-Sim h s r never start)).same
