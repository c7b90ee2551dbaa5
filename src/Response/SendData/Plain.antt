-- ===== src/Response/SendData/Plain.antt =====
-- An answer without Gitlab-Workhorse-Send-Data goes through internal/senddata unchanged.

use gitlab_workhorse.Base.{ℕ, ◌≡◌, refl, ◌≢◌, List, [], ◌∷◌, none, false, arith}
use gitlab_workhorse.Base.Text.{Text, text_eq_iff, text_eq_refl}
use gitlab_workhorse.Base.Dict.{lookup, lookup-insert, lookup-delete, delete_absent}
use gitlab_workhorse.Http.{
  Response, server_writer, server_write_header, server_write, commit, Action, set_header,
  del_header, write_header, write, act, serve, Same,
}
use gitlab_workhorse.Response.SendData.{
  header_key, Injecter, try_inject, pass_on, SendDataResponseWriter, send_data_write_header,
  forward_data, send_data_write, send_data_writer, send_data,
}
use gitlab_workhorse.Response.Clean.{NeverSets}

-- The writer agrees with a response that is written directly.
record Sim (s : SendDataResponseWriter Response) (r : Response) : Type 0 where
  same : Same s.rw r
  committed : s.status ≢ 0 → s.rw.sent ≢ none
  not_hijacked : s.hijacked ≡ false
  absent : lookup header_key s.rw.header ≡ none

send_data_write_header-Sim :
    (n : ℕ) (s : SendDataResponseWriter Response) (r : Response)
    → Sim s r
    → Sim (send_data_write_header server_writer n s) (server_write_header n r)
unfolding send_data_write_header try_inject pass_on server_write_header commit
send_data_write_header-Sim n s r sim =
    let gone = delete_absent header_key s.rw.header sim.absent in
    let nothing = text_eq_refl [] in
    let empty = sim.absent in
    record {
      same = record {
        header = ground (arith, sim.same.header, gone, empty, nothing);
        sent = ground (arith, sim.same.sent, sim.same.header, sim.committed, gone, empty, nothing);
        body = ground (arith, sim.same.body, gone, empty, nothing);
      };
      committed = λ e. ground (arith, sim.committed, gone, empty, nothing);
      not_hijacked = ground (arith, sim.not_hijacked, gone, empty, nothing);
      absent = ground (arith, gone, empty, nothing);
    }

send_data_write-Sim :
    (t : Text) (s : SendDataResponseWriter Response) (r : Response)
    → Sim s r
    → Sim (send_data_write server_writer t s).0 (server_write t r).0
unfolding send_data_write forward_data send_data_write_header try_inject pass_on server_write
    server_write_header commit
send_data_write-Sim t s r sim =
    let gone = delete_absent header_key s.rw.header sim.absent in
    let nothing = text_eq_refl [] in
    let empty = sim.absent in
    record {
      same = record {
        header = ground (arith, sim.same.header, gone, empty, nothing, sim.not_hijacked);
        sent = ground (
          arith, sim.same.sent, sim.same.header, sim.committed, gone, empty, nothing,
          sim.not_hijacked,
        );
        body = ground (arith, sim.same.body, gone, empty, nothing, sim.not_hijacked);
      };
      committed = λ e. ground (arith, sim.committed, gone, empty, nothing, sim.not_hijacked);
      not_hijacked = ground (arith, sim.not_hijacked, gone, empty, nothing);
      absent = ground (arith, gone, empty, nothing, sim.not_hijacked);
    }

act-Sim :
    (a : Action) (s : SendDataResponseWriter Response) (r : Response)
    → ((v : Text) → a ≢ set_header header_key v)
    → Sim s r
    → Sim (act (send_data_writer server_writer) a s) (act server_writer a r)
act-Sim (set_header k v) s r never sim = record {
  same = record {
    header = ground (arith, sim.same.header);
    sent = sim.same.sent;
    body = sim.same.body;
  };
  committed = sim.committed;
  not_hijacked = sim.not_hijacked;
  absent = ground (
    arith,
    sim.absent,
    never v,
    lookup-insert k header_key (v ∷ []) s.rw.header,
    text_eq_iff k header_key,
  );
}
act-Sim (del_header k) s r never sim = record {
  same = record {
    header = ground (arith, sim.same.header);
    sent = sim.same.sent;
    body = sim.same.body;
  };
  committed = sim.committed;
  not_hijacked = sim.not_hijacked;
  absent = ground (arith, sim.absent, lookup-delete k header_key s.rw.header);
}
act-Sim (write_header n) s r never sim = send_data_write_header-Sim n s r sim
act-Sim (write t) s r never sim = send_data_write-Sim t s r sim

serve-Sim :
    (h : List Action) (s : SendDataResponseWriter Response) (r : Response)
    → NeverSets header_key h
    → Sim s r
    → Sim (serve (send_data_writer server_writer) h s) (serve server_writer h r)
unfolding serve
serve-Sim [] s r never sim = sim
serve-Sim (a ∷ h) s r never sim = serve-Sim h _ _ never.1 (act-Sim a s r never.0 sim)

-- If neither the response nor the backend's handler has Gitlab-Workhorse-Send-Data, then with any
-- injecters the client receives, and the header is, what the handler alone makes of the response,
-- with the status 200 when it chooses none.
pub send_data_is_transparent :
    (injecters : List Injecter) (h : List Action) (r : Response)
    → NeverSets header_key h
    → lookup header_key r.header ≡ none
    → Same
        (send_data server_writer injecters h r).rw
        (server_write_header 200 (serve server_writer h r))
unfolding send_data
send_data_is_transparent injecters h r never absent =
    let s : SendDataResponseWriter Response = record {
      rw = r;
      status = 0;
      hijacked = false;
      injecters = injecters;
    } in
    let start : Sim s r = record {
      same = record { header = refl; sent = refl; body = refl };
      committed = λ e. absurd (e refl);
      not_hijacked = refl;
      absent = absent;
    } in
    let sim = serve-Sim h s r never start in (send_data_write_header-Sim 200 _ _ sim).same
