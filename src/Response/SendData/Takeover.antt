-- ===== src/Response/SendData/Takeover.antt =====
-- Who writes the response of internal/senddata/senddata.go.

use gitlab_workhorse.Base.{◌≡◌, refl, ◌∙◌, ◌≢◌, List, [], ◌∷◌, ◌++◌, some, true, false, arith, All}
use gitlab_workhorse.Base.Text.{Text, text_eq_iff, codes}
use gitlab_workhorse.Http.{SameAnswer}
use gitlab_workhorse.Http.{
  header_get, Response, server_writer, del_key, set_key, buffering, Action, set_header, del_header,
  write_header, write, act, serve,
}
use gitlab_workhorse.Response.Counting.Transparent.{counting_is_transparent}
use gitlab_workhorse.Response.SendData.{
  header_key, Injecter, run_injecter, inject_first, try_inject, SendDataResponseWriter,
  send_data_write_header, forward_data, send_data_write, send_data_writer, send_data,
}

-- After an injecter has run, the backend's calls reach the client no more.
act_frozen :
    (a : Action) (s : SendDataResponseWriter Response)
    → s.hijacked ≡ true
    → s.status ≢ 0
    → let s' = act (send_data_writer server_writer) a s in
      (s'.hijacked ≡ true) × (s'.status ≢ 0) × SameAnswer s'.rw s.rw
unfolding send_data_write_header send_data_write forward_data
act_frozen (set_header k v) s stopped old = (stopped, old, (refl, refl))
act_frozen (del_header k) s stopped old = (stopped, old, (refl, refl))
act_frozen (write_header n) s stopped old =
    (ground arith, ground arith, (ground arith, ground arith))
act_frozen (write t) s stopped old = (ground arith, ground arith, (ground arith, ground arith))

serve_frozen :
    (h : List Action) (s : SendDataResponseWriter Response)
    → s.hijacked ≡ true
    → s.status ≢ 0
    → SameAnswer
        (send_data_write_header server_writer 200 (serve (send_data_writer server_writer) h s)).rw
        s.rw
unfolding serve
serve_frozen [] s stopped old =
    let (stopped1, old1, received) = act_frozen (write_header 200) s stopped old in received
serve_frozen (a ∷ h) s stopped old =
    let (stopped1, old1, (sent, body)) = act_frozen a s stopped old in
    let (sent2, body2) = serve_frozen h _ stopped1 old1 in (sent2 ∙ sent, body2 ∙ body)

-- The first injecter that matches runs, and what it does to the response is what it does to it
-- without the counting writer.
inject_first_runs :
    (before : List Injecter) (i : Injecter) (after : List Injecter) (v : Text) (r : Response)
    → All (λ j. j.matches v ≡ false) before
    → i.matches v ≡ true
    → inject_first server_writer (before ++ i ∷ after) v r ≡ some (run_injecter server_writer i v r)
unfolding inject_first
inject_first_runs [] i after v r miss hit = ground (arith, hit)
inject_first_runs (j ∷ before) i after v r miss hit =
    ground (arith, miss.0, inject_first_runs before i after v r miss.1 hit)

starts :
    (before : List Injecter) (i : Injecter) (after : List Injecter) (r : Response) (v : Text)
    → header_get header_key r.header ≡ v
    → v ≢ []
    → All (λ j. j.matches v ≡ false) before
    → i.matches v ≡ true
    → let s : SendDataResponseWriter Response = record {
      rw = r;
      status = 0;
      hijacked = false;
      injecters = before ++ i ∷ after;
    } in
      send_data_write_header server_writer 200 s ≡ record s {
        rw = run_injecter server_writer i v (del_key server_writer header_key r);
        status = 200;
        hijacked = true;
      }
unfolding send_data_write_header try_inject
starts before i after r v get some_value miss hit = ground (
  arith,
  get,
  text_eq_iff v [],
  inject_first_runs before i after v (del_key server_writer header_key r) miss hit,
)

-- Let the backend's header have a Send-Data value `v`, and let `i` be the first injecter that
-- matches it. If the backend starts with status 200, then whatever it does next, the client receives
-- what `i` writes for `v` on the server's own response, with the key deleted and the buffering off.
pub send_data_takes_over :
    (before : List Injecter) (i : Injecter) (after : List Injecter) (h : List Action)
    → (r : Response) (v : Text) → header_get header_key r.header ≡ v
    → v ≢ []
    → All (λ j. j.matches v ≡ false) before
    → i.matches v ≡ true
    → let s = send_data server_writer (before ++ i ∷ after) (write_header 200 ∷ h) r in
      let alone =
        serve server_writer
          (del_header header_key ∷ set_header buffering (codes "no") ∷ i.inject v)
          r in
      (s.rw.sent ≡ alone.sent) × (s.rw.body ≡ alone.body)
unfolding send_data serve run_injecter
send_data_takes_over before i after h r v get some_value miss hit =
    let s0 : SendDataResponseWriter Response = record {
      rw = r;
      status = 0;
      hijacked = false;
      injecters = before ++ i ∷ after;
    } in
    let s1 = send_data_write_header server_writer 200 s0 in
    let r1 = set_key server_writer buffering (codes "no") (del_key server_writer header_key r) in
    let same = (counting_is_transparent (i.inject v) r1).0 in
    let begun : s1 ≡ record s0 {
      rw = run_injecter server_writer i v (del_key server_writer header_key r);
      status = 200;
      hijacked = true;
    } =
      starts before i after r v get some_value miss hit in
    let (sent, body) = serve_frozen h s1 (ground (arith, begun)) (ground (arith, begun)) in
    (sent ∙ ground (arith, begun, same.sent), body ∙ ground (arith, begun, same.body))
