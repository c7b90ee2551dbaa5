-- ===== src/Response/Stats/Logged.antt =====
-- What internal/helper/logging.go writes to the access log is what the client got.

use gitlab_workhorse.Base.{
  ℕ, ◌≡◌, refl, sym, List, [], ◌∷◌, none, some, true, false, arith, if◌then◌else◌, length,
  length-append, Bool-cases, inl, inr, ◌≤◌,
}
use gitlab_workhorse.Base.Text.{Text}
use gitlab_workhorse.Http.{
  Header, Response, new_response, server_writer, server_write_header, server_write, commit, Action,
  set_header, del_header, write_header, write, act, serve, Same,
}
use gitlab_workhorse.Response.Stats.{
  StatsCollectingResponseWriter, stats_write_header, stats_write, stats_writer,
  new_stats_collecting_response_writer,
}

-- The writer agrees with a response that is written directly.
record Sim (l : StatsCollectingResponseWriter Response) (r : Response) : Type 0 where
  same : Same l.rw r
  unsent : l.wrote_header ≡ false → (l.rw.sent ≡ none) × (l.rw.body ≡ [])
  silent : l.wrote_header ≡ false → l.status ≡ 0
  logged : l.wrote_header ≡ true → (h : Header) × (l.rw.sent ≡ some (l.status, h))
  counted : length l.rw.body ≡ l.written
  once : l.rw.header_calls ≡ (if l.wrote_header then 1 else 0)

stats_write_header-Sim :
    (n : ℕ) (l : StatsCollectingResponseWriter Response) (r : Response)
    → Sim l r
    → Sim (stats_write_header server_writer n l) (server_write_header n r)
unfolding stats_write_header server_write_header commit
stats_write_header-Sim n l r sim = record {
  same = record {
    header = ground (arith, sim.same.header);
    sent = ground (arith, sim.same.sent, sim.same.header, sim.unsent, sim.logged);
    body = ground (arith, sim.same.body);
  };
  unsent = λ h. ground (arith, sim.unsent);
  silent = λ h. ground (arith, sim.silent);
  logged = λ h. elim (Bool-cases l.wrote_header) [
    | inl old ↦ let (k, e) = sim.logged old in (k, ground (arith, e))
    | inr new ↦ (l.rw.header, ground (arith, sim.unsent new))
  ];
  counted = ground (arith, sim.counted);
  once = ground (arith, sim.once);
}

stats_write-Sim :
    (s : Text) (l : StatsCollectingResponseWriter Response) (r : Response)
    → Sim l r
    → Sim (stats_write server_writer s l).0 (server_write s r).0
unfolding stats_write stats_write_header server_write_header server_write commit
stats_write-Sim s l r sim = record {
  same = record {
    header = ground (arith, sim.same.header);
    sent = ground (arith, sim.same.sent, sim.same.header, sim.unsent, sim.logged);
    body = ground (arith, sim.same.body);
  };
  unsent = λ h. ground (arith, sim.unsent);
  silent = λ h. ground (arith, sim.silent);
  logged = λ h. elim (Bool-cases l.wrote_header) [
    | inl old ↦ let (k, e) = sim.logged old in (k, ground (arith, e))
    | inr new ↦ (l.rw.header, ground (arith, sim.unsent new))
  ];
  counted = ground (arith, sim.counted, length-append l.rw.body s);
  once = ground (arith, sim.once);
}

act-Sim :
    (a : Action) (l : StatsCollectingResponseWriter Response) (r : Response)
    → Sim l r
    → Sim (act (stats_writer server_writer) a l) (act server_writer a r)
act-Sim (set_header key v) l r sim = record {
  same = record {
    header = ground (arith, sim.same.header);
    sent = sim.same.sent;
    body = sim.same.body;
  };
  unsent = sim.unsent;
  silent = sim.silent;
  logged = sim.logged;
  counted = sim.counted;
  once = sim.once;
}
act-Sim (del_header key) l r sim = record {
  same = record {
    header = ground (arith, sim.same.header);
    sent = sim.same.sent;
    body = sim.same.body;
  };
  unsent = sim.unsent;
  silent = sim.silent;
  logged = sim.logged;
  counted = sim.counted;
  once = sim.once;
}
act-Sim (write_header n) l r sim = stats_write_header-Sim n l r sim
act-Sim (write s) l r sim = stats_write-Sim s l r sim

serve-Sim :
    (h : List Action) (l : StatsCollectingResponseWriter Response) (r : Response)
    → Sim l r
    → Sim (serve (stats_writer server_writer) h l) (serve server_writer h r)
unfolding serve
serve-Sim [] l r sim = sim
serve-Sim (a ∷ h) l r sim = serve-Sim h _ _ (act-Sim a l r sim)

-- Whatever a handler does on a new response, and whatever its header is: behind the collecting
-- writer it leaves the header, the status and header sent, and the body that it leaves without one.
-- If the handler has written a header or a body, the recorded status is the status that the client
-- got; if it has written nothing, the recorded status is 0, where the client has got nothing yet.
-- `written` is the length of the body, and the server's `WriteHeader` has been called at most once.
pub log_is_right :
    (h : List Action) (header : Header)
    → let r : Response = record new_response { header = header } in
      let l =
        serve
          (stats_writer server_writer)
          h
          (new_stats_collecting_response_writer server_writer r) in
      Same l.rw (serve server_writer h r)
      × (l.wrote_header ≡ true → (sent : Header) × (l.rw.sent ≡ some (l.status, sent)))
      × (l.wrote_header ≡ false → (l.status ≡ 0) × (l.rw.sent ≡ none) × (l.rw.body ≡ []))
      × (l.written ≡ length l.rw.body)
      × (l.rw.header_calls ≤ 1)
log_is_right h header =
    let r : Response = record new_response { header = header } in
    let sim = serve-Sim h (new_stats_collecting_response_writer server_writer r) r (record {
      same = record { header = refl; sent = refl; body = refl };
      unsent = λ e. (refl, refl);
      silent = λ e. refl;
      logged = λ e. cc;
      counted = refl;
      once = refl;
    }) in
    (
      sim.same,
      sim.logged,
      (λ e. (sim.silent e, (sim.unsent e).0, (sim.unsent e).1)),
      sym sim.counted,
      ground (arith, sim.once),
    )
