-- ===== src/Response/Counting/Transparent.antt =====
-- The writer of internal/helper/countingresponsewriter.go changes nothing, and counts right.

use gitlab_workhorse.Base.{
  ℕ, ◌+◌, ◌≡◌, refl, ◌≢◌, List, [], ◌∷◌, none, arith, length, length-append,
}
use gitlab_workhorse.Base.Text.{Text}
use gitlab_workhorse.Http.{
  Response, server_writer, server_write_header, server_write, commit, Action, set_header,
  del_header, write_header, write, act, serve, Same,
}
use gitlab_workhorse.Response.Counting.{
  CountingResponseWriter, counting_write_header, counting_write, counting_writer,
  new_counting_response_writer,
}

-- The writer agrees with a response that is written directly, whose body had `k` bytes before.
record Sim (k : ℕ) (c : CountingResponseWriter Response) (r : Response) : Type 0 where
  same : Same c.rw r
  committed : c.status ≢ 0 → c.rw.sent ≢ none
  counted : length c.rw.body ≡ k + c.count

write_header-Sim :
    (k n : ℕ) (c : CountingResponseWriter Response) (r : Response)
    → Sim k c r
    → Sim k (counting_write_header server_writer n c) (server_write_header n r)
unfolding counting_write_header server_write_header commit
write_header-Sim k n c r sim = record {
  same = record {
    header = ground (arith, sim.same.header);
    sent = ground (arith, sim.same.sent, sim.same.header, sim.committed);
    body = ground (arith, sim.same.body);
  };
  committed = λ h. ground (arith, sim.committed);
  counted = ground (arith, sim.counted);
}

counting_write-Sim :
    (k : ℕ) (s : Text) (c : CountingResponseWriter Response) (r : Response)
    → Sim k c r
    → Sim k (counting_write server_writer s c).0 (server_write s r).0
unfolding counting_write counting_write_header server_write_header server_write commit
counting_write-Sim k s c r sim = record {
  same = record {
    header = ground (arith, sim.same.header);
    sent = ground (arith, sim.same.sent, sim.same.header, sim.committed);
    body = ground (arith, sim.same.body);
  };
  committed = λ h. ground (arith, sim.committed);
  counted = ground (arith, sim.counted, length-append c.rw.body s);
}

act-Sim :
    (k : ℕ) (a : Action) (c : CountingResponseWriter Response) (r : Response)
    → Sim k c r
    → Sim k (act (counting_writer server_writer) a c) (act server_writer a r)
act-Sim k (set_header key v) c r sim = record {
  same = record {
    header = ground (arith, sim.same.header);
    sent = sim.same.sent;
    body = sim.same.body;
  };
  committed = sim.committed;
  counted = sim.counted;
}
act-Sim k (del_header key) c r sim = record {
  same = record {
    header = ground (arith, sim.same.header);
    sent = sim.same.sent;
    body = sim.same.body;
  };
  committed = sim.committed;
  counted = sim.counted;
}
act-Sim k (write_header n) c r sim = write_header-Sim k n c r sim
act-Sim k (write s) c r sim = counting_write-Sim k s c r sim

serve-Sim :
    (k : ℕ) (h : List Action) (c : CountingResponseWriter Response) (r : Response)
    → Sim k c r
    → Sim k (serve (counting_writer server_writer) h c) (serve server_writer h r)
unfolding serve
serve-Sim k [] c r sim = sim
serve-Sim k (a ∷ h) c r sim = serve-Sim k h _ _ (act-Sim k a c r sim)

-- Whatever a handler does: behind a new counting writer it leaves the response with the header, the
-- status and header sent, and the body that it leaves without one, and `Count` is the number of
-- bytes that it has added to the body.
pub counting_is_transparent :
    (h : List Action) (r : Response)
    → let c =
        serve (counting_writer server_writer) h (new_counting_response_writer server_writer r) in
      Same c.rw (serve server_writer h r) × (length c.rw.body ≡ length r.body + c.count)
counting_is_transparent h r =
    let sim = serve-Sim (length r.body) h (new_counting_response_writer server_writer r) r (record {
      same = record { header = refl; sent = refl; body = refl };
      committed = λ e. absurd (e refl);
      counted = omega arith;
    }) in
    (sim.same, sim.counted)
