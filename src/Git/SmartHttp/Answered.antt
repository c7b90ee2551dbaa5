-- ===== src/Git/SmartHttp/Answered.antt =====
-- What the client of internal/git/git-http.go receives.

use mathlib.Core.Path.{subst⁻¹}
use gitlab_workhorse.Base.{
  not, ◌||◌, ℕ, ◌+◌, ◌==◌, ◌≡◌, ◌≤◌, inl, inr, refl, sym, ap, ◌∙◌, List, [], ◌∷◌, ◌++◌, map, Option,
  none, some, Bool, true, false, if◌then◌else◌, arith, ltb, ◌&&◌, Bool-cases, append_assoc,
  append-nil, length, length-append,
}
use gitlab_workhorse.Base.Text.{Text}
use gitlab_workhorse.Http.{
  Header, Response, server_writer, server_write, server_write_header, commit, Action, set_header,
  del_header, write_header, write, serve,
}
use gitlab_workhorse.Http.Message.{Request}
use gitlab_workhorse.Api.{ApiResponse}
use gitlab_workhorse.Response.Counting.{
  CountingResponseWriter, counting_writer, counting_write, counting_write_header,
  new_counting_response_writer,
}
use gitlab_workhorse.Git.SmartHttp.{
  Env, Rpc, run_rpc, write_post_rpc_header, handle_upload_pack, handle_receive_pack,
  upload_pack_limit, get_service,
}

abbrev pub concat : List Text → Text
concat [] = []
concat (t ∷ ts) = t ++ concat ts

-- The status that goes with some pieces and an error.
abbrev pub status_of : List Text → Bool → Option ℕ
status_of [] false = none
status_of [] true = some 500
status_of (t ∷ ts) failed = some 200

abbrev status_sent : Option (ℕ × Header) → Option ℕ
status_sent none = none
status_sent (some (status, h)) = some status

-- The body has grown by the pieces, with the status of the first answer.
pub record IsAnswered (pieces : List Text) (failed : Bool) (before : Response)
    (after : CountingResponseWriter Response) : Type 0 where
  pub body : after.rw.body ≡ before.body ++ concat pieces
  pub status : status_sent after.rw.sent ≡ status_of pieces failed
  pub counted : after.count ≡ length (concat pieces)
  pub one_header : after.rw.header_calls ≤ before.header_calls + 1

abbrev Counter : Type 0
Counter = CountingResponseWriter Response

-- Bytes were added, and nothing else.
record IsGrown (t : Text) (c c' : Counter) : Type 0 where
  body : c'.rw.body ≡ c.rw.body ++ t
  sent : c'.rw.sent ≡ c.rw.sent
  count : c'.count ≡ c.count + length t
  status : c'.status ≡ c.status
  header_calls : c'.rw.header_calls ≡ c.rw.header_calls

later_write :
    (t : Text) (c : Counter) (x : ℕ × Header)
    → (c.status == 0) ≡ false
    → c.rw.sent ≡ some x
    → IsGrown t c (counting_write server_writer t c).0
unfolding counting_write server_write commit
later_write t c x known sent = record {
  body = ground (arith, known, sent);
  sent = ground (arith, known, sent);
  count = ground (arith, known, sent);
  status = ground (arith, known, sent);
  header_calls = ground (arith, known, sent);
}

later_pieces :
    (pieces : List Text) (c : Counter) (x : ℕ × Header)
    → (c.status == 0) ≡ false
    → c.rw.sent ≡ some x
    → IsGrown (concat pieces) c (serve (counting_writer server_writer) (map write pieces) c)
unfolding serve
later_pieces [] c x known sent = record {
  body = sym (append-nil c.rw.body);
  sent = refl;
  count = omega arith;
  status = refl;
  header_calls = refl;
}
later_pieces (t ∷ ts) c x known sent =
    let c' = (counting_write server_writer t c).0 in
    let one = later_write t c x known sent in
    let others = later_pieces ts c' x (ground (arith, known, one.status)) (one.sent ∙ sent) in
    record {
      body = others.body ∙ ap (λ b. b ++ concat ts) one.body ∙ append_assoc c.rw.body t (concat ts);
      sent = others.sent ∙ one.sent;
      count = omega (arith, others.count, one.count, length-append t (concat ts));
      status = others.status ∙ one.status;
      header_calls = others.header_calls ∙ one.header_calls;
    }

-- A writer to which only headers have gone.
record IsFresh (before : Response) (c : Counter) : Type 0 where
  body : c.rw.body ≡ before.body
  sent : c.rw.sent ≡ none
  count : c.count ≡ 0
  status : c.status ≡ 0
  header_calls : c.rw.header_calls ≡ before.header_calls

first_write :
    (before : Response) (t : Text) (c : Counter)
    → IsFresh before c
    → let c' = (counting_write server_writer t c).0 in
      (c'.rw.body ≡ before.body ++ t)
      × (c'.rw.sent ≡ some (200, c.rw.header))
      × (c'.count ≡ length t)
      × (c'.status ≡ 200)
      × (c'.rw.header_calls ≡ before.header_calls + 1)
unfolding counting_write counting_write_header server_write server_write_header commit
first_write before t c v = ground (arith, v.body, v.sent, v.count, v.status, v.header_calls)

-- The error after the pieces, if there is one.
abbrev fail_if : Bool → Counter → Counter
fail_if failed c = if failed then counting_write_header server_writer 500 c else c

pieces-IsAnswered :
    (before : Response) (pieces : List Text) (failed : Bool) (c : Counter)
    → IsFresh before c
    → IsAnswered pieces failed before
        (fail_if failed (serve (counting_writer server_writer) (map write pieces) c))
unfolding serve counting_write_header server_write_header commit
pieces-IsAnswered before [] true c v = record {
  body = ground (arith, v.body, v.status, v.sent, append-nil before.body);
  status = ground (arith, v.status, v.sent);
  counted = ground (arith, v.count, v.status);
  one_header = ground (arith, v.status, v.sent, v.header_calls);
}
pieces-IsAnswered before [] false c v = record {
  body = ground (arith, v.body, append-nil before.body);
  status = ap status_sent v.sent;
  counted = v.count;
  one_header = omega (arith, v.header_calls);
}
pieces-IsAnswered before (t ∷ ts) failed c v =
    let c1 = (counting_write server_writer t c).0 in
    let (body, sent, count, status, calls) = first_write before t c v in
    let others = later_pieces ts c1 (200, c.rw.header) (ground (arith, status)) sent in
    let known : (serve (counting_writer server_writer) (map write ts) c1).status ≡ 200 =
      others.status ∙ status in
    let kept : fail_if failed (serve (counting_writer server_writer) (map write ts) c1)
        ≡ serve (counting_writer server_writer) (map write ts) c1 =
      ground (arith, known) in
    subst⁻¹ (IsAnswered (t ∷ ts) failed before) kept (record {
      body = others.body ∙ ap (λ b. b ++ concat ts) body ∙ append_assoc before.body t (concat ts);
      status = ap status_sent (others.sent ∙ sent);
      counted = omega (arith, others.count, count, length-append t (concat ts));
      one_header = omega (arith, others.header_calls, calls);
    })

-- Headers that a handler sets before it writes.
abbrev AreHeaders : List Action → Type 0
AreHeaders [] = Unit
AreHeaders (set_header k v ∷ as') = AreHeaders as'
AreHeaders (a ∷ as') = ⊥

headers-IsFresh :
    (before : Response) (hs : List Action) (c : Counter)
    → AreHeaders hs
    → IsFresh before c
    → IsFresh before (serve (counting_writer server_writer) hs c)
unfolding serve
headers-IsFresh before [] c h v = v
headers-IsFresh before (set_header k t ∷ hs) c h v = headers-IsFresh before hs _ h (record {
  body = v.body;
  sent = v.sent;
  count = v.count;
  status = v.status;
  header_calls = v.header_calls;
})
headers-IsFresh before (del_header k ∷ hs) c h v = absurd h
headers-IsFresh before (write_header n ∷ hs) c h v = absurd h
headers-IsFresh before (write t ∷ hs) c h v = absurd h

rpc-IsAnswered :
    (rpc : Rpc) (before : Response)
    → AreHeaders rpc.headers
    → before.sent ≡ none
    → IsAnswered rpc.pieces rpc.failed before (run_rpc server_writer rpc before)
unfolding run_rpc
rpc-IsAnswered rpc before h fresh = pieces-IsAnswered before rpc.pieces rpc.failed _ (
    headers-IsFresh before rpc.headers (new_counting_response_writer server_writer before) h
      (record { body = refl; sent = fresh; count = refl; status = refl; header_calls = refl }))

upload_pack-AreHeaders :
    (env : Env) (r : Request) (a : ApiResponse) → AreHeaders (handle_upload_pack env r a).headers
unfolding handle_upload_pack write_post_rpc_header
upload_pack-AreHeaders env r a =
    elim (Bool-cases
      (not env.has_temp_file || (r.body_fails && ltb (length r.body) upload_pack_limit))) [
        | inl broken ↦
            subst⁻¹ AreHeaders {x = (handle_upload_pack env r a).headers} {y = []}
              (ground (arith, broken)) tt
        | inr readable ↦
            subst⁻¹ AreHeaders {x = (handle_upload_pack env r a).headers}
              {y = write_post_rpc_header (get_service env r)} (ground (arith, readable)) tt
      ]

receive_pack-AreHeaders :
    (env : Env) (r : Request) (a : ApiResponse) → AreHeaders (handle_receive_pack env r a).headers
unfolding handle_receive_pack write_post_rpc_header
receive_pack-AreHeaders env r a = tt

-- Let nothing have been sent. To an authorized upload-pack or receive-pack request the client gets the
-- pieces that have reached its writer when the handler returns, in order and with status 200, and the
-- count that is logged is their length. An error is seen by the client only if nothing has been
-- written: then its status is 500 with an empty body; else it changes nothing. WriteHeader is called
-- at most once.
pub clients_get_what_was_written :
    (env : Env) (r : Request) (a : ApiResponse) (s : Response)
    → s.sent ≡ none
    → let up = handle_upload_pack env r a in
      let receive = handle_receive_pack env r a in
      IsAnswered up.pieces up.failed s (run_rpc server_writer up s)
      × IsAnswered receive.pieces receive.failed s (run_rpc server_writer receive s)
clients_get_what_was_written env r a s fresh = (
  rpc-IsAnswered (handle_upload_pack env r a) s (upload_pack-AreHeaders env r a) fresh,
  rpc-IsAnswered (handle_receive_pack env r a) s (receive_pack-AreHeaders env r a) fresh,
)
