-- ===== src/Response/SendData/Hidden.antt =====
-- The header of internal/senddata/injecter.go stays between the backend and the server.

use mathlib.Core.Path.{subst⁻¹}
use gitlab_workhorse.Base.{
  ℕ, ◌≡◌, refl, ◌≢◌, inl, inr, List, [], ◌∷◌, none, some, false, arith, Bool-cases, Option-cases,
  ℕ_discrete, All,
}
use gitlab_workhorse.Base.Text.{Text, text_eq, text_eq_iff, text_eq_refl, codes}
use gitlab_workhorse.Base.Dict.{lookup, lookup-delete}
use gitlab_workhorse.Http.{
  Header, header_get, Response, new_response, server_writer, server_write_header, server_write,
  commit, del_key, set_key, buffering, Action, set_header, del_header, write_header, write, act,
  serve,
}
use gitlab_workhorse.Response.Counting.Transparent.{counting_is_transparent}
use gitlab_workhorse.Response.Clean.{NeverSets, Clean, act-Clean, serve-Clean}
use gitlab_workhorse.Response.SendData.{
  header_key, Injecter, run_injecter, inject_first, try_inject, pass_on, SendDataResponseWriter,
  send_data_write_header, forward_data, send_data_write, send_data_writer, send_data,
}

run_injecter-Clean :
    (k : Text) (i : Injecter) (v : Text) (r : Response)
    → k ≢ buffering
    → NeverSets k (i.inject v)
    → Clean k r
    → Clean k (run_injecter server_writer i v r)
unfolding run_injecter
run_injecter-Clean k i v r other never clean =
    let r1 = set_key server_writer buffering (codes "no") r in
    let after =
      serve-Clean k (i.inject v) r1 never (
        act-Clean k (set_header buffering (codes "no")) r (λ u e. ground (arith, other, e))
          clean) in
    let same = (counting_is_transparent (i.inject v) r1).0 in
    record {
      absent = ground (arith, same.header, after.absent);
      unsent = λ n h e. after.unsent n h (ground (arith, same.sent, e));
    }

-- Injecters that do not set the header themselves.
abbrev pub Tame : List Injecter → Type 0
Tame = All (λ i. (v : Text) → NeverSets header_key (i.inject v))

keys_differ : text_eq header_key buffering ≡ false
unfolding header_key buffering text_eq
keys_differ = refl

inject_first-Clean :
    (is : List Injecter) (v : Text) (r r' : Response)
    → Tame is
    → Clean header_key r
    → inject_first server_writer is v r ≡ some r'
    → Clean header_key r'
unfolding inject_first
inject_first-Clean [] v r r' tame clean e = absurd (ground (arith, e))
inject_first-Clean (i ∷ is) v r r' tame clean e = elim (Bool-cases (i.matches v)) [
  | inl hit ↦
      subst⁻¹ (Clean header_key) {y = run_injecter server_writer i v r} (ground (arith, e)) (
        run_injecter-Clean header_key i v r
          (ground (arith, keys_differ, text_eq_iff header_key buffering)) (tame.0 v) clean)
  | inr miss ↦ inject_first-Clean is v r r' tame.1 clean (ground (arith, e))
]

-- No header that has been sent has the key, and no injecter sets it.
pub record Safe (s : SendDataResponseWriter Response) : Type 0 where
  unsent : (n : ℕ) (h : Header) → s.rw.sent ≡ some (n, h) → lookup header_key h ≡ none
  tame : Tame s.injecters

-- Once there is a status, it has gone out or an injecter has had the response.
abbrev pub Committed : SendDataResponseWriter Response → Type 0
Committed s = s.status ≢ 0 → s.hijacked ≡ false → s.rw.sent ≢ none

del-Clean :
    (s : SendDataResponseWriter Response)
    → Safe s
    → Clean header_key (del_key server_writer header_key s.rw)
del-Clean s safe = record {
  absent = ground (arith, lookup-delete header_key header_key s.rw.header, text_eq_refl header_key);
  unsent = safe.unsent;
}

pass_on-Safe : (s : SendDataResponseWriter Response) → Safe s → Safe (pass_on server_writer s)
unfolding pass_on server_write_header commit
pass_on-Safe s safe =
    let clean = del-Clean s safe in
    record { unsent = λ n h e. ground (arith, clean.absent, safe.unsent n h); tame = safe.tame }

try_inject-Safe :
    (s : SendDataResponseWriter Response) → Safe s → Safe (try_inject server_writer s).0
unfolding try_inject
try_inject-Safe s safe =
    elim (Option-cases (
      inject_first server_writer s.injecters (header_get header_key s.rw.header)
        (del_key server_writer header_key s.rw))) [
          | inl missed ↦ record {
            unsent = λ n h e. ground (arith, safe.unsent n h);
            tame = ground (arith, safe.tame);
          }
          | inr (r, e) ↦
              let after = inject_first-Clean s.injecters _ _ r safe.tame (del-Clean s safe) e in
              record {
                unsent = λ n h f. ground (arith, safe.unsent n h, after.unsent n h);
                tame = ground (arith, safe.tame);
              }
        ]

send_data_write_header-Safe :
    (n : ℕ) (s : SendDataResponseWriter Response)
    → Safe s
    → Safe (send_data_write_header server_writer n s)
unfolding send_data_write_header
send_data_write_header-Safe n s safe =
    let s1 : SendDataResponseWriter Response = record s { status = n } in
    let safe1 : Safe s1 = record { unsent = safe.unsent; tame = safe.tame } in
    let safe2 = try_inject-Safe s1 safe1 in
    let on1 = pass_on-Safe s1 safe1 in
    let on2 = pass_on-Safe (try_inject server_writer s1).0 safe2 in
    record {
      unsent = λ m h e.
          ground (arith, safe.unsent m h, safe2.unsent m h, on1.unsent m h, on2.unsent m h);
      tame = ground (arith, safe.tame, safe2.tame, on1.tame, on2.tame);
    }

send_data_write_header-Committed :
    (n : ℕ) (s : SendDataResponseWriter Response)
    → Committed s
    → Committed (send_data_write_header server_writer n s)
unfolding send_data_write_header try_inject pass_on server_write_header commit
send_data_write_header-Committed n s done e open_ = ground (arith, done)

send_data_write_header_done :
    (n : ℕ) (s : SendDataResponseWriter Response)
    → n ≢ 0
    → (send_data_write_header server_writer n s).status ≢ 0
unfolding send_data_write_header try_inject pass_on
send_data_write_header_done n s h = ground arith

forward_data-Safe :
    (t : Text) (s : SendDataResponseWriter Response)
    → Safe s
    → (s.status ≢ 0)
    → Committed s
    → Safe (forward_data server_writer t s).0 × Committed (forward_data server_writer t s).0
unfolding forward_data server_write commit
forward_data-Safe t s safe old done = (
  record {
    unsent = λ n h e. ground (arith, safe.unsent n h, done);
    tame = ground (arith, safe.tame);
  },
  λ e open_. ground (arith, done),
)

send_data_write-Safe :
    (t : Text) (s : SendDataResponseWriter Response)
    → Safe s
    → Committed s
    → Safe (send_data_write server_writer t s).0 × Committed (send_data_write server_writer t s).0
unfolding send_data_write
send_data_write-Safe t s safe done =
    let s1 = send_data_write_header server_writer 200 s in
    let written =
      forward_data-Safe t s1 (send_data_write_header-Safe 200 s safe)
        (send_data_write_header_done 200 s (omega arith))
        (send_data_write_header-Committed 200 s done) in
    let P : SendDataResponseWriter Response → Type 0 =
      λ k. Safe (forward_data server_writer t k).0 × Committed (forward_data server_writer t k).0 in
    elim (ℕ_discrete s.status 0) [
      | yes new ↦ subst⁻¹ P {y = s1} (ground arith) written
      | no old ↦ subst⁻¹ P {y = s} (ground arith) (forward_data-Safe t s safe old done)
    ]

act-Safe :
    (a : Action) (s : SendDataResponseWriter Response)
    → Safe s
    → Committed s
    → Safe (act (send_data_writer server_writer) a s)
      × Committed (act (send_data_writer server_writer) a s)
act-Safe (set_header k v) s safe done = (record { unsent = safe.unsent; tame = safe.tame }, done)
act-Safe (del_header k) s safe done = (record { unsent = safe.unsent; tame = safe.tame }, done)
act-Safe (write_header n) s safe done =
    (send_data_write_header-Safe n s safe, send_data_write_header-Committed n s done)
act-Safe (write t) s safe done = send_data_write-Safe t s safe done

serve-Safe :
    (h : List Action) (s : SendDataResponseWriter Response)
    → Safe s
    → Committed s
    → Safe (serve (send_data_writer server_writer) h s)
      × Committed (serve (send_data_writer server_writer) h s)
unfolding serve
serve-Safe [] s safe done = (safe, done)
serve-Safe (a ∷ h) s safe done =
    let (safe', done') = act-Safe a s safe done in serve-Safe h _ safe' done'

-- Whatever the backend's handler does, if no injecter sets Gitlab-Workhorse-Send-Data itself: a
-- header that the client receives does not have it; and if no injecter has run, the client has
-- received a status and a header.
pub send_data_is_hidden :
    (injecters : List Injecter) (h : List Action) (header : Header)
    → Tame injecters
    → let s = send_data server_writer injecters h (record new_response { header = header }) in
      ((n : ℕ) (sent : Header) → s.rw.sent ≡ some (n, sent) → lookup header_key sent ≡ none)
      × (s.hijacked ≡ false → s.rw.sent ≢ none)
unfolding send_data
send_data_is_hidden injecters h header tame =
    let s0 : SendDataResponseWriter Response = record {
      rw = record new_response { header = header };
      status = 0;
      hijacked = false;
      injecters = injecters;
    } in
    let safe0 : Safe s0 = record { unsent = λ n k e. cc; tame = tame } in
    let (safe, done) = serve-Safe h s0 safe0 (λ e. absurd (e refl)) in
    let s1 = serve (send_data_writer server_writer) h s0 in
    (
      (send_data_write_header-Safe 200 s1 safe).unsent,
      send_data_write_header-Committed 200 s1 done
          (send_data_write_header_done 200 s1 (omega arith)),
    )
