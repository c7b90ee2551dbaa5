-- ===== src/Response/SendData.antt =====
-- internal/senddata: the header Gitlab-Workhorse-Send-Data of an answer asks for an injecter, which
-- writes the response in place of the backend.
pub mod Hidden
pub mod Takeover
pub mod Plain
mod Examples
use mathlib.Core.Option
use gitlab_workhorse.Base.{
  ℕ, ◌==◌, ◌>>=◌, List, [], ◌∷◌, ◌++◌, Option, none, some, Bool, true, false, if◌then◌else◌,
}
use gitlab_workhorse.Base.Text.{Text, text_eq, codes, has_prefix, trim_prefix}
use gitlab_workhorse.Http.{
  Header, header_get, ResponseWriter, buffering, del_key, set_key, Action, serve,
}
use gitlab_workhorse.Response.Counting.{counting_writer, new_counting_response_writer}

-- `HeaderKey`.
unfoldable pub header_key : Text
header_key = codes "Gitlab-Workhorse-Send-Data"

-- The interface `Injecter`: `Match`, and what `Inject` does with its response writer.
pub record Injecter : Type 0 where
  pub matches : Text → Bool
  pub inject : Text → List Action

-- `Prefix.Match`.
unfoldable pub prefix_match : Text → Text → Bool
prefix_match p s = has_prefix s p

-- `Prefix.Unpack`, given the decoders of base64 and of JSON.
unfoldable pub unpack :
    {A : Type 0} → (Text → Option Text) → (Text → Option A) → Text → Text → Option A
unpack decode_string unmarshal p send_data = do
  json_bytes ← decode_string (trim_prefix send_data p)
  unmarshal json_bytes

pub record SendDataResponseWriter (S : Type 0) : Type 0 where
  pub rw : S
  pub status : ℕ
  pub hijacked : Bool
  pub injecters : List Injecter

module _ {S : Type 0} (w : ResponseWriter S) where
  -- What one injecter does: through a counting writer, with the buffering of NGINX off.
  unfoldable pub run_injecter : Injecter → Text → S → S
  run_injecter i value rw =
      let crw = new_counting_response_writer w (set_key w buffering (codes "no") rw) in
      (serve (counting_writer w) (i.inject value) crw).rw

  -- The loop over the injecters: what the first that matches does.
  unfoldable pub inject_first : List Injecter → Text → S → Option S
  inject_first [] value rw = none
  inject_first (i ∷ is) value rw =
      let rest = inject_first is value rw in
      if i.matches value then some (run_injecter i value rw) else rest

  unfoldable pub try_inject : SendDataResponseWriter S → SendDataResponseWriter S × Bool
  try_inject s =
      let value = header_get header_key (w.header s.rw) in
      let s' = record s { rw = del_key w header_key s.rw } in
      if text_eq value [] then (s', false) else elim (inject_first s.injecters value s'.rw) [
        | none ↦ (s', false)
        | some rw ↦ (record s' { hijacked = true; rw = rw }, true)
      ]

  unfoldable pub pass_on : SendDataResponseWriter S → SendDataResponseWriter S
  pass_on s = record s { rw = w.write_header s.status (del_key w header_key s.rw) }

  unfoldable pub send_data_write_header : ℕ → SendDataResponseWriter S → SendDataResponseWriter S
  send_data_write_header status s =
      let s1 = record s { status = status } in
      let (s2, injected) = try_inject s1 in
      if s.status == 0
      then if status == 200 then if injected then s2 else pass_on s2 else pass_on s1
      else s

  unfoldable pub forward_data : Text → SendDataResponseWriter S → SendDataResponseWriter S × ℕ
  forward_data bytes s =
      if s.hijacked then (s, 0) else let (rw, n) = w.write bytes s.rw in (record s { rw = rw }, n)

  unfoldable pub send_data_write : Text → SendDataResponseWriter S → SendDataResponseWriter S × ℕ
  send_data_write bytes s =
      forward_data bytes (if s.status == 0 then send_data_write_header 200 s else s)

  abbrev pub send_data_writer : ResponseWriter (SendDataResponseWriter S)
  send_data_writer = record {
    header = λ s. w.header s.rw;
    set_header = λ h s. record s { rw = w.set_header h s.rw };
    write_header = send_data_write_header;
    write = send_data_write;
  }

  -- `SendData(h, injecters...)`: the handler, and then the deferred `Flush`.
  unfoldable pub send_data : List Injecter → List Action → S → SendDataResponseWriter S
  send_data injecters h rw =
      let s : SendDataResponseWriter S = record {
        rw = rw;
        status = 0;
        hijacked = false;
        injecters = injecters;
      } in
      send_data_write_header 200 (serve send_data_writer h s)
