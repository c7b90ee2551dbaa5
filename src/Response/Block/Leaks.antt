-- ===== src/Response/Block/Leaks.antt =====
-- What the client of internal/api/block.go can see.

use mathlib.Core.Path.{subst⁻¹}
use gitlab_workhorse.Base.{
  ℕ, ◌≡◌, refl, ap, ◌∙◌, ◌≢◌, ◌⊎◌, inl, inr, List, [], ◌∷◌, ◌++◌, Option, none, some, Bool, true,
  false, arith, Bool-cases, some_of_ne_none, ℕ_discrete,
}
use gitlab_workhorse.Base.Text.{Text, text_eq, text_eq_iff, text_eq_refl, codes}
use gitlab_workhorse.Base.Dict.{lookup-insert}
use gitlab_workhorse.Http.{
  Header, header_get, header_set, header_del, Response, new_response, server_writer,
  server_write_header, server_write, commit, content_type, content_type_options, content_length,
  plain_text, internal_server_error, http_error, fail500, Action, set_header, del_header,
  write_header, write, act, serve,
}
use gitlab_workhorse.Response.Block.{
  Blocker, is_content_type, response_content_type, is_internal, block_write_header, block_write,
  block_writer, block,
}
use gitlab_workhorse.Response.Block.{block_forward}

keys_differ : text_eq content_type_options content_type ≡ false
unfolding content_type_options content_type text_eq
keys_differ = refl

-- `http.Error` leaves its own content type in the header.
error_header :
    (v : Text) (h : Header)
    → header_get content_type
        (header_set content_type_options v (header_set content_type plain_text h))
      ≡ plain_text
error_header v h = ground (
  arith,
  lookup-insert content_type_options content_type (v ∷ []) (header_set content_type plain_text h),
  lookup-insert content_type content_type (plain_text ∷ []) h,
  text_eq_refl content_type,
  text_eq_iff content_type_options content_type,
  keys_differ,
)

-- What `helper.Fail500` does to a response.
fail500_response :
    (r : Response)
    → ((fail500 server_writer r).body ≡ r.body ++ (internal_server_error ++ b'\n' ∷ []))
      × ((fail500 server_writer r).sent ≢ none)
      × ((n : ℕ) (h : Header)
          → (fail500 server_writer r).sent ≡ some (n, h)
          → (r.sent ≡ some (n, h)) ⊎ (header_get content_type h ≡ plain_text))
unfolding fail500 http_error server_write server_write_header commit
fail500_response r =
    (ground arith, ground arith, λ n h e. ground (arith, error_header (codes "nosniff") r.header))

module _ (parse_media_type : Text → Option Text)
    (plain_is_not_internal : is_content_type parse_media_type response_content_type plain_text
      ≡ false) where
  abbrev internal : Header → Bool
  internal h = is_content_type parse_media_type response_content_type (header_get content_type h)

  -- What holds between the calls.
  pub record Inv (b : Blocker Response) : Type 0 where
    committed : b.status ≢ 0 → b.rw.sent ≢ none
    fresh : b.status ≡ 0 → (b.rw.body ≡ []) × (b.hijacked ≡ false)
    replaced : b.hijacked ≡ true → b.rw.body ≡ internal_server_error ++ b'\n' ∷ []
    harmless : (n : ℕ) (h : Header) → b.rw.sent ≡ some (n, h) → internal h ≡ false

  block_write_header-Inv :
      (n : ℕ) (b : Blocker Response)
      → Inv b
      → Inv (block_write_header server_writer parse_media_type n b)
  unfolding block_write_header server_write_header commit
  block_write_header-Inv n b inv = elim (ℕ_discrete b.status 0) [
    | no old ↦ subst⁻¹ Inv (ground arith) inv
    | yes new ↦ elim (Bool-cases (internal b.rw.header)) [
      | inl leaks ↦
          let r : Response = record b.rw { header = header_del content_length b.rw.header } in
          let (body, sent, header) = fail500_response r in
          subst⁻¹ Inv {y = record { rw = fail500 server_writer r; hijacked = true; status = 500 }}
            (ground arith)
            (record {
              committed = λ h. sent;
              fresh = λ h. absurd (ground arith);
              replaced = λ h.
                  body ∙ ap (λ t. t ++ (internal_server_error ++ b'\n' ∷ [])) (inv.fresh new).0;
              harmless =
                  λ m h e. ground (arith, header m h e, inv.harmless m h, plain_is_not_internal);
            })
      | inr plain ↦
          subst⁻¹ Inv {y = record b { status = n; rw = server_write_header n b.rw }} (ground arith)
            (record {
              committed = λ h. ground arith;
              fresh = λ h. ground (arith, inv.fresh new);
              replaced = λ h. ground (arith, inv.fresh new);
              harmless = λ m h e. ground (arith, inv.harmless m h, plain);
            })
    ]
  ]

  block_write_header_done :
      (n : ℕ) (b : Blocker Response)
      → n ≢ 0
      → (block_write_header server_writer parse_media_type n b).status ≢ 0
  unfolding block_write_header
  block_write_header_done n b h = ground arith

  block_forward-Inv :
      (s : Text) (b : Blocker Response)
      → b.status ≢ 0
      → Inv b
      → Inv (block_forward server_writer parse_media_type s b).0
  unfolding block_forward server_write commit
  block_forward-Inv s b done inv = elim (Bool-cases b.hijacked) [
    | inl stopped ↦ subst⁻¹ Inv (ground arith) inv
    | inr open_ ↦
        subst⁻¹ Inv {y = record b { rw = (server_write s b.rw).0 }} (ground arith) (record {
          committed = λ h. ground (arith, inv.committed done);
          fresh = λ h. absurd (done h);
          replaced = λ h. absurd (ground arith);
          harmless = λ m h e. ground (arith, inv.committed done, inv.harmless m h);
        })
  ]

  block_write-Inv :
      (s : Text) (b : Blocker Response)
      → Inv b
      → Inv (block_write server_writer parse_media_type s b).0
  unfolding block_write
  block_write-Inv s b inv =
      let fwd : Blocker Response → Blocker Response =
        λ k. (block_forward server_writer parse_media_type s k).0 in
      elim (ℕ_discrete b.status 0) [
        | yes new ↦
            let b' = block_write_header server_writer parse_media_type 200 b in
            subst⁻¹ Inv {y = fwd b'} (ground arith) (
              block_forward-Inv s b' (block_write_header_done 200 b (omega arith))
                (block_write_header-Inv 200 b inv))
        | no old ↦ subst⁻¹ Inv {y = fwd b} (ground arith) (block_forward-Inv s b old inv)
      ]

  act-Inv :
      (a : Action) (b : Blocker Response)
      → Inv b
      → Inv (act (block_writer server_writer parse_media_type) a b)
  act-Inv (set_header k v) b inv = record {
    committed = inv.committed;
    fresh = inv.fresh;
    replaced = inv.replaced;
    harmless = inv.harmless;
  }
  act-Inv (del_header k) b inv = record {
    committed = inv.committed;
    fresh = inv.fresh;
    replaced = inv.replaced;
    harmless = inv.harmless;
  }
  act-Inv (write_header n) b inv = block_write_header-Inv n b inv
  act-Inv (write s) b inv = block_write-Inv s b inv

  serve-Inv :
      (h : List Action) (b : Blocker Response)
      → Inv b
      → Inv (serve (block_writer server_writer parse_media_type) h b)
  unfolding serve
  serve-Inv [] b inv = inv
  serve-Inv (a ∷ h) b inv = serve-Inv h _ (act-Inv a b inv)

  -- Whatever a handler does behind `Block`, and whatever the headers were before it: the client
  -- receives a status, with a header that does not announce an answer of the internal API; and if
  -- the blocker has stepped in, the whole body is the text of an internal server error.
  pub block_leaks_nothing :
      (h : List Action) (header : Header)
      → let b = block server_writer parse_media_type h (record new_response { header = header }) in
        ((n : ℕ) × (sent : Header) × (b.rw.sent ≡ some (n, sent))
          × (is_internal server_writer parse_media_type sent ≡ false))
        × (b.hijacked ≡ true → b.rw.body ≡ internal_server_error ++ b'\n' ∷ [])
  unfolding block
  block_leaks_nothing h header =
      let b0 : Blocker Response = record {
        rw = record new_response { header = header };
        hijacked = false;
        status = 0;
      } in
      let start : Inv b0 = record {
        committed = λ e. absurd (e refl);
        fresh = λ e. (refl, refl);
        replaced = λ e. cc;
        harmless = λ n k e. cc;
      } in
      let b1 = serve (block_writer server_writer parse_media_type) h b0 in
      let inv = block_write_header-Inv 200 b1 (serve-Inv h b0 start) in
      let ((n, sent), e) =
        some_of_ne_none _ (inv.committed (block_write_header_done 200 b1 (omega arith))) in
      ((n, sent, e, inv.harmless n sent e), inv.replaced)
