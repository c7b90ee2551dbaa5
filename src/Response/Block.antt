-- ===== src/Response/Block.antt =====
-- internal/api/block.go: answers of the internal API do not go out to the client.
pub mod Leaks
mod Examples
use mathlib.Core.Option
use gitlab_workhorse.Base.{
  ℕ, ◌==◌, List, [], ◌∷◌, Option, none, some, Bool, true, false, if◌then◌else◌,
}
use gitlab_workhorse.Base.Text.{Text, text_eq, codes}
use gitlab_workhorse.Http.{
  Header, header_get, ResponseWriter, content_type, content_length, del_key, fail500, Action, serve,
}

-- `ResponseContentType`.
unfoldable pub response_content_type : Text
response_content_type = codes "application/vnd.gitlab-workhorse+json"

-- `helper.IsContentType`, given the media type that `mime.ParseMediaType` finds, if any.
unfoldable pub is_content_type : (Text → Option Text) → Text → Text → Bool
is_content_type parse_media_type expected actual = elim (parse_media_type actual) [
  | none ↦ false
  | some parsed ↦ text_eq parsed expected
]

pub record Blocker (S : Type 0) : Type 0 where
  pub rw : S
  pub hijacked : Bool
  pub status : ℕ

module _ {S : Type 0} (w : ResponseWriter S) (parse_media_type : Text → Option Text) where
  -- Does the header announce an answer of the internal API?
  abbrev pub is_internal : Header → Bool
  is_internal h = is_content_type parse_media_type response_content_type (header_get content_type h)

  unfoldable pub block_write_header : ℕ → Blocker S → Blocker S
  block_write_header status b =
      if b.status == 0
      then if is_internal (w.header b.rw)
        then record b {
          status = 500;
          hijacked = true;
          rw = fail500 w (del_key w content_length b.rw);
        }
        else record b { status = status; rw = w.write_header status b.rw }
      else b

  block_forward : Text → Blocker S → Blocker S × ℕ
  block_forward s b =
      if b.hijacked then (b, 0) else let (rw, n) = w.write s b.rw in (record b { rw = rw }, n)

  unfoldable pub block_write : Text → Blocker S → Blocker S × ℕ
  unfolding block_forward
  block_write s b = block_forward s (if b.status == 0 then block_write_header 200 b else b)

  abbrev pub block_writer : ResponseWriter (Blocker S)
  block_writer = record {
    header = λ b. w.header b.rw;
    set_header = λ h b. record b { rw = w.set_header h b.rw };
    write_header = block_write_header;
    write = block_write;
  }

  -- `Block(h)`: the handler, and then the deferred `Flush`; the response is in `rw`.
  unfoldable pub block : List Action → S → Blocker S
  block h s =
      let b : Blocker S = record { rw = s; hijacked = false; status = 0 } in
      block_write_header 200 (serve block_writer h b)
