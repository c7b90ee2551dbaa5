-- ===== src/Upstream/Handlers.antt =====
-- internal/upstream/handlers.go and notfoundunless.go: handlers around others.

use gitlab_workhorse.Base.{
  ◌≡◌, ◌⊎◌, inl, inr, [], Option, none, some, Bool, true, if◌then◌else◌, arith, Bool-cases,
  Option-cases,
}
use gitlab_workhorse.Base.Text.{Text, codes, text_eq}
use gitlab_workhorse.Http.{header_get, header_del, ResponseWriter, fail500}
use gitlab_workhorse.Http.Message.{Request, not_found}
use gitlab_workhorse.FileStore.{Reader}

unfoldable pub content_encoding : Text
content_encoding = codes "Content-Encoding"

-- The body behind its encoding; `gunzip` is `gzip.NewReader`.
unfoldable pub decoded_body : (Text → Bool → Option Reader) → Request → Option Reader
decoded_body gunzip r =
    let encoding = header_get content_encoding r.header in
    if text_eq encoding []
    then some (record { content = r.body; read_fails = r.body_fails })
    else if text_eq encoding (codes "gzip")
    then gunzip r.body r.body_fails
    else none

-- The request with that body.
abbrev pub with_body : Request → Reader → Request
with_body r reader = record r {
  body = reader.content;
  body_fails = reader.read_fails;
  header = header_del content_encoding r.header;
}

module _ {S : Type 0} (w : ResponseWriter S) where
  unfoldable pub content_encoding_handler :
      (Text → Bool → Option Reader) → (Request → S → S) → Request → S → S
  content_encoding_handler gunzip h r s = elim (decoded_body gunzip r) [
    | none ↦ fail500 w s
    | some reader ↦ h (with_body r reader) s
  ]

  unfoldable pub not_found_unless : Bool → (Request → S → S) → Request → S → S
  not_found_unless pass handler r s = if pass then handler r s else not_found w s

  -- The handler gets a body without an encoding, as it came where no encoding is named, and unzipped
  -- where it is gzip; or the answer is an internal server error, whatever the handler is.
  encodings_are_undone :
      (gunzip : Text → Bool → Option Reader) (r : Request) (s : S)
      → let encoding = header_get content_encoding r.header in
        let result : (Request → S → S) → S = λ h. content_encoding_handler gunzip h r s in
        ((reader : Reader) × ((text_eq encoding [] ≡ true)
            ⊎ ((text_eq encoding (codes "gzip") ≡ true)
                × (gunzip r.body r.body_fails ≡ some reader)))
          × ((h : Request → S → S) → result h ≡ h (with_body r reader) s))
        ⊎ ((h : Request → S → S) → result h ≡ fail500 w s)
  unfolding content_encoding_handler decoded_body
  encodings_are_undone gunzip r s =
      let encoding = header_get content_encoding r.header in
      elim (Bool-cases (text_eq encoding [])) [
        | inl plain ↦ inl (
          record { content = r.body; read_fails = r.body_fails },
          inl plain,
          λ h. ground (arith, plain),
        )
        | inr encoded ↦ elim (Bool-cases (text_eq encoding (codes "gzip"))) [
          | inr unknown ↦ inr (λ h. ground (arith, encoded, unknown))
          | inl gzip ↦ elim (Option-cases (gunzip r.body r.body_fails)) [
            | inl broken ↦ inr (λ h. ground (arith, encoded, gzip, broken))
            | inr (reader, unzipped) ↦
                inl (reader, inr (gzip, unzipped), λ h. ground (arith, encoded, gzip, unzipped))
          ]
        ]
      ]
