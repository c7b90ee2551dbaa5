-- ===== src/Artifacts/Quoted.antt =====
-- The file names that internal/artifacts/entry.go puts into a header.

use mathlib.Core.Path.{subst⁻¹}
use gitlab_workhorse.Base.{
  ℕ, ◌==◌, ◌≡◌, ◌≢◌, inl, inr, refl, ap, ◌∙◌, [], ◌∷◌, ◌++◌, Option, none, some, if◌then◌else◌,
  arith, ℕ_discrete, Option-cases, take,
}
use gitlab_workhorse.Base.Text.{Text, codes, text_eq_refl}
use gitlab_workhorse.Base.Dict.{lookup-insert}
use gitlab_workhorse.Http.{
  Header, header_get, header_set, Response, server_writer, server_write, io_copy, commit,
  content_type, content_length,
}
use gitlab_workhorse.Artifacts.{
  escape_quotes, Env, CatFile, content_disposition, disposition_header, send_file,
  detect_file_content_type,
}

-- A quoted string as a client reads it, after its first quote: the text, and what follows the quote
-- that ends it.
unfoldable pub read_quoted : Text → Option (Text × Text)
read_quoted [] = none
read_quoted (c ∷ []) = if c == b'"' then some ([], []) else none
read_quoted (c ∷ d ∷ s) =
    let escaped = read_quoted s in
    let plain = read_quoted (d ∷ s) in
    if c == b'"'
    then some ([], d ∷ s)
    else if c == b'\\'
    then elim escaped [ none ↦ none | some (t, rest) ↦ some (d ∷ t, rest) ]
    else elim plain [ none ↦ none | some (t, rest) ↦ some (c ∷ t, rest) ]

read_plain :
    (c : ℕ) (s t rest : Text)
    → c ≢ b'"'
    → c ≢ b'\\'
    → read_quoted s ≡ some (t, rest)
    → read_quoted (c ∷ s) ≡ some (c ∷ t, rest)
unfolding read_quoted
read_plain c [] t rest q b e = absurd (ground (arith, e))
read_plain c (d ∷ s) t rest q b e = ground (arith, q, b, e)

read_escaped :
    (d : ℕ) (s t rest : Text)
    → read_quoted s ≡ some (t, rest)
    → read_quoted (b'\\' ∷ d ∷ s) ≡ some (d ∷ t, rest)
unfolding read_quoted
read_escaped d s t rest e = ground (arith, e)

escape_slash : (s : Text) → escape_quotes (b'\\' ∷ s) ≡ b'\\' ∷ b'\\' ∷ escape_quotes s
unfolding escape_quotes
escape_slash s = refl

escape_quote : (s : Text) → escape_quotes (b'"' ∷ s) ≡ b'\\' ∷ b'"' ∷ escape_quotes s
unfolding escape_quotes
escape_quote s = refl

escape_plain :
    (c : ℕ) (s : Text) → c ≢ b'\\' → c ≢ b'"' → escape_quotes (c ∷ s) ≡ c ∷ escape_quotes s
unfolding escape_quotes
escape_plain c s b q = ground (arith, b, q)

-- A client reads back the text that was escaped, and the quote that ends it is the one after it.
pub read_quoted-escape_quotes :
    (s rest : Text) → read_quoted (escape_quotes s ++ b'"' ∷ rest) ≡ some (s, rest)
unfolding read_quoted escape_quotes
read_quoted-escape_quotes [] [] = refl
read_quoted-escape_quotes [] (c ∷ rest) = refl
read_quoted-escape_quotes (c ∷ s) rest =
    let after = escape_quotes s ++ b'"' ∷ rest in
    let back = read_quoted-escape_quotes s rest in
    elim (ℕ_discrete c b'\\') [
      | yes slash ↦
          subst⁻¹ (λ d. read_quoted (escape_quotes (d ∷ s) ++ b'"' ∷ rest) ≡ some (d ∷ s, rest))
            slash (read_escaped b'\\' after s rest back)
      | no no_slash ↦ elim (ℕ_discrete c b'"') [
        | yes quote ↦
            subst⁻¹ (λ d. read_quoted (escape_quotes (d ∷ s) ++ b'"' ∷ rest) ≡ some (d ∷ s, rest))
              quote (read_escaped b'"' after s rest back)
        | no no_quote ↦
            ap (λ t. read_quoted (t ++ b'"' ∷ rest)) (escape_plain c s no_slash no_quote)
            ∙ read_plain c after s rest no_quote no_slash back
      ]
    ]

written_header : (t : Text) (r : Response) → (server_write t r).0.header ≡ r.header
unfolding server_write commit
written_header t r = elim (Option-cases r.sent) [
  | inl fresh ↦ ground (arith, fresh)
  | inr (x, sent) ↦ ground (arith, sent)
]

copied_header : (n : ℕ) (t : Text) (r : Response) → (io_copy server_writer n t r).header ≡ r.header
unfolding io_copy
copied_header n [] r = refl
copied_header n (c ∷ t) r = written_header (take n (c ∷ t)) r

disposition_of :
    (name : Text)
    → content_disposition name
      ≡ codes "attachment; filename=" ++ b'"' ∷ escape_quotes name ++ b'"' ∷ []
unfolding content_disposition
disposition_of name = refl

header_get-header_set : (k v : Text) (h : Header) → header_get k (header_set k v h) ≡ v
header_get-header_set k v h = ground (arith, lookup-insert k k (v ∷ []) h, text_eq_refl k)

-- The name in the header `Content-Disposition` of an entry that is sent, read as a quoted string, is
-- the base name of the file, whatever quotes and backslashes it has, with nothing after it.
pub sent_name_reads_back :
    (env : Env) (file_name size : Text) (cat : CatFile) (s : Response)
    → let header = (send_file server_writer env file_name size cat s).0.header in
      (quoted : Text) × (header_get disposition_header header
        ≡ codes "attachment; filename=" ++ b'"' ∷ quoted)
      × (read_quoted quoted ≡ some (env.base file_name, []))
unfolding send_file
sent_name_reads_back env file_name size cat s =
    let h1 = header_set content_length size s.header in
    let h2 = header_set content_type (detect_file_content_type env file_name) h1 in
    let name = env.base file_name in
    let value = content_disposition name in
    let ready = record s { header = header_set disposition_header value h2 } in
    (
      escape_quotes name ++ b'"' ∷ [],
      ap (header_get disposition_header) (copied_header env.client_takes cat.body.content ready)
          ∙ header_get-header_set disposition_header value h2
          ∙ disposition_of name,
      read_quoted-escape_quotes name [],
    )
