-- ===== src/Response/SendData/Examples.antt =====
-- `SendData` with an injecter that writes what follows its prefix.

use gitlab_workhorse.Base.{ℕ, ◌≡◌, refl, ◌≢◌, [], ◌∷◌, none, some, true, false}
use gitlab_workhorse.Base.Text.{Text, text_eq, codes, has_prefix, trim_prefix}
use gitlab_workhorse.Base.Dict.{lookup, insert}
use gitlab_workhorse.Http.{
  Header, Response, new_response, server_writer, content_type, header_get, header_set, buffering,
  set_header, del_header, write_header, write, serve,
}
use gitlab_workhorse.Response.SendData.{header_key, Injecter, prefix_match, send_data}
use gitlab_workhorse.Response.SendData.Hidden.{Tame, send_data_is_hidden}
use gitlab_workhorse.Response.SendData.Takeover.{send_data_takes_over}

abbrev echo : Text → Injecter
echo p = record {
  matches = prefix_match p;
  inject = λ v. set_header content_type (codes "text/plain") ∷ write (trim_prefix v p) ∷ [];
}

abbrev blob : Injecter
blob = echo (codes "git-blob:")

abbrev archive : Injecter
archive = echo (codes "git-archive:")

abbrev value : Text
value = codes "git-archive:abc"

abbrev asked : Response
asked = record new_response { header = header_set header_key value [] }

content_type_is_other : (v u : Text) → set_header content_type v ≢ set_header header_key u
unfolding content_type header_key
content_type_is_other v u e = cc

injecters-Tame : Tame (blob ∷ archive ∷ [])
injecters-Tame = (
  λ v. (content_type_is_other _, (λ u e. cc, tt)),
  (λ v. (content_type_is_other _, (λ u e. cc, tt)), tt),
)

send_data_is_hidden_example :
    let s =
      send_data server_writer
        (blob ∷ archive ∷ [])
        (set_header header_key value ∷ write (codes "x") ∷ [])
        (record new_response { header = [] }) in
    ((n : ℕ) (sent : Header) → s.rw.sent ≡ some (n, sent) → lookup header_key sent ≡ none)
    × (s.hijacked ≡ false → s.rw.sent ≢ none)
send_data_is_hidden_example =
    send_data_is_hidden (blob ∷ archive ∷ []) (set_header header_key value ∷ write (codes "x") ∷ [])
      [] injecters-Tame

value_is_found : header_get header_key asked.header ≡ value
unfolding header_key lookup insert text_eq
value_is_found = refl

blob_misses : blob.matches value ≡ false
unfolding prefix_match has_prefix
blob_misses = refl

archive_matches : archive.matches value ≡ true
unfolding prefix_match has_prefix
archive_matches = refl

send_data_takes_over_example :
    let s =
      send_data server_writer
        (blob ∷ archive ∷ [])
        (write_header 200 ∷ write (codes "x") ∷ [])
        asked in
    let alone =
      serve server_writer
        (del_header header_key ∷ set_header buffering (codes "no") ∷ archive.inject value)
        asked in
    (s.rw.sent ≡ alone.sent) × (s.rw.body ≡ alone.body)
send_data_takes_over_example =
    send_data_takes_over (blob ∷ []) archive [] (write (codes "x") ∷ []) asked value value_is_found
      (λ e. cc) (blob_misses, tt) archive_matches
