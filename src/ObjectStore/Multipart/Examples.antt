-- ===== src/ObjectStore/Multipart/Examples.antt =====
-- Parts of two bytes, and a store that answers each of them.

use gitlab_workhorse.Base.{
  ℕ, ◌≡◌, ◌≤◌, refl, List, [], ◌∷◌, ◌++◌, Option, none, some, Bool, true, length, All,
}
use gitlab_workhorse.Base.Text.{Text, codes, text_eq}
use gitlab_workhorse.ObjectStore.Multipart.{
  CompleteMultipartUploadPart, Progress, ended, new_multipart, finish, upload_parts,
  read_and_upload_one_part, complete, verify_etag, extract_etag,
}
use gitlab_workhorse.ObjectStore.Multipart.Parts.{content, IsFilled, parts_are_the_object}
use gitlab_workhorse.ObjectStore.Multipart.Etag.{extract_etag_lem}

abbrev buffers : ℕ → Bool
buffers i = true

abbrev upload_part : Text → Text → Option Text
upload_part url src = some src

abbrev checksum : List CompleteMultipartUploadPart → Option Text
checksum part = some (codes "sum")

abbrev urls : List Text
urls = codes "u1" ∷ codes "u2" ∷ []

abbrev uploaded_abc : Progress
uploaded_abc = record {
  part =
      record { part_number = 1; etag = codes "ab" }
      ∷ record { part_number = 2; etag = codes "c" }
      ∷ [];
  sent = (codes "u1", codes "ab") ∷ (codes "u2", codes "c") ∷ [];
  etag = codes "sum";
}

abc_is_uploaded :
    new_multipart 2 buffers upload_part checksum checksum urls (codes "abc") true
    ≡ ended none uploaded_abc
unfolding new_multipart finish upload_parts read_and_upload_one_part complete verify_etag
    extract_etag text_eq
abc_is_uploaded = refl

parts_are_the_object_example :
    (content uploaded_abc.sent ≡ codes "abc")
    × All (IsFilled 2 buffers upload_part checksum checksum) uploaded_abc.sent
    × (length uploaded_abc.sent ≤ length urls)
    × (length uploaded_abc.part ≡ length uploaded_abc.sent)
parts_are_the_object_example =
    parts_are_the_object 2 buffers upload_part checksum checksum urls (codes "abc") true
      uploaded_abc abc_is_uploaded

extract_etag_lem_example :
    (extract_etag (b'"' ∷ codes "abc" ++ b'"' ∷ []) ≡ some (codes "abc"))
    × ((extract_etag (codes "abc") ≡ none → codes "abc" ≡ codes "\"")
        × (codes "abc" ≡ codes "\"" → extract_etag (codes "abc") ≡ none))
extract_etag_lem_example = extract_etag_lem (codes "abc")
