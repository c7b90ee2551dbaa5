-- ===== src/FileStore/Saved.antt =====
-- What a saved file of internal/filestore/file_handler.go is.

use gitlab_workhorse.Base.{
  ℕ, ◌≡◌, refl, ◌⊎◌, inl, inr, Option, none, some, true, false, if◌then◌else◌, length, arith,
  Bool-cases, Option-cases,
}
use gitlab_workhorse.Base.Text.{Text, text_eq}
use gitlab_workhorse.Base.Dict.{lookup, insert, lookup-insert}
use gitlab_workhorse.FileStore.Options.{SaveFileOpts, is_local, is_remote}
use gitlab_workhorse.FileStore.{
  Closed, uploaded, not_enough_parts, close_error, Upload, Storage, SaveError, Reader, Stored,
  SaveResult, saved, save_failed, md5, sha1, sha256, sha512, etag, hash_factories, finish,
  get_sha256, remote_writer, upload_local_file, copies, copied, close_remote, copy_to, opened,
  save_file_from_reader,
}

sha256_is_found :
    (checksum : Text → Text → Text) (s : Text)
    → lookup sha256 (finish checksum hash_factories s) ≡ some (checksum sha256 s)
unfolding finish lookup insert sha256 md5 sha1 sha512 text_eq
sha256_is_found checksum s = refl

etag_is_other : text_eq etag sha256 ≡ false
unfolding etag sha256 text_eq
etag_is_other = refl

Closed-cases :
    (c : Closed)
    → ((tag : Text) × (c ≡ uploaded tag)) ⊎ ((c ≡ not_enough_parts) ⊎ (c ≡ close_error))
Closed-cases (uploaded tag) = inl (tag, refl)
Closed-cases not_enough_parts = inr (inl refl)
Closed-cases close_error = inr (inr refl)

pub SaveResult-cases :
    (x : SaveResult) → ((e : SaveError) × (x ≡ save_failed e)) ⊎ ((st : Stored) × (x ≡ saved st))
SaveResult-cases (save_failed e) = inl (e, refl)
SaveResult-cases (saved st) = inr (st, refl)

-- A saved file: it was read to the end, and has the size that was announced, if one was; every
-- destination that the options ask for, of which there is one, holds exactly its bytes; and Rails is
-- told their number and their SHA-256.
pub record IsSaved (env : Storage) (opts : SaveFileOpts) (reader : Reader) (size : Option ℕ)
    (st : Stored) : Type 0 where
  pub complete : reader.read_fails ≡ false
  pub announced : (n : ℕ) → size ≡ some n → n ≡ length reader.content
  pub on_disk : st.on_disk ≡ (if is_local opts then some reader.content else none)
  pub in_store : st.in_store ≡ (if is_remote opts then some reader.content else none)
  pub somewhere : (is_local opts ≡ true) ⊎ (is_remote opts ≡ true)
  pub size_told : st.handler.size ≡ length reader.content
  pub sha256_told : get_sha256 st.handler ≡ env.checksum sha256 reader.content

close_remote-sha256 :
    (env : Storage) (opts : SaveFileOpts) (reader : Reader) (remote : Option Upload)
    (local : Option Text)
    → (st : Stored)
    → close_remote env opts reader (copied env opts reader remote local) remote ≡ saved st
    → get_sha256 st.handler ≡ env.checksum sha256 reader.content
unfolding close_remote copied get_sha256
close_remote-sha256 env opts reader none local st e =
    ground (arith, e, sha256_is_found env.checksum reader.content)
close_remote-sha256 env opts reader (some u) local st e =
    elim (Closed-cases (u.close reader.content)) [
      | inl (tag, done) ↦ ground (
        arith,
        e,
        done,
        sha256_is_found env.checksum reader.content,
        lookup-insert etag sha256 tag (finish env.checksum hash_factories reader.content),
        etag_is_other,
      )
      | inr failed ↦ absurd (ground (arith, e, failed))
    ]

copied_sha256 :
    (env : Storage) (opts : SaveFileOpts) (reader : Reader) (size : Option ℕ) (st : Stored)
    → save_file_from_reader env opts reader size ≡ saved st
    → get_sha256 st.handler ≡ env.checksum sha256 reader.content
unfolding save_file_from_reader copy_to
copied_sha256 env opts reader size st e = elim (Option-cases (upload_local_file env opts)) [
  | inl failed ↦ absurd (ground (arith, e, failed))
  | inr (local, made) ↦
      close_remote-sha256 env opts reader (remote_writer env opts size) local st
        (ground (arith, e, made))
]

-- A file that `SaveFileFromReader` returns is saved.
pub save_file_from_reader-IsSaved :
    (env : Storage) (opts : SaveFileOpts) (reader : Reader) (size : Option ℕ) (st : Stored)
    → save_file_from_reader env opts reader size ≡ saved st
    → IsSaved env opts reader size st
unfolding save_file_from_reader remote_writer upload_local_file copies copy_to close_remote copied
    opened is_remote get_sha256
save_file_from_reader-IsSaved env opts reader size st e =
    let hash = sha256_is_found env.checksum reader.content in
    record {
      complete = ground (arith, e);
      announced = λ n h. ground (arith, e, h);
      on_disk = ground (arith, e);
      in_store = ground (arith, e);
      somewhere = elim (Bool-cases (is_local opts)) [
        | inl here ↦ inl here
        | inr nowhere ↦ inr (ground (arith, e, nowhere))
      ];
      size_told = ground (arith, e);
      sha256_told = copied_sha256 env opts reader size st e;
    }
