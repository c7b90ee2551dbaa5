-- ===== src/FileStore/Body/Verified.antt =====
-- What internal/filestore/body_uploader.go hands on.

use gitlab_workhorse.Base.{
  ◌≡◌, ◌⊎◌, inl, inr, Option, some, Bool, true, arith, Bool-cases, Option-cases,
}
use gitlab_workhorse.Base.Text.{Text}
use gitlab_workhorse.Base.Dict.{Dict}
use gitlab_workhorse.FileStore.Options.{SaveFileOpts}
use gitlab_workhorse.FileStore.{FileHandler, Storage, Stored, save_file_from_reader}
use gitlab_workhorse.Http.{ResponseWriter, fail500}
use gitlab_workhorse.Http.Message.{Request}
use gitlab_workhorse.Api.{ApiResponse}
use gitlab_workhorse.FileStore.Saved.{IsSaved, SaveResult-cases, save_file_from_reader-IsSaved}
use gitlab_workhorse.FileStore.Body.{Preparer, body_reader, verified, with_fields, upload_body}

-- The body of a request was saved under the options of the preparer, and passed its check.
pub record IsVerified (env : Storage) (prepare : Preparer) (r : Request) (a : ApiResponse)
    : Type 0 where
  pub opts : SaveFileOpts
  pub verifier : Option (FileHandler → Bool)
  pub prepared : prepare a ≡ some (opts, verifier)
  pub stored : Stored
  pub is_saved : IsSaved env opts (body_reader r) r.content_length stored
  pub passes : verified verifier stored.handler ≡ true

-- The next handler gets the fields of a saved and checked body, or the answer is an internal server
-- error, whatever the next handler is.
pub upload_body-cases :
    {S : Type 0} (w : ResponseWriter S) (env : Storage) (encode : Dict Text → Text)
    → (prepare : Preparer) (r : Request) (a : ApiResponse) (s : S)
    → ((v : IsVerified env prepare r a) × ((h : Request → S → S)
          → upload_body w env encode prepare h r a s
            ≡ h (with_fields w env encode r v.stored.handler) s))
      ⊎ ((h' : Request → S → S) → upload_body w env encode prepare h' r a s ≡ fail500 w s)
unfolding upload_body
upload_body-cases w env encode prepare r a s = elim (Option-cases (prepare a)) [
  | inl unprepared ↦ inr (λ h'. ground (arith, unprepared))
  | inr ((opts, verifier), prepared) ↦
      elim (SaveResult-cases (save_file_from_reader env opts (body_reader r) r.content_length)) [
        | inl (x, failed) ↦ inr (λ h'. ground (arith, prepared, failed))
        | inr (st, done) ↦ elim (Bool-cases (verified verifier st.handler)) [
          | inr refused ↦ inr (λ h'. ground (arith, prepared, done, refused))
          | inl passes ↦ inl (
            record {
              opts = opts;
              verifier = verifier;
              prepared = prepared;
              stored = st;
              is_saved =
                  save_file_from_reader-IsSaved env opts (body_reader r) r.content_length st done;
              passes = passes;
            },
            λ h. ground (arith, prepared, done, passes),
          )
        ]
      ]
]
