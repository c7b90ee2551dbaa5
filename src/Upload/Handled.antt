-- ===== src/Upload/Handled.antt =====
-- When the handler behind HandleFileUploads, of internal/upload/uploads.go, is called.

use mathlib.Core.Path.{subst}
use gitlab_workhorse.Base.{
  ℕ, ◌≡◌, ◌≢◌, refl, sym, ap, ◌∙◌, ◌⊎◌, inl, inr, List, [], ◌∷◌, none, some, Bool, false, not, ◌&&◌,
  arith, Bool-cases, Option-cases,
}
use gitlab_workhorse.Http.{ResponseWriter, fail500}
use gitlab_workhorse.Http.Message.{Request, request_entity_too_large}
use gitlab_workhorse.Api.{ApiResponse}
use gitlab_workhorse.FileStore.Options.{get_opts, is_local, is_remote}
use gitlab_workhorse.FileStore.{
  Storage, err_entity_too_large, open_error, local_error, missing_destination, copy_error,
  size_error, remote_error, save_file_from_reader,
}
use gitlab_workhorse.FileStore.Saved.{SaveResult-cases}
use gitlab_workhorse.Upload.{
  Part, Piece, Processor, written, rewrite_failed, UploadError, err_not_multipart, bad_reader,
  next_part_error, illegal_filename, process_file_error, persist_error, duplicate_error,
  process_field_error, MultipartReader, not_multipart, malformed, parts, FormWriter, with_form,
  answer_error, handle_file_uploads, rewrite_part, copy_part, handle_file_part, finalize_file,
  part_opts, rewrite_parts, rewrite_form_files_from_multipart,
}
use gitlab_workhorse.Upload.Rewritten.{Rewriting-cases, AreRewritten, rewrite_parts-AreRewritten}

module _ {S : Type 0} (w : ResponseWriter S) (form : FormWriter) where
  error-cases :
      (e : UploadError)
      → (e ≡ err_not_multipart)
        ⊎ (e ≡ persist_error err_entity_too_large)
        ⊎ ((h : Request → S → S) (r : Request) (s : S) → answer_error w form h e r s ≡ fail500 w s)
  unfolding answer_error
  error-cases err_not_multipart = inl refl
  error-cases bad_reader = inr (inr (λ h r s. refl))
  error-cases next_part_error = inr (inr (λ h r s. refl))
  error-cases illegal_filename = inr (inr (λ h r s. refl))
  error-cases process_file_error = inr (inr (λ h r s. refl))
  error-cases (persist_error err_entity_too_large) = inr (inl refl)
  error-cases (persist_error open_error) = inr (inr (λ h r s. refl))
  error-cases (persist_error local_error) = inr (inr (λ h r s. refl))
  error-cases (persist_error missing_destination) = inr (inr (λ h r s. refl))
  error-cases (persist_error copy_error) = inr (inr (λ h r s. refl))
  error-cases (persist_error (size_error n k)) = inr (inr (λ h r s. refl))
  error-cases (persist_error remote_error) = inr (inr (λ h r s. refl))
  error-cases duplicate_error = inr (inr (λ h r s. refl))
  error-cases process_field_error = inr (inr (λ h r s. refl))

module _ {P : Type 0} (env : Storage) (preauth : ApiResponse) (filter : Processor P)
    (start : P) where
  -- The whole form was rewritten, and the processor has finished the request.
  pub record IsFinished (form : FormWriter) (multipart_reader : Request → MultipartReader)
      (r r' : Request) : Type 0 where
    pub form_parts : List Part
    pub read : multipart_reader r ≡ parts form_parts false
    pub state : P
    pub pieces : List Piece
    pub rewritten : AreRewritten env preauth filter form_parts start state pieces
    pub finalized : filter.finalize state (with_form form r pieces) ≡ some r'

  written_multipart :
      (m : MultipartReader) (q : P) (out : List Piece)
      → rewrite_form_files_from_multipart env preauth filter m start ≡ written q out
      → (ps : List Part) × (m ≡ parts ps false) × AreRewritten env preauth filter ps start q out
  unfolding rewrite_form_files_from_multipart
  written_multipart not_multipart q out e = absurd (ground (arith, e))
  written_multipart malformed q out e = absurd (ground (arith, e))
  written_multipart (parts ps broken) q out e =
      let (pieces, finished, split, done) =
        rewrite_parts-AreRewritten env preauth filter ps broken start [] q out e in
      (
        ps,
        ap (parts ps) finished,
        subst (AreRewritten env preauth filter ps start q) (sym split) done,
      )

  rewrite_part_multipart :
      (p : Part) (q : P) (out : List Piece)
      → rewrite_part env preauth filter p q out ≢ rewrite_failed err_not_multipart
  unfolding rewrite_part copy_part handle_file_part finalize_file
  rewrite_part_multipart p q out e =
      elim (SaveResult-cases
        (save_file_from_reader env (part_opts env preauth filter p) p.reader none)) [
          | inl (x, failed) ↦ ground (arith, e, failed)
          | inr (st, done) ↦ ground (arith, e, done)
        ]

  rewrite_parts_multipart :
      (ps : List Part) (broken : Bool) (q : P) (out : List Piece)
      → rewrite_parts env preauth filter ps broken q out ≢ rewrite_failed err_not_multipart
  unfolding rewrite_parts
  rewrite_parts_multipart [] broken q out e = ground (arith, e)
  rewrite_parts_multipart (p ∷ ps) broken q out e =
      elim (Rewriting-cases (rewrite_part env preauth filter p q out)) [
        | inl (x, failed) ↦ rewrite_part_multipart p q out (ground (arith, e, failed))
        | inr (q', out', one) ↦ rewrite_parts_multipart ps broken q' out' (ground (arith, e, one))
      ]

  not_multipart_found :
      (m : MultipartReader)
      → rewrite_form_files_from_multipart env preauth filter m start
        ≡ rewrite_failed err_not_multipart
      → m ≡ not_multipart
  unfolding rewrite_form_files_from_multipart
  not_multipart_found not_multipart e = refl
  not_multipart_found malformed e = absurd (ground (arith, e))
  not_multipart_found (parts ps broken) e = absurd (rewrite_parts_multipart ps broken start [] e)

  -- The handler gets the finished request of a form that was rewritten whole, or a request that is
  -- no form, unchanged; otherwise the answer is 413 or an internal server error, whatever the
  -- handler is.
  pub handle_file_uploads-cases :
      {S : Type 0} (w : ResponseWriter S) (form : FormWriter) (now : ℕ)
      → (multipart_reader : Request → MultipartReader) (r : Request) (s : S)
      → let result : (Request → S → S) → S =
          λ h. handle_file_uploads w form env now multipart_reader h preauth filter start r s in
        ((r' : Request) × (f : IsFinished form multipart_reader r r') × ((h : Request → S → S)
            → result h ≡ h r' s))
        ⊎ ((plain : multipart_reader r ≡ not_multipart) × ((h : Request → S → S)
              → result h ≡ h r s))
        ⊎ ((h : Request → S → S) → result h ≡ request_entity_too_large w s)
        ⊎ ((h : Request → S → S) → result h ≡ fail500 w s)
  unfolding handle_file_uploads answer_error
  handle_file_uploads-cases w form now multipart_reader r s =
      let opts = get_opts now preauth in
      elim (Bool-cases (not (is_local opts) && not (is_remote opts))) [
        | inl nowhere ↦ inr (inr (inr (λ h. ground (arith, nowhere))))
        | inr somewhere ↦
            elim (Rewriting-cases
              (rewrite_form_files_from_multipart env preauth filter (multipart_reader r) start)) [
                | inr (q, pieces, done) ↦
                    let (ps, read, rewritten) =
                      written_multipart (multipart_reader r) q pieces done in
                    elim (Option-cases (filter.finalize q (with_form form r pieces))) [
                      | inl refused ↦
                          inr (inr (inr (λ h. ground (arith, somewhere, done, refused))))
                      | inr (r', finalized) ↦ inl (
                        r',
                        record {
                          form_parts = ps;
                          read = read;
                          state = q;
                          pieces = pieces;
                          rewritten = rewritten;
                          finalized = finalized;
                        },
                        λ h. ground (arith, somewhere, done, finalized),
                      )
                    ]
                | inl (e, failed) ↦ elim (error-cases w form e) [
                  | inl plain ↦ inr (
                      inl (
                        not_multipart_found (multipart_reader r) (failed ∙ ap rewrite_failed plain),
                        λ h. ground (arith, somewhere, failed, plain),
                      ))
                  | inr (inl large) ↦
                      inr (inr (inl (λ h. ground (arith, somewhere, failed, large))))
                  | inr (inr other) ↦
                      inr (inr (inr (λ h. ground (arith, somewhere, failed, other h r s))))
                ]
              ]
      ]
