-- ===== src/Upload/Artifacts/OneFile.antt =====
-- How many files an upload of internal/artifacts/artifacts_upload.go has.

use gitlab_workhorse.Base.{
  ◌≡◌, refl, ◌⊎◌, inl, inr, List, [], ◌∷◌, some, Bool, true, false, if◌then◌else◌, arith,
  Option-cases, ◌||◌,
}
use gitlab_workhorse.Base.Text.{Text, codes, text_eq, text_eq_iff}
use gitlab_workhorse.Api.{ApiResponse}
use gitlab_workhorse.FileStore.Options.{SaveFileOpts}
use gitlab_workhorse.FileStore.{Storage, FileHandler}
use gitlab_workhorse.Upload.{Part, Piece}
use gitlab_workhorse.Upload.Rewritten.{AreRewritten}
use gitlab_workhorse.Upload.Artifacts.{
  Runner, process_file, generate_metadata_from_zip, artifacts_upload_processor,
}

-- The form names of the files of a form.
unfoldable pub files_of : List Part → List Text
files_of [] = []
files_of (p ∷ ps) =
    let rest = files_of ps in
    if text_eq p.form_name [] || text_eq p.file_name [] then rest else p.form_name ∷ rest

module _ (env : Storage) (preauth : ApiResponse) (run : Runner) (opts : SaveFileOpts) where
  processed_once :
      (form_name : Text) (file : FileHandler) (q q' : Bool) (more : List Piece)
      → process_file env run opts form_name file q ≡ some (q', more)
      → (form_name ≡ codes "file") × (q ≡ false) × (q' ≡ true)
  unfolding process_file
  processed_once form_name file q q' more e =
      elim (Option-cases (generate_metadata_from_zip env run opts file)) [
        | inl failed ↦ absurd (ground (arith, e, failed))
        | inr (metadata, made) ↦ (
          ground (arith, e, text_eq_iff form_name (codes "file")),
          ground (arith, e),
          ground (arith, e, made),
        )
      ]

  -- An upload of artifacts that is rewritten without an error has no file, or exactly one, in the
  -- field "file"; and its processor has stored a file exactly in the second case.
  pub artifacts_have_one_file :
      (ps : List Part) (q q' : Bool) (pieces : List Piece)
      → AreRewritten env preauth (artifacts_upload_processor env run opts) ps q q' pieces
      → ((files_of ps ≡ []) × (q' ≡ q))
        ⊎ ((files_of ps ≡ codes "file" ∷ []) × (q ≡ false) × (q' ≡ true))
  unfolding files_of
  artifacts_have_one_file [] q q' pieces (same, nothing) = inl (refl, same)
  artifacts_have_one_file (p ∷ ps) q q' pieces (mid, front, back, split, one, rest) =
      let others = artifacts_have_one_file ps mid q' back rest in
      elim one [
        | inl (anonymous, same, nothing) ↦ ground (arith, anonymous, same, others)
        | inr (inr (named, done)) ↦ ground (arith, named, done.is_field, done.processed, others)
        | inr (inl (f, done)) ↦
            let (name, before, after) =
              processed_once p.form_name done.stored.handler q mid done.more done.processed in
            inr (
              ground (arith, f, name, before, after, others),
              before,
              ground (arith, after, others),
            )
      ]
