-- ===== src/Upload/Accelerate/EndToEnd.antt =====
-- An accelerated upload, from the request to the handler behind internal/upload/accelerate.go.

use gitlab_workhorse.Base.{ℕ, ◌≡◌, ◌⊎◌, inl, inr, refl, ◌∙◌, Option, none, some, Bool}
use gitlab_workhorse.Base.Text.{Text, codes}
use gitlab_workhorse.Base.Dict.{Dict, lookup}
use gitlab_workhorse.Http.{header_get, ResponseWriter, fail500}
use gitlab_workhorse.Http.Message.{Request, request_entity_too_large}
use gitlab_workhorse.Api.{
  Api, ApiResponse, Backend, pre_authorize_handler, pass_response_back, copy_auth_header,
}
use gitlab_workhorse.Api.Authorized.{IsAuthorized, next_needs_authorization}
use gitlab_workhorse.FileStore.{Storage}
use gitlab_workhorse.Upstream.{rewritten_fields_header}
use gitlab_workhorse.Upload.{MultipartReader, not_multipart, FormWriter}
use gitlab_workhorse.Upload.Handled.{IsFinished, handle_file_uploads-cases}
use gitlab_workhorse.Upload.Accelerate.{fields_of, saved_file_tracker, accelerate}
use gitlab_workhorse.Upload.Accelerate.Signed.{AreTheFiles, signed_fields-AreTheFiles}

-- What an upload is handled with: the multipart reader and writer, the storage, the time and the
-- signing of fields.
pub record Tools : Type 0 where
  pub form : FormWriter
  pub storage : Storage
  pub now : ℕ
  pub multipart_reader : Request → MultipartReader
  pub sign : Dict Text → Option Text

-- A request whose form was rewritten, and whose header says, signed, which fields are saved files: the
-- names of the form's files and no others, each with a path at which such a file was saved.
pub record IsVouched (t : Tools) (a : ApiResponse) (r r' : Request) : Type 0 where
  pub finished :
      IsFinished t.storage a (saved_file_tracker t.sign) none t.form t.multipart_reader r r'
  pub files : AreTheFiles t.storage a t.sign finished.form_parts (fields_of finished.state)
  pub header :
      ((lookup rewritten_fields_header r'.header ≡ none) × (finished.state ≡ none))
      ⊎ ((fields : Dict Text) × (token : Text) × (finished.state ≡ some fields)
          × (t.sign fields ≡ some token)
          × (header_get rewritten_fields_header r'.header ≡ token))

-- Let a request come without the header for rewritten fields. The handler behind Accelerate is called
-- only if Rails has allowed the request, and gets either the request as it is, if it has no form, or
-- one whose form was rewritten and whose header vouches for the form's files and nothing else. For
-- any other request the result is the same whatever the handler is.
pub accelerate-IsVouched :
    {S : Type 0} (w : ResponseWriter S) (t : Tools) (api : Api) (backend : Backend)
    → (equal_fold : Text → Bool) (r : Request) (s : S)
    → lookup rewritten_fields_header r.header ≡ none
    → let result : (Request → S → S) → S = λ h.
      accelerate w t.form t.storage t.now t.multipart_reader t.sign
        (pre_authorize_handler w api backend equal_fold)
        h
        r
        s in
      ((a : IsAuthorized api backend (codes "/authorize") r) × (r' : Request) × (((r' ≡ r)
            × (t.multipart_reader r ≡ not_multipart))
          ⊎ IsVouched t a.answer r r')
        × ((h : Request → S → S)
            → result h
              ≡ h r' (w.set_header (copy_auth_header equal_fold a.response.header (w.header s)) s)))
      ⊎ ((answer : S) × ((h : Request → S → S) → result h ≡ answer))
unfolding accelerate
accelerate-IsVouched w t api backend equal_fold r s fresh =
    elim (next_needs_authorization w api backend equal_fold (codes "/authorize") r s) [
      | inr (inl (_, failed)) ↦ inr (fail500 w s, λ h. failed _)
      | inr (inr (p, passed)) ↦ inr (pass_response_back w p.response s, λ h. passed _)
      | inl (a, reached) ↦
          let s1 = w.set_header (copy_auth_header equal_fold a.response.header (w.header s)) s in
          elim (handle_file_uploads-cases t.storage a.answer (saved_file_tracker t.sign) none w
            t.form t.now t.multipart_reader r s1) [
              | inl (r', f, handed) ↦
                  let (files, header) =
                    signed_fields-AreTheFiles t.storage a.answer t.sign t.form t.multipart_reader r
                      r' f fresh in
                  inl (
                    a,
                    r',
                    inr (record { finished = f; files = files; header = header }),
                    λ h. reached _ ∙ handed h,
                  )
              | inr (inl (plain, handed)) ↦ inl (a, r, inl (refl, plain), λ h. reached _ ∙ handed h)
              | inr (inr (inl large)) ↦
                  inr (request_entity_too_large w s1, λ h. reached _ ∙ large h)
              | inr (inr (inr failed)) ↦ inr (fail500 w s1, λ h. reached _ ∙ failed h)
            ]
    ]
