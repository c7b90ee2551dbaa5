-- ===== src/Lfs/Checked.antt =====
-- Which LFS objects Rails hears about.

use mathlib.Core.Path.{subst}
use gitlab_workhorse.Base.{ℕ, ◌≡◌, refl, sym, ap, ◌∙◌, ◌⊎◌, inl, inr, some, Bool, length, arith}
use gitlab_workhorse.Base.Text.{Text, codes, text_eq_iff}
use gitlab_workhorse.Base.Dict.{Dict}
use gitlab_workhorse.FileStore.Options.{get_opts}
use gitlab_workhorse.FileStore.{Storage, Stored, sha256, get_sha256}
use gitlab_workhorse.Http.{ResponseWriter, fail500}
use gitlab_workhorse.Http.Message.{Request}
use gitlab_workhorse.Api.{Api, ApiResponse, Backend, pass_response_back, copy_auth_header}
use gitlab_workhorse.Api.Authorized.{IsAuthorized, next_needs_authorization}
use gitlab_workhorse.FileStore.Saved.{IsSaved}
use gitlab_workhorse.FileStore.Body.{body_reader, with_fields, upload_body, body_uploader}
use gitlab_workhorse.FileStore.Body.Verified.{IsVerified, upload_body-cases}
use gitlab_workhorse.Lfs.{verify, prepare, put_store}

-- The body of a request is the object that Rails has allowed: its size and its SHA-256 are those of
-- the answer, and it is saved where the options for the answer say.
pub record IsAllowedObject (env : Storage) (now : ℕ) (r : Request) (a : ApiResponse) : Type 0 where
  pub stored : Stored
  pub is_saved :
      IsSaved env
        (record (get_opts now a) { temp_file_prefix = a.lfs_oid })
        (body_reader r)
        r.content_length
        stored
  pub size : length r.body ≡ a.lfs_size
  pub oid : env.checksum sha256 r.body ≡ a.lfs_oid

verified-IsAllowedObject :
    (env : Storage) (now : ℕ) (r : Request) (a : ApiResponse)
    → (v : IsVerified env (prepare now) r a)
    → (o : IsAllowedObject env now r a) × (o.stored ≡ v.stored)
unfolding prepare verify
verified-IsAllowedObject env now r a v =
    let opts = record (get_opts now a) { temp_file_prefix = a.lfs_oid } in
    let same : v.opts ≡ opts = ground (arith, v.prepared) in
    let checked : v.verifier ≡ some (verify (record { size = a.lfs_size; oid = a.lfs_oid })) =
      ground (arith, v.prepared) in
    let passes = v.passes in
    (
      record {
        stored = v.stored;
        is_saved =
            subst (λ o. IsSaved env o (body_reader r) r.content_length v.stored) same v.is_saved;
        size = ground (arith, checked, passes, v.is_saved.size_told);
        oid = ground (
          arith,
          checked,
          passes,
          v.is_saved.sha256_told,
          text_eq_iff (get_sha256 v.stored.handler) a.lfs_oid,
        );
      },
      refl,
    )

-- Rails hears about an LFS object only if Rails has allowed the request, and the body is the object
-- that it has allowed: saved, of that size, and with that SHA-256. For any other request the result
-- is the same whatever Rails would do with it.
pub lfs_object_is_checked :
    {S : Type 0} (w : ResponseWriter S) (env : Storage) (encode : Dict Text → Text) (now : ℕ)
    → (api : Api) (backend : Backend) (equal_fold : Text → Bool) (r : Request) (s : S)
    → let result : (Request → S → S) → S =
        λ h. put_store w env encode now api backend equal_fold h r s in
      ((a : IsAuthorized api backend (codes "/authorize") r) × (o : IsAllowedObject env now r
          a.answer)
        × ((h : Request → S → S)
            → result h
              ≡ h
                  (with_fields w env encode r o.stored.handler)
                  (w.set_header (copy_auth_header equal_fold a.response.header (w.header s)) s)))
      ⊎ ((answer : S) × ((h : Request → S → S) → result h ≡ answer))
unfolding put_store body_uploader
lfs_object_is_checked w env encode now api backend equal_fold r s =
    elim (next_needs_authorization w api backend equal_fold (codes "/authorize") r s) [
      | inr (inl (_, failed)) ↦
          inr (fail500 w s, λ h. failed (upload_body w env encode (prepare now) h))
      | inr (inr (p, passed)) ↦ inr (
        pass_response_back w p.response s,
        λ h. passed (upload_body w env encode (prepare now) h),
      )
      | inl (a, reached) ↦
          let s1 = w.set_header (copy_auth_header equal_fold a.response.header (w.header s)) s in
          elim (upload_body-cases w env encode (prepare now) r a.answer s1) [
            | inl (v, handed) ↦
                let (o, same) = verified-IsAllowedObject env now r a.answer v in
                inl (
                  a,
                  o,
                  λ h.
                      reached (upload_body w env encode (prepare now) h)
                      ∙ handed h
                      ∙ ap (λ st. h (with_fields w env encode r st.handler) s1) (sym same),
                )
            | inr failed ↦
                inr
                  (fail500 w s1, λ h. reached (upload_body w env encode (prepare now) h) ∙ failed h)
          ]
    ]
