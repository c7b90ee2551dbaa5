-- ===== src/Lfs/Examples.antt =====
-- An LFS object of three bytes.
use gitlab_workhorse.Base.{◌≡◌, ◌⊎◌, [], false}
use gitlab_workhorse.Base.Text.{Text, codes}
use gitlab_workhorse.Base.Dict.{Dict}
use gitlab_workhorse.Http.{Response, new_response, server_writer}
use gitlab_workhorse.Http.Message.{Request}
use gitlab_workhorse.Api.{copy_auth_header}
use gitlab_workhorse.Api.Authorized.{IsAuthorized}
use gitlab_workhorse.Api.Examples.{rails, backend, upload}
use gitlab_workhorse.FileStore.Body.{with_fields}
use gitlab_workhorse.FileStore.Examples.{disk}
use gitlab_workhorse.Lfs.{put_store}
use gitlab_workhorse.Lfs.Checked.{IsAllowedObject, lfs_object_is_checked}

abbrev encode : Dict Text → Text
encode fields = codes "fields"

lfs_object_is_checked_example :
    let result : (Request → Response → Response) → Response =
      λ h. put_store server_writer disk encode 0 rails backend (λ k. false) h upload new_response in
    ((a : IsAuthorized rails backend (codes "/authorize") upload) × (o : IsAllowedObject disk 0
        upload a.answer)
      × ((h : Request → Response → Response)
          → result h
            ≡ h (with_fields server_writer disk encode upload o.stored.handler) (
                server_writer.set_header
                  (copy_auth_header (λ k. false) a.response.header [])
                  new_response)))
    ⊎ ((answer : Response) × ((h : Request → Response → Response) → result h ≡ answer))
lfs_object_is_checked_example =
    lfs_object_is_checked server_writer disk encode 0 rails backend (λ k. false) upload new_response
