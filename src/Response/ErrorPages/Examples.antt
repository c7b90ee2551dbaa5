-- ===== src/Response/ErrorPages/Examples.antt =====
-- A document root with a page for status 404.

use mathlib.Core.Path.{subst}
use gitlab_workhorse.Base.{
  ℕ, ◌≡◌, refl, [], ◌∷◌, ◌++◌, Option, none, some, true, false, if◌then◌else◌,
}
use gitlab_workhorse.Base.Text.{Text, text_eq, codes, decimal, decimal_digits}
use gitlab_workhorse.Base.Dict.{lookup}
use gitlab_workhorse.Http.{Header, new_response, server_writer, write_header, write}
use gitlab_workhorse.Response.ErrorPages.{
  wants_page, page_name, page_header, error_pages_unless, json,
}
use gitlab_workhorse.Response.ErrorPages.Replaced.{errors_get_page}

abbrev disk : Text → Text → Option Text
disk dir name = if text_eq name (codes "404.html") then some (codes "gone") else none

abbrev root : Text
root = codes "/srv"

not_found_wants_page : wants_page 404 [] ≡ true
unfolding wants_page lookup text_eq json
not_found_wants_page = refl

disk_has_page : disk root (page_name 404) ≡ some (codes "gone")
unfolding page_name decimal decimal_digits text_eq
disk_has_page = refl

errors_get_page_example :
    let r' =
      error_pages_unless server_writer disk false root
        (write_header 404 ∷ write (codes "x") ∷ [])
        new_response in
    (r'.sent ≡ some (404, page_header (codes "gone") [])) × (r'.body ≡ [] ++ codes "gone")
errors_get_page_example =
    errors_get_page disk root 404 (write (codes "x") ∷ []) new_response (codes "gone") refl
      not_found_wants_page disk_has_page

disk_has_no_500 : disk root (page_name 500) ≡ none
unfolding page_name decimal decimal_digits text_eq
disk_has_no_500 = refl

no_page_for_500 :
    (n : ℕ) (h : Header)
    → write_header 500 ≡ write_header n
    → wants_page n h ≡ true
    → disk root (page_name n) ≡ none
no_page_for_500 n h e wanted =
    let same : 500 ≡ n = cc in subst (λ k. disk root (page_name k) ≡ none) same disk_has_no_500
