-- ===== src/Api/Outgoing.antt =====
-- The requests of internal/api/api.go to Rails.

use mathlib.Core.Path.{subst, subst⁻¹}
use mathlib.Core.List.{reverse-append, append_assoc}
use gitlab_workhorse.Base.{
  ◌≡◌, refl, ap, inl, inr, List, [], ◌∷◌, ◌++◌, Option, none, some, true, false, arith,
  Option-cases,
}
use gitlab_workhorse.Base.Text.{Text, codes, text_eq, text_eq_refl, has_prefix, has_suffix}
use gitlab_workhorse.Base.Dict.{lookup, lookup-insert}
use gitlab_workhorse.Http.{Header, header_get, header_set}
use gitlab_workhorse.Http.Message.{
  Request, delete_keys, set_forwarded_for, AreAbsent, is_other, delete_keys-AreAbsent,
  header_set-AreAbsent, forwarded_for, join_comma,
}
use gitlab_workhorse.Api.{
  Api, new_request, body_headers, version_header, request_header, rebase_url, single_joining_slash,
}

set_forwarded_for-AreAbsent :
    (sp : Text → Option Text) (ks : List Text) (h : Header) (r : Request)
    → is_other forwarded_for ks ≡ true
    → AreAbsent ks h
    → AreAbsent ks (set_forwarded_for sp h r)
unfolding set_forwarded_for
set_forwarded_for-AreAbsent sp ks h r other gone = elim (Option-cases (sp r.remote_addr)) [
  | inl missing ↦ subst⁻¹ (AreAbsent ks) {y = h} (ground (arith, missing)) gone
  | inr (ip, found) ↦ elim (Option-cases (lookup forwarded_for r.header)) [
    | inl first ↦
        subst⁻¹ (AreAbsent ks) {y = header_set forwarded_for ip h} (ground (arith, found, first))
          (header_set-AreAbsent ks forwarded_for ip h other gone)
    | inr (prior, more) ↦
        let line = join_comma prior ++ codes ", " ++ ip in
        subst⁻¹ (AreAbsent ks) {y = header_set forwarded_for line h} (ground (arith, found, more))
          (header_set-AreAbsent ks forwarded_for line h other gone)
  ]
]

names_are_other :
    (is_other version_header body_headers ≡ true)
    × (is_other request_header body_headers ≡ true)
    × (is_other forwarded_for body_headers ≡ true)
unfolding version_header request_header forwarded_for body_headers is_other text_eq
names_are_other = (refl, refl, refl)

-- A request to Rails about a request carries no header that describes a body or the connection, and
-- the signed token; it goes to the scheme and host of the API, with the method asked about.
pub auth_request_is_clean :
    (api : Api) (sp : Text → Option Text) (token : Text) (r : Request) (suffix : Text)
    (req : Request)
    → new_request api sp (some token) r none suffix ≡ some req
    → AreAbsent body_headers req.header
      × (header_get request_header req.header ≡ token)
      × (req.url.scheme ≡ api.url.scheme)
      × (req.url.host ≡ api.url.host)
      × (req.method ≡ r.method)
unfolding new_request rebase_url
auth_request_is_clean api sp token r suffix req e =
    let (version_other, token_other, forwarded_other) = names_are_other in
    let h1 = delete_keys body_headers r.header in
    let h2 = header_set version_header api.version h1 in
    let h3 = set_forwarded_for sp h2 r in
    let gone1 = delete_keys-AreAbsent body_headers r.header in
    let gone2 =
      header_set-AreAbsent body_headers version_header api.version h1 version_other gone1 in
    let gone3 = set_forwarded_for-AreAbsent sp body_headers h2 r forwarded_other gone2 in
    let gone4 = header_set-AreAbsent body_headers request_header token h3 token_other gone3 in
    let same : header_set request_header token h3 ≡ req.header = ground (arith, e) in
    (
      subst (AreAbsent body_headers) same gone4,
      ground (
        arith,
        same,
        lookup-insert request_header request_header (token ∷ []) h3,
        text_eq_refl request_header,
      ),
      ground (arith, e),
      ground (arith, e),
      ground (arith, e),
    )

has_suffix_slash : (a : Text) → has_suffix (a ++ codes "/") (codes "/") ≡ true
unfolding has_suffix has_prefix
has_suffix_slash a = ap (λ t. has_prefix t (codes "/")) (reverse-append a (codes "/"))

has_prefix_slash : (b : Text) → has_prefix (b'/' ∷ b) (codes "/") ≡ true
unfolding has_prefix
has_prefix_slash [] = refl
has_prefix_slash (c ∷ b) = refl

-- Of the slashes at a joint, whichever side has one, one is left.
pub one_slash_at_joint :
    (a b : Text)
    → has_suffix a (codes "/") ≡ false
    → has_prefix b (codes "/") ≡ false
    → let joined = a ++ codes "/" ++ b in
      (single_joining_slash a b ≡ joined)
      × (single_joining_slash (a ++ codes "/") b ≡ joined)
      × (single_joining_slash a (b'/' ∷ b) ≡ joined)
      × (single_joining_slash (a ++ codes "/") (b'/' ∷ b) ≡ joined)
unfolding single_joining_slash
one_slash_at_joint a b ha hb =
    let end = has_suffix_slash a in
    let begin = has_prefix_slash b in
    let regroup = append_assoc a (codes "/") b in
    (
      ground (arith, ha, hb),
      ground (arith, end, hb, regroup),
      ground (arith, ha, begin),
      ground (arith, end, begin, regroup),
    )
