-- ===== src/Api/PassBack.antt =====
-- The answer of Rails that internal/api/api.go passes back to the client.

use gitlab_workhorse.Base.{
  leb, ◌≡◌, ◌<◌, ◌≤◌, refl, ◌⊎◌, inl, inr, List, [], ◌∷◌, ◌++◌, none, some, true, false, length,
  arith, Bool-cases,
}
use gitlab_workhorse.Base.Text.{Text, text_eq, text_eq_iff}
use gitlab_workhorse.Base.Dict.{
  lookup_same, or_else, lookup, insert, lookup-insert, HasDistinctKeys,
}
use gitlab_workhorse.Http.{
  Header, Response, fail500, server_writer, server_write, server_write_header, commit,
}
use gitlab_workhorse.Http.Message.{HttpResponse}
use gitlab_workhorse.Api.{
  buffer_response, failure_response_limit, www_authenticate, www_authenticate_spelled, spelled,
  pass_headers, pass_response_back,
}

spellings_differ : text_eq www_authenticate www_authenticate_spelled ≡ false
unfolding www_authenticate www_authenticate_spelled text_eq
spellings_differ = refl

spelled_eq :
    (i k : Text)
    → text_eq i www_authenticate_spelled ≡ false
    → text_eq k www_authenticate_spelled ≡ false
    → text_eq (spelled i) (spelled k) ≡ text_eq i k
spelled_eq i k hi hk = ground (
  arith,
  hi,
  hk,
  text_eq_iff i k,
  text_eq_iff i www_authenticate,
  text_eq_iff k www_authenticate,
  text_eq_iff i www_authenticate_spelled,
  text_eq_iff k www_authenticate_spelled,
  text_eq_iff www_authenticate_spelled k,
  text_eq_iff www_authenticate_spelled www_authenticate_spelled,
)

pass_headers-lookup :
    (m h : Header) (k : Text)
    → HasDistinctKeys m
    → lookup www_authenticate_spelled m ≡ none
    → text_eq k www_authenticate_spelled ≡ false
    → lookup (spelled k) (pass_headers m h) ≡ or_else (lookup k m) (lookup (spelled k) h)
unfolding pass_headers lookup
pass_headers-lookup [] h k distinct unspelled other = refl
pass_headers-lookup ((i, u) ∷ m) h k distinct unspelled other =
    let rest =
      pass_headers-lookup m (insert (spelled i) u h) k distinct.1 (ground (arith, unspelled))
        other in
    let named = spelled_eq i k (ground (arith, unspelled)) other in
    let write = lookup-insert (spelled i) (spelled k) u h in
    elim (Bool-cases (text_eq i k)) [
      | inr differ ↦ ground (arith, rest, named, write, differ)
      | inl same ↦
          let here = lookup_same i k m (ground (arith, text_eq_iff i k, same)) distinct.0 in
          ground (arith, rest, named, write, same, here)
    ]

-- The client sees a response of Rails.
pub record IsPassedOn (resp : HttpResponse) (before after : Response) : Type 0 where
  pub header : Header
  pub sent : after.sent ≡ some (resp.status_code, header)
  pub body : after.body ≡ before.body ++ resp.body
  pub values :
      (k : Text) (v : List Text)
      → lookup k resp.header ≡ some v
      → text_eq k www_authenticate_spelled ≡ false
      → lookup (spelled k) header ≡ some v

-- Let nothing have been sent, and let the response of Rails have each header once, in the canonical
-- spelling. A response whose body can be read and is below the limit goes to the client whole: its
-- status, each of its headers (WWW-Authenticate in the spelling that old clients know), and its
-- body. Of any other response nothing is passed on: the client gets an internal server error.
pub response_is_passed_whole :
    (resp : HttpResponse) (s : Response)
    → s.sent ≡ none
    → HasDistinctKeys resp.header
    → lookup www_authenticate_spelled resp.header ≡ none
    → let after = pass_response_back server_writer resp s in
      ((length resp.body < failure_response_limit)
        × (resp.body_fails ≡ false)
        × IsPassedOn resp s after)
      ⊎ (((failure_response_limit ≤ length resp.body) ⊎ (resp.body_fails ≡ true))
          × (after ≡ fail500 server_writer s))
unfolding pass_response_back buffer_response server_write server_write_header commit
response_is_passed_whole resp s fresh distinct unspelled =
    let headers : Header = pass_headers resp.header s.header in
    elim (Bool-cases (leb failure_response_limit (length resp.body))) [
      | inl long ↦ inr (inl (ground (arith, long)), ground (arith, long))
      | inr short ↦ elim (Bool-cases resp.body_fails) [
        | inl broken ↦ inr (inr broken, ground (arith, short, broken))
        | inr fine ↦ inl (
          ground (arith, short),
          fine,
          record {
            header = headers;
            sent = ground (arith, short, fine, fresh);
            body = ground (arith, short, fine, fresh);
            values = λ k v found other.
                ground (
                  arith,
                  found,
                  pass_headers-lookup resp.header s.header k distinct unspelled other,
                );
          },
        )
      ]
    ]
