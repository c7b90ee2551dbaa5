-- ===== src/Api/Authorized.antt =====
-- When the handler behind internal/api/api.go is called.

use gitlab_workhorse.Base.{
  ◌==◌, ◌≡◌, ◌≢◌, ◌⊎◌, inl, inr, none, some, Bool, true, false, arith, Bool-cases, Option-cases,
}
use gitlab_workhorse.Base.Text.{Text}
use gitlab_workhorse.Http.{ResponseWriter, fail500}
use gitlab_workhorse.Http.Message.{Request, HttpResponse}
use gitlab_workhorse.Api.{
  Api, ApiResponse, Backend, pre_authorize_error, not_authorized, authorized, new_request,
  pre_authorize, read_authorization, valid_response_content_type, copy_auth_header,
  pass_response_back, pre_authorize_handler,
}

-- Rails has allowed the request with an answer.
pub record IsAuthorized (api : Api) (env : Backend) (suffix : Text) (r : Request) : Type 0 where
  pub request : Request
  pub response : HttpResponse
  pub answer : ApiResponse
  pub asked : new_request api env.split_host_port env.jwt_token_string r none suffix ≡ some request
  pub answered : env.round_trip request ≡ some response
  pub is_ok : response.status_code ≡ 200
  pub is_internal : valid_response_content_type env response ≡ true
  pub decoded : env.decode response ≡ some answer

-- Rails has answered, but not with an authorization.
pub record IsPassedBack (api : Api) (env : Backend) (suffix : Text) (r : Request) : Type 0 where
  pub request : Request
  pub response : HttpResponse
  pub asked : new_request api env.split_host_port env.jwt_token_string r none suffix ≡ some request
  pub answered : env.round_trip request ≡ some response
  pub not_ok : (response.status_code ≢ 200) ⊎ (valid_response_content_type env response ≡ false)

-- No decision of Rails is known: the question cannot be signed, no answer comes, or the answer says
-- that it is an authorization and cannot be decoded.
pub data IsUndecided (api : Api) (env : Backend) (suffix : Text) (r : Request) : Type 0 where
  is_unsigned :
      new_request api env.split_host_port env.jwt_token_string r none suffix ≡ none
      → IsUndecided api env suffix r
  is_unanswered :
      (request : Request)
      → new_request api env.split_host_port env.jwt_token_string r none suffix ≡ some request
      → env.round_trip request ≡ none
      → IsUndecided api env suffix r
  is_garbled :
      (request : Request) (response : HttpResponse)
      → new_request api env.split_host_port env.jwt_token_string r none suffix ≡ some request
      → env.round_trip request ≡ some response
      → response.status_code ≡ 200
      → valid_response_content_type env response ≡ true
      → env.decode response ≡ none
      → IsUndecided api env suffix r

pre_authorize-cases :
    (api : Api) (env : Backend) (suffix : Text) (r : Request)
    → let result = pre_authorize api env suffix r in
      (IsUndecided api env suffix r × (result ≡ pre_authorize_error))
      ⊎ ((p : IsPassedBack api env suffix r) × (result ≡ not_authorized p.response))
      ⊎ ((a : IsAuthorized api env suffix r) × (result ≡ authorized a.response a.answer))
unfolding pre_authorize read_authorization
pre_authorize-cases api env suffix r =
    elim (Option-cases (new_request api env.split_host_port env.jwt_token_string r none suffix)) [
      | inl unsigned ↦ inl (is_unsigned unsigned, ground (arith, unsigned))
      | inr (req, asked) ↦ elim (Option-cases (env.round_trip req)) [
        | inl lost ↦ inl (is_unanswered req asked lost, ground (arith, asked, lost))
        | inr (resp, answered) ↦ elim (Bool-cases (resp.status_code == 200)) [
          | inr bad ↦ inr (
              inl (
                record {
                  request = req;
                  response = resp;
                  asked = asked;
                  answered = answered;
                  not_ok = inl (ground (arith, bad));
                },
                ground (arith, asked, answered, bad),
              ))
          | inl good ↦ elim (Bool-cases (valid_response_content_type env resp)) [
            | inr foreign ↦ inr (
                inl (
                  record {
                    request = req;
                    response = resp;
                    asked = asked;
                    answered = answered;
                    not_ok = inr foreign;
                  },
                  ground (arith, asked, answered, good, foreign),
                ))
            | inl ours ↦ elim (Option-cases (env.decode resp)) [
              | inl garbled ↦ inl (
                is_garbled req resp asked answered (ground (arith, good)) ours garbled,
                ground (arith, asked, answered, good, ours, garbled),
              )
              | inr (auth, decoded) ↦ inr (
                  inr (
                    record {
                      request = req;
                      response = resp;
                      answer = auth;
                      asked = asked;
                      answered = answered;
                      is_ok = ground (arith, good);
                      is_internal = ours;
                      decoded = decoded;
                    },
                    ground (arith, asked, answered, good, ours, decoded),
                  ))
            ]
          ]
        ]
      ]
    ]

-- One of three cases holds, whatever the handler behind the API is. Rails answered the signed question
-- with status 200, the content type of the internal API and an authorization, and the handler gets the
-- request with that authorization. Or there is no decision (the question cannot be signed, no answer
-- comes, or one with status 200 and that content type cannot be decoded), and the result is an internal
-- server error. Or Rails answered with another status or content type, and its answer is passed back.
pub next_needs_authorization :
    {S : Type 0} (w : ResponseWriter S) (api : Api) (env : Backend) (equal_fold : Text → Bool)
    → (suffix : Text) (r : Request) (s : S)
    → let result : (Request → ApiResponse → S → S) → S =
        λ next. pre_authorize_handler w api env equal_fold next suffix r s in
      ((a : IsAuthorized api env suffix r) × ((next : Request → ApiResponse → S → S)
          → result next
            ≡ next r a.answer
                (w.set_header (copy_auth_header equal_fold a.response.header (w.header s)) s)))
      ⊎ (IsUndecided api env suffix r
          × ((next : Request → ApiResponse → S → S) → result next ≡ fail500 w s))
      ⊎ ((p : IsPassedBack api env suffix r) × ((next : Request → ApiResponse → S → S)
            → result next ≡ pass_response_back w p.response s))
unfolding pre_authorize_handler
next_needs_authorization w api env equal_fold suffix r s =
    elim (pre_authorize-cases api env suffix r) [
      | inl (u, failed) ↦ inr (inl (u, λ n. ground (arith, failed)))
      | inr (inl (p, passed)) ↦ inr (inr (p, λ n. ground (arith, passed)))
      | inr (inr (a, allowed)) ↦ inl (a, λ n. ground (arith, allowed))
    ]
