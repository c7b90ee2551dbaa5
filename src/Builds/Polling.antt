-- ===== src/Builds/Polling.antt =====
-- When the handler of internal/builds/register.go answers a runner itself.

use mathlib.Core.Bool.{true, false, not, ◌&&◌, ◌||◌}
use gitlab_workhorse.Base.{
  ℕ, leb, ◌<◌, ◌≤◌, ◌≡◌, ◌≢◌, ◌⊎◌, inl, inr, refl, [], ◌++◌, Option, none, some, length, arith,
  Bool-cases, Option-cases, ℕ_discrete,
}
use gitlab_workhorse.Base.Text.{Text, text_eq, text_eq_iff, codes}
use gitlab_workhorse.KeyWatcher.{
  WatchKeyStatus, WatchResult, watch_key_status_timeout, watch_key_status_seen_change,
  watch_key_status_already_changed, watch_key_status_no_change,
}
use gitlab_workhorse.Response.Block.{is_content_type}
use gitlab_workhorse.Builds.{
  max_register_body_size, runner_build_queue, RunnerRequest, Request, unpolled, proxied,
  request_entity_too_large, no_content, read_request_body, read_runner_request,
  watch_for_runner_change, answer, poll, register_handler,
}

module _ (parse_media_type : Text → Option Text) (unmarshal : Text → Option RunnerRequest)
    (watch_handler : Text → Text → ℕ → WatchResult) where
  -- Polling is enabled; the request is a small JSON document, read without an error, with a token and
  -- a last update; and the queue of that token has been watched for the polling time: it did not
  -- differ from the last update before.
  pub record WasWatched (polling_duration : ℕ) (r : Request) : Type 0 where
    pub enabled : polling_duration ≢ 0
    pub complete : r.body_fails ≡ false
    pub small : length r.body ≤ max_register_body_size
    pub is_json : is_content_type parse_media_type (codes "application/json") r.content_type ≡ true
    pub request : RunnerRequest
    pub parsed : unmarshal r.body ≡ some request
    pub has_token : request.token ≢ []
    pub has_last_update : request.last_update ≢ []
    pub no_error :
        (watch_handler
          (runner_build_queue ++ request.token)
          request.last_update
          polling_duration).error
        ≡ none
    pub unchanged :
        (watch_handler
          (runner_build_queue ++ request.token)
          request.last_update
          polling_duration).status
        ≢ watch_key_status_already_changed

  answer_no_content :
      (body : Text) (s : WatchKeyStatus)
      → s ≢ watch_key_status_already_changed
      → answer parse_media_type unmarshal watch_handler body s ≡ no_content
  answer_no_content body watch_key_status_already_changed h = absurd (h refl)
  answer_no_content body watch_key_status_seen_change h = refl
  answer_no_content body watch_key_status_timeout h = refl
  answer_no_content body watch_key_status_no_change h = refl

  no_content_watched :
      (d : ℕ) (r : Request)
      → register_handler parse_media_type unmarshal watch_handler d r ≡ no_content
      → WasWatched d r
  unfolding register_handler read_request_body poll read_runner_request watch_for_runner_change
  no_content_watched d r e = elim (Option-cases (unmarshal r.body)) [
    | inl missing ↦ absurd (ground (arith, e, missing))
    | inr (q, parsed) ↦ record {
      enabled = ground (arith, e);
      complete = ground (arith, e);
      small = ground (arith, e);
      is_json = ground (arith, e);
      request = q;
      parsed = parsed;
      has_token = ground (arith, e, parsed, text_eq_iff q.token []);
      has_last_update = ground (arith, e, parsed, text_eq_iff q.last_update []);
      no_error = ground (arith, e, parsed);
      unchanged = λ f. ground (arith, e, parsed, f);
    }
  ]

  -- A runner is answered with 204 exactly when polling is enabled, its request is a JSON document of at
  -- most 32 KiB, read without an error, with a token and a last update, and the watch of its queue
  -- returned without an error and without saying that the queue had already changed.
  pub no_content_iff :
      (d : ℕ) (r : Request)
      → (register_handler parse_media_type unmarshal watch_handler d r ≡ no_content
          → WasWatched d r)
        × (WasWatched d r
            → register_handler parse_media_type unmarshal watch_handler d r ≡ no_content)
  unfolding register_handler read_request_body poll read_runner_request watch_for_runner_change
  no_content_iff d r = (
    no_content_watched d r,
    λ w. ground (
      arith,
      w.enabled,
      w.complete,
      w.small,
      w.is_json,
      w.parsed,
      w.has_token,
      w.has_last_update,
      w.no_error,
      text_eq_iff w.request.token [],
      text_eq_iff w.request.last_update [],
      answer_no_content r.body _ w.unchanged,
    ),
  )

  answer_keeps_body :
      (body : Text) (s : WatchKeyStatus)
      → let reply = answer parse_media_type unmarshal watch_handler body s in
        (reply ≡ proxied body) ⊎ (reply ≡ no_content)
  answer_keeps_body body watch_key_status_already_changed = inl refl
  answer_keeps_body body watch_key_status_seen_change = inr refl
  answer_keeps_body body watch_key_status_timeout = inr refl
  answer_keeps_body body watch_key_status_no_change = inr refl

  poll_keeps_body :
      (d : ℕ) (r : Request)
      → let reply = poll parse_media_type unmarshal watch_handler d r r.body in
        (reply ≡ proxied r.body) ⊎ (reply ≡ no_content)
  unfolding poll watch_for_runner_change
  poll_keeps_body d r =
      elim (Option-cases (read_runner_request parse_media_type unmarshal watch_handler r r.body)) [
        | inl missing ↦ inl (ground (arith, missing))
        | inr (q, found) ↦
            let result = watch_handler (runner_build_queue ++ q.token) q.last_update d in
            elim (answer_keeps_body r.body result.status) [
              | inl goes ↦ inl (ground (arith, found, goes))
              | inr stops ↦ elim (Bool-cases (text_eq q.token [] || text_eq q.last_update [])) [
                | inl empty ↦ inl (ground (arith, found, empty))
                | inr full ↦ elim (Option-cases result.error) [
                  | inl fine ↦ inr (ground (arith, found, full, fine, stops))
                  | inr (x, failed) ↦ inl (ground (arith, found, full, failed))
                ]
              ]
            ]
      ]

  -- No request is lost: one that is not answered with 204 or, if it is longer than 32 KiB or cannot be
  -- read, with 413,
  -- goes on with the body that it came with.
  pub register_keeps_body :
      (d : ℕ) (r : Request)
      → let reply = register_handler parse_media_type unmarshal watch_handler d r in
        (reply ≡ unpolled r.body)
        ⊎ (reply ≡ proxied r.body)
        ⊎ (reply ≡ no_content)
        ⊎ ((reply ≡ request_entity_too_large)
            × ((max_register_body_size < length r.body) ⊎ (r.body_fails ≡ true)))
  unfolding register_handler read_request_body
  register_keeps_body d r = elim (ℕ_discrete d 0) [
    | yes off ↦ inl (ground (arith, off))
    | no on ↦ elim (Bool-cases (leb (length r.body) max_register_body_size && not r.body_fails)) [
      | inr large ↦ inr (inr (inr (ground (arith, on, large), ground (arith, large))))
      | inl small ↦ elim (poll_keeps_body d r) [
        | inl goes ↦ inr (inl (ground (arith, on, small, goes)))
        | inr stops ↦ inr (inr (inl (ground (arith, on, small, stops))))
      ]
    ]
  ]
