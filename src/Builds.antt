-- ===== src/Builds.antt =====
-- internal/builds/register.go: long polling for CI jobs.
pub mod Polling
mod Examples
use mathlib.Core.Option
use mathlib.Core.Bool.{Bool, true, false, not, ◌&&◌, ◌||◌}
use gitlab_workhorse.Base.{
  ℕ, ◌*◌, ◌==◌, leb, List, [], ◌∷◌, ◌++◌, Option, none, some, if◌then◌else◌, length,
}
use gitlab_workhorse.Base.Text.{Text, text_eq, codes}
use gitlab_workhorse.KeyWatcher.{
  WatchKeyStatus, WatchResult, watch_key_status_timeout, watch_key_status_seen_change,
  watch_key_status_already_changed, watch_key_status_no_change,
}
use gitlab_workhorse.Response.Block.{is_content_type}

abbrev pub max_register_body_size : ℕ
max_register_body_size = 32 * 1024

-- `runnerBuildQueue`.
unfoldable pub runner_build_queue : Text
runner_build_queue = codes "runner:build_queue:"

pub record RunnerRequest : Type 0 where
  pub token : Text
  pub last_update : Text

-- `body_fails`: reading the body ends with an error and not with EOF.
pub record Request : Type 0 where
  pub content_type : Text
  pub body : Text
  pub body_fails : Bool

-- What happens to a request: the next handler gets it with a body, with or without the header
-- Gitlab-Ci-Builds-Polling in the response; or it is answered here with the header and status 413 or
-- 204.
pub data Reply : Type 0 where
  unpolled : Text → Reply
  proxied : Text → Reply
  request_entity_too_large : Reply
  no_content : Reply

-- `helper.ReadRequestBody`: `http.MaxBytesReader` fails on a body that is longer than the limit, and
-- passes on the errors of the body.
unfoldable pub read_request_body : ℕ → Request → Option Text
read_request_body max_body_size r =
    if leb (length r.body) max_body_size && not r.body_fails then some r.body else none

-- The media type and JSON decoder are arguments, and the watch handler with the table of its answers
-- for a key, a value and a duration.
module _ (parse_media_type : Text → Option Text) (unmarshal : Text → Option RunnerRequest)
    (watch_handler : Text → Text → ℕ → WatchResult) where
  unfoldable pub read_runner_request : Request → Text → Option RunnerRequest
  read_runner_request r body =
      if is_content_type parse_media_type (codes "application/json") r.content_type
      then unmarshal body
      else none

  unfoldable pub watch_for_runner_change : Text → Text → ℕ → WatchResult
  watch_for_runner_change token last_update duration =
      watch_handler (runner_build_queue ++ token) last_update duration

  -- The switch on the answer of the watch handler.
  abbrev pub answer : Text → WatchKeyStatus → Reply
  answer body watch_key_status_already_changed = proxied body
  answer body watch_key_status_seen_change = no_content
  answer body watch_key_status_timeout = no_content
  answer body watch_key_status_no_change = no_content

  -- The rest of the handler, once the body has been read.
  unfoldable pub poll : ℕ → Request → Text → Reply
  poll polling_duration r request_body = elim (read_runner_request r request_body) [
    | none ↦ proxied request_body
    | some q ↦
        let result = watch_for_runner_change q.token q.last_update polling_duration in
        if text_eq q.token [] || text_eq q.last_update []
        then proxied request_body
        else elim result.error [
          | some e ↦ proxied request_body
          | none ↦ answer request_body result.status
        ]
  ]

  -- `RegisterHandler`.
  unfoldable pub register_handler : ℕ → Request → Reply
  register_handler polling_duration r =
      if polling_duration == 0
      then unpolled r.body
      else elim (read_request_body max_register_body_size r) [
        | none ↦ request_entity_too_large
        | some request_body ↦ poll polling_duration r request_body
      ]
