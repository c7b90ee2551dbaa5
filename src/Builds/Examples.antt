-- ===== src/Builds/Examples.antt =====
-- A runner that asks for jobs.

use gitlab_workhorse.Base.{ℕ, ◌≡◌, refl, Option, none, some, false}
use gitlab_workhorse.Base.Text.{Text, text_eq, codes}
use gitlab_workhorse.KeyWatcher.{WatchResult, watch_key_status_timeout}
use gitlab_workhorse.Response.Block.{is_content_type}
use gitlab_workhorse.Builds.{
  RunnerRequest, Request, no_content, register_handler, read_request_body, poll,
  read_runner_request, watch_for_runner_change,
}
use gitlab_workhorse.Builds.Polling.{WasWatched, no_content_iff}

abbrev media_type : Text → Option Text
media_type t = some t

abbrev unmarshal : Text → Option RunnerRequest
unmarshal body = some (record { token = body; last_update = codes "1" })

abbrev nothing_new : Text → Text → ℕ → WatchResult
nothing_new key value duration = record { status = watch_key_status_timeout; error = none }

abbrev runner : Request
runner = record {
  content_type = codes "application/json";
  body = codes "token";
  body_fails = false;
}

runner_waits : register_handler media_type unmarshal nothing_new 50 runner ≡ no_content
unfolding register_handler read_request_body poll read_runner_request watch_for_runner_change
    is_content_type text_eq
runner_waits = refl

no_content_iff_example :
    (register_handler media_type unmarshal nothing_new 50 runner ≡ no_content
      → WasWatched media_type unmarshal nothing_new 50 runner)
    × (WasWatched media_type unmarshal nothing_new 50 runner
        → register_handler media_type unmarshal nothing_new 50 runner ≡ no_content)
no_content_iff_example = no_content_iff media_type unmarshal nothing_new 50 runner
