-- ===== src/Terminal/Examples.antt =====
-- A terminal that is opened, checked and stopped.

use gitlab_workhorse.Base.{◌≡◌, ◌↔◌, refl, List, [], ◌∷◌, Option, none, some, false, get_elem?}
use gitlab_workhorse.Base.Text.{Text}
use gitlab_workhorse.Api.{pre_authorize_error, authorized}
use gitlab_workhorse.Api.Examples.{answer, json_response}
use gitlab_workhorse.Terminal.Checker.{
  Event, tick, done, loop, auth_changed, FirstChange, loop_stops_iff,
}
use gitlab_workhorse.Terminal.Session.{
  Proxy, new_proxy, step, run, stops, sends, sending, returned, running, send_never_blocks,
}

-- A base64 that leaves texts as they are.
abbrev encode : Text → Text
encode s = s

abbrev decode : Text → Option Text
decode s = some s

-- The settings are gone at the second check.
abbrev events : List Event
events =
    tick (authorized json_response (record answer { terminal = none }))
    ∷ tick pre_authorize_error
    ∷ done
    ∷ []

loop_stops_iff_example :
    ((loop none events 0).standing ≡ auth_changed)
    ↔ FirstChange none events (loop none events 0).count
loop_stops_iff_example = loop_stops_iff none events

-- The first goroutine of a session of four has met an error.
abbrev stopping : Proxy
stopping = record {
  stop_ch = 0;
  capacity = 4;
  served = false;
  stoppers = sending ∷ running ∷ running ∷ running ∷ [];
}

send_never_blocks_example :
    (q : Proxy) × (step stopping (sends 0) ≡ some q) × (get_elem? q.stoppers 0 ≡ some returned)
unfolding run step new_proxy
send_never_blocks_example = send_never_blocks 2 (stops 0 ∷ []) stopping 0 refl refl
