-- ===== src/Queueing/System.antt =====
-- internal/queueing/requests.go: `QueueRequests`, and the histories of the requests to one queue.
use gitlab_workhorse.Base.{
  ℕ, ◌==◌, List, [], ◌∷◌, Option, none, some, if◌then◌else◌, get_elem?, set,
}
use gitlab_workhorse.Base.Text.{Text, codes}
use gitlab_workhorse.Queueing.{
  Queue, new_queue, Phase, arriving, Error, err_too_many_requests, err_queueing_timedout, Event,
  advance,
}

-- `DefaultTimeout`, in nanoseconds.
abbrev pub default_timeout : ℕ
default_timeout = 30_000_000_000

-- The queue that the handler closes over; `none` where the handler is returned as it is.
unfoldable pub queue_requests : ℕ → ℕ → ℕ → Option Queue
queue_requests limit queue_limit queue_timeout =
    if limit == 0
    then none
    else some (
        new_queue limit queue_limit (if queue_timeout == 0 then default_timeout else queue_timeout))

-- The status and the text of the reply to a request that is not served.
unfoldable pub error_reply : Error → ℕ × Text
error_reply err_too_many_requests = (429, codes "Too Many Requests")
error_reply err_queueing_timedout = (503, codes "Service Unavailable")

pub record System : Type 0 where
  pub queue : Queue
  pub requests : List Phase

unfoldable pub init : Queue → System
init q = record { queue = q; requests = [] }

-- A request comes in, or the request at an index makes a step.
pub data Move : Type 0 where
  arrive : Move
  act : ℕ → Event → Move

resume : System → ℕ → Option (Queue × Phase) → Option System
resume s i none = none
resume s i (some (q, p)) = some (record { queue = q; requests = set s.requests i p })

act_on : System → ℕ → Event → Option Phase → Option System
unfolding resume
act_on s i e none = none
act_on s i e (some p) = resume s i (advance s.queue e p)

unfoldable pub step : System → Move → Option System
unfolding act_on
step s arrive = some (record s { requests = arriving ∷ s.requests })
step s (act i e) = act_on s i e (get_elem? s.requests i)

unfoldable pub run : System → List Move → Option System
run s [] = some s
run s (m ∷ ms) = elim (step s m) [ none ↦ none | some t ↦ run t ms ]
