-- ===== src/Queueing/Examples.antt =====
-- A queue that serves one request at a time and lets one more wait.
use gitlab_workhorse.Base.{
  ℕ, ◌%◌, ◌^◌, ◌≤◌, ◌<◌, ◌≡◌, refl, ◌≢◌, List, [], ◌∷◌, ◌++◌, none, some, get_elem?, total,
}
use gitlab_workhorse.Queueing.{
  Queue, new_queue, Phase, arriving, blocked, serving, served, replied, err_too_many_requests,
  err_queueing_timedout, run_on, timer_fires, advance,
}
use gitlab_workhorse.Queueing.System.{
  System, init, Move, arrive, act, step, run, queue_requests, error_reply, default_timeout,
}
use gitlab_workhorse.Queueing.Invariant.{waiting_slots, busy_slots, rejections, timeouts}
use gitlab_workhorse.Queueing.Progress.{
  Reached, slots_bounded, metrics_count, receives_never_block, blocked_waits_for_holder,
  returned_empty,
}

abbrev small : Queue
small = new_queue 1 1 0

-- Two requests come in; the first is served, the second waits, a third arrives.
abbrev crowd : List Move
crowd =
    arrive
    ∷ act 0 (run_on 1)
    ∷ act 0 (run_on 2)
    ∷ arrive
    ∷ act 0 (run_on 3)
    ∷ act 0 (run_on 4)
    ∷ arrive
    ∷ []

machine : Unit {0}
unfolding step run init queue_requests new_queue advance error_reply
machine = tt

crowded : System
unfolding machine
crowded = elim (queue_requests 1 1 0) [
  | none ↦ init small
  | some q ↦ elim (run (init q) crowd) [ none ↦ init small | some s ↦ s ]
]

crowded_requests : crowded.requests ≡ arriving ∷ blocked ∷ serving ∷ []
unfolding machine crowded
crowded_requests = refl

crowded-Reached : Reached 1 1 0 crowded
unfolding machine crowded
crowded-Reached = record {
  queue = new_queue 1 1 default_timeout;
  opened = refl;
  moves = crowd;
  reached = refl;
}

-- The third is refused, the second times out, the first is served.
abbrev rest : List Move
rest =
    act 0 (run_on 5)
    ∷ act 1 timer_fires
    ∷ act 1 (run_on 6)
    ∷ act 2 (run_on 7)
    ∷ act 2 (run_on 8)
    ∷ []

drained : System
unfolding machine crowded
drained = elim (run crowded rest) [ none ↦ crowded | some s ↦ s ]

drained_requests :
    drained.requests ≡ replied err_too_many_requests ∷ replied err_queueing_timedout ∷ served ∷ []
unfolding machine drained
drained_requests = refl

replies :
    ((error_reply err_too_many_requests).0 ≡ 429) × ((error_reply err_queueing_timedout).0 ≡ 503)
unfolding machine
replies = (refl, refl)

drained-Reached : Reached 1 1 0 drained
unfolding machine drained
drained-Reached = record {
  queue = new_queue 1 1 default_timeout;
  opened = refl;
  moves = crowd ++ rest;
  reached = refl;
}

slots_bounded_example :
    (total busy_slots crowded.requests ≤ 1) × (total waiting_slots crowded.requests ≤ 2 % 2 ^ 64)
slots_bounded_example = slots_bounded crowded-Reached

metrics_count_example :
    (drained.queue.metrics.queueing_busy ≡ total busy_slots drained.requests)
    × (drained.queue.metrics.queueing_waiting ≡ total waiting_slots drained.requests)
    × (drained.queue.metrics.too_many_requests ≡ total rejections drained.requests)
    × (drained.queue.metrics.queueing_timedout ≡ total timeouts drained.requests)
metrics_count_example = metrics_count drained-Reached

receives_never_block_example : step crowded (act 2 (run_on 9)) ≢ none
unfolding machine crowded
receives_never_block_example = receives_never_block crowded-Reached 2 9 serving refl tt

blocked_waits_for_holder_example :
    (j : ℕ) × (p : Phase) × (get_elem? crowded.requests j ≡ some p)
    × (0 < busy_slots p)
    × (step crowded (act j (run_on 9)) ≢ none)
unfolding machine crowded
blocked_waits_for_holder_example = blocked_waits_for_holder crowded-Reached 1 9 refl refl

after_refusal : System
unfolding machine crowded
after_refusal = elim (step crowded (act 0 (run_on 5))) [ none ↦ crowded | some s ↦ s ]

returned_empty_example :
    (drained.queue.waiting_ch ≡ [])
    × (drained.queue.busy_ch ≡ 0)
    × (drained.queue.metrics.queueing_waiting ≡ 0)
    × (drained.queue.metrics.queueing_busy ≡ 0)
unfolding machine drained
returned_empty_example = returned_empty drained-Reached (tt, (tt, (tt, tt)))
