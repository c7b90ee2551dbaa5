-- ===== src/Queueing.antt =====
-- internal/queueing/queue.go and requests.go: the request queue over two buffered channels, and
-- the handler that takes a slot, serves and gives the slot back. A channel operation together with
-- the metrics updates that follow it is one step of its goroutine; goroutines interleave freely.
pub mod System
pub mod Invariant
pub mod Progress
mod Examples
use gitlab_workhorse.Base.{
  ℕ, ◌+◌, ◌-◌, ◌%◌, ◌^◌, List, [], ◌∷◌, ◌++◌, Option, none, some, Bool, true, false, ltb, ◌==◌,
  if◌then◌else◌, length,
}

-- The values of the metrics that change. The histogram keeps its observations, latest first.
pub record QueueMetrics : Type 0 where
  pub queueing_busy : ℕ
  pub queueing_waiting : ℕ
  pub queueing_waiting_time : List ℕ
  pub too_many_requests : ℕ
  pub queueing_timedout : ℕ

-- `busy_ch` is the number of tokens in the channel, `waiting_ch` the times in it, oldest first.
pub record Queue : Type 0 where
  pub limit : ℕ
  pub waiting_cap : ℕ
  pub timeout : ℕ
  pub busy_ch : ℕ
  pub waiting_ch : List ℕ
  pub metrics : QueueMetrics

abbrev new_queue_metrics : QueueMetrics
new_queue_metrics = record {
  queueing_busy = 0;
  queueing_waiting = 0;
  queueing_waiting_time = [];
  too_many_requests = 0;
  queueing_timedout = 0;
}

-- `limit + queueLimit` is a sum of two `uint`.
unfoldable pub new_queue : ℕ → ℕ → ℕ → Queue
new_queue limit queue_limit timeout = record {
  limit = limit;
  waiting_cap = (limit + queue_limit) % 2 ^ 64;
  timeout = timeout;
  busy_ch = 0;
  waiting_ch = [];
  metrics = new_queue_metrics;
}

pub data Error : Type 0 where
  err_too_many_requests err_queueing_timedout : Error

-- What the goroutine of a request does next.
pub data Phase : Type 0 where
  -- the first select of `Acquire`
  arriving : Phase
  -- the fast path
  claimed : Phase
  -- the last select of `Acquire`
  blocked : Phase
  -- the timer has fired: the deferred receive of `Acquire`
  timing_out : Phase
  -- the handler runs; then comes the first receive of `Release`
  serving : Phase
  -- the second receive of `Release`
  releasing : Phase
  -- the handler of `QueueRequests` has returned, after serving or with an error reply
  served : Phase
  replied : Error → Phase

-- A goroutine runs on at a time, or its timer fires.
pub data Event : Type 0 where
  run_on : ℕ → Event
  timer_fires : Event

module _ (q : Queue) where
  open q use {metrics}

  -- `case s.waitingCh <- time.Now()`, with `default`.
  push_waiting : ℕ → Queue × Phase
  push_waiting now =
      if ltb (length q.waiting_ch) q.waiting_cap
      then (
        record q {
          waiting_ch = q.waiting_ch ++ now ∷ [];
          metrics = record metrics { queueing_waiting = metrics.queueing_waiting + 1 };
        },
        claimed,
      )
      else (
        record q { metrics = record metrics { too_many_requests = metrics.too_many_requests + 1 } },
        replied err_too_many_requests,
      )

  -- `s.busyCh <- struct{}{}`: `none` where the channel is full.
  push_busy : Option (Queue × Phase)
  push_busy =
      if ltb q.busy_ch q.limit
      then some (
        record q {
          busy_ch = q.busy_ch + 1;
          metrics = record metrics { queueing_busy = metrics.queueing_busy + 1 };
        },
        serving,
      )
      else none

  -- `waitStarted := <-s.waitingCh` and what follows: `none` where the channel is empty.
  pop_waiting : ℕ → Phase → Option (Queue × Phase)
  pop_waiting now next = elim q.waiting_ch [
    | [] ↦ none
    | wait_started ∷ rest ↦ some (
      record q {
        waiting_ch = rest;
        metrics = record metrics {
          queueing_waiting = metrics.queueing_waiting - 1;
          queueing_waiting_time = (now - wait_started) ∷ metrics.queueing_waiting_time;
        };
      },
      next,
    )
  ]

  -- `<-s.busyCh`.
  pop_busy : Option (Queue × Phase)
  pop_busy =
      if q.busy_ch == 0
      then none
      else some (
        record q {
          busy_ch = q.busy_ch - 1;
          metrics = record metrics { queueing_busy = metrics.queueing_busy - 1 };
        },
        served,
      )

  -- `case <-timer.C`.
  count_timedout : Queue
  count_timedout = record q {
    metrics = record metrics { queueing_timedout = metrics.queueing_timedout + 1 };
  }

  -- The `default` of the fast path falls through to the blocking select.
  fast_path : Option (Queue × Phase) → Queue × Phase
  fast_path none = (q, blocked)
  fast_path (some r) = r

  -- One step of a goroutine; `none` where it cannot make it (it blocks, or has no such step).
  -- `Acquire` is `arriving` to `blocked` and `timing_out`, `Release` is `serving` and `releasing`.
  pub advance : Event → Phase → Option (Queue × Phase)
  unfolding push_waiting push_busy pop_waiting pop_busy count_timedout fast_path
  advance (run_on now) arriving = some (push_waiting now)
  advance (run_on now) claimed = some (fast_path push_busy)
  advance (run_on now) blocked = push_busy
  advance timer_fires blocked = some (count_timedout, timing_out)
  advance (run_on now) timing_out = pop_waiting now (replied err_queueing_timedout)
  advance (run_on now) serving = pop_waiting now releasing
  advance (run_on now) releasing = pop_busy
  advance _ _ = none
