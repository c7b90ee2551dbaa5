-- ===== src/Queueing/Invariant.antt =====
-- The channels of the queue hold one entry for each request that owns one.
use mathlib.Core.Path.{subst⁻¹}
use gitlab_workhorse.Base.{
  ℕ, ◌+◌, ◌%◌, ◌^◌, ◌≤◌, ◌≡◌, inl, inr, List, [], ◌∷◌, some, arith, length, length-append,
  get_elem?, set, total, total-set, Option-cases,
}
use gitlab_workhorse.Queueing.{
  Queue, new_queue, Phase, arriving, claimed, blocked, timing_out, serving, releasing, replied,
  err_too_many_requests, err_queueing_timedout, Event, run_on, advance,
}
use gitlab_workhorse.Queueing.System.{System, init, Move, arrive, act, step, run}

-- The entries of `waitingCh` and of `busyCh` that a request owns.
abbrev pub waiting_slots : Phase → ℕ
waiting_slots claimed = 1
waiting_slots blocked = 1
waiting_slots timing_out = 1
waiting_slots serving = 1
waiting_slots _ = 0

abbrev pub busy_slots : Phase → ℕ
busy_slots serving = 1
busy_slots releasing = 1
busy_slots _ = 0

-- The replies of each kind that a request has got, or will get once its deferred receive is made.
abbrev pub rejections : Phase → ℕ
rejections (replied err_too_many_requests) = 1
rejections _ = 0

abbrev pub timeouts : Phase → ℕ
timeouts timing_out = 1
timeouts (replied err_queueing_timedout) = 1
timeouts _ = 0

pub record Inv (limit waiting_cap : ℕ) (s : System) : Type 0 where
  pub limit_kept : s.queue.limit ≡ limit
  pub waiting_cap_kept : s.queue.waiting_cap ≡ waiting_cap
  pub waiting : length s.queue.waiting_ch ≡ total waiting_slots s.requests
  pub busy : s.queue.busy_ch ≡ total busy_slots s.requests
  pub waiting_fits : length s.queue.waiting_ch ≤ waiting_cap
  pub busy_fits : s.queue.busy_ch ≤ limit
  pub waiting_gauge : s.queue.metrics.queueing_waiting ≡ length s.queue.waiting_ch
  pub busy_gauge : s.queue.metrics.queueing_busy ≡ s.queue.busy_ch
  pub rejected : s.queue.metrics.too_many_requests ≡ total rejections s.requests
  pub timed_out : s.queue.metrics.queueing_timedout ≡ total timeouts s.requests

-- What one step does to the two channels, measured by what the request owns.
pub record Moved (q : Queue) (p : Phase) (q' : Queue) (p' : Phase) : Type 0 where
  pub waiting : length q'.waiting_ch + waiting_slots p ≡ length q.waiting_ch + waiting_slots p'
  pub busy : q'.busy_ch + busy_slots p ≡ q.busy_ch + busy_slots p'
  pub waiting_fits : length q.waiting_ch ≤ q.waiting_cap → length q'.waiting_ch ≤ q.waiting_cap
  pub busy_fits : q.busy_ch ≤ q.limit → q'.busy_ch ≤ q.limit
  pub limit : q'.limit ≡ q.limit
  pub waiting_cap : q'.waiting_cap ≡ q.waiting_cap
  pub waiting_gauge :
      q.metrics.queueing_waiting ≡ length q.waiting_ch
      → q'.metrics.queueing_waiting ≡ length q'.waiting_ch
  pub busy_gauge : q.metrics.queueing_busy ≡ q.busy_ch → q'.metrics.queueing_busy ≡ q'.busy_ch
  pub rejected :
      q'.metrics.too_many_requests + rejections p ≡ q.metrics.too_many_requests + rejections p'
  pub timed_out :
      q'.metrics.queueing_timedout + timeouts p ≡ q.metrics.queueing_timedout + timeouts p'

pub advance-Moved :
    (q q' : Queue) (e : Event) (p p' : Phase) → advance q e p ≡ some (q', p') → Moved q p q' p'
unfolding advance
advance-Moved q q' (run_on now) arriving p' h =
    ground (arith, length-append q.waiting_ch (now ∷ []))
advance-Moved q q' (run_on now) claimed p' h = ground arith
advance-Moved q q' (run_on now) serving p' h = ground arith
advance-Moved q q' e p p' h = ground arith

set-Inv :
    (l c : ℕ) (s : System) (i : ℕ) (p p' : Phase) (q' : Queue)
    → get_elem? s.requests i ≡ some p
    → Moved s.queue p q' p'
    → Inv l c s
    → Inv l c (record { queue = q'; requests = set s.requests i p' })
set-Inv l c s i p p' q' h m v = ground (
  arith,
  total-set waiting_slots s.requests i p p' h,
  total-set busy_slots s.requests i p p' h,
  total-set rejections s.requests i p p' h,
  total-set timeouts s.requests i p p' h,
)

-- A successful step of a request, taken apart.
pub record Acted (s : System) (i : ℕ) (e : Event) (t : System) : Type 0 where
  pub before : Phase
  pub after : Phase
  pub queue : Queue
  pub found : get_elem? s.requests i ≡ some before
  pub moved : advance s.queue e before ≡ some (queue, after)
  pub result : t ≡ record { queue = queue; requests = set s.requests i after }

pub step-Acted : (s t : System) (i : ℕ) (e : Event) → step s (act i e) ≡ some t → Acted s i e t
unfolding step
step-Acted s t i e h = elim (Option-cases (get_elem? s.requests i)) [
  | inl missing ↦ absurd (ground arith)
  | inr (p, found) ↦ elim (Option-cases (advance s.queue e p)) [
    | inl stuck ↦ absurd (ground arith)
    | inr ((q, p'), moved) ↦ record {
      before = p;
      after = p';
      queue = q;
      found = found;
      moved = moved;
      result = ground arith;
    }
  ]
]

step-Inv : (l c : ℕ) (s t : System) (m : Move) → step s m ≡ some t → Inv l c s → Inv l c t
step-Inv l c s t arrive h v = unfold step in ground arith
step-Inv l c s t (act i e) h v =
    let a = step-Acted s t i e h in
    subst⁻¹ (Inv l c) a.result
      (set-Inv l c s i a.before a.after a.queue a.found (advance-Moved _ _ e _ _ a.moved) v)

pub run-Inv : (l c : ℕ) (s t : System) (ms : List Move) → run s ms ≡ some t → Inv l c s → Inv l c t
unfolding run
run-Inv l c s t [] h v = ground arith
run-Inv l c s t (m ∷ ms) h v = elim (Option-cases (step s m)) [
  | inl stuck ↦ absurd (ground arith)
  | inr (u, e) ↦ run-Inv l c u t ms (ground arith) (step-Inv l c s u m e v)
]

pub init-Inv :
    (limit queue_limit timeout : ℕ)
    → Inv limit ((limit + queue_limit) % 2 ^ 64) (init (new_queue limit queue_limit timeout))
unfolding init new_queue
init-Inv limit queue_limit timeout = omega arith
