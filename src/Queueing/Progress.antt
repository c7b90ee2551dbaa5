-- ===== src/Queueing/Progress.antt =====
-- What holds of every queue that requests have used: its limits, its metrics, and that no request
-- holds the queue up for ever.
use native.Mathlib.Decide.{dec_lt}
use mathlib.Core.Path.{subst⁻¹}
use gitlab_workhorse.Base.{
  ℕ, zero, suc, ◌+◌, ◌%◌, ◌^◌, ◌≤◌, ◌<◌, ◌≡◌, refl, ◌↔◌, List, [], ◌∷◌, none, some, arith, length,
  get_elem?, total, All, some_of_ne_none, get_elem?-set_found, ◌==◌, if◌then◌else◌, ◌≢◌, set, ltb,
}
use gitlab_workhorse.Queueing.{
  Queue, new_queue, Phase, arriving, claimed, blocked, timing_out, serving, releasing, served,
  replied, err_too_many_requests, run_on, advance,
}
use gitlab_workhorse.Queueing.System.{
  System, init, queue_requests, default_timeout, Move, act, step, run,
}
use gitlab_workhorse.Queueing.Invariant.{
  waiting_slots, busy_slots, rejections, timeouts, Inv, run-Inv, init-Inv,
}

-- The states that a queue can be in, after any interleaving of its requests.
pub record Reached (limit queue_limit timeout : ℕ) (s : System) : Type 0 where
  pub queue : Queue
  pub opened : queue_requests limit queue_limit timeout ≡ some queue
  pub moves : List Move
  pub reached : run (init queue) moves ≡ some s

queue_requests_opened :
    (limit queue_limit timeout : ℕ) (q : Queue)
    → queue_requests limit queue_limit timeout ≡ some q
    → (0 < limit) × Inv limit ((limit + queue_limit) % 2 ^ 64) (init q)
unfolding queue_requests
queue_requests_opened limit queue_limit timeout q h =
    let e : q ≡ new_queue limit queue_limit (if timeout == 0 then default_timeout else timeout) =
      ground arith in
    (
      ground arith,
      subst⁻¹ (λ k. Inv limit ((limit + queue_limit) % 2 ^ 64) (init k)) e
          (init-Inv limit queue_limit _),
    )

module _ {limit queue_limit timeout : ℕ} {s : System}
    (r : Reached limit queue_limit timeout s) where
  Reached-Inv : Inv limit ((limit + queue_limit) % 2 ^ 64) s
  Reached-Inv =
      run-Inv _ _ _ s r.moves r.reached
        (queue_requests_opened limit queue_limit timeout r.queue r.opened).1

get_elem?-le-total :
    (f : Phase → ℕ) (ps : List Phase) (i : ℕ) (p : Phase)
    → get_elem? ps i ≡ some p
    → f p ≤ total f ps
get_elem?-le-total f [] i p h = cc
get_elem?-le-total f (x ∷ ps) zero p h = ground arith
get_elem?-le-total f (x ∷ ps) (suc i) p h = omega (arith, get_elem?-le-total f ps i p h)

-- A request that makes a measure positive.
holder_of_total :
    (f : Phase → ℕ) (ps : List Phase)
    → 0 < total f ps
    → (j : ℕ) × (p : Phase) × (get_elem? ps j ≡ some p) × (0 < f p)
holder_of_total f [] h = absurd (omega arith)
holder_of_total f (x ∷ ps) h = elim (dec_lt 0 (f x)) [
  | yes here ↦ (0, x, refl, here)
  | no other ↦ let (j, p, found, pos) = holder_of_total f ps (omega arith) in (suc j, p, found, pos)
]

-- A step of the request at an index, when its phase is known.
step_of_advance :
    (s : System) (i now : ℕ) (p : Phase) (r : Queue × Phase)
    → get_elem? s.requests i ≡ some p
    → advance s.queue (run_on now) p ≡ some r
    → step s (act i (run_on now)) ≡ some (record { queue = r.0; requests = set s.requests i r.1 })
unfolding step
step_of_advance s i now p r found moved = ground arith

-- The phases in which a request makes its next step whatever the others do.
abbrev pub IsFree : Phase → Type 0
IsFree blocked = ⊥
IsFree served = ⊥
IsFree (replied e) = ⊥
IsFree _ = Unit {0}

advance_free :
    (q : Queue) (now : ℕ) (p : Phase)
    → IsFree p
    → waiting_slots p ≤ length q.waiting_ch
    → busy_slots p ≤ q.busy_ch
    → (r : Queue × Phase) × (advance q (run_on now) p ≡ some r)
unfolding advance
advance_free q now arriving free w b = (_, refl)
advance_free q now claimed free w b = (_, refl)
advance_free q now timing_out free w b = some_of_ne_none _ (grind arith)
advance_free q now serving free w b = some_of_ne_none _ (grind arith)
advance_free q now releasing free w b = some_of_ne_none _ (grind arith)
advance_free q now p free w b = absurd free

-- The request at an index owns what the channels hold for its phase.
free_step :
    (l c : ℕ) (s : System) (i now : ℕ) (p : Phase)
    → Inv l c s
    → get_elem? s.requests i ≡ some p
    → IsFree p
    → step s (act i (run_on now)) ≢ none
free_step l c s i now p v found free =
    let (r, moved) =
      advance_free s.queue now p free
        (omega (arith, get_elem?-le-total waiting_slots s.requests i p found, v.waiting))
        (omega (arith, get_elem?-le-total busy_slots s.requests i p found, v.busy)) in
    cc (step_of_advance s i now p r found moved)

full :
    (s : System) (i now : ℕ)
    → get_elem? s.requests i ≡ some blocked
    → step s (act i (run_on now)) ≡ none
    → s.queue.limit ≤ s.queue.busy_ch
unfolding step advance
full s i now found stuck = ground arith

arriving_step :
    (s t : System) (i now : ℕ)
    → get_elem? s.requests i ≡ some arriving
    → step s (act i (run_on now)) ≡ some t
    → (p : Phase) × (get_elem? t.requests i ≡ some p)
      × ((p ≡ replied err_too_many_requests) ↔ (s.queue.waiting_cap ≤ length s.queue.waiting_ch))
      × ((p ≡ claimed) ↔ (length s.queue.waiting_ch < s.queue.waiting_cap))
unfolding step advance
arriving_step s t i now found moved =
    let c = ltb (length s.queue.waiting_ch) s.queue.waiting_cap in
    let p : Phase = if c then claimed else replied err_too_many_requests in
    let e : t.requests ≡ set s.requests i p = ground arith in
    (p, rw e (get_elem?-set_found s.requests i arriving p found), ground arith, ground arith)

abbrev pub HasReturned : Phase → Type 0
HasReturned served = Unit {0}
HasReturned (replied e) = Unit {0}
HasReturned _ = ⊥

HasReturned-slots : (p : Phase) → HasReturned p → (waiting_slots p ≡ 0) × (busy_slots p ≡ 0)
HasReturned-slots served h = (refl, refl)
HasReturned-slots (replied e) h = (refl, refl)
HasReturned-slots p h = absurd h

returned_slots :
    (ps : List Phase)
    → All HasReturned ps
    → (total waiting_slots ps ≡ 0) × (total busy_slots ps ≡ 0)
returned_slots [] h = (refl, refl)
returned_slots (p ∷ ps) h = omega (arith, HasReturned-slots p h.0, returned_slots ps h.1)

holder-IsFree : (p : Phase) → 0 < busy_slots p → IsFree p
holder-IsFree serving h = tt
holder-IsFree releasing h = tt
holder-IsFree p h = absurd (omega arith)

module _ {limit queue_limit timeout : ℕ} {s : System}
    (r : Reached limit queue_limit timeout s) where
  -- At any time at most `limit` requests own a slot of `busyCh`, so at most that many are served at
  -- once; and at most `limit + queueLimit` (as a `uint`) own a slot of `waitingCh`.
  pub slots_bounded :
      (total busy_slots s.requests ≤ limit)
      × (total waiting_slots s.requests ≤ (limit + queue_limit) % 2 ^ 64)
  slots_bounded = let v = Reached-Inv r in omega arith

  -- The metrics say what the requests do: the busy gauge counts the requests being served or
  -- released, the waiting gauge those admitted and not yet released (the served ones among them),
  -- and the two error counters the requests refused at once and those whose timer fired.
  pub metrics_count :
      (s.queue.metrics.queueing_busy ≡ total busy_slots s.requests)
      × (s.queue.metrics.queueing_waiting ≡ total waiting_slots s.requests)
      × (s.queue.metrics.too_many_requests ≡ total rejections s.requests)
      × (s.queue.metrics.queueing_timedout ≡ total timeouts s.requests)
  metrics_count = let v = Reached-Inv r in omega arith

  -- A request that has not returned and is not in the blocking select of `Acquire` can always make
  -- its next step: so the receives of `Release`, and the deferred one of `Acquire`, never block.
  pub receives_never_block :
      (i now : ℕ) (p : Phase)
      → get_elem? s.requests i ≡ some p
      → IsFree p
      → step s (act i (run_on now)) ≢ none
  receives_never_block i now p = free_step _ _ s i now p (Reached-Inv r)

  -- A request that cannot leave its blocking select waits for another one: some request
  -- owns a slot of `busyCh` and can make its next step.
  pub blocked_waits_for_holder :
      (i now : ℕ)
      → get_elem? s.requests i ≡ some blocked
      → step s (act i (run_on now)) ≡ none
      → (j : ℕ) × (p : Phase) × (get_elem? s.requests j ≡ some p)
        × (0 < busy_slots p)
        × (step s (act j (run_on now)) ≢ none)
  blocked_waits_for_holder i now found stuck =
      let v = Reached-Inv r in
      let pos = (queue_requests_opened limit queue_limit timeout r.queue r.opened).0 in
      let (j, p, at_j, holds) =
        holder_of_total busy_slots s.requests (omega (arith, full s i now found stuck)) in
      (j, p, at_j, holds, free_step _ _ s j now p v at_j (holder-IsFree p holds))

  -- A new request is refused exactly when `waitingCh` is full, and else owns one more slot.
  pub refused_iff_full :
      (i now : ℕ) (t : System)
      → get_elem? s.requests i ≡ some arriving
      → step s (act i (run_on now)) ≡ some t
      → ((get_elem? t.requests i ≡ some (replied err_too_many_requests))
          ↔ (total waiting_slots s.requests ≡ (limit + queue_limit) % 2 ^ 64))
        × ((get_elem? t.requests i ≡ some claimed)
            ↔ (total waiting_slots s.requests < (limit + queue_limit) % 2 ^ 64))
  refused_iff_full i now t found moved =
      let v = Reached-Inv r in
      let (p, at_i, full_iff, room_iff) = arriving_step s t i now found moved in
      ground (arith, v, at_i, full_iff, room_iff)

  -- When every request has returned, both channels are empty and both gauges are back at zero.
  pub returned_empty :
      All HasReturned s.requests
      → (s.queue.waiting_ch ≡ [])
        × (s.queue.busy_ch ≡ 0)
        × (s.queue.metrics.queueing_waiting ≡ 0)
        × (s.queue.metrics.queueing_busy ≡ 0)
  returned_empty done =
      let v = Reached-Inv r in let (w, b) = returned_slots s.requests done in ground (arith, v)
