-- ===== src/Terminal/Session.antt =====
-- internal/terminal/proxy.go: the goroutines of a terminal, and the channel that stops it.

use mathlib.Core.Path.{subst}
use gitlab_workhorse.Base.{
  ℕ, zero, suc, ◌+◌, ◌-◌, ◌≤◌, ◌<◌, ◌≡◌, refl, ltb, List, [], ◌∷◌, Option, none, some, Bool, true,
  false, if◌then◌else◌, arith, Option-cases, inl, inr, length, ◌⊎◌, ap, get_elem?,
  get_elem?-set_found, set, length-set, total, total-set,
}

-- A goroutine that may stop the session: it runs, is about to send to StopCh, or has returned.
pub data Stopper : Type 0 where
  running sending returned : Stopper

-- `Proxy` with its goroutines: the number of errors in `StopCh` and its capacity, and whether `Serve`
-- has received one.
pub record Proxy : Type 0 where
  pub stop_ch : ℕ
  pub capacity : ℕ
  pub served : Bool
  pub stoppers : List Stopper

abbrev replicate : ℕ → List Stopper
replicate zero = []
replicate (suc n) = running ∷ replicate n

-- `NewProxy`, with the goroutines that its caller and `Serve` start.
unfoldable pub new_proxy : ℕ → Proxy
new_proxy stoppers = record {
  stop_ch = 0;
  capacity = stoppers + 2;
  served = false;
  stoppers = replicate (stoppers + 2);
}

-- A goroutine meets an error or the end of its time, or sends to StopCh, or ends without a send; or
-- `Serve` receives.
pub data Move : Type 0 where
  stops sends leaves : ℕ → Move
  receives : Move

-- The send of a goroutine; `none` where it blocks.
unfoldable pub send : Proxy → ℕ → Option Proxy
send p i =
    if ltb p.stop_ch p.capacity
    then some (record p { stop_ch = p.stop_ch + 1; stoppers = set p.stoppers i returned })
    else none

unfoldable pub step : Proxy → Move → Option Proxy
step p (stops i) = elim (get_elem? p.stoppers i) [
  | none ↦ none
  | some running ↦ some (record p { stoppers = set p.stoppers i sending })
  | some sending ↦ none
  | some returned ↦ none
]
step p (sends i) = elim (get_elem? p.stoppers i) [
  | none ↦ none
  | some running ↦ none
  | some sending ↦ send p i
  | some returned ↦ none
]
step p (leaves i) = elim (get_elem? p.stoppers i) [
  | none ↦ none
  | some running ↦ some (record p { stoppers = set p.stoppers i returned })
  | some sending ↦ none
  | some returned ↦ none
]
step p receives =
    if p.served
    then none
    else if ltb 0 p.stop_ch
    then some (record p { stop_ch = p.stop_ch - 1; served = true })
    else none

unfoldable pub run : Proxy → List Move → Option Proxy
run p [] = some p
run p (m ∷ ms) = elim (step p m) [ none ↦ none | some q ↦ run q ms ]

abbrev ended : Stopper → ℕ
ended running = 0
ended sending = 0
ended returned = 1

-- No more errors wait in the channel than goroutines have ended, and it has room for one of each.
record Inv (p : Proxy) : Type 0 where
  errors : p.stop_ch ≤ total ended p.stoppers
  room : p.capacity ≡ length p.stoppers

length-replicate : (n : ℕ) → length (replicate n) ≡ n
length-replicate zero = refl
length-replicate (suc n) = omega (arith, length-replicate n)

new_proxy-Inv : (n : ℕ) → Inv (new_proxy n)
unfolding new_proxy
new_proxy-Inv n = record { errors = omega arith; room = omega (arith, length-replicate (n + 2)) }

Stopper-cases : (x : Stopper) → (x ≡ running) ⊎ (x ≡ sending) ⊎ (x ≡ returned)
Stopper-cases running = inl refl
Stopper-cases sending = inr (inl refl)
Stopper-cases returned = inr (inr refl)

-- A goroutine goes on; if it ends, one error more may wait.
set-Inv :
    (p q : Proxy) (i : ℕ) (x y : Stopper)
    → Inv p
    → get_elem? p.stoppers i ≡ some x
    → q.stoppers ≡ set p.stoppers i y
    → q.capacity ≡ p.capacity
    → q.stop_ch + ended x ≤ p.stop_ch + ended y
    → Inv q
set-Inv p q i x y v here there cap fits =
    let sum = total-set ended p.stoppers i x y here in
    let counted : total ended q.stoppers ≡ total ended (set p.stoppers i y) =
      ap (total ended) there in
    let kept : length q.stoppers ≡ length (set p.stoppers i y) = ap length there in
    record {
      errors = omega (arith, sum, counted, fits, v.errors);
      room = omega (arith, kept, length-set p.stoppers i y, cap, v.room);
    }

step-Inv : (p q : Proxy) (m : Move) → Inv p → step p m ≡ some q → Inv q
unfolding step send
step-Inv p q receives v e = record {
  errors = ground (arith, e, v.errors);
  room = ground (arith, e, v.room);
}
step-Inv p q (stops i) v e = elim (Option-cases (get_elem? p.stoppers i)) [
  | inl gone ↦ absurd (ground (arith, e, gone))
  | inr (x, here) ↦ elim (Stopper-cases x) [
    | inr other ↦ absurd (ground (arith, e, here, other))
    | inl now ↦
        set-Inv p q i x sending v here (ground (arith, e, here, now)) (ground (arith, e, here, now))
          (ground (arith, e, here, now))
  ]
]
step-Inv p q (sends i) v e = elim (Option-cases (get_elem? p.stoppers i)) [
  | inl gone ↦ absurd (ground (arith, e, gone))
  | inr (x, here) ↦ elim (Stopper-cases x) [
    | inl other ↦ absurd (ground (arith, e, here, other))
    | inr (inr other) ↦ absurd (ground (arith, e, here, other))
    | inr (inl now) ↦
        set-Inv p q i x returned v here (ground (arith, e, here, now))
          (ground (arith, e, here, now)) (ground (arith, e, here, now))
  ]
]
step-Inv p q (leaves i) v e = elim (Option-cases (get_elem? p.stoppers i)) [
  | inl gone ↦ absurd (ground (arith, e, gone))
  | inr (x, here) ↦ elim (Stopper-cases x) [
    | inr other ↦ absurd (ground (arith, e, here, other))
    | inl now ↦
        set-Inv p q i x returned v here (ground (arith, e, here, now))
          (ground (arith, e, here, now)) (ground (arith, e, here, now))
  ]
]

run-Inv : (p q : Proxy) (ms : List Move) → Inv p → run p ms ≡ some q → Inv q
unfolding run
run-Inv p q [] v e = subst Inv (ground (arith, e)) v
run-Inv p q (m ∷ ms) v e = elim (Option-cases (step p m)) [
  | inl stuck ↦ absurd (ground (arith, e, stuck))
  | inr (p', one) ↦ run-Inv p' q ms (step-Inv p p' m v one) (ground (arith, e, one))
]

ended_at_most : (xs : List Stopper) → total ended xs ≤ length xs
ended_at_most [] = omega arith
ended_at_most (running ∷ xs) = omega (arith, ended_at_most xs)
ended_at_most (sending ∷ xs) = omega (arith, ended_at_most xs)
ended_at_most (returned ∷ xs) = omega (arith, ended_at_most xs)

not_all_ended :
    (xs : List Stopper) (i : ℕ) → get_elem? xs i ≡ some sending → total ended xs < length xs
not_all_ended [] i e = absurd (ground (arith, e))
not_all_ended (x ∷ xs) zero e = ground (arith, e, ended_at_most xs)
not_all_ended (running ∷ xs) (suc i) e = omega (arith, not_all_ended xs i e)
not_all_ended (sending ∷ xs) (suc i) e = omega (arith, not_all_ended xs i e)
not_all_ended (returned ∷ xs) (suc i) e = omega (arith, not_all_ended xs i e)

-- In any session, whatever its goroutines have done and whether `Serve` has returned or not, a
-- goroutine that is about to send to StopCh is not blocked, so that it ends.
pub send_never_blocks :
    (n : ℕ) (ms : List Move) (p : Proxy) (i : ℕ)
    → run (new_proxy n) ms ≡ some p
    → get_elem? p.stoppers i ≡ some sending
    → (q : Proxy) × (step p (sends i) ≡ some q) × (get_elem? q.stoppers i ≡ some returned)
unfolding step send
send_never_blocks n ms p i e here =
    let v = run-Inv (new_proxy n) p ms (new_proxy-Inv n) e in
    let room : p.stop_ch < p.capacity =
      omega (arith, v.errors, v.room, not_all_ended p.stoppers i here) in
    (
      record p { stop_ch = p.stop_ch + 1; stoppers = set p.stoppers i returned },
      ground (arith, here, room),
      get_elem?-set_found p.stoppers i sending returned here,
    )
