-- ===== src/KeyWatcher/History.antt =====
-- What holds of the table of watched keys after any interleaving of calls of `WatchKey` and
-- messages.
use mathlib.Core.Option
use mathlib.Core.Path.{subst, subst⁻¹}
use gitlab_workhorse.Base.{
  ℕ, ◌+◌, ◌-◌, ◌≤◌, ◌≡◌, refl, sym, ◌∙◌, inl, inr, List, [], ◌∷◌, Option, none, some, arith, length,
  get_elem?, set, Option-cases,
}
use gitlab_workhorse.Base.Text.{Text}
use gitlab_workhorse.KeyWatcher.{KeyWatcher, Watcher, Phase, asking, waiting, leaving}
use gitlab_workhorse.KeyWatcher.System.{receive_from, set_watcher}
use gitlab_workhorse.KeyWatcher.System.{
  split_message, process_message, step, run, Move, start, act, publish, Event, answer, receive,
  time_out, run_on, advance, after_get, after_receive,
}
use gitlab_workhorse.KeyWatcher.Invariant.{
  Inv, room, room_of, IsActive, start_watch-Inv, leave-Inv, set-Inv,
}
use gitlab_workhorse.KeyWatcher.Notification.{notified}

pub messages-Inv : (s : KeyWatcher) (n : ℕ) → Inv s → Inv (record s { total_messages = n })
messages-Inv s n inv = record {
  distinct = inv.distinct;
  no_empty = inv.no_empty;
  gauge = inv.gauge;
  fits = inv.fits;
  armed = inv.armed;
}

-- A message is handled without blocking, and keeps the invariant.
pub process_message_total :
    (d : Text) (s : KeyWatcher) → Inv s → (t : KeyWatcher) × (process_message d s ≡ some t) × Inv t
unfolding process_message
process_message_total d s inv =
    let s' : KeyWatcher = record s { total_messages = s.total_messages + 1 } in
    let inv' = messages-Inv s (s.total_messages + 1) inv in
    elim (Option-cases (split_message d)) [
      | inl e ↦ (s', ground (arith, e), inv')
      | inr ((k, v), e) ↦
          let n = notified k v s' inv' in (n.after, rw (e, process_message) n.done, n.kept)
    ]

after_get-room : (g : Option Text) (v : Text) (n : ℕ) → room_of (after_get g v) n ≡ 1 - n
unfolding after_get
after_get-room none v n = refl
after_get-room (some c) v n = ground arith

after_receive-room : (c v : Text) (n : ℕ) → room_of (after_receive c v) n ≡ 1 - n
unfolding after_receive
after_receive-room c v n = ground arith

after_receive_inactive : (c v : Text) → IsActive (after_receive c v) → ⊥
unfolding after_receive
after_receive_inactive c v a = ground arith

module _ (s t : KeyWatcher) (i : ℕ) (w : Watcher) (found : get_elem? s.watchers i ≡ some w)
    (inv : Inv s) where
  -- The call goes on in the table as it is.
  moved-Inv :
      (w' : Watcher)
      → w'.key ≡ w.key
      → ((k : Text) → room (some w) k ≤ room (some w') k)
      → (IsActive w'.phase → IsActive w.phase × (length w'.chan ≡ length w.chan))
      → some (record s { watchers = set s.watchers i w' }) ≡ some t
      → Inv t
  moved-Inv w' key grows active h =
      subst Inv (Option.some-injective _ _ h) (set-Inv s i w found inv w' key grows active)

  receive-Inv :
      (c : List Text) → w.chan ≡ c → w.phase ≡ waiting → receive_from s i w c ≡ some t → Inv t
  unfolding receive_from set_watcher
  receive-Inv [] same e h = absurd (ground arith)
  receive-Inv (v ∷ rest) same e h =
      moved-Inv _ refl (λ k. ground (arith, e, same, after_receive-room v w.value (length rest)))
        (λ a. absurd (after_receive_inactive v w.value a)) h

  advance-Inv : (p : Phase) (e : Event) → w.phase ≡ p → advance s i w p e ≡ some t → Inv t
  unfolding advance
  advance-Inv asking (answer g) at_p h =
      moved-Inv _ refl (λ k. ground (arith, at_p, after_get-room g w.value (length w.chan)))
        (λ _. (subst⁻¹ IsActive at_p tt, refl)) h
  advance-Inv waiting receive at_p h = receive-Inv w.chan refl at_p h
  advance-Inv waiting time_out at_p h =
      moved-Inv _ refl (λ k. ground (arith, at_p)) (λ a. absurd a) h
  advance-Inv (leaving r) run_on at_p h =
      subst Inv (Option.some-injective _ _ h) (leave-Inv s i w found inv r)
  advance-Inv p e at_p h = absurd (ground arith)

step-Inv : (s t : KeyWatcher) (m : Move) → step s m ≡ some t → Inv s → Inv t
unfolding step
step-Inv s t (start k v) h inv = subst Inv (Option.some-injective _ _ h) (start_watch-Inv s k v inv)
step-Inv s t (act i e) h inv = elim (Option-cases (get_elem? s.watchers i)) [
  | inl missing ↦ absurd (ground arith)
  | inr (w, found) ↦ advance-Inv s t i w found inv w.phase e refl (ground arith)
]
step-Inv s t (publish d) h inv =
    let (u, done, kept) = process_message_total d s inv in
    subst Inv (Option.some-injective _ _ (sym done ∙ h)) kept

pub run-Inv : (s t : KeyWatcher) (ms : List Move) → run s ms ≡ some t → Inv s → Inv t
unfolding run
run-Inv s t [] h inv = subst Inv (Option.some-injective _ _ h) inv
run-Inv s t (m ∷ ms) h inv = elim (Option-cases (step s m)) [
  | inl stuck ↦ absurd (ground arith)
  | inr (u, e) ↦ run-Inv u t ms (ground arith) (step-Inv s u m e inv)
]
