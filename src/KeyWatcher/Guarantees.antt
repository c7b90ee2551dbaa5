-- ===== src/KeyWatcher/Guarantees.antt =====
-- What `WatchKey` and the message loop of internal/redis/keywatcher.go guarantee.
use mathlib.Core.Option
use mathlib.Core.Path.{subst⁻¹}
use gitlab_workhorse.Base.{
  ℕ, zero, suc, ◌+◌, ◌≡◌, refl, sym, ap, ◌∙◌, ◌≢◌, ◌⊎◌, inl, inr, List, [], ◌∷◌, ◌++◌, none, some,
  arith, if◌then◌else◌, length, get_elem?, set, All, get_elem?-set_found,
}
use gitlab_workhorse.Base.Text.{Text, text_eq, text_eq_iff}
use gitlab_workhorse.KeyWatcher.{
  chans, KeyWatcher, Watcher, Phase, waiting, leaving, returned, empty,
  watch_key_status_seen_change,
}
use gitlab_workhorse.KeyWatcher.System.{
  split_message, process_message, process_inner, Received, message, receive_error, other, step, run,
  Move, act, publish, receive, advance, result, after_receive,
}
use gitlab_workhorse.KeyWatcher.Table.{count, entries, empty_of_counts}
use gitlab_workhorse.KeyWatcher.Invariant.{Inv, room, room_of, IsActive, empty-Inv}
use gitlab_workhorse.KeyWatcher.Notification.{notified, deliver}
use gitlab_workhorse.KeyWatcher.History.{run-Inv, process_message_total, messages-Inv}

-- The states after any history of calls and messages.
pub record Reached (s : KeyWatcher) : Type 0 where
  pub moves : List Move
  pub reached : run empty moves ≡ some s

Reached-Inv : {s : KeyWatcher} → Reached s → Inv s
Reached-Inv {s} r = run-Inv empty s r.moves r.reached empty-Inv

process_inner_from :
    (rs : List Received) (s : KeyWatcher) → Inv s → (t : KeyWatcher) × (process_inner rs s ≡ some t)
unfolding process_inner
process_inner_from [] s inv = (s, refl)
process_inner_from (receive_error ∷ rs) s inv = (s, refl)
process_inner_from (other ∷ rs) s inv = process_inner_from rs s inv
process_inner_from (message d ∷ rs) s inv =
    let (u, done, kept) = process_message_total d s inv in
    let (t, rest) = process_inner_from rs u kept in (t, rw (done, process_inner) rest)

-- The message loop never blocks on a channel while it holds the mutex: whatever is received after
-- whatever history, it comes to its end.
pub process_inner_total :
    (s : KeyWatcher) (rs : List Received)
    → Reached s
    → (t : KeyWatcher) × (process_inner rs s ≡ some t)
process_inner_total s rs r = process_inner_from rs s (Reached-Inv r)

-- The gauge of watched keys counts the entries of the table.
pub gauge-entries : (s : KeyWatcher) → Reached s → s.key_watchers ≡ entries s.key_watcher
gauge-entries s r = (Reached-Inv r).gauge

abbrev pub HasReturned : Phase → Type 0
HasReturned (returned r) = Unit {0}
HasReturned _ = ⊥

room_of_returned : (w : Watcher) (k : Text) → HasReturned w.phase → room (some w) k ≡ 0
room_of_returned w k done = room_phase w.phase done
  where
    room_phase :
        (p : Phase) → HasReturned p → (if text_eq w.key k then room_of p (length w.chan) else 0) ≡ 0
    room_phase (returned r) h = ground arith
    room_phase p h = absurd h

room_returned :
    (ws : List Watcher) (i : ℕ) (k : Text)
    → All (λ w. HasReturned w.phase) ws
    → room (get_elem? ws i) k ≡ 0
room_returned [] i k h = refl
room_returned (w ∷ ws) zero k h = room_of_returned w k h.0
room_returned (w ∷ ws) (suc i) k h = room_returned ws i k h.1

-- Nothing leaks: when every call of `WatchKey` has returned, however it ended, the table has no
-- entry and no key, and the gauge is back at zero.
pub returned_clean :
    (s : KeyWatcher)
    → Reached s
    → All (λ w. HasReturned w.phase) s.watchers
    → (s.key_watcher ≡ []) × (s.key_watchers ≡ 0)
returned_clean s r done =
    let inv = Reached-Inv r in
    let e =
      empty_of_counts s.key_watcher inv.no_empty
        (λ k c. omega (arith, inv.fits k c, room_returned s.watchers c k done)) in
    (e, inv.gauge ∙ ap entries e)

-- The message puts the value into the channels under its key.
published :
    (s t : KeyWatcher) (d k v : Text)
    → Inv s
    → split_message d ≡ some (k, v)
    → step s (publish d) ≡ some t
    → (i : ℕ)
    → get_elem? t.watchers i ≡ deliver v (count i (chans k s.key_watcher)) (get_elem? s.watchers i)
unfolding step process_message
published s t d k v inv parts moved i =
    let s' : KeyWatcher = record s { total_messages = s.total_messages + 1 } in
    let n = notified k v s' (messages-Inv s (s.total_messages + 1) inv) in
    let same : n.after ≡ t =
      Option.some-injective _ _ (sym n.done ∙ (rw (parts, process_message) at moved)) in
    ap (λ u. get_elem? u.watchers i) (sym same) ∙ n.delivered i

-- A message for the key of a call that asks redis or waits, and has not been notified, puts the value
-- into the channel of that call. A call for another key, and one that has returned, are left as they
-- are. (A call that is leaving gets the value or does not.)
pub published_delivered :
    (s t : KeyWatcher) (d k v : Text) (i : ℕ) (w : Watcher)
    → Reached s
    → split_message d ≡ some (k, v)
    → step s (publish d) ≡ some t
    → get_elem? s.watchers i ≡ some w
    → (w.key ≡ k
        → IsActive w.phase
        → w.chan ≡ []
        → get_elem? t.watchers i ≡ some (record w { chan = v ∷ [] }))
      × ((w.key ≢ k) ⊎ HasReturned w.phase → get_elem? t.watchers i ≡ some w)
published_delivered s t d k v i w r parts moved found =
    let inv = Reached-Inv r in
    let after = published s t d k v inv parts moved i in
    (
      λ same a free. ground (arith, after, found, inv.armed i w found a, same, free),
      λ spared. elim spared [
        | inl differs ↦ ground (arith, after, found, inv.fits k i, text_eq_iff w.key k, differs)
        | inr done ↦ ground (arith, after, found, inv.fits k i, room_of_returned w k done)
      ],
    )

received :
    (t : KeyWatcher) (i : ℕ) (w : Watcher) (v : Text)
    → get_elem? t.watchers i ≡ some (record w { chan = v ∷ [] })
    → w.phase ≡ waiting
    → v ≢ []
    → v ≢ w.value
    → step t (act i receive)
      ≡ some (record t {
        watchers =
            set t.watchers i
              (record w { chan = []; phase = leaving (result watch_key_status_seen_change) });
      })
unfolding step advance after_receive
received t i w v at_i waits some_v new = ground (arith, text_eq_iff v [], text_eq_iff v w.value)

-- If a message for the key of a call that waits and has not been notified brings a value that is
-- neither empty nor the one that the call knows, then right after it the call can receive from its
-- channel, and if that is what its select takes, it goes on to return "seen change".
pub change_seen :
    (s t : KeyWatcher) (d v : Text) (i : ℕ) (w : Watcher)
    → Reached s
    → get_elem? s.watchers i ≡ some w
    → w.phase ≡ waiting
    → w.chan ≡ []
    → split_message d ≡ some (w.key, v)
    → v ≢ []
    → v ≢ w.value
    → step s (publish d) ≡ some t
    → (u : KeyWatcher) × (step t (act i receive) ≡ some u)
      × (get_elem? u.watchers i
          ≡ some (record w { chan = []; phase = leaving (result watch_key_status_seen_change) }))
change_seen s t d v i w r found waits free parts some_v new moved =
    let w' : Watcher = record w {
      chan = [];
      phase = leaving (result watch_key_status_seen_change);
    } in
    let at_i : get_elem? t.watchers i ≡ some (record w { chan = v ∷ [] }) =
      (published_delivered s t d w.key v i w r parts moved found).0 refl (subst⁻¹ IsActive waits tt)
        free in
    (
      record t { watchers = set t.watchers i w' },
      received t i w v at_i waits some_v new,
      get_elem?-set_found t.watchers i (record w { chan = v ∷ [] }) w' at_i,
    )

-- A notification `key=value` is split at its first "=": a key with no "=" comes back with the whole
-- value, which may hold more of them; a text with no "=" is not a notification.
pub split_message_lem :
    (k v : Text)
    → All (λ c. c ≢ b'=') k
    → (split_message (k ++ b'=' ∷ v) ≡ some (k, v)) × (split_message k ≡ none)
unfolding split_message
split_message_lem [] v h = (refl, refl)
split_message_lem (c ∷ k) v h =
    let (joined, single) = split_message_lem k v h.1 in
    (ground (arith, joined, h.0), ground (arith, single, h.0))
