-- ===== src/KeyWatcher/System.antt =====
-- internal/redis/keywatcher.go: the messages of `processInner`, the steps of `WatchKey`, and the
-- histories of both.
use mathlib.Core.Option
use gitlab_workhorse.Base.{
  ℕ, ◌+◌, ◌==◌, List, [], ◌∷◌, ◌++◌, Option, none, some, if◌then◌else◌, length, get_elem?, set,
}
use gitlab_workhorse.Base.Text.{Text, text_eq}
use gitlab_workhorse.KeyWatcher.{
  WatchKeyStatus, watch_key_status_timeout, watch_key_status_already_changed,
  watch_key_status_seen_change, watch_key_status_no_change, WatchError, redis_get_error,
  redis_get_failed, WatchResult, Phase, asking, waiting, leaving, returned, Watcher, KeyWatcher,
  add_key_chan, notify_chan_watchers, del_key_chan,
}

-- `strings.SplitN(s, "=", 2)`; `none` where it has one part only.
unfoldable pub split_message : Text → Option (Text × Text)
split_message [] = none
split_message (c ∷ s) =
    if c == b'=' then some ([], s) else Option.map (λ p. (c ∷ p.0, p.1)) (split_message s)

-- The handling of a `redis.Message`; an invalid notification is logged and skipped.
unfoldable pub process_message : Text → KeyWatcher → Option KeyWatcher
process_message data_str s = elim (split_message data_str) [
  | none ↦ some (record s { total_messages = s.total_messages + 1 })
  | some (key, value) ↦
      notify_chan_watchers key value (record s { total_messages = s.total_messages + 1 })
]

-- What `psc.Receive()` returns: a message, an error, or anything else, which the switch ignores.
pub data Received : Type 0 where
  message : Text → Received
  receive_error : Received
  other : Received

-- The loop of `processInner` over what is received: it ends at an error.
unfoldable pub process_inner : List Received → KeyWatcher → Option KeyWatcher
process_inner [] s = some s
process_inner (receive_error ∷ rs) s = some s
process_inner (other ∷ rs) s = process_inner rs s
process_inner (message data_str ∷ rs) s = elim (process_message data_str s) [
  | none ↦ none
  | some s' ↦ process_inner rs s'
]

-- `make(chan string, 1)` and `addKeyChan`: the new call has the next index.
unfoldable pub start_watch : Text → Text → KeyWatcher → KeyWatcher
start_watch key value s =
    let w : Watcher = record { key = key; value = value; chan = []; phase = asking } in
    add_key_chan key (length s.watchers) (record s { watchers = s.watchers ++ w ∷ [] })

-- What lets a call of `WatchKey` go on: the answer of redis (`none` is an error), the channel, the
-- clock, or nothing (a deferred call).
pub data Event : Type 0 where
  answer : Option Text → Event
  receive : Event
  time_out : Event
  run_on : Event

abbrev pub result : WatchKeyStatus → WatchResult
result st = record { status = st; error = none }

abbrev pub failure : WatchError → WatchResult
failure e = record { status = watch_key_status_no_change; error = some e }

unfoldable pub after_get : Option Text → Text → Phase
after_get none value = leaving (failure redis_get_error)
after_get (some current) value =
    if text_eq current value then waiting else leaving (result watch_key_status_already_changed)

unfoldable pub after_receive : Text → Text → Phase
after_receive current value =
    if text_eq current []
    then leaving (failure redis_get_failed)
    else if text_eq current value
    then leaving (result watch_key_status_no_change)
    else leaving (result watch_key_status_seen_change)

unfoldable pub set_watcher : KeyWatcher → ℕ → Watcher → KeyWatcher
set_watcher s i w = record s { watchers = set s.watchers i w }

-- The select receives what the channel holds; `none` where it holds nothing.
unfoldable pub receive_from : KeyWatcher → ℕ → Watcher → List Text → Option KeyWatcher
receive_from s i w [] = none
receive_from s i w (v ∷ rest) =
    some (set_watcher s i (record w { chan = rest; phase = after_receive v w.value }))

-- One step of the call at an index; `none` where it blocks or has no such step.
unfoldable pub advance : KeyWatcher → ℕ → Watcher → Phase → Event → Option KeyWatcher
unfolding set_watcher receive_from
advance s i w asking (answer g) = some (set_watcher s i (record w { phase = after_get g w.value }))
advance s i w waiting receive = receive_from s i w w.chan
advance s i w waiting time_out =
    some (set_watcher s i (record w { phase = leaving (result watch_key_status_timeout) }))
advance s i w (leaving r) run_on =
    some (del_key_chan w.key i (set_watcher s i (record w { phase = returned r })))
advance s i w _ _ = none

pub data Move : Type 0 where
  start : Text → Text → Move
  act : ℕ → Event → Move
  publish : Text → Move

unfoldable pub step : KeyWatcher → Move → Option KeyWatcher
unfolding advance
step s (start key value) = some (start_watch key value s)
step s (act i e) = elim (get_elem? s.watchers i) [ none ↦ none | some w ↦ advance s i w w.phase e ]
step s (publish data_str) = process_message data_str s

unfoldable pub run : KeyWatcher → List Move → Option KeyWatcher
run s [] = some s
run s (m ∷ ms) = elim (step s m) [ none ↦ none | some t ↦ run t ms ]
