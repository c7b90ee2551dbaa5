-- ===== src/KeyWatcher/Examples.antt =====
-- Two calls of `WatchKey` for one key, and a third for another.
use gitlab_workhorse.Base.{◌≡◌, refl, ◌≢◌, ◌⊎◌, List, [], ◌∷◌, ◌++◌, none, some, arith, get_elem?}
use gitlab_workhorse.Base.Text.{codes, text_eq}
use gitlab_workhorse.Base.Dict.{lookup, insert, delete}
use gitlab_workhorse.KeyWatcher.{
  KeyWatcher, Watcher, waiting, leaving, empty, add_key_chan, send_all, send, notify_chan_watchers,
  remove, contains, del_key_chan, watch_key_status_seen_change,
}
use gitlab_workhorse.KeyWatcher.System.{
  split_message, process_message, process_inner, message, receive_error, start_watch, start, act,
  publish, answer, receive, run_on, result, step, run, advance, after_get, after_receive, Move,
}
use gitlab_workhorse.KeyWatcher.Guarantees.{
  Reached, HasReturned, process_inner_total, returned_clean, published_delivered, change_seen,
}

machine : Unit {0}
unfolding step run advance after_get after_receive start_watch add_key_chan del_key_chan send_all
    send notify_chan_watchers remove contains process_message process_inner split_message lookup
    insert delete text_eq
machine = tt

abbrev morning : List Move
morning =
    start (codes "a") (codes "1")
    ∷ start (codes "a") (codes "1")
    ∷ start (codes "b") (codes "1")
    ∷ act 0 (answer (some (codes "1")))
    ∷ act 1 (answer none)
    ∷ act 2 (answer (some (codes "2")))
    ∷ []

after : KeyWatcher → List Move → KeyWatcher
unfolding machine
after s ms = elim (run s ms) [ none ↦ s | some t ↦ t ]

abbrev watched : KeyWatcher
watched = after empty morning

watched-Reached : Reached watched
unfolding machine after
watched-Reached = record { moves = morning; reached = refl }

watched_phases :
    (get_elem? watched.watchers 0
      ≡ some (record { key = codes "a"; value = codes "1"; chan = []; phase = waiting }))
    × (watched.key_watchers ≡ 3)
unfolding machine after
watched_phases = (refl, refl)

abbrev evening : List Move
evening = publish (codes "a=2") ∷ act 0 receive ∷ act 0 run_on ∷ act 1 run_on ∷ act 2 run_on ∷ []

abbrev left : KeyWatcher
left = after watched evening

left-Reached : Reached left
unfolding machine after
left-Reached = record { moves = morning ++ evening; reached = refl }

process_inner_total_example :
    (t : KeyWatcher) × (process_inner
        (message (codes "a=2") ∷ message (codes "x") ∷ receive_error ∷ [])
        watched
      ≡ some t)
process_inner_total_example =
    process_inner_total watched (message (codes "a=2") ∷ message (codes "x") ∷ receive_error ∷ [])
      watched-Reached

returned_clean_example : (left.key_watcher ≡ []) × (left.key_watchers ≡ 0)
unfolding machine after
returned_clean_example = returned_clean left left-Reached (tt, (tt, (tt, tt)))

abbrev first : Watcher
first = record { key = codes "a"; value = codes "1"; chan = []; phase = waiting }

abbrev notified : KeyWatcher
notified = after watched (publish (codes "a=2") ∷ [])

published_delivered_example :
    (codes "a" ≡ codes "a"
      → Unit {0}
      → first.chan ≡ []
      → get_elem? notified.watchers 0 ≡ some (record first { chan = codes "2" ∷ [] }))
    × ((codes "a" ≢ codes "a") ⊎ HasReturned first.phase
        → get_elem? notified.watchers 0 ≡ some first)
unfolding machine after
published_delivered_example =
    published_delivered watched notified (codes "a=2") (codes "a") (codes "2") 0 first
      watched-Reached refl refl refl

change_seen_example :
    (u : KeyWatcher) × (step notified (act 0 receive) ≡ some u)
    × (get_elem? u.watchers 0
        ≡ some (record first { chan = []; phase = leaving (result watch_key_status_seen_change) }))
unfolding machine after
change_seen_example =
    change_seen watched notified (codes "a=2") (codes "2") 0 first watched-Reached refl refl refl
      refl (cc) (ground arith) refl
