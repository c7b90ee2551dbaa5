-- ===== src/KeyWatcher.antt =====
-- internal/redis/keywatcher.go: the table of channels that wait for a key to change, the messages
-- that notify them, and `WatchKey`. A channel is named by the index of the call of `WatchKey` that
-- made it. What runs under `keyWatcherMutex` is one step.
pub mod System
pub mod Table
pub mod Invariant
pub mod Notification
pub mod History
pub mod Guarantees
mod Examples
use mathlib.Core.Option
use gitlab_workhorse.Base.{
  ℕ, zero, suc, ◌+◌, ◌-◌, List, [], ◌∷◌, ◌++◌, Option, none, some, Bool, true, false, ltb, ◌==◌,
  if◌then◌else◌, length, get_elem?, set,
}
use gitlab_workhorse.Base.Text.{Text, text_eq}
use gitlab_workhorse.Base.Dict.{Dict, lookup, insert, delete}

pub data WatchKeyStatus : Type 0 where
  watch_key_status_timeout watch_key_status_already_changed : WatchKeyStatus
  watch_key_status_seen_change watch_key_status_no_change : WatchKeyStatus

pub data WatchError : Type 0 where
  redis_get_error redis_get_failed : WatchError

pub record WatchResult : Type 0 where
  pub status : WatchKeyStatus
  pub error : Option WatchError

-- Where a call of `WatchKey` stands, after `addKeyChan`.
pub data Phase : Type 0 where
  -- `GetString(key)`
  asking : Phase
  -- the select
  waiting : Phase
  -- the deferred `delKeyChan`
  leaving : WatchResult → Phase
  returned : WatchResult → Phase

-- A call of `WatchKey`, with what its channel, of capacity 1, holds.
pub record Watcher : Type 0 where
  pub key : Text
  pub value : Text
  pub chan : List Text
  pub phase : Phase

pub record KeyWatcher : Type 0 where
  pub key_watcher : Dict (List ℕ)
  pub watchers : List Watcher
  pub key_watchers : ℕ
  pub total_messages : ℕ

abbrev pub empty : KeyWatcher
empty = record { key_watcher = []; watchers = []; key_watchers = 0; total_messages = 0 }

-- `keyWatcher[key]`, nil where the key is missing.
abbrev pub chans : Text → Dict (List ℕ) → List ℕ
chans k m = Option.get_or (lookup k m) []

unfoldable pub add_key_chan : Text → ℕ → KeyWatcher → KeyWatcher
add_key_chan k c s = record s {
  key_watcher = insert k (chans k s.key_watcher ++ c ∷ []) s.key_watcher;
  key_watchers = s.key_watchers + 1;
}

-- `c <- value`, `none` where the channel is full.
send_to : Text → Watcher → Option Watcher
send_to v w = if ltb (length w.chan) 1 then some (record w { chan = w.chan ++ v ∷ [] }) else none

set_some : List Watcher → ℕ → Option Watcher → Option (List Watcher)
set_some ws c none = none
set_some ws c (some w) = some (set ws c w)

unfoldable pub send : Text → List Watcher → ℕ → Option (List Watcher)
unfolding send_to set_some
send v ws c = set_some ws c (elim (get_elem? ws c) [ none ↦ none | some w ↦ send_to v w ])

-- The loop over the channels of a key.
unfoldable pub send_all : Text → List Watcher → List ℕ → Option (List Watcher)
unfolding send
send_all v ws [] = some ws
send_all v ws (c ∷ cs) = elim (send v ws c) [ none ↦ none | some ws' ↦ send_all v ws' cs ]

-- `none` where a send blocks, and with it everybody who wants the mutex.
unfoldable pub notify_chan_watchers : Text → Text → KeyWatcher → Option KeyWatcher
notify_chan_watchers k v s = elim (lookup k s.key_watcher) [
  | none ↦ some s
  | some chan_list ↦ elim (send_all v s.watchers chan_list) [
    | none ↦ none
    | some ws ↦ some (record s {
      key_watcher = delete k s.key_watcher;
      watchers = ws;
      key_watchers = s.key_watchers - length chan_list;
    })
  ]
]

-- `append(chans[:i], chans[i+1:]...)` at the first `i` with `chans[i] == c`.
unfoldable pub remove : ℕ → List ℕ → List ℕ
remove c [] = []
remove c (d ∷ ds) = if c == d then ds else d ∷ remove c ds

unfoldable pub contains : ℕ → List ℕ → Bool
contains c [] = false
contains c (d ∷ ds) = if c == d then true else contains c ds

abbrev is_empty : List ℕ → Bool
is_empty [] = true
is_empty (d ∷ ds) = false

unfoldable pub del_key_chan : Text → ℕ → KeyWatcher → KeyWatcher
del_key_chan k c s = elim (lookup k s.key_watcher) [
  | none ↦ s
  | some cs ↦
      let left = remove c cs in
      record s {
        key_watcher = if is_empty left then delete k s.key_watcher else insert k left s.key_watcher;
        key_watchers = if contains c cs then s.key_watchers - 1 else s.key_watchers;
      }
]
