-- ===== src/KeyWatcher/Invariant.antt =====
-- A channel stands in the table at most once, only under the key of its call, and only while it is
-- empty; so a notification never blocks.

use gitlab_workhorse.Base.{
  ℕ, ◌+◌, ◌-◌, ◌≤◌, ◌≡◌, refl, ◌≢◌, List, [], ◌∷◌, ◌++◌, Option, none, some, arith, if◌then◌else◌,
  length, length-append, get_elem?, set, get_elem?-set, get_elem?-append_one, get_elem?-length,
}
use gitlab_workhorse.Base.Text.{Text, text_eq, text_eq_iff}
use gitlab_workhorse.Base.Dict.{lookup, HasDistinctKeys}
use gitlab_workhorse.KeyWatcher.{
  chans, remove, KeyWatcher, Watcher, WatchResult, Phase, asking, waiting, returned, add_key_chan,
  del_key_chan, empty,
}
use gitlab_workhorse.KeyWatcher.System.{start_watch}
use gitlab_workhorse.KeyWatcher.Table.{
  count, count-append_one, count-remove, length-remove, entries, entries-insert, entries-delete,
  HasDistinctKeys-insert, HasDistinctKeys-delete, HasNoEmptyEntry, HasNoEmptyEntry-insert,
  HasNoEmptyEntry-delete, chans-insert, chans-delete,
}

-- The room of a channel that may stand in the table.
abbrev pub room_of : Phase → ℕ → ℕ
room_of (returned r) n = 0
room_of _ n = 1 - n

-- How often the channel of a call may stand under a key.
abbrev pub room : Option Watcher → Text → ℕ
room none k = 0
room (some w) k = if text_eq w.key k then room_of w.phase (length w.chan) else 0

abbrev pub IsActive : Phase → Type 0
IsActive asking = Unit {0}
IsActive waiting = Unit {0}
IsActive _ = ⊥

pub record Inv (s : KeyWatcher) : Type 0 where
  pub distinct : HasDistinctKeys s.key_watcher
  pub no_empty : HasNoEmptyEntry s.key_watcher
  pub gauge : s.key_watchers ≡ entries s.key_watcher
  pub fits : (k : Text) (i : ℕ) → count i (chans k s.key_watcher) ≤ room (get_elem? s.watchers i) k
  -- Before it leaves, a call is registered or has been notified.
  pub armed :
      (i : ℕ) (w : Watcher)
      → get_elem? s.watchers i ≡ some w
      → IsActive w.phase
      → count i (chans w.key s.key_watcher) + length w.chan ≡ 1

pub empty-Inv : Inv empty
unfolding lookup count
empty-Inv = record {
  distinct = tt;
  no_empty = tt;
  gauge = refl;
  fits = λ k i. omega arith;
  armed = λ i w h a. cc;
}

append_one-ne-nil : (cs : List ℕ) (c : ℕ) → (cs ++ c ∷ []) ≢ []
append_one-ne-nil [] c = cc
append_one-ne-nil (d ∷ cs) c = cc

pub start_watch-Inv : (s : KeyWatcher) (k v : Text) → Inv s → Inv (start_watch k v s)
unfolding start_watch add_key_chan
start_watch-Inv s k v inv = record {
  distinct = HasDistinctKeys-insert k _ s.key_watcher inv.distinct;
  no_empty = HasNoEmptyEntry-insert k _ s.key_watcher (append_one-ne-nil _ _) inv.no_empty;
  gauge = omega (
    arith,
    inv.gauge,
    entries-insert k (chans k s.key_watcher ++ n ∷ []) s.key_watcher,
    length-append (chans k s.key_watcher) (n ∷ []),
  );
  fits = λ j i. ground (
    arith,
    inv.fits j i,
    chans-insert k j (chans k s.key_watcher ++ n ∷ []) s.key_watcher,
    count-append_one i n (chans k s.key_watcher),
    get_elem?-append_one s.watchers w i,
    get_elem?-length s.watchers,
    text_eq_iff k j,
  );
  armed = λ i u found a. ground (
    arith,
    inv.armed i u,
    inv.fits k i,
    chans-insert k u.key (chans k s.key_watcher ++ n ∷ []) s.key_watcher,
    count-append_one i n (chans k s.key_watcher),
    get_elem?-append_one s.watchers w i,
    get_elem?-length s.watchers,
    text_eq_iff k u.key,
  );
}
  where
    n : ℕ
    n = length s.watchers

    w : Watcher
    w = record { key = k; value = v; chan = []; phase = asking }

-- `delKeyChan` takes one entry of the channel from its key, and leaves the other keys alone.
chans-del_key_chan :
    (k j : Text) (c : ℕ) (s : KeyWatcher)
    → chans j (del_key_chan k c s).key_watcher
      ≡ (if text_eq k j then remove c (chans k s.key_watcher) else chans j s.key_watcher)
unfolding del_key_chan remove
chans-del_key_chan k j c s = ground (
  arith,
  text_eq_iff k j,
  chans-delete k j s.key_watcher,
  chans-insert k j (remove c (chans k s.key_watcher)) s.key_watcher,
)

watchers-del_key_chan :
    (k : Text) (c : ℕ) (s : KeyWatcher) → (del_key_chan k c s).watchers ≡ s.watchers
unfolding del_key_chan
watchers-del_key_chan k c s = ground arith

del_key_chan_table :
    (k : Text) (c : ℕ) (s : KeyWatcher)
    → HasDistinctKeys s.key_watcher
    → HasNoEmptyEntry s.key_watcher
    → s.key_watchers ≡ entries s.key_watcher
    → HasDistinctKeys (del_key_chan k c s).key_watcher
      × HasNoEmptyEntry (del_key_chan k c s).key_watcher
      × ((del_key_chan k c s).key_watchers ≡ entries (del_key_chan k c s).key_watcher)
unfolding del_key_chan
del_key_chan_table k c s d n g =
    let left = remove c (chans k s.key_watcher) in
    ground (
      arith,
      HasDistinctKeys-insert k left s.key_watcher d,
      HasDistinctKeys-delete k s.key_watcher d,
      HasNoEmptyEntry-insert k left s.key_watcher,
      HasNoEmptyEntry-delete k s.key_watcher n,
      entries-insert k left s.key_watcher,
      entries-delete k s.key_watcher d,
      length-remove c (chans k s.key_watcher),
    )

module _ (s : KeyWatcher) (i : ℕ) (w : Watcher) (found : get_elem? s.watchers i ≡ some w)
    (inv : Inv s) where
  pub leave-Inv :
      (r : WatchResult)
      → Inv (
          del_key_chan w.key i
            (record s { watchers = set s.watchers i (record w { phase = returned r }) }))
  leave-Inv r =
      let w' : Watcher = record w { phase = returned r } in
      let s' : KeyWatcher = record s { watchers = set s.watchers i w' } in
      let (distinct, no_empty, gauge) =
        del_key_chan_table w.key i s' inv.distinct inv.no_empty inv.gauge in
      record {
        distinct = distinct;
        no_empty = no_empty;
        gauge = gauge;
        fits = λ k j. ground (
          arith,
          chans-del_key_chan w.key k i s',
          watchers-del_key_chan w.key i s',
          count-remove j i (chans k s.key_watcher),
          inv.fits k j,
          inv.fits k i,
          get_elem?-set s.watchers i j w w' found,
          text_eq_iff w.key k,
        );
        armed = λ j u at_j a. ground (
          arith,
          chans-del_key_chan w.key u.key i s',
          watchers-del_key_chan w.key i s',
          count-remove j i (chans u.key s.key_watcher),
          inv.armed j u,
          get_elem?-set s.watchers i j w w' found,
          text_eq_iff w.key u.key,
        );
      }

  -- A step that leaves the table alone.
  pub set-Inv :
      (w' : Watcher)
      → w'.key ≡ w.key
      → ((k : Text) → room (some w) k ≤ room (some w') k)
      → (IsActive w'.phase → IsActive w.phase × (length w'.chan ≡ length w.chan))
      → Inv (record s { watchers = set s.watchers i w' })
  set-Inv w' key grows active = record {
    distinct = inv.distinct;
    no_empty = inv.no_empty;
    gauge = inv.gauge;
    fits = λ k j. ground (arith, inv.fits k j, get_elem?-set s.watchers i j w w' found, grows k);
    armed = λ j u at_j a. ground (
      arith,
      inv.armed j u,
      inv.armed i w found,
      get_elem?-set s.watchers i j w w' found,
      active,
    );
  }
