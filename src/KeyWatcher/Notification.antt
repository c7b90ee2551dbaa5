-- ===== src/KeyWatcher/Notification.antt =====
-- `notifyChanWatchers`: every channel under the key gets the value, and leaves the table.
use native.Mathlib.Decide.{ℕ_discrete}
use native.Mathlib.Nat.{le_trans}
use mathlib.Core.Path.{ap, sym, subst, ◌∙◌}
use gitlab_workhorse.Base.{
  ℕ, zero, suc, ◌+◌, ◌-◌, ◌≤◌, ◌<◌, ◌≡◌, refl, inl, inr, List, [], ◌∷◌, Option, none, some, false,
  arith, ◌==◌, if◌then◌else◌, length, get_elem?, set, get_elem?-set, Option-cases, Bool-cases,
}
use gitlab_workhorse.Base.Text.{Text, text_eq, text_eq_iff}
use gitlab_workhorse.Base.Dict.{lookup, delete}
use gitlab_workhorse.KeyWatcher.{
  chans, KeyWatcher, Watcher, Phase, returned, notify_chan_watchers, send_all, send,
}
use gitlab_workhorse.KeyWatcher.Table.{
  count, entries-delete, HasDistinctKeys-delete, HasNoEmptyEntry-delete, chans-delete,
}
use gitlab_workhorse.KeyWatcher.Invariant.{Inv, room, room_of, IsActive}

-- The room in the buffer of a channel.
abbrev pub space : Option Watcher → ℕ
space none = 0
space (some w) = 1 - length w.chan

-- A call whose channel stands so often among those that are notified.
abbrev pub deliver : Text → ℕ → Option Watcher → Option Watcher
deliver v zero o = o
deliver v (suc n) none = none
deliver v (suc n) (some w) = some (record w { chan = v ∷ [] })

send_found :
    (v : Text) (ws : List Watcher) (c : ℕ) (w : Watcher)
    → get_elem? ws c ≡ some w
    → w.chan ≡ []
    → send v ws c ≡ some (set ws c (record w { chan = v ∷ [] }))
unfolding send
send_found v ws c w e h = ground arith

send-space :
    (v : Text) (ws : List Watcher) (c : ℕ)
    → 0 < space (get_elem? ws c)
    → (w : Watcher) × (get_elem? ws c ≡ some w)
      × (send v ws c ≡ some (set ws c (record w { chan = v ∷ [] })))
send-space v ws c h = elim (Option-cases (get_elem? ws c)) [
  | inl e ↦ absurd (ground arith)
  | inr (w, e) ↦ (w, e, send_found v ws c w e (ground arith))
]

count_head : (d : ℕ) (cs : List ℕ) → 0 < count d (d ∷ cs)
unfolding count
count_head d cs = ground arith

-- One delivery, and then those to the other channels.
deliver_first :
    (v : Text) (w : Watcher) (cs : List ℕ) (c d : ℕ) (o o' r : Option Watcher)
    → o' ≡ (if d == c then some (record w { chan = v ∷ [] }) else o)
    → (d ≡ c → o ≡ some w)
    → count c (d ∷ cs) ≤ space o
    → (count c cs ≤ space o') × (r ≡ deliver v (count c cs) o' → r ≡ deliver v (count c (d ∷ cs)) o)
unfolding count
deliver_first v w cs c d o o' r e same h = elim (ℕ_discrete d c) [
  | yes hit ↦ (ground (arith, same hit), λ k. ground (arith, same hit))
  | no miss ↦ (ground arith, λ k. ground arith)
]

send_all_lem :
    (v : Text) (ws : List Watcher) (cs : List ℕ)
    → ((c : ℕ) → count c cs ≤ space (get_elem? ws c))
    → (ws' : List Watcher) × (send_all v ws cs ≡ some ws')
      × ((c : ℕ) → get_elem? ws' c ≡ deliver v (count c cs) (get_elem? ws c))
unfolding send_all
send_all_lem v ws [] h = (ws, refl, λ c. unfold count in refl)
send_all_lem v ws (d ∷ cs) h =
    let (w, found, sent) = send-space v ws d (omega (arith, h d, count_head d cs)) in
    let first = λ (c : ℕ) (r : Option Watcher).
      deliver_first v w cs c d (get_elem? ws c) _ r (get_elem?-set ws d c w _ found)
        (λ e. ap (get_elem? ws) (sym e) ∙ found) (h c) in
    let (ws', done, all) =
      send_all_lem v (set ws d (record w { chan = v ∷ [] })) cs (λ c. (first c none).0) in
    (ws', rw (sent, send_all) done, λ c. (first c _).1 (all c))

room-le-space : (o : Option Watcher) (k : Text) → room o k ≤ space o
room-le-space none k = omega arith
room-le-space (some w) k = room_phase w.phase
  where
    room_phase :
        (p : Phase) → (if text_eq w.key k then room_of p (length w.chan) else 0) ≤ 1 - length w.chan
    room_phase (returned r) = ground arith
    room_phase p = ground arith

-- What a notification does: it does not block, each channel under the key gets the value, and the
-- key leaves the table.
pub record Notified (k v : Text) (s : KeyWatcher) : Type 0 where
  pub after : KeyWatcher
  pub done : notify_chan_watchers k v s ≡ some after
  pub delivered :
      (i : ℕ)
      → get_elem? after.watchers i
        ≡ deliver v (count i (chans k s.key_watcher)) (get_elem? s.watchers i)
  pub table :
      (j : Text) → chans j after.key_watcher ≡ (if text_eq k j then [] else chans j s.key_watcher)
  pub kept : Inv after

deliver-room :
    (v k j : Text) (n : ℕ) (o : Option Watcher)
    → n ≤ room o k
    → text_eq k j ≡ false
    → room (deliver v n o) j ≡ room o j
deliver-room v k j zero o h e = refl
deliver-room v k j (suc n) none h e = refl
deliver-room v k j (suc n) (some w) h e =
    ground (arith, text_eq_iff w.key j, text_eq_iff w.key k, text_eq_iff k j)

deliver-some :
    (v : Text) (n : ℕ) (o : Option Watcher) (u : Watcher)
    → deliver v n o ≡ some u
    → (w : Watcher) × (o ≡ some w)
      × (u.key ≡ w.key)
      × (u.phase ≡ w.phase)
      × (n ≡ 0 → u.chan ≡ w.chan)
      × (0 < n → length u.chan ≡ 1)
deliver-some v zero none u e = absurd (ground arith)
deliver-some v zero (some w) u e =
    (w, refl, ground arith, ground arith, λ _. ground arith, λ h. absurd (omega arith))
deliver-some v (suc n) none u e = absurd (ground arith)
deliver-some v (suc n) (some w) u e =
    (w, refl, ground arith, ground arith, λ h. absurd (omega arith), λ _. ground arith)

notified_armed :
    (k v : Text) (s : KeyWatcher) (i : ℕ) (u : Watcher)
    → Inv s
    → deliver v (count i (chans k s.key_watcher)) (get_elem? s.watchers i) ≡ some u
    → IsActive u.phase
    → count i (if text_eq k u.key then [] else chans u.key s.key_watcher) + length u.chan ≡ 1
unfolding count
notified_armed k v s i u inv e a =
    let n = count i (chans k s.key_watcher) in
    let (w, found, key, phase, same, new) = deliver-some v n (get_elem? s.watchers i) u e in
    let before = inv.armed i w found (subst IsActive phase a) in
    elim (Bool-cases (text_eq k u.key)) [
      | inl hit ↦
          let k_key : k ≡ w.key = (text_eq_iff k u.key).0 hit ∙ key in
          rw hit (ground (arith, before, k_key, same, new))
      | inr miss ↦ rw miss (
          ground (
            arith,
            before,
            key,
            same,
            text_eq_iff w.key k,
            text_eq_iff k u.key,
            inv.fits k i,
            found,
          ))
    ]

notified_fits :
    (k v j : Text) (s : KeyWatcher) (i : ℕ)
    → Inv s
    → count i (if text_eq k j then [] else chans j s.key_watcher)
      ≤ room (deliver v (count i (chans k s.key_watcher)) (get_elem? s.watchers i)) j
unfolding count
notified_fits k v j s i inv = elim (Bool-cases (text_eq k j)) [
  | inl hit ↦ rw hit (omega arith)
  | inr miss ↦
      rw (miss, deliver-room v k j _ (get_elem? s.watchers i) (inv.fits k i) miss) (inv.fits j i)
]

notified_found :
    (k v : Text) (s : KeyWatcher)
    → Inv s
    → (cs : List ℕ) → lookup k s.key_watcher ≡ some cs
    → Notified k v s
unfolding notify_chan_watchers
notified_found k v s inv cs found =
    let same : chans k s.key_watcher ≡ cs = ground (arith, found) in
    let (ws, sent, all) =
      send_all_lem v s.watchers cs
        (λ c. rw (← same) (le_trans (inv.fits k c) (room-le-space (get_elem? s.watchers c) k))) in
    let after : KeyWatcher = record s {
      key_watcher = delete k s.key_watcher;
      watchers = ws;
      key_watchers = s.key_watchers - length cs;
    } in
    let delivered =
      λ (i : ℕ). all i ∙ ap (λ l. deliver v (count i l) (get_elem? s.watchers i)) (sym same) in
    let table = λ (j : Text). chans-delete k j s.key_watcher in
    record {
      after = after;
      done = ground (arith, found, sent);
      delivered = delivered;
      table = table;
      kept = record {
        distinct = HasDistinctKeys-delete k s.key_watcher inv.distinct;
        no_empty = HasNoEmptyEntry-delete k s.key_watcher inv.no_empty;
        gauge =
            omega (arith, inv.gauge, ap length same, entries-delete k s.key_watcher inv.distinct);
        fits = λ j i. rw (table j, delivered i) (notified_fits k v j s i inv);
        armed = λ i u at_i a.
            rw (table u.key) (notified_armed k v s i u inv (sym (delivered i) ∙ at_i) a);
      };
    }

pub notified : (k v : Text) (s : KeyWatcher) → Inv s → Notified k v s
unfolding notify_chan_watchers
notified k v s inv = elim (Option-cases (lookup k s.key_watcher)) [
  | inl missing ↦ record {
    after = s;
    done = ground arith;
    delivered = λ i. unfold count in ground (arith, missing);
    table = λ j. ground (arith, missing, text_eq_iff k j);
    kept = inv;
  }
  | inr (cs, found) ↦ notified_found k v s inv cs found
]
