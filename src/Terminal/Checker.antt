-- ===== src/Terminal/Checker.antt =====
-- internal/terminal/auth_checker.go: a terminal ends when its authorization changes.

use mathlib.Core.Path.{subst⁻¹}
use gitlab_workhorse.Base.{
  ℕ, ◌+◌, ◌≡◌, ◌↔◌, refl, ap, ◌∙◌, List, [], ◌∷◌, ◌++◌, Option, none, true, false, if◌then◌else◌,
  arith, Bool-cases, inl, inr, All, length,
}
use gitlab_workhorse.Api.{PreAuthorization, pre_authorize_error, not_authorized, authorized}
use gitlab_workhorse.Api.Settings.{TerminalSettings, is_equal}

-- The settings that the function of `authCheckFunc` returns; `none` is nil. An authorization comes
-- with status 200 only.
unfoldable pub auth_check_func : PreAuthorization → Option TerminalSettings
auth_check_func pre_authorize_error = none
auth_check_func (not_authorized resp) = none
auth_check_func (authorized resp auth) = auth.terminal

-- What the `select` of the loop receives: a tick, with what Rails says then, or that it is done.
pub data Event : Type 0 where
  tick : PreAuthorization → Event
  done : Event

-- Where the loop stands: it waits, or has returned, after a send of ErrAuthChanged or without one.
pub data Standing : Type 0 where
  waiting auth_changed closed : Standing

pub record AuthChecker : Type 0 where
  pub count : ℕ
  pub standing : Standing

-- `Loop`, over the events that it receives.
unfoldable pub loop : Option TerminalSettings → List Event → ℕ → AuthChecker
loop template [] count = record { count = count; standing = waiting }
loop template (done ∷ events) count = record { count = count; standing = closed }
loop template (tick p ∷ events) count =
    let rest = loop template events (count + 1) in
    if is_equal template (auth_check_func p)
    then rest
    else record { count = count; standing = auth_changed }

-- A check that finds the same settings.
abbrev pub IsUnchanged : Option TerminalSettings → Event → Type 0
IsUnchanged template (tick p) = is_equal template (auth_check_func p) ≡ true
IsUnchanged template done = ⊥

-- The first check that finds other settings, or none: the checks before it found the same, and were
-- counted.
pub record FirstChange (template : Option TerminalSettings) (events : List Event) (checks : ℕ)
    : Type 0 where
  pub before : List Event
  pub found : PreAuthorization
  pub after : List Event
  pub cut : events ≡ before ++ tick found ∷ after
  pub unchanged : All (IsUnchanged template) before
  pub changed : is_equal template (auth_check_func found) ≡ false
  pub counted : checks ≡ length before

changes_later :
    (template : Option TerminalSettings) (p : PreAuthorization) (events : List Event) (n : ℕ)
    → is_equal template (auth_check_func p) ≡ true
    → FirstChange template events n
    → FirstChange template (tick p ∷ events) (n + 1)
changes_later template p events n same f = record {
  before = tick p ∷ f.before;
  found = f.found;
  after = f.after;
  cut = ap (λ es. tick p ∷ es) f.cut;
  unchanged = (same, f.unchanged);
  changed = f.changed;
  counted = omega (arith, f.counted);
}

counts_up :
    (template : Option TerminalSettings) (events : List Event) (n : ℕ)
    → loop template events n ≡ record {
      count = (loop template events 0).count + n;
      standing = (loop template events 0).standing;
    }
unfolding loop
counts_up template [] n = ground arith
counts_up template (done ∷ events) n = ground arith
counts_up template (tick p ∷ events) n =
    ground (arith, counts_up template events (n + 1), counts_up template events 1)

-- If the loop has sent ErrAuthChanged, a first check found other settings, or none, after checks that
-- found the same, and these were counted.
pub loop-FirstChange :
    (template : Option TerminalSettings) (events : List Event)
    → (loop template events 0).standing ≡ auth_changed
    → FirstChange template events (loop template events 0).count
unfolding loop
loop-FirstChange template [] e = absurd (ground (arith, e))
loop-FirstChange template (done ∷ events) e = absurd (ground (arith, e))
loop-FirstChange template (tick p ∷ events) e =
    elim (Bool-cases (is_equal template (auth_check_func p))) [
      | inr other ↦ record {
        before = [];
        found = p;
        after = events;
        cut = refl;
        unchanged = tt;
        changed = other;
        counted = ground (arith, other);
      }
      | inl same ↦
          let later = counts_up template events 1 in
          let f = loop-FirstChange template events (ground (arith, e, same, later)) in
          let count : (loop template (tick p ∷ events) 0).count
              ≡ (loop template events 0).count + 1 =
            ground (arith, same, later) in
          subst⁻¹ (FirstChange template (tick p ∷ events)) count
            (changes_later template p events (loop template events 0).count same f)
    ]

first_change_stops :
    (template : Option TerminalSettings) (before : List Event) (p : PreAuthorization)
    (after : List Event)
    → (n : ℕ) → All (IsUnchanged template) before
    → is_equal template (auth_check_func p) ≡ false
    → (loop template (before ++ tick p ∷ after) n).standing ≡ auth_changed
unfolding loop
first_change_stops template [] p after n same other = ground (arith, other)
first_change_stops template (done ∷ before) p after n same other = absurd (same.0)
first_change_stops template (tick q ∷ before) p after n same other =
    ground (arith, same.0, first_change_stops template before p after (n + 1) same.1 other)

-- The loop sends ErrAuthChanged exactly if a check finds other settings than those that the session
-- started with, or none, before the terminal is done; it does so at the first such check, having
-- counted the checks before.
pub loop_stops_iff :
    (template : Option TerminalSettings) (events : List Event)
    → ((loop template events 0).standing ≡ auth_changed)
      ↔ FirstChange template events (loop template events 0).count
loop_stops_iff template events = (
  loop-FirstChange template events,
  λ f.
      ap (λ es. (loop template es 0).standing) f.cut
      ∙ first_change_stops template f.before f.found f.after 0 f.unchanged f.changed,
)
