-- ===== src/Timers/Interval.antt =====
-- `interval_timer` of fubble/utils/timer.cpp.
pub mod History
use fubble.Base.{ℕ, suc, ◌-◌, Bool, true, false, Option, none, some, if◌then◌else◌}

pub record IntervalTimer {ℓ} (C : Type ℓ) : Type ℓ where
  pub callback : Option C
  pub started : Bool
  pub waiting : Bool
  -- How many handlers are queued: of a wait that has expired, or posted.
  pub ready : ℕ

module _ {ℓ} {C : Type ℓ} where
  -- A wait that has not expired is replaced.
  unfoldable pub start_timer : IntervalTimer C → IntervalTimer C
  start_timer t = record t { waiting = true }

  -- Assertions guard against a second start.
  unfoldable pub start : C → IntervalTimer C → IntervalTimer C
  unfolding start_timer
  start c t = start_timer (record t { callback = some c; started = true })

  unfoldable pub start_immediately : C → IntervalTimer C → IntervalTimer C
  start_immediately c t = record t { callback = some c; started = true; ready = suc t.ready }

  unfoldable pub stop : IntervalTimer C → IntervalTimer C
  stop t = record t { callback = none; waiting = false; started = false }

  unfoldable pub get_started : IntervalTimer C → Bool
  get_started t = t.started

  -- The callback is run with the timer, which it may stop and start.
  unfoldable pub on_timeout :
      (C → IntervalTimer C → IntervalTimer C) → IntervalTimer C → Option (IntervalTimer C)
  unfolding start_timer
  on_timeout call t = elim t.callback as (λ _. Option (IntervalTimer C)) [
    | none ↦ none
    | some c ↦ let t' = call c t in some (if t'.started then start_timer t' else t')
  ]
