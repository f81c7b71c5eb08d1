-- ===== src/Timers/OneShot.antt =====
-- `one_shot_timer` of fubble/utils/timer.cpp, as a part of the state `S` that its callback changes.
use fubble.Base.{Bool, true, false, Option, none, some}

pub record OneShotTimer {ℓ} (C : Type ℓ) : Type ℓ where
  pub callback : Option C
  pub waiting : Bool

module _ {ℓ} {C : Type ℓ} where
  -- Assertions guard against a second start.
  unfoldable pub start : C → OneShotTimer C → OneShotTimer C
  start callback t = record { callback = some callback; waiting = true }

  -- The callback is kept.
  unfoldable pub stop : OneShotTimer C → OneShotTimer C
  stop t = record { callback = t.callback; waiting = false }

  -- The wait is over.
  abbrev pub expired : OneShotTimer C → OneShotTimer C
  expired t = record { callback = t.callback; waiting = false }

  -- `callback = callack_type{}`.
  abbrev pub cleared : OneShotTimer C → OneShotTimer C
  cleared t = record { callback = none; waiting = t.waiting }

  module _ {κ} {S : Type κ} (get : S → OneShotTimer C) (put : OneShotTimer C → S → S) where
    -- The callback is run with the state, and only then it is cleared.
    unfoldable pub on_timeout : (C → S → Option S) → S → Option S
    on_timeout call s =
        let s' = put (expired (get s)) s in
        elim (get s).callback as (λ _. Option S) [
          | none ↦ none
          | some c ↦ elim (call c s') as (λ _. Option S) [
            | none ↦ none
            | some t ↦ some (put (cleared (get t)) t)
          ]
        ]
