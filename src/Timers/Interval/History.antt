-- ===== src/Timers/Interval/History.antt =====
-- The histories of an interval timer.
use fubble.Base.{
  ℕ, suc, ◌+◌, ◌-◌, ◌<◌, ◌≡◌, refl, Bool, true, false, Option, none, some, is_some, List, [], ◌∷◌,
  arith, ltb, if◌then◌else◌,
}
use fubble.Base.Runs.{Holds, Fits, run, run-Fits}
use fubble.Timers.Interval.{IntervalTimer, start_timer, start, start_immediately, stop, on_timeout}

-- What the callback does with the timer.
pub data Inside {ℓ} (C : Type ℓ) : Type ℓ where
  leaves stops_it : Inside C
  restarts restarts_immediately : C → Inside C

pub data Event {ℓ} (C : Type ℓ) : Type ℓ where
  starts starts_immediately : C → Event C
  stops expires : Event C
  handler : Inside C → Event C

abbrev one : Bool → ℕ
one b = if b then 1 else 0

module _ {ℓ} {C : Type ℓ} where
  unfoldable pub act : Inside C → C → IntervalTimer C → IntervalTimer C
  unfolding stop start start_immediately
  act leaves c t = t
  act stops_it c t = stop t
  act (restarts c') c t = start c' (stop t)
  act (restarts_immediately c') c t = start_immediately c' (stop t)

  abbrev pub expire : IntervalTimer C → IntervalTimer C
  expire t = record t { waiting = false; ready = suc t.ready }

  abbrev pub take_handler : IntervalTimer C → IntervalTimer C
  take_handler t = record t { ready = t.ready - 1 }

  -- A handler runs only if one is queued.
  unfoldable pub step : Event C → IntervalTimer C → Option (IntervalTimer C)
  unfolding start start_immediately stop on_timeout act
  step (starts c) t = some (start c t)
  step (starts_immediately c) t = some (start_immediately c t)
  step stops t = some (stop t)
  step expires t = some (if t.waiting then expire t else t)
  step (handler i) t = if ltb 0 t.ready then on_timeout (act i) (take_handler t) else some t

  abbrev pub is_immediate : Inside C → Bool
  is_immediate (restarts_immediately c) = true
  is_immediate _ = false

  -- The assertions, that no handler is queued when the timer is stopped, and that a callback does not
  -- start its timer again immediately.
  abbrev pub Needs : Event C → IntervalTimer C → Type 0
  Needs (starts c) t = t.started ≡ false
  Needs (starts_immediately c) t = t.started ≡ false
  Needs stops t = t.ready ≡ 0
  Needs (handler i) t = is_immediate i ≡ false
  Needs _ t = Unit {0}

  -- There is a callback exactly while the timer is started, and then exactly one handler will come.
  pub IsTicking : IntervalTimer C → Type 0
  IsTicking t = (is_some t.callback ≡ t.started) × (one t.waiting + t.ready ≡ one t.started)

  abbrev pub initial : IntervalTimer C
  initial = record { callback = none; started = false; waiting = false; ready = 0 }

  step-IsTicking :
      (e : Event C) (t : IntervalTimer C) → Needs e t → IsTicking t → Holds IsTicking (step e t)
  unfolding step start start_immediately start_timer stop IsTicking
  step-IsTicking (starts c) t n v = ground (arith, n, v)
  step-IsTicking (starts_immediately c) t n v = ground (arith, n, v)
  step-IsTicking stops t n v = ground (arith, n, v)
  step-IsTicking expires t n v = ground (arith, n, v)
  step-IsTicking (handler i) t n v = branch i t.callback (ltb 0 t.ready) refl n v
    where
      branch :
          (i : Inside C) (o : Option C) (b : Bool)
          → ltb 0 t.ready ≡ b
          → is_immediate i ≡ false
          → IsTicking (record t { callback = o })
          → Holds IsTicking
              (if b then on_timeout (act i) (take_handler (record t { callback = o })) else some t)
      branch i none true e k w = ground (arith, e, w)
      branch leaves (some c) true e k w = ground (arith, e, w)
      branch stops_it (some c) true e k w = ground (arith, e, w)
      branch (restarts c') (some c) true e k w = ground (arith, e, w)
      branch (restarts_immediately c') (some c) true e k w = absurd (ground (arith, k))
      branch i o false e k w = v

-- A timer that is started only when it is not, and is not stopped while a handler is queued, never
-- calls an empty callback, whether the callback leaves the timer, stops it or starts it again with its
-- interval, but not immediately; it holds a callback exactly while it is started, and then exactly
-- one handler is queued or one wait is under way.
pub run-initial-IsTicking {ℓ} :
    {C : Type ℓ} (es : List (Event C))
    → Fits step Needs es (initial {C = C})
    → (t : IntervalTimer C) × (run step es initial ≡ some t) × IsTicking t
unfolding IsTicking
run-initial-IsTicking es p = run-Fits step Needs IsTicking step-IsTicking es initial p (refl, refl)

-- When a timer is stopped while a handler is queued, that handler calls the empty callback.
stop_ready {ℓ} :
    {C : Type ℓ} (i : Inside C) (t : IntervalTimer C)
    → 0 < t.ready
    → run step (stops ∷ handler i ∷ []) t ≡ none
unfolding run step stop on_timeout
stop_ready i t h = ground (arith, h)

-- When the callback stops its timer and starts it immediately, both a handler is queued and a wait is
-- under way.
restarts_immediately_twice {ℓ} :
    {C : Type ℓ} (c d : C) (t : IntervalTimer C)
    → t.callback ≡ some d
    → t.ready ≡ 1
    → Holds
        (λ (u : IntervalTimer C). (u.waiting ≡ true) × (u.ready ≡ 1))
        (step (handler (restarts_immediately c)) t)
unfolding step on_timeout act start_immediately stop start_timer
restarts_immediately_twice c d t e r = ground (arith, e, r)
