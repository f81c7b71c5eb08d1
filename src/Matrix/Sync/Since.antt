-- ===== src/Matrix/Sync/Since.antt =====
-- Which part of the events a request asks for.
use fubble.Base.{◌≡◌, refl, String, Option, none, some, List, [], ◌∷◌, arith}
use fubble.Base.Runs.{Holds, Fits, run, run-Fits}
use fubble.Matrix.Sync.Loop.{
  Event, Needs, sets, leaves, timeout, ends, step, IsSyncing, step-IsSyncing, initial-IsSyncing,
}
use fubble.Timers.OneShot.{start, on_timeout}
use fubble.Matrix.Sync.{
  operation_aborted, other, Call, get_action, on_sync, listen, call_stop_sync, throw, batch,
  failure, Sync, make_sync_target, do_sync, sync_till_stop, stop_sync, on_synced, start_sync, set,
  on_stopped, sync_failed, got, on_sync_till_stop, on_reconnect, initial,
}

-- The batch that was handed to the listeners last.
abbrev pub newest : List Call → Option String
newest [] = none
newest (on_sync b ∷ l) = some b
newest (_ ∷ l) = newest l

-- Every request asks for what came since the batch that was handed on last before it.
abbrev pub IsSince : List Call → Type 0
IsSince [] = Unit
IsSince (get_action t ∷ l) = (t.since ≡ newest l) × IsSince l
IsSince (_ ∷ l) = IsSince l

pub record IsSeamless (s : Sync) : Type 0 where
  pub syncing : IsSyncing s
  pub next : s.sync_next_batch ≡ newest s.calls
  pub since : IsSince s.calls

-- The part of it that is not about the loop.
Kept : Sync → Type 0
Kept s = (s.sync_next_batch ≡ newest s.calls) × IsSince s.calls

step-Kept : (e : Event) (s : Sync) → IsSyncing s → Kept s → Holds Kept (step e s)
unfolding step set start_sync sync_till_stop do_sync stop_sync on_reconnect on_timeout
    on_sync_till_stop got sync_failed on_stopped on_synced start make_sync_target Kept
step-Kept sets s v w = ground (arith, w)
step-Kept leaves s v w = ground (arith, w)
step-Kept timeout s v w = ground (arith, w)
step-Kept (ends (failure operation_aborted)) s v w = ground (arith, w)
step-Kept (ends (failure other)) s v w = ground (arith, w)
step-Kept (ends (batch b listen)) s v w = ground (arith, w)
step-Kept (ends (batch b call_stop_sync)) s v w = ground (arith, w)
step-Kept (ends (batch b (throw operation_aborted))) s v w = ground (arith, w)
step-Kept (ends (batch b (throw other))) s v w = ground (arith, w)

both : (s : Sync) → IsSyncing s → Kept s → IsSeamless s
unfolding Kept
both s v w = record { syncing = v; next = w.0; since = w.1 }

step-IsSeamless : (e : Event) (s : Sync) → Needs e s → IsSeamless s → Holds IsSeamless (step e s)
unfolding Kept
step-IsSeamless e s n v =
    branch (step e s) (step-IsSyncing e s n v.syncing) (step-Kept e s v.syncing (v.next, v.since))
  where
    branch : (o : Option Sync) → Holds IsSyncing o → Holds Kept o → Holds IsSeamless o
    branch none x y = x
    branch (some t) x y = both t x y

-- After any history in which a client is set only while none is held, every request has asked for what came since the batch that was handed to the
-- listeners last before that request, also after errors and a new start; a batch on which a listener
-- threw counts as handed on.
pub run-initial-IsSeamless :
    (es : List Event)
    → Fits step Needs es initial
    → (t : Sync) × (run step es initial ≡ some t) × IsSeamless t
run-initial-IsSeamless es f =
    run-Fits step Needs IsSeamless step-IsSeamless es initial f
      (record { syncing = initial-IsSyncing; next = refl; since = tt })
