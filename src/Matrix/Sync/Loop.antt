-- ===== src/Matrix/Sync/Loop.antt =====
-- The synchronisation as a loop.
use fubble.Base.{
  ℕ, ◌+◌, ◌-◌, ◌≡◌, refl, Bool, true, false, not, ◌&&◌, String, Option, some, is_some, List, [],
  ◌∷◌, arith, ltb, if◌then◌else◌,
}
use fubble.Base.Runs.{Holds, Fits, run, run-Fits}
use fubble.Timers.OneShot.{start, on_timeout}
use fubble.Matrix.Sync.{
  operation_aborted, other, get_action, cancel, on_sync, set_value, set_exception, listen,
  call_stop_sync, throw, Result, batch, failure, Sync, make_sync_target, do_sync, sync_till_stop,
  stop_sync, on_synced, default_timeout, start_sync, set, on_stopped, sync_failed, got,
  on_sync_till_stop, on_reconnect, initial,
}

-- The client is set, the user leaves, a request ends, the time of the timer is over.
pub data Event : Type 0 where
  sets leaves timeout : Event
  ends : Result → Event

abbrev pub arrived : Sync → Sync
arrived s = record s { in_flight = s.in_flight - 1 }

-- A request ends only if there is one, and the timer only if it waits.
unfoldable pub step : Event → Sync → Option Sync
unfolding set stop_sync on_sync_till_stop on_reconnect
step sets s = set s
step leaves s = some (stop_sync s)
step timeout s = if s.reconnect_timer.waiting then on_reconnect s else some s
step (ends r) s = if ltb 0 s.in_flight then on_sync_till_stop r (arrived s) else some s

-- A client is set only when there is none, which an assertion is for.
abbrev pub Needs : Event → Sync → Type 0
Needs sets s = s.client_ ≡ false
Needs _ s = Unit {0}

abbrev one : Bool → ℕ
one b = if b then 1 else 0

-- While the synchronizer holds the client, either exactly one request is under way, with its promise
-- to tell, or the timer waits, and a client that is not held does neither. While the client is
-- active there is a request, which can be cancelled.
pub record IsSyncing (s : Sync) : Type 0 where
  pub single : s.in_flight ≡ one s.sync_till_stop_promise
  pub alive : one s.sync_till_stop_promise + one s.reconnect_timer.waiting ≡ one s.client_
  pub active : (s.sync_till_stop_active && not s.sync_till_stop_promise) ≡ false
  pub cancellable : (s.sync_till_stop_active && not s.http_sync_action) ≡ false
  pub timed : is_some s.reconnect_timer.callback ≡ s.reconnect_timer.waiting

pub step-IsSyncing : (e : Event) (s : Sync) → Needs e s → IsSyncing s → Holds IsSyncing (step e s)
unfolding step set start_sync sync_till_stop do_sync stop_sync on_reconnect on_timeout
    on_sync_till_stop got sync_failed on_stopped on_synced start
step-IsSyncing sets s n v = ground (arith, n)
step-IsSyncing leaves s n v = ground arith
step-IsSyncing timeout s n v = ground arith
step-IsSyncing (ends (failure operation_aborted)) s n v = ground arith
step-IsSyncing (ends (failure other)) s n v = ground arith
step-IsSyncing (ends (batch b listen)) s n v = ground arith
step-IsSyncing (ends (batch b call_stop_sync)) s n v = ground arith
step-IsSyncing (ends (batch b (throw operation_aborted))) s n v = ground arith
step-IsSyncing (ends (batch b (throw other))) s n v = ground arith

pub initial-IsSyncing : IsSyncing initial
initial-IsSyncing = record {
  single = refl;
  alive = refl;
  active = refl;
  cancellable = refl;
  timed = refl;
}

-- Whatever happens, in any order, if a client is set only while none is held: nothing asks a null pointer, there is never more than one request
-- under way, and as long as the synchronizer holds its client, exactly one of a request and the timer
-- is to come, so that the synchronisation goes on; a client that it does not hold has neither.
pub run-initial-IsSyncing :
    (es : List Event)
    → Fits step Needs es initial
    → (t : Sync) × (run step es initial ≡ some t) × IsSyncing t
run-initial-IsSyncing es f =
    run-Fits step Needs IsSyncing step-IsSyncing es initial f initial-IsSyncing

-- When the user leaves while the client is active, the request is cancelled, and however it ends,
-- the promise is fulfilled, the client is let go and nothing more is asked for; but the action of the
-- request is kept.
pub stop_sync_ends :
    (r : Result) (s : Sync)
    → IsSyncing s
    → s.sync_till_stop_active ≡ true
    → Holds
        (λ (t : Sync).
          (t.calls ≡ set_value ∷ cancel ∷ s.calls)
          × (t.client_ ≡ false)
          × (t.in_flight ≡ 0)
          × (t.sync_till_stop_promise ≡ false)
          × (t.http_sync_action ≡ true))
        (run step (leaves ∷ ends r ∷ []) s)
unfolding run step stop_sync on_sync_till_stop on_stopped
stop_sync_ends r s v h = ground arith

-- When a listener stops the synchronisation of an active client, one more request is made all the
-- same; only when that has ended, in whatever way, the client is let go, and what the request has
-- brought is dropped.
pub stop_sync_from_listener :
    (b : String) (r : Result) (s : Sync)
    → IsSyncing s
    → s.sync_till_stop_active ≡ true
    → Holds
        (λ (t : Sync).
          (t.calls
            ≡ set_value
              ∷ get_action (record { timeout = s.sync_till_stop_timeout; since = some b })
              ∷ on_sync b
              ∷ s.calls)
          × (t.client_ ≡ false))
        (run step (ends (batch b call_stop_sync) ∷ ends r ∷ []) s)
unfolding run step stop_sync on_sync_till_stop on_stopped got do_sync make_sync_target on_synced
stop_sync_from_listener b r s v h = ground arith

-- When the request of an active client fails, but not by being aborted, and the time of the timer is
-- over, a new request asks for the events since the same batch, and the client is active again.
pub failure_retries :
    (s : Sync)
    → IsSyncing s
    → s.sync_till_stop_active ≡ true
    → Holds
        (λ (t : Sync).
          (t.calls
            ≡ get_action (record { timeout = default_timeout; since = s.sync_next_batch })
              ∷ set_exception other
              ∷ s.calls)
          × (t.sync_till_stop_active ≡ true)
          × (t.in_flight ≡ 1))
        (run step (ends (failure other) ∷ timeout ∷ []) s)
unfolding run step on_sync_till_stop on_stopped got sync_failed start on_reconnect on_timeout
    start_sync sync_till_stop do_sync make_sync_target
failure_retries s v h = ground arith
