-- ===== src/Tests/Network.antt =====
-- The websocket, the timers and the synchronization.
use fubble.Base.{◌≡◌, refl, true, false, String, none, some, List, [], ◌∷◌, ◌++◌}
use fubble.Base.Runs.{Holds}
use fubble.Base.Runs
use fubble.Websocket.{SendItem, ConnectionImpl}
use fubble.Websocket
use fubble.Websocket.Fifo.{IsFifo, writes, completions, promises}
use fubble.Websocket.History as socket
use fubble.Websocket.Ends.{run_failed, run-successes, successes}
use fubble.Websocket.Connector.{Connector, other as code}
use fubble.Websocket.Connector.Result as connector
use fubble.Websocket.Connector.Result.{ends as handled, destroys}
use fubble.Timers.Interval.{IntervalTimer}
use fubble.Timers.Interval.History as timer
use fubble.Matrix.Sync.{
  Sync, other, batch, failure, listen, get_action, set_value, set_exception, cancel, on_sync,
  default_timeout,
}
use fubble.Matrix.Sync.Loop.{
  Event as SyncEvent, Needs, IsSyncing, step, sets, leaves, run-initial-IsSyncing, ends, timeout,
  stop_sync_ends, stop_sync_from_listener, failure_retries,
}
use fubble.Matrix.Sync.{call_stop_sync, initial as sync_initial}
use fubble.Matrix.Sync.Since.{IsSeamless, run-initial-IsSeamless}

abbrev first : SendItem
first = record { message = "a"; completion = 1 }

abbrev second : SendItem
second = record { message = "b"; completion = 2 }

abbrev third : SendItem
third = record { message = "c"; completion = 3 }

-- The first write has failed, and a second send waits.
abbrev failed : ConnectionImpl
failed = record {
  send_queue = first ∷ second ∷ [];
  sending = true;
  reading = false;
  read_promise = none;
  calls = Websocket.set_exception 1 ∷ Websocket.async_write "a" ∷ [];
}

failed-IsFifo : IsFifo (first ∷ second ∷ []) failed
failed-IsFifo = record { queued = (refl, refl, refl, refl, refl); promised = refl; awaited = refl }

failed-Fits :
    Runs.Fits socket.step socket.Needs (socket.sends third ∷ socket.written false ∷ []) failed
unfolding Runs.Fits socket.step
failed-Fits = (tt, (tt, tt))

run_failed_example :
    let es = socket.sends third ∷ socket.written false ∷ [] in
    (t : ConnectionImpl) × (Runs.run socket.step es failed ≡ some t)
    × (t.send_queue ≡ failed.send_queue ++ socket.sent es)
    × (writes t.calls ≡ writes failed.calls)
    × (completions t.calls ≡ completions failed.calls)
run_failed_example =
    run_failed (socket.sends third ∷ socket.written false ∷ []) (first ∷ second ∷ []) failed
      failed-Fits failed-IsFifo refl

-- The first send is being written, and a second one waits.
abbrev busy : ConnectionImpl
busy = record failed { calls = Websocket.async_write "a" ∷ [] }

busy-IsFifo : IsFifo (first ∷ second ∷ []) busy
busy-IsFifo = record { queued = (refl, refl, refl, refl, refl); promised = refl; awaited = refl }

run-successes_example :
    (t : ConnectionImpl) × (Runs.run socket.step (successes busy.send_queue) busy ≡ some t)
    × (t.send_queue ≡ [])
    × (completions t.calls ≡ promises (first ∷ second ∷ []))
run-successes_example = run-successes (first ∷ second ∷ []) busy busy-IsFifo refl

abbrev sends_and_reads : List socket.Event
sends_and_reads =
    socket.sends first
    ∷ socket.reads 4
    ∷ socket.written false
    ∷ socket.received false "hello" none
    ∷ socket.reads 5
    ∷ socket.received true "" (some 6)
    ∷ []

sends_and_reads-Fits : Runs.Fits socket.step socket.Needs sends_and_reads Websocket.initial
unfolding Runs.Fits socket.step Websocket.send Websocket.read Websocket.on_send Websocket.on_read
    Websocket.send_next_from_queue Websocket.send_rest
sends_and_reads-Fits = (tt, (refl, (tt, (refl, (refl, (refl, tt))))))

run-initial-IsFifo_example :
    (s : ConnectionImpl) × (Runs.run socket.step sends_and_reads Websocket.initial ≡ some s)
    × IsFifo (socket.sent sends_and_reads) s
run-initial-IsFifo_example = socket.run-initial-IsFifo sends_and_reads sends_and_reads-Fits

abbrev ticks : List (timer.Event String)
ticks =
    timer.starts_immediately "preview"
    ∷ timer.handler timer.leaves
    ∷ timer.expires
    ∷ timer.handler timer.stops_it
    ∷ []

ticks-Fits : Runs.Fits timer.step timer.Needs ticks timer.initial
unfolding Runs.Fits timer.step
ticks-Fits = (refl, (refl, (tt, (refl, tt))))

run-initial-IsTicking_example :
    (t : IntervalTimer String) × (Runs.run timer.step ticks timer.initial ≡ some t)
    × timer.IsTicking t
run-initial-IsTicking_example = timer.run-initial-IsTicking ticks ticks-Fits

-- A request is under way.
abbrev syncing : Sync
syncing = record {
  sync_next_batch = some "s1";
  sync_till_stop_timeout = 30000;
  http_sync_action = true;
  sync_till_stop_promise = true;
  sync_till_stop_active = true;
  client_ = true;
  reconnect_timer = record { callback = none; waiting = false };
  in_flight = 1;
  calls = [];
}

syncing-IsSyncing : IsSyncing syncing
syncing-IsSyncing = record {
  single = refl;
  alive = refl;
  active = refl;
  cancellable = refl;
  timed = refl;
}

stop_sync_ends_example :
    Holds
      (λ (t : Sync).
        (t.calls ≡ set_value ∷ cancel ∷ [])
        × (t.client_ ≡ false)
        × (t.in_flight ≡ 0)
        × (t.sync_till_stop_promise ≡ false)
        × (t.http_sync_action ≡ true))
      (Runs.run step (leaves ∷ ends (batch "s2" listen) ∷ []) syncing)
stop_sync_ends_example = stop_sync_ends (batch "s2" listen) syncing syncing-IsSyncing refl

stop_sync_from_listener_example :
    Holds
      (λ (t : Sync).
        (t.calls
          ≡ set_value
            ∷ get_action (record { timeout = 30000; since = some "s2" })
            ∷ on_sync "s2"
            ∷ [])
        × (t.client_ ≡ false))
      (Runs.run step (ends (batch "s2" call_stop_sync) ∷ ends (batch "s3" listen) ∷ []) syncing)
stop_sync_from_listener_example =
    stop_sync_from_listener "s2" (batch "s3" listen) syncing syncing-IsSyncing refl

failure_retries_example :
    Holds
      (λ (t : Sync).
        (t.calls
          ≡ get_action (record { timeout = default_timeout; since = some "s1" })
            ∷ set_exception other
            ∷ [])
        × (t.sync_till_stop_active ≡ true)
        × (t.in_flight ≡ 1))
      (Runs.run step (ends (failure other) ∷ timeout ∷ []) syncing)
failure_retries_example = failure_retries syncing syncing-IsSyncing refl

abbrev a_sync : List SyncEvent
a_sync = sets ∷ ends (batch "s1" listen) ∷ ends (failure other) ∷ timeout ∷ leaves ∷ []

a_sync-Fits : Runs.Fits step Needs a_sync sync_initial
unfolding Runs.Fits step
a_sync-Fits = (refl, (tt, (tt, (tt, (tt, tt)))))

run-initial-IsSyncing_example :
    (t : Sync) × (Runs.run step a_sync sync_initial ≡ some t) × IsSyncing t
run-initial-IsSyncing_example = run-initial-IsSyncing a_sync a_sync-Fits

run-initial-IsSeamless_example :
    (t : Sync) × (Runs.run step a_sync sync_initial ≡ some t) × IsSeamless t
run-initial-IsSeamless_example = run-initial-IsSeamless a_sync a_sync-Fits

-- A websocket that cannot be connected to.
abbrev refused : List connector.Event
refused = handled none ∷ handled (some (code 111)) ∷ destroys ∷ []
