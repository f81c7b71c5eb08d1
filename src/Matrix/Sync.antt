-- ===== src/Matrix/Sync.antt =====
-- fubble/matrix/client.cpp: the synchronisation of a client, `sync_till_stop` to `stop_sync`, with
-- fubble/matrix/client_synchronizer.cpp, which starts it and starts it again after an error. A request
-- that has not ended is counted in `in_flight`; its end is an event. The futures run their
-- continuations inline. What a null pointer is asked for is undefined: `none`.
pub mod Loop
pub mod Since
use fubble.Base.{
  ℕ, suc, ◌-◌, Bool, true, false, String, Option, none, some, List, [], ◌∷◌, if◌then◌else◌,
}
use fubble.Timers.OneShot.{OneShotTimer, start, on_timeout}

-- The arguments of the request: `sync?timeout={}`, and `&since=` if there is one.
pub record Target : Type 0 where
  pub timeout : ℕ
  pub since : Option String

pub data Error : Type 0 where
  operation_aborted other : Error

pub data Call : Type 0 where
  get_action : Target → Call
  cancel : Call
  on_sync : String → Call
  set_value : Call
  set_exception : Error → Call

-- What the listeners of `on_sync` do.
pub data Listeners : Type 0 where
  listen call_stop_sync : Listeners
  throw : Error → Listeners

-- How a request ends: with a `next_batch`, or with an exception, which a bad status or a malformed
-- response is too.
pub data Result : Type 0 where
  batch : String → Listeners → Result
  failure : Error → Result

-- The client, and the synchronizer that holds it: `client_` is not null.
pub record Sync : Type 0 where
  pub sync_next_batch : Option String
  pub sync_till_stop_timeout : ℕ
  pub http_sync_action : Bool
  pub sync_till_stop_promise : Bool
  pub sync_till_stop_active : Bool
  pub client_ : Bool
  pub reconnect_timer : OneShotTimer (Unit {0})
  pub in_flight : ℕ
  pub calls : List Call

unfoldable pub make_sync_target : ℕ → Sync → Target
make_sync_target timeout s = record { timeout = timeout; since = s.sync_next_batch }

unfoldable pub do_sync : Sync → Sync
unfolding make_sync_target
do_sync s = record s {
  http_sync_action = true;
  in_flight = suc s.in_flight;
  calls = get_action (make_sync_target s.sync_till_stop_timeout s) ∷ s.calls;
}

unfoldable pub sync_till_stop : ℕ → Sync → Sync
unfolding do_sync
sync_till_stop timeout s = do_sync (record s {
  sync_till_stop_active = true;
  sync_till_stop_timeout = timeout;
  sync_till_stop_promise = true;
})

unfoldable pub stop_sync : Sync → Sync
stop_sync s =
    if s.sync_till_stop_active
    then if s.http_sync_action
      then record s { sync_till_stop_active = false; calls = cancel ∷ s.calls }
      else record s { sync_till_stop_active = false }
    else s

unfoldable pub on_synced : String → Sync → Sync
on_synced content s = record s { sync_next_batch = some content; calls = on_sync content ∷ s.calls }

abbrev pub default_timeout : ℕ
default_timeout = 30000

-- Its future ends in `on_stopped`.
unfoldable pub start_sync : Sync → Option Sync
unfolding sync_till_stop
start_sync s = if s.client_ then some (sync_till_stop default_timeout s) else none

-- With the one client that the synchronizer gets; while it holds one, only assertions guard against
-- another.
unfoldable pub set : Sync → Option Sync
unfolding start_sync
set s = start_sync (record s { client_ = true })

-- `on_stopped`, for a value and for an exception.
unfoldable pub on_stopped : Option Error → Sync → Sync
unfolding start
on_stopped none s = record s { client_ = false }
on_stopped (some operation_aborted) s = record s { client_ = false }
on_stopped (some other) s = record s { reconnect_timer = start tt s.reconnect_timer }

-- The `catch` of `on_sync_till_stop`.
unfoldable pub sync_failed : Error → Sync → Option Sync
unfolding on_stopped
sync_failed error s =
    if s.sync_till_stop_promise
    then some
        (record (on_stopped (some error) (record s { calls = set_exception error ∷ s.calls })) {
          sync_till_stop_promise = false;
          sync_till_stop_active = false;
          http_sync_action = false;
        })
    else none

unfoldable pub got : Result → Sync → Option Sync
unfolding on_synced do_sync stop_sync sync_failed
got (failure error) s = sync_failed error s
got (batch content l) s =
    let s' = on_synced content (record s { http_sync_action = false }) in
    elim l as (λ _. Option Sync) [
      | listen ↦ some (do_sync s')
      | call_stop_sync ↦ some (do_sync (stop_sync s'))
      | throw error ↦ sync_failed error s'
    ]

unfoldable pub on_sync_till_stop : Result → Sync → Option Sync
unfolding got on_stopped
on_sync_till_stop result s =
    if s.sync_till_stop_active
    then got result s
    else if s.sync_till_stop_promise
    then some
        (on_stopped none (record s { sync_till_stop_promise = false; calls = set_value ∷ s.calls }))
    else none

-- The time of `reconnect_timer` is over.
unfoldable pub on_reconnect : Sync → Option Sync
unfolding on_timeout start_sync
on_reconnect s =
    on_timeout (λ s. s.reconnect_timer) (λ t s. record s { reconnect_timer = t })
      (λ _ s. start_sync s) s

abbrev pub initial : Sync
initial = record {
  sync_next_batch = none;
  sync_till_stop_timeout = 0;
  http_sync_action = false;
  sync_till_stop_promise = false;
  sync_till_stop_active = false;
  client_ = false;
  reconnect_timer = record { callback = none; waiting = false };
  in_flight = 0;
  calls = [];
}
