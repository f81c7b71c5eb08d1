-- ===== src/Serving/Accepting.antt =====
-- `acceptor` of fubble/temporary_room/net/acceptor.cpp: `run` accepts connections until it is stopped.
use fubble.Base.{
  ℕ, suc, ◌+◌, ◌-◌, ◌≡◌, refl, Bool, true, false, Option, none, some, List, [], ◌∷◌, arith, ltb,
  if◌then◌else◌,
}
use fubble.Base.Runs.{Holds, run, run-keeps}
use fubble.Serving.{Error, end_of_stream, operation_aborted, other}

pub data Call : Type 0 where
  listen async_accept do_session close : Call
  set_value : Call
  set_exception : Error → Call

-- Whether `run_promise` is there, and how many accepts have not ended.
pub record Acceptor : Type 0 where
  pub listening : Bool
  pub run_promise : Bool
  pub accepting : ℕ
  pub calls : List Call

unfoldable pub listen_ : Acceptor → Acceptor
listen_ s = if s.listening then s else record s { listening = true; calls = listen ∷ s.calls }

unfoldable pub accept_next : Acceptor → Acceptor
accept_next s = record s { accepting = suc s.accepting; calls = async_accept ∷ s.calls }

-- `run`, of which the promise is made.
unfoldable pub start : Acceptor → Acceptor
unfolding listen_ accept_next
start s = accept_next (record (listen_ s) { run_promise = true })

unfoldable pub stop : Acceptor → Acceptor
stop s = record s { calls = close ∷ s.calls }

-- The end of an accept. An error without a promise is undefined: `none`.
unfoldable pub on_accepted : Option Error → Acceptor → Option Acceptor
unfolding accept_next
on_accepted none s = some (accept_next (record s { calls = do_session ∷ s.calls }))
on_accepted (some error) s =
    if s.run_promise
    then some (record s {
      run_promise = false;
      calls = elim error [ operation_aborted ↦ set_value | e ↦ set_exception e ] ∷ s.calls;
    })
    else none

-- `~acceptor`. The handler of an accept that is under way then, which has a bare `this`, is not
-- modelled.
unfoldable pub destroy : Acceptor → Acceptor
destroy s = if s.run_promise then record s { calls = set_value ∷ s.calls } else s

pub data Event : Type 0 where
  stops : Event
  accepts : Option Error → Event

unfoldable pub step : Event → Acceptor → Option Acceptor
unfolding stop on_accepted
step stops s = some (stop s)
step (accepts e) s =
    if ltb 0 s.accepting then on_accepted e (record s { accepting = s.accepting - 1 }) else some s

abbrev pub results : List Call → ℕ
results [] = 0
results (set_value ∷ l) = suc (results l)
results (set_exception _ ∷ l) = suc (results l)
results (_ ∷ l) = results l

abbrev pub one : Bool → ℕ
one b = if b then 1 else 0

-- The promise waits exactly while a connection is awaited, and it has a result otherwise.
pub record IsAccepting (s : Acceptor) : Type 0 where
  pub awaits : s.accepting ≡ one s.run_promise
  pub resolved : results s.calls + one s.run_promise ≡ 1

step-IsAccepting : (e : Event) (s : Acceptor) → IsAccepting s → Holds IsAccepting (step e s)
unfolding step stop on_accepted accept_next
step-IsAccepting stops s v = ground arith
step-IsAccepting (accepts none) s v = ground arith
step-IsAccepting (accepts (some end_of_stream)) s v = ground arith
step-IsAccepting (accepts (some operation_aborted)) s v = ground arith
step-IsAccepting (accepts (some other)) s v = ground arith

abbrev pub closed : Acceptor
closed = record { listening = false; run_promise = false; accepting = 0; calls = [] }

-- Whatever connections come, whenever it is stopped and however accepting fails: after `run` no null
-- promise is asked, one accept is under way exactly as long as the promise has no result, and when the
-- acceptor is destroyed the promise has exactly one result.
pub run-start-destroy :
    (es : List Event)
    → (t : Acceptor) × (run step es (start closed) ≡ some t)
      × (t.accepting ≡ one t.run_promise)
      × (results (destroy t).calls ≡ 1)
unfolding start listen_ accept_next destroy
run-start-destroy es =
    let (t, e, v) =
      run-keeps step IsAccepting step-IsAccepting es (start closed)
        (record { awaits = refl; resolved = refl }) in
    (t, e, v.awaits, ground (arith, v.resolved))
