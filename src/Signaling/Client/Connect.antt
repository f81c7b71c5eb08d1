-- ===== src/Signaling/Client/Connect.antt =====
-- What becomes of a reconnecting client when its connections fail, close, or are not there yet.
use fubble.Base.{
  ◌≡◌, refl, Bool, true, false, Option, none, some, List, [], ◌∷◌, inl, inr, arith, if◌then◌else◌,
  ◌≤◌,
}
use fubble.Base.{Option-cases, ap, sym, ◌∙◌}
use fubble.Signaling.Client.Flush.{delegate_connected_lem}
use fubble.Signaling.Message.{Offer, Answer, IceCandidate}
use fubble.Signaling.Client.{
  ClientImpl, ReconnectingClient, initial, ConnectResult, connect_failed, connected_ok, RunResult,
  run_error, run_value, run_aborted, send_offer, send_answer, send_ice_candidate,
  send_want_to_negotiate, delegate_connected, delegate_run_done, on_timeout, close, ◌>>=◌,
  reconnect_after_timeout,
}

-- The calls that the rest of the program makes, and what the network and the timer bring.
pub data Event : Type 0 where
  sends_offer : Offer → Event
  sends_answer : Answer → Event
  sends_candidate : IceCandidate → Event
  sends_want : Event
  connects : ConnectResult → Event
  stops : RunResult → Event
  timeout : Event
  closes : Event

unfoldable pub step : Event → ReconnectingClient → Option ReconnectingClient
step (sends_offer o) r = send_offer o r
step (sends_answer a) r = send_answer a r
step (sends_candidate i) r = send_ice_candidate i r
step sends_want r = send_want_to_negotiate r
step (connects result) r = delegate_connected result r
step (stops result) r = delegate_run_done result r
step timeout r = some (on_timeout r)
step closes r = some (close r)

abbrev pub is_send : Event → Bool
is_send (sends_offer o) = true
is_send (sends_answer a) = true
is_send (sends_candidate i) = true
is_send sends_want = true
is_send _ = false

-- A client that has made a connector and has no connection yet.
abbrev pub IsConnecting : ReconnectingClient → Type 0
IsConnecting r = r.delegate ≡ some (record { has_connector = true; has_connection = false })

-- While a delegate is connecting, every send dereferences its null connection: the client takes the
-- delegate for a connection, and caches nothing.
pub step-IsConnecting_send :
    (e : Event) (r : ReconnectingClient) → IsConnecting r → is_send e ≡ true → step e r ≡ none
unfolding step send_offer send_answer send_ice_candidate send_want_to_negotiate
step-IsConnecting_send (sends_offer o) r d h = ground arith
step-IsConnecting_send (sends_answer a) r d h = ground arith
step-IsConnecting_send (sends_candidate i) r d h = ground arith
step-IsConnecting_send sends_want r d h = ground arith
step-IsConnecting_send (connects _) r d h = cc
step-IsConnecting_send (stops _) r d h = cc
step-IsConnecting_send timeout r d h = cc
step-IsConnecting_send closes r d h = cc

unfoldable pub run : List Event → ReconnectingClient → Option ReconnectingClient
run [] r = some r
run (e ∷ es) r = step e r >>= run es

abbrev pub attempts_fail : List Bool → List Event
attempts_fail [] = []
attempts_fail (true ∷ l) = connects connect_failed ∷ attempts_fail l
attempts_fail (false ∷ l) = timeout ∷ attempts_fail l

-- Once an attempt to connect has failed while no timer runs, nothing brings the client back: whatever
-- timeouts and failures follow, its state stays what it was.
pub connect_failed_stuck :
    (r : ReconnectingClient) (l : List Bool)
    → IsConnecting r
    → r.timer_started ≡ false
    → run (connects connect_failed ∷ attempts_fail l) r ≡ some r
unfolding run
connect_failed_stuck r l d t = rw (failed, run) (rest l)
  where
    failed : step (connects connect_failed) r ≡ some r
    failed = unfold step delegate_connected in ground arith

    timed : step timeout r ≡ some r
    timed = unfold step on_timeout in ground arith

    rest : (l : List Bool) → run (attempts_fail l) r ≡ some r
    rest [] = unfold run in refl
    rest (true ∷ l) = rw (failed, run) (rest l)
    rest (false ∷ l) = rw (timed, run) (rest l)

-- When the connection of a delegate stops, in whatever way, and the client was not closed, the timer is started and
-- its callback connects again, with every cache as it was.
pub run_done_reconnects :
    (result : RunResult) (r : ReconnectingClient) {c : ClientImpl}
    → r.delegate ≡ some c
    → r.shall_reconnect ≡ true
    → run (stops result ∷ timeout ∷ []) r
      ≡ some (record r {
        delegate = some (record { has_connector = true; has_connection = false });
        timer_started = false;
      })
unfolding run step delegate_run_done reconnect_after_timeout on_timeout
run_done_reconnects run_value r d h = ground arith
run_done_reconnects run_aborted r d h = ground arith
run_done_reconnects run_error r d h = ground arith

-- After `close` of a client with a delegate and no running timer, a connection that stops is not
-- replaced, and a timeout changes nothing.
close_final :
    (result : RunResult) (r : ReconnectingClient) {c : ClientImpl}
    → r.delegate ≡ some c
    → r.timer_started ≡ false
    → run (closes ∷ stops result ∷ timeout ∷ []) r ≡ some (record r { shall_reconnect = false })
unfolding run step delegate_run_done reconnect_after_timeout on_timeout close
close_final run_value r d h = ground arith
close_final run_aborted r d h = ground arith
close_final run_error r d h = ground arith

abbrev IsOnce : ReconnectingClient → Type 0
IsOnce r = r.announced ≡ (if r.is_registered then 1 else 0)

step-IsOnce :
    (e : Event) (r : ReconnectingClient) {r' : ReconnectingClient}
    → IsOnce r
    → step e r ≡ some r'
    → IsOnce r'
unfolding step send_offer send_answer send_ice_candidate send_want_to_negotiate delegate_connected
    delegate_run_done reconnect_after_timeout on_timeout close
step-IsOnce (sends_offer o) r v h = ground arith
step-IsOnce (sends_answer a) r v h = ground arith
step-IsOnce (sends_candidate i) r v h = ground arith
step-IsOnce sends_want r v h = ground arith
step-IsOnce (connects connected_ok) r v h = elim (Option-cases r.delegate) [
  | inl e ↦ ground arith
  | inr (c, e) ↦ ground (arith, delegate_connected_lem c r e)
]
step-IsOnce (connects connect_failed) r v h = ground arith
step-IsOnce (stops run_value) r v h = ground arith
step-IsOnce (stops run_aborted) r v h = ground arith
step-IsOnce (stops run_error) r v h = ground arith
step-IsOnce timeout r v h = ground arith
step-IsOnce closes r v h = ground arith

run-IsOnce :
    (es : List Event) (r : ReconnectingClient) {r' : ReconnectingClient}
    → IsOnce r
    → run es r ≡ some r'
    → IsOnce r'
unfolding run
run-IsOnce [] r v h = ground arith
run-IsOnce (e ∷ es) r v h = elim (Option-cases (step e r)) [
  | inl no_result ↦ cc
  | inr (q, went) ↦
      run-IsOnce es q (step-IsOnce e r v went)
        (sym (ap (λ (o : Option ReconnectingClient). o >>= run es) went) ∙ h)
]

-- Over any history of a client, however often it reconnects, it announces itself as registered at
-- most once.
run-announced :
    (es : List Event) {r : ReconnectingClient} → run es initial ≡ some r → r.announced ≤ 1
run-announced es {r} h = ground (arith, run-IsOnce es initial {r' = r} refl h)
