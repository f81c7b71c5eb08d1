-- ===== src/Signaling/Client.antt =====
-- fubble/signaling/client/client.{hpp,cpp}: `client_impl`, over one websocket connection, and
-- `reconnecting_client`, which makes a new one whenever the connection closes.
-- A call that dereferences a null pointer has no result (`none`); the assertions before it are not
-- part of a release build.
pub mod Flush
pub mod Connect
use fubble.Base.{
  ℕ, suc, Bool, true, false, String, Option, none, some, List, [], ◌∷◌, if◌then◌else◌,
}
use fubble.Signaling.Message.{
  Offer, Answer, IceCandidate, Message, offer, answer, ice_candidate, registration,
  want_to_negotiate,
}

infixl 5 ◌>>=◌
abbrev pub ◌>>=◌ : {A B : Type 0} → Option A → (A → Option B) → Option B
none >>= f = none
some a >>= f = f a

-- `client_impl`: whether a connector was made, and whether `connection_` is set.
pub record ClientImpl : Type 0 where
  pub has_connector : Bool
  pub has_connection : Bool

abbrev pub new_client : ClientImpl
new_client = record { has_connector = false; has_connection = false }

-- The signals of `client` that are called.
pub data Signal : Type 0 where
  on_registered on_error on_closed : Signal

-- How the future of `connector->connect()` ends.
pub data ConnectResult : Type 0 where
  connected_ok connect_failed : ConnectResult

-- How the future of `connection_->run()` ends.
pub data RunResult : Type 0 where
  run_value run_aborted run_error : RunResult

-- `connected`: the registration goes out before `on_registered` is called. A failure is reported by
-- `on_error` alone.
unfoldable pub connected :
    ConnectResult → String → String → ClientImpl → ClientImpl × List Message × List Signal
connected connected_ok token key c = (
  record c { has_connection = true },
  registration (record { key = key; reconnect_token = token }) ∷ [],
  on_registered ∷ [],
)
connected connect_failed token key c = (c, [], on_error ∷ [])

-- `run_done`.
unfoldable pub run_done : RunResult → List Signal
run_done run_value = on_closed ∷ []
run_done run_aborted = on_closed ∷ []
run_done run_error = on_error ∷ on_closed ∷ []

-- `reconnecting_client`. The messages that its delegates wrote to their connections are in `wire`,
-- newest first, and `announced` counts its own calls of `on_registered`.
pub record ReconnectingClient : Type 0 where
  pub delegate : Option ClientImpl
  pub token : String
  pub key : String
  pub is_registered : Bool
  pub shall_reconnect : Bool
  pub timer_started : Bool
  pub wants_to_negotiate_cache : Bool
  pub answer_cache : Option Answer
  pub offer_cache : Option Offer
  pub candidates_cache : List IceCandidate
  pub wire : List Message
  pub announced : ℕ

abbrev pub initial : ReconnectingClient
initial = record {
  delegate = none;
  token = "";
  key = "";
  is_registered = false;
  shall_reconnect = true;
  timer_started = false;
  wants_to_negotiate_cache = false;
  answer_cache = none;
  offer_cache = none;
  candidates_cache = [];
  wire = [];
  announced = 0;
}

-- `delegate->send_...`: the delegate's connection may still be null.
unfoldable pub delegate_send : Message → ClientImpl → ReconnectingClient → Option ReconnectingClient
delegate_send m c r = if c.has_connection then some (record r { wire = m ∷ r.wire }) else none

unfoldable pub send_offer : Offer → ReconnectingClient → Option ReconnectingClient
unfolding delegate_send
send_offer o r = elim r.delegate [
  | none ↦ some (record r { offer_cache = some o })
  | some c ↦ delegate_send (offer o) c r
]

unfoldable pub send_answer : Answer → ReconnectingClient → Option ReconnectingClient
unfolding delegate_send
send_answer a r = elim r.delegate [
  | none ↦ some (record r { answer_cache = some a })
  | some c ↦ delegate_send (answer a) c r
]

abbrev pub push_back : List IceCandidate → IceCandidate → List IceCandidate
push_back [] i = i ∷ []
push_back (j ∷ l) i = j ∷ push_back l i

unfoldable pub send_ice_candidate : IceCandidate → ReconnectingClient → Option ReconnectingClient
unfolding delegate_send
send_ice_candidate i r = elim r.delegate [
  | none ↦ some (record r { candidates_cache = push_back r.candidates_cache i })
  | some c ↦ delegate_send (ice_candidate i) c r
]

unfoldable pub send_want_to_negotiate : ReconnectingClient → Option ReconnectingClient
unfolding delegate_send
send_want_to_negotiate r = elim r.delegate [
  | none ↦ some (record r { wants_to_negotiate_cache = true })
  | some c ↦ delegate_send want_to_negotiate c r
]

unfoldable pub send_candidates : List IceCandidate → ReconnectingClient → Option ReconnectingClient
send_candidates [] r = some r
send_candidates (i ∷ l) r = send_ice_candidate i r >>= send_candidates l

-- `send_cache`, in its four parts.
flush_offer : ReconnectingClient → Option ReconnectingClient
flush_offer r = do
  r' ← elim r.offer_cache [ none ↦ some r | some o ↦ send_offer o r ]
  some (record r' { offer_cache = none })

flush_answer : ReconnectingClient → Option ReconnectingClient
flush_answer r = do
  r' ← elim r.answer_cache [ none ↦ some r | some a ↦ send_answer a r ]
  some (record r' { answer_cache = none })

flush_want : ReconnectingClient → Option ReconnectingClient
flush_want r = do
  r' ← if r.wants_to_negotiate_cache then send_want_to_negotiate r else some r
  some (record r' { wants_to_negotiate_cache = false })

unfoldable pub send_cache : ReconnectingClient → Option ReconnectingClient
unfolding flush_offer flush_answer flush_want
send_cache r = do
  r' ← send_candidates r.candidates_cache r
  r'' ← flush_offer (record r' { candidates_cache = [] })
  r''' ← flush_answer r''
  flush_want r'''

unfoldable pub got_registered : ReconnectingClient → Option ReconnectingClient
got_registered r =
    send_cache (
      if r.is_registered then r else record r { is_registered = true; announced = suc r.announced })

-- `reconnect`: the new delegate connects with the token and the key of the first time.
unfoldable pub reconnect : ReconnectingClient → ReconnectingClient
reconnect r =
    if r.shall_reconnect
    then record r { delegate = some (record new_client { has_connector = true }) }
    else r

unfoldable pub connect : String → String → ReconnectingClient → ReconnectingClient
unfolding reconnect
connect token key r = reconnect (record r { token = token; key = key })

unfoldable pub reconnect_after_timeout : ReconnectingClient → ReconnectingClient
reconnect_after_timeout r =
    if r.shall_reconnect then record r { delegate = none; timer_started = true } else r

-- `got_error` only logs.
unfoldable pub on_signal : Signal → ReconnectingClient → Option ReconnectingClient
on_signal on_registered r = got_registered r
on_signal on_error r = some r
on_signal on_closed r = some (reconnect_after_timeout r)

unfoldable pub on_signals : List Signal → ReconnectingClient → Option ReconnectingClient
unfolding on_signal
on_signals [] r = some r
on_signals (x ∷ l) r = on_signal x r >>= on_signals l

abbrev pub write_all : List Message → ReconnectingClient → ReconnectingClient
write_all [] r = r
write_all (m ∷ l) r = write_all l (record r { wire = m ∷ r.wire })

-- The delegate's connector is done.
unfoldable pub delegate_connected : ConnectResult → ReconnectingClient → Option ReconnectingClient
unfolding connected on_signals
delegate_connected result r = elim r.delegate [
  | none ↦ some r
  | some c ↦
      let (c', sent, signals) = connected result r.token r.key c in
      on_signals signals (write_all sent (record r { delegate = some c' }))
]

-- The delegate's connection stops.
unfoldable pub delegate_run_done : RunResult → ReconnectingClient → Option ReconnectingClient
unfolding run_done on_signals
delegate_run_done result r = elim r.delegate [
  | none ↦ some r
  | some c ↦ on_signals (run_done result) r
]

-- The timer's callback.
unfoldable pub on_timeout : ReconnectingClient → ReconnectingClient
unfolding reconnect
on_timeout r = if r.timer_started then reconnect (record r { timer_started = false }) else r

-- `close`, with a delegate whose own `close` succeeds.
unfoldable pub close : ReconnectingClient → ReconnectingClient
close r = elim r.delegate [ none ↦ r | some c ↦ record r { shall_reconnect = false } ]
