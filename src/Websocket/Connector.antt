-- ===== src/Websocket/Connector.antt =====
-- fubble/websocket/connector.cpp: resolving, connecting, securing and the handshake of a websocket, one
-- after the other, each with one handler. A handler keeps nothing alive: when it is called after the
-- destructor, which cancels the operation under way, it runs on what is gone: `none`.
pub mod Result
use fubble.Base.{ℕ, Bool, true, false, Option, none, some, List, [], ◌∷◌, if◌then◌else◌}

pub data Error : Type 0 where
  operation_aborted : Error
  other : ℕ → Error

-- What the promise is given.
pub data Outcome : Type 0 where
  connection : Outcome
  exception : Error → Outcome

-- The operation that is under way.
pub data Pending : Type 0 where
  idle resolving connecting securing handshaking : Pending

pub record Connector : Type 0 where
  pub ssl : Bool
  pub done : Bool
  pub results : List Outcome
  pub pending : Pending
  pub alive : Bool

abbrev pub begins : Pending → Connector → Connector
begins p s = record s { pending = p }

-- `check_error` for an error. A promise that has a result already throws on another one, which
-- leaves a handler by an exception that nobody expects: `none`.
unfoldable pub fail : Error → Connector → Option Connector
fail e s = elim s.results as (λ _. Option Connector) [
  | [] ↦ some (record s { done = true; results = exception e ∷ [] })
  | _ ∷ _ ↦ none
]

-- `if (check_error(error)) return;` and what follows.
unfoldable pub check_error :
    Option Error → (Connector → Option Connector) → Connector → Option Connector
unfolding fail
check_error none continues s = continues s
check_error (some e) continues s = fail e s

unfoldable pub connect : Connector → Connector
connect s = begins resolving s

unfoldable pub connect_to_endpoints : Connector → Option Connector
connect_to_endpoints s = some (begins connecting s)

unfoldable pub on_resolved : Option Error → Connector → Option Connector
unfolding check_error connect_to_endpoints
on_resolved e s = check_error e connect_to_endpoints s

unfoldable pub handshake : Connector → Option Connector
handshake s = some (begins handshaking s)

unfoldable pub secure : Connector → Option Connector
secure s = some (begins securing s)

unfoldable pub on_connected : Option Error → Connector → Option Connector
unfolding check_error handshake secure
on_connected e s = check_error e (λ t. if t.ssl then secure t else handshake t) s

-- The continuation of `secure_connection`, with `on_secured`.
unfoldable pub on_secured : Option Error → Connector → Option Connector
unfolding check_error handshake
on_secured e s = check_error e handshake s

unfoldable pub set_connection : Connector → Option Connector
set_connection s = elim s.results as (λ _. Option Connector) [
  | [] ↦ some (record s { done = true; results = connection ∷ [] })
  | _ ∷ _ ↦ none
]

-- The handler of `async_handshake`.
unfoldable pub on_handshaken : Option Error → Connector → Option Connector
unfolding check_error set_connection
on_handshaken e s = check_error e set_connection s

unfoldable pub destroy : Connector → Option Connector
unfolding fail
destroy s =
    let t : Connector = record s { alive = false } in
    if s.done then some t else fail operation_aborted t
