-- ===== src/Websocket/Connector/Result.antt =====
-- That a connector has one result.
use fubble.Base.{
  ◌≡◌, refl, Bool, true, false, Option, none, some, [], ◌∷◌, length, arith, if◌then◌else◌,
}
use fubble.Base.Runs.{run}
use fubble.Websocket.Connector.{
  Error, Pending, idle, resolving, connecting, securing, handshaking, Connector, fail, on_resolved,
  on_connected, on_secured, on_handshaken, destroy,
}

pub data Event : Type 0 where
  ends : Option Error → Event
  destroys : Event

-- The handler of the operation that is under way.
unfoldable pub ended : Option Error → Pending → Connector → Option Connector
unfolding on_resolved on_connected on_secured on_handshaken
ended e idle s = some s
ended e resolving s = on_resolved e s
ended e connecting s = on_connected e s
ended e securing s = on_secured e s
ended e handshaking s = on_handshaken e s

-- Called on what is gone.
unfoldable pub dangling : Pending → Connector → Option Connector
dangling idle s = some s
dangling _ s = none

unfoldable pub step : Event → Connector → Option Connector
unfolding ended dangling destroy
step (ends e) s =
    if s.alive then ended e s.pending (record s { pending = idle }) else dangling s.pending s
step destroys s = if s.alive then destroy s else some s

abbrev pub is_idle : Pending → Bool
is_idle idle = true
is_idle _ = false

-- It is destroyed when nothing is under way.
abbrev pub Needs : Event → Connector → Type 0
Needs (ends e) s = Unit {0}
Needs destroys s = is_idle s.pending ≡ true

-- There is one result exactly when it is done, and it is done exactly when nothing is under way.
pub record IsSound (s : Connector) : Type 0 where
  pub result : length s.results ≡ (if s.done then 1 else 0)
  pub ended : is_idle s.pending ≡ s.done
  pub gone : s.alive ≡ false → s.done ≡ true

abbrev pub initial : Bool → Connector
initial ssl = record { ssl = ssl; done = false; results = []; pending = idle; alive = true }

-- Destroyed while an operation is under way, it gives an exception to the promise, and then the
-- handler of the cancelled operation runs on what is gone.
pub destroys_dangling :
    (e : Option Error) (s : Connector)
    → s.alive ≡ true
    → s.done ≡ false
    → IsSound s
    → run step (destroys ∷ ends e ∷ []) s ≡ none
unfolding run step destroy fail dangling
destroys_dangling e s a d v = under_way s.pending refl
  where
    under_way : (p : Pending) → s.pending ≡ p → run step (destroys ∷ ends e ∷ []) s ≡ none
    under_way idle q = absurd (ground arith)
    under_way resolving q = ground arith
    under_way connecting q = ground arith
    under_way securing q = ground arith
    under_way handshaking q = ground arith
