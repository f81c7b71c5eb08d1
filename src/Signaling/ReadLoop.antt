-- ===== src/Signaling/ReadLoop.antt =====
-- The read loops of fubble/signaling/server/connection.cpp and of client/connection.cpp: a list of
-- the results that `websocket::connection::read` gives, one after the other.
pub mod Server
pub mod Client
pub mod Ends
use fubble.Base.{Bool, List, [], ◌∷◌}
use fubble.Signaling.Message.{Offer, Answer, IceCandidate, Registration}

-- The codes of `boost::system::system_error` that the loops tell apart.
pub data Code : Type 0 where
  operation_aborted websocket_closed other_code : Code

pub data Read (Text : Type 0) : Type 0 where
  message : Text → Read Text
  failed : Code → Read Text

-- What the loop calls: one of its signals, with the message.
pub data Signal : Type 0 where
  on_offer : Offer → Signal
  on_answer : Answer → Signal
  on_ice_candidate : IceCandidate → Signal
  on_registration : Registration → Signal
  on_want_to_negotiate : Signal
  on_create_offer : Signal
  on_closed : Signal

-- The state of the future that `run` returned. `broken` is a promise that went away unfulfilled.
pub data Promise : Type 0 where
  pending value broken : Promise
  exception : Code → Promise
  parse_exception : Promise

pub record Trace : Type 0 where
  pub signals : List Signal
  pub promise : Promise
  pub reading : Bool

abbrev pub before : List Signal → Trace → Trace
before [] t = t
before (x ∷ l) t = record t { signals = x ∷ (before l t).signals }
