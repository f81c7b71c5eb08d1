-- ===== src/Signaling/ReadLoop/Server.antt =====
-- fubble/signaling/server/connection.cpp: `message_visitor` and `run`.
use fubble.Base.{true, false, List, [], ◌∷◌}
use fubble.Signaling.Message.{
  Message, offer, answer, ice_candidate, create_offer, registration, want_to_negotiate,
}
use fubble.Signaling.Json.{JsonLibrary, ok, thrown, parse}
use fubble.Signaling.ReadLoop.{
  Code, operation_aborted, websocket_closed, other_code, Read, message, failed, Signal, on_offer,
  on_answer, on_ice_candidate, on_registration, on_want_to_negotiate, on_closed, Promise, pending,
  value, broken, exception, Trace, before,
}

-- `message_visitor`; `create_offer` only asserts.
unfoldable pub visit : Message → List Signal
visit (offer o) = on_offer o ∷ []
visit (answer a) = on_answer a ∷ []
visit (ice_candidate c) = on_ice_candidate c ∷ []
visit (registration r) = on_registration r ∷ []
visit want_to_negotiate = on_want_to_negotiate ∷ []
visit create_offer = []

abbrev pub on_error : Code → Promise
on_error operation_aborted = value
on_error websocket_closed = exception websocket_closed
on_error other_code = exception other_code

-- `run`: only a `system_error` is caught; what the parser throws leaves the continuation, and the
-- promise that it had captured is destroyed.
unfoldable pub run : (lib : JsonLibrary) → List (Read lib.Text) → Trace
run lib [] = record { signals = []; promise = pending; reading = true }
run lib (failed c ∷ rest) = record {
  signals = on_closed ∷ [];
  promise = on_error c;
  reading = false;
}
run lib (message m ∷ rest) =
    let next = run lib rest in
    elim (parse lib m) [
      | ok parsed ↦ before (visit parsed) next
      | thrown e ↦ record { signals = []; promise = broken; reading = false }
    ]
