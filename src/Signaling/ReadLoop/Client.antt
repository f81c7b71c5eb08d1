-- ===== src/Signaling/ReadLoop/Client.antt =====
-- fubble/signaling/client/connection.cpp: `message_visitor`, `read_next` and `did_read`.
use fubble.Base.{true, false, List, [], ◌∷◌}
use fubble.Signaling.Message.{
  Message, offer, answer, ice_candidate, create_offer, registration, want_to_negotiate,
}
use fubble.Signaling.Json.{JsonLibrary, ok, thrown, parse}
use fubble.Signaling.ReadLoop.{
  Code, operation_aborted, websocket_closed, other_code, Read, message, failed, Signal, on_offer,
  on_answer, on_ice_candidate, on_create_offer, Promise, pending, value, exception, parse_exception,
  Trace, before,
}

-- `message_visitor`; `want_to_negotiate` and `registration` only assert.
unfoldable pub visit : Message → List Signal
visit (offer o) = on_offer o ∷ []
visit (answer a) = on_answer a ∷ []
visit (ice_candidate c) = on_ice_candidate c ∷ []
visit create_offer = on_create_offer ∷ []
visit want_to_negotiate = []
visit (registration r) = []

abbrev pub on_error : Code → Promise
on_error websocket_closed = value
on_error operation_aborted = exception operation_aborted
on_error other_code = exception other_code

-- `read_next` and `did_read`.
unfoldable pub run : (lib : JsonLibrary) → List (Read lib.Text) → Trace
run lib [] = record { signals = []; promise = pending; reading = true }
run lib (failed c ∷ rest) = record { signals = []; promise = on_error c; reading = false }
run lib (message m ∷ rest) =
    let next = run lib rest in
    elim (parse lib m) [
      | ok parsed ↦ before (visit parsed) next
      | thrown e ↦ record { signals = []; promise = parse_exception; reading = false }
    ]
