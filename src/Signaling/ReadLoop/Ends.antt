-- ===== src/Signaling/ReadLoop/Ends.antt =====
-- How the read loops end.
use fubble.Base.{◌≡◌, refl, ap, ◌∙◌, Bool, true, false, List, [], ◌∷◌, ◌++◌}
use fubble.Signaling.Message.{
  Message, offer, answer, ice_candidate, create_offer, registration, want_to_negotiate,
}
use fubble.Signaling.Json.{JsonLibrary, Error, Parsed, ok, thrown, parse, serialize}
use fubble.Signaling.Json.RoundTrip.{parse-serialize}
use fubble.Signaling.ReadLoop.{
  Code, operation_aborted, websocket_closed, other_code, Read, message, failed, Signal, on_offer,
  on_answer, on_ice_candidate, on_registration, on_want_to_negotiate, on_closed, Promise, pending,
  value, exception, broken, parse_exception, Trace, before,
}
use fubble.Signaling.ReadLoop.Server
use fubble.Signaling.ReadLoop.Client

-- The reads of a peer that sends these messages, and then others.
abbrev pub arriving :
    (lib : JsonLibrary) → List Message → List (Read lib.Text) → List (Read lib.Text)
arriving lib [] rest = rest
arriving lib (m ∷ ms) rest = message (serialize lib m) ∷ arriving lib ms rest

abbrev pub visited : (Message → List Signal) → List Message → Trace → Trace
visited visit [] t = t
visited visit (m ∷ ms) t = before (visit m) (visited visit ms t)

server_run_lem :
    (lib : JsonLibrary) (ms : List Message) (rest : List (Read lib.Text))
    → Server.run lib (arriving lib ms rest) ≡ visited Server.visit ms (Server.run lib rest)
unfolding Server.run
server_run_lem lib [] rest = refl
server_run_lem lib (m ∷ ms) rest =
    rw (parse-serialize lib m, Server.run)
      (ap (before (Server.visit m)) (server_run_lem lib ms rest))

client_run_lem :
    (lib : JsonLibrary) (ms : List Message) (rest : List (Read lib.Text))
    → Client.run lib (arriving lib ms rest) ≡ visited Client.visit ms (Client.run lib rest)
unfolding Client.run
client_run_lem lib [] rest = refl
client_run_lem lib (m ∷ ms) rest =
    rw (parse-serialize lib m, Client.run)
      (ap (before (Client.visit m)) (client_run_lem lib ms rest))

-- A server connection hands on each message that its peer serialised, in order; when reading fails it
-- then calls `on_closed` once and stops, with an exception unless the operation was aborted.
server_run-failed :
    (lib : JsonLibrary) (ms : List Message) (c : Code) (rest : List (Read lib.Text))
    → Server.run lib (arriving lib ms (failed c ∷ rest))
      ≡ visited Server.visit ms
          (record { signals = on_closed ∷ []; promise = Server.on_error c; reading = false })
server_run-failed lib ms c rest =
    server_run_lem lib ms (failed c ∷ rest) ∙ unfold Server.run in refl

-- After the messages before it, and a text that does not parse, the server stops reading for good: it
-- calls no signal any more, `on_closed` included, and its promise is broken.
server_run_malformed :
    (lib : JsonLibrary) (ms : List Message) (bad : lib.Text) {e : Error}
    (rest : List (Read lib.Text))
    → parse lib bad ≡ thrown e
    → Server.run lib (arriving lib ms (message bad ∷ rest))
      ≡ visited Server.visit ms (record { signals = []; promise = broken; reading = false })
server_run_malformed lib ms bad rest h =
    server_run_lem lib ms (message bad ∷ rest)
    ∙ ap (visited Server.visit ms) (unfold Server.run in rw (h, Server.run))

-- What a sequence of reads begins with: the messages up to the first read that fails or gives a text
-- that does not parse; and how it goes on from there.
abbrev pub readable : (lib : JsonLibrary) → List (Read lib.Text) → List Message
readable lib [] = []
readable lib (failed c ∷ rest) = []
readable lib (message m ∷ rest) =
    let more = readable lib rest in elim (parse lib m) [ ok parsed ↦ parsed ∷ more | thrown e ↦ [] ]

pub data End : Type 0 where
  waits malformed : End
  fails : Code → End

abbrev pub ending : (lib : JsonLibrary) → List (Read lib.Text) → End
ending lib [] = waits
ending lib (failed c ∷ rest) = fails c
ending lib (message m ∷ rest) =
    let more = ending lib rest in elim (parse lib m) [ ok parsed ↦ more | thrown e ↦ malformed ]

-- The signal for each message that a server is told of.
abbrev pub told : List Message → List Signal
told [] = []
told (offer o ∷ ms) = on_offer o ∷ told ms
told (answer a ∷ ms) = on_answer a ∷ told ms
told (ice_candidate c ∷ ms) = on_ice_candidate c ∷ told ms
told (registration r ∷ ms) = on_registration r ∷ told ms
told (want_to_negotiate ∷ ms) = on_want_to_negotiate ∷ told ms
told (create_offer ∷ ms) = told ms

abbrev pub closing : End → List Signal
closing (fails c) = on_closed ∷ []
closing _ = []

abbrev pub fulfilled : End → Promise
fulfilled waits = pending
fulfilled malformed = broken
fulfilled (fails operation_aborted) = value
fulfilled (fails c) = exception c

abbrev pub goes_on : End → Bool
goes_on waits = true
goes_on _ = false

abbrev pub outcome : List Message → End → Trace
outcome ms end = record {
  signals = told ms ++ closing end;
  promise = fulfilled end;
  reading = goes_on end;
}

before-outcome :
    (m : Message) (ms : List Message) (end : End)
    → before (Server.visit m) (outcome ms end) ≡ outcome (m ∷ ms) end
unfolding Server.visit
before-outcome (offer o) ms end = refl
before-outcome (answer a) ms end = refl
before-outcome (ice_candidate c) ms end = refl
before-outcome (registration r) ms end = refl
before-outcome want_to_negotiate ms end = refl
before-outcome create_offer ms end = refl

server_run-outcome :
    (lib : JsonLibrary) (reads : List (Read lib.Text))
    → Server.run lib reads ≡ outcome (readable lib reads) (ending lib reads)
unfolding Server.run
server_run-outcome lib [] = refl
server_run-outcome lib (failed operation_aborted ∷ rest) = refl
server_run-outcome lib (failed websocket_closed ∷ rest) = refl
server_run-outcome lib (failed other_code ∷ rest) = refl
server_run-outcome lib (message m ∷ rest) = parsed (parse lib m) (server_run-outcome lib rest)
  where
    parsed :
        (p : Parsed Message)
        → Server.run lib rest ≡ outcome (readable lib rest) (ending lib rest)
        → elim p as (λ _. Trace) [
          | ok m ↦ before (Server.visit m) (Server.run lib rest)
          | thrown e ↦ record { signals = []; promise = broken; reading = false }
        ]
          ≡ outcome
              (elim p [ ok m ↦ m ∷ readable lib rest | thrown e ↦ [] ])
              (elim p [ ok m ↦ ending lib rest | thrown e ↦ malformed ])
    parsed (ok m) h =
        ap (before (Server.visit m)) h ∙ before-outcome m (readable lib rest) (ending lib rest)
    parsed (thrown e) h = refl

visited-outcome :
    (ms more : List Message) (end : End)
    → visited Server.visit ms (outcome more end) ≡ outcome (ms ++ more) end
visited-outcome [] more end = refl
visited-outcome (m ∷ ms) more end =
    ap (before (Server.visit m)) (visited-outcome ms more end) ∙ before-outcome m (ms ++ more) end

-- Whatever is read after the messages that a peer has serialised: a server connection calls the signal
-- of each of these, and then of each message that follows up to the first read that fails or does not
-- parse, in their order; `on_closed` is called at the end, once, exactly if a read has failed, and
-- then its promise has a value if the operation was aborted, and else the exception; after a text that
-- does not parse it is not called, the promise is broken and nothing more is read.
pub server_run_ends :
    (lib : JsonLibrary) (ms : List Message) (reads : List (Read lib.Text))
    → Server.run lib (arriving lib ms reads) ≡ outcome (ms ++ readable lib reads) (ending lib reads)
server_run_ends lib ms reads =
    server_run_lem lib ms reads
    ∙ ap (visited Server.visit ms) (server_run-outcome lib reads)
    ∙ visited-outcome ms (readable lib reads) (ending lib reads)

-- A client connection hands on the messages before a text that does not parse, in order; there it
-- stops reading, and its run ends by an exception.
client_run_malformed :
    (lib : JsonLibrary) (ms : List Message) (bad : lib.Text) {e : Error}
    (rest : List (Read lib.Text))
    → parse lib bad ≡ thrown e
    → Client.run lib (arriving lib ms (message bad ∷ rest))
      ≡ visited Client.visit ms
          (record { signals = []; promise = parse_exception; reading = false })
client_run_malformed lib ms bad rest h =
    client_run_lem lib ms (message bad ∷ rest)
    ∙ ap (visited Client.visit ms) (unfold Client.run in rw (h, Client.run))
