-- ===== src/Tests/Requests.antt =====
-- The server of temporary rooms.
use fubble.Base.{◌≡◌, false, String, none, some, List, [], ◌∷◌}
use fubble.Base.Runs.{run}
use fubble.Serving.{JsonLibrary, text, value, future, throws, other}
use fubble.Serving.Answers.{Event, requested, answered, written, failed, step}
use fubble.Serving.Accepting as acceptor

-- A JSON value that is its text.
abbrev texts : JsonLibrary String
texts = record { parse = λ s. value s; dump = λ s. text s; description = λ s. s }

abbrev a_history : List (Event String)
a_history =
    requested (record { target = "/join"; body = "{}" }) future
    ∷ answered (value "room")
    ∷ written false
    ∷ requested (record { target = "/join"; body = "" }) (throws "no")
    ∷ failed other
    ∷ []

run-start-destroy_example :
    let es = acceptor.accepts none ∷ acceptor.stops ∷ acceptor.accepts (some other) ∷ [] in
    (t : acceptor.Acceptor) × (run acceptor.step es (acceptor.start acceptor.closed) ≡ some t)
    × (t.accepting ≡ acceptor.one t.run_promise)
    × (acceptor.results (acceptor.destroy t).calls ≡ 1)
run-start-destroy_example =
    acceptor.run-start-destroy
      (acceptor.accepts none ∷ acceptor.stops ∷ acceptor.accepts (some other) ∷ [])
