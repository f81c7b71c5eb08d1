-- ===== src/Tests/Hearing.antt =====
-- The loopback of the user's own sound.
use fubble.Base.{◌≡◌, true, false, some, List, [], ◌∷◌}
use fubble.Loopback.{get_enable_loopback, get_track}
use fubble.Loopback.Heard.{Event, enables, brings, run, initial, run-get_track}

abbrev heard_twice : List Event
heard_twice =
    brings 1 ∷ enables true ∷ brings 2 ∷ enables false ∷ enables true ∷ enables true ∷ brings 3 ∷ []

run-get_track_example :
    (get_enable_loopback (run heard_twice initial) ≡ true)
    × (get_track (run heard_twice initial) ≡ some (record { id = 3; enabled = true }))
run-get_track_example = run-get_track heard_twice
