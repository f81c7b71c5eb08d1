-- ===== src/TracksAdder/History.antt =====
-- The histories of a `tracks_adder`.
use fubble.Base.{ℕ, ◌<◌, ◌≡◌, refl, Option, none, some, List}
use fubble.Base.Runs.{Holds, Fits, run, run-Fits}
use fubble.TracksAdder.{TracksAdder, add, remove, add_connection, remove_connection, initial}
use fubble.TracksAdder.Attached.{count, IsAttached, add-IsAttached, add_connection-IsAttached}
use fubble.TracksAdder.Removed.{remove-Holds, remove_connection-Holds}

pub data Event : Type 0 where
  added removed connected disconnected : ℕ → Event

unfoldable pub step : Event → TracksAdder → Option TracksAdder
unfolding add remove add_connection remove_connection
step (added a) s = some (add a s)
step (removed a) s = remove a s
step (connected c) s = some (add_connection c s)
step (disconnected c) s = remove_connection c s

-- What is removed is there, which an assertion guards.
abbrev pub Needs : Event → TracksAdder → Type 0
Needs (removed x) s = 0 < count x s.adders
Needs (disconnected y) s = 0 < count y s.connections
Needs _ s = Unit

AreAttached : TracksAdder → Type 0
AreAttached s = (a c : ℕ) → IsAttached a c s

weaken :
    (P Q : TracksAdder → Type 0) (o : Option TracksAdder)
    → ((t : TracksAdder) → P t → Q t)
    → Holds P o
    → Holds Q o
weaken P Q none f h = h
weaken P Q (some t) f h = f t h

step-AreAttached :
    (e : Event) (s : TracksAdder) → Needs e s → AreAttached s → Holds AreAttached (step e s)
unfolding step AreAttached
step-AreAttached (added x) s n v = λ a c. add-IsAttached a c x s (v a c)
step-AreAttached (connected y) s n v = λ a c. add_connection-IsAttached a c y s (v a c)
step-AreAttached (removed x) s n v =
    weaken _ AreAttached (remove x s) (λ t w. w.1) (remove-Holds x s n v)
step-AreAttached (disconnected y) s n v =
    weaken _ AreAttached (remove_connection y s) (λ t w. w.1) (remove_connection-Holds y s n v)

-- After any history in which only adders and connections that are there are removed, no operation
-- erases what it has not found, and every adder was added to every connection once more than it was
-- removed for each pair of them in the two lists: nothing is left at a connection that has gone, and
-- a track that is added is at the connections that came before and after it.
pub run-initial-AreAttached :
    (es : List Event)
    → Fits step Needs es initial
    → (t : TracksAdder) × (run step es initial ≡ some t) × ((a c : ℕ) → IsAttached a c t)
unfolding AreAttached IsAttached
run-initial-AreAttached es p =
    run-Fits step Needs AreAttached step-AreAttached es initial p (λ a c. refl)
