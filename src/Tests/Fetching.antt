-- ===== src/Tests/Fetching.antt =====
-- Requests over http.
use fubble.Base.{ℕ, ◌≡◌, refl, true, none, some, String, Option, List, [], ◌∷◌, arith}
use fubble.Base.Runs.{Holds, Fits, run}
use fubble.Http.{Action, action, do_, eof, securing}
use fubble.Http.Once.{Event, ends, cancels, destroys, step, Needs, IsSound, run-do-IsSound}
use fubble.Http.Stuck.{IsStuck, run_ends-IsStuck}

abbrev parse : String → Option ℕ
parse _ = some 7

abbrev answered : List Event
answered =
    ends none 0 ""
    ∷ ends none 0 ""
    ∷ ends none 0 ""
    ∷ cancels
    ∷ ends none 0 ""
    ∷ ends (some eof) 200 "{}"
    ∷ destroys
    ∷ []

answered-Fits : Fits (step parse) (Needs parse) answered (do_ (action true true))
unfolding Fits step do_
answered-Fits = (tt, (tt, (tt, (tt, (tt, (tt, ((λ e. ground (arith, e)), tt)))))))

run-do-IsSound_example :
    (t : Action ℕ) × (run (step parse) answered (do_ (action true true)) ≡ some t) × IsSound parse t
run-do-IsSound_example = run-do-IsSound parse true true answered refl answered-Fits

-- During the handshake.
abbrev in_handshake : Action ℕ
in_handshake = record (do_ (action true true)) { pending = securing }

in_handshake-IsSound : IsSound parse in_handshake
unfolding do_
in_handshake-IsSound = ground arith

run_ends-IsStuck_example :
    Holds (IsStuck parse) (run (step parse) (ends (some eof) 0 "" ∷ cancels ∷ []) in_handshake)
unfolding do_
run_ends-IsStuck_example =
    run_ends-IsStuck parse eof 0 "" (cancels ∷ []) in_handshake refl in_handshake-IsSound refl refl
      (refl, tt)
