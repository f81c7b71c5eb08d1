-- ===== src/TracksAdder.antt =====
-- fubble/client/tracks_adder.cpp: every track adder is joined with every connection. Adders and
-- connections are pointers, compared by address: numbers. Erasing `end()` is undefined: `none`.
pub mod Attached
pub mod Removed
pub mod History
use fubble.Base.{ℕ, Bool, true, false, Option, none, some, List, [], ◌∷◌, ◌==◌, if◌then◌else◌}

-- What is called on a `track_adder`: the adder first, then the connection.
pub data Call : Type 0 where
  add_to_connection remove_from_connection : ℕ → ℕ → Call

pub record TracksAdder : Type 0 where
  pub adders : List ℕ
  pub connections : List ℕ
  pub calls : List Call

unfoldable pub push_back : List ℕ → ℕ → List ℕ
push_back [] x = x ∷ []
push_back (y ∷ l) x = y ∷ push_back l x

-- `erase(find(x))`.
unfoldable pub erase : ℕ → List ℕ → Option (List ℕ)
erase x [] = none
erase x (y ∷ l) =
    let rest = erase x l in
    if x == y then some l else elim rest [ none ↦ none | some r ↦ some (y ∷ r) ]

-- `for (auto connection : connections_)`: one call for each, the newest first.
unfoldable pub for_each : (ℕ → Call) → List ℕ → List Call → List Call
for_each f [] calls = calls
for_each f (x ∷ l) calls = for_each f l (f x ∷ calls)

unfoldable pub add : ℕ → TracksAdder → TracksAdder
unfolding push_back for_each
add adder s = record {
  adders = push_back s.adders adder;
  connections = s.connections;
  calls = for_each (add_to_connection adder) s.connections s.calls;
}

unfoldable pub remove : ℕ → TracksAdder → Option TracksAdder
unfolding erase for_each
remove adder s = elim (erase adder s.adders) [
  | none ↦ none
  | some l ↦ some (record {
    adders = l;
    connections = s.connections;
    calls = for_each (remove_from_connection adder) s.connections s.calls;
  })
]

unfoldable pub add_connection : ℕ → TracksAdder → TracksAdder
unfolding push_back for_each
add_connection c s = record {
  adders = s.adders;
  connections = push_back s.connections c;
  calls = for_each (λ a. add_to_connection a c) s.adders s.calls;
}

unfoldable pub remove_connection : ℕ → TracksAdder → Option TracksAdder
unfolding erase for_each
remove_connection c s = elim (erase c s.connections) [
  | none ↦ none
  | some l ↦ some (record {
    adders = s.adders;
    connections = l;
    calls = for_each (λ a. remove_from_connection a c) s.adders s.calls;
  })
]

abbrev pub initial : TracksAdder
initial = record { adders = []; connections = []; calls = [] }
