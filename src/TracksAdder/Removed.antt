-- ===== src/TracksAdder/Removed.antt =====
-- What is removed was there, and the rest stays.
use fubble.Base.{ℕ, ◌+◌, ◌<◌, ◌≡◌, refl, Option, none, some, List, arith, ◌==◌}
use fubble.Base.Runs.{Holds}
use fubble.TracksAdder.{
  remove_from_connection, TracksAdder, erase, for_each, remove, remove_connection,
}
use fubble.TracksAdder.Attached.{
  one, count, Erased, count-erase, IsAttached, Kept, remove-Kept, remove_connection-Kept,
}

-- What is there is removed, and everything else stays as often as it was.
pub remove-Holds :
    (x : ℕ) (s : TracksAdder)
    → 0 < count x s.adders
    → ((a c : ℕ) → IsAttached a c s)
    → Holds
        (λ t.
          ((y : ℕ) → count y s.adders ≡ one (y == x) + count y t.adders)
          × ((a c : ℕ) → IsAttached a c t))
        (remove x s)
unfolding remove Kept Erased
remove-Holds x s h v =
    branch (erase x s.adders) (λ y. count-erase y x s.adders) (λ a c. remove-Kept a c x s (v a c))
  where
    after : List ℕ → TracksAdder
    after l = record {
      adders = l;
      connections = s.connections;
      calls = for_each (remove_from_connection x) s.connections s.calls;
    }

    branch :
        (o : Option (List ℕ))
        → ((y : ℕ) → Erased y x s.adders o)
        → ((a c : ℕ)
            → Kept a c
                (elim o as (λ _. Option TracksAdder) [ none ↦ none | some l ↦ some (after l) ]))
        → Holds
            (λ t.
              ((y : ℕ) → count y s.adders ≡ one (y == x) + count y t.adders)
              × ((a c : ℕ) → IsAttached a c t))
            (elim o as (λ _. Option TracksAdder) [ none ↦ none | some l ↦ some (after l) ])
    branch none e k = omega (arith, h, e x)
    branch (some l) e k = (e, k)

pub remove_connection-Holds :
    (x : ℕ) (s : TracksAdder)
    → 0 < count x s.connections
    → ((a c : ℕ) → IsAttached a c s)
    → Holds (λ t. (t.adders ≡ s.adders) × ((a c : ℕ) → IsAttached a c t)) (remove_connection x s)
unfolding remove_connection Kept Erased
remove_connection-Holds x s h v =
    branch (erase x s.connections) (count-erase x x s.connections)
      (λ a c. remove_connection-Kept a c x s (v a c))
  where
    after : List ℕ → TracksAdder
    after l = record {
      adders = s.adders;
      connections = l;
      calls = for_each (λ a. remove_from_connection a x) s.adders s.calls;
    }

    branch :
        (o : Option (List ℕ))
        → Erased x x s.connections o
        → ((a c : ℕ)
            → Kept a c
                (elim o as (λ _. Option TracksAdder) [ none ↦ none | some l ↦ some (after l) ]))
        → Holds
            (λ t. (t.adders ≡ s.adders) × ((a c : ℕ) → IsAttached a c t))
            (elim o as (λ _. Option TracksAdder) [ none ↦ none | some l ↦ some (after l) ])
    branch none e k = omega (arith, h, e)
    branch (some l) e k = (refl, k)
