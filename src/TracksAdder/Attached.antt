-- ===== src/TracksAdder/Attached.antt =====
-- Which tracks are at which connections.
use fubble.Base.{
  ℕ, ◌+◌, ◌*◌, ◌≡◌, refl, ap, Bool, true, false, ◌&&◌, Option, none, some, List, [], ◌∷◌, arith,
  ◌==◌, if◌then◌else◌,
}
use fubble.TracksAdder.{
  Call, add_to_connection, remove_from_connection, TracksAdder, push_back, erase, for_each, add,
  remove, add_connection, remove_connection,
}

abbrev pub one : Bool → ℕ
one b = if b then 1 else 0

abbrev pub count : ℕ → List ℕ → ℕ
count x [] = 0
count x (y ∷ l) = one (x == y) + count x l

-- How often the adder was added to the connection, and removed from it.
abbrev pub times_added : ℕ → ℕ → List Call → ℕ
times_added a c [] = 0
times_added a c (add_to_connection a' c' ∷ l) = one (a == a' && c == c') + times_added a c l
times_added a c (remove_from_connection _ _ ∷ l) = times_added a c l

abbrev pub times_removed : ℕ → ℕ → List Call → ℕ
times_removed a c [] = 0
times_removed a c (add_to_connection _ _ ∷ l) = times_removed a c l
times_removed a c (remove_from_connection a' c' ∷ l) =
    one (a == a' && c == c') + times_removed a c l

pub count-push_back : (x y : ℕ) (l : List ℕ) → count x (push_back l y) ≡ one (x == y) + count x l
unfolding push_back
count-push_back x y [] = refl
count-push_back x y (z ∷ l) = omega (arith, count-push_back x y l)

-- An element that was found is there once less; one that was not found is not there.
unfoldable pub Erased : ℕ → ℕ → List ℕ → Option (List ℕ) → Type 0
Erased x y l none = count y l ≡ 0
Erased x y l (some r) = count x l ≡ one (x == y) + count x r

pub count-erase : (x y : ℕ) (l : List ℕ) → Erased x y l (erase y l)
unfolding erase Erased
count-erase x y [] = refl
count-erase x y (z ∷ l) = ground (arith, count-erase x y l)

-- What a loop over the other list adds to the two counts.
for_each-add_to_connection :
    (a c x : ℕ) (l : List ℕ) (calls : List Call)
    → let calls' = for_each (add_to_connection x) l calls in
      (times_added a c calls' ≡ (if a == x then count c l else 0) + times_added a c calls)
      × (times_removed a c calls' ≡ times_removed a c calls)
unfolding for_each
for_each-add_to_connection a c x [] calls = ground arith
for_each-add_to_connection a c x (y ∷ l) calls =
    ground (arith, for_each-add_to_connection a c x l (add_to_connection x y ∷ calls))

for_each-remove_from_connection :
    (a c x : ℕ) (l : List ℕ) (calls : List Call)
    → let calls' = for_each (remove_from_connection x) l calls in
      (times_removed a c calls' ≡ (if a == x then count c l else 0) + times_removed a c calls)
      × (times_added a c calls' ≡ times_added a c calls)
unfolding for_each
for_each-remove_from_connection a c x [] calls = ground arith
for_each-remove_from_connection a c x (y ∷ l) calls =
    ground (arith, for_each-remove_from_connection a c x l (remove_from_connection x y ∷ calls))

for_each-connected :
    (a c y : ℕ) (l : List ℕ) (calls : List Call)
    → let calls' = for_each (λ x. add_to_connection x y) l calls in
      (times_added a c calls' ≡ (if c == y then count a l else 0) + times_added a c calls)
      × (times_removed a c calls' ≡ times_removed a c calls)
unfolding for_each
for_each-connected a c y [] calls = ground arith
for_each-connected a c y (x ∷ l) calls =
    ground (arith, for_each-connected a c y l (add_to_connection x y ∷ calls))

for_each-disconnected :
    (a c y : ℕ) (l : List ℕ) (calls : List Call)
    → let calls' = for_each (λ x. remove_from_connection x y) l calls in
      (times_removed a c calls' ≡ (if c == y then count a l else 0) + times_removed a c calls)
      × (times_added a c calls' ≡ times_added a c calls)
unfolding for_each
for_each-disconnected a c y [] calls = ground arith
for_each-disconnected a c y (x ∷ l) calls =
    ground (arith, for_each-disconnected a c y l (remove_from_connection x y ∷ calls))

-- The adder was added to the connection once more than it was removed for every pair of the lists.
unfoldable pub IsAttached : ℕ → ℕ → TracksAdder → Type 0
IsAttached a c s =
    times_added a c s.calls ≡ times_removed a c s.calls + count a s.adders * count c s.connections

product-one : (b : Bool) (n m : ℕ) → (one b + n) * m ≡ (if b then m else 0) + n * m
product-one true n m = ground arith
product-one false n m = ground arith

product-one_right : (b : Bool) (n m : ℕ) → n * (one b + m) ≡ (if b then n else 0) + n * m
product-one_right true n m = ground arith
product-one_right false n m = ground arith

pub add-IsAttached : (a c x : ℕ) (s : TracksAdder) → IsAttached a c s → IsAttached a c (add x s)
unfolding add IsAttached
add-IsAttached a c x s v =
    let (m, n) = for_each-add_to_connection a c x s.connections s.calls in
    rw (m, n, count-push_back a x s.adders, product-one) (omega (arith, v))

pub add_connection-IsAttached :
    (a c y : ℕ) (s : TracksAdder) → IsAttached a c s → IsAttached a c (add_connection y s)
unfolding add_connection IsAttached
add_connection-IsAttached a c y s v =
    let (m, n) = for_each-connected a c y s.adders s.calls in
    rw (m, n, count-push_back c y s.connections, product-one_right) (omega (arith, v))

-- What an erased element leaves behind: the calls that removed it have been counted.
unfoldable pub Kept : ℕ → ℕ → Option TracksAdder → Type 0
Kept a c none = Unit
Kept a c (some t) = IsAttached a c t

pub remove-Kept : (a c x : ℕ) (s : TracksAdder) → IsAttached a c s → Kept a c (remove x s)
unfolding remove IsAttached Kept Erased
remove-Kept a c x s v = branch (erase x s.adders) (count-erase a x s.adders)
  where
    branch :
        (o : Option (List ℕ))
        → Erased a x s.adders o
        → Kept a c (elim o as (λ _. Option TracksAdder) [
          | none ↦ none
          | some l ↦ some (record {
            adders = l;
            connections = s.connections;
            calls = for_each (remove_from_connection x) s.connections s.calls;
          })
        ])
    branch none h = tt
    branch (some l) h =
        let (m, n) = for_each-remove_from_connection a c x s.connections s.calls in
        rw (m, n)
          (omega (
            arith,
            v,
            ap (λ k. k * count c s.connections) h,
            product-one (a == x) (count a l) (count c s.connections),
          ))

pub remove_connection-Kept :
    (a c y : ℕ) (s : TracksAdder) → IsAttached a c s → Kept a c (remove_connection y s)
unfolding remove_connection IsAttached Kept Erased
remove_connection-Kept a c y s v = branch (erase y s.connections) (count-erase c y s.connections)
  where
    branch :
        (o : Option (List ℕ))
        → Erased c y s.connections o
        → Kept a c (elim o as (λ _. Option TracksAdder) [
          | none ↦ none
          | some l ↦ some (record {
            adders = s.adders;
            connections = l;
            calls = for_each (λ x. remove_from_connection x y) s.adders s.calls;
          })
        ])
    branch none h = tt
    branch (some l) h =
        let (m, n) = for_each-disconnected a c y s.adders s.calls in
        rw (m, n)
          (omega (
            arith,
            v,
            ap (λ k. count a s.adders * k) h,
            product-one_right (c == y) (count a s.adders) (count c l),
          ))
