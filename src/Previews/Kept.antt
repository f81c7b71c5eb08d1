-- ===== src/Previews/Kept.antt =====
-- What the operations leave of the previews: which are there, of which kind, and whether they run.
use fubble.Base.{
  ℕ, ◌+◌, ◌≤◌, ◌≡◌, refl, Bool, true, false, not, some, List, [], ◌∷◌, ◌++◌, All, All-append, ◌==◌,
  arith, if◌then◌else◌,
}
use fubble.Previews.{
  Preview, start_preview, stop_all, start_all, has_id, filter_enumerated, add_previews,
  create_previews, erase, set_stopped,
}

-- All are started, or none; all have ids of windows, or of screens; each id is there once.
abbrev pub AreStarted : Bool → List Preview → Type 0
AreStarted b l = All (λ p. p.started ≡ b) l

abbrev pub AreOf : (ℕ → Bool) → Bool → List Preview → Type 0
AreOf is_screen b l = All (λ p. is_screen p.id ≡ b) l

abbrev pub count : ℕ → List Preview → ℕ
count id [] = 0
count id (p ∷ l) = (if p.id == id then 1 else 0) + count id l

abbrev pub count_id : ℕ → List ℕ → ℕ
count_id id [] = 0
count_id id (x ∷ l) = (if x == id then 1 else 0) + count_id id l

pub stop_all-AreStarted :
    (l : List Preview)
    → AreStarted true l
    → (r : List Preview) × (stop_all l ≡ some r)
      × AreStarted false r
      × ((id : ℕ) → count id r ≡ count id l)
      × ((f : ℕ → Bool) (b : Bool) → AreOf f b l → AreOf f b r)
unfolding stop_all
stop_all-AreStarted [] h = ([], refl, tt, λ id. refl, λ f b o. tt)
stop_all-AreStarted (p ∷ l) h =
    let (r, e, s, c, o) = stop_all-AreStarted l h.1 in
    (
      record p { started = false } ∷ r,
      ground (arith, e, h.0),
      (refl, s),
      (λ id. omega (arith, c id)),
      (λ f b q. (q.0, o f b q.1)),
    )

pub start_all-AreStarted : (l : List Preview) → AreStarted true (start_all l)
unfolding start_all start_preview
start_all-AreStarted [] = tt
start_all-AreStarted (p ∷ l) = (refl, start_all-AreStarted l)

pub count-start_all : (id : ℕ) (l : List Preview) → count id (start_all l) ≡ count id l
unfolding start_all start_preview
count-start_all id [] = refl
count-start_all id (p ∷ l) = omega (arith, count-start_all id l)

pub start_all-AreOf :
    (f : ℕ → Bool) (b : Bool) (l : List Preview) → AreOf f b l → AreOf f b (start_all l)
unfolding start_all start_preview
start_all-AreOf f b [] h = tt
start_all-AreOf f b (p ∷ l) h = (h.0, start_all-AreOf f b l h.1)

count-append : (id : ℕ) (l r : List Preview) → count id (l ++ r) ≡ count id l + count id r
count-append id [] r = omega arith
count-append id (p ∷ l) r = omega (arith, count-append id l r)

has_id-count : (id : ℕ) (l : List Preview) → has_id id l ≡ false → count id l ≡ 0
unfolding has_id
has_id-count id [] h = refl
has_id-count id (p ∷ l) h = ground (arith, has_id-count id l)

count-has_id : (id : ℕ) (l : List Preview) → has_id id l ≡ true → 1 ≤ count id l
unfolding has_id
count-has_id id [] h = absurd (ground arith)
count-has_id id (p ∷ l) h = ground (arith, count-has_id id l)

filter-le :
    (id : ℕ) (ids : List ℕ) (l : List Preview)
    → count_id id (filter_enumerated ids l) ≤ count_id id ids
unfolding filter_enumerated
filter-le id [] l = omega arith
filter-le id (x ∷ ids) l = ground (arith, filter-le id ids l)

-- What is left after the filter is new.
filter-new :
    (id : ℕ) (ids : List ℕ) (l : List Preview)
    → count_id id ids ≤ 1
    → count id l ≤ 1
    → count_id id (filter_enumerated ids l) + count id l ≤ 1
unfolding filter_enumerated
filter-new id [] l h u = omega (arith, u)
filter-new id (x ∷ ids) l h u =
    ground (arith, filter-new id ids l, has_id-count x l, has_id-count id l, filter-le id ids l)

filter-AreOf :
    (f : ℕ → Bool) (b : Bool) (ids : List ℕ) (l : List Preview)
    → All (λ i. f i ≡ b) ids
    → All (λ i. f i ≡ b) (filter_enumerated ids l)
unfolding filter_enumerated
filter-AreOf f b [] l h = tt
filter-AreOf f b (x ∷ ids) l h = ground (arith, filter-AreOf f b ids l h.1)

-- What is added is started, of its kind and there once.
abbrev pub IsKept : (ℕ → Bool) → Bool → List Preview → Type 0
IsKept f b l = AreStarted true l × AreOf f b l × ((id : ℕ) → count id l ≤ 1)

add_previews-IsKept :
    (creates f : ℕ → Bool) (b : Bool) (ids : List ℕ) (l : List Preview)
    → AreStarted true l
    → AreOf f b l
    → All (λ i. f i ≡ b) ids
    → ((id : ℕ) → count_id id ids + count id l ≤ 1)
    → IsKept f b (add_previews creates ids l).1
unfolding add_previews start_preview
add_previews-IsKept creates f b [] l s o h u = (s, o, (λ id. omega (arith, u id)))
add_previews-IsKept creates f b (x ∷ ids) l s o h u = branch (creates x) (
    add_previews-IsKept creates f b ids (l ++ record { id = x; started = true } ∷ [])
      (All-append (λ p. p.started ≡ true) l (record { id = x; started = true } ∷ []) s (refl, tt))
      (All-append (λ p. f p.id ≡ b) l (record { id = x; started = true } ∷ []) o (h.0, tt)) h.1
      (λ i. omega (arith, u i, count-append i l (record { id = x; started = true } ∷ []))))
  where
    branch :
        (c : Bool)
        → IsKept f b (add_previews creates ids (l ++ record { id = x; started = true } ∷ [])).1
        → IsKept f b
            (if c
              then add_previews creates ids (l ++ record { id = x; started = true } ∷ [])
              else (false, l)).1
    branch true k = k
    branch false k = (s, o, (λ i. omega (arith, u i)))

pub create_previews-IsKept :
    (creates f : ℕ → Bool) (b : Bool) (ids : List ℕ) (l : List Preview)
    → IsKept f b l
    → All (λ i. f i ≡ b) ids
    → ((id : ℕ) → count_id id ids ≤ 1)
    → IsKept f b (create_previews creates ids l).1
unfolding create_previews
create_previews-IsKept creates f b ids l k h u =
    add_previews-IsKept creates f b (filter_enumerated ids l) l k.0 k.1 (filter-AreOf f b ids l h)
      (λ i. filter-new i ids l (u i) (k.2 i))

-- A capturer that stops is erased from the list that its id is in.
pub erased-AreStarted :
    (id : ℕ) (l : List Preview) → AreStarted true l → AreStarted true (erase id (set_stopped id l))
unfolding erase set_stopped
erased-AreStarted id [] h = tt
erased-AreStarted id (p ∷ l) h = ground (arith, h.0, erased-AreStarted id l h.1)

pub erased-AreOf :
    (f : ℕ → Bool) (b : Bool) (id : ℕ) (l : List Preview)
    → AreOf f b l
    → AreOf f b (erase id (set_stopped id l))
unfolding erase set_stopped
erased-AreOf f b id [] h = tt
erased-AreOf f b id (p ∷ l) h = ground (arith, h.0, h.1, erased-AreOf f b id l h.1)

pub count-erased : (id i : ℕ) (l : List Preview) → count i (erase id (set_stopped id l)) ≤ count i l
unfolding erase set_stopped
count-erased id i [] = omega arith
count-erased id i (p ∷ l) = ground (arith, count-erased id i l)

pub set_stopped-none : (id : ℕ) (l : List Preview) → has_id id l ≡ false → set_stopped id l ≡ l
unfolding set_stopped has_id
set_stopped-none id [] h = refl
set_stopped-none id (p ∷ l) h = ground (arith, set_stopped-none id l)

pub has_id-set_stopped : (id : ℕ) (l : List Preview) → has_id id (set_stopped id l) ≡ has_id id l
unfolding set_stopped has_id
has_id-set_stopped id [] = refl
has_id-set_stopped id (p ∷ l) = ground (arith, has_id-set_stopped id l)

pub erase-none : (id : ℕ) (l : List Preview) → has_id id l ≡ false → erase id l ≡ l
unfolding erase has_id
erase-none id [] h = refl
erase-none id (p ∷ l) h = ground (arith, erase-none id l)

-- No id of the other kind is there.
pub has_id-of :
    (f : ℕ → Bool) (b : Bool) (id : ℕ) (l : List Preview)
    → AreOf f b l
    → f id ≡ not b
    → has_id id l ≡ false
unfolding has_id
has_id-of f b id [] h e = refl
has_id-of f b id (p ∷ l) h e = ground (arith, has_id-of f b id l h.1, h.0)
