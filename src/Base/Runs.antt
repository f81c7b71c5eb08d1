-- ===== src/Base/Runs.antt =====
-- Runs of a step that may go wrong, over a list of events.
use mathlib.Core.Path.{◌≡◌, refl}
use mathlib.Core.Option.{Option, none, some}
use mathlib.Core.List.{List, [], ◌∷◌}

-- It has not gone wrong, and the result is good.
abbrev pub Holds {ℓ} : {S : Type ℓ} → (S → Type 0) → Option S → Type 0
Holds P none = ⊥
Holds P (some s) = P s

module _ {ℓ κ} {E : Type κ} {S : Type ℓ} (step : E → S → Option S) where
  unfoldable pub run : List E → S → Option S
  run [] s = some s
  run (e ∷ es) s = elim (step e s) as (λ _. Option S) [ none ↦ none | some t ↦ run es t ]

  -- That all events come when they may.
  unfoldable pub Fits : (E → S → Type 0) → List E → S → Type 0
  Fits Needs [] s = Unit
  Fits Needs (e ∷ es) s =
      Needs e s × elim (step e s) as (λ _. Type 0) [ none ↦ Unit {0} | some t ↦ Fits Needs es t ]

  -- A property that every step keeps, if it comes when it may, holds after every run, and no such
  -- run goes wrong.
  pub run-Fits :
      (Needs : E → S → Type 0) (P : S → Type 0)
      → ((e : E) (s : S) → Needs e s → P s → Holds P (step e s))
      → (es : List E) (s : S) → Fits Needs es s
      → P s
      → (t : S) × (run es s ≡ some t) × P t
  unfolding run Fits
  run-Fits Needs P keeps [] s n v = (s, refl, v)
  run-Fits Needs P keeps (e ∷ es) s n v =
      branch (step e s) n.1 (keeps e s n.0 v) (run-Fits Needs P keeps es)
    where
      branch :
          (o : Option S)
          → elim o as (λ _. Type 0) [ none ↦ Unit {0} | some t ↦ Fits Needs es t ]
          → Holds P o
          → ((t : S) → Fits Needs es t → P t → (u : S) × (run es t ≡ some u) × P u)
          → (u : S) × (elim o as (λ _. Option S) [ none ↦ none | some t ↦ run es t ] ≡ some u) × P u
      branch none n w f = elim w [ ]
      branch (some t) n w f = f t n w

  any : (es : List E) (s : S) → Fits (λ e s. Unit {0}) es s
  unfolding Fits
  any [] s = tt
  any (e ∷ es) s = (tt, branch (step e s) (any es))
    where
      branch :
          (o : Option S)
          → ((t : S) → Fits (λ e s. Unit {0}) es t)
          → elim o as (λ _. Type 0) [ none ↦ Unit {0} | some t ↦ Fits (λ e s. Unit {0}) es t ]
      branch none f = tt
      branch (some t) f = f t

  pub run-keeps :
      (P : S → Type 0)
      → ((e : E) (s : S) → P s → Holds P (step e s))
      → (es : List E) (s : S) → P s
      → (t : S) × (run es s ≡ some t) × P t
  run-keeps P keeps es s v = run-Fits (λ e s. Unit {0}) P (λ e s _ w. keeps e s w) es s (any es s) v

  -- The same from what the first event brings about.
  pub run-Fits_after :
      (Needs : E → S → Type 0) (P : S → Type 0)
      → ((e : E) (s : S) → Needs e s → P s → Holds P (step e s))
      → (e : E) (es : List E) (s : S) → Fits Needs (e ∷ es) s
      → Holds P (step e s)
      → (t : S) × (run (e ∷ es) s ≡ some t) × P t
  unfolding run Fits
  run-Fits_after Needs P keeps e es s n h = branch (step e s) n.1 h
    where
      branch :
          (o : Option S)
          → elim o as (λ _. Type 0) [ none ↦ Unit {0} | some t ↦ Fits Needs es t ]
          → Holds P o
          → (u : S) × (elim o as (λ _. Option S) [ none ↦ none | some t ↦ run es t ] ≡ some u) × P u
      branch none n h = absurd h
      branch (some t) n h = run-Fits Needs P keeps es t n h

  -- One step, and the rest.
  pub run-cons :
      (P Q : S → Type 0) (e : E) (es : List E) (s : S)
      → Holds P (step e s)
      → ((t : S) → P t → Holds Q (run es t))
      → Holds Q (run (e ∷ es) s)
  unfolding run
  run-cons P Q e es s h k = branch (step e s) h k
    where
      branch :
          (o : Option S)
          → Holds P o
          → ((t : S) → P t → Holds Q (run es t))
          → Holds Q (elim o as (λ _. Option S) [ none ↦ none | some t ↦ run es t ])
      branch none h k = h
      branch (some t) h k = k t h
