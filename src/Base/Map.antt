-- ===== src/Base/Map.antt =====
-- Finite maps (`std::unordered_map`, and vectors searched by a key) as lists of pairs.
use mathlib.Core.Path.{◌≡◌, refl, sym, subst, subst₂}
use mathlib.Core.Logic.{◌≢◌, ite}
use mathlib.Core.Option.{Option, none, some}
use mathlib.Core.List.{List, [], ◌∷◌}
use native.Mathlib.Omega.{arith}

module _ {ℓ} {K V : Type ℓ} (dec : Discrete K) where
  abbrev pub lookup : K → List (K × V) → Option V
  lookup k [] = none
  lookup k ((j, v) ∷ m) = ite (dec j k) (some v) (lookup k m)

  -- The value of a key is replaced where it stands; a new key goes to the end.
  abbrev pub insert : K → V → List (K × V) → List (K × V)
  insert k v [] = (k, v) ∷ []
  insert k v ((j, w) ∷ m) = ite (dec j k) ((j, v) ∷ m) ((j, w) ∷ insert k v m)

  abbrev pub erase : K → List (K × V) → List (K × V)
  erase k [] = []
  erase k ((j, w) ∷ m) = ite (dec j k) m ((j, w) ∷ erase k m)

  pub lookup-insert :
      (k i : K) (v : V) (m : List (K × V))
      → lookup i (insert k v m) ≡ ite (dec k i) (some v) (lookup i m)
  lookup-insert k i v [] = ground arith
  lookup-insert k i v ((j, w) ∷ m) = ground (arith, lookup-insert k i v m)

  pub lookup-erase_ne : (k i : K) (m : List (K × V)) → k ≢ i → lookup i (erase k m) ≡ lookup i m
  lookup-erase_ne k i [] ne = refl
  lookup-erase_ne k i ((j, w) ∷ m) ne = ground (arith, lookup-erase_ne k i m ne)

  -- Each key once, and a property of every entry.
  abbrev pub Entries {μ} : (K → V → Type μ) → List (K × V) → Type μ
  Entries P [] = Unit
  Entries P ((j, v) ∷ m) = P j v × Entries P m

  abbrev pub HasUniqueKeys : List (K × V) → Type ℓ
  HasUniqueKeys [] = Unit
  HasUniqueKeys ((j, v) ∷ m) = (lookup j m ≡ none) × HasUniqueKeys m

  pub insert-HasUniqueKeys :
      (k : K) (v : V) (m : List (K × V)) → HasUniqueKeys m → HasUniqueKeys (insert k v m)
  insert-HasUniqueKeys k v [] u = (refl, tt)
  insert-HasUniqueKeys k v ((j, w) ∷ m) u =
      ground (arith, insert-HasUniqueKeys k v m u.1, lookup-insert k j v m)

  pub erase-HasUniqueKeys : (k : K) (m : List (K × V)) → HasUniqueKeys m → HasUniqueKeys (erase k m)
  erase-HasUniqueKeys k [] u = tt
  erase-HasUniqueKeys k ((j, w) ∷ m) u =
      ground (arith, erase-HasUniqueKeys k m u.1, lookup-erase_ne k j m)

  pub lookup-erase_self : (k : K) (m : List (K × V)) → HasUniqueKeys m → lookup k (erase k m) ≡ none
  lookup-erase_self k [] u = refl
  lookup-erase_self k ((j, w) ∷ m) u = ground (arith, lookup-erase_self k m u.1)

  pub insert-Entries {μ} :
      (P : K → V → Type μ) (k : K) (v : V) (m : List (K × V))
      → P k v
      → Entries P m
      → Entries P (insert k v m)
  insert-Entries P k v [] p h = (p, tt)
  insert-Entries P k v ((j, w) ∷ m) p h =
      elim (dec j k) as (λ d. Entries P (ite d ((j, v) ∷ m) ((j, w) ∷ insert k v m))) [
        | yes e ↦ (subst (λ i. P i v) (sym e) p, h.1)
        | no ne ↦ (h.0, insert-Entries P k v m p h.1)
      ]

  pub erase-Entries {μ} :
      (P : K → V → Type μ) (k : K) (m : List (K × V)) → Entries P m → Entries P (erase k m)
  erase-Entries P k [] h = tt
  erase-Entries P k ((j, w) ∷ m) h =
      elim (dec j k) as (λ d. Entries P (ite d m ((j, w) ∷ erase k m))) [
        | yes e ↦ h.1
        | no ne ↦ (h.0, erase-Entries P k m h.1)
      ]

  pub lookup-Entries {μ} :
      (P : K → V → Type μ) (k : K) {v : V} (m : List (K × V))
      → Entries P m
      → lookup k m ≡ some v
      → P k v
  lookup-Entries P k [] h e = cc
  lookup-Entries P k {v} ((j, w) ∷ m) h e = elim (dec j k) [
    | yes p ↦ subst₂ P p (ground arith) h.0
    | no ne ↦ lookup-Entries P k m h.1 (ground arith)
  ]
