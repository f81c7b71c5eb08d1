-- ===== src/Capture/Controls.antt =====
-- `enumerate_ctrls`: the loop over the controls of the device. What the kernel answers is a parameter:
-- to the id of a control it gives that control, and with V4L2_CTRL_FLAG_NEXT_CTRL the one after it.
use fubble.Base.{
  ℕ, suc, zero, ◌≡◌, refl, ◌∙◌, Bool, true, false, not, Option, none, some, List, [], ◌∷◌, ◌++◌,
  length, All, if◌then◌else◌,
}

pub record Control : Type 0 where
  pub id : ℕ
  pub disabled : Bool

pub data Answer : Type 0 where
  found : Control → Answer
  einval other_error : Answer

-- The ids that were inserted, newest first, whether it ended well or by an exception.
pub data Enumerated : Type 0 where
  available interrupted : List ℕ → Enumerated

-- The loop on fuel, with the id and whether the flag is set; `none` when the fuel is used up. After a
-- control that is disabled the flag is not set again.
unfoldable pub enumerate : (ℕ → Bool → Answer) → ℕ → ℕ → Bool → List ℕ → Option Enumerated
enumerate query zero id next ctrls = none
enumerate query (suc fuel) id next ctrls = elim (query id next) as (λ _. Option Enumerated) [
  | found c ↦
      enumerate query fuel c.id (not c.disabled) (if c.disabled then ctrls else c.id ∷ ctrls)
  | einval ↦ some (available ctrls)
  | other_error ↦ some (interrupted ctrls)
]

unfoldable pub enumerate_ctrls : (ℕ → Bool → Answer) → ℕ → List ℕ → Option Enumerated
unfolding enumerate
enumerate_ctrls query fuel ctrls = enumerate query fuel 0 true ctrls

-- The kernel enumerates these controls after an id.
abbrev pub Enumerates : (ℕ → Bool → Answer) → ℕ → List Control → Type 0
Enumerates query id [] = query id true ≡ einval
Enumerates query id (c ∷ l) =
    (query id true ≡ found c) × (query c.id false ≡ found c) × Enumerates query c.id l

abbrev pub ids : List Control → List ℕ → List ℕ
ids [] r = r
ids (c ∷ l) r = ids l (c.id ∷ r)

abbrev pub AreEnabled : List Control → Type 0
AreEnabled l = All (λ c. c.disabled ≡ false) l

enumerate-found :
    (query : ℕ → Bool → Answer) (fuel id : ℕ) (next : Bool) (ctrls : List ℕ) (c : Control)
    → query id next ≡ found c
    → enumerate query (suc fuel) id next ctrls
      ≡ enumerate query fuel c.id (not c.disabled) (if c.disabled then ctrls else c.id ∷ ctrls)
unfolding enumerate
enumerate-found query fuel id next ctrls c e = rw (e, enumerate)

enumerate-ids :
    (query : ℕ → Bool → Answer) (l : List Control) (id : ℕ) (ctrls : List ℕ)
    → Enumerates query id l
    → AreEnabled l
    → enumerate query (suc (length l)) id true ctrls ≡ some (available (ids l ctrls))
unfolding enumerate
enumerate-ids query [] id ctrls e h = rw (e, enumerate)
enumerate-ids query (c ∷ l) id ctrls e h =
    enumerate-found query (suc (length l)) id true ctrls c e.0
    ∙ rw (h.0) (enumerate-ids query l c.id (c.id ∷ ctrls) e.2 h.1)

-- On a device none of whose controls is disabled, one round more than there are controls is enough,
-- and every control is available.
pub enumerate_ctrls-ids :
    (query : ℕ → Bool → Answer) (l : List Control) (ctrls : List ℕ)
    → Enumerates query 0 l
    → AreEnabled l
    → enumerate_ctrls query (suc (length l)) ctrls ≡ some (available (ids l ctrls))
unfolding enumerate_ctrls
enumerate_ctrls-ids query l ctrls e h = enumerate-ids query l 0 ctrls e h

-- A disabled control, asked for again and again.
stays :
    (query : ℕ → Bool → Answer) (c : Control) (fuel : ℕ) (ctrls : List ℕ)
    → query c.id false ≡ found c
    → c.disabled ≡ true
    → enumerate query fuel c.id false ctrls ≡ none
unfolding enumerate
stays query c zero ctrls e h = refl
stays query c (suc fuel) ctrls e h = rw (e, enumerate, h) (stays query c fuel ctrls e h)

enumerate_forever :
    (query : ℕ → Bool → Answer) (l : List Control) (c : Control) (r : List Control) (fuel id : ℕ)
    (ctrls : List ℕ)
    → Enumerates query id (l ++ c ∷ r)
    → AreEnabled l
    → c.disabled ≡ true
    → enumerate query fuel id true ctrls ≡ none
unfolding enumerate
enumerate_forever query l c r zero id ctrls e h d = refl
enumerate_forever query [] c r (suc fuel) id ctrls e h d =
    rw (e.0, enumerate, d) (stays query c fuel ctrls e.1 d)
enumerate_forever query (x ∷ l) c r (suc fuel) id ctrls e h d =
    rw (e.0, enumerate, h.0) (enumerate_forever query l c r fuel x.id (x.id ∷ ctrls) e.2 h.1 d)

-- On a device with a disabled control the loop does not end, however many rounds it is given: the
-- same control is asked for again and again.
pub enumerate_ctrls_forever :
    (query : ℕ → Bool → Answer) (l : List Control) (c : Control) (r : List Control) (fuel : ℕ)
    (ctrls : List ℕ)
    → Enumerates query 0 (l ++ c ∷ r)
    → AreEnabled l
    → c.disabled ≡ true
    → enumerate_ctrls query fuel ctrls ≡ none
unfolding enumerate_ctrls
enumerate_ctrls_forever query l c r fuel ctrls e h d =
    enumerate_forever query l c r fuel 0 ctrls e h d
