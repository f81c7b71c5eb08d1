-- ===== src/Tests/Camera.antt =====
-- The camera that encodes.
use fubble.Base.{ℕ, zero, suc, ◌≡◌, refl, Bool, true, false, none, some, [], ◌∷◌, arith}
use fubble.Capture.{Device, Reader, initialise}
use fubble.Base.Runs.{Holds}
use fubble.Capture.Lifetime.{IsGood, IsClosedAgain, initialise-stop_lem}
use fubble.Capture.Controls.{
  Control, Answer, found, einval, available, enumerate_ctrls, enumerate_ctrls-ids,
  enumerate_ctrls_forever,
}

-- A kernel with two controls, of which the second may be disabled.
abbrev brightness : Control
brightness = record { id = 1; disabled = false }

abbrev hue : Bool → Control
hue disabled = record { id = 2; disabled = disabled }

abbrev query : Bool → ℕ → Bool → Answer
query d zero true = found brightness
query d zero false = einval
query d (suc zero) true = found (hue d)
query d (suc zero) false = found brightness
query d (suc (suc n)) true = einval
query d (suc (suc n)) false = found (hue d)

abbrev a_device : Device
a_device = record {
  answer = λ c b n. true;
  is_character = true;
  captures = true;
  streams = true;
  count = 4;
  query = query false;
}

a_device-IsGood : IsGood a_device
a_device-IsGood = record {
  answers = λ c b n. refl;
  character = refl;
  captures = refl;
  streams = refl;
  enough = omega arith;
}

abbrev closed : Reader
closed = record { fd = false; buffers = 0; run = false; ctrls = []; calls = [] }

initialise-stop_lem_example :
    Holds (IsClosedAgain a_device closed) (initialise a_device 3 1000 closed)
initialise-stop_lem_example =
    initialise-stop_lem a_device a_device-IsGood (brightness ∷ hue false ∷ [])
      (refl, refl, (refl, refl, refl)) (refl, (refl, tt)) 1000 closed refl

enumerate_ctrls-ids_example : enumerate_ctrls (query false) 3 [] ≡ some (available (2 ∷ 1 ∷ []))
enumerate_ctrls-ids_example =
    enumerate_ctrls-ids (query false) (brightness ∷ hue false ∷ []) []
      (refl, refl, (refl, refl, refl)) (refl, (refl, tt))

enumerate_ctrls_forever_example : enumerate_ctrls (query true) 1000 [] ≡ none
enumerate_ctrls_forever_example =
    enumerate_ctrls_forever (query true) (brightness ∷ []) (hue true) [] 1000 []
      (refl, refl, (refl, refl, refl)) (refl, tt) refl
