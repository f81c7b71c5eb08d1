-- ===== src/Tests/Levels.antt =====
-- The levels of an audio source.
use fubble.Base.{ℕ, ◌+◌, ◌≡◌, refl, Bool, true, false, List, [], ◌∷◌, ◌++◌}
use fubble.AudioLevel.{Levels, Calculator}
use fubble.AudioLevel.Periods.{run, announcements, announcements-run}

-- Tenths of a level are the unit.
abbrev tenths : Levels ℕ
tenths = record { plus = λ a b. a + b; part = λ a. a; capped = λ a. a; silence = 0 }

abbrev ten_ones : List (ℕ × Bool)
ten_ones =
    (1, true)
    ∷ (1, true)
    ∷ (1, true)
    ∷ (1, true)
    ∷ (1, true)
    ∷ (1, true)
    ∷ (1, true)
    ∷ (1, true)
    ∷ (1, true)
    ∷ (1, true)
    ∷ []

-- After an announcement that left one tenth.
abbrev after_one : Calculator ℕ
after_one = record {
  audio_level_cache = 1;
  audio_level_counter = 0;
  voice_detected = false;
  calls = [];
}

-- Eleven tenths are announced.
announcements-run_example :
    let t = run tenths (ten_ones ++ (5, false) ∷ []) after_one in
    (announcements t.calls ≡ 11 ∷ []) × (t.audio_level_cache ≡ 5) × (t.audio_level_counter ≡ 0)
announcements-run_example = announcements-run tenths ten_ones (5, false) after_one refl refl
