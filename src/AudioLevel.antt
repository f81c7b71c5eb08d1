-- ===== src/AudioLevel.antt =====
-- fubble/client/audio_level_calculator.cpp: the levels of an audio source, announced now and then,
-- and whether a voice is heard. Floating point numbers are values of any type with the operations
-- that are used; the level of a buffer and the voice detection come with it.
pub mod Periods
use fubble.Base.{ℕ, suc, Bool, true, false, List, [], ◌∷◌, ltb, if◌then◌else◌}

-- `a + b`, `a / 10.`, `std::min(1.0, a)` and `0.`.
pub record Levels {ℓ} (Level : Type ℓ) : Type ℓ where
  pub plus : Level → Level → Level
  pub part : Level → Level
  pub capped : Level → Level
  pub silence : Level

-- What is submitted to the main thread.
pub data Call {ℓ} (Level : Type ℓ) : Type ℓ where
  on_sound_level_30times_a_second : Level → Call Level
  on_voice_detected : Bool → Call Level

pub record Calculator {ℓ} (Level : Type ℓ) : Type ℓ where
  pub audio_level_cache : Level
  pub audio_level_counter : ℕ
  pub voice_detected : Bool
  pub calls : List (Call Level)

abbrev pub audio_level_values_to_collect : ℕ
audio_level_values_to_collect = 10

module _ {ℓ} {Level : Type ℓ} (levels : Levels Level) where
  unfoldable pub announce : Calculator Level → Calculator Level
  announce s = record s {
    audio_level_cache = levels.silence;
    audio_level_counter = 0;
    calls = on_sound_level_30times_a_second (levels.capped s.audio_level_cache) ∷ s.calls;
  }

  unfoldable pub collect : Level → Calculator Level → Calculator Level
  collect level s = record s {
    audio_level_cache = levels.plus s.audio_level_cache (levels.part level);
  }

  unfoldable pub calculate_30times_a_second : Level → Calculator Level → Calculator Level
  unfolding announce collect
  calculate_30times_a_second level s =
      let s' : Calculator Level = record s { audio_level_counter = suc s.audio_level_counter } in
      collect level
        (if ltb audio_level_values_to_collect s'.audio_level_counter then announce s' else s')

  unfoldable pub calculate_voice_detection : Bool → Calculator Level → Calculator Level
  calculate_voice_detection check s =
      if check
      then if s.voice_detected
        then s
        else record s { voice_detected = true; calls = on_voice_detected true ∷ s.calls }
      else if s.voice_detected
      then record s { voice_detected = false; calls = on_voice_detected false ∷ s.calls }
      else s

  -- A buffer, with its average level and whether a voice is detected in it.
  unfoldable pub on_data : Level → Bool → Calculator Level → Calculator Level
  unfolding calculate_30times_a_second calculate_voice_detection
  on_data level check s = calculate_voice_detection check (calculate_30times_a_second level s)
