-- ===== src/AudioLevel/Periods.antt =====
-- How often levels are announced, and of how many values.
use Prim.Native.Nat.{◌/◌}
use fubble.Base.{
  ℕ, suc, ◌+◌, ◌*◌, ◌≤◌, ◌≡◌, refl, ap, ◌∙◌, Bool, false, List, [], ◌∷◌, ◌++◌, length, arith,
}
use fubble.AudioLevel.{
  Levels, Call, on_sound_level_30times_a_second, on_voice_detected, Calculator, announce, collect,
  calculate_30times_a_second, calculate_voice_detection, on_data,
}

abbrev pub announced {ℓ} : {Level : Type ℓ} → List (Call Level) → ℕ
announced [] = 0
announced (on_sound_level_30times_a_second _ ∷ l) = suc (announced l)
announced (on_voice_detected _ ∷ l) = announced l

-- The levels that were announced, the newest first.
abbrev pub announcements {ℓ} : {Level : Type ℓ} → List (Call Level) → List Level
announcements [] = []
announcements (on_sound_level_30times_a_second v ∷ l) = v ∷ announcements l
announcements (on_voice_detected _ ∷ l) = announcements l

module _ {ℓ} {Level : Type ℓ} (levels : Levels Level) where
  unfoldable pub run : List (Level × Bool) → Calculator Level → Calculator Level
  unfolding on_data
  run [] s = s
  run (d ∷ l) s = run l (on_data levels d.0 d.1 s)

  abbrev pub initial : Calculator Level
  initial = record {
    audio_level_cache = levels.silence;
    audio_level_counter = 0;
    voice_detected = false;
    calls = [];
  }

  -- The buffers that were counted.
  abbrev pub counted : Calculator Level → ℕ
  counted s = 11 * announced s.calls + s.audio_level_counter

  on_data-counted :
      (level : Level) (check : Bool) (s : Calculator Level)
      → s.audio_level_counter ≤ 10
      → (counted (on_data levels level check s) ≡ suc (counted s))
        × ((on_data levels level check s).audio_level_counter ≤ 10)
  unfolding on_data calculate_30times_a_second calculate_voice_detection announce collect
  on_data-counted level check s h = ground arith

  run-counted :
      (l : List (Level × Bool)) (s : Calculator Level)
      → s.audio_level_counter ≤ 10
      → (counted (run l s) ≡ length l + counted s) × ((run l s).audio_level_counter ≤ 10)
  unfolding run
  run-counted [] s h = (omega arith, h)
  run-counted (d ∷ l) s h =
      let (a, b) = on_data-counted d.0 d.1 s h in
      let (c, e) = run-counted l (on_data levels d.0 d.1 s) b in (omega (arith, a, c), e)

  -- A tenth of each level, added to what there was.
  abbrev pub summed : List (Level × Bool) → Level → Level
  summed [] c = c
  summed (d ∷ l) c = summed l (levels.plus c (levels.part d.0))

  on_data-quiet :
      (level : Level) (check : Bool) (s : Calculator Level)
      → s.audio_level_counter + 1 ≤ 10
      → let t = on_data levels level check s in
        (t.audio_level_cache ≡ levels.plus s.audio_level_cache (levels.part level))
        × (t.audio_level_counter ≡ s.audio_level_counter + 1)
        × (announcements t.calls ≡ announcements s.calls)
  unfolding on_data calculate_30times_a_second calculate_voice_detection announce collect
  on_data-quiet level check s h = ground arith

  on_data-announces :
      (level : Level) (check : Bool) (s : Calculator Level)
      → s.audio_level_counter ≡ 10
      → let t = on_data levels level check s in
        (announcements t.calls ≡ levels.capped s.audio_level_cache ∷ announcements s.calls)
        × (t.audio_level_cache ≡ levels.plus levels.silence (levels.part level))
        × (t.audio_level_counter ≡ 0)
  unfolding on_data calculate_30times_a_second calculate_voice_detection announce collect
  on_data-announces level check s h = ground arith

  -- Until eleven buffers are counted, nothing is announced.
  run-summed :
      (l : List (Level × Bool)) (s : Calculator Level)
      → s.audio_level_counter + length l ≤ 10
      → ((run l s).audio_level_cache ≡ summed l s.audio_level_cache)
        × ((run l s).audio_level_counter ≡ s.audio_level_counter + length l)
        × (announcements (run l s).calls ≡ announcements s.calls)
  unfolding run
  run-summed [] s h = (refl, omega arith, refl)
  run-summed (d ∷ l) s h =
      let (a, b, c) = on_data-quiet d.0 d.1 s (omega (arith, h)) in
      let (e, f, g) = run-summed l (on_data levels d.0 d.1 s) (omega (arith, h, b)) in
      (e ∙ ap (λ x. summed l x) a, omega (arith, b, f), g ∙ c)

  run-append : (l r : List (Level × Bool)) (s : Calculator Level) → run (l ++ r) s ≡ run r (run l s)
  unfolding run
  run-append [] r s = refl
  run-append (d ∷ l) r s = run-append l r (on_data levels d.0 d.1 s)

-- After an announcement, the next one comes with the eleventh buffer and sums up what was left, which
-- is a tenth of the buffer that came with the last announcement, and ten buffers more.
pub announcements-run {ℓ} :
    {Level : Type ℓ} (levels : Levels Level) (l : List (Level × Bool)) (d : Level × Bool)
    (s : Calculator Level)
    → s.audio_level_counter ≡ 0
    → length l ≡ 10
    → let t = run levels (l ++ d ∷ []) s in
      (announcements t.calls
        ≡ levels.capped (summed levels l s.audio_level_cache) ∷ announcements s.calls)
      × (t.audio_level_cache ≡ levels.plus levels.silence (levels.part d.0))
      × (t.audio_level_counter ≡ 0)
unfolding run
announcements-run levels l d s h n =
    let (a, b, c) = run-summed levels l s (omega (arith, h, n)) in
    let (e, f, g) = on_data-announces levels d.0 d.1 (run levels l s) (omega (arith, b, h, n)) in
    rw (run-append levels l (d ∷ []) s) (
      e
          ∙ ap (λ x. levels.capped x ∷ announcements (run levels l s).calls) a
          ∙ ap (λ x. levels.capped (summed levels l s.audio_level_cache) ∷ x) c,
      f,
      g,
    )

-- After any buffers, a level has been announced for every eleven of them, not for every ten.
announced-run {ℓ} :
    {Level : Type ℓ} (levels : Levels Level) (l : List (Level × Bool))
    → announced (run levels l (initial levels)).calls ≡ length l / 11
announced-run levels l =
    let (c, h) = run-counted levels l (initial levels) (omega arith) in omega (arith, c, h)
