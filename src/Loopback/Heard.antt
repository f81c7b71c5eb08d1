-- ===== src/Loopback/Heard.antt =====
-- When the user hears himself.
use fubble.Base.{
  ℕ, ◌≡◌, refl, Bool, true, false, Option, none, some, List, [], ◌∷◌, arith, if◌then◌else◌,
}
use fubble.Loopback.{
  Track, Loopback, Delegating, enable_impl, on_audio_track, get_enable_loopback, get_track,
  enable_loopback, on_delegate_track,
}

pub data Event : Type 0 where
  enables : Bool → Event
  brings : ℕ → Event

unfoldable pub step : Event → Delegating → Delegating
unfolding enable_loopback on_delegate_track
step (enables b) s = enable_loopback b s
step (brings id) s = on_delegate_track id s

unfoldable pub run : List Event → Delegating → Delegating
unfolding step
run [] s = s
run (e ∷ l) s = run l (step e s)

abbrev pub initial : Delegating
initial = record { delegate = none; announced = [] }

-- What was last asked for.
abbrev pub asked : List Event → Bool → Bool
asked [] b = b
asked (enables c ∷ l) b = asked l c
asked (brings _ ∷ l) b = asked l b

-- The track that came last, if it came while the loopback was asked for and has been since.
abbrev pub last_track : List Event → Bool → Option ℕ → Option ℕ
last_track [] b t = t
last_track (enables c ∷ l) b t = last_track l c (if c then t else none)
last_track (brings id ∷ l) b t = last_track l b (if b then some id else none)

abbrev pub enabled_track : Option ℕ → Option Track
enabled_track none = none
enabled_track (some id) = some (record { id = id; enabled = true })

-- The delegate that there is for a flag and a track.
abbrev pub delegate_for : Bool → Option ℕ → Option Loopback
delegate_for false t = none
delegate_for true t = some (record { audio_track = enabled_track t; enable_audio_loopback = true })

-- A track is there only when the flag is set.
abbrev pub kept : Bool → Option ℕ → Option ℕ
kept true t = t
kept false t = none

run-delegate :
    (l : List Event) (b : Bool) (t : Option ℕ) (a : List ℕ)
    → (run l (record { delegate = delegate_for b t; announced = a })).delegate
      ≡ delegate_for (asked l b) (last_track l b (kept b t))
unfolding run step enable_loopback on_delegate_track enable_impl on_audio_track get_enable_loopback
run-delegate [] true t a = refl
run-delegate [] false t a = refl
run-delegate (enables true ∷ l) true t a = run-delegate l true t a
run-delegate (enables true ∷ l) false t a = run-delegate l true none a
run-delegate (enables false ∷ l) true t a = run-delegate l false none a
run-delegate (enables false ∷ l) false t a = run-delegate l false none a
run-delegate (brings id ∷ l) true t a = run-delegate l true (some id) (id ∷ a)
run-delegate (brings id ∷ l) false t a = run-delegate l false none a

last_track-off :
    (l : List Event) (b : Bool) (t : Option ℕ)
    → asked l b ≡ false
    → (b ≡ false → t ≡ none)
    → last_track l b t ≡ none
last_track-off [] b t h n = n h
last_track-off (enables true ∷ l) b t h n =
    last_track-off l true t h (λ e. absurd (ground (arith, e)))
last_track-off (enables false ∷ l) b t h n = last_track-off l false none h (λ _. refl)
last_track-off (brings id ∷ l) true t h n =
    last_track-off l true (some id) h (λ e. absurd (ground (arith, e)))
last_track-off (brings id ∷ l) false t h n = last_track-off l false none h (λ _. refl)

track_for :
    (b : Bool) (t : Option ℕ)
    → (b ≡ false → t ≡ none)
    → (a : List ℕ)
    → let s : Delegating = record { delegate = delegate_for b t; announced = a } in
      (get_enable_loopback s ≡ b) × (get_track s ≡ enabled_track t)
unfolding get_enable_loopback get_track
track_for true t n a = (refl, refl)
track_for false t n a = (refl, rw (n refl) refl)

-- Whatever was enabled and disabled and whatever tracks came: the loopback is on exactly as it was last
-- asked for, and the user's track is the one that came last while it was on, which is enabled; there
-- is none once it was turned off.
pub run-get_track :
    (l : List Event)
    → (get_enable_loopback (run l initial) ≡ asked l false)
      × (get_track (run l initial) ≡ enabled_track (last_track l false none))
unfolding get_enable_loopback get_track
run-get_track l =
    let d = run-delegate l false none [] in
    let (a, b) =
      track_for (asked l false) (last_track l false none)
        (λ e. last_track-off l false none e (λ _. refl)) [] in
    rw (d) (a, b)
