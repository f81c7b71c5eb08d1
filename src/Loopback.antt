-- ===== src/Loopback.antt =====
-- fubble/client/loopback_audio.cpp: the user's own sound, sent over a connection to oneself, on
-- demand. The track that the connection brings is a number, with whether it is enabled. The
-- factory is loopback_audio_impl_factory; the negotiation between the two ends is left out.
pub mod Heard
use fubble.Base.{ℕ, Bool, true, false, not, if◌then◌else◌, ◌∷◌, Option, none, some, List}

pub record Track : Type 0 where
  pub id : ℕ
  pub enabled : Bool

-- `loopback_audio_impl`.
pub record Loopback : Type 0 where
  pub audio_track : Option Track
  pub enable_audio_loopback : Bool

abbrev pub set_enabled : Bool → Option Track → Option Track
set_enabled b none = none
set_enabled b (some t) = some (record t { enabled = b })

abbrev pub same_flag : Bool → Bool → Bool
same_flag true b = b
same_flag false b = not b

unfoldable pub enable_impl : Bool → Loopback → Loopback
enable_impl enable s =
    if same_flag s.enable_audio_loopback enable
    then s
    else record { audio_track = set_enabled enable s.audio_track; enable_audio_loopback = enable }

unfoldable pub on_audio_track : ℕ → Loopback → Loopback
on_audio_track id s = record s {
  audio_track = some (record { id = id; enabled = s.enable_audio_loopback });
}

-- A new `loopback_audio_impl`.
abbrev pub created : Loopback
created = record { audio_track = none; enable_audio_loopback = false }

-- `loopback_audio_noop_if_disabled`, and the tracks that it has announced by `on_track`.
pub record Delegating : Type 0 where
  pub delegate : Option Loopback
  pub announced : List ℕ

unfoldable pub get_enable_loopback : Delegating → Bool
get_enable_loopback s = elim s.delegate as (λ _. Bool) [ none ↦ false | some _ ↦ true ]

unfoldable pub get_track : Delegating → Option Track
get_track s = elim s.delegate as (λ _. Option Track) [ none ↦ none | some d ↦ d.audio_track ]

unfoldable pub enable_loopback : Bool → Delegating → Delegating
unfolding get_enable_loopback enable_impl
enable_loopback enable s =
    if same_flag (get_enable_loopback s) enable
    then s
    else record s { delegate = if not enable then none else some (enable_impl enable created) }

-- A track of the connection; it comes only while there is one.
unfoldable pub on_delegate_track : ℕ → Delegating → Delegating
unfolding on_audio_track
on_delegate_track id s = elim s.delegate as (λ _. Delegating) [
  | none ↦ s
  | some d ↦ record { delegate = some (on_audio_track id d); announced = id ∷ s.announced }
]
