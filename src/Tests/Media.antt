-- ===== src/Tests/Media.antt =====
-- Tracks, camera and desktop.
use fubble.Base.{ℕ, ◌≡◌, refl, Bool, true, false, String, none, some, is_some, List, [], ◌∷◌, arith}
use fubble.Base.Runs.{Holds, Fits, run}
use fubble.TracksAdder
use fubble.TracksAdder.{TracksAdder}
use fubble.TracksAdder.Attached.{IsAttached}
use fubble.TracksAdder.History as tracks
use fubble.Video.{Video, add_track, add_video, remove_track, remove_video}
use fubble.Video.Settings.{open_device}
use fubble.Video.Desktop.{set, on_paused, on_video_paused}
use fubble.Video.Sound.{On}
use fubble.Video.Stopped.{IsConsistent}
use fubble.Video.History.{
  Event, sets_up, connects, shares, unshares, pauses, disconnects, step, Needs, initial, listeners,
  run-initial-IsConsistent,
}
use fubble.Video.Exclusive.{set-IsExclusive, IsRestored, shares-unshares}

abbrev a_track_history : List tracks.Event
a_track_history =
    tracks.added 1
    ∷ tracks.connected 2
    ∷ tracks.added 3
    ∷ tracks.removed 1
    ∷ tracks.disconnected 2
    ∷ []

a_track_history-Fits : Fits tracks.step tracks.Needs a_track_history TracksAdder.initial
unfolding Fits tracks.step
a_track_history-Fits = (tt, (tt, (tt, (omega arith, (omega arith, tt)))))

run-initial-AreAttached_example :
    (t : TracksAdder) × (run tracks.step a_track_history TracksAdder.initial ≡ some t)
    × ((a c : ℕ) → IsAttached a c t)
run-initial-AreAttached_example =
    tracks.run-initial-AreAttached a_track_history a_track_history-Fits

abbrev all : String → Bool
all _ = true

abbrev a_history : List Event
a_history =
    sets_up all ("camera" ∷ [])
    ∷ connects 5
    ∷ shares all true
    ∷ unshares all
    ∷ pauses all true
    ∷ disconnects 5
    ∷ []

a_history-Fits : Fits step Needs a_history initial
unfolding Fits step on_paused on_video_paused add_track add_video remove_track remove_video
    open_device
a_history-Fits = (tt, (tt, (tt, (tt, (tt, (omega arith, tt))))))

run-initial-IsConsistent_example :
    (t : Video) × (run step a_history initial ≡ some t) × IsConsistent t
run-initial-IsConsistent_example = run-initial-IsConsistent a_history a_history-Fits

-- The camera is on, and sent to one connection.
abbrev camera_on : Video
camera_on = record {
  capture_device = some (record { id = "camera"; source = 0 });
  video_track_adder = some 0;
  paused = false;
  last_device_id = some "camera";
  set_capturer = none;
  started = false;
  video_adder = none;
  did_pause = false;
  tracks_adder = record {
    adders = 0 ∷ [];
    connections = 5 ∷ [];
    calls = TracksAdder.add_to_connection 0 5 ∷ [];
  };
  own_videos = 0 ∷ [];
  created = 1;
}

camera_on-IsConsistent : IsConsistent camera_on
unfolding IsAttached
camera_on-IsConsistent = record {
  set = record {
    camera = (refl, refl, refl);
    tracks = λ x. ground arith;
    attached = λ a c. ground arith;
    videos = refl;
  };
  capturer = refl;
}

set-IsExclusive_example :
    On
      (λ t. (is_some t.set_capturer ≡ true) × (t.capture_device ≡ none))
      (λ t. t.set_capturer ≡ none)
      (set all (listeners all) true camera_on)
set-IsExclusive_example = set-IsExclusive all true camera_on camera_on-IsConsistent refl

shares-unshares_example :
    Holds (IsRestored "camera") (run step (shares all true ∷ unshares all ∷ []) camera_on)
shares-unshares_example =
    shares-unshares all "camera" refl camera_on (record { id = "camera"; source = 0 })
      camera_on-IsConsistent refl refl refl refl
