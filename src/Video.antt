-- ===== src/Video.antt =====
-- What is captured and sent: the camera of fubble/client/video_settings.cpp and the shared desktop of
-- fubble/client/desktop_sharing.cpp, which pauses the camera, on the common tracks_adder and
-- own_video.
pub mod Settings
pub mod Desktop
pub mod Sound
pub mod Off
pub mod Camera
pub mod Pause
pub mod Stopped
pub mod Sharing
pub mod Start
pub mod History
pub mod Exclusive
use fubble.Base.{
  ℕ, suc, Bool, true, false, String, Option, none, some, List, [], ◌∷◌, ◌==◌, if◌then◌else◌,
}
use fubble.TracksAdder.{TracksAdder, push_back, erase, add, remove}

-- A device that was opened. The sources that are captured are numbered as they are made, and the track
-- adder of a source has its number.
pub record Device : Type 0 where
  pub id : String
  pub source : ℕ

-- `video_settings`: capture_device to last_device_id; `desktop_sharing_impl`: set_capturer to
-- did_pause, where `started` is the capturer's; what they share; and the number of the next source.
pub record Video : Type 0 where
  pub capture_device : Option Device
  pub video_track_adder : Option ℕ
  pub paused : Bool
  pub last_device_id : Option String
  pub set_capturer : Option ℕ
  pub started : Bool
  pub video_adder : Option ℕ
  pub did_pause : Bool
  pub tracks_adder : TracksAdder
  pub own_videos : List ℕ
  pub created : ℕ

-- An operation returns, or an exception leaves it. `undefined`: what a null pointer is asked for, or
-- an erased `end()`.
pub data Outcome : Type 0 where
  done thrown : Video → Outcome
  undefined : Outcome

-- `a; b`.
unfoldable pub and_then : Outcome → (Video → Outcome) → Outcome
and_then (done s) f = f s
and_then (thrown s) f = thrown s
and_then undefined f = undefined

-- `tracks_adder_.add(adder)` and `remove(adder)`.
unfoldable pub add_track : ℕ → Video → Video
unfolding add
add_track adder s = record s { tracks_adder = add adder s.tracks_adder }

unfoldable pub remove_track : Option ℕ → Video → Outcome
unfolding remove
remove_track none s = undefined
remove_track (some adder) s = elim (remove adder s.tracks_adder) as (λ _. Outcome) [
  | none ↦ undefined
  | some t ↦ done (record s { tracks_adder = t })
]

-- `own_video::add` and `remove`, which does nothing for a video that is not there.
unfoldable pub add_video : ℕ → Video → Video
unfolding push_back
add_video video s = record s { own_videos = push_back s.own_videos video }

unfoldable pub remove_video : ℕ → Video → Video
unfolding erase
remove_video video s = record s {
  own_videos = elim (erase video s.own_videos) [ none ↦ s.own_videos | some l ↦ l ];
}
