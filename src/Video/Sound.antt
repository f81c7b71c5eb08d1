-- ===== src/Video/Sound.antt =====
-- What holds of the camera at every time, and that the operations of video_settings keep it.
use fubble.Base.{
  ℕ, ◌+◌, ◌≡◌, refl, ◌∙◌, Bool, false, String, Option, none, some, List, [], ◌∷◌, ◌==◌,
}
use fubble.TracksAdder.Attached.{one, count, IsAttached}
use fubble.Video.{Device, Video, Outcome, done, thrown, undefined, and_then}

-- It is defined, and the result is as the one says, or as the other after an exception.
abbrev pub On : (Video → Type 0) → (Video → Type 0) → Outcome → Type 0
On P Q (done s) = P s
On P Q (thrown s) = Q s
On P Q undefined = ⊥

pub and_then-On :
    (P P' Q : Video → Type 0) (o : Outcome) (f : Video → Outcome)
    → On P Q o
    → ((s : Video) → P s → On P' Q (f s))
    → On P' Q (and_then o f)
unfolding and_then
and_then-On P P' Q (done s) f h k = k s h
and_then-On P P' Q (thrown s) f h k = h
and_then-On P P' Q undefined f h k = h

pub weaken :
    (P P' Q Q' : Video → Type 0) (o : Outcome)
    → ((s : Video) → P s → P' s)
    → ((s : Video) → Q s → Q' s)
    → On P Q o
    → On P' Q' o
weaken P P' Q Q' (done s) f g h = f s h
weaken P P' Q Q' (thrown s) f g h = g s h
weaken P P' Q Q' undefined f g h = h

-- How often the pointer is this adder.
abbrev pub one_of : ℕ → Option ℕ → ℕ
one_of x none = 0
one_of x (some a) = one (x == a)

abbrev pub source_of : Option Device → List ℕ
source_of none = []
source_of (some d) = d.source ∷ []

-- A device that is captured has its track adder, is the last device that was chosen, and is only
-- there while the video is not paused.
abbrev pub IsCamera : Option Device → Option ℕ → Bool → Option String → Type 0
IsCamera none none paused last = Unit
IsCamera (some d) (some a) paused last = (d.source ≡ a) × (paused ≡ false) × (last ≡ some d.id)
IsCamera _ _ paused last = ⊥

-- The track adders that are registered are the camera's and the desktop's, each at every connection;
-- the own video is the camera's.
pub record IsRegistered (s : Video) : Type 0 where
  pub camera : IsCamera s.capture_device s.video_track_adder s.paused s.last_device_id
  pub tracks :
      (x : ℕ)
      → count x s.tracks_adder.adders ≡ one_of x s.video_track_adder + one_of x s.video_adder
  pub attached : (a c : ℕ) → IsAttached a c s.tracks_adder
  pub videos : s.own_videos ≡ source_of s.capture_device

-- The desktop's part is the same.
pub record IsSame (s t : Video) : Type 0 where
  pub set_capturer : t.set_capturer ≡ s.set_capturer
  pub started : t.started ≡ s.started
  pub video_adder : t.video_adder ≡ s.video_adder
  pub did_pause : t.did_pause ≡ s.did_pause

pub record Kept (s t : Video) : Type 0 where
  pub set : IsRegistered t
  pub same : IsSame s t

pub IsSame-trans : (s t u : Video) → IsSame s t → IsSame t u → IsSame s u
IsSame-trans s t u p q = record {
  set_capturer = q.set_capturer ∙ p.set_capturer;
  started = q.started ∙ p.started;
  video_adder = q.video_adder ∙ p.video_adder;
  did_pause = q.did_pause ∙ p.did_pause;
}

pub IsSame-refl : (s : Video) → IsSame s s
IsSame-refl s = record { set_capturer = refl; started = refl; video_adder = refl; did_pause = refl }
