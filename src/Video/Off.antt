-- ===== src/Video/Off.antt =====
-- The camera is turned off, and a device is opened.
use fubble.Base.{ℕ, ◌+◌, ◌<◌, ◌≡◌, refl, ap, Bool, false, String, Option, none, some, arith, ◌==◌}
use fubble.Base.Runs.{Holds}
use fubble.TracksAdder.{TracksAdder, push_back, erase, add, remove}
use fubble.TracksAdder.Attached.{one, count, IsAttached, add-IsAttached, count-push_back}
use fubble.TracksAdder.Removed.{remove-Holds}
use fubble.Video.{
  Device, Video, Outcome, done, undefined, and_then, add_track, remove_track, add_video,
  remove_video,
}
use fubble.Video.Settings.{reset_current_video_capture, open_device}
use fubble.Video.Sound.{On, and_then-On, one_of, source_of, IsCamera, IsRegistered, Kept}

-- A registered adder is removed; the rest is as it was.
pub remove_track-On :
    (P Q : Video → Type 0) (a : ℕ) (s : Video)
    → 0 < count a s.tracks_adder.adders
    → ((x c : ℕ) → IsAttached x c s.tracks_adder)
    → ((t : TracksAdder)
        → ((x : ℕ) → count x s.tracks_adder.adders ≡ one (x == a) + count x t.adders)
        → ((x c : ℕ) → IsAttached x c t)
        → P (record s { tracks_adder = t }))
    → On P Q (remove_track (some a) s)
unfolding remove_track
remove_track-On P Q a s h v k = branch (remove a s.tracks_adder) (remove-Holds a s.tracks_adder h v)
  where
    branch :
        (o : Option TracksAdder)
        → Holds
            (λ t.
              ((x : ℕ) → count x s.tracks_adder.adders ≡ one (x == a) + count x t.adders)
              × ((x c : ℕ) → IsAttached x c t))
            o
        → On P Q (elim o as (λ _. Outcome) [
          | none ↦ undefined
          | some t ↦ done (record s { tracks_adder = t })
        ])
    branch none w = w
    branch (some t) w = k t w.0 w.1

-- The camera is off, and the rest is as it was.
pub record IsOff (s t : Video) : Type 0 where
  pub kept : Kept s t
  pub off : t.capture_device ≡ none
  pub paused : t.paused ≡ s.paused
  pub last_device_id : t.last_device_id ≡ s.last_device_id

turned_off : Device → Video → Video
turned_off d t = record (remove_video d.source t) {
  video_track_adder = none;
  capture_device = none;
}

-- The pause may have begun already.
pub reset_current_video_capture-On :
    (p : Bool) (s : Video)
    → IsRegistered s
    → On
        (IsOff (record s { paused = p }))
        (λ t. ⊥)
        (reset_current_video_capture (record s { paused = p }))
unfolding reset_current_video_capture remove_video erase and_then turned_off
reset_current_video_capture-On p s v =
    branch s.capture_device s.video_track_adder v.camera v.tracks v.videos
  where
    branch :
        (c : Option Device) (o : Option ℕ)
        → IsCamera c o s.paused s.last_device_id
        → ((x : ℕ) → count x s.tracks_adder.adders ≡ one_of x o + one_of x s.video_adder)
        → s.own_videos ≡ source_of c
        → On
            (IsOff (record s { paused = p }))
            (λ t. ⊥)
            (reset_current_video_capture
              (record s { paused = p; capture_device = c; video_track_adder = o }))
    branch none none w n e = record {
      kept = record {
        set = record { camera = tt; tracks = n; attached = v.attached; videos = e };
        same = record { set_capturer = refl; started = refl; video_adder = refl; did_pause = refl };
      };
      off = refl;
      paused = refl;
      last_device_id = refl;
    }
    branch none (some a) w n e = elim w [ ]
    branch (some d) none w n e = elim w [ ]
    branch (some d) (some a) w n e =
        let s' : Video = record s {
          paused = p;
          capture_device = some d;
          video_track_adder = some a;
        } in
        and_then-On (λ t. IsOff (record s { paused = p }) (turned_off d t))
          (IsOff (record s { paused = p })) (λ t. ⊥) (remove_track (some a) s') _
          (remove_track-On (λ t. IsOff (record s { paused = p }) (turned_off d t)) (λ t. ⊥) a s'
            (ground (arith, n a)) v.attached
            (λ t m k. record {
              kept = record {
                set = record {
                  camera = tt;
                  tracks = λ x. omega (arith, m x, n x);
                  attached = k;
                  videos = ground (arith, e);
                };
                same = record {
                  set_capturer = refl;
                  started = refl;
                  video_adder = refl;
                  did_pause = refl;
                };
              };
              off = refl;
              paused = refl;
              last_device_id = refl;
            }))
          (λ t h. h)

no_adder : (s : Video) → IsRegistered s → s.capture_device ≡ none → s.video_track_adder ≡ none
no_adder s v = branch s.capture_device s.video_track_adder v.camera
  where
    branch :
        (c : Option Device) (o : Option ℕ)
        → IsCamera c o s.paused s.last_device_id
        → c ≡ none
        → o ≡ none
    branch none none w e = refl
    branch none (some a) w e = elim w [ ]
    branch (some d) o w e = ground arith

-- With the camera off, any device may be the last one, and the video may be paused or not.
pub rename-Kept :
    (paused : Bool) (last : Option String) (s : Video)
    → IsRegistered s
    → s.capture_device ≡ none
    → Kept s (record s { paused = paused; last_device_id = last })
rename-Kept paused last s v e = record {
  set = record {
    camera = rw (e, no_adder s v e) tt;
    tracks = v.tracks;
    attached = v.attached;
    videos = v.videos;
  };
  same = record { set_capturer = refl; started = refl; video_adder = refl; did_pause = refl };
}

pub open_device-Kept :
    (id : String) (s : Video)
    → IsRegistered s
    → s.capture_device ≡ none
    → s.paused ≡ false
    → s.last_device_id ≡ some id
    → Kept s (open_device id s)
unfolding open_device add_track add_video add push_back
open_device-Kept id s v e p l = record {
  set = record {
    camera = (refl, p, l);
    tracks = λ x. omega (
      arith,
      count-push_back x s.created s.tracks_adder.adders,
      v.tracks x,
      ap (λ o. one_of x o) (no_adder s v e),
    );
    attached = λ a c. add-IsAttached a c s.created s.tracks_adder (v.attached a c);
    videos = rw (v.videos, e) refl;
  };
  same = record { set_capturer = refl; started = refl; video_adder = refl; did_pause = refl };
}
