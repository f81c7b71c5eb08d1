-- ===== src/Video/History.antt =====
-- The histories of camera and desktop.
use fubble.Base.{
  ℕ, ◌<◌, ◌≡◌, refl, ap, ◌∙◌, Bool, true, false, String, Option, none, some, List, [],
}
use fubble.Base.Runs.{Holds, Fits, run, run-Fits}
use fubble.TracksAdder.{TracksAdder, add_connection, remove_connection}
use fubble.TracksAdder.Attached.{count, IsAttached, add_connection-IsAttached}
use fubble.TracksAdder.Removed.{remove_connection-Holds}
use fubble.Video.{Video, Outcome, done, thrown, undefined}
use fubble.Video.Settings.{change_to_device, pause, on_video_devices_changed, setup_initial_device}
use fubble.Video.Desktop.{on_leave, on_captured_error, reset, on_video_paused, set, on_paused}
use fubble.Video.Sound.{On, weaken, Kept}
use fubble.Video.Camera.{Changed, on_video_devices_changed-On, change_to_device-On}
use fubble.Video.Pause.{setup_initial_device-On, pausing-On, unpausing-On}
use fubble.Video.Stopped.{IsConsistent, IsStopped, on_leave-On, on_captured_error-On}
use fubble.Video.Sharing.{IsQuiet, IsReset, unpaused-On, reset-On}
use fubble.Video.Start.{set-On}

-- The user pauses the video or ends the pause, chooses a device, shares a source or stops sharing; the
-- devices change, or the first one that can be opened is chosen; the user leaves; the capturer fails; an rtc connection comes or goes. Which devices
-- can be opened may be different every time.
pub data Event : Type 0 where
  pauses : (String → Bool) → Bool → Event
  chooses : (String → Bool) → String → Event
  devices : List String → Event
  sets_up : (String → Bool) → List String → Event
  shares : (String → Bool) → Bool → Event
  unshares : (String → Bool) → Event
  leaves fails : Event
  connects disconnects : ℕ → Event

-- The caller catches an exception.
abbrev pub caught : Outcome → Option Video
caught (done s) = some s
caught (thrown s) = some s
caught undefined = none

abbrev pub with_tracks : Video → Option TracksAdder → Option Video
with_tracks s none = none
with_tracks s (some t) = some (record s { tracks_adder = t })

-- One level of the signal is enough.
abbrev pub listeners : (String → Bool) → Bool → Video → Outcome
listeners opens = on_paused 1 opens

unfoldable pub step : Event → Video → Option Video
unfolding pause change_to_device setup_initial_device on_video_devices_changed set reset on_leave
    on_captured_error add_connection remove_connection
step (pauses opens b) s = caught (pause opens (listeners opens) b s)
step (chooses opens id) s = caught (change_to_device opens id s)
step (devices l) s = caught (on_video_devices_changed l s)
step (sets_up opens l) s = caught (setup_initial_device opens l s)
step (shares opens selectable) s = caught (set opens (listeners opens) selectable s)
step (unshares opens) s = caught (reset opens (listeners opens) s)
step leaves s = caught (on_leave s)
step fails s = caught (on_captured_error s)
step (connects c) s = with_tracks s (some (add_connection c s.tracks_adder))
step (disconnects c) s = with_tracks s (remove_connection c s.tracks_adder)

-- A connection that goes is there.
abbrev pub Needs : Event → Video → Type 0
Needs (disconnects c) s = 0 < count c s.tracks_adder.connections
Needs _ s = Unit

pub caught-Holds : (P : Video → Type 0) (o : Outcome) → On P P o → Holds P (caught o)
caught-Holds P (done s) h = h
caught-Holds P (thrown s) h = h
caught-Holds P undefined h = h

Kept-IsConsistent : (s t : Video) → IsConsistent s → Kept s t → IsConsistent t
Kept-IsConsistent s t v h = record {
  set = h.set;
  capturer = rw (h.same.set_capturer, h.same.video_adder, h.same.started) v.capturer;
}

Changed-IsConsistent : (s t : Video) → IsConsistent s → Changed s t → IsConsistent t
Changed-IsConsistent s t v h = Kept-IsConsistent s t v h.kept

stopped-IsConsistent : (s t : Video) → IsConsistent s → IsStopped s t → IsConsistent t
stopped-IsConsistent s t v h = record {
  set = h.set;
  capturer = rw (h.set_capturer, h.video_adder) h.started;
}

pause-IsConsistent :
    (opens : String → Bool) (b : Bool) (s : Video)
    → IsConsistent s
    → On IsConsistent IsConsistent (pause opens (listeners opens) b s)
unfolding on_paused on_video_paused
pause-IsConsistent opens true s v =
    pausing-On IsConsistent IsConsistent opens (listeners opens) s v.set (λ e. v)
      (λ t h q o m. Kept-IsConsistent s t v h)
pause-IsConsistent opens false s v =
    unpausing-On IsConsistent IsConsistent opens (listeners opens) s v.set (λ e. v)
      (λ e h. Kept-IsConsistent s _ v h) (λ t h q. Kept-IsConsistent s t v h)
      (λ t h q.
        weaken IsReset IsConsistent (λ u. ⊥) IsConsistent (listeners opens false t)
          (λ u w. w.quiet.sound) (λ u w. elim w [ ])
          (unpaused-On opens 0 t h.set (Kept-IsConsistent s t v h).capturer))

step-IsConsistent :
    (e : Event) (s : Video) → Needs e s → IsConsistent s → Holds IsConsistent (step e s)
unfolding step
step-IsConsistent (pauses opens b) s n v =
    caught-Holds IsConsistent _ (pause-IsConsistent opens b s v)
step-IsConsistent (chooses opens id) s n v = caught-Holds IsConsistent _ (
    weaken (Changed s) IsConsistent (Changed s) IsConsistent (change_to_device opens id s)
      (λ t. Changed-IsConsistent s t v) (λ t. Changed-IsConsistent s t v)
      (change_to_device-On opens id s v.set))
step-IsConsistent (devices l) s n v = caught-Holds IsConsistent _ (
    weaken (Changed s) IsConsistent (λ t. ⊥) IsConsistent (on_video_devices_changed l s)
      (λ t. Changed-IsConsistent s t v) (λ t h. elim h [ ]) (on_video_devices_changed-On l s v.set))
step-IsConsistent (sets_up opens l) s n v = caught-Holds IsConsistent _ (
    weaken (Changed s) IsConsistent (λ t. ⊥) IsConsistent (setup_initial_device opens l s)
      (λ t. Changed-IsConsistent s t v) (λ t h. elim h [ ])
      (setup_initial_device-On opens l s v.set))
step-IsConsistent (shares opens selectable) s n v = caught-Holds IsConsistent _ (
    weaken _ IsConsistent IsQuiet IsConsistent (set opens (listeners opens) selectable s)
      (λ t h. h.0) (λ t h. h.sound) (set-On opens 0 selectable s v))
step-IsConsistent (unshares opens) s n v = caught-Holds IsConsistent _ (
    weaken IsReset IsConsistent IsReset IsConsistent (reset opens (listeners opens) s)
      (λ t h. h.quiet.sound) (λ t h. h.quiet.sound) (reset-On opens 0 s v))
step-IsConsistent leaves s n v = caught-Holds IsConsistent _ (
    weaken (IsStopped s) IsConsistent (λ t. ⊥) IsConsistent (on_leave s)
      (λ t. stopped-IsConsistent s t v) (λ t h. elim h [ ]) (on_leave-On s v.set v.capturer))
step-IsConsistent fails s n v = caught-Holds IsConsistent _ (
    weaken (IsStopped s) IsConsistent (λ t. ⊥) IsConsistent (on_captured_error s)
      (λ t. stopped-IsConsistent s t v) (λ t h. elim h [ ])
      (on_captured_error-On s v.set v.capturer))
step-IsConsistent (connects c) s n v = record {
  set = record {
    camera = v.set.camera;
    tracks = v.set.tracks;
    attached = λ a d. add_connection-IsAttached a d c s.tracks_adder (v.set.attached a d);
    videos = v.set.videos;
  };
  capturer = v.capturer;
}
step-IsConsistent (disconnects c) s n v =
    branch (remove_connection c s.tracks_adder)
      (remove_connection-Holds c s.tracks_adder n v.set.attached)
  where
    branch :
        (o : Option TracksAdder)
        → Holds (λ t. (t.adders ≡ s.tracks_adder.adders) × ((a d : ℕ) → IsAttached a d t)) o
        → Holds IsConsistent (with_tracks s o)
    branch none h = h
    branch (some t) h = record {
      set = record {
        camera = v.set.camera;
        tracks = λ x. ap (λ l. count x l) h.0 ∙ v.set.tracks x;
        attached = h.1;
        videos = v.set.videos;
      };
      capturer = v.capturer;
    }

abbrev pub initial : Video
initial = record {
  capture_device = none;
  video_track_adder = none;
  paused = false;
  last_device_id = none;
  set_capturer = none;
  started = false;
  video_adder = none;
  did_pause = false;
  tracks_adder = record { adders = []; connections = []; calls = [] };
  own_videos = [];
  created = 0;
}

-- After any history in which only connections that are there are removed, whatever devices could be
-- opened and sources be shared: no null pointer is asked and nothing is erased that is not there; an
-- open device is the one chosen last and the video is not paused; a capturer is started; exactly the
-- tracks of the open device and of the capturer are registered, each at every connection; and the own
-- video is that of the open device.
pub run-initial-IsConsistent :
    (es : List Event)
    → Fits step Needs es initial
    → (t : Video) × (run step es initial ≡ some t) × IsConsistent t
unfolding IsAttached
run-initial-IsConsistent es p =
    run-Fits step Needs IsConsistent step-IsConsistent es initial p (record {
      set = record { camera = tt; tracks = λ x. refl; attached = λ a c. refl; videos = refl };
      capturer = refl;
    })
