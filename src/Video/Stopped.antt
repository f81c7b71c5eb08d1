-- ===== src/Video/Stopped.antt =====
-- The end of desktop sharing.
use fubble.Base.{ℕ, ◌≡◌, refl, ap, Bool, true, false, Option, none, some, arith, ◌==◌}
use fubble.TracksAdder.Attached.{one}
use fubble.Video.{Video, Outcome, done, remove_track}
use fubble.Video.Desktop.{reset_instance, stop_capturer, stop_or_reset, on_leave, on_captured_error}
use fubble.Video.Sound.{On, one_of, IsRegistered}
use fubble.Video.Off.{remove_track-On}

-- A capturer has its track adder and is started.
abbrev pub IsCapturer : Option ℕ → Option ℕ → Bool → Type 0
IsCapturer none none started = started ≡ false
IsCapturer (some n) (some a) started = (n ≡ a) × (started ≡ true)
IsCapturer _ _ started = ⊥

-- What holds of camera and desktop.
pub record IsConsistent (s : Video) : Type 0 where
  pub set : IsRegistered s
  pub capturer : IsCapturer s.set_capturer s.video_adder s.started

-- Nothing is shared, and the camera is as it was.
pub record IsStopped (s t : Video) : Type 0 where
  pub set : IsRegistered t
  pub set_capturer : t.set_capturer ≡ none
  pub video_adder : t.video_adder ≡ none
  pub started : t.started ≡ false
  pub did_pause : t.did_pause ≡ s.did_pause
  pub paused : t.paused ≡ s.paused
  pub last_device_id : t.last_device_id ≡ s.last_device_id
  pub capture_device : t.capture_device ≡ s.capture_device

instance_gone : Video → Video
instance_gone s = record s { started = false; set_capturer = none; video_adder = none }

removed-On :
    (a : ℕ) (s : Video)
    → IsRegistered s
    → s.video_adder ≡ some a
    → On (IsStopped s) (λ t. ⊥) (remove_track (some a) (instance_gone s))
unfolding instance_gone
removed-On a s v e =
    remove_track-On (IsStopped s) (λ t. ⊥) a (instance_gone s)
      (omega (arith, v.tracks a, ap (λ o. one_of a o) e, one_self a)) v.attached
      (λ t m k. record {
        set = record {
          camera = v.camera;
          tracks = λ x. omega (arith, v.tracks x, m x, ap (λ o. one_of x o) e);
          attached = k;
          videos = v.videos;
        };
        set_capturer = refl;
        video_adder = refl;
        started = refl;
        did_pause = refl;
        paused = refl;
        last_device_id = refl;
        capture_device = refl;
      })
  where
    one_self : (n : ℕ) → one (n == n) ≡ 1
    one_self n = ground arith

-- What ends the sharing removes its adder, or there is nothing to end.
ended-On :
    (f : Video → Outcome) (s : Video)
    → IsRegistered s
    → IsCapturer s.set_capturer s.video_adder s.started
    → (s.set_capturer ≡ none → s.started ≡ false → f s ≡ done s)
    → ((n a : ℕ)
        → s.set_capturer ≡ some n
        → s.video_adder ≡ some a
        → s.started ≡ true
        → f s ≡ remove_track (some a) (instance_gone s))
    → On (IsStopped s) (λ t. ⊥) (f s)
ended-On f s v c idle busy = branch s.set_capturer s.video_adder refl refl c
  where
    branch :
        (n a : Option ℕ)
        → s.set_capturer ≡ n
        → s.video_adder ≡ a
        → IsCapturer n a s.started
        → On (IsStopped s) (λ t. ⊥) (f s)
    branch none none d e c = rw (idle d c) (record {
      set = v;
      set_capturer = d;
      video_adder = e;
      started = c;
      did_pause = refl;
      paused = refl;
      last_device_id = refl;
      capture_device = refl;
    })
    branch none (some a) d e c = elim c [ ]
    branch (some n) none d e c = elim c [ ]
    branch (some n) (some a) d e c = rw (busy n a d e c.1) (removed-On a s v e)

module _ (s : Video) (v : IsRegistered s)
    (c : IsCapturer s.set_capturer s.video_adder s.started) where
  pub stop_or_reset-On : On (IsStopped s) (λ t. ⊥) (stop_or_reset s)
  unfolding stop_or_reset stop_capturer reset_instance instance_gone
  stop_or_reset-On =
      ended-On stop_or_reset s v c (λ d e. rw (d, e) refl) (λ n a d e b. rw (d, e, b) refl)

  pub on_leave-On : On (IsStopped s) (λ t. ⊥) (on_leave s)
  unfolding on_leave stop_or_reset stop_capturer reset_instance instance_gone
  on_leave-On = ended-On on_leave s v c (λ d e. rw (d, e) refl) (λ n a d e b. rw (d, e, b) refl)

  pub on_captured_error-On : On (IsStopped s) (λ t. ⊥) (on_captured_error s)
  unfolding on_captured_error stop_capturer reset_instance instance_gone
  on_captured_error-On =
      ended-On on_captured_error s v c (λ d e. rw (d, e) refl) (λ n a d e b. rw (d, e, b) refl)
