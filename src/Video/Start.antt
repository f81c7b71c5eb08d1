-- ===== src/Video/Start.antt =====
-- The start of desktop sharing: the camera is off then.
use fubble.Base.{
  ℕ, suc, ◌≡◌, refl, ap, ◌∙◌, Bool, true, false, not, ◌&&◌, String, Option, none, some, is_some,
  arith, if◌then◌else◌,
}
use fubble.TracksAdder.{add}
use fubble.TracksAdder.Attached.{add-IsAttached, count-push_back}
use fubble.Video.{Device, Video, Outcome, done, and_then, add_track}
use fubble.Video.Settings.{pause}
use fubble.Video.Desktop.{
  pause_video, reset, on_video_paused, start_capturer, set_new, set, on_paused,
}
use fubble.Video.Sound.{On, and_then-On, weaken, one_of, IsCamera, IsRegistered}
use fubble.Video.Pause.{off_paused, pausing-On}
use fubble.Video.Stopped.{IsConsistent}
use fubble.Video.Sharing.{IsQuiet, IsReset, none-IsQuiet, reset-On}

-- The video is paused if the desktop is held to have paused it.
abbrev pub IsHonest : Video → Type 0
IsHonest s = (s.did_pause && not s.paused) ≡ false

-- A video that was not paused, with a device, is paused by the desktop.
abbrev pub Held : Video → Video → Type 0
Held s t =
    s.did_pause ≡ false
    → s.paused ≡ false
    → is_some s.last_device_id ≡ true
    → (t.did_pause ≡ true) × (t.paused ≡ true) × (t.last_device_id ≡ s.last_device_id)

-- The desktop's part is as it was; the camera is off, if what is held of the pause is so.
record IsReady (s t : Video) : Type 0 where
  set : IsRegistered t
  set_capturer : t.set_capturer ≡ s.set_capturer
  video_adder : t.video_adder ≡ s.video_adder
  off : IsHonest s → t.capture_device ≡ none
  held : Held s t

no_device : (s : Video) → IsRegistered s → s.last_device_id ≡ none → s.capture_device ≡ none
no_device s v = branch s.capture_device s.video_track_adder v.camera
  where
    branch :
        (c : Option Device) (o : Option ℕ)
        → IsCamera c o s.paused s.last_device_id
        → s.last_device_id ≡ none
        → c ≡ none
    branch none o w e = refl
    branch (some d) none w e = elim w [ ]
    branch (some d) (some a) w e = ground (arith, w, e)

module _ (opens : String → Bool) (n : ℕ) where
  pause_video-On :
      (s : Video)
      → IsRegistered s
      → On (IsReady s) (λ t. ⊥) (pause_video opens (on_paused (suc n) opens) s)
  unfolding pause_video on_paused on_video_paused
  pause_video-On s v = branch s.did_pause (is_some s.last_device_id) s.paused refl refl refl
    where
      as_is : (IsHonest s → s.capture_device ≡ none) → Held s s → IsReady s s
      as_is e i = record { set = v; set_capturer = refl; video_adder = refl; off = e; held = i }

      paused : Outcome
      paused =
          and_then (pause opens (on_paused (suc n) opens) true s)
            (λ t. done (record t { did_pause = true }))

      branch :
          (d l b : Bool)
          → s.did_pause ≡ d
          → is_some s.last_device_id ≡ l
          → s.paused ≡ b
          → On
              (IsReady s)
              (λ t. ⊥)
              (if d then done s else if l then if b then done s else paused else done s)
      branch true l b e f g = as_is (λ i. off_paused s v (ground arith)) (λ x y z. ground arith)
      branch false false b e f g = as_is (λ i. no_device s v (ground arith)) (λ x y z. ground arith)
      branch false true true e f g = as_is (λ i. off_paused s v g) (λ x y z. ground arith)
      branch false true false e f g =
          and_then-On (λ t. IsReady s (record t { did_pause = true })) (IsReady s) (λ t. ⊥)
            (pause opens (on_paused (suc n) opens) true s) _
            (pausing-On (λ t. IsReady s (record t { did_pause = true })) (λ t. ⊥) opens
              (on_paused (suc n) opens) s v (λ e. ground arith)
              (λ t h q o m. record {
                set = record {
                  camera = h.set.camera;
                  tracks = h.set.tracks;
                  attached = h.set.attached;
                  videos = h.set.videos;
                };
                set_capturer = h.same.set_capturer;
                video_adder = h.same.video_adder;
                off = λ i. o;
                held = λ x y z. (refl, q, m);
              }))
            (λ t h. h)

  -- The track of the new capturer is added.
  pub start_capturer-On :
      (s : Video)
      → IsQuiet s
      → On
          (λ t.
            IsConsistent t
            × (t.set_capturer ≡ some s.created)
            × (IsHonest s → t.capture_device ≡ none)
            × Held s t)
          (λ t. ⊥)
          (start_capturer opens (on_paused (suc n) opens) s.created s)
  unfolding start_capturer add_track add
  start_capturer-On s v =
      and_then-On (IsReady s') _ (λ t. ⊥) (pause_video opens (on_paused (suc n) opens) s') _
        (pause_video-On s' new)
        (λ u h. (
          record {
            set = record {
              camera = h.set.camera;
              tracks = λ x. omega (
                arith,
                count-push_back x s.created u.tracks_adder.adders,
                h.set.tracks x,
                ap (λ o. one_of x o) (h.video_adder ∙ v.video_adder),
              );
              attached = λ a c. add-IsAttached a c s.created u.tracks_adder (h.set.attached a c);
              videos = h.set.videos;
            };
            capturer = rw h.set_capturer (refl, refl);
          },
          h.set_capturer,
          h.off,
          h.held,
        ))
    where
      s' : Video
      s' = record s { set_capturer = some s.created; created = suc s.created }

      new : IsRegistered s'
      new = record {
        camera = v.sound.set.camera;
        tracks = v.sound.set.tracks;
        attached = v.sound.set.attached;
        videos = v.sound.set.videos;
      }

  -- When the capturer can be created, the desktop is shared, and the camera is off if what was held
  -- of the pause was so; else nothing is shared.
  pub set-On :
      (selectable : Bool) (s : Video)
      → IsConsistent s
      → On
          (λ t.
            IsConsistent t
            × (is_some t.set_capturer ≡ true)
            × (IsHonest s → t.capture_device ≡ none))
          IsQuiet
          (set opens (on_paused (suc n) opens) selectable s)
  unfolding set set_new
  set-On selectable s v =
      and_then-On (λ t. IsQuiet t × (IsHonest s → IsHonest t)) _ IsQuiet
        (if is_some s.set_capturer then reset opens (on_paused (suc n) opens) s else done s)
        (set_new opens (on_paused (suc n) opens) selectable) (first (is_some s.set_capturer) refl)
        (λ t h. second selectable t h.0 h.1)
    where
      first :
          (b : Bool)
          → is_some s.set_capturer ≡ b
          → On
              (λ t. IsQuiet t × (IsHonest s → IsHonest t))
              IsQuiet
              (if b then reset opens (on_paused (suc n) opens) s else done s)
      first true e =
          weaken IsReset _ IsReset IsQuiet (reset opens (on_paused (suc n) opens) s)
            (λ t h. (h.quiet, λ i. rw h.did_pause refl)) (λ t h. h.quiet) (reset-On opens n s v)
      first false e = (none-IsQuiet s v e, λ i. i)

      second :
          (b : Bool) (t : Video)
          → IsQuiet t
          → (IsHonest s → IsHonest t)
          → On
              (λ u.
                IsConsistent u
                × (is_some u.set_capturer ≡ true)
                × (IsHonest s → u.capture_device ≡ none))
              IsQuiet
              (set_new opens (on_paused (suc n) opens) b t)
      second false t h i = h
      second true t h i =
          weaken
            (λ u.
              IsConsistent u
              × (u.set_capturer ≡ some t.created)
              × (IsHonest t → u.capture_device ≡ none)
              × Held t u)
            _ (λ u. ⊥) IsQuiet (start_capturer opens (on_paused (suc n) opens) t.created t)
            (λ u w. (w.0, ap (λ o. is_some o) w.1, λ j. w.2 (i j))) (λ u w. elim w [ ])
            (start_capturer-On t h)
