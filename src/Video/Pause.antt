-- ===== src/Video/Pause.antt =====
-- The pause of the video keeps what holds of the camera.
use fubble.Base.{
  ℕ, ◌≡◌, refl, Bool, true, false, String, Option, none, some, List, [], ◌∷◌, arith, if◌then◌else◌,
}
use fubble.Video.{Device, Video, Outcome, done, thrown, undefined, and_then}
use fubble.Video.Settings.{
  reset_current_video_capture, change_to_device, pause, setup_initial_device,
}
use fubble.Video.Sound.{On, and_then-On, weaken, IsCamera, IsRegistered, Kept, IsSame-refl}
use fubble.Video.Off.{IsOff, reset_current_video_capture-On, rename-Kept}
use fubble.Video.Camera.{Changed, Kept-trans, Changed-trans, change_to_device-On}

pub on_camera :
    (s : Video) (d : Device)
    → IsRegistered s
    → s.capture_device ≡ some d
    → (s.paused ≡ false) × (s.last_device_id ≡ some d.id)
on_camera s d v = branch s.capture_device s.video_track_adder v.camera
  where
    branch :
        (c : Option Device) (o : Option ℕ)
        → IsCamera c o s.paused s.last_device_id
        → c ≡ some d
        → (s.paused ≡ false) × (s.last_device_id ≡ some d.id)
    branch none o w e = ground arith
    branch (some d') none w e = elim w [ ]
    branch (some d') (some a) w e = ground (arith, w, e)

pub off_paused : (s : Video) → IsRegistered s → s.paused ≡ true → s.capture_device ≡ none
off_paused s v = branch s.capture_device s.video_track_adder v.camera
  where
    branch :
        (c : Option Device) (o : Option ℕ)
        → IsCamera c o s.paused s.last_device_id
        → s.paused ≡ true
        → c ≡ none
    branch none o w e = refl
    branch (some d) none w e = elim w [ ]
    branch (some d) (some a) w e = ground (arith, w, e)

pub pausing-On :
    (R Q : Video → Type 0) (opens : String → Bool) (l : Bool → Video → Outcome) (s : Video)
    → IsRegistered s
    → (s.paused ≡ true → R s)
    → ((t : Video)
        → Kept s t
        → t.paused ≡ true
        → t.capture_device ≡ none
        → t.last_device_id ≡ s.last_device_id
        → On R Q (l true t))
    → On R Q (pause opens l true s)
unfolding pause
pausing-On R Q opens l s v r k = branch s.paused refl
  where
    branch :
        (p : Bool)
        → s.paused ≡ p
        → On R Q (
            if p
            then done s
            else and_then (reset_current_video_capture (record s { paused = true })) (l true))
    branch true e = r e
    branch false e =
        and_then-On (IsOff (record s { paused = true })) R Q
          (reset_current_video_capture (record s { paused = true })) (l true)
          (weaken (IsOff (record s { paused = true })) (IsOff (record s { paused = true })) (λ t. ⊥)
            Q _ (λ t h. h) (λ t h. elim h [ ]) (reset_current_video_capture-On true s v))
          (λ t h.
            k t
              (record {
                set = h.kept.set;
                same = record {
                  set_capturer = h.kept.same.set_capturer;
                  started = h.kept.same.started;
                  video_adder = h.kept.same.video_adder;
                  did_pause = h.kept.same.did_pause;
                };
              })
              h.paused h.off h.last_device_id)

pub unpausing-On :
    (R Q : Video → Type 0) (opens : String → Bool) (l : Bool → Video → Outcome) (s : Video)
    → IsRegistered s
    → (s.paused ≡ false → R s)
    → (s.last_device_id ≡ none
        → Kept s (record s { paused = false })
        → R (record s { paused = false }))
    → ((t : Video) → Kept s t → t.paused ≡ false → Q t)
    → ((t : Video) → Kept s t → t.paused ≡ false → On R Q (l false t))
    → On R Q (pause opens l false s)
unfolding pause
unpausing-On R Q opens l s v r n q k = branch s.paused refl
  where
    s' : Video
    s' = record s { paused = false }

    set : (o : Option String) → Outcome
    set o = elim o as (λ _. Outcome) [
      | none ↦ done s'
      | some id ↦ and_then (change_to_device opens id s') (l false)
    ]

    unpaused : (o : Option String) → s.last_device_id ≡ o → Kept s s' → On R Q (set o)
    unpaused none e h = n e h
    unpaused (some id) e h =
        and_then-On (λ t. Kept s t × (t.paused ≡ false)) R Q (change_to_device opens id s')
          (l false)
          (weaken (Changed s') (λ t. Kept s t × (t.paused ≡ false)) (Changed s') Q
            (change_to_device opens id s') (λ t w. (Kept-trans s s' t h w.kept, w.paused))
            (λ t w. q t (Kept-trans s s' t h w.kept) w.paused)
            (change_to_device-On opens id s' h.set))
          (λ t w. k t w.0 w.1)

    branch : (p : Bool) → s.paused ≡ p → On R Q (if p then set s.last_device_id else done s)
    branch true e =
        unpaused s.last_device_id refl (rename-Kept false s.last_device_id s v (off_paused s v e))
    branch false e = r e

-- The first devices that cannot be opened are passed over.
pub setup_initial_device-On :
    (opens : String → Bool) (devices : List String) (s : Video)
    → IsRegistered s
    → On (Changed s) (λ t. ⊥) (setup_initial_device opens devices s)
unfolding setup_initial_device
setup_initial_device-On opens [] s v = record {
  kept = record { set = v; same = IsSame-refl s };
  paused = refl;
}
setup_initial_device-On opens (id ∷ devices) s v =
    branch (change_to_device opens id s) (change_to_device-On opens id s v)
      (setup_initial_device-On opens devices)
  where
    branch :
        (o : Outcome)
        → On (Changed s) (Changed s) o
        → ((t : Video)
            → IsRegistered t
            → On (Changed t) (λ u. ⊥) (setup_initial_device opens devices t))
        → On
            (Changed s)
            (λ t. ⊥)
            (elim o as (λ _. Outcome) [
              | done t ↦ done t
              | thrown t ↦ setup_initial_device opens devices t
              | undefined ↦ undefined
            ])
    branch (done t) h k = h
    branch (thrown t) h k =
        weaken (Changed t) (Changed s) (λ u. ⊥) (λ u. ⊥) (setup_initial_device opens devices t)
          (λ u w. Changed-trans s t u h w) (λ u w. w) (k t h.kept.set)
    branch undefined h k = h
