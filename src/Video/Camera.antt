-- ===== src/Video/Camera.antt =====
-- The operations of video_settings keep what holds of the camera.
use fubble.Base.{
  ◌≡◌, refl, ◌∙◌, Bool, true, false, String, Option, none, some, is_some, List, arith,
  if◌then◌else◌,
}
use fubble.Video.{Video, Outcome, done, thrown, and_then, add_track, add_video}
use fubble.Video.Settings.{
  reset_current_video_capture, reset_current_video, open_device, change_to, is_device,
  change_to_device, contains, on_video_devices_changed,
}
use fubble.Video.Sound.{On, and_then-On, weaken, IsRegistered, Kept, IsSame-trans, IsSame-refl}
use fubble.Video.Off.{IsOff, reset_current_video_capture-On, rename-Kept, open_device-Kept}

-- What holds after an operation, also after an exception; whether the video is paused is as it was.
pub record Changed (s t : Video) : Type 0 where
  pub kept : Kept s t
  pub paused : t.paused ≡ s.paused

pub Kept-trans : (s t u : Video) → Kept s t → Kept t u → Kept s u
Kept-trans s t u p q = record { set = q.set; same = IsSame-trans s t u p.same q.same }

pub Changed-trans : (s t u : Video) → Changed s t → Changed t u → Changed s u
Changed-trans s t u p q = record {
  kept = Kept-trans s t u p.kept q.kept;
  paused = q.paused ∙ p.paused;
}

-- The camera is off too.
record Cleared (s t : Video) : Type 0 where
  pub changed : Changed s t
  pub off : t.capture_device ≡ none

reset_current_video-On :
    (s : Video) → IsRegistered s → On (Cleared s) (λ t. ⊥) (reset_current_video s)
unfolding reset_current_video
reset_current_video-On s v =
    and_then-On (IsOff s) (Cleared s) (λ t. ⊥) (reset_current_video_capture s) _
      (reset_current_video_capture-On s.paused s v)
      (λ t h. record {
        changed = record {
          kept = Kept-trans s t _ h.kept (rename-Kept t.paused none t h.kept.set h.off);
          paused = h.paused;
        };
        off = h.off;
      })

change_to-On :
    (opens : String → Bool) (id : String) (s : Video)
    → IsRegistered s
    → s.capture_device ≡ none
    → On (Changed s) (Changed s) (change_to opens id s)
unfolding change_to open_device add_track add_video
change_to-On opens id s v e = branch s.paused (opens id) refl
  where
    branch :
        (p b : Bool)
        → s.paused ≡ p
        → On (Changed s) (Changed s) (
            if p
            then done (record s { last_device_id = some id })
            else if b
            then done (open_device id (record s { last_device_id = some id }))
            else thrown (record s { last_device_id = none }))
    branch true b d = record { kept = rename-Kept s.paused (some id) s v e; paused = refl }
    branch false true d =
        let r = rename-Kept s.paused (some id) s v e in
        record {
          kept =
              Kept-trans s (record s { last_device_id = some id }) _ r
                (open_device-Kept id (record s { last_device_id = some id }) r.set e d refl);
          paused = refl;
        }
    branch false false d = record { kept = rename-Kept s.paused none s v e; paused = refl }

pub on_video_devices_changed-On :
    (devices : List String) (s : Video)
    → IsRegistered s
    → On (Changed s) (λ t. ⊥) (on_video_devices_changed devices s)
unfolding on_video_devices_changed
on_video_devices_changed-On devices s v = branch s.last_device_id
  where
    as_is : Changed s s
    as_is = record { kept = record { set = v; same = IsSame-refl s }; paused = refl }

    reset_it : (b : Bool) → On (Changed s) (λ t. ⊥) (if b then done s else reset_current_video s)
    reset_it true = as_is
    reset_it false =
        weaken (Cleared s) (Changed s) (λ t. ⊥) (λ t. ⊥) (reset_current_video s) (λ t h. h.changed)
          (λ t h. h) (reset_current_video-On s v)

    branch :
        (o : Option String)
        → On
            (Changed s)
            (λ t. ⊥)
            (elim o as (λ _. Outcome) [
              | none ↦ done s
              | some id ↦ if contains id devices then done s else reset_current_video s
            ])
    branch none = as_is
    branch (some id) = reset_it (contains id devices)

pub change_to_device-On :
    (opens : String → Bool) (id : String) (s : Video)
    → IsRegistered s
    → On (Changed s) (Changed s) (change_to_device opens id s)
unfolding change_to_device
change_to_device-On opens id s v =
    branch (is_device id s.capture_device) (is_some s.capture_device) refl
  where
    branch :
        (a b : Bool)
        → is_some s.capture_device ≡ b
        → On (Changed s) (Changed s) (
            if a
            then done s
            else if b
            then and_then (reset_current_video s) (change_to opens id)
            else change_to opens id s)
    branch true b e = record { kept = record { set = v; same = IsSame-refl s }; paused = refl }
    branch false false e = change_to-On opens id s v (ground arith)
    branch false true e =
        and_then-On (Cleared s) (Changed s) (Changed s) (reset_current_video s) (change_to opens id)
          (weaken (Cleared s) (Cleared s) (λ t. ⊥) (Changed s) (reset_current_video s) (λ t h. h)
            (λ t h. elim h [ ]) (reset_current_video-On s v))
          (λ t h.
            weaken (Changed t) (Changed s) (Changed t) (Changed s) (change_to opens id t)
              (λ u. Changed-trans s t u h.changed) (λ u. Changed-trans s t u h.changed)
              (change_to-On opens id t h.changed.kept.set h.off))
