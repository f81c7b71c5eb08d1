-- ===== src/Video/Settings.antt =====
-- fubble/client/video_settings.cpp. Which devices can be opened now is an argument; the signal
-- on_video_source_changed tells the user interface only.
use fubble.Base.{
  suc, Bool, true, false, String, same, Option, none, some, is_some, List, [], ◌∷◌, if◌then◌else◌,
}
use fubble.Video.{
  Device, Video, Outcome, done, thrown, undefined, and_then, add_track, remove_track, add_video,
  remove_video,
}

unfoldable pub reset_current_video_capture : Video → Outcome
unfolding and_then remove_track remove_video
reset_current_video_capture s = elim s.capture_device as (λ _. Outcome) [
  | none ↦ done s
  | some d ↦ and_then (remove_track s.video_track_adder s) (λ t.
      done (record (remove_video d.source t) { video_track_adder = none; capture_device = none }))
]

unfoldable pub reset_current_video : Video → Outcome
unfolding reset_current_video_capture and_then
reset_current_video s =
    and_then (reset_current_video_capture s) (λ t. done (record t { last_device_id = none }))

-- The device is opened; its source is added.
unfoldable pub open_device : String → Video → Video
unfolding add_track add_video
open_device id s =
    let n = s.created in
    add_video n (
      add_track n (record s {
        capture_device = some (record { id = id; source = n });
        video_track_adder = some n;
        created = suc n;
      }))

-- What `change_to_device` does after the current device was reset.
unfoldable pub change_to : (String → Bool) → String → Video → Outcome
unfolding open_device
change_to opens id s =
    if s.paused
    then done (record s { last_device_id = some id })
    else if opens id
    then done (open_device id (record s { last_device_id = some id }))
    else thrown (record s { last_device_id = none })

abbrev pub is_device : String → Option Device → Bool
is_device id none = false
is_device id (some d) = same d.id id

unfoldable pub change_to_device : (String → Bool) → String → Video → Outcome
unfolding change_to reset_current_video and_then
change_to_device opens id s =
    if is_device id s.capture_device
    then done s
    else if is_some s.capture_device
    then and_then (reset_current_video s) (change_to opens id)
    else change_to opens id s

-- `on_paused` is a signal: its listeners are an argument.
unfoldable pub pause : (String → Bool) → (Bool → Video → Outcome) → Bool → Video → Outcome
unfolding reset_current_video_capture change_to_device and_then
pause opens on_paused true s =
    if s.paused
    then done s
    else and_then (reset_current_video_capture (record s { paused = true })) (on_paused true)
pause opens on_paused false s =
    if s.paused
    then elim s.last_device_id as (λ _. Outcome) [
      | none ↦ done (record s { paused = false })
      | some id ↦
          and_then (change_to_device opens id (record s { paused = false })) (on_paused false)
    ]
    else done s

abbrev pub contains : String → List String → Bool
contains id [] = false
contains id (x ∷ l) = if same x id then true else contains id l

-- The devices there are have changed to these.
unfoldable pub on_video_devices_changed : List String → Video → Outcome
unfolding reset_current_video
on_video_devices_changed devices s = elim s.last_device_id as (λ _. Outcome) [
  | none ↦ done s
  | some id ↦ if contains id devices then done s else reset_current_video s
]

-- The first device that can be opened.
unfoldable pub setup_initial_device : (String → Bool) → List String → Video → Outcome
unfolding change_to_device
setup_initial_device opens [] s = done s
setup_initial_device opens (id ∷ devices) s = elim (change_to_device opens id s) as (λ _. Outcome) [
  | done t ↦ done t
  | thrown t ↦ setup_initial_device opens devices t
  | undefined ↦ undefined
]
