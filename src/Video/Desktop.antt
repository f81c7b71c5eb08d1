-- ===== src/Video/Desktop.antt =====
-- `desktop_sharing_impl` of fubble/client/desktop_sharing.cpp, over `interval_capturer_impl` of
-- fubble/rtc/google/capture/desktop/capturer.cpp, whose future ends inline in `on_stopped`.
use fubble.Base.{ℕ, zero, suc, Bool, true, false, String, none, some, is_some, if◌then◌else◌}
use fubble.Video.{Video, Outcome, done, thrown, undefined, and_then, add_track, remove_track}
use fubble.Video.Settings.{pause}

unfoldable pub reset_instance : Video → Outcome
unfolding remove_track
reset_instance s =
    if is_some s.set_capturer
    then remove_track s.video_adder (record s { set_capturer = none; video_adder = none })
    else done s

-- `interval_capturer::stop`, or the end of its capturing by an error.
unfoldable pub stop_capturer : Video → Outcome
unfolding reset_instance
stop_capturer s = reset_instance (record s { started = false })

unfoldable pub stop_or_reset : Video → Outcome
unfolding reset_instance stop_capturer
stop_or_reset s =
    if is_some s.set_capturer
    then if s.started then stop_capturer s else reset_instance s
    else done s

unfoldable pub on_leave : Video → Outcome
unfolding stop_or_reset
on_leave s = if is_some s.set_capturer then stop_or_reset s else done s

-- An error ends the capturing by itself.
unfoldable pub on_captured_error : Video → Outcome
unfolding stop_capturer
on_captured_error s = if s.started then stop_capturer s else done s

module _ (opens : String → Bool) (on_paused : Bool → Video → Outcome) where
  unfoldable pub pause_video : Video → Outcome
  unfolding pause and_then
  pause_video s =
      if s.did_pause
      then done s
      else if is_some s.last_device_id
      then if s.paused
        then done s
        else and_then (pause opens on_paused true s) (λ t. done (record t { did_pause = true }))
      else done s

  unfoldable pub unpause_video : Video → Outcome
  unfolding pause
  unpause_video s =
      if s.did_pause then pause opens on_paused false (record s { did_pause = false }) else done s

  unfoldable pub reset : Video → Outcome
  unfolding stop_or_reset unpause_video and_then
  reset s = and_then (stop_or_reset s) unpause_video

  unfoldable pub on_video_paused : Bool → Video → Outcome
  unfolding reset
  on_video_paused true s = done s
  on_video_paused false s =
      let t : Video = record s { did_pause = false } in
      if is_some s.set_capturer then reset t else done t

  -- The new capturer is started, and its track is added.
  unfoldable pub start_capturer : ℕ → Video → Outcome
  unfolding pause_video add_track and_then
  start_capturer n s =
      and_then (pause_video (record s { set_capturer = some n; created = suc n }))
        (λ t. done (add_track n (record t { video_adder = some n; started = true })))

  -- What `set` does when the old capturer is reset: `create_with_cursor` throws if the source cannot
  -- be selected.
  unfoldable pub set_new : Bool → Video → Outcome
  unfolding start_capturer
  set_new selectable s = if selectable then start_capturer s.created s else thrown s

  unfoldable pub set : Bool → Video → Outcome
  unfolding reset set_new and_then
  set selectable s =
      and_then (if is_some s.set_capturer then reset s else done s) (set_new selectable)

-- The signal: `on_video_paused` is its listener, whose own operations may emit it again, up to this
-- depth.
unfoldable pub on_paused : ℕ → (String → Bool) → Bool → Video → Outcome
unfolding on_video_paused
on_paused zero opens b s = undefined
on_paused (suc n) opens b s = on_video_paused opens (on_paused n opens) b s
