-- ===== src/Video/Exclusive.antt =====
-- Camera and desktop, one after the other.
use fubble.Base.{
  ◌≡◌, refl, sym, ap, ◌∙◌, subst, Bool, true, false, String, same_refl, none, some, is_some, [],
  ◌∷◌,
}
use fubble.Base.Runs.{Holds, run, run-cons}
use fubble.Video.{Device, Video, Outcome, add_track, add_video}
use fubble.Video.Settings.{open_device, change_to, is_device, change_to_device, pause}
use fubble.Video.Desktop.{
  stop_or_reset, on_captured_error, pause_video, unpause_video, reset, on_video_paused,
  start_capturer, set_new, set, on_paused,
}
use fubble.Video.Sound.{On, and_then-On, weaken}
use fubble.Video.Pause.{on_camera}
use fubble.Video.Stopped.{IsConsistent, IsStopped, stop_or_reset-On, on_captured_error-On}
use fubble.Video.Sharing.{IsQuiet, none-IsQuiet}
use fubble.Video.Start.{IsHonest, Held, start_capturer-On, set-On}
use fubble.Video.History.{shares, unshares, fails, step, listeners, caught-Holds}

-- When a source is shared, the camera is off, provided that the video is paused if the desktop is held
-- to have paused it; if the source cannot be selected, or the camera that was to be opened again for
-- a moment cannot, nothing is shared.
pub set-IsExclusive :
    (opens : String → Bool) (selectable : Bool) (s : Video)
    → IsConsistent s
    → IsHonest s
    → On
        (λ t. (is_some t.set_capturer ≡ true) × (t.capture_device ≡ none))
        (λ t. t.set_capturer ≡ none)
        (set opens (listeners opens) selectable s)
set-IsExclusive opens selectable s v i =
    weaken _ _ IsQuiet _ (set opens (listeners opens) selectable s) (λ t h. (h.1, h.2 i))
      (λ t h. h.set_capturer) (set-On opens 0 selectable s v)

-- When the capturer fails by itself, nothing is shared any more, but a video that the desktop has
-- paused stays paused.
fails_lem :
    (s : Video)
    → IsConsistent s
    → Holds
        (λ t.
          (t.set_capturer ≡ none)
          × (t.did_pause ≡ s.did_pause)
          × (t.paused ≡ s.paused)
          × (t.capture_device ≡ s.capture_device))
        (step fails s)
unfolding step
fails_lem s v = caught-Holds _ (on_captured_error s) (
    weaken (IsStopped s) _ (λ t. ⊥) _ (on_captured_error s)
      (λ t h. (h.set_capturer, h.did_pause, h.paused, h.capture_device)) (λ t h. elim h [ ])
      (on_captured_error-On s v.set v.capturer))

-- When the desktop is held to have paused the video and nothing is shared, a source that is shared
-- leaves the camera as it is, also if it is on.
shares_stale :
    (opens : String → Bool) (s : Video)
    → s.set_capturer ≡ none
    → s.did_pause ≡ true
    → Holds
        (λ t. (t.capture_device ≡ s.capture_device) × (is_some t.set_capturer ≡ true))
        (step (shares opens true) s)
unfolding step set set_new start_capturer pause_video add_track
shares_stale opens s e d = rw (e, d) (refl, refl)

-- The camera is on with this device, nothing is shared, and nothing is to be unpaused.
abbrev pub IsRestored : String → Video → Type 0
IsRestored id t =
    (is_device id t.capture_device ≡ true)
    × (t.paused ≡ false)
    × (t.set_capturer ≡ none)
    × (t.did_pause ≡ false)

set_fresh :
    (opens : String → Bool) (l : Bool → Video → Outcome) (s : Video)
    → s.set_capturer ≡ none
    → set opens l true s ≡ start_capturer opens l s.created s
unfolding set set_new
set_fresh opens l s n = rw n refl

module _ (opens : String → Bool) (id : String) (o : opens id ≡ true) where
  -- The device is opened.
  IsOpened : Video → Type 0
  IsOpened t = (is_device id t.capture_device ≡ true) × (t.paused ≡ false) × (t.set_capturer ≡ none)

  change_to_device-IsOpened :
      (t : Video)
      → t.set_capturer ≡ none
      → t.paused ≡ false
      → t.capture_device ≡ none
      → On IsOpened (λ u. ⊥) (change_to_device opens id t)
  unfolding change_to_device change_to open_device add_track add_video IsOpened
  change_to_device-IsOpened t n p c = rw (c, p, o) (same_refl id, refl, n)

  listeners-IsRestored :
      (t : Video) → IsOpened t → On (IsRestored id) (λ u. ⊥) (listeners opens false t)
  unfolding on_paused on_video_paused IsOpened
  listeners-IsRestored t h = rw h.2 (h.0, h.1, refl, refl)

  unpause_video-IsRestored :
      (t : Video)
      → t.set_capturer ≡ none
      → t.did_pause ≡ true
      → t.paused ≡ true
      → t.last_device_id ≡ some id
      → t.capture_device ≡ none
      → On (IsRestored id) (λ u. ⊥) (unpause_video opens (listeners opens) t)
  unfolding unpause_video pause
  unpause_video-IsRestored t n d p l c =
      rw (d, p, l)
        (let t' : Video = record t { paused = false; did_pause = false } in
          and_then-On IsOpened (IsRestored id) (λ u. ⊥) (change_to_device opens id t')
            (listeners opens false) (change_to_device-IsOpened t' n refl c) listeners-IsRestored)

  reset-IsRestored :
      (u : Video)
      → IsConsistent u
      → u.did_pause ≡ true
      → u.paused ≡ true
      → u.last_device_id ≡ some id
      → u.capture_device ≡ none
      → On (IsRestored id) (λ t. ⊥) (reset opens (listeners opens) u)
  unfolding reset
  reset-IsRestored u v d p l c =
      and_then-On (IsStopped u) (IsRestored id) (λ t. ⊥) (stop_or_reset u) _
        (stop_or_reset-On u v.set v.capturer)
        (λ t h.
          unpause_video-IsRestored t h.set_capturer (h.did_pause ∙ d) (h.paused ∙ p)
            (h.last_device_id ∙ l) (h.capture_device ∙ c))

  -- With the camera on and nothing shared, a source that is shared and then given up leaves the
  -- camera on with the same device, provided that the device can be opened again.
  pub shares-unshares :
      (s : Video) (d : Device)
      → IsConsistent s
      → s.capture_device ≡ some d
      → d.id ≡ id
      → s.set_capturer ≡ none
      → s.did_pause ≡ false
      → Holds (IsRestored id) (run step (shares opens true ∷ unshares opens ∷ []) s)
  unfolding run step
  shares-unshares s d v c i n f =
      run-cons step (λ t. IsConsistent t × (t.capture_device ≡ none) × Held s t) (IsRestored id)
        (shares opens true) (unshares opens ∷ []) s
        (caught-Holds _ (set opens (listeners opens) true s) (
          subst (On _ _) (sym (set_fresh opens (listeners opens) s n)) (
            weaken _ _ (λ u. ⊥) _ (start_capturer opens (listeners opens) s.created s)
              (λ t h. (h.0, h.2 (rw f refl), h.3)) (λ t h. elim h [ ])
              (start_capturer-On opens 0 s (none-IsQuiet s v (ap (λ x. is_some x) n))))))
        (λ t h.
          let (p, l) = on_camera s d v.set c in
          let held = h.2 f p (ap (λ x. is_some x) l) in
          run-cons step (IsRestored id) (IsRestored id) (unshares opens) [] t
            (caught-Holds (IsRestored id) (reset opens (listeners opens) t) (
              weaken (IsRestored id) (IsRestored id) (λ u. ⊥) (IsRestored id)
                (reset opens (listeners opens) t) (λ u w. w) (λ u w. elim w [ ])
                (reset-IsRestored t h.0 held.0 held.1 (held.2 ∙ l ∙ ap (λ x. some x) i) h.1)))
            (λ u w. w))
