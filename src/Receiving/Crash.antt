-- ===== src/Receiving/Crash.antt =====
-- A participant with two videos.
use fubble.Base.{ℕ, ◌≡◌, ◌≢◌, true, none, some, [], ◌∷◌, arith}
use fubble.Base.Runs.{run}
use fubble.Receiving.{
  Receiver, erase, video_removed, on_video_track_removed, on_track_removed, find_receiving_track,
  erase_receiving, on_remove_track,
}
use fubble.Receiving.Mirror.{removes, step}

-- When a participant has a video besides the one that is shown and the shown one is removed, no video
-- is shown, and removing the other one asks a null video.
pub removes_shown_first :
    (r q a b : ℕ) (s : Receiver)
    → s.receiving_tracks
      ≡ record { rtp = r; track = a; is_video = true }
        ∷ record { rtp = q; track = b; is_video = true }
        ∷ []
    → s.videos ≡ a ∷ b ∷ []
    → s.video ≡ some b
    → r ≢ q
    → a ≢ b
    → (step (removes q) s
        ≡ some (record s {
          receiving_tracks = record { rtp = r; track = a; is_video = true } ∷ [];
          videos = a ∷ [];
          video = none;
        }))
      × (run step (removes q ∷ removes r ∷ []) s ≡ none)
unfolding run step on_remove_track on_track_removed on_video_track_removed video_removed erase
    erase_receiving find_receiving_track
removes_shown_first r q a b s t v w n m = ground arith
