-- ===== src/Receiving.antt =====
-- The tracks that a connection brings: OnAddTrack and OnRemoveTrack of
-- fubble/rtc/google/connection.cpp, fubble/client/remote_participant.cpp, which listens to them, and
-- the video of fubble/app/participant_model.cpp, which listens to that one. A receiver and a track
-- are pointers: numbers; every track that is made gets a new one. What is erased or read at the end
-- of a list, or through a null pointer, is undefined: `none`.
pub mod Tracks
pub mod Mirror
pub mod Crash
use fubble.Base.{
  ℕ, suc, Bool, true, false, Option, none, some, List, [], ◌∷◌, ◌++◌, ◌==◌, if◌then◌else◌,
}

pub data Kind : Type 0 where
  video audio unknown : Kind

-- `connection::receiving_track`.
pub record ReceivingTrack : Type 0 where
  pub rtp : ℕ
  pub track : ℕ
  pub is_video : Bool

-- The connection, the participant, and the source of the model's video.
pub record Receiver : Type 0 where
  pub receiving_tracks : List ReceivingTrack
  pub next : ℕ
  pub videos : List ℕ
  pub audios : List ℕ
  pub video : Option ℕ

-- `erase(find(track))`.
unfoldable pub erase : ℕ → List ℕ → Option (List ℕ)
erase x [] = none
erase x (y ∷ l) =
    let rest = erase x l in
    if y == x
    then some l
    else elim rest as (λ _. Option (List ℕ)) [ none ↦ none | some r ↦ some (y ∷ r) ]

-- `participant_model::video_added`.
unfoldable pub video_added : ℕ → Receiver → Receiver
video_added added s = record s { video = some added }

-- `participant_model::video_removed`.
unfoldable pub video_removed : ℕ → Receiver → Option Receiver
video_removed removed s = elim s.video as (λ _. Option Receiver) [
  | none ↦ none
  | some source ↦ some (if source == removed then record s { video = none } else s)
]

unfoldable pub on_video_track : ℕ → Receiver → Receiver
unfolding video_added
on_video_track track s = video_added track (record s { videos = s.videos ++ track ∷ [] })

unfoldable pub on_audio_track : ℕ → Receiver → Receiver
on_audio_track track s = record s { audios = s.audios ++ track ∷ [] }

unfoldable pub on_video_track_removed : ℕ → Receiver → Option Receiver
unfolding erase video_removed
on_video_track_removed track s = elim (erase track s.videos) as (λ _. Option Receiver) [
  | none ↦ none
  | some l ↦ video_removed track (record s { videos = l })
]

unfoldable pub on_audio_track_removed : ℕ → Receiver → Option Receiver
unfolding erase
on_audio_track_removed track s = elim (erase track s.audios) as (λ _. Option Receiver) [
  | none ↦ none
  | some l ↦ some (record s { audios = l })
]

-- `remote_participant::on_track_added` and `on_track_removed`.
unfoldable pub on_track_added : Bool → ℕ → Receiver → Receiver
unfolding on_video_track on_audio_track
on_track_added true track s = on_video_track track s
on_track_added false track s = on_audio_track track s

unfoldable pub on_track_removed : Bool → ℕ → Receiver → Option Receiver
unfolding on_video_track_removed on_audio_track_removed
on_track_removed true track s = on_video_track_removed track s
on_track_removed false track s = on_audio_track_removed track s

-- `OnAddTrack`, once the kind of the track is known.
unfoldable pub add_receiving : ℕ → Bool → Receiver → Receiver
unfolding on_track_added
add_receiving rtp is_video s = on_track_added is_video s.next (record s {
  receiving_tracks =
      s.receiving_tracks ++ record { rtp = rtp; track = s.next; is_video = is_video } ∷ [];
  next = suc s.next;
})

unfoldable pub on_add_track : ℕ → Kind → Receiver → Receiver
unfolding add_receiving
on_add_track rtp video s = add_receiving rtp true s
on_add_track rtp audio s = add_receiving rtp false s
on_add_track rtp unknown s = s

unfoldable pub find_receiving_track : ℕ → List ReceivingTrack → Option ReceivingTrack
find_receiving_track rtp [] = none
find_receiving_track rtp (r ∷ l) = if r.rtp == rtp then some r else find_receiving_track rtp l

unfoldable pub erase_receiving : ℕ → List ReceivingTrack → List ReceivingTrack
erase_receiving rtp [] = []
erase_receiving rtp (r ∷ l) = if r.rtp == rtp then l else r ∷ erase_receiving rtp l

abbrev pub without : ℕ → Option Receiver → Option Receiver
without rtp none = none
without rtp (some s) = some (record s { receiving_tracks = erase_receiving rtp s.receiving_tracks })

unfoldable pub on_remove_track : ℕ → Receiver → Option Receiver
unfolding find_receiving_track on_track_removed erase_receiving
on_remove_track rtp s =
    elim (find_receiving_track rtp s.receiving_tracks) as (λ _. Option Receiver) [
      | none ↦ none
      | some found ↦ without rtp (on_track_removed found.is_video found.track s)
    ]
