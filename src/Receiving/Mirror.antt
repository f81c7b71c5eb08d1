-- ===== src/Receiving/Mirror.antt =====
-- That the participant has the tracks of its connection.
use fubble.Base.{
  ℕ, ◌≡◌, refl, sym, ap, ◌∙◌, Bool, true, false, Option, none, some, is_some, List, [], ◌∷◌, arith,
}
use mathlib.Core.List.{append-nil}
use fubble.Base.Runs.{Holds, Fits, run, run-Fits}
use fubble.Receiving.{
  Kind, video, audio, unknown, ReceivingTrack, Receiver, erase, video_added, video_removed,
  on_video_track, on_audio_track, on_video_track_removed, on_audio_track_removed, on_track_added,
  on_track_removed, add_receiving, on_add_track, find_receiving_track, erase_receiving, without,
  on_remove_track,
}
use fubble.Receiving.Tracks.{
  tracks, Between, Between-append, Between-erase, tracks-append, tracks-erase_other, erase-tracks,
}

pub data Event : Type 0 where
  adds : ℕ → Kind → Event
  removes : ℕ → Event

unfoldable pub step : Event → Receiver → Option Receiver
unfolding on_add_track on_remove_track
step (adds rtp kind) s = some (on_add_track rtp kind s)
step (removes rtp) s = on_remove_track rtp s

-- A receiver that is removed is there, and there is one video at a time.
abbrev pub Needs : Event → Receiver → Type 0
Needs (adds rtp video) s = s.videos ≡ []
Needs (adds rtp kind) s = Unit {0}
Needs (removes rtp) s = is_some (find_receiving_track rtp s.receiving_tracks) ≡ true

abbrev pub shown : List ℕ → Option ℕ
shown [] = none
shown (x ∷ l) = some x

abbrev pub at_most_one : List ℕ → Bool
at_most_one [] = true
at_most_one (x ∷ []) = true
at_most_one (x ∷ y ∷ l) = false

-- The participant's videos and audios are the tracks of the connection, in their order, and the model
-- shows the only video that there is.
pub record IsMirror (s : Receiver) : Type 0 where
  pub made : Between 0 s.next s.receiving_tracks
  pub videos : s.videos ≡ tracks true s.receiving_tracks
  pub audios : s.audios ≡ tracks false s.receiving_tracks
  pub one : at_most_one s.videos ≡ true
  pub video : s.video ≡ shown s.videos

add-IsMirror :
    (rtp : ℕ) (b : Bool) (s : Receiver)
    → (b ≡ true → s.videos ≡ [])
    → IsMirror s
    → IsMirror (add_receiving rtp b s)
unfolding add_receiving on_track_added on_video_track on_audio_track video_added
add-IsMirror rtp true s n v = record {
  made = Between-append 0 s.next s.receiving_tracks rtp true v.made;
  videos = ground (
    arith,
    v.videos,
    tracks-append true s.receiving_tracks
        (record { rtp = rtp; track = s.next; is_video = true } ∷ []),
  );
  audios =
      v.audios
      ∙ sym (
          tracks-append false s.receiving_tracks
            (record { rtp = rtp; track = s.next; is_video = true } ∷ [])
          ∙ append-nil (tracks false s.receiving_tracks));
  one = rw (n refl) refl;
  video = rw (n refl) refl;
}
add-IsMirror rtp false s n v = record {
  made = Between-append 0 s.next s.receiving_tracks rtp false v.made;
  videos =
      v.videos
      ∙ sym (
          tracks-append true s.receiving_tracks
            (record { rtp = rtp; track = s.next; is_video = false } ∷ [])
          ∙ append-nil (tracks true s.receiving_tracks));
  audios = ground (
    arith,
    v.audios,
    tracks-append false s.receiving_tracks
        (record { rtp = rtp; track = s.next; is_video = false } ∷ []),
  );
  one = v.one;
  video = v.video;
}

audio_removed_lem :
    (t : ℕ) (s : Receiver) (l : List ℕ)
    → erase t s.audios ≡ some l
    → on_audio_track_removed t s ≡ some (record s { audios = l })
unfolding on_audio_track_removed
audio_removed_lem t s l e = rw (e, on_audio_track_removed)

-- The only video is removed.
video_removed_lem :
    (t : ℕ) (s : Receiver) (l : List ℕ)
    → erase t s.videos ≡ some l
    → at_most_one s.videos ≡ true
    → s.video ≡ shown s.videos
    → (on_video_track_removed t s ≡ some (record s { videos = l; video = none })) × (l ≡ [])
unfolding on_video_track_removed video_removed erase
video_removed_lem t s l e o v = only s.videos refl
  where
    only :
        (w : List ℕ)
        → s.videos ≡ w
        → (on_video_track_removed t s ≡ some (record s { videos = l; video = none })) × (l ≡ [])
    only [] q = absurd (ground arith)
    only (x ∷ []) q = ground arith
    only (x ∷ y ∷ w) q = absurd (ground arith)

removed-IsMirror :
    (rtp : ℕ) (b : Bool) (s : Receiver) (found : ReceivingTrack)
    → find_receiving_track rtp s.receiving_tracks ≡ some found
    → found.is_video ≡ b
    → IsMirror s
    → Holds IsMirror (without rtp (on_track_removed b found.track s))
unfolding on_track_removed
removed-IsMirror rtp true s found e k v =
    let h = erase-tracks 0 s.next rtp true s.receiving_tracks found v.made e k in
    let (g, n) =
      video_removed_lem found.track s (tracks true (erase_receiving rtp s.receiving_tracks))
        (ap (erase found.track) v.videos ∙ h) v.one v.video in
    rw g (record {
      made = Between-erase 0 s.next rtp s.receiving_tracks v.made;
      videos = refl;
      audios = v.audios ∙ sym (tracks-erase_other rtp false s.receiving_tracks found e k);
      one = rw n refl;
      video = rw n refl;
    })
removed-IsMirror rtp false s found e k v =
    let h = erase-tracks 0 s.next rtp false s.receiving_tracks found v.made e k in
    rw
      (audio_removed_lem found.track s (tracks false (erase_receiving rtp s.receiving_tracks))
        (ap (erase found.track) v.audios ∙ h))
      (record {
        made = Between-erase 0 s.next rtp s.receiving_tracks v.made;
        videos = v.videos ∙ sym (tracks-erase_other rtp true s.receiving_tracks found e k);
        audios = refl;
        one = v.one;
        video = v.video;
      })

step-IsMirror : (e : Event) (s : Receiver) → Needs e s → IsMirror s → Holds IsMirror (step e s)
unfolding step on_add_track on_remove_track
step-IsMirror (adds rtp video) s n v = add-IsMirror rtp true s (λ _. n) v
step-IsMirror (adds rtp audio) s n v = add-IsMirror rtp false s (λ f. absurd (ground (arith, f))) v
step-IsMirror (adds rtp unknown) s n v = v
step-IsMirror (removes rtp) s n v = found (find_receiving_track rtp s.receiving_tracks) refl n
  where
    found :
        (o : Option ReceivingTrack)
        → find_receiving_track rtp s.receiving_tracks ≡ o
        → is_some o ≡ true
        → Holds IsMirror (elim o as (λ _. Option Receiver) [
          | none ↦ none
          | some f ↦ without rtp (on_track_removed f.is_video f.track s)
        ])
    found none e h = ground arith
    found (some f) e h = removed-IsMirror rtp f.is_video s f e refl v

abbrev pub initial : Receiver
initial = record { receiving_tracks = []; next = 0; videos = []; audios = []; video = none }

-- Whatever tracks come and go, if one video is there at a time and only receivers are removed that
-- are there: nothing is erased that is not found and no null video is asked, the participant has the
-- tracks of its connection, each in the list of its kind and in the order in which they came, and
-- the model shows the video.
pub run-initial-IsMirror :
    (es : List Event)
    → Fits step Needs es initial
    → (s : Receiver) × (run step es initial ≡ some s) × IsMirror s
run-initial-IsMirror es f =
    run-Fits step Needs IsMirror step-IsMirror es initial f
      (record { made = omega arith; videos = refl; audios = refl; one = refl; video = refl })
