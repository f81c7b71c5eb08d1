-- ===== src/AudioVolume/History.antt =====
-- Histories of audio_tracks_volume: the user's calls, the rooms and the audio tracks that come.
use mathlib.Core.Option.{some-injective}
use fubble.Base.{
  is_some, ◌≡◌, refl, ◌∙◌, Bool, true, false, not, ◌||◌, String, Option, none, some, List, [], ◌∷◌,
  text_discrete, Option-cases, inl, inr, ap, sym, subst, same_refl,
}
use fubble.Base.Runs.{Holds}
use fubble.Base.Map.{HasUniqueKeys}
use fubble.AudioVolume.{
  AudioTrack, AudioVolume, get_volume, get_muted, update_in, set_setting, update_participant,
  update_participant_in, mute_all_except_self, mute_self, deafen, set_volume, mute, on_room,
  on_audio_added, update_all_participants, initial, participant_added, participant_removed, has_id,
  add_late,
}
use fubble.AudioVolume.Current.{IsCurrent}
use fubble.AudioVolume.Operations.{
  update_in-AreSet, mute_all-IsCurrent, mute_self-IsCurrent, deafen-IsCurrent,
  set_setting-IsCurrent, on_audio_added-IsCurrent, removed-IsCurrent, AreSet-all,
}

pub data Event (Volume : Type 0) : Type 0 where
  mute_all_event : Bool → Event Volume
  mute_self_event : Bool → Event Volume
  deafen_event : Bool → Event Volume
  set_volume_event : String → Volume → Event Volume
  mute_event : String → Bool → Event Volume
  leave_event : Event Volume
  room_event : (own_id : String) (ps : List (String × List (AudioTrack Volume))) → Event Volume
  audio_event : String → AudioTrack Volume → Event Volume
  added_event : String → List (AudioTrack Volume) → Event Volume
  removed_event : String → Event Volume

abbrev go_on : {A B : Type 0} → (A → Option B) → Option A → Option B
go_on f none = none
go_on f (some a) = f a

-- The events for a single participant's volume.
abbrev pub about_participant : {Volume : Type 0} → Event Volume → Bool
about_participant (set_volume_event id v) = true
about_participant (mute_event id b) = true
about_participant e = false

-- The participants of a room that is set have distinct ids.
abbrev pub IsProper : {Volume : Type 0} → Event Volume → Type 0
IsProper (room_event own_id ps) = HasUniqueKeys text_discrete ps
IsProper e = Unit {0}

abbrev pub AreProper : {Volume : Type 0} → List (Event Volume) → Type 0
AreProper [] = Unit {0}
AreProper (e ∷ es) = IsProper e × AreProper es

module _ {Volume : Type 0} (full : Volume) where
  -- `none` is the null dereference.
  unfoldable pub step : Event Volume → AudioVolume Volume → Option (AudioVolume Volume)
  step (mute_all_event b) s = some (mute_all_except_self full b s)
  step (mute_self_event b) s = some (mute_self full b s)
  step (deafen_event b) s = some (deafen full b s)
  step (set_volume_event id v) s = set_volume full id v s
  step (mute_event id b) s = mute full id b s
  step leave_event s = some (on_room full none s)
  step (room_event own_id ps) s = some (on_room full (some (own_id, ps)) s)
  step (audio_event id t) s = some (on_audio_added full id t s)
  step (added_event id l) s = some (participant_added full id l s)
  step (removed_event id) s = some (participant_removed full id s)

  unfoldable pub run : List (Event Volume) → AudioVolume Volume → Option (AudioVolume Volume)
  run [] s = some s
  run (e ∷ es) s = go_on (run es) (step e s)

  on_room-IsCurrent :
      (own_id : String) (ps : List (String × List (AudioTrack Volume))) (s : AudioVolume Volume)
      → HasUniqueKeys text_discrete ps
      → IsCurrent full s
      → IsCurrent full (on_room full (some (own_id, ps)) s)
  unfolding on_room update_all_participants update_in get_muted get_volume
  on_room-IsCurrent own_id ps s u v = record {
    others =
        update_in-AreSet full (some own_id)
          (record s { room_ = some own_id; participants = ps; late = [] }) ps u;
    self_muted = v.self_muted;
    own_track = v.own_track;
  }

  after :
      (f : AudioVolume Volume) {s' : AudioVolume Volume}
      → IsCurrent full f
      → some f ≡ some s'
      → IsCurrent full s'
  after f v h = subst (IsCurrent full) (some-injective _ _ h) v

  step-IsCurrent :
      (e : Event Volume) (s : AudioVolume Volume) {s' : AudioVolume Volume}
      → IsProper e
      → IsCurrent full s
      → step e s ≡ some s'
      → IsCurrent full s'
  unfolding step set_volume mute update_participant on_room set_setting participant_added get_muted
      get_volume
  step-IsCurrent (mute_all_event b) s u v h = after _ (mute_all-IsCurrent full b s v) h
  step-IsCurrent (mute_self_event b) s u v h = after _ (mute_self-IsCurrent full b s v) h
  step-IsCurrent (deafen_event b) s u v h = after _ (deafen-IsCurrent full b s v) h
  step-IsCurrent (set_volume_event id x) s u v h =
      set_setting-IsCurrent full s.room_ id _ s refl v h
  step-IsCurrent (mute_event id b) s u v h = set_setting-IsCurrent full s.room_ id _ s refl v h
  step-IsCurrent leave_event s u v h =
      after _ (record { others = tt; self_muted = v.self_muted; own_track = v.own_track }) h
  step-IsCurrent (room_event own_id ps) s u v h = after _ (on_room-IsCurrent own_id ps s u v) h
  step-IsCurrent (audio_event id t) s u v h = after _ (on_audio_added-IsCurrent full id t s v) h
  step-IsCurrent (added_event id l) s u v h =
      after _
        (record {
          others =
              AreSet-all full s.room_ s (participant_added full id l s) s.participants
                (λ j. (refl, refl)) v.others;
          self_muted = v.self_muted;
          own_track = v.own_track;
        })
        h
  step-IsCurrent (removed_event id) s u v h = after _ (removed-IsCurrent full id s v) h

  run-IsCurrent :
      (es : List (Event Volume)) (s : AudioVolume Volume) {s' : AudioVolume Volume}
      → AreProper es
      → IsCurrent full s
      → run es s ≡ some s'
      → IsCurrent full s'
  unfolding run
  run-IsCurrent [] s u v h = after s v h
  run-IsCurrent (e ∷ es) s {s'} u v h = elim (Option-cases (step e s)) [
    | inl n ↦ cc
    | inr (t, p) ↦
        run-IsCurrent es t u.1 (step-IsCurrent e s u.0 v p) (sym (ap (go_on (run es)) p) ∙ h)
  ]

  -- After any history of rooms whose participants have distinct ids, participants who come and go,
  -- calls and audio tracks that does not dereference the missing room: a track of another participant
  -- who was there when the room was set is enabled exactly if neither that participant, nor
  -- everybody, is muted and the user is not deafened, and it then has the volume set for the
  -- participant; the own track is enabled exactly if the user is neither muted nor deafened.
  pub run-initial-IsCurrent :
      (es : List (Event Volume)) {s : AudioVolume Volume}
      → AreProper es
      → run es (initial full) ≡ some s
      → IsCurrent full s
  run-initial-IsCurrent es u h =
      run-IsCurrent es (initial full) u
        (record { others = tt; self_muted = refl; own_track = refl }) h

  -- While a room is set no operation fails, and while none is set only the two that are about one
  -- participant do: these dereference the missing participants.
  step-needs_room :
      (e : Event Volume) (s : AudioVolume Volume)
      → is_some (step e s) ≡ not (about_participant e) || is_some s.room_
  unfolding step set_volume mute update_participant update_participant_in set_setting
  step-needs_room (mute_all_event b) s = refl
  step-needs_room (mute_self_event b) s = refl
  step-needs_room (deafen_event b) s = refl
  step-needs_room (set_volume_event id x) s = elim (Option-cases s.room_) [
    | inl n ↦ rw (n) refl
    | inr (o, p) ↦ rw (p) refl
  ]
  step-needs_room (mute_event id b) s = elim (Option-cases s.room_) [
    | inl n ↦ rw (n) refl
    | inr (o, p) ↦ rw (p) refl
  ]
  step-needs_room leave_event s = refl
  step-needs_room (room_event own_id ps) s = refl
  step-needs_room (audio_event id t) s = refl
  step-needs_room (added_event id l) s = refl
  step-needs_room (removed_event id) s = refl

  -- A track of a participant who came later stays as it came, also when the user is deafened.
  late_stays :
      (id : String) (t : AudioTrack Volume) (s : AudioVolume Volume)
      → s.late ≡ []
      → has_id full id s.participants ≡ false
      → Holds
          (λ (u : AudioVolume Volume). u.late ≡ (id, t ∷ []) ∷ [])
          (run (added_event id [] ∷ audio_event id t ∷ []) s)
  unfolding run step participant_added on_audio_added add_late
  late_stays id t s e h = rw (e, h, same_refl id) refl
