-- ===== src/Tests/Voices.antt =====
-- What is muted, deafened and how loud.
use fubble.Base.{ℕ, ◌≡◌, refl, true, false, Option, none, some, List, [], ◌∷◌, text_discrete}
use fubble.MuteDeaf.{Custom, Communicator, state_key}
use fubble.AudioVolume.{
  AudioTrack, AudioVolume, initial, update_in, get_muted, get_volume, set_setting,
  update_participant, update_first, update_all_participants, on_room, on_audio_added, set_volume,
  mute, deafen, add_audio_in, update_self_muted, update_audio, update_audios, update_each,
  add_audio, participant_added, participant_removed, remove_id,
}
use fubble.AudioVolume.Current.{IsCurrent}
use fubble.AudioVolume.History.{
  Event, deafen_event, set_volume_event, mute_event, room_event, audio_event, added_event,
  removed_event, AreProper, step, run, run-initial-IsCurrent,
}

abbrev silent : Communicator
silent = record {
  room_ = some "me";
  mutes_and_deafs = [];
  self_muted = false;
  self_deafed = false;
  calls = [];
}

abbrev muted_state : Custom
muted_state = record {
  type = state_key;
  key = "bob";
  data_ = record { deafed = none; muted = some true };
}

abbrev a_track : AudioTrack ℕ
a_track = record { enabled = false; volume = 0 }

abbrev a_history : List (Event ℕ)
a_history =
    deafen_event true
    ∷ room_event "me" (("me", a_track ∷ []) ∷ ("bob", a_track ∷ []) ∷ [])
    ∷ set_volume_event "bob" 50
    ∷ mute_event "me" true
    ∷ deafen_event false
    ∷ audio_event "bob" a_track
    ∷ added_event "ann" (a_track ∷ [])
    ∷ removed_event "ann"
    ∷ []

abbrev after_history : Option (AudioVolume ℕ)
after_history = run 100 a_history (initial 100)

a_history-AreProper : AreProper a_history
a_history-AreProper =
    (tt, (((unfold text_discrete in refl), (refl, tt)), (tt, (tt, (tt, (tt, (tt, (tt, tt))))))))

abbrev heard : AudioVolume ℕ
heard = record {
  room_ = some "me";
  participants =
      ("me", a_track ∷ [])
      ∷ (
        "bob",
        record { enabled = true; volume = 50 } ∷ record { enabled = true; volume = 50 } ∷ [],
      )
      ∷ [];
  late = [];
  muted_all_except_self = false;
  muted_self = false;
  deafned = false;
  actually_muted = false;
  settings =
      ("bob", record { muted = false; volume = 50 })
      ∷ ("me", record { muted = true; volume = 100 })
      ∷ [];
  own_enabled = true;
}

a_history-run : run 100 a_history (initial 100) ≡ some heard
unfolding run step deafen set_volume mute on_room on_audio_added set_setting update_participant
    update_first update_all_participants update_in get_muted get_volume update_self_muted
    update_audio update_audios update_each add_audio add_audio_in text_discrete participant_added
    participant_removed remove_id
a_history-run = refl

run-initial-IsCurrent_example : IsCurrent 100 heard
run-initial-IsCurrent_example =
    run-initial-IsCurrent 100 a_history {s = heard} a_history-AreProper a_history-run
