-- ===== src/AudioVolume.antt =====
-- fubble/client/audio_tracks_volume.cpp: which audio tracks are enabled and how loud, from the flags
-- that the user sets. A volume is only stored and handed on.
pub mod Current
pub mod Operations
pub mod History
use fubble.Base.{
  Bool, true, false, not, ◌&&◌, ◌||◌, String, same, Option, none, some, List, [], ◌∷◌, ◌++◌,
  if◌then◌else◌, text_discrete,
}
use fubble.Base.Map.{lookup, insert}

pub record AudioTrack (Volume : Type 0) : Type 0 where
  pub enabled : Bool
  pub volume : Volume

pub record AudioSetting (Volume : Type 0) : Type 0 where
  pub muted : Bool
  pub volume : Volume

-- The participants who were there when the room was set, whose new tracks are listened to, are in
-- `participants` with their audio tracks, and those who came later, who are not listened to, in
-- `late`; `room_` is the client's own id in the room. `own_enabled` is the state of the client's own track.
pub record AudioVolume (Volume : Type 0) : Type 0 where
  pub room_ : Option String
  pub participants : List (String × List (AudioTrack Volume))
  pub late : List (String × List (AudioTrack Volume))
  pub muted_all_except_self : Bool
  pub muted_self : Bool
  pub deafned : Bool
  pub actually_muted : Bool
  pub settings : List (String × AudioSetting Volume)
  pub own_enabled : Bool

module _ {Volume : Type 0} (full : Volume) where
  abbrev pub or_default : Option (AudioSetting Volume) → AudioSetting Volume
  or_default none = record { muted = false; volume = full }
  or_default (some x) = x

  unfoldable pub get_volume : String → AudioVolume Volume → Volume
  get_volume id s = (or_default (lookup text_discrete id s.settings)).volume

  unfoldable pub get_muted : String → AudioVolume Volume → Bool
  get_muted id s = (or_default (lookup text_discrete id s.settings)).muted

  -- `update_audio`, in a room: the own tracks are left alone.
  unfoldable pub update_audio :
      AudioVolume Volume → String → String → AudioTrack Volume → AudioTrack Volume
  update_audio s own_id id t =
      if same id own_id
      then t
      else (if s.muted_all_except_self || (s.deafned || get_muted id s)
          then record t { enabled = false }
          else record t { enabled = true; volume = get_volume id s })

  unfoldable pub update_audios :
      AudioVolume Volume → String → String → List (AudioTrack Volume) → List (AudioTrack Volume)
  update_audios s own_id id [] = []
  update_audios s own_id id (t ∷ l) = update_audio s own_id id t ∷ update_audios s own_id id l

  unfoldable pub update_each :
      AudioVolume Volume
      → String
      → List (String × List (AudioTrack Volume))
      → List (String × List (AudioTrack Volume))
  update_each s own_id [] = []
  update_each s own_id ((id, l) ∷ ps) = (id, update_audios s own_id id l) ∷ update_each s own_id ps

  -- Without a room nothing is done.
  unfoldable pub update_in :
      Option String
      → AudioVolume Volume
      → List (String × List (AudioTrack Volume))
      → List (String × List (AudioTrack Volume))
  update_in none s ps = ps
  update_in (some own_id) s ps = update_each s own_id ps

  unfoldable pub update_all_participants : AudioVolume Volume → AudioVolume Volume
  update_all_participants s = record s {
    participants = update_in s.room_ s s.participants;
    late = update_in s.room_ s s.late;
  }

  abbrev pub has_id : String → List (String × List (AudioTrack Volume)) → Bool
  has_id id [] = false
  has_id id ((j, l) ∷ ps) = if same j id then true else has_id id ps

  -- The participant that `participants::get` finds, the first of that id.
  unfoldable pub update_first :
      AudioVolume Volume
      → String
      → String
      → List (String × List (AudioTrack Volume))
      → List (String × List (AudioTrack Volume))
  update_first s own_id id [] = []
  update_first s own_id id ((j, l) ∷ ps) =
      if same j id
      then (j, update_audios s own_id j l) ∷ ps
      else (j, l) ∷ update_first s own_id id ps

  -- Without a room `participants_` is null, and `update_participant` dereferences it.
  unfoldable pub update_participant_in :
      Option String → String → AudioVolume Volume → Option (AudioVolume Volume)
  update_participant_in none id s = none
  update_participant_in (some own_id) id s = some (record s {
    participants = update_first s own_id id s.participants;
    late = if has_id id s.participants then s.late else update_first s own_id id s.late;
  })

  unfoldable pub update_participant : String → AudioVolume Volume → Option (AudioVolume Volume)
  unfolding update_participant_in
  update_participant id s = update_participant_in s.room_ id s

  unfoldable pub update_self_muted : AudioVolume Volume → AudioVolume Volume
  update_self_muted s =
      let target = s.muted_self || s.deafned in
      if (if s.actually_muted then target else not target)
      then s
      else record s { actually_muted = target; own_enabled = not target }

  abbrev pub equal : Bool → Bool → Bool
  equal a b = if a then b else not b

  unfoldable pub mute_all_except_self : Bool → AudioVolume Volume → AudioVolume Volume
  mute_all_except_self b s =
      if equal s.muted_all_except_self b
      then s
      else update_all_participants (record s { muted_all_except_self = b })

  unfoldable pub mute_self : Bool → AudioVolume Volume → AudioVolume Volume
  mute_self b s =
      if equal b s.muted_self then s else update_self_muted (record s { muted_self = b })

  unfoldable pub deafen : Bool → AudioVolume Volume → AudioVolume Volume
  deafen b s =
      if equal s.deafned b
      then s
      else update_self_muted (update_all_participants (record s { deafned = b }))

  unfoldable pub set_setting :
      String → AudioSetting Volume → AudioVolume Volume → AudioVolume Volume
  set_setting id x s = record s { settings = insert text_discrete id x s.settings }

  unfoldable pub set_volume : String → Volume → AudioVolume Volume → Option (AudioVolume Volume)
  set_volume id v s =
      let set = or_default (lookup text_discrete id s.settings) in
      update_participant id (set_setting id (record set { volume = v }) s)

  unfoldable pub mute : String → Bool → AudioVolume Volume → Option (AudioVolume Volume)
  mute id b s =
      let set = or_default (lookup text_discrete id s.settings) in
      update_participant id (set_setting id (record set { muted = b }) s)

  -- `on_room`, called with another room than the present one, and its participants.
  unfoldable pub on_room :
      Option (String × List (String × List (AudioTrack Volume)))
      → AudioVolume Volume
      → AudioVolume Volume
  on_room none s = record s { room_ = none; participants = []; late = [] }
  on_room (some (own_id, ps)) s =
      update_all_participants (record s { room_ = some own_id; participants = ps; late = [] })

  -- A participant who was there when the room was set gets an audio track.
  unfoldable pub add_audio :
      AudioVolume Volume
      → String
      → String
      → AudioTrack Volume
      → List (String × List (AudioTrack Volume))
      → List (String × List (AudioTrack Volume))
  add_audio s own_id id t [] = []
  add_audio s own_id id t ((j, l) ∷ ps) =
      if same j id
      then (j, update_audio s own_id j t ∷ l) ∷ ps
      else (j, l) ∷ add_audio s own_id id t ps

  unfoldable pub add_audio_in :
      Option String
      → AudioVolume Volume
      → String
      → AudioTrack Volume
      → List (String × List (AudioTrack Volume))
      → List (String × List (AudioTrack Volume))
  add_audio_in none s id t ps = ps
  add_audio_in (some own_id) s id t ps = add_audio s own_id id t ps

  -- One who came later gets it: nothing is called.
  unfoldable pub add_late :
      String
      → AudioTrack Volume
      → List (String × List (AudioTrack Volume))
      → List (String × List (AudioTrack Volume))
  add_late id t [] = []
  add_late id t ((j, l) ∷ ps) = if same j id then (j, t ∷ l) ∷ ps else (j, l) ∷ add_late id t ps

  unfoldable pub on_audio_added :
      String → AudioTrack Volume → AudioVolume Volume → AudioVolume Volume
  unfolding add_audio_in add_late
  on_audio_added id t s = record s {
    participants = add_audio_in s.room_ s id t s.participants;
    late = if has_id id s.participants then s.late else add_late id t s.late;
  }

  -- The participants of the room change, which nothing here listens to.
  unfoldable pub participant_added :
      String → List (AudioTrack Volume) → AudioVolume Volume → AudioVolume Volume
  participant_added id l s = record s { late = s.late ++ (id, l) ∷ [] }

  unfoldable pub remove_id :
      String → List (String × List (AudioTrack Volume)) → List (String × List (AudioTrack Volume))
  remove_id id [] = []
  remove_id id ((j, l) ∷ ps) = if same j id then ps else (j, l) ∷ remove_id id ps

  unfoldable pub participant_removed : String → AudioVolume Volume → AudioVolume Volume
  unfolding remove_id
  participant_removed id s = record s {
    participants = remove_id id s.participants;
    late = if has_id id s.participants then s.late else remove_id id s.late;
  }

  -- No room, nothing muted.
  abbrev pub initial : AudioVolume Volume
  initial = record {
    room_ = none;
    participants = [];
    late = [];
    muted_all_except_self = false;
    muted_self = false;
    deafned = false;
    actually_muted = false;
    settings = [];
    own_enabled = true;
  }
