-- ===== src/MuteDeaf.antt =====
-- fubble/client/mute_deaf_communicator.cpp: every client tells the room whether it is muted and
-- deafened, by a custom state under its own id, and keeps what the others tell.
pub mod Exchange
use fubble.Base.{
  Bool, true, false, not, ◌&&◌, ◌||◌, String, same, Option, none, some, List, [], ◌∷◌,
  if◌then◌else◌, text_discrete,
}
use fubble.Base.Map.{lookup, insert}

-- The `data` of `room_states::custom`: the two members that are looked for, each of which may be
-- missing. That `send_state` and `on_custom` spell their keys alike is not part of the model.
pub record Data : Type 0 where
  pub deafed : Option Bool
  pub muted : Option Bool

pub record Custom : Type 0 where
  pub type : String
  pub key : String
  pub data_ : Data

pub record MuteAndDeaf : Type 0 where
  pub muted : Bool
  pub deafed : Bool

pub data Call : Type 0 where
  set_custom : Custom → Call
  on_deafed on_muted : String → Bool → Call

-- `room_` is the client's own id in the room, if it is in one. Calls are newest first.
pub record Communicator : Type 0 where
  pub room_ : Option String
  pub mutes_and_deafs : List (String × MuteAndDeaf)
  pub self_muted : Bool
  pub self_deafed : Bool
  pub calls : List Call

abbrev pub neither : MuteAndDeaf
neither = record { muted = false; deafed = false }

abbrev pub or_neither : Option MuteAndDeaf → MuteAndDeaf
or_neither none = neither
or_neither (some m) = m

unfoldable pub is_deafed : String → Communicator → Bool
is_deafed id s = (or_neither (lookup text_discrete id s.mutes_and_deafs)).deafed

unfoldable pub is_muted : String → Communicator → Bool
is_muted id s = (or_neither (lookup text_discrete id s.mutes_and_deafs)).muted

abbrev pub state_key : String
state_key = "io.fubble.audio_state"

unfoldable pub own_state : String → Communicator → Custom
own_state own_id s = record {
  type = state_key;
  key = own_id;
  data_ = record { deafed = some s.self_deafed; muted = some s.self_muted };
}

-- `if (!room_) return; send_state();`
unfoldable pub send_state : Communicator → Communicator
unfolding own_state
send_state s = elim s.room_ [
  | none ↦ s
  | some own_id ↦ record s { calls = set_custom (own_state own_id s) ∷ s.calls }
]

unfoldable pub on_self_deafed : Bool → Communicator → Communicator
unfolding send_state
on_self_deafed b s = send_state (record s { self_deafed = b })

unfoldable pub on_self_muted : Bool → Communicator → Communicator
unfolding send_state
on_self_muted b s = send_state (record s { self_muted = b })

unfoldable pub on_room_set : Option String → Communicator → Communicator
unfolding send_state
on_room_set none s = record s { room_ = none; mutes_and_deafs = [] }
on_room_set (some own_id) s =
    let s' = record s { room_ = some own_id } in
    if s.self_deafed || s.self_muted then send_state s' else s'

abbrev pub differs : Bool → Bool → Bool
differs a b = if a then not b else b

-- The two halves of `on_custom`, on the entry of the id.
unfoldable pub change_deafed :
    String → Option Bool → MuteAndDeaf → List Call → MuteAndDeaf × List Call
change_deafed id none m l = (m, l)
change_deafed id (some b) m l =
    if differs m.deafed b then (record m { deafed = b }, on_deafed id b ∷ l) else (m, l)

unfoldable pub change_muted :
    String → Option Bool → MuteAndDeaf → List Call → MuteAndDeaf × List Call
change_muted id none m l = (m, l)
change_muted id (some b) m l =
    if differs m.muted b then (record m { muted = b }, on_muted id b ∷ l) else (m, l)

unfoldable pub change : Custom → MuteAndDeaf → List Call → MuteAndDeaf × List Call
unfolding change_deafed change_muted
change c m l =
    let (m', calls) = change_deafed c.key c.data_.deafed m l in
    change_muted c.key c.data_.muted m' calls

unfoldable pub on_custom : Custom → Communicator → Communicator
on_custom c s =
    let (m, calls) = change c (or_neither (lookup text_discrete c.key s.mutes_and_deafs)) s.calls in
    if same c.type state_key
    then record s {
      mutes_and_deafs = insert text_discrete c.key m s.mutes_and_deafs;
      calls = calls;
    }
    else s
