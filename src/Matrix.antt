-- ===== src/Matrix.antt =====
-- fubble/matrix: what the client library keeps of a room. Events come parsed: the members' state,
-- the room's name, chat messages and custom state events. A user is its id.
pub mod Members
pub mod States
pub mod Reading
pub mod Rooms
pub mod Sync
pub mod Users
use fubble.Base.{
  ℕ, ◌+◌, Bool, true, false, ◌&&◌, String, same, Option, none, some, List, [], ◌∷◌, ltb,
  if◌then◌else◌,
}

pub data JoinState : Type 0 where
  invite join leave : JoinState

unfoldable pub same_state : JoinState → JoinState → Bool
same_state invite invite = true
same_state join join = true
same_state leave leave = true
same_state _ _ = false

-- `room_participant`: time stamps are milliseconds.
pub record RoomParticipant : Type 0 where
  pub user_id : String
  pub join_state : JoinState
  pub join_state_timestamp : ℕ

-- The new participant, and whether `on_join_state_changed` is called.
unfoldable pub set_join_state : JoinState → ℕ → RoomParticipant → RoomParticipant × Bool
set_join_state new timestamp p =
    if same_state p.join_state new
    then (p, false)
    else (if ltb timestamp p.join_state_timestamp
        then (p, false)
        else (record p { join_state = new; join_state_timestamp = timestamp }, true))

-- The signals of `room`, `chat` and `room_states`.
pub data Signal : Type 0 where
  on_join : String → JoinState → Signal
  on_join_state_changed : String → JoinState → Signal
  on_name_changed : String → Signal
  on_message : String → String → Signal
  on_custom : String → String → Signal

pub record Message : Type 0 where
  pub body : String
  pub timestamp : ℕ
  pub sender : String

-- `room_states_impl::custom_container`.
pub record Custom : Type 0 where
  pub type : String
  pub key : String
  pub content : String
  pub timestamp : ℕ

pub record Room : Type 0 where
  pub id : String
  pub name : Option String
  pub members : List RoomParticipant
  pub messages : List Message
  pub customs : List Custom

pub data Event : Type 0 where
  member : String → JoinState → ℕ → Event
  room_name : String → Event
  message : Message → Event
  custom : Custom → Event

abbrev pub push_back {ℓ} : {A : Type ℓ} → List A → A → List A
push_back [] a = a ∷ []
push_back (x ∷ l) a = x ∷ push_back l a

-- `get_member_by_id`.
unfoldable pub get_member_by_id : String → List RoomParticipant → Option RoomParticipant
get_member_by_id id [] = none
get_member_by_id id (p ∷ l) = if same p.user_id id then some p else get_member_by_id id l

-- `on_event_m_room_member`: the first member of that id is changed, or a new one goes to the end.
unfoldable pub on_event_m_room_member :
    String → JoinState → ℕ → List RoomParticipant → List RoomParticipant × List Signal
unfolding set_join_state
on_event_m_room_member id state timestamp [] = (
  record { user_id = id; join_state = state; join_state_timestamp = timestamp } ∷ [],
  on_join id state ∷ [],
)
on_event_m_room_member id state timestamp (p ∷ l) =
    let (p', changed) = set_join_state state timestamp p in
    let (l', signals) = on_event_m_room_member id state timestamp l in
    if same p.user_id id
    then (p' ∷ l, if changed then on_join_state_changed id state ∷ [] else [])
    else (p ∷ l', signals)

-- `room_states_impl::sync_event`.
unfoldable pub sync_custom : Custom → List Custom → List Custom × List Signal
sync_custom c [] = (c ∷ [], on_custom c.type c.key ∷ [])
sync_custom c (x ∷ l) =
    let (l', signals) = sync_custom c l in
    if same x.type c.type && same x.key c.key
    then (if ltb x.timestamp c.timestamp then (c ∷ l, on_custom c.type c.key ∷ []) else (x ∷ l, []))
    else (x ∷ l', signals)

-- One event of `on_events`: the chat and the states take their kinds, and the room the others.
unfoldable pub on_event : Event → Room → Room × List Signal
on_event (member id state timestamp) r =
    let (members, signals) = on_event_m_room_member id state timestamp r.members in
    (record r { members = members }, signals)
on_event (room_name n) r = (record r { name = some n }, on_name_changed n ∷ [])
on_event (message m) r =
    (record r { messages = push_back r.messages m }, on_message m.sender m.body ∷ [])
on_event (custom c) r =
    let (customs, signals) = sync_custom c r.customs in (record r { customs = customs }, signals)

abbrev pub append_signals : List Signal → List Signal → List Signal
append_signals [] l = l
append_signals (x ∷ k) l = x ∷ append_signals k l

unfoldable pub on_events : List Event → Room → Room × List Signal
unfolding on_event
on_events [] r = (r, [])
on_events (e ∷ es) r =
    let (r', signals) = on_event e r in
    let (r'', signals') = on_events es r' in (r'', append_signals signals signals')

-- A room's part of a sync response; `sync` reads the timeline before the state.
pub record RoomSync : Type 0 where
  pub timeline : List Event
  pub state : List Event

unfoldable pub sync : RoomSync → Room → Room × List Signal
unfolding on_events
sync content r =
    let (r', signals) = on_events content.timeline r in
    let (r'', signals') = on_events content.state r' in (r'', append_signals signals signals')

abbrev pub new_room : String → Room
new_room id = record { id = id; name = none; members = []; messages = []; customs = [] }
