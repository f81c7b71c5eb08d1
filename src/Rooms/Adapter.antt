-- ===== src/Rooms/Adapter.antt =====
-- `rooms_room_matrix_adapter` of fubble/temporary_room/server/matrix_rooms_factory_adapter.cpp: the
-- members of a matrix room, and the end of the temporary room when all have left. `on_empty` is a
-- function that `rooms` sets when the room arrives there; calling it before throws: `none`.
pub mod Disposal
use fubble.Base.{
  ℕ, ◌≡◌, refl, ap, ◌∙◌, Bool, true, false, ◌&&◌, String, same, Option, none, some, List, [], ◌∷◌,
  ◌++◌, arith, if◌then◌else◌,
}
use fubble.Base.Map.{lookup, HasUniqueKeys, lookup-erase_self}
use fubble.Base.Runs.{Holds}
use fubble.Matrix.{JoinState, invite, join, leave}
use fubble.Matrix.Users.{Presence, online, offline, unavailable}
use fubble.Rooms.{Name, name_discrete, Rooms, on_empty, remove_found}

-- `user_wrapper`, with the state and the presence of its participant.
pub record Member : Type 0 where
  pub id : String
  pub join_state : JoinState
  pub presence : Presence

pub record Adapter : Type 0 where
  pub own_user_id : String
  pub users : List Member
  pub kicked : List String

-- The adapter, the rooms, and the name under which the room has arrived there.
pub record Server : Type 0 where
  pub adapter : Adapter
  pub rooms : Rooms
  pub arrived : Option Name

abbrev pub has_left : JoinState → Bool
has_left leave = true
has_left _ = false

unfoldable pub is_empty : List Member → Bool
is_empty [] = true
is_empty (m ∷ l) = has_left m.join_state && is_empty l

unfoldable pub check_and_call_participant_count_changed : Server → Option Server
unfolding is_empty on_empty
check_and_call_participant_count_changed s =
    if is_empty s.adapter.users
    then elim s.arrived as (λ _. Option Server) [
      | none ↦ none
      | some name ↦ some (record s { rooms = on_empty name s.rooms })
    ]
    else some s

abbrev pub with_users : List Member → Server → Server
with_users l s = record s { adapter = record s.adapter { users = l } }

unfoldable pub on_join : Member → Server → Option Server
unfolding check_and_call_participant_count_changed
on_join m s =
    if same m.id s.adapter.own_user_id
    then some s
    else check_and_call_participant_count_changed (with_users (s.adapter.users ++ m ∷ []) s)

unfoldable pub set_state : String → JoinState → List Member → List Member
set_state id state [] = []
set_state id state (m ∷ l) =
    (if same m.id id then record m { join_state = state } else m) ∷ set_state id state l

-- The state of the member has changed to this one.
unfoldable pub on_join_state_changed : String → JoinState → Server → Option Server
unfolding check_and_call_participant_count_changed set_state
on_join_state_changed id state s =
    check_and_call_participant_count_changed (with_users (set_state id state s.adapter.users) s)

unfoldable pub set_presence : String → Presence → List Member → List Member
set_presence id presence [] = []
set_presence id presence (m ∷ l) =
    (if same m.id id then record m { presence = presence } else m) ∷ set_presence id presence l

-- The presence of the member has changed to this one.
unfoldable pub on_update : String → Presence → Server → Server
unfolding set_presence
on_update id presence s =
    let t = with_users (set_presence id presence s.adapter.users) s in
    elim presence as (λ _. Server) [
      | offline ↦ record t { adapter = record t.adapter { kicked = id ∷ s.adapter.kicked } }
      | _ ↦ t
    ]
