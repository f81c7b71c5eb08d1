-- ===== src/Matrix/Rooms.antt =====
-- fubble/matrix/rooms.{hpp,cpp}: the rooms that a client is in.
pub mod Unique
use fubble.Base.{
  ℕ, ◌≡◌, refl, Bool, true, false, String, same, Option, none, some, List, [], ◌∷◌, arith,
  if◌then◌else◌,
}
use fubble.Matrix.{Room, RoomSync, new_room, sync}

-- The signals `on_joined` and `on_leave` of `rooms`.
pub data RoomsSignal : Type 0 where
  on_joined on_leave : String → RoomsSignal

pub record Rooms : Type 0 where
  pub rooms : List Room
  pub signals : List RoomsSignal

-- `get_room_by_id` and `find_room_by_id`.
unfoldable pub get_room_by_id : String → List Room → Option Room
get_room_by_id id [] = none
get_room_by_id id (r ∷ l) = if same r.id id then some r else get_room_by_id id l

abbrev pub push_room : List Room → Room → List Room
push_room [] r = r ∷ []
push_room (x ∷ l) r = x ∷ push_room l r

-- A write through the pointer of the room that `find_room_by_id` gave, and `rooms_.erase`.
unfoldable pub write_room : String → Room → List Room → List Room
write_room id r [] = []
write_room id r (x ∷ l) = if same x.id id then r ∷ l else x ∷ write_room id r l

unfoldable pub erase_room : String → List Room → List Room
erase_room id [] = []
erase_room id (x ∷ l) = if same x.id id then l else x ∷ erase_room id l

unfoldable pub on_room_created : Room → Rooms → Rooms
on_room_created r s = record s { rooms = push_room s.rooms r; signals = on_joined r.id ∷ s.signals }

-- `do_create_room`: also the end of `create_room`, with the id that the server gave.
unfoldable pub do_create_room : String → Rooms → Rooms
unfolding get_room_by_id on_room_created
do_create_room id s = elim (get_room_by_id id s.rooms) [
  | none ↦ on_room_created (new_room id) s
  | some r ↦ s
]

-- The end of `join_room_by_id`: the room is made whether or not it is known.
unfoldable pub join_room_by_id : String → Rooms → Rooms
unfolding on_room_created
join_room_by_id id s = on_room_created (new_room id) s

unfoldable pub sync_room : String → RoomSync → Rooms → Rooms
unfolding get_room_by_id write_room
sync_room id content s = elim (get_room_by_id id s.rooms) [
  | none ↦ s
  | some r ↦ record s { rooms = write_room id (sync content r).0 s.rooms }
]

unfoldable pub on_joins : List (String × RoomSync) → Rooms → Rooms
unfolding do_create_room sync_room
on_joins [] s = s
on_joins ((id, content) ∷ l) s = on_joins l (sync_room id content (do_create_room id s))

unfoldable pub on_leaves : List String → Rooms → Rooms
unfolding get_room_by_id erase_room
on_leaves [] s = s
on_leaves (id ∷ l) s = on_leaves l (elim (get_room_by_id id s.rooms) [
  | none ↦ s
  | some r ↦ record s { rooms = erase_room id s.rooms; signals = on_leave id ∷ s.signals }
])

unfoldable pub on_sync : List (String × RoomSync) → List String → Rooms → Rooms
unfolding on_joins on_leaves
on_sync joins leaves s = on_leaves leaves (on_joins joins s)
