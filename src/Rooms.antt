-- ===== src/Rooms.antt =====
-- fubble/temporary_room/rooms/rooms.{hpp,cpp}: the server's rooms by name, and the participants who
-- wait for one. A promise is a number; what is asked of the room factory and of the rooms is a log,
-- and their answers come as later calls.
pub mod Names
pub mod Waiting
pub mod Invited
pub mod Adapter
use fubble.Base.{
  ℕ, ◌-◌, ◌+◌, Bool, true, false, ◌&&◌, ◌||◌, String, Option, none, some, List, [], ◌∷◌, leb, ◌==◌,
  if◌then◌else◌, ℕ_discrete,
}
use fubble.Base.Map.{lookup, insert, erase}

-- A room's name, as the bytes of its `std::string`.
abbrev pub Name : Type 0
Name = List ℕ

unfoldable pub name_discrete : Discrete Name
unfolding ℕ_discrete
name_discrete = hlevel ℕ_discrete

-- `::isspace` in the C locale.
unfoldable pub is_space : ℕ → Bool
is_space c = c == b' ' || (leb 9 c && leb c 13)

unfoldable pub to_lower : ℕ → ℕ
to_lower c = if leb b'A' c && leb c b'Z' then c + 32 else c

unfoldable pub remove_whitespaces : Name → Name
unfolding is_space
remove_whitespaces [] = []
remove_whitespaces (c ∷ s) = if is_space c then remove_whitespaces s else c ∷ remove_whitespaces s

unfoldable pub lower_case : Name → Name
unfolding to_lower
lower_case [] = []
lower_case (c ∷ s) = to_lower c ∷ lower_case s

unfoldable pub remove_whitespaces_and_lower_case : Name → Name
unfolding remove_whitespaces lower_case
remove_whitespaces_and_lower_case s = lower_case (remove_whitespaces s)

pub record Participant : Type 0 where
  pub promise : ℕ
  pub user_id : String

-- The room of the factory, as far as this class reads it.
pub record Room : Type 0 where
  pub room_id : String
  pub room_name : Name

pub record RoomAdapter : Type 0 where
  pub room : Option Room
  pub waiting_for_room : List Participant

-- What is asked of others, newest first: `factory.create`, `room->invite` and the future of it that
-- `on_invited` waits for, the promises, and `on_room_count_changed`.
pub data Call : Type 0 where
  create : Name → Call
  invite : Participant → String → Call
  set_value : ℕ → String → Call
  set_exception : ℕ → Call
  room_count_changed : ℕ → Call

pub record Rooms : Type 0 where
  pub rooms : List (Name × RoomAdapter)
  pub calls : List Call

abbrev pub size {ℓ} : {A : Type ℓ} → List A → ℕ
size [] = 0
size (x ∷ l) = 1 + size l

abbrev pub push_back {ℓ} : {A : Type ℓ} → List A → A → List A
push_back [] a = a ∷ []
push_back (x ∷ l) a = x ∷ push_back l a

abbrev pub call : Call → Rooms → Rooms
call c s = record s { calls = c ∷ s.calls }

abbrev pub set_room : Name → RoomAdapter → Rooms → Rooms
set_room n a s = record s { rooms = insert name_discrete n a s.rooms }

-- `get_or_create_room_id`, where the name is in the map: with its room, or without one so far.
unfoldable pub join_found : Name → Participant → RoomAdapter → Option Room → Rooms → Rooms
join_found name add found (some room) s = call (invite add room.room_id) s
join_found name add found none s =
    set_room name (record found { waiting_for_room = push_back found.waiting_for_room add }) s

unfoldable pub join : Name → Participant → Option RoomAdapter → Rooms → Rooms
unfolding join_found
join name add none s =
    let s' = set_room name (record { room = none; waiting_for_room = add ∷ [] }) s in
    call (room_count_changed (size s'.rooms)) (call (create name) s')
join name add (some found) s = join_found name add found found.room s

unfoldable pub get_or_create_room_id : Name → String → ℕ → Rooms → Rooms
unfolding join
get_or_create_room_id name_fix user_id promise s =
    let name = remove_whitespaces_and_lower_case name_fix in
    join name (record { promise = promise; user_id = user_id }) (lookup name_discrete name s.rooms)
      s

unfoldable pub get_room_count : Rooms → ℕ
get_room_count s = size s.rooms

unfoldable pub invite_all : List Participant → String → Rooms → Rooms
invite_all [] id s = s
invite_all (p ∷ l) id s = invite_all l id (call (invite p id) s)

-- `on_room` and `on_new_room`, with the participants who wait under the room's name.
unfoldable pub waiting_in : Option RoomAdapter → List Participant
waiting_in none = []
waiting_in (some found) = found.waiting_for_room

unfoldable pub on_new_room : Room → Rooms → Rooms
unfolding waiting_in
on_new_room room s =
    set_room room.room_name (record { room = some room; waiting_for_room = [] })
      (invite_all (waiting_in (lookup name_discrete room.room_name s.rooms)) room.room_id s)

-- `on_empty`; a name that is not in the map is only logged.
unfoldable pub remove_found : Name → Option RoomAdapter → Rooms → Rooms
remove_found name none s = s
remove_found name (some found) s =
    let s' = record s { rooms = erase name_discrete name s.rooms } in
    call (room_count_changed (size s'.rooms)) s'

unfoldable pub on_empty : Name → Rooms → Rooms
unfolding remove_found
on_empty name s = remove_found name (lookup name_discrete name s.rooms) s

-- `on_invited`, with the participant's room: whether the invitation went through.
unfoldable pub on_invited : Participant → String → Bool → Rooms → Rooms
on_invited p id true s = call (set_value p.promise id) s
on_invited p id false s = call (set_exception p.promise) s
