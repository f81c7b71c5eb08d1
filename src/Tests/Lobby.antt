-- ===== src/Tests/Lobby.antt =====
-- The temporary rooms of the server.
use fubble.Base.{◌+◌, ◌≡◌, refl, none, some, List, [], ◌∷◌, text_discrete}
use fubble.Base.Map.{lookup}
use fubble.Base.Runs.{Holds}
use fubble.Matrix.{join, leave}
use fubble.Matrix.Users.{online}
use fubble.Rooms.Adapter.{Member, Server, on_join_state_changed}
use fubble.Rooms.Adapter.Disposal.{last_leaves}
use fubble.Rooms.{
  Name, name_discrete, Room, Rooms, on_new_room, get_or_create_room_id, invite_all,
  remove_whitespaces_and_lower_case,
}
use fubble.Rooms.Waiting.{Event, asks, new_room, empty, run, step, initial}
use fubble.Rooms.Invited.{IsOrderly, invited_count, waiting_count, run-initial-placed}

abbrev a_name : Name
a_name = b'A' ∷ b' ' ∷ b'b' ∷ []

abbrev a_room : Room
a_room = record { room_id = "r"; room_name = b'a' ∷ b'b' ∷ [] }

abbrev a_history : List Event
a_history =
    asks a_name "u" 0
    ∷ asks a_room.room_name "v" 1
    ∷ new_room a_room
    ∷ asks a_name "w" 2
    ∷ empty a_room.room_name
    ∷ []

a_history-IsOrderly : IsOrderly a_history initial
unfolding step get_or_create_room_id on_new_room name_discrete invite_all
    remove_whitespaces_and_lower_case
a_history-IsOrderly = ((a_room, refl), tt)

run-initial-placed_example :
    invited_count (run a_history initial).calls + waiting_count (run a_history initial).rooms ≡ 3
run-initial-placed_example = run-initial-placed a_history a_history-IsOrderly

-- Two participants wait.
abbrev waiting : Rooms
waiting = record {
  rooms =
      (
        a_room.room_name,
        record {
          room = none;
          waiting_for_room =
              record { promise = 0; user_id = "u" } ∷ record { promise = 1; user_id = "v" } ∷ [];
        },
      )
      ∷ [];
  calls = [];
}

abbrev a_member : Member
a_member = record { id = "u"; join_state = join; presence = online }

abbrev a_server : Server
a_server = record {
  adapter = record { own_user_id = "s"; users = a_member ∷ []; kicked = [] };
  rooms = record {
    rooms = (a_room.room_name, record { room = some a_room; waiting_for_room = [] }) ∷ [];
    calls = [];
  };
  arrived = some a_room.room_name;
}

last_leaves_example :
    Holds
      (λ t. lookup name_discrete a_room.room_name t.rooms.rooms ≡ none)
      (on_join_state_changed "u" leave a_server)
unfolding text_discrete
last_leaves_example = last_leaves "u" a_room.room_name a_server refl (refl, tt) refl
