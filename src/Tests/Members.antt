-- ===== src/Tests/Members.antt =====
-- The rooms of the matrix client and the participants made from their members.
use fubble.Base.{text_discrete, ℕ, ◌≡◌, refl, String, none, some, List, [], ◌∷◌, arith}
use fubble.Matrix.{
  invite, join, leave, RoomParticipant, same_state, set_join_state, get_member_by_id,
  on_event_m_room_member, Custom, RoomSync, member, new_room,
}
use fubble.Matrix.States.{get_custom, sync_customs, sync_custom_comm}
use fubble.Matrix.Rooms.{Rooms, get_room_by_id, on_sync, join_room_by_id}
use fubble.Matrix.Rooms.Unique.{HasUniqueRooms, on_sync-HasUniqueRooms, join_room_by_id_known}
use fubble.Matrix.Users.{PresenceEvent, find, on_sync as users_on_sync}
use fubble.Matrix.Users.Own.{expected, own_events, find-on_sync}
use fubble.Participants.{Participants}
use fubble.Participants.Mirror.{
  IsMirror, AreProper, MemberEvent, follow, nobody, follow-initial-IsMirror,
}

abbrev ann : RoomParticipant
ann = record { user_id = "ann"; join_state = join; join_state_timestamp = 5 }

abbrev custom_at : ℕ → String → Custom
custom_at t content = record { type = "a"; key = "k"; content = content; timestamp = t }

sync_custom_comm_example :
    get_custom "a" "k" (sync_customs (custom_at 2 "x" ∷ custom_at 1 "y" ∷ []) [])
    ≡ get_custom "a" "k" (sync_customs (custom_at 1 "y" ∷ custom_at 2 "x" ∷ []) [])
sync_custom_comm_example =
    sync_custom_comm "a" "k" (custom_at 2 "x") (custom_at 1 "y") [] (omega arith)

abbrev in_room : Rooms
in_room = record { rooms = new_room "r" ∷ []; signals = [] }

abbrev content : RoomSync
content = record { timeline = member "ann" join 5 ∷ []; state = [] }

on_sync-HasUniqueRooms_example :
    HasUniqueRooms (on_sync (("r", content) ∷ ("q", content) ∷ []) ("r" ∷ []) in_room).rooms
unfolding get_room_by_id
on_sync-HasUniqueRooms_example =
    on_sync-HasUniqueRooms (("r", content) ∷ ("q", content) ∷ []) ("r" ∷ []) in_room (refl, tt)

in_room_known : get_room_by_id "r" in_room.rooms ≡ some (new_room "r")
unfolding get_room_by_id text_discrete
in_room_known = refl

join_room_by_id_known_example : ¬ HasUniqueRooms (join_room_by_id "r" in_room).rooms
join_room_by_id_known_example = join_room_by_id_known "r" in_room in_room_known

abbrev a_history : List MemberEvent
a_history = ("ann", join, 5) ∷ ("bob", invite, 6) ∷ ("ann", leave, 4) ∷ ("bob", join, 7) ∷ []

a_history-AreProper : AreProper a_history []
unfolding get_member_by_id on_event_m_room_member same_state set_join_state text_discrete
a_history-AreProper = (refl, (refl, (refl, (refl, tt))))

follow-initial-IsMirror_example :
    IsMirror (follow a_history [] nobody).0 (follow a_history [] nobody).1
follow-initial-IsMirror_example = follow-initial-IsMirror a_history a_history-AreProper

abbrev two : Participants
two = record { participants = "ann" ∷ "bob" ∷ []; notices = [] }

abbrev presence_events : List PresenceEvent
presence_events =
    record { type = "m.presence"; sender = "a"; presence = "online"; displayname = some "A" }
    ∷ record { type = "m.presence"; sender = "b"; presence = "offline"; displayname = none }
    ∷ record { type = "m.presence"; sender = "a"; presence = "unavailable"; displayname = none }
    ∷ []

find-on_sync_example :
    find "a" (users_on_sync presence_events [])
    ≡ expected "a" (own_events "a" presence_events) (find "a" [])
find-on_sync_example = find-on_sync "a" presence_events []
