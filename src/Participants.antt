-- ===== src/Participants.antt =====
-- fubble/client/participants.cpp: the participants of the client's room, made and removed as the
-- members of the matrix room change. A participant is its id; what `participant::close` does is its
-- own, and its future ends in `on_async_closed`.
pub mod Mirror
use fubble.Base.{
  Bool, true, false, ◌||◌, String, same, Option, none, some, List, [], ◌∷◌, if◌then◌else◌,
}
use fubble.Matrix.{
  JoinState, invite, join, leave, RoomParticipant, Signal, on_join, on_join_state_changed,
}

pub data Notice : Type 0 where
  on_added on_removed : String → Notice

pub record Participants : Type 0 where
  pub participants : List String
  pub notices : List Notice

-- `find(id) != participants_.cend()`.
unfoldable pub contains : String → List String → Bool
contains id [] = false
contains id (x ∷ l) = if same id x then true else contains id l

abbrev pub push_back : List String → String → List String
push_back [] id = id ∷ []
push_back (x ∷ l) id = x ∷ push_back l id

-- `participants_.erase(find(id))`.
unfoldable pub erase : String → List String → List String
erase id [] = []
erase id (x ∷ l) = if same id x then l else x ∷ erase id l

unfoldable pub add : String → Participants → Participants
add id s = record { participants = push_back s.participants id; notices = on_added id ∷ s.notices }

-- Nothing is done for an id that is not there.
unfoldable pub remove_by_id : String → Participants → Participants
unfolding contains erase
remove_by_id id s =
    if contains id s.participants
    then record { participants = erase id s.participants; notices = on_removed id ∷ s.notices }
    else s

-- The end of `close` for one participant.
unfoldable pub on_async_closed : String → Participants → Participants
unfolding remove_by_id
on_async_closed id s = remove_by_id id s

-- The member's state has changed to this one.
unfoldable pub state_changed : String → JoinState → Participants → Participants
unfolding add remove_by_id
state_changed id join s = add id s
state_changed id leave s = remove_by_id id s
state_changed id invite s = s

-- A member appears, in this state.
unfoldable pub member_joins : String → JoinState → Participants → Participants
unfolding add
member_joins id join s = add id s
member_joins id _ s = s

-- The constructor's walk over the members that are there.
unfoldable pub on_matrix_room_participant_joins : List RoomParticipant → Participants → Participants
unfolding member_joins
on_matrix_room_participant_joins [] s = s
on_matrix_room_participant_joins (p ∷ l) s =
    on_matrix_room_participant_joins l (member_joins p.user_id p.join_state s)

-- The room's signals that this class listens to.
unfoldable pub on_signals : List Signal → Participants → Participants
unfolding member_joins state_changed
on_signals [] s = s
on_signals (on_join id state ∷ l) s = on_signals l (member_joins id state s)
on_signals (on_join_state_changed id state ∷ l) s = on_signals l (state_changed id state s)
on_signals (_ ∷ l) s = on_signals l s

unfoldable pub close_all : List String → Participants → Participants
close_all [] s = s
close_all (id ∷ l) s = close_all l (on_async_closed id s)

-- `close`: every participant that is there is closed, one after the other.
unfoldable pub close : Participants → Participants
unfolding close_all on_async_closed
close s = close_all s.participants s
