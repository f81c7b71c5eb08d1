-- ===== src/Rooms/Adapter/Disposal.antt =====
-- That the temporary room ends when the last of its members leaves.
use fubble.Base.{
  ◌≡◌, refl, sym, Bool, true, ◌&&◌, ◌||◌, String, same, Option, none, some, List, [], ◌∷◌, arith,
}
use fubble.Base.Map.{lookup, HasUniqueKeys, lookup-erase_self}
use fubble.Base.Runs.{Holds}
use fubble.Matrix.{leave}
use fubble.Rooms.{Name, name_discrete, Rooms, RoomAdapter, on_empty, remove_found}
use fubble.Rooms.Adapter.{
  Member, Server, has_left, is_empty, check_and_call_participant_count_changed, set_state,
  on_join_state_changed,
}

-- All but the one with this id have left.
abbrev pub others_left : String → List Member → Bool
others_left id [] = true
others_left id (m ∷ l) = (same m.id id || has_left m.join_state) && others_left id l

set_state-is_empty :
    (id : String) (l : List Member)
    → others_left id l ≡ true
    → is_empty (set_state id leave l) ≡ true
unfolding set_state is_empty
set_state-is_empty id [] h = refl
set_state-is_empty id (m ∷ l) h = ground (arith, set_state-is_empty id l)

on_empty-lookup :
    (name : Name) (s : Rooms)
    → HasUniqueKeys name_discrete s.rooms
    → lookup name_discrete name (on_empty name s).rooms ≡ none
unfolding on_empty remove_found
on_empty-lookup name s u = branch (lookup name_discrete name s.rooms) refl
  where
    branch :
        (o : Option RoomAdapter)
        → o ≡ lookup name_discrete name s.rooms
        → lookup name_discrete name (remove_found name o s).rooms ≡ none
    branch none e = sym e
    branch (some a) e = lookup-erase_self name_discrete name s.rooms u

-- When a member leaves a room that has arrived under a name, and all others have left already, the
-- rooms hold no room of this name any more.
pub last_leaves :
    (id : String) (name : Name) (s : Server)
    → s.arrived ≡ some name
    → HasUniqueKeys name_discrete s.rooms.rooms
    → others_left id s.adapter.users ≡ true
    → Holds (λ t. lookup name_discrete name t.rooms.rooms ≡ none) (on_join_state_changed id leave s)
unfolding on_join_state_changed check_and_call_participant_count_changed
last_leaves id name s a u h =
    rw (set_state-is_empty id s.adapter.users h, a) (on_empty-lookup name s.rooms u)
