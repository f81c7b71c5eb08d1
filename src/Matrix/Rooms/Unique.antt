-- ===== src/Matrix/Rooms/Unique.antt =====
-- A client has one object for each room.
use fubble.Base.{
  ◌≡◌, refl, ◌≢◌, String, none, some, List, [], ◌∷◌, arith, ◌∙◌, inl, inr, Option-cases,
}
use fubble.Matrix.{Room, RoomSync, Event, new_room, sync, on_event, on_events}
use fubble.Matrix.Rooms.{
  Rooms, get_room_by_id, push_room, write_room, erase_room, do_create_room, join_room_by_id,
  sync_room, on_joins, on_leaves, on_sync,
}

abbrev pub HasUniqueRooms : List Room → Type 0
HasUniqueRooms [] = Unit {0}
HasUniqueRooms (r ∷ l) = (get_room_by_id r.id l ≡ none) × HasUniqueRooms l

on_event-id : (e : Event) (r : Room) → (on_event e r).0.id ≡ r.id
unfolding on_event
on_event-id e r = ground arith

on_events-id : (es : List Event) (r : Room) → (on_events es r).0.id ≡ r.id
unfolding on_events
on_events-id [] r = refl
on_events-id (e ∷ es) r = on_events-id es (on_event e r).0 ∙ on_event-id e r

sync-id : (c : RoomSync) (r : Room) → (sync c r).0.id ≡ r.id
unfolding sync
sync-id c r = on_events-id c.state _ ∙ on_events-id c.timeline r

get_room_by_id-push :
    (i : String) (r : Room) (l : List Room)
    → get_room_by_id i l ≡ none
    → r.id ≢ i
    → get_room_by_id i (push_room l r) ≡ none
unfolding get_room_by_id
get_room_by_id-push i r [] e ne = ground arith
get_room_by_id-push i r (x ∷ l) e ne = ground (arith, get_room_by_id-push i r l)

push_room-HasUniqueRooms :
    (r : Room) (l : List Room)
    → get_room_by_id r.id l ≡ none
    → HasUniqueRooms l
    → HasUniqueRooms (push_room l r)
unfolding get_room_by_id
push_room-HasUniqueRooms r [] e u = (refl, tt)
push_room-HasUniqueRooms r (x ∷ l) e u =
    ground (arith, push_room-HasUniqueRooms r l, get_room_by_id-push x.id r l)

get_room_by_id-write :
    (i id : String) (r : Room) (l : List Room)
    → r.id ≡ id
    → get_room_by_id i l ≡ none
    → get_room_by_id i (write_room id r l) ≡ none
unfolding get_room_by_id write_room
get_room_by_id-write i id r [] e n = refl
get_room_by_id-write i id r (x ∷ l) e n = ground (arith, get_room_by_id-write i id r l)

write_room-HasUniqueRooms :
    (id : String) (r : Room) (l : List Room)
    → r.id ≡ id
    → HasUniqueRooms l
    → HasUniqueRooms (write_room id r l)
unfolding get_room_by_id write_room
write_room-HasUniqueRooms id r [] e u = tt
write_room-HasUniqueRooms id r (x ∷ l) e u =
    ground (arith, write_room-HasUniqueRooms id r l, get_room_by_id-write x.id id r l)

get_room_by_id-erase :
    (i id : String) (l : List Room)
    → get_room_by_id i l ≡ none
    → get_room_by_id i (erase_room id l) ≡ none
unfolding get_room_by_id erase_room
get_room_by_id-erase i id [] n = refl
get_room_by_id-erase i id (x ∷ l) n = ground (arith, get_room_by_id-erase i id l)

erase_room-HasUniqueRooms :
    (id : String) (l : List Room) → HasUniqueRooms l → HasUniqueRooms (erase_room id l)
unfolding get_room_by_id erase_room
erase_room-HasUniqueRooms id [] u = tt
erase_room-HasUniqueRooms id (x ∷ l) u =
    ground (arith, erase_room-HasUniqueRooms id l, get_room_by_id-erase x.id id l)

get_room_by_id-id : (i : String) (l : List Room) {r : Room} → get_room_by_id i l ≡ some r → r.id ≡ i
unfolding get_room_by_id
get_room_by_id-id i [] e = cc
get_room_by_id-id i (x ∷ l) {r} e = ground (arith, get_room_by_id-id i l {r = r})

do_create_room-HasUniqueRooms :
    (id : String) (s : Rooms) → HasUniqueRooms s.rooms → HasUniqueRooms (do_create_room id s).rooms
unfolding do_create_room
do_create_room-HasUniqueRooms id s u = elim (Option-cases (get_room_by_id id s.rooms)) [
  | inl e ↦ rw (e, do_create_room) (push_room-HasUniqueRooms (new_room id) s.rooms e u)
  | inr (r, e) ↦ rw (e, do_create_room) u
]

sync_room-HasUniqueRooms :
    (id : String) (c : RoomSync) (s : Rooms)
    → HasUniqueRooms s.rooms
    → HasUniqueRooms (sync_room id c s).rooms
unfolding sync_room
sync_room-HasUniqueRooms id c s u = elim (Option-cases (get_room_by_id id s.rooms)) [
  | inl e ↦ rw (e, sync_room) u
  | inr (r, e) ↦
      rw (e, sync_room)
        (write_room-HasUniqueRooms id (sync c r).0 s.rooms
          (sync-id c r ∙ get_room_by_id-id id s.rooms e) u)
]

on_joins-HasUniqueRooms :
    (l : List (String × RoomSync)) (s : Rooms)
    → HasUniqueRooms s.rooms
    → HasUniqueRooms (on_joins l s).rooms
unfolding on_joins
on_joins-HasUniqueRooms [] s u = u
on_joins-HasUniqueRooms ((id, c) ∷ l) s u =
    on_joins-HasUniqueRooms l _
      (sync_room-HasUniqueRooms id c (do_create_room id s) (do_create_room-HasUniqueRooms id s u))

on_leaves-HasUniqueRooms :
    (l : List String) (s : Rooms) → HasUniqueRooms s.rooms → HasUniqueRooms (on_leaves l s).rooms
unfolding on_leaves
on_leaves-HasUniqueRooms [] s u = u
on_leaves-HasUniqueRooms (id ∷ l) s u = elim (Option-cases (get_room_by_id id s.rooms)) [
  | inl e ↦ rw (e, on_leaves) (on_leaves-HasUniqueRooms l s u)
  | inr (r, e) ↦
      rw (e, on_leaves) (on_leaves-HasUniqueRooms l _ (erase_room-HasUniqueRooms id s.rooms u))
]

-- A sync response, whatever rooms it names as joined and left, keeps one object for each room.
pub on_sync-HasUniqueRooms :
    (joins : List (String × RoomSync)) (leaves : List String) (s : Rooms)
    → HasUniqueRooms s.rooms
    → HasUniqueRooms (on_sync joins leaves s).rooms
unfolding on_sync
on_sync-HasUniqueRooms joins leaves s u =
    on_leaves-HasUniqueRooms leaves _ (on_joins-HasUniqueRooms joins s u)

get_room_by_id-push_self : (r : Room) (l : List Room) → get_room_by_id r.id (push_room l r) ≢ none
unfolding get_room_by_id
get_room_by_id-push_self r [] e = ground arith
get_room_by_id-push_self r (x ∷ l) e = ground (arith, get_room_by_id-push_self r l)

push_room-not-HasUniqueRooms :
    (r : Room) (l : List Room) {known : Room}
    → get_room_by_id r.id l ≡ some known
    → ¬ HasUniqueRooms (push_room l r)
unfolding get_room_by_id
push_room-not-HasUniqueRooms r [] e u = cc
push_room-not-HasUniqueRooms r (x ∷ l) {known} e u =
    ground (arith, push_room-not-HasUniqueRooms r l {known = known}, get_room_by_id-push_self r l)

-- Joining a room that a sync response has already brought makes a second object for it.
pub join_room_by_id_known :
    (id : String) (s : Rooms) {known : Room}
    → get_room_by_id id s.rooms ≡ some known
    → ¬ HasUniqueRooms (join_room_by_id id s).rooms
unfolding join_room_by_id
join_room_by_id_known id s e = push_room-not-HasUniqueRooms (new_room id) s.rooms e
