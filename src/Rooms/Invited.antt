-- ===== src/Rooms/Invited.antt =====
-- Everybody who asks for a room is invited once, or waits.
use fubble.Base.{
  ℕ, suc, ◌+◌, ◌≡◌, refl, ap, true, false, String, Option, none, some, List, [], ◌∷◌, arith,
}
use fubble.Base.Map.{lookup, insert, erase, lookup-Entries}
use fubble.Rooms.{
  Name, name_discrete, Participant, Room, RoomAdapter, Call, invite, Rooms, size, push_back,
  get_or_create_room_id, join, join_found, remove_found, waiting_in, invite_all, on_new_room,
  on_empty, on_invited, call,
}
use fubble.Rooms.Waiting.{
  Event, asks, new_room, empty, invited, step, run, IsTidy, IsValid, initial, step-IsValid,
  invite_all_rooms,
}

abbrev pub invited_count : List Call → ℕ
invited_count [] = 0
invited_count (invite p id ∷ l) = suc (invited_count l)
invited_count (_ ∷ l) = invited_count l

abbrev pub waiting_count : List (Name × RoomAdapter) → ℕ
waiting_count [] = 0
waiting_count ((n, a) ∷ m) = size a.waiting_for_room + waiting_count m

abbrev pub waiting_at : Option RoomAdapter → ℕ
waiting_at none = 0
waiting_at (some a) = size a.waiting_for_room

waiting_count-insert :
    (n : Name) (a : RoomAdapter) (m : List (Name × RoomAdapter))
    → waiting_count (insert name_discrete n a m) + waiting_at (lookup name_discrete n m)
      ≡ waiting_count m + size a.waiting_for_room
waiting_count-insert n a [] = omega arith
waiting_count-insert n a ((j, b) ∷ m) = ground (arith, waiting_count-insert n a m)

waiting_count-erase :
    (n : Name) (m : List (Name × RoomAdapter))
    → waiting_count (erase name_discrete n m) + waiting_at (lookup name_discrete n m)
      ≡ waiting_count m
waiting_count-erase n [] = omega arith
waiting_count-erase n ((j, b) ∷ m) = ground (arith, waiting_count-erase n m)

size-push_back : (l : List Participant) (p : Participant) → size (push_back l p) ≡ size l + 1
size-push_back [] p = omega arith
size-push_back (x ∷ l) p = omega (arith, size-push_back l p)

invited_count-invite_all :
    (l : List Participant) (id : String) (s : Rooms)
    → invited_count (invite_all l id s).calls ≡ size l + invited_count s.calls
unfolding invite_all
invited_count-invite_all [] id s = omega arith
invited_count-invite_all (p ∷ l) id s =
    omega (arith, invited_count-invite_all l id (call (invite p id) s))

abbrev pub placed : Rooms → ℕ
placed s = invited_count s.calls + waiting_count s.rooms

join_found-placed :
    (n : Name) (p : Participant) (a : RoomAdapter) (r : Option Room) (s : Rooms)
    → lookup name_discrete n s.rooms ≡ some a
    → placed (join_found n p a r s) ≡ placed s + 1
unfolding join_found
join_found-placed n p a (some r) s e = omega arith
join_found-placed n p a none s e = omega (
  arith,
  waiting_count-insert n (record a { waiting_for_room = push_back a.waiting_for_room p }) s.rooms,
  size-push_back a.waiting_for_room p,
  ap waiting_at e,
)

join-placed :
    (n : Name) (p : Participant) (o : Option RoomAdapter) (s : Rooms)
    → lookup name_discrete n s.rooms ≡ o
    → placed (join n p o s) ≡ placed s + 1
unfolding join
join-placed n p none s e = omega (
  arith,
  waiting_count-insert n (record { room = none; waiting_for_room = p ∷ [] }) s.rooms,
  ap waiting_at e,
)
join-placed n p (some a) s e = join_found-placed n p a a.room s e

size-waiting_in : (o : Option RoomAdapter) → size (waiting_in o) ≡ waiting_at o
unfolding waiting_in
size-waiting_in none = refl
size-waiting_in (some a) = refl

on_new_room-placed : (r : Room) (s : Rooms) → placed (on_new_room r s) ≡ placed s
unfolding on_new_room
on_new_room-placed r s =
    let o = lookup name_discrete r.room_name s.rooms in
    omega (
      arith,
      waiting_count-insert r.room_name (record { room = some r; waiting_for_room = [] })
          (invite_all (waiting_in o) r.room_id s).rooms,
      ap waiting_count (invite_all_rooms (waiting_in o) r.room_id s),
      ap (λ m. waiting_at (lookup name_discrete r.room_name m))
          (invite_all_rooms (waiting_in o) r.room_id s),
      invited_count-invite_all (waiting_in o) r.room_id s,
      size-waiting_in o,
    )

remove_found-placed :
    (n : Name) (o : Option RoomAdapter) (s : Rooms)
    → lookup name_discrete n s.rooms ≡ o
    → placed (remove_found n o s) + waiting_at o ≡ placed s
unfolding remove_found
remove_found-placed n none s e = omega arith
remove_found-placed n (some a) s e = omega (arith, waiting_count-erase n s.rooms, ap waiting_at e)

-- When a room says that it is empty, whoever waits under its name is forgotten: neither invited nor
-- waiting any more.
pub on_empty-placed :
    (n : Name) (s : Rooms)
    → placed (on_empty n s) + waiting_at (lookup name_discrete n s.rooms) ≡ placed s
unfolding on_empty
on_empty-placed n s = remove_found-placed n (lookup name_discrete n s.rooms) s refl

-- The rooms that say that they are empty are those of the map.
abbrev pub HasRoom : Option RoomAdapter → Type 0
HasRoom none = Unit {0}
HasRoom (some a) = (r : Room) × (a.room ≡ some r)

abbrev pub IsOrderly : List Event → Rooms → Type 0
IsOrderly [] s = Unit {0}
IsOrderly (empty n ∷ es) s =
    HasRoom (lookup name_discrete n s.rooms) × IsOrderly es (step (empty n) s)
IsOrderly (e ∷ es) s = IsOrderly es (step e s)

abbrev pub requests : List Event → ℕ
requests [] = 0
requests (asks n u p ∷ es) = suc (requests es)
requests (_ ∷ es) = requests es

nobody_waits :
    (n : Name) (o : Option RoomAdapter) (s : Rooms)
    → IsValid s
    → lookup name_discrete n s.rooms ≡ o
    → HasRoom o
    → waiting_at o ≡ 0
nobody_waits n none s v e h = refl
nobody_waits n (some a) s v e (r, has) =
    ap size (rw (has, IsTidy) at (lookup-Entries name_discrete IsTidy n s.rooms v.tidy e))

abbrev is_request : Event → ℕ
is_request (asks n u p) = 1
is_request _ = 0

step-placed :
    (e : Event) (s : Rooms)
    → IsValid s
    → IsOrderly (e ∷ []) s
    → placed (step e s) ≡ placed s + is_request e
unfolding step get_or_create_room_id on_empty on_invited
step-placed (asks n u p) s v o = join-placed _ (record { promise = p; user_id = u }) _ s refl
step-placed (new_room r) s v o = omega (arith, on_new_room-placed r s)
step-placed (empty n) s v o = omega (
  arith,
  remove_found-placed n _ s refl,
  nobody_waits n (lookup name_discrete n s.rooms) s v refl o.0,
)
step-placed (invited p id true) s v o = omega arith
step-placed (invited p id false) s v o = omega arith

run-placed :
    (es : List Event) (s : Rooms)
    → IsValid s
    → IsOrderly es s
    → placed (run es s) ≡ placed s + requests es
unfolding run
run-placed [] s v o = omega arith
run-placed (asks n u p ∷ es) s v o =
    let e = asks n u p in
    omega (arith, run-placed es (step e s) (step-IsValid e s v) o, step-placed e s v tt)
run-placed (new_room r ∷ es) s v o =
    let e = new_room r in
    omega (arith, run-placed es (step e s) (step-IsValid e s v) o, step-placed e s v tt)
run-placed (empty n ∷ es) s v o =
    let e = empty n in
    omega (arith, run-placed es (step e s) (step-IsValid e s v) o.1, step-placed e s v (o.0, tt))
run-placed (invited p id b ∷ es) s v o =
    let e = invited p id b in
    omega (arith, run-placed es (step e s) (step-IsValid e s v) o, step-placed e s v tt)

-- Over any history in which only rooms of the map report that they are empty, as many participants
-- were invited or are waiting as have asked for a room.
pub run-initial-placed :
    (es : List Event)
    → IsOrderly es initial
    → invited_count (run es initial).calls + waiting_count (run es initial).rooms ≡ requests es
run-initial-placed es o = omega (arith, run-placed es initial (record { unique = tt; tidy = tt }) o)
