-- ===== src/Rooms/Waiting.antt =====
-- Who waits for a room, and who is invited.
use mathlib.Core.List.{reverse}
use mathlib.Core.Logic.{ite}
use fubble.Base.{
  ℕ, ◌≡◌, refl, sym, ap, ◌∙◌, ◌≢◌, Bool, true, false, String, Option, none, some, List, [], ◌∷◌,
  ◌++◌, map, reverse-cons_append, subst,
}
use fubble.Base.Map.{
  lookup, HasUniqueKeys, Entries, insert-HasUniqueKeys, erase-HasUniqueKeys, insert-Entries,
  erase-Entries, lookup-insert,
}
use fubble.Rooms.{
  Name, name_discrete, Participant, Room, RoomAdapter, Call, invite, Rooms, push_back,
  get_or_create_room_id, join, join_found, remove_found, waiting_in, invite_all, on_new_room,
  on_empty, on_invited, call, set_room,
}

pub data Event : Type 0 where
  asks : Name → String → ℕ → Event
  new_room : Room → Event
  empty : Name → Event
  invited : Participant → String → Bool → Event

unfoldable pub step : Event → Rooms → Rooms
step (asks n u p) s = get_or_create_room_id n u p s
step (new_room r) s = on_new_room r s
step (empty n) s = on_empty n s
step (invited p id done) s = on_invited p id done s

unfoldable pub run : List Event → Rooms → Rooms
run [] s = s
run (e ∷ es) s = run es (step e s)

-- Either there is a room and nobody waits, or somebody waits for the room.
abbrev pub IsTidy : Name → RoomAdapter → Type 0
IsTidy n a = elim a.room [ none ↦ a.waiting_for_room ≢ [] | some r ↦ a.waiting_for_room ≡ [] ]

pub record IsValid (s : Rooms) : Type 0 where
  pub unique : HasUniqueKeys name_discrete s.rooms
  pub tidy : Entries name_discrete IsTidy s.rooms

push_back-ne-nil : (l : List Participant) (p : Participant) → push_back l p ≢ []
push_back-ne-nil [] p e = cc
push_back-ne-nil (x ∷ l) p e = cc

set_room-IsValid :
    (n : Name) (a : RoomAdapter) (s : Rooms) → IsTidy n a → IsValid s → IsValid (set_room n a s)
set_room-IsValid n a s t v = record {
  unique = insert-HasUniqueKeys name_discrete n a s.rooms v.unique;
  tidy = insert-Entries name_discrete IsTidy n a s.rooms t v.tidy;
}

pub invite_all_rooms :
    (l : List Participant) (id : String) (s : Rooms) → (invite_all l id s).rooms ≡ s.rooms
unfolding invite_all
invite_all_rooms [] id s = refl
invite_all_rooms (p ∷ l) id s = invite_all_rooms l id _

join_found-IsValid :
    (n : Name) (p : Participant) (a : RoomAdapter) (r : Option Room) (s : Rooms)
    → a.room ≡ r
    → IsValid s
    → IsValid (join_found n p a r s)
unfolding join_found
join_found-IsValid n p a (some r) s e v = record { unique = v.unique; tidy = v.tidy }
join_found-IsValid n p a none s e v =
    set_room-IsValid n (record a { waiting_for_room = push_back a.waiting_for_room p }) s
      (rw (e, IsTidy) (push_back-ne-nil a.waiting_for_room p)) v

join-IsValid :
    (n : Name) (p : Participant) (o : Option RoomAdapter) (s : Rooms)
    → IsValid s
    → IsValid (join n p o s)
unfolding join
join-IsValid n p none s v =
    let w = set_room-IsValid n (record { room = none; waiting_for_room = p ∷ [] }) s (λ e. cc) v in
    record { unique = w.unique; tidy = w.tidy }
join-IsValid n p (some a) s v = join_found-IsValid n p a a.room s refl v

on_new_room-IsValid : (r : Room) (s : Rooms) → IsValid s → IsValid (on_new_room r s)
unfolding on_new_room
on_new_room-IsValid r s v =
    let waiting = waiting_in (lookup name_discrete r.room_name s.rooms) in
    let same = sym (invite_all_rooms waiting r.room_id s) in
    set_room-IsValid r.room_name (record { room = some r; waiting_for_room = [] }) _ refl
      (record {
        unique = subst (HasUniqueKeys name_discrete) same v.unique;
        tidy = subst (Entries name_discrete IsTidy) same v.tidy;
      })

remove_found-IsValid :
    (n : Name) (o : Option RoomAdapter) (s : Rooms) → IsValid s → IsValid (remove_found n o s)
unfolding remove_found
remove_found-IsValid n none s v = v
remove_found-IsValid n (some a) s v = record {
  unique = erase-HasUniqueKeys name_discrete n s.rooms v.unique;
  tidy = erase-Entries name_discrete IsTidy n s.rooms v.tidy;
}

pub step-IsValid : (e : Event) (s : Rooms) → IsValid s → IsValid (step e s)
unfolding step get_or_create_room_id on_empty on_invited
step-IsValid (asks n u p) s v = join-IsValid _ (record { promise = p; user_id = u }) _ s v
step-IsValid (new_room r) s v = on_new_room-IsValid r s v
step-IsValid (empty n) s v = remove_found-IsValid n _ s v
step-IsValid (invited p id true) s v = record { unique = v.unique; tidy = v.tidy }
step-IsValid (invited p id false) s v = record { unique = v.unique; tidy = v.tidy }

abbrev pub initial : Rooms
initial = record { rooms = []; calls = [] }

run-IsValid : (es : List Event) (s : Rooms) → IsValid s → IsValid (run es s)
unfolding run
run-IsValid [] s v = v
run-IsValid (e ∷ es) s v = run-IsValid es (step e s) (step-IsValid e s v)

-- After any history, no name is in the map twice, and nobody waits for a room that is there, nor is
-- there a name without a room for which nobody waits.
pub run-initial-IsValid : (es : List Event) → IsValid (run es initial)
run-initial-IsValid es = run-IsValid es initial (record { unique = tt; tidy = tt })

-- The participants who were invited, the newest first.
abbrev pub invites : List Participant → String → List Call
invites l id = reverse (map (λ p. invite p id) l)

invite_all_lem :
    (l : List Participant) (id : String) (s : Rooms)
    → invite_all l id s ≡ record s { calls = invites l id ++ s.calls }
unfolding invite_all
invite_all_lem [] id s = refl
invite_all_lem (p ∷ l) id s =
    invite_all_lem l id (call (invite p id) s)
    ∙ ap (λ c. record s { calls = c })
        (sym (reverse-cons_append (map (λ q. invite q id) l) (invite p id) s.calls))

-- When a room arrives, those who wait under its name are invited in the order in which they came and
-- nobody waits any more; every other name has what it had.
on_new_room_lem :
    (r : Room) (n : Name) (s : Rooms)
    → let s' = on_new_room r s in
      (s'.calls
        ≡ invites (waiting_in (lookup name_discrete r.room_name s.rooms)) r.room_id ++ s.calls)
      × (lookup name_discrete n s'.rooms
          ≡ ite
              (name_discrete r.room_name n)
              (some (record { room = some r; waiting_for_room = [] }))
              (lookup name_discrete n s.rooms))
unfolding on_new_room
on_new_room_lem r n s =
    let waiting = waiting_in (lookup name_discrete r.room_name s.rooms) in
    (
      rw (invite_all_lem waiting r.room_id s),
      rw (invite_all_lem waiting r.room_id s) (
          lookup-insert name_discrete r.room_name n
            (record { room = some r; waiting_for_room = [] }) s.rooms),
    )
