-- ===== src/Joining.antt =====
-- How the client enters and leaves a room: fubble/client/{joiner,leaver,rooms,room}.cpp. What the
-- servers answer is an argument; the futures run their continuations in order, one at a time, and an
-- exception leaves the chain. A client is its user id, a room its id.
pub mod Versions
pub mod Steps
use fubble.Base.{
  ℕ, Bool, true, false, ◌&&◌, String, Option, none, some, List, [], ◌∷◌, leb, ltb, ◌==◌,
  if◌then◌else◌,
}

-- The bytes of a `std::string`.
abbrev pub Bytes : Type 0
Bytes = List ℕ

-- `s.substr(0, s.find('-'))`.
unfoldable pub before_dash : Bytes → Bytes
before_dash [] = []
before_dash (c ∷ s) = let rest = before_dash s in if c == b'-' then [] else c ∷ rest

-- `a <= b` on `std::string`.
unfoldable pub at_most : Bytes → Bytes → Bool
at_most [] b = true
at_most (x ∷ a) [] = false
at_most (x ∷ a) (y ∷ b) =
    let rest = at_most a b in if ltb x y then true else if x == y then rest else false

-- Whether `on_version` accepts the installed version.
unfoldable pub is_accepted : Bytes → Bytes → Bool
unfolding before_dash at_most
is_accepted minimum installed = at_most (before_dash minimum) (before_dash installed)

pub data Call : Type 0 where
  get_version register_anonymously : Call
  synchronize : String → Call
  set_display_name : String → Call
  temporary_join : String → String → Call
  join_room_by_id : String → Call
  create_room : String → String → Call
  on_set about_to_leave stop_sync close_participants : Call
  leave_room : String → Call

pub data Answer {ℓ} (A : Type ℓ) : Type ℓ where
  value : A → Answer A
  error : Answer A

-- `rooms::room_`, the client that `client_synchronizer` holds, and the calls, newest first.
pub record World : Type 0 where
  pub room_ : Option String
  pub synchronized : Option String
  pub calls : List Call

-- `joiner::parameters`.
pub record Parameters : Type 0 where
  pub name : String
  pub room : String

pub record Answers : Type 0 where
  pub minimum_version : Answer Bytes
  pub client : Answer String
  pub name_set : Answer (Unit {0})
  pub room_id : Answer String
  pub joined : Answer String

unfoldable pub call : Call → World → World
call c w = record w { calls = c ∷ w.calls }

-- `.then(...)`: the continuation runs with the value; an exception is passed on.
unfoldable pub on_value {ℓ} :
    {A : Type ℓ} → Answer A → World → (A → World → Answer String × World) → Answer String × World
on_value (value a) w f = f a w
on_value error w f = (error, w)

-- `rooms::set`.
unfoldable pub set_room : Option String → World → World
set_room r w = record w { room_ = r; calls = on_set ∷ w.calls }

-- `on_room_joined`, and `joiner::on_joined`.
unfoldable pub on_joined : String → String → World → Answer String × World
unfolding call set_room
on_joined client room w = (value room, set_room (some room) (call (create_room client room) w))

unfoldable pub join_room : Parameters → Answers → String → World → Answer String × World
unfolding call on_value on_joined
join_room p a client w =
    on_value a.room_id (call (temporary_join p.room client) w)
      (λ id w. on_value a.joined (call (join_room_by_id id) w) (on_joined client))

-- `on_connected` and `set_name`.
unfoldable pub on_connected : Parameters → Answers → String → World → Answer String × World
unfolding call on_value join_room
on_connected p a client w =
    let w' : World = record (call (synchronize client) w) { synchronized = some client } in
    on_value a.name_set (call (set_display_name p.name) w') (λ _. join_room p a client)

unfoldable pub on_version : Bytes → Bytes → Parameters → Answers → World → Answer String × World
unfolding is_accepted call on_value on_connected
on_version installed minimum p a w =
    if is_accepted minimum installed
    then on_value a.client (call register_anonymously w) (on_connected p a)
    else (error, w)

unfoldable pub join : Bytes → Parameters → Answers → World → Answer String × World
unfolding call on_value on_version
join installed p a w =
    on_value a.minimum_version (call get_version w) (λ minimum. on_version installed minimum p a)

-- `room::leave`: the participants are closed, with an error or without, and so is the room left.
unfoldable pub leave_client_room : Bool → Bool → String → World → Bool × World
unfolding call
leave_client_room closed left r w =
    let w' = call close_participants (call stop_sync w) in
    if closed then (left, call (leave_room r) w') else (false, w')

-- `leaver::leave`: whether it ends without an exception. There is no room to leave: `none`.
unfoldable pub leave : Bool → Bool → World → Option (Bool × World)
unfolding call leave_client_room set_room
leave closed left w = elim w.room_ as (λ _. Option (Bool × World)) [
  | none ↦ none
  | some r ↦
      let t = leave_client_room closed left r (call about_to_leave w) in
      some (t.0, set_room none t.1)
]
