-- ===== src/Joining/Steps.antt =====
-- The order of the steps, and what an error leaves behind.
use fubble.Base.{
  ◌++◌, ◌&&◌, ◌≡◌, refl, Bool, true, false, String, none, some, List, [], ◌∷◌, if◌then◌else◌,
}
use fubble.Base.Runs.{Holds}
use fubble.Joining.{
  Bytes, is_accepted, Call, get_version, register_anonymously, synchronize, set_display_name,
  temporary_join, join_room_by_id, create_room, on_set, about_to_leave, stop_sync,
  close_participants, leave_room, Answer, value, error, World, Parameters, Answers, call, on_value,
  set_room, on_joined, join_room, on_connected, on_version, join, leave_client_room, leave,
}

abbrev pub is_value {ℓ} : {A : Type ℓ} → Answer A → Bool
is_value (value _) = true
is_value error = false

abbrev the {ℓ} : {A : Type ℓ} → A → Answer A → A
the d (value a) = a
the d error = d

-- The user and the room, once they are answered.
abbrev user : Answers → String
user a = the "" a.client

abbrev room : Answers → String
room a = the "" a.joined

-- The steps after the version was looked at: the calls of each, and whether it succeeds.
abbrev pub later : Parameters → Answers → List (List Call × Bool)
later p a =
    (register_anonymously ∷ [], is_value a.client)
    ∷ (synchronize (user a) ∷ set_display_name p.name ∷ [], is_value a.name_set)
    ∷ (temporary_join p.room (user a) ∷ [], is_value a.room_id)
    ∷ (join_room_by_id (the "" a.room_id) ∷ [], is_value a.joined)
    ∷ (create_room (user a) (room a) ∷ on_set ∷ [], true)
    ∷ []

-- Whether the minimum version came, and the installed one meets it.
abbrev pub is_recent : Bytes → Answers → Bool
is_recent installed a =
    is_value a.minimum_version && is_accepted (the [] a.minimum_version) installed

-- What entering a room consists of, independently of `join`.
abbrev pub steps : Bytes → Parameters → Answers → List (List Call × Bool)
steps installed p a = (get_version ∷ [], is_recent installed a) ∷ later p a

-- The calls up to the first step that fails, with those of this step.
abbrev pub performed : List (List Call × Bool) → List Call
performed [] = []
performed ((calls, b) ∷ l) = let rest = performed l in if b then calls ++ rest else calls

abbrev pub all_succeed : List (List Call × Bool) → Bool
all_succeed [] = true
all_succeed ((calls, b) ∷ l) = b && all_succeed l

abbrev pub oldest_first : List Call → List Call
oldest_first [] = []
oldest_first (c ∷ l) = oldest_first l ++ c ∷ []

-- The calls are those of the steps up to the first that fails; the result is the room, which is
-- entered, if all succeed, and else an exception; and the user is synchronized who was registered.
pub record IsDone (l : List (List Call × Bool)) (registered : Bool) (a : Answers)
    (t : Answer String × World) : Type 0 where
  pub made : oldest_first t.1.calls ≡ performed l
  pub result : t.0 ≡ (if all_succeed l then value (room a) else error)
  pub entered : t.1.room_ ≡ (if all_succeed l then some (room a) else none)
  pub syncing : t.1.synchronized ≡ (if registered then some (user a) else none)

abbrev pub nowhere : World
nowhere = record { room_ = none; synchronized = none; calls = [] }

-- Whatever is answered: the calls are those of the steps, with what was answered before, up to the
-- first step that fails, where the first one fails also on a version that is not accepted; the
-- result is the room if all steps succeed, and else an exception, and exactly then the client has
-- that room; and a user who was registered is being synchronized, also when a later step fails.
pub join_lem :
    (installed : Bytes) (p : Parameters) (a : Answers)
    → IsDone
        (steps installed p a)
        (is_recent installed a && is_value a.client)
        a
        (join installed p a nowhere)
unfolding join on_version on_connected join_room on_joined on_value call set_room
join_lem installed p a = by_answers a.minimum_version a.client a.name_set a.room_id a.joined
  where
    by_answers :
        (v : Answer Bytes) (c : Answer String) (n : Answer (Unit {0})) (i j : Answer String)
        → let a : Answers = record {
          minimum_version = v;
          client = c;
          name_set = n;
          room_id = i;
          joined = j;
        } in
          IsDone
            (steps installed p a)
            (is_recent installed a && is_value a.client)
            a
            (join installed p a nowhere)
    by_answers error c n i j = record { made = refl; result = refl; entered = refl; syncing = refl }
    by_answers (value m) c n i j = accepted (is_accepted m installed) c n i j
      where
        accepted :
            (b : Bool) (c : Answer String) (n : Answer (Unit {0})) (i j : Answer String)
            → let a : Answers = record {
              minimum_version = value m;
              client = c;
              name_set = n;
              room_id = i;
              joined = j;
            } in
              let w = call get_version nowhere in
              let l = (get_version ∷ [], b) ∷ later p a in
              let t =
                if b
                then on_value c (call register_anonymously w) (on_connected p a)
                else (error, w) in
              IsDone l (b && is_value c) a t
        accepted false c n i j = record {
          made = refl;
          result = refl;
          entered = refl;
          syncing = refl;
        }
        accepted true error n i j = record {
          made = refl;
          result = refl;
          entered = refl;
          syncing = refl;
        }
        accepted true (value u) error i j = record {
          made = refl;
          result = refl;
          entered = refl;
          syncing = refl;
        }
        accepted true (value u) (value _) error j = record {
          made = refl;
          result = refl;
          entered = refl;
          syncing = refl;
        }
        accepted true (value u) (value _) (value r) error = record {
          made = refl;
          result = refl;
          entered = refl;
          syncing = refl;
        }
        accepted true (value u) (value _) (value r) (value s) = record {
          made = refl;
          result = refl;
          entered = refl;
          syncing = refl;
        }

-- When the user leaves a room: the synchronization is stopped before the participants are closed, the
-- room is left at the server only if they could be closed, the client has no room afterwards in any
-- case, and it ends without an exception exactly if both succeeded.
pub leave_lem :
    (closed left : Bool) (r : String) (w : World)
    → w.room_ ≡ some r
    → Holds
        (λ (t : Bool × World).
          (t.0 ≡ (closed && left))
          × (t.1.room_ ≡ none)
          × (t.1.calls
              ≡ on_set
                ∷ (if closed
                    then leave_room r ∷ close_participants ∷ stop_sync ∷ about_to_leave ∷ w.calls
                    else close_participants ∷ stop_sync ∷ about_to_leave ∷ w.calls)))
        (leave closed left w)
unfolding leave leave_client_room call set_room
leave_lem true left r w e = rw e (refl, refl, refl)
leave_lem false left r w e = rw e (refl, refl, refl)
