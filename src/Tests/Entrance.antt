-- ===== src/Tests/Entrance.antt =====
-- Joining and leaving a room.
use fubble.Base.{◌≡◌, refl, Bool, true, false, ◌&&◌, none, some, [], ◌∷◌, if◌then◌else◌}
use fubble.Base.Runs.{Holds}
use fubble.Joining.{
  World, Parameters, Answers, value, error, join, leave, on_set, leave_room, close_participants,
  stop_sync, about_to_leave,
}
use fubble.Joining.Steps.{join_lem, leave_lem, IsDone, steps, is_recent, is_value, nowhere}

-- The temporary room cannot be joined.
abbrev answers : Answers
answers = record {
  minimum_version = value (b'1' ∷ []);
  client = value "@me";
  name_set = value tt;
  room_id = error;
  joined = value "!room";
}

abbrev ours : Parameters
ours = record { name = "me"; room = "ours" }

join_lem_example :
    IsDone
      (steps (b'2' ∷ []) ours answers)
      (is_recent (b'2' ∷ []) answers && is_value answers.client)
      answers
      (join (b'2' ∷ []) ours answers nowhere)
join_lem_example = join_lem (b'2' ∷ []) ours answers

abbrev inside : World
inside = record { room_ = some "!room"; synchronized = some "@me"; calls = [] }

leave_lem_example :
    Holds
      (λ (t : Bool × World).
        (t.0 ≡ (true && false))
        × (t.1.room_ ≡ none)
        × (t.1.calls
            ≡ on_set
              ∷ (if true
                  then leave_room "!room" ∷ close_participants ∷ stop_sync ∷ about_to_leave ∷ []
                  else close_participants ∷ stop_sync ∷ about_to_leave ∷ [])))
      (leave true false inside)
leave_lem_example = leave_lem true false "!room" inside refl
