-- ===== src/App/Shown.antt =====
-- Which participants the list with videos holds.
use fubble.Base.{
  ◌≤◌, ◌≡◌, refl, Bool, true, false, String, same_refl, Option, none, some, List, [], ◌∷◌, ◌++◌,
  arith, if◌then◌else◌,
}
use fubble.Base.Runs.{Holds, Fits, run, run-Fits}
use fubble.App.{
  Participant, Model, Lists, filter_out_bots, create_participant_models, find, erase_model,
  add_participant, remove_participant, on_participants_inserted, insert_joins, construct, on_joins,
  on_leave, set_video, on_video_changed,
}
use fubble.App.Counts.{
  count, count_id, count_shown, count_id-append, count_id-set_video, count_id-erase, row-length,
  connect_row-length, count_shown-create, count-inserted, count-erased, count-changed,
}

pub data Event : Type 0 where
  joins : List Participant → Event
  leaves : String → Event
  video_changed : String → Bool → Event

-- The list with videos holds each participant once that is connected and has a video, and no other;
-- participants are there once.
pub record IsShown (s : Lists) : Type 0 where
  pub unique : (id : String) → count_id id s.participants ≤ 1
  pub shown : (id : String) → count id s.with_video ≡ count_shown id s.participants

module _ (own_id : String) where
  unfoldable pub step : Event → Lists → Option Lists
  unfolding on_joins on_leave on_video_changed
  step (joins l) s = on_joins own_id l s
  step (leaves id) s = some (on_leave id s)
  step (video_changed id b) s = some (on_video_changed id b s)

  -- Who joins is not there, and not twice among those who join.
  abbrev pub Needs : Event → Lists → Type 0
  Needs (joins l) s =
      (id : String)
      → count_id id (s.participants ++ create_participant_models (filter_out_bots l)) ≤ 1
  Needs _ s = Unit {0}

  insert_joins-IsShown :
      (l : List Participant) (s : Lists)
      → ((id : String) → count_id id (s.participants ++ create_participant_models l) ≤ 1)
      → IsShown s
      → Holds IsShown (insert_joins own_id l s)
  unfolding insert_joins on_participants_inserted create_participant_models
  insert_joins-IsShown [] s n v = v
  insert_joins-IsShown (p ∷ l) s n v =
      let m : Model = record { id = p.id; video = p.has_video; connected = false } in
      let r = create_participant_models l in
      rw
        (
          row-length s.participants r m,
          on_participants_inserted,
          connect_row-length s.participants r m,
        )
        (record {
          unique = λ j. omega (
            arith,
            n j,
            count_id-append j s.participants (m ∷ r),
            count_id-append j s.participants (record m { connected = true } ∷ r),
          );
          shown = λ j.
              count-inserted p.id j p.has_video s.participants r s.with_video
                (ground
                  (arith, n p.id, count_id-append p.id s.participants (m ∷ r), same_refl p.id))
                (count_shown-create j l) v.shown;
        })

  on_leave-IsShown : (id : String) (s : Lists) → IsShown s → IsShown (on_leave id s)
  unfolding on_leave
  on_leave-IsShown id s v = found (find id s.participants)
    where
      found :
          (o : Option Model)
          → IsShown (elim o as (λ _. Lists) [
            | none ↦ s
            | some m ↦ record s {
              participants = erase_model id s.participants;
              with_video = remove_participant id s.with_video;
            }
          ])
      found none = v
      found (some m) = record {
        unique = λ j. ground (arith, count_id-erase id j s.participants, v.unique j);
        shown = λ j. count-erased id j s.participants s.with_video v.unique v.shown;
      }

  on_video_changed-IsShown :
      (id : String) (b : Bool) (s : Lists) → IsShown s → IsShown (on_video_changed id b s)
  unfolding on_video_changed
  on_video_changed-IsShown id b s v = found (find id s.participants) refl
    where
      found :
          (o : Option Model)
          → find id s.participants ≡ o
          → IsShown (elim o as (λ _. Lists) [
            | none ↦ s
            | some m ↦ record s {
              participants = set_video id b s.participants;
              with_video =
                  if m.connected
                  then if b
                    then add_participant id s.with_video
                    else remove_participant id s.with_video
                  else s.with_video;
            }
          ])
      found none e = v
      found (some m) e = record {
        unique = λ j. omega (arith, v.unique j, count_id-set_video id j b s.participants);
        shown = λ j. count-changed id j b m s.participants s.with_video e v.unique v.shown;
      }

  pub step-IsShown : (e : Event) (s : Lists) → Needs e s → IsShown s → Holds IsShown (step e s)
  unfolding step on_joins
  step-IsShown (joins l) s n v = insert_joins-IsShown (filter_out_bots l) s n v
  step-IsShown (leaves id) s n v = on_leave-IsShown id s v
  step-IsShown (video_changed id b) s n v = on_video_changed-IsShown id b s v

  pub construct-IsShown :
      (l : List Participant)
      → ((id : String) → count_id id (create_participant_models (filter_out_bots l)) ≤ 1)
      → IsShown (construct own_id l)
  unfolding construct
  construct-IsShown l n = record {
    unique = n;
    shown = λ j. omega (arith, count_shown-create j (filter_out_bots l));
  }

  -- Whoever is there at first, joins and leaves and whatever videos come and go, if nobody is there
  -- twice at first or joins who is there: no row is read that is not there, and the list with videos
  -- holds, once, exactly the participants who are there with a video and whose changes of video are
  -- listened to.
  pub run-construct-IsShown :
      (l : List Participant) (es : List Event)
      → ((id : String) → count_id id (create_participant_models (filter_out_bots l)) ≤ 1)
      → Fits step Needs es (construct own_id l)
      → (s : Lists) × (run step es (construct own_id l) ≡ some s) × IsShown s
  run-construct-IsShown l es n f =
      run-Fits step Needs IsShown step-IsShown es (construct own_id l) f (construct-IsShown l n)
