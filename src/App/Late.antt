-- ===== src/App/Late.antt =====
-- Who was there before the list with videos, whose changes of video nobody listens to.
use fubble.Base.{
  ℕ, ◌+◌, ◌≤◌, ◌≡◌, refl, Bool, true, false, not, ◌&&◌, String, same, Option, none, some, List, [],
  ◌∷◌, ◌++◌, arith, if◌then◌else◌,
}
use fubble.Base.Runs.{Holds, Fits, run, run-Fits}
use fubble.App.{
  Participant, Model, Lists, filter_out_bots, create_participant_models, erase_model,
  on_participants_inserted, insert_joins, construct, on_joins, on_leave, set_video,
  on_video_changed,
}
use fubble.App.Shown.{
  Event, joins, leaves, video_changed, IsShown, step, Needs, step-IsShown, construct-IsShown,
}
use fubble.App.Counts.{
  count, count_id, count_shown, count_id-append, row-length, connect_row-length, count_id-set_video,
  count_id-erase,
}

-- How often the id is there with a connection.
abbrev pub count_connected : String → List Model → ℕ
count_connected id [] = 0
count_connected id (m ∷ l) = (if same m.id id && m.connected then 1 else 0) + count_connected id l

count_connected-append :
    (id : String) (l r : List Model)
    → count_connected id (l ++ r) ≡ count_connected id l + count_connected id r
count_connected-append id [] r = omega arith
count_connected-append id (m ∷ l) r = omega (arith, count_connected-append id l r)

count_connected-le : (id : String) (l : List Model) → count_connected id l ≤ count_id id l
count_connected-le id [] = omega arith
count_connected-le id (m ∷ l) = ground (arith, count_connected-le id l)

count_shown-le_connected : (id : String) (l : List Model) → count_shown id l ≤ count_connected id l
count_shown-le_connected id [] = omega arith
count_shown-le_connected id (m ∷ l) = ground (arith, count_shown-le_connected id l)

count_connected-create :
    (id : String) (l : List Participant) → count_connected id (create_participant_models l) ≡ 0
unfolding create_participant_models
count_connected-create id [] = refl
count_connected-create id (p ∷ l) = ground (arith, count_connected-create id l)

count_connected-set_video :
    (id j : String) (b : Bool) (l : List Model)
    → count_connected j (set_video id b l) ≡ count_connected j l
unfolding set_video
count_connected-set_video id j b [] = refl
count_connected-set_video id j b (m ∷ l) = ground (arith, count_connected-set_video id j b l)

count_connected-erase :
    (id j : String) (l : List Model) → count_connected j (erase_model id l) ≤ count_connected j l
unfolding erase_model
count_connected-erase id j [] = omega arith
count_connected-erase id j (m ∷ l) = ground (arith, count_connected-erase id j l)

-- The participant is there, and nobody listens to its changes of video.
abbrev pub IsLate : String → Lists → Type 0
IsLate id s = (count_id id s.participants ≡ 1) × (count_connected id s.participants ≡ 0)

abbrev pub leaves_not : String → Event → Bool
leaves_not id (leaves j) = not (same j id)
leaves_not id _ = true

module _ (own_id : String) where
  insert_joins-IsLate :
      (id : String) (p : Participant) (l : List Participant) (s : Lists)
      → ((i : String) → count_id i (s.participants ++ create_participant_models (p ∷ l)) ≤ 1)
      → count_id id s.participants + count_id id (create_participant_models l) ≡ 1
      → count_connected id s.participants ≡ 0
      → Holds (IsLate id) (insert_joins own_id (p ∷ l) s)
  unfolding insert_joins on_participants_inserted create_participant_models
  insert_joins-IsLate id p l s n h c =
      let m : Model = record { id = p.id; video = p.has_video; connected = false } in
      let r = create_participant_models l in
      let a : same p.id id ≡ false =
        ground (arith, n id, count_id-append id s.participants (m ∷ r)) in
      rw
        (
          row-length s.participants r m,
          on_participants_inserted,
          connect_row-length s.participants r m,
        )
        (late p.has_video a)
    where
      late :
          (b : Bool)
          → same p.id id ≡ false
          → (count_id id (
                s.participants
                ++ record { id = p.id; video = b; connected = true } ∷ create_participant_models l)
              ≡ 1)
            × (count_connected id (
                  s.participants
                  ++ record { id = p.id; video = b; connected = true }
                    ∷ create_participant_models l)
                ≡ 0)
      late b e = ground (
        arith,
        h,
        count_connected-create id l,
        count_connected-append id s.participants
            (record { id = p.id; video = b; connected = true } ∷ create_participant_models l),
        count_id-append id s.participants
            (record { id = p.id; video = b; connected = true } ∷ create_participant_models l),
      )

  on_joins-IsLate :
      (id : String) (l : List Participant) (s : Lists)
      → ((i : String) → count_id i (s.participants ++ create_participant_models l) ≤ 1)
      → IsLate id s
      → Holds (IsLate id) (insert_joins own_id l s)
  unfolding insert_joins create_participant_models
  on_joins-IsLate id [] s n v = v
  on_joins-IsLate id (p ∷ l) s n v =
      insert_joins-IsLate id p l s n
        (omega (arith, n id, count_id-append id s.participants (create_participant_models (p ∷ l))))
        v.1

  on_leave-IsLate :
      (id j : String) (s : Lists) → same j id ≡ false → IsLate id s → IsLate id (on_leave j s)
  unfolding on_leave
  on_leave-IsLate id j s h v =
      ground (arith, count_id-erase j id s.participants, count_connected-erase j id s.participants)

  on_video_changed-IsLate :
      (id j : String) (b : Bool) (s : Lists) → IsLate id s → IsLate id (on_video_changed j b s)
  unfolding on_video_changed
  on_video_changed-IsLate id j b s v = ground (
    arith,
    count_id-set_video j id b s.participants,
    count_connected-set_video j id b s.participants,
  )

  -- What has to fit for the histories in which the participant does not leave.
  abbrev pub NeedsStay : String → Event → Lists → Type 0
  NeedsStay id e s = Needs own_id e s × (leaves_not id e ≡ true)

  abbrev pub IsShownLate : String → Lists → Type 0
  IsShownLate id s = IsShown s × IsLate id s

  both :
      (P Q : Lists → Type 0) (o : Option Lists) → Holds P o → Holds Q o → Holds (λ s. P s × Q s) o
  both P Q none p q = p
  both P Q (some s) p q = (p, q)

  step-IsLate :
      (id : String) (e : Event) (s : Lists)
      → NeedsStay id e s
      → IsLate id s
      → Holds (IsLate id) (step own_id e s)
  unfolding step on_joins
  step-IsLate id (joins l) s n v = on_joins-IsLate id (filter_out_bots l) s n.0 v
  step-IsLate id (leaves j) s n v = on_leave-IsLate id j s (ground arith) v
  step-IsLate id (video_changed j b) s n v = on_video_changed-IsLate id j b s v

  step-IsShownLate :
      (id : String) (e : Event) (s : Lists)
      → NeedsStay id e s
      → IsShownLate id s
      → Holds (IsShownLate id) (step own_id e s)
  step-IsShownLate id e s n v =
      both IsShown (IsLate id) (step own_id e s) (step-IsShown own_id e s n.0 v.0)
        (step-IsLate id e s n v.1)

  -- If nobody, bots aside, is there twice at first or joins who is there: a participant who was there
  -- already when the lists were made and is no bot is not in the list with videos, whatever follows,
  -- as long as it does not leave.
  pub run-construct_unseen :
      (id : String) (l : List Participant) (es : List Event)
      → ((i : String) → count_id i (create_participant_models (filter_out_bots l)) ≤ 1)
      → count_id id (create_participant_models (filter_out_bots l)) ≡ 1
      → Fits (step own_id) (NeedsStay id) es (construct own_id l)
      → (t : Lists) × (run (step own_id) es (construct own_id l) ≡ some t)
        × (count id t.with_video ≡ 0)
  unfolding construct
  run-construct_unseen id l es n c fits =
      let (t, r, (w, late)) =
        run-Fits (step own_id) (NeedsStay id) (IsShownLate id) (step-IsShownLate id) es
          (construct own_id l) fits
          (construct-IsShown own_id l n, (c, count_connected-create id (filter_out_bots l))) in
      (t, r, omega (arith, w.shown id, count_shown-le_connected id t.participants, late.1))
