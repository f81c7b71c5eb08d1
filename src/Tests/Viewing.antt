-- ===== src/Tests/Viewing.antt =====
-- What the user interface shows of the participants.
use fubble.Base.{
  ℕ, ◌≡◌, ◌+◌, ◌≤◌, refl, ◌==◌, true, false, none, some, sym, subst, same, same→eq, Bool,
  if◌then◌else◌, text_discrete, List, [], ◌∷◌, arith, String,
}
use fubble.Base.Runs.{Fits, run}
use fubble.App.{Participant, Lists, filter_out_bots, create_participant_models, construct}
use fubble.App.Shown.{Event, leaves, video_changed, IsShown, step, Needs, run-construct-IsShown}
use fubble.App.Counts.{count, count_id}
use fubble.App.Late.{NeedsStay, run-construct_unseen}
use fubble.Receiving.{Receiver, video, audio}
use fubble.Receiving.Mirror as received
use fubble.Receiving.Mirror.{adds, removes, IsMirror, run-initial-IsMirror}
use fubble.Previews.{Previews, error_permanent}
use fubble.Previews.Kept as kept
use fubble.Previews.Started as previews
use fubble.Previews.Started.{starts, ticks, captures, stops, AreRunning, run-initial-AreRunning}
use fubble.Receiving.Crash.{removes_shown_first}

abbrev ann : Participant
ann = record { id = "ann"; is_bot = false; has_video = true }

abbrev bob : Participant
bob = record { id = "bob"; is_bot = false; has_video = true }

abbrev bot : Participant
bot = record { id = "bot"; is_bot = true; has_video = false }

-- Two members and a bot are there at first.
abbrev together : List Participant
together = bot ∷ ann ∷ bob ∷ []

abbrev afterwards : List Event
afterwards = video_changed "bob" false ∷ video_changed "bob" true ∷ leaves "ann" ∷ []

two_once :
    (p q : Participant) (id : String)
    → same p.id q.id ≡ false
    → count_id id (create_participant_models (p ∷ q ∷ [])) ≤ 1
unfolding create_participant_models
two_once p q id h = cases (same p.id id) (same q.id id) refl refl
  where
    cases :
        (a b : Bool)
        → same p.id id ≡ a
        → same q.id id ≡ b
        → (if a then 1 else 0) + ((if b then 1 else 0) + 0) ≤ 1
    cases true true e f =
        absurd (
          ground (arith, h, subst (λ (k : String). same p.id k ≡ true) (sym (same→eq q.id id f)) e))
    cases true false e f = omega arith
    cases false true e f = omega arith
    cases false false e f = omega arith

ann_bob : same "ann" "bob" ≡ false
unfolding text_discrete
ann_bob = refl

together_once :
    (id : String) → count_id id (create_participant_models (filter_out_bots together)) ≤ 1
unfolding filter_out_bots create_participant_models
together_once id = two_once ann bob id ann_bob

afterwards-Fits : Fits (step "ann") (Needs "ann") afterwards (construct "ann" together)
unfolding Fits step
afterwards-Fits = (tt, (tt, (tt, tt)))

run-construct-IsShown_example :
    (s : Lists) × (run (step "ann") afterwards (construct "ann" together) ≡ some s) × IsShown s
run-construct-IsShown_example =
    run-construct-IsShown "ann" together afterwards together_once afterwards-Fits

afterwards-FitsStay :
    Fits (step "ann") (NeedsStay "ann" "bob") afterwards (construct "ann" together)
unfolding Fits step text_discrete
afterwards-FitsStay = ((tt, refl), ((tt, refl), ((tt, refl), tt)))

run-construct_unseen_example :
    (t : Lists) × (run (step "ann") afterwards (construct "ann" together) ≡ some t)
    × (count "bob" t.with_video ≡ 0)
unfolding filter_out_bots create_participant_models text_discrete
run-construct_unseen_example =
    run-construct_unseen "ann" "bob" together afterwards together_once refl afterwards-FitsStay

abbrev tracks_come_and_go : List received.Event
tracks_come_and_go = adds 4 video ∷ adds 5 audio ∷ removes 4 ∷ adds 6 video ∷ removes 5 ∷ []

tracks-Fit : Fits received.step received.Needs tracks_come_and_go received.initial
unfolding Fits received.step
tracks-Fit = (refl, (tt, (refl, (refl, (refl, tt)))))

run-initial-IsMirror_example :
    (s : Receiver) × (run received.step tracks_come_and_go received.initial ≡ some s) × IsMirror s
run-initial-IsMirror_example = run-initial-IsMirror tracks_come_and_go tracks-Fit

abbrev two_videos : Receiver
two_videos = record {
  receiving_tracks =
      record { rtp = 4; track = 0; is_video = true }
      ∷ record { rtp = 5; track = 1; is_video = true }
      ∷ [];
  next = 2;
  videos = 0 ∷ 1 ∷ [];
  audios = [];
  video = some 1;
}

removes_shown_first_example :
    (received.step (removes 5) two_videos
      ≡ some (record two_videos {
        receiving_tracks = record { rtp = 4; track = 0; is_video = true } ∷ [];
        videos = 0 ∷ [];
        video = none;
      }))
    × (run received.step (removes 5 ∷ removes 4 ∷ []) two_videos ≡ none)
removes_shown_first_example =
    removes_shown_first 4 5 0 1 two_videos refl refl refl (λ e. absurd (omega (arith, e)))
      (λ e. absurd (omega (arith, e)))

-- Looking at the previews of a screen and a window, which closes.
abbrev a_screen : ℕ → Bool
a_screen id = id == 1

abbrev any : ℕ → Bool
any id = true

abbrev a_look : List previews.Event
a_look =
    starts any any (1 ∷ []) (7 ∷ [])
    ∷ ticks any any (1 ∷ []) (7 ∷ 8 ∷ [])
    ∷ captures false 7 error_permanent
    ∷ stops
    ∷ []

only_one : (id : ℕ) → kept.count_id id (1 ∷ []) ≤ 1
only_one id = ground arith

a_look-Fits : Fits previews.step (previews.Needs a_screen) a_look (previews.initial a_screen)
unfolding Fits previews.step
a_look-Fits = (
  (((refl, tt), (refl, tt), only_one, (λ id. ground arith)), refl),
  (
    (((refl, tt), (refl, (refl, tt)), only_one, (λ id. ground arith)), refl),
    ((refl, refl), (refl, tt)),
  ),
)

run-initial-AreRunning_example :
    (s : Previews × Bool) × (run previews.step a_look (previews.initial a_screen) ≡ some s)
    × AreRunning a_screen s
run-initial-AreRunning_example = run-initial-AreRunning a_screen a_look a_look-Fits
